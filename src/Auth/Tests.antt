-- ===== src/Auth/Tests.antt =====
-- Runs of the token and role checks, and the theorems at concrete data.
use template_fastapi.Base.{
  ap, ℕ, Option, nat_eq, String, true, ◌≡◌, ◌↔◌, refl, none, some, List, [], ◌∷◌, ok, err, ◌==◌,
  string_eq, if◌then◌else◌, ◌⊎◌,
}
use template_fastapi.App.Protected.{IsGuarded, protected_route, protected_route-IsGuarded}
use template_fastapi.Heroes.Routers.{hero_crud, IsResolved, hero_crud-IsResolved}
use template_fastapi.Base.Json.{Json, Members, str, arr, obj, member, end, get, texts}
use template_fastapi.Settings.{Settings, mock}
use template_fastapi.Settings.Defaults.{default_settings}
use template_fastapi.Auth.{
  Provider, State, get_current_claims, decode_bearer_token, get_jwks_client, stays_on_loop,
}
use template_fastapi.Auth.Roles.{
  Crash, granted, RequestState, http, forbidden, require_roles, read_role_names, delete_role_names,
  audit_roles,
}
use template_fastapi.Auth.Granting.{In, HasRole, require_roles-HasRole_iff}
use template_fastapi.Auth.Tokens.{IsVerified, get_current_claims-IsVerified, serve, client-serve}
use template_fastapi.Auth.Refused.{IsLogged, get_current_claims-IsLogged}
use template_fastapi.Auth.Warm.{IsServed, stays_on_loop-IsWarm}
use template_fastapi.Auth.Mock.{
  MockTokenRequest, mock_claims, issue_mock_token, issue_mock_token-require_roles,
}

abbrev alice : Members
alice = member "sub" (str "alice") (
    member "resource_access"
      (obj (member "api" (obj (member "roles" (arr (texts ("maintainer" ∷ []))) end)) end)) end)

-- A provider whose network works, with one key; its only good token is "t".
abbrev provider : Provider
provider = record {
  World = ℕ;
  Client = Unit {0};
  Key = ℕ;
  discover = λ url w. (some tt, w);
  signing_key = λ c token w. (some 7, w);
  fetch_set = λ c w. (some tt, w);
  cached_set = λ c w. some (record { key_id = some "k"; public_key_use = some "sig" } ∷ []);
  unverified_kid = λ token. if token == "t" then some (some "k") else none;
  decode_unverified = λ token. if token == "t" then some alice else none;
  decode =
      λ key algorithms audience issuer required token. if token == "t" then some alice else none;
}

abbrev cold : State provider
cold = record { world = 0; client = none; log = [] }

abbrev warm : State provider
warm = record { world = 0; client = some tt; log = [] }

accepted : get_current_claims provider default_settings "/audit" "t" cold ≡ (ok alice, warm)
unfolding get_current_claims decode_bearer_token get_jwks_client stays_on_loop
accepted = refl

get_current_claims-IsVerified_example : IsVerified provider default_settings "t" alice
get_current_claims-IsVerified_example =
    get_current_claims-IsVerified provider default_settings "/audit" "t" cold (λ e. cc)
      (ap (λ r. r.0) accepted)

get_current_claims-IsLogged_example :
    IsLogged provider default_settings "/audit" "bad" cold
      (get_current_claims provider default_settings "/audit" "bad" cold)
get_current_claims-IsLogged_example =
    get_current_claims-IsLogged provider default_settings "/audit" "bad" cold

warm_token : stays_on_loop provider default_settings "t" warm ≡ true
unfolding stays_on_loop
warm_token = refl

stays_on_loop-IsWarm_example :
    (c : Unit {0}) × (warm.client ≡ some c)
    × (get_jwks_client provider default_settings warm ≡ (ok c, warm))
    × ((provider.unverified_kid "t" ≡ none) ⊎ IsServed provider default_settings "t" c 0)
stays_on_loop-IsWarm_example =
    stays_on_loop-IsWarm provider default_settings "t" warm (λ e. cc) warm_token

abbrev requests : List (String × String)
requests = ("/audit", "bad") ∷ ("/audit", "t") ∷ []

client-serve_example :
    ((serve provider default_settings requests warm).client ≡ some tt)
    × (get_jwks_client provider default_settings (serve provider default_settings requests warm)
        ≡ (ok tt, serve provider default_settings requests warm))
client-serve_example = client-serve provider default_settings requests warm tt refl

abbrev fresh : RequestState
fresh = record { claims = none; denials = [] }

auditor_denied :
    require_roles default_settings audit_roles "/audit" alice fresh
    ≡ (err (http forbidden), record { claims = none; denials = ("/audit", audit_roles) ∷ [] })
unfolding require_roles granted get
auditor_denied = refl

require_roles-HasRole_iff_example :
    ((require_roles default_settings delete_role_names "/crud" alice fresh).0 ≡ ok alice)
    ↔ HasRole default_settings delete_role_names alice
require_roles-HasRole_iff_example =
    require_roles-HasRole_iff default_settings "/crud" alice fresh delete_role_names

abbrev mock_settings : Settings
mock_settings = record default_settings { mode = mock; allow_mock_mode = true }

abbrev viewer : MockTokenRequest
viewer = record { sub = "v"; roles = "viewer" ∷ [] }

abbrev mock_provider : Provider
mock_provider = record provider {
  decode_unverified =
      λ token. if token == "m" then some (mock_claims mock_settings viewer) else none;
}

abbrev idle : State mock_provider
idle = record { world = 0; client = none; log = [] }

issue_mock_token-require_roles_example :
    (get_current_claims mock_provider mock_settings "/crud"
        (issue_mock_token (λ claims key algorithm. "m") mock_settings viewer)
        idle
      ≡ (ok (mock_claims mock_settings viewer), idle))
    × (((require_roles mock_settings read_role_names "/crud"
            (mock_claims mock_settings viewer)
            fresh).0
          ≡ ok (mock_claims mock_settings viewer))
        ↔ ((role : String) × In role read_role_names × In role ("viewer" ∷ [])))
issue_mock_token-require_roles_example =
    issue_mock_token-require_roles mock_provider (λ claims key algorithm. "m") mock_settings viewer
      "/crud" idle fresh read_role_names refl refl

abbrev shown : Json → String
shown (str text) = text
shown _ = ""

hero_crud-IsResolved_example :
    IsResolved provider shown default_settings "1" "t"
      (get_current_claims provider default_settings "/crud" "t" cold).0
      (hero_crud provider shown default_settings "1" "/crud" "t" cold).0
hero_crud-IsResolved_example =
    hero_crud-IsResolved provider shown default_settings "1" "/crud" "t" cold (λ e. cc)

abbrev phrase_of : ℕ → Option String
phrase_of n =
    if n == 401
    then some "Unauthorized"
    else if n == 403
    then some "Forbidden"
    else if n == 500
    then some "Internal Server Error"
    else if n == 503
    then some "Service Unavailable"
    else none

abbrev text_of : Crash → String
text_of c = "error"

protected_route-IsGuarded_example :
    IsGuarded provider phrase_of text_of default_settings audit_roles "/audit" (some "t") cold (
      protected_route provider phrase_of text_of default_settings audit_roles "/audit"
        (some "t")
        cold
        fresh)
protected_route-IsGuarded_example =
    protected_route-IsGuarded provider phrase_of text_of default_settings audit_roles "/audit"
      (
        ("Unauthorized", refl),
        (
          ("Forbidden", refl),
          (("Internal Server Error", refl), (("Service Unavailable", refl), tt)),
        ),
      )
      (some "t") cold fresh (λ e. cc)
