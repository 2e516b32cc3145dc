-- ===== src/Auth/Roles.antt =====
-- `require_roles` of src/app/oidc.py, the routes that use it (src/app/controllers/audit.py,
-- src/app/crud_1/heroes/heroes_v2.py), and what it lets through.
use template_fastapi.Base.{
  String, Bool, true, false, Option, none, some, List, [], ◌∷◌, ◌++◌, Result, ok, err, ◌>>=◌, any,
  ◌==◌, string_eq, if◌then◌else◌,
}
use template_fastapi.Base.Json.{Json, Members, str, arr, obj, nil, end, get, elems, keys, letters}
use template_fastapi.Settings.{Settings}
use template_fastapi.Auth.{HttpError}

-- Exceptions that nobody catches: the app answers 500.
pub data Crash : Type 0 where
  type_error attribute_error key_error : Crash

pub data Failure : Type 0 where
  http : HttpError → Failure
  crash : Crash → Failure

abbrev pub get_or : Json → Option Json → Json
get_or d none = d
get_or d (some v) = v

-- `value.get(key, default)` on whatever a claim holds.
abbrev pub get_from : String → Json → Json → Result Crash Json
get_from key d (obj ms) = ok (get_or d (get key ms))
get_from key d _ = err attribute_error

abbrev pub is_hashable : Json → Bool
is_hashable (arr es) = false
is_hashable (obj ms) = false
is_hashable _ = true

abbrev pub hashed : List Json → Result Crash (List Json)
hashed [] = ok []
hashed (v ∷ vs) =
    let rest = hashed vs in if is_hashable v then rest >>= (λ ws. ok (v ∷ ws)) else err type_error

-- `set(value)`: an array by its items, an object by its keys, a text by its letters.
abbrev pub to_set : Json → Result Crash (List Json)
to_set (arr es) = hashed (elems es)
to_set (obj ms) = ok (keys ms)
to_set (str s) = ok (letters s)
to_set _ = err type_error

-- `claims.get("resource_access", {}).get(client_id, {}).get("roles", [])`
unfoldable pub roles_claim : Settings → Members → Result Crash Json
roles_claim s claims = do
  client ← get_from s.oidc_client_id (obj end) (get_or (obj end) (get "resource_access" claims))
  get_from "roles" (arr nil) client

abbrev pub is_role : String → Json → Bool
is_role role (str s) = s == role
is_role role _ = false

-- `granted.intersection(roles)` is not empty.
abbrev pub intersects : List Json → List String → Bool
intersects granted roles = any (λ role. any (is_role role) granted) roles

-- What the dependency leaves on the request, and in the log.
pub record RequestState : Type 0 where
  pub claims : Option Members
  pub denials : List (String × List String)

abbrev pub forbidden : HttpError
forbidden = record { status = 403; detail = "Insufficient role"; headers = [] }

abbrev pub decide :
    List String → String → Members → RequestState → Bool → Result Failure Members × RequestState
decide roles path claims st true = (ok claims, record st { claims = some claims })
decide roles path claims st false =
    (err (http forbidden), record st { denials = st.denials ++ ((path, roles) ∷ []) })

abbrev pub decide_by :
    List String
    → String
    → Members
    → RequestState
    → Result Crash (List Json)
    → Result Failure Members × RequestState
decide_by roles path claims st (err e) = (err (crash e), st)
decide_by roles path claims st (ok granted) = decide roles path claims st (intersects granted roles)

-- The roles that the claims grant for this client.
unfoldable pub granted : Settings → Members → Result Crash (List Json)
unfolding roles_claim
granted s claims = do value ← roles_claim s claims; to_set value

unfoldable pub require_roles :
    Settings → List String → String → Members → RequestState → Result Failure Members × RequestState
require_roles s roles path claims st = decide_by roles path claims st (granted s claims)

-- The example route: the subject, and the roles as they stand in the claims.
abbrev subject : Option Json → Result Crash Json
subject none = err key_error
subject (some v) = ok v

unfoldable pub audit : Settings → Members → Result Crash (Json × Json)
audit s claims = do sub ← subject (get "sub" claims); roles ← roles_claim s claims; ok (sub, roles)

abbrev pub audit_roles : List String
audit_roles = "security" ∷ "detective" ∷ []

abbrev pub read_role_names : List String
read_role_names = "viewer" ∷ "editor" ∷ "maintainer" ∷ "detective" ∷ []

abbrev pub write_role_names : List String
write_role_names = "editor" ∷ "maintainer" ∷ []

abbrev pub delete_role_names : List String
delete_role_names = "maintainer" ∷ []
