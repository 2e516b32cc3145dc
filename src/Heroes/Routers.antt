-- ===== src/Heroes/Routers.antt =====
-- src/app/crud_1/heroes/heroes_v2.py, heroes_v1.py, __init__.py beside them and
-- src/app/crud_1/__init__.py: the CRUD interface that a request for heroes gets, the options of
-- the two routers, and where they are mounted. What the routers do with these is the
-- craftainer_crud library.
use text.Mathlib.TextLemmas.{append_assoc}
use template_fastapi.Base.{
  String, Bool, true, false, Option, none, some, List, [], ◌∷◌, Result, ok, err, ◌<>◌, ◌≡◌, ◌≢◌,
  refl, All, map,
}
use template_fastapi.Base.Json.{Json, Members, get}
use template_fastapi.Settings.{Settings, mock}
use template_fastapi.Auth.{Provider, HttpError, State, get_current_claims}
use template_fastapi.Auth.Tokens.{IsVerified, get_current_claims-IsVerified}
use template_fastapi.Auth.Roles.{
  Crash, key_error, Failure, http, crash, read_role_names, write_role_names, delete_role_names,
}

-- `OwnerScope(field, owner, read_scoped=...)`
pub record OwnerScope : Type 0 where
  pub field : String
  pub owner : Json
  pub read_scoped : Bool

pub record HeroCrud : Type 0 where
  pub owner : OwnerScope
  pub events_url : String
  pub resource : String
  pub actor : String

abbrev pub v2_path : String → String
v2_path router_version = "/crud/v" <> (router_version <> "/heroes/v2")

abbrev pub owned_by : (Json → String) → String → Option Json → Result Crash HeroCrud
owned_by to_text router_version none = err key_error
owned_by to_text router_version (some sub) = ok (record {
  owner = record { field = "owner_id"; owner = sub; read_scoped = false };
  events_url = v2_path router_version;
  resource = "hero";
  actor = to_text sub;
})

-- The subject is indexed before the actor, which would have a default, is looked up; `to_text` is
-- Python's `str`.
unfoldable pub get_hero_crud : (Json → String) → String → Members → Result Crash HeroCrud
get_hero_crud to_text router_version claims = owned_by to_text router_version (get "sub" claims)

module _ (P : Provider) (to_text : Json → String) (s : Settings) (router_version : String) where
  abbrev pub crashing : Result Crash HeroCrud → Result Failure HeroCrud
  crashing (err c) = err (crash c)
  crashing (ok crud) = ok crud

  abbrev pub from_claims : Result HttpError Members × State P → Result Failure HeroCrud × State P
  from_claims (err e, st) = (err (http e), st)
  from_claims (ok claims, st) = (crashing (get_hero_crud to_text router_version claims), st)

  -- The dependency with the one that it depends on.
  unfoldable pub hero_crud : String → String → State P → Result Failure HeroCrud × State P
  unfolding get_hero_crud
  hero_crud path token st = from_claims (get_current_claims P s path token st)

  -- The interface is that of the subject `sub`: they alone may write, and everyone may read.
  abbrev pub IsOwnedBy : Json → HeroCrud → Type 0
  IsOwnedBy sub crud =
      (crud.owner.owner ≡ sub)
      × (crud.owner.field ≡ "owner_id")
      × (crud.owner.read_scoped ≡ false)
      × (crud.actor ≡ to_text sub)

  -- What became of a request with `token`, whose claims were `r`.
  abbrev pub IsResolved : String → Result HttpError Members → Result Failure HeroCrud → Type 0
  IsResolved token r (ok crud) =
      (claims : Members) × IsVerified P s token claims
      × ((sub : Json) × (get "sub" claims ≡ some sub) × IsOwnedBy sub crud)
  IsResolved token r (err (http e)) = r ≡ err e
  IsResolved token r (err (crash c)) =
      (claims : Members) × IsVerified P s token claims × (get "sub" claims ≡ none) × (c ≡ key_error)

  owned_by-IsResolved :
      (token : String) (claims : Members) (sub : Option Json)
      → IsVerified P s token claims
      → get "sub" claims ≡ sub
      → IsResolved token (ok claims) (crashing (owned_by to_text router_version sub))
  owned_by-IsResolved token claims none v e = (claims, v, e, refl)
  owned_by-IsResolved token claims (some sub) v e = (claims, v, (sub, e, (refl, refl, refl, refl)))

  from_claims-IsResolved :
      (token : String) (r : Result HttpError Members × State P)
      → ((claims : Members) → r.0 ≡ ok claims → IsVerified P s token claims)
      → IsResolved token r.0 (from_claims r).0
  unfolding get_hero_crud
  from_claims-IsResolved token (err e, st) v = refl
  from_claims-IsResolved token (ok claims, st) v =
      owned_by-IsResolved token claims (get "sub" claims) (v claims refl) refl

  -- Outside MODE=mock, a request that gets a CRUD interface for heroes has a token that a key of the
  -- provider verifies, whose claims name a subject; the interface writes only what this subject
  -- owns and logs them as the actor. Any other request gets the error of its claims, or, for
  -- claims that are verified but name no subject, a KeyError.
  pub hero_crud-IsResolved :
      (path token : String) (st : State P)
      → s.mode ≢ mock
      → IsResolved token (get_current_claims P s path token st).0 (hero_crud path token st).0
  unfolding hero_crud
  hero_crud-IsResolved path token st real =
      from_claims-IsResolved token (get_current_claims P s path token st)
        (λ claims h. get_current_claims-IsVerified P s path token st real h)

-- `build_resource_router(...)`, with its `ManifestOptions`; `sunset` is the date, and the path of the
-- successor, that a deprecated router announces. A flag that is none is not passed.
pub record ResourceRouter : Type 0 where
  pub prefix : String
  pub api_prefix : String
  pub fields : List String
  pub read_roles : List String
  pub write_roles : List String
  pub delete_roles : List String
  pub archivable : Option Bool
  pub has_revisions : Bool
  pub has_events : Bool
  pub stats_enabled : Option Bool
  pub sunset : Option (String × String)
  pub api_version : String
  pub title : String
  pub owner_scoped : Bool
  pub manifest_roles : List String × List String × List String

abbrev pub manifest_roles_of : List String × List String × List String
manifest_roles_of = (read_role_names, write_role_names, delete_role_names)

unfoldable pub heroes_v2 : String → ResourceRouter
heroes_v2 router_version = record {
  prefix = "";
  api_prefix = v2_path router_version;
  fields = "name" ∷ "powers" ∷ "power_level" ∷ [];
  read_roles = read_role_names;
  write_roles = write_role_names;
  delete_roles = delete_role_names;
  archivable = some true;
  has_revisions = true;
  has_events = true;
  stats_enabled = some true;
  sunset = none;
  api_version = "v2";
  title = "Heroes";
  owner_scoped = false;
  manifest_roles = manifest_roles_of;
}

unfoldable pub heroes_v1 : String → ResourceRouter
heroes_v1 router_version = record {
  prefix = "";
  api_prefix = "/crud/v" <> (router_version <> "/heroes/v1");
  fields = "name" ∷ "superpower" ∷ [];
  read_roles = read_role_names;
  write_roles = write_role_names;
  delete_roles = delete_role_names;
  archivable = none;
  has_revisions = false;
  has_events = false;
  stats_enabled = none;
  sunset = some ("2027-01-01T00:00:00+00:00", v2_path router_version);
  api_version = "v1";
  title = "Heroes (v1, deprecated)";
  owner_scoped = false;
  manifest_roles = manifest_roles_of;
}

-- The routers with the prefixes under which heroes/__init__.py mounts them.
abbrev pub versions : String → List (String × ResourceRouter)
versions router_version = ("/v2", heroes_v2 router_version) ∷ ("/v1", heroes_v1 router_version) ∷ []

-- `router.include_router(r, prefix=prefix)`: the routers of `r` and their prefixes.
abbrev pub include_router : String → List (String × ResourceRouter) → List (String × ResourceRouter)
include_router prefix = map (λ r. (prefix <> r.0, r.1))

-- What main.py mounts, through crud_1/__init__.py.
unfoldable pub mounted : String → List (String × ResourceRouter)
unfolding heroes_v2 heroes_v1
mounted router_version =
    include_router ("/crud/v" <> router_version)
      (include_router "/heroes" (versions router_version))

-- Every router stands where it says it does, and the manifest tells its roles.
pub mounted-api_prefix :
    (router_version : String)
    → All
        (λ r.
          (r.0 ≡ r.1.api_prefix)
          × (r.1.manifest_roles ≡ (r.1.read_roles, r.1.write_roles, r.1.delete_roles)))
        (mounted router_version)
unfolding mounted
mounted-api_prefix v = (
  (append_assoc "/crud/v" v "/heroes/v2", refl),
  ((append_assoc "/crud/v" v "/heroes/v1", refl), tt),
)
