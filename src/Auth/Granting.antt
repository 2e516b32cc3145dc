-- ===== src/Auth/Granting.antt =====
-- Whom `require_roles` of src/app/oidc.py lets through, and what it leaves behind.
use mathlib.Core.Path.{subst}
use template_fastapi.Base.{
  String, Bool, true, false, Bool-cases, sym, ap, ◌≡◌, ◌↔◌, ◌⊎◌, inl, inr, refl, ◌∙◌, some, List,
  [], ◌∷◌, Result, ok, err, any, string_eq, eq_iff, arith,
}
use template_fastapi.Base.Json.{Json, Members, null, bool, int, float, str, arr, obj}
use template_fastapi.Settings.{Settings}
use template_fastapi.Auth.Granted.{Grants, granted-Grants}
use template_fastapi.Auth.Roles.{
  Crash, Failure, http, crash, granted, require_roles, intersects, is_role, decide, decide_by,
  RequestState, delete_role_names, write_role_names, read_role_names,
}

abbrev pub In : String → List String → Type 0
In role [] = ⊥
In role (r ∷ roles) = (r ≡ role) ⊎ In role roles

abbrev pub Holds : String → List Json → Type 0
Holds role [] = ⊥
Holds role (v ∷ vs) = (v ≡ str role) ⊎ Holds role vs

-- One of the roles is among those that the claims grant for this client.
abbrev pub HasRole : Settings → List String → Members → Type 0
HasRole s roles claims =
    (role : String) × (gs : List Json) × Grants s claims gs × In role roles × Holds role gs

is_role_iff : (role : String) (v : Json) → (is_role role v ≡ true) ↔ (v ≡ str role)
is_role_iff role (str s) = ground (arith, eq_iff s role)
is_role_iff role null = ground arith
is_role_iff role (bool b) = ground arith
is_role_iff role (int n) = ground arith
is_role_iff role (float t) = ground arith
is_role_iff role (arr es) = ground arith
is_role_iff role (obj ms) = ground arith

Holds-iff : (role : String) (vs : List Json) → (any (is_role role) vs ≡ true) ↔ Holds role vs
Holds-iff role [] = ground arith
Holds-iff role (v ∷ vs) = ground (arith, is_role_iff role v, Holds-iff role vs)

intersects_sound :
    (gs : List Json) (roles : List String)
    → intersects gs roles ≡ true
    → (role : String) × In role roles × Holds role gs
intersects_sound gs [] h = absurd (cc)
intersects_sound gs (r ∷ roles) h = elim (Bool-cases (any (is_role r) gs)) [
  | inl here ↦ (r, inl refl, (Holds-iff r gs).0 here)
  | inr away ↦ let (role, i, held) = intersects_sound gs roles (ground arith) in (role, inr i, held)
]

intersects_complete :
    (gs : List Json) (roles : List String) (role : String)
    → In role roles
    → Holds role gs
    → intersects gs roles ≡ true
intersects_complete gs [] role i h = absurd i
intersects_complete gs (r ∷ roles) role (inl e) h =
    ground (arith, (Holds-iff r gs).1 (subst (λ x. Holds x gs) (sym e) h))
intersects_complete gs (r ∷ roles) role (inr i) h =
    ground (arith, intersects_complete gs roles role i h)

-- Of more roles, the claims hold one if they do of fewer.
HasRole-mono :
    (s : Settings) (claims : Members) (few many : List String)
    → ((role : String) → In role few → In role many)
    → HasRole s few claims
    → HasRole s many claims
HasRole-mono s claims few many sub (role, gs, e, i, h) = (role, gs, e, sub role i, h)

module _ (s : Settings) (path : String) (claims : Members) (st : RequestState) where
  decide_by-HasRole :
      (roles : List String) (r : Result Crash (List Json))
      → (gs : List Json) → r ≡ ok gs
      → (role : String) → In role roles
      → Holds role gs
      → decide_by roles path claims st r ≡ (ok claims, record st { claims = some claims })
  decide_by-HasRole roles (err e) gs p role i h = absurd (cc)
  decide_by-HasRole roles (ok gs') gs p role i h =
      rw (intersects_complete gs' roles role i (ground arith)) refl

  decide_by-ok :
      (roles : List String) (r : Result Crash (List Json)) {c : Members}
      → (decide_by roles path claims st r).0 ≡ ok c
      → (role : String) × (gs : List Json) × (r ≡ ok gs) × In role roles × Holds role gs
  decide_by-ok roles (err e) h = absurd (cc)
  decide_by-ok roles (ok gs) h =
      let (role, i, held) = intersects_sound gs roles (ground arith) in (role, gs, refl, i, held)

  -- A request passes exactly if one of the roles is among those that its claims grant for the
  -- client of the settings: under `resource_access`, the client's id and `roles`, where a missing
  -- key is an empty object or list, the items of an array of neither arrays nor objects, the keys
  -- of an object, or the letters of a text.
  pub require_roles-HasRole_iff :
      (roles : List String)
      → ((require_roles s roles path claims st).0 ≡ ok claims) ↔ HasRole s roles claims
  unfolding require_roles
  require_roles-HasRole_iff roles = (
    λ h.
        let (role, gs, e, i, held) = decide_by-ok roles (granted s claims) h in
        (role, gs, (granted-Grants s claims gs).0 e, i, held),
    λ (role, gs, g, i, h).
        ap (λ r. r.0)
          (decide_by-HasRole roles (granted s claims) gs ((granted-Grants s claims gs).1 g) role i
            h),
  )

  -- What the check decides, and why: the claims themselves if they hold a role, the 403 if they
  -- grant a set of roles but none of these, and an exception if they grant no set of roles.
  abbrev pub IsDecided : List String → Result Failure Members → Type 0
  IsDecided roles (ok c) = (c ≡ claims) × HasRole s roles claims
  IsDecided roles (err (http e)) =
      (e ≡ record { status = 403; detail = "Insufficient role"; headers = [] })
      × ((gs : List Json) × Grants s claims gs)
      × (HasRole s roles claims → ⊥)
  IsDecided roles (err (crash e)) = (gs : List Json) → Grants s claims gs → ⊥

  decide-IsDecided :
      (roles : List String) (gs : List Json) (b : Bool)
      → granted s claims ≡ ok gs
      → intersects gs roles ≡ b
      → IsDecided roles (decide roles path claims st b).0
  decide-IsDecided roles gs true e h =
      let (role, i, held) = intersects_sound gs roles h in
      (refl, (role, gs, (granted-Grants s claims gs).0 e, i, held))
  decide-IsDecided roles gs false e h = (
    refl,
    (gs, (granted-Grants s claims gs).0 e),
    λ (role, gs', g, i, held).
        let f : granted s claims ≡ ok gs' = (granted-Grants s claims gs').1 g in
        let same : gs' ≡ gs = ground (arith, e, f) in
        absurd (ground (arith, h, intersects_complete gs' roles role i held, same)),
  )

  decide_by-IsDecided :
      (roles : List String) (r : Result Crash (List Json))
      → granted s claims ≡ r
      → IsDecided roles (decide_by roles path claims st r).0
  decide_by-IsDecided roles (err c) e =
      λ gs g. absurd (let odd : err c ≡ ok gs = sym e ∙ (granted-Grants s claims gs).1 g in cc)
  decide_by-IsDecided roles (ok gs) e = decide-IsDecided roles gs (intersects gs roles) e refl

  pub require_roles-IsDecided :
      (roles : List String) → IsDecided roles (require_roles s roles path claims st).0
  unfolding require_roles
  require_roles-IsDecided roles = decide_by-IsDecided roles (granted s claims) refl

delete-subset-write : (role : String) → In role delete_role_names → In role write_role_names
delete-subset-write role i = ground arith

write-subset-read : (role : String) → In role write_role_names → In role read_role_names
write-subset-read role i = ground arith

-- Whoever may delete heroes may write them, and whoever may write them may read them: the
-- dependencies of the three kinds of route let through fewer and fewer claims.
pub hero_roles_nested :
    (s : Settings) (path : String) (claims : Members) (st : RequestState)
    → ((require_roles s delete_role_names path claims st).0 ≡ ok claims
        → (require_roles s write_role_names path claims st).0 ≡ ok claims)
      × ((require_roles s write_role_names path claims st).0 ≡ ok claims
          → (require_roles s read_role_names path claims st).0 ≡ ok claims)
hero_roles_nested s path claims st =
    let passes = λ (roles : List String). require_roles-HasRole_iff s path claims st roles in
    (
      λ h. (passes write_role_names).1 (
          HasRole-mono s claims delete_role_names write_role_names delete-subset-write
            ((passes delete_role_names).0 h)),
      λ h. (passes read_role_names).1 (
          HasRole-mono s claims write_role_names read_role_names write-subset-read
            ((passes write_role_names).0 h)),
    )
