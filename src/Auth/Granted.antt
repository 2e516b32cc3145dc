-- ===== src/Auth/Granted.antt =====
-- What `require_roles` of src/app/oidc.py reads of the claims: the way of the JSON that it goes,
-- `claims["resource_access"][client_id]["roles"]`, said without its code.
use template_fastapi.Base.{
  String, ◌≡◌, ◌⊎◌, ◌↔◌, inl, inr, refl, ap, sym, ◌∙◌, Option, none, some, List, [], ◌∷◌, All,
  Result, ok, err, ◌>>=◌, arith,
}
use template_fastapi.Base.Json.{
  Json, Members, null, bool, int, float, str, arr, obj, nil, end, get, elems, keys, letters,
}
use template_fastapi.Settings.{Settings}
use template_fastapi.Auth.Roles.{Crash, get_or, get_from, hashed, to_set, roles_claim, granted}

-- In an object, `found` stands under `key`, or nothing does and it is the default.
abbrev pub IsAt : String → Json → Json → Json → Type 0
IsAt key default (obj ms) found =
    (get key ms ≡ some found) ⊎ ((get key ms ≡ none) × (found ≡ default))
IsAt key default _ found = ⊥

abbrev pub IsScalar : Json → Type 0
IsScalar (arr es) = ⊥
IsScalar (obj ms) = ⊥
IsScalar _ = Unit {0}

-- The members of the set of a value: the items of an array that holds no array and no object, the
-- keys of an object, or the letters of a text.
abbrev pub IsSetOf : Json → List Json → Type 0
IsSetOf (arr es) members = (members ≡ elems es) × All IsScalar (elems es)
IsSetOf (obj ms) members = members ≡ keys ms
IsSetOf (str s) members = members ≡ letters s
IsSetOf _ members = ⊥

-- The claims grant these roles for the client of the settings.
abbrev pub Grants : Settings → Members → List Json → Type 0
Grants s claims roles =
    (access : Json) × (client : Json) × (value : Json) × IsAt "resource_access" (obj end)
      (obj claims) access
    × IsAt s.oidc_client_id (obj end) access client
    × IsAt "roles" (arr nil) client value
    × IsSetOf value roles

get_or-IsAt :
    (key : String) (d : Json) (ms : Members) (found : Json) (o : Option Json)
    → get key ms ≡ o
    → (get_or d o ≡ found) ↔ ((get key ms ≡ some found) ⊎ ((get key ms ≡ none) × (found ≡ d)))
get_or-IsAt key d ms found none e =
    (λ h. inr (e, sym h), λ h. elim h [ inl f ↦ absurd (ground (arith, e, f)) | inr f ↦ sym f.1 ])
get_or-IsAt key d ms found (some v) e = (
  λ h. inl (e ∙ ap (λ x. some x) h),
  λ h. elim h [
    | inl f ↦ let same : some v ≡ some found = sym e ∙ f in cc
    | inr f ↦ absurd (let odd : some v ≡ none = sym e ∙ f.0 in cc)
  ],
)

get_from-IsAt :
    (key : String) (d v found : Json) → (get_from key d v ≡ ok found) ↔ IsAt key d v found
get_from-IsAt key d (obj ms) found =
    let is = get_or-IsAt key d ms found (get key ms) refl in
    (λ h. is.0 (let e : get_or d (get key ms) ≡ found = cc in e), λ h. ap (λ x. ok x) (is.1 h))
get_from-IsAt key d null found = (λ h. absurd (cc), λ h. absurd h)
get_from-IsAt key d (bool b) found = (λ h. absurd (cc), λ h. absurd h)
get_from-IsAt key d (int n) found = (λ h. absurd (cc), λ h. absurd h)
get_from-IsAt key d (float t) found = (λ h. absurd (cc), λ h. absurd h)
get_from-IsAt key d (str s) found = (λ h. absurd (cc), λ h. absurd h)
get_from-IsAt key d (arr es) found = (λ h. absurd (cc), λ h. absurd h)

hashed_more :
    (v : Json) (r : Result Crash (List Json)) (vs ws : List Json)
    → ((us : List Json) → (r ≡ ok us) ↔ ((us ≡ vs) × All IsScalar vs))
    → ((r >>= (λ us. ok (v ∷ us))) ≡ ok ws) ↔ ((ws ≡ v ∷ vs) × All IsScalar vs)
hashed_more v (err e) vs ws is =
    (λ h. absurd (cc), λ h. absurd (let odd : err e ≡ ok vs = (is vs).1 (refl, h.1) in cc))
hashed_more v (ok us) vs ws is = (
  λ h.
      let (same, scalars) = (is us).0 refl in
      let made : v ∷ us ≡ ws = cc in (sym made ∙ ap (λ x. v ∷ x) same, scalars),
  λ h.
      let e : ok us ≡ ok vs = (is vs).1 (refl, h.1) in
      let f : us ≡ vs = cc in ap (λ x. ok x) (ap (λ x. v ∷ x) f ∙ sym h.0),
)

hashed-IsScalar : (vs ws : List Json) → (hashed vs ≡ ok ws) ↔ ((ws ≡ vs) × All IsScalar vs)
hashed-IsScalar [] ws = (λ h. (let e : [] ≡ ws = cc in sym e, tt), λ h. ap (λ x. ok x) (sym h.0))
hashed-IsScalar (arr es ∷ vs) ws = (λ h. absurd (cc), λ h. absurd h.1.0)
hashed-IsScalar (obj ms ∷ vs) ws = (λ h. absurd (cc), λ h. absurd h.1.0)
hashed-IsScalar (v ∷ vs) ws =
    let more = hashed_more v (hashed vs) vs ws (λ us. hashed-IsScalar vs us) in
    (λ h. let (e, all) = more.0 h in (e, (tt, all)), λ h. more.1 (h.0, h.1.1))

to_set-IsSetOf : (v : Json) (rs : List Json) → (to_set v ≡ ok rs) ↔ IsSetOf v rs
to_set-IsSetOf (arr es) rs = hashed-IsScalar (elems es) rs
to_set-IsSetOf (obj ms) rs = (λ h. let e : keys ms ≡ rs = cc in sym e, λ h. ap (λ x. ok x) (sym h))
to_set-IsSetOf (str s) rs = (λ h. let e : letters s ≡ rs = cc in sym e, λ h. ap (λ x. ok x) (sym h))
to_set-IsSetOf null rs = (λ h. absurd (cc), λ h. absurd h)
to_set-IsSetOf (bool b) rs = (λ h. absurd (cc), λ h. absurd h)
to_set-IsSetOf (int n) rs = (λ h. absurd (cc), λ h. absurd h)
to_set-IsSetOf (float t) rs = (λ h. absurd (cc), λ h. absurd h)

bind-ok {ℓ κ} :
    {A : Type ℓ} {B : Type κ} (r : Result Crash A) (f : A → Result Crash B) (b : B)
    → ((r >>= f) ≡ ok b) ↔ ((a : A) × (r ≡ ok a) × (f a ≡ ok b))
bind-ok (err e) f b = (λ h. absurd (cc), λ (a, e', h). absurd (cc))
bind-ok (ok x) f b = (λ h. (x, refl, h), λ (a, e, h). let same : x ≡ a = cc in ap f same ∙ h)

-- The code reads the roles that the claims grant, and fails if they grant no set of roles.
pub granted-Grants :
    (s : Settings) (claims : Members) (roles : List Json)
    → (granted s claims ≡ ok roles) ↔ Grants s claims roles
unfolding granted roles_claim
granted-Grants s claims roles =
    let access = get_or (obj end) (get "resource_access" claims) in
    let at = get_or-IsAt "resource_access" (obj end) claims in
    let read = get_from s.oidc_client_id (obj end) access in
    let whole = bind-ok (read >>= get_from "roles" (arr nil)) to_set roles in
    let inner = bind-ok read (get_from "roles" (arr nil)) in
    (
      λ h.
          let (value, e, f) = whole.0 h in
          let (client, g, k) = (inner value).0 e in
          (
            access,
            client,
            value,
            (at access _ refl).0 refl,
            (get_from-IsAt s.oidc_client_id (obj end) access client).0 g,
            (get_from-IsAt "roles" (arr nil) client value).0 k,
            (to_set-IsSetOf value roles).0 f,
          ),
      λ (access', client, value, a, c, r, m).
          let here : access ≡ access' = (at access' _ refl).1 a in
          whole.1 (
            value,
            (inner value).1 (
              client,
              ap (get_from s.oidc_client_id (obj end)) here
                  ∙ (get_from-IsAt s.oidc_client_id (obj end) access' client).1 c,
              (get_from-IsAt "roles" (arr nil) client value).1 r,
            ),
            (to_set-IsSetOf value roles).1 m,
          ),
    )
