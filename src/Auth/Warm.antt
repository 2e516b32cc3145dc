-- ===== src/Auth/Warm.antt =====
-- When src/app/oidc.py decodes a token on the event loop: nothing that it waits for is pending.
use mathlib.Core.Path.{subst}
use template_fastapi.Base.{
  String, true, ◌≡◌, ◌≢◌, ◌⊎◌, inl, inr, refl, Option, none, some, Option-cases, List, [], ◌∷◌, ok,
  arith, In, any, ◌==◌, Bool-cases, option_beq_iff, option_eq, string_eq,
}
use template_fastapi.Settings.{Settings, mock}
use template_fastapi.Auth.{
  Provider, State, Jwk, serves, any_serves, get_jwks_client, stays_on_loop, is_warm_for,
}

module _ (P : Provider) (s : Settings) where
  open P use {World, Client}

  -- The cached keys have one that may check signatures and has the token's key id.
  abbrev pub IsServed : String → Client → World → Type 0
  IsServed token c w =
      (kid : Option String) × (keys : List Jwk) × (key : Jwk) × (P.unverified_kid token ≡ some kid)
      × (P.cached_set c w ≡ some keys)
      × In key keys
      × (key.key_id ≡ kid)
      × ((key.public_key_use ≡ some "sig") ⊎ (key.public_key_use ≡ none))

  any-serves :
      (kid : Option String) (keys : List Jwk)
      → any (serves P kid) keys ≡ true
      → (key : Jwk) × In key keys
        × (key.key_id ≡ kid)
        × ((key.public_key_use ≡ some "sig") ⊎ (key.public_key_use ≡ none))
  any-serves kid [] h = absurd (cc)
  any-serves kid (k ∷ ks) h = elim (Bool-cases (serves P kid k)) [
    | inl e ↦ (
      k,
      inl refl,
      (option_beq_iff k.key_id kid).0 (ground arith),
      elim (Bool-cases (k.public_key_use == some "sig")) [
        | inl f ↦ inl ((option_beq_iff k.public_key_use (some "sig")).0 f)
        | inr f ↦ inr ((option_beq_iff k.public_key_use none).0 (ground arith))
      ],
    )
    | inr e ↦
        let (key, i, named, used) = any-serves kid ks (ground arith) in (key, inr i, named, used)
  ]

  warm-IsServed :
      (token : String) (c : Client) (w : World) (o : Option (Option String))
      (cached : Option (List Jwk))
      → P.unverified_kid token ≡ o
      → P.cached_set c w ≡ cached
      → is_warm_for P c w o ≡ true
      → (P.unverified_kid token ≡ none) ⊎ IsServed token c w
  warm-IsServed token c w none cached e f h = inl e
  warm-IsServed token c w (some kid) none e f h =
      absurd
        (let odd : any_serves P kid none ≡ true = subst (λ x. any_serves P kid x ≡ true) f h in cc)
  warm-IsServed token c w (some kid) (some keys) e f h =
      let (key, i, named, used) =
        any-serves kid keys (subst (λ x. any_serves P kid x ≡ true) f h) in
      inr (kid, keys, key, e, f, i, named, used)

  -- A request whose token is decoded on the event loop, outside MODE=mock: the client is there, so
  -- no discovery is pending, and its cached keys have one for signatures with the token's key id,
  -- unless the token's header cannot be read.
  pub stays_on_loop-IsWarm :
      (token : String) (st : State P)
      → s.mode ≢ mock
      → stays_on_loop P s token st ≡ true
      → (c : Client) × (st.client ≡ some c)
        × (get_jwks_client P s st ≡ (ok c, st))
        × ((P.unverified_kid token ≡ none) ⊎ IsServed token c st.world)
  unfolding stays_on_loop get_jwks_client
  stays_on_loop-IsWarm token st real h = elim (Option-cases st.client) [
    | inl e ↦ absurd (ground arith)
    | inr (c, e) ↦ (c, e, rw e, warm-IsServed token c st.world _ _ refl refl (ground arith))
  ]
