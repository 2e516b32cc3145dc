-- ===== src/Auth/Tokens.antt =====
-- What src/app/oidc.py guarantees of a decoded token, of its errors, and of the cached client.
use template_fastapi.Base.{
  String, ◌≡◌, ◌≢◌, refl, ap, sym, ◌∙◌, Option, none, some, List, [], ◌∷◌, Result, ok, err, arith,
}
use template_fastapi.Base.Json.{Members}
use template_fastapi.Settings.{Settings, Mode, mock, expected_issuer}
use template_fastapi.Auth.{
  Provider, State, HttpError, get_jwks_client, decode_in, decode_bearer_token, get_current_claims,
  verify, with_key, or_invalid, log_rejection,
}

module _ (P : Provider) (s : Settings) where
  open P use {World, Client, Key}

  -- A key of the provider under which the token has all that the settings ask of it.
  abbrev pub IsVerified : String → Members → Type 0
  IsVerified token claims =
      (c : Client) × (w : World) × (key : Key) × ((P.signing_key c token w).0 ≡ some key)
      × (P.decode key (s.oidc_algorithm ∷ []) s.oidc_audience (expected_issuer s)
            ("exp" ∷ "iss" ∷ "aud" ∷ []) token
          ≡ some claims)

  or_invalid-ok {ℓ} : {A : Type ℓ} (o : Option A) {a : A} → or_invalid s o ≡ ok a → o ≡ some a
  or_invalid-ok none h = cc
  or_invalid-ok (some b) h = cc

  verify-ok :
      (token : String) (st : State P) (o : Option Key × World) {claims : Members}
      → (verify P s token st o).0 ≡ ok claims
      → (key : Key) × (o.0 ≡ some key)
        × (P.decode key
              (s.oidc_algorithm ∷ [])
              s.oidc_audience
              (expected_issuer s)
              ("exp" ∷ "iss" ∷ "aud" ∷ [])
              token
            ≡ some claims)
  verify-ok token st (none, w) h = absurd (cc)
  verify-ok token st (some key, w) h = (key, refl, or_invalid-ok _ h)

  with_key-ok :
      (token : String) (r : Result HttpError Client × State P) {claims : Members}
      → (with_key P s token r).0 ≡ ok claims
      → IsVerified token claims
  with_key-ok token (err e, st) h = absurd (cc)
  with_key-ok token (ok c, st) h =
      let (key, signed, decoded) = verify-ok token st _ h in (c, st.world, key, signed, decoded)

  pub decode_real :
      (token : String) (st : State P)
      → s.mode ≢ mock
      → decode_bearer_token P s token st ≡ with_key P s token (get_jwks_client P s st)
  unfolding decode_bearer_token
  decode_real token st real = ground arith

  result-log_rejection :
      (path : String) (r : Result HttpError Members × State P) → (log_rejection P path r).0 ≡ r.0
  result-log_rejection path (ok claims, st) = refl
  result-log_rejection path (err e, st) = refl

  claims-decoded :
      (path token : String) (st : State P)
      → (get_current_claims P s path token st).0 ≡ (decode_bearer_token P s token st).0
  unfolding get_current_claims
  claims-decoded path token st = result-log_rejection path (decode_bearer_token P s token st)

  -- Outside MODE=mock the claims that a request gets are those of a token that the provider's
  -- signing key for it verifies, by the configured algorithm, audience and issuer and with the
  -- expiry, issuer and audience required to be there.
  pub get_current_claims-IsVerified :
      (path token : String) (st : State P) {claims : Members}
      → s.mode ≢ mock
      → (get_current_claims P s path token st).0 ≡ ok claims
      → IsVerified token claims
  get_current_claims-IsVerified path token st real h =
      with_key-ok token (get_jwks_client P s st)
        (sym (ap (λ r. r.0) (decode_real token st real)) ∙ (sym (claims-decoded path token st) ∙ h))

  client-verify :
      (token : String) (st : State P) (o : Option Key × World)
      → (verify P s token st o).1.client ≡ st.client
  client-verify token st (none, w) = refl
  client-verify token st (some key, w) = refl

  client-log_rejection :
      (path : String) (r : Result HttpError Members × State P)
      → (log_rejection P path r).1.client ≡ r.1.client
  client-log_rejection path (ok claims, st) = refl
  client-log_rejection path (err e, st) = refl

  cached_client :
      (st : State P) (c : Client) → st.client ≡ some c → get_jwks_client P s st ≡ (ok c, st)
  unfolding get_jwks_client
  cached_client st c h = rw h

  client-with_key :
      (token : String) (r : Result HttpError Client × State P) (c : Client)
      → r.1.client ≡ some c
      → (with_key P s token r).1.client ≡ some c
  client-with_key token (err e, st) c h = h
  client-with_key token (ok c', st) c h = client-verify token st _ ∙ h

  client-decode_in :
      (m : Mode) (token : String) (st : State P) (c : Client)
      → st.client ≡ some c
      → (decode_in P m s token st).1.client ≡ some c
  client-decode_in mock token st c h = h
  client-decode_in _ token st c h =
      client-with_key token (get_jwks_client P s st) c
        (ap (λ r. r.1.client) (cached_client st c h) ∙ h)

  client-decode :
      (token : String) (st : State P) (c : Client)
      → st.client ≡ some c
      → (decode_bearer_token P s token st).1.client ≡ some c
  unfolding decode_bearer_token
  client-decode token st c h = client-decode_in s.mode token st c h

  client-get_current_claims :
      (path token : String) (st : State P) (c : Client)
      → st.client ≡ some c
      → (get_current_claims P s path token st).1.client ≡ some c
  unfolding get_current_claims
  client-get_current_claims path token st c h =
      client-log_rejection path (decode_bearer_token P s token st) ∙ client-decode token st c h

  -- The state after a sequence of requests, each a path and a token.
  abbrev pub serve : List (String × String) → State P → State P
  serve [] st = st
  serve ((path, token) ∷ requests) st = serve requests (get_current_claims P s path token st).1

  -- A client that is there serves every later request: whatever their tokens, and whether they are
  -- refused, it is not discovered again and not dropped.
  pub client-serve :
      (requests : List (String × String)) (st : State P) (c : Client)
      → st.client ≡ some c
      → ((serve requests st).client ≡ some c)
        × (get_jwks_client P s (serve requests st) ≡ (ok c, serve requests st))
  client-serve [] st c h = (h, cached_client st c h)
  client-serve ((path, token) ∷ requests) st c h =
      client-serve requests _ c (client-get_current_claims path token st c h)
