-- ===== src/Auth/Refused.antt =====
-- Why src/app/oidc.py refuses a request, and how.
use mathlib.Core.Path.{subst}
use template_fastapi.Base.{
  String, ◌≡◌, ◌≢◌, ◌⊎◌, inl, inr, refl, ap, sym, Option, none, some, [], ◌∷◌, ◌++◌, Result, ok,
  err, ◌<>◌,
}
use template_fastapi.Base.Json.{Members}
use template_fastapi.Settings.{
  Settings, Mode, mock, expected_issuer, discovery_url, resource_metadata_url,
}
use template_fastapi.Auth.{
  Provider, State, HttpError, unavailable, bearer_challenge, get_jwks_client, decode_in,
  decode_bearer_token, get_current_claims, with_client, from_cache, verify, with_key, or_invalid,
  log_rejection,
}
use template_fastapi.Auth.Tokens.{decode_real}

module _ (P : Provider) (s : Settings) where
  open P use {World, Client, Key}

  -- The client that a request works with: the cached one, or one that is discovered for it.
  abbrev pub IsReached : State P → Client → World → Type 0
  IsReached st c w =
      ((st.client ≡ some c) × (w ≡ st.world))
      ⊎ ((st.client ≡ none) × (P.discover (discovery_url s) st.world ≡ (some c, w)))

  -- The token is not taken: in MODE=mock it cannot be decoded; elsewhere the provider has no
  -- signing key for it, or it has one under which the token does not have all that the settings
  -- ask of it.
  abbrev pub IsInvalid : String → State P → Type 0
  IsInvalid token st =
      ((s.mode ≡ mock) × (P.decode_unverified token ≡ none))
      ⊎ ((s.mode ≢ mock)
          × ((c : Client) × (w : World) × IsReached st c w
              × (((P.signing_key c token w).0 ≡ none)
                  ⊎ ((key : Key) × ((P.signing_key c token w).0 ≡ some key)
                      × (P.decode key (s.oidc_algorithm ∷ []) s.oidc_audience (expected_issuer s)
                            ("exp" ∷ "iss" ∷ "aud" ∷ []) token
                          ≡ none)))))

  -- There is no client, and none is discovered.
  abbrev pub IsUnreached : State P → Type 0
  IsUnreached st =
      (s.mode ≢ mock) × (st.client ≡ none) × ((P.discover (discovery_url s) st.world).0 ≡ none)

  -- The answer to a request whose token is refused, with its cause.
  abbrev pub IsRefusal : String → State P → HttpError → Type 0
  IsRefusal token st e =
      ((e ≡ record {
        status = 401;
        detail = "Invalid or expired token";
        headers =
            (
              "WWW-Authenticate",
              ("Bearer resource_metadata=\"" <> (resource_metadata_url s <> "\""))
                  <> ", error=\"invalid_token\"",
            )
            ∷ [];
      })
        × IsInvalid token st)
      ⊎ ((e ≡ record { status = 503; detail = "Authentication service unavailable"; headers = [] })
          × IsUnreached st)

  abbrev Fails : {A : Type 0} → String → State P → Result HttpError A → Type 0
  Fails token st (ok a) = Unit {0}
  Fails token st (err e) = IsRefusal token st e

  -- A step that writes nothing to the log, and fails only by a refusal.
  abbrev Quiet : String → State P → Result HttpError Members × State P → Type 0
  Quiet token st r = (r.1.log ≡ st.log) × Fails token st r.0

  -- A client that is reached, or the 503 and why there is none.
  abbrev IsGot : State P → Result HttpError Client × State P → Type 0
  IsGot st (ok c, st') = (st'.log ≡ st.log) × IsReached st c st'.world
  IsGot st (err e, st') = (st'.log ≡ st.log) × ((e ≡ unavailable) × IsUnreached st)

  or_invalid-Fails :
      {A : Type 0} (token : String) (st : State P) (o : Option A)
      → (o ≡ none → IsInvalid token st)
      → Fails token st (or_invalid s o)
  unfolding bearer_challenge
  or_invalid-Fails token st none h = inl (refl, h refl)
  or_invalid-Fails token st (some b) h = tt

  with_client-IsGot :
      (st : State P) (r : Option Client × World)
      → s.mode ≢ mock
      → st.client ≡ none
      → P.discover (discovery_url s) st.world ≡ r
      → IsGot st (with_client P st r)
  with_client-IsGot st (none, w) real h e = (refl, (refl, (real, h, ap (λ r. r.0) e)))
  with_client-IsGot st (some c, w) real h e = (refl, inr (h, e))

  from_cache-IsGot :
      (st : State P) (cached : Option Client)
      → s.mode ≢ mock
      → st.client ≡ cached
      → IsGot st (from_cache P s st cached)
  from_cache-IsGot st (some c) real h = (refl, inl (h, refl))
  from_cache-IsGot st none real h = with_client-IsGot st _ real h refl

  verify-Quiet :
      (token : String) (st st' : State P) (c : Client) (o : Option Key × World)
      → s.mode ≢ mock
      → st'.log ≡ st.log
      → IsReached st c st'.world
      → P.signing_key c token st'.world ≡ o
      → Quiet token st (verify P s token st' o)
  unfolding bearer_challenge
  verify-Quiet token st st' c (none, w) real same reached e =
      (same, inl (refl, inr (real, (c, st'.world, reached, inl (ap (λ r. r.0) e)))))
  verify-Quiet token st st' c (some key, w) real same reached e = (
    same,
    or_invalid-Fails token st _
        (λ h. inr (real, (c, st'.world, reached, inr (key, ap (λ r. r.0) e, h)))),
  )

  with_key-Quiet :
      (token : String) (st : State P) (r : Result HttpError Client × State P)
      → s.mode ≢ mock
      → IsGot st r
      → Quiet token st (with_key P s token r)
  with_key-Quiet token st (err e, st') real (same, g) = (same, inr g)
  with_key-Quiet token st (ok c, st') real (same, reached) =
      verify-Quiet token st st' c _ real same reached refl

  mock_or_real : (m : Mode) → (m ≡ mock) ⊎ (m ≢ mock)
  mock_or_real mock = inl refl
  mock_or_real _ = inr (λ e. cc)

  decode-Quiet : (token : String) (st : State P) → Quiet token st (decode_bearer_token P s token st)
  unfolding decode_bearer_token get_jwks_client
  decode-Quiet token st = elim (mock_or_real s.mode) [
    | inl e ↦
        subst (λ m. Quiet token st (decode_in P m s token st)) (sym e)
          (refl, or_invalid-Fails token st (P.decode_unverified token) (λ h. inl (e, h)))
    | inr real ↦ subst (Quiet token st) (sym (decode_real P s token st real)) (
        with_key-Quiet token st (get_jwks_client P s st) real
          (from_cache-IsGot st st.client real refl))
  ]

  -- The log grows by one line, the path and the status, if the token is refused.
  abbrev pub IsLogged : String → String → State P → Result HttpError Members × State P → Type 0
  IsLogged path token before (ok claims, after) = after.log ≡ before.log
  IsLogged path token before (err e, after) =
      (after.log ≡ before.log ++ ((path, e.status) ∷ [])) × IsRefusal token before e

  log_rejection-IsLogged :
      (path token : String) (st : State P) (r : Result HttpError Members × State P)
      → Quiet token st r
      → IsLogged path token st (log_rejection P path r)
  log_rejection-IsLogged path token st (ok claims, st') q = q.0
  log_rejection-IsLogged path token st (err e, st') q =
      (ap (λ l. l ++ ((path, e.status) ∷ [])) q.0, q.1)

  -- A refused request is answered by a 401 whose `WWW-Authenticate` names the resource's metadata
  -- and the error `invalid_token`, and then its token is invalid: in MODE=mock it cannot be decoded,
  -- elsewhere the provider has no signing key for it or the decoder refuses it; or by a 503 without
  -- headers, and then there is no client and the discovery fails. It adds one line to the log with
  -- its path and status; an accepted one leaves the log as it was.
  pub get_current_claims-IsLogged :
      (path token : String) (st : State P)
      → IsLogged path token st (get_current_claims P s path token st)
  unfolding get_current_claims
  get_current_claims-IsLogged path token st =
      log_rejection-IsLogged path token st _ (decode-Quiet token st)
