-- ===== src/Auth/Mock.antt =====
-- src/app/controllers/mock.py: the tokens of MODE=mock, and how src/app/oidc.py reads them.
use mathlib.Core.Path.{subst}
use text.Mathlib.TextPositions.{eq_refl}
use template_fastapi.Base.{String, ◌≡◌, ◌↔◌, refl, ap, some, List, [], ◌∷◌, ok, arith}
use template_fastapi.Base.Json.{Members, str, arr, obj, member, end, get, texts, elems}
use template_fastapi.Settings.{Settings, mock}
use template_fastapi.Auth.{log_rejection, Provider, State, get_current_claims, decode_bearer_token}
use template_fastapi.Auth.Roles.{hashed, granted, RequestState, require_roles}
use template_fastapi.Auth.Granted.{granted-Grants}
use template_fastapi.Auth.Granting.{In, Holds, require_roles-HasRole_iff}

pub record MockTokenRequest : Type 0 where
  pub sub : String
  pub roles : List String

abbrev pub mock_claims : Settings → MockTokenRequest → Members
mock_claims s payload = member "sub" (str payload.sub) (
    member "preferred_username" (str payload.sub) (
      member "resource_access"
        (obj (member s.oidc_client_id (obj (member "roles" (arr (texts payload.roles)) end)) end))
        end))

abbrev pub signing_key : String
signing_key = "mock-mode-signing-key-not-a-real-secret"

-- `encode` is `jwt.encode(claims, key, algorithm="HS256")`.
unfoldable pub issue_mock_token :
    (Members → String → String → String) → Settings → MockTokenRequest → String
issue_mock_token encode s payload = encode (mock_claims s payload) signing_key "HS256"

hashed-texts : (roles : List String) → hashed (elems (texts roles)) ≡ ok (elems (texts roles))
hashed-texts [] = refl
hashed-texts (r ∷ roles) = rw (hashed-texts roles)

granted-mock_claims :
    (s : Settings) (payload : MockTokenRequest)
    → granted s (mock_claims s payload) ≡ ok (elems (texts payload.roles))
unfolding granted get
granted-mock_claims s payload = simp eq_refl (hashed-texts payload.roles)

Holds-texts :
    (role : String) (roles : List String) → Holds role (elems (texts roles)) ↔ In role roles
Holds-texts role [] = ground arith
Holds-texts role (r ∷ roles) = ground (arith, Holds-texts role roles)

module _ (P : Provider) (encode : Members → String → String → String) where
  -- PyJWT reads back, without a check of the signature, the claims that it wrote.
  abbrev pub RoundTrips : Members → Type 0
  RoundTrips claims = P.decode_unverified (encode claims signing_key "HS256") ≡ some claims

  mock_decoded :
      (s : Settings) (payload : MockTokenRequest) (st : State P)
      → RoundTrips (mock_claims s payload)
      → s.mode ≡ mock
      → decode_bearer_token P s (issue_mock_token encode s payload) st
        ≡ (ok (mock_claims s payload), st)
  unfolding decode_bearer_token issue_mock_token
  mock_decoded s payload st trips in_mock = rw (in_mock, trips)

  -- In MODE=mock, if decoding a token gives the claims that were encoded, an issued token is
  -- accepted without touching the network or the log, and a route lets it through exactly if one
  -- of the requested roles is one that the route names.
  pub issue_mock_token-require_roles :
      (s : Settings) (payload : MockTokenRequest) (path : String) (st : State P)
      (rst : RequestState) (roles : List String)
      → RoundTrips (mock_claims s payload)
      → s.mode ≡ mock
      → (get_current_claims P s path (issue_mock_token encode s payload) st
          ≡ (ok (mock_claims s payload), st))
        × (((require_roles s roles path (mock_claims s payload) rst).0 ≡ ok (mock_claims s payload))
            ↔ ((role : String) × In role roles × In role payload.roles))
  unfolding get_current_claims
  issue_mock_token-require_roles s payload path st rst roles trips in_mock =
      let passes = require_roles-HasRole_iff s path (mock_claims s payload) rst roles in
      let held = granted-mock_claims s payload in
      (
        ap (log_rejection P path) (mock_decoded s payload st trips in_mock),
        (
          λ h.
              let (role, gs, granting, i, g) = passes.0 h in
              let e = (granted-Grants s (mock_claims s payload) gs).1 granting in
              let same : gs ≡ elems (texts payload.roles) = cc in
              (role, i, (Holds-texts role payload.roles).0 (subst (Holds role) same g)),
          λ (role, i, j).
              let gs = elems (texts payload.roles) in
              let granting = (granted-Grants s (mock_claims s payload) gs).0 held in
              passes.1 (role, gs, granting, i, (Holds-texts role payload.roles).1 j),
        ),
      )
