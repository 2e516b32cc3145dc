-- ===== src/Auth.antt =====
-- src/app/oidc.py: bearer tokens. PyJWT, the network and the token's keys are a `Provider`; the
-- state is the world that the network acts on, the cached JWKS client, and what is logged.
pub mod Roles
pub mod Granted
pub mod Granting
pub mod Tokens
pub mod Refused
pub mod Warm
pub mod Mock
mod Tests
use template_fastapi.Base.{
  ℕ, String, Bool, true, false, Option, none, some, List, [], ◌∷◌, ◌++◌, ◌<>◌, Result, ok, err, any,
  ◌==◌, ◌&&◌, ◌||◌, option_eq, string_eq, is_some, if◌then◌else◌,
}
use template_fastapi.Base.Json.{Members}
use template_fastapi.Settings.Checks.{is_mock}
use template_fastapi.Settings.{
  Settings, Mode, dev, mock, production, discovery_url, expected_issuer, resource_metadata_url,
}

pub record HttpError : Type 0 where
  pub status : ℕ
  pub detail : String
  pub headers : List (String × String)

-- A key of a JWK set, as far as `_jwks_is_warm` looks.
pub record Jwk : Type 0 where
  pub key_id : Option String
  pub public_key_use : Option String

-- The libraries and the network: `none` is a `PyJWTError`, or for `discover` any of the errors
-- that it catches. The errors that it does not catch, of a discovery document that is no object or
-- of a URL that is invalid, are not represented: the document is taken to be an object, and the URL
-- to be valid.
pub record Provider : Type 1 where
  pub World : Type 0
  pub Client : Type 0
  pub Key : Type 0
  -- `httpx.get(discovery_url)` and the `jwks_uri` in its document, to a client for it.
  pub discover : String → World → Option Client × World
  pub signing_key : Client → String → World → Option Key × World
  pub fetch_set : Client → World → Option (Unit {0}) × World
  -- `jwk_set_cache.get()`, `none` too where the client has no cache.
  pub cached_set : Client → World → Option (List Jwk)
  -- `jwt.get_unverified_header(token).get("kid")`
  pub unverified_kid : String → Option (Option String)
  pub decode_unverified : String → Option Members
  -- key, algorithms, audience, issuer, required claims
  pub decode : Key → List String → String → String → List String → String → Option Members

abbrev error_part : Option String → String
error_part none = ""
error_part (some e) = ", error=\"" <> (e <> "\"")

unfoldable pub bearer_challenge : Settings → Option String → List (String × String)
bearer_challenge s error =
    (
      "WWW-Authenticate",
      ("Bearer resource_metadata=\"" <> (resource_metadata_url s <> "\"")) <> error_part error,
    )
    ∷ []

-- The 401 of a request that carries no token.
unfoldable pub make_not_authenticated_error : Settings → HttpError
make_not_authenticated_error s = record {
  status = 401;
  detail = "Not authenticated";
  headers = bearer_challenge s none;
}

abbrev pub invalid_token : Settings → HttpError
invalid_token s = record {
  status = 401;
  detail = "Invalid or expired token";
  headers = bearer_challenge s (some "invalid_token");
}

abbrev pub unavailable : HttpError
unavailable = record { status = 503; detail = "Authentication service unavailable"; headers = [] }

-- `except jwt.PyJWTError`: a 401.
abbrev pub or_invalid {ℓ} : {A : Type ℓ} → Settings → Option A → Result HttpError A
or_invalid s none = err (invalid_token s)
or_invalid s (some a) = ok a

module _ (P : Provider) where
  open P use {World, Client, Key}

  pub record State : Type 0 where
    pub world : World
    pub client : Option Client
    pub log : List (String × ℕ)

  abbrev pub with_client : State → Option Client × World → Result HttpError Client × State
  with_client st (none, w) = (err unavailable, record st { world = w })
  with_client st (some c, w) = (ok c, record st { world = w; client = some c })

  abbrev pub from_cache : Settings → State → Option Client → Result HttpError Client × State
  from_cache s st (some c) = (ok c, st)
  from_cache s st none = with_client st (P.discover (discovery_url s) st.world)

  -- `_get_jwks_client`: `lru_cache` keeps a client, and no exception.
  unfoldable pub get_jwks_client : Settings → State → Result HttpError Client × State
  get_jwks_client s st = from_cache s st st.client

  abbrev pub verify :
      Settings → String → State → Option Key × World → Result HttpError Members × State
  verify s token st (none, w) = (err (invalid_token s), record st { world = w })
  verify s token st (some key, w) = (
    or_invalid s (
        P.decode key (s.oidc_algorithm ∷ []) s.oidc_audience (expected_issuer s)
          ("exp" ∷ "iss" ∷ "aud" ∷ []) token),
    record st { world = w },
  )

  abbrev pub with_key :
      Settings → String → Result HttpError Client × State → Result HttpError Members × State
  with_key s token (err e, st) = (err e, st)
  with_key s token (ok c, st) = verify s token st (P.signing_key c token st.world)

  abbrev pub decode_in : Mode → Settings → String → State → Result HttpError Members × State
  decode_in mock s token st = (or_invalid s (P.decode_unverified token), st)
  decode_in _ s token st = with_key s token (get_jwks_client s st)

  unfoldable pub decode_bearer_token : Settings → String → State → Result HttpError Members × State
  decode_bearer_token s = decode_in s.mode s

  -- A key that may check signatures, for the token's own key id.
  abbrev pub serves : Option String → Jwk → Bool
  serves kid key =
      key.key_id == kid && (key.public_key_use == some "sig" || key.public_key_use == none)

  abbrev pub any_serves : Option String → Option (List Jwk) → Bool
  any_serves kid none = false
  any_serves kid (some keys) = any (serves kid) keys

  abbrev pub is_warm_for : Client → World → Option (Option String) → Bool
  is_warm_for c w none = true
  is_warm_for c w (some kid) = any_serves kid (P.cached_set c w)

  unfoldable pub jwks_is_warm : String → State → Bool
  jwks_is_warm token st = elim st.client [
    | none ↦ false
    | some c ↦ is_warm_for c st.world (P.unverified_kid token)
  ]

  -- Where `decode_bearer_token_async` runs the decoder: on the event loop, or in a thread.
  unfoldable pub stays_on_loop : Settings → String → State → Bool
  unfolding jwks_is_warm
  stays_on_loop s token st = is_mock s.mode || jwks_is_warm token st

  unfoldable pub decode_bearer_token_async :
      Settings → String → State → Result HttpError Members × State × Bool
  unfolding decode_bearer_token stays_on_loop
  decode_bearer_token_async s token st =
      let (r, st') = decode_bearer_token s token st in (r, st', stays_on_loop s token st)

  -- The start of the app: a failure is only logged.
  abbrev pub prefetched : State → Option (Unit {0}) × World → State
  prefetched st (some u, w) = record st { world = w }
  prefetched st (none, w) = record st {
    world = w;
    log = st.log ++ (("JWKS prefetch failed", 0) ∷ []);
  }

  abbrev pub prefetch_with : Result HttpError Client × State → State
  prefetch_with (err e, st) = record st { log = st.log ++ (("JWKS prefetch failed", 0) ∷ []) }
  prefetch_with (ok c, st) = prefetched st (P.fetch_set c st.world)

  unfoldable pub prefetch_jwks : Settings → State → State
  unfolding get_jwks_client
  prefetch_jwks s st = if is_mock s.mode then st else prefetch_with (get_jwks_client s st)

  abbrev pub log_rejection :
      String → Result HttpError Members × State → Result HttpError Members × State
  log_rejection path (ok claims, st) = (ok claims, st)
  log_rejection path (err e, st) = (err e, record st { log = st.log ++ ((path, e.status) ∷ []) })

  -- The dependency that every protected route has: claims, or an error that is logged.
  unfoldable pub get_current_claims :
      Settings → String → String → State → Result HttpError Members × State
  unfolding decode_bearer_token_async
  get_current_claims s path token st =
      let (r, st', on_loop) = decode_bearer_token_async s token st in log_rejection path (r, st')
