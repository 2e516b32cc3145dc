-- ===== src/App/Protected.antt =====
-- A route that `require_roles` of src/app/oidc.py protects, with the handlers of
-- src/app/problem_details.py: the endpoint runs, or the client gets a problem document. FastAPI
-- resolves the dependencies, raises `make_not_authenticated_error` where no token is sent, and
-- hands what they raise to the handlers; `message` is the text of a Python exception.
use mathlib.Core.Path.{subst}
use template_fastapi.Base.{
  ℕ, String, Option, none, some, List, [], ◌∷◌, All, Result, ok, err, ◌≡◌, ◌≢◌, refl, sym, ◌⊎◌, inl,
  inr, ◌<>◌,
}
use template_fastapi.Base.Json.{Json, Members}
use template_fastapi.Settings.{Settings, mock, resource_metadata_url}
use template_fastapi.Auth.{
  Provider, State, HttpError, get_current_claims, make_not_authenticated_error, bearer_challenge,
}
use template_fastapi.Auth.Roles as Roles
use template_fastapi.Auth.Roles.{Crash, Failure, RequestState, require_roles, forbidden}
use template_fastapi.Auth.Granting.{HasRole, IsDecided, require_roles-IsDecided}
use template_fastapi.Auth.Granted.{Grants}
use template_fastapi.Auth.Tokens.{IsVerified, get_current_claims-IsVerified}
use template_fastapi.Auth.Refused.{IsRefusal, IsLogged, get_current_claims-IsLogged}
use template_fastapi.App.Problems.{
  ProblemDetailResponse, Raised, http, validation, other, handled, status_of, IsProblem,
  handled-IsProblem,
}

pub data Served : Type 0 where
  runs : Members → Served
  answers : Result String ProblemDetailResponse → Served

module _ (P : Provider) (phrase : ℕ → Option String) (message : Crash → String) (s : Settings)
    (roles : List String) (path : String) where
  abbrev pub raised_by : Failure → Raised
  raised_by (Roles.http e) = http e
  raised_by (Roles.crash c) = other (message c)

  abbrev pub answer : Raised → Served
  answer raised = answers (handled phrase s.mode path raised)

  abbrev pub after_roles : Result Failure Members → Served
  after_roles (ok claims) = runs claims
  after_roles (err f) = answer (raised_by f)

  abbrev pub after_claims : RequestState → Result HttpError Members → Served
  after_claims rs (err e) = answer (http e)
  after_claims rs (ok claims) = after_roles (require_roles s roles path claims rs).0

  -- A request with or without a bearer token.
  unfoldable pub protected_route : Option String → State P → RequestState → Served
  protected_route none st rs = answer (http (make_not_authenticated_error s))
  protected_route (some token) st rs = after_claims rs (get_current_claims P s path token st).0

  -- Why a request is not let through, and the error that it ends in: it has no token; its token
  -- is refused; the claims of its verified token grant roles, but none of these; or they are not
  -- shaped as the code expects.
  abbrev pub IsDenied : Option String → State P → Raised → Type 0
  IsDenied none st raised =
      raised
      ≡ http (record {
        status = 401;
        detail = "Not authenticated";
        headers =
            (
              "WWW-Authenticate",
              ("Bearer resource_metadata=\"" <> (resource_metadata_url s <> "\"")) <> "",
            )
            ∷ [];
      })
  IsDenied (some token) st (http e) =
      IsRefusal P s token st e
      ⊎ ((e ≡ record { status = 403; detail = "Insufficient role"; headers = [] })
          × ((claims : Members) × (gs : List Json) × IsVerified P s token claims
              × Grants s claims gs
              × (HasRole s roles claims → ⊥)))
  IsDenied (some token) st (validation errors) = ⊥
  IsDenied (some token) st (other m) =
      (claims : Members) × (c : Crash) × IsVerified P s token claims
      × ((gs : List Json) → Grants s claims gs → ⊥)
      × (m ≡ message c)

  -- The problem document of an error: the status and the headers of an HTTP error, or 500.
  abbrev pub Reports : Raised → ProblemDetailResponse → Type 0
  Reports (http e) r = (r.status_code ≡ e.status) × (r.headers ≡ e.headers)
  Reports (validation errors) r = ⊥
  Reports (other m) r = (r.status_code ≡ 500) × (r.headers ≡ [])

  abbrev pub IsGuarded : Option String → State P → Served → Type 0
  IsGuarded token st (runs claims) =
      (t : String) × (token ≡ some t) × IsVerified P s t claims × HasRole s roles claims
  IsGuarded token st (answers res) =
      (raised : Raised) × (r : ProblemDetailResponse) × (res ≡ ok r)
      × IsDenied token st raised
      × Reports raised r
      × IsProblem phrase path raised r

  abbrev pub Knows : ℕ → Type 0
  Knows n = (title : String) × (phrase n ≡ some title)

  module _ (known : All Knows (401 ∷ 403 ∷ 500 ∷ 503 ∷ [])) where
    refused-Knows :
        (token : String) (st : State P) (e : HttpError) → IsRefusal P s token st e → Knows e.status
    refused-Knows token st e (inl (h, why)) = subst (λ x. Knows x.status) (sym h) known.0
    refused-Knows token st e (inr (h, why)) = subst (λ x. Knows x.status) (sym h) known.1.1.1.0

    answer-IsGuarded :
        (token : Option String) (st : State P) (raised : Raised)
        → Knows (status_of phrase raised)
        → IsDenied token st raised
        → ((r : ProblemDetailResponse) → IsProblem phrase path raised r → Reports raised r)
        → IsGuarded token st (answer raised)
    answer-IsGuarded token st raised (title, e) h reports =
        let (r, made, is) = handled-IsProblem phrase s.mode path raised title e in
        (raised, r, made, h, reports r is, is)

    http-Reports :
        (e : HttpError) (r : ProblemDetailResponse)
        → IsProblem phrase path (http e) r
        → Reports (http e) r
    http-Reports e r is = (is.status, is.same_headers)

    other-Reports :
        (m : String) (r : ProblemDetailResponse)
        → IsProblem phrase path (other m) r
        → Reports (other m) r
    other-Reports m r is = (is.status, is.same_headers)

    after_roles-IsGuarded :
        (token : String) (claims : Members) (st : State P) (rs : RequestState)
        (r : Result Failure Members)
        → IsVerified P s token claims
        → IsDecided s path claims rs roles r
        → IsGuarded (some token) st (after_roles r)
    after_roles-IsGuarded token claims st rs (ok c) v (same, has) =
        let c_has = subst (HasRole s roles) (sym same) has in
        (token, refl, subst (IsVerified P s token) (sym same) v, c_has)
    after_roles-IsGuarded token claims st rs (err (Roles.http e)) v (is, (gs, g), lacks) =
        answer-IsGuarded (some token) st (http e) (subst (λ x. Knows x.status) (sym is) known.1.0)
          (inr (is, (claims, gs, v, g, lacks))) (http-Reports e)
    after_roles-IsGuarded token claims st rs (err (Roles.crash c)) v shapeless =
        answer-IsGuarded (some token) st (other (message c)) known.1.1.0
          (claims, c, v, shapeless, refl) (other-Reports (message c))

    after_claims-IsGuarded :
        (token : String) (st : State P) (rs : RequestState) (r : Result HttpError Members × State P)
        → ((claims : Members) → r.0 ≡ ok claims → IsVerified P s token claims)
        → IsLogged P s path token st r
        → IsGuarded (some token) st (after_claims rs r.0)
    after_claims-IsGuarded token st rs (err e, st') v logged =
        answer-IsGuarded (some token) st (http e) (refused-Knows token st e logged.1) (inl logged.1)
          (http-Reports e)
    after_claims-IsGuarded token st rs (ok claims, st') v logged =
        after_roles-IsGuarded token claims st rs (require_roles s roles path claims rs).0
          (v claims refl) (require_roles-IsDecided s path claims rs roles)

    -- Outside MODE=mock, where the phrases of 401, 403, 500 and 503 are known: the endpoint runs only
    -- with the claims of a token that a key of the provider verifies and that hold one of the
    -- roles. Any other request is answered by a problem document: without a token, a 401 whose
    -- challenge names the resource's metadata; with a token that has no signing key or that the
    -- decoder refuses, a 401 whose challenge adds the error `invalid_token`; where there is no client
    -- and the discovery fails, a 503; with a verified token whose claims grant other roles only, a
    -- 403; and with a verified token whose claims grant no set of roles, a 500.
    pub protected_route-IsGuarded :
        (token : Option String) (st : State P) (rs : RequestState)
        → s.mode ≢ mock
        → IsGuarded token st (protected_route token st rs)
    unfolding protected_route make_not_authenticated_error bearer_challenge
    protected_route-IsGuarded none st rs real =
        answer-IsGuarded none st (http (make_not_authenticated_error s)) known.0 refl
          (http-Reports (make_not_authenticated_error s))
    protected_route-IsGuarded (some token) st rs real =
        after_claims-IsGuarded token st rs (get_current_claims P s path token st)
          (λ claims h. get_current_claims-IsVerified P s path token st real h)
          (get_current_claims-IsLogged P s path token st)
