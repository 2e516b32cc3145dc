-- ===== src/App/Problems.antt =====
-- src/app/problem_details.py: every error as an RFC 9457 body. `phrase` stands for `HTTPStatus`,
-- which gives a status code's phrase and raises on a code that it does not know.
use template_fastapi.Base.{
  ℕ, String, Bool, true, false, List, [], Option, none, some, Result, ok, err, if◌then◌else◌, ◌≡◌,
  ◌≢◌, refl, ap,
}
use template_fastapi.Base.Int.{pos}
use template_fastapi.Base.Json.{Json, str, int, Members, member, end, get}
use template_fastapi.Settings.{Mode, dev, mock, production}
use template_fastapi.Auth.{HttpError}

pub record ProblemDetailResponse : Type 0 where
  pub status_code : ℕ
  pub content : Members
  pub headers : List (String × String)
  pub media_type : String

unfoldable pub problem : ℕ → String → Json → String → List (String × String) → ProblemDetailResponse
problem status_code title detail path headers = record {
  status_code = status_code;
  content = member "type" (str "about:blank") (
      member "title" (str title) (
        member "status" (int (pos status_code))
          (member "detail" detail (member "instance" (str path) end))));
  headers = headers;
  media_type = "application/problem+json";
}

-- What a route may raise: an `HTTPException`, FastAPI's validation error with its list of errors,
-- or another exception with its message.
pub data Raised : Type 0 where
  http : HttpError → Raised
  validation : Json → Raised
  other : String → Raised

abbrev pub is_dev : Mode → Bool
is_dev dev = true
is_dev _ = false

abbrev pub with_phrase :
    Option String → (String → ProblemDetailResponse) → Result String ProblemDetailResponse
with_phrase none f = err "ValueError"
with_phrase (some title) f = ok (f title)

module _ (phrase : ℕ → Option String) where
  unfoldable pub handle_http_exception : String → HttpError → Result String ProblemDetailResponse
  handle_http_exception path exc =
      with_phrase (phrase exc.status)
        (λ title. problem exc.status title (str exc.detail) path exc.headers)

  unfoldable pub handle_validation_error : String → Json → ProblemDetailResponse
  handle_validation_error path errors = problem 422 "Unprocessable Content" errors path []

  unfoldable pub handle_unhandled_exception : Mode → String → String → ProblemDetailResponse
  handle_unhandled_exception mode path message =
      problem 500 "Internal Server Error"
        (str (if is_dev mode then message else "Internal Server Error")) path []

  -- `register_problem_handlers`: which handler answers for which exception.
  unfoldable pub handled : Mode → String → Raised → Result String ProblemDetailResponse
  unfolding handle_http_exception handle_validation_error handle_unhandled_exception
  handled mode path (http exc) = handle_http_exception path exc
  handled mode path (validation errors) = ok (handle_validation_error path errors)
  handled mode path (other message) = ok (handle_unhandled_exception mode path message)

  abbrev pub status_of : Raised → ℕ
  status_of (http exc) = exc.status
  status_of (validation errors) = 422
  status_of (other message) = 500

  abbrev pub headers_of : Raised → List (String × String)
  headers_of (http exc) = exc.headers
  headers_of _ = []

  -- A body that says the same as the response's status line.
  pub record IsProblem (path : String) (raised : Raised) (r : ProblemDetailResponse) : Type 0 where
    pub status : r.status_code ≡ status_of raised
    pub same_status : get "status" r.content ≡ some (int (pos r.status_code))
    pub type_there : get "type" r.content ≡ some (str "about:blank")
    pub instance_there : get "instance" r.content ≡ some (str path)
    pub same_headers : r.headers ≡ headers_of raised
    pub media : r.media_type ≡ "application/problem+json"

  problem-IsProblem :
      (raised : Raised) (title : String) (detail : Json) (path : String)
      → IsProblem path raised (problem (status_of raised) title detail path (headers_of raised))
  unfolding problem get
  problem-IsProblem raised title detail path = record {
    status = refl;
    same_status = refl;
    type_there = refl;
    instance_there = refl;
    same_headers = refl;
    media = refl;
  }

  http-IsProblem :
      (exc : HttpError) (path title : String) (o : Option String)
      → o ≡ some title
      → (r : ProblemDetailResponse) × (with_phrase o
            (λ t. problem exc.status t (str exc.detail) path exc.headers)
          ≡ ok r)
        × IsProblem path (http exc) r
  http-IsProblem exc path title o e = (
    problem exc.status title (str exc.detail) path exc.headers,
    ap (λ x. with_phrase x (λ t. problem exc.status t (str exc.detail) path exc.headers)) e,
    problem-IsProblem (http exc) title (str exc.detail) path,
  )

  -- Every exception with a known status code is answered by a problem document that repeats the
  -- status and names the path, and an HTTP error keeps its headers.
  pub handled-IsProblem :
      (mode : Mode) (path : String) (raised : Raised) (title : String)
      → phrase (status_of raised) ≡ some title
      → (r : ProblemDetailResponse) × (handled mode path raised ≡ ok r) × IsProblem path raised r
  unfolding handled handle_http_exception handle_validation_error handle_unhandled_exception
  handled-IsProblem mode path (http exc) title e =
      http-IsProblem exc path title (phrase exc.status) e
  handled-IsProblem mode path (validation errors) title e =
      (_, refl, problem-IsProblem (validation errors) "Unprocessable Content" errors path)
  handled-IsProblem mode path (other message) title e =
      (_, refl, problem-IsProblem (other message) "Internal Server Error" _ path)

  -- Outside MODE=dev the answer to an unhandled exception is the same whatever its message.
  pub handled-hides :
      (mode : Mode) (path message message' : String)
      → mode ≢ dev
      → handled mode path (other message) ≡ handled mode path (other message')
  unfolding handled handle_unhandled_exception
  handled-hides dev path message message' h = absurd (h refl)
  handled-hides mock path message message' h = refl
  handled-hides production path message message' h = refl
