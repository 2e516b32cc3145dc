-- ===== src/App/Headers.antt =====
-- src/app/http_headers.py: the Sunset headers of a deprecated route, and the middleware that sets
-- the security headers. `Headers` stands for the mutable headers of a response in Starlette.
use template_fastapi.Base.{
  ℕ, String, Bool, ◌||◌, List, [], ◌∷◌, Option, none, some, if◌then◌else◌, ◌==◌, string_eq, ◌<>◌,
  ◌≡◌, map, All,
}

-- `lower` is `str.lower`, by which names are compared.
pub record Headers : Type 1 where
  pub Store : Type 0
  pub get : Store → String → Option String
  pub set : Store → String → String → Store
  pub lower : String → String

-- The names of the headers that the middleware sets, and in lower case.
abbrev pub lower_names : List (String × String)
lower_names =
    ("Content-Security-Policy", "content-security-policy")
    ∷ ("X-Frame-Options", "x-frame-options")
    ∷ ("X-Content-Type-Options", "x-content-type-options")
    ∷ ("Strict-Transport-Security", "strict-transport-security")
    ∷ ("Referrer-Policy", "referrer-policy")
    ∷ ("Permissions-Policy", "permissions-policy")
    ∷ []

-- Setting a header gives it that value and leaves the others alone.
pub record IsHeaders (H : Headers) : Type 0 where
  pub get-set :
      (h : H.Store) (n m v : String)
      → H.get (H.set h n v) m ≡ (if H.lower m == H.lower n then some v else H.get h m)
  pub lowered : All (λ n. H.lower n.0 ≡ n.1) lower_names

abbrev pub content_security_policy : String
content_security_policy = "default-src 'self'; frame-ancestors 'none'"

abbrev pub docs_content_security_policy : String
docs_content_security_policy =
    "default-src 'self'; script-src 'self' 'unsafe-inline' cdn.jsdelivr.net; style-src 'self' 'unsafe-inline' cdn.jsdelivr.net fonts.googleapis.com; img-src 'self' data: fastapi.tiangolo.com; font-src fonts.gstatic.com; frame-ancestors 'none'"

abbrev pub is_docs_path : String → Bool
is_docs_path path = path == "/docs" || path == "/redoc"

module _ (H : Headers) where
  -- A message of ASGI: the start of a response with its headers, or any other.
  pub data Message : Type 0 where
    start : ℕ → H.Store → Message
    rest : String → Message

  pub record Scope : Type 0 where
    pub kind : String
    pub path : String

  abbrev pub policy : String → String
  policy path = if is_docs_path path then docs_content_security_policy else content_security_policy

  unfoldable pub secured : String → H.Store → H.Store
  secured path h =
      let h1 = H.set h "Content-Security-Policy" (policy path) in
      let h2 = H.set h1 "X-Frame-Options" "DENY" in
      let h3 = H.set h2 "X-Content-Type-Options" "nosniff" in
      let h4 = H.set h3 "Strict-Transport-Security" "max-age=63072000; includeSubDomains" in
      let h5 = H.set h4 "Referrer-Policy" "no-referrer" in
      H.set h5 "Permissions-Policy" "geolocation=(), microphone=(), camera=()"

  -- `_send`
  abbrev pub send : String → Message → Message
  send path (start status h) = start status (secured path h)
  send path (rest body) = rest body

  -- The messages that leave the middleware, for those that the app sends.
  unfoldable pub security_headers_middleware : Scope → List Message → List Message
  security_headers_middleware scope messages =
      if scope.kind == "http" then map (send scope.path) messages else messages

  -- `sunset(at, link=link)`, where `at` is rendered as an HTTP date.
  unfoldable pub sunset : String → Option String → H.Store → H.Store
  sunset at link h =
      let h' = H.set (H.set h "Deprecation" "true") "Sunset" at in
      elim link [ none ↦ h' | some l ↦ H.set h' "Link" ("<" <> (l <> ">; rel=\"sunset\"")) ]
