-- ===== src/App/Secured.antt =====
-- What the middleware of src/app/http_headers.py does to the messages of a response.
use mathlib.Core.Path.{subst}
use template_fastapi.Base.{
  String, Bool, true, false, ◌⊎◌, List, [], ◌∷◌, Option, some, if◌then◌else◌, ◌==◌, string_eq, ◌≡◌,
  ◌≢◌, refl, ap, ◌∙◌, arith, eq_iff, map, All, contains, Bool-cases, inl, inr,
}
use template_fastapi.App.Headers.{
  Headers, IsHeaders, content_security_policy, docs_content_security_policy, is_docs_path, Message,
  start, rest, Scope, policy, secured, send, security_headers_middleware,
}

module _ (H : Headers) where
  -- The headers that the middleware sets, for a policy.
  abbrev pub security_headers : String → List (String × String)
  security_headers csp =
      ("Content-Security-Policy", csp)
      ∷ ("X-Frame-Options", "DENY")
      ∷ ("X-Content-Type-Options", "nosniff")
      ∷ ("Strict-Transport-Security", "max-age=63072000; includeSubDomains")
      ∷ ("Referrer-Policy", "no-referrer")
      ∷ ("Permissions-Policy", "geolocation=(), microphone=(), camera=()")
      ∷ []

  abbrev pub names : List (String × String) → List String
  names hs = map (λ h. H.lower h.0) hs

  -- The start of a response has each of the security headers, and its other headers and its
  -- status are the app's; another message is the app's.
  abbrev pub IsSecure : String → Message H → Message H → Type 0
  IsSecure csp (start status h) (start status' h') =
      (status' ≡ status)
      × All (λ n. H.get h' n.0 ≡ some n.1) (security_headers csp)
      × ((n : String)
          → contains (names (security_headers csp)) (H.lower n) ≡ false
          → H.get h' n ≡ H.get h n)
  IsSecure csp (rest b) (rest b') = b' ≡ b
  IsSecure csp _ _ = ⊥

  abbrev pub AllSecure : String → List (Message H) → List (Message H) → Type 0
  AllSecure csp [] [] = Unit {0}
  AllSecure csp (m ∷ ms) (m' ∷ ms') = IsSecure csp m m' × AllSecure csp ms ms'
  AllSecure csp _ _ = ⊥

module _ (H : Headers) (L : IsHeaders H) where
  over :
      (h : H.Store) (n l m v : String) (r : Option String)
      → H.lower n ≡ l
      → H.get h m ≡ r
      → H.get (H.set h n v) m ≡ (if H.lower m == l then some v else r)
  over h n l m v r e f = rw (← f, ← e) (L.get-set h n m v)

  -- A header of a secured response, by its name in lower case.
  abbrev looked : String → String → Option String → Option String
  looked path m r =
      if m == "permissions-policy"
      then some "geolocation=(), microphone=(), camera=()"
      else if m == "referrer-policy"
      then some "no-referrer"
      else if m == "strict-transport-security"
      then some "max-age=63072000; includeSubDomains"
      else if m == "x-content-type-options"
      then some "nosniff"
      else if m == "x-frame-options"
      then some "DENY"
      else if m == "content-security-policy"
      then some (policy H path)
      else r

  get-secured :
      (path : String) (h : H.Store) (m : String)
      → H.get (secured H path h) m ≡ looked path (H.lower m) (H.get h m)
  unfolding secured
  get-secured path h m =
      let (l1, (l2, (l3, (l4, (l5, (l6, u)))))) = L.lowered in
      over _ _ _ m _ _ l6 (
        over _ _ _ m _ _ l5 (
          over _ _ _ m _ _ l4
            (over _ _ _ m _ _ l3 (over _ _ _ m _ _ l2 (over _ _ _ m _ _ l1 refl)))))

  get-secured_at :
      (path : String) (h : H.Store) (n l : String)
      → H.lower n ≡ l
      → H.get (secured H path h) n ≡ looked path l (H.get h n)
  get-secured_at path h n l e = get-secured path h n ∙ ap (λ m. looked path m (H.get h n)) e

  secured-names :
      (path : String) (h : H.Store)
      → All (λ n. H.get (secured H path h) n.0 ≡ some n.1) (security_headers H (policy H path))
  secured-names path h =
      let (l1, (l2, (l3, (l4, (l5, (l6, u)))))) = L.lowered in
      (
        get-secured_at path h _ _ l1,
        (
          get-secured_at path h _ _ l2,
          (
            get-secured_at path h _ _ l3,
            (
              get-secured_at path h _ _ l4,
              (get-secured_at path h _ _ l5, (get-secured_at path h _ _ l6, tt)),
            ),
          ),
        ),
      )

  secured-others :
      (path : String) (h : H.Store) (n : String)
      → contains (names H (security_headers H (policy H path))) (H.lower n) ≡ false
      → H.get (secured H path h) n ≡ H.get h n
  secured-others path h n away =
      let (l1, (l2, (l3, (l4, (l5, (l6, u)))))) = L.lowered in
      get-secured path h n ∙ ground (arith, rw (l1, l2, l3, l4, l5, l6) at away)

  send-IsSecure : (path : String) (m : Message H) → IsSecure H (policy H path) m (send H path m)
  send-IsSecure path (start status h) = (refl, secured-names path h, secured-others path h)
  send-IsSecure path (rest body) = refl

  map-AllSecure :
      (path : String) (ms : List (Message H))
      → AllSecure H (policy H path) ms (map (send H path) ms)
  map-AllSecure path [] = tt
  map-AllSecure path (m ∷ ms) = (send-IsSecure path m, map-AllSecure path ms)

  docs_cases :
      (path : String)
      → ((is_docs_path path ≡ true) × ((path ≡ "/docs") ⊎ (path ≡ "/redoc")))
        ⊎ ((is_docs_path path ≡ false) × ((path ≢ "/docs") × (path ≢ "/redoc")))
  docs_cases path =
      let docs = eq_iff path "/docs" in
      let redoc = eq_iff path "/redoc" in
      elim (Bool-cases (path == "/docs")) [
        | inl e ↦ inl (ground (arith, e), inl (docs.0 e))
        | inr e ↦ elim (Bool-cases (path == "/redoc")) [
          | inl f ↦ inl (ground (arith, f), inr (redoc.0 f))
          | inr f ↦ inr (
            ground (arith, e, f),
            (λ h. absurd (ground (arith, docs.1 h, e)), λ h. absurd (ground (arith, redoc.1 h, f))),
          )
        ]
      ]

  -- The responses of a request over HTTP, under the policy for its path.
  abbrev pub AreSecure : String → List (Message H) → List (Message H) → Type 0
  AreSecure path ms ms' =
      (((path ≡ "/docs") ⊎ (path ≡ "/redoc"))
        × AllSecure H
            "default-src 'self'; script-src 'self' 'unsafe-inline' cdn.jsdelivr.net; style-src 'self' 'unsafe-inline' cdn.jsdelivr.net fonts.googleapis.com; img-src 'self' data: fastapi.tiangolo.com; font-src fonts.gstatic.com; frame-ancestors 'none'"
            ms ms')
      ⊎ ((path ≢ "/docs")
          × (path ≢ "/redoc")
          × AllSecure H "default-src 'self'; frame-ancestors 'none'" ms ms')

  map-AreSecure : (path : String) (ms : List (Message H)) → AreSecure path ms (map (send H path) ms)
  map-AreSecure path ms =
      let here = map-AllSecure path ms in
      let by = λ (b : Bool) (e : is_docs_path path ≡ b).
        subst
          (λ x.
            AllSecure H (if x then docs_content_security_policy else content_security_policy) ms
              (map (send H path) ms))
          e here in
      elim (docs_cases path) [
        | inl (e, docs) ↦ inl (docs, by true e)
        | inr (e, (d, r)) ↦ inr (d, r, by false e)
      ]

  -- If setting a header gives it that value and leaves the others alone, and names are compared in
  -- lower case, then every response that passes this middleware leaves with each of the security
  -- headers, under /docs and /redoc with the policy that lets in the scripts of the documentation
  -- and elsewhere with the strict one, and is otherwise the app's, message by message; traffic that
  -- is not HTTP passes unchanged.
  pub security_headers_middleware-AllSecure :
      (scope : Scope H) (ms : List (Message H))
      → (scope.kind ≡ "http" → AreSecure scope.path ms (security_headers_middleware H scope ms))
        × (scope.kind ≢ "http" → security_headers_middleware H scope ms ≡ ms)
  unfolding security_headers_middleware
  security_headers_middleware-AllSecure scope ms = (
    λ e. rw ((eq_iff scope.kind "http").1 e) (map-AreSecure scope.path ms),
    λ n. elim (Bool-cases (scope.kind == "http")) [
      | inl e ↦ absurd (n ((eq_iff scope.kind "http").0 e))
      | inr e ↦ rw e refl
    ],
  )
