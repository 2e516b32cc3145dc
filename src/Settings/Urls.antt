-- ===== src/Settings/Urls.antt =====
-- `urllib.parse.urlsplit`, as src/app/config.py calls it on the public base URL, over the code
-- points of the text. The checks that it makes of a host in brackets and of characters outside
-- ASCII are the parameter `netloc_ok`.
use template_fastapi.Base.{
  ℕ, ◌+◌, Bool, ◌&&◌, ◌||◌, Option, none, some, List, [], ◌∷◌, map, leb, ◌==◌, nat_eq, all,
  if◌then◌else◌,
}

pub record SplitResult : Type 0 where
  pub scheme : List ℕ
  pub netloc : List ℕ
  pub path : List ℕ
  pub query : List ℕ
  pub fragment : List ℕ

-- The text before the first character that `stop` accepts, and the text from there on.
unfoldable pub split_at : (ℕ → Bool) → List ℕ → List ℕ × List ℕ
split_at stop [] = ([], [])
split_at stop (c ∷ s) =
    let rest = split_at stop s in if stop c then ([], c ∷ s) else (c ∷ rest.0, rest.1)

-- `url.lstrip(_WHATWG_C0_CONTROL_OR_SPACE)`
unfoldable pub lstrip_control : List ℕ → List ℕ
lstrip_control [] = []
lstrip_control (c ∷ s) = let rest = lstrip_control s in if leb c 32 then rest else c ∷ s

-- Tabs and line ends are dropped anywhere.
unfoldable pub drop_unsafe : List ℕ → List ℕ
drop_unsafe [] = []
drop_unsafe (c ∷ s) =
    let rest = drop_unsafe s in if c == 9 || c == 10 || c == 13 then rest else c ∷ rest

abbrev is_upper : ℕ → Bool
is_upper c = leb b'A' c && leb c b'Z'

abbrev is_alpha : ℕ → Bool
is_alpha c = is_upper c || leb b'a' c && leb c b'z'

abbrev is_scheme_char : ℕ → Bool
is_scheme_char c = is_alpha c || leb b'0' c && leb c b'9' || c == b'+' || c == b'-' || c == b'.'

abbrev lower : ℕ → ℕ
lower c = if is_upper c then c + 32 else c

-- The scheme in lower case, and the text behind its colon; no scheme if the text has none.
scheme_of : List ℕ → List ℕ × List ℕ → List ℕ × List ℕ
scheme_of url (c ∷ cs, _ ∷ after) =
    if is_alpha c && all is_scheme_char (c ∷ cs) then (map lower (c ∷ cs), after) else ([], url)
scheme_of url (_, _) = ([], url)

unfoldable pub split_scheme : List ℕ → List ℕ × List ℕ
unfolding split_at scheme_of
split_scheme url = scheme_of url (split_at (λ c. c == b':') url)

-- The host behind `//`, and what follows it.
unfoldable pub split_netloc : List ℕ → List ℕ × List ℕ
unfolding split_at
split_netloc (b ∷ c ∷ rest) =
    if b == b'/' && c == b'/'
    then split_at (λ k. k == b'/' || k == b'?' || k == b'#') rest
    else ([], b ∷ c ∷ rest)
split_netloc url = ([], url)

-- `url.split(mark, 1)`: what stands before the mark and, without the mark, behind it.
unfoldable pub split_mark : ℕ → List ℕ → List ℕ × List ℕ
unfolding split_at
split_mark mark url =
    let (before, rest) = split_at (λ c. c == mark) url in
    elim rest [ [] ↦ (before, []) | _ ∷ after ↦ (before, after) ]

-- `none` is the `ValueError` of an invalid host.
unfoldable pub urlsplit : (List ℕ → Bool) → List ℕ → Option SplitResult
unfolding lstrip_control drop_unsafe split_scheme split_netloc split_mark
urlsplit netloc_ok raw =
    let (scheme, after_scheme) = split_scheme (drop_unsafe (lstrip_control raw)) in
    let (netloc, after_netloc) = split_netloc after_scheme in
    let (before_fragment, fragment) = split_mark b'#' after_netloc in
    let (path, query) = split_mark b'?' before_fragment in
    if netloc_ok netloc
    then some (record {
      scheme = scheme;
      netloc = netloc;
      path = path;
      query = query;
      fragment = fragment;
    })
    else none
