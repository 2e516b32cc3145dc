-- ===== src/Release.antt =====
-- .github/scripts/compute_next_version.py and the tag functions of
-- .github/scripts/template_sync.py: version tags, their order, and their text. A text is a list
-- of code points. The parameter `digit_of` gives the value of each decimal digit of Unicode,
-- which `\d` and `int` accept; a number of more than 4300 digits, which `int` refuses, is not
-- modelled.
pub mod Decimal
pub mod Parsing
pub mod Order
pub mod Channel
pub mod Chosen
pub mod Next
pub mod Fresh
pub mod Newer
pub mod Delivered
mod Tests
use template_fastapi.Base.{
  ℕ, zero, suc, ◌+◌, ◌*◌, ◌/◌, ◌%◌, List, [], ◌∷◌, ◌++◌, Bool, true, false, ◌==◌, nat_eq, list_eq,
  codes, if◌then◌else◌, Option, none, some, ltb, ◌||◌, ◌&&◌,
}

abbrev pub Text : Type 0
Text = List ℕ

pub data PreType : Type 0 where
  alpha : PreType
  beta : PreType
  rc : PreType

-- Major, minor and patch.
abbrev pub Version : Type 0
Version = ℕ × ℕ × ℕ

pub record ParsedTag : Type 0 where
  pub base : Version
  pub pre_type : Option PreType
  pub pre_num : ℕ

abbrev pub pre_order : PreType → ℕ
pre_order alpha = 0
pre_order beta = 1
pre_order rc = 2

abbrev pub pre_rank : Option PreType → ℕ
pre_rank none = 3
pre_rank (some t) = pre_order t

abbrev pub base_key : Version → List ℕ
base_key (major, minor, patch) = major ∷ minor ∷ patch ∷ []

unfoldable pub sort_key : ParsedTag → List ℕ
sort_key p = base_key p.base ++ (pre_rank p.pre_type ∷ p.pre_num ∷ [])

-- `xs < ys` on tuples of numbers.
unfoldable pub lex_ltb : List ℕ → List ℕ → Bool
lex_ltb [] [] = false
lex_ltb [] (y ∷ ys) = true
lex_ltb (x ∷ xs) [] = false
lex_ltb (x ∷ xs) (y ∷ ys) = ltb x y || x == y && lex_ltb xs ys

-- `max(xs, key=key)`: the first of the greatest.
unfoldable pub max_from {ℓ} : {A : Type ℓ} → (A → List ℕ) → A → List A → A
max_from key best [] = best
max_from key best (x ∷ xs) = max_from key (if lex_ltb (key best) (key x) then x else best) xs

abbrev pub max_by {ℓ} : {A : Type ℓ} → (A → List ℕ) → List A → Option A
max_by key [] = none
max_by key (x ∷ xs) = some (max_from key x xs)

-- The decimal digits of `n` before `tail`; `fuel` bounds their number.
unfoldable pub decimal_onto : ℕ → ℕ → Text → Text
decimal_onto zero n tail = tail
decimal_onto (suc fuel) n tail =
    let digits = (48 + n % 10) ∷ tail in
    let more = decimal_onto fuel (n / 10) digits in if ltb n 10 then digits else more

-- f"{n}"
abbrev pub decimal : ℕ → Text
decimal n = decimal_onto (suc n) n []

abbrev pub pre_text : PreType → Text
pre_text alpha = codes "alpha"
pre_text beta = codes "beta"
pre_text rc = codes "rc"

abbrev pub base_text : Version → Text
base_text (major, minor, patch) =
    decimal major ++ (b'.' ∷ (decimal minor ++ (b'.' ∷ decimal patch)))

-- f"-{release_type}.{next_num}", or nothing.
abbrev pub suffix_text : Option PreType → ℕ → Text
suffix_text none n = []
suffix_text (some t) n = b'-' ∷ (pre_text t ++ (b'.' ∷ decimal n))

abbrev pub version_text : Version → Option PreType → ℕ → Text
version_text base pre n = base_text base ++ suffix_text pre n

unfoldable pub value : ℕ → List ℕ → ℕ
value n [] = n
value n (d ∷ ds) = value (n * 10 + d) ds

infixl 5 ◌>>=◌
abbrev pub ◌>>=◌ {ℓ κ} : {A : Type ℓ} {B : Type κ} → Option A → (A → Option B) → Option B
none >>= f = none
some a >>= f = f a

-- The text after a literal that the pattern wants next.
unfoldable pub skip : Text → Text → Option Text
skip [] s = some s
skip (c ∷ cs) [] = none
skip (c ∷ cs) (d ∷ s) = if c == d then skip cs s else none

-- `$` holds at the end, and before a newline at the end.
abbrev pub at_end : Text → Bool
at_end [] = true
at_end (c ∷ []) = c == b'\n'
at_end _ = false

abbrev pub ends {ℓ} : {A : Type ℓ} → Text → A → Option A
ends s a = if at_end s then some a else none

abbrev pub or_else {ℓ} : {A : Type ℓ} → Option A → Option A → Option A
or_else (some a) o = some a
or_else none o = o

abbrev pub or_skip {ℓ} : {A : Type ℓ} → Option A → List A → List A
or_skip none xs = xs
or_skip (some x) xs = x ∷ xs

abbrev pub number_of : List ℕ × Text → Option (ℕ × Text)
number_of ([], s) = none
number_of (d ∷ ds, s) = some (value 0 (d ∷ ds), s)

abbrev pub with_digit : Option ℕ → ℕ → Text → List ℕ × Text → List ℕ × Text
with_digit none c s rest = ([], c ∷ s)
with_digit (some d) c s rest = (d ∷ rest.0, rest.1)

module _ (digit_of : ℕ → Option ℕ) where
  -- `\d*`: the values of the leading digits, and the rest.
  unfoldable pub take_digits : Text → List ℕ × Text
  take_digits [] = ([], [])
  take_digits (c ∷ s) = with_digit (digit_of c) c s (take_digits s)

  -- `\d+` and its `int`.
  unfoldable pub number : Text → Option (ℕ × Text)
  unfolding take_digits value
  number s = number_of (take_digits s)

  abbrev pub pre_release : Version → PreType → Text → Option ParsedTag
  pre_release base t s = do
    s ← skip (pre_text t) s
    s ← skip (b'.' ∷ []) s
    (n, s) ← number s
    ends s (record { base = base; pre_type = some t; pre_num = n })

  -- The part after the patch number: nothing, or a pre-release.
  unfoldable pub suffix : Version → Text → Option ParsedTag
  suffix base s =
      let full : ParsedTag = record { base = base; pre_type = none; pre_num = 0 } in
      or_else (ends s full) do
        s ← skip (b'-' ∷ []) s
        or_else (pre_release base alpha s)
            (or_else (pre_release base beta s) (pre_release base rc s))

  unfoldable pub parse_tag : Text → Option ParsedTag
  unfolding number suffix
  parse_tag s = do
    s ← skip (b'v' ∷ []) s
    (major, s) ← number s
    s ← skip (b'.' ∷ []) s
    (minor, s) ← number s
    s ← skip (b'.' ∷ []) s
    (patch, s) ← number s
    suffix (major, minor, patch) s

  -- `[p for p in map(parse_tag, tags) if p is not None]`
  unfoldable pub parse_all : List Text → List ParsedTag
  unfolding parse_tag
  parse_all [] = []
  parse_all (t ∷ ts) = or_skip (parse_tag t) (parse_all ts)
