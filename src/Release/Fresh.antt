-- ===== src/Release/Fresh.antt =====
-- The tag that .github/scripts/compute_next_version.py prints is a new one.
use template_fastapi.Base.{
  ℕ, ◌+◌, ◌≤◌, List, [], ◌∷◌, true, false, ◌==◌, nat_eq, list_eq, list_beq_iff, if◌then◌else◌,
  if-holds, Option, none, some, ltb, contains, keep, keep-In, In, map, Result, ok, err, ◌≡◌, refl,
  sym, ap, arith, inl, inr, Bool-cases,
}
use mathlib.Core.Path.{subst}
use template_fastapi.Release.{
  Text, PreType, alpha, beta, rc, Version, ParsedTag, base_key, parse_tag, parse_all, or_skip,
}
use template_fastapi.Release.Decimal.{IsDigits}
use template_fastapi.Release.Parsing.{tag_text, parse_tag-tag_text}
use template_fastapi.Release.Channel.{is_in}
use template_fastapi.Release.Next.{Part, greatest, existing_nums, is_same, Release, release, main}

contains-In : (xs : List Text) (x : Text) → contains xs x ≡ true → In x xs
contains-In [] x h = absurd (ground arith)
contains-In (y ∷ xs) x h = elim (Bool-cases (x == y)) [
  | inl e ↦ inl (sym ((list_beq_iff x y).0 e))
  | inr e ↦ inr (contains-In xs x (ground arith))
]

or_skip-In :
    (o : Option ParsedTag) (p : ParsedTag) (rest : List ParsedTag)
    → o ≡ some p
    → In p (or_skip o rest)
or_skip-In none p rest h = absurd (ground arith)
or_skip-In (some q) p rest h = inl cc

or_skip-rest :
    (o : Option ParsedTag) (p : ParsedTag) (rest : List ParsedTag)
    → In p rest
    → In p (or_skip o rest)
or_skip-rest none p rest i = i
or_skip-rest (some q) p rest i = inr i

pub parse_all-In :
    (digit_of : ℕ → Option ℕ) (tags : List Text) (t : Text) (p : ParsedTag)
    → In t tags
    → parse_tag digit_of t ≡ some p
    → In p (parse_all digit_of tags)
unfolding parse_all
parse_all-In digit_of [] t p i h = absurd i
parse_all-In digit_of (u ∷ tags) t p (inl e) h =
    or_skip-In _ p _ (subst (λ x. parse_tag digit_of x ≡ some p) (sym e) h)
parse_all-In digit_of (u ∷ tags) t p (inr i) h =
    or_skip-rest _ p _ (parse_all-In digit_of tags t p i h)

greatest-bound : (n : ℕ) (xs : List ℕ) → n ≤ greatest n xs
unfolding greatest
greatest-bound n [] = omega arith
greatest-bound n (x ∷ xs) = ground (arith, greatest-bound n xs, greatest-bound x xs)

greatest-In : (n : ℕ) (xs : List ℕ) (x : ℕ) → In x xs → x ≤ greatest n xs
unfolding greatest
greatest-In n [] x i = absurd i
greatest-In n (y ∷ xs) x (inl e) = ground (arith, greatest-bound n xs, greatest-bound y xs)
greatest-In n (y ∷ xs) x (inr i) = greatest-In (if ltb n y then y else n) xs x i

map-In : (p : ParsedTag) (ps : List ParsedTag) → In p ps → In p.pre_num (map (λ q. q.pre_num) ps)
map-In p [] i = absurd i
map-In p (q ∷ ps) (inl e) = inl (ap (λ r. r.pre_num) e)
map-In p (q ∷ ps) (inr i) = inr (map-In p ps i)

is_in_refl : (t : PreType) → is_in (some t) (some t) ≡ true
is_in_refl alpha = refl
is_in_refl beta = refl
is_in_refl rc = refl

-- The number of a pre-release is above that of each of its base and type.
next_num-bound :
    (base : Version) (t : PreType) (n : ℕ) (tags : List ParsedTag)
    → In (record { base = base; pre_type = some t; pre_num = n }) tags
    → n ≤ greatest 0 (existing_nums base t tags)
next_num-bound base t n tags i =
    let p : ParsedTag = record { base = base; pre_type = some t; pre_num = n } in
    let same : is_same base t p ≡ true =
      ground (arith, list_beq_iff (base_key base) (base_key base), is_in_refl t) in
    greatest-In 0 _ n
      (map-In p (keep (is_same base t) tags) ((keep-In (is_same base t) p tags).1 (i, same)))

module _ (digit_of : ℕ → Option ℕ) (is_digits : IsDigits digit_of) where
  -- A tag that reads back as a release of this type.
  abbrev pub IsOf : Option PreType → Text → Type 0
  IsOf pre tag = (p : ParsedTag) × (parse_tag digit_of tag ≡ some p) × (p.pre_type ≡ pre)

  -- The printed tag is of the wanted type and not among the tags, or the wanted release is a full
  -- one and the tag that stops it is a full one among the tags.
  abbrev pub IsFresh : List Text → Option PreType → Result Text Release → Type 0
  IsFresh tags pre (ok r) = (contains tags r.tag ≡ false) × IsOf pre r.tag
  IsFresh tags pre (err tag) = (contains tags tag ≡ true) × (pre ≡ none) × IsOf none tag

  printed-IsOf : (base : Version) (pre : Option PreType) (n : ℕ) → IsOf pre (tag_text base pre n)
  printed-IsOf base pre n = (_, parse_tag-tag_text digit_of is_digits base pre n, refl)

  release-IsFresh :
      (tags : List Text) (base : Version) (pre : Option PreType)
      → IsFresh tags pre (release tags (parse_all digit_of tags) base pre)
  unfolding release
  release-IsFresh tags base none =
      if-holds (IsFresh tags none) (contains tags (tag_text base none 0)) _ _
        (λ there. (there, refl, printed-IsOf base none 0))
        (λ away. (away, printed-IsOf base none 0))
  release-IsFresh tags base (some t) =
      let ps = parse_all digit_of tags in
      let n = greatest 0 (existing_nums base t ps) + 1 in
      let tag = tag_text base (some t) n in
      (
        elim (Bool-cases (contains tags tag)) [
          | inl there ↦
              let bound = next_num-bound base t n ps (
                parse_all-In digit_of tags tag _ (contains-In tags tag there)
                  (parse_tag-tag_text digit_of is_digits base (some t) n)) in
              absurd (omega arith)
          | inr away ↦ away
        ],
        printed-IsOf base (some t) n,
      )

  -- With a table in which the ten ASCII digits are digits and the dot and the dash are none, the
  -- run prints a tag of the wanted type that does not exist, and stops only for a full release,
  -- where its tag exists; a pre-release is never stopped.
  pub main-IsFresh :
      (tags : List Text) (bump : Option Part) (release_type : Option PreType)
      → IsFresh tags release_type (main digit_of tags bump release_type)
  unfolding main
  main-IsFresh tags bump release_type = release-IsFresh tags _ release_type
