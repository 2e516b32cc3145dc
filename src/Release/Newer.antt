-- ===== src/Release/Newer.antt =====
-- A bumped release of .github/scripts/compute_next_version.py comes after every full release.
use template_fastapi.Base.{
  ℕ, ◌+◌, List, [], ◌∷◌, Bool, true, false, nat_eq, if-holds, Option, none, some, is_none, keep,
  keep-In, In, All-In, Result, ok, ◌≡◌, refl, arith, ok-injective, contains, list_eq,
}
use mathlib.Core.Path.{subst}
use template_fastapi.Release.{
  Text, PreType, Version, ParsedTag, base_key, parse_tag, parse_all, lex_ltb, max_by, max_from,
}
use template_fastapi.Release.Decimal.{IsDigits}
use template_fastapi.Release.Parsing.{tag_text, num_of, parse_tag-tag_text}
use template_fastapi.Release.Order.{max_from-IsMax}
use template_fastapi.Release.Next.{
  Part, major, minor, patch, bump_base, or_zero, final_key, latest_final_base, greatest,
  existing_nums, Release, printed, release, main,
}
use template_fastapi.Release.Fresh.{parse_all-In}

over : (xs ys zs : List ℕ) → lex_ltb ys xs ≡ false → lex_ltb ys zs ≡ true → lex_ltb xs zs ≡ true
unfolding lex_ltb
over [] [] zs h k = k
over [] (y ∷ ys) [] h k = absurd (ground arith)
over [] (y ∷ ys) (z ∷ zs) h k = refl
over (x ∷ xs) [] zs h k = absurd (ground arith)
over (x ∷ xs) (y ∷ ys) [] h k = absurd (ground arith)
over (x ∷ xs) (y ∷ ys) (z ∷ zs) h k = ground (arith, over xs ys zs)

bump_base-greater :
    (base : Version) (part : Part) → lex_ltb (base_key base) (base_key (bump_base base part)) ≡ true
unfolding bump_base lex_ltb
bump_base-greater (x, y, z) major = ground arith
bump_base-greater (x, y, z) minor = ground arith
bump_base-greater (x, y, z) patch = ground arith

max_by-bound :
    (ps : List ParsedTag) (q : ParsedTag)
    → In q ps
    → lex_ltb (base_key (or_zero (max_by final_key ps))) (base_key q.base) ≡ false
max_by-bound [] q i = absurd i
max_by-bound (p ∷ ps) q i =
    All-In (λ x. lex_ltb (final_key (max_from final_key p ps)) (final_key x) ≡ false) q (p ∷ ps)
      (max_from-IsMax final_key p ps) i

latest_final_base-bound :
    (ps : List ParsedTag) (q : ParsedTag)
    → In q ps
    → q.pre_type ≡ none
    → lex_ltb (base_key (latest_final_base ps)) (base_key q.base) ≡ false
unfolding latest_final_base
latest_final_base-bound ps q i e =
    max_by-bound (keep (λ p. is_none p.pre_type) ps) q
      ((keep-In (λ (p : ParsedTag). is_none p.pre_type) q ps).1 (i, rw e refl))

module _ (digit_of : ℕ → Option ℕ) (is_digits : IsDigits digit_of) where
  -- The release's tag reads back as a version of this base.
  abbrev HasBase : Version → Release → Type 0
  HasBase base r = (p : ParsedTag) × (parse_tag digit_of r.tag ≡ some p) × (p.base ≡ base)

  printed-HasBase :
      (base : Version) (pre : Option PreType) (n : ℕ) (b : Bool)
      → HasBase base (printed base pre n b)
  printed-HasBase base pre n b = (
    record { base = base; pre_type = pre; pre_num = num_of pre n },
    parse_tag-tag_text digit_of is_digits base pre n,
    refl,
  )

  abbrev Gives : Version → Result Text Release → Type 0
  Gives base res = (r : Release) → res ≡ ok r → HasBase base r

  release-HasBase :
      (tags : List Text) (ps : List ParsedTag) (base : Version) (pre : Option PreType)
      → Gives base (release tags ps base pre)
  unfolding release
  release-HasBase tags ps base none =
      if-holds (Gives base) (contains tags (tag_text base none 0)) _ _ (λ e r h. absurd (cc))
        (λ e r h. subst (HasBase base) (ok-injective h) (printed-HasBase base none 0 false))
  release-HasBase tags ps base (some t) = λ r h.
      subst (HasBase base) (ok-injective h)
        (printed-HasBase base (some t) (greatest 0 (existing_nums base t ps) + 1) true)

  -- With a table in which the ten ASCII digits are digits and the dot and the dash are none, and
  -- with a bump, a tag that is printed reads back as a version after that of every full release
  -- among the tags.
  pub main-newer :
      (tags : List Text) (part : Part) (release_type : Option PreType) (r : Release)
      → main digit_of tags (some part) release_type ≡ ok r
      → (p : ParsedTag) × (parse_tag digit_of r.tag ≡ some p)
        × ((t : Text) (q : ParsedTag)
            → In t tags
            → parse_tag digit_of t ≡ some q
            → q.pre_type ≡ none
            → lex_ltb (base_key q.base) (base_key p.base) ≡ true)
  unfolding main
  main-newer tags part release_type r h =
      let ps = parse_all digit_of tags in
      let latest = latest_final_base ps in
      let (p, e, b) = release-HasBase tags ps (bump_base latest part) release_type r h in
      (
        p,
        e,
        λ t q i f final. rw b (
            over (base_key q.base) (base_key latest) _
              (latest_final_base-bound ps q (parse_all-In digit_of tags t q i f) final)
              (bump_base-greater latest part)),
      )
