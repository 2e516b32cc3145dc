-- ===== src/Release/Delivered.antt =====
-- What .github/scripts/compute_next_version.py releases is what `latest_tag_for_channel` of
-- .github/scripts/template_sync.py then gives to the instances.
use mathlib.Core.Path.{subst}
use template_fastapi.Base.{
  ℕ, List, true, nat_eq, Option, none, some, some-injective, In, ok, ◌≡◌, refl, sym, ap, ◌∙◌, arith,
  ◌⊎◌, inl, inr, ◌↔◌,
}
use template_fastapi.Release.{Text, ParsedTag, base_key, parse_tag, lex_ltb}
use template_fastapi.Release.Decimal.{IsDigits}
use template_fastapi.Release.Channel.{latest_tag_for_channel}
use template_fastapi.Release.Chosen.{IsNotAfter, IsLatest, latest_tag_for_channel-IsLatest}
use template_fastapi.Release.Next.{Part, Release, main}
use template_fastapi.Release.Fresh.{IsFresh, main-IsFresh}
use template_fastapi.Release.Newer.{main-newer}

-- What is not after another has not the greater version.
not_after-greater :
    (p q : ParsedTag) → IsNotAfter p q → lex_ltb (base_key q.base) (base_key p.base) ≡ true → ⊥
unfolding lex_ltb
not_after-greater p q most less = absurd (ground (arith, most, less))

module _ (digit_of : ℕ → Option ℕ) (is_digits : IsDigits digit_of) where
  -- `all` lists the tags and the new one, in any order.
  abbrev pub IsTagged : List Text → Text → List Text → Type 0
  IsTagged tags tag all = (t : Text) → In t all ↔ ((tag ≡ t) ⊎ In t tags)

  -- A tag that is greater than every other of its channel is the one that is chosen.
  greatest-chosen :
      (tags all : List Text) (tag : Text) (p : ParsedTag)
      → IsTagged tags tag all
      → parse_tag digit_of tag ≡ some p
      → p.pre_type ≡ none
      → ((t : Text) (q : ParsedTag)
          → In t tags
          → parse_tag digit_of t ≡ some q
          → q.pre_type ≡ none
          → lex_ltb (base_key q.base) (base_key p.base) ≡ true)
      → (o : Option Text) → IsLatest digit_of all none o
      → o ≡ some tag
  greatest-chosen tags all tag p tagged e final newer none latest =
      absurd (latest tag p ((tagged tag).1 (inl refl), e, final))
  greatest-chosen tags all tag p tagged e final newer (some t) (q, (i, f, g), bound) =
      elim ((tagged t).0 i) [
        | inl same ↦ ap some (sym same)
        | inr j ↦ absurd (
            not_after-greater p q (bound tag p ((tagged tag).1 (inl refl), e, final))
              (newer t q j f g))
      ]

  -- With a table in which the ten ASCII digits are digits and the dot and the dash are none, and
  -- with a bump: when the tag of a full release is added to the tags, the stable channel's latest
  -- tag is that of the release, in whatever order the tags are listed.
  pub latest_tag_for_channel-main :
      (tags all : List Text) (part : Part) (r : Release)
      → main digit_of tags (some part) none ≡ ok r
      → IsTagged tags r.tag all
      → latest_tag_for_channel digit_of all none ≡ some r.tag
  latest_tag_for_channel-main tags all part r h tagged =
      let (p, e, newer) = main-newer digit_of is_digits tags part none r h in
      let (away, (q, f, full)) =
        subst (IsFresh digit_of is_digits tags none) h
          (main-IsFresh digit_of is_digits tags (some part) none) in
      let same = some-injective (sym e ∙ f) in
      greatest-chosen tags all r.tag p tagged e (ap (λ (x : ParsedTag). x.pre_type) same ∙ full)
        newer (latest_tag_for_channel digit_of all none)
        (latest_tag_for_channel-IsLatest digit_of all none)
