-- ===== src/Release/Parsing.antt =====
-- `parse_tag` of .github/scripts/compute_next_version.py reads the tags that the script prints.
use mathlib.Core.List.{append_assoc}
use template_fastapi.Base.{ℕ, suc, [], ◌∷◌, ◌++◌, Option, none, some, ◌≡◌, refl, sym, ap, ◌∙◌}
use template_fastapi.Release.{
  Text, PreType, alpha, beta, rc, Version, decimal, base_text, suffix_text, version_text, pre_text,
  take_digits, with_digit, number, suffix, parse_tag, skip,
}
use template_fastapi.Release.Decimal.{IsDigits, Stops, number-decimal, decimal_onto-append}

-- The number of a pre-release; a full release has 0.
abbrev pub num_of : Option PreType → ℕ → ℕ
num_of none n = 0
num_of (some t) n = n

abbrev pub tag_text : Version → Option PreType → ℕ → Text
tag_text base pre n = b'v' ∷ version_text base pre n

module _ (digit_of : ℕ → Option ℕ) (is_digits : IsDigits digit_of) where
  dot-Stops : (s : Text) → Stops digit_of (b'.' ∷ s)
  unfolding take_digits
  dot-Stops s = ap (λ o. with_digit o b'.' s (take_digits digit_of s)) is_digits.dot

  suffix_text-Stops : (pre : Option PreType) (n : ℕ) → Stops digit_of (suffix_text pre n)
  unfolding take_digits
  suffix_text-Stops none n = refl
  suffix_text-Stops (some t) n =
      ap
        (λ o.
          with_digit o b'-' (pre_text t ++ (b'.' ∷ decimal n))
            (take_digits digit_of (pre_text t ++ (b'.' ∷ decimal n))))
        is_digits.dash

  last_number : (n : ℕ) → number digit_of (decimal n) ≡ some (n, [])
  last_number n =
      ap (number digit_of) (sym (decimal_onto-append (suc n) n [] []))
      ∙ number-decimal digit_of is_digits n [] (unfold take_digits in refl)

  suffix-suffix_text :
      (base : Version) (pre : Option PreType) (n : ℕ)
      → suffix digit_of base (suffix_text pre n)
        ≡ some (record { base = base; pre_type = pre; pre_num = num_of pre n })
  unfolding suffix skip
  suffix-suffix_text base none n = refl
  suffix-suffix_text base (some alpha) n = rw (last_number n) refl
  suffix-suffix_text base (some beta) n = rw (last_number n) refl
  suffix-suffix_text base (some rc) n = rw (last_number n) refl

  parts :
      (base : Version) (s : Text)
      → base_text base ++ s
        ≡ decimal base.0 ++ (b'.' ∷ (decimal base.1 ++ (b'.' ∷ (decimal base.2 ++ s))))
  parts (major, minor, patch) s =
      append_assoc (decimal major) _ s
      ∙ ap (λ t. decimal major ++ (b'.' ∷ t))
          (append_assoc (decimal minor) (b'.' ∷ decimal patch) s)

  -- With a table in which the ten ASCII digits are digits and the dot and the dash are none, a tag
  -- that the script prints parses to the version, the type and the number that it was made from.
  pub parse_tag-tag_text :
      (base : Version) (pre : Option PreType) (n : ℕ)
      → parse_tag digit_of (tag_text base pre n)
        ≡ some (record { base = base; pre_type = pre; pre_num = num_of pre n })
  unfolding parse_tag skip
  parse_tag-tag_text (major, minor, patch) pre n =
      let num = number-decimal digit_of is_digits in
      let rest = suffix_text pre n in
      rw
        (
          parts (major, minor, patch) rest,
          num major (b'.' ∷ (decimal minor ++ (b'.' ∷ (decimal patch ++ rest)))) (dot-Stops _),
          num minor (b'.' ∷ (decimal patch ++ rest)) (dot-Stops _),
          num patch rest (suffix_text-Stops pre n),
        )
        (suffix-suffix_text (major, minor, patch) pre n)
