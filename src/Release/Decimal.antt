-- ===== src/Release/Decimal.antt =====
-- A number that .github/scripts/compute_next_version.py prints is read back by its `parse_tag`.
use template_fastapi.Base.{
  ℕ, zero, suc, ◌+◌, ◌/◌, ◌%◌, ◌<◌, List, [], ◌∷◌, ◌++◌, nat_eq, Option, none, some, ltb, ◌≡◌, refl,
  ap, ◌∙◌, arith, Bool-cases, inl, inr,
}
use template_fastapi.Release.{
  Text, decimal_onto, decimal, take_digits, with_digit, value, number, number_of,
}

-- What is known of the table of digits: the ASCII digits, and that a dot and a dash are none.
pub record IsDigits (digit_of : ℕ → Option ℕ) : Type 0 where
  pub ascii : (d : ℕ) → d < 10 → digit_of (48 + d) ≡ some d
  pub dot : digit_of b'.' ≡ none
  pub dash : digit_of b'-' ≡ none

-- A text that `\d*` stops at once on.
abbrev pub Stops : (ℕ → Option ℕ) → Text → Type 0
Stops digit_of s = take_digits digit_of s ≡ ([], s)

pub decimal_onto-append :
    (fuel n : ℕ) (s t : Text) → decimal_onto fuel n s ++ t ≡ decimal_onto fuel n (s ++ t)
unfolding decimal_onto
decimal_onto-append zero n s t = refl
decimal_onto-append (suc fuel) n s t =
    ground (arith, decimal_onto-append fuel (n / 10) ((48 + n % 10) ∷ s) t)

module _ (digit_of : ℕ → Option ℕ) (is_digits : IsDigits digit_of) where
  take_digits-digit :
      (d : ℕ) (s : Text)
      → d < 10
      → take_digits digit_of ((48 + d) ∷ s)
        ≡ (d ∷ (take_digits digit_of s).0, (take_digits digit_of s).1)
  unfolding take_digits
  take_digits-digit d s l =
      ap (λ o. with_digit o (48 + d) s (take_digits digit_of s)) (is_digits.ascii d l)

  -- The digits of `n` are those of the text before the rest, and their value is that of `n`.
  take_digits-decimal_onto :
      (fuel n : ℕ) (t s : Text) (ds : List ℕ)
      → n < fuel
      → take_digits digit_of t ≡ (ds, s)
      → (d : ℕ) × (es : List ℕ) × (take_digits digit_of (decimal_onto fuel n t) ≡ (d ∷ es, s))
        × (value 0 (d ∷ es) ≡ value n ds)
  unfolding decimal_onto
  take_digits-decimal_onto zero n t s ds l e = absurd (omega arith)
  take_digits-decimal_onto (suc fuel) n t s ds l e =
      let t' = (48 + n % 10) ∷ t in
      let e' : take_digits digit_of t' ≡ (n % 10 ∷ ds, s) =
        take_digits-digit (n % 10) t (omega arith) ∙ ap (λ r. (n % 10 ∷ r.0, r.1)) e in
      elim (Bool-cases (ltb n 10)) [
        | inl small ↦ rw small (n % 10, ds, e', unfold value in ap (λ k. value k ds) (ground arith))
        | inr big ↦
            let (d, es, f, v) =
              take_digits-decimal_onto fuel (n / 10) t' s (n % 10 ∷ ds) (ground arith) e' in
            rw big (d, es, f, v ∙ (unfold value in ap (λ k. value k ds) (omega arith)))
      ]

  pub number-decimal :
      (n : ℕ) (s : Text) → Stops digit_of s → number digit_of (decimal n ++ s) ≡ some (n, s)
  unfolding number
  number-decimal n s stops =
      let (d, es, e, v) = take_digits-decimal_onto (suc n) n s s [] (omega arith) stops in
      ap (λ t. number_of (take_digits digit_of t)) (decimal_onto-append (suc n) n [] s)
      ∙ (ap number_of e ∙ ap (λ k. some (k, s)) (v ∙ (unfold value in refl)))
