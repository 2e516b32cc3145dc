-- ===== src/Release/Order.antt =====
-- `max(tags, key=sort_key)` in the release scripts of .github/scripts.
use template_fastapi.Base.{
  ℕ, List, [], ◌∷◌, true, false, nat_eq, if◌then◌else◌, All, ◌≡◌, refl, arith,
}
use template_fastapi.Release.{lex_ltb, max_from}

pub irreflexive : (xs : List ℕ) → lex_ltb xs xs ≡ false
unfolding lex_ltb
irreflexive [] = refl
irreflexive (x ∷ xs) = ground (arith, irreflexive xs)

pub transitive :
    (xs ys zs : List ℕ) → lex_ltb ys xs ≡ false → lex_ltb zs ys ≡ false → lex_ltb zs xs ≡ false
unfolding lex_ltb
transitive xs [] [] h k = h
transitive xs (y ∷ ys) [] h k = absurd (ground arith)
transitive [] ys (z ∷ zs) h k = refl
transitive (x ∷ xs) [] (z ∷ zs) h k = absurd (ground arith)
transitive (x ∷ xs) (y ∷ ys) (z ∷ zs) h k = ground (arith, transitive xs ys zs)

asymmetric : (xs ys : List ℕ) → lex_ltb xs ys ≡ true → lex_ltb ys xs ≡ false
unfolding lex_ltb
asymmetric [] [] h = absurd (ground arith)
asymmetric [] (y ∷ ys) h = refl
asymmetric (x ∷ xs) [] h = absurd (ground arith)
asymmetric (x ∷ xs) (y ∷ ys) h = ground (arith, asymmetric xs ys)

module _ {ℓ} {A : Type ℓ} (key : A → List ℕ) where
  -- Nothing of the list is greater.
  abbrev pub IsMax : A → List A → Type 0
  IsMax m xs = All (λ x. lex_ltb (key m) (key x) ≡ false) xs

  greater :
      (best x : A)
      → let m = if lex_ltb (key best) (key x) then x else best in
        (lex_ltb (key m) (key best) ≡ false) × (lex_ltb (key m) (key x) ≡ false)
  greater best x =
      ground (arith, asymmetric (key best) (key x), irreflexive (key best), irreflexive (key x))

  pub max_from-IsMax : (best : A) (xs : List A) → IsMax (max_from key best xs) (best ∷ xs)
  unfolding max_from
  max_from-IsMax best [] = (irreflexive (key best), tt)
  max_from-IsMax best (x ∷ xs) =
      let m = if lex_ltb (key best) (key x) then x else best in
      let (over, rest) = max_from-IsMax m xs in
      let (b, y) = greater best x in
      (transitive (key best) (key m) _ b over, (transitive (key x) (key m) _ y over, rest))
