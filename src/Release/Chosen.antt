-- ===== src/Release/Chosen.antt =====
-- `latest_tag_for_channel` of .github/scripts/template_sync.py chooses a latest tag.
use template_fastapi.Base.{
  some-injective, ℕ, List, [], ◌∷◌, Bool, true, false, Option, none, some, In, All-In, keep-In, ◌≡◌,
  refl, sym, ap, arith, ◌⊎◌, inl, inr, if◌then◌else◌, ◌↔◌, ◌<◌, ◌≤◌, ◌∙◌, ◌==◌, nat_eq, Bool-cases,
}
use mathlib.Core.Path.{subst}
use template_fastapi.Release.{
  Text, PreType, ParsedTag, sort_key, max_by, max_from, parse_tag, lex_ltb, pre_rank,
}
use template_fastapi.Release.Order.{max_from-IsMax}
use template_fastapi.Release.Channel.{
  is_in, with_parsed, tag_of, parsed, candidates, latest_tag_for_channel, item_key,
}

is_in_iff : (t u : Option PreType) → (is_in t u ≡ true) ↔ (t ≡ u)
is_in_iff t u = ground arith

module _ {A : Type 0} where
  either :
      (b : Bool) (x best z : A) (xs : List A)
      → In z ((if b then x else best) ∷ xs)
      → In z (best ∷ x ∷ xs)
  either true x best z xs i = inr i
  either false x best z xs (inl e) = inl e
  either false x best z xs (inr i) = inr (inr i)

  max_from-In : (key : A → List ℕ) (best : A) (xs : List A) → In (max_from key best xs) (best ∷ xs)
  unfolding max_from
  max_from-In key best [] = inl refl
  max_from-In key best (x ∷ xs) =
      let b = lex_ltb (key best) (key x) in
      either b x best _ xs (max_from-In key (if b then x else best) xs)

with_parsed-In :
    (u t : Text) (o : Option ParsedTag) (p : ParsedTag) (rest : List (Text × ParsedTag))
    → In (t, p) (with_parsed u o rest) ↔ ((u ≡ t) × (o ≡ some p)) ⊎ In (t, p) rest
with_parsed-In u t none p rest =
    (λ i. inr i, λ h. elim h [ inl e ↦ absurd (ground (arith, e.1)) | inr i ↦ i ])
with_parsed-In u t (some q) p rest = (
  λ h. elim h [ inl e ↦ inl (ap (λ i. i.0) e, ap (λ i. some i.1) e) | inr i ↦ inr i ],
  λ h. elim h [ inl e ↦ inl (let same : q ≡ p = some-injective e.1 in cc) | inr i ↦ inr i ],
)

-- Of two tags of one channel, the first is not the later one: by major, minor and patch, and then
-- by the number of the pre-release.
abbrev pub IsNotAfter : ParsedTag → ParsedTag → Type 0
IsNotAfter q p =
    (q.base.0 < p.base.0)
    ⊎ ((q.base.0 ≡ p.base.0)
        × ((q.base.1 < p.base.1)
            ⊎ ((q.base.1 ≡ p.base.1)
                × ((q.base.2 < p.base.2) ⊎ ((q.base.2 ≡ p.base.2) × (q.pre_num ≤ p.pre_num))))))

lex_step :
    (x y : ℕ) (xs ys : List ℕ)
    → lex_ltb (x ∷ xs) (y ∷ ys) ≡ false
    → (y < x) ⊎ ((y ≡ x) × (lex_ltb xs ys ≡ false))
unfolding lex_ltb
lex_step x y xs ys h = elim (Bool-cases (x == y)) [
  | inl e ↦ inr (ground (arith, e), ground (arith, h, e))
  | inr e ↦ inl (ground (arith, h, e))
]

lex_last : (x y : ℕ) → lex_ltb (x ∷ []) (y ∷ []) ≡ false → y ≤ x
unfolding lex_ltb
lex_last x y h = ground (arith, h)

max-IsNotAfter :
    (p q : ParsedTag)
    → p.pre_type ≡ q.pre_type
    → lex_ltb (sort_key p) (sort_key q) ≡ false
    → IsNotAfter q p
unfolding sort_key
max-IsNotAfter p q same h = elim (lex_step p.base.0 q.base.0 _ _ h) [
  | inl less ↦ inl less
  | inr (e, h) ↦ inr (
    e,
    elim (lex_step p.base.1 q.base.1 _ _ h) [
      | inl less ↦ inl less
      | inr (e, h) ↦ inr (
        e,
        elim (lex_step p.base.2 q.base.2 _ _ h) [
          | inl less ↦ inl less
          | inr (e, h) ↦ inr (
            e,
            elim (lex_step (pre_rank p.pre_type) (pre_rank q.pre_type) _ _ h) [
              | inl less ↦ absurd (let r = ap pre_rank same in omega (arith, less, r))
              | inr (r, h) ↦ lex_last p.pre_num q.pre_num h
            ],
          )
        ],
      )
    ],
  )
]

module _ (digit_of : ℕ → Option ℕ) where
  -- A tag of the list that parses to `p`, of the channel.
  abbrev pub IsCandidate : List Text → Option PreType → Text → ParsedTag → Type 0
  IsCandidate tags channel t p =
      In t tags × (parse_tag digit_of t ≡ some p) × (p.pre_type ≡ channel)

  parsed-In :
      (tags : List Text) (t : Text) (p : ParsedTag)
      → In (t, p) (parsed digit_of tags) ↔ In t tags × (parse_tag digit_of t ≡ some p)
  unfolding parsed
  parsed-In [] t p = (λ i. absurd i, λ h. absurd h.0)
  parsed-In (u ∷ tags) t p =
      let w = with_parsed-In u t (parse_tag digit_of u) p (parsed digit_of tags) in
      let r = parsed-In tags t p in
      (
        λ i. elim (w.0 i) [
          | inl e ↦ (inl e.0, subst (λ x. parse_tag digit_of x ≡ some p) e.0 e.1)
          | inr j ↦ let (k, f) = r.0 j in (inr k, f)
        ],
        λ (i, f). elim i [
          | inl e ↦ w.1 (inl (e, subst (λ x. parse_tag digit_of x ≡ some p) (sym e) f))
          | inr j ↦ w.1 (inr (r.1 (j, f)))
        ],
      )

  candidates-IsCandidate :
      (tags : List Text) (channel : Option PreType) (t : Text) (p : ParsedTag)
      → In (t, p) (candidates digit_of tags channel) ↔ IsCandidate tags channel t p
  candidates-IsCandidate tags channel t p =
      let k =
        keep-In (λ (i : Text × ParsedTag). is_in i.1.pre_type channel) (t, p)
          (parsed digit_of tags) in
      let q = parsed-In tags t p in
      let c = is_in_iff p.pre_type channel in
      (
        λ i. let (j, e) = k.0 i in let (l, f) = q.0 j in (l, f, c.0 e),
        λ (l, f, e). k.1 (q.1 (l, f), c.1 e),
      )

  -- The answer for a channel: nothing if no tag of the list is of the channel, or else a tag of
  -- the channel that no other of the channel comes after.
  abbrev pub IsLatest : List Text → Option PreType → Option Text → Type 0
  IsLatest tags channel none = (t : Text) (p : ParsedTag) → IsCandidate tags channel t p → ⊥
  IsLatest tags channel (some t) =
      (p : ParsedTag) × IsCandidate tags channel t p
      × ((u : Text) (q : ParsedTag) → IsCandidate tags channel u q → IsNotAfter q p)

  max_by-IsLatest :
      (tags : List Text) (channel : Option PreType) (items : List (Text × ParsedTag))
      → ((t : Text) (p : ParsedTag) → In (t, p) items ↔ IsCandidate tags channel t p)
      → IsLatest tags channel (tag_of (max_by item_key items))
  max_by-IsLatest tags channel [] same = λ t p c. absurd ((same t p).1 c)
  max_by-IsLatest tags channel (i ∷ is) same =
      let m = max_from item_key i is in
      let own = (same m.0 m.1).0 (max_from-In item_key i is) in
      let over = max_from-IsMax item_key i is in
      (
        m.1,
        own,
        λ u q c. max-IsNotAfter m.1 q (own.2 ∙ sym c.2) (
            All-In (λ x. lex_ltb (item_key m) (item_key x) ≡ false) (u, q) (i ∷ is) over
              ((same u q).1 c)),
      )

  -- The chosen tag is one of the list and of the channel, and no tag of the list and the channel
  -- comes after it, by major, minor and patch and then by the number of the pre-release; none is
  -- chosen exactly if the channel has no tag.
  pub latest_tag_for_channel-IsLatest :
      (tags : List Text) (channel : Option PreType)
      → IsLatest tags channel (latest_tag_for_channel digit_of tags channel)
  unfolding latest_tag_for_channel
  latest_tag_for_channel-IsLatest tags channel =
      max_by-IsLatest tags channel (candidates digit_of tags channel)
        (candidates-IsCandidate tags channel)
