-- ===== src/RateLimit/Window.antt =====
-- The limiter of src/app/rate_limit.py never lets a client's calls of a route pass the rate.
use template_fastapi.Base.{
  ℕ, suc, ◌-◌, ◌≤◌, ◌<◌, String, Bool, true, false, ◌&&◌, Option, none, some, List, [], ◌∷◌, ◌==◌,
  string_eq, if◌then◌else◌, is_empty, Result, ok, err, ◌≡◌, refl, arith, eq_iff, Bool-cases, inl,
  inr,
}
use mathlib.Core.Path.{subst}
use template_fastapi.RateLimit.{
  Strategy, Limited, Call, Arg, request, other, Answer, runs, request_of, serve, judged, check,
}

-- A fixed window while it lasts: a hit passes only if fewer than `amount` of its key were counted,
-- and then counts one; no hit takes a count back.
pub record IsWindow (L : Strategy) (item : L.Item) (amount : ℕ) : Type 0 where
  pub used : L.Store → String → String → ℕ
  pub grants :
      (key scope : String) (st : L.Store)
      → (L.hit item key scope st).1 ≡ ok true
      → (used st key scope < amount)
        × (used (L.hit item key scope st).0 key scope ≡ suc (used st key scope))
  pub grows :
      (key scope : String) (st : L.Store) (k s : String)
      → used st k s ≤ used (L.hit item key scope st).0 k s

abbrev pub is_from : String → Option Arg → Bool
is_from key (some (request k)) = k == key
is_from key _ = false

abbrev pub is_run : {B : Type 0} → Answer B → Bool
is_run runs = true
is_run _ = false

-- How many of the client's calls the handler ran for.
abbrev pub ran_for : {B : Type 0} → String → Limited → List Call → List (Answer B) → ℕ
ran_for key l [] answers = 0
ran_for key l (c ∷ cs) [] = 0
ran_for key l (c ∷ cs) (a ∷ answers) =
    let rest = ran_for key l cs answers in
    if is_from key (request_of l c) && is_run a then suc rest else rest

-- A client whose address is known is not one without an address.
pub nameless : (key k : String) → is_empty key ≡ false → is_empty k ≡ true → (k == key) ≡ false
nameless key k named e = elim (Bool-cases (k == key)) [
  | inl h ↦ absurd (ground (arith, named, subst (λ x. is_empty x ≡ true) ((eq_iff k key).0 h) e))
  | inr h ↦ h
]

module _ {L : Strategy} {item : L.Item} (l : Limited) {amount : ℕ} (w : IsWindow L item amount)
    (key : String) (named : is_empty key ≡ false) where
  count : L.Store → ℕ
  count st = w.used st key l.scope

  -- What a hit of the client `k` does to the count of `key`.
  abbrev Counted : L.Store → String → L.Store × Answer L.Broken → Type 0
  Counted st k (st', a) =
      (((k == key) && is_run a) ≡ true → (count st < amount) × (count st' ≡ suc (count st)))
      × (count st ≤ count st')

  kept : (k : String) (st st' : L.Store) → (L.hit item k l.scope st).0 ≡ st' → count st ≤ count st'
  unfolding count
  kept k st st' e = subst (λ x. count st ≤ count x) e (w.grows k l.scope st key l.scope)

  granted :
      (st st' : L.Store)
      → (L.hit item key l.scope st).0 ≡ st'
      → (L.hit item key l.scope st).1 ≡ ok true
      → (count st < amount) × (count st' ≡ suc (count st))
  unfolding count
  granted st st' e r =
      let (fits, counted) = w.grants key l.scope st r in
      (fits, subst (λ x. count x ≡ suc (count st)) e counted)

  hit-Counted :
      (k : String) (st st' : L.Store) (r : Result L.Broken Bool)
      → (L.hit item k l.scope st).0 ≡ st'
      → (L.hit item k l.scope st).1 ≡ r
      → Counted st k (judged L item l (st', r))
  hit-Counted k st st' (ok true) e f = (
    λ same.
        let name = (eq_iff k key).0 (ground arith) in
        granted st st' (subst (λ x. (L.hit item x l.scope st).0 ≡ st') name e)
          (subst (λ x. (L.hit item x l.scope st).1 ≡ ok true) name f),
    kept k st st' e,
  )
  hit-Counted k st st' (ok false) e f = (λ h. absurd (ground arith), kept k st st' e)
  hit-Counted k st st' (err b) e f = (λ h. absurd (ground arith), kept k st st' e)

  judged-count :
      (o : Option Arg) (st : L.Store)
      → let (st', a) = check L item l o st in
        ((is_from key o && is_run a) ≡ true → (count st < amount) × (count st' ≡ suc (count st)))
        × (count st ≤ count st')
  unfolding count
  judged-count none st = ground arith
  judged-count (some other) st = ground arith
  judged-count (some (request k)) st = elim (Bool-cases (is_empty k)) [
    | inl e ↦ rw e (ground (arith, nameless key k named e))
    | inr e ↦ rw e (hit-Counted k st _ _ refl refl)
  ]

  -- While a window lasts, in which a hit passes only if fewer than `amount` of its key were counted
  -- and no count is taken back: however the calls of a limited route come, and whatever the other
  -- clients do, the handler runs for at most as many calls of one client, whose address is known,
  -- as are left of `amount`.
  pub ran_for-serve :
      (calls : List Call) (st : L.Store)
      → ran_for key l calls (serve L item l true calls st) ≤ amount - w.used st key l.scope
  unfolding serve count
  ran_for-serve [] st = omega arith
  ran_for-serve (c ∷ calls) st =
      let (fits, grown) = judged-count (request_of l c) st in
      ground (arith, fits, grown, ran_for-serve calls (check L item l (request_of l c) st).0)
