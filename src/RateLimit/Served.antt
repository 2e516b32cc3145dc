-- ===== src/RateLimit/Served.antt =====
-- What the limiter of src/app/rate_limit.py lets through while its storage answers.
use Prim.Native.Nat.{min}
use template_fastapi.Base.{
  ℕ, suc, ◌-◌, String, Bool, true, false, ◌&&◌, Option, none, some, List, [], ◌∷◌, ◌==◌, string_eq,
  if◌then◌else◌, is_empty, Result, ok, err, ◌≡◌, refl, ap, ◌∙◌, arith, eq_iff, ok-injective,
  Bool-cases, inl, inr, ltb,
}
use template_fastapi.RateLimit.{
  Strategy, Limited, Call, Arg, request, other, Answer, request_of, serve, judged, check,
}
use template_fastapi.RateLimit.Window.{is_from, is_run, ran_for, nameless}

-- A fixed window while it lasts, in a storage that answers: every hit is counted for its key alone,
-- and passes if fewer than `amount` were counted before.
pub record IsFixedWindow (L : Strategy) (item : L.Item) (amount : ℕ) : Type 0 where
  pub used : L.Store → String → String → ℕ
  pub passes :
      (key scope : String) (st : L.Store)
      → (L.hit item key scope st).1 ≡ ok (ltb (used st key scope) amount)
  pub counts :
      (key scope : String) (st : L.Store) (k s : String)
      → used (L.hit item key scope st).0 k s
        ≡ (if key == k && scope == s then suc (used st k s) else used st k s)

-- How many of the calls are the client's.
abbrev pub calls_from : String → Limited → List Call → ℕ
calls_from key l [] = 0
calls_from key l (c ∷ cs) =
    let rest = calls_from key l cs in if is_from key (request_of l c) then suc rest else rest

module _ {L : Strategy} {item : L.Item} (l : Limited) {amount : ℕ} (w : IsFixedWindow L item amount)
    (key : String) (named : is_empty key ≡ false) where
  judged-ok :
      (r : L.Store × Result L.Broken Bool) {b : Bool}
      → r.1 ≡ ok b
      → ((judged L item l r).0 ≡ r.0) × (is_run (judged L item l r).1 ≡ b)
  judged-ok (st, ok true) h = (refl, ok-injective h)
  judged-ok (st, ok false) h = (refl, ok-injective h)
  judged-ok (st, err e) h = absurd (cc)

  count : L.Store → ℕ
  count st = w.used st key l.scope

  -- A call of the client runs exactly if the window is not full, and is counted; others are not.
  Judged : Option Arg → L.Store → L.Store × Answer L.Broken → Type 0
  Judged o st (st', a) =
      (is_from key o ≡ true → (is_run a ≡ ltb (count st) amount) × (count st' ≡ suc (count st)))
      × (is_from key o ≡ false → count st' ≡ count st)

  hit-Judged :
      (k : String) (st : L.Store)
      → Judged (some (request k)) st (judged L item l (L.hit item k l.scope st))
  unfolding count Judged
  hit-Judged k st =
      let (stored, ran) = judged-ok (L.hit item k l.scope st) (w.passes k l.scope st) in
      let counted = w.counts k l.scope st key l.scope in
      let kept = ap (λ x. w.used x key l.scope) stored ∙ counted in
      let here = (eq_iff l.scope l.scope).1 refl in
      (
        λ e. (
          ran ∙ ap (λ x. ltb (w.used st x l.scope) amount) ((eq_iff k key).0 e),
          kept ∙ rw (e, here) refl,
        ),
        λ e. kept ∙ rw e refl,
      )

  check-Judged : (o : Option Arg) (st : L.Store) → Judged o st (check L item l o st)
  unfolding count Judged
  check-Judged none st = ground arith
  check-Judged (some other) st = ground arith
  check-Judged (some (request k)) st = elim (Bool-cases (is_empty k)) [
    | inl e ↦ rw e (ground (arith, nameless key k named e))
    | inr e ↦ rw e (hit-Judged k st)
  ]

  -- While a window lasts, in which every hit is counted for its key alone and passes if fewer than
  -- `amount` were counted before, and the storage answers: the handler runs for all calls of one
  -- client, whose address is known, until `amount` is reached, however the calls come. The calls of
  -- other clients take nothing from it.
  pub ran_for-serve_exact :
      (calls : List Call) (st : L.Store)
      → ran_for key l calls (serve L item l true calls st)
        ≡ min (calls_from key l calls) (amount - w.used st key l.scope)
  unfolding serve count Judged
  ran_for-serve_exact [] st = omega arith
  ran_for-serve_exact (c ∷ calls) st =
      let (mine, others) = check-Judged (request_of l c) st in
      ground (arith, mine, others, ran_for-serve_exact calls (check L item l (request_of l c) st).0)
