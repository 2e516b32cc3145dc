-- ===== src/Sync/Merged.antt =====
-- What the loop of `apply_merge` of .github/scripts/template_sync.py leaves and reports at each
-- path, in terms of the outcome of that path alone.
use template_fastapi.Base.{
  String, Bool, true, false, ◌||◌, ◌&&◌, Option, some, List, [], ◌∷◌, ◌++◌, ◌==◌, nat_eq, string_eq,
  list_eq, contains, if◌then◌else◌, ok, err, >>=-eq-ok, >>=-eq-err, ok-injective, err-injective, ap,
  ◌≡◌, refl, sym, ◌∙◌, arith, eq_iff, Bool-cases, inl, inr,
}
use mathlib.Core.Path.{subst}
use template_fastapi.Sync.{Checkout, Tree, Node, file}
use template_fastapi.Sync.Replaced.{Distinct}
use template_fastapi.Sync.Merge.{
  Git, Outcome, kept, taken, conflict, failed, unreadable, Cause, git_status, os_error, merge_path,
  Merged, MergeFailed, settle, merge_all,
}

abbrev pub landed : Outcome → Option Node → Option Node
landed kept before = before
landed (taken f) before = some (file f)
landed (conflict b f) before = some (file f)
landed (failed n f) before = before
landed unreadable before = before

abbrev pub is_taken : Outcome → Bool
is_taken (taken f) = true
is_taken _ = false

abbrev pub is_conflict : Outcome → Bool
is_conflict (conflict b f) = true
is_conflict _ = false

abbrev pub is_binary_conflict : Outcome → Bool
is_binary_conflict (conflict b f) = b
is_binary_conflict _ = false

abbrev pub is_failed : Outcome → Bool
is_failed (failed n f) = true
is_failed unreadable = true
is_failed _ = false

contains-append :
    (xs : List String) (p q : String) → contains (xs ++ (p ∷ [])) q ≡ (contains xs q || q == p)
contains-append [] p q = ground arith
contains-append (x ∷ xs) p q = ground (arith, contains-append xs p q)

-- The node and the three reports that a path gets from its outcome `o`, if it is listed.
abbrev pub Reports : Merged → Merged → Bool → Outcome → String → Type 0
Reports st st' listed o q =
    (st'.tree q ≡ (if listed then landed o (st.tree q) else st.tree q))
    × (contains st'.merged q ≡ (contains st.merged q || listed && is_taken o))
    × (contains st'.conflicts q ≡ (contains st.conflicts q || listed && is_conflict o))
    × (contains st'.binary q ≡ (contains st.binary q || listed && is_binary_conflict o))

settle-Reports :
    (p : String) (st st' : Merged) (o : Outcome)
    → settle p st o ≡ ok st'
    → (q : String) → Reports st st' (q == p) o q
unfolding settle
settle-Reports p st st' kept h q =
    subst (λ s. Reports st s (q == p) kept q) (ok-injective h) (ground arith)
settle-Reports p st st' (taken f) h q =
    subst (λ s. Reports st s (q == p) (taken f) q) (ok-injective h)
      (ground (arith, eq_iff q p, eq_iff p q, contains-append st.merged p q))
settle-Reports p st st' (conflict b f) h q =
    subst (λ s. Reports st s (q == p) (conflict b f) q) (ok-injective h)
      (ground (
        arith,
        eq_iff q p,
        eq_iff p q,
        contains-append st.conflicts p q,
        contains-append st.binary p q,
      ))
settle-Reports p st st' (failed n f) h q = absurd (ground arith)
settle-Reports p st st' unreadable h q = absurd (ground arith)

outcome-Reports :
    (p : String) (st st' : Merged) (f : String → Outcome)
    → settle p st (f p) ≡ ok st'
    → (q : String) → Reports st st' (q == p) (f q) q
outcome-Reports p st st' f h q = elim (Bool-cases (q == p)) [
  | inl e ↦
      subst (λ x. Reports st st' (q == p) (f x) q) (sym ((eq_iff q p).0 e))
        (settle-Reports p st st' (f p) h q)
  | inr e ↦
      let (n, m, c, b) = settle-Reports p st st' (f p) h q in
      (ground arith, ground arith, ground arith, ground arith)
]

Reports-trans :
    (st st1 st2 : Merged) (a b : Bool) (f : Option Node → Outcome) (q : String)
    → (a ≡ true → b ≡ false)
    → Reports st st1 a (f (st.tree q)) q
    → Reports st1 st2 b (f (st1.tree q)) q
    → Reports st st2 (a || b) (f (st.tree q)) q
Reports-trans st st1 st2 true true f q d r s = absurd (ground (arith, d refl))
Reports-trans st st1 st2 true false f q d (n, m, c, b) (n', m', c', b') =
    (n' ∙ n, ground arith, ground arith, ground arith)
Reports-trans st st1 st2 false b f q d (n, m, c, y) r =
    let (n', m', c', y') = subst (λ t. Reports st1 st2 b (f t) q) n r in
    (
      subst (λ t. st2.tree q ≡ (if b then landed (f (st.tree q)) t else t)) n n',
      ground arith,
      ground arith,
      ground arith,
    )

-- A path's reports after the paths `ps`, from its outcome on the tree before them.
pub merge_all-Reports :
    (git : Git) (old new : Checkout) (ps : List String) (st st' : Merged)
    → Distinct ps
    → merge_all git old new ps st ≡ ok st'
    → (q : String) → Reports st st' (contains ps q) (merge_path git (old q) (new q) (st.tree q)) q
unfolding merge_all
merge_all-Reports git old new [] st st' d h q =
    subst (λ s. Reports st s false (merge_path git (old q) (new q) (st.tree q)) q) (ok-injective h)
      (ground arith)
merge_all-Reports git old new (p ∷ ps) st st' d h q =
    let (st1, e, h') =
      >>=-eq-ok (settle p st (merge_path git (old p) (new p) (st.tree p)))
        (merge_all git old new ps) h in
    Reports-trans st st1 st' (q == p) (contains ps q) (merge_path git (old q) (new q)) q
      (λ e'. rw ((eq_iff q p).0 e') d.0)
      (outcome-Reports p st st1 (λ x. merge_path git (old x) (new x) (st.tree x)) e q)
      (merge_all-Reports git old new ps st1 st' d.1 h' q)

-- The cause that an outcome raises.
abbrev pub Raises : Outcome → Cause → Type 0
Raises (failed n f) cause = cause ≡ git_status n
Raises unreadable cause = cause ≡ os_error
Raises _ cause = ⊥

settle-err :
    (p : String) (st : Merged) (o : Outcome) (e : MergeFailed)
    → settle p st o ≡ err e
    → (e.path ≡ p) × Raises o e.cause
unfolding settle
settle-err p st kept e h = absurd (ground arith)
settle-err p st (taken f) e h = absurd (ground arith)
settle-err p st (conflict b f) e h = absurd (ground arith)
settle-err p st (failed n f) e h =
    let same = err-injective h in (sym (ap (λ x. x.path) same), sym (ap (λ x. x.cause) same))
settle-err p st unreadable e h =
    let same = err-injective h in (sym (ap (λ x. x.path) same), sym (ap (λ x. x.cause) same))

abbrev pub Failure : Git → Checkout → Checkout → Tree → MergeFailed → Type 0
Failure git old new t e = Raises (merge_path git (old e.path) (new e.path) (t e.path)) e.cause

apart :
    (ps : List String) (p q : String)
    → contains ps p ≡ false
    → contains ps q ≡ true
    → (q == p) ≡ false
apart ps p q away here = elim (Bool-cases (q == p)) [
  | inl e ↦ absurd (ground (arith, rw ((eq_iff q p).0 e) at here))
  | inr e ↦ e
]

-- The loop raises only at a listed path whose own outcome, on the tree before it, is a failure.
pub merge_all-err :
    (git : Git) (old new : Checkout) (ps : List String) (st : Merged) (e : MergeFailed)
    → Distinct ps
    → merge_all git old new ps st ≡ err e
    → (contains ps e.path ≡ true) × Failure git old new st.tree e
unfolding merge_all
merge_all-err git old new [] st e d h = absurd (ground arith)
merge_all-err git old new (p ∷ ps) st e d h =
    elim (>>=-eq-err (settle p st (merge_path git (old p) (new p) (st.tree p)))
      (merge_all git old new ps) h) [
        | inl here ↦
            let (same, o) = settle-err p st _ e here in
            (
              ground (arith, eq_iff e.path p),
              subst (λ x. Raises (merge_path git (old x) (new x) (st.tree x)) e.cause) (sym same) o,
            )
        | inr (st1, step, later) ↦
            let (listed, o) = merge_all-err git old new ps st1 e d.1 later in
            let (n, m, c, b) = settle-Reports p st st1 _ step e.path in
            let away : (e.path == p) ≡ false = apart ps p e.path d.0 listed in
            (
              ground arith,
              subst (λ x. Raises (merge_path git (old e.path) (new e.path) x) e.cause)
                  (rw away at n) o,
            )
      ]
