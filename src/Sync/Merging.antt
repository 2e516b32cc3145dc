-- ===== src/Sync/Merging.antt =====
-- What a run of `apply_merge` of .github/scripts/template_sync.py does for the instance.
use template_fastapi.Base.{
  ℕ, ◌<◌, ◌⊎◌, String, Bool, true, false, ◌&&◌, Option, some, List, [], nat_eq, string_eq, list_eq,
  contains, if◌then◌else◌, ok, err, ◌≡◌, refl, sym, ◌∙◌, arith, Bool-cases, inl, inr, Result-cases,
}
use template_fastapi.Sync.{Checkout, Tree, Node, file, File}
use template_fastapi.Sync.Replaced.{Distinct}
use template_fastapi.Sync.Merge.{
  Git, Outcome, merge_path, content_of, Bytes, Cause, git_status, os_error, Merged, MergeFailed,
  merge_all, apply_merge,
}
use template_fastapi.Sync.Merged.{
  landed, is_taken, is_conflict, is_binary_conflict, is_failed, Raises, Reports, merge_all-Reports,
  merge_all-err,
}
use template_fastapi.Base.Int.{ℤ, pos, negsuc}
use template_fastapi.Sync.Current.{IsReadable}
use template_fastapi.Sync.Outcomes.{
  IsUntouched, HasContent, IsClean, Spares, untouched-IsClean, path-Spares, apart-conflict,
  binary-conflict, silent-outcome, path-Raises, IsCause,
}

abbrev start : Tree → Merged
start t = record { tree = t; merged = []; conflicts = []; binary = [] }

reports :
    (git : Git) (old new : Checkout) (ps : List String) (t : Tree) (st : Merged)
    → Distinct ps
    → apply_merge git old new ps t ≡ ok st
    → (q : String) → Reports (start t) st (contains ps q) (merge_path git (old q) (new q) (t q)) q
unfolding apply_merge
reports git old new ps t st d h q = merge_all-Reports git old new ps (start t) st d h q

pub apply_merge-unlisted :
    (git : Git) (old new : Checkout) (ps : List String) (t : Tree) (st : Merged)
    → Distinct ps
    → apply_merge git old new ps t ≡ ok st
    → (q : String) → contains ps q ≡ false
    → st.tree q ≡ t q
apply_merge-unlisted git old new ps t st d h q l =
    rw ((reports git old new ps t st d h q).0, l) refl

-- A path's reports of a run, as Booleans.
accurate :
    (listed : Bool) (o : Outcome) (before after : Option Node) (m c b : Bool)
    → Spares before o
    → after ≡ (if listed then landed o before else before)
    → m ≡ (listed && is_taken o)
    → c ≡ (listed && is_conflict o)
    → b ≡ (listed && is_binary_conflict o)
    → (m ≡ false → c ≡ false → after ≡ before)
      × (m ≡ true → c ≡ false)
      × (b ≡ true → (c ≡ true) × (after ≡ before))
accurate false o before after m c b s ea em ec eb = (λ x y. ea, λ x. ec, λ x. absurd (ground arith))
accurate true o before after m c b s ea em ec eb = (
  λ x y. ea ∙ silent-outcome o before (sym em ∙ x) (sym ec ∙ y),
  λ x. ground (arith, apart-conflict o),
  λ x. (ec ∙ binary-conflict o (sym eb ∙ x), ea ∙ s (sym eb ∙ x)),
)

-- If the paths of the tier are listed once each, then the summary of a run that returns is
-- accurate at every path: a path that is not reported is as it was, no path is both merged and in
-- conflict, and a binary conflict is a conflict whose file is as it was.
pub apply_merge-IsReported :
    (git : Git) (old new : Checkout) (ps : List String) (t : Tree) (st : Merged)
    → Distinct ps
    → apply_merge git old new ps t ≡ ok st
    → (q : String)
    → (contains st.merged q ≡ false → contains st.conflicts q ≡ false → st.tree q ≡ t q)
      × (contains st.merged q ≡ true → contains st.conflicts q ≡ false)
      × (contains st.binary q ≡ true → (contains st.conflicts q ≡ true) × (st.tree q ≡ t q))
apply_merge-IsReported git old new ps t st d h q =
    let o = merge_path git (old q) (new q) (t q) in
    let (n, m, c, b) = reports git old new ps t st d h q in
    accurate (contains ps q) o (t q) (st.tree q) _ _ _ (path-Spares git (old q) (new q) (t q)) n m c
      b

spelled_out :
    (git : Git) (src : File) (base : Bytes) (g : File) (cause : Cause)
    → IsCause git src base g cause
    → ((cause ≡ os_error) × (g.mode.user_read ≡ false))
      ⊎ ((n : ℤ) × (cause ≡ git_status n)
          × (n ≡ (git g.content base src.content).0)
          × (((k : ℕ) × (n ≡ negsuc k)) ⊎ ((k : ℕ) × (n ≡ pos k) × (127 < k))))
spelled_out git src base g cause (inl h) = inl h
spelled_out git src base g cause (inr (pos k, e, f, bad)) = inr (pos k, e, f, inr (k, refl, bad))
spelled_out git src base g cause (inr (negsuc k, e, f, bad)) = inr (negsuc k, e, f, inl (k, refl))

fails : (o : Outcome) (cause : Cause) → is_failed o ≡ false → Raises o cause → ⊥
fails o cause fine h = ground (arith, fine, h)

-- A run returns if no listed path fails.
returns :
    (git : Git) (old new : Checkout) (ps : List String) (t : Tree)
    → Distinct ps
    → ((q : String)
        → contains ps q ≡ true
        → is_failed (merge_path git (old q) (new q) (t q)) ≡ false)
    → (st : Merged) × (apply_merge git old new ps t ≡ ok st)
unfolding apply_merge
returns git old new ps t d fine = elim (Result-cases (merge_all git old new ps (start t))) [
  | inl r ↦ r
  | inr (e, h) ↦
      let (listed, o) = merge_all-err git old new ps (start t) e d h in
      absurd (fails _ e.cause (fine e.path listed) o)
]

-- If the paths are listed once each, then a run raises only for a listed file that the new version
-- has and the instance has as a regular file, and only because the instance's owner cannot read it,
-- or with git's status on the contents of the instance, the old and the new version, which is
-- negative or above 127.
pub apply_merge-err :
    (git : Git) (old new : Checkout) (ps : List String) (t : Tree) (e : MergeFailed)
    → Distinct ps
    → apply_merge git old new ps t ≡ err e
    → (contains ps e.path ≡ true)
      × ((src : File) × (g : File) × (new e.path ≡ some src)
          × (t e.path ≡ some (file g))
          × (((e.cause ≡ os_error) × (g.mode.user_read ≡ false))
              ⊎ ((n : ℤ) × (e.cause ≡ git_status n)
                  × (n ≡ (git g.content (content_of (old e.path)) src.content).0)
                  × (((k : ℕ) × (n ≡ negsuc k)) ⊎ ((k : ℕ) × (n ≡ pos k) × (127 < k))))))
unfolding apply_merge
apply_merge-err git old new ps t e d h =
    let (listed, o) = merge_all-err git old new ps (start t) e d h in
    let (src, g, there, before, cause) =
      path-Raises git (old e.path) (new e.path) (t e.path) e.cause o in
    (listed, (src, g, there, before, spelled_out git src (content_of (old e.path)) g e.cause cause))

-- If the paths are listed once each and the instance has the old version of every listed file,
-- which its owner can read, or neither has the file, then a run returns whatever git does, has no conflict, and every listed
-- file of the new version has its content.
pub apply_merge-untouched :
    (git : Git) (old new : Checkout) (ps : List String) (t : Tree)
    → Distinct ps
    → ((q : String) → contains ps q ≡ true → IsUntouched (old q) (t q))
    → ((q : String) → contains ps q ≡ true → IsReadable (t q))
    → (st : Merged) × (apply_merge git old new ps t ≡ ok st)
      × ((q : String) → contains st.conflicts q ≡ false)
      × ((q : String) → contains ps q ≡ true → HasContent (new q) (st.tree q))
apply_merge-untouched git old new ps t d same readable =
    let clean : (q : String)
        → contains ps q ≡ true
        → IsClean (new q) (t q) (merge_path git (old q) (new q) (t q)) =
      λ q l. untouched-IsClean git (old q) (new q) (t q) (same q l) (readable q l) in
    let (st, h) = returns git old new ps t d (λ q l. (clean q l).1) in
    (
      st,
      h,
      λ q. elim (Bool-cases (contains ps q)) [
        | inl l ↦ let (n, m, c, b) = reports git old new ps t st d h q in rw (c, l) (clean q l).0
        | inr l ↦ let (n, m, c, b) = reports git old new ps t st d h q in rw (c, l) refl
      ],
      λ q l. rw ((reports git old new ps t st d h q).0, l) (clean q l).2,
    )
