-- ===== src/Sync/Outcomes.antt =====
-- The outcomes of single paths in `apply_merge` of .github/scripts/template_sync.py.
use template_fastapi.Base.{
  Bool, true, false, ◌&&◌, Option, none, some, is_some, [], ◌∷◌, ◌==◌, nat_eq, string_eq, list_eq,
  list_beq_iff, any, if◌then◌else◌, if-holds, Result, ok, err, ◌≡◌, refl, arith, Bool-cases, inl,
  inr, ◌⊎◌, not, ◌<◌,
}
use template_fastapi.Base.Int.{ℤ, pos, negsuc, is_positive}
use template_fastapi.Sync.{Node, link, file, File}
use template_fastapi.Sync.Merge.{
  Git, Bytes, is_binary, merge_file, Outcome, merge_path, merge_existing, take_outright, content_of,
  report, is_failure, Cause, git_status, os_error,
}
use template_fastapi.Sync.Merged.{
  landed, is_taken, is_conflict, is_binary_conflict, is_failed, Raises,
}
use template_fastapi.Sync.Current.{IsReadable}

-- The instance has the old version of the file, or neither has the file.
abbrev pub IsUntouched : Option File → Option Node → Type 0
IsUntouched (some f) (some (file g)) = g.content ≡ f.content
IsUntouched none none = Unit {0}
IsUntouched _ _ = ⊥

-- The path has the content of the new version, if the new version has the file.
abbrev pub HasContent : Option File → Option Node → Type 0
HasContent none n = Unit {0}
HasContent (some f) n = (g : File) × (n ≡ some (file g)) × (g.content ≡ f.content)

content-take_outright : (theirs mine : File) → (take_outright theirs mine).content ≡ theirs.content
unfolding take_outright
content-take_outright theirs mine = ground arith

-- A clean outcome that brings the new content.
abbrev pub IsClean : Option File → Option Node → Outcome → Type 0
IsClean new before o =
    (is_conflict o ≡ false) × (is_failed o ≡ false) × HasContent new (landed o before)

existing-IsClean :
    (git : Git) (f src g : File)
    → g.content ≡ f.content
    → g.mode.user_read ≡ true
    → IsClean (some src) (some (file g)) (merge_existing git (some f) src g)
unfolding merge_existing
existing-IsClean git f src g h r =
    if-holds (IsClean (some src) (some (file g))) (src.content == f.content) _ _
      (λ e. (refl, refl, (g, refl, ground (arith, list_beq_iff src.content f.content))))
      λ e.
        if-holds (IsClean (some src) (some (file g))) (not g.mode.user_read) _ _
          (λ b. absurd (ground (arith, b, r)))
          λ b.
            if-holds (IsClean (some src) (some (file g))) (g.content == src.content) _ _
              (λ e'. (refl, refl, (g, refl, ground (arith, list_beq_iff g.content src.content))))
              λ e'.
                if-holds (IsClean (some src) (some (file g)))
                  (is_some (some f) && g.content == f.content) _ _
                  (λ u. (refl, refl, (take_outright src g, refl, content-take_outright src g)))
                  (λ u. absurd (ground (arith, list_beq_iff g.content f.content)))

pub untouched-IsClean :
    (git : Git) (old new : Option File) (before : Option Node)
    → IsUntouched old before
    → IsReadable before
    → IsClean new before (merge_path git old new before)
unfolding merge_path
untouched-IsClean git old none before h r = (refl, refl, tt)
untouched-IsClean git (some f) (some src) (some (file g)) h r = existing-IsClean git f src g h r
untouched-IsClean git (some f) (some src) none h r = absurd h
untouched-IsClean git (some f) (some src) (some link) h r = absurd h
untouched-IsClean git none (some src) none h r = (refl, refl, (src, refl, refl))
untouched-IsClean git none (some src) (some n) h r = absurd h

-- A binary conflict leaves the node alone.
abbrev pub Spares : Option Node → Outcome → Type 0
Spares before o = is_binary_conflict o ≡ true → landed o before ≡ before

report-Spares :
    (b : Bool) (mine : File) (m : Result (ℤ × Bytes) (Bool × Bytes))
    → Spares (some (file mine)) (report b mine (if b then ok (true, mine.content) else m))
unfolding report
report-Spares true mine m h = refl
report-Spares false mine (err (n, c)) h = absurd (ground arith)
report-Spares false mine (ok (true, c)) h = absurd (ground arith)
report-Spares false mine (ok (false, c)) h = elim (Bool-cases (c == mine.content)) [
  | inl e ↦ absurd (ground arith)
  | inr e ↦ absurd (ground arith)
]

existing-Spares :
    (git : Git) (old : Option File) (src g : File)
    → Spares (some (file g)) (merge_existing git old src g)
unfolding merge_existing merge_file
existing-Spares git old src g =
    let P : Outcome → Type 0 = Spares (some (file g)) in
    let base = content_of old in
    if-holds P (src.content == base) _ _ (λ e h. refl)
      λ e.
        if-holds P (not g.mode.user_read) _ _ (λ b h. refl)
          λ b.
            if-holds P (g.content == src.content) _ _ (λ e' h. refl)
              λ e'.
                if-holds P (is_some old && g.content == base) _ _ (λ u h. absurd (ground arith))
                  λ u. report-Spares (any is_binary (g.content ∷ base ∷ src.content ∷ [])) g _

pub path-Spares :
    (git : Git) (old new : Option File) (before : Option Node)
    → Spares before (merge_path git old new before)
unfolding merge_path
path-Spares git old none before h = refl
path-Spares git old (some src) none h = absurd (ground arith)
path-Spares git old (some src) (some link) h = refl
path-Spares git old (some src) (some (file g)) h = existing-Spares git old src g h

pub apart-conflict : (o : Outcome) → is_conflict o ≡ true → is_taken o ≡ false
apart-conflict o h = ground arith

pub binary-conflict : (o : Outcome) → is_binary_conflict o ≡ true → is_conflict o ≡ true
binary-conflict o h = ground arith

pub silent-outcome :
    (o : Outcome) (before : Option Node)
    → is_taken o ≡ false
    → is_conflict o ≡ false
    → landed o before ≡ before
silent-outcome o before t c = ground arith

-- A status that is no number of conflicts: negative, or above 127.
abbrev pub IsError : ℤ → Type 0
IsError (pos n) = 127 < n
IsError (negsuc n) = Unit

is_failure-IsError : (n : ℤ) → is_failure n ≡ true → IsError n
is_failure-IsError (pos n) h = ground (arith, h)
is_failure-IsError (negsuc n) h = tt

-- The cause of a failure at a file `g` of the instance: its owner cannot read it, or git's own
-- status is an error.
abbrev pub IsCause : Git → File → Bytes → File → Cause → Type 0
IsCause git src base g cause =
    ((cause ≡ os_error) × (g.mode.user_read ≡ false))
    ⊎ ((n : ℤ) × (cause ≡ git_status n) × (n ≡ (git g.content base src.content).0) × IsError n)

abbrev Blames : Git → File → Bytes → File → Outcome → Type 0
Blames git src base g o = (cause : Cause) → Raises o cause → IsCause git src base g cause

report-ok :
    (b p : Bool) (g : File) (c : Bytes) (cause : Cause) → Raises (report b g (ok (p, c))) cause → ⊥
unfolding report
report-ok b true g c cause h = h
report-ok b false g c cause h = elim (Bool-cases (c == g.content)) [
  | inl e ↦ rw e at h
  | inr e ↦ rw e at h
]

merge_file-Blames :
    (git : Git) (src g : File) (base : Bytes) (b : Bool)
    → Blames git src base g (report b g (merge_file git g.content base src.content))
unfolding merge_file report
merge_file-Blames git src g base b =
    let (status, content) = git g.content base src.content in
    let P : Result (ℤ × Bytes) (Bool × Bytes) → Type 0 =
      λ r. Blames git src base g (report b g r) in
    if-holds P (any is_binary (g.content ∷ base ∷ src.content ∷ [])) _ _
      (λ a cause h. absurd (report-ok b true g g.content cause h))
      λ a.
        if-holds P (is_failure status) _ _
          (λ w cause h. inr (status, h, refl, is_failure-IsError status w))
          (λ w cause h. absurd (report-ok b (is_positive status) g content cause h))

existing-Blames :
    (git : Git) (old : Option File) (src g : File)
    → Blames git src (content_of old) g (merge_existing git old src g)
unfolding merge_existing
existing-Blames git old src g =
    let base = content_of old in
    let P : Outcome → Type 0 = Blames git src base g in
    if-holds P (src.content == base) _ _ (λ e cause h. absurd h)
      λ e.
        if-holds P (not g.mode.user_read) _ _ (λ b cause h. inl (h, ground (arith, b)))
          λ b.
            if-holds P (g.content == src.content) _ _ (λ e' cause h. absurd h)
              λ e'.
                if-holds P (is_some old && g.content == base) _ _ (λ u cause h. absurd h)
                  λ u.
                    merge_file-Blames git src g base
                      (any is_binary (g.content ∷ base ∷ src.content ∷ []))

pub path-Raises :
    (git : Git) (old new : Option File) (before : Option Node) (cause : Cause)
    → Raises (merge_path git old new before) cause
    → (src : File) × (g : File) × (new ≡ some src)
      × (before ≡ some (file g))
      × IsCause git src (content_of old) g cause
unfolding merge_path
path-Raises git old none before cause h = absurd h
path-Raises git old (some src) none cause h = absurd h
path-Raises git old (some src) (some link) cause h = absurd h
path-Raises git old (some src) (some (file g)) cause h =
    (src, g, refl, refl, existing-Blames git old src g cause h)
