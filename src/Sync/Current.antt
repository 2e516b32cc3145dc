-- ===== src/Sync/Current.antt =====
-- A run of `apply_replace` of .github/scripts/template_sync.py makes the instance current, and
-- a second run has nothing to do.
use template_fastapi.Base.{
  String, Bool, true, false, not, ◌&&◌, Option, none, some, is_some, is_none, List, [], ◌∷◌, ◌==◌,
  string_eq, nat_eq, list_eq, list_beq_iff, keep, contains, ◌≡◌, refl, sym, ◌∙◌, arith, eq_iff,
  if-holds, Option-cases, inl, inr,
}
use mathlib.Core.Path.{subst}
use template_fastapi.Sync.{
  Checkout, Tree, Node, link, file, File, FileMode, is_executable, sync_executable_bit, bool_eq,
}
use template_fastapi.Sync.Replace.{
  Replaced, refreshed, is_refreshed, update_one, update_all, without, is_removed, remove_one,
  remove_all, apply_replace,
}
use template_fastapi.Sync.Replaced.{Distinct, settled, tree-apply_replace, contains-keep}

-- The owner can read every regular file.
abbrev pub IsReadable : Option Node → Type 0
IsReadable (some (file f)) = f.mode.user_read ≡ true
IsReadable _ = Unit

-- What git records of the file is what it records of the template's.
abbrev pub Matches : File → Option Node → Type 0
Matches src n =
    (f : File) × (n ≡ some (file f))
    × (f.content ≡ src.content)
    × (f.mode.user_exec ≡ src.mode.user_exec)

-- The path is as the new version wants it: a link is kept, a file of the new version matches it,
-- a file that only the old version had is gone, and another is as it was.
abbrev pub IsCurrent : Option File → Option File → Option Node → Option Node → Type 0
IsCurrent old new (some link) after = after ≡ some link
IsCurrent old (some src) before after = Matches src after
IsCurrent (some f) none before after = after ≡ none
IsCurrent none none before after = after ≡ before

user_exec-sync_executable_bit :
    (src m : FileMode) → m.user_read ≡ true → (sync_executable_bit src m).user_exec ≡ src.user_exec
unfolding sync_executable_bit
user_exec-sync_executable_bit src m r = ground (arith)

same-content :
    (src dst : File) → not (dst.content == src.content) ≡ false → dst.content ≡ src.content
same-content src dst h = ground (arith, list_beq_iff dst.content src.content)

refreshed-Matches :
    (src dst : File) → dst.mode.user_read ≡ true → Matches src (refreshed src (some (file dst)))
unfolding refreshed
refreshed-Matches src dst r =
    let mode = sync_executable_bit src.mode dst.mode in
    if-holds (Matches src) (not (dst.content == src.content)) _ _ (λ e. (src, refl, refl, refl))
      (λ e.
        if-holds (Matches src) (bool_eq (is_executable src.mode) (is_executable dst.mode)) _ _
          (λ x. (dst, refl, same-content src dst e, ground arith))
          (λ x. (
            record dst { mode = mode },
            refl,
            same-content src dst e,
            user_exec-sync_executable_bit src.mode dst.mode r,
          )))

settled-IsCurrent :
    (old new : Option File) (before : Option Node)
    → IsReadable before
    → IsCurrent old new before (settled old new before)
settled-IsCurrent (some f) (some src) (some link) r = unfold refreshed in refl
settled-IsCurrent none (some src) (some link) r = unfold refreshed in refl
settled-IsCurrent (some f) none (some link) r = refl
settled-IsCurrent none none (some link) r = refl
settled-IsCurrent old (some src) (some (file dst)) r = refreshed-Matches src dst r
settled-IsCurrent old (some src) none r = unfold refreshed in (src, refl, refl, refl)
settled-IsCurrent (some f) none (some (file g)) r = refl
settled-IsCurrent (some f) none none r = refl
settled-IsCurrent none none (some (file g)) r = refl
settled-IsCurrent none none none r = refl

-- What a run leaves alone: it changes neither the node nor its report.
abbrev IsSettled : Option File → Option File → Option Node → Type 0
IsSettled old (some src) n = (refreshed src n ≡ n) × (is_refreshed src n ≡ false)
IsSettled (some f) none n = (without n ≡ n) × (is_removed n ≡ false)
IsSettled none none n = Unit

file-IsSettled :
    (src f : File)
    → f.content ≡ src.content
    → f.mode.user_exec ≡ src.mode.user_exec
    → (refreshed src (some (file f)) ≡ some (file f)) × (is_refreshed src (some (file f)) ≡ false)
unfolding refreshed is_refreshed
file-IsSettled src f c x = (
  ground (arith, list_beq_iff f.content src.content),
  ground (arith, list_beq_iff f.content src.content),
)

Matches-IsSettled :
    (src : File) (n : Option Node)
    → Matches src n
    → (refreshed src n ≡ n) × (is_refreshed src n ≡ false)
Matches-IsSettled src n (f, e, c, x) = rw e (file-IsSettled src f c x)

current-IsSettled :
    (old new : Option File) (before after : Option Node)
    → IsCurrent old new before after
    → IsSettled old new after
unfolding refreshed is_refreshed
current-IsSettled (some f) (some src) (some link) n h = rw h (refl, refl)
current-IsSettled none (some src) (some link) n h = rw h (refl, refl)
current-IsSettled (some f) none (some link) n h = rw h (refl, refl)
current-IsSettled none none (some link) n h = tt
current-IsSettled old (some src) (some (file dst)) n h = Matches-IsSettled src n h
current-IsSettled old (some src) none n h = Matches-IsSettled src n h
current-IsSettled (some f) none (some (file g)) n h = rw h (refl, refl)
current-IsSettled (some f) none none n h = rw h (refl, refl)
current-IsSettled none none (some (file g)) n h = tt
current-IsSettled none none none n h = tt

-- The same tree and the same report.
abbrev pub IsSame : Replaced → Replaced → Type 0
IsSame a b =
    (a.updated ≡ b.updated) × (a.removed ≡ b.removed) × ((q : String) → a.tree q ≡ b.tree q)

update_all-IsSame :
    (new : Checkout) (ps : List String) (st : Replaced) (t : Tree)
    → ((q : String) → st.tree q ≡ t q)
    → ((q : String) (src : File)
        → contains ps q ≡ true
        → new q ≡ some src
        → (refreshed src (t q) ≡ t q) × (is_refreshed src (t q) ≡ false))
    → IsSame (update_all new ps st) st
unfolding update_all
update_all-IsSame new [] st t same done = (refl, refl, λ q. refl)
update_all-IsSame new (p ∷ ps) st t same done = elim (Option-cases (new p)) [
  | inl e ↦
      subst (λ o. IsSame (update_all new ps (update_one o p st)) st) (sym e)
        (update_all-IsSame new ps st t same (λ q src c. done q src (ground arith)))
  | inr (src, e) ↦
      let (stays, silent) = done p src (ground (arith, eq_iff p p)) e in
      let after = update_one (some src) p st in
      let here : (q : String) → after.tree q ≡ st.tree q =
        λ q. ground (arith, eq_iff p q, same p, stays) in
      let (u, r, later) =
        update_all-IsSame new ps after t (λ q. here q ∙ same q)
          (λ q src c. done q src (ground arith)) in
      subst (λ o. IsSame (update_all new ps (update_one o p st)) st) (sym e)
        (u ∙ ground (arith, same p, silent), r, λ q. later q ∙ here q)
]

remove_all-IsSame :
    (ps : List String) (st : Replaced) (t : Tree)
    → ((q : String) → st.tree q ≡ t q)
    → ((q : String) → contains ps q ≡ true → (without (t q) ≡ t q) × (is_removed (t q) ≡ false))
    → IsSame (remove_all ps st) st
unfolding remove_all
remove_all-IsSame [] st t same done = (refl, refl, λ q. refl)
remove_all-IsSame (p ∷ ps) st t same done =
    let (stays, silent) = done p (ground (arith, eq_iff p p)) in
    let after = remove_one p st in
    let here : (q : String) → after.tree q ≡ st.tree q =
      λ q. ground (arith, eq_iff p q, same p, stays) in
    let (u, r, later) =
      remove_all-IsSame ps after t (λ q. here q ∙ same q) (λ q c. done q (ground arith)) in
    (u, r ∙ ground (arith, same p, silent), λ q. later q ∙ here q)

abbrev pub runs : Checkout → Checkout → List String → Tree → Tree
runs old new ps t = (apply_replace old new ps t).tree

-- If the paths are listed once each and the owner can read every file of the instance, then a run
-- makes every listed path current and leaves every other path as it was: a link is kept, a file of
-- the new version has its content and its executable bit, a file that only the old version had is
-- gone, and another is as it was.
pub apply_replace-IsCurrent :
    (old new : Checkout) (ps : List String) (t : Tree)
    → Distinct ps
    → ((q : String) → IsReadable (t q))
    → (q : String)
    → (contains ps q ≡ true → IsCurrent (old q) (new q) (t q) (runs old new ps t q))
      × (contains ps q ≡ false → runs old new ps t q ≡ t q)
apply_replace-IsCurrent old new ps t d r q =
    let node = tree-apply_replace old new ps t q d in
    (λ c. rw (node, c) (settled-IsCurrent (old q) (new q) (t q) (r q)), λ c. rw (node, c) refl)

gone-IsSettled :
    (old new : Option File) (n : Option Node)
    → (is_some old && is_none new) ≡ true
    → IsSettled old new n
    → (without n ≡ n) × (is_removed n ≡ false)
gone-IsSettled (some f) none n h done = done
gone-IsSettled (some f) (some g) n h done = absurd (ground arith)
gone-IsSettled none new n h done = absurd (ground arith)

apply_replace-IsSame :
    (old new : Checkout) (ps : List String) (t : Tree)
    → ((q : String) → contains ps q ≡ true → IsSettled (old q) (new q) (t q))
    → IsSame (apply_replace old new ps t) (record { tree = t; updated = []; removed = [] })
unfolding apply_replace
apply_replace-IsSame old new ps t done =
    let is_new : String → Bool = λ p. is_some (new p) in
    let is_gone : String → Bool = λ p. is_some (old p) && is_none (new p) in
    let st : Replaced = record { tree = t; updated = []; removed = [] } in
    let (u, r, same) =
      update_all-IsSame new (keep is_new ps) st t (λ q. refl)
        λ q src c e.
          subst (λ o. IsSettled (old q) o (t q)) e
            (done q (ground (arith, contains-keep is_new ps q))) in
    let (u', r', same') =
      remove_all-IsSame (keep is_gone ps) (update_all new (keep is_new ps) st) t same λ q c.
        gone-IsSettled (old q) (new q) (t q) (ground (arith, contains-keep is_gone ps q))
          (done q (ground (arith, contains-keep is_gone ps q))) in
    (u' ∙ u, r' ∙ r, λ q. same' q ∙ same q)

-- If the paths are listed once each and the owner can read every file of the instance, then a
-- second run changes no file and reports none.
pub apply_replace-apply_replace :
    (old new : Checkout) (ps : List String) (t : Tree)
    → Distinct ps
    → ((q : String) → IsReadable (t q))
    → IsSame
        (apply_replace old new ps (runs old new ps t))
        (record { tree = runs old new ps t; updated = []; removed = [] })
apply_replace-apply_replace old new ps t d r =
    let t' = runs old new ps t in
    apply_replace-IsSame old new ps t' λ q c.
      current-IsSettled (old q) (new q) (t q) (t' q)
        ((apply_replace-IsCurrent old new ps t d r q).0 c)
