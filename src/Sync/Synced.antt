-- ===== src/Sync/Synced.antt =====
-- A whole run of `cmd_apply` of .github/scripts/template_sync.py, from the text of the manifest, on
-- an instance that has not touched the template's files.
use mathlib.Core.Path.{subst}
use template_fastapi.Base.{
  String, Bool, true, false, ◌||◌, is_some, List, [], ◌∷◌, ◌++◌, string_eq, contains, ok, ◌&&◌,
  ◌==◌, list_eq, list_beq_iff, list_beq, ◌≡◌, refl, sym, ◌∙◌, arith, Bool-cases, inl, inr, All,
}
use template_fastapi.Base.Int.{pos}
use template_fastapi.Manifest.{
  Tier, replace, merge, tier_eq, Tiers, patterns, classify, parse_manifest,
}
use template_fastapi.Sync.{Checkout, Tree}
use template_fastapi.Sync.Replace.{apply_replace}
use template_fastapi.Sync.Replaced.{Distinct, tree-apply_replace}
use template_fastapi.Sync.Current.{IsReadable, IsCurrent, apply_replace-IsCurrent}
use template_fastapi.Sync.Merge.{Git}
use template_fastapi.Sync.Outcomes.{IsUntouched, HasContent}
use template_fastapi.Sync.Merging.{apply_merge-untouched, apply_merge-unlisted}
use template_fastapi.Sync.Tiers.{Root, in_git, tier_paths, tier_of_both}
use template_fastapi.Sync.Selected.{IsRoot, IsSpelled, contains-append, contains-tier_paths}
use template_fastapi.Base.Sets.{contains-sorted_set}
use template_fastapi.Sync.Sorted.{sorted_set-Distinct}
use template_fastapi.Sync.Command.{Applied, finished, cmd_apply, read_tiers}
use template_fastapi.Sync.Checked.{none_listed}

-- A clean run whose tree has, at a path that is or is not in the tiers, what they ask for.
abbrev pub IsSynced : Checkout → Checkout → Tree → Applied → Bool → Bool → String → Type 0
IsSynced old new t a replaced merged q =
    (a.exit_code ≡ pos 0)
    × (replaced ≡ true → IsCurrent (old q) (new q) (t q) (a.tree q))
    × (merged ≡ true → HasContent (new q) (a.tree q))
    × (replaced ≡ false → merged ≡ false → a.tree q ≡ t q)

cmd_apply-listed :
    (git : Git) (old new : Checkout) (rs ms : List String) (t : Tree)
    → Distinct rs
    → Distinct ms
    → ((q : String) → contains ms q ≡ true → contains rs q ≡ false)
    → ((q : String) → IsReadable (t q))
    → ((q : String) → contains ms q ≡ true → IsUntouched (old q) (t q))
    → (q : String)
    → IsSynced old new t (cmd_apply git old new (ok (rs, ms)) t) (contains rs q) (contains ms q) q
unfolding cmd_apply
cmd_apply-listed git old new rs ms t dr dm away readable same q =
    let r = apply_replace old new rs t in
    let (current, others) = apply_replace-IsCurrent old new rs t dr readable q in
    let kept : (q : String) → contains ms q ≡ true → r.tree q ≡ t q =
      λ q l. rw ((tree-apply_replace old new rs t q dr), away q l) refl in
    let (st, e, calm, there) =
      apply_merge-untouched git old new ms r.tree dm
        (λ q l. subst (IsUntouched (old q)) (sym (kept q l)) (same q l))
        (λ q l. subst IsReadable (sym (kept q l)) (readable q)) in
    let unlisted = apply_merge-unlisted git old new ms r.tree st dm e q in
    let apart : contains rs q ≡ true → contains ms q ≡ false = λ l.
      elim (Bool-cases (contains ms q)) [ inl m ↦ absurd (ground (arith, away q m)) | inr m ↦ m ] in
    subst (λ res. IsSynced old new t (finished r res) (contains rs q) (contains ms q) q) (sym e)
      (
        rw (none_listed st.conflicts calm) refl,
        λ l. subst (IsCurrent (old q) (new q) (t q)) (sym (unlisted (apart l))) (current l),
        there q,
        λ l m. unlisted m ∙ others l,
      )

tier_of_both-Distinct :
    (old new : Root) (ts : Tiers) (tier : Tier) → Distinct (tier_of_both old new ts tier)
unfolding tier_of_both
tier_of_both-Distinct old new ts tier =
    sorted_set-Distinct (tier_paths old ts tier ++ tier_paths new ts tier)

in_either :
    (s o n in_old in_new only git : Bool)
    → s ≡ (o || n)
    → (o ≡ true → (in_old ≡ true) × (only ≡ true))
    → (git ≡ false → in_old ≡ true → only ≡ true → o ≡ true)
    → (n ≡ true → (in_new ≡ true) × (only ≡ true))
    → (git ≡ false → in_new ≡ true → only ≡ true → n ≡ true)
    → (s ≡ true → ((in_old || in_new) && only) ≡ true)
      × (git ≡ false → s ≡ ((in_old || in_new) && only))
in_either s o n in_old in_new only git e a b c d = (ground arith, ground arith)

-- Whether a file of either checkout is put into the tier alone.
abbrev pub belongs : Checkout → Checkout → Tiers → Tier → String → Bool
belongs old new ts tier q = (is_some (old q) || is_some (new q)) && classify q ts == (tier ∷ [])

belongs-apart :
    (old new : Checkout) (ts : Tiers) (q : String)
    → belongs old new ts merge q ≡ true
    → belongs old new ts replace q ≡ false
unfolding list_beq
belongs-apart old new ts q h =
    let e = (list_beq_iff (classify q ts) (merge ∷ [])).0 (ground arith) in rw e (ground arith)

module _ {old_root new_root : Root} (old new : Checkout) {canonical : String → Bool}
    (is_old : IsRoot old_root (λ q. is_some (old q)) canonical)
    (is_new : IsRoot new_root (λ q. is_some (new q)) canonical) where
  selected :
      (ts : Tiers) (tier : Tier) (q : String)
      → All (IsSpelled canonical) (patterns ts tier)
      → (contains (tier_of_both old_root new_root ts tier) q ≡ true
          → belongs old new ts tier q ≡ true)
        × (in_git q ≡ false
            → contains (tier_of_both old_root new_root ts tier) q ≡ belongs old new ts tier q)
  unfolding tier_of_both
  selected ts tier q c =
      let both =
        contains-sorted_set (tier_paths old_root ts tier ++ tier_paths new_root ts tier) q
        ∙ contains-append (tier_paths old_root ts tier) (tier_paths new_root ts tier) q in
      let (olds, old_all) = contains-tier_paths is_old ts tier q c in
      let (news, new_all) = contains-tier_paths is_new ts tier q c in
      let only = list_beq_iff (classify q ts) (tier ∷ []) in
      in_either _ (contains (tier_paths old_root ts tier) q)
        (contains (tier_paths new_root ts tier) q) (is_some (old q)) (is_some (new q))
        (classify q ts == (tier ∷ [])) (in_git q) both (λ h. ((olds h).0, only.1 (olds h).1))
        (λ i l e. old_all i l (only.0 e)) (λ h. ((news h).0, only.1 (news h).1))
        (λ i l e. new_all i l (only.0 e))

  -- A run of `apply`: if the patterns of the manifest without a wildcard name their path as the file
  -- system lists it, the owner can read every file of the instance, and the instance has the old
  -- version of every file that the manifest puts into the merge tier, or neither has the file, then
  -- the run ends with status 0, and each path outside `.git` is as its tier asks: one of the replace
  -- tier is current, a file of the merge tier that the new version has has its content, and one of
  -- no tier, of `ignore` or of several tiers is as it was.
  pub cmd_apply-IsSynced :
      (git : Git) (text : String) (t : Tree)
      → All (IsSpelled canonical) (patterns (parse_manifest text) replace)
      → All (IsSpelled canonical) (patterns (parse_manifest text) merge)
      → ((q : String) → IsReadable (t q))
      → ((q : String)
          → belongs old new (parse_manifest text) merge q ≡ true
          → IsUntouched (old q) (t q))
      → (q : String) → in_git q ≡ false
      → IsSynced old new t
          (cmd_apply git old new (read_tiers old_root new_root (ok text)) t)
          (belongs old new (parse_manifest text) replace q)
          (belongs old new (parse_manifest text) merge q)
          q
  unfolding read_tiers
  cmd_apply-IsSynced git text t cr cm readable same q i =
      let ts = parse_manifest text in
      let rs = tier_of_both old_root new_root ts replace in
      let ms = tier_of_both old_root new_root ts merge in
      let a = cmd_apply git old new (ok (rs, ms)) t in
      let away : (p : String) → contains ms p ≡ true → contains rs p ≡ false = λ p l.
        elim (Bool-cases (contains rs p)) [
          | inl e ↦ absurd (
              ground (
                arith,
                (selected ts replace p cr).0 e,
                belongs-apart old new ts p ((selected ts merge p cm).0 l),
              ))
          | inr e ↦ e
        ] in
      subst (λ b. IsSynced old new t a b (belongs old new ts merge q) q)
        ((selected ts replace q cr).1 i)
        (subst (λ b. IsSynced old new t a (contains rs q) b q) ((selected ts merge q cm).1 i)
          (cmd_apply-listed git old new rs ms t (tier_of_both-Distinct _ _ ts replace)
            (tier_of_both-Distinct _ _ ts merge) away readable
            (λ p l. same p ((selected ts merge p cm).0 l)) q))
