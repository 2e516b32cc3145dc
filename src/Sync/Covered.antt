-- ===== src/Sync/Covered.antt =====
-- What the check of .github/scripts/template_sync_manifest.py promises of a run of `cmd_apply` of
-- .github/scripts/template_sync.py: no file of the new version falls between the tiers.
use template_fastapi.Base.{
  String, Bool, true, false, ◌==◌, none, is_some, List, [], ◌∷◌, All, ok, list_beq, list_eq, ◌≡◌,
  arith,
}
use template_fastapi.Manifest.{
  Tier, replace, ignore, merge, Tiers, patterns, tier_eq, classify, parse_manifest, check,
  load_tiers,
}
use template_fastapi.Manifest.Complete.{IsAlone, check-IsAlone_iff}
use template_fastapi.Sync.{Checkout, Tree}
use template_fastapi.Sync.Merge.{Git}
use template_fastapi.Sync.Current.{IsReadable, IsCurrent}
use template_fastapi.Sync.Outcomes.{IsUntouched, HasContent}
use template_fastapi.Sync.Tiers.{Root, in_git}
use template_fastapi.Sync.Selected.{IsRoot, IsSpelled}
use template_fastapi.Sync.Command.{Applied, cmd_apply, read_tiers}
use template_fastapi.Sync.Synced.{IsSynced, belongs, cmd_apply-IsSynced}

-- What a path's tier asks of it.
abbrev pub IsKept : Checkout → Checkout → Tree → Tree → String → Tier → Type 0
IsKept old new t t' q replace = IsCurrent (old q) (new q) (t q) (t' q)
IsKept old new t t' q merge = HasContent (new q) (t' q)
IsKept old new t t' q ignore = t' q ≡ t q

-- A path of one tier, and as this tier asks.
abbrev pub IsCovered : Checkout → Checkout → Tiers → Tree → Tree → String → Type 0
IsCovered old new ts t t' q =
    (tier : Tier) × (classify q ts ≡ tier ∷ []) × IsKept old new t t' q tier

belongs-tier :
    (old new : Checkout) (ts : Tiers) (tier other : Tier) (q : String)
    → is_some (new q) ≡ true
    → classify q ts ≡ other ∷ []
    → belongs old new ts tier q ≡ (other ∷ []) == (tier ∷ [])
belongs-tier old new ts tier other q there alone = rw alone (ground arith)

synced-IsKept :
    (old new : Checkout) (ts : Tiers) (t : Tree) (a : Applied) (q : String) (tier : Tier)
    → is_some (new q) ≡ true
    → classify q ts ≡ tier ∷ []
    → IsSynced old new t a (belongs old new ts replace q) (belongs old new ts merge q) q
    → IsKept old new t a.tree q tier
unfolding list_beq
synced-IsKept old new ts t a q replace there alone (e, r, m, o) =
    r (belongs-tier old new ts replace replace q there alone)
synced-IsKept old new ts t a q merge there alone (e, r, m, o) =
    m (belongs-tier old new ts merge merge q there alone)
synced-IsKept old new ts t a q ignore there alone (e, r, m, o) =
    o (belongs-tier old new ts replace ignore q there alone)
      (belongs-tier old new ts merge ignore q there alone)

each-IsCovered :
    (old new : Checkout) (ts : Tiers) (t : Tree) (a : Applied) (tracked : List String)
    → ((q : String)
        → in_git q ≡ false
        → IsSynced old new t a (belongs old new ts replace q) (belongs old new ts merge q) q)
    → All (IsAlone ts) tracked
    → All (λ q. (is_some (new q) ≡ true) × (in_git q ≡ false)) tracked
    → All (IsCovered old new ts t a.tree) tracked
each-IsCovered old new ts t a [] synced alone there = tt
each-IsCovered old new ts t a (q ∷ qs) synced ((tier, e), alone) ((here, away), there) = (
  (tier, e, synced-IsKept old new ts t a q tier here e (synced q away)),
  each-IsCovered old new ts t a qs synced alone there,
)

module _ {old_root new_root : Root} (old new : Checkout) {canonical : String → Bool}
    (is_old : IsRoot old_root (λ q. is_some (old q)) canonical)
    (is_new : IsRoot new_root (λ q. is_some (new q)) canonical) where
  -- After a run of `apply`, each of the paths `tracked` is in exactly one tier and as that tier
  -- asks, if they are files of the new version outside `.git` on which the check of the manifest
  -- passes without a local file, the patterns of the manifest without a wildcard name their path
  -- as the file system lists it, the owner can read every file of the instance, and the instance
  -- has the old version of every file that the manifest puts into the merge tier, or neither has
  -- the file.
  pub cmd_apply-check :
      (git : Git) (text manifest local_path : String) (tracked : List String) (t : Tree)
      → check manifest local_path text none tracked ≡ []
      → All (λ q. (is_some (new q) ≡ true) × (in_git q ≡ false)) tracked
      → All (IsSpelled canonical) (patterns (parse_manifest text) replace)
      → All (IsSpelled canonical) (patterns (parse_manifest text) merge)
      → ((q : String) → IsReadable (t q))
      → ((q : String)
          → belongs old new (parse_manifest text) merge q ≡ true
          → IsUntouched (old q) (t q))
      → All
          (IsCovered old new
            (parse_manifest text)
            t
            (cmd_apply git old new (read_tiers old_root new_root (ok text)) t).tree)
          tracked
  unfolding load_tiers
  cmd_apply-check git text manifest local_path tracked t passed there cr cm readable same =
      each-IsCovered old new (parse_manifest text) t
        (cmd_apply git old new (read_tiers old_root new_root (ok text)) t) tracked
        (cmd_apply-IsSynced old new is_old is_new git text t cr cm readable same)
        ((check-IsAlone_iff manifest local_path text none tracked).0 passed).1 there
