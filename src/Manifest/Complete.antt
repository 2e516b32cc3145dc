-- ===== src/Manifest/Complete.antt =====
-- When the check of .github/scripts/template_sync_manifest.py passes.
use mathlib.Core.List.{append-eq-nil_iff}
use template_fastapi.Base.{String, Option, none, some, List, [], ◌∷◌, ◌++◌, All, ◌≡◌, ◌↔◌, refl}
use template_fastapi.Manifest.{
  Tier, replace, merge, Tiers, patterns, classify, path_errors, check_paths, local_errors,
  load_tiers, check, parse_manifest,
}

-- The path is in one tier and in no other.
abbrev pub IsAlone : Tiers → String → Type 0
IsAlone ts path = (tier : Tier) × (classify path ts ≡ tier ∷ [])

alone_iff :
    (manifest path : String) (found : List Tier)
    → (path_errors manifest path found ≡ []) ↔ ((tier : Tier) × (found ≡ tier ∷ []))
alone_iff manifest path [] = (λ h. absurd (cc), λ (tier, e). absurd (cc))
alone_iff manifest path (tier ∷ []) = (λ h. (tier, refl), λ h. refl)
alone_iff manifest path (a ∷ (b ∷ rest)) = (λ h. absurd (cc), λ (tier, e). absurd (cc))

check_paths_iff :
    (manifest : String) (ts : Tiers) (paths : List String)
    → (check_paths manifest ts paths ≡ []) ↔ All (IsAlone ts) paths
unfolding check_paths
check_paths_iff manifest ts [] = (λ h. tt, λ h. refl)
check_paths_iff manifest ts (p ∷ ps) =
    let parts = append-eq-nil_iff {p = path_errors manifest p (classify p ts)} in
    let one = alone_iff manifest p (classify p ts) in
    let rest = check_paths_iff manifest ts ps in
    (λ h. (one.0 (parts.0 h).0, rest.0 (parts.0 h).1), λ h. parts.1 (one.1 h.0, rest.1 h.1))

-- The local file, if it is there, lists paths to ignore and no others.
abbrev pub IgnoresOnly : Option String → Type 0
IgnoresOnly none = Unit
IgnoresOnly (some text) =
    (patterns (parse_manifest text) replace ≡ []) × (patterns (parse_manifest text) merge ≡ [])

local_iff :
    (local_path : String) (rs is ms : List String)
    → (local_errors local_path
          (record { replace_patterns = rs; ignore_patterns = is; merge_patterns = ms })
        ≡ [])
      ↔ ((rs ≡ []) × (ms ≡ []))
local_iff local_path [] is [] = (λ h. (refl, refl), λ h. refl)
local_iff local_path [] is (m ∷ ms) = (λ h. absurd (cc), λ (h, k). absurd (cc))
local_iff local_path (r ∷ rs) is ms = (λ h. absurd (cc), λ (h, k). absurd (cc))

load_iff :
    (local_path text : String) (found : Option String)
    → ((load_tiers local_path text found).1 ≡ []) ↔ IgnoresOnly found
unfolding load_tiers
load_iff local_path text none = (λ h. tt, λ h. refl)
load_iff local_path text (some t) =
    let ts = parse_manifest t in
    local_iff local_path ts.replace_patterns ts.ignore_patterns ts.merge_patterns

-- The patterns of the manifest; those of `ignore` are followed by the local file's.
abbrev pub loaded : String → Option String → Tiers
loaded text none = parse_manifest text
loaded text (some local_text) = record {
  replace_patterns = (parse_manifest text).replace_patterns;
  ignore_patterns =
      (parse_manifest text).ignore_patterns ++ (parse_manifest local_text).ignore_patterns;
  merge_patterns = (parse_manifest text).merge_patterns;
}

load_tiers-loaded :
    (local_path text : String) (found : Option String)
    → (load_tiers local_path text found).0 ≡ loaded text found
unfolding load_tiers
load_tiers-loaded local_path text none = refl
load_tiers-loaded local_path text (some local_text) = refl

pub check-IsAlone_iff :
    (manifest local_path text : String) (found : Option String) (tracked : List String)
    → (check manifest local_path text found tracked ≡ [])
      ↔ (IgnoresOnly found × All (IsAlone (loaded text found)) tracked)
unfolding check
check-IsAlone_iff manifest local_path text found tracked =
    let (ts, errors) = load_tiers local_path text found in
    let parts = append-eq-nil_iff {p = errors} {q = check_paths manifest ts tracked} in
    let local = load_iff local_path text found in
    let paths = check_paths_iff manifest ts tracked in
    rw (← load_tiers-loaded local_path text found)
      (λ h. (local.0 (parts.0 h).0, paths.0 (parts.0 h).1), λ h. parts.1 (local.1 h.0, paths.1 h.1))
