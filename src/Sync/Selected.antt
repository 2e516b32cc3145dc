-- ===== src/Sync/Selected.antt =====
-- Which files `tier_paths` of .github/scripts/template_sync.py selects.
use Prim.Native.String as Text
use Prim.Native.String.{◌++◌ as ◌+++◌}
use Prim.Native.Char.{Char, code}
use text.Mathlib.TextBridge.{IsPrefix}
use text.Mathlib.TextEquality.{starts_with_iff, Char-path}
use text.Mathlib.TextLemmas.{append_assoc, nil-append, cons-append}
use template_fastapi.Base.{
  String, Bool, true, false, not, List, [], ◌∷◌, ◌++◌, contains, ◌==◌, string_eq, list_eq, any, All,
  starts_with, ◌<>◌, ◌&&◌, ◌||◌, ◌≡◌, refl, sym, ap, ◌∙◌, arith, eq_iff, Bool-cases, if-holds, inl,
  inr, rstrip_char, is_empty, nat_eq, list_beq_iff, list_beq,
}
use template_fastapi.Manifest.{
  Tier, replace, ignore, merge, tier_eq, Tiers, patterns, is_glob, matches, classify,
}
use template_fastapi.Manifest.Lines.{ends}
use template_fastapi.Sync.Replaced.{contains-keep}
use template_fastapi.Sync.Tiers.{
  Root, relative_files_under, in_git, relative_files, relative_files_matching, bare, candidates_of,
  candidates, tier_paths,
}

-- What a file system says of a checkout whose regular files are those that are `listed`, at the
-- paths that it spells as the listing does.
pub record IsRoot (r : Root) (listed canonical : String → Bool) : Type 0 where
  pub walked : (q : String) → contains r.every q ≡ listed q
  pub known : (d : String) → canonical d ≡ true → r.is_file d ≡ listed d
  pub below :
      (d q : String)
      → canonical d ≡ true
      → r.is_dir d ≡ true
      → contains (r.rglob d) q ≡ (listed q && starts_with q (d <> "/"))
  pub above :
      (d q : String)
      → canonical d ≡ true
      → listed q ≡ true
      → starts_with q (d <> "/") ≡ true
      → (r.is_file d ≡ false) × (r.is_dir d ≡ true)

-- A pattern without a wildcard names its path as the listing does.
abbrev pub IsSpelled : (String → Bool) → String → Type 0
IsSpelled canonical p = is_glob p ≡ false → canonical (bare p) ≡ true

pub contains-append :
    (xs ys : List String) (q : String) → contains (xs ++ ys) q ≡ (contains xs q || contains ys q)
contains-append [] ys q = refl
contains-append (x ∷ xs) ys q = ground (arith, contains-append xs ys q)

slash_first : (c : Char) (s : String) → (code c == b'/') ≡ true → IsPrefix "/" (Text.◌∷◌ c s)
slash_first c s h = (
  s,
  ap (λ d. Text.◌∷◌ d Text.[] +++ s) (Char-path _ c (sym ((nat_eq.beq_iff (code c) b'/').0 h)))
      ∙ (cons-append c Text.[] s ∙ ap (Text.◌∷◌ c) (nil-append s)),
)

cons-IsPrefix :
    (c : Char) (s t : String)
    → IsPrefix (s <> "/") t
    → IsPrefix (Text.◌∷◌ c s <> "/") (Text.◌∷◌ c t)
cons-IsPrefix c s t (v, e) =
    (v, ap (λ x. x +++ v) (cons-append c s "/") ∙ (cons-append c (s <> "/") v ∙ ap (Text.◌∷◌ c) e))

-- The slash after a stripped pattern is the pattern's.
rstrip-IsPrefix : (p : String) → ends b'/' p ≡ true → IsPrefix (rstrip_char b'/' p <> "/") p
unfolding ends rstrip_char
rstrip-IsPrefix Text.[] h = absurd (ground arith)
rstrip-IsPrefix (Text.◌∷◌ c Text.[]) h = rw h (slash_first c Text.[] h)
rstrip-IsPrefix (Text.◌∷◌ c (Text.◌∷◌ d s)) h =
    let rest = rstrip_char b'/' (Text.◌∷◌ d s) in
    let before : IsPrefix (rest <> "/") (Text.◌∷◌ d s) = rstrip-IsPrefix (Text.◌∷◌ d s) h in
    if-holds (λ x. IsPrefix (x <> "/") (Text.◌∷◌ c (Text.◌∷◌ d s)))
      (is_empty rest && code c == b'/') _ _ (λ e. slash_first c _ (ground arith))
      (λ e. cons-IsPrefix c rest _ before)

IsPrefix-trans : (s t u : String) → IsPrefix s t → IsPrefix t u → IsPrefix s u
IsPrefix-trans s t u (v, e) (w, f) = (v +++ w, sym (append_assoc s v w) ∙ (ap (λ x. x +++ w) e ∙ f))

slashed :
    (q p : String)
    → ends b'/' p ≡ true
    → starts_with q p ≡ true
    → starts_with q (rstrip_char b'/' p <> "/") ≡ true
slashed q p e h =
    (starts_with_iff q (rstrip_char b'/' p <> "/")).1
      (IsPrefix-trans _ p q (rstrip-IsPrefix p e) ((starts_with_iff q p).0 h))

matches-bare :
    (q p : String)
    → is_glob p ≡ false
    → matches q p ≡ true
    → (q == bare p || starts_with q (bare p <> "/")) ≡ true
unfolding matches
matches-bare q p g h = elim (Bool-cases (ends b'/' p)) [
  | inl e ↦ rw e (ground (arith, slashed q p e, rw e at (rw g at h)))
  | inr e ↦ rw e (ground (arith, rw e at (rw g at h)))
]

module _ {r : Root} {listed canonical : String → Bool} (is : IsRoot r listed canonical) where
  under :
      (d q : String)
      → canonical d ≡ true
      → contains (relative_files_under r d) q ≡ (listed q && (q == d || starts_with q (d <> "/")))
  unfolding relative_files_under
  under d q c =
      ground (
        arith,
        is.known d c,
        is.below d q c,
        is.above d q c,
        is.above d d c,
        eq_iff q d,
        eq_iff d d,
      )

  of_one :
      (p q : String)
      → IsSpelled canonical p
      → (contains (candidates_of r p) q ≡ true → listed q ≡ true)
        × (in_git q ≡ false
            → listed q ≡ true
            → matches q p ≡ true
            → contains (candidates_of r p) q ≡ true)
  unfolding relative_files_matching relative_files
  of_one p q c = elim (Bool-cases (is_glob p)) [
    | inl g ↦ rw g (
      ground (
        arith,
        contains-keep (λ rel. matches rel p) (relative_files r) q,
        contains-keep (λ path. not (in_git path)) r.every q,
        is.walked q,
      ),
      λ i l m. ground (
        arith,
        contains-keep (λ rel. matches rel p) (relative_files r) q,
        contains-keep (λ path. not (in_git path)) r.every q,
        is.walked q,
      ),
    )
    | inr g ↦ rw g (
      ground (arith, under (bare p) q (c g)),
      λ i l m. ground (arith, under (bare p) q (c g), matches-bare q p g m),
    )
  ]

  of_each :
      (ps : List String) (q : String)
      → All (IsSpelled canonical) ps
      → (contains (candidates r ps) q ≡ true → listed q ≡ true)
        × (in_git q ≡ false
            → listed q ≡ true
            → any (matches q) ps ≡ true
            → contains (candidates r ps) q ≡ true)
  unfolding candidates
  of_each [] q c = (λ h. absurd (ground arith), λ i l h. absurd (ground arith))
  of_each (p ∷ ps) q c =
      let (sound, complete) = of_one p q c.0 in
      let (sounds, completes) = of_each ps q c.1 in
      let both = contains-append (candidates_of r p) (candidates r ps) q in
      (
        λ h. elim (Bool-cases (contains (candidates_of r p) q)) [
          | inl e ↦ sound e
          | inr e ↦ sounds (ground (arith, both))
        ],
        λ i l h. elim (Bool-cases (matches q p)) [
          | inl e ↦ both ∙ ground (arith, complete i l e)
          | inr e ↦ both ∙ ground (arith, completes i l (ground arith))
        ],
      )

  -- A path that the manifest puts into the tier alone.
  classify-any :
      (q : String) (ts : Tiers) (tier : Tier)
      → (classify q ts == (tier ∷ [])) ≡ true
      → any (matches q) (patterns ts tier) ≡ true
  unfolding classify list_beq
  classify-any q ts replace h = ground arith
  classify-any q ts ignore h = ground arith
  classify-any q ts merge h = ground arith

  -- For a manifest whose patterns without a wildcard name their path as the file system lists it:
  -- what `tier_paths` selects are files of the checkout that the manifest puts into this tier and
  -- no other, and of the files outside `.git` it selects each such one.
  pub contains-tier_paths :
      (ts : Tiers) (tier : Tier) (q : String)
      → All (IsSpelled canonical) (patterns ts tier)
      → (contains (tier_paths r ts tier) q ≡ true → (listed q ≡ true) × (classify q ts ≡ tier ∷ []))
        × (in_git q ≡ false
            → listed q ≡ true
            → classify q ts ≡ tier ∷ []
            → contains (tier_paths r ts tier) q ≡ true)
  unfolding tier_paths
  contains-tier_paths ts tier q c =
      let only = λ (path : String). classify path ts == (tier ∷ []) in
      let (sound, complete) = of_each (patterns ts tier) q c in
      let kept = contains-keep only (candidates r (patterns ts tier)) q in
      (
        λ h. (
          sound (ground (arith, kept)),
          (list_beq_iff (classify q ts) (tier ∷ [])).0 (ground (arith, kept)),
        ),
        λ i l e.
            let t = (list_beq_iff (classify q ts) (tier ∷ [])).1 e in
            kept ∙ ground (arith, complete i l (classify-any q ts tier t), t),
      )
