-- ===== src/Sync/Announced.antt =====
-- What `pr_body` of .github/scripts/template_sync.py says of a run of `cmd_apply`.
use template_fastapi.Base.{
  String, true, false, some, List, [], ◌∷◌, ◌++◌, map, contains, is_nil, ◌==◌, string_eq, In,
  if-holds, ok, ◌<>◌, join, ◌≡◌, refl, sym, ap, ◌∙◌, ◌⊎◌, inl, inr, arith, eq_iff, Bool-cases,
}
use template_fastapi.Sync.{Checkout, Tree}
use template_fastapi.Sync.Replace.{Replaced, apply_replace}
use template_fastapi.Sync.Silent.{apply_replace-silent}
use template_fastapi.Sync.Replaced.{Distinct}
use template_fastapi.Sync.Merge.{Git, Merged, apply_merge}
use template_fastapi.Base.Int.{pos}
use template_fastapi.Sync.Merging.{apply_merge-IsReported}
use template_fastapi.Sync.Command.{
  bullet, conflict_bullet, pr_lines, pr_body, summary, cmd_apply, finished, Applied,
}

module _ {A : Type 0} where
  In-left : (x : A) (xs ys : List A) → In x xs → In x (xs ++ ys)
  In-left x [] ys i = absurd i
  In-left x (z ∷ xs) ys (inl e) = inl e
  In-left x (z ∷ xs) ys (inr i) = inr (In-left x xs ys i)

  In-right : (x : A) (xs ys : List A) → In x ys → In x (xs ++ ys)
  In-right x [] ys i = i
  In-right x (z ∷ xs) ys i = inr (In-right x xs ys i)

contains-map :
    {B : Type 0} (f : String → B) (xs : List String) (q : String)
    → contains xs q ≡ true
    → In (f q) (map f xs)
contains-map f [] q h = absurd (cc)
contains-map f (x ∷ xs) q h = elim (Bool-cases (q == x)) [
  | inl e ↦ inl (ap f (sym ((eq_iff q x).0 e)))
  | inr e ↦ inr (contains-map f xs q (ground arith))
]

-- A line of the body names the path.
abbrev pub IsNamed : List String → String → Type 0
IsNamed lines q = (what : String) × In (bullet what q) lines

conflict-IsNamed :
    (binary lines : List String) (q : String)
    → In (conflict_bullet binary q) lines
    → IsNamed lines q
conflict-IsNamed binary lines q =
    if-holds (λ x. In x lines → IsNamed lines q) (contains binary q) _ _ (λ e i. (_, i))
      (λ e i. (_, i))

module _ (r : Replaced) (m : Merged) (old_tag new_tag repo : String) where
  updated-IsNamed :
      (q : String) → contains r.updated q ≡ true → IsNamed (pr_lines r m old_tag new_tag repo) q
  updated-IsNamed q h = (
    "replace",
    inr (
        inr (
          inr (
            In-left _ (map (bullet "replace") r.updated) _
              (contains-map (bullet "replace") r.updated q h)))),
  )

  removed-IsNamed :
      (q : String) → contains r.removed q ≡ true → IsNamed (pr_lines r m old_tag new_tag repo) q
  removed-IsNamed q h =
      let what : String = "replace (removed upstream)" in
      (
        what,
        inr (
            inr (
              inr (
                In-right _ (map (bullet "replace") r.updated) _ (
                  In-left _ (map (bullet what) r.removed) _
                    (contains-map (bullet what) r.removed q h))))),
      )

  merged-IsNamed :
      (q : String) → contains m.merged q ≡ true → IsNamed (pr_lines r m old_tag new_tag repo) q
  merged-IsNamed q h =
      let what : String = "merge (clean)" in
      (
        what,
        inr (
            inr (
              inr (
                In-right _ (map (bullet "replace") r.updated) _ (
                  In-right _ (map (bullet "replace (removed upstream)") r.removed) _ (
                    In-left _ (map (bullet what) m.merged) _
                      (contains-map (bullet what) m.merged q h)))))),
      )

  conflicts-In :
      (q : String)
      → contains m.conflicts q ≡ true
      → In (conflict_bullet m.binary q) (pr_lines r m old_tag new_tag repo)
  conflicts-In q h = inr (
      inr (
        inr (
          In-right _ (map (bullet "replace") r.updated) _ (
            In-right _ (map (bullet "replace (removed upstream)") r.removed) _ (
              In-right _ (map (bullet "merge (clean)") m.merged) _ (
                In-left _ (map (conflict_bullet m.binary) m.conflicts) _
                  (contains-map (conflict_bullet m.binary) m.conflicts q h)))))))

-- A run that printed a summary, with the body made from it: a path that no line names is as it was,
-- and a conflict has its own line and makes the status 1.
abbrev pub IsAnnounced : Tree → Applied → Replaced → Merged → List String → Type 0
IsAnnounced t a r m lines =
    (a.stdout ≡ some (summary r m))
    × ((q : String) → (a.tree q ≡ t q) ⊎ IsNamed lines q)
    × ((q : String)
        → contains m.conflicts q ≡ true
        → In (conflict_bullet m.binary q) lines × (a.exit_code ≡ pos 1))

listed-not_nil : (xs : List String) (q : String) → contains xs q ≡ true → is_nil xs ≡ false
listed-not_nil [] q h = absurd (cc)
listed-not_nil (x ∷ xs) q h = refl

finished-IsAnnounced :
    (git : Git) (old new : Checkout) (ms : List String) (t : Tree) (r : Replaced) (m : Merged)
    (old_tag new_tag repo : String)
    → Distinct ms
    → ((q : String) → contains r.updated q ≡ false → contains r.removed q ≡ false → r.tree q ≡ t q)
    → apply_merge git old new ms r.tree ≡ ok m
    → IsAnnounced t (finished r (ok m)) r m (pr_lines r m old_tag new_tag repo)
finished-IsAnnounced git old new ms t r m old_tag new_tag repo d silent e = (
  refl,
  λ q. elim (Bool-cases (contains r.updated q)) [
    | inl u ↦ inr (updated-IsNamed r m old_tag new_tag repo q u)
    | inr u ↦ elim (Bool-cases (contains r.removed q)) [
      | inl v ↦ inr (removed-IsNamed r m old_tag new_tag repo q v)
      | inr v ↦ elim (Bool-cases (contains m.merged q)) [
        | inl w ↦ inr (merged-IsNamed r m old_tag new_tag repo q w)
        | inr w ↦ elim (Bool-cases (contains m.conflicts q)) [
          | inl c ↦ inr (
              conflict-IsNamed m.binary (pr_lines r m old_tag new_tag repo) q
                (conflicts-In r m old_tag new_tag repo q c))
          | inr c ↦
              inl ((apply_merge-IsReported git old new ms r.tree m d e q).0 w c ∙ silent q u v)
        ]
      ]
    ]
  ],
  λ q c. (conflicts-In r m old_tag new_tag repo q c, rw (listed-not_nil m.conflicts q c) refl),
)

-- If the paths of the merge tier are listed once each and a run merges them without a failure,
-- then it prints its summary, and in the body that is made from this, a line names every path whose
-- node is not as before; every conflict has its own line and makes the status 1.
pub cmd_apply-pr_body :
    (git : Git) (old new : Checkout) (rs ms : List String) (t : Tree) (m : Merged)
    (old_tag new_tag repo : String)
    → Distinct ms
    → apply_merge git old new ms (apply_replace old new rs t).tree ≡ ok m
    → let r = apply_replace old new rs t in
      (lines : List String) × (pr_body r m old_tag new_tag repo ≡ join "\n" lines <> "\n")
      × IsAnnounced t (cmd_apply git old new (ok (rs, ms)) t) r m lines
unfolding cmd_apply pr_body
cmd_apply-pr_body git old new rs ms t m old_tag new_tag repo d e =
    let r = apply_replace old new rs t in
    (
      pr_lines r m old_tag new_tag repo,
      refl,
      rw e (
          finished-IsAnnounced git old new ms t r m old_tag new_tag repo d
            (apply_replace-silent old new rs t) e),
    )
