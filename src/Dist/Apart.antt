-- ===== src/Dist/Apart.antt =====
-- The legs that pass the check of .github/scripts/assemble_dist.py share no path.
use mathlib.Core.Path.{subst}
use template_fastapi.Base.{
  List, [], ◌∷◌, Bool, true, false, ◌==◌, nat_eq, list_eq, list_beq_iff, Option, none, some,
  contains, In, ok, Option-cases, ◌≡◌, ◌≢◌, refl, sym, ap, ◌∙◌, arith, Bool-cases, inl, inr,
}
use template_fastapi.Base.Dict.{lookup}
use template_fastapi.Dist.{Text, PosixPath, Claims, is_owned, claim_dirs, or_text, implied, parents}
use template_fastapi.Dist.Ledger.{claim_dirs-ok, path_eq}

-- A claim that passed.
pub record Entry : Type 0 where
  pub arch : Text
  pub path : PosixPath
  pub is_dir : Bool

-- A file and another architecture's entry: neither the same path nor a parent of it.
abbrev pub IsApart : Entry → Entry → Type 0
IsApart e f = e.is_dir ≡ false → e.arch ≢ f.arch → contains (f.path ∷ parents f.path) e.path ≡ false

-- What the ledger holds of the entries so far, while `c` is at work.
pub record IsLedger (H : List Entry) (c : Text) (st : Claims) : Type 0 where
  pub leaf_owned : (e : Entry) → In e H → e.is_dir ≡ false → lookup e.path st.leaves ≡ some e.arch
  pub leaf_from :
      (p : PosixPath) (a : Text)
      → lookup p st.leaves ≡ some a
      → (e : Entry) × In e H × (e.is_dir ≡ false) × (e.path ≡ p) × (e.arch ≡ a)
  pub dir_there :
      (f : Entry) (d : PosixPath)
      → In f H
      → contains (implied f.path f.is_dir) d ≡ true
      → (x : Text) × (lookup d st.dirs ≡ some x) × (f.arch ≢ c → x ≢ c)
  pub dir_from :
      (d : PosixPath) (x : Text) → lookup d st.dirs ≡ some x → (f : Entry) × In f H × (f.arch ≡ x)
  pub named : (e : Entry) → In e H → e.arch ≢ []
  pub apart : (e f : Entry) → In e H → In f H → IsApart e f

owned_some : (a c : Text) (o : Option Text) → o ≡ some a → is_owned o c ≡ true → a ≡ c
owned_some a c o e h = (list_beq_iff a c).0 (subst (λ o. is_owned o c ≡ true) e h)

or_some : (a : Text) (o u : Option Text) → o ≡ some a → a ≢ [] → or_text o u ≡ some a
or_some [] o u e n = absurd (n refl)
or_some (x ∷ a) o u e n = ap (λ o. or_text o u) e

or_none : (o u : Option Text) → o ≡ none → or_text o u ≡ u
or_none o u e = ap (λ o. or_text o u) e

parent_implied :
    (p d : PosixPath) (k : Bool) → contains (parents p) d ≡ true → contains (implied p k) d ≡ true
parent_implied p d true h = ground arith
parent_implied p d false h = h

module _ (H : List Entry) (c : Text) (st st1 : Claims) (path : PosixPath) (k : Bool)
    (inv : IsLedger H c st) (named : c ≢ [])
    (passed : claim_dirs c (implied path k) st ≡ ok st1) where
  -- The new entry's directories are no file of another architecture.
  pub dirs_apart :
      (e : Entry)
      → In e H
      → e.is_dir ≡ false
      → e.arch ≢ c
      → contains (implied path k) e.path ≡ false
  dirs_apart e i leaf other = elim (Bool-cases (contains (implied path k) e.path)) [
    | inl h ↦
        let (same, owned, dirs) = claim_dirs-ok c (implied path k) st st1 passed in
        absurd (other (owned_some e.arch c _ (inv.leaf_owned e i leaf) (owned e.path h)))
    | inr h ↦ h
  ]

  -- The owner that a file's claim finds is `c` or nobody.
  module _ (own : is_owned (or_text (lookup path st1.leaves) (lookup path st1.dirs)) c ≡ true) where
    pub owner_c : (a : Text) → lookup path st.leaves ≡ some a → a ≡ c
    owner_c a e =
        let (same, owned, dirs) = claim_dirs-ok c (implied path k) st st1 passed in
        let (f, i, leaf, p, b) = inv.leaf_from path a e in
        let there =
          or_some a (lookup path st1.leaves) (lookup path st1.dirs) (ap (lookup path) same ∙ e)
            (subst (λ x. x ≢ []) b (inv.named f i)) in
        owned_some a c _ there own

    -- A new file is not the file of another architecture.
    pub leaf_apart : (e : Entry) → In e H → e.is_dir ≡ false → e.arch ≢ c → (e.path == path) ≡ false
    leaf_apart e i leaf other = elim (Bool-cases (e.path == path)) [
      | inl h ↦ absurd (
          other (
            owner_c e.arch (
              subst (λ p. lookup p st.leaves ≡ some e.arch) (path_eq e.path path h)
                (inv.leaf_owned e i leaf))))
      | inr h ↦ h
    ]

    -- A directory of another architecture stands in the way of a new file.
    dir_blocks :
        (f : Entry)
        → In f H
        → f.arch ≢ c
        → lookup path st.leaves ≡ none
        → contains (implied f.path f.is_dir) path ≡ true
        → ⊥
    dir_blocks f i other free h =
        let (same, owned, dirs) = claim_dirs-ok c (implied path k) st st1 passed in
        let (x, there, not_c) = inv.dir_there f path i h in
        let found : lookup path st1.dirs ≡ some x = dirs path ∙ ground (arith, there) in
        let read =
          or_none (lookup path st1.leaves) (lookup path st1.dirs) (ap (lookup path) same ∙ free) in
        not_c other (owned_some x c _ (read ∙ found) own)

    entry_blocks :
        (f : Entry)
        → In f H
        → f.arch ≢ c
        → lookup path st.leaves ≡ none
        → contains (f.path ∷ parents f.path) path ≡ true
        → ⊥
    entry_blocks f i other free h = elim (Bool-cases (contains (parents f.path) path)) [
      | inl p ↦ dir_blocks f i other free (parent_implied f.path path f.is_dir p)
      | inr p ↦
          let same : path ≡ f.path = path_eq path f.path (ground arith) in
          elim (Bool-cases f.is_dir) [
            | inl d ↦ dir_blocks f i other free (rw d h)
            | inr leaf ↦ ground (
              arith,
              free,
              subst (λ p. lookup p st.leaves ≡ some f.arch) (sym same) (inv.leaf_owned f i leaf),
            )
          ]
    ]

    -- A new file is neither an entry of another architecture nor a parent of one.
    pub file_apart :
        (f : Entry) → In f H → f.arch ≢ c → contains (f.path ∷ parents f.path) path ≡ false
    file_apart f i other = elim (Bool-cases (contains (f.path ∷ parents f.path) path)) [
      | inl h ↦ elim (Option-cases (lookup path st.leaves)) [
        | inl free ↦ absurd (entry_blocks f i other free h)
        | inr (a, e) ↦
            let (g, j, leaf, p, b) = inv.leaf_from path a e in
            let clear = inv.apart g f j i leaf (λ q. other (sym q ∙ (b ∙ owner_c a e))) in
            absurd
              (ground (arith, subst (λ x. contains (f.path ∷ parents f.path) x ≡ false) p clear))
      ]
      | inr h ↦ h
    ]
