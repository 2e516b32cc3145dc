-- ===== src/Dist/Extend.antt =====
-- A claim that passes in .github/scripts/assemble_dist.py keeps the ledger.
use mathlib.Core.Path.{subst}
use template_fastapi.Base.{
  List, [], ◌∷◌, Bool, true, false, ◌==◌, nat_eq, list_eq, list_beq_iff, if◌then◌else◌, Option,
  none, some, contains, In, ok, some-injective, Option-cases, ◌≡◌, ◌≢◌, refl, sym, ap, ◌∙◌, arith,
  Bool-cases, inl, inr,
}
use template_fastapi.Base.Dict.{lookup}
use template_fastapi.Dist.{Text, PosixPath, Claims, claim_dirs, claim_leaf, implied}
use template_fastapi.Dist.Ledger.{owner_after, claim_dirs-ok, claim_leaf-ok, path_eq}
use template_fastapi.Dist.Apart.{
  Entry, IsApart, IsLedger, dirs_apart, owner_c, leaf_apart, file_apart,
}

module _ (H : List Entry) (c : Text) (st st1 : Claims) (path : PosixPath) (k : Bool)
    (inv : IsLedger H c st) (named : c ≢ [])
    (passed : claim_dirs c (implied path k) st ≡ ok st1) where
  abbrev new : Entry
  new = record { arch = c; path = path; is_dir = k }

  abbrev after : PosixPath → Option Text
  after = owner_after c (implied path k) st

  dirs_after : (d : PosixPath) → lookup d st1.dirs ≡ after d
  dirs_after d = let (same, owned, dirs) = claim_dirs-ok c (implied path k) st st1 passed in dirs d

  abbrev Owned : Entry → PosixPath → Type 0
  Owned f d = (x : Text) × (lookup d st1.dirs ≡ some x) × (f.arch ≢ c → x ≢ c)

  new-Owned : (d : PosixPath) → contains (implied path k) d ≡ true → Owned new d
  new-Owned d h = elim (Option-cases (lookup d st.dirs)) [
    | inl e ↦ (c, dirs_after d ∙ ground (arith, e, h), λ n. absurd (n refl))
    | inr (x, e) ↦ (x, dirs_after d ∙ ground (arith, e), λ n. absurd (n refl))
  ]

  dir_there :
      (f : Entry) (d : PosixPath)
      → In f (new ∷ H)
      → contains (implied f.path f.is_dir) d ≡ true
      → Owned f d
  dir_there f d (inl e) h =
      subst (λ g. Owned g d) e
        (new-Owned d (subst (λ g. contains (implied g.path g.is_dir) d ≡ true) (sym e) h))
  dir_there f d (inr i) h =
      let (x, e, n) = inv.dir_there f d i h in (x, dirs_after d ∙ ground (arith, e), n)

  picked :
      (b : Bool) (x : Text) → ◌≡◌ {A = Option Text} (if b then some c else none) (some x) → c ≡ x
  picked true x h = some-injective h
  picked false x h = absurd (ground arith)

  dir_from :
      (d : PosixPath) (x : Text)
      → lookup d st1.dirs ≡ some x
      → (f : Entry) × In f (new ∷ H) × (f.arch ≡ x)
  dir_from d x h = elim (Option-cases (lookup d st.dirs)) [
    | inl e ↦
        (new, inl refl, picked (contains (implied path k) d) x (ground (arith, e, dirs_after d, h)))
    | inr (y, e) ↦
        let (f, i, a) = inv.dir_from d x (ground (arith, e, dirs_after d)) in (f, inr i, a)
  ]

  names : (e : Entry) → In e (new ∷ H) → e.arch ≢ []
  names e (inl h) = subst (λ g. g.arch ≢ []) h named
  names e (inr i) = inv.named e i

  -- Two entries are apart if the new one is apart from the old ones.
  all-IsApart :
      ((f : Entry) → In f H → IsApart new f)
      → ((e : Entry) → In e H → IsApart e new)
      → (e f : Entry) → In e (new ∷ H)
      → In f (new ∷ H)
      → IsApart e f
  all-IsApart x y e f (inl a) (inl b) = λ leaf other. absurd (other (ap (λ g. g.arch) (sym a ∙ b)))
  all-IsApart x y e f (inl a) (inr j) = subst (λ g. IsApart g f) a (x f j)
  all-IsApart x y e f (inr i) (inl b) = subst (λ g. IsApart e g) b (y e i)
  all-IsApart x y e f (inr i) (inr j) = inv.apart e f i j

-- What holds of the entries before a claim holds of them and the new one after it.
module _ (H : List Entry) (c : Text) (path : PosixPath) where
  pub dir-IsLedger :
      (st st1 : Claims)
      → IsLedger H c st
      → c ≢ []
      → claim_dirs c (implied path true) st ≡ ok st1
      → IsLedger (record { arch = c; path = path; is_dir = true } ∷ H) c st1
  dir-IsLedger st st1 inv named passed =
      let (same, owned, dirs) = claim_dirs-ok c (implied path true) st st1 passed in
      record {
        leaf_owned = λ e i leaf. elim i [
          | inl h ↦ absurd (ground (arith, ap (λ g. g.is_dir) h))
          | inr j ↦ ap (lookup e.path) same ∙ inv.leaf_owned e j leaf
        ];
        leaf_from = λ p a h.
            let (e, i, leaf, q, b) = inv.leaf_from p a (ap (lookup p) (sym same) ∙ h) in
            (e, inr i, leaf, q, b);
        dir_there = dir_there H c st st1 path true inv named passed;
        dir_from = dir_from H c st st1 path true inv named passed;
        named = names H c st st1 path true inv named passed;
        apart =
            all-IsApart H c st st1 path true inv named passed
              (λ f i leaf other. absurd (ground arith))
              (λ e i leaf other. dirs_apart H c st st1 path true inv named passed e i leaf other);
      }

  pub file-IsLedger :
      (st st1 st2 : Claims)
      → IsLedger H c st
      → c ≢ []
      → claim_dirs c (implied path false) st ≡ ok st1
      → claim_leaf c path st1 ≡ ok st2
      → IsLedger (record { arch = c; path = path; is_dir = false } ∷ H) c st2
  file-IsLedger st st1 st2 inv named passed leafed =
      let (same, owned, dirs) = claim_dirs-ok c (implied path false) st st1 passed in
      let (own, same_dirs, leaves) = claim_leaf-ok c path st1 st2 leafed in
      record {
        leaf_owned = λ e i leaf. elim i [
          | inl h ↦
              subst (λ g. lookup g.path st2.leaves ≡ some g.arch) h
                (leaves path ∙ ground (arith, list_beq_iff path path))
          | inr j ↦ elim (Bool-cases (path == e.path)) [
            | inl s ↦
                let mine = owner_c H c st st1 path false inv named passed own e.arch (
                  subst (λ p. lookup p st.leaves ≡ some e.arch) (sym (path_eq path e.path s))
                    (inv.leaf_owned e j leaf)) in
                leaves e.path ∙ ground (arith, s, ap (λ x. some x) mine)
            | inr s ↦
                leaves e.path ∙ ground (arith, s, ap (lookup e.path) same, inv.leaf_owned e j leaf)
          ]
        ];
        leaf_from = λ p a h. elim (Bool-cases (path == p)) [
          | inl s ↦ (
            record { arch = c; path = path; is_dir = false },
            inl refl,
            refl,
            path_eq path p s,
            some-injective (ground (arith, s, leaves p, h)),
          )
          | inr s ↦
              let (e, i, leaf, q, b) =
                inv.leaf_from p a (ground (arith, s, leaves p, h, ap (lookup p) same)) in
              (e, inr i, leaf, q, b)
        ];
        dir_there = λ f d i h.
            let (x, e, n) = dir_there H c st st1 path false inv named passed f d i h in
            (x, ap (lookup d) same_dirs ∙ e, n);
        dir_from = λ d x h.
            dir_from H c st st1 path false inv named passed d x (ap (lookup d) (sym same_dirs) ∙ h);
        named = names H c st st1 path false inv named passed;
        apart =
            all-IsApart H c st st1 path false inv named passed
              (λ f i leaf other.
                file_apart H c st st1 path false inv named passed own f i (λ q. other (sym q)))
              (λ e i leaf other. ground (
                arith,
                dirs_apart H c st st1 path false inv named passed e i leaf other,
                leaf_apart H c st st1 path false inv named passed own e i leaf other,
              ));
      }
