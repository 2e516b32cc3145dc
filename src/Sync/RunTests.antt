-- ===== src/Sync/RunTests.antt =====
-- A whole run of `apply` on checkouts of two files and an instance of one.
use mathlib.Core.Path.{subst}
use template_fastapi.Base.{
  All, String, Bool, true, false, none, some, is_some, List, [], ◌∷◌, ◌==◌, string_eq,
  if◌then◌else◌, contains, any, keep, if-holds, starts_with, ◌<>◌, ◌≡◌, refl, sym, eq_iff, arith,
  Bool-cases, inl, inr, ok, list_beq,
}
use template_fastapi.Base.Int.{negsuc}
use template_fastapi.Manifest.{replace, merge, classify, parse_manifest, check}
use template_fastapi.Sync.{Checkout, Tree, file, File, FileMode}
use template_fastapi.Sync.Replaced.{contains-keep}
use template_fastapi.Sync.Current.{IsReadable}
use template_fastapi.Sync.Merge.{Git}
use template_fastapi.Sync.Outcomes.{IsUntouched}
use template_fastapi.Sync.Command.{cmd_apply, read_tiers}
use template_fastapi.Sync.Tiers.{Root, in_git}
use template_fastapi.Sync.Selected.{IsRoot}
use template_fastapi.Sync.Covered.{IsCovered, cmd_apply-check}
use template_fastapi.Sync.Synced.{IsSynced, belongs, cmd_apply-IsSynced}

-- The checkout with these files.
abbrev root_of : List String → Root
root_of files = record {
  is_file = λ d. contains files d;
  is_dir = λ d. any (λ q. starts_with q (d <> "/")) files;
  rglob = λ d. keep (λ q. starts_with q (d <> "/")) files;
  every = files;
}

any_file :
    (p : String → Bool) (files : List String) (q : String)
    → contains files q ≡ true
    → p q ≡ true
    → any p files ≡ true
any_file p [] q c h = absurd (ground arith)
any_file p (x ∷ xs) q c h = elim (Bool-cases (q == x)) [
  | inl e ↦ ground (arith, subst (λ z. p z ≡ true) ((eq_iff q x).0 e) h)
  | inr e ↦ ground (arith, any_file p xs q (ground arith) h)
]

root_of-IsRoot :
    (files : List String) (listed : String → Bool)
    → ((q : String) → contains files q ≡ listed q)
    → ((d q : String)
        → contains files d ≡ true
        → contains files q ≡ true
        → starts_with q (d <> "/") ≡ false)
    → IsRoot (root_of files) listed (λ d. true)
root_of-IsRoot files listed same apart = record {
  walked = same;
  known = λ d c. same d;
  below = λ d q c h. ground (arith, contains-keep (λ p. starts_with p (d <> "/")) files q, same q);
  above = λ d q c l s. (
    elim (Bool-cases (contains files d)) [
      | inl e ↦ absurd (ground (arith, apart d q e (ground (arith, same q))))
      | inr e ↦ e
    ],
    any_file (λ p. starts_with p (d <> "/")) files q (ground (arith, same q)) s,
  );
}

abbrev plain : FileMode
plain = record {
  user_read = true;
  group_read = true;
  other_read = true;
  user_exec = false;
  group_exec = false;
  other_exec = false;
  rest = 2;
}

abbrev text_file : File
text_file = record { content = 1 ∷ []; mode = plain }

abbrev old_ref : Checkout
old_ref q = if q == "a" then some text_file else if q == "d/c" then some text_file else none

abbrev new_ref : Checkout
new_ref q = if q == "a" then some (record text_file { content = 2 ∷ [] }) else none

abbrev checkout_tree : Tree
checkout_tree q = if q == "a" then some (file text_file) else none

abbrev breaks : Git
breaks mine base theirs = (negsuc 0, mine)

neither_below :
    (p q : String)
    → contains ("a" ∷ "d/c" ∷ []) q ≡ true
    → starts_with "a" p ≡ false
    → starts_with "d/c" p ≡ false
    → starts_with q p ≡ false
neither_below p q h x y = elim (Bool-cases (q == "a")) [
  | inl e ↦ subst (λ z. starts_with z p ≡ false) (sym ((eq_iff q "a").0 e)) x
  | inr e ↦ subst (λ z. starts_with z p ≡ false) (sym ((eq_iff q "d/c").0 (ground arith))) y
]

two_apart :
    (d q : String)
    → contains ("a" ∷ "d/c" ∷ []) d ≡ true
    → contains ("a" ∷ "d/c" ∷ []) q ≡ true
    → starts_with q (d <> "/") ≡ false
two_apart d q c h = elim (Bool-cases (d == "a")) [
  | inl e ↦
      subst (λ z. starts_with q (z <> "/") ≡ false) (sym ((eq_iff d "a").0 e))
        (neither_below "a/" q h refl refl)
  | inr e ↦
      subst (λ z. starts_with q (z <> "/") ≡ false) (sym ((eq_iff d "d/c").0 (ground arith)))
        (neither_below "d/c/" q h refl refl)
]

old_IsRoot : IsRoot (root_of ("a" ∷ "d/c" ∷ [])) (λ q. is_some (old_ref q)) (λ d. true)
old_IsRoot = root_of-IsRoot ("a" ∷ "d/c" ∷ []) _ (λ q. ground arith) two_apart

new_IsRoot : IsRoot (root_of ("a" ∷ [])) (λ q. is_some (new_ref q)) (λ d. true)
new_IsRoot =
    root_of-IsRoot ("a" ∷ []) _ (λ q. ground arith)
      (λ d q c h. two_apart d q (ground arith) (ground arith))

abbrev manifest : String
manifest = "replace:\n  - d/\nmerge:\n  - a*\n"

untouched :
    (q : String)
    → belongs old_ref new_ref (parse_manifest manifest) merge q ≡ true
    → IsUntouched (old_ref q) (checkout_tree q)
unfolding parse_manifest classify list_beq
untouched q h = elim (Bool-cases (q == "a")) [
  | inl e ↦ rw e refl
  | inr e ↦ elim (Bool-cases (q == "d/c")) [
    | inl f ↦ absurd (
        ground (
          arith,
          subst (λ z. belongs old_ref new_ref (parse_manifest manifest) merge z ≡ true)
              ((eq_iff q "d/c").0 f) h,
        ))
    | inr f ↦ rw (e, f) tt
  ]
]

cmd_apply-IsSynced_example :
    IsSynced old_ref new_ref checkout_tree
      (cmd_apply breaks old_ref new_ref
        (read_tiers (root_of ("a" ∷ "d/c" ∷ [])) (root_of ("a" ∷ [])) (ok manifest))
        checkout_tree)
      (belongs old_ref new_ref (parse_manifest manifest) replace "d/c")
      (belongs old_ref new_ref (parse_manifest manifest) merge "d/c")
      "d/c"
unfolding parse_manifest in_git
cmd_apply-IsSynced_example =
    cmd_apply-IsSynced old_ref new_ref old_IsRoot new_IsRoot breaks manifest checkout_tree
      ((λ g. refl), tt) ((λ g. refl), tt)
      (λ q. if-holds IsReadable (q == "a") _ _ (λ a. refl) (λ a. tt)) untouched "d/c" refl

two_tiers : check "m" "l" manifest none ("a" ∷ []) ≡ []
unfolding check
two_tiers = refl

cmd_apply-check_example :
    All
      (IsCovered old_ref new_ref
        (parse_manifest manifest)
        checkout_tree
        (cmd_apply breaks old_ref new_ref
          (read_tiers (root_of ("a" ∷ "d/c" ∷ [])) (root_of ("a" ∷ [])) (ok manifest))
          checkout_tree).tree)
      ("a" ∷ [])
unfolding parse_manifest in_git
cmd_apply-check_example =
    cmd_apply-check old_ref new_ref old_IsRoot new_IsRoot breaks manifest "m" "l" ("a" ∷ [])
      checkout_tree two_tiers ((refl, refl), tt) ((λ g. refl), tt) ((λ g. refl), tt)
      (λ q. if-holds IsReadable (q == "a") _ _ (λ a. refl) (λ a. tt)) untouched
