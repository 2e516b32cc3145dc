-- ===== src/Sync/Replaced.antt =====
-- What `apply_replace` of .github/scripts/template_sync.py leaves at each path.
use template_fastapi.Base.{
  String, Bool, false, ◌&&◌, Option, none, some, is_some, is_none, List, [], ◌∷◌, string_eq, nat_eq,
  list_eq, keep, if◌then◌else◌, contains, ◌≡◌, refl, arith, eq_iff, Bool-cases, Option-cases, inl,
  inr,
}
use template_fastapi.Sync.{Checkout, Tree, Node, File}
use template_fastapi.Sync.Replace.{
  Replaced, refreshed, update_one, update_all, without, remove_one, remove_all, apply_replace,
}

-- No path twice.
abbrev pub Distinct : List String → Type 0
Distinct [] = Unit {0}
Distinct (p ∷ ps) = (contains ps p ≡ false) × Distinct ps

-- The node that a listed path of the new template gets.
abbrev renewed : Option File → Option Node → Option Node
renewed none before = before
renewed (some src) before = refreshed src before

tree-update_all :
    (new : Checkout) (ps : List String) (st : Replaced) (q : String)
    → Distinct ps
    → (update_all new ps st).tree q
      ≡ (if contains ps q then renewed (new q) (st.tree q) else st.tree q)
unfolding update_all
tree-update_all new [] st q d = refl
tree-update_all new (p ∷ ps) st q d = elim (Option-cases (new p)) [
  | inl e ↦ ground (arith, tree-update_all new ps st q d.1, eq_iff q p, eq_iff p q)
  | inr (src, e) ↦
      ground
        (arith, tree-update_all new ps (update_one (some src) p st) q d.1, eq_iff q p, eq_iff p q)
]

tree-remove_all :
    (ps : List String) (st : Replaced) (q : String)
    → Distinct ps
    → (remove_all ps st).tree q ≡ (if contains ps q then without (st.tree q) else st.tree q)
unfolding remove_all
tree-remove_all [] st q d = refl
tree-remove_all (p ∷ ps) st q d =
    ground (arith, tree-remove_all ps (remove_one p st) q d.1, eq_iff q p, eq_iff p q)

pub contains-keep :
    (f : String → Bool) (ps : List String) (q : String)
    → contains (keep f ps) q ≡ (contains ps q && f q)
contains-keep f [] q = refl
contains-keep f (p ∷ ps) q = ground (arith, contains-keep f ps q, eq_iff q p)

keep-Distinct : (f : String → Bool) (ps : List String) → Distinct ps → Distinct (keep f ps)
keep-Distinct f [] d = d
keep-Distinct f (p ∷ ps) d = elim (Bool-cases (f p)) [
  | inl e ↦ rw e (ground (arith, contains-keep f ps p), keep-Distinct f ps d.1)
  | inr e ↦ rw e (keep-Distinct f ps d.1)
]

-- The node that a run leaves at a path of the tier.
abbrev pub settled : Option File → Option File → Option Node → Option Node
settled old (some src) before = refreshed src before
settled none none before = before
settled (some f) none before = without before

pub tree-apply_replace :
    (old new : Checkout) (ps : List String) (t : Tree) (q : String)
    → Distinct ps
    → (apply_replace old new ps t).tree q
      ≡ (if contains ps q then settled (old q) (new q) (t q) else t q)
unfolding apply_replace
tree-apply_replace old new ps t q d =
    let new_paths = keep (λ p. is_some (new p)) ps in
    let gone = keep (λ p. is_some (old p) && is_none (new p)) ps in
    let st : Replaced = record { tree = t; updated = []; removed = [] } in
    let there = tree-update_all new new_paths st q (keep-Distinct _ ps d) in
    let away = tree-remove_all gone (update_all new new_paths st) q (keep-Distinct _ ps d) in
    ground (
      arith,
      there,
      away,
      contains-keep (λ p. is_some (new p)) ps q,
      contains-keep (λ p. is_some (old p) && is_none (new p)) ps q,
    )
