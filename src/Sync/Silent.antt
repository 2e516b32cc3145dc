-- ===== src/Sync/Silent.antt =====
-- What `apply_replace` of .github/scripts/template_sync.py does not report is as it was.
use template_fastapi.Base.{
  String, false, Option, none, some, List, [], ◌∷◌, ◌++◌, contains, ◌==◌, ◌&&◌, keep, is_some,
  is_none, string_eq, ◌≡◌, refl, sym, ap, ◌∙◌, inl, inr, arith, eq_iff, Bool-cases,
}
use template_fastapi.Sync.{Checkout, Tree, File, Node, link, file, write}
use template_fastapi.Sync.Selected.{contains-append}
use template_fastapi.Sync.Replace.{
  Replaced, update_one, update_all, remove_one, remove_all, apply_replace, refreshed, is_refreshed,
  is_removed, without,
}

without-silent : (before : Option Node) → is_removed before ≡ false → without before ≡ before
without-silent none h = refl
without-silent (some link) h = refl
without-silent (some (file f)) h = absurd (cc)

refreshed-silent :
    (src : File) (before : Option Node)
    → is_refreshed src before ≡ false
    → refreshed src before ≡ before
unfolding is_refreshed refreshed
refreshed-silent src none h = absurd (cc)
refreshed-silent src (some link) h = refl
refreshed-silent src (some (file dst)) h = ground arith

-- Writing what was there changes nothing.
write-same : (t : Tree) (p q : String) (n : Option Node) → n ≡ t p → write t p n q ≡ t q
write-same t p q n e = elim (Bool-cases (p == q)) [
  | inl same ↦ rw same (e ∙ ap t ((eq_iff p q).0 same))
  | inr other ↦ rw other refl
]

-- A path that is not among those that were added.
unlisted :
    (xs : List String) (p q : String)
    → contains (xs ++ (p ∷ [])) q ≡ false
    → (contains xs q ≡ false) × ((p == q) ≡ false)
unlisted xs p q h = ground (arith, contains-append xs (p ∷ []) q, eq_iff p q, eq_iff q p)

update_one-silent :
    (o : Option File) (p q : String) (st : Replaced)
    → contains (update_one o p st).updated q ≡ false
    → ((update_one o p st).tree q ≡ st.tree q) × (contains st.updated q ≡ false)
update_one-silent none p q st h = (refl, h)
update_one-silent (some src) p q st h = elim (Bool-cases (is_refreshed src (st.tree p))) [
  | inl e ↦ let (away, other) = unlisted st.updated p q (ground (arith, h)) in (rw other refl, away)
  | inr e ↦ (write-same st.tree p q _ (refreshed-silent src (st.tree p) e), ground (arith, h))
]

update_all-silent :
    (new : Checkout) (ps : List String) (st : Replaced) (q : String)
    → contains (update_all new ps st).updated q ≡ false
    → ((update_all new ps st).tree q ≡ st.tree q) × (contains st.updated q ≡ false)
unfolding update_all
update_all-silent new [] st q h = (refl, h)
update_all-silent new (p ∷ ps) st q h =
    let (rest, away) = update_all-silent new ps (update_one (new p) p st) q h in
    let (one, before) = update_one-silent (new p) p q st away in (rest ∙ one, before)

remove_one-silent :
    (p q : String) (st : Replaced)
    → contains (remove_one p st).removed q ≡ false
    → ((remove_one p st).tree q ≡ st.tree q) × (contains st.removed q ≡ false)
remove_one-silent p q st h = elim (Bool-cases (is_removed (st.tree p))) [
  | inl e ↦ let (away, other) = unlisted st.removed p q (ground (arith, h)) in (rw other refl, away)
  | inr e ↦ (write-same st.tree p q _ (without-silent (st.tree p) e), ground (arith, h))
]

remove_all-silent :
    (ps : List String) (st : Replaced) (q : String)
    → contains (remove_all ps st).removed q ≡ false
    → ((remove_all ps st).tree q ≡ st.tree q) × (contains st.removed q ≡ false)
unfolding remove_all
remove_all-silent [] st q h = (refl, h)
remove_all-silent (p ∷ ps) st q h =
    let (rest, away) = remove_all-silent ps (remove_one p st) q h in
    let (one, before) = remove_one-silent p q st away in (rest ∙ one, before)

updated-remove_all : (ps : List String) (st : Replaced) → (remove_all ps st).updated ≡ st.updated
unfolding remove_all
updated-remove_all [] st = refl
updated-remove_all (p ∷ ps) st = updated-remove_all ps (remove_one p st)

-- A path that the replace tier does not report is as it was.
pub apply_replace-silent :
    (old new : Checkout) (ps : List String) (t : Tree) (q : String)
    → contains (apply_replace old new ps t).updated q ≡ false
    → contains (apply_replace old new ps t).removed q ≡ false
    → (apply_replace old new ps t).tree q ≡ t q
unfolding apply_replace
apply_replace-silent old new ps t q u r =
    let made =
      update_all new (keep (λ p. is_some (new p)) ps)
        (record { tree = t; updated = []; removed = [] }) in
    let gone = keep (λ p. is_some (old p) && is_none (new p)) ps in
    (remove_all-silent gone made q r).0
    ∙ (update_all-silent new (keep (λ p. is_some (new p)) ps) _ q
        (ap (λ xs. contains xs q) (sym (updated-remove_all gone made)) ∙ u)).0
