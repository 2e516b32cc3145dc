-- ===== src/Manifest/Printed.antt =====
-- A manifest that is written from its patterns reads back, for the parser of
-- .github/scripts/template_sync_manifest.py.

use mathlib.Core.List.{append_assoc, append-nil}
use template_fastapi.Base.{
  String, true, false, not, ◌&&◌, ◌||◌, Option, none, some, List, [], ◌∷◌, ◌++◌, map, nat_eq,
  is_empty, ◌<>◌, ◌≡◌, refl, sym, ap, ◌∙◌, All, starts_with,
}
use template_fastapi.Manifest.{
  Tier, replace, ignore, merge, Tiers, extend, tier_name, Reading, nothing_read, pattern_in,
  read_stripped, read_line, read_lines, parse_manifest,
}
use template_fastapi.Manifest.Lines.{
  is_space, rstrip_by, lstrip_by, strip_by, begins, before_comment, ends,
}
use template_fastapi.Manifest.Stripped.{
  IsPlain, item_line, write_lines, is_unbroken, split-write_lines, plain-unbroken, spelled,
  item_line-spelled, rstrip-spelled, before_comment-spelled, pattern_in-plain, starts-spelled,
  strip-spelled,
}

abbrev pub manifest_lines : Tiers → List String
manifest_lines ts =
    "replace:"
    ∷ (map item_line ts.replace_patterns
        ++ ("ignore:"
            ∷ (map item_line ts.ignore_patterns ++ ("merge:" ∷ map item_line ts.merge_patterns))))

-- A line that is no comment and no key, and whose item is `p`.
read_stripped-item :
    (line d p : String) (ts : Tiers) (tier : Tier)
    → (is_empty line || begins b'#' (lstrip_by is_space line)) ≡ false
    → (not (begins b' ' line) && ends b':' line) ≡ false
    → strip_by is_space line ≡ d
    → starts_with d "- " ≡ true
    → pattern_in d ≡ p
    → read_stripped line (ts, some tier) ≡ (extend ts tier (p ∷ []), some tier)
unfolding read_stripped
read_stripped-item line d p ts tier comment key e s i = rw (comment, key, e, s, i) refl

read_line_lem :
    (raw : String) (r : Reading)
    → read_line raw r ≡ read_stripped (rstrip_by is_space (before_comment raw)) r
unfolding read_line
read_line_lem raw r = refl

read_line-item :
    (p : String) (ts : Tiers) (tier : Tier)
    → IsPlain p
    → read_line (item_line p) (ts, some tier) ≡ (extend ts tier (p ∷ []), some tier)
read_line-item p ts tier (h, e, b) =
    let raw = ap (λ s. rstrip_by is_space (before_comment s)) (item_line-spelled p) in
    let line =
      raw ∙ (ap (rstrip_by is_space) (before_comment-spelled p h b) ∙ rstrip-spelled p h e) in
    read_line_lem (item_line p) (ts, some tier)
    ∙ (ap (λ s. read_stripped s (ts, some tier)) line
        ∙ read_stripped-item (spelled p) _ p ts tier (unfold lstrip_by in refl) refl
            (strip-spelled p h e) (starts-spelled p) (pattern_in-plain p h))

extend_twice :
    (ts : Tiers) (tier : Tier) (ps qs : List String)
    → extend (extend ts tier ps) tier qs ≡ extend ts tier (ps ++ qs)
extend_twice ts replace ps qs = rw append_assoc refl
extend_twice ts ignore ps qs = rw append_assoc refl
extend_twice ts merge ps qs = rw append_assoc refl

extend-nil : (ts : Tiers) (tier : Tier) → extend ts tier [] ≡ ts
extend-nil ts replace = rw append-nil refl
extend-nil ts ignore = rw append-nil refl
extend-nil ts merge = rw append-nil refl

read_lines-items :
    (ps rest : List String) (ts : Tiers) (tier : Tier)
    → All IsPlain ps
    → read_lines (map item_line ps ++ rest) (ts, some tier)
      ≡ read_lines rest (extend ts tier ps, some tier)
unfolding read_lines
read_lines-items [] rest ts tier h = rw extend-nil refl
read_lines-items (p ∷ ps) rest ts tier h =
    ap (read_lines (map item_line ps ++ rest)) (read_line-item p ts tier h.0)
    ∙ (read_lines-items ps rest (extend ts tier (p ∷ [])) tier h.1
        ∙ ap (λ t. read_lines rest (t, some tier)) (extend_twice ts tier (p ∷ []) ps))

read_lines-key :
    (tier : Tier) (ls : List String) (ts : Tiers) (o : Option Tier)
    → read_lines ((tier_name tier <> ":") ∷ ls) (ts, o) ≡ read_lines ls (ts, some tier)
unfolding read_lines
read_lines-key replace ls ts o = refl
read_lines-key ignore ls ts o = refl
read_lines-key merge ls ts o = refl

-- The list of one tier.
read_lines-tier :
    (tier : Tier) (ps rest : List String) (ts : Tiers) (o : Option Tier)
    → All IsPlain ps
    → read_lines ((tier_name tier <> ":") ∷ (map item_line ps ++ rest)) (ts, o)
      ≡ read_lines rest (extend ts tier ps, some tier)
read_lines-tier tier ps rest ts o h =
    read_lines-key tier (map item_line ps ++ rest) ts o ∙ read_lines-items ps rest ts tier h

unbroken-append :
    (ls ks : List String)
    → All (λ l. is_unbroken l ≡ true) ls
    → All (λ l. is_unbroken l ≡ true) ks
    → All (λ l. is_unbroken l ≡ true) (ls ++ ks)
unbroken-append [] ks h k = k
unbroken-append (l ∷ ls) ks h k = (h.0, unbroken-append ls ks h.1 k)

items-unbroken :
    (ps : List String) → All IsPlain ps → All (λ l. is_unbroken l ≡ true) (map item_line ps)
items-unbroken [] h = tt
items-unbroken (p ∷ ps) h =
    (rw (item_line-spelled p) (plain-unbroken p h.0.0), items-unbroken ps h.1)

-- The patterns of every tier need no quotes.
abbrev pub ArePlain : Tiers → Type 0
ArePlain ts =
    All IsPlain ts.replace_patterns × All IsPlain ts.ignore_patterns × All IsPlain ts.merge_patterns

read_lines-manifest :
    (ts : Tiers) → ArePlain ts → read_lines (manifest_lines ts) nothing_read ≡ (ts, some merge)
unfolding read_lines
read_lines-manifest ts (r, i, m) =
    let is = map item_line ts.ignore_patterns in
    let ms = map item_line ts.merge_patterns in
    let t0 : Tiers = nothing_read.0 in
    let t1 = extend t0 replace ts.replace_patterns in
    let t2 = extend t1 ignore ts.ignore_patterns in
    read_lines-tier replace ts.replace_patterns ("ignore:" ∷ (is ++ ("merge:" ∷ ms))) t0 none r
    ∙ (read_lines-tier ignore ts.ignore_patterns ("merge:" ∷ ms) t1 (some replace) i
        ∙ (ap (λ ls. read_lines ("merge:" ∷ ls) (t2, some ignore)) (sym (append-nil ms))
            ∙ read_lines-tier merge ts.merge_patterns [] t2 (some ignore) m))

-- A manifest that lists, under the key of each tier, patterns that have no space and no quote, are
-- not empty and do not begin with a `#`, is parsed to these patterns, in their order.
pub parse_manifest-write_lines :
    (ts : Tiers) → ArePlain ts → parse_manifest (write_lines (manifest_lines ts)) ≡ ts
unfolding parse_manifest
parse_manifest-write_lines ts (r, i, m) =
    let unbroken : All (λ l. is_unbroken l ≡ true) (manifest_lines ts) = (
      refl,
      unbroken-append _ _ (items-unbroken ts.replace_patterns r) (
        refl,
        unbroken-append _ _ (items-unbroken ts.ignore_patterns i)
            (refl, items-unbroken ts.merge_patterns m),
      ),
    ) in
    ap (λ ls. (read_lines ls nothing_read).0) (split-write_lines (manifest_lines ts) unbroken)
    ∙ ap (λ (q : Reading). q.0) (read_lines-manifest ts (r, i, m))
