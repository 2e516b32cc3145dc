-- ===== src/Manifest/Stripped.antt =====
-- Texts that the readers of Manifest/Lines leave as they are, and the written lines of a manifest,
-- for .github/scripts/template_sync_manifest.py.
use Prim.Native.String as Text
use Prim.Native.Char.{Char, code}
use text.Mathlib.TextLemmas.{cons-append, nil-append}
use text.Mathlib.TextEquality.{starts_with_iff}
use template_fastapi.Base.{
  String, Bool, true, false, not, ◌&&◌, List, [], ◌∷◌, ◌==◌, nat_eq, is_empty, ◌<>◌, ◌≡◌, refl, ap,
  ◌∙◌, arith, All, starts_with,
}
use template_fastapi.Manifest.{pattern_in}
use template_fastapi.Manifest.Lines.{
  is_space, is_quote, is_break, split_lines, rstrip_by, lstrip_by, strip_by, begins, before_comment,
}

-- No space and no quote.
abbrev pub is_plain : String → Bool
is_plain Text.[] = true
is_plain (Text.◌∷◌ c s) = not (is_space c) && not (is_quote c) && is_plain s

-- A pattern that needs no quotes.
abbrev pub IsPlain : String → Type 0
IsPlain p = (is_plain p ≡ true) × (is_empty p ≡ false) × (begins b'#' p ≡ false)

abbrev pub item_line : String → String
item_line p = "  - " <> p

-- Each line with its end.
abbrev pub write_lines : List String → String
write_lines [] = ""
write_lines (l ∷ ls) = l <> ("\n" <> write_lines ls)

abbrev pub is_unbroken : String → Bool
is_unbroken Text.[] = true
is_unbroken (Text.◌∷◌ c s) = not (is_break c) && is_unbroken s

pub split-line :
    (l rest : String)
    → is_unbroken l ≡ true
    → split_lines false (l <> ("\n" <> rest)) ≡ l ∷ split_lines false rest
unfolding split_lines
split-line Text.[] rest h =
    ap (split_lines false) (
      nil-append ("\n" <> rest) ∙ (cons-append "\n" "" rest ∙ ap (Text.◌∷◌ "\n") (nil-append rest)))
split-line (Text.◌∷◌ c s) rest h =
    let no_return : (code c == 13) ≡ false = ground arith in
    let no_break : is_break c ≡ false = ground arith in
    rw (cons-append c s ("\n" <> rest), no_break, no_return, split-line s rest (ground arith)) refl

pub split-write_lines :
    (ls : List String)
    → All (λ l. is_unbroken l ≡ true) ls
    → split_lines false (write_lines ls) ≡ ls
unfolding split_lines
split-write_lines [] h = refl
split-write_lines (l ∷ ls) h =
    split-line l (write_lines ls) h.0 ∙ ap (λ x. l ∷ x) (split-write_lines ls h.1)

-- A text without the characters that are stripped stays.
abbrev pub has_none : (Char → Bool) → String → Bool
has_none p Text.[] = true
has_none p (Text.◌∷◌ c s) = not (p c) && has_none p s

pub rstrip-has_none : (p : Char → Bool) (s : String) → has_none p s ≡ true → rstrip_by p s ≡ s
unfolding rstrip_by
rstrip-has_none p Text.[] h = refl
rstrip-has_none p (Text.◌∷◌ c s) h = rw (rstrip-has_none p s (ground arith)) (ground arith)

pub lstrip-has_none : (p : Char → Bool) (s : String) → has_none p s ≡ true → lstrip_by p s ≡ s
unfolding lstrip_by
lstrip-has_none p Text.[] h = refl
lstrip-has_none p (Text.◌∷◌ c s) h = ground arith

pub plain-space : (s : String) → is_plain s ≡ true → has_none is_space s ≡ true
plain-space Text.[] h = refl
plain-space (Text.◌∷◌ c s) h = ground (arith, plain-space s)

pub plain-quote : (s : String) → is_plain s ≡ true → has_none is_quote s ≡ true
plain-quote Text.[] h = refl
plain-quote (Text.◌∷◌ c s) h = ground (arith, plain-quote s)

pub plain-unbroken : (s : String) → is_plain s ≡ true → is_unbroken s ≡ true
plain-unbroken Text.[] h = refl
plain-unbroken (Text.◌∷◌ c s) h = ground (arith, plain-unbroken s)

pub before_comment-plain : (s : String) → is_plain s ≡ true → before_comment s ≡ s
unfolding before_comment
before_comment-plain Text.[] h = refl
before_comment-plain (Text.◌∷◌ c s) h = rw (before_comment-plain s (ground arith)) (ground arith)

-- An item's line, character by character.
abbrev pub spelled : String → String
spelled p = Text.◌∷◌ " " (Text.◌∷◌ " " (Text.◌∷◌ "-" (Text.◌∷◌ " " p)))

pub dash-spelled : (p : String) → ("- " <> p) ≡ Text.◌∷◌ "-" (Text.◌∷◌ " " p)
dash-spelled p =
    cons-append "-" " " p
    ∙ ap (Text.◌∷◌ "-") (cons-append " " "" p ∙ ap (Text.◌∷◌ " ") (nil-append p))

pub item_line-spelled : (p : String) → item_line p ≡ spelled p
item_line-spelled p =
    cons-append " " " - " p
    ∙ ap (Text.◌∷◌ " ") (cons-append " " "- " p ∙ ap (Text.◌∷◌ " ") (dash-spelled p))

pub rstrip-spelled :
    (p : String)
    → is_plain p ≡ true
    → is_empty p ≡ false
    → rstrip_by is_space (spelled p) ≡ spelled p
unfolding rstrip_by
rstrip-spelled p h e = let rest = rstrip-has_none is_space p (plain-space p h) in rw (rest, e) refl

pub before_comment-spelled :
    (p : String)
    → is_plain p ≡ true
    → begins b'#' p ≡ false
    → before_comment (spelled p) ≡ spelled p
unfolding before_comment
before_comment-spelled p h b = rw (b, before_comment-plain p h) refl

pub pattern_in-plain :
    (p : String) → is_plain p ≡ true → pattern_in (Text.◌∷◌ "-" (Text.◌∷◌ " " p)) ≡ p
pattern_in-plain p h =
    rw
      (
        rstrip-has_none is_space p (plain-space p h),
        lstrip-has_none is_space p (plain-space p h),
        rstrip-has_none is_quote p (plain-quote p h),
        lstrip-has_none is_quote p (plain-quote p h),
      )
      refl

pub starts-spelled : (p : String) → starts_with (Text.◌∷◌ "-" (Text.◌∷◌ " " p)) "- " ≡ true
starts-spelled p = (starts_with_iff _ "- ").1 (p, dash-spelled p)

pub strip-spelled :
    (p : String)
    → is_plain p ≡ true
    → is_empty p ≡ false
    → strip_by is_space (spelled p) ≡ Text.◌∷◌ "-" (Text.◌∷◌ " " p)
strip-spelled p h e = ap (lstrip_by is_space) (rstrip-spelled p h e) ∙ unfold lstrip_by in refl
