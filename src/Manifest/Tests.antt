-- ===== src/Manifest/Tests.antt =====
-- Patterns and manifests at small inputs.
use template_fastapi.Base.{true, false, ◌≡◌, refl, codes, String, none, some, [], ◌∷◌}
use template_fastapi.Manifest.{Tiers, parse_manifest, check, main}
use template_fastapi.Manifest.Stripped.{write_lines}
use template_fastapi.Manifest.Printed.{ArePlain, manifest_lines, parse_manifest-write_lines}
use template_fastapi.Manifest.Fnmatch.{fnmatch}

digits : fnmatch (codes "docs/adrs/0012-x.md") (codes "docs/adrs/[0-9]*.md") ≡ true
unfolding fnmatch
digits = refl

no_digit : fnmatch (codes "docs/adrs/README.md") (codes "docs/adrs/[0-9]*.md") ≡ false
unfolding fnmatch
no_digit = refl

unclosed : fnmatch (codes "a[b") (codes "a[?") ≡ true
unfolding fnmatch
unclosed = refl

negated : fnmatch (codes "ab") (codes "a[!]-c]") ≡ false
unfolding fnmatch
negated = refl

empty_range : fnmatch (codes "ax") (codes "a[z-a]") ≡ false
unfolding fnmatch
empty_range = refl

abbrev sample : String
sample =
    "# top\nreplace: # first\n  - 'a/b'  \n\n  - docs/\r\nother:\n  - z\nmerge:\n  - \"*.md\" # tail"

sample_tiers : parse_manifest sample ≡ record {
  replace_patterns = "a/b" ∷ "docs/" ∷ [];
  ignore_patterns = [];
  merge_patterns = "*.md" ∷ [];
}
unfolding parse_manifest
sample_tiers = refl

sample_errors :
    check "m" "l" sample
      (some "ignore:\n  - z\nmerge:\n- q")
      ("a/b" ∷ "z" ∷ "docs/x.md" ∷ "docs" ∷ "zz" ∷ [])
    ≡ "l: only the ignore tier is allowed, found merge entries"
      ∷ "docs/x.md: matched by more than one tier (replace, merge)"
      ∷ "zz: not covered by any tier in m" ∷ []
unfolding check
sample_errors = refl

abbrev plain_tiers : Tiers
plain_tiers = record {
  replace_patterns = "docs/" ∷ "src/*.py" ∷ [];
  ignore_patterns = "a#b" ∷ [];
  merge_patterns = "README.md" ∷ [];
}

plain_tiers-ArePlain : ArePlain plain_tiers
plain_tiers-ArePlain = (
  ((refl, refl, refl), ((refl, refl, refl), tt)),
  ((refl, refl, refl), tt),
  ((refl, refl, refl), tt),
)

parse_manifest-write_lines_example :
    parse_manifest (write_lines (manifest_lines plain_tiers)) ≡ plain_tiers
parse_manifest-write_lines_example = parse_manifest-write_lines plain_tiers plain_tiers-ArePlain

sample_status :
    (main (check "m" "l" sample none ("zz" ∷ [])))
    ≡ (1, "::error::zz: not covered by any tier in m" ∷ [])
unfolding main check
sample_status = refl
