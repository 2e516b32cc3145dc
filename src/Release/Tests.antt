-- ===== src/Release/Tests.antt =====
-- The release theorems at three tags.
use template_fastapi.Base.{
  ℕ, ◌-◌, List, [], ◌∷◌, true, false, ◌&&◌, leb, if◌then◌else◌, Option, none, some, codes, In, ◌≡◌,
  refl, arith, ok, list_beq,
}
use template_fastapi.Release.{
  Text, rc, ParsedTag, base_key, parse_tag, parse_all, lex_ltb, decimal_onto, take_digits, value,
  number, suffix, skip, max_from,
}
use template_fastapi.Release.Decimal.{IsDigits}
use template_fastapi.Release.Parsing.{tag_text, num_of, parse_tag-tag_text}
use template_fastapi.Release.Channel.{latest_tag_for_channel}
use template_fastapi.Release.Chosen.{IsLatest, latest_tag_for_channel-IsLatest}
use template_fastapi.Release.Next.{
  minor, Release, main, release, bump_base, latest_final_base, greatest,
}
use template_fastapi.Release.Fresh.{IsFresh, main-IsFresh}
use template_fastapi.Release.Newer.{main-newer}
use template_fastapi.Release.Delivered.{latest_tag_for_channel-main}

abbrev ascii_digit : ℕ → Option ℕ
ascii_digit c = if leb 48 c && leb c 57 then some (c - 48) else none

ascii_digit-IsDigits : IsDigits ascii_digit
ascii_digit-IsDigits = record { ascii = λ d l. ground arith; dot = refl; dash = refl }

abbrev tags : List Text
tags = codes "v1.2.0" ∷ codes "nightly" ∷ codes "v1.3.0-rc.1" ∷ []

parse_tag-tag_text_example :
    parse_tag ascii_digit (tag_text (1, 12, 0) (some rc) 3)
    ≡ some (record { base = (1, 12, 0); pre_type = some rc; pre_num = num_of (some rc) 3 })
parse_tag-tag_text_example =
    parse_tag-tag_text ascii_digit ascii_digit-IsDigits (1, 12, 0) (some rc) 3

latest_tag_for_channel-IsLatest_example :
    IsLatest ascii_digit tags none (latest_tag_for_channel ascii_digit tags none)
latest_tag_for_channel-IsLatest_example = latest_tag_for_channel-IsLatest ascii_digit tags none

main-IsFresh_example :
    IsFresh ascii_digit ascii_digit-IsDigits tags
      (some rc)
      (main ascii_digit tags (some minor) (some rc))
main-IsFresh_example = main-IsFresh ascii_digit ascii_digit-IsDigits tags (some minor) (some rc)

abbrev second_rc : Release
second_rc = record { tag = codes "v1.3.0-rc.2"; version = codes "1.3.0-rc.2"; prerelease = true }

main-second_rc : main ascii_digit tags (some minor) (some rc) ≡ ok second_rc
unfolding main release bump_base latest_final_base greatest parse_all parse_tag number suffix skip
    take_digits value max_from decimal_onto lex_ltb list_beq
main-second_rc = refl

main-newer_example :
    (p : ParsedTag) × (parse_tag ascii_digit second_rc.tag ≡ some p)
    × ((t : Text) (q : ParsedTag)
        → In t tags
        → parse_tag ascii_digit t ≡ some q
        → q.pre_type ≡ none
        → lex_ltb (base_key q.base) (base_key p.base) ≡ true)
main-newer_example =
    main-newer ascii_digit ascii_digit-IsDigits tags minor (some rc) second_rc main-second_rc

abbrev minor_release : Release
minor_release = record { tag = codes "v1.3.0"; version = codes "1.3.0"; prerelease = false }

main-minor_release : main ascii_digit tags (some minor) none ≡ ok minor_release
unfolding main release bump_base latest_final_base greatest parse_all parse_tag number suffix skip
    take_digits value max_from decimal_onto lex_ltb list_beq
main-minor_release = refl

latest_tag_for_channel-main_example :
    latest_tag_for_channel ascii_digit (minor_release.tag ∷ tags) none ≡ some minor_release.tag
latest_tag_for_channel-main_example =
    latest_tag_for_channel-main ascii_digit ascii_digit-IsDigits tags (minor_release.tag ∷ tags)
      minor minor_release main-minor_release (λ t. (λ i. i, λ i. i))
