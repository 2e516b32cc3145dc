-- ===== src/Release/Channel.antt =====
-- `latest_tag_for_channel` and `cmd_select_tag` of .github/scripts/template_sync.py.
use template_fastapi.Base.{ℕ, List, [], ◌∷◌, Bool, true, false, Option, none, some, keep}
use template_fastapi.Release.{
  Text, PreType, alpha, beta, rc, ParsedTag, sort_key, max_by, parse_tag,
}

-- `p[3] == channel`, where the stable channel is that of no pre-release.
abbrev pub is_in : Option PreType → Option PreType → Bool
is_in none none = true
is_in (some alpha) (some alpha) = true
is_in (some beta) (some beta) = true
is_in (some rc) (some rc) = true
is_in _ _ = false

abbrev pub with_parsed : Text → Option ParsedTag → List (Text × ParsedTag) → List (Text × ParsedTag)
with_parsed t none rest = rest
with_parsed t (some p) rest = (t, p) ∷ rest

abbrev pub tag_of : Option (Text × ParsedTag) → Option Text
tag_of none = none
tag_of (some i) = some i.0

abbrev pub item_key : Text × ParsedTag → List ℕ
item_key i = sort_key i.1

module _ (digit_of : ℕ → Option ℕ) where
  unfoldable pub parsed : List Text → List (Text × ParsedTag)
  parsed [] = []
  parsed (t ∷ ts) = with_parsed t (parse_tag digit_of t) (parsed ts)

  abbrev pub candidates : List Text → Option PreType → List (Text × ParsedTag)
  candidates tags channel = keep (λ i. is_in i.1.pre_type channel) (parsed tags)

  unfoldable pub latest_tag_for_channel : List Text → Option PreType → Option Text
  unfolding parsed
  latest_tag_for_channel tags channel = tag_of (max_by item_key (candidates tags channel))
