-- ===== src/Sync/State.antt =====
-- The state file and `cmd_select_tag` of .github/scripts/template_sync.py. A run is its exit status
-- and its lines on stdout. The text of JSON is the library's: `loads` is none where it raises,
-- `dumps` prints with an indentation, and `str_of` is the `str` of a value that is no text.
use template_fastapi.Base.{
  ℕ, String, not, Option, none, some, List, [], ◌∷◌, if◌then◌else◌, ◌<>◌, is_nil, ◌≡◌, ap, keep,
  map,
}
use template_fastapi.Base.Json.{Json, str, obj, Members, member, end}
use template_fastapi.Manifest.Lines.{is_space_code}
use template_fastapi.Release.{Text, PreType}
use template_fastapi.Release.Channel.{latest_tag_for_channel}

abbrev pub lstrip : Text → Text
lstrip [] = []
lstrip (c ∷ s) = if is_space_code c then lstrip s else c ∷ s

abbrev pub rstrip : Text → Text
rstrip [] = []
rstrip (c ∷ s) =
    let rest = rstrip s in
    if is_nil rest then (if is_space_code c then [] else c ∷ []) else c ∷ rest

-- The lines of stdin without their spaces, but for empty ones.
unfoldable pub tags_of : List Text → List Text
tags_of lines = keep (λ t. not (is_nil t)) (map (λ l. lstrip (rstrip l)) lines)

abbrev pub selected : Option Text → ℕ × Option Text
selected none = (1, none)
selected (some tag) = (0, some tag)

-- The exit status, and the tag of `tag=` where it is printed.
unfoldable pub cmd_select_tag : (ℕ → Option ℕ) → List Text → Option PreType → ℕ × Option Text
unfolding tags_of
cmd_select_tag digit_of lines channel =
    selected (latest_tag_for_channel digit_of (tags_of lines) channel)

module _ (loads : String → Option Json) (dumps : Json → String) (str_of : Json → String) where
  -- What is read: no file, a file that raises, or a value.
  pub data State : Type 0 where
    no_file : State
    raised : State
    state : Json → State

  abbrev pub loaded : Option Json → State
  loaded none = raised
  loaded (some v) = state v

  unfoldable pub read_state : Option String → State
  read_state none = no_file
  read_state (some text) = loaded (loads text)

  abbrev pub state_of : String → String → Json
  state_of template_repo synced_tag =
      obj (member "template_repo" (str template_repo) (member "synced_tag" (str synced_tag) end))

  -- The text of the state file.
  unfoldable pub write_state : String → String → String
  write_state template_repo synced_tag = dumps (state_of template_repo synced_tag) <> "\n"

  abbrev pub text_of : Json → String
  text_of (str s) = s
  text_of v = str_of v

  abbrev pub lines_of : Members → List String
  lines_of end = []
  lines_of (member key v rest) = (key <> ("=" <> text_of v)) ∷ lines_of rest

  -- A file that is no JSON object raises, which exits 1 as well.
  abbrev pub printed : State → ℕ × List String
  printed (state (obj ms)) = (0, lines_of ms)
  printed _ = (1, [])

  unfoldable pub cmd_read_state : Option String → ℕ × List String
  unfolding read_state
  cmd_read_state file = printed (read_state file)

  -- The exit status, and the text that then stands in the file.
  unfoldable pub cmd_write_state : String → String → ℕ × String
  unfolding write_state
  cmd_write_state template_repo synced_tag = (0, write_state template_repo synced_tag)

  -- If a value that was printed is read back, with a newline after it, then the fields that were
  -- written are printed as they were given.
  pub cmd_read_state-cmd_write_state :
      ((v : Json) → loads (dumps v <> "\n") ≡ some v)
      → (template_repo synced_tag : String)
      → cmd_read_state (some (cmd_write_state template_repo synced_tag).1) ≡ (
        0,
        ("template_repo" <> ("=" <> template_repo)) ∷ ("synced_tag" <> ("=" <> synced_tag)) ∷ [],
      )
  unfolding cmd_read_state cmd_write_state
  cmd_read_state-cmd_write_state h template_repo synced_tag =
      ap (λ o. printed (loaded o)) (h (state_of template_repo synced_tag))
