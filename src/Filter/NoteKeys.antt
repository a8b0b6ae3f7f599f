-- ===== src/Filter/NoteKeys.antt =====
-- The filter functions for one key of a note.
use gosn_v.Prelude.{
  String, Bool, true, false, not, ◌&&◌, ◌||◌, Option, none, some, List, [], ◌∷◌, ◌==◌, any,
  if◌then◌else◌,
}
use gosn_v.Items.Types.{Note, Tag, ItemReferences}
use gosn_v.Filter.Types.{
  Compiler, Regex, Filter, Verdict, carry, finish, settle, contains, regex_of,
}

-- tp != nil && *tp
abbrev pub is_trashed : Option Bool → Bool
is_trashed none = false
is_trashed (some b) = b

-- A tag's references name a note.
abbrev pub refers : String → ItemReferences → Bool
refers uuid refs = any (λ ref. uuid == ref.uuid) refs

abbrev pub matches_regex : Option Regex → String → Bool
matches_regex none text = false
matches_regex (some re) text = re text

abbrev pub compiles : Option Regex → Bool
compiles none = false
compiles (some re) = true

module _ (compile : Compiler) (f : Filter) (match_any : Bool) where
  abbrev pub compare_regex : String → Option Regex → Verdict
  compare_regex text none = carry false
  compare_regex text (some re) = settle match_any (re text)

  unfoldable pub apply_note_editor_filter : Note → Verdict
  apply_note_editor_filter i =
      if i.content.editor_identifier == ""
      then carry false
      else if f.comparison == "~"
      then compare_regex i.content.editor_identifier (regex_of compile f)
      else if f.comparison == "=="
      then settle match_any (i.content.editor_identifier == f.value)
      else if f.comparison == "!="
      then settle match_any (not (i.content.editor_identifier == f.value))
      else if f.comparison == "contains"
      then settle match_any (contains i.content.editor_identifier f.value)
      else carry false

  unfoldable pub apply_note_text_filter : Note → Verdict
  apply_note_text_filter i =
      if i.content.title == ""
      then carry false
      else if f.comparison == "~"
      then compare_regex i.content.text (regex_of compile f)
      else if f.comparison == "=="
      then settle match_any (i.content.text == f.value)
      else if f.comparison == "!="
      then settle match_any (not (i.content.text == f.value))
      else if f.comparison == "contains"
      then settle match_any (contains i.content.text f.value)
      else carry false

  -- Unlike the others, a miss of "!=" returns where any match is enough, and goes on otherwise.
  unfoldable pub apply_note_title_filter : Note → Verdict
  apply_note_title_filter i =
      if i.content.title == ""
      then carry false
      else if f.comparison == "~"
      then compare_regex i.content.title (regex_of compile f)
      else if f.comparison == "=="
      then settle match_any (i.content.title == f.value)
      else if f.comparison == "!="
      then (if not (i.content.title == f.value)
          then (if match_any then finish true else carry true)
          else (if match_any then finish false else carry false))
      else if f.comparison == "contains"
      then settle match_any (contains i.content.title f.value)
      else carry false

  unfoldable pub apply_note_trashed_filter : Note → Verdict
  apply_note_trashed_filter i =
      if f.comparison == "=="
      then settle match_any (is_trashed i.content.trashed)
      else if f.comparison == "!="
      then settle match_any (not (is_trashed i.content.trashed))
      else carry false

  -- The loop over the tags, with `matchesTag` and `matchedAll`. A note that a tag matches stays
  -- matched in the rounds after it.
  abbrev pub tag_round : (matches_tag : Bool) → (Bool → Bool → Verdict) → Verdict
  tag_round matches_tag rest =
      if matches_tag
      then (if match_any then finish true else rest true true)
      else (if not match_any then finish false else rest false false)

  unfoldable pub tag_title_loop : Note → List Tag → (matches_tag matched_all : Bool) → Verdict
  tag_title_loop i [] matches_tag matched_all = carry matched_all
  tag_title_loop i (tag ∷ tags) matches_tag matched_all =
      let re = regex_of compile f in
      let rest = tag_title_loop i tags in
      if tag.content.title == ""
      then rest matches_tag false
      else if f.comparison == "~"
      then (if compiles re
          then tag_round
              (matches_tag
                || matches_regex re tag.content.title && refers i.uuid tag.content.item_references)
              rest
          else rest matches_tag false)
      else if f.comparison == "=="
      then tag_round
          (matches_tag
            || (tag.content.title == f.value) && refers i.uuid tag.content.item_references)
          rest
      else rest matches_tag matched_all

  unfoldable pub apply_note_tag_title_filter : Note → List Tag → Verdict
  unfolding tag_title_loop
  apply_note_tag_title_filter i tags = tag_title_loop i tags false false

  -- The loop over the tags ends at the first with the UUID.
  unfoldable pub matches_tag_uuid : Note → List Tag → Bool
  matches_tag_uuid i [] = false
  matches_tag_uuid i (tag ∷ tags) =
      let rest = matches_tag_uuid i tags in
      if tag.uuid == f.value then refers i.uuid tag.content.item_references else rest

  unfoldable pub apply_note_tag_uuid_filter : Note → List Tag → Verdict
  unfolding matches_tag_uuid
  apply_note_tag_uuid_filter i tags =
      if f.comparison == "=="
      then settle match_any (matches_tag_uuid i tags)
      else if f.comparison == "!="
      then (if matches_tag_uuid i tags
          then (if match_any then finish false else carry false)
          else (if not match_any then finish true else carry true))
      else carry false
