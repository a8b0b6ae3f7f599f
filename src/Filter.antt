-- ===== src/Filter.antt =====
-- items/filter.go: which items of a list pass a set of filters.
pub mod Types
pub mod NoteKeys
pub mod Meaning
pub mod Conjunction
pub mod Disjunction
pub mod NoteConjunction
pub mod Precompiled
pub mod Surprises
mod Examples
use gosn_v.Prelude.{
  String, Bool, true, false, not, ◌&&◌, ◌||◌, Option, none, some, List, [], ◌∷◌, ◌==◌, eqb,
  if◌then◌else◌,
}
use gosn_v.Items.ContentType
use gosn_v.Items.Types.{Note, Tag, Component, Item, note, tag, component, other, common}
use gosn_v.Filter.Types.{
  Compiler, Regex, Filter, ItemFilters, Verdict, Flow, return, next, continue, of_verdict, settled,
  key_is, contains, parse_bool, is_for, regex_of,
}
use gosn_v.Filter.NoteKeys.{
  apply_note_title_filter, apply_note_text_filter, apply_note_editor_filter,
  apply_note_trashed_filter, apply_note_tag_title_filter, apply_note_tag_uuid_filter,
}

-- The comparisons of a text in the loops over the filters of a tag and of a component. A pattern
-- that does not compile and an unknown comparison go on to the next filter.
module _ (compile : Compiler) (f : Filter) (match_any matched_all : Bool) where
  abbrev pub regex_flow : String → Option Regex → Flow
  regex_flow text none = next false
  regex_flow text (some re) = settled match_any (re text)

  unfoldable pub text_flow : String → Flow
  text_flow text =
      if text == ""
      then next false
      else if f.comparison == "~"
      then regex_flow text (regex_of compile f)
      else if f.comparison == "=="
      then settled match_any (text == f.value)
      else if f.comparison == "!="
      then settled match_any (not (text == f.value))
      else if f.comparison == "contains"
      then settled match_any (contains text f.value)
      else next matched_all

module _ (compile : Compiler) (match_any : Bool) where
  -- A round of the loop over the filters of a note, for a filter of its type.
  unfoldable pub note_flow : Note → List Tag → Filter → Flow
  note_flow item tags f =
      if key_is f.key "title"
      then of_verdict (apply_note_title_filter compile f match_any item)
      else if key_is f.key "text"
      then of_verdict (apply_note_text_filter compile f match_any item)
      else if key_is f.key "editor"
      then of_verdict (apply_note_editor_filter compile f match_any item)
      else if key_is f.key "trash"
      then of_verdict (apply_note_trashed_filter compile f match_any item)
      else if key_is f.key "tagtitle"
      then of_verdict (apply_note_tag_title_filter compile f match_any item tags)
      else if key_is f.key "taguuid"
      then of_verdict (apply_note_tag_uuid_filter compile f match_any item tags)
      else if key_is f.key "uuid"
      then settled match_any (item.uuid == f.value)
      else if key_is f.key "duplicateof"
      then settled match_any (item.duplicate_of == f.value)
      else if key_is f.key "deleted"
      then settled match_any (if parse_bool f.value then item.deleted else not item.deleted)
      else next true

  abbrev pub is_last : List Filter → Bool
  is_last [] = true
  is_last (f ∷ fs) = false

  -- `matchedAll` goes through the loop; at the last filter it is returned if it holds.
  note_loop : Note → List Tag → Bool → List Filter → Bool
  note_loop item tags matched_all [] = matched_all
  note_loop item tags matched_all (f ∷ fs) =
      let skipped = note_loop item tags matched_all fs in
      let taken =
        continue (note_flow item tags f)
          (λ matched. (matched && is_last fs) || note_loop item tags matched fs) in
      if not (is_for ContentType.note f) then skipped else taken

  unfoldable pub tag_flow : Tag → Bool → Filter → Flow
  tag_flow item matched_all f =
      if key_is f.key "title"
      then text_flow compile f match_any matched_all item.content.title
      else if key_is f.key "uuid"
      then settled match_any (item.uuid == f.value)
      else next true

  tag_loop : Tag → Bool → List Filter → Bool
  tag_loop item matched_all [] = matched_all
  tag_loop item matched_all (f ∷ fs) =
      let skipped = tag_loop item matched_all fs in
      let taken = continue (tag_flow item matched_all f) (λ matched. tag_loop item matched fs) in
      if not (is_for ContentType.tag f) then skipped else taken

  -- content.Active.(bool) panics where the JSON holds no Boolean: none.
  abbrev active_flow : Option Bool → Filter → Option Flow
  active_flow none f = none
  active_flow (some active) f =
      some (settled match_any (if parse_bool f.value then active else not active))

  unfoldable pub component_flow : Component → Bool → Filter → Option Flow
  component_flow item matched_all f =
      if key_is f.key "name"
      then some (text_flow compile f match_any matched_all item.content.name)
      else if key_is f.key "uuid"
      then some (settled match_any (item.uuid == f.value))
      else if key_is f.key "active"
      then active_flow item.content.active f
      else some (next true)

  component_loop : Component → Bool → List Filter → Option Bool
  component_loop item matched_all [] = some matched_all
  component_loop item matched_all (f ∷ fs) =
      let skipped = component_loop item matched_all fs in
      let taken : Option Bool = elim (component_flow item matched_all f) [
        | none ↦ none
        | some (return result) ↦ some result
        | some (next matched) ↦ component_loop item matched fs
      ] in
      if not (is_for ContentType.component f) then skipped else taken

  any_type_loop : Item → Bool → List Filter → Bool
  any_type_loop item matched_all [] = matched_all
  any_type_loop item matched_all (f ∷ fs) =
      let taken =
        continue (settled match_any ((common item).uuid == f.value))
          (λ matched. any_type_loop item matched fs) in
      let skipped = any_type_loop item false fs in if key_is f.key "uuid" then taken else skipped

unfoldable pub apply_note_filters : Compiler → Note → ItemFilters → List Tag → Bool
unfolding note_loop note_flow key_is parse_bool
apply_note_filters compile item fs tags = note_loop compile fs.match_any item tags false fs.filters

unfoldable pub apply_tag_filters : Compiler → Tag → ItemFilters → Bool
unfolding tag_loop tag_flow text_flow key_is
apply_tag_filters compile item fs = tag_loop compile fs.match_any item false fs.filters

unfoldable pub apply_component_filters : Compiler → Component → ItemFilters → Option Bool
unfolding component_loop component_flow text_flow key_is parse_bool
apply_component_filters compile item fs = component_loop compile fs.match_any item false fs.filters

unfoldable pub apply_any_type_filters : Compiler → Item → ItemFilters → Bool
unfolding any_type_loop key_is
apply_any_type_filters compile item fs = any_type_loop compile fs.match_any item false fs.filters

abbrev pub tags_of : List Item → List Tag
tags_of [] = []
tags_of (tag t ∷ items) = t ∷ tags_of items
tags_of (note n ∷ items) = tags_of items
tags_of (component c ∷ items) = tags_of items
tags_of (other o ∷ items) = tags_of items

module _ (compile : Compiler) (fs : ItemFilters) where
  unfoldable pub passes : List Tag → Item → Option Bool
  unfolding apply_note_filters apply_tag_filters apply_component_filters apply_any_type_filters
  passes tags (note n) = some (apply_note_filters compile n fs tags)
  passes tags (tag t) = some (apply_tag_filters compile t fs)
  passes tags (component c) = apply_component_filters compile c fs
  passes tags (other o) = some (apply_any_type_filters compile (other o) fs)

  abbrev pub append_found : Option Bool → Item → Option (List Item) → Option (List Item)
  append_found none item rest = none
  append_found (some found) item none = none
  append_found (some found) item (some rest) = some (if found then item ∷ rest else rest)

  unfoldable pub filter_items : List Tag → List Item → Option (List Item)
  unfolding passes
  filter_items tags [] = some []
  filter_items tags (item ∷ items) = append_found (passes tags item) item (filter_items tags items)

  -- Items.Filter, none for a panic.
  unfoldable pub filter : List Item → Option (List Item)
  unfolding filter_items
  filter items = filter_items (tags_of items) items

  -- Items.FilterAllTypes
  pub filter_all_types : List Item → List Item
  unfolding apply_any_type_filters
  filter_all_types [] = []
  filter_all_types (item ∷ items) =
      let rest = filter_all_types items in
      if apply_any_type_filters compile item fs then item ∷ rest else rest

-- CompileRegexFilters: the filters that it leaves, and whether it returns without an error. The first
-- pattern that is refused ends it; the filters before that one stay compiled.
unfoldable pub compile_regex_filters : Compiler → List Filter → List Filter × Bool
compile_regex_filters compile [] = ([], true)
compile_regex_filters compile (f ∷ fs) =
    let (gs, done) = compile_regex_filters compile fs in
    if f.comparison == "~"
    then elim (compile f.value) [
      | none ↦ (f ∷ fs, false)
      | some re ↦ (record f { compiled_re = some re } ∷ gs, done)
    ]
    else (f ∷ gs, done)
