-- ===== src/Filter/Surprises.antt =====
-- Where the filters of a note do not do what they mean to.
use gosn_v.Prelude.{String, true, false, ◌≡◌, none, List, [], ◌∷◌, arith, ◌==◌, eq_refl}
use gosn_v.Items.Types.{Note, Tag}
use gosn_v.Filter.Types.{Compiler, Filter, key_is}
use gosn_v.Filter.NoteKeys.{
  apply_note_title_filter, apply_note_tag_uuid_filter, apply_note_tag_title_filter,
  matches_tag_uuid,
}
use gosn_v.Filter.{apply_note_filters}
use gosn_v.Filter.Conjunction.{all_of}
use gosn_v.Filter.Disjunction.{any_of}

-- A filter of notes.
abbrev pub on : String → String → String → Filter
on key comparison value = record {
  type = "Note";
  key = key;
  comparison = comparison;
  value = value;
  compiled_re = none;
}

module _ (compile : Compiler) (n : Note) (tags : List Tag) where
  -- All filters must match, and the first asks for another title: a note that has this very title
  -- passes, if only the UUID matches the filter after it.
  title_ne_ignored :
      n.content.title == "" ≡ false
      → apply_note_filters compile n
          (all_of (on "title" "!=" n.content.title ∷ on "uuid" "==" n.uuid ∷ []))
          tags
        ≡ true
  unfolding apply_note_filters key_is apply_note_title_filter
  title_ne_ignored h = ground (arith, eq_refl n.content.title, eq_refl n.uuid)

  -- Any match is enough, and a filter for another title than the note's comes first: the note does
  -- not pass, although its UUID matches the filter after it.
  pub title_ne_ends :
      n.content.title == "" ≡ false
      → apply_note_filters compile n
          (any_of (on "title" "!=" n.content.title ∷ on "uuid" "==" n.uuid ∷ []))
          tags
        ≡ false
  unfolding apply_note_filters key_is apply_note_title_filter
  title_ne_ends h = ground (arith, eq_refl n.content.title)

  -- All filters must match, and the first asks for a tag UUID that no tag of the note has: the note
  -- passes at once, whatever the filters after it ask for.
  pub tag_uuid_ne_ends :
      (value : String) (rest : List Filter)
      → matches_tag_uuid compile (on "taguuid" "!=" value) false n tags ≡ false
      → apply_note_filters compile n (all_of (on "taguuid" "!=" value ∷ rest)) tags ≡ true
  unfolding apply_note_filters key_is apply_note_tag_uuid_filter
  tag_uuid_ne_ends value rest h = ground (arith)

  -- All filters must match, and one asks for a tag title: if the first tag with a title has another
  -- one, the note does not pass, although a later tag has that title and refers to the note.
  pub tag_title_first :
      (value : String) (t : Tag)
      → t.content.title == "" ≡ false
      → t.content.title == value ≡ false
      → apply_note_filters compile n (all_of (on "tagtitle" "==" value ∷ [])) (t ∷ tags) ≡ false
  unfolding apply_note_filters key_is apply_note_tag_title_filter
  tag_title_first value t h k = ground arith
