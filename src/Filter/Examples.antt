-- ===== src/Filter/Examples.antt =====
-- Runs of the filters at small inputs.
use gosn_v.Prelude.{◌≡◌, refl, String, true, false, none, some, List, [], ◌∷◌, ◌==◌, if◌then◌else◌}
use gosn_v.Items.Types.{ItemCommon, AppDataContent, Note, Tag, Item, note, tag, other}
use gosn_v.Filter.Types.{Compiler, Filter, key_is, contains}
use gosn_v.Filter.{apply_note_filters, apply_tag_filters, compile_regex_filters}
use gosn_v.Filter.Meaning.{tag_holds, tag_misses, text_holds, text_misses}
use gosn_v.Filter.Conjunction.{all_of, apply_tag_filters-misses, apply_tag_filters-holds}
use gosn_v.Filter.NoteConjunction.{note_misses, apply_note_filters-misses}
use gosn_v.Filter.Precompiled.{apply_note_filters-compile_regex_filters}
use gosn_v.Filter.Surprises.{on}

-- Every pattern but the empty one stands for its own text.
abbrev literally : Compiler
literally pattern = if pattern == "" then none else some (λ text. text == pattern)

abbrev common_of : (uuid content_type : String) → ItemCommon
common_of uuid content_type = record {
  uuid = uuid;
  items_key_id = "k1";
  encrypted_item_key = "";
  content_type = content_type;
  duplicate_of = "";
  created_at = "";
  updated_at = "";
  auth_hash = none;
  updated_with_session = none;
  key_system_identifier = none;
  shared_vault_uuid = none;
  user_uuid = none;
  last_edited_by_uuid = none;
  conflict_of = none;
  created_at_timestamp = 1;
  updated_at_timestamp = 1;
  content_size = 0;
  deleted = false;
  protected = false;
  trashed = false;
  pinned = false;
  archived = false;
  starred = false;
  locked = false;
}

abbrev no_data : AppDataContent
no_data = record { client_updated_at = ""; prefers_plain_editor = false; pinned = false }

abbrev a_note : Note
a_note = record {
  common = common_of "n1" "Note";
  content = record {
    title = "plan";
    text = "rest";
    item_references = [];
    app_data = no_data;
    preview_plain = "";
    spellcheck = false;
    preview_html = "";
    note_type = "";
    editor_identifier = "";
    trashed = none;
    hide_preview = false;
    editor_width = "";
    authorized_for_listed = false;
  };
}

abbrev a_tag : (uuid title noted : String) → Tag
a_tag uuid title noted = record {
  common = common_of uuid "Tag";
  content = record {
    title = title;
    item_references = record { uuid = noted; content_type = "Note"; reference_type = "" } ∷ [];
    app_data = no_data;
    icon_string = "";
    expanded = false;
    parent_id = "";
  };
}

-- A filter of tags.
abbrev tagged : String → String → String → Filter
tagged key comparison value = record {
  type = "Tag";
  key = key;
  comparison = comparison;
  value = value;
  compiled_re = none;
}

abbrev books : Tag
books = a_tag "t1" "books" "n1"

abbrev title_and_uuid : List Filter
title_and_uuid = tagged "Title" "contains" "book" ∷ tagged "uuid" "==" "t2" ∷ []

apply_tag_filters-misses_example : apply_tag_filters literally books (all_of title_and_uuid) ≡ false
unfolding tag_misses text_misses key_is contains
apply_tag_filters-misses_example = apply_tag_filters-misses literally books title_and_uuid refl

apply_tag_filters-holds_example :
    apply_tag_filters literally books (all_of (tagged "title" "~" "books" ∷ [])) ≡ true
unfolding tag_holds text_holds key_is contains
apply_tag_filters-holds_example =
    apply_tag_filters-holds literally books (tagged "title" "~" "books" ∷ []) refl refl

abbrev title_pattern : List Filter
title_pattern = on "title" "~" "plan" ∷ on "uuid" "==" "n1" ∷ []

apply_note_filters-compile_regex_filters_example :
    apply_note_filters literally a_note
      (record { match_any = false; filters = (compile_regex_filters literally title_pattern).0 })
      []
    ≡ apply_note_filters literally a_note (record { match_any = false; filters = title_pattern }) []
unfolding compile_regex_filters
apply_note_filters-compile_regex_filters_example =
    apply_note_filters-compile_regex_filters literally false a_note [] title_pattern
      (refl, (refl, tt)) refl

apply_note_filters-misses_example :
    apply_note_filters literally a_note
      (all_of (on "title" "==" "plan" ∷ on "text" "contains" "work" ∷ []))
      []
    ≡ false
unfolding note_misses text_misses key_is contains
apply_note_filters-misses_example =
    apply_note_filters-misses literally a_note []
      (on "title" "==" "plan" ∷ on "text" "contains" "work" ∷ []) refl refl

abbrev tagged_items : List Item
tagged_items = note a_note ∷ tag books ∷ other (common_of "x1" "SN|Theme") ∷ []
