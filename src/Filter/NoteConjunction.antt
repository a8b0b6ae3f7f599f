-- ===== src/Filter/NoteConjunction.antt =====
-- Filters of a note that must all match.
use gosn_v.Prelude.{
  Bool, true, false, not, ◌&&◌, ◌||◌, ◌≡◌, ◌≢◌, refl, List, [], ◌∷◌, ◌==◌, arith, any,
  if◌then◌else◌, Bool-cases, inl, inr,
}
use gosn_v.Items.ContentType
use gosn_v.Items.Types.{Note, Tag}
use gosn_v.Filter.Types.{
  Compiler, Filter, Verdict, of_verdict, regex_of, return, is_for, key_is, parse_bool,
}
use gosn_v.Filter.NoteKeys.{
  is_trashed, apply_note_title_filter, apply_note_text_filter, apply_note_editor_filter,
  apply_note_trashed_filter, apply_note_tag_title_filter, apply_note_tag_uuid_filter,
  tag_title_loop, tag_round, compiles,
}
use gosn_v.Filter.Meaning.{text_misses}
use gosn_v.Filter.Conjunction.{all_of, continue-false}
use gosn_v.Filter.{note_flow, note_loop, is_last, apply_note_filters}

-- What a filter on a criterion of the note itself misses. A filter on the text misses no note without
-- a title; titles and tags are left out.
unfoldable pub note_misses : Compiler → Note → Filter → Bool
note_misses compile n f =
    if key_is f.key "title"
    then false
    else if key_is f.key "text"
    then not (n.content.title == "") && text_misses compile f n.content.text
    else if key_is f.key "editor"
    then not (n.content.editor_identifier == "")
      && text_misses compile f n.content.editor_identifier
    else if key_is f.key "trash"
    then (if f.comparison == "=="
        then not (is_trashed n.content.trashed)
        else (f.comparison == "!=") && is_trashed n.content.trashed)
    else if key_is f.key "tagtitle"
    then false
    else if key_is f.key "taguuid"
    then false
    else if key_is f.key "uuid"
    then not (n.uuid == f.value)
    else if key_is f.key "duplicateof"
    then not (n.duplicate_of == f.value)
    else key_is f.key "deleted" && (if parse_bool f.value then not n.deleted else n.deleted)

abbrev pub is_tag_uuid_ne : Filter → Bool
is_tag_uuid_ne f = key_is f.key "taguuid" && f.comparison == "!="

module _ (compile : Compiler) (f : Filter) (n : Note) where
  text_filter-misses :
      not (n.content.title == "") && text_misses compile f n.content.text ≡ true
      → of_verdict (apply_note_text_filter compile f false n) ≡ return false
  unfolding text_misses apply_note_text_filter
  text_filter-misses h = ground arith

  editor_filter-misses :
      not (n.content.editor_identifier == "") && text_misses compile f n.content.editor_identifier
        ≡ true
      → of_verdict (apply_note_editor_filter compile f false n) ≡ return false
  unfolding text_misses apply_note_editor_filter
  editor_filter-misses h = ground arith

  trashed_filter-misses :
      (if f.comparison == "=="
          then not (is_trashed n.content.trashed)
          else (f.comparison == "!=") && is_trashed n.content.trashed)
        ≡ true
      → of_verdict (apply_note_trashed_filter compile f false n) ≡ return false
  unfolding apply_note_trashed_filter
  trashed_filter-misses h = ground arith

  note_flow-misses :
      (tags : List Tag)
      → note_misses compile n f ≡ true
      → note_flow compile false n tags f ≡ return false
  unfolding note_flow note_misses
  note_flow-misses tags h =
      ground (arith, text_filter-misses, editor_filter-misses, trashed_filter-misses)

  -- The functions for one key do not let a note pass at once, but for one.
  title_filter-all : of_verdict (apply_note_title_filter compile f false n) ≢ return true
  unfolding apply_note_title_filter
  title_filter-all h = ground arith

  text_filter-all : of_verdict (apply_note_text_filter compile f false n) ≢ return true
  unfolding apply_note_text_filter
  text_filter-all h = ground arith

  editor_filter-all : of_verdict (apply_note_editor_filter compile f false n) ≢ return true
  unfolding apply_note_editor_filter
  editor_filter-all h = ground arith

  trashed_filter-all : of_verdict (apply_note_trashed_filter compile f false n) ≢ return true
  unfolding apply_note_trashed_filter
  trashed_filter-all h = ground arith

  tag_uuid_filter-all :
      (tags : List Tag)
      → (f.comparison == "!=") ≡ false
      → of_verdict (apply_note_tag_uuid_filter compile f false n tags) ≢ return true
  unfolding apply_note_tag_uuid_filter
  tag_uuid_filter-all tags h k = ground arith

  tag_round-result :
      (matches : Bool) (rest : Bool → Bool → Verdict)
      → ((a b : Bool) → (rest a b).result ≡ false)
      → (tag_round compile f false matches rest).result ≡ false
  tag_round-result true rest h = h true true
  tag_round-result false rest h = refl

  tag_title_loop-result :
      (ts : List Tag) (matches matched : Bool)
      → (tag_title_loop compile f false n ts matches matched).result ≡ false
  unfolding tag_title_loop
  tag_title_loop-result [] matches matched = refl
  tag_title_loop-result (t ∷ ts) matches matched =
      let ih : (a b : Bool) → (tag_title_loop compile f false n ts a b).result ≡ false =
        tag_title_loop-result ts in
      let rest = tag_title_loop compile f false n ts in
      elim (Bool-cases (t.content.title == "")) [
        | inl e ↦ rw e (ih matches false)
        | inr e ↦ elim (Bool-cases (f.comparison == "~")) [
          | inl c ↦ elim (Bool-cases (compiles (regex_of compile f))) [
            | inl k ↦ rw (e, c, k) (tag_round-result _ rest ih)
            | inr k ↦ rw (e, c, k) (ih matches false)
          ]
          | inr c ↦ elim (Bool-cases (f.comparison == "==")) [
            | inl k ↦ rw (e, c, k) (tag_round-result _ rest ih)
            | inr k ↦ rw (e, c, k) (ih matches matched)
          ]
        ]
      ]

  of_verdict_result : (v : Verdict) → v.result ≡ false → of_verdict v ≢ return true
  of_verdict_result v h k = ground arith

  tag_title_filter-all :
      (tags : List Tag)
      → of_verdict (apply_note_tag_title_filter compile f false n tags) ≢ return true
  unfolding apply_note_tag_title_filter
  tag_title_filter-all tags =
      of_verdict_result (tag_title_loop compile f false n tags false false)
        (tag_title_loop-result tags false false)

  note_flow-all :
      (tags : List Tag) → is_tag_uuid_ne f ≡ false → note_flow compile false n tags f ≢ return true
  unfolding note_flow
  note_flow-all tags h k = ground (
    arith,
    title_filter-all,
    text_filter-all,
    editor_filter-all,
    trashed_filter-all,
    tag_title_filter-all tags,
    tag_uuid_filter-all tags,
  )

module _ (compile : Compiler) (n : Note) (tags : List Tag) where
  goes_on-misses :
      (fs : List Filter) (m : Bool)
      → any (λ f. is_for ContentType.note f && note_misses compile n f) fs ≡ true
      → note_loop compile false n tags m fs ≡ false
      → ((m && is_last compile false fs) || note_loop compile false n tags m fs) ≡ false
  goes_on-misses [] m h k = cc
  goes_on-misses (f ∷ fs) m h k = ground (arith, k)

  note_loop-misses :
      (fs : List Filter) (m : Bool)
      → any (λ f. is_for ContentType.note f && note_misses compile n f) fs ≡ true
      → any is_tag_uuid_ne fs ≡ false
      → note_loop compile false n tags m fs ≡ false
  unfolding note_loop
  note_loop-misses [] m h k = cc
  note_loop-misses (f ∷ fs) m h k =
      let others : any is_tag_uuid_ne fs ≡ false = ground arith in
      let plain : is_tag_uuid_ne f ≡ false = ground arith in
      elim (Bool-cases (is_for ContentType.note f)) [
        | inr skip ↦ rw skip (note_loop-misses fs m (rw skip at h) others)
        | inl taken ↦ elim (Bool-cases (note_misses compile n f)) [
          | inl miss ↦ rw (taken, note_flow-misses compile f n tags miss)
          | inr hit ↦
              let later = rw (taken, hit) at h in
              rw taken (
                continue-false (note_flow compile false n tags f) _
                  (note_flow-all compile f n tags plain)
                  (λ m'. goes_on-misses fs m' later (note_loop-misses fs m' later others)))
        ]
      ]

  -- Where all filters must match and none asks for a note without a tag UUID, a note that one of the
  -- filters for it misses by its text, editor, trash, UUID, original or deletion does not pass,
  -- whatever the other filters say. A filter on the text misses only a note that has a title, one on the editor only
  -- a note that has an editor, both with a comparison that the code knows and, for `~`, a pattern that compiles.
  pub apply_note_filters-misses :
      (fs : List Filter)
      → any (λ f. is_for ContentType.note f && note_misses compile n f) fs ≡ true
      → any is_tag_uuid_ne fs ≡ false
      → apply_note_filters compile n (all_of fs) tags ≡ false
  unfolding apply_note_filters
  apply_note_filters-misses fs h k = note_loop-misses fs false h k
