-- ===== src/Filter/Precompiled.antt =====
-- CompileRegexFilters compiles the patterns of filters once, before they are applied.
use gosn_v.Prelude.{
  Bool, true, false, ◌≡◌, refl, none, some, List, [], ◌∷◌, arith, All, ◌==◌, Bool-cases,
  Option-cases, inl, inr, ◌⊎◌,
}
use gosn_v.Items.Types.{Tag, Note}
use gosn_v.Filter.Types.{Compiler, Regex, Filter, regex_of}
use gosn_v.Filter.NoteKeys.{
  apply_note_title_filter, apply_note_text_filter, apply_note_editor_filter,
  apply_note_tag_title_filter, tag_title_loop, apply_note_trashed_filter,
  apply_note_tag_uuid_filter, matches_tag_uuid,
}
use gosn_v.Filter.{
  text_flow, tag_flow, tag_loop, is_last, note_flow, note_loop, apply_tag_filters,
  apply_note_filters, compile_regex_filters,
}

abbrev pub IsFresh : Filter → Type 0
IsFresh f = f.compiled_re ≡ none

-- A filter under the pattern that its value compiles to.
abbrev precompiled : Regex → Filter → Filter
precompiled re f = record f { compiled_re = some re }

module _ (compile : Compiler) (f : Filter) (re : Regex) (fresh : IsFresh f)
    (h : compile f.value ≡ some re) where
  regex_of-precompiled : regex_of compile f ≡ some re
  regex_of-precompiled = rw fresh h

  tag_flow-precompiled :
      (any : Bool) (t : Tag) (m : Bool)
      → tag_flow compile any t m (precompiled re f) ≡ tag_flow compile any t m f
  unfolding tag_flow text_flow
  tag_flow-precompiled any t m = rw regex_of-precompiled refl

  tag_title_loop-precompiled :
      (any : Bool) (n : Note) (tags : List Tag) (matches matched : Bool)
      → tag_title_loop compile (precompiled re f) any n tags matches matched
        ≡ tag_title_loop compile f any n tags matches matched
  unfolding tag_title_loop
  tag_title_loop-precompiled any n [] matches matched = refl
  tag_title_loop-precompiled any n (t ∷ ts) matches matched =
      let ih = tag_title_loop-precompiled any n ts in
      rw (regex_of-precompiled, ih matches false, ih matches matched, ih true true, ih false false)
        refl

  note_flow-precompiled :
      (any : Bool) (n : Note) (tags : List Tag)
      → note_flow compile any n tags (precompiled re f) ≡ note_flow compile any n tags f
  unfolding note_flow apply_note_title_filter apply_note_text_filter apply_note_editor_filter
      apply_note_tag_title_filter apply_note_tag_uuid_filter matches_tag_uuid
      apply_note_trashed_filter
  note_flow-precompiled any n tags =
      rw (regex_of-precompiled, tag_title_loop-precompiled any n tags false false) refl

-- Where every pattern compiles, a filter stays as it is or gets its pattern.
precompiled_cases :
    (compile : Compiler) (f : Filter) (fs : List Filter)
    → (compile_regex_filters compile (f ∷ fs)).1 ≡ true
    → ((compile_regex_filters compile fs).1 ≡ true)
      × (((compile_regex_filters compile (f ∷ fs)).0 ≡ f ∷ (compile_regex_filters compile fs).0)
          ⊎ ((re : Regex) × (compile f.value ≡ some re)
              × ((compile_regex_filters compile (f ∷ fs)).0
                  ≡ precompiled re f ∷ (compile_regex_filters compile fs).0)))
unfolding compile_regex_filters
precompiled_cases compile f fs h = elim (Bool-cases (f.comparison == "~")) [
  | inr other ↦ (rw other at h, inl (rw other refl))
  | inl regex ↦ elim (Option-cases (compile f.value)) [
    | inl refused ↦ let no : false ≡ true = rw (regex, refused) at h in cc
    | inr (re, e) ↦ (rw (regex, e) at h, inr (re, e, rw (regex, e) refl))
  ]
]

module _ (compile : Compiler) (any : Bool) where
  tag_loop-compile_regex_filters :
      (t : Tag) (fs : List Filter) (m : Bool)
      → All IsFresh fs
      → (compile_regex_filters compile fs).1 ≡ true
      → tag_loop compile any t m (compile_regex_filters compile fs).0 ≡ tag_loop compile any t m fs
  unfolding tag_loop
  tag_loop-compile_regex_filters t [] m fresh h = unfold compile_regex_filters in refl
  tag_loop-compile_regex_filters t (f ∷ fs) m fresh h =
      let cases = precompiled_cases compile f fs h in
      let ih : (m' : Bool)
          → tag_loop compile any t m' (compile_regex_filters compile fs).0
            ≡ tag_loop compile any t m' fs =
        λ m'. tag_loop-compile_regex_filters t fs m' fresh.1 cases.0 in
      elim cases.1 [
        | inl same ↦ rw same (ground (arith, ih m, ih true, ih false))
        | inr (re, k, e) ↦
            let flow = tag_flow-precompiled compile f re fresh.0 k any t m in
            rw e (ground (arith, ih m, ih true, ih false, flow))
      ]

  is_last-compile_regex_filters :
      (fs : List Filter)
      → is_last compile any (compile_regex_filters compile fs).0 ≡ is_last compile any fs
  unfolding compile_regex_filters
  is_last-compile_regex_filters [] = refl
  is_last-compile_regex_filters (f ∷ fs) = elim (Bool-cases (f.comparison == "~")) [
    | inr other ↦ rw other refl
    | inl regex ↦ elim (Option-cases (compile f.value)) [
      | inl refused ↦ rw (regex, refused) refl
      | inr (re, e) ↦ rw (regex, e) refl
    ]
  ]

  note_loop-compile_regex_filters :
      (n : Note) (tags : List Tag) (fs : List Filter) (m : Bool)
      → All IsFresh fs
      → (compile_regex_filters compile fs).1 ≡ true
      → note_loop compile any n tags m (compile_regex_filters compile fs).0
        ≡ note_loop compile any n tags m fs
  unfolding note_loop
  note_loop-compile_regex_filters n tags [] m fresh h = unfold compile_regex_filters in refl
  note_loop-compile_regex_filters n tags (f ∷ fs) m fresh h =
      let cases = precompiled_cases compile f fs h in
      let last = is_last-compile_regex_filters fs in
      let ih : (m' : Bool)
          → note_loop compile any n tags m' (compile_regex_filters compile fs).0
            ≡ note_loop compile any n tags m' fs =
        λ m'. note_loop-compile_regex_filters n tags fs m' fresh.1 cases.0 in
      elim cases.1 [
        | inl same ↦ rw same (ground (arith, last, ih m, ih true, ih false))
        | inr (re, k, e) ↦
            let flow = note_flow-precompiled compile f re fresh.0 k any n tags in
            rw e (ground (arith, last, ih m, ih true, ih false, flow))
      ]

  -- Compiling the patterns beforehand, where none is refused, changes the answer for no note.
  pub apply_note_filters-compile_regex_filters :
      (n : Note) (tags : List Tag) (fs : List Filter)
      → All IsFresh fs
      → (compile_regex_filters compile fs).1 ≡ true
      → apply_note_filters compile n
          (record { match_any = any; filters = (compile_regex_filters compile fs).0 })
          tags
        ≡ apply_note_filters compile n (record { match_any = any; filters = fs }) tags
  unfolding apply_note_filters
  apply_note_filters-compile_regex_filters n tags fs fresh h =
      note_loop-compile_regex_filters n tags fs false fresh h

  -- Compiling the patterns beforehand, where none is refused, changes the answer for no tag.
  pub apply_tag_filters-compile_regex_filters :
      (t : Tag) (fs : List Filter)
      → All IsFresh fs
      → (compile_regex_filters compile fs).1 ≡ true
      → apply_tag_filters compile t
          (record { match_any = any; filters = (compile_regex_filters compile fs).0 })
        ≡ apply_tag_filters compile t (record { match_any = any; filters = fs })
  unfolding apply_tag_filters
  apply_tag_filters-compile_regex_filters t fs fresh h =
      tag_loop-compile_regex_filters t fs false fresh h
