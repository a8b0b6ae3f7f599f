-- ===== src/Filter/Disjunction.antt =====
-- Filters of a tag of which any match is enough.
use gosn_v.Prelude.{
  Bool, true, false, not, ◌&&◌, ◌||◌, ◌≡◌, ◌≢◌, refl, List, [], ◌∷◌, arith, any, Bool-cases, String,
  ◌==◌, inl, inr,
}
use gosn_v.Items.ContentType
use gosn_v.Items.Types.{Tag}
use gosn_v.Filter.Types.{
  Compiler, Filter, ItemFilters, Flow, return, next, continue, is_for, key_is,
}
use gosn_v.Filter.Meaning.{tag_holds, text_holds}
use gosn_v.Filter.{tag_flow, text_flow, tag_loop, apply_tag_filters}

abbrev pub any_of : List Filter → ItemFilters
any_of fs = record { match_any = true; filters = fs }

-- The filter names a criterion of a tag, and not the type alone.
abbrev pub is_keyed : Filter → Bool
is_keyed f = key_is f.key "title" || key_is f.key "uuid"

module _ (compile : Compiler) (f : Filter) (m : Bool) (text : String) where
  text_flow-holds :
      not (text == "") && text_holds compile f text ≡ true
      → text_flow compile f true m text ≡ return true
  unfolding text_flow text_holds
  text_flow-holds h = ground arith

  text_flow-fails :
      not (text == "") && text_holds compile f text ≡ false
      → text_flow compile f true false text ≡ next false
  unfolding text_flow text_holds
  text_flow-fails h = ground arith

module _ (compile : Compiler) (f : Filter) (t : Tag) (m : Bool) where
  tag_flow-keyed :
      is_keyed f && tag_holds compile f t ≡ true → tag_flow compile true t m f ≡ return true
  unfolding tag_flow tag_holds
  tag_flow-keyed h = ground (arith, text_flow-holds compile f m t.content.title)

  tag_flow_any : tag_flow compile true t m f ≢ return false
  unfolding tag_flow text_flow
  tag_flow_any h = ground arith

module _ (compile : Compiler) (f : Filter) (t : Tag) where
  tag_flow-fails : tag_holds compile f t ≡ false → tag_flow compile true t false f ≡ next false
  unfolding tag_flow tag_holds
  tag_flow-fails h = ground (arith, text_flow-fails compile f false t.content.title)

continue-true :
    (flow : Flow) (rest : Bool → Bool)
    → flow ≢ return false
    → ((m : Bool) → rest m ≡ true)
    → continue flow rest ≡ true
continue-true (return true) rest h k = refl
continue-true (return false) rest h k = absurd (h refl)
continue-true (next m) rest h k = k m

module _ (compile : Compiler) (t : Tag) where
  tag_loop_keyed :
      (fs : List Filter) (m : Bool)
      → any (λ f. is_for ContentType.tag f && (is_keyed f && tag_holds compile f t)) fs ≡ true
      → tag_loop compile true t m fs ≡ true
  unfolding tag_loop
  tag_loop_keyed [] m h = cc
  tag_loop_keyed (f ∷ fs) m h = elim (Bool-cases (is_for ContentType.tag f)) [
    | inr skip ↦ rw skip (tag_loop_keyed fs m (rw skip at h))
    | inl taken ↦ elim (Bool-cases (is_keyed f && tag_holds compile f t)) [
      | inl hit ↦ rw (taken, tag_flow-keyed compile f t m hit)
      | inr miss ↦ rw taken (
          continue-true (tag_flow compile true t m f) _ (tag_flow_any compile f t m)
            (λ m'. tag_loop_keyed fs m' (rw (taken, miss) at h)))
    ]
  ]

  tag_loop_fails :
      (fs : List Filter)
      → any (λ f. is_for ContentType.tag f && tag_holds compile f t) fs ≡ false
      → tag_loop compile true t false fs ≡ false
  unfolding tag_loop
  tag_loop_fails [] h = refl
  tag_loop_fails (f ∷ fs) h = ground (arith, tag_flow-fails compile f t, tag_loop_fails fs)

  -- Where any match is enough, a tag passes if a filter for it with a title or a UUID holds,
  -- wherever it stands among the filters.
  pub apply_tag_filters-any :
      (fs : List Filter)
      → any (λ f. is_for ContentType.tag f && (is_keyed f && tag_holds compile f t)) fs ≡ true
      → apply_tag_filters compile t (any_of fs) ≡ true
  unfolding apply_tag_filters
  apply_tag_filters-any fs h = tag_loop_keyed fs false h

  -- Where any match is enough, a tag does not pass if no filter for it holds.
  pub apply_tag_filters-none :
      (fs : List Filter)
      → any (λ f. is_for ContentType.tag f && tag_holds compile f t) fs ≡ false
      → apply_tag_filters compile t (any_of fs) ≡ false
  unfolding apply_tag_filters
  apply_tag_filters-none fs h = tag_loop_fails fs h
