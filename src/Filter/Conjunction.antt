-- ===== src/Filter/Conjunction.antt =====
-- Filters of a tag that must all match.
use gosn_v.Prelude.{
  Bool, true, false, not, ◌&&◌, ◌||◌, ◌≡◌, refl, ◌∙◌, ◌≢◌, List, [], ◌∷◌, arith, any, all, String,
  ◌==◌, Bool-cases, inl, inr,
}
use gosn_v.Items.ContentType
use gosn_v.Items.Types.{Tag}
use gosn_v.Filter.Types.{Compiler, Filter, ItemFilters, Flow, return, next, continue, is_for}
use gosn_v.Filter.Meaning.{tag_holds, tag_misses, text_holds, text_misses}
use gosn_v.Filter.{tag_flow, text_flow, tag_loop, apply_tag_filters}

abbrev pub all_of : List Filter → ItemFilters
all_of fs = record { match_any = false; filters = fs }

module _ (compile : Compiler) (f : Filter) (m : Bool) (text : String) where
  text_flow-misses :
      not (text == "") && text_misses compile f text ≡ true
      → text_flow compile f false m text ≡ return false
  unfolding text_flow text_misses
  text_flow-misses h = ground arith

  text_flow-holds :
      not (text == "") && text_holds compile f text ≡ true
      → text_flow compile f false m text ≡ next true
  unfolding text_flow text_holds
  text_flow-holds h = ground arith

module _ (compile : Compiler) (f : Filter) (t : Tag) (m : Bool) where
  tag_flow-misses : tag_misses compile f t ≡ true → tag_flow compile false t m f ≡ return false
  unfolding tag_flow tag_misses
  tag_flow-misses h = ground (arith, text_flow-misses compile f m t.content.title)

  tag_flow-holds : tag_holds compile f t ≡ true → tag_flow compile false t m f ≡ next true
  unfolding tag_flow tag_holds
  tag_flow-holds h = ground (arith, text_flow-holds compile f m t.content.title)

  tag_flow_all : tag_flow compile false t m f ≢ return true
  unfolding tag_flow text_flow
  tag_flow_all h = ground arith

pub continue-false :
    (flow : Flow) (rest : Bool → Bool)
    → flow ≢ return true
    → ((m : Bool) → rest m ≡ false)
    → continue flow rest ≡ false
continue-false (return true) rest h k = absurd (h refl)
continue-false (return false) rest h k = refl
continue-false (next m) rest h k = k m

module _ (compile : Compiler) (t : Tag) where
  tag_loop_misses :
      (fs : List Filter) (m : Bool)
      → any (λ f. is_for ContentType.tag f && tag_misses compile f t) fs ≡ true
      → tag_loop compile false t m fs ≡ false
  unfolding tag_loop
  tag_loop_misses [] m h = cc
  tag_loop_misses (f ∷ fs) m h = elim (Bool-cases (is_for ContentType.tag f)) [
    | inr skip ↦ rw skip (tag_loop_misses fs m (rw skip at h))
    | inl taken ↦ elim (Bool-cases (tag_misses compile f t)) [
      | inl miss ↦ rw (taken, tag_flow-misses compile f t m miss)
      | inr hit ↦ rw taken (
          continue-false (tag_flow compile false t m f) _ (tag_flow_all compile f t m)
            (λ m'. tag_loop_misses fs m' (rw (taken, hit) at h)))
    ]
  ]

  tag_loop_holds :
      (fs : List Filter) (m : Bool)
      → all (λ f. not (is_for ContentType.tag f) || tag_holds compile f t) fs ≡ true
      → tag_loop compile false t m fs ≡ (m || any (is_for ContentType.tag) fs)
  unfolding tag_loop
  tag_loop_holds [] m h = ground arith
  tag_loop_holds (f ∷ fs) m h =
      ground (arith, tag_flow-holds compile f t m, tag_loop_holds fs m, tag_loop_holds fs true)

  -- Where all filters must match, a tag that one of the filters for it misses does not pass,
  -- whatever the other filters say. A filter on the UUID misses every tag with another one; a filter on the title
  -- misses only a tag that has a title, with a comparison that the code knows and, for `~`, a pattern that compiles.
  pub apply_tag_filters-misses :
      (fs : List Filter)
      → any (λ f. is_for ContentType.tag f && tag_misses compile f t) fs ≡ true
      → apply_tag_filters compile t (all_of fs) ≡ false
  unfolding apply_tag_filters
  apply_tag_filters-misses fs h = tag_loop_misses fs false h

  -- Where all filters must match, a tag passes if every filter for it holds and there is one. A filter on the title
  -- holds only at a tag that has a title, also for `!=`, with a comparison that the code knows and a pattern that
  -- compiles; a filter on neither the title nor the UUID always holds.
  pub apply_tag_filters-holds :
      (fs : List Filter)
      → all (λ f. not (is_for ContentType.tag f) || tag_holds compile f t) fs ≡ true
      → any (is_for ContentType.tag) fs ≡ true
      → apply_tag_filters compile t (all_of fs) ≡ true
  unfolding apply_tag_filters
  apply_tag_filters-holds fs h k = tag_loop_holds fs false h ∙ k
