-- ===== src/Cache/Keys/Merge.antt =====
-- What a merge of two lists of items keys holds.
use gosn_v.Prelude.{
  ◌≡◌, refl, String, true, false, not, Option, none, some, List, [], ◌∷◌, ◌++◌, ◌==◌, map, keep,
  ltb, if◌then◌else◌, arith, eq_iff, Bool-cases, Option-cases, inl, inr,
}
use gosn_v.Items.Types.{SessionItemsKey}
use gosn_v.Cache.Keys.{held_key, has_uuid, merge_items_keys_slices}

-- The first key of a UUID.
abbrev pub find_key : String → List SessionItemsKey → Option SessionItemsKey
find_key u [] = none
find_key u (k ∷ ks) = let rest = find_key u ks in if u == k.uuid then some k else rest

-- Of the key of the session and the other, the one updated last; the session's, where they agree.
abbrev pub newest : (ours theirs : Option SessionItemsKey) → Option SessionItemsKey
newest none theirs = theirs
newest (some s) none = some s
newest (some s) (some a) = some (if ltb s.updated_at_timestamp a.updated_at_timestamp then a else s)

abbrev or_else : (found other : Option SessionItemsKey) → Option SessionItemsKey
or_else none other = other
or_else (some k) other = some k

find_key-append :
    (u : String) (xs ys : List SessionItemsKey)
    → find_key u (xs ++ ys) ≡ or_else (find_key u xs) (find_key u ys)
find_key-append u [] ys = refl
find_key-append u (x ∷ xs) ys = ground (arith, find_key-append u xs ys)

held_key_uuid :
    (s : SessionItemsKey) (another : List SessionItemsKey) → (held_key s another).uuid ≡ s.uuid
unfolding held_key
held_key_uuid s [] = refl
held_key_uuid s (a ∷ rest) = ground (arith, eq_iff a.uuid s.uuid, held_key_uuid s rest)

held_key_lem :
    (s : SessionItemsKey) (another : List SessionItemsKey)
    → some (held_key s another) ≡ newest (some s) (find_key s.uuid another)
unfolding held_key
held_key_lem s [] = refl
held_key_lem s (a ∷ rest) =
    ground (arith, eq_iff a.uuid s.uuid, eq_iff s.uuid a.uuid, held_key_lem s rest)

-- The holding list alone.
abbrev held : Option SessionItemsKey → List SessionItemsKey → Option SessionItemsKey
held none another = none
held (some s) another = newest (some s) (find_key s.uuid another)

find_key-held :
    (u : String) (ours another : List SessionItemsKey)
    → find_key u (map (λ s. held_key s another) ours) ≡ held (find_key u ours) another
unfolding held_key
find_key-held u [] another = refl
find_key-held u (s ∷ ss) another = simp (held_key_uuid s another) (elim (Bool-cases (u == s.uuid)) [
  | inl e ↦ simp e (held_key_lem s another)
  | inr e ↦ simp e (find_key-held u ss another)
])

find_key_uuid :
    (u : String) (ks : List SessionItemsKey) (k : SessionItemsKey)
    → find_key u ks ≡ some k
    → k.uuid ≡ u
find_key_uuid u [] k h = cc
find_key_uuid u (x ∷ xs) k h = ground (arith, eq_iff u x.uuid, find_key_uuid u xs k)

has_uuid_lem :
    (u : String) (ks : List SessionItemsKey)
    → has_uuid u ks ≡ (elim (find_key u ks) [ none ↦ false | some k ↦ true ])
unfolding has_uuid
has_uuid_lem u [] = refl
has_uuid_lem u (k ∷ ks) = ground (arith, has_uuid_lem u ks)

-- What is added of the other list does not concern a UUID that is held, and all of one that is not.
find_key-keep :
    (u : String) (holding another : List SessionItemsKey)
    → has_uuid u holding ≡ false
    → find_key u (keep (λ a. not (has_uuid a.uuid holding)) another) ≡ find_key u another
find_key-keep u holding [] h = refl
find_key-keep u holding (a ∷ rest) h =
    ground (arith, eq_iff u a.uuid, find_key-keep u holding rest h)

newest_found :
    (s : SessionItemsKey) (theirs other : Option SessionItemsKey)
    → or_else (newest (some s) theirs) other ≡ newest (some s) theirs
newest_found s none other = refl
newest_found s (some a) other = refl

-- The merge holds, for each UUID, the key that was updated last of the first one with it in the list
-- of the session and the first in the other list; the session's, where both were updated at the
-- same time, and the only one, where one list has none.
pub merge_items_keys_slices_lem :
    (u : String) (ours another : List SessionItemsKey)
    → find_key u (merge_items_keys_slices ours another)
      ≡ newest (find_key u ours) (find_key u another)
unfolding merge_items_keys_slices
merge_items_keys_slices_lem u ours another =
    let holding = map (λ s. held_key s another) ours in
    let at_holding = find_key-held u ours another in
    rw (find_key-append u holding (keep (λ a. not (has_uuid a.uuid holding)) another), at_holding)
      (elim (Option-cases (find_key u ours)) [
        | inl e ↦
            let lacking : has_uuid u holding ≡ false =
              rw (has_uuid_lem u holding, at_holding, e) refl in
            rw e (find_key-keep u holding another lacking)
        | inr (s, e) ↦ simp (e, find_key_uuid u ours s e) (newest_found s (find_key u another) _)
      ])
