-- ===== src/Items/References.antt =====
-- References between items: UpsertReferences, UpdateItemRefs and GetMatchingItem of items/items.go
-- and items/item.go.
use mathlib.Core.List.{append_assoc, append-nil}
use gosn_v.Prelude.{
  String, Bool, true, false, not, ◌||◌, ◌≡◌, refl, sym, ap, ◌∙◌, List, [], ◌∷◌, ◌++◌, ◌==◌, eq_iff,
  arith, any, any-append, keep, map, if◌then◌else◌, Bool-cases, inl, inr,
}
use gosn_v.Items.Types.{
  ItemReference, ItemReferences, Item, note, tag, component, other, common, SessionItemsKey,
}

-- An entry of a list has the UUID.
abbrev pub has_reference : String → ItemReferences → Bool
has_reference uuid refs = any (λ r. r.uuid == uuid) refs

-- The loop: whether a reference is new is asked of the references that stood there before.
unfoldable pub append_new : ItemReferences → ItemReferences → ItemReferences → ItemReferences
append_new existing res [] = res
append_new existing res (r ∷ new) =
    append_new existing (if has_reference r.uuid existing then res else res ++ r ∷ []) new

unfoldable pub upsert_references : ItemReferences → ItemReferences → ItemReferences
unfolding append_new
upsert_references [] new = new
upsert_references (r ∷ existing) new = append_new (r ∷ existing) (r ∷ existing) new

unfoldable pub reference_to : Item → ItemReference
reference_to i = record {
  uuid = (common i).uuid;
  content_type = (common i).content_type;
  reference_type = "";
}

-- The references of a note or a tag are extended, other items stay as they are.
unfoldable pub update_item : ItemReferences → Item → Item
unfolding upsert_references
update_item refs (note n) = note (record n {
  content = record n.content { item_references = upsert_references n.content.item_references refs };
})
update_item refs (tag t) = tag (record t {
  content = record t.content { item_references = upsert_references t.content.item_references refs };
})
update_item refs (component c) = component c
update_item refs (other o) = other o

unfoldable pub update_item_refs : List Item → List Item → List Item
unfolding reference_to update_item
update_item_refs items to_ref = map (update_item (map reference_to to_ref)) items

-- The items key with a UUID, or the empty one.
unfoldable pub get_matching_item : String → List SessionItemsKey → SessionItemsKey
get_matching_item uuid [] = record {
  uuid = "";
  items_key = "";
  version = "";
  default = false;
  created_at = "";
  updated_at = "";
  created_at_timestamp = 0;
  updated_at_timestamp = 0;
  deleted = false;
}
get_matching_item uuid (ik ∷ iks) =
    let rest = get_matching_item uuid iks in if uuid == ik.uuid then ik else rest

-- The references that the loop adds.
abbrev pub added : ItemReferences → ItemReferences → ItemReferences
added existing new = keep (λ r. not (has_reference r.uuid existing)) new

append_new_lem :
    (existing res new : ItemReferences) → append_new existing res new ≡ res ++ added existing new
unfolding append_new
append_new_lem existing res [] = sym (append-nil res)
append_new_lem existing res (r ∷ new) = elim (Bool-cases (has_reference r.uuid existing)) [
  | inl e ↦ rw (append_new, e) (append_new_lem existing res new)
  | inr e ↦
      rw (append_new, e)
        (append_new_lem existing (res ++ r ∷ []) new
          ∙ append_assoc res (r ∷ []) (added existing new))
]

added_none : (new : ItemReferences) → added [] new ≡ new
added_none [] = refl
added_none (r ∷ new) = ap (λ rs. r ∷ rs) (added_none new)

-- The references that stood there stay in front, in their order, and behind them come the new ones
-- that have none of their UUIDs.
pub upsert_references_lem :
    (existing new : ItemReferences)
    → upsert_references existing new ≡ existing ++ added existing new
unfolding upsert_references
upsert_references_lem [] new = sym (added_none new)
upsert_references_lem (r ∷ existing) new = append_new_lem (r ∷ existing) (r ∷ existing) new

has_reference-added :
    (uuid : String) (existing new : ItemReferences)
    → (has_reference uuid existing || has_reference uuid (added existing new))
      ≡ (has_reference uuid existing || has_reference uuid new)
has_reference-added uuid existing [] = refl
has_reference-added uuid existing (r ∷ new) =
    let same : (r.uuid == uuid) ≡ true
        → has_reference r.uuid existing ≡ has_reference uuid existing =
      λ e. ap (λ u. has_reference u existing) ((eq_iff r.uuid uuid).0 e) in
    let ih = has_reference-added uuid existing new in
    elim (Bool-cases (r.uuid == uuid)) [
      | inl e ↦ let e' = same e in ground (arith, e, e', ih)
      | inr e ↦ ground (arith, e, ih)
    ]

-- An item has_reference to a UUID after UpsertReferences exactly if it did before or a new reference does.
pub has_reference-upsert_references :
    (uuid : String) (existing new : ItemReferences)
    → has_reference uuid (upsert_references existing new)
      ≡ (has_reference uuid existing || has_reference uuid new)
has_reference-upsert_references uuid existing new = rw (upsert_references_lem existing new) (
    any-append (λ r. r.uuid == uuid) existing (added existing new)
    ∙ has_reference-added uuid existing new)

-- The references of an item; those of the other types stay out of reach.
abbrev pub references : Item → ItemReferences
references (note n) = n.content.item_references
references (tag t) = t.content.item_references
references (component c) = c.content.item_references
references (other o) = []

abbrev pub is_note_or_tag : Item → Bool
is_note_or_tag (note n) = true
is_note_or_tag (tag t) = true
is_note_or_tag (component c) = false
is_note_or_tag (other o) = false

references-update_item :
    (refs : ItemReferences) (i : Item)
    → references (update_item refs i)
      ≡ (if is_note_or_tag i then upsert_references (references i) refs else references i)
unfolding update_item
references-update_item refs (note n) = refl
references-update_item refs (tag t) = refl
references-update_item refs (component c) = refl
references-update_item refs (other o) = refl

-- A reference to an item, by its UUID and content type.
abbrev pub refers_to : Item → ItemReference
refers_to i = record {
  uuid = (common i).uuid;
  content_type = (common i).content_type;
  reference_type = "";
}

reference_to-refers_to : (items : List Item) → map reference_to items ≡ map refers_to items
unfolding reference_to
reference_to-refers_to [] = refl
reference_to-refers_to (i ∷ is) = ap (λ rs. refers_to i ∷ rs) (reference_to-refers_to is)

-- UpdateItemRefs leaves the references that each item has in front and in their order; behind them, every note and
-- tag gets a reference to each given item, in their order, whose UUID none of those that it had names. No other item
-- gets any.
pub references-update_item_refs :
    (items to_ref : List Item)
    → map references (update_item_refs items to_ref)
      ≡ map
          (λ i.
            references i
            ++ (if is_note_or_tag i
                then keep (λ r. not (has_reference r.uuid (references i))) (map refers_to to_ref)
                else []))
          items
unfolding update_item_refs
references-update_item_refs [] to_ref = refl
references-update_item_refs (i ∷ is) to_ref =
    let refs = map reference_to to_ref in
    let here = references-update_item refs i in
    let there = upsert_references_lem (references i) refs in
    let same = reference_to-refers_to to_ref in
    let goal : references (update_item refs i) ≡ (
        references i
        ++ (if is_note_or_tag i
            then keep (λ r. not (has_reference r.uuid (references i))) (map refers_to to_ref)
            else [])) =
      elim (Bool-cases (is_note_or_tag i)) [
        | inl e ↦ here ∙ rw e (there ∙ ap (λ rs. references i ++ added (references i) rs) same)
        | inr e ↦ here ∙ rw e (sym (append-nil (references i)))
      ] in
    rw goal (rw (references-update_item_refs is to_ref) refl)
