-- ===== src/Sync/Saved.antt =====
-- The times that updateTimestampsOnSavedItems of items/sync.go copies to the items that were saved.
use gosn_v.Prelude.{
  ◌≡◌, ap, ◌∙◌, refl, Option, none, some, List, [], ◌∷◌, ◌++◌, ◌==◌, eq_iff, arith, if◌then◌else◌,
  Bool-cases, inl, inr,
}
use gosn_v.Items.Encrypted.Dedupe.{at, IsKeyed}
use gosn_v.Items.Types.{EncryptedItem}

-- The inner loop of updateTimestampsOnSavedItems: the originals of one saved item.
unfoldable pub updated_for : EncryptedItem → List EncryptedItem → List EncryptedItem
updated_for saved [] = []
updated_for saved (orig ∷ origs) =
    let rest = updated_for saved origs in
    if saved.uuid == orig.uuid
    then (record orig {
      updated_at_timestamp = saved.updated_at_timestamp;
      updated_at = saved.updated_at;
    })
      ∷ rest
    else rest

unfoldable pub update_timestamps_on_saved_items :
    List EncryptedItem → List EncryptedItem → List EncryptedItem
unfolding updated_for
update_timestamps_on_saved_items orig [] = []
update_timestamps_on_saved_items orig (saved ∷ synced) =
    updated_for saved orig ++ update_timestamps_on_saved_items orig synced

-- An original with the times of a saved item.
abbrev pub stamp : EncryptedItem → EncryptedItem → EncryptedItem
stamp saved orig = record orig {
  updated_at_timestamp = saved.updated_at_timestamp;
  updated_at = saved.updated_at;
}

-- A saved item becomes the original with its UUID, under the times of the saved one.
abbrev pub stamped : EncryptedItem → Option EncryptedItem → List EncryptedItem
stamped saved none = []
stamped saved (some orig) = stamp saved orig ∷ []

abbrev pub all_stamped : List EncryptedItem → List EncryptedItem → List EncryptedItem
all_stamped orig [] = []
all_stamped orig (saved ∷ synced) = stamped saved (at saved.uuid orig) ++ all_stamped orig synced

updated_for_lem :
    (saved : EncryptedItem) (orig : List EncryptedItem)
    → IsKeyed orig
    → updated_for saved orig ≡ stamped saved (at saved.uuid orig)
unfolding updated_for at
updated_for_lem saved [] k = refl
updated_for_lem saved (o ∷ os) k = elim (Bool-cases (saved.uuid == o.uuid)) [
  | inl e ↦
      let same = (eq_iff saved.uuid o.uuid).0 e in
      let none_left : updated_for saved os ≡ [] =
        updated_for_lem saved os k.1
        ∙ ap (λ u. stamped saved (at u os)) same
        ∙ ap (stamped saved) k.0 in
      ground (arith, e, none_left, eq_iff saved.uuid o.uuid, eq_iff o.uuid saved.uuid)
  | inr e ↦
      ground
        (arith, e, updated_for_lem saved os k.1, eq_iff saved.uuid o.uuid, eq_iff o.uuid saved.uuid)
]

-- Where no UUID stands twice among the originals, each saved item becomes the original with its
-- UUID under the new times, in the order of the saved ones, and a saved item that has no original
-- is left out.
pub update_timestamps_on_saved_items_lem :
    (orig synced : List EncryptedItem)
    → IsKeyed orig
    → update_timestamps_on_saved_items orig synced ≡ all_stamped orig synced
unfolding update_timestamps_on_saved_items
update_timestamps_on_saved_items_lem orig [] k = refl
update_timestamps_on_saved_items_lem orig (s ∷ ss) k =
    rw (updated_for_lem s orig k) (rw (update_timestamps_on_saved_items_lem orig ss k) refl)
