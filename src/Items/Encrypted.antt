-- ===== src/Items/Encrypted.antt =====
-- The methods of EncryptedItems in items/items.go. A Go map is an association list; the order in
-- which `range` gives its values is an argument, since Go leaves it open.
pub mod Dedupe
use mathlib.Core.List.{Perm}
use text.Mathlib.Text.{starts_with}
use gosn_v.Prelude.{
  String, Bool, true, false, not, ◌&&◌, ◌||◌, Option, none, some, List, [], ◌∷◌, ◌==◌, ltb, keep,
  any, if◌then◌else◌,
}
use gosn_v.Items.ContentType
use gosn_v.Items.Types.{EncryptedItem}

-- The values of a map in the order of some run.
pub record MapOrder : Type 0 where
  pub values : List EncryptedItem → List EncryptedItem
  pub values-perm : (l : List EncryptedItem) → Perm (values l) l

unfoldable pub is_encrypted_type : String → Bool
is_encrypted_type ct =
    if starts_with ct "SF" then false else if ct == ContentType.items_key then false else true

-- EncryptedItems.Validate: the content type and UUID of the item that its error names.
unfoldable pub validate : List EncryptedItem → Option (String × String)
validate [] = none
validate (e ∷ dei) =
    let enc = is_encrypted_type e.content_type in
    let rest = validate dei in
    if e.deleted
    then rest
    else if enc && e.items_key_id == ""
    then rest
    else if enc && e.enc_item_key == ""
    then some (e.content_type, e.uuid)
    else rest

-- uniqueItems[e.UUID] = e, if there is none yet or the one there is older.
unfoldable pub put_newer : EncryptedItem → List EncryptedItem → List EncryptedItem
put_newer e [] = e ∷ []
put_newer e (u ∷ us) =
    let rest = u ∷ put_newer e us in
    if u.uuid == e.uuid
    then (if ltb u.updated_at_timestamp e.updated_at_timestamp then e ∷ us else u ∷ us)
    else rest

-- The loop that fills the map.
unfoldable pub fill : List EncryptedItem → List EncryptedItem → List EncryptedItem
unfolding put_newer
fill unique_items [] = unique_items
fill unique_items (e ∷ eis) = fill (put_newer e unique_items) eis

unfoldable pub dedupe : MapOrder → List EncryptedItem → List EncryptedItem
unfolding fill
dedupe order eis = order.values (fill [] eis)

unfoldable pub remove_unsupported : List EncryptedItem → List EncryptedItem
remove_unsupported eis =
    keep
      (λ i.
        not (any (λ s. i.content_type == s) (ContentType.sf_extension ∷ []))
        && not (starts_with i.content "003"))
      eis

unfoldable pub remove_deleted : List EncryptedItem → List EncryptedItem
remove_deleted eis = keep (λ i. not i.deleted) eis
