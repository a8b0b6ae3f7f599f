-- ===== src/Sync/Guard.antt =====
-- The items that Sync of items/sync.go lets through to the server.
use gosn_v.Prelude.{not, ◌&&◌, List, [], ◌∷◌, ◌==◌, if◌then◌else◌}
use gosn_v.Items.ContentType
use gosn_v.Items.Types.{EncryptedItem}

-- The loop at the start of Sync.
unfoldable pub filtered_items : List EncryptedItem → List EncryptedItem
filtered_items [] = []
filtered_items (item ∷ items) =
    let rest = filtered_items items in
    if (item.content_type == ContentType.items_key) && item.deleted
    then rest
    else if (item.content_type == ContentType.items_key)
        && (not (item.uuid == "") && not (item.updated_at == ""))
    then rest
    else if (item.content_type == ContentType.user_preferences) && item.deleted
    then rest
    else item ∷ rest
