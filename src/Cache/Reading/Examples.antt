-- ===== src/Cache/Reading/Examples.antt =====
-- Three items of the cache, of which one is read.
use gosn_v.Prelude.{◌≡◌, refl, String, Bool, true, false, none, some, List, [], ◌∷◌, map}
use gosn_v.Items.ContentType
use gosn_v.Items.Types.{EncryptedItem}
use gosn_v.Items.Encryption.Libraries.{plain_libraries}
use gosn_v.Items.Encryption.Examples.{keyed, in_turn}
use gosn_v.Items.Reading.{decrypt_and_parse}
use gosn_v.Items.Reading.Examples.{one_time, titles}
use gosn_v.Session.Types.{Session}
use gosn_v.Cache.Types.{CacheItem}
use gosn_v.Cache.Convert.{to_cache_item, to_cache_items}
use gosn_v.Cache.Reading.{to_items, to_items-to_cache_items, stripped}

abbrev encrypted : (uuid content : String) → (deleted : Bool) → EncryptedItem
encrypted uuid content deleted = record {
  uuid = uuid;
  items_key_id = "k1";
  content = content;
  content_type = ContentType.note;
  enc_item_key = "004:n:c:a";
  created_at = "";
  updated_at = "";
  duplicate_of = none;
  auth_hash = some "hash";
  updated_with_session = none;
  key_system_identifier = none;
  shared_vault_uuid = none;
  user_uuid = some "user";
  last_edited_by_uuid = none;
  created_at_timestamp = 1;
  updated_at_timestamp = 2;
  deleted = deleted;
}

abbrev three_items : List EncryptedItem
three_items =
    encrypted "n1" "004:n:c:a" false ∷ encrypted "n2" "" true ∷ encrypted "n3" "003:a" false ∷ []

abbrev three_cached : List CacheItem
three_cached = map (to_cache_item 0 true) three_items

all_converted : to_cache_items 0 true three_items ≡ some three_cached
unfolding to_cache_items
all_converted = refl

abbrev ready : Session
ready = record keyed { default_items_key = record keyed.default_items_key { items_key = "key" } }

to_items-to_cache_items_example :
    to_items one_time titles plain_libraries ready in_turn three_cached
    ≡ decrypt_and_parse one_time titles plain_libraries ready in_turn
        (stripped (encrypted "n1" "004:n:c:a" false) ∷ [])
to_items-to_cache_items_example =
    to_items-to_cache_items one_time titles plain_libraries ready in_turn 0 true three_items
      three_cached all_converted refl refl
