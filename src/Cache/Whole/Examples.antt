-- ===== src/Cache/Whole/Examples.antt =====
-- A synchronisation of a small cache, with a database that is the map of its lookups.
use mathlib.Core.Option
use gosn_v.Prelude.{
  ◌≡◌, ◌≢◌, refl, ap, sym, String, Bool, true, false, Option, none, some, List, [], ◌∷◌, ◌++◌, not,
  ◌==◌, ◌⊎◌, inl, inr, keep, if◌then◌else◌,
}
use gosn_v.Items.ContentType
use gosn_v.Items.Encryption.Libraries.{plain_libraries}
use gosn_v.Items.Encryption.Examples.{a_json}
use gosn_v.Session.Types.{Session}
use gosn_v.Session.Examples.{a_session}
use gosn_v.Sync.Types.{SyncOutput}
use gosn_v.Cache.Types.{CacheItem}
use gosn_v.Cache.Convert.{cache_item_to_encrypted_item}
use gosn_v.Cache.Store.Database.{Storm, StormLaws, without_dirty, without_date}
use gosn_v.Cache.Store.Views.{View}
use gosn_v.Cache.Token.{SyncToken}
use gosn_v.Cache.Retry.{PushInput}
use gosn_v.Cache.Whole.{SyncStore}
use gosn_v.Cache.Whole.Stages.{TokenLaws}
use gosn_v.Cache.Whole.Calls.{IsCalled}
use gosn_v.Cache.Whole.Synchronised.{result, cache_sync-IsCalled}

record Shelf : Type 0 where
  shown : View
  kept : List CacheItem
  tokens : List SyncToken

abbrev put : CacheItem → Shelf → Shelf
put i db = record db { shown = λ u. if u == i.uuid then some i else db.shown u; kept = i ∷ db.kept }

abbrev take_out : String → Shelf → Shelf
take_out v db = record db {
  shown = λ u. if u == v then none else db.shown u;
  kept = keep (λ i. not (i.uuid == v)) db.kept;
}

abbrev change : (CacheItem → CacheItem) → String → Shelf → Shelf
change f v db = record db { shown = λ u. if u == v then Option.map f (db.shown u) else db.shown u }

abbrev shelf : Storm Shelf
shelf = record {
  begin = λ db. inl db;
  save = λ i db. inl (put i db);
  delete_struct = λ i db. inl (take_out i.uuid db);
  unset_dirty = λ u db. inl (change without_dirty u db);
  unset_dirtied_date = λ u db. inl (change without_date u db);
  commit = λ db. inl db;
  rollback = λ db. none;
  close = λ db. none;
  find_uuid = λ u db. inl (keep (λ i. i.uuid == u) db.kept);
  lookup = λ u db. db.shown u;
}

left_is_left : {E : Type 0} {a b : Shelf} → ◌≡◌ {A = Shelf ⊎ E} (inl a) (inl b) → a ≡ b
left_is_left h = cc h

left_is_not_right : {E : Type 0} {a : Shelf} {e : E} → ◌≢◌ {A = Shelf ⊎ E} (inl a) (inr e)
left_is_not_right h = cc h

found_in : (u : String) {a b : Shelf} → a ≡ b → b.shown u ≡ a.shown u
found_in u h = ap (λ (db : Shelf). db.shown u) (sym h)

shelf-StormLaws : StormLaws shelf
shelf-StormLaws = record {
  lookup-begin = λ u db tx h. found_in u (left_is_left h);
  lookup-commit = λ u tx db h. found_in u (left_is_left h);
  lookup-save = λ u i tx saved h. found_in u (left_is_left h);
  lookup-delete_struct = λ u i tx deleted h. found_in u (left_is_left h);
  delete_struct_missing = λ i tx e h. absurd (left_is_not_right h);
  lookup-unset_dirty = λ u v tx cleaned h. found_in u (left_is_left h);
  unset_dirty_missing = λ u tx e h. absurd (left_is_not_right h);
  lookup-unset_dirtied_date = λ u v tx cleaned h. found_in u (left_is_left h);
  unset_dirtied_date_missing = λ u tx e h. absurd (left_is_not_right h);
}

abbrev shelf_store : SyncStore Shelf
shelf_store = record {
  storm = shelf;
  tokens = record {
    all_tokens = λ db. some db.tokens;
    drop_tokens = λ db. (none, record db { tokens = [] });
  };
  all = λ db. inl db.kept;
  find_dirty = λ db. inl (keep (λ i. i.dirty) db.kept);
  save_token = λ t db. (none, record db { tokens = db.tokens ++ t ∷ [] });
  opens_again = λ db. false;
}

shelf_store-TokenLaws : TokenLaws shelf_store
shelf_store-TokenLaws = record {
  lookup-drop_tokens = λ u db. refl;
  lookup-save_token = λ u t db. refl;
  all_tokens-drop_tokens = λ db h. refl;
  drop_tokens_missing = λ db e h k. refl;
  all_tokens-save_token =
      λ t db h k. ap (λ (ts : Option (List SyncToken)). Option.map (λ ts. ts ++ t ∷ []) ts) h;
}

abbrev a_cached : (uuid : String) (dirty : Bool) → CacheItem
a_cached uuid dirty = record {
  uuid = uuid;
  content = "004:n:c:a";
  content_type = ContentType.note;
  items_key_id = "k1";
  enc_item_key = "004:n:c:a";
  created_at = "";
  updated_at = "";
  duplicate_of = none;
  dirtied_date = 5;
  created_at_timestamp = 1;
  updated_at_timestamp = 1;
  deleted = false;
  dirty = dirty;
}

abbrev start : Shelf
start = record {
  shown = λ u. if u == "n1" then some (a_cached "n1" true) else none;
  kept = a_cached "n1" true ∷ [];
  tokens = record { sync_token = "t1"; created_at = 10 } ∷ [];
}

-- It saves what it is given and has one new note.
abbrev answering : Session → List PushInput → PushInput → SyncOutput ⊎ String
answering s calls input = inl (record {
  items = cache_item_to_encrypted_item (a_cached "n2" false) ∷ [];
  saved_items = input.items;
  unsaved = [];
  conflicts = [];
  sync_token = "t2";
  cursor = "";
})

abbrev unchanged : Session → List PushInput → Session
unchanged s calls = s

cache_sync-IsCalled_example :
    IsCalled shelf_store shelf-StormLaws shelf_store-TokenLaws 20 start
      (result shelf_store shelf-StormLaws shelf_store-TokenLaws plain_libraries a_json answering
        unchanged "/tmp/cache.db" none 20 30 a_session start).1
cache_sync-IsCalled_example =
    cache_sync-IsCalled shelf_store shelf-StormLaws shelf_store-TokenLaws plain_libraries a_json
      answering unchanged "/tmp/cache.db" none 20 30 a_session start
