-- ===== src/Items/Encryption/Parallel.antt =====
-- decryptItemsParallel and DecryptItems of items/itemDecryption.go: the workers' results arrive in some
-- order.
pub mod Order
use mathlib.Core.List.{Permᴰ}
use gosn_v.Prelude.{
  ℕ, zero, suc, ◌+◌, ◌≡◌, refl, Bool, true, false, not, Option, none, some, List, [], ◌∷◌, ltb, eqb,
  length, keep, if◌then◌else◌,
}
use gosn_v.Items.Types.{EncryptedItem, DecryptedItem, SessionItemsKey}
use gosn_v.Session.Types.{Session}
use gosn_v.Crypto.Libraries.{Primitives}
use gosn_v.Crypto.{Outcome, done, failed, panicked, Failure, and_then}
use gosn_v.Items.Encryption.Decryption.{decrypt_item, decrypt_items_sequential}

-- decryptResult: the index of a job and what DecryptItem returns.
pub record DecryptResult : Type 0 where
  pub index : ℕ
  pub outcome : Outcome DecryptedItem

-- decrypted[index] = item, in an array that has none in the places not yet filled.
unfoldable pub put_at :
    ℕ → DecryptedItem → List (Option DecryptedItem) → List (Option DecryptedItem)
put_at i d [] = []
put_at zero d (o ∷ os) = some d ∷ os
put_at (suc i) d (o ∷ os) = o ∷ put_at i d os

-- The loop that collects the results in the order of their arrival.
unfoldable pub collect :
    List DecryptResult → List (Option DecryptedItem) → Outcome (List (Option DecryptedItem))
unfolding put_at and_then
collect [] decrypted = done decrypted
collect (r ∷ results) decrypted =
    and_then r.outcome (λ d. collect results (put_at r.index d decrypted))

abbrev pub empty_slots : ℕ → List (Option DecryptedItem)
empty_slots zero = []
empty_slots (suc n) = none ∷ empty_slots n

-- The zero value of a decrypted item, for a place that is never filled.
abbrev no_item : DecryptedItem
no_item = record {
  uuid = "";
  items_key_id = "";
  content = "";
  content_type = "";
  duplicate_of = "";
  deleted = false;
  created_at = "";
  updated_at = "";
  created_at_timestamp = 0;
  updated_at_timestamp = 0;
  auth_hash = none;
  updated_with_session = none;
  key_system_identifier = none;
  shared_vault_uuid = none;
  user_uuid = none;
  last_edited_by_uuid = none;
}

abbrev pub slot_items : List (Option DecryptedItem) → List DecryptedItem
slot_items [] = []
slot_items (none ∷ os) = no_item ∷ slot_items os
slot_items (some d ∷ os) = d ∷ slot_items os

-- The number of items that are not deleted.
unfoldable pub non_deleted_count : List EncryptedItem → ℕ
non_deleted_count [] = 0
non_deleted_count (e ∷ ei) = let rest = non_deleted_count ei in if e.deleted then rest else suc rest

-- The order in which the results of the workers arrive in some run.
pub record Arrival : Type 0 where
  pub results : List DecryptResult → List DecryptResult
  pub results-perm : (l : List DecryptResult) → Permᴰ l (results l)

module _ (p : Primitives) (s : Session) (iks : List SessionItemsKey) where
  -- The jobs from an index on, each with what a worker makes of it.
  unfoldable pub decrypt_jobs : ℕ → List EncryptedItem → List DecryptResult
  decrypt_jobs index [] = []
  decrypt_jobs index (e ∷ ei) =
      let rest = decrypt_jobs index ei in
      let queued =
        record { index = index; outcome = decrypt_item p e s iks } ∷ decrypt_jobs (suc index) ei in
      if e.deleted then rest else queued

  unfoldable pub decrypt_items_parallel :
      Arrival → List EncryptedItem → ℕ → Outcome (List DecryptedItem)
  unfolding collect decrypt_jobs and_then
  decrypt_items_parallel arrival ei non_deleted =
      and_then (collect (arrival.results (decrypt_jobs 0 ei)) (empty_slots non_deleted))
        (λ decrypted. done (slot_items decrypted))

  unfoldable pub decrypt_items : Arrival → List EncryptedItem → Outcome (List DecryptedItem)
  unfolding non_deleted_count decrypt_items_parallel
  decrypt_items arrival ei =
      let count = non_deleted_count ei in
      if eqb count 0
      then done []
      else if ltb count 50
      then decrypt_items_sequential p s ei iks
      else decrypt_items_parallel arrival ei count
