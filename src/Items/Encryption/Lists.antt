-- ===== src/Items/Encryption/Lists.antt =====
-- Encryption of lists of items: Items.Encrypt, ReEncryptItem and EncryptedItems.ReEncrypt of
-- items/items.go.
use gosn_v.Prelude.{ℕ, ◌+◌, String, Option, none, some, List, [], ◌∷◌, ◌==◌, map, if◌then◌else◌}
use gosn_v.Items.ContentType
use gosn_v.Items.Types.{Item, common, EncryptedItem, DecryptedItem, ItemsKey, SessionItemsKey}
use gosn_v.Items.Encrypted.{validate}
use gosn_v.Session.Types.{Session}
use gosn_v.Crypto.Libraries.{Primitives}
use gosn_v.Crypto.{Outcome, done, failed, panicked, Failure, and_then}
use gosn_v.Items.Encryption.{PlainItem, Sealing, encrypt_items, encrypt_decrypted_item}
use gosn_v.Items.Encryption.Decryption.{decrypt_item}
use gosn_v.Items.Encryption.Parallel.{Arrival, decrypt_items}

-- What the getters of an item return, with the JSON of its content.
unfoldable pub plain_item : (marshal : Item → String) → Item → PlainItem
plain_item marshal item = record {
  uuid = (common item).uuid;
  content_type = (common item).content_type;
  updated_at = (common item).updated_at;
  created_at = (common item).created_at;
  deleted = (common item).deleted;
  updated_at_timestamp = (common item).updated_at_timestamp;
  created_at_timestamp = (common item).created_at_timestamp;
  content = marshal item;
}

-- An error of an encryption, or the content type and UUID of an item that Validate names.
pub data SealError : Type 0 where
  not_sealed : Failure → SealError
  not_valid : (content_type uuid : String) → SealError
  not_opened : Failure → SealError

abbrev pub seal_error : List EncryptedItem → Option Failure → Option SealError
seal_error e (some f) = some (not_sealed f)
seal_error e none = elim (validate e) [ none ↦ none | some (t, uuid) ↦ some (not_valid t uuid) ]

module _ (p : Primitives) (s : Session) where
  unfoldable pub encrypt :
      (marshal : Item → String)
      → List Item
      → SessionItemsKey
      → (read : ℕ) → Outcome (List EncryptedItem × Option SealError)
  unfolding encrypt_items plain_item validate and_then
  encrypt marshal [] ik read = done ([], none)
  encrypt marshal (i ∷ is) ik read =
      and_then (encrypt_items p s (map (plain_item marshal) (i ∷ is)) ik read)
        (λ (r : List EncryptedItem × Option Failure). done (r.0, seal_error r.0 r.1))

  unfoldable pub re_encrypt_item :
      EncryptedItem → SessionItemsKey → ItemsKey → (read : ℕ) → Outcome Sealing
  unfolding decrypt_item encrypt_decrypted_item and_then
  re_encrypt_item ei decryption_items_key new_items_key read =
      and_then (decrypt_item p ei s (decryption_items_key ∷ []))
        (λ di. encrypt_decrypted_item p di new_items_key s read)

  -- An item that is encrypted, and then the others, if there is no error.
  abbrev seal_next :
      Sealing
      → Outcome (List EncryptedItem × Option SealError)
      → Outcome (List EncryptedItem × Option SealError)
  seal_next (ri, some f) rest = done ([], some (not_sealed f))
  seal_next (ri, none) (done (o, error)) = done (ri ∷ o, error)
  seal_next (ri, none) (failed f) = failed f
  seal_next (ri, none) panicked = panicked

  -- The loop of ReEncrypt: what is encrypted before an error is returned with it.
  unfoldable pub re_encrypt_loop :
      List DecryptedItem → ItemsKey → (read : ℕ) → Outcome (List EncryptedItem × Option SealError)
  unfolding encrypt_decrypted_item and_then
  re_encrypt_loop [] new_items_key read = done ([], none)
  re_encrypt_loop (di ∷ dis) new_items_key read =
      let skip = re_encrypt_loop dis new_items_key read in
      let rest = re_encrypt_loop dis new_items_key (read + 3) in
      let all =
        and_then (encrypt_decrypted_item p di new_items_key s read) (λ ri. seal_next ri rest) in
      if di.content_type == ContentType.items_key then skip else all

  -- ReEncrypt, where all items can be decrypted; otherwise nothing and the error.
  unfoldable pub re_encrypt :
      Arrival
      → List EncryptedItem
      → SessionItemsKey
      → ItemsKey
      → (read : ℕ) → Outcome (List EncryptedItem × Option SealError)
  unfolding decrypt_items re_encrypt_loop
  re_encrypt arrival ei decryption_items_key new_items_key read =
      elim (decrypt_items p s (decryption_items_key ∷ []) arrival ei) [
        | done di ↦ re_encrypt_loop di new_items_key read
        | failed f ↦ done ([], some (not_opened f))
        | panicked ↦ panicked
      ]
