-- ===== src/Items/Encryption/RoundTrip.antt =====
-- An item that is encrypted with a key of 32 bytes is decrypted with it.
use gosn_v.Prelude.{ℕ, suc, ◌≡◌, ◌≢◌, refl, String, true, false, none, List, ◌==◌, arith, eq_iff}
use gosn_v.Items.Types.{EncryptedItem, SessionItemsKey}
use gosn_v.Items.References.{get_matching_item}
use gosn_v.Session.Types.{Session, KeyParams}
use gosn_v.Crypto.Libraries.{Primitives, PrimitiveLaws, lacks_char}
use gosn_v.Crypto.{done, and_then, encoded_auth_data, generate_item_key, generate_nonce}
use gosn_v.Crypto.Colons.{joined, split_content-joined, joined_is_not_empty}
use gosn_v.Crypto.Sealed.{
  IsKey, generate_item_key-IsKey, cipher, encrypt_string-IsKey, decrypt_cipher_text-cipher,
  generate_nonce_digits,
}
use gosn_v.Items.Encryption.{PlainItem, unsealed, seal_item, encrypt_item}
use gosn_v.Items.Encryption.Decryption.{
  decryption_key, as_decrypted, decrypt_part, decrypt_item_only, decrypt_item,
}

module _ (p : Primitives) (laws : PrimitiveLaws p) where
  -- What seal_item returns for two keys of 32 bytes.
  abbrev pub sealed :
      EncryptedItem
      → (text item_key key auth : String) → IsKey p item_key
      → IsKey p key
      → (read key_read : ℕ) → EncryptedItem
  sealed e text item_key key auth i k read key_read = record e {
    content = joined (generate_nonce p read) (cipher p laws text item_key i read auth) auth;
    enc_item_key =
        joined (generate_nonce p key_read) (cipher p laws item_key key k key_read auth) auth;
  }

  pub seal_item-IsKey :
      (e : EncryptedItem) (text item_key key auth : String) (i : IsKey p item_key) (k : IsKey p key)
      (read key_read : ℕ)
      → seal_item p e text item_key key auth (generate_nonce p read) (generate_nonce p key_read)
        ≡ done (sealed e text item_key key auth i k read key_read, none)
  unfolding seal_item
  seal_item-IsKey e text item_key key auth i k read key_read =
      rw
        (
          encrypt_string-IsKey p laws text item_key auth i read,
          encrypt_string-IsKey p laws item_key key auth k key_read,
        )
        refl

  decrypt_part-joined :
      (text key auth : String) (k : IsKey p key) (read : ℕ)
      → lacks_char b':' auth ≡ true
      → decrypt_part p
          (joined (generate_nonce p read) (cipher p laws text key k read auth) auth)
          key
        ≡ done text
  unfolding decrypt_part and_then
  decrypt_part-joined text key auth k read h =
      rw
        (split_content-joined (generate_nonce p read) (cipher p laws text key k read auth) auth
          (generate_nonce_digits p laws read) (laws.base64_encode_alphabet _) h)
        (decrypt_cipher_text-cipher p laws text key auth k read)

  pub decrypt_item_only-sealed :
      (e : EncryptedItem) (text item_key key auth : String) (i : IsKey p item_key) (k : IsKey p key)
      (read key_read : ℕ)
      → lacks_char b':' auth ≡ true
      → decrypt_item_only p (sealed e text item_key key auth i k read key_read) key ≡ done text
  unfolding decrypt_item_only and_then
  decrypt_item_only-sealed e text item_key key auth i k read key_read h =
      rw (decrypt_part-joined item_key key auth k key_read h)
        (decrypt_part-joined text item_key auth i read h)

  pub encoded_auth_data_alphabet :
      (ct uuid : String) (kp : KeyParams) → lacks_char b':' (encoded_auth_data p ct uuid kp) ≡ true
  unfolding encoded_auth_data
  encoded_auth_data_alphabet ct uuid kp = laws.base64_encode_alphabet _

  -- An item that is not deleted, encrypted with an items key of 32 bytes that has a UUID: EncryptItem
  -- returns no error, with the fields of the item and the UUID of the key, and DecryptItem returns the
  -- content of the item, if the items keys that it is given have that key under that UUID.
  pub decrypt_item-encrypt_item :
      (item : PlainItem) (ik : SessionItemsKey) (s t : Session) (iks : List SessionItemsKey)
      (read : ℕ)
      → IsKey p ik.items_key
      → ik.uuid ≢ ""
      → ik.items_key ≢ ""
      → item.deleted ≡ false
      → (get_matching_item ik.uuid iks).items_key ≡ ik.items_key
      → (e : EncryptedItem) × (encrypt_item p item ik s read ≡ done (e, none))
        × (record e { content = ""; enc_item_key = "" } ≡ unsealed item ik.uuid)
        × ((e.enc_item_key == "") ≡ false)
        × (decrypt_item p e t iks ≡ done (as_decrypted e item.content))
  unfolding encrypt_item decrypt_item decryption_key and_then
  decrypt_item-encrypt_item item ik s t iks read k named filled_in kept matching =
      let auth = encoded_auth_data p item.content_type item.uuid s.key_params in
      let item_key = generate_item_key p read 64 in
      let i = generate_item_key-IsKey p laws read in
      let e =
        sealed (unsealed item ik.uuid) item.content item_key ik.items_key auth i k (suc read)
          (suc read) in
      let plain = encoded_auth_data_alphabet item.content_type item.uuid s.key_params in
      let has_uuid : (ik.uuid == "") ≡ false = ground (arith, eq_iff ik.uuid "", named) in
      let has_key : (ik.items_key == "") ≡ false =
        ground (arith, eq_iff ik.items_key "", filled_in) in
      (
        e,
        simp has_uuid (
            seal_item-IsKey (unsealed item ik.uuid) item.content item_key ik.items_key auth i k
              (suc read) (suc read)),
        refl,
        joined_is_not_empty (generate_nonce p (suc read))
            (cipher p laws item_key ik.items_key k (suc read) auth) auth,
        simp (kept, matching, has_key)
            (rw
              (decrypt_item_only-sealed (unsealed item ik.uuid) item.content item_key ik.items_key
                auth i k (suc read) (suc read) plain)
              refl),
      )
