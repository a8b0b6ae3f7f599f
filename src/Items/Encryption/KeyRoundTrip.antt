-- ===== src/Items/Encryption/KeyRoundTrip.antt =====
-- An items key that is encrypted with the master key is read back with it.
use gosn_v.Prelude.{
  ℕ, ◌+◌, ◌≡◌, ◌≢◌, refl, Bool, false, none, some, [], ◌∷◌, ◌==◌, eqb, arith, eq_iff,
}
use gosn_v.Items.ContentType
use gosn_v.Items.Types.{EncryptedItem, ItemsKey, SessionItemsKey}
use gosn_v.Session.Types.{Session}
use gosn_v.Crypto.Libraries.{Primitives, PrimitiveLaws}
use gosn_v.Crypto.{done, and_then, encoded_auth_data, generate_item_key, generate_nonce}
use gosn_v.Crypto.Colons.{joined_is_not_empty}
use gosn_v.Crypto.Sealed.{IsKey, generate_item_key-IsKey, cipher}
use gosn_v.Items.Encryption.{ItemsKeyJson, encrypt_items_key, unsealed_key}
use gosn_v.Items.Encryption.Decryption.{parsed_key, decrypt_and_parse_item_keys}
use gosn_v.Items.Encryption.RoundTrip.{
  sealed, seal_item-IsKey, decrypt_item_only-sealed, encoded_auth_data_alphabet,
}

module _ (p : Primitives) (laws : PrimitiveLaws p) (json : ItemsKeyJson) where
  -- An items key with a UUID, a key and a time of creation, encrypted with a master key of 32 bytes:
  -- EncryptItemsKey returns no error, and DecryptAndParseItemKeys returns the one key that its JSON
  -- decodes to, if that has a key, with the UUID and the dates of the encrypted item, which are those of
  -- the key.
  pub decrypt_and_parse_item_keys-encrypt_items_key :
      (ik : SessionItemsKey) (s : Session) (new : Bool) (read : ℕ) (f : ItemsKey)
      → IsKey p s.master_key
      → ik.uuid ≢ ""
      → ik.items_key ≢ ""
      → ik.created_at_timestamp ≢ 0
      → json.unmarshal (json.marshal ik.items_key ik.version ik.default) ≡ some f
      → f.items_key ≢ ""
      → (e : EncryptedItem) × (encrypt_items_key p json ik s new read ≡ done (e, none))
        × (record e { content = ""; enc_item_key = "" } ≡ unsealed_key p ik new)
        × ((e.enc_item_key == "") ≡ false)
        × (decrypt_and_parse_item_keys p json s.master_key (e ∷ []) ≡ done (parsed_key e f ∷ []))
  unfolding encrypt_items_key decrypt_and_parse_item_keys and_then
  decrypt_and_parse_item_keys-encrypt_items_key ik s new read f k named filled_in dated decoded
        key =
      let auth = encoded_auth_data p ContentType.items_key ik.uuid s.key_params in
      let text = json.marshal ik.items_key ik.version ik.default in
      let item_key = generate_item_key p read 64 in
      let i = generate_item_key-IsKey p laws read in
      let b = unsealed_key p ik new in
      let e = sealed p laws b text item_key s.master_key auth i k (read + 1) (read + 2) in
      let plain = encoded_auth_data_alphabet p laws ContentType.items_key ik.uuid s.key_params in
      let has_uuid : (ik.uuid == "") ≡ false = ground (arith, eq_iff ik.uuid "", named) in
      let has_key : (ik.items_key == "") ≡ false =
        ground (arith, eq_iff ik.items_key "", filled_in) in
      let is_dated : eqb ik.created_at_timestamp 0 ≡ false = ground (arith, dated) in
      let parsed : (f.items_key == "") ≡ false = ground (arith, eq_iff f.items_key "", key) in
      (
        e,
        simp (has_uuid, has_key, is_dated)
            (seal_item-IsKey p laws b text item_key s.master_key auth i k (read + 1) (read + 2)),
        refl,
        joined_is_not_empty (generate_nonce p (read + 2))
            (cipher p laws item_key s.master_key k (read + 2) auth) auth,
        rw
            (
              decrypt_item_only-sealed p laws b text item_key s.master_key auth i k (read + 1)
                  (read + 2) plain,
              decoded,
              parsed,
            )
            refl,
      )
