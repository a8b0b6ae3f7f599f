-- ===== src/Items/Reading/Keys.antt =====
-- An items key of a session that is encrypted by EncryptItemsKey and read again by
-- DecryptAndParseItemsKeys.
use gosn_v.Prelude.{
  ℕ, ◌≡◌, ◌≢◌, refl, ap, ◌∙◌, String, Bool, true, false, not, ◌&&◌, ◌||◌, none, some, [], ◌∷◌, ◌==◌,
  arith, eq_iff, if◌then◌else◌,
}
use gosn_v.Items.ContentType
use gosn_v.Items.Types.{EncryptedItem, SessionItemsKey, ItemsKey}
use gosn_v.Session.Types.{Session}
use gosn_v.Crypto.Libraries.{Primitives, PrimitiveLaws}
use gosn_v.Crypto.{done}
use gosn_v.Crypto.Sealed.{IsKey}
use gosn_v.Items.Encryption.{ItemsKeyJson, encrypt_items_key}
use gosn_v.Items.Encryption.Decryption.{parsed_key, decrypt_and_parse_item_keys}
use gosn_v.Items.Encryption.KeyRoundTrip.{decrypt_and_parse_item_keys-encrypt_items_key}
use gosn_v.Items.Parsing.{read, crashed}
use gosn_v.Items.Reading.{
  session_items_key, session_items_keys, parse_found_keys, decrypt_and_parse_items_keys,
}

-- encoding/json reads the content of the key as it was written.
pub record IsDecoded (json : ItemsKeyJson) (ik : SessionItemsKey) (f : ItemsKey) : Type 0 where
  pub decoded : json.unmarshal (json.marshal ik.items_key ik.version ik.default) ≡ some f
  pub same_key : f.items_key ≡ ik.items_key
  pub same_version : f.version ≡ ik.version
  pub same_default : f.default ≡ ik.default
  pub kept : f.deleted ≡ false

-- The dates of an update are not those of a new key.
abbrev pub as_sent : (new : Bool) → SessionItemsKey → SessionItemsKey
as_sent new ik = record ik {
  updated_at = if new then "" else ik.updated_at;
  updated_at_timestamp = if new then 0 else ik.updated_at_timestamp;
}

both : (a b : Bool) → a ≡ true → b ≡ false → (a && not b) ≡ true
both a b h k = ground arith

neither : (a b : Bool) → a ≡ false → b ≡ false → ((a || b) || false) ≡ false
neither a b h k = ground arith

decrypt_and_parse_items_keys-one :
    (p : Primitives) (json : ItemsKeyJson) (mk : String) (e : EncryptedItem) (k : ItemsKey)
    → (e.content_type == ContentType.items_key) ≡ true
    → e.deleted ≡ false
    → (e.uuid == "") ≡ false
    → (e.enc_item_key == "") ≡ false
    → decrypt_and_parse_item_keys p json mk (e ∷ []) ≡ done (k ∷ [])
    → decrypt_and_parse_items_keys p json mk (e ∷ []) ≡ read (session_items_key k ∷ [])
unfolding decrypt_and_parse_items_keys parse_found_keys session_items_keys
decrypt_and_parse_items_keys-one p json mk e k typed kept named keyed h =
    ap (parse_found_keys p json mk) (
      ap (λ b. if b then e ∷ [] else [])
        (both (e.content_type == ContentType.items_key) e.deleted typed kept))
    ∙ ap
        (λ b.
          if b
          then crashed
          else session_items_keys (decrypt_and_parse_item_keys p json mk (e ∷ [])))
        (neither (e.uuid == "") (e.enc_item_key == "") named keyed)
    ∙ ap session_items_keys h

module _ (p : Primitives) (laws : PrimitiveLaws p) (json : ItemsKeyJson) where
  -- An items key with a UUID, a key and a time of creation that is not deleted, whose content encoding/json
  -- reads as it wrote it, encrypted with a master key of 32 bytes: EncryptItemsKey returns no error, and
  -- DecryptAndParseItemsKeys returns that key alone, as it was; of a new key the time of the update is not
  -- sent.
  pub decrypt_and_parse_items_keys-encrypt_items_key :
      (ik : SessionItemsKey) (s : Session) (new : Bool) (read_number : ℕ) (f : ItemsKey)
      → IsKey p s.master_key
      → ik.uuid ≢ ""
      → ik.items_key ≢ ""
      → ik.created_at_timestamp ≢ 0
      → ik.deleted ≡ false
      → IsDecoded json ik f
      → (e : EncryptedItem) × (encrypt_items_key p json ik s new read_number ≡ done (e, none))
        × (decrypt_and_parse_items_keys p json s.master_key (e ∷ []) ≡ read (as_sent new ik ∷ []))
  decrypt_and_parse_items_keys-encrypt_items_key ik s new read_number f k named filled_in dated kept
        d =
      let (e, sealed, same, keyed, parsed) =
        decrypt_and_parse_item_keys-encrypt_items_key p laws json ik s new read_number f k named
          filled_in dated d.decoded (rw d.same_key filled_in) in
      (
        e,
        sealed,
        decrypt_and_parse_items_keys-one p json s.master_key e (parsed_key e f)
              (ap (λ (x : EncryptedItem). x.content_type == ContentType.items_key) same)
              (ap (λ (x : EncryptedItem). x.deleted) same ∙ kept)
              (ap (λ (x : EncryptedItem). x.uuid == "") same
                ∙ ground (arith, eq_iff ik.uuid "", named))
              keyed parsed
            ∙ ap (λ (x : EncryptedItem). read (session_items_key (parsed_key x f) ∷ [])) same
            ∙ rw (d.same_key, d.same_version, d.same_default, d.kept, kept) refl,
      )
