-- ===== src/Items/Reading/RoundTrip.antt =====
-- Items that are encrypted by Items.Encrypt and read again by DecryptAndParse.
use gosn_v.Prelude.{
  ℕ, ◌+◌, ◌≡◌, ◌≢◌, refl, ap, ◌∙◌, false, none, List, [], ◌∷◌, ◌==◌, map, All, arith, eq_iff,
  if◌then◌else◌,
}
use gosn_v.Items.ContentType
use gosn_v.Items.Types.{EncryptedItem, DecryptedItem, SessionItemsKey}
use gosn_v.Items.Encrypted.{validate}
use gosn_v.Items.References.{get_matching_item}
use gosn_v.Session.Types.{Session}
use gosn_v.Crypto.Libraries.{Primitives, PrimitiveLaws}
use gosn_v.Crypto.{Outcome, done, and_then}
use gosn_v.Crypto.Sealed.{IsKey}
use gosn_v.Items.Encryption.{PlainItem, unsealed, encrypt_item, encrypt_items}
use gosn_v.Items.Encryption.Decryption.{
  is_encrypted_with_master_key, decryption_key, as_decrypted, decrypt_item,
  decrypt_items_sequential,
}
use gosn_v.Items.Encryption.RoundTrip.{decrypt_item-encrypt_item}

validate-cons :
    (e : EncryptedItem) (es : List EncryptedItem)
    → (e.enc_item_key == "") ≡ false
    → validate es ≡ none
    → validate (e ∷ es) ≡ none
unfolding validate
validate-cons e es h k = ground arith

-- What DecryptItem makes of an item that was encrypted.
abbrev pub opened : SessionItemsKey → PlainItem → DecryptedItem
opened ik item = as_decrypted (unsealed item ik.uuid) item.content

-- An items key that a session holds.
pub record IsHeld (p : Primitives) (ik : SessionItemsKey) (t : Session) : Type 0 where
  pub is_key : IsKey p ik.items_key
  pub named : ik.uuid ≢ ""
  pub filled_in : ik.items_key ≢ ""
  pub matching : (get_matching_item ik.uuid t.items_keys).items_key ≡ ik.items_key

-- An item that is encrypted under an items key.
abbrev pub IsOrdinary : PlainItem → Type 0
IsOrdinary item = (item.deleted ≡ false) × ((item.content_type == ContentType.items_key) ≡ false)

module _ (p : Primitives) (laws : PrimitiveLaws p) (ik : SessionItemsKey) (s t : Session)
    (held : IsHeld p ik t) where
  -- With no items keys of its own, DecryptItem takes those of the session.
  by_session :
      (e : EncryptedItem)
      → e.items_key_id ≡ ik.uuid
      → (e.content_type == ContentType.items_key) ≡ false
      → decrypt_item p e t [] ≡ decrypt_item p e t t.items_keys
  unfolding decrypt_item decryption_key get_matching_item is_encrypted_with_master_key
  by_session e named other =
      let has_uuid : (e.items_key_id == "") ≡ false =
        rw named (ground (arith, eq_iff ik.uuid "", held.named)) in
      let has_key : ((get_matching_item e.items_key_id t.items_keys).items_key == "") ≡ false =
        rw (named, held.matching) (ground (arith, eq_iff ik.items_key "", held.filled_in)) in
      simp (other, has_uuid, has_key) refl

  open_sealed :
      (item : PlainItem) (read : ℕ)
      → IsOrdinary item
      → (e : EncryptedItem) × (encrypt_item p item ik s read ≡ done (e, none))
        × (e.deleted ≡ false)
        × ((e.enc_item_key == "") ≡ false)
        × (decrypt_item p e t [] ≡ done (opened ik item))
  open_sealed item read (kept, other) =
      let (e, sealed, same, keyed, decrypted) =
        decrypt_item-encrypt_item p laws item ik s t t.items_keys read held.is_key held.named
          held.filled_in kept held.matching in
      let named = ap (λ (x : EncryptedItem). x.items_key_id) same in
      let typed = ap (λ (x : EncryptedItem). x.content_type) same in
      (
        e,
        sealed,
        ap (λ (x : EncryptedItem). x.deleted) same ∙ kept,
        keyed,
        by_session e named (rw typed other)
            ∙ decrypted
            ∙ ap (λ (x : EncryptedItem). done (as_decrypted x item.content)) same,
      )

  encrypt_items-cons :
      (item : PlainItem) (items : List PlainItem) (read : ℕ) (e : EncryptedItem)
      (es : List EncryptedItem)
      → encrypt_item p item ik s read ≡ done (e, none)
      → encrypt_items p s items ik (read + 2) ≡ done (es, none)
      → encrypt_items p s (item ∷ items) ik read ≡ done (e ∷ es, none)
  unfolding encrypt_items and_then
  encrypt_items-cons item items read e [] h k = rw (h, k) refl
  encrypt_items-cons item items read e (f ∷ es) h k = rw (h, k) refl

  decrypt_items_sequential-cons :
      (e : EncryptedItem) (es : List EncryptedItem) (d : DecryptedItem) (ds : List DecryptedItem)
      → e.deleted ≡ false
      → decrypt_item p e t [] ≡ done d
      → decrypt_items_sequential p t es [] ≡ done ds
      → decrypt_items_sequential p t (e ∷ es) [] ≡ done (d ∷ ds)
  unfolding decrypt_items_sequential and_then
  decrypt_items_sequential-cons e es d ds kept h k =
      let next = λ (d : DecryptedItem).
        and_then (decrypt_items_sequential p t es []) (λ ds. done (d ∷ ds)) in
      ap
        (λ b.
          if b then decrypt_items_sequential p t es [] else and_then (decrypt_item p e t []) next)
        kept
      ∙ ap (λ (o : Outcome DecryptedItem). and_then o next) h
      ∙ ap (λ (o : Outcome (List DecryptedItem)). and_then o (λ ds. done (d ∷ ds))) k

  pub open_list :
      (items : List PlainItem) (read : ℕ)
      → All IsOrdinary items
      → (es : List EncryptedItem) × (encrypt_items p s items ik read ≡ done (es, none))
        × (validate es ≡ none)
        × (decrypt_items_sequential p t es [] ≡ done (map (opened ik) items))
  unfolding encrypt_items decrypt_items_sequential and_then validate
  open_list [] read ordinary = ([], refl, refl, refl)
  open_list (item ∷ items) read (here, there) =
      let (e, sealed, kept, keyed, decrypted) = open_sealed item read here in
      let (es, all_sealed, valid, all_open) = open_list items (read + 2) there in
      (
        e ∷ es,
        encrypt_items-cons item items read e es sealed all_sealed,
        validate-cons e es keyed valid,
        decrypt_items_sequential-cons e es (opened ik item) (map (opened ik) items) kept decrypted
            all_open,
      )
