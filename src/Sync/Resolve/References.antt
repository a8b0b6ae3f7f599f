-- ===== src/Sync/Resolve/References.antt =====
-- References to items that got a new UUID in a conflict.
use gosn_v.Prelude.{◌≡◌, String, Bool, true, ◌||◌, some, List, [], ◌∷◌, ◌⊎◌, inl, map, ◌==◌}
use gosn_v.Items.ContentType
use gosn_v.Items.Types.{EncryptedItem}
use gosn_v.Sync.Resolve.{ParsedItem, ItemCodec, ResolveError, rename}

-- What is encrypted decrypts to an item with the same references. Of the rest, which the encryption need not keep as
-- it is (the items key and the size are new, other fields are reset), `Keeps` says what stays.
pub record CodecLaws {Rest : Type 0} (codec : ItemCodec Rest) (Keeps : Rest → Rest → Type 0)
    : Type 0 where
  pub kept : (rest : Rest) → Keeps rest rest
  pub decrypt_and_parse-encrypt :
      (di : ParsedItem Rest) (e : EncryptedItem)
      → codec.encrypt di ≡ some e
      → (dj : ParsedItem Rest) × (codec.decrypt_and_parse e ≡ some dj)
        × (dj.uuid ≡ di.uuid)
        × (dj.references ≡ di.references)
        × Keeps di.rest dj.rest

abbrev left : EncryptedItem → EncryptedItem ⊎ ResolveError
left e = inl e

abbrev lefts : List EncryptedItem → List EncryptedItem ⊎ ResolveError
lefts es = inl es

module _ {Rest : Type 0} (codec : ItemCodec Rest) (Keeps : Rest → Rest → Type 0)
    (laws : CodecLaws codec Keeps) (default_key : String) where
  -- An item that the remapping passes over.
  abbrev pub is_exempt : EncryptedItem → Bool
  is_exempt ei = ei.deleted || (ei.content_type == ContentType.items_key)

  -- One item before and after the remapping.
  pub data IsRemapped (ref_map : List (String × String))
      : EncryptedItem → EncryptedItem → Type 0 where
    exempt : {e : EncryptedItem} → is_exempt e ≡ true → IsRemapped ref_map e e
    remapped :
        {e f : EncryptedItem}
        → (di dj : ParsedItem Rest) → codec.decrypt_and_parse e ≡ some di
        → codec.decrypt_and_parse f ≡ some dj
        → dj.uuid ≡ di.uuid
        → dj.references ≡ map (rename ref_map) di.references
        → Keeps di.rest dj.rest
        → IsRemapped ref_map e f

  -- Two lists of the same length, with each item of the one remapped in the other.
  abbrev pub AllRemapped : List (String × String) → List EncryptedItem → List EncryptedItem → Type 0
  AllRemapped ref_map [] [] = Unit
  AllRemapped ref_map [] (f ∷ fs) = ⊥
  AllRemapped ref_map (e ∷ es) [] = ⊥
  AllRemapped ref_map (e ∷ es) (f ∷ fs) = IsRemapped ref_map e f × AllRemapped ref_map es fs
