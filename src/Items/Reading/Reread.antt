-- ===== src/Items/Reading/Reread.antt =====
-- What is left of an item that is encrypted and read again.
use Prim.Native.String.{len}
use gosn_v.Prelude.{
  ℕ, ◌≡◌, refl, ap, ◌∙◌, String, Bool, true, false, Option, none, some, List, [], ◌∷◌, ◌==◌, map,
  All, arith, if◌then◌else◌, sym, ◌||◌, Bool-cases, inl, inr, any-append,
}
use gosn_v.Items.ContentType
use gosn_v.Items.Types.{
  ItemCommon, NoteContent, TagContent, ComponentContent, DecryptedItem, Item, note, tag, component,
  other, common, EncryptedItem, SessionItemsKey,
}
use gosn_v.Session.Types.{Session}
use gosn_v.Crypto.Libraries.{Primitives, PrimitiveLaws}
use gosn_v.Crypto.{Outcome, done, Failure, and_then}
use gosn_v.Items.Encryption.{encrypt_items}
use gosn_v.Items.Encrypted.{validate}
use gosn_v.Items.Encryption.Lists.{plain_item, seal_error, encrypt}
use gosn_v.Items.Encryption.Parallel.{Arrival}
use gosn_v.Items.Encryption.Parallel.Order.{decrypt_items_lem}
use gosn_v.Items.Parsing.{
  Reading, read, Times, ContentJson, parse_sn_time, populate_item_common, other_content,
  process_content_model, is_one_of, never_empty, may_be_empty, other_types, then_read,
}
use gosn_v.Items.Reading.{parse_as, parse, decrypt_and_parse}
use gosn_v.Items.Reading.RoundTrip.{IsHeld, IsOrdinary, opened, open_list}

-- The common fields that are read again: the others have the values of a new item.
abbrev pub kept_fields : SessionItemsKey → (content : String) → ItemCommon → ItemCommon
kept_fields ik content c = record c {
  items_key_id = ik.uuid;
  encrypted_item_key = "";
  duplicate_of = "";
  auth_hash = none;
  updated_with_session = none;
  key_system_identifier = none;
  shared_vault_uuid = none;
  user_uuid = none;
  last_edited_by_uuid = none;
  conflict_of = none;
  content_size = len content;
  protected = false;
  trashed = false;
  pinned = false;
  archived = false;
  starred = false;
  locked = false;
}

abbrev with_common : ItemCommon → Item → Item
with_common c (note n) = note (record { common = c; content = n.content })
with_common c (tag t) = tag (record { common = c; content = t.content })
with_common c (component t) = component (record { common = c; content = t.content })
with_common c (other o) = other c

abbrev pub reread : SessionItemsKey → (marshal : Item → String) → Item → Item
reread ik marshal i = with_common (kept_fields ik (marshal i) (common i)) i

-- A time that is written as common.TimeLayout writes it.
abbrev IsStamp : Times → String → Type 0
IsStamp times s = (t : ℕ) × (parse_sn_time times s ≡ some t) × (times.format t ≡ s)

-- One of the other types that are parsed.
abbrev IsOther : String → Type 0
IsOther t =
    ((t == ContentType.note) ≡ false)
    × ((t == ContentType.tag) ≡ false)
    × ((t == ContentType.component) ≡ false)
    × ((t == ContentType.items_key) ≡ false)
    × (is_one_of t other_types ≡ true)

-- The content type of the item is its own, and encoding/json reads its content as it was written.
abbrev IsTyped : ContentJson → (marshal : Item → String) → Item → Type 0
IsTyped json marshal (note n) =
    (n.content_type ≡ ContentType.note) × (json.note (marshal (note n)) ≡ some n.content)
IsTyped json marshal (tag t) =
    (t.content_type ≡ ContentType.tag) × (json.tag (marshal (tag t)) ≡ some t.content)
IsTyped json marshal (component c) =
    (c.content_type ≡ ContentType.component)
    × (json.component (marshal (component c)) ≡ some c.content)
IsTyped json marshal (other o) =
    IsOther o.content_type × (json.accepts o.content_type (marshal (other o)) ≡ true)

pub record IsReadable (times : Times) (json : ContentJson) (marshal : Item → String) (i : Item)
    : Type 0 where
  pub kept : (common i).deleted ≡ false
  pub created : IsStamp times (common i).created_at
  pub updated : IsStamp times (common i).updated_at
  pub typed : IsTyped json marshal i

or_second : (a b : Bool) → (a || b) ≡ true → a ≡ false → b ≡ true
or_second a b h k = ground arith

or_true : (a b : Bool) → b ≡ true → (a || b) ≡ true
or_true a b h = ground arith

process_content_model-other :
    (json : ContentJson) (t input : String)
    → IsOther t
    → json.accepts t input ≡ true
    → process_content_model json t input ≡ some other_content
unfolding process_content_model
process_content_model-other json t input (a, b, d, k, e) accepted =
    elim (Bool-cases (is_one_of t never_empty)) [
      | inl h ↦ rw (a, b, d, h, accepted) refl
      | inr h ↦
          let among : is_one_of t may_be_empty ≡ true =
            or_second _ _ (sym (any-append (λ s. t == s) never_empty may_be_empty) ∙ e) h in
          rw (a, b, d, h, among, or_true (input == "") _ accepted) refl
    ]

module _ (times : Times) (json : ContentJson) (di : DecryptedItem) (c : ItemCommon)
    (common_fields : populate_item_common times di ≡ some c) (kept : di.deleted ≡ false) where
  parse_as-note :
      (n : NoteContent)
      → di.content_type ≡ ContentType.note
      → json.note di.content ≡ some n
      → parse_as times json di ≡ read (note (record { common = c; content = n }))
  unfolding parse_as process_content_model
  parse_as-note n typed decoded = rw (common_fields, kept, decoded, typed) refl

  parse_as-tag :
      (t : TagContent)
      → di.content_type ≡ ContentType.tag
      → json.tag di.content ≡ some t
      → parse_as times json di ≡ read (tag (record { common = c; content = t }))
  unfolding parse_as process_content_model
  parse_as-tag t typed decoded = rw (common_fields, kept, decoded, typed) refl

  parse_as-component :
      (t : ComponentContent)
      → di.content_type ≡ ContentType.component
      → json.component di.content ≡ some t
      → parse_as times json di ≡ read (component (record { common = c; content = t }))
  unfolding parse_as process_content_model
  parse_as-component t typed decoded = rw (common_fields, kept, decoded, typed) refl

  parse_as-other :
      IsOther di.content_type
      → json.accepts di.content_type di.content ≡ true
      → parse_as times json di ≡ read (other c)
  unfolding parse_as
  parse_as-other (a, b, d, k, e) accepted =
      rw
        (
          common_fields,
          kept,
          process_content_model-other json di.content_type di.content (a, b, d, k, e) accepted,
          a,
          b,
          d,
          e,
        )
        refl

parse-cons :
    (times : Times) (json : ContentJson) (di : DecryptedItem) (dis : List DecryptedItem) (i : Item)
    (is : List Item)
    → (di.content_type == ContentType.items_key) ≡ false
    → parse_as times json di ≡ read i
    → parse times json dis ≡ read is
    → parse times json (di ∷ dis) ≡ read (i ∷ is)
unfolding parse then_read
parse-cons times json di dis i is ordinary h k =
    ap
      (λ b.
        if b
        then parse times json dis
        else then_read (parse_as times json di)
            (λ i. then_read (parse times json dis) (λ is. read (i ∷ is))))
      ordinary
    ∙ ap
        (λ (r : Reading Item).
          then_read r (λ i. then_read (parse times json dis) (λ is. read (i ∷ is))))
        h
    ∙ ap (λ (r : Reading (List Item)). then_read r (λ is. read (i ∷ is))) k

-- Items.Encrypt returns what encryptItems does, if that is valid.
encrypt_lem :
    (p : Primitives) (s : Session) (marshal : Item → String) (ik : SessionItemsKey)
    (items : List Item) (read_number : ℕ) (es : List EncryptedItem)
    → encrypt_items p s (map (plain_item marshal) items) ik read_number ≡ done (es, none)
    → validate es ≡ none
    → encrypt p s marshal items ik read_number ≡ done (es, none)
unfolding encrypt encrypt_items and_then
encrypt_lem p s marshal ik [] read_number es h k =
    ap (λ (o : Outcome (List EncryptedItem × Option Failure)). and_then o (λ r. done (r.0, none))) h
encrypt_lem p s marshal ik (i ∷ items) read_number es h k =
    ap
      (λ (o : Outcome (List EncryptedItem × Option Failure)).
        and_then o (λ r. done (r.0, seal_error r.0 r.1)))
      h
    ∙ rw (k, seal_error) refl

module _ (times : Times) (json : ContentJson) (marshal : Item → String) (ik : SessionItemsKey) where
  populate_item_common-opened :
      (i : Item)
      → IsReadable times json marshal i
      → populate_item_common times (opened ik (plain_item marshal i))
        ≡ some (kept_fields ik (marshal i) (common i))
  unfolding populate_item_common plain_item
  populate_item_common-opened i r = rw (r.created.1, r.updated.1, r.created.2, r.updated.2) refl

  parse_as-opened :
      (i : Item)
      → IsReadable times json marshal i
      → parse_as times json (opened ik (plain_item marshal i)) ≡ read (reread ik marshal i)
  unfolding plain_item
  parse_as-opened (note n) r =
      parse_as-note times json _ _ (populate_item_common-opened (note n) r) r.kept n.content
        r.typed.0 r.typed.1
  parse_as-opened (tag t) r =
      parse_as-tag times json _ _ (populate_item_common-opened (tag t) r) r.kept t.content r.typed.0
        r.typed.1
  parse_as-opened (component c) r =
      parse_as-component times json _ _ (populate_item_common-opened (component c) r) r.kept
        c.content r.typed.0 r.typed.1
  parse_as-opened (other o) r =
      parse_as-other times json _ _ (populate_item_common-opened (other o) r) r.kept r.typed.0
        r.typed.1

  plain_item-IsOrdinary :
      (i : Item) → IsReadable times json marshal i → IsOrdinary (plain_item marshal i)
  unfolding plain_item
  plain_item-IsOrdinary (note n) r = (r.kept, rw r.typed.0 refl)
  plain_item-IsOrdinary (tag t) r = (r.kept, rw r.typed.0 refl)
  plain_item-IsOrdinary (component c) r = (r.kept, rw r.typed.0 refl)
  plain_item-IsOrdinary (other o) r = (r.kept, r.typed.0.3)

  plain_items-All :
      (items : List Item)
      → All (IsReadable times json marshal) items
      → All IsOrdinary (map (plain_item marshal) items)
  plain_items-All [] h = tt
  plain_items-All (i ∷ items) (r, h) = (plain_item-IsOrdinary i r, plain_items-All items h)

  parse-opened :
      (items : List Item)
      → All (IsReadable times json marshal) items
      → parse times json (map (opened ik) (map (plain_item marshal) items))
        ≡ read (map (reread ik marshal) items)
  unfolding parse then_read
  parse-opened [] h = refl
  parse-opened (i ∷ items) (r, h) =
      parse-cons times json (opened ik (plain_item marshal i))
        (map (opened ik) (map (plain_item marshal) items)) (reread ik marshal i)
        (map (reread ik marshal) items) (plain_item-IsOrdinary i r).1 (parse_as-opened i r)
        (parse-opened items h)

  module _ (p : Primitives) (laws : PrimitiveLaws p) (s t : Session) (held : IsHeld p ik t) where
    -- Items that are not deleted, have the content types of their kinds, times as common.TimeLayout writes
    -- them and a content that encoding/json reads as it wrote it, encrypted by Items.Encrypt with an items key
    -- that a session holds: there is no error, and DecryptAndParse with that session returns the same items
    -- in the same order, whatever the order in which the results of its workers arrive. Of the common fields
    -- the UUID, the content type, the four times and the deletion are kept; the items key is that of the
    -- encryption, the size is that of the JSON, and all others have the values of a new item.
    pub decrypt_and_parse-encrypt :
        (items : List Item) (read_number : ℕ) (arrival : Arrival)
        → All (IsReadable times json marshal) items
        → (es : List EncryptedItem) × (encrypt p s marshal items ik read_number ≡ done (es, none))
          × (decrypt_and_parse times json p t arrival es ≡ read (map (reread ik marshal) items))
    unfolding encrypt decrypt_and_parse and_then then_read
    decrypt_and_parse-encrypt items read_number arrival h =
        let (es, sealed, valid, open_again) =
          open_list p laws ik s t held (map (plain_item marshal) items) read_number
            (plain_items-All items h) in
        (
          es,
          encrypt_lem p s marshal ik items read_number es sealed valid,
          rw ((decrypt_items_lem p t [] arrival es _).1 open_again) (parse-opened items h),
        )
