-- ===== src/Session/Loading/Examples.antt =====
-- Instances of the parameters of the session in the keyring, and the theorems applied to them.
use gosn_v.Prelude.{
  ℕ, ◌+◌, ◌-◌, ◌≡◌, ◌≢◌, refl, ap, sym, true, false, Option, none, some, [], ◌∷◌, ◌⊎◌, inl, inr,
  arith,
}
use gosn_v.Prelude.Bytes.{Bytes, codes, includes, same, lacks}
use gosn_v.Session.Types.{Session, Network, replied, Decoder}
use gosn_v.Session.Examples.{a_session}
use gosn_v.Session.Keyring.{
  SessionJson, Keyring, minimal, got, is_unencrypted_session, make_minimal_session_string,
  add_session, entered_key,
}
use gosn_v.Session.Loading.{get_session, is_expiring}
use gosn_v.Session.Loading.Laws.{StoredLaws, KeyringLaws, IsStorable}
use gosn_v.Session.Loading.Stored.{reread, get_session-add_session}
use gosn_v.Crypto.Stream.{Aes, encrypt, decrypt, repeat, pad_to_aes_block_size}
use gosn_v.Crypto.Stream.RoundTrip.{AesLaws, long_key_fails}

-- Two bytes for each, which are neither braces nor quotes.
abbrev doubled : Bytes → Bytes
doubled [] = []
doubled (b ∷ bs) = 65 ∷ (b + 200) ∷ doubled bs

abbrev halved : Bytes → Bytes
halved [] = []
halved (a ∷ []) = []
halved (a ∷ b ∷ bs) = (b - 200) ∷ halved bs

abbrev shifting : Aes
shifting = record {
  stream = λ key iv text. text;
  unstream = λ key iv text. text;
  url_encode = doubled;
  url_decode = λ bs. some (halved bs);
  iv = λ read. repeat 0 16;
}

halved-doubled : (bs : Bytes) → halved (doubled bs) ≡ bs
halved-doubled [] = refl
halved-doubled (b ∷ bs) = rw (halved-doubled bs) (ap (λ (n : ℕ). n ∷ bs) (omega arith))

lacks_brace-doubled : (bs : Bytes) → lacks b'{' (doubled bs) ≡ true
lacks_brace-doubled [] = refl
lacks_brace-doubled (b ∷ bs) = ground (arith, lacks_brace-doubled bs)

lacks_quote-doubled : (bs : Bytes) → lacks b'"' (doubled bs) ≡ true
lacks_quote-doubled [] = refl
lacks_quote-doubled (b ∷ bs) = ground (arith, lacks_quote-doubled bs)

shifting_laws : AesLaws shifting
shifting_laws = record {
  unstream-stream = λ key iv text. refl;
  url_decode-url_encode = λ bs. ap some (halved-doubled bs);
  length-iv = λ read. refl;
}

abbrev lasting : Session
lasting = record a_session { access_expiration = 1700000000000 }

abbrev one_json : SessionJson
one_json = record {
  marshal = λ ms. codes "{\"access_token\":\"2:abc\"}";
  unmarshal = λ bs. some (minimal lasting);
}

stored_laws : StoredLaws shifting one_json
stored_laws = record {
  aes_laws = shifting_laws;
  no_brace = lacks_brace-doubled;
  no_quote = lacks_quote-doubled;
  not_empty = λ b bs. refl;
}

lasting-IsStorable : IsStorable one_json lasting
unfolding is_unencrypted_session make_minimal_session_string includes
lasting-IsStorable = record { is_object = refl; has_token = refl; decoded = refl }

-- One entry, which may be missing.
abbrev entry : Option Bytes → Bytes ⊎ Bytes
entry none = inr (codes "secret not found in keyring")
entry (some text) = inl text

abbrev one_entry : Keyring (Option Bytes)
one_entry = record { get = entry; set = λ text w. (none, some text); delete = λ w. (none, none) }

one_entry_laws : KeyringLaws one_entry
one_entry_laws = record {
  get-set = λ text w w' h. ap (λ (p : Option Bytes × Option Bytes). entry p.1) (sym h);
}

abbrev refusing : Network
refusing sent request = replied 400 none

abbrev decodes_nothing : Decoder
decodes_nothing body = none

abbrev a_key : Bytes
a_key = codes "secret"

abbrev kept : Option Bytes
kept = (add_session shifting one_json one_entry a_key none true (got lasting) 0 none).1

added :
    add_session shifting one_json one_entry a_key none true (got lasting) 0 none ≡ (got tt, kept)
unfolding add_session entered_key includes pad_to_aes_block_size same
added = refl

fresh : is_expiring 1600000000000000000 lasting ≡ false
unfolding is_expiring
fresh = refl

get_session-add_session_example :
    get_session shifting one_json one_entry refusing decodes_nothing a_key none none
      1600000000000000000 1 [] kept
    ≡ ((got (reread lasting), kept), [])
unfolding entered_key same
get_session-add_session_example =
    get_session-add_session shifting one_json stored_laws lasting lasting-IsStorable one_entry
      one_entry_laws refusing decodes_nothing a_key a_key none none none 0 1 1600000000000000000 []
      none kept refl added fresh

abbrev long_key : Bytes
long_key = repeat 7 32

long_key_fails_example :
    (encrypt shifting long_key a_key 0 ≡ none)
    × ((s t : Bytes) → decrypt shifting long_key s ≢ inl t)
long_key_fails_example = long_key_fails shifting long_key a_key 0 (omega arith)
