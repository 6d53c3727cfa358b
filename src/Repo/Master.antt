-- ===== src/Repo/Master.antt =====
-- bobr-repo/src/master.rs: the logical payload of the signed repository master. The crate `url`
-- is a parameter (`UrlApi`); so is the allocator's answer to `try_reserve_exact`.
pub mod Layout
pub mod RoundTrip
pub mod Canonical
pub mod Slots
use bobr.Base.{
  ℕ, zero, suc, ◌+◌, ◌-◌, ◌*◌, ◌/◌, ◌^◌, Bool, true, false, not, ◌||◌, Option, none, some, List, [],
  ◌∷◌, length, reverse, filter, head?, ltb, leb, ◌==◌, if◌then◌else◌, bytes_eq, Result, ok, err,
  ok_or,
}
use bobr.Base.{◌>>=◌ as and_then}
use bobr.Base.Text.{codes}
use bobr.Repo.Error.{
  RepositoryError, master_too_large, slot_count_too_large, slot_count_exceeds_payload,
  reserve_failed, invalid_data_base_url, bad_data_base_url, unsupported_format, no_slots,
  serials_not_increasing, no_current_slot, digest_not_32_bytes, unexpected_key, wrong_entry_count,
}
use bobr.Repo.Cbor.Encode
use bobr.Repo.Cbor.Encode.{Encoder}
use bobr.Repo.Cbor.Decode
use bobr.Repo.Cbor.Decode.{Decoder, M, pure, fail, lift, continue, ◌>>=◌, ◌>>◌}

-- What the code uses of `url::Url`. Texts are byte strings.
pub record UrlApi (Url : Type 0) : Type 0 where
  pub parse : List ℕ → Option Url
  pub as_str : Url → List ℕ
  pub scheme : Url → List ℕ
  pub cannot_be_a_base : Url → Bool
  pub username : Url → List ℕ
  pub password : Url → Option (List ℕ)
  pub query : Url → Option (List ℕ)
  pub fragment : Url → Option (List ℕ)
  pub path : Url → List ℕ

abbrev pub max_master_bytes : ℕ
max_master_bytes = 4 * 1024 * 1024

abbrev pub repository_format : ℕ
repository_format = 1

abbrev pub min_encoded_slot_bytes : ℕ
min_encoded_slot_bytes = 193

-- Digests are byte strings, of 32 bytes where the slot is well formed.
pub record Slot : Type 0 where
  pub serial : ℕ
  pub build : List ℕ
  pub reuse : List ℕ
  pub object_list : List ℕ
  pub file_list : List ℕ
  pub retain_until : Option ℕ

pub record Master (Url : Type 0) : Type 0 where
  pub previous_master_hash : Option (List ℕ)
  pub data_base_url : Url
  pub slots : List Slot

unfoldable pub is_some {ℓ} : {A : Type ℓ} → Option A → Bool
is_some none = false
is_some (some a) = true

unfoldable pub is_none {ℓ} : {A : Type ℓ} → Option A → Bool
is_none none = true
is_none (some a) = false

-- `Master::current_slots_newest_first`.
unfoldable pub current_slots_newest_first : {Url : Type 0} → Master Url → List Slot
current_slots_newest_first master =
    filter (λ slot. is_none slot.retain_until) (reverse master.slots)

-- `Master::active_slot`; `none` is the panic of `expect`.
unfoldable pub active_slot : {Url : Type 0} → Master Url → Option Slot
active_slot master = head? (current_slots_newest_first master)

-- `str::ends_with` of one character.
unfoldable pub ends_with_byte : ℕ → List ℕ → Bool
ends_with_byte b [] = false
ends_with_byte b (x ∷ []) = x == b
ends_with_byte b (x ∷ y ∷ ys) = ends_with_byte b (y ∷ ys)

-- The loop of `validate`: the serial before, and whether a current slot was seen.
unfoldable pub validate_slots : Option ℕ → Bool → List Slot → Result RepositoryError Bool
validate_slots previous has_current [] = ok has_current
validate_slots none has_current (slot ∷ slots) =
    validate_slots (some slot.serial) (has_current || is_none slot.retain_until) slots
validate_slots (some previous) has_current (slot ∷ slots) =
    let rest = validate_slots (some slot.serial) (has_current || is_none slot.retain_until) slots in
    if leb slot.serial previous then err serials_not_increasing else rest

-- `match value { Some(value) => encoder.uint(value), None => encoder.null() }`, and for a digest.
unfoldable pub uint_or_null : Option ℕ → Encoder → Encoder
uint_or_null (some value) e = Encode.uint value e
uint_or_null none e = Encode.null e

unfoldable pub bytes_or_null : Option (List ℕ) → Encoder → Encoder
bytes_or_null (some value) e = Encode.bytes value e
bytes_or_null none e = Encode.null e

unfoldable pub encode_slot : Slot → Encoder → Encoder
encode_slot slot e =
    let e1 = Encode.map 6 e in
    let e2 = Encode.bytes slot.build (Encode.text (codes "build") e1) in
    let e3 = Encode.bytes slot.reuse (Encode.text (codes "reuse") e2) in
    let e4 = Encode.uint slot.serial (Encode.text (codes "serial") e3) in
    let e5 = Encode.bytes slot.file_list (Encode.text (codes "file_list") e4) in
    let e6 = Encode.bytes slot.object_list (Encode.text (codes "object_list") e5) in
    let e7 = Encode.text (codes "retain_until") e6 in uint_or_null slot.retain_until e7

unfoldable pub encode_slots : List Slot → Encoder → Encoder
encode_slots [] e = e
encode_slots (slot ∷ slots) e = encode_slots slots (encode_slot slot e)

unfoldable pub require_hash : List ℕ → Result RepositoryError (List ℕ)
require_hash bytes = if length bytes == 32 then ok bytes else err digest_not_32_bytes

unfoldable pub require_text : List ℕ → M (Unit {0})
require_text expected = do
  value ← Decode.text
  if bytes_eq value expected then pure tt else fail unexpected_key

unfoldable pub require_length : ℕ → ℕ → Result RepositoryError (Unit {0})
require_length actual expected = if actual == expected then ok tt else err wrong_entry_count

-- `require_text(decoder, name)?; require_hash(decoder.bytes()?)?`.
unfoldable pub hash_field : List ℕ → M (List ℕ)
hash_field name = do require_text name; value ← Decode.bytes; lift (require_hash value)

unfoldable pub decode_slot : M Slot
decode_slot = do
  entries ← Decode.map
  lift (require_length entries 6)
  build ← hash_field (codes "build")
  reuse ← hash_field (codes "reuse")
  require_text (codes "serial")
  serial ← Decode.uint
  file_list ← hash_field (codes "file_list")
  object_list ← hash_field (codes "object_list")
  require_text (codes "retain_until")
  retain_until ← Decode.null_or_uint
  pure (record {
    serial = serial;
    build = build;
    reuse = reuse;
    object_list = object_list;
    file_list = file_list;
    retain_until = retain_until;
  })

-- `for _ in 0..slot_count { slots.push(decode_slot(&mut decoder)?); }`.
unfoldable pub decode_slots : ℕ → M (List Slot)
decode_slots zero = pure []
decode_slots (suc n) = do slot ← decode_slot; slots ← decode_slots n; pure (slot ∷ slots)

-- `.map(require_hash).transpose()`.
unfoldable pub require_optional_hash : Option (List ℕ) → Result RepositoryError (Option (List ℕ))
require_optional_hash none = ok none
require_optional_hash (some bytes) = and_then (require_hash bytes) (λ hash. ok (some hash))

-- The field `repository_format` and its check.
unfoldable pub decode_format : M (Unit {0})
decode_format = do
  require_text (codes "repository_format")
  format ← Decode.uint
  if format == repository_format then pure tt else fail unsupported_format

unfoldable pub remaining : M ℕ
remaining d = ok (Decode.remaining_bytes d, d)

module _ {Url : Type 0} (api : UrlApi Url) where
  unfoldable pub validate_data_base_url : Url → Result RepositoryError (Unit {0})
  validate_data_base_url url =
      if not (bytes_eq (api.scheme url) (codes "https"))
        || api.cannot_be_a_base url
        || not (bytes_eq (api.username url) [])
        || is_some (api.password url)
        || is_some (api.query url)
        || is_some (api.fragment url)
        || not (ends_with_byte b'/' (api.path url))
      then err bad_data_base_url
      else ok tt

  unfoldable pub validate : Master Url → Result RepositoryError (Unit {0})
  validate master = and_then (validate_data_base_url master.data_base_url) λ _.
      if length master.slots == 0
      then err no_slots
      else and_then (validate_slots none false master.slots)
          (λ has_current. if has_current then ok tt else err no_current_slot)

  unfoldable pub new : Option (List ℕ) → Url → List Slot → Result RepositoryError (Master Url)
  new previous_master_hash data_base_url slots =
      let master : Master Url = record {
        previous_master_hash = previous_master_hash;
        data_base_url = data_base_url;
        slots = slots;
      } in
      and_then (validate master) (λ _. ok master)

  unfoldable pub encode_payload : Master Url → List ℕ
  encode_payload master =
      let e1 = Encode.text (codes "slots") (Encode.map 4 Encode.new) in
      let e2 = encode_slots master.slots (Encode.array (length master.slots) e1) in
      let e3 = Encode.text (codes "data_base_url") e2 in
      let e4 = Encode.text (api.as_str master.data_base_url) e3 in
      let e5 = Encode.uint repository_format (Encode.text (codes "repository_format") e4) in
      let e6 = Encode.text (codes "previous_master_hash") e5 in
      Encode.finish (bytes_or_null master.previous_master_hash e6)

  module _ (try_reserve_exact : ℕ → Bool) where
    -- The body of `decode_payload` between the check of the size and `decoder.finish()?`.
    unfoldable pub decode_fields : M (Master Url)
    decode_fields = do
      entries ← Decode.map
      lift (require_length entries 4)
      require_text (codes "slots")
      slot_count ← Decode.array
      if ltb slot_count (2 ^ 64) then pure tt else fail slot_count_too_large
      left ← remaining
      if ltb (left / min_encoded_slot_bytes) slot_count
          then fail slot_count_exceeds_payload
          else pure tt
      if try_reserve_exact slot_count then pure tt else fail reserve_failed
      slots ← decode_slots slot_count
      require_text (codes "data_base_url")
      url_text ← Decode.text
      data_base_url ← lift (ok_or (api.parse url_text) invalid_data_base_url)
      decode_format
      require_text (codes "previous_master_hash")
      previous_bytes ← Decode.null_or_bytes
      previous_master_hash ← lift (require_optional_hash previous_bytes)
      pure (record {
        previous_master_hash = previous_master_hash;
        data_base_url = data_base_url;
        slots = slots;
      })

    unfoldable pub decode_payload : List ℕ → Result RepositoryError (Master Url)
    decode_payload bytes =
        if ltb max_master_bytes (length bytes)
        then err master_too_large
        else and_then (decode_fields (Decode.new bytes)) λ (fields, decoder).
          and_then (Decode.finish decoder)
            λ _. new fields.previous_master_hash fields.data_base_url fields.slots
