-- ===== src/Repo/Master/Layout.antt =====
-- The bytes of a master payload, written out, and the calls of the encoder.
use bobr.Base.{
  ℕ, ◌+◌, ◌≤◌, ◌≡◌, refl, sym, ◌∙◌, Option, none, some, List, [], ◌∷◌, ◌++◌, length, All, String,
  append_assoc, append-nil, length-append, leb, le→leb, true, arith,
}
use bobr.Base.Bytes.{IsU64}
use bobr.Base.Text.{codes}
use bobr.Repo.Cbor.Encode
use bobr.Repo.Cbor.Encode.{Encoder, extend}
use bobr.Repo.Cbor.Head.{head_bytes, extend-extend}
use bobr.Repo.Cbor.RoundTrip.{
  Optional, uint_bytes, bytes_bytes, text_bytes, null_or, uint-extend, array-extend, map-extend,
  bytes-extend, text-extend,
}
use bobr.Repo.Master.{
  Slot, Master, UrlApi, encode_slot, encode_slots, encode_payload, uint_or_null, bytes_or_null,
  min_encoded_slot_bytes,
}

abbrev pub IsHash : List ℕ → Type 0
IsHash bytes = length bytes ≡ 32

-- What the types `[u8; 32]` and `u64` promise of a slot.
pub record IsSlot (s : Slot) : Type 0 where
  pub serial : IsU64 s.serial
  pub build : IsHash s.build
  pub reuse : IsHash s.reuse
  pub object_list : IsHash s.object_list
  pub file_list : IsHash s.file_list
  pub retain_until : Optional IsU64 s.retain_until

abbrev pub key_bytes : String → List ℕ
key_bytes name = text_bytes (codes name)

-- A key and a digest.
abbrev pub field_bytes : String → List ℕ → List ℕ
field_bytes name value = key_bytes name ++ bytes_bytes value

unfoldable pub slot_bytes : Slot → List ℕ
slot_bytes s =
    head_bytes 5 6
    ++ (field_bytes "build" s.build
        ++ (field_bytes "reuse" s.reuse
            ++ (key_bytes "serial"
                ++ (uint_bytes s.serial
                    ++ (field_bytes "file_list" s.file_list
                        ++ (field_bytes "object_list" s.object_list
                            ++ (key_bytes "retain_until" ++ null_or uint_bytes s.retain_until)))))))

unfoldable pub slots_bytes : List Slot → List ℕ
slots_bytes [] = []
slots_bytes (s ∷ ss) = slot_bytes s ++ slots_bytes ss

abbrev pub format_bytes : List ℕ
format_bytes = key_bytes "repository_format" ++ uint_bytes 1

unfoldable pub payload_bytes : Option (List ℕ) → List ℕ → List Slot → List ℕ
payload_bytes previous url slots =
    head_bytes 5 4
    ++ (key_bytes "slots"
        ++ (head_bytes 4 (length slots)
            ++ (slots_bytes slots
                ++ (key_bytes "data_base_url"
                    ++ (text_bytes url
                        ++ (format_bytes
                            ++ (key_bytes "previous_master_hash"
                                ++ null_or bytes_bytes previous)))))))

-- Encoder calls that append fixed bytes; a chain of them is rewritten into a chain of `extend`s.
extend-append : (xs ys : List ℕ) (e : Encoder) → extend (xs ++ ys) e ≡ extend ys (extend xs e)
extend-append xs ys e = sym (extend-extend xs ys e)

null-extend : (e : Encoder) → Encode.null e ≡ extend (0xf6 ∷ []) e
unfolding Encode.null
null-extend e = refl

uint_or_null-extend :
    (o : Option ℕ) (e : Encoder)
    → Optional IsU64 o
    → uint_or_null o e ≡ extend (null_or uint_bytes o) e
unfolding uint_or_null
uint_or_null-extend none e h = null-extend e
uint_or_null-extend (some v) e h = uint-extend v e h

bytes_or_null-extend :
    (o : Option (List ℕ)) (e : Encoder)
    → Optional IsHash o
    → bytes_or_null o e ≡ extend (null_or bytes_bytes o) e
unfolding bytes_or_null
bytes_or_null-extend none e h = null-extend e
bytes_or_null-extend (some v) e h = bytes-extend v e (omega arith)

hash-extend : (v : List ℕ) (e : Encoder) → IsHash v → Encode.bytes v e ≡ extend (bytes_bytes v) e
hash-extend v e h = bytes-extend v e (omega arith)

-- A key of a map; its length is checked by evaluation.
abbrev KeyExtend : String → Type 0
KeyExtend name = (e : Encoder) → Encode.text (codes name) e ≡ extend (key_bytes name) e

encode_slot-extend : (s : Slot) (e : Encoder) → IsSlot s → encode_slot s e ≡ extend (slot_bytes s) e
unfolding encode_slot slot_bytes
encode_slot-extend s e h =
    let m : (e : Encoder) → Encode.map 6 e ≡ extend (head_bytes 5 6) e =
      λ e. map-extend 6 e (omega arith) in
    let k1 : KeyExtend "build" = λ e. text-extend _ e (omega arith) in
    let k2 : KeyExtend "reuse" = λ e. text-extend _ e (omega arith) in
    let k3 : KeyExtend "serial" = λ e. text-extend _ e (omega arith) in
    let k4 : KeyExtend "file_list" = λ e. text-extend _ e (omega arith) in
    let k5 : KeyExtend "object_list" = λ e. text-extend _ e (omega arith) in
    let k6 : KeyExtend "retain_until" = λ e. text-extend _ e (omega arith) in
    rw
      (
        m e,
        k1 _,
        hash-extend s.build _ h.build,
        k2 _,
        hash-extend s.reuse _ h.reuse,
        k3 _,
        uint-extend s.serial _ h.serial,
        k4 _,
        hash-extend s.file_list _ h.file_list,
        k5 _,
        hash-extend s.object_list _ h.object_list,
        k6 _,
        uint_or_null-extend s.retain_until _ h.retain_until,
      )
      (simp extend-append)

pub encode_slots-extend :
    (ss : List Slot) (e : Encoder) → All IsSlot ss → encode_slots ss e ≡ extend (slots_bytes ss) e
unfolding encode_slots slots_bytes extend
encode_slots-extend [] e h = rw (append-nil e.bytes)
encode_slots-extend (s ∷ ss) e h =
    rw (encode_slot-extend s e h.0, encode_slots-extend ss _ h.1, append_assoc)

module _ {Url : Type 0} (api : UrlApi Url) where
  -- For 32-byte digests, u64 numbers and lengths, encode_payload returns the layout of the
  -- format written out byte by byte: the heads, keys and values in their order.
  pub encode_payload-payload_bytes :
      (m : Master Url)
      → All IsSlot m.slots
      → IsU64 (length m.slots)
      → IsU64 (length (api.as_str m.data_base_url))
      → Optional IsHash m.previous_master_hash
      → encode_payload api m
        ≡ payload_bytes m.previous_master_hash (api.as_str m.data_base_url) m.slots
  unfolding encode_payload payload_bytes Encode.finish Encode.new
  encode_payload-payload_bytes m hs hn hu hp =
      let k1 : KeyExtend "slots" = λ e. text-extend _ e (omega arith) in
      let k2 : KeyExtend "data_base_url" = λ e. text-extend _ e (omega arith) in
      let k3 : KeyExtend "repository_format" = λ e. text-extend _ e (omega arith) in
      let k4 : KeyExtend "previous_master_hash" = λ e. text-extend _ e (omega arith) in
      rw
        (
          map-extend 4 _ (omega arith),
          k1 _,
          array-extend (length m.slots) _ hn,
          encode_slots-extend m.slots _ hs,
          k2 _,
          text-extend (api.as_str m.data_base_url) _ hu,
          k3 _,
          uint-extend 1 _ (omega arith),
          k4 _,
          bytes_or_null-extend m.previous_master_hash _ hp,
        )
        (unfold extend in simp append_assoc)

-- `MIN_ENCODED_SLOT_BYTES`.
length-hash_bytes : (v : List ℕ) → IsHash v → length (bytes_bytes v) ≡ 34
unfolding head_bytes
length-hash_bytes v h = rw h (omega (arith, length-append (head_bytes 2 32) v, h))

head_bytes-pos : (major value : ℕ) → 1 ≤ length (head_bytes major value)
unfolding head_bytes
head_bytes-pos major value = omega arith

null_or-pos : (o : Option ℕ) → 1 ≤ length (null_or uint_bytes o)
null_or-pos none = omega arith
null_or-pos (some v) = head_bytes-pos 0 v

length-key_bytes :
    (name : String) (n : ℕ) → length (codes name) ≡ n → n ≤ 23 → length (key_bytes name) ≡ n + 1
unfolding head_bytes
length-key_bytes name n k h =
    let short : leb n 23 ≡ true = le→leb n 23 h in rw (k, short) (omega arith)

length-field_bytes :
    (name : String) (v : List ℕ) (n : ℕ)
    → length (codes name) ≡ n
    → n ≤ 23
    → IsHash v
    → length (field_bytes name v) ≡ n + 35
length-field_bytes name v n k short h =
    length-append (key_bytes name) (bytes_bytes v)
    ∙ omega (arith, length-key_bytes name n k short, length-hash_bytes v h)

-- Every encoded slot has at least `MIN_ENCODED_SLOT_BYTES` bytes.
pub slot_bytes-min : (s : Slot) → IsSlot s → min_encoded_slot_bytes ≤ length (slot_bytes s)
unfolding slot_bytes
slot_bytes-min s h = simp length-append (
    omega (
      arith,
      length-append {0},
      head_bytes-pos 5 6,
      length-field_bytes "build" s.build 5 refl (omega arith) h.build,
      length-field_bytes "reuse" s.reuse 5 refl (omega arith) h.reuse,
      length-key_bytes "serial" 6 refl (omega arith),
      head_bytes-pos 0 s.serial,
      length-field_bytes "file_list" s.file_list 9 refl (omega arith) h.file_list,
      length-field_bytes "object_list" s.object_list 11 refl (omega arith) h.object_list,
      length-key_bytes "retain_until" 12 refl (omega arith),
      null_or-pos s.retain_until,
    ))

-- encode_slot appends at least MIN_ENCODED_SLOT_BYTES bytes for every slot with 32-byte digests
-- and u64 numbers, whatever the encoder holds before.
pub encode_slot-min :
    (s : Slot) (e : Encoder)
    → IsSlot s
    → length e.bytes + min_encoded_slot_bytes ≤ length (encode_slot s e).bytes
unfolding extend
encode_slot-min s e h =
    let min = slot_bytes-min s h in
    rw (encode_slot-extend s e h, length-append e.bytes (slot_bytes s)) (omega arith)
