-- ===== src/Repo/Tests.antt =====
-- Runs of the modelled code on small inputs, and the theorems at such inputs.
use bobr.Base.{
  ℕ, zero, suc, ◌≤◌, ◌≡◌, refl, ◌↔◌, inl, inr, Bool, true, false, none, some, List, [], ◌∷◌, ◌++◌,
  length, take, drop, All, all, Any, ok, err, ltb, leb→le, ltb→lt, Bool-cases, arith,
}
use bobr.Base.Bytes.{IsByte, IsU64, to_be_bytes, to_le_bytes}
use bobr.Base.Utf8.{is_utf8}
use bobr.Base.Text.{codes}
use bobr.Repo.Error.{non_shortest}
use bobr.Repo.Cbor.Encode
use bobr.Repo.Cbor.Encode.{Encoder}
use bobr.Repo.Cbor.Decode
use bobr.Repo.Cbor.Decode.{Decoder}
use bobr.Repo.Cbor.Head.{head_bytes}
use bobr.Repo.Cbor.Reads.{at}
use bobr.Repo.Cbor.Items.{IsNext, uint_iff, bytes_iff, text_iff}
use bobr.Repo.Master.{
  UrlApi, Slot, Master, max_master_bytes, min_encoded_slot_bytes, active_slot, encode_slot,
  encode_payload, decode_payload, validate, uint_or_null, bytes_or_null, encode_slots,
}
use bobr.Repo.Master.Layout.{
  IsSlot, payload_bytes, slot_bytes, slots_bytes, encode_payload-payload_bytes, encode_slot-min,
}
use bobr.Repo.Master.RoundTrip.{IsPayload, decode_payload-encode_payload}
use bobr.Repo.Master.Canonical.{IsPayloadOf, decode_payload-IsPayloadOf}
use bobr.Repo.Master.Slots.{IsCurrent, Increasing, IsBaseUrl, validate_iff, active_slot-newest}

IsByte-of_all : (bs : List ℕ) → all (λ b. ltb b 256) bs ≡ true → All IsByte bs
IsByte-of_all [] h = tt
IsByte-of_all (b ∷ bs) h = elim (Bool-cases (ltb b 256)) [
  | inl t ↦ (ltb→lt b 256 t, IsByte-of_all bs (rw t at h))
  | inr f ↦ absurd (cc (rw f at h))
]

-- CBOR: the number 500, the bytes 1 2 3 and the text "bobr", each with one byte behind it.
abbrev start : Encoder
start = record { bytes = [] }

abbrev number : List ℕ
number = 0x19 ∷ 1 ∷ 0xf4 ∷ 7 ∷ []

long_number : Decode.uint (at [] (0x18 ∷ 5 ∷ [])) ≡ err non_shortest
unfolding Decode.uint Decode.head Decode.byte Decode.peek Decode.advance Decode.head_value
long_number = refl

abbrev three : List ℕ
three = 0x43 ∷ 1 ∷ 2 ∷ 3 ∷ 7 ∷ []

abbrev name : List ℕ
name = 0x64 ∷ 0x62 ∷ 0x6f ∷ 0x62 ∷ 0x72 ∷ 7 ∷ []

uint_iff-example :
    (Decode.uint (at [] number) ≡ ok (500, record { bytes = number; offset = 3 })) ↔ (
      IsU64 500
      × IsNext start (Encode.uint 500 start) number (record { bytes = number; offset = 3 }))
uint_iff-example =
    uint_iff start number 500 (record { bytes = number; offset = 3 }) (IsByte-of_all number refl)
      (omega arith)

bytes_iff-example :
    (Decode.bytes (at [] three) ≡ ok (1 ∷ 2 ∷ 3 ∷ [], record { bytes = three; offset = 4 })) ↔ (
      (IsU64 3 × All IsByte (1 ∷ 2 ∷ 3 ∷ []))
      × IsNext start
          (Encode.bytes (1 ∷ 2 ∷ 3 ∷ []) start)
          three
          (record { bytes = three; offset = 4 }))
bytes_iff-example =
    bytes_iff start three (1 ∷ 2 ∷ 3 ∷ []) (record { bytes = three; offset = 4 })
      (IsByte-of_all three refl) (omega arith)

text_iff-example :
    (Decode.text (at [] name) ≡ ok (codes "bobr", record { bytes = name; offset = 5 })) ↔ (
      (IsU64 4 × (is_utf8 (codes "bobr") ≡ true) × All IsByte (codes "bobr"))
      × IsNext start (Encode.text (codes "bobr") start) name (record { bytes = name; offset = 5 }))
text_iff-example =
    text_iff start name (codes "bobr") (record { bytes = name; offset = 5 })
      (IsByte-of_all name refl) (omega arith)

-- A URL is its text, `https://` and one letter before the path.
abbrev text_urls : UrlApi (List ℕ)
text_urls = record {
  parse = λ s. some s;
  as_str = λ u. u;
  scheme = take 5;
  cannot_be_a_base = λ u. false;
  username = λ u. [];
  password = λ u. none;
  query = λ u. none;
  fragment = λ u. none;
  path = drop 9;
}

abbrev repeat : ℕ → ℕ → List ℕ
repeat zero b = []
repeat (suc n) b = b ∷ repeat n b

abbrev retired_slot : Slot
retired_slot = record {
  serial = 1;
  build = repeat 32 1;
  reuse = repeat 32 2;
  object_list = repeat 32 3;
  file_list = repeat 32 4;
  retain_until = some 1000;
}

abbrev current_slot : Slot
current_slot = record {
  serial = 300;
  build = repeat 32 5;
  reuse = repeat 32 6;
  object_list = repeat 32 7;
  file_list = repeat 32 8;
  retain_until = none;
}

abbrev two_slots : Master (List ℕ)
two_slots = record {
  previous_master_hash = some (repeat 32 9);
  data_base_url = codes "https://a/";
  slots = retired_slot ∷ current_slot ∷ [];
}

retired_slot-IsSlot : IsSlot retired_slot
retired_slot-IsSlot = record {
  serial = omega arith;
  build = refl;
  reuse = refl;
  object_list = refl;
  file_list = refl;
  retain_until = omega arith;
}

current_slot-IsSlot : IsSlot current_slot
current_slot-IsSlot = record {
  serial = omega arith;
  build = refl;
  reuse = refl;
  object_list = refl;
  file_list = refl;
  retain_until = tt;
}

two_slots-IsPayload : IsPayload text_urls two_slots
unfolding is_utf8
two_slots-IsPayload = record {
  slots = (retired_slot-IsSlot, (current_slot-IsSlot, tt));
  count = omega arith;
  url_size = omega arith;
  previous = refl;
  url_utf8 = refl;
  url_parses = refl;
}

abbrev room : ℕ → Bool
room n = true

two_slots-size : length (encode_payload text_urls two_slots) ≤ max_master_bytes
unfolding encode_payload encode_slot Encode.head Encode.text Encode.bytes Encode.uint Encode.map
    Encode.array Encode.null Encode.new Encode.extend Encode.finish uint_or_null bytes_or_null
    encode_slots to_be_bytes to_le_bytes
two_slots-size = leb→le _ _ refl

two_slots-IsBaseUrl : IsBaseUrl text_urls (codes "https://a/")
two_slots-IsBaseUrl = record {
  https = refl;
  base = refl;
  no_user = refl;
  no_password = refl;
  no_query = refl;
  no_fragment = refl;
  slash = ([], refl);
}

two_slots-validate : validate text_urls two_slots ≡ ok tt
two_slots-validate =
    (validate_iff text_urls two_slots).1
      (two_slots-IsBaseUrl, ((omega arith, tt), (tt, tt)), inr (inl refl))

validate_iff-example : (validate text_urls two_slots ≡ ok tt) ↔ (
    IsBaseUrl text_urls (codes "https://a/")
    × Increasing (retired_slot ∷ current_slot ∷ [])
    × Any IsCurrent (retired_slot ∷ current_slot ∷ []))
validate_iff-example = validate_iff text_urls two_slots

active_slot-newest_example :
    (s : Slot) × (front : List Slot) × (back : List Slot) × (active_slot two_slots ≡ some s)
    × (retired_slot ∷ current_slot ∷ [] ≡ front ++ s ∷ back)
    × All (λ t. ¬ IsCurrent t) back
    × IsCurrent s
    × All (λ t. IsCurrent t → t.serial ≤ s.serial) (retired_slot ∷ current_slot ∷ [])
active_slot-newest_example = active_slot-newest text_urls two_slots two_slots-validate

decode_payload-encode_payload_example :
    decode_payload text_urls room (encode_payload text_urls two_slots) ≡ ok two_slots
decode_payload-encode_payload_example =
    decode_payload-encode_payload text_urls room two_slots two_slots-IsPayload two_slots-size refl
      two_slots-validate

abbrev two_slots_payload : List ℕ
two_slots_payload =
    payload_bytes (some (repeat 32 9)) (codes "https://a/") (retired_slot ∷ current_slot ∷ [])

encode_payload-payload_bytes_example : encode_payload text_urls two_slots ≡ two_slots_payload
encode_payload-payload_bytes_example =
    encode_payload-payload_bytes text_urls two_slots
      (retired_slot-IsSlot, (current_slot-IsSlot, tt)) (omega arith) (omega arith) refl

two_slots_payload-IsByte : All IsByte two_slots_payload
unfolding payload_bytes slots_bytes slot_bytes head_bytes to_be_bytes to_le_bytes
two_slots_payload-IsByte = IsByte-of_all two_slots_payload refl

two_slots_payload-decode : decode_payload text_urls room two_slots_payload ≡ ok two_slots
two_slots_payload-decode = rw (← encode_payload-payload_bytes_lem) decode_payload-encode_payload_lem
  where
    encode_payload-payload_bytes_lem : encode_payload text_urls two_slots ≡ two_slots_payload
    encode_payload-payload_bytes_lem =
        encode_payload-payload_bytes text_urls two_slots
          (retired_slot-IsSlot, (current_slot-IsSlot, tt)) (omega arith) (omega arith) refl

    decode_payload-encode_payload_lem :
        decode_payload text_urls room (encode_payload text_urls two_slots) ≡ ok two_slots
    decode_payload-encode_payload_lem =
        decode_payload-encode_payload text_urls room two_slots two_slots-IsPayload two_slots-size
          refl two_slots-validate

decode_payload-IsPayloadOf_example :
    (text : List ℕ) × IsPayloadOf text_urls room two_slots text two_slots_payload
    × (validate text_urls two_slots ≡ ok tt)
decode_payload-IsPayloadOf_example =
    decode_payload-IsPayloadOf text_urls room two_slots_payload two_slots two_slots_payload-IsByte
      two_slots_payload-decode

encode_slot-min_example : min_encoded_slot_bytes ≤ length (encode_slot current_slot start).bytes
encode_slot-min_example = encode_slot-min current_slot start current_slot-IsSlot
