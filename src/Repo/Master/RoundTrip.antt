-- ===== src/Repo/Master/RoundTrip.antt =====
-- `decode_payload` on what `encode_payload` writes.
use bobr.Base.{
  ℕ, ◌-◌, ◌*◌, ◌/◌, ◌^◌, ◌≤◌, ◌<◌, ◌≡◌, refl, Bool, true, false, Option, none, some, List, [], ◌∷◌,
  ◌++◌, length, All, String, length-append, arith, ltb, ==_iff, lt→ltb, ok_or, ok, bytes_eq_refl,
}
use bobr.Base.Bytes.{IsU64}
use bobr.Base.Text.{codes}
use bobr.Base.Utf8.{is_utf8}
use bobr.Repo.Error.{
  invalid_data_base_url, slot_count_too_large, slot_count_exceeds_payload, reserve_failed,
  unsupported_format,
}
use bobr.Repo.Cbor.Decode
use bobr.Repo.Cbor.Decode.{Decoder, M, pure, fail, lift, continue, ◌>>=◌, ◌>>◌}
use bobr.Repo.Cbor.Reads.{
  finish-at, ReadsAll, ReadsAll-bind, ReadsAll-last, Reads, Reads-bind, Reads-then, Reads-pure,
  Reads-test, Reads-test_not,
}
use bobr.Repo.Cbor.RoundTrip.{
  Optional, bytes_bytes, text_bytes, null_or, Reads-uint, Reads-array, Reads-map, Reads-bytes,
  Reads-text, Reads-null_or_uint, Reads-null_or_bytes,
}
use bobr.Repo.Master.{
  Slot, Master, UrlApi, require_text, require_length, require_hash, hash_field, decode_slot,
  decode_slots, require_optional_hash, remaining, min_encoded_slot_bytes, max_master_bytes,
  decode_fields, decode_format, decode_payload, encode_payload, validate, new,
}
use bobr.Repo.Master.Layout.{
  IsHash, IsSlot, field_bytes, format_bytes, key_bytes, slot_bytes, slots_bytes, payload_bytes,
  slot_bytes-min, encode_payload-payload_bytes,
}

Reads-require_text :
    (name : List ℕ)
    → IsU64 (length name)
    → is_utf8 name ≡ true
    → Reads (require_text name) (text_bytes name) tt
unfolding require_text
Reads-require_text name h u =
    Reads-then _ (Reads-text name h u) (rw (bytes_eq_refl name) (Reads-pure tt))

Reads-require_hash : (v : List ℕ) → IsHash v → Reads (lift (require_hash v)) [] v
unfolding require_hash
Reads-require_hash v h = rw ((==_iff (length v) 32).1 h) (Reads-pure v)

-- A key that is checked by evaluation, and a key with its digest.
abbrev IsKey : String → Type 0
IsKey name = IsU64 (length (codes name)) × (is_utf8 (codes name) ≡ true)

Reads-key : (name : String) → IsKey name → Reads (require_text (codes name)) (key_bytes name) tt
Reads-key name k = Reads-require_text (codes name) k.0 k.1

Reads-field :
    (name : String) (v : List ℕ)
    → IsKey name
    → IsHash v
    → Reads (hash_field (codes name)) (field_bytes name v) v
unfolding hash_field
Reads-field name v k hv =
    Reads-bind _ (Reads-key name k)
      (Reads-then _ (Reads-bytes v (omega arith)) (Reads-require_hash v hv))

Reads-require_length : (n : ℕ) → Reads (lift (require_length n n)) [] tt
unfolding require_length
Reads-require_length n = rw ((==_iff n n).1 refl) (Reads-pure tt)

Reads-decode_slot : (s : Slot) → IsSlot s → Reads decode_slot (slot_bytes s) s
unfolding decode_slot slot_bytes is_utf8
Reads-decode_slot s h = Reads-bind _ (Reads-map 6 (omega arith)) (
    Reads-bind _ (Reads-require_length 6) (
      Reads-bind _ (Reads-field "build" s.build (omega arith, refl) h.build) (
        Reads-bind _ (Reads-field "reuse" s.reuse (omega arith, refl) h.reuse) (
          Reads-bind _ (Reads-key "serial" (omega arith, refl)) (
            Reads-bind _ (Reads-uint s.serial h.serial) (
              Reads-bind _ (Reads-field "file_list" s.file_list (omega arith, refl) h.file_list) (
                Reads-bind _
                  (Reads-field "object_list" s.object_list (omega arith, refl) h.object_list)
                  (Reads-bind _ (Reads-key "retain_until" (omega arith, refl)) (
                    Reads-then _ (Reads-null_or_uint s.retain_until h.retain_until)
                      (Reads-pure s))))))))))

Reads-decode_slots :
    (ss : List Slot) → All IsSlot ss → Reads (decode_slots (length ss)) (slots_bytes ss) ss
unfolding decode_slots slots_bytes
Reads-decode_slots [] h = Reads-pure []
Reads-decode_slots (s ∷ ss) h =
    Reads-bind _ (Reads-decode_slot s h.0)
      (Reads-then _ (Reads-decode_slots ss h.1) (Reads-pure (s ∷ ss)))

Reads-require_optional_hash :
    (o : Option (List ℕ)) → Optional IsHash o → Reads (lift (require_optional_hash o)) [] o
unfolding require_optional_hash require_hash
Reads-require_optional_hash none h = Reads-pure none
Reads-require_optional_hash (some v) h = rw ((==_iff (length v) 32).1 h) (Reads-pure (some v))

Reads-decode_format : Reads decode_format format_bytes tt
unfolding decode_format is_utf8
Reads-decode_format =
    Reads-bind _ (Reads-key "repository_format" (omega arith, refl))
      (Reads-then _ (Reads-uint 1 (omega arith)) (Reads-test _ unsupported_format refl))

slots_bytes-min :
    (ss : List Slot) → All IsSlot ss → min_encoded_slot_bytes * length ss ≤ length (slots_bytes ss)
unfolding slots_bytes
slots_bytes-min [] h = omega arith
slots_bytes-min (s ∷ ss) h = omega (
  arith,
  slots_bytes-min ss h.1,
  slot_bytes-min s h.0,
  length-append (slot_bytes s) (slots_bytes ss),
)

-- `decoder.remaining_bytes()` sees all that is left.
ReadsAll-remaining :
    {B : Type 0} (f : ℕ → M B) (bs : List ℕ) (b : B)
    → ReadsAll (f (length bs)) bs b
    → ReadsAll (remaining >>= f) bs b
unfolding remaining Decode.remaining_bytes
ReadsAll-remaining f bs b h = record {
  run = λ pre fits.
      let left : length (pre ++ bs) - length pre ≡ length bs =
        omega (arith, length-append pre bs) in
      rw left (h.run pre fits);
}

-- What the types of a master promise: digests of 32 bytes, `u64` values and a slice of slots.
pub record IsPayload {Url : Type 0} (api : UrlApi Url) (m : Master Url) : Type 0 where
  pub slots : All IsSlot m.slots
  pub count : IsU64 (length m.slots)
  pub url_size : IsU64 (length (api.as_str m.data_base_url))
  pub previous : Optional IsHash m.previous_master_hash
  pub url_utf8 : is_utf8 (api.as_str m.data_base_url) ≡ true
  pub url_parses : api.parse (api.as_str m.data_base_url) ≡ some m.data_base_url

not_lt_div : (n k : ℕ) → min_encoded_slot_bytes * k ≤ n → ltb (n / min_encoded_slot_bytes) k ≡ false
not_lt_div n k h = ground arith

module _ {Url : Type 0} (api : UrlApi Url) (try_reserve_exact : ℕ → Bool) (m : Master Url) where
  abbrev bytes_of : List ℕ
  bytes_of = payload_bytes m.previous_master_hash (api.as_str m.data_base_url) m.slots

  payload_sizes :
      length bytes_of ≤ max_master_bytes
      → (length (slots_bytes m.slots) ≤ max_master_bytes)
        × (length (api.as_str m.data_base_url) ≤ max_master_bytes)
  unfolding payload_bytes
  payload_sizes small = let sizes = simp length-append at small in (omega arith, omega arith)

  -- What stands behind the slots, and behind the head of their array.
  abbrev after_slots : List ℕ
  after_slots =
      key_bytes "data_base_url"
      ++ (text_bytes (api.as_str m.data_base_url)
          ++ (format_bytes
              ++ (key_bytes "previous_master_hash" ++ null_or bytes_bytes m.previous_master_hash)))

  abbrev after_count : List ℕ
  after_count = slots_bytes m.slots ++ after_slots

  enough_left :
      All IsSlot m.slots
      → ltb (length after_count / min_encoded_slot_bytes) (length m.slots) ≡ false
  enough_left h =
      not_lt_div (length after_count) (length m.slots)
        (omega (arith, slots_bytes-min m.slots h, length-append (slots_bytes m.slots) after_slots))

  Optional-small :
      Optional IsHash m.previous_master_hash
      → Optional (λ v. IsU64 (length v)) m.previous_master_hash
  Optional-small h = go m.previous_master_hash h
    where
      go : (o : Option (List ℕ)) → Optional IsHash o → Optional (λ v. IsU64 (length v)) o
      go none h = tt
      go (some v) h = omega arith

  ReadsAll-decode_fields :
      IsPayload api m
      → length bytes_of ≤ max_master_bytes
      → try_reserve_exact (length m.slots) ≡ true
      → ReadsAll (decode_fields api try_reserve_exact) bytes_of m
  unfolding decode_fields payload_bytes is_utf8
  ReadsAll-decode_fields h small room =
      let (slots_small, url_small) = payload_sizes small in
      let count : length m.slots < 2 ^ 64 = omega (arith, slots_bytes-min m.slots h.slots) in
      let count_fits : ltb (length m.slots) (2 ^ 64) ≡ true = lt→ltb _ _ count in
      let enough = enough_left h.slots in
      let parsed : Reads
          (lift (ok_or (api.parse (api.as_str m.data_base_url)) invalid_data_base_url)) []
          m.data_base_url =
        rw h.url_parses (Reads-pure m.data_base_url) in
      ReadsAll-bind _ (Reads-map 4 (omega arith)) (
        ReadsAll-bind _ (Reads-require_length 4) (
          ReadsAll-bind _ (Reads-key "slots" (omega arith, refl)) (
            ReadsAll-bind _ (Reads-array (length m.slots) count) (
              ReadsAll-bind _ (Reads-test _ slot_count_too_large count_fits) (
                ReadsAll-remaining _ after_count m (
                  ReadsAll-bind _ (Reads-test_not _ slot_count_exceeds_payload enough) (
                    ReadsAll-bind _ (Reads-test _ reserve_failed room) (
                      ReadsAll-bind _ (Reads-decode_slots m.slots h.slots) (
                        ReadsAll-bind _ (Reads-key "data_base_url" (omega arith, refl)) (
                          ReadsAll-bind _
                            (Reads-text (api.as_str m.data_base_url) (omega arith) h.url_utf8)
                            (ReadsAll-bind _ parsed (
                              ReadsAll-bind _ Reads-decode_format (
                                ReadsAll-bind _
                                  (Reads-key "previous_master_hash" (omega arith, refl))
                                  (ReadsAll-last (
                                    Reads-then _
                                      (Reads-null_or_bytes m.previous_master_hash
                                        (Optional-small h.previous))
                                      (Reads-then _
                                        (Reads-require_optional_hash m.previous_master_hash
                                          h.previous)
                                        (Reads-pure m)))))))))))))))))

  -- For a master whose digests have 32 bytes, whose numbers are u64, whose URL text is UTF-8 and
  -- parses to the URL, that passes validate, whose payload is within the size limit and for
  -- whose slots the allocation succeeds, decode_payload returns that master from what
  -- encode_payload wrote.
  pub decode_payload-encode_payload :
      IsPayload api m
      → length (encode_payload api m) ≤ max_master_bytes
      → try_reserve_exact (length m.slots) ≡ true
      → validate api m ≡ ok tt
      → decode_payload api try_reserve_exact (encode_payload api m) ≡ ok m
  unfolding decode_payload new Decode.new
  decode_payload-encode_payload h small room valid =
      let layout = encode_payload-payload_bytes api m h.slots h.count h.url_size h.previous in
      let size : length bytes_of ≤ max_master_bytes = rw layout at small in
      let fits : ltb max_master_bytes (length bytes_of) ≡ false = ground arith in
      let run = (ReadsAll-decode_fields h size room).run [] (omega arith) in
      rw (layout, fits, run, finish-at bytes_of, valid)
