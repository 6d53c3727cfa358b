-- ===== src/Repo/Master/Canonical.antt =====
-- The payloads that `decode_payload` accepts.
use bobr.Base.{
  ℕ, zero, suc, ◌/◌, ◌^◌, ◌≡◌, refl, ap, Bool, true, false, Option, none, some, List, [], ◌∷◌,
  length, All, String, append-nil, Bool-cases, inl, inr, ltb, ◌==◌, ==_iff, ok_or, if◌then◌else◌,
  ok, bytes_eq, eq_of_bytes_eq, >>=-eq-ok,
}
use bobr.Base.Bytes.{IsU64, IsByte}
use bobr.Base.Text.{codes}
use bobr.Base.Utf8.{is_utf8}
use bobr.Repo.Error.{
  RepositoryError, invalid_data_base_url, slot_count_too_large, slot_count_exceeds_payload,
  reserve_failed, unsupported_format, unexpected_key, digest_not_32_bytes, wrong_entry_count,
}
use bobr.Repo.Cbor.Decode
use bobr.Repo.Cbor.Decode.{Decoder, M, pure, fail, lift, continue, ◌>>=◌, ◌>>◌}
use bobr.Repo.Cbor.Reads.{at}
use bobr.Repo.Cbor.Accepts.{
  Accepts, Accepts-step, Accepts-return, Accepts-fail, Accepts-if, Accepts-weaken, finish-nil,
}
use bobr.Repo.Cbor.Canonical.{
  IsBytesItem, IsUintItem, IsNullOr, Accepts-uint, Accepts-array, Accepts-map, Accepts-bytes,
  Accepts-text, Accepts-null_or_uint, Accepts-null_or_bytes,
}
use bobr.Repo.Cbor.RoundTrip.{Optional, uint_bytes, bytes_bytes, text_bytes, null_or}
use bobr.Repo.Master.{
  Master, UrlApi, require_text, require_length, require_hash, hash_field, decode_slot, decode_slots,
  require_optional_hash, remaining, min_encoded_slot_bytes, max_master_bytes, decode_fields,
  decode_format, decode_payload, validate, new, repository_format,
}
use bobr.Repo.Master.Layout.{
  IsHash, IsSlot, field_bytes, format_bytes, slot_bytes, slots_bytes, payload_bytes,
}

Accepts-require_text : (name : List ℕ) → Accepts (require_text name) (λ x bs. bs ≡ text_bytes name)
unfolding require_text
Accepts-require_text name = Accepts-step _ Accepts-text λ v bs q.
    Accepts-if (bytes_eq v name)
      (λ t. Accepts-return tt (rw (append-nil, ← eq_of_bytes_eq v name t) q.0))
      (λ _. Accepts-fail unexpected_key)

Accepts-require_hash :
    (v : List ℕ) → Accepts (lift (require_hash v)) (λ w bs. (w ≡ v) × (bs ≡ []) × IsHash v)
unfolding require_hash
Accepts-require_hash v = elim (Bool-cases (length v == 32)) [
  | inl t ↦ rw t (Accepts-return v (refl, refl, (==_iff (length v) 32).0 t))
  | inr f ↦ rw f (Accepts-fail digest_not_32_bytes)
]

Accepts-require_length :
    (n k : ℕ) → Accepts (lift (require_length n k)) (λ x bs. (bs ≡ []) × (n ≡ k))
unfolding require_length
Accepts-require_length n k = elim (Bool-cases (n == k)) [
  | inl t ↦ rw t (Accepts-return tt (refl, (==_iff n k).0 t))
  | inr f ↦ rw f (Accepts-fail wrong_entry_count)
]

Accepts-field :
    (name : String)
    → Accepts (hash_field (codes name)) (λ v bs. (bs ≡ field_bytes name v) × IsHash v)
unfolding hash_field
Accepts-field name = Accepts-step _ (Accepts-require_text (codes name)) λ x bs k.
    Accepts-step _ Accepts-bytes λ v cs q.
      Accepts-weaken _ (λ w ds r. (rw (k, q.0, r.1, r.0, append-nil), rw r.0 r.2))
        (Accepts-require_hash v)

IsNullOr-uint :
    (o : Option ℕ) (bs : List ℕ)
    → IsNullOr IsUintItem o bs
    → (bs ≡ null_or uint_bytes o) × Optional IsU64 o
IsNullOr-uint none bs q = (q, tt)
IsNullOr-uint (some v) bs q = q

Accepts-decode_slot : Accepts decode_slot (λ s bs. (bs ≡ slot_bytes s) × IsSlot s)
unfolding decode_slot slot_bytes
Accepts-decode_slot = Accepts-step _ Accepts-map λ n b0 q0.
    Accepts-step _ (Accepts-require_length n 6) λ _ b1 q1.
      Accepts-step _ (Accepts-field "build") λ build b2 q2.
        Accepts-step _ (Accepts-field "reuse") λ reuse b3 q3.
          Accepts-step _ (Accepts-require_text (codes "serial")) λ _ b4 q4.
            Accepts-step _ Accepts-uint λ serial b5 q5.
              Accepts-step _ (Accepts-field "file_list") λ file_list b6 q6.
                Accepts-step _ (Accepts-field "object_list") λ object_list b7 q7.
                  Accepts-step _ (Accepts-require_text (codes "retain_until")) λ _ b8 q8.
                    Accepts-step _ Accepts-null_or_uint λ retain b9 q9.
                      let (e9, u9) = IsNullOr-uint retain b9 q9 in
                      Accepts-return _ (
                        rw (q0.0, q1.1, q1.0, q2.0, q3.0, q4, q5.0, q6.0, q7.0, q8, e9, append-nil),
                        record {
                          serial = q5.1;
                          build = q2.1;
                          reuse = q3.1;
                          object_list = q7.1;
                          file_list = q6.1;
                          retain_until = u9;
                        },
                      )

Accepts-decode_slots :
    (n : ℕ)
    → Accepts (decode_slots n) (λ ss bs. (bs ≡ slots_bytes ss) × (length ss ≡ n) × All IsSlot ss)
unfolding decode_slots slots_bytes
Accepts-decode_slots zero = Accepts-return [] (refl, refl, tt)
Accepts-decode_slots (suc n) = Accepts-step _ Accepts-decode_slot λ s b0 q0.
    Accepts-step _ (Accepts-decode_slots n)
      λ ss b1 q1. Accepts-return (s ∷ ss) (rw (q0.0, q1.0, append-nil), ap suc q1.1, (q0.1, q1.2))

Accepts-remaining : Accepts remaining (λ n bs. bs ≡ [])
unfolding remaining
Accepts-remaining = record {
  run = λ pre whole n d' bytes e. ([], whole, refl, rw (append-nil pre) (cc e), refl);
}

Accepts-test :
    (t : Bool) (x : RepositoryError)
    → Accepts (if t then pure tt else fail x) (λ u bs. (bs ≡ []) × (t ≡ true))
Accepts-test t x = Accepts-if t (λ e. Accepts-return tt (refl, e)) (λ _. Accepts-fail x)

Accepts-test_not :
    (t : Bool) (x : RepositoryError)
    → Accepts (if t then fail x else pure tt) (λ u bs. (bs ≡ []) × (t ≡ false))
Accepts-test_not t x = Accepts-if t (λ _. Accepts-fail x) (λ e. Accepts-return tt (refl, e))

Accepts-decode_format : Accepts decode_format (λ u bs. bs ≡ format_bytes)
unfolding decode_format
Accepts-decode_format = Accepts-step _ (Accepts-require_text (codes "repository_format")) λ _ b0 q0.
    Accepts-step _ Accepts-uint λ v b1 q1.
      Accepts-weaken _
        (λ _ b2 q2. let one : v ≡ 1 = (==_iff v 1).0 q2.1 in rw (q0, q1.0, q2.0, append-nil, one))
        (Accepts-test (v == repository_format) unsupported_format)

Accepts-require_optional_hash :
    (o : Option (List ℕ))
    → Accepts (lift (require_optional_hash o)) (λ p bs. (p ≡ o) × (bs ≡ []) × Optional IsHash o)
unfolding require_optional_hash require_hash
Accepts-require_optional_hash none = Accepts-return none (refl, refl, tt)
Accepts-require_optional_hash (some v) = elim (Bool-cases (length v == 32)) [
  | inl t ↦ rw t (Accepts-return (some v) (refl, refl, (==_iff (length v) 32).0 t))
  | inr f ↦ rw f (Accepts-fail digest_not_32_bytes)
]

IsNullOr-bytes :
    (o : Option (List ℕ)) (bs : List ℕ) → IsNullOr IsBytesItem o bs → bs ≡ null_or bytes_bytes o
IsNullOr-bytes none bs q = q
IsNullOr-bytes (some v) bs q = q.0

Accepts-parse :
    {Url : Type 0} (o : Option Url)
    → Accepts (lift (ok_or o invalid_data_base_url)) (λ u bs. (bs ≡ []) × (o ≡ some u))
Accepts-parse none = Accepts-fail invalid_data_base_url
Accepts-parse (some u) = Accepts-return u (refl, refl)

module _ {Url : Type 0} (api : UrlApi Url) (try_reserve_exact : ℕ → Bool) where
  -- The bytes `bs` are the payload of `m` with the URL written as `text`.
  pub record IsPayloadOf (m : Master Url) (text bs : List ℕ) : Type 0 where
    pub url : api.parse text ≡ some m.data_base_url
    pub url_utf8 : is_utf8 text ≡ true
    pub layout : bs ≡ payload_bytes m.previous_master_hash text m.slots
    pub slots : All IsSlot m.slots
    pub previous : Optional IsHash m.previous_master_hash

  Accepts-decode_fields :
      Accepts
        (decode_fields api try_reserve_exact)
        (λ m bs. (text : List ℕ) × IsPayloadOf m text bs)
  unfolding decode_fields payload_bytes
  Accepts-decode_fields = Accepts-step _ Accepts-map λ n b0 q0.
      Accepts-step _ (Accepts-require_length n 4) λ _ b1 q1.
        Accepts-step _ (Accepts-require_text (codes "slots")) λ _ b2 q2.
          Accepts-step _ Accepts-array λ count b3 q3.
            Accepts-step _ (Accepts-test (ltb count (2 ^ 64)) slot_count_too_large) λ _ b4 q4.
              Accepts-step _ Accepts-remaining λ left b5 q5.
                Accepts-step _
                  (Accepts-test_not (ltb (left / min_encoded_slot_bytes) count)
                    slot_count_exceeds_payload)
                  λ _ b6 q6.
                    Accepts-step _ (Accepts-test (try_reserve_exact count) reserve_failed)
                      λ _ b7 q7. Accepts-step _ (Accepts-decode_slots count) λ ss b8 q8.
                        Accepts-step _ (Accepts-require_text (codes "data_base_url")) λ _ b9 q9.
                          Accepts-step _ Accepts-text λ text b10 q10.
                            Accepts-step _ (Accepts-parse (api.parse text)) λ url b11 q11.
                              Accepts-step _ Accepts-decode_format λ _ b12 q12.
                                Accepts-step _ (Accepts-require_text (codes "previous_master_hash"))
                                  λ _ b13 q13. Accepts-step _ Accepts-null_or_bytes λ o b14 q14.
                                    Accepts-step _ (Accepts-require_optional_hash o) λ p b15 q15.
                                      Accepts-return
                                        (record {
                                          previous_master_hash = p;
                                          data_base_url = url;
                                          slots = ss;
                                        })
                                        (
                                          text,
                                          record {
                                            url = q11.1;
                                            url_utf8 = q10.2;
                                            layout = rw (
                                              q0.0,
                                              q1.1,
                                              q1.0,
                                              q2,
                                              q3.0,
                                              q4.0,
                                              q5,
                                              q6.0,
                                              q7.0,
                                              q8.0,
                                              q9,
                                              q10.0,
                                              q11.0,
                                              q12,
                                              q13,
                                              IsNullOr-bytes o b14 q14,
                                              q15.0,
                                              q15.1,
                                              append-nil,
                                              ← q8.1,
                                            );
                                            slots = q8.2;
                                            previous = rw q15.0 q15.2;
                                          },
                                        )

  -- From any bytes that decode_payload accepts, the bytes are exactly the canonical payload
  -- layout of the master returned, for some UTF-8 text that parses to its URL, its digests have
  -- 32 bytes and its numbers are u64, and the master passes validate.
  pub decode_payload-IsPayloadOf :
      (bytes : List ℕ) (m : Master Url)
      → All IsByte bytes
      → decode_payload api try_reserve_exact bytes ≡ ok m
      → (text : List ℕ) × IsPayloadOf m text bytes × (validate api m ≡ ok tt)
  unfolding decode_payload new Decode.new
  decode_payload-IsPayloadOf bytes m hb e =
      elim (Bool-cases (ltb max_master_bytes (length bytes))) [
        | inl large ↦ absurd (cc (rw large at e))
        | inr small ↦
            let ((fields, d), run, after) =
              >>=-eq-ok (decode_fields api try_reserve_exact (at [] bytes)) _ (rw small at e) in
            let (bs, rest, split, ed, (text, p)) =
              Accepts-decode_fields.run [] bytes fields d hb run in
            let (_, at_end, checked) = >>=-eq-ok (Decode.finish d) _ after in
            let (_, valid, same) = >>=-eq-ok (validate api fields) _ checked in
            let whole : rest ≡ [] = finish-nil bs rest _ (rw ed at at_end) in
            let fields_m : fields ≡ m = cc same in
            (text, rw (← fields_m, split, whole, append-nil) p, rw (← fields_m) valid)
      ]
