-- ===== src/Repo/Cbor/Items.antt =====
-- What the methods of `Decoder` accept, in terms of the same methods of `Encoder`.
use bobr.Base.{
  ℕ, ◌+◌, ◌<◌, ◌^◌, ◌≡◌, sym, ap, ◌∙◌, ◌↔◌, true, List, ◌++◌, length, All, ok, append_assoc,
  length-append, arith,
}
use bobr.Base.Bytes.{IsByte, IsU64}
use bobr.Base.Utf8.{is_utf8}
use bobr.Repo.Cbor.Encode
use bobr.Repo.Cbor.Encode.{Encoder, extend}
use bobr.Repo.Cbor.Decode
use bobr.Repo.Cbor.Decode.{Decoder, M}
use bobr.Repo.Cbor.Reads.{at, Reads}
use bobr.Repo.Cbor.Accepts.{Accepts, Accepts-weaken}
use bobr.Repo.Cbor.RoundTrip.{
  uint_bytes, bytes_bytes, text_bytes, uint-extend, bytes-extend, text-extend, Reads-uint,
  Reads-bytes, Reads-text,
}
use bobr.Repo.Cbor.Canonical.{IsBytesItem, IsTextItem, Accepts-uint, Accepts-bytes, Accepts-text}

-- Of a decoder that has consumed what `e` holds and has `input` left: the input begins with what
-- the encoder appends when it goes on to `e'`, and `d` is the decoder behind that.
abbrev pub IsNext : Encoder → Encoder → List ℕ → Decoder → Type 0
IsNext e e' input d =
    (rest : List ℕ) × (e.bytes ++ input ≡ e'.bytes ++ rest)
    × (d ≡ record { bytes = e.bytes ++ input; offset = length e'.bytes })

module _ {A : Type 0} (m : M A) (encode : A → Encoder → Encoder) (item : A → List ℕ)
    (P : A → Type 0) (extends : (v : A) (e : Encoder) → P v → encode v e ≡ extend (item v) e)
    (reads : (v : A) → P v → Reads m (item v) v) (accepts : Accepts m (λ v bs. (bs ≡ item v) × P v))
    (e : Encoder) (input : List ℕ) (v : A) (d : Decoder) where
  accepted :
      All IsByte input → m (at e.bytes input) ≡ ok (v, d) → P v × IsNext e (encode v e) input d
  unfolding extend
  accepted hb run =
      let (bs, rest, split, ed, (eb, p)) = accepts.run e.bytes input v d hb run in
      let whole : e.bytes ++ input ≡ (e.bytes ++ item v) ++ rest =
        ap (λ l. e.bytes ++ l) split ∙ rw (eb, append_assoc) in
      (
        p,
        (
          rest,
          whole ∙ sym (ap (λ (x : Encoder). x.bytes ++ rest) (extends v e p)),
          ed ∙ rw (eb, extends v e p, whole),
        ),
      )

  read_back :
      length e.bytes + length input < 2 ^ 64
      → P v × IsNext e (encode v e) input d
      → m (at e.bytes input) ≡ ok (v, d)
  unfolding extend
  read_back fits (p, (rest, whole, ed)) =
      let same : e.bytes ++ input ≡ (e.bytes ++ item v) ++ rest =
        whole ∙ ap (λ (x : Encoder). x.bytes ++ rest) (extends v e p) in
      let size = ap length same in
      let total = simp length-append at size in
      let run = (reads v p).run e.bytes rest (omega arith) in
      let start : e.bytes ++ input ≡ e.bytes ++ (item v ++ rest) =
        same ∙ append_assoc e.bytes (item v) rest in
      ap (λ bytes. m (record { bytes = bytes; offset = length e.bytes })) start
      ∙ run
      ∙ rw (ed, extends v e p, same)

-- On unread bytes with fewer than 2^64 bytes of input, Decoder::uint returns a number and a
-- decoder exactly when the number is a u64, the unread bytes begin with what Encoder::uint
-- writes for it, and the decoder stands behind that: only the shortest encoding is accepted.
pub uint_iff :
    (e : Encoder) (input : List ℕ) (value : ℕ) (d : Decoder)
    → All IsByte input
    → length e.bytes + length input < 2 ^ 64
    → (Decode.uint (at e.bytes input) ≡ ok (value, d))
      ↔ (IsU64 value × IsNext e (Encode.uint value e) input d)
uint_iff e input value d hb fits = (
  accepted Decode.uint Encode.uint uint_bytes IsU64 uint-extend Reads-uint Accepts-uint e input
      value d hb,
  read_back Decode.uint Encode.uint uint_bytes IsU64 uint-extend Reads-uint Accepts-uint e input
      value d fits,
)

-- On unread bytes with fewer than 2^64 bytes of input, Decoder::bytes returns a byte string and
-- a decoder exactly when the unread bytes begin with what Encoder::bytes writes for it and the
-- decoder stands behind that.
pub bytes_iff :
    (e : Encoder) (input value : List ℕ) (d : Decoder)
    → All IsByte input
    → length e.bytes + length input < 2 ^ 64
    → (Decode.bytes (at e.bytes input) ≡ ok (value, d))
      ↔ ((IsU64 (length value) × All IsByte value) × IsNext e (Encode.bytes value e) input d)
bytes_iff e input value d hb fits =
    let extends =
      λ (v : List ℕ) (e : Encoder) (p : IsU64 (length v) × All IsByte v). bytes-extend v e p.0 in
    let reads = λ (v : List ℕ) (p : IsU64 (length v) × All IsByte v). Reads-bytes v p.0 in
    let accepts =
      Accepts-weaken IsBytesItem
        {R = λ v bs. (bs ≡ bytes_bytes v) × (IsU64 (length v) × All IsByte v)}
        (λ v bs q. (q.0, (q.1, q.2))) Accepts-bytes in
    (
      accepted Decode.bytes Encode.bytes bytes_bytes _ extends reads accepts e input value d hb,
      read_back Decode.bytes Encode.bytes bytes_bytes _ extends reads accepts e input value d fits,
    )

-- On unread bytes with fewer than 2^64 bytes of input, Decoder::text returns a text and a
-- decoder exactly when the text is UTF-8, the unread bytes begin with what Encoder::text writes
-- for it, and the decoder stands behind that.
pub text_iff :
    (e : Encoder) (input value : List ℕ) (d : Decoder)
    → All IsByte input
    → length e.bytes + length input < 2 ^ 64
    → (Decode.text (at e.bytes input) ≡ ok (value, d)) ↔ (
        (IsU64 (length value) × (is_utf8 value ≡ true) × All IsByte value)
        × IsNext e (Encode.text value e) input d)
text_iff e input value d hb fits =
    let extends =
      λ (v : List ℕ) (e : Encoder) (p : IsU64 (length v) × (is_utf8 v ≡ true) × All IsByte v).
        text-extend v e p.0 in
    let reads = λ (v : List ℕ) (p : IsU64 (length v) × (is_utf8 v ≡ true) × All IsByte v).
      Reads-text v p.0 p.1 in
    let accepts =
      Accepts-weaken IsTextItem
        {R = λ v bs. (bs ≡ text_bytes v) × (IsU64 (length v) × (is_utf8 v ≡ true) × All IsByte v)}
        (λ v bs q. (q.0, (q.1, q.2, q.3))) Accepts-text in
    (
      accepted Decode.text Encode.text text_bytes _ extends reads accepts e input value d hb,
      read_back Decode.text Encode.text text_bytes _ extends reads accepts e input value d fits,
    )
