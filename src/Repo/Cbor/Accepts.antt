-- ===== src/Repo/Cbor/Accepts.antt =====
-- What an action that succeeded has consumed: rules for inverting a run of the decoder.
use bobr.Base.{
  ℕ, ◌+◌, ◌^◌, ◌≤◌, ◌<◌, ◌≡◌, refl, sym, ap, ◌∙◌, Bool, true, false, List, [], ◌∷◌, ◌++◌, length,
  take, drop, length-append, length-take, append_assoc, append-nil, take-append-drop, Result, ok,
  err, ◌==◌, All, All-append_left, All-append_right, if◌then◌else◌, arith,
}
use bobr.Base.Bytes.{IsByte}
use bobr.Repo.Error.{RepositoryError, truncated_cbor_integer}
use bobr.Repo.Cbor.Decode.{
  Decoder, M, ◌>>=◌, pure, fail, continue, byte, take_bytes, take_array, finish,
}
use bobr.Repo.Cbor.Reads.{at, byte-cons, byte-nil, take_bytes-append}

-- The run from `at pre whole` ended in `d'` having consumed bytes for which `Q` holds.
abbrev pub Consumed : List ℕ → List ℕ → Decoder → (List ℕ → Type 0) → Type 0
Consumed pre whole d' Q =
    (bs rest : List ℕ) × (whole ≡ bs ++ rest) × (d' ≡ at (pre ++ bs) rest) × Q bs

pub record Accepts {A : Type 0} (m : M A) (Q : A → List ℕ → Type 0) : Type 0 where
  pub run :
      (pre whole : List ℕ) (a : A) (d' : Decoder)
      → All IsByte whole
      → m (at pre whole) ≡ ok (a, d')
      → Consumed pre whole d' (Q a)

pub continue-eq-ok :
    {A B : Type 0} (r : Result RepositoryError (A × Decoder)) (f : A → M B) (b : B) (d' : Decoder)
    → continue r f ≡ ok (b, d')
    → (a : A) × (d : Decoder) × (r ≡ ok (a, d)) × (f a d ≡ ok (b, d'))
continue-eq-ok (ok (a, d)) f b d' e = (a, d, refl, e)
continue-eq-ok (err x) f b d' e = cc

-- `R a b` holds of what the rest of the block consumes after the action has returned `a`.
pub Accepts-bind :
    {A B : Type 0} {m : M A} {Q : A → List ℕ → Type 0} {S : B → List ℕ → Type 0} (f : A → M B)
    (R : A → B → List ℕ → Type 0)
    → Accepts m Q
    → ((a : A) → Accepts (f a) (R a))
    → ((a : A) (b : B) (bs cs : List ℕ) → Q a bs → R a b cs → S b (bs ++ cs))
    → Accepts (m >>= f) S
Accepts-bind {m = m} f R hm hf join = record {
  run = λ pre whole b d' bytes e.
      let (a, d, em, ef) = continue-eq-ok (m (at pre whole)) f b d' e in
      let (bs, more, split, ed, q) = hm.run pre whole a d bytes em in
      let (cs, rest, split', ed', r) =
        (hf a).run (pre ++ bs) more b d' (All-append_right IsByte bs more (rw split at bytes))
          (rw ed at ef) in
      (
        bs ++ cs,
        rest,
        rw (append_assoc bs cs rest) (split ∙ ap (λ l. bs ++ l) split'),
        rw (← append_assoc pre bs cs) ed',
        join a b bs cs q r,
      );
}

-- The same with the postcondition carried forward: the rest of the block is shown for the bytes
-- that the action has consumed.
pub Accepts-step :
    {A B : Type 0} {m : M A} {Q : A → List ℕ → Type 0} {S : B → List ℕ → Type 0} (f : A → M B)
    → Accepts m Q
    → ((a : A) (bs : List ℕ) → Q a bs → Accepts (f a) (λ b cs. S b (bs ++ cs)))
    → Accepts (m >>= f) S
Accepts-step {m = m} f hm hf = record {
  run = λ pre whole b d' bytes e.
      let (a, d, em, ef) = continue-eq-ok (m (at pre whole)) f b d' e in
      let (bs, more, split, ed, q) = hm.run pre whole a d bytes em in
      let (cs, rest, split', ed', r) =
        (hf a bs q).run (pre ++ bs) more b d' (All-append_right IsByte bs more (rw split at bytes))
          (rw ed at ef) in
      (
        bs ++ cs,
        rest,
        rw (append_assoc bs cs rest) (split ∙ ap (λ l. bs ++ l) split'),
        rw (← append_assoc pre bs cs) ed',
        r,
      );
}

pub Accepts-return : {A : Type 0} (a : A) {Q : A → List ℕ → Type 0} → Q a [] → Accepts (pure a) Q
Accepts-return a {Q = Q} q = record {
  run = λ pre whole x d' bytes e.
      let same : x ≡ a = cc e in ([], whole, refl, rw (append-nil pre) (cc e), rw same q);
}

pub Accepts-fail : {A : Type 0} (x : RepositoryError) {Q : A → List ℕ → Type 0} → Accepts (fail x) Q
Accepts-fail x = record { run = λ pre whole a d' bytes e. absurd (cc e) }

pub Accepts-weaken :
    {A : Type 0} {m : M A} (Q : A → List ℕ → Type 0) {R : A → List ℕ → Type 0}
    → ((a : A) (bs : List ℕ) → Q a bs → R a bs)
    → Accepts m Q
    → Accepts m R
Accepts-weaken Q f h = record {
  run = λ pre whole a d' bytes e.
      let (bs, rest, split, ed, q) = h.run pre whole a d' bytes e in
      (bs, rest, split, ed, f a bs q);
}

pub Accepts-if :
    {A : Type 0} (t : Bool) {m n : M A} {Q : A → List ℕ → Type 0}
    → (t ≡ true → Accepts m Q)
    → (t ≡ false → Accepts n Q)
    → Accepts (if t then m else n) Q
Accepts-if true hm hn = hm refl
Accepts-if false hm hn = hn refl

byte_run :
    (pre whole : List ℕ) (b : ℕ) (d' : Decoder)
    → All IsByte whole
    → byte (at pre whole) ≡ ok (b, d')
    → Consumed pre whole d' (λ bs. (bs ≡ b ∷ []) × IsByte b)
byte_run pre [] b d' bytes e = absurd (cc (byte-nil pre, e))
byte_run pre (x ∷ rest) b d' bytes e =
    let seen = byte-cons pre x rest in
    let same : b ≡ x = cc (seen, e) in
    (x ∷ [], rest, refl, cc (seen, e), (rw same, rw same bytes.0))

pub Accepts-byte : Accepts byte (λ b bs. (bs ≡ b ∷ []) × IsByte b)
Accepts-byte = record { run = byte_run }

-- The three tests of `Decoder::take`.
take_bytes_room :
    (n : ℕ) (pre whole : List ℕ) (r : List ℕ × Decoder)
    → take_bytes n (at pre whole) ≡ ok r
    → (length pre + n < 2 ^ 64) × (n ≤ length whole)
unfolding take_bytes
take_bytes_room n pre whole r e = ground (arith, length-append pre whole)

-- `n` bytes, taken as they are.
abbrev pub IsTaken : ℕ → List ℕ → List ℕ → Type 0
IsTaken n v bs = (bs ≡ v) × (length v ≡ n) × (n < 2 ^ 64) × All IsByte v

take_bytes_run :
    (n : ℕ) (pre whole v : List ℕ) (d' : Decoder)
    → All IsByte whole
    → take_bytes n (at pre whole) ≡ ok (v, d')
    → Consumed pre whole d' (IsTaken n v)
take_bytes_run n pre whole v d' bytes e =
    let (sum, room) = take_bytes_room n pre whole (v, d') e in
    let size : length (take n whole) ≡ n = length-take n whole room in
    let split : take n whole ++ drop n whole ≡ whole = take-append-drop n whole in
    let run = rw split at (take_bytes-append n pre (take n whole) (drop n whole) size sum) in
    let same : v ≡ take n whole = cc (run, e) in
    let taken : All IsByte (take n whole) =
      All-append_left IsByte (take n whole) (drop n whole) (rw split bytes) in
    (
      take n whole,
      drop n whole,
      sym split,
      cc (run, e),
      (sym same, rw same size, omega arith, rw same taken),
    )

pub Accepts-take_bytes : (n : ℕ) → Accepts (take_bytes n) (IsTaken n)
Accepts-take_bytes n = record { run = take_bytes_run n }

pub Accepts-take_array : (n : ℕ) → Accepts (take_array n) (IsTaken n)
unfolding take_array
Accepts-take_array n =
    Accepts-bind _ (λ v w bs. (w ≡ v) × (bs ≡ [])) (Accepts-take_bytes n)
      (λ v.
        Accepts-if (length v == n) (λ _. Accepts-return v (refl, refl))
          (λ _. Accepts-fail truncated_cbor_integer))
      (λ v w bs cs q r. rw (r.0, r.1, append-nil) q)

-- `finish` succeeds only at the end of the input.
pub finish-nil :
    (pre rest : List ℕ) (r : Unit {0} × Decoder) → finish (at pre rest) ≡ ok r → rest ≡ []
unfolding finish
finish-nil pre [] r e = refl
finish-nil pre (x ∷ rest) r e = ground (arith, length-append pre (x ∷ rest))
