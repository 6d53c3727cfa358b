-- ===== src/Launcher/Events/Frames.antt =====
-- The events that come out of the stream, whatever the reads make of it.
use bobr.Base.{
  ℕ, ◌+◌, ◌≤◌, ◌<◌, ◌≡◌, refl, sym, ap, ◌∙◌, true, false, Option, none, some, List, [], ◌∷◌, ◌++◌,
  append_assoc, append-nil, length, length-append, take, drop, take-append, drop-append, ltb,
  Result, ok, ◌>>=◌, >>=-eq-ok, ok_inj, inl, inr, Bool-cases, Option-cases, arith,
}
use bobr.Base.Bytes.{to_be_bytes, from_be_bytes, from_be_bytes-to_be_bytes, length-to_be_bytes}
use bobr.Launcher.Events.{max_event_frame_len, EventError, write_sandbox_event, next_event}

-- The front of what is in front.
pub append_split :
    (p q f rest : List ℕ)
    → p ++ q ≡ f ++ rest
    → length f ≤ length p
    → (p1 : List ℕ) × (p ≡ f ++ p1) × (p1 ++ q ≡ rest)
append_split p q [] rest e h = (p, refl, e)
append_split [] q (b ∷ f) rest e h = absurd (omega arith)
append_split (a ∷ p) q (b ∷ f) rest e h =
    let same : a ≡ b = cc e in
    let tail : p ++ q ≡ f ++ rest = cc e in
    let (p1, is, joined) = append_split p q f rest tail (omega arith) in (p1, cc (same, is), joined)

module _ {Event : Type 0} (to_vec : Event → Option (List ℕ))
    (from_slice : List ℕ → Option Event) where
  -- The bytes that `write_sandbox_event` writes for the events.
  unfoldable pub write_events : List Event → List ℕ → Result EventError (List ℕ)
  write_events [] writer = ok writer
  write_events (event ∷ events) writer =
      write_sandbox_event to_vec from_slice event writer >>= λ writer. write_events events writer

  -- The frame of an event.
  pub record IsFrame (event : Event) (frame : List ℕ) : Type 0 where
    pub payload : List ℕ
    pub serialized : to_vec event ≡ some payload
    pub small : length payload ≤ max_event_frame_len
    pub is : frame ≡ to_be_bytes 4 (length payload) ++ payload

  -- The frames of some events, one after another.
  pub data AreFrames : List Event → List ℕ → Type 0 where
    no_frame : AreFrames [] []
    next_frame :
        (event : Event) (frame : List ℕ) (events : List Event) (bytes : List ℕ)
        → IsFrame event frame
        → AreFrames events bytes
        → AreFrames (event ∷ events) (frame ++ bytes)

  write_sandbox_event-IsFrame :
      (event : Event) (writer later : List ℕ)
      → write_sandbox_event to_vec from_slice event writer ≡ ok later
      → (frame : List ℕ) × IsFrame event frame × (later ≡ writer ++ frame)
  unfolding write_sandbox_event
  write_sandbox_event-IsFrame event writer later e = elim (Option-cases (to_vec event)) [
    | inl gone ↦ absurd (cc (rw gone at e))
    | inr (payload, there) ↦ elim (Bool-cases (ltb max_event_frame_len (length payload))) [
      | inl t ↦ absurd (cc (rw (there, t) at e))
      | inr f ↦ (
        to_be_bytes 4 (length payload) ++ payload,
        record { payload = payload; serialized = there; small = ground arith; is = refl },
        sym (ok_inj (rw (there, f) at e)),
      )
    ]
  ]

  pub write_events-AreFrames :
      (events : List Event) (writer later : List ℕ)
      → write_events events writer ≡ ok later
      → (bytes : List ℕ) × AreFrames events bytes × (later ≡ writer ++ bytes)
  unfolding write_events
  write_events-AreFrames [] writer later e =
      ([], no_frame, sym (ok_inj e) ∙ sym (append-nil writer))
  write_events-AreFrames (event ∷ events) writer later e =
      let (between, one, e1) = >>=-eq-ok (write_sandbox_event to_vec from_slice event writer) _ e in
      let (frame, is, first) = write_sandbox_event-IsFrame event writer between one in
      let (bytes, are, rest) = write_events-AreFrames events between later e1 in
      (
        frame ++ bytes,
        next_frame event frame events bytes is are,
        rest ∙ ap (λ w. w ++ bytes) first ∙ append_assoc writer frame bytes,
      )

  pub length-IsFrame :
      (event : Event) (frame : List ℕ) (is : IsFrame event frame)
      → length frame ≡ 4 + length is.payload
  length-IsFrame event frame is =
      ap length is.is
      ∙ length-append (to_be_bytes 4 (length is.payload)) is.payload
      ∙ ap (λ n. n + length is.payload) (length-to_be_bytes 4 (length is.payload))

  -- A header behind which the frame is not complete.
  pub next_event-partial :
      (event : Event) (frame p q rest : List ℕ)
      → IsFrame event frame
      → p ++ q ≡ frame ++ rest
      → length p < length frame
      → next_event to_vec from_slice p ≡ ok none
  unfolding next_event
  next_event-partial event frame p q rest is e short = elim (Bool-cases (ltb (length p) 4)) [
    | inl t ↦ rw t refl
    | inr f ↦
        let count = length-IsFrame event frame is in
        let header = to_be_bytes 4 (length is.payload) in
        let joined : p ++ q ≡ header ++ (is.payload ++ rest) =
          e ∙ ap (λ w. w ++ rest) is.is ∙ append_assoc header is.payload rest in
        let four : length header ≡ 4 = length-to_be_bytes 4 (length is.payload) in
        let (p1, split, more) =
          append_split p q header (is.payload ++ rest) joined (ground (arith, four)) in
        let front : take 4 p ≡ header =
          ap (take 4) split ∙ ap (λ n. take n (header ++ p1)) (sym four) ∙ take-append header p1 in
        let small = is.small in
        let read : from_be_bytes (take 4 p) ≡ length is.payload =
          ap from_be_bytes front ∙ from_be_bytes-to_be_bytes 4 (length is.payload) (omega arith) in
        let fits : ltb max_event_frame_len (length is.payload) ≡ false = ground arith in
        let cut : ltb (length p) (4 + length is.payload) ≡ true = ground (arith, count) in
        rw (f, read, fits, cut) refl
  ]

  module _
      (decoded : (event : Event) (payload : List ℕ)
        → to_vec event ≡ some payload
        → from_slice payload ≡ some event) where
    pub next_event-frame :
        (event : Event) (frame p1 : List ℕ)
        → IsFrame event frame
        → next_event to_vec from_slice (frame ++ p1) ≡ ok (some (event, p1))
    unfolding next_event
    next_event-frame event frame p1 is =
        let header = to_be_bytes 4 (length is.payload) in
        let four : length header ≡ 4 = length-to_be_bytes 4 (length is.payload) in
        let joined : frame ++ p1 ≡ header ++ (is.payload ++ p1) =
          ap (λ w. w ++ p1) is.is ∙ append_assoc header is.payload p1 in
        let count = length-IsFrame event frame is in
        let whole = length-append frame p1 in
        let front : take 4 (frame ++ p1) ≡ header =
          ap (take 4) joined
          ∙ ap (λ n. take n (header ++ (is.payload ++ p1))) (sym four)
          ∙ take-append header (is.payload ++ p1) in
        let back : drop 4 (frame ++ p1) ≡ is.payload ++ p1 =
          ap (drop 4) joined
          ∙ ap (λ n. drop n (header ++ (is.payload ++ p1))) (sym four)
          ∙ drop-append header (is.payload ++ p1) in
        let small = is.small in
        let read : from_be_bytes (take 4 (frame ++ p1)) ≡ length is.payload =
          ap from_be_bytes front ∙ from_be_bytes-to_be_bytes 4 (length is.payload) (omega arith) in
        let long : ltb (length (frame ++ p1)) 4 ≡ false = ground (arith, count, whole) in
        let fits : ltb max_event_frame_len (length is.payload) ≡ false = ground arith in
        let all : ltb (length (frame ++ p1)) (4 + length is.payload) ≡ false =
          ground (arith, count, whole) in
        let body : take (length is.payload) (drop 4 (frame ++ p1)) ≡ is.payload =
          ap (take (length is.payload)) back ∙ take-append is.payload p1 in
        let left : drop (4 + length is.payload) (frame ++ p1) ≡ p1 =
          ap (λ n. drop n (frame ++ p1)) (sym count) ∙ drop-append frame p1 in
        rw (long, read, fits, all, body, decoded event is.payload is.serialized, left) refl
