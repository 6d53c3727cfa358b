-- ===== src/Launcher/Events/Stream.antt =====
-- The events that come out of the stream, whatever the reads make of it.
use bobr.Base.{
  ℕ, zero, suc, ◌<◌, ◌≡◌, refl, sym, ap, ◌∙◌, subst, true, Option, none, some, List, [], ◌∷◌, ◌++◌,
  append_assoc, append-nil, length, length-append, ltb, Result, ok, inl, inr, Bool-cases, arith,
}
use bobr.Launcher.Events.{
  EventError, Read, bytes_read, would_block, interrupted, failed, next_event, emit_events,
  drain_sandbox_events,
}
use bobr.Launcher.Events.Frames.{
  append_split, write_events, AreFrames, no_frame, next_frame, write_events-AreFrames,
  length-IsFrame, next_event-partial, next_event-frame,
}

module _ {Event : Type 0} (to_vec : Event → Option (List ℕ))
    (from_slice : List ℕ → Option Event) where
  module _
      (decoded : (event : Event) (payload : List ℕ)
        → to_vec event ≡ some payload
        → from_slice payload ≡ some event) where
    -- The callback that keeps the events.
    abbrev pub keep : Event → List Event → Option (List Event)
    keep event events = some (events ++ event ∷ [])

    -- Some events come out, the frames of the others are there or to come.
    record Emits (run : Result EventError (List ℕ × List Event)) (before : List Event)
        (events : List Event) (to_come : List ℕ) : Type 0 where
      pub emitted : List Event
      pub left : List Event
      held : List ℕ
      pub all : events ≡ emitted ++ left
      pub ran : run ≡ ok (held, before ++ emitted)
      frames : AreFrames to_vec from_slice left (held ++ to_come)
      over : to_come ≡ [] → (left ≡ []) × (held ≡ [])

    next_event-nil : next_event to_vec from_slice [] ≡ ok none
    unfolding next_event
    next_event-nil = refl

    emit_events-Emits :
        (fuel : ℕ) (p q : List ℕ) (before events : List Event) (bytes : List ℕ)
        → AreFrames to_vec from_slice events bytes
        → p ++ q ≡ bytes
        → length p < fuel
        → Emits (emit_events to_vec from_slice keep fuel p before) before events q
    unfolding emit_events
    emit_events-Emits zero p q before events bytes are e enough = absurd (omega arith)
    emit_events-Emits (suc fuel) (b ∷ p) q before [] bytes no_frame e enough = absurd (cc e)
    emit_events-Emits (suc fuel) [] q before [] bytes no_frame e enough = record {
      emitted = [];
      left = [];
      held = [];
      all = refl;
      ran = rw next_event-nil (ap (λ s. ok ([], s)) (sym (append-nil before)));
      frames = subst (AreFrames to_vec from_slice []) (sym e) no_frame;
      over = λ h. (refl, refl);
    }
    emit_events-Emits (suc fuel) p q before (event ∷ events) bytes
          (next_frame _ frame _ rest is are) e enough =
        elim (Bool-cases (ltb (length p) (length frame))) [
          | inl t ↦ record {
            emitted = [];
            left = event ∷ events;
            held = p;
            all = refl;
            ran =
                rw (next_event-partial to_vec from_slice event frame p q rest is e (ground arith))
                  (ap (λ s. ok (p, s)) (sym (append-nil before)));
            frames =
                subst (AreFrames to_vec from_slice (event ∷ events)) (sym e)
                  (next_frame event frame events rest is are);
            over = λ h. absurd (
                let long =
                  ap length (sym (append-nil p) ∙ ap (λ w. p ++ w) (sym h) ∙ e)
                  ∙ length-append frame rest in
                ground (arith, long));
          }
          | inr f ↦
              let (p1, split, joined) = append_split p q frame rest e (ground arith) in
              let one =
                ap (next_event to_vec from_slice) split
                ∙ next_event-frame to_vec from_slice decoded event frame p1 is in
              let size = ap length split ∙ length-append frame p1 in
              let four = length-IsFrame to_vec from_slice event frame is in
              let tail =
                emit_events-Emits fuel p1 q (before ++ event ∷ []) events rest are joined
                  (omega (arith, size, four, enough)) in
              record {
                emitted = event ∷ tail.emitted;
                left = tail.left;
                held = tail.held;
                all = ap (λ l. event ∷ l) tail.all;
                ran = rw one (
                    tail.ran
                    ∙ ap (λ s. ok (tail.held, s)) (append_assoc before (event ∷ []) tail.emitted));
                frames = tail.frames;
                over = tail.over;
              }
        ]

    -- Reads that go on, and their bytes.
    abbrev pub AreData : List Read → Type 0
    AreData [] = Unit
    AreData (bytes_read [] ∷ reads) = ⊥
    AreData (bytes_read (b ∷ chunk) ∷ reads) = AreData reads
    AreData (interrupted ∷ reads) = AreData reads
    AreData (would_block ∷ reads) = ⊥
    AreData (failed ∷ reads) = ⊥

    abbrev pub data_of : List Read → List ℕ
    data_of [] = []
    data_of (bytes_read chunk ∷ reads) = chunk ++ data_of reads
    data_of (interrupted ∷ reads) = data_of reads
    data_of (would_block ∷ reads) = data_of reads
    data_of (failed ∷ reads) = data_of reads

    drain_sandbox_events-AreFrames :
        (reads : List Read) (held : List ℕ) (before events : List Event)
        → AreData reads
        → AreFrames to_vec from_slice events (held ++ data_of reads)
        → (data_of reads ≡ [] → (events ≡ []) × (held ≡ []))
        → drain_sandbox_events to_vec from_slice keep (reads ++ bytes_read [] ∷ []) held before
          ≡ ok (true, [], before ++ events)
    unfolding drain_sandbox_events
    drain_sandbox_events-AreFrames [] held before events h frames over =
        let (none_left, empty) = over refl in
        rw (none_left, empty) (ap (λ s. ok (true, [], s)) (sym (append-nil before)))
    drain_sandbox_events-AreFrames (interrupted ∷ reads) held before events h frames over =
        drain_sandbox_events-AreFrames reads held before events h frames over
    drain_sandbox_events-AreFrames (would_block ∷ reads) held before events h frames over = absurd h
    drain_sandbox_events-AreFrames (failed ∷ reads) held before events h frames over = absurd h
    drain_sandbox_events-AreFrames (bytes_read [] ∷ reads) held before events h frames over =
        absurd h
    drain_sandbox_events-AreFrames (bytes_read (b ∷ chunk) ∷ reads) held before events h frames
          over =
        let pushed = held ++ b ∷ chunk in
        let step =
          emit_events-Emits (suc (length pushed)) pushed (data_of reads) before events
            (held ++ b ∷ (chunk ++ data_of reads)) frames
            (append_assoc held (b ∷ chunk) (data_of reads)) (omega arith) in
        rw (step.ran) (
          drain_sandbox_events-AreFrames reads step.held (before ++ step.emitted) step.left h
            step.frames step.over
          ∙ ap (λ s. ok (true, [], s))
              (append_assoc before step.emitted step.left ∙ ap (λ es. before ++ es) (sym step.all)))

    AreFrames-nil :
        (events : List Event) (bytes : List ℕ)
        → AreFrames to_vec from_slice events bytes
        → bytes ≡ []
        → events ≡ []
    AreFrames-nil [] bytes no_frame e = refl
    AreFrames-nil (event ∷ events) bytes (next_frame _ frame _ rest is are) e = absurd (
        let count = length-IsFrame to_vec from_slice event frame is in
        let whole = length-append frame rest in
        let size = ap length e in ground (arith, count, whole, size))

    -- If the JSON of an event parses to that event, and write_sandbox_event succeeds for some
    -- events one after another, then drain_sandbox_events emits these events in order, at the
    -- end of the file and with no byte left, however the bytes are split into reads and
    -- whichever reads are interrupted.
    pub drain_sandbox_events-write_events :
        (events : List Event) (bytes : List ℕ) (reads : List Read)
        → write_events to_vec from_slice events [] ≡ ok bytes
        → AreData reads
        → data_of reads ≡ bytes
        → drain_sandbox_events to_vec from_slice keep (reads ++ bytes_read [] ∷ []) [] []
          ≡ ok (true, [], events)
    drain_sandbox_events-write_events events bytes reads written h same =
        let (stream, are, is) = write_events-AreFrames to_vec from_slice events [] bytes written in
        let frames = subst (AreFrames to_vec from_slice events) (sym (same ∙ is)) are in
        drain_sandbox_events-AreFrames reads [] [] events h frames
          (λ e. (AreFrames-nil events (data_of reads) frames e, refl))
