-- ===== src/Launcher/Events/Total.antt =====
-- On the fuel of `drain_sandbox_events`.
use bobr.Base.{
  ℕ, zero, suc, ◌+◌, ◌<◌, ◌≡◌, ◌≢◌, ap, Option, none, some, List, [], ◌∷◌, ◌++◌, length, take, drop,
  length-drop, ltb, ok, err, ok_or, ◌>>=◌, >>=-eq-ok, >>=-eq-err, ok_inj, inl, inr, Bool-cases,
  arith,
}
use bobr.Base.Bytes.{from_be_bytes}
use bobr.Launcher.Events.{
  max_event_frame_len, out_of_fuel, invalid_event, emit_failed, Read, bytes_read, would_block,
  interrupted, failed, next_event, emit_events, drain_sandbox_events,
}

module _ {Event : Type 0} (to_vec : Event → Option (List ℕ))
    (from_slice : List ℕ → Option Event) where
  module _ {S : Type 0} (emit : Event → S → Option S) where
    ok_or_lem : {A : Type 0} (o : Option A) → ok_or o emit_failed ≢ err out_of_fuel
    ok_or_lem none e = cc e
    ok_or_lem (some a) e = cc e

    next_event_lem : (bytes : List ℕ) → next_event to_vec from_slice bytes ≢ err out_of_fuel
    unfolding next_event
    next_event_lem bytes e = elim (Bool-cases (ltb (length bytes) 4)) [
      | inl t ↦ cc (rw t at e)
      | inr long ↦ elim (Bool-cases (ltb max_event_frame_len (from_be_bytes (take 4 bytes)))) [
        | inl t ↦ cc (rw (long, t) at e)
        | inr fits ↦ elim (Bool-cases (ltb (length bytes) (4 + from_be_bytes (take 4 bytes)))) [
          | inl t ↦ cc (rw (long, fits, t) at e)
          | inr all ↦
              parsed (from_slice (take (from_be_bytes (take 4 bytes)) (drop 4 bytes))) _
                (rw (long, fits, all) at e)
        ]
      ]
    ]
      where
        parsed :
            (o : Option Event) (rest : List ℕ)
            → ◌>>=◌ {B = Option (Event × List ℕ)}
                (ok_or o invalid_event)
                (λ event. ok (some (event, rest)))
              ≢ err out_of_fuel
        parsed none rest e = cc e
        parsed (some event) rest e = cc e

    next_event-shorter :
        (bytes : List ℕ) (event : Event) (rest : List ℕ)
        → next_event to_vec from_slice bytes ≡ ok (some (event, rest))
        → length rest < length bytes
    unfolding next_event
    next_event-shorter bytes event rest e = elim (Bool-cases (ltb (length bytes) 4)) [
      | inl t ↦ absurd (cc (rw t at e))
      | inr long ↦ elim (Bool-cases (ltb max_event_frame_len (from_be_bytes (take 4 bytes)))) [
        | inl t ↦ absurd (cc (rw (long, t) at e))
        | inr fits ↦ elim (Bool-cases (ltb (length bytes) (4 + from_be_bytes (take 4 bytes)))) [
          | inl t ↦ absurd (cc (rw (long, fits, t) at e))
          | inr all ↦
              let size = from_be_bytes (take 4 bytes) in
              let (found, parsed, last) =
                >>=-eq-ok (ok_or (from_slice (take size (drop 4 bytes))) invalid_event) _
                  (rw (long, fits, all) at e) in
              let pair : ◌≡◌ {A = Option (Event × List ℕ)} (some (found, drop (4 + size) bytes))
                  (some (event, rest)) =
                ok_inj last in
              let left : drop (4 + size) bytes ≡ rest = cc pair in
              let count = length-drop (4 + size) bytes (ground (arith, all)) in
              let same = ap length left in ground (arith, count, same)
        ]
      ]
    ]

    -- Enough fuel is given.
    emit_events_total :
        (fuel : ℕ) (bytes : List ℕ) (state : S)
        → length bytes < fuel
        → emit_events to_vec from_slice emit fuel bytes state ≢ err out_of_fuel
    unfolding emit_events
    emit_events_total zero bytes state enough e = absurd (omega arith)
    emit_events_total (suc fuel) bytes state enough e =
        elim (>>=-eq-err (next_event to_vec from_slice bytes) _ e) [
          | inl bad ↦ next_event_lem bytes bad
          | inr (none, ran, last) ↦ cc last
          | inr (some (event, rest), ran, last) ↦
              let shorter = next_event-shorter bytes event rest ran in
              elim (>>=-eq-err (ok_or (emit event state) emit_failed) _ last) [
                | inl bad ↦ ok_or_lem (emit event state) bad
                | inr (later, emitted, more) ↦ emit_events_total fuel rest later (omega arith) more
              ]
        ]

    -- drain_sandbox_events never runs out of fuel, whatever the reads give and whatever the
    -- callback does: each event takes four bytes or more from the decoder.
    pub drain_sandbox_events_total :
        (reads : List Read) (bytes : List ℕ) (state : S)
        → drain_sandbox_events to_vec from_slice emit reads bytes state ≢ err out_of_fuel
    unfolding drain_sandbox_events
    drain_sandbox_events_total [] bytes state e = cc e
    drain_sandbox_events_total (interrupted ∷ reads) bytes state e =
        drain_sandbox_events_total reads bytes state e
    drain_sandbox_events_total (would_block ∷ reads) bytes state e = cc e
    drain_sandbox_events_total (failed ∷ reads) bytes state e = cc e
    drain_sandbox_events_total (bytes_read [] ∷ reads) bytes state e = cc e
    drain_sandbox_events_total (bytes_read (b ∷ chunk) ∷ reads) bytes state e =
        let pushed = bytes ++ b ∷ chunk in
        elim (>>=-eq-err (emit_events to_vec from_slice emit (suc (length pushed)) pushed state) _
          e) [
            | inl bad ↦ emit_events_total (suc (length pushed)) pushed state (omega arith) bad
            | inr (after, ran, last) ↦ drain_sandbox_events_total reads after.0 after.1 last
          ]
