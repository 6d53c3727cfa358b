-- ===== src/Launcher/Events.antt =====
-- `write_sandbox_event` and `SandboxEventDecoder` of bobr-sandbox-launcher/src/protocol.rs, and
-- `drain_sandbox_events` of bobr-sandbox/src/lifecycle.rs. The JSON of an event is a parameter. The writer
-- is the bytes written; the decoder is the bytes that it holds.
pub mod Frames
pub mod Stream
pub mod Total
use bobr.Base.{
  ℕ, zero, suc, ◌+◌, ◌*◌, Bool, true, false, Option, none, some, List, [], ◌∷◌, ◌++◌, length, take,
  drop, ltb, if◌then◌else◌, Result, ok, err, ok_or, ◌>>=◌,
}
use bobr.Base.Bytes.{to_be_bytes, from_be_bytes}

abbrev pub max_event_frame_len : ℕ
max_event_frame_len = 64 * 1024

-- The errors; `emit_failed` is the error of the callback, `out_of_fuel` none of the code.
pub data EventError : Type 0 where
  not_serializable frame_too_long invalid_event partial_frame read_failed emit_failed out_of_fuel :
      EventError

-- What one `read` of the event pipe gives; `bytes_read []` is the end of the file.
pub data Read : Type 0 where
  bytes_read : List ℕ → Read
  would_block interrupted failed : Read

-- `finish`.
unfoldable pub finish : List ℕ → Result EventError (Unit {0})
finish [] = ok tt
finish (b ∷ bytes) = err partial_frame

module _ {Event : Type 0} (to_vec : Event → Option (List ℕ))
    (from_slice : List ℕ → Option Event) where
  unfoldable pub write_sandbox_event : Event → List ℕ → Result EventError (List ℕ)
  write_sandbox_event event writer = ok_or (to_vec event) not_serializable >>= λ payload.
      if ltb max_event_frame_len (length payload)
      then err frame_too_long
      else ok (writer ++ (to_be_bytes 4 (length payload) ++ payload))

  -- `next_event`: the next event, with the bytes left. The bytes are left as they are in the other
  -- cases.
  unfoldable pub next_event : List ℕ → Result EventError (Option (Event × List ℕ))
  next_event bytes =
      if ltb (length bytes) 4
      then ok none
      else (let size = from_be_bytes (take 4 bytes) in
          if ltb max_event_frame_len size
          then err frame_too_long
          else if ltb (length bytes) (4 + size)
          then ok none
          else (ok_or (from_slice (take size (drop 4 bytes))) invalid_event >>= λ event.
              ok (some (event, drop (4 + size) bytes))))

  module _ {S : Type 0} (emit : Event → S → Option S) where
    -- The `while let`, on fuel: each event takes four bytes or more.
    unfoldable pub emit_events : ℕ → List ℕ → S → Result EventError (List ℕ × S)
    emit_events zero bytes state = err out_of_fuel
    emit_events (suc fuel) bytes state = next_event bytes >>= λ next. elim next [
      | none ↦ ok (bytes, state)
      | some (event, rest) ↦
          ok_or (emit event state) emit_failed >>= λ later. emit_events fuel rest later
    ]

    -- The loop over what the reads give; it blocks where they end.
    unfoldable pub drain_sandbox_events :
        List Read → List ℕ → S → Result EventError (Bool × List ℕ × S)
    drain_sandbox_events [] bytes state = ok (false, bytes, state)
    drain_sandbox_events (would_block ∷ reads) bytes state = ok (false, bytes, state)
    drain_sandbox_events (interrupted ∷ reads) bytes state = drain_sandbox_events reads bytes state
    drain_sandbox_events (failed ∷ reads) bytes state = err read_failed
    drain_sandbox_events (bytes_read [] ∷ reads) bytes state = ok (true, bytes, state)
    drain_sandbox_events (bytes_read (b ∷ chunk) ∷ reads) bytes state =
        let pushed = bytes ++ b ∷ chunk in
        emit_events (suc (length pushed)) pushed state >>= λ after.
        drain_sandbox_events reads after.0 after.1
