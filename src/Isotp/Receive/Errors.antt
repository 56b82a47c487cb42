-- ===== src/Isotp/Receive/Errors.antt =====
-- The error branches of the receive machine, and the replies to a First Frame.
use dive_canhead.Base.{
  ℕ, ◌+◌, ◌*◌, ◌%◌, ◌≤◌, ◌<◌, ◌≡◌, ◌≢◌, [], ◌∷◌, ◌++◌, true, arith, ◌⊎◌, length, Bool-cases, none,
  inl, inr, leb, if◌then◌else◌, ◌-◌, List, take, drop, ap, blit, length-blit, ◌∙◌,
}
use dive_canhead.Zephyr.{Kernel, IsKernel, model, Kernel-eq}
use dive_canhead.Isotp.Frame.{
  Message, msg_source, isotp_seq, pci_low, msg_target, pci_of, elapsed, can_id, isotp_timeout,
  zeros, isotp_overflow,
}
use dive_canhead.Isotp.Receive.{
  Context, State, handle_consecutive_frame, run, dispatch, bytes_to_copy, run_state, retarget,
  cf_event, process_rx_frame, poll, timeout_event, handle_first_frame, ff_length, ff_event,
  poll_expired, state_number, moves,
}
use dive_canhead.Isotp.Receive.Frames.{cf_dispatched, ff_dispatched, IsRegistered, process_cf}
use dive_canhead.Isotp.Receive.Safety.{IsValid, IsFrame, loaded, length-payload}

-- The bytes of a message that the next Consecutive Frame brings: seven, or those that are missing.
abbrev pub next_bytes : Context → ℕ
next_bytes c =
    let missing = c.rx_data_length - c.rx_bytes_received in if leb missing 7 then missing else 7

bytes_to_copy-next :
    (c : Context)
    → c.rx_data_length ≤ 256
    → c.rx_bytes_received < c.rx_data_length
    → bytes_to_copy c ≡ next_bytes c
unfolding bytes_to_copy
bytes_to_copy-next c le lt = ground arith

-- The buffer with the bytes of a frame written over those from an index on
abbrev pub overwritten : Context → Message → ℕ → ℕ → List ℕ
overwritten c m at n = take at c.rx_buffer ++ (take n (drop 1 m.bytes) ++ drop (at + n) c.rx_buffer)

-- The next Consecutive Frame that a valid context receives, in a message that is not complete, writes
-- seven bytes of the frame, or the bytes still missing where these are fewer, behind those that have
-- arrived. They lie inside the 256 bytes of the buffer, and every other byte of it stays.
pub copy_in_bounds :
    (k : Kernel) (c : Context) (m : Message)
    → IsKernel k
    → IsValid c
    → IsFrame m
    → msg_target m ≡ c.source
    → pci_of m ≡ 0x20
    → c.smf ≡ State.receiving
    → c.rx_bytes_received < c.rx_data_length
    → pci_low m ≡ c.rx_sequence_number
    → let n = next_bytes c in
      let c' = (process_rx_frame k c m).0 in
      (c.rx_bytes_received + n ≤ 256)
      × (c'.rx_buffer ≡ overwritten c m c.rx_bytes_received n)
      × (length c'.rx_buffer ≡ 256)
copy_in_bounds k c m doc v frame to pci st lt sq =
    let n = next_bytes c in
    let inside : c.rx_bytes_received + n ≤ 256 = ground (arith, v.announced) in
    let size : length (take n (drop 1 m.bytes)) ≡ n = length-payload m 1 n frame (ground arith) in
    let written =
      (process_cf k.uptime c m to pci st v.announced lt sq).0.0
      ∙ ap (λ n. blit c.rx_buffer c.rx_bytes_received (take n (drop 1 m.bytes)))
          (bytes_to_copy-next c v.announced lt) in
    let whole =
      ap length written
      ∙ length-blit c.rx_buffer c.rx_bytes_received (take n (drop 1 m.bytes))
          (omega (arith, size, v.buffer, inside))
      ∙ v.buffer in
    rw (Kernel-eq k doc) (
      inside,
      written
          ∙ ap
              (λ n'.
                take c.rx_bytes_received c.rx_buffer
                ++ (take n (drop 1 m.bytes) ++ drop (c.rx_bytes_received + n') c.rx_buffer))
              size,
      whole,
    )

-- A wrong sequence number ends the reception: the machine is idle, nothing is copied, the
-- completion flag is left alone, and the report holds the number expected and the one that came.
abbrev pub BadSequence : Context → Context → Message → Type 0
BadSequence c c' m =
    (c'.smf ≡ State.idle)
    × (c'.current_consumed ≡ true)
    × (c'.rx_buffer ≡ c.rx_buffer)
    × (c'.rx_complete ≡ c.rx_complete)
    × (c'.sent ≡ c.sent)
    × (c'.faults ≡ (isotp_seq, (c.rx_sequence_number * 16 + pci_low m) % 256) ∷ c.faults)

-- The Flow Control frame of a context to its peer
abbrev pub flow_control : Context → ℕ → Message
flow_control c status = record {
  id = can_id c.message_id c.target c.source;
  length = 3;
  bytes = status ∷ 0 ∷ 0 ∷ zeros 5;
}

abbrev pub FirstReply : Context → Context → Message → Type 0
FirstReply c c' m =
    (c'.current_consumed ≡ true)
    × ((0 < ff_length m) × (ff_length m ≤ 256)
        → (c'.smf ≡ State.receiving)
          × (c'.rx_data_length ≡ ff_length m)
          × (c'.sent ≡ c.sent ++ flow_control c 0x30 ∷ [])
          × (c'.faults ≡ c.faults))
    × ((ff_length m ≡ 0) ⊎ (256 < ff_length m)
        → (c'.smf ≡ State.idle)
          × (c'.sent ≡ c.sent ++ flow_control c 0x32 ∷ [])
          × (c'.faults ≡ (isotp_overflow, ff_length m) ∷ c.faults)
          × (c'.rx_buffer ≡ c.rx_buffer))

-- The reception is over, and the report names the state.
abbrev pub TimedOut : Context → Context → Type 0
TimedOut c c' =
    (c'.smf ≡ State.idle)
    × (c'.state ≡ State.idle)
    × (c'.rx_bytes_received ≡ 0)
    × (c'.rx_complete ≡ c.rx_complete)
    × (c'.faults ≡ (isotp_timeout, state_number c.state) ∷ c.faults)

smf-retarget : (c : Context) (m : Message) → (retarget c m).smf ≡ c.smf
unfolding retarget
smf-retarget c m = ground arith

module _ (clock : ℕ → ℕ) where
  handled_bad_seq :
      (c : Context) (m : Message)
      → pci_low m ≢ c.rx_sequence_number
      → BadSequence c (handle_consecutive_frame (model clock) c m) m
  unfolding handle_consecutive_frame
  handled_bad_seq c m ne = ground arith

  run_bad_seq :
      (s : State) (c : Context) (m : Message)
      → s ≡ State.receiving
      → pci_low m ≢ c.rx_sequence_number
      → BadSequence c (run (model clock) s (loaded c cf_event m)) m
  unfolding run
  run_bad_seq State.receiving c m e ne = handled_bad_seq (loaded c cf_event m) m ne
  run_bad_seq State.idle c m e ne = cc
  run_bad_seq State.transmitting c m e ne = cc
  run_bad_seq State.awaiting_fc c m e ne = cc

  bad_seq :
      (c : Context) (m : Message)
      → msg_target m ≡ c.source
      → pci_of m ≡ 0x20
      → c.smf ≡ State.receiving
      → pci_low m ≢ c.rx_sequence_number
      → let (c', consumed) = process_rx_frame (model clock) c m in
        BadSequence c c' m × (consumed ≡ true)
  unfolding dispatch run_state retarget
  bad_seq c m to pci st ne = rw (cf_dispatched clock c m to pci) (elim (Bool-cases (moves c m)) [
    | inl e ↦
        let b = run_bad_seq c.smf (record c { target = msg_source m }) m st ne in rw e (b, b.1)
    | inr e ↦ let b = run_bad_seq c.smf c m st ne in rw e (b, b.1)
  ])

  handled_ff_reply :
      (c : Context) (m : Message) → FirstReply c (handle_first_frame (model clock) c m) m
  unfolding handle_first_frame
  handled_ff_reply c m = ground arith

  run_ff_reply :
      (s : State) (c : Context) (m : Message)
      → IsRegistered s
      → FirstReply c (run (model clock) s (loaded c ff_event m)) m
  unfolding run
  run_ff_reply State.receiving c m r = handled_ff_reply (loaded c ff_event m) m
  run_ff_reply State.idle c m r = handled_ff_reply (loaded c ff_event m) m
  run_ff_reply State.transmitting c m r = absurd r
  run_ff_reply State.awaiting_fc c m r = absurd r

  ff_reply :
      (c : Context) (m : Message)
      → msg_target m ≡ c.source
      → pci_of m ≡ 0x10
      → IsRegistered c.smf
      → let (c', consumed) = process_rx_frame (model clock) c m in
        FirstReply (retarget c m) c' m × (consumed ≡ true)
  unfolding dispatch run_state
  ff_reply c m to pci st = rw (ff_dispatched clock c m to pci) (
      let r = run_ff_reply (retarget c m).smf (retarget c m) m (rw (smf-retarget c m) st) in
      (r, r.0))

  run_timeout :
      (s : State) (c : Context)
      → s ≡ State.receiving
      → TimedOut c
          (run (model clock) s (record c { current_event = timeout_event; current_message = none }))
  unfolding run
  run_timeout State.receiving c e = ground arith
  run_timeout State.idle c e = cc
  run_timeout State.transmitting c e = cc
  run_timeout State.awaiting_fc c e = cc

  timeout :
      (c : Context) (now : ℕ)
      → c.smf ≡ State.receiving
      → c.state ≡ State.receiving
      → (elapsed now c.rx_last_frame_time ≤ 1000 → poll (model clock) c now ≡ c)
        × (1000 < elapsed now c.rx_last_frame_time → TimedOut c (poll (model clock) c now))
  unfolding poll run_state
  timeout c now st st' = (
    (λ early. ground arith),
    (λ late. let e : poll_expired c now ≡ true = ground arith in rw e (run_timeout c.smf c st)),
  )

-- A Consecutive Frame with a wrong sequence number, in a reception under way, is consumed and ends
-- the reception: the machine is idle, nothing is copied or sent, the completion flag is left alone,
-- and the report holds the number expected and the one that came.
pub sequence_error :
    (k : Kernel) (c : Context) (m : Message)
    → IsKernel k
    → msg_target m ≡ c.source
    → pci_of m ≡ 0x20
    → c.smf ≡ State.receiving
    → pci_low m ≢ c.rx_sequence_number
    → let (c', consumed) = process_rx_frame k c m in BadSequence c c' m × (consumed ≡ true)
sequence_error k c m h to pci st ne = rw (Kernel-eq k h) (bad_seq k.uptime c m to pci st ne)

-- A First Frame for the context, in either state of the machine, is consumed and answered by one
-- Flow Control frame: CTS with no block size and no STmin where the announced length is 1 to 256,
-- and the reception starts; Overflow otherwise, with a report, and the machine is idle.
pub first_frame_reply :
    (k : Kernel) (c : Context) (m : Message)
    → IsKernel k
    → msg_target m ≡ c.source
    → pci_of m ≡ 0x10
    → IsRegistered c.smf
    → let (c', consumed) = process_rx_frame k c m in
      FirstReply (retarget c m) c' m × (consumed ≡ true)
first_frame_reply k c m h to pci st = rw (Kernel-eq k h) (ff_reply k.uptime c m to pci st)

-- A poll of a reception under way does nothing until more than a second has passed since the last
-- frame, on the wrapping 32-bit clock; then it ends the reception with a report.
pub reception_timeout :
    (k : Kernel) (c : Context) (now : ℕ)
    → IsKernel k
    → c.smf ≡ State.receiving
    → c.state ≡ State.receiving
    → (elapsed now c.rx_last_frame_time ≤ 1000 → poll k c now ≡ c)
      × (1000 < elapsed now c.rx_last_frame_time → TimedOut c (poll k c now))
reception_timeout k c now h st st' = rw (Kernel-eq k h) (timeout k.uptime c now st st')
