-- ===== src/Isotp/Receive/Frames.antt =====
-- What each kind of frame does to a context that it is addressed to, over the model of the kernel.
use dive_canhead.Base.{
  ℕ, ◌+◌, ◌%◌, ◌≤◌, ◌<◌, ◌≡◌, refl, inl, inr, true, take, drop, blit, arith, Bool-cases,
}
use dive_canhead.Zephyr.{model}
use dive_canhead.Isotp.Frame.{Message, pci_of, pci_low, msg_target, msg_source}
use dive_canhead.Isotp.Receive.Safety.{loaded}
use dive_canhead.Isotp.Receive.{
  Context, State, sf_event, ff_event, cf_event, ff_length, handle_single_frame, handle_first_frame,
  handle_consecutive_frame, bytes_to_copy, run, run_state, moves, process_rx_frame, retarget,
  dispatch, pci_to_event,
}

source-retarget : (c : Context) (m : Message) → (retarget c m).source ≡ c.source
unfolding retarget
source-retarget c m = ground arith

-- A Consecutive Frame with the right number adds `n` bytes.
abbrev pub Extended : Context → Context → Message → ℕ → Type 0
Extended c c' m n =
    (c'.rx_buffer ≡ blit c.rx_buffer c.rx_bytes_received (take n (drop 1 m.bytes)))
    × (c'.rx_data_length ≡ c.rx_data_length)
    × (c'.source ≡ c.source)

-- Either more frames are to come, or the message is complete.
abbrev pub Continues : Context → Context → ℕ → Type 0
Continues c c' n =
    (c'.smf ≡ State.receiving)
    × (c'.rx_bytes_received ≡ c.rx_bytes_received + n)
    × (c'.rx_sequence_number ≡ (c.rx_sequence_number + 1) % 16)

abbrev pub Completes : Context → Type 0
Completes c' = (c'.smf ≡ State.idle) × (c'.rx_complete ≡ true)

abbrev pub Accepted : Context → Context → Message → Type 0
Accepted c c' m =
    let n = bytes_to_copy c in
    Extended c c' m n
    × (c.rx_bytes_received + n < c.rx_data_length → Continues c c' n)
    × (c.rx_data_length ≤ c.rx_bytes_received + n → Completes c')

-- The states of the receive machine's table
abbrev pub IsRegistered : State → Type 0
IsRegistered State.idle = Unit
IsRegistered State.receiving = Unit
IsRegistered _ = ⊥

-- A First Frame starts a message of the announced length with six bytes.
abbrev pub Started : Context → Context → Message → Type 0
Started c c' m =
    (c'.smf ≡ State.receiving)
    × (c'.rx_bytes_received ≡ 6)
    × (c'.rx_sequence_number ≡ 1)
    × (c'.rx_buffer ≡ blit c.rx_buffer 0 (take 6 (drop 2 m.bytes)))
    × (c'.rx_data_length ≡ ff_length m)
    × (c'.source ≡ c.source)

-- A Single Frame is complete.
abbrev pub Received : Context → Context → Message → Type 0
Received c c' m =
    (c'.smf ≡ State.idle)
    × (c'.rx_complete ≡ true)
    × (c'.rx_buffer ≡ blit c.rx_buffer 0 (take (pci_low m) (drop 1 m.bytes)))
    × (c'.rx_data_length ≡ pci_low m)

bytes_to_copy-lt : (c : Context) → bytes_to_copy c ≤ 7
unfolding bytes_to_copy
bytes_to_copy-lt c = ground arith

module _ (clock : ℕ → ℕ) where
  pub cf_dispatched :
      (c : Context) (m : Message)
      → msg_target m ≡ c.source
      → pci_of m ≡ 0x20
      → process_rx_frame (model clock) c m ≡ dispatch (model clock) (retarget c m) m cf_event
  unfolding process_rx_frame pci_to_event
  cf_dispatched c m to pci = ground arith

  handled_cf :
      (c : Context) (m : Message)
      → c.smf ≡ State.receiving
      → c.rx_data_length ≤ 256
      → c.rx_bytes_received < c.rx_data_length
      → pci_low m ≡ c.rx_sequence_number
      → Accepted c (handle_consecutive_frame (model clock) c m) m
  unfolding handle_consecutive_frame
  handled_cf c m st le lt sq = ground (arith, bytes_to_copy-lt c)

  run_cf :
      (s : State) (c : Context) (m : Message)
      → c.smf ≡ s
      → s ≡ State.receiving
      → c.rx_data_length ≤ 256
      → c.rx_bytes_received < c.rx_data_length
      → pci_low m ≡ c.rx_sequence_number
      → Accepted c (run (model clock) s (loaded c cf_event m)) m
  unfolding run bytes_to_copy
  run_cf State.receiving c m st e le lt sq = handled_cf (loaded c cf_event m) m st le lt sq
  run_cf State.idle c m st e le lt sq = cc
  run_cf State.transmitting c m st e le lt sq = cc
  run_cf State.awaiting_fc c m st e le lt sq = cc

  -- The next Consecutive Frame of a message under way, addressed to the context.
  pub process_cf :
      (c : Context) (m : Message)
      → msg_target m ≡ c.source
      → pci_of m ≡ 0x20
      → c.smf ≡ State.receiving
      → c.rx_data_length ≤ 256
      → c.rx_bytes_received < c.rx_data_length
      → pci_low m ≡ c.rx_sequence_number
      → Accepted c (process_rx_frame (model clock) c m).0 m
  unfolding dispatch run_state retarget bytes_to_copy
  process_cf c m to pci st le lt sq = rw (cf_dispatched c m to pci) (elim (Bool-cases (moves c m)) [
    | inl e ↦ rw e (run_cf c.smf (record c { target = msg_source m }) m refl st le lt sq)
    | inr e ↦ rw e (run_cf c.smf c m refl st le lt sq)
  ])

  pub ff_dispatched :
      (c : Context) (m : Message)
      → msg_target m ≡ c.source
      → pci_of m ≡ 0x10
      → process_rx_frame (model clock) c m ≡ dispatch (model clock) (retarget c m) m ff_event
  unfolding process_rx_frame pci_to_event
  ff_dispatched c m to pci = ground arith

  handled_ff :
      (c : Context) (m : Message)
      → 0 < ff_length m
      → ff_length m ≤ 256
      → Started c (handle_first_frame (model clock) c m) m
  unfolding handle_first_frame
  handled_ff c m lo hi = ground arith

  run_ff :
      (s : State) (c : Context) (m : Message)
      → IsRegistered s
      → 0 < ff_length m
      → ff_length m ≤ 256
      → Started c (run (model clock) s (loaded c ff_event m)) m
  unfolding run
  run_ff State.receiving c m r lo hi = handled_ff (loaded c ff_event m) m lo hi
  run_ff State.idle c m r lo hi = handled_ff (loaded c ff_event m) m lo hi
  run_ff State.transmitting c m r lo hi = absurd r
  run_ff State.awaiting_fc c m r lo hi = absurd r

  -- A First Frame that fits, addressed to the context, starts a message in either state.
  pub process_ff :
      (c : Context) (m : Message)
      → msg_target m ≡ c.source
      → pci_of m ≡ 0x10
      → IsRegistered c.smf
      → 0 < ff_length m
      → ff_length m ≤ 256
      → Started c (process_rx_frame (model clock) c m).0 m
  unfolding dispatch run_state retarget
  process_ff c m to pci st lo hi = rw (ff_dispatched c m to pci) (elim (Bool-cases (moves c m)) [
    | inl e ↦ rw e (run_ff c.smf (record c { target = msg_source m }) m st lo hi)
    | inr e ↦ rw e (run_ff c.smf c m st lo hi)
  ])

  pub sf_dispatched :
      (c : Context) (m : Message)
      → msg_target m ≡ c.source
      → pci_of m ≡ 0x00
      → process_rx_frame (model clock) c m ≡ dispatch (model clock) (retarget c m) m sf_event
  unfolding process_rx_frame pci_to_event
  sf_dispatched c m to pci = ground arith

  handled_sf :
      (c : Context) (m : Message)
      → 0 < pci_low m
      → pci_low m ≤ 7
      → pci_low m < m.length
      → Received c (handle_single_frame (model clock) c m) m
  unfolding handle_single_frame
  handled_sf c m lo hi long = ground arith

  run_sf :
      (s : State) (c : Context) (m : Message)
      → IsRegistered s
      → 0 < pci_low m
      → pci_low m ≤ 7
      → pci_low m < m.length
      → Received c (run (model clock) s (loaded c sf_event m)) m
  unfolding run
  run_sf State.receiving c m r lo hi long = handled_sf (loaded c sf_event m) m lo hi long
  run_sf State.idle c m r lo hi long = handled_sf (loaded c sf_event m) m lo hi long
  run_sf State.transmitting c m r lo hi long = absurd r
  run_sf State.awaiting_fc c m r lo hi long = absurd r

  -- A Single Frame is a whole message, in either state.
  pub process_sf :
      (c : Context) (m : Message)
      → msg_target m ≡ c.source
      → pci_of m ≡ 0x00
      → IsRegistered c.smf
      → 0 < pci_low m
      → pci_low m ≤ 7
      → pci_low m < m.length
      → Received c (process_rx_frame (model clock) c m).0 m
  unfolding dispatch run_state retarget
  process_sf c m to pci st lo hi long =
      rw (sf_dispatched c m to pci) (elim (Bool-cases (moves c m)) [
        | inl e ↦ rw e (run_sf c.smf (record c { target = msg_source m }) m st lo hi long)
        | inr e ↦ rw e (run_sf c.smf c m st lo hi long)
      ])
