-- ===== src/Isotp/TxQueue/Flow.antt =====
-- What Flow Control does to a waiting machine.
use dive_canhead.Base.{
  ℕ, ◌+◌, ◌%◌, ◌≤◌, ◌<◌, ◌≡◌, refl, [], ◌++◌, map, true, some, Bool-cases, inl, inr, arith, ◌∙◌, ap,
  none, if◌then◌else◌, le→ltb, lt→ltb, ◌⊎◌, false,
}
use dive_canhead.Zephyr.{model, IsKernel, Kernel-eq}
use dive_canhead.Isotp.Frame.{Message, byte, msg_target, elapsed}
use dive_canhead.Isotp.TxQueue.{
  Sender, State, tick, no_event, cts_event, frame, send_consecutive_frames, dequeue, idle_run,
  wait_fc_run, continue_to_send, run, run_event, flow_event, on_flow_status, process_fc, set_state,
  is_idle, zero_request, check_timeout, Kernel, poll,
}
use dive_canhead.Isotp.TxQueue.Loop.{cf_frames, actions-send, send-Streamed}

-- The machine as a CTS frame leaves it before the first Consecutive Frame.
abbrev pub resumed : Message → Sender → Sender
resumed fc s = record s {
  event = cts_event;
  fc_message = some fc;
  tx_block_size = byte fc 1;
  tx_stmin = byte fc 2;
  tx_block_counter = 0;
}

-- A transfer waits for Flow Control, and the frame is addressed to the source of that transfer.
abbrev pub IsAwaited : Sender → Message → Type 0
IsAwaited s fc = (s.smf ≡ State.awaiting_fc) × (msg_target fc ≡ s.current.source % 256)

is_idle_of : (s : Sender) → s.smf ≡ State.idle → is_idle s ≡ true
is_idle_of s e = rw e

module _ (clock : ℕ → ℕ) where
  -- The run action of a CTS event.
  run_cts :
      (st : State) (s : Sender) (fc : Message)
      → st ≡ State.awaiting_fc
      → run (model clock) st (record s { event = cts_event; fc_message = some fc })
        ≡ continue_to_send (model clock) fc (record s { event = cts_event; fc_message = some fc })
  unfolding run wait_fc_run
  run_cts State.awaiting_fc s fc e = refl
  run_cts State.idle s fc e = cc

  complete :
      (fc : Message) (s : Sender)
      → s.tx_bytes_sent ≤ s.current.length
      → (send_consecutive_frames (model clock) (resumed fc s)).1 ≡ true
      → let s' =
          continue_to_send
            (model clock)
            fc
            (record s { event = cts_event; fc_message = some fc }) in
        (s'.smf ≡ State.idle)
        × (s'.queue ≡ s.queue)
        × (s'.actions ≡ (send_consecutive_frames (model clock) (resumed fc s)).0.actions)
  unfolding continue_to_send set_state
  complete fc s le done = ground (arith, send-Streamed clock (resumed fc s) le)

  cts_flag :
      (s : Sender)
      → s.tx_bytes_sent ≤ s.current.length
      → s.tx_block_size ≡ 0
      → (send_consecutive_frames (model clock) s).1 ≡ true
  cts_flag s le b = elim (Bool-cases (send_consecutive_frames (model clock) s).1) [
    | inl e ↦ e
    | inr e ↦ ground (arith, send-Streamed clock s le)
  ]

  run_empty :
      (st : State) (s : Sender)
      → st ≡ State.idle
      → s.queue ≡ []
      → run (model clock) st (record s { event = tick })
        ≡ record s { event = tick; scratch = zero_request }
  unfolding run idle_run dequeue
  run_empty State.idle s e q = rw q
  run_empty State.awaiting_fc s e q = cc

  -- A tick with nothing queued changes neither the state nor the bus.
  tick_empty :
      (s : Sender)
      → s.smf ≡ State.idle
      → s.queue ≡ []
      → let s' = run_event (model clock) tick s in (s'.smf ≡ State.idle) × (s'.actions ≡ s.actions)
  unfolding run_event
  tick_empty s e q = rw (run_empty s.smf s e q) (e, refl)

  -- The machine after the run action of a CTS frame.
  abbrev pub after_cts : Message → Sender → Sender
  after_cts fc s =
      record (continue_to_send (model clock) fc
        (record s { event = cts_event; fc_message = some fc })) {
          event = no_event;
          fc_message = none;
        }

  run_event_cts :
      (s : Sender) (fc : Message)
      → s.smf ≡ State.awaiting_fc
      → run_event (model clock) cts_event (record s { fc_message = some fc })
        ≡ record (continue_to_send
            (model clock)
            fc
            (record s { event = cts_event; fc_message = some fc })) { event = no_event }
  unfolding run_event
  run_event_cts s fc e = ap (λ (x : Sender). record x { event = no_event }) (run_cts s.smf s fc e)

  pub flow_cts :
      (s : Sender) (fc : Message)
      → s.smf ≡ State.awaiting_fc
      → flow_event (model clock) cts_event fc s ≡ (
          if is_idle (after_cts fc s)
          then run_event (model clock) tick (after_cts fc s)
          else after_cts fc s)
  unfolding flow_event
  flow_cts s fc e = rw (run_event_cts s fc e)

  -- A CTS frame for the waiting transfer goes to the loop.
  pub process_cts :
      (s : Sender) (fc : Message)
      → s.smf ≡ State.awaiting_fc
      → byte fc 0 ≡ 0x30
      → msg_target fc ≡ s.current.source % 256
      → process_fc (model clock) s fc ≡ (flow_event (model clock) cts_event fc s, true)
  unfolding process_fc on_flow_status
  process_cts s fc e status to = ground arith

  -- A CTS frame without a block size or STmin: the rest of the payload goes out at once, and the
  -- machine is idle again.
  pub cts_completes :
      (s : Sender) (fc : Message)
      → s.smf ≡ State.awaiting_fc
      → s.queue ≡ []
      → s.tx_bytes_sent ≤ s.current.length
      → byte fc 0 ≡ 0x30
      → byte fc 1 ≡ 0
      → byte fc 2 ≡ 0
      → msg_target fc ≡ s.current.source % 256
      → let s' = (process_fc (model clock) s fc).0 in
        (s'.smf ≡ State.idle)
        × (s'.actions
            ≡ s.actions ++ map frame (cf_frames clock (s.current.length + 1) (resumed fc s)))
  cts_completes s fc st q le b0 b1 b2 to =
      let done = complete fc s le (cts_flag (resumed fc s) le b1) in
      let ticked = tick_empty (after_cts fc s) done.0 (done.1 ∙ q) in
      rw (process_cts s fc st b0 to, flow_cts s fc st, is_idle_of (after_cts fc s) done.0)
        (ticked.0, ticked.1 ∙ done.2 ∙ actions-send clock (resumed fc s) b1 b2)

  run_wait :
      (st : State) (s : Sender)
      → st ≡ State.awaiting_fc
      → run (model clock) st (record s { event = tick })
        ≡ check_timeout (model clock) (record s { event = tick })
  unfolding run wait_fc_run
  run_wait State.awaiting_fc s e = refl
  run_wait State.idle s e = cc

  waited :
      (s : Sender)
      → s.smf ≡ State.awaiting_fc
      → let late = elapsed (clock s.reads) s.tx_last_frame_time in
        let s' = poll (model clock) s in
        (late ≤ 1000 → s' ≡ record s { event = no_event; reads = s.reads + 1 })
        × (1000 < late → (s'.smf ≡ State.idle) × (s'.queue ≡ s.queue) × (s'.actions ≡ s.actions))
  unfolding poll run_event check_timeout set_state
  waited s st =
      rw (run_wait s.smf s st)
        ((λ h. rw (le→ltb _ _ h)), (λ h. rw (lt→ltb _ _ h) (refl, refl, refl)))

  heard :
      (s : Sender) (fc : Message)
      → (IsAwaited s fc × ((process_fc (model clock) s fc).1 ≡ true))
        ⊎ (¬ (IsAwaited s fc) × (process_fc (model clock) s fc ≡ (s, false)))
  unfolding process_fc
  heard s fc = ground arith

-- A tick of a waiting machine only reads the clock until more than a second has passed since its
-- last frame, on the wrapping 32-bit clock; then the transfer is dropped, nothing is sent, and the
-- queue is as before.
pub flow_timeout :
    (k : Kernel) (s : Sender)
    → IsKernel k
    → s.smf ≡ State.awaiting_fc
    → let late = elapsed (k.uptime s.reads) s.tx_last_frame_time in
      let s' = poll k s in
      (late ≤ 1000 → s' ≡ record s { event = no_event; reads = s.reads + 1 })
      × (1000 < late → (s'.smf ≡ State.idle) × (s'.queue ≡ s.queue) × (s'.actions ≡ s.actions))
flow_timeout k s h st = rw (Kernel-eq k h) (waited k.uptime s st)

-- Flow Control is acted on by a waiting machine if the target nibble of its identifier is the source
-- of the transfer. Any other frame, so also one to the broadcast address, is not consumed and leaves
-- the whole state as it is.
pub flow_control_is_addressed :
    (k : Kernel) (s : Sender) (fc : Message)
    → IsKernel k
    → (IsAwaited s fc × ((process_fc k s fc).1 ≡ true))
      ⊎ (¬ (IsAwaited s fc) × (process_fc k s fc ≡ (s, false)))
flow_control_is_addressed k s fc h = rw (Kernel-eq k h) (heard k.uptime s fc)
