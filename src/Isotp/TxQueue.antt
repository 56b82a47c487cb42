-- ===== src/Isotp/TxQueue.antt =====
-- The transmit queue (Firmware/src/divecan/isotp_tx_queue.c): one machine and one message queue for
-- every ISO-TP context. One flat record is the state: the members of `TxSmCtx_t`, the two static
-- objects beside it (the scratch request and the message queue), and what the calls leave outside.
pub mod Wire
pub mod Loop
pub mod Poll
pub mod Flow
pub mod Boundary
pub mod Invariant
pub mod Enqueue
pub mod Reach
use dive_canhead.Base.{
  ℕ, zero, suc, ◌++◌, ◌+◌, ◌*◌, ◌/◌, ◌-◌, ◌%◌, ◌^◌, List, [], ◌∷◌, Bool, true, false, not, ◌&&◌,
  ◌||◌, Option, none, some, take, drop, blit, length, ltb, leb, ◌==◌, if◌then◌else◌, bit_or,
}
use dive_canhead.Zephyr.{Kernel}
use dive_canhead.Isotp.Frame.{
  Message, byte, cf_data_bytes, pci_ff, pci_cf, fc_cts, fc_wait, fc_ovflw, broadcast_addr,
  timeout_n_bs, msg_target, can_id, zeros, elapsed, Fault, isotp_state, queue_fault, null_ptr,
}

abbrev pub queue_size : ℕ
queue_size = 2

abbrev pub buffer_size : ℕ
buffer_size = 256

abbrev pub sf_max_with_pad : ℕ
sf_max_with_pad = 6

abbrev pub ff_data_with_pad : ℕ
ff_data_with_pad = 5

abbrev pub stmin_ms_max : ℕ
stmin_ms_max = 0x7F

-- `ISOTPTxRequest_t`
pub record Request : Type 0 where
  pub payload : List ℕ
  pub length : ℕ
  pub source : ℕ
  pub target : ℕ
  pub message_id : ℕ

-- `TxState_e`
pub data State : Type 0 where
  idle awaiting_fc : State

-- `TxEvent_e`
pub data Event : Type 0 where
  no_event tick cts_event wait_event ovflw_event : Event

-- What the machine does to the bus and to its thread: `divecan_send_blocking` and `k_msleep`.
pub data Action : Type 0 where
  frame : Message → Action
  sleep : ℕ → Action

pub record Sender : Type 0 where
  pub smf : State
  pub current : Request
  pub tx_bytes_sent : ℕ
  pub tx_sequence_number : ℕ
  pub tx_block_size : ℕ
  pub tx_stmin : ℕ
  pub tx_block_counter : ℕ
  pub tx_last_frame_time : ℕ
  pub event : Event
  pub fc_message : Option Message
  -- the object behind `getTxRequestBuffer`, and `isotp_tx_msgq`
  pub scratch : Request
  pub queue : List Request
  -- the clock reads made so far, the actions in order, and the errors, the last one first
  pub reads : ℕ
  pub actions : List Action
  pub faults : List (Fault × ℕ)

abbrev pub zero_request : Request
zero_request = record {
  payload = zeros buffer_size;
  length = 0;
  source = 0;
  target = 0;
  message_id = 0;
}

unfoldable pub fault : Fault → ℕ → Sender → Sender
fault f detail s = record s { faults = (f, detail) ∷ s.faults }

unfoldable pub act : Action → Sender → Sender
act a s = record s { actions = s.actions ++ a ∷ [] }

abbrev pub request_id : Request → ℕ
request_id r = can_id r.message_id r.target r.source

-- An eight-byte frame for the request, zero behind its `bytes`.
abbrev pub frame_of : Request → List ℕ → Message
frame_of r bytes = record { id = request_id r; length = 8; bytes = blit (zeros 8) 0 bytes }

-- `send_single_frame`
unfoldable pub single_frame : Request → Message
single_frame r = frame_of r ((r.length % 256 + 1) ∷ 0 ∷ take r.length r.payload)

-- `send_first_frame`
unfoldable pub first_frame : Request → Message
first_frame r =
    let total = r.length + 1 in
    frame_of r
      (bit_or pci_ff (total / 256 % 16) ∷ total % 256 ∷ 0 ∷ take ff_data_with_pad r.payload)

-- The payload bytes of the next Consecutive Frame
abbrev pub cf_size : Sender → ℕ
cf_size s =
    let remaining = s.current.length - s.tx_bytes_sent in
    if ltb cf_data_bytes remaining then cf_data_bytes else remaining

unfoldable pub consecutive_frame : Sender → Message
consecutive_frame s = frame_of s.current (
    bit_or pci_cf ((s.tx_sequence_number + 1) % 16)
    ∷ take (cf_size s) (drop s.tx_bytes_sent s.current.payload))

-- The STmin delay: values above 127 are no milliseconds and are skipped.
unfoldable pub pace : Sender → Sender
unfolding act
pace s =
    let stmin_ms = if leb s.tx_stmin stmin_ms_max then s.tx_stmin else 0 in
    if ltb 0 stmin_ms then act (sleep stmin_ms) s else s

unfoldable pub idle_entry : Sender → Sender
idle_entry s = record s {
  tx_bytes_sent = 0;
  tx_sequence_number = 0;
  tx_block_size = 0;
  tx_stmin = 0;
  tx_block_counter = 0;
  tx_last_frame_time = 0;
}

-- The entry column of `tx_states`
unfoldable pub entry : State → Sender → Sender
unfolding idle_entry
entry State.idle s = idle_entry s
entry State.awaiting_fc s = s

abbrev pub store : State → Sender → Sender
store st s = record s { smf = st }

abbrev pub is_idle : Sender → Bool
is_idle s = elim s.smf [ State.idle ↦ true | State.awaiting_fc ↦ false ]

-- The block boundary test at the end of the loop of `send_consecutive_frames`
abbrev pub at_block_end : Sender → Bool
at_block_end s = not (s.tx_block_size == 0) && leb s.tx_block_size s.tx_block_counter

-- The request that `ISOTP_TxQueue_Enqueue` builds.
abbrev pub request : ℕ → ℕ → ℕ → List ℕ → ℕ → Request
request source target message_id bytes length = record {
  payload = blit (zeros buffer_size) 0 (take length bytes);
  length = length;
  source = source;
  target = target;
  message_id = message_id;
}

module _ (k : Kernel) where
  unfoldable pub set_state : State → Sender → Sender
  unfolding entry
  set_state st s = k.set_state State Sender store entry st s

  -- One round of the loop of `send_consecutive_frames`
  unfoldable pub send_one : Sender → Sender
  unfolding pace act consecutive_frame
  send_one s₀ =
      let s = pace s₀ in
      let n = cf_size s in
      let s' = act (frame (consecutive_frame s)) (record s {
        tx_bytes_sent = s.tx_bytes_sent + n;
        tx_last_frame_time = k.uptime s.reads;
        reads = s.reads + 1;
      }) in
      record s' {
        tx_sequence_number = (s.tx_sequence_number + 1) % 16;
        tx_block_counter = (s.tx_block_counter + 1) % 256;
      }

  -- The loop, on fuel. The flag tells that it stopped at a block boundary.
  unfoldable pub send_loop : ℕ → Sender → Sender × Bool
  send_loop zero s = (s, false)
  send_loop (suc fuel) s =
      let s' = send_one s in
      let rest = send_loop fuel s' in
      if ltb s.tx_bytes_sent s.current.length
      then (if at_block_end s' then (s', true) else rest)
      else (s, false)

  -- Each round sends at least a byte of the payload, so its length is fuel enough.
  unfoldable pub send_consecutive_frames : Sender → Sender × Bool
  send_consecutive_frames s =
      let (s', waiting_for_fc) = send_loop (s.current.length + 1) s in (s', not waiting_for_fc)

  -- What `tx_idle_run` does with a request that it took off the queue.
  unfoldable pub start : Request → Sender → Sender
  unfolding act set_state
  start r s =
      if leb r.length sf_max_with_pad
      then act (frame (single_frame r)) s
      else if r.target % 256 == broadcast_addr
      then (send_consecutive_frames (record (act (frame (first_frame r)) s) {
        tx_bytes_sent = ff_data_with_pad;
        tx_block_size = 0;
        tx_stmin = 0;
        tx_block_counter = 0;
      })).0
      else set_state State.awaiting_fc (record (act (frame (first_frame r)) s) {
        tx_bytes_sent = ff_data_with_pad;
        tx_last_frame_time = k.uptime s.reads;
        reads = s.reads + 1;
      })

  -- `memset` of the scratch request, `k_msgq_get` into it, and the copy to `current`.
  unfoldable pub dequeue : Sender → Sender
  dequeue s = elim (k.msgq_get Request s.queue) [
    | none ↦ record s { scratch = zero_request }
    | some (r, rest) ↦ start r (record s {
      scratch = r;
      queue = rest;
      current = r;
      tx_bytes_sent = 0;
      tx_sequence_number = 0;
    })
  ]

  -- `tx_idle_run`
  unfoldable pub idle_run : Event → Sender → Sender
  idle_run tick s = dequeue s
  idle_run _ s = s

  -- The FC_CTS branch of `tx_wait_fc_run`
  unfoldable pub continue_to_send : Message → Sender → Sender
  continue_to_send fc s =
      let (s', payload_complete) =
        send_consecutive_frames
          (record s { tx_block_size = byte fc 1; tx_stmin = byte fc 2; tx_block_counter = 0 }) in
      if payload_complete then set_state State.idle s' else s'

  -- The TICK branch of `tx_wait_fc_run`
  unfoldable pub check_timeout : Sender → Sender
  check_timeout s₀ =
      let s : Sender = record s₀ { reads = s₀.reads + 1 } in
      if ltb timeout_n_bs (elapsed (k.uptime s₀.reads) s.tx_last_frame_time)
      then set_state State.idle s
      else s

  -- `tx_wait_fc_run`. `fc_message` is set with each FC event.
  unfoldable pub wait_fc_run : Event → Sender → Sender
  wait_fc_run cts_event s = elim s.fc_message [ none ↦ s | some fc ↦ continue_to_send fc s ]
  wait_fc_run wait_event s = set_state State.idle (fault isotp_state fc_wait s)
  wait_fc_run ovflw_event s = set_state State.idle (fault isotp_state fc_ovflw s)
  wait_fc_run tick s = check_timeout s
  wait_fc_run no_event s = s

  -- The run column of `tx_states`
  unfoldable pub run : State → Sender → Sender
  run State.idle s = idle_run s.event s
  run State.awaiting_fc s = wait_fc_run s.event s

  -- An event stored, `smf_run_state`, and the event cleared.
  unfoldable pub run_event : Event → Sender → Sender
  run_event ev s = record (k.run_state State Sender (λ s. s.smf) run (record s { event = ev })) {
    event = no_event;
  }

  -- `ISOTP_TxQueue_Init`, over any contents of the static objects.
  unfoldable pub init : Sender → Sender
  init s = record (set_state State.idle s) { queue = [] }

  unfoldable pub put : Sender → Sender × Bool
  put s = elim (k.msgq_put Request queue_size s.scratch s.queue) [
    | none ↦ (s, false)
    | some q ↦ (record s { queue = q }, true)
  ]

  unfoldable pub put_or_report : Sender → Sender × Bool
  put_or_report s =
      let (s', done) = put s in if done then (s', true) else (fault queue_fault 0 s', false)

  -- The branch for a full queue: a transfer that has waited too long is dropped, and the machine
  -- takes a request off the queue. The second `k_msgq_put` takes the scratch request as it is then.
  unfoldable pub enqueue_full : Sender → Sender × Bool
  enqueue_full s₀ =
      if is_idle s₀
      then (fault queue_fault 0 s₀, false)
      else (let s : Sender = record s₀ { reads = s₀.reads + 1 } in
          if ltb timeout_n_bs (elapsed (k.uptime s₀.reads) s.tx_last_frame_time)
          then put_or_report (run_event tick (set_state State.idle s))
          else (fault queue_fault 0 s, false))

  -- `ISOTP_TxQueue_Enqueue`
  unfoldable pub enqueue : Sender → ℕ → ℕ → ℕ → List ℕ → ℕ → Sender × Bool
  enqueue s source target message_id bytes length =
      if length == 0 || ltb buffer_size length
      then (fault null_ptr 0 s, false)
      else (let s' : Sender = record s {
        scratch = request source target message_id bytes length;
      } in
          let (s'', done) = put s' in if done then (s'', true) else enqueue_full s'')

  -- A Flow Control event, and then at once the next request if the machine came back to idle.
  unfoldable pub flow_event : Event → Message → Sender → Sender
  flow_event ev fc s =
      let s' : Sender = record (run_event ev (record s { fc_message = some fc })) {
        fc_message = none;
      } in
      if is_idle s' then run_event tick s' else s'

  -- The `switch` on the flow status
  unfoldable pub on_flow_status : ℕ → Message → Sender → Sender
  on_flow_status status fc s =
      if status == fc_cts
      then flow_event cts_event fc s
      else if status == fc_wait
      then flow_event wait_event fc s
      else if status == fc_ovflw
      then flow_event ovflw_event fc s
      else set_state State.idle (fault isotp_state status s)

  -- `ISOTP_TxQueue_ProcessFC`
  unfoldable pub process_fc : Sender → Message → Sender × Bool
  process_fc s fc =
      if is_idle s
      then (s, false)
      else if not (msg_target fc == s.current.source % 256) && not (msg_target fc == broadcast_addr)
      then (s, false)
      else (on_flow_status (byte fc 0) fc s, true)

  -- `ISOTP_TxQueue_Poll`
  unfoldable pub poll : Sender → Sender
  poll s = run_event tick s

-- `ISOTP_TxQueue_IsBusy`
unfoldable pub is_busy : Sender → Bool
is_busy s = not (is_idle s)

-- `ISOTP_TxQueue_GetPendingCount`; `k_msgq_num_used_get` is the number of messages queued.
unfoldable pub pending_count : Sender → ℕ
pending_count s = length s.queue % 256
