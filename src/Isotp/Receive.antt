-- ===== src/Isotp/Receive.antt =====
-- The receive side of an ISO-TP context (Firmware/src/divecan/isotp.c). One flat record is the
-- state: the members of `ISOTPContext_t`, and behind them what the calls read and leave outside
-- of it. A pointer that the callers never leave NULL is a value.
pub mod Safety
pub mod Frames
pub mod Reach
pub mod Errors
use dive_canhead.Base.{
  ℕ, ◌++◌, ◌+◌, ◌*◌, ◌-◌, ◌%◌, ◌^◌, List, [], ◌∷◌, Bool, true, false, not, ◌&&◌, ◌||◌, Option, none,
  some, take, drop, blit, ltb, leb, ◌==◌, if◌then◌else◌,
}
use dive_canhead.Zephyr.{Kernel}
use dive_canhead.Isotp.Frame.{
  Message, byte, pci_of, pci_low, msg_target, msg_source, max_payload, sf_max_data, ff_data_bytes,
  cf_data_bytes, pci_sf, pci_ff, pci_cf, pci_fc, fc_cts, fc_ovflw, broadcast_addr, timeout_n_cr,
  can_id, zeros, elapsed, Fault, isotp_state, isotp_timeout, isotp_overflow, isotp_seq,
}

-- `ISOTPState_t`; the receive machine registers the first two.
pub data State : Type 0 where
  idle receiving transmitting awaiting_fc : State

-- `IsotpRxEvent_e`
pub data Event : Type 0 where
  no_event sf_event ff_event cf_event timeout_event : Event

pub record Context : Type 0 where
  -- `smf.current`, and the copy of it that the entry actions keep
  pub smf : State
  pub state : State
  pub rx_data_length : ℕ
  pub rx_bytes_received : ℕ
  pub rx_sequence_number : ℕ
  pub rx_buffer : List ℕ
  pub rx_last_frame_time : ℕ
  pub rx_complete : Bool
  pub tx_data_length : ℕ
  pub tx_bytes_sent : ℕ
  pub tx_sequence_number : ℕ
  pub tx_data_ptr : Option (List ℕ)
  pub tx_block_size : ℕ
  pub tx_stmin : ℕ
  pub tx_block_counter : ℕ
  pub tx_last_frame_time : ℕ
  pub tx_complete : Bool
  pub source : ℕ
  pub target : ℕ
  pub message_id : ℕ
  pub broadcast_tx : Bool
  pub current_event : Event
  pub current_message : Option Message
  pub current_consumed : Bool
  -- the clock reads made so far, the frames given to `divecan_send`, and the errors reported, the
  -- last one first
  pub reads : ℕ
  pub sent : List Message
  pub faults : List (Fault × ℕ)

unfoldable pub fault : Fault → ℕ → Context → Context
fault f detail c = record c { faults = (f, detail) ∷ c.faults }

unfoldable pub idle_entry : Context → Context
idle_entry c = record c {
  state = State.idle;
  rx_data_length = if not c.rx_complete then 0 else c.rx_data_length;
  rx_bytes_received = 0;
  rx_sequence_number = 0;
  rx_last_frame_time = 0;
}

unfoldable pub receiving_entry : Context → Context
receiving_entry c = record c { state = State.receiving }

-- The entry column of `isotp_states`; the other two states are not in the table.
unfoldable pub entry : State → Context → Context
unfolding idle_entry receiving_entry
entry State.idle c = idle_entry c
entry State.receiving c = receiving_entry c
entry _ c = c

abbrev store : State → Context → Context
store s c = record c { smf = s }

-- `SendFlowControl`, with the frame that it passes to `divecan_send`.
unfoldable pub send_flow_control : ℕ → ℕ → ℕ → Context → Context
send_flow_control flow_status block_size stmin c = record c { sent = c.sent ++ fc ∷ [] }
  where
    fc : Message
    fc = record {
      id = can_id c.message_id c.target c.source;
      length = 3;
      bytes = flow_status ∷ block_size ∷ stmin ∷ zeros 5;
    }

-- The numbers of the states in the error reports
abbrev pub state_number : State → ℕ
state_number State.idle = 0
state_number State.receiving = 1
state_number State.transmitting = 2
state_number State.awaiting_fc = 3

abbrev pub is_receiving : State → Bool
is_receiving State.receiving = true
is_receiving _ = false

-- The first two bytes of a First Frame, as a 12-bit length
abbrev pub ff_length : Message → ℕ
ff_length m = pci_low m * 256 + byte m 1

unfoldable pub pci_to_event : ℕ → Event
pci_to_event pci =
    if pci == pci_sf
    then sf_event
    else if pci == pci_ff
    then ff_event
    else if pci == pci_cf
    then cf_event
    else no_event

-- The bytes that a Consecutive Frame is taken to carry; `uint16_t` subtraction wraps.
unfoldable pub bytes_to_copy : Context → ℕ
bytes_to_copy c =
    let remaining = (c.rx_data_length + 2 ^ 16 - c.rx_bytes_received) % 2 ^ 16 in
    if ltb cf_data_bytes remaining then cf_data_bytes else remaining

-- The peer becomes the sender of the frame, but for a broadcast sender and for the Flow Control
-- frames that come from 0xFF.
abbrev pub moves : Context → Message → Bool
moves c m =
    let is_shearwater_fc = pci_of m == pci_fc && broadcast_addr == msg_source m in
    not (msg_source m == c.target) && not is_shearwater_fc && not c.broadcast_tx

unfoldable pub retarget : Context → Message → Context
retarget c m = if moves c m then record c { target = msg_source m } else c

-- The guard of `ISOTP_Poll`
abbrev pub poll_expired : Context → ℕ → Bool
poll_expired c now = is_receiving c.state && ltb timeout_n_cr (elapsed now c.rx_last_frame_time)

module _ (k : Kernel) where
  unfoldable pub set_state : State → Context → Context
  unfolding entry
  set_state s c = k.set_state State Context store entry s c

  unfoldable pub reset : Context → Context
  unfolding set_state
  reset c = set_state State.idle (record c {
    tx_data_length = 0;
    tx_bytes_sent = 0;
    tx_sequence_number = 0;
    tx_data_ptr = none;
    tx_block_size = 0;
    tx_stmin = 0;
    tx_block_counter = 0;
    tx_last_frame_time = 0;
  })

  -- `HandleSingleFrame`; its callers drop the result.
  unfoldable pub handle_single_frame : Context → Message → Context
  unfolding set_state fault
  handle_single_frame c m =
      let length = pci_low m in
      if length == 0 || ltb sf_max_data length
      then fault isotp_overflow length c
      else if ltb m.length (length + 1)
      then fault isotp_overflow m.length c
      else record (set_state State.idle (record c {
        rx_buffer = blit c.rx_buffer 0 (take length (drop 1 m.bytes));
        rx_data_length = length;
        rx_complete = true;
      })) { current_consumed = true }

  ff_accepted : Context → Message → Context
  unfolding set_state send_flow_control
  ff_accepted c m = set_state State.receiving (
      send_flow_control fc_cts 0 0 (record c {
        rx_data_length = ff_length m;
        rx_sequence_number = 1;
        rx_buffer = blit c.rx_buffer 0 (take ff_data_bytes (drop 2 m.bytes));
        rx_bytes_received = ff_data_bytes;
        rx_last_frame_time = k.uptime c.reads;
        reads = c.reads + 1;
      }))

  -- `HandleFirstFrame`
  unfoldable pub handle_first_frame : Context → Message → Context
  unfolding ff_accepted reset send_flow_control fault
  handle_first_frame c m =
      let length = ff_length m in
      record (if length == 0 || ltb max_payload length
        then fault isotp_overflow length (reset (send_flow_control fc_ovflw 0 0 c))
        else ff_accepted c m) { current_consumed = true }

  cf_accepted : Context → Message → Context
  unfolding bytes_to_copy reset
  cf_accepted c m =
      let n = bytes_to_copy c in
      let c' : Context = record c {
        rx_buffer = blit c.rx_buffer c.rx_bytes_received (take n (drop 1 m.bytes));
        rx_bytes_received = (c.rx_bytes_received + n) % 2 ^ 16;
        rx_last_frame_time = k.uptime c.reads;
        rx_sequence_number = (c.rx_sequence_number + 1) % 16;
        reads = c.reads + 1;
      } in
      if leb c'.rx_data_length c'.rx_bytes_received
      then reset (record c' { rx_complete = true })
      else c'

  -- `HandleConsecutiveFrame`
  unfoldable pub handle_consecutive_frame : Context → Message → Context
  unfolding cf_accepted reset fault
  handle_consecutive_frame c m =
      let seq_num = pci_low m in
      record (if not (seq_num == c.rx_sequence_number)
        then reset (fault isotp_seq ((c.rx_sequence_number * 16 + seq_num) % 256) c)
        else cf_accepted c m) { current_consumed = true }

  -- A handler on the stored message. It is NULL on a timeout only, where no handler runs.
  on_message : (Context → Message → Context) → Context → Context
  on_message handler c = elim c.current_message [ none ↦ c | some m ↦ handler c m ]

  -- `isotp_idle_run`
  unfoldable pub idle_event : Event → Context → Context
  unfolding handle_single_frame handle_first_frame on_message fault
  idle_event sf_event c = on_message handle_single_frame c
  idle_event ff_event c = on_message handle_first_frame c
  idle_event cf_event c = fault isotp_state (state_number c.state) c
  idle_event _ c = c

  -- `isotp_receiving_run`
  unfoldable pub receiving_event : Event → Context → Context
  unfolding handle_single_frame handle_first_frame handle_consecutive_frame on_message reset fault
  receiving_event cf_event c = on_message handle_consecutive_frame c
  receiving_event sf_event c = on_message handle_single_frame c
  receiving_event ff_event c = on_message handle_first_frame c
  receiving_event timeout_event c = reset (fault isotp_timeout (state_number c.state) c)
  receiving_event no_event c = c

  -- The run column of `isotp_states`.
  unfoldable pub run : State → Context → Context
  unfolding idle_event receiving_event
  run State.idle c = idle_event c.current_event c
  run State.receiving c = receiving_event c.current_event c
  run _ c = c

  unfoldable pub run_state : Context → Context
  unfolding run
  run_state c = k.run_state State Context (λ c. c.smf) run c

  -- `ISOTP_Init`, over any contents of the structure.
  unfoldable pub init : Context → ℕ → ℕ → ℕ → Context
  unfolding entry
  init c source target message_id = k.set_initial State Context store entry State.idle (record c {
    smf = State.idle;
    state = State.idle;
    rx_data_length = 0;
    rx_bytes_received = 0;
    rx_sequence_number = 0;
    rx_buffer = zeros max_payload;
    rx_last_frame_time = 0;
    rx_complete = false;
    tx_data_length = 0;
    tx_bytes_sent = 0;
    tx_sequence_number = 0;
    tx_data_ptr = none;
    tx_block_size = 0;
    tx_stmin = 0;
    tx_block_counter = 0;
    tx_last_frame_time = 0;
    tx_complete = false;
    source = source;
    target = target;
    message_id = message_id;
    broadcast_tx = target % 256 == broadcast_addr;
    current_event = no_event;
    current_message = none;
    current_consumed = false;
  })

  unfoldable pub dispatch : Context → Message → Event → Context × Bool
  unfolding run_state fault
  dispatch c m no_event = (fault isotp_state (pci_of m) c, false)
  dispatch c m ev =
      let c' : Context =
        run_state
          (record c { current_event = ev; current_message = some m; current_consumed = false }) in
      (record c' { current_message = none; current_event = no_event }, c'.current_consumed)

  -- `ISOTP_ProcessRxFrame`
  unfoldable pub process_rx_frame : Context → Message → Context × Bool
  process_rx_frame c m =
      if not (msg_target m == c.source)
      then (c, false)
      else if pci_of m == pci_fc
      then (retarget c m, false)
      else dispatch (retarget c m) m (pci_to_event (pci_of m))

  -- `ISOTP_Poll`
  unfoldable pub poll : Context → ℕ → Context
  unfolding run_state
  poll c now =
      if poll_expired c now
      then record (run_state (record c { current_event = timeout_event; current_message = none })) {
        current_event = no_event;
      }
      else c

  -- The frames of a transfer, one after the other.
  unfoldable pub process_all : Context → List Message → Context
  process_all c [] = c
  process_all c (m ∷ ms) = process_all (process_rx_frame c m).0 ms
