-- ===== src/Isotp/Examples.antt =====
-- Tests of the ISO-TP transport at concrete frames, and the theorems applied to them.
use dive_canhead.Base.{
  ℕ, ◌+◌, ◌≤◌, ◌<◌, ◌≡◌, refl, List, [], ◌∷◌, ◌++◌, map, true, false, arith, none, some, inl, inr,
  ◌⊎◌, length,
}
use dive_canhead.Zephyr.{Kernel, IsKernel, model, model-IsKernel}
use dive_canhead.Isotp.Frame.{Message, zeros, msg_target}
use dive_canhead.Isotp.Frame
use dive_canhead.Isotp.Transfer
use dive_canhead.Isotp.Send
use dive_canhead.Isotp.Receive
use dive_canhead.Isotp.Receive.{Context}
use dive_canhead.Isotp.TxQueue
use dive_canhead.Isotp.TxQueue.{Sender, Request, request, zero_request}

-- A kernel whose clock stands at five seconds.
abbrev kernel : Kernel
kernel = model (λ n. 5000)

kernel-IsKernel : IsKernel kernel
kernel-IsKernel = model-IsKernel (λ n. 5000) (λ n. omega arith)

abbrev menu_id : ℕ
menu_id = 0x0D0A0000

-- A context of the controller (1) for the head (4), before `ISOTP_Init`.
abbrev blank : Context
blank = record {
  smf = Receive.State.idle;
  state = Receive.State.idle;
  rx_data_length = 0;
  rx_bytes_received = 0;
  rx_sequence_number = 0;
  rx_buffer = zeros 256;
  rx_last_frame_time = 0;
  rx_complete = false;
  tx_data_length = 0;
  tx_bytes_sent = 0;
  tx_sequence_number = 0;
  tx_data_ptr = none;
  tx_block_size = 0;
  tx_stmin = 0;
  tx_block_counter = 0;
  tx_last_frame_time = 0;
  tx_complete = false;
  source = 1;
  target = 4;
  message_id = menu_id;
  broadcast_tx = false;
  current_event = Receive.no_event;
  current_message = none;
  current_consumed = false;
  reads = 0;
  sent = [];
  faults = [];
}

-- It has the First Frame of a message of 10 bytes, at time 0.
abbrev midway : Context
midway = record blank {
  smf = Receive.State.receiving;
  state = Receive.State.receiving;
  rx_data_length = 10;
  rx_bytes_received = 6;
  rx_sequence_number = 1;
}

abbrev frame_to_controller : List ℕ → Message
frame_to_controller bytes = record { id = menu_id + 0x104; length = 8; bytes = bytes }

abbrev last_frame : Message
last_frame = frame_to_controller (0x21 ∷ 1 ∷ 2 ∷ 3 ∷ 4 ∷ 0 ∷ 0 ∷ 0 ∷ [])

abbrev odd_frame : Message
odd_frame = frame_to_controller (0x23 ∷ 1 ∷ 2 ∷ 3 ∷ 4 ∷ 0 ∷ 0 ∷ 0 ∷ [])

abbrev long_frame : Message
long_frame = frame_to_controller (0x12 ∷ 0 ∷ 1 ∷ 2 ∷ 3 ∷ 4 ∷ 5 ∷ 6 ∷ [])

abbrev frame_from_bridge : Message
frame_from_bridge = record { id = menu_id + 0x1FF; length = 8; bytes = 0x02 ∷ 9 ∷ 8 ∷ zeros 5 }

midway-IsValid : Receive.Safety.IsValid midway
midway-IsValid = record {
  buffer = refl;
  tracked = refl;
  announced = omega arith;
  phase = (omega arith, inl (omega arith));
}

last_frame_completes : (Receive.process_rx_frame kernel midway last_frame).0.rx_complete ≡ true
unfolding Receive.process_rx_frame Receive.dispatch Receive.retarget Receive.pci_to_event
    Receive.run_state
last_frame_completes = refl

rx_history-IsValid_example : Receive.Safety.IsValid (
    Receive.Reach.after_all kernel
      (Receive.init kernel blank 1 4 menu_id)
      (Receive.Reach.Call.frames long_frame ∷ Receive.Reach.Call.polls 7000 ∷ []))
rx_history-IsValid_example =
    Receive.Reach.rx_history-IsValid kernel blank 1 4 menu_id
      (Receive.Reach.Call.frames long_frame ∷ Receive.Reach.Call.polls 7000 ∷ []) kernel-IsKernel
      (refl, (tt, tt))

copy_in_bounds_example :
    let c' = (Receive.process_rx_frame kernel midway last_frame).0 in
    (6 + Receive.Errors.next_bytes midway ≤ 256)
    × (c'.rx_buffer ≡ Receive.Errors.overwritten midway last_frame 6 4)
    × (length c'.rx_buffer ≡ 256)
copy_in_bounds_example =
    Receive.Errors.copy_in_bounds kernel midway last_frame kernel-IsKernel midway-IsValid refl refl
      refl refl (omega arith) refl

dialog_follows_sender_example :
    (Receive.process_rx_frame kernel midway frame_from_bridge).0.target ≡ 255
dialog_follows_sender_example =
    Receive.Reach.dialog_follows_sender kernel midway frame_from_bridge kernel-IsKernel refl refl
      (inl (omega arith))

sequence_error_example :
    let (c', consumed) = Receive.process_rx_frame kernel midway odd_frame in
    Receive.Errors.BadSequence midway c' odd_frame × (consumed ≡ true)
sequence_error_example =
    Receive.Errors.sequence_error kernel midway odd_frame kernel-IsKernel refl refl refl
      (omega arith)

reception_timeout_example :
    (Frame.elapsed 500 0 ≤ 1000 → Receive.poll kernel midway 500 ≡ midway)
    × (1000 < Frame.elapsed 500 0 → Receive.Errors.TimedOut midway (Receive.poll kernel midway 500))
reception_timeout_example =
    Receive.Errors.reception_timeout kernel midway 500 kernel-IsKernel refl refl

-- A log message to the bridge (0xFF) and a reply to the controller, of ten bytes each.
abbrev broadcast : Request
broadcast = request 4 255 menu_id (1 ∷ 2 ∷ 3 ∷ 4 ∷ 5 ∷ 6 ∷ 7 ∷ 8 ∷ 9 ∷ 10 ∷ []) 10

abbrev reply : Request
reply = request 4 1 menu_id (1 ∷ 2 ∷ 3 ∷ 4 ∷ 5 ∷ 6 ∷ 7 ∷ 8 ∷ 9 ∷ 10 ∷ []) 10

abbrev quiet : Sender
quiet = record {
  smf = TxQueue.State.idle;
  current = zero_request;
  tx_bytes_sent = 0;
  tx_sequence_number = 0;
  tx_block_size = 0;
  tx_stmin = 0;
  tx_block_counter = 0;
  tx_last_frame_time = 0;
  event = TxQueue.no_event;
  fc_message = none;
  scratch = zero_request;
  queue = [];
  reads = 0;
  actions = [];
  faults = [];
}

-- The reply with its First Frame sent at time 0, and one request behind it.
abbrev waiting : Sender
waiting = record quiet {
  smf = TxQueue.State.awaiting_fc;
  current = reply;
  tx_bytes_sent = 5;
  queue = broadcast ∷ [];
}

abbrev wedged : Sender
wedged = record waiting { queue = broadcast ∷ reply ∷ [] }

-- CTS frames for the head, without and with a block size of one.
abbrev go : Message
go = record { id = menu_id + 0x401; length = 3; bytes = 0x30 ∷ zeros 7 }

abbrev go_one : Message
go_one = record { id = menu_id + 0x401; length = 3; bytes = 0x30 ∷ 1 ∷ zeros 6 }

-- The node at the other end of a broadcast reads the target nibble 0xF.
abbrev bridge : Context
bridge = record blank { source = 15 }

poll_delivers_message_example :
    (fs : List Message) × ((TxQueue.poll kernel (record quiet { queue = broadcast ∷ [] })).actions
      ≡ [] ++ map TxQueue.frame fs)
    × Transfer.Delivered broadcast (Receive.process_all kernel bridge fs)
poll_delivers_message_example =
    Transfer.poll_delivers_message kernel kernel (record quiet { queue = broadcast ∷ [] }) broadcast
      [] bridge kernel-IsKernel kernel-IsKernel refl refl (omega arith) (inr refl) (tt, refl) refl

dialog_delivers_message_example :
    let s' =
      (TxQueue.process_fc kernel
        (TxQueue.poll kernel (record quiet { queue = reply ∷ [] }))
        go).0 in
    (fs : List Message) × (s'.actions ≡ [] ++ map TxQueue.frame fs)
    × Transfer.Delivered reply (Receive.process_all kernel blank fs)
    × (s'.smf ≡ TxQueue.State.idle)
dialog_delivers_message_example =
    Transfer.dialog_delivers_message kernel kernel (record quiet { queue = reply ∷ [] }) reply go
      blank kernel-IsKernel kernel-IsKernel refl refl (omega arith) (omega arith) (omega arith)
      (refl, refl, refl, refl) (tt, refl) refl

tx_history-IsValid_example : TxQueue.Invariant.IsValid (
    TxQueue.Reach.after_all kernel (TxQueue.init kernel wedged) (
      TxQueue.Reach.enqueues 4 1 menu_id (1 ∷ 2 ∷ []) 2
      ∷ TxQueue.Reach.polls
      ∷ TxQueue.Reach.flows go
      ∷ []))
tx_history-IsValid_example =
    TxQueue.Reach.tx_history-IsValid kernel wedged
      (TxQueue.Reach.enqueues 4 1 menu_id (1 ∷ 2 ∷ []) 2
        ∷ TxQueue.Reach.polls
        ∷ TxQueue.Reach.flows go
        ∷ [])
      kernel-IsKernel

boundary_keeps_waiting_example :
    let s' = (TxQueue.process_fc kernel waiting go_one).0 in
    (s'.smf ≡ TxQueue.State.awaiting_fc)
    × (s'.tx_bytes_sent ≡ 10)
    × (s'.queue ≡ broadcast ∷ [])
    × (s'.current ≡ reply)
boundary_keeps_waiting_example =
    TxQueue.Boundary.boundary_keeps_waiting kernel waiting go_one kernel-IsKernel refl (omega arith)
      refl (omega arith) refl refl

-- The transfer has just sent its First Frame.
abbrev fresh : Sender
fresh = record wedged { tx_last_frame_time = 4900 }

fresh_is_alive : ¬ TxQueue.Enqueue.IsStalled kernel fresh
fresh_is_alive (e, late) = absurd (omega arith)

enqueue_refuses_example :
    TxQueue.enqueue kernel fresh 4 1 menu_id (1 ∷ 2 ∷ []) 2
    ≡ (TxQueue.Enqueue.refusal 4 1 menu_id (1 ∷ 2 ∷ []) 2 fresh, false)
enqueue_refuses_example =
    TxQueue.Enqueue.enqueue_refuses kernel fresh 4 1 menu_id (1 ∷ 2 ∷ []) 2 kernel-IsKernel
      (omega arith) (omega arith) (omega arith) fresh_is_alive

stalled_enqueue_requeues_example :
    let (s', done) = TxQueue.enqueue kernel wedged 4 1 menu_id (1 ∷ 2 ∷ []) 2 in
    (done ≡ true) × (s'.queue ≡ reply ∷ broadcast ∷ []) × (s'.current ≡ broadcast)
stalled_enqueue_requeues_example =
    TxQueue.Enqueue.stalled_enqueue_requeues kernel wedged 4 1 menu_id (1 ∷ 2 ∷ []) 2 broadcast
      reply kernel-IsKernel (omega arith) (omega arith) refl (refl, omega arith)

flow_timeout_example :
    let s' = TxQueue.poll kernel wedged in
    (Frame.elapsed 5000 0 ≤ 1000 → s' ≡ record wedged { event = TxQueue.no_event; reads = 1 })
    × (1000 < Frame.elapsed 5000 0
        → (s'.smf ≡ TxQueue.State.idle) × (s'.queue ≡ broadcast ∷ reply ∷ []) × (s'.actions ≡ []))
flow_timeout_example = TxQueue.Flow.flow_timeout kernel wedged kernel-IsKernel refl

flow_control_is_addressed_example :
    (TxQueue.Flow.IsAwaited waiting go × ((TxQueue.process_fc kernel waiting go).1 ≡ true))
    ⊎ (¬ (TxQueue.Flow.IsAwaited waiting go)
        × (TxQueue.process_fc kernel waiting go ≡ (waiting, false)))
flow_control_is_addressed_example =
    TxQueue.Flow.flow_control_is_addressed kernel waiting go kernel-IsKernel

-- The context of the head (4) for the controller (1).
abbrev head : Context
head = record blank { source = 4; target = 1 }

send_delivers_message_example :
    let ((c', s'), done) = Send.send kernel head quiet (some (34 ∷ 18 ∷ [])) 2 in
    (done ≡ true)
    × (c'.tx_complete ≡ true)
    × ((fs : List Message) × ((TxQueue.poll kernel s').actions ≡ [] ++ map TxQueue.frame fs)
        × Send.Holds 2 (34 ∷ 18 ∷ []) (Receive.process_all kernel blank fs))
send_delivers_message_example =
    Send.send_delivers_message kernel kernel head quiet (34 ∷ 18 ∷ []) 2 blank kernel-IsKernel
      kernel-IsKernel refl refl (omega arith) (omega arith) (omega arith) (inl (omega arith))
      (tt, refl) refl
