-- ===== src/Isotp/Receive/Safety.antt =====
-- The invariant of a receive context: no frame makes it leave its buffer or its state table.
use dive_canhead.Base.{
  ℕ, ◌+◌, ◌≤◌, ◌<◌, ◌≡◌, refl, ◌⊎◌, inl, inr, some, none, length, length-blit, length-take,
  length-drop, take, drop, length-replicate, false, arith, ◌==◌, Bool-cases,
}
use dive_canhead.Zephyr.{model}
use dive_canhead.Isotp.Frame.{Message, pci_of, pci_low, pci_fc, msg_target, Fault, isotp_timeout}
use dive_canhead.Isotp.Receive.{
  Context, State, Event, no_event, sf_event, ff_event, cf_event, timeout_event, reset,
  handle_single_frame, handle_first_frame, handle_consecutive_frame, bytes_to_copy, idle_event,
  receiving_event, fault, run, run_state, state_number, init, process_rx_frame, poll, poll_expired,
  retarget, dispatch,
}

-- What the states of the table say of the progress: a First Frame brings six bytes, also where it
-- announces fewer, and after it fewer bytes than announced have arrived.
abbrev pub Phase : State → ℕ → ℕ → Type 0
Phase State.idle total received = received ≡ 0
Phase State.receiving total received = (0 < total) × ((received < total) ⊎ (received ≡ 6))
Phase _ total received = ⊥

pub record IsValid (c : Context) : Type 0 where
  pub buffer : length c.rx_buffer ≡ 256
  pub tracked : c.state ≡ c.smf
  pub announced : c.rx_data_length ≤ 256
  pub phase : Phase c.smf c.rx_data_length c.rx_bytes_received

-- `data` has eight bytes.
abbrev pub IsFrame : Message → Type 0
IsFrame m = length m.bytes ≡ 8

pub length-payload :
    (m : Message) (at n : ℕ) → IsFrame m → at + n ≤ 8 → length (take n (drop at m.bytes)) ≡ n
length-payload m at n f h = omega (arith, length-take n (drop at m.bytes), length-drop at m.bytes)

-- A context with an event and its frame stored, and after it ran.
abbrev pub loaded : Context → Event → Message → Context
loaded c ev m = record c { current_event = ev; current_message = some m; current_consumed = false }

loaded-IsValid : (c : Context) (ev : Event) (m : Message) → IsValid c → IsValid (loaded c ev m)
loaded-IsValid c ev m v = record {
  buffer = v.buffer;
  tracked = v.tracked;
  announced = v.announced;
  phase = v.phase;
}

unloaded-IsValid :
    (c : Context)
    → IsValid c
    → IsValid (record c { current_message = none; current_event = no_event })
unloaded-IsValid c v = record {
  buffer = v.buffer;
  tracked = v.tracked;
  announced = v.announced;
  phase = v.phase;
}

fault-IsValid : (f : Fault) (d : ℕ) (c : Context) → IsValid c → IsValid (fault f d c)
unfolding fault
fault-IsValid f d c v = record {
  buffer = v.buffer;
  tracked = v.tracked;
  announced = v.announced;
  phase = v.phase;
}

retarget-IsValid : (c : Context) (m : Message) → IsValid c → IsValid (retarget c m)
unfolding retarget
retarget-IsValid c m v = ground arith

module _ (clock : ℕ → ℕ) where
  pub init-IsValid : (c : Context) (s t i : ℕ) → IsValid (init (model clock) c s t i)
  unfolding init
  init-IsValid c s t i = ground (arith, length-replicate {A = ℕ} 256 0)

  pub reset-IsValid :
      (c : Context)
      → length c.rx_buffer ≡ 256
      → c.rx_data_length ≤ 256
      → IsValid (reset (model clock) c)
  unfolding reset
  reset-IsValid c b h = ground arith

  single-IsValid :
      (c : Context) (m : Message)
      → IsFrame m
      → IsValid c
      → IsValid (handle_single_frame (model clock) c m)
  unfolding handle_single_frame
  single-IsValid c m f v = ground (
    arith,
    length-payload m 1 (pci_low m) f,
    length-blit c.rx_buffer 0 (take (pci_low m) (drop 1 m.bytes)),
  )

  first-IsValid :
      (c : Context) (m : Message)
      → IsFrame m
      → IsValid c
      → IsValid (handle_first_frame (model clock) c m)
  unfolding handle_first_frame
  first-IsValid c m f v =
      ground (arith, length-payload m 2 6 f, length-blit c.rx_buffer 0 (take 6 (drop 2 m.bytes)))

  consecutive-IsValid :
      (c : Context) (m : Message)
      → IsFrame m
      → IsValid c
      → c.smf ≡ State.receiving
      → IsValid (handle_consecutive_frame (model clock) c m)
  unfolding handle_consecutive_frame
  consecutive-IsValid c m f v e = ground (
    arith,
    length-payload m 1 (bytes_to_copy c) f,
    length-blit c.rx_buffer c.rx_bytes_received (take (bytes_to_copy c) (drop 1 m.bytes)),
  )

  idle_event-IsValid :
      (ev : Event) (c : Context) (m : Message)
      → IsFrame m
      → IsValid c
      → IsValid (idle_event (model clock) ev (loaded c ev m))
  unfolding idle_event
  idle_event-IsValid no_event c m f v = loaded-IsValid c no_event m v
  idle_event-IsValid sf_event c m f v = single-IsValid _ m f (loaded-IsValid c sf_event m v)
  idle_event-IsValid ff_event c m f v = first-IsValid _ m f (loaded-IsValid c ff_event m v)
  idle_event-IsValid cf_event c m f v = fault-IsValid _ _ _ (loaded-IsValid c cf_event m v)
  idle_event-IsValid timeout_event c m f v = loaded-IsValid c timeout_event m v

  receiving_event-IsValid :
      (ev : Event) (c : Context) (m : Message)
      → IsFrame m
      → IsValid c
      → c.smf ≡ State.receiving
      → IsValid (receiving_event (model clock) ev (loaded c ev m))
  unfolding receiving_event
  receiving_event-IsValid no_event c m f v e = loaded-IsValid c no_event m v
  receiving_event-IsValid sf_event c m f v e = single-IsValid _ m f (loaded-IsValid c sf_event m v)
  receiving_event-IsValid ff_event c m f v e = first-IsValid _ m f (loaded-IsValid c ff_event m v)
  receiving_event-IsValid cf_event c m f v e =
      consecutive-IsValid _ m f (loaded-IsValid c cf_event m v) e
  receiving_event-IsValid timeout_event c m f v e =
      reset-IsValid (fault isotp_timeout (state_number c.state) (loaded c timeout_event m)) v.buffer
        v.announced

  -- A run action keeps the invariant, in whichever state the context is.
  pub run-IsValid :
      (s : State) (c : Context) (m : Message) (ev : Event)
      → c.smf ≡ s
      → IsFrame m
      → IsValid c
      → IsValid (run (model clock) s (loaded c ev m))
  unfolding run
  run-IsValid State.idle c m ev e f v = idle_event-IsValid ev c m f v
  run-IsValid State.receiving c m ev e f v = receiving_event-IsValid ev c m f v e
  run-IsValid State.transmitting c m ev e f v = loaded-IsValid c ev m v
  run-IsValid State.awaiting_fc c m ev e f v = loaded-IsValid c ev m v

  dispatch-IsValid :
      (c : Context) (m : Message) (ev : Event)
      → IsFrame m
      → IsValid c
      → IsValid (dispatch (model clock) c m ev).0
  unfolding dispatch run_state
  dispatch-IsValid c m no_event f v = fault-IsValid _ _ c v
  dispatch-IsValid c m sf_event f v = unloaded-IsValid _ (run-IsValid c.smf c m sf_event refl f v)
  dispatch-IsValid c m ff_event f v = unloaded-IsValid _ (run-IsValid c.smf c m ff_event refl f v)
  dispatch-IsValid c m cf_event f v = unloaded-IsValid _ (run-IsValid c.smf c m cf_event refl f v)
  dispatch-IsValid c m timeout_event f v =
      unloaded-IsValid _ (run-IsValid c.smf c m timeout_event refl f v)

  pub process-IsValid :
      (c : Context) (m : Message)
      → IsFrame m
      → IsValid c
      → IsValid (process_rx_frame (model clock) c m).0
  unfolding process_rx_frame
  process-IsValid c m f v = elim (Bool-cases (msg_target m == c.source)) [
    | inr e ↦ rw e v
    | inl e ↦ rw e (elim (Bool-cases (pci_of m == pci_fc)) [
      | inl q ↦ rw q (retarget-IsValid c m v)
      | inr q ↦ rw q (dispatch-IsValid (retarget c m) m _ f (retarget-IsValid c m v))
    ])
  ]

  -- The two assignments of `ISOTP_Poll` before the machine runs.
  timed_out : Context → Context
  timed_out c = record c { current_event = timeout_event; current_message = none }

  timed_out-IsValid : (c : Context) → IsValid c → IsValid (timed_out c)
  unfolding timed_out
  timed_out-IsValid c v = record {
    buffer = v.buffer;
    tracked = v.tracked;
    announced = v.announced;
    phase = v.phase;
  }

  timeout-IsValid :
      (s : State) (c : Context) → IsValid c → IsValid (run (model clock) s (timed_out c))
  unfolding run timed_out
  timeout-IsValid State.idle c v = timed_out-IsValid c v
  timeout-IsValid State.receiving c v =
      reset-IsValid (fault isotp_timeout (state_number c.state) (timed_out c)) v.buffer v.announced
  timeout-IsValid State.transmitting c v = timed_out-IsValid c v
  timeout-IsValid State.awaiting_fc c v = timed_out-IsValid c v

  pub poll-IsValid : (c : Context) (now : ℕ) → IsValid c → IsValid (poll (model clock) c now)
  unfolding poll run_state timed_out
  poll-IsValid c now v = elim (Bool-cases (poll_expired c now)) [
    | inr e ↦ rw e v
    | inl e ↦
        let w : IsValid (run (model clock) c.smf (timed_out c)) = timeout-IsValid c.smf c v in
        rw e (record {
          buffer = w.buffer;
          tracked = w.tracked;
          announced = w.announced;
          phase = w.phase;
        })
  ]
