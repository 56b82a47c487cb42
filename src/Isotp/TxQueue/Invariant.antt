-- ===== src/Isotp/TxQueue/Invariant.antt =====
-- The invariant of the transmit queue: no call reads outside of a payload or overfills the queue.
use dive_canhead.Base.{
  ℕ, ◌≤◌, ◌<◌, ◌≡◌, refl, List, [], ◌∷◌, ◌++◌, Bool, some, none, Option, Bool-cases, inl, inr,
  arith, ◌∙◌, ltb, length, length-append, length-blit, length-take, take, length-replicate, ◌⊎◌,
  subst, ltb→lt,
}
use dive_canhead.Zephyr.{model}
use dive_canhead.Isotp.Frame.{Message, byte, zeros, Fault, elapsed}
use dive_canhead.Isotp.TxQueue.{
  Request, Sender, State, Event, no_event, tick, cts_event, wait_event, ovflw_event, request,
  send_consecutive_frames, start, dequeue, idle_run, continue_to_send, check_timeout, wait_fc_run,
  run, run_event, init, put, put_or_report, set_state, act, fault, frame, first_frame,
}
use dive_canhead.Isotp.TxQueue.Poll.{taken, run-tick}
use dive_canhead.Isotp.TxQueue.Loop.{send-Streamed}

-- A request that `ISOTP_TxQueue_Enqueue` lets in.
abbrev pub IsSound : Request → Type 0
IsSound r = (0 < r.length) × (r.length ≤ 256) × (length r.payload ≡ 256)

abbrev pub All {ℓ κ} : {A : Type ℓ} → (A → Type κ) → List A → Type κ
All P [] = Unit
All P (x ∷ xs) = P x × All P xs

-- A transfer under way has sent a part of a sound request.
abbrev pub Phase : State → Request → ℕ → Type 0
Phase State.idle r sent = Unit
Phase State.awaiting_fc r sent = IsSound r × (sent ≤ r.length)

pub record IsValid (s : Sender) : Type 0 where
  pub bound : length s.queue ≤ 2
  pub sound : All IsSound s.queue
  pub phase : Phase s.smf s.current s.tx_bytes_sent

pub All-snoc :
    (q : List Request) (r : Request) → All IsSound q → IsSound r → All IsSound (q ++ r ∷ [])
All-snoc [] r a h = (h, tt)
All-snoc (x ∷ q) r a h = (a.0, All-snoc q r a.1 h)

pub request-IsSound :
    (source target message_id : ℕ) (bytes : List ℕ) (n : ℕ)
    → 0 < n
    → n ≤ 256
    → IsSound (request source target message_id bytes n)
request-IsSound source target message_id bytes n lo hi = (
  lo,
  hi,
  length-blit (zeros 256) 0 (take n bytes)
        (omega (arith, length-take n bytes, length-replicate {A = ℕ} 256 0))
      ∙ length-replicate {A = ℕ} 256 0,
)

-- The machine before the Consecutive Frames of a broadcast
abbrev opened : Request → Sender → Sender
opened r s = record (act (frame (first_frame r)) s) {
  tx_bytes_sent = 5;
  tx_block_size = 0;
  tx_stmin = 0;
  tx_block_counter = 0;
}

-- What a CTS frame sets before the loop.
abbrev granted : Message → Sender → Sender
granted fc s = record s { tx_block_size = byte fc 1; tx_stmin = byte fc 2; tx_block_counter = 0 }

waiting_phase :
    (s : Sender)
    → s.smf ≡ State.awaiting_fc
    → IsValid s
    → IsSound s.current × (s.tx_bytes_sent ≤ s.current.length)
waiting_phase s st v = subst (λ st. Phase st s.current s.tx_bytes_sent) st v.phase

module _ (clock : ℕ → ℕ) where
  -- `start` leaves the queue and the scratch request alone.
  pub start_keeps :
      (r : Request) (s : Sender)
      → s.current ≡ r
      → s.smf ≡ State.idle
      → let s' = start (model clock) r s in
        (s'.queue ≡ s.queue)
        × (s'.scratch ≡ s.scratch)
        × (s'.current ≡ s.current)
        × ((s'.smf ≡ State.idle)
            ⊎ ((s'.smf ≡ State.awaiting_fc) × (6 < r.length) × (s'.tx_bytes_sent ≡ 5)))
  unfolding start act
  start_keeps r s e st = ground (arith, send-Streamed clock (opened r s))

  start-IsValid :
      (r : Request) (s : Sender)
      → s.current ≡ r
      → s.smf ≡ State.idle
      → IsSound r
      → length s.queue ≤ 2
      → All IsSound s.queue
      → IsValid (start (model clock) r s)
  start-IsValid r s e st sound b a =
      let kept = start_keeps r s e st in
      record {
        bound = rw kept.0 b;
        sound = rw kept.0 a;
        phase = elim kept.3 [
          | inl i ↦ rw i tt
          | inr w ↦ rw (w.0, w.2, kept.2, e) (sound, omega arith)
        ];
      }

  dequeue_some :
      (q : List Request) (s : Sender)
      → s.queue ≡ q
      → s.smf ≡ State.idle
      → length q ≤ 2
      → All IsSound q
      → IsValid (dequeue (model clock) s)
  unfolding dequeue
  dequeue_some [] s e st b a = rw e (record { bound = omega arith; sound = tt; phase = rw st tt })
  dequeue_some (r ∷ q) s e st b a = rw e (start-IsValid r _ refl st a.0 (omega arith) a.1)

  -- Same queue, and idle
  pub idle-IsValid : (s : Sender) → IsValid s → IsValid (set_state (model clock) State.idle s)
  unfolding set_state
  idle-IsValid s v = record { bound = v.bound; sound = v.sound; phase = tt }

  pub fault-IsValid : (f : Fault) (d : ℕ) (s : Sender) → IsValid s → IsValid (fault f d s)
  unfolding fault
  fault-IsValid f d s v = record { bound = v.bound; sound = v.sound; phase = v.phase }

  continue-IsValid :
      (fc : Message) (s : Sender)
      → s.smf ≡ State.awaiting_fc
      → IsValid s
      → IsValid (continue_to_send (model clock) fc s)
  unfolding continue_to_send set_state
  continue-IsValid fc s st v =
      let under_way = waiting_phase s st v in
      let sent = send-Streamed clock (granted fc s) under_way.1 in
      let out : Sender × Bool = send_consecutive_frames (model clock) (granted fc s) in
      elim (Bool-cases out.1) [
        | inl done ↦ rw done (record {
          bound = rw sent.same_queue v.bound;
          sound = rw sent.same_queue v.sound;
          phase = tt;
        })
        | inr more ↦ rw more (record {
          bound = rw sent.same_queue v.bound;
          sound = rw sent.same_queue v.sound;
          phase = rw (sent.same_state ∙ st, sent.same_request) (under_way.0, sent.within);
        })
      ]

  timeout-IsValid : (s : Sender) → IsValid s → IsValid (check_timeout (model clock) s)
  unfolding check_timeout set_state
  timeout-IsValid s v =
      elim (Bool-cases (ltb 1000 (elapsed (clock s.reads) s.tx_last_frame_time))) [
        | inl e ↦ rw e (record { bound = v.bound; sound = v.sound; phase = tt })
        | inr e ↦ rw e (record { bound = v.bound; sound = v.sound; phase = v.phase })
      ]

  cts-IsValid :
      (o : Option Message) (s : Sender)
      → s.fc_message ≡ o
      → s.smf ≡ State.awaiting_fc
      → IsValid s
      → IsValid (wait_fc_run (model clock) cts_event s)
  unfolding wait_fc_run
  cts-IsValid none s e st v = rw e (record { bound = v.bound; sound = v.sound; phase = v.phase })
  cts-IsValid (some fc) s e st v =
      rw e (continue-IsValid fc _ st (record { bound = v.bound; sound = v.sound; phase = v.phase }))

  wait-IsValid :
      (ev : Event) (s : Sender)
      → s.smf ≡ State.awaiting_fc
      → IsValid s
      → IsValid (wait_fc_run (model clock) ev s)
  unfolding wait_fc_run
  wait-IsValid no_event s st v = v
  wait-IsValid tick s st v = timeout-IsValid s v
  wait-IsValid cts_event s st v = cts-IsValid s.fc_message s refl st v
  wait-IsValid wait_event s st v = idle-IsValid _ (fault-IsValid _ _ s v)
  wait-IsValid ovflw_event s st v = idle-IsValid _ (fault-IsValid _ _ s v)

  idle_run-IsValid :
      (ev : Event) (s : Sender)
      → s.smf ≡ State.idle
      → IsValid s
      → IsValid (idle_run (model clock) ev s)
  unfolding idle_run
  idle_run-IsValid tick s st v = dequeue_some s.queue s refl st v.bound v.sound
  idle_run-IsValid no_event s st v = v
  idle_run-IsValid cts_event s st v = v
  idle_run-IsValid wait_event s st v = v
  idle_run-IsValid ovflw_event s st v = v

  run-IsValid :
      (st : State) (s : Sender) → s.smf ≡ st → IsValid s → IsValid (run (model clock) st s)
  unfolding run idle_run
  run-IsValid State.idle s st v = idle_run-IsValid s.event s st v
  run-IsValid State.awaiting_fc s st v = wait-IsValid s.event s st v

  pub run_event-IsValid :
      (ev : Event) (s : Sender) → IsValid s → IsValid (run_event (model clock) ev s)
  unfolding run_event
  run_event-IsValid ev s v =
      let w =
        run-IsValid s.smf (record s { event = ev }) refl
          (record { bound = v.bound; sound = v.sound; phase = v.phase }) in
      record { bound = w.bound; sound = w.sound; phase = w.phase }

  -- `ISOTP_TxQueue_Init` empties the queue.
  pub init-IsValid : (s : Sender) → IsValid (init (model clock) s)
  unfolding init set_state
  init-IsValid s = record { bound = omega arith; sound = tt; phase = tt }

  pub put-IsValid : (s : Sender) → IsValid s → IsSound s.scratch → IsValid (put (model clock) s).0
  unfolding put
  put-IsValid s v sound = elim (Bool-cases (ltb (length s.queue) 2)) [
    | inr e ↦ rw (e, put) v
    | inl e ↦
        rw (e, put)
          (record {
            bound = omega (arith, length-append s.queue (s.scratch ∷ []), ltb→lt _ _ e);
            sound = All-snoc s.queue s.scratch v.sound sound;
            phase = v.phase;
          })
  ]

  pub report-IsValid :
      (s : Sender) → IsValid s → IsSound s.scratch → IsValid (put_or_report (model clock) s).0
  unfolding put_or_report
  report-IsValid s v sound = elim (Bool-cases (put (model clock) s).1) [
    | inl e ↦ rw e (put-IsValid s v sound)
    | inr e ↦ rw e (fault-IsValid _ _ _ (put-IsValid s v sound))
  ]

  -- A tick of an idle machine moves the oldest request to `current`, and leaves it in the scratch
  -- object as well.
  pub tick_takes :
      (s : Sender) (r : Request) (rest : List Request)
      → s.smf ≡ State.idle
      → s.queue ≡ r ∷ rest
      → let s' = run_event (model clock) tick s in
        (s'.queue ≡ rest) × (s'.scratch ≡ r) × (s'.current ≡ r)
  unfolding run_event
  tick_takes s r rest e q =
      let kept = start_keeps r (taken r rest s) refl e in
      rw (run-tick clock s.smf s r rest e q) (kept.0, kept.1, kept.2)
