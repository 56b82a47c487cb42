-- ===== src/Isotp/TxQueue/Enqueue.antt =====
-- `ISOTP_TxQueue_Enqueue` on each of its branches.
use dive_canhead.Base.{
  ℕ, ◌+◌, ◌≤◌, ◌<◌, ◌≡◌, refl, List, [], ◌∷◌, ◌++◌, true, false, arith, length, inl, inr, le→ltb,
  if◌then◌else◌, ◌⊎◌,
}
use dive_canhead.Zephyr.{Kernel, model, IsKernel, Kernel-eq}
use dive_canhead.Isotp.Frame.{elapsed, queue_fault}
use dive_canhead.Isotp.TxQueue.{
  Request, Sender, State, request, put, put_or_report, enqueue, enqueue_full, fault, tick,
  run_event, set_state, is_idle,
}
use dive_canhead.Isotp.TxQueue.Invariant.{tick_takes}

-- A transfer that has waited for Flow Control longer than N_Bs when the clock is read.
abbrev pub IsStalled : Kernel → Sender → Type 0
IsStalled k s =
    (s.smf ≡ State.awaiting_fc) × (1000 < elapsed (k.uptime s.reads) s.tx_last_frame_time)

-- A stalled transfer dropped, with the clock read that found it stalled.
abbrev pub reaped : Sender → Sender
reaped s = record s {
  smf = State.idle;
  tx_bytes_sent = 0;
  tx_sequence_number = 0;
  tx_block_size = 0;
  tx_stmin = 0;
  tx_block_counter = 0;
  tx_last_frame_time = 0;
  reads = s.reads + 1;
}

state-cases : (st : State) → (st ≡ State.idle) ⊎ (st ≡ State.awaiting_fc)
state-cases State.idle = inl refl
state-cases State.awaiting_fc = inr refl

report_room :
    (clock : ℕ → ℕ) (s : Sender)
    → length s.queue < 2
    → put_or_report (model clock) s ≡ (record s { queue = s.queue ++ s.scratch ∷ [] }, true)
unfolding put_or_report put
report_room clock s h = ground arith

module _ (source target message_id : ℕ) (bytes : List ℕ) (n : ℕ) where
  abbrev pub loaded : Sender → Sender
  loaded s = record s { scratch = request source target message_id bytes n }

  -- The refusal: the buffer of the request, a report, and a clock read if a transfer waits
  abbrev pub refusal : Sender → Sender
  refusal s = record s {
    scratch = request source target message_id bytes n;
    reads = if is_idle s then s.reads else s.reads + 1;
    faults = (queue_fault, 0) ∷ s.faults;
  }

  module _ (clock : ℕ → ℕ) where
    -- Room in the queue
    pub accepts :
        (s : Sender)
        → 0 < n
        → n ≤ 256
        → length s.queue < 2
        → enqueue (model clock) s source target message_id bytes n ≡ (
          record (loaded s) { queue = s.queue ++ request source target message_id bytes n ∷ [] },
          true,
        )
    unfolding enqueue put
    accepts s lo hi room = ground arith

    -- A full queue
    pub full :
        (s : Sender)
        → 0 < n
        → n ≤ 256
        → 2 ≤ length s.queue
        → enqueue (model clock) s source target message_id bytes n
          ≡ enqueue_full (model clock) (loaded s)
    unfolding enqueue put
    full s lo hi room = ground arith

    refuses :
        (s : Sender)
        → 0 < n
        → n ≤ 256
        → 2 ≤ length s.queue
        → ¬ IsStalled (model clock) s
        → enqueue (model clock) s source target message_id bytes n ≡ (refusal s, false)
    unfolding enqueue_full fault
    refuses s lo hi room alive = rw (full s lo hi room) (elim (state-cases s.smf) [
      | inl idle ↦ rw idle refl
      | inr waits ↦
          let early : elapsed (clock s.reads) s.tx_last_frame_time ≤ 1000 = ground arith in
          rw (waits, le→ltb _ _ early) refl
    ])

    requeues :
        (s : Sender) (r₁ r₂ : Request)
        → 0 < n
        → n ≤ 256
        → s.queue ≡ r₁ ∷ r₂ ∷ []
        → IsStalled (model clock) s
        → let (s', done) = enqueue (model clock) s source target message_id bytes n in
          (done ≡ true) × (s'.queue ≡ r₂ ∷ r₁ ∷ []) × (s'.current ≡ r₁)
    unfolding enqueue_full set_state
    requeues s r₁ r₂ lo hi q stalled =
        let t = run_event (model clock) tick (reaped (loaded s)) in
        let got = tick_takes clock (reaped (loaded s)) r₁ (r₂ ∷ []) refl q in
        rw (full s lo hi (rw q (omega arith))) (ground (arith, got, report_room clock t))

-- With room in the queue a payload of 1 to 256 bytes is queued last, copied into a zeroed buffer;
-- nothing is sent, and the machine and a transfer under way stay as they are.
pub enqueue_accepts :
    (k : Kernel) (s : Sender) (source target message_id : ℕ) (bytes : List ℕ) (n : ℕ)
    → IsKernel k
    → 0 < n
    → n ≤ 256
    → length s.queue < 2
    → let r = request source target message_id bytes n in
      enqueue k s source target message_id bytes n
      ≡ (record s { scratch = r; queue = s.queue ++ r ∷ [] }, true)
enqueue_accepts k s source target message_id bytes n h lo hi room =
    rw (Kernel-eq k h) (accepts source target message_id bytes n k.uptime s lo hi room)

-- With a full queue, and no transfer that has waited for Flow Control for more than a second, the
-- payload of 1 to 256 bytes is refused with a report. The state is as before but for that report, the
-- buffer that the payload was copied into, and the clock, which is read once if a transfer waits.
pub enqueue_refuses :
    (k : Kernel) (s : Sender) (source target message_id : ℕ) (bytes : List ℕ) (n : ℕ)
    → IsKernel k
    → 0 < n
    → n ≤ 256
    → 2 ≤ length s.queue
    → ¬ IsStalled k s
    → enqueue k s source target message_id bytes n
      ≡ (refusal source target message_id bytes n s, false)
enqueue_refuses k s source target message_id bytes n h lo hi room =
    rw (Kernel-eq k h) (refuses source target message_id bytes n k.uptime s lo hi room)

-- With a full queue and a stalled transfer the call reports success, but what it queues is not the
-- payload: the oldest queued request is started, and the same request is queued again.
pub stalled_enqueue_requeues :
    (k : Kernel) (s : Sender) (source target message_id : ℕ) (bytes : List ℕ) (n : ℕ)
    (r₁ r₂ : Request)
    → IsKernel k
    → 0 < n
    → n ≤ 256
    → s.queue ≡ r₁ ∷ r₂ ∷ []
    → IsStalled k s
    → let (s', done) = enqueue k s source target message_id bytes n in
      (done ≡ true) × (s'.queue ≡ r₂ ∷ r₁ ∷ []) × (s'.current ≡ r₁)
stalled_enqueue_requeues k s source target message_id bytes n r₁ r₂ h lo hi q =
    rw (Kernel-eq k h) (requeues source target message_id bytes n k.uptime s r₁ r₂ lo hi q)
