-- ===== src/Isotp/TxQueue/Reach.antt =====
-- Every history of calls keeps the invariant of the transmit queue.
use dive_canhead.Base.{
  ◌||◌, ◌==◌, ℕ, ◌+◌, ◌≤◌, ◌<◌, ◌≡◌, refl, List, [], ◌∷◌, Bool, arith, length, Bool-cases, some,
  subst, none, inl, inr, ltb, dec_lt, sym, length-append,
}
use dive_canhead.Zephyr.{Kernel, IsKernel, model, Kernel-eq}
use dive_canhead.Isotp.Frame.{Message, elapsed, isotp_state, byte}
use dive_canhead.Isotp.TxQueue.{
  Sender, Request, enqueue, flow_event, process_fc, enqueue_full, set_state, on_flow_status, Event,
  poll, put_or_report, run_event, tick, init, cts_event, wait_event, is_idle, ovflw_event, fault,
  request,
}
use dive_canhead.Isotp.TxQueue.Enqueue.{reaped, loaded, accepts, full}
use dive_canhead.Isotp.TxQueue.Invariant.{
  IsValid, tick_takes, run_event-IsValid, report-IsValid, init-IsValid, All, idle-IsValid,
  fault-IsValid, IsSound, request-IsSound, All-snoc,
}

-- The calls of the public interface that change the state
pub data Call : Type 0 where
  enqueues : ℕ → ℕ → ℕ → List ℕ → ℕ → Call
  flows : Message → Call
  polls : Call

unfoldable pub after : Kernel → Sender → Call → Sender
after k s (enqueues source target message_id bytes n) =
    (enqueue k s source target message_id bytes n).0
after k s (flows fc) = (process_fc k s fc).0
after k s polls = poll k s

unfoldable pub after_all : Kernel → Sender → List Call → Sender
after_all k s [] = s
after_all k s (c ∷ cs) = after_all k (after k s c) cs

same-IsValid : (s : Sender) (n : ℕ) → IsValid s → IsValid (record s { reads = n })
same-IsValid s n v = record { bound = v.bound; sound = v.sound; phase = v.phase }

reaped-IsValid : (s : Sender) → IsValid s → IsValid (reaped s)
reaped-IsValid s v = record { bound = v.bound; sound = v.sound; phase = tt }

module _ (clock : ℕ → ℕ) where
  retried-IsValid :
      (q : List Request) (s : Sender)
      → s.queue ≡ q
      → 2 ≤ length q
      → IsValid s
      → IsValid (put_or_report (model clock) (run_event (model clock) tick (reaped s))).0
  retried-IsValid [] s e h v = absurd (omega arith)
  retried-IsValid (r ∷ rest) s e h v =
      let got = tick_takes clock (reaped s) r rest refl e in
      report-IsValid clock _ (run_event-IsValid clock tick (reaped s) (reaped-IsValid s v))
        (rw got.1 (subst (All IsSound) e v.sound).0)

  full-IsValid :
      (s : Sender) → 2 ≤ length s.queue → IsValid s → IsValid (enqueue_full (model clock) s).0
  unfolding enqueue_full set_state
  full-IsValid s h v = elim (Bool-cases (is_idle s)) [
    | inl e ↦ rw e (fault-IsValid clock _ _ s v)
    | inr e ↦ elim (Bool-cases (ltb 1000 (elapsed (clock s.reads) s.tx_last_frame_time))) [
      | inl late ↦ rw (e, late) (retried-IsValid s.queue s refl h v)
      | inr early ↦ rw (e, early) (fault-IsValid clock _ _ _ (same-IsValid s (s.reads + 1) v))
    ]
  ]

  enqueue-IsValid :
      (s : Sender) (source target message_id : ℕ) (bytes : List ℕ) (n : ℕ)
      → IsValid s
      → IsValid (enqueue (model clock) s source target message_id bytes n).0
  unfolding enqueue
  enqueue-IsValid s source target message_id bytes n v = elim (Bool-cases (n == 0 || ltb 256 n)) [
    | inl bad ↦ rw bad (fault-IsValid clock _ _ s v)
    | inr good ↦
        let lo : 0 < n = ground arith in
        let hi : n ≤ 256 = ground arith in
        let sound = request-IsSound source target message_id bytes n lo hi in
        elim (dec_lt (length s.queue) 2) [
          | yes room ↦
              subst (λ (r : Sender × Bool). IsValid r.0)
                (sym (accepts source target message_id bytes n clock s lo hi room))
                (record {
                  bound = omega (
                    arith,
                    length-append s.queue (request source target message_id bytes n ∷ []),
                  );
                  sound = All-snoc s.queue _ v.sound sound;
                  phase = v.phase;
                })
          | no none_left ↦
              subst (λ (r : Sender × Bool). IsValid r.0)
                (sym (full source target message_id bytes n clock s lo hi (omega arith)))
                (full-IsValid (loaded source target message_id bytes n s) (omega arith)
                  (record { bound = v.bound; sound = v.sound; phase = v.phase }))
        ]
  ]

  flow-IsValid :
      (ev : Event) (fc : Message) (s : Sender)
      → IsValid s
      → IsValid (flow_event (model clock) ev fc s)
  unfolding flow_event
  flow-IsValid ev fc s v =
      let w =
        run_event-IsValid clock ev (record s { fc_message = some fc })
          (record { bound = v.bound; sound = v.sound; phase = v.phase }) in
      let s' : Sender = record (run_event (model clock) ev (record s { fc_message = some fc })) {
        fc_message = none;
      } in
      let w' : IsValid s' = record { bound = w.bound; sound = w.sound; phase = w.phase } in
      elim (Bool-cases (is_idle s')) [
        | inl e ↦ rw e (run_event-IsValid clock tick s' w')
        | inr e ↦ rw e w'
      ]

  process-IsValid :
      (s : Sender) (fc : Message) → IsValid s → IsValid (process_fc (model clock) s fc).0
  unfolding process_fc on_flow_status
  process-IsValid s fc v = ground (
    arith,
    flow-IsValid cts_event fc s v,
    flow-IsValid wait_event fc s v,
    flow-IsValid ovflw_event fc s v,
    idle-IsValid clock (fault isotp_state (byte fc 0) s)
        (fault-IsValid clock isotp_state (byte fc 0) s v),
  )

  after-IsValid : (s : Sender) (c : Call) → IsValid s → IsValid (after (model clock) s c)
  unfolding after poll
  after-IsValid s (enqueues source target message_id bytes n) v =
      enqueue-IsValid s source target message_id bytes n v
  after-IsValid s (flows fc) v = process-IsValid s fc v
  after-IsValid s polls v = run_event-IsValid clock tick s v

  after_all-IsValid :
      (s : Sender) (cs : List Call) → IsValid s → IsValid (after_all (model clock) s cs)
  unfolding after_all
  after_all-IsValid s [] v = v
  after_all-IsValid s (c ∷ cs) v =
      after_all-IsValid (after (model clock) s c) cs (after-IsValid s c v)

-- From `ISOTP_TxQueue_Init` on, whatever is enqueued, whatever Flow Control arrives and however
-- often the queue is polled: at most two requests are queued, each of 1 to 256 bytes over a whole
-- buffer, and a transfer that waits for Flow Control has sent no more than its request holds.
pub tx_history-IsValid :
    (k : Kernel) (s : Sender) (cs : List Call) → IsKernel k → IsValid (after_all k (init k s) cs)
tx_history-IsValid k s cs h =
    rw (Kernel-eq k h) (after_all-IsValid k.uptime _ cs (init-IsValid k.uptime s))
