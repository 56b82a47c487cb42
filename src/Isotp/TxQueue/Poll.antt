-- ===== src/Isotp/TxQueue/Poll.antt =====
-- What a tick does to an idle machine.
use dive_canhead.Base.{
  ℕ, ◌+◌, ◌%◌, ◌≤◌, ◌<◌, ◌≡◌, refl, List, [], ◌∷◌, ◌++◌, map, arith, lt→leb, ==_iff, append_assoc,
  ◌∙◌, ◌≢◌,
}
use dive_canhead.Zephyr.{model}
use dive_canhead.Isotp.TxQueue.{
  Request, Sender, State, tick, no_event, frame, single_frame, first_frame, start, dequeue,
  idle_run, run, run_event, poll, act,
}
use dive_canhead.Isotp.TxQueue.Loop.{cf_frames, actions-send}

-- The machine with the oldest request taken off the queue.
abbrev pub taken : Request → List Request → Sender → Sender
taken r rest s = record s {
  event = tick;
  scratch = r;
  queue = rest;
  current = r;
  tx_bytes_sent = 0;
  tx_sequence_number = 0;
}

-- The same with the First Frame of a broadcast sent.
abbrev pub streaming : Request → List Request → Sender → Sender
streaming r rest s = record (taken r rest s) {
  actions = s.actions ++ frame (first_frame r) ∷ [];
  tx_bytes_sent = 5;
  tx_block_size = 0;
  tx_stmin = 0;
  tx_block_counter = 0;
}

pub record IsWaiting (s : Sender) (r : Request) (rest : List Request) (s' : Sender) : Type 0 where
  pub waits : s'.smf ≡ State.awaiting_fc
  pub request : s'.current ≡ r
  pub queued : s'.queue ≡ rest
  pub sent : s'.tx_bytes_sent ≡ 5
  pub number : s'.tx_sequence_number ≡ 0
  pub announced : s'.actions ≡ s.actions ++ frame (first_frame r) ∷ []

module _ (clock : ℕ → ℕ) where
  pub run-tick :
      (st : State) (s : Sender) (r : Request) (rest : List Request)
      → st ≡ State.idle
      → s.queue ≡ r ∷ rest
      → run (model clock) st (record s { event = tick }) ≡ start (model clock) r (taken r rest s)
  unfolding run idle_run dequeue
  run-tick State.idle s r rest e q = rw q
  run-tick State.awaiting_fc s r rest e q = cc

  -- A tick of an idle machine starts the oldest request.
  pub actions-poll :
      (s : Sender) (r : Request) (rest : List Request)
      → s.smf ≡ State.idle
      → s.queue ≡ r ∷ rest
      → (poll (model clock) s).actions ≡ (start (model clock) r (taken r rest s)).actions
  unfolding poll run_event
  actions-poll s r rest e q = rw (run-tick s.smf s r rest e q)

  pub single_actions :
      (s : Sender) (r : Request) (rest : List Request)
      → s.smf ≡ State.idle
      → s.queue ≡ r ∷ rest
      → r.length ≤ 6
      → (poll (model clock) s).actions ≡ s.actions ++ frame (single_frame r) ∷ []
  unfolding start act
  single_actions s r rest e q small = actions-poll s r rest e q ∙ ground arith

  pub broadcast_actions :
      (s : Sender) (r : Request) (rest : List Request)
      → s.smf ≡ State.idle
      → s.queue ≡ r ∷ rest
      → 6 < r.length
      → r.target % 256 ≡ 255
      → (poll (model clock) s).actions
        ≡ s.actions
          ++ map frame (first_frame r ∷ cf_frames clock (r.length + 1) (streaming r rest s))
  unfolding start act
  broadcast_actions s r rest e q big to =
      actions-poll s r rest e q
      ∙ rw (lt→leb _ _ big, (==_iff _ _).1 to)
          (actions-send clock (streaming r rest s) refl refl
            ∙ append_assoc s.actions (frame (first_frame r) ∷ []) _)

  start_tick :
      (s : Sender) (r : Request) (rest : List Request) (P : Sender → Type 0)
      → s.smf ≡ State.idle
      → s.queue ≡ r ∷ rest
      → P (record (start (model clock) r (taken r rest s)) { event = no_event })
      → P (poll (model clock) s)
  unfolding poll run_event
  start_tick s r rest P e q h = rw (run-tick s.smf s r rest e q) h

  -- An addressed request that needs more than one frame: its First Frame is out, and the machine
  -- waits for Flow Control.
  pub poll-IsWaiting :
      (s : Sender) (r : Request) (rest : List Request)
      → s.smf ≡ State.idle
      → s.queue ≡ r ∷ rest
      → 6 < r.length
      → r.target % 256 ≢ 255
      → IsWaiting s r rest (poll (model clock) s)
  unfolding start act
  poll-IsWaiting s r rest e q big to = start_tick s r rest (IsWaiting s r rest) e q (ground arith)
