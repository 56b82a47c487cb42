-- ===== src/Isotp/Receive/Reach.antt =====
-- Every history of calls on a context: it keeps the invariant, and a broadcast context its peer.
use dive_canhead.Base.{
  ◌==◌, ◌%◌, ℕ, ◌≡◌, refl, List, [], ◌∷◌, arith, ◌⊎◌, none, Bool-cases, false, inl, inr, true, ◌≢◌,
}
use dive_canhead.Zephyr.{Kernel, model, IsKernel, Kernel-eq}
use dive_canhead.Isotp.Frame.{Message, msg_source, pci_of, msg_target}
use dive_canhead.Isotp.Receive.{
  Context, State, Event, no_event, sf_event, ff_event, cf_event, timeout_event, run, reset,
  dispatch, idle_event, receiving_event, handle_single_frame, process_rx_frame,
  handle_consecutive_frame, handle_first_frame, poll, retarget, run_state, fault, poll_expired,
  pci_to_event, init,
}
use dive_canhead.Isotp.Receive.Safety.{
  IsValid, IsFrame, process-IsValid, poll-IsValid, loaded, reset-IsValid, init-IsValid,
}

-- The calls of the public interface that change the receive side
pub data Call : Type 0 where
  frames : Message → Call
  polls : ℕ → Call
  resets : Call

abbrev pub IsCall : Call → Type 0
IsCall (frames m) = IsFrame m
IsCall (polls now) = Unit
IsCall resets = Unit

abbrev pub AllCalls : List Call → Type 0
AllCalls [] = Unit
AllCalls (x ∷ xs) = IsCall x × AllCalls xs

unfoldable pub after : Kernel → Context → Call → Context
after k c (frames m) = (process_rx_frame k c m).0
after k c (polls now) = poll k c now
after k c resets = reset k c

unfoldable pub after_all : Kernel → Context → List Call → Context
after_all k c [] = c
after_all k c (x ∷ xs) = after_all k (after k c x) xs

-- The address and the role of a context
abbrev pub SameRole : Context → Context → Type 0
SameRole c c' =
    (c'.source ≡ c.source) × (c'.broadcast_tx ≡ c.broadcast_tx) × (c'.message_id ≡ c.message_id)

abbrev SamePeer : Context → Context → Type 0
SamePeer c c' = SameRole c c' × (c'.target ≡ c.target)

module _ (clock : ℕ → ℕ) where
  after-IsValid :
      (c : Context) (x : Call) → IsCall x → IsValid c → IsValid (after (model clock) c x)
  unfolding after
  after-IsValid c (frames m) f v = process-IsValid clock c m f v
  after-IsValid c (polls now) f v = poll-IsValid clock c now v
  after-IsValid c resets f v = reset-IsValid clock c v.buffer v.announced

  after_all-IsValid :
      (c : Context) (xs : List Call)
      → AllCalls xs
      → IsValid c
      → IsValid (after_all (model clock) c xs)
  unfolding after_all
  after_all-IsValid c [] f v = v
  after_all-IsValid c (x ∷ xs) f v =
      after_all-IsValid (after (model clock) c x) xs f.1 (after-IsValid c x f.0 v)

  reset-SamePeer : (c : Context) → SamePeer c (reset (model clock) c)
  unfolding reset
  reset-SamePeer c = ground arith

  single-SamePeer : (c : Context) (m : Message) → SamePeer c (handle_single_frame (model clock) c m)
  unfolding handle_single_frame
  single-SamePeer c m = ground arith

  first-SamePeer : (c : Context) (m : Message) → SamePeer c (handle_first_frame (model clock) c m)
  unfolding handle_first_frame
  first-SamePeer c m = ground arith

  consecutive-SamePeer :
      (c : Context) (m : Message) → SamePeer c (handle_consecutive_frame (model clock) c m)
  unfolding handle_consecutive_frame
  consecutive-SamePeer c m = ground arith

  idle-SamePeer :
      (ev : Event) (c : Context) (m : Message)
      → SamePeer c (idle_event (model clock) ev (loaded c ev m))
  unfolding idle_event
  idle-SamePeer sf_event c m = single-SamePeer (loaded c sf_event m) m
  idle-SamePeer ff_event c m = first-SamePeer (loaded c ff_event m) m
  idle-SamePeer _ c m = ((refl, refl, refl), refl)

  receiving-SamePeer :
      (ev : Event) (c : Context) (m : Message)
      → SamePeer c (receiving_event (model clock) ev (loaded c ev m))
  unfolding receiving_event
  receiving-SamePeer sf_event c m = single-SamePeer (loaded c sf_event m) m
  receiving-SamePeer ff_event c m = first-SamePeer (loaded c ff_event m) m
  receiving-SamePeer cf_event c m = consecutive-SamePeer (loaded c cf_event m) m
  receiving-SamePeer _ c m = ((refl, refl, refl), refl)

  run-SamePeer :
      (s : State) (ev : Event) (c : Context) (m : Message)
      → SamePeer c (run (model clock) s (loaded c ev m))
  unfolding run
  run-SamePeer State.idle ev c m = idle-SamePeer ev c m
  run-SamePeer State.receiving ev c m = receiving-SamePeer ev c m
  run-SamePeer _ ev c m = ((refl, refl, refl), refl)

  dispatch-SamePeer :
      (ev : Event) (c : Context) (m : Message) → SamePeer c (dispatch (model clock) c m ev).0
  unfolding dispatch run_state fault
  dispatch-SamePeer no_event c m = ((refl, refl, refl), refl)
  dispatch-SamePeer ev c m = run-SamePeer c.smf ev c m

  process_role :
      (c : Context) (m : Message)
      → let c' = (process_rx_frame (model clock) c m).0 in
        SameRole c c'
        × ((c'.target ≡ c.target) ⊎ ((c'.target ≡ msg_source m) × (c.broadcast_tx ≡ false)))
  unfolding process_rx_frame retarget
  process_role c m = ground (
    arith,
    dispatch-SamePeer (pci_to_event (pci_of m)) c m,
    dispatch-SamePeer (pci_to_event (pci_of m)) (record c { target = msg_source m }) m,
  )

  timeout-SamePeer :
      (s : State) (c : Context)
      → SamePeer c
          (run (model clock) s (record c { current_event = timeout_event; current_message = none }))
  unfolding run
  timeout-SamePeer State.idle c = ((refl, refl, refl), refl)
  timeout-SamePeer State.receiving c = ((refl, refl, refl), refl)
  timeout-SamePeer _ c = ((refl, refl, refl), refl)

  poll-SamePeer : (c : Context) (now : ℕ) → SamePeer c (poll (model clock) c now)
  unfolding poll run_state
  poll-SamePeer c now = elim (Bool-cases (poll_expired c now)) [
    | inl e ↦ rw e (timeout-SamePeer c.smf c)
    | inr e ↦ rw e ((refl, refl, refl), refl)
  ]

  after_role :
      (c : Context) (x : Call)
      → let c' = after (model clock) c x in
        SameRole c c' × ((c'.target ≡ c.target) ⊎ (c.broadcast_tx ≡ false))
  unfolding after
  after_role c (frames m) = ground (arith, process_role c m)
  after_role c (polls now) = let p = poll-SamePeer c now in (p.0, inl p.1)
  after_role c resets = let p = reset-SamePeer c in (p.0, inl p.1)

  broadcast_stays :
      (c : Context) (xs : List Call)
      → c.broadcast_tx ≡ true
      → let c' = after_all (model clock) c xs in (c'.target ≡ c.target) × (c'.source ≡ c.source)
  unfolding after_all
  broadcast_stays c [] b = (refl, refl)
  broadcast_stays c (x ∷ xs) b =
      ground (arith, after_role c x, broadcast_stays (after (model clock) c x) xs)

  init_role :
      (c : Context) (source target message_id : ℕ)
      → let c' = init (model clock) c source target message_id in
        (c'.target ≡ target) × (c'.source ≡ source) × (c'.broadcast_tx ≡ (target % 256 == 255))
  unfolding init
  init_role c source target message_id = (refl, refl, refl)

  follows :
      (c : Context) (m : Message)
      → c.broadcast_tx ≡ false
      → msg_target m ≡ c.source
      → (pci_of m ≢ 0x30) ⊎ (msg_source m ≢ 255)
      → (process_rx_frame (model clock) c m).0.target ≡ msg_source m
  unfolding process_rx_frame retarget
  follows c m b to kind = ground (
    arith,
    dispatch-SamePeer (pci_to_event (pci_of m)) c m,
    dispatch-SamePeer (pci_to_event (pci_of m)) (record c { target = msg_source m }) m,
  )

-- From `ISOTP_Init` on, whatever frames arrive and however often the context is polled or reset:
-- the buffer keeps its 256 bytes, the announced length is at most 256, the machine is in a state of
-- its table and `state` names it, nothing counts as received in IDLE, and in RECEIVING either fewer
-- bytes than announced have arrived or the six of the First Frame.
pub rx_history-IsValid :
    (k : Kernel) (c : Context) (source target message_id : ℕ) (xs : List Call)
    → IsKernel k
    → AllCalls xs
    → IsValid (after_all k (init k c source target message_id) xs)
rx_history-IsValid k c source target message_id xs h f =
    rw (Kernel-eq k h)
      (after_all-IsValid k.uptime _ xs f (init-IsValid k.uptime c source target message_id))

-- A context made for the broadcast address keeps it as its peer, and its own address, whatever
-- frames arrive and however often it is polled or reset.
pub broadcast_keeps_peer :
    (k : Kernel) (c : Context) (source target message_id : ℕ) (xs : List Call)
    → IsKernel k
    → target % 256 ≡ 255
    → let c' = after_all k (init k c source target message_id) xs in
      (c'.target ≡ target) × (c'.source ≡ source)
unfolding init
broadcast_keeps_peer k c source target message_id xs h b = rw (Kernel-eq k h) (
    broadcast_stays k.uptime (init (model k.uptime) c source target message_id) xs
      (ground (arith, init_role k.uptime c source target message_id)))

-- Any other context takes the sender of each frame for it as its peer, but for Flow Control frames
-- from the broadcast address.
pub dialog_follows_sender :
    (k : Kernel) (c : Context) (m : Message)
    → IsKernel k
    → c.broadcast_tx ≡ false
    → msg_target m ≡ c.source
    → (pci_of m ≢ 0x30) ⊎ (msg_source m ≢ 255)
    → (process_rx_frame k c m).0.target ≡ msg_source m
dialog_follows_sender k c m h b to kind = rw (Kernel-eq k h) (follows k.uptime c m b to kind)
