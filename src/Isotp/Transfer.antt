-- ===== src/Isotp/Transfer.antt =====
-- The two sides of ISO-TP together: the frames of `tx_idle_run`, taken in by
-- `ISOTP_ProcessRxFrame` of the node that they are addressed to.
use dive_canhead.Base.{
  ℕ, zero, suc, ◌+◌, ◌-◌, ◌/◌, ◌%◌, ◌≤◌, ◌<◌, ◌≡◌, ◌≢◌, refl, ap, ◌∙◌, sym, subst, true, List, [],
  ◌∷◌, ◌++◌, map, length, take, drop, blit, take-add, take-blit, take-blit_start, length-blit,
  length-take, length-drop, append_assoc, ltb, Bool-cases, inl, inr, arith, lt→ltb, ltb→lt, ◌⊎◌,
  dec_le,
}
use dive_canhead.Zephyr.{Kernel, IsKernel, model, Kernel-eq}
use dive_canhead.Isotp.Frame.{Message, pci_low, byte, msg_target}
use dive_canhead.Isotp.Receive.{Context, process_rx_frame, process_all, bytes_to_copy}
use dive_canhead.Isotp.Receive
use dive_canhead.Isotp.Receive.Frames.{process_cf, process_ff, process_sf, Accepted, IsRegistered}
use dive_canhead.Isotp.TxQueue.{
  Request, Sender, frame, first_frame, single_frame, cf_size, consecutive_frame, request_id,
  send_one, State, poll, process_fc,
}
use dive_canhead.Isotp.TxQueue.Wire.{cf_id, ff_id, sf_id, cf_wire, ff_wire, sf_wire}
use dive_canhead.Isotp.TxQueue.Poll.{single_actions, broadcast_actions, streaming, poll-IsWaiting}
use dive_canhead.Isotp.TxQueue.Flow.{cts_completes, resumed}
use dive_canhead.Isotp.TxQueue.Loop.{one_keeps, cf_frames, cf_frames_done}

-- The frames of a request name the node as their target.
abbrev pub IsAddressed : Request → Context → Type 0
IsAddressed r c = request_id r / 256 % 16 ≡ c.source

-- A request whose payload and pad byte fit into the buffer of a receiver.
abbrev pub Fits : Request → Type 0
Fits r = (r.length ≤ 255) × (r.length ≤ length r.payload)

-- The node holds the pad byte and the payload as a complete message.
abbrev pub Delivered : Request → Context → Type 0
Delivered r c =
    (c.smf ≡ Receive.State.idle)
    × (c.rx_complete ≡ true)
    × (c.rx_data_length ≡ r.length + 1)
    × (take (r.length + 1) c.rx_buffer ≡ 0 ∷ take r.length r.payload)

-- Sender and receiver agree in the midst of a transfer.
record Agree (c : Context) (s : Sender) : Type 0 where
  busy : c.smf ≡ Receive.State.receiving
  total : c.rx_data_length ≡ s.current.length + 1
  got : c.rx_bytes_received ≡ s.tx_bytes_sent + 1
  number : c.rx_sequence_number ≡ (s.tx_sequence_number + 1) % 16
  room : length c.rx_buffer ≡ 256
  prefix : take (s.tx_bytes_sent + 1) c.rx_buffer ≡ 0 ∷ take s.tx_bytes_sent s.current.payload
  addressed : IsAddressed s.current c
  fits : Fits s.current

-- The receiver takes as many bytes from the frame as the sender put in.
Agree-size :
    {c : Context} {s : Sender}
    → Agree c s
    → s.tx_bytes_sent < s.current.length
    → bytes_to_copy c ≡ cf_size s
unfolding bytes_to_copy
Agree-size a lt = ground arith

-- The prefix grows by the chunk.
Agree-prefix :
    {c : Context} {s : Sender}
    → Agree c s
    → s.tx_bytes_sent < s.current.length
    → let n = cf_size s in
      (b : List ℕ)
      → b ≡ blit c.rx_buffer c.rx_bytes_received (take n (drop 1 (consecutive_frame s).bytes))
      → (take (s.tx_bytes_sent + n + 1) b ≡ 0 ∷ take (s.tx_bytes_sent + n) s.current.payload)
        × (length b ≡ 256)
Agree-prefix {c} {s} a lt b e =
    let n = cf_size s in
    let sent = s.tx_bytes_sent in
    let payload = s.current.payload in
    let src = take n (drop 1 (consecutive_frame s).bytes) in
    let chunk : src ≡ take n (drop sent payload) = (cf_wire s a.fits.1 lt).2 in
    let size : length src ≡ n =
      ground (arith, chunk, length-take n (drop sent payload), length-drop sent payload) in
    let count : sent + n + 1 ≡ c.rx_bytes_received + length src = omega (arith, size) in
    let small : n ≤ s.current.length - sent = ground arith in
    (
      rw (e, count) (take-blit c.rx_buffer c.rx_bytes_received src (omega arith))
          ∙ ap (λ k. take k c.rx_buffer ++ src) a.got
          ∙ ap (λ ys. ys ++ src) a.prefix
          ∙ ap (λ ys. 0 ∷ (take sent payload ++ ys)) chunk
          ∙ ap (λ ys. 0 ∷ ys) (sym (take-add sent n payload)),
      rw e (length-blit c.rx_buffer c.rx_bytes_received src (omega arith)) ∙ a.room,
    )

all_sent :
    (s : Sender) (sent : ℕ)
    → sent ≡ s.tx_bytes_sent + cf_size s
    → s.current.length ≤ sent
    → s.tx_bytes_sent < s.current.length
    → s.tx_bytes_sent + cf_size s ≡ s.current.length
all_sent s sent e le lt = ground arith

module _ (clock clock' : ℕ → ℕ) where
  -- One Consecutive Frame keeps the agreement, or completes the message.
  step-Agree :
      (c : Context) (s : Sender)
      → Agree c s
      → s.tx_bytes_sent < s.current.length
      → let c' = (process_rx_frame (model clock) c (consecutive_frame s)).0 in
        let s' = send_one (model clock') s in
        (s'.tx_bytes_sent < s.current.length → Agree c' s')
        × (s.current.length ≤ s'.tx_bytes_sent → Delivered s.current c')
  step-Agree c s a lt =
      let m = consecutive_frame s in
      let c' = (process_rx_frame (model clock) c m).0 in
      let s' = send_one (model clock') s in
      let size : bytes_to_copy c ≡ cf_size s = Agree-size a lt in
      let wire = cf_wire s a.fits.1 lt in
      let kept = one_keeps clock' s in
      let took : Accepted c c' m =
        process_cf clock c m (ap (λ i. i / 256 % 16) (cf_id s) ∙ a.addressed) wire.0 a.busy
          (ground arith) (ground arith) (wire.1 ∙ sym a.number) in
      let copied =
        took.0.0 ∙ ap (λ n. blit c.rx_buffer c.rx_bytes_received (take n (drop 1 m.bytes))) size in
      let grown = Agree-prefix a lt c'.rx_buffer copied in
      let request : s'.current ≡ s.current = kept.0 in
      let count : s'.tx_bytes_sent ≡ s.tx_bytes_sent + cf_size s = kept.6 in
      let total : c'.rx_data_length ≡ s.current.length + 1 = took.0.1 ∙ a.total in
      (
        (λ more.
            let new = took.1 (omega (arith, a.got, a.total)) in
            record {
              busy = new.0;
              total = total ∙ ap (λ (r : Request). r.length + 1) (sym request);
              got = ground (arith, new.1, a.got);
              number = ground (arith, new.2, a.number);
              room = grown.1;
              prefix = rw (request, count) grown.0;
              addressed = rw (request, took.0.2) a.addressed;
              fits = rw request a.fits;
            }),
        (λ done.
            let end = took.2 (omega (arith, a.got, a.total)) in
            (
              end.0,
              end.1,
              total,
              subst (λ k. take (k + 1) c'.rx_buffer ≡ 0 ∷ take k s.current.payload)
                  (all_sent s _ count done lt) grown.0,
            )),
      )

  -- So the rest of a transfer delivers the message.
  rest-Delivered :
      (fuel : ℕ) (c : Context) (s : Sender)
      → Agree c s
      → s.tx_bytes_sent < s.current.length
      → s.current.length < s.tx_bytes_sent + fuel
      → Delivered s.current (process_all (model clock) c (cf_frames clock' fuel s))
  unfolding cf_frames process_all
  rest-Delivered zero c s a lt h = absurd (omega arith)
  rest-Delivered (suc fuel) c s a lt h =
      let next = send_one (model clock') s in
      let step = step-Agree c s a lt in
      let kept = one_keeps clock' s in
      rw (lt→ltb _ _ lt) (elim (Bool-cases (ltb next.tx_bytes_sent s.current.length)) [
        | inl more ↦
            let on : next.tx_bytes_sent < s.current.length = ltb→lt _ _ more in
            subst
              (λ r. Delivered r (
                process_all (model clock) (process_rx_frame (model clock) c (consecutive_frame s)).0
                  (cf_frames clock' fuel next)))
              kept.0
              (rest-Delivered fuel _ next (step.0 on) (rw kept.0 on)
                (ground (arith, kept.0, kept.6)))
        | inr done ↦
            rw (cf_frames_done clock' fuel next (ground (arith, kept.0))) (step.1 (ground arith))
      ])

-- A node that can take the frames in: its machine is in a registered state, its buffer is whole.
abbrev pub IsReady : Context → Type 0
IsReady c = IsRegistered c.smf × (length c.rx_buffer ≡ 256)

-- A CTS frame for the sender of `r`, with no block size and no STmin, as `HandleFirstFrame` sends it
abbrev pub IsGo : Request → Message → Type 0
IsGo r fc =
    (byte fc 0 ≡ 0x30) × (byte fc 1 ≡ 0) × (byte fc 2 ≡ 0) × (msg_target fc ≡ r.source % 256)

-- The sender right after the First Frame of `r`.
abbrev pub IsOpened : Request → Sender → Type 0
IsOpened r s = (s.current ≡ r) × (s.tx_bytes_sent ≡ 5) × (s.tx_sequence_number ≡ 0)

module _ (clock clock' : ℕ → ℕ) where
  -- The First Frame brings both sides into agreement.
  opened-Agree :
      (c : Context) (s : Sender) (r : Request)
      → IsReady c
      → IsAddressed r c
      → Fits r
      → 6 < r.length
      → IsOpened r s
      → Agree (process_rx_frame (model clock) c (first_frame r)).0 s
  opened-Agree c s r ready to fits big opened =
      let wire = ff_wire r fits.0 fits.1 big in
      let m = first_frame r in
      let c' = (process_rx_frame (model clock) c m).0 in
      let started =
        process_ff clock c m (ap (λ i. i / 256 % 16) (ff_id r) ∙ to) wire.0 ready.0
          (omega (arith, wire.1)) (omega (arith, wire.1)) in
      let src : length (take 6 (drop 2 m.bytes)) ≡ 6 =
        omega (arith, ap length wire.2, length-take 5 r.payload) in
      record {
        busy = started.0;
        total = started.4 ∙ wire.1 ∙ ap (λ (q : Request). q.length + 1) (sym opened.0);
        got = ground (arith, started.1, opened.1);
        number = ground (arith, started.2, opened.2);
        room =
            ap length started.3
            ∙ length-blit c.rx_buffer 0 (take 6 (drop 2 m.bytes)) (omega (arith, src))
            ∙ ready.1;
        prefix =
            rw (opened.0, opened.1, started.3)
              (take-blit_start c.rx_buffer (take 6 (drop 2 m.bytes)) 6 src ∙ wire.2);
        addressed = rw (opened.0, started.5) to;
        fits = rw opened.0 fits;
      }

  multi-Delivered :
      (c : Context) (s : Sender) (r : Request)
      → IsReady c
      → IsAddressed r c
      → Fits r
      → 6 < r.length
      → IsOpened r s
      → Delivered r
          (process_all (model clock) c (first_frame r ∷ cf_frames clock' (r.length + 1) s))
  unfolding process_all
  multi-Delivered c s r ready to fits big opened =
      subst
        (λ q. Delivered q (
          process_all (model clock) (process_rx_frame (model clock) c (first_frame r)).0
            (cf_frames clock' (r.length + 1) s)))
        opened.0
        (rest-Delivered clock clock' (r.length + 1) _ s
          (opened-Agree c s r ready to fits big opened) (rw (opened.0, opened.1) (omega arith))
          (rw (opened.0, opened.1) (omega arith)))

  single-Delivered :
      (c : Context) (r : Request)
      → IsReady c
      → IsAddressed r c
      → Fits r
      → r.length ≤ 6
      → Delivered r (process_all (model clock) c (single_frame r ∷ []))
  unfolding process_all
  single-Delivered c r ready to fits small =
      let wire = sf_wire r small fits.1 in
      let m = single_frame r in
      let got =
        process_sf clock c m (ap (λ i. i / 256 % 16) (sf_id r).0 ∙ to) wire.0 ready.0
          (omega (arith, wire.1)) (omega (arith, wire.1)) (omega (arith, wire.1, (sf_id r).1)) in
      let chunk : take (pci_low m) (drop 1 m.bytes) ≡ 0 ∷ take r.length r.payload =
        ap (λ k. take k (drop 1 m.bytes)) wire.1 ∙ wire.2 in
      let src : length (take (pci_low m) (drop 1 m.bytes)) ≡ r.length + 1 =
        omega (arith, ap length chunk, length-take r.length r.payload) in
      (
        got.0,
        got.1,
        got.3 ∙ wire.1,
        ap (take (r.length + 1)) got.2
            ∙ take-blit_start c.rx_buffer (take (pci_low m) (drop 1 m.bytes)) (r.length + 1) src
            ∙ chunk,
      )

  -- A tick of an idle sender puts the oldest request on the bus, if it is a broadcast or fits into
  -- a Single Frame: a node that takes the new frames in has the pad byte and the payload.
  poll_delivers :
      (s : Sender) (r : Request) (rest : List Request) (c : Context)
      → s.smf ≡ State.idle
      → s.queue ≡ r ∷ rest
      → Fits r
      → (r.length ≤ 6) ⊎ (r.target % 256 ≡ 255)
      → IsReady c
      → IsAddressed r c
      → (fs : List Message) × ((poll (model clock') s).actions ≡ s.actions ++ map frame fs)
        × Delivered r (process_all (model clock) c fs)
  poll_delivers s r rest c st q fits kind ready to = elim (dec_le r.length 6) [
    | yes small ↦ (
      single_frame r ∷ [],
      single_actions clock' s r rest st q small,
      single-Delivered c r ready to fits small,
    )
    | no big ↦ (
      first_frame r ∷ cf_frames clock' (r.length + 1) (streaming r rest s),
      broadcast_actions clock' s r rest st q (omega arith) (omega arith),
      multi-Delivered c (streaming r rest s) r ready to fits (omega arith) (refl, refl, refl),
    )
  ]

  -- An addressed request of several frames: a tick puts its First Frame on the bus, and the CTS
  -- frame of the other node the rest.
  dialog_delivers :
      (s : Sender) (r : Request) (fc : Message) (c : Context)
      → s.smf ≡ State.idle
      → s.queue ≡ r ∷ []
      → Fits r
      → 6 < r.length
      → r.target % 256 ≢ 255
      → IsGo r fc
      → IsReady c
      → IsAddressed r c
      → let s' = (process_fc (model clock') (poll (model clock') s) fc).0 in
        (fs : List Message) × (s'.actions ≡ s.actions ++ map frame fs)
        × Delivered r (process_all (model clock) c fs)
        × (s'.smf ≡ State.idle)
  dialog_delivers s r fc c st q fits big to go ready addressed =
      let w = poll-IsWaiting clock' s r [] st q big to in
      let s₁ = poll (model clock') s in
      let sent =
        cts_completes clock' s₁ fc w.waits w.queued (rw (w.sent, w.request) (omega arith)) go.0 go.1
          go.2 (go.3 ∙ ap (λ (x : Request). x.source % 256) (sym w.request)) in
      let rest = cf_frames clock' (r.length + 1) (resumed fc s₁) in
      (
        first_frame r ∷ rest,
        sent.1
            ∙ ap
                (λ (x : Request).
                  s₁.actions ++ map frame (cf_frames clock' (x.length + 1) (resumed fc s₁)))
                w.request
            ∙ ap (λ ys. ys ++ map frame rest) w.announced
            ∙ append_assoc s.actions (frame (first_frame r) ∷ []) (map frame rest),
        multi-Delivered c (resumed fc s₁) r ready addressed fits big (w.request, w.sent, w.number),
        sent.0,
      )

-- For every kernel that keeps to the documentation, on either side: a tick of an idle sender puts
-- the oldest request on the bus, if it is a broadcast or fits into a Single Frame, and a node that
-- takes the new frames in has the pad byte and the payload as a complete message.
pub poll_delivers_message :
    (k k' : Kernel) (s : Sender) (r : Request) (rest : List Request) (c : Context)
    → IsKernel k
    → IsKernel k'
    → s.smf ≡ State.idle
    → s.queue ≡ r ∷ rest
    → Fits r
    → (r.length ≤ 6) ⊎ (r.target % 256 ≡ 255)
    → IsReady c
    → IsAddressed r c
    → (fs : List Message) × ((poll k' s).actions ≡ s.actions ++ map frame fs)
      × Delivered r (process_all k c fs)
poll_delivers_message k k' s r rest c h h' st q fits kind ready to =
    rw (Kernel-eq k h, Kernel-eq k' h')
      (poll_delivers k.uptime k'.uptime s r rest c st q fits kind ready to)

-- A request of more than six bytes to one node, alone in the queue of an idle machine, and a CTS
-- Flow Control frame for it that asks for no block limit and no delay: after the tick and that frame the
-- frames on the bus, taken in by a receiver that is ready and addressed, make it hold the pad byte
-- and the payload as a complete message, and the machine is idle again. The kernels of both nodes
-- behave as documented, and payload and pad byte fit the buffer of the receiver.
pub dialog_delivers_message :
    (k k' : Kernel) (s : Sender) (r : Request) (fc : Message) (c : Context)
    → IsKernel k
    → IsKernel k'
    → s.smf ≡ State.idle
    → s.queue ≡ r ∷ []
    → Fits r
    → 6 < r.length
    → r.target % 256 ≢ 255
    → IsGo r fc
    → IsReady c
    → IsAddressed r c
    → let s' = (process_fc k' (poll k' s) fc).0 in
      (fs : List Message) × (s'.actions ≡ s.actions ++ map frame fs)
      × Delivered r (process_all k c fs)
      × (s'.smf ≡ State.idle)
dialog_delivers_message k k' s r fc c h h' st q fits big to go ready addressed =
    rw (Kernel-eq k h, Kernel-eq k' h')
      (dialog_delivers k.uptime k'.uptime s r fc c st q fits big to go ready addressed)
