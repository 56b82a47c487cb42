-- ===== src/Isotp/Send.antt =====
-- `ISOTP_Send` of Firmware/src/divecan/isotp.c, which hands a payload of a context to the
-- transmit queue, and a payload followed from there to the node that it is for.
use dive_canhead.Base.{
  ℕ, ◌+◌, ◌%◌, ◌≤◌, ◌<◌, ◌≡◌, refl, ap, ◌∙◌, Bool, true, false, List, [], ◌∷◌, ◌++◌, map, length,
  take, blit, take-blit_start, length-take, length-blit, ltb, if◌then◌else◌, ◌==◌, ◌||◌, arith, ◌⊎◌,
  Option, some, none,
}
use dive_canhead.Zephyr.{Kernel, IsKernel}
use dive_canhead.Isotp.Frame.{Message, zeros, null_ptr, isotp_overflow, max_payload}
use dive_canhead.Isotp.Receive.{Context, process_all}
use dive_canhead.Isotp.Receive
use dive_canhead.Isotp.TxQueue.{Sender, State, frame, request, enqueue, poll}
use dive_canhead.Isotp.TxQueue.Enqueue.{enqueue_accepts}
use dive_canhead.Isotp.Transfer.{IsAddressed, IsReady, poll_delivers_message}

-- `ISOTP_Send`; `none` is a NULL `data`.
unfoldable pub send : Kernel → Context → Sender → Option (List ℕ) → ℕ → (Context × Sender) × Bool
send k c s none n = ((Receive.fault null_ptr 0 c, s), false)
send k c s (some bytes) n =
    if n == 0 || ltb max_payload n
    then ((Receive.fault isotp_overflow n c, s), false)
    else (let (s', result) = enqueue k s c.source c.target c.message_id bytes n in
        ((if result then record c { tx_complete = true } else c, s'), result))

-- The node holds the pad byte and the first `n` bytes of `data` as a complete message.
abbrev pub Holds : ℕ → List ℕ → Context → Type 0
Holds n bytes c =
    (c.rx_complete ≡ true)
    × (c.rx_data_length ≡ n + 1)
    × (take (n + 1) c.rx_buffer ≡ 0 ∷ take n bytes)

request-payload :
    (bytes : List ℕ) (n : ℕ)
    → n ≤ length bytes
    → take n (blit (zeros 256) 0 (take n bytes)) ≡ take n bytes
request-payload bytes n h =
    take-blit_start (zeros 256) (take n bytes) n (omega (arith, length-take n bytes))

send_accepts :
    (k : Kernel) (c : Context) (s : Sender) (bytes : List ℕ) (n : ℕ)
    → IsKernel k
    → s.queue ≡ []
    → 0 < n
    → n ≤ 256
    → let r = request c.source c.target c.message_id bytes n in
      send k c s (some bytes) n
      ≡ ((record c { tx_complete = true }, record s { scratch = r; queue = r ∷ [] }), true)
unfolding send
send_accepts k c s bytes n h empty lo hi =
    let e =
      enqueue_accepts k s c.source c.target c.message_id bytes n h lo hi (rw empty (omega arith)) in
    let small : (n == 0 || ltb 256 n) ≡ false = ground arith in rw (small, e, empty) refl

-- A payload of 1 to 255 bytes given to `ISOTP_Send`, when the transmit machine is idle, its queue
-- empty, and the payload either fits a Single Frame or is broadcast: the call reports success, and
-- the frames of the next tick make a ready receiver that they are addressed to hold that payload behind a
-- pad byte. The kernels of both nodes behave as documented.
pub send_delivers_message :
    (k k' : Kernel) (c : Context) (s : Sender) (bytes : List ℕ) (n : ℕ) (peer : Context)
    → IsKernel k
    → IsKernel k'
    → s.smf ≡ State.idle
    → s.queue ≡ []
    → 0 < n
    → n ≤ 255
    → n ≤ length bytes
    → (n ≤ 6) ⊎ (c.target % 256 ≡ 255)
    → IsReady peer
    → IsAddressed (request c.source c.target c.message_id bytes n) peer
    → let ((c', s'), done) = send k' c s (some bytes) n in
      (done ≡ true)
      × (c'.tx_complete ≡ true)
      × ((fs : List Message) × ((poll k' s').actions ≡ s.actions ++ map frame fs)
          × Holds n bytes (process_all k peer fs))
send_delivers_message k k' c s bytes n peer h h' st empty lo hi whole kind ready to =
    let r = request c.source c.target c.message_id bytes n in
    let s₁ : Sender = record s { scratch = r; queue = r ∷ [] } in
    let room = length-blit (zeros 256) 0 (take n bytes) (omega (arith, length-take n bytes)) in
    let (fs, acts, held) =
      poll_delivers_message k k' s₁ r [] peer h h' st refl (hi, omega (arith, room)) kind ready
        to in
    let same = request-payload bytes n whole in
    rw (send_accepts k' c s bytes n h' empty lo (omega arith))
      (refl, refl, (fs, acts, (held.1, held.2, held.3 ∙ ap (λ xs. 0 ∷ xs) same)))
