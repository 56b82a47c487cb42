-- ===== src/Isotp/TxQueue/Boundary.antt =====
-- A transfer whose last Consecutive Frame is also the last of a block.
use dive_canhead.Base.{ℕ, zero, suc, ◌+◌, ◌-◌, ◌/◌, ◌%◌, ◌<◌, ◌≡◌, true, false, arith}
use dive_canhead.Zephyr.{Kernel, IsKernel, model, Kernel-eq}
use dive_canhead.Isotp.Frame.{Message, byte, msg_target}
use dive_canhead.Isotp.TxQueue.{
  Sender, State, send_one, send_loop, send_consecutive_frames, continue_to_send, is_idle,
  process_fc,
}
use dive_canhead.Isotp.TxQueue.Loop.{one_keeps, send-Streamed}
use dive_canhead.Isotp.TxQueue.Flow.{resumed, process_cts, flow_cts, after_cts}

-- The Consecutive Frames that the payload still needs.
abbrev pub frames_left : Sender → ℕ
frames_left s = (s.current.length - s.tx_bytes_sent + 6) / 7

module _ (clock : ℕ → ℕ) where
  boundary_loop :
      (fuel : ℕ) (s : Sender)
      → s.tx_bytes_sent < s.current.length
      → s.current.length < s.tx_bytes_sent + fuel
      → s.tx_block_size < 256
      → frames_left s + s.tx_block_counter ≡ s.tx_block_size
      → let r = send_loop (model clock) fuel s in
        (r.1 ≡ true) × (r.0.tx_bytes_sent ≡ s.current.length)
  unfolding send_loop
  boundary_loop zero s lt h small e = absurd (omega arith)
  boundary_loop (suc fuel) s lt h small e =
      ground (arith, one_keeps clock s, boundary_loop fuel (send_one (model clock) s))

  boundary_flag :
      (fc : Message) (s : Sender)
      → s.tx_bytes_sent < s.current.length
      → byte fc 1 < 256
      → frames_left s ≡ byte fc 1
      → let r = send_consecutive_frames (model clock) (resumed fc s) in
        (r.1 ≡ false) × (r.0.tx_bytes_sent ≡ s.current.length)
  unfolding send_consecutive_frames
  boundary_flag fc s lt small e =
      ground (arith, boundary_loop (s.current.length + 1) (resumed fc s))

  boundary_waits :
      (fc : Message) (s : Sender)
      → s.smf ≡ State.awaiting_fc
      → s.tx_bytes_sent < s.current.length
      → byte fc 1 < 256
      → frames_left s ≡ byte fc 1
      → let s' = after_cts clock fc s in
        (s'.smf ≡ State.awaiting_fc)
        × (s'.tx_bytes_sent ≡ s.current.length)
        × (s'.queue ≡ s.queue)
        × (s'.current ≡ s.current)
  unfolding continue_to_send
  boundary_waits fc s st lt small e =
      ground (arith, boundary_flag fc s lt small e, send-Streamed clock (resumed fc s))

  is_waiting_of : (s : Sender) → s.smf ≡ State.awaiting_fc → is_idle s ≡ false
  is_waiting_of s e = rw e

  boundary_stuck :
      (s : Sender) (fc : Message)
      → s.smf ≡ State.awaiting_fc
      → s.tx_bytes_sent < s.current.length
      → byte fc 0 ≡ 0x30
      → byte fc 1 < 256
      → frames_left s ≡ byte fc 1
      → msg_target fc ≡ s.current.source % 256
      → let s' = (process_fc (model clock) s fc).0 in
        (s'.smf ≡ State.awaiting_fc)
        × (s'.tx_bytes_sent ≡ s.current.length)
        × (s'.queue ≡ s.queue)
        × (s'.current ≡ s.current)
  boundary_stuck s fc st lt b0 small e to =
      let w = boundary_waits fc s st lt small e in
      rw
        (
          process_cts clock s fc st b0 to,
          flow_cts clock s fc st,
          is_waiting_of (after_cts clock fc s) w.0,
        )
        w

-- A CTS frame whose block size is the number of frames still needed: the whole payload goes out,
-- and yet the machine goes on waiting for Flow Control, with its queue untouched.
pub boundary_keeps_waiting :
    (k : Kernel) (s : Sender) (fc : Message)
    → IsKernel k
    → s.smf ≡ State.awaiting_fc
    → s.tx_bytes_sent < s.current.length
    → byte fc 0 ≡ 0x30
    → byte fc 1 < 256
    → frames_left s ≡ byte fc 1
    → msg_target fc ≡ s.current.source % 256
    → let s' = (process_fc k s fc).0 in
      (s'.smf ≡ State.awaiting_fc)
      × (s'.tx_bytes_sent ≡ s.current.length)
      × (s'.queue ≡ s.queue)
      × (s'.current ≡ s.current)
boundary_keeps_waiting k s fc h st lt b0 small e to =
    rw (Kernel-eq k h) (boundary_stuck k.uptime s fc st lt b0 small e to)
