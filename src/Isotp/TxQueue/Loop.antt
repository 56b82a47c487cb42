-- ===== src/Isotp/TxQueue/Loop.antt =====
-- The loop of `send_consecutive_frames`: what it sends, where it stops, what it leaves alone.
use dive_canhead.Base.{
  ℕ, zero, suc, ◌+◌, ◌%◌, ◌≤◌, ◌<◌, ◌≡◌, refl, sym, Bool, true, false, not, List, [], ◌∷◌, ◌++◌,
  map, append_assoc, append-nil, ltb, if◌then◌else◌, arith, le→ltb,
}
use dive_canhead.Zephyr.{model}
use dive_canhead.Isotp.Frame.{Message}
use dive_canhead.Isotp.TxQueue.{
  Sender, frame, cf_size, consecutive_frame, at_block_end, pace, act, send_one, send_loop,
  send_consecutive_frames,
}

-- What the loop keeps, and how far it went.
pub record Streamed (s s' : Sender) (waiting : Bool) : Type 0 where
  pub same_request : s'.current ≡ s.current
  pub same_state : s'.smf ≡ s.smf
  pub same_queue : s'.queue ≡ s.queue
  pub same_scratch : s'.scratch ≡ s.scratch
  pub same_block : s'.tx_block_size ≡ s.tx_block_size
  pub forward : s.tx_bytes_sent ≤ s'.tx_bytes_sent
  pub within : s'.tx_bytes_sent ≤ s.current.length
  -- Without a block boundary the whole payload went out.
  pub finished : waiting ≡ false → s'.tx_bytes_sent ≡ s.current.length
  pub boundary : waiting ≡ true → at_block_end s' ≡ true

pub pace_keeps :
    (s : Sender)
    → let s' = pace s in
      (s'.current ≡ s.current)
      × (s'.smf ≡ s.smf)
      × (s'.queue ≡ s.queue)
      × (s'.scratch ≡ s.scratch)
      × (s'.tx_block_size ≡ s.tx_block_size)
      × (s'.tx_bytes_sent ≡ s.tx_bytes_sent)
      × (s'.tx_sequence_number ≡ s.tx_sequence_number)
      × (s'.tx_block_counter ≡ s.tx_block_counter)
      × (s'.tx_stmin ≡ s.tx_stmin)
unfolding pace
pace_keeps s = ground arith

module _ (clock : ℕ → ℕ) where
  pub one_keeps :
      (s : Sender)
      → let s' = send_one (model clock) s in
        (s'.current ≡ s.current)
        × (s'.smf ≡ s.smf)
        × (s'.queue ≡ s.queue)
        × (s'.scratch ≡ s.scratch)
        × (s'.tx_block_size ≡ s.tx_block_size)
        × (s'.tx_stmin ≡ s.tx_stmin)
        × (s'.tx_bytes_sent ≡ s.tx_bytes_sent + cf_size s)
        × (s'.tx_sequence_number ≡ (s.tx_sequence_number + 1) % 16)
        × (s'.tx_block_counter ≡ (s.tx_block_counter + 1) % 256)
  unfolding send_one pace
  one_keeps s = ground arith

  loop-Streamed :
      (fuel : ℕ) (s : Sender)
      → s.tx_bytes_sent ≤ s.current.length
      → s.current.length < s.tx_bytes_sent + fuel
      → let r = send_loop (model clock) fuel s in Streamed s r.0 r.1
  unfolding send_loop
  loop-Streamed zero s le h = absurd (omega arith)
  loop-Streamed (suc fuel) s le h =
      ground (arith, one_keeps s, loop-Streamed fuel (send_one (model clock) s))

  -- One call sends the rest of the payload, or stops at a block boundary.
  pub send-Streamed :
      (s : Sender)
      → s.tx_bytes_sent ≤ s.current.length
      → let r = send_consecutive_frames (model clock) s in Streamed s r.0 (not r.1)
  unfolding send_consecutive_frames
  send-Streamed s le = ground (arith, loop-Streamed (s.current.length + 1) s le (omega arith))

  -- The frames of the rest of a transfer.
  unfoldable pub cf_frames : ℕ → Sender → List Message
  cf_frames zero s = []
  cf_frames (suc fuel) s =
      let rest = consecutive_frame s ∷ cf_frames fuel (send_one (model clock) s) in
      if ltb s.tx_bytes_sent s.current.length then rest else []

  pub cf_frames_done :
      (fuel : ℕ) (s : Sender) → s.current.length ≤ s.tx_bytes_sent → cf_frames fuel s ≡ []
  unfolding cf_frames
  cf_frames_done zero s h = refl
  cf_frames_done (suc fuel) s h = rw (le→ltb _ _ h)

  one_action :
      (s : Sender)
      → s.tx_stmin ≡ 0
      → (send_one (model clock) s).actions ≡ s.actions ++ frame (consecutive_frame s) ∷ []
  unfolding send_one pace act
  one_action s e = ground arith

  -- With no block size and no STmin the loop sends those frames, one after the other.
  pub loop_actions :
      (fuel : ℕ) (s : Sender)
      → s.tx_block_size ≡ 0
      → s.tx_stmin ≡ 0
      → (send_loop (model clock) fuel s).0.actions ≡ s.actions ++ map frame (cf_frames fuel s)
  unfolding send_loop cf_frames
  loop_actions zero s b p = sym (append-nil s.actions)
  loop_actions (suc fuel) s b p =
      let next = send_one (model clock) s in
      ground (
        arith,
        one_keeps s,
        one_action s p,
        append-nil s.actions,
        loop_actions fuel next,
        append_assoc s.actions (frame (consecutive_frame s) ∷ []) (map frame (cf_frames fuel next)),
      )

  pub actions-send :
      (s : Sender)
      → s.tx_block_size ≡ 0
      → s.tx_stmin ≡ 0
      → (send_consecutive_frames (model clock) s).0.actions
        ≡ s.actions ++ map frame (cf_frames (s.current.length + 1) s)
  unfolding send_consecutive_frames
  actions-send s b p = loop_actions (s.current.length + 1) s b p
