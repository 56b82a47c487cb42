-- ===== src/Heartbeat.antt =====
-- The liveness monitor (Firmware/src/heartbeat.c) and the loop of the thread that feeds the watchdog
-- with its verdict (Firmware/src/watchdog_feeder.c).
pub mod Stall
pub mod Running
mod Examples
use dive_canhead.Base.{
  ℕ, zero, suc, ◌+◌, ◌%◌, ◌^◌, List, [], ◌∷◌, ◌++◌, Bool, true, false, not, ◌&&◌, ◌||◌, ltb, ◌==◌,
  if◌then◌else◌, replicate,
}

-- What the module keeps of one `HeartbeatId_t`: its bit of the registered mask, its counter and the
-- counter at the last check.
pub record Slot : Type 0 where
  pub registered : Bool
  pub beats : ℕ
  pub last : ℕ

-- HEARTBEAT_COUNT
abbrev pub heartbeat_count : ℕ
heartbeat_count = 9

-- The static objects, and what the feeder has done: true for a feed, false for one withheld.
pub record Monitor : Type 0 where
  pub slots : List Slot
  pub long_op : Bool
  pub feeds : List Bool

-- The static objects at reset
abbrev pub zero_slot : Slot
zero_slot = record { registered = false; beats = 0; last = 0 }

abbrev pub at_reset : Monitor
at_reset = record { slots = replicate heartbeat_count zero_slot; long_op = false; feeds = [] }

-- A change of the slot with a number; a number out of range changes nothing.
abbrev pub update : ℕ → (Slot → Slot) → List Slot → List Slot
update id f [] = []
update zero f (s ∷ ss) = f s ∷ ss
update (suc id) f (s ∷ ss) = s ∷ update id f ss

-- `heartbeat_register`
unfoldable pub register : ℕ → Monitor → Monitor
register id m = record m { slots = update id (λ s. record s { registered = true }) m.slots }

-- `heartbeat_kick`
unfoldable pub kick : ℕ → Monitor → Monitor
kick id m = record m {
  slots = update id (λ s. record s { beats = (s.beats + 1) % 2 ^ 32 }) m.slots;
}

-- `heartbeat_set_long_op`
unfoldable pub set_long_op : Bool → Monitor → Monitor
set_long_op in_progress m = record m { long_op = in_progress }

-- The stall test of one slot in `heartbeat_check_all_alive`
unfoldable pub is_stalled : Bool → Slot → Bool
is_stalled long_op s = s.registered && s.beats == s.last && not long_op

-- The loop of `heartbeat_check_all_alive`: what becomes of the slots, and the verdict.
unfoldable pub check_slots : List Slot → List Slot
check_slots [] = []
check_slots (s ∷ ss) = (if s.registered then record s { last = s.beats } else s) ∷ check_slots ss

unfoldable pub all_alive : Bool → List Slot → Bool
unfolding is_stalled
all_alive long_op [] = true
all_alive long_op (s ∷ ss) = not (is_stalled long_op s) && all_alive long_op ss

-- `heartbeat_check_all_alive`
unfoldable pub check_all_alive : Monitor → Monitor × Bool
unfolding check_slots all_alive
check_all_alive m = (record m { slots = check_slots m.slots }, all_alive m.long_op m.slots)

-- The first feed of `watchdog_feeder_thread`, whatever the verdict
unfoldable pub first_feed : Monitor → Monitor
unfolding check_all_alive
first_feed m = let (m', alive) = check_all_alive m in record m' { feeds = m'.feeds ++ true ∷ [] }

-- One round of its loop
unfoldable pub feed_round : Monitor → Monitor
unfolding check_all_alive
feed_round m = let (m', alive) = check_all_alive m in record m' { feeds = m'.feeds ++ alive ∷ [] }
