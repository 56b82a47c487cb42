-- ===== src/Heartbeat/Stall.antt =====
-- A thread that stalls is found, and threads that run are not reported.
use dive_canhead.Base.{
  ℕ, zero, suc, ◌+◌, ◌%◌, ◌^◌, ◌≡◌, ◌≢◌, refl, sym, ap, subst, List, [], ◌∷◌, ◌++◌, Bool, true,
  false, not, ◌&&◌, ◌==◌, arith, get_or,
}
use dive_canhead.Heartbeat.{
  Slot, Monitor, zero_slot, update, register, kick, set_long_op, is_stalled, check_slots, all_alive,
  check_all_alive, feed_round,
}

-- What the other threads and the feeder call
pub data Call : Type 0 where
  registers kicks : ℕ → Call
  long_ops : Bool → Call
  rounds : Call

unfoldable pub after : Monitor → Call → Monitor
unfolding register kick set_long_op feed_round
after m (registers id) = register id m
after m (kicks id) = kick id m
after m (long_ops b) = set_long_op b m
after m rounds = feed_round m

unfoldable pub after_all : Monitor → List Call → Monitor
unfolding after
after_all m [] = m
after_all m (c ∷ cs) = after_all (after m c) cs

abbrev pub slot_at : ℕ → Monitor → Slot
slot_at id m = get_or m.slots id zero_slot

-- Registered, and not kicked since the last check
abbrev pub IsStuck : Slot → Type 0
IsStuck s = (s.registered ≡ true) × (s.beats ≡ s.last)

-- No call is a kick of this slot.
unfoldable pub NoKick : ℕ → Call → Type 0
NoKick id (kicks j) = j ≢ id
NoKick id _ = Unit

unfoldable pub NoKicks : ℕ → List Call → Type 0
NoKicks id [] = Unit
NoKicks id (c ∷ cs) = NoKick id c × NoKicks id cs

pub update_other :
    (ss : List Slot) (id j : ℕ) (f : Slot → Slot)
    → j ≢ id
    → get_or (update j f ss) id zero_slot ≡ get_or ss id zero_slot
update_other [] id j f ne = refl
update_other (s ∷ ss) zero zero f ne = absurd (ne refl)
update_other (s ∷ ss) zero (suc j) f ne = refl
update_other (s ∷ ss) (suc id) zero f ne = refl
update_other (s ∷ ss) (suc id) (suc j) f ne = update_other ss id j f (λ e. ne (ap suc e))

-- A property that a change keeps, wherever the change is.
pub update_keeps :
    (P : Slot → Type 0) (ss : List Slot) (id j : ℕ) (f : Slot → Slot)
    → ((s : Slot) → P s → P (f s))
    → P (get_or ss id zero_slot)
    → P (get_or (update j f ss) id zero_slot)
update_keeps P [] id j f keeps p = p
update_keeps P (s ∷ ss) zero zero f keeps p = keeps s p
update_keeps P (s ∷ ss) zero (suc j) f keeps p = p
update_keeps P (s ∷ ss) (suc id) zero f keeps p = p
update_keeps P (s ∷ ss) (suc id) (suc j) f keeps p = update_keeps P ss id j f keeps p

check-IsStuck :
    (ss : List Slot) (id : ℕ)
    → (get_or ss id zero_slot).registered ≡ true
    → IsStuck (get_or (check_slots ss) id zero_slot)
unfolding check_slots
check-IsStuck [] id r = (r, refl)
check-IsStuck (s ∷ ss) zero r = rw r (refl, refl)
check-IsStuck (s ∷ ss) (suc id) r = check-IsStuck ss id r

-- A registered slot is stuck after a check.
round-IsStuck :
    (m : Monitor) (id : ℕ) → (slot_at id m).registered ≡ true → IsStuck (slot_at id (feed_round m))
unfolding feed_round check_all_alive
round-IsStuck m id r = check-IsStuck m.slots id r

after-IsStuck :
    (m : Monitor) (c : Call) (id : ℕ)
    → NoKick id c
    → IsStuck (slot_at id m)
    → IsStuck (slot_at id (after m c))
unfolding after NoKick register kick set_long_op
after-IsStuck m (registers j) id a p =
    update_keeps IsStuck m.slots id j (λ s. record s { registered = true }) (λ s (r, e). (refl, e))
      p
after-IsStuck m (kicks j) id a p =
    subst IsStuck
      (sym (update_other m.slots id j (λ s. record s { beats = (s.beats + 1) % 2 ^ 32 }) a)) p
after-IsStuck m (long_ops b) id a p = p
after-IsStuck m rounds id a p = round-IsStuck m id p.0

all-IsStuck :
    (m : Monitor) (cs : List Call) (id : ℕ)
    → NoKicks id cs
    → IsStuck (slot_at id m)
    → IsStuck (slot_at id (after_all m cs))
unfolding after_all NoKicks
all-IsStuck m [] id a p = p
all-IsStuck m (c ∷ cs) id (a, more) p =
    all-IsStuck (after m c) cs id more (after-IsStuck m c id a p)

both_false : (b : Bool) → b && false ≡ false
both_false true = refl
both_false false = refl

stall_found :
    (ss : List Slot) (id : ℕ) → IsStuck (get_or ss id zero_slot) → all_alive false ss ≡ false
unfolding all_alive is_stalled
stall_found [] id (r, e) = sym r
stall_found (s ∷ ss) zero (r, e) =
    let same : s.beats == s.last ≡ true = ground arith in rw (r, same) refl
stall_found (s ∷ ss) (suc id) p =
    rw (stall_found ss id p) (both_false (not (s.registered && s.beats == s.last && true)))

-- A registered thread that is not kicked from a round of the feeder on, whatever else is called
-- and however many rounds pass, makes the next round withhold the feed, unless a long operation
-- is in progress then.
pub stalled_thread_is_found :
    (m : Monitor) (cs : List Call) (id : ℕ)
    → (slot_at id m).registered ≡ true
    → NoKicks id cs
    → (after_all (feed_round m) cs).long_op ≡ false
    → let m' = after_all (feed_round m) cs in (feed_round m').feeds ≡ m'.feeds ++ false ∷ []
unfolding feed_round check_all_alive
stalled_thread_is_found m cs id r a idle =
    let stuck = all-IsStuck (feed_round m) cs id a (round-IsStuck m id r) in
    rw (idle, stall_found (after_all (feed_round m) cs).slots id stuck) refl
