-- ===== src/Heartbeat/Running.antt =====
-- Threads that kick between two rounds of the feeder are never reported.
use dive_canhead.Base.{
  ℕ, zero, suc, ◌+◌, ◌%◌, ◌^◌, ◌≤◌, ◌<◌, ◌≡◌, ◌≢◌, refl, sym, ◌∙◌, ap, subst, List, [], ◌∷◌, ◌++◌,
  Bool, true, false, not, ◌&&◌, ◌==◌, if◌then◌else◌, inl, inr, Bool-cases, arith, length, get_or,
  ==_iff,
}
use dive_canhead.Heartbeat.{
  Slot, Monitor, zero_slot, update, register, kick, set_long_op, is_stalled, all_alive,
  check_all_alive, feed_round,
}
use dive_canhead.Heartbeat.Stall.{
  Call, registers, kicks, long_ops, rounds, after, after_all, slot_at, update_other, update_keeps,
}

-- How often a slot is kicked
unfoldable pub kicked : ℕ → List Call → ℕ
kicked id [] = 0
kicked id (kicks j ∷ cs) = (if j == id then 1 else 0) + kicked id cs
kicked id (registers j ∷ cs) = kicked id cs
kicked id (long_ops b ∷ cs) = kicked id cs
kicked id (rounds ∷ cs) = kicked id cs

-- No round of the feeder
unfoldable pub NoRounds : List Call → Type 0
NoRounds [] = Unit
NoRounds (rounds ∷ cs) = true ≡ false
NoRounds (c ∷ cs) = NoRounds cs

-- The counter has advanced from the last check by so many kicks.
abbrev Ahead : ℕ → Slot → Type 0
Ahead n s = (s.last < 2 ^ 32) × (s.beats ≡ (s.last + n) % 2 ^ 32)

-- The counter as the last check found it, as at reset
abbrev pub IsLevel : Slot → Type 0
IsLevel s = (s.last < 2 ^ 32) × (s.beats ≡ s.last)

kicked_more :
    (n : ℕ) (s : Slot) → Ahead n s → Ahead (1 + n) (record s { beats = (s.beats + 1) % 2 ^ 32 })
kicked_more n s (small, e) = (small, omega (arith, e))

kick-Ahead :
    (ss : List Slot) (id n : ℕ)
    → id < length ss
    → Ahead n (get_or ss id zero_slot)
    → Ahead
        (1 + n)
        (get_or (update id (λ s. record s { beats = (s.beats + 1) % 2 ^ 32 }) ss) id zero_slot)
kick-Ahead [] id n l p = absurd (omega (arith, l))
kick-Ahead (s ∷ ss) zero n l p = kicked_more n s p
kick-Ahead (s ∷ ss) (suc id) n l p = kick-Ahead ss id n (omega (arith, l)) p

length-update : (id : ℕ) (f : Slot → Slot) (ss : List Slot) → length (update id f ss) ≡ length ss
length-update id f [] = refl
length-update zero f (s ∷ ss) = refl
length-update (suc id) f (s ∷ ss) = ap suc (length-update id f ss)

same_size : (n : ℕ) {a b : ℕ} → b ≡ a → n < a → n < b
same_size n e l = rw e l

all-Ahead :
    (m : Monitor) (cs : List Call) (id n : ℕ)
    → NoRounds cs
    → id < length m.slots
    → Ahead n (slot_at id m)
    → Ahead (kicked id cs + n) (slot_at id (after_all m cs))
unfolding after_all after NoRounds kicked register kick set_long_op
all-Ahead m [] id n a l p = let e : 0 + n ≡ n = omega arith in rw e p
all-Ahead m (registers j ∷ cs) id n a l p =
    all-Ahead (register j m) cs id n a
      (same_size id (length-update j (λ s. record s { registered = true }) m.slots) l)
      (update_keeps (Ahead n) m.slots id j (λ s. record s { registered = true }) (λ s q. q) p)
all-Ahead m (long_ops b ∷ cs) id n a l p = all-Ahead (set_long_op b m) cs id n a l p
all-Ahead m (rounds ∷ cs) id n a l p = let never : true ≡ false = a in cc
all-Ahead m (kicks j ∷ cs) id n a l p =
    let beat : Slot → Slot = λ s. record s { beats = (s.beats + 1) % 2 ^ 32 } in
    let wide = same_size id (length-update j beat m.slots) l in
    elim (Bool-cases (j == id)) [
      | inl e ↦
          let here : j ≡ id = (==_iff j id).0 e in
          let up = kick-Ahead m.slots id n l p in
          let count : (1 + kicked id cs) + n ≡ kicked id cs + (1 + n) = omega arith in
          rw (e, count)
            (all-Ahead (kick j m) cs id (1 + n) a wide (
              subst (λ i. Ahead (1 + n) (get_or (update i beat m.slots) id zero_slot)) (sym here)
                up))
      | inr e ↦
          let other : j ≢ id = ground arith in
          let count : (0 + kicked id cs) + n ≡ kicked id cs + n = omega arith in
          rw (e, count)
            (all-Ahead (kick j m) cs id n a wide
              (subst (Ahead n) (sym (update_other m.slots id j beat other)) p))
    ]

and_false : (a c : Bool) → a && false && c ≡ false
and_false true c = refl
and_false false c = refl

unregistered : (long_op : Bool) (s : Slot) → s.registered ≡ false → is_stalled long_op s ≡ false
unfolding is_stalled
unregistered long_op s off = rw off refl

size_all :
    (m : Monitor) (cs : List Call) → NoRounds cs → length (after_all m cs).slots ≡ length m.slots
unfolding after_all after NoRounds register kick set_long_op
size_all m [] a = refl
size_all m (registers j ∷ cs) a =
    size_all (register j m) cs a ∙ length-update j (λ s. record s { registered = true }) m.slots
size_all m (kicks j ∷ cs) a =
    size_all (kick j m) cs a
    ∙ length-update j (λ s. record s { beats = (s.beats + 1) % 2 ^ 32 }) m.slots
size_all m (long_ops b ∷ cs) a = size_all (set_long_op b m) cs a
size_all m (rounds ∷ cs) a = let never : true ≡ false = a in cc

lagging_runs :
    (n : ℕ) (long_op : Bool) (s : Slot)
    → Ahead n s
    → 1 ≤ n
    → n < 2 ^ 32
    → is_stalled long_op s ≡ false
unfolding is_stalled
lagging_runs n long_op s (small, e) lo hi =
    let apart : s.beats ≢ s.last = λ same. omega (arith, small, e, lo, hi, same) in
    let differ : s.beats == s.last ≡ false = ground arith in
    rw differ (and_false s.registered (not long_op))

all_run :
    (long_op : Bool) (ss : List Slot)
    → ((id : ℕ) → id < length ss → is_stalled long_op (get_or ss id zero_slot) ≡ false)
    → all_alive long_op ss ≡ true
unfolding all_alive
all_run long_op [] f = refl
all_run long_op (s ∷ ss) f =
    rw (f 0 (omega arith)) (all_run long_op ss (λ id l. f (suc id) (omega (arith, l))))

-- If the counters are level with the last check, and until the next round of the feeder every
-- thread that is registered by then kicks at least once and fewer than 2^32 times, then that round
-- feeds the watchdog, in whatever order the calls come and whether or not a long operation is in
-- progress.
pub running_threads_are_fed :
    (m : Monitor) (cs : List Call)
    → ((id : ℕ) → IsLevel (slot_at id m))
    → NoRounds cs
    → ((id : ℕ)
        → (slot_at id (after_all m cs)).registered ≡ true
        → (1 ≤ kicked id cs) × (kicked id cs < 2 ^ 32))
    → let m' = after_all m cs in (feed_round m').feeds ≡ m'.feeds ++ true ∷ []
unfolding feed_round check_all_alive
running_threads_are_fed m cs level quiet each =
    let m' : Monitor = after_all m cs in
    let runs : (id : ℕ) → id < length m'.slots → is_stalled m'.long_op (slot_at id m') ≡ false =
      λ id l. elim (Bool-cases (slot_at id m').registered) [
        | inr off ↦ unregistered m'.long_op (slot_at id m') off
        | inl on ↦
            let from : Ahead 0 (slot_at id m) = ((level id).0, omega (arith, level id)) in
            let n_plus : kicked id cs + 0 ≡ kicked id cs = omega arith in
            let ahead =
              all-Ahead m cs id 0 quiet (same_size id (sym (size_all m cs quiet)) l) from in
            lagging_runs (kicked id cs + 0) m'.long_op (slot_at id m') ahead
              (omega (arith, each id on)) (omega (arith, each id on))
      ] in
    rw (all_run m'.long_op m'.slots runs) refl
