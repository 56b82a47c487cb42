-- ===== src/Heartbeat/Examples.antt =====
-- The theorems on the liveness monitor at concrete histories.
use dive_canhead.Base.{
  ℕ, zero, suc, ◌^◌, ◌≤◌, ◌<◌, ◌≡◌, refl, List, [], ◌∷◌, ◌++◌, true, false, arith, get_or,
  replicate, sym, ◌∙◌, true≢false,
}
use dive_canhead.Heartbeat.{Monitor, at_reset, zero_slot, feed_round, register, kick}
use dive_canhead.Heartbeat.Stall.{
  Call, registers, kicks, rounds, after, after_all, slot_at, NoKick, NoKicks,
  stalled_thread_is_found,
}
use dive_canhead.Heartbeat.Running.{kicked, NoRounds, IsLevel, running_threads_are_fed}

-- The receive thread (3) is registered.
abbrev watched : Monitor
watched = after_all at_reset (registers 3 ∷ [])

-- Only another thread (4) kicks, and a round passes.
abbrev silence : List Call
silence = registers 4 ∷ kicks 4 ∷ rounds ∷ kicks 4 ∷ []

stalled_thread_is_found_example :
    let m' = after_all (feed_round watched) silence in
    (feed_round m').feeds ≡ m'.feeds ++ false ∷ []
unfolding after_all NoKicks NoKick
stalled_thread_is_found_example =
    stalled_thread_is_found watched silence 3 refl (tt, (omega arith, (tt, (omega arith, tt)))) refl

counters_at_reset : (n id : ℕ) → IsLevel (get_or (replicate n zero_slot) id zero_slot)
counters_at_reset zero id = (omega arith, refl)
counters_at_reset (suc n) zero = (omega arith, refl)
counters_at_reset (suc n) (suc id) = counters_at_reset n id

off_at_reset : (n id : ℕ) → (get_or (replicate n zero_slot) id zero_slot).registered ≡ false
off_at_reset zero id = refl
off_at_reset (suc n) zero = refl
off_at_reset (suc n) (suc id) = off_at_reset n id

-- The receive thread registers and takes its first lap.
abbrev first_lap : List Call
first_lap = registers 3 ∷ kicks 3 ∷ []

first_lap_kicks :
    (id : ℕ)
    → (slot_at id (after_all at_reset first_lap)).registered ≡ true
    → (1 ≤ kicked id first_lap) × (kicked id first_lap < 2 ^ 32)
unfolding after_all after register kick kicked
first_lap_kicks zero e = absurd (true≢false (sym e))
first_lap_kicks (suc zero) e = absurd (true≢false (sym e))
first_lap_kicks (suc (suc zero)) e = absurd (true≢false (sym e))
first_lap_kicks (suc (suc (suc zero))) e = (omega arith, omega arith)
first_lap_kicks (suc (suc (suc (suc id)))) e = absurd (true≢false (sym e ∙ off_at_reset 5 id))

running_threads_are_fed_example :
    let m' = after_all at_reset first_lap in (feed_round m').feeds ≡ m'.feeds ++ true ∷ []
unfolding after_all NoRounds
running_threads_are_fed_example =
    running_threads_are_fed at_reset first_lap (counters_at_reset 9) tt first_lap_kicks
