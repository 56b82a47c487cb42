-- ===== src/FirmwareConfirm/Deadline.antt =====
-- The self test ends: past the overall deadline each tick passes a check or restarts the head.
use dive_canhead.Base.{
  ℕ, zero, suc, ◌+◌, ◌*◌, ◌/◌, ◌≤◌, ◌<◌, ◌≡◌, refl, sym, [], Bool, true, false, ◌⊎◌, inl, inr,
  Bool-cases, arith, subst, le→leb,
}
use dive_canhead.Zephyr.{Kernel, IsKernel, model, Kernel-eq}
use dive_canhead.FirmwareConfirm.{
  init, PostState, waiting_cells, waiting_consensus, waiting_ppo2_tx, waiting_handset,
  waiting_solenoid, confirmed, failed_timeout, failed_cell, failed_consensus, failed_no_ppo2_tx,
  failed_no_handset, failed_solenoid, state_code, Config, Sample, Post, store, mark_check_passed,
  abort_and_reboot, entry, enter_waiting_state, confirmed_entry, overall_deadline_exceeded, is_over,
  check, set_state, run, run_cells, run_consensus, run_ppo2_tx, run_handset, run_solenoid, tick,
  drive, start, run_post_sequence,
}
use dive_canhead.FirmwareConfirm.Verdict.{
  goes_on, stops, Going, IsWaiting, Waiting, Confirmed, RolledBack, Verdict, mask_of, Passed,
  tick-Verdict, drive-Verdict,
}

-- A transition stores the state that it goes to.
entry-smf : (cfg : Config) (x : Sample) (st : PostState) (p : Post) → (entry cfg x st p).smf ≡ p.smf
unfolding entry enter_waiting_state confirmed_entry abort_and_reboot
entry-smf cfg x init p = refl
entry-smf cfg x waiting_cells p = refl
entry-smf cfg x waiting_consensus p = refl
entry-smf cfg x waiting_ppo2_tx p = refl
entry-smf cfg x waiting_handset p = refl
entry-smf cfg x waiting_solenoid p = refl
entry-smf cfg x confirmed p = refl
entry-smf cfg x failed_timeout p = refl
entry-smf cfg x failed_cell p = refl
entry-smf cfg x failed_consensus p = refl
entry-smf cfg x failed_no_ppo2_tx p = refl
entry-smf cfg x failed_no_handset p = refl
entry-smf cfg x failed_solenoid p = refl

entered :
    (cfg : Config) (x : Sample) (st : PostState) (p : Post) (n : ℕ)
    → n < state_code st
    → n < state_code (entry cfg x st (store st p)).smf
entered cfg x st p n h = subst (λ s. n < state_code s) (sym (entry-smf cfg x st (store st p))) h

module _ (cfg : Config) (world : ℕ → Sample) (b : Post) (clock : ℕ → ℕ) where
  abbrev IsLate : ℕ → Type 0
  IsLate n = (m : ℕ) → n ≤ m → b.start_ms + cfg.deadline_ms ≤ (world m).checked_at

  check-late :
      (x : Sample) (passed : Bool) (bit budget n : ℕ) (next failed : PostState) (p : Post)
      → overall_deadline_exceeded cfg x p ≡ true
      → n < state_code next
      → n < state_code failed_timeout
      → n < state_code (check (model clock) cfg x passed bit next budget failed p).smf
  unfolding check set_state
  check-late x passed bit budget n next failed p late h h2 = elim (Bool-cases passed) [
    | inl e ↦ rw e (entered cfg x next (mark_check_passed bit next p) n h)
    | inr e ↦ rw (e, late) (entered cfg x failed_timeout p n h2)
  ]

  run-late :
      (s : PostState) (x : Sample) (p : Post)
      → IsWaiting cfg world b s
      → overall_deadline_exceeded cfg x p ≡ true
      → state_code s < state_code (run (model clock) cfg x s p).smf
  unfolding run run_cells run_consensus run_ppo2_tx run_handset run_solenoid state_code
  run-late waiting_cells x p w e =
      check-late x _ 0 _ 1 waiting_consensus failed_cell p e (omega arith) (omega arith)
  run-late waiting_consensus x p w e =
      check-late x _ 1 _ 2 waiting_ppo2_tx failed_consensus p e (omega arith) (omega arith)
  run-late waiting_ppo2_tx x p w e =
      check-late x _ 2 _ 3 waiting_handset failed_no_ppo2_tx p e (omega arith) (omega arith)
  run-late waiting_handset x p w e =
      check-late x _ 3 _ 4 waiting_solenoid failed_no_handset p e (omega arith) (omega arith)
  run-late waiting_solenoid x p w e =
      check-late x _ 4 _ 5 confirmed failed_solenoid p e (omega arith) (omega arith)
  run-late init x p w e = absurd (omega arith)
  run-late confirmed x p w e = absurd (omega arith)
  run-late failed_timeout x p w e = absurd (omega arith)
  run-late failed_cell x p w e = absurd (omega arith)
  run-late failed_consensus x p w e = absurd (omega arith)
  run-late failed_no_ppo2_tx x p w e = absurd (omega arith)
  run-late failed_no_handset x p w e = absurd (omega arith)
  run-late failed_solenoid x p w e = absurd (omega arith)

  late :
      (x : Sample) (p : Post)
      → p.start_ms ≡ b.start_ms
      → b.start_ms + cfg.deadline_ms ≤ x.checked_at
      → overall_deadline_exceeded cfg x p ≡ true
  unfolding overall_deadline_exceeded
  late x p e h = rw e (le→leb h)

  tick-late :
      (n : ℕ) (p : Post) (s : PostState)
      → IsWaiting cfg world b s
      → Going cfg world b s n p
      → b.start_ms + cfg.deadline_ms ≤ (world n).checked_at
      → state_code s < state_code (tick (model clock) cfg (world n) p).smf
  unfolding tick
  tick-late n p s w g h =
      subst (λ st. state_code s < state_code (run (model clock) cfg (world n) st p).smf) (sym g.0)
        (run-late s (world n) p w (late (world n) p g.6 h))

  -- Past the deadline, six ticks less the number of the state are enough.
  drive-late :
      (fuel n : ℕ) (p : Post) (s : PostState)
      → IsWaiting cfg world b s
      → Going cfg world b s n p
      → IsLate n
      → 6 ≤ fuel + state_code s
      → is_over (drive (model clock) cfg fuel world n p) ≡ true
  unfolding drive
  drive-late zero n p s w g l h = absurd (omega arith)
  drive-late (suc fuel) n p s w g l h =
      let p' = tick (model clock) cfg (world n) p in
      let rest = drive (model clock) cfg fuel world (suc n) p' in
      let P : Post → Type 0 = λ q. is_over q ≡ true in
      let up : state_code s < state_code p'.smf = tick-late n p s w g (l n (omega arith)) in
      elim (tick-Verdict cfg world b clock n p (s, w, g)) [
        | inl v ↦ goes_on P p' rest (rw (v.2.5, v.2.4)) (
            drive-late fuel (suc n) p' v.0 v.1 v.2 (λ m le. l m (omega arith))
              (subst (λ st. 6 ≤ fuel + state_code st) v.2.0 (omega arith)))
        | inr (inl v) ↦ stops P p' rest (rw (v.4, v.3)) (rw (v.4, v.3))
        | inr (inr v) ↦ stops P p' rest (rw v.4) (rw v.4)
      ]

  -- When the deadline passes within `d` ticks, five more are enough.
  drive-ends :
      (d fuel n : ℕ) (p : Post)
      → Waiting cfg world b n p
      → IsLate (n + d)
      → d + 5 ≤ fuel
      → is_over (drive (model clock) cfg fuel world n p) ≡ true
  unfolding drive
  drive-ends zero fuel n p w l h =
      drive-late fuel n p w.0 w.1 w.2 (λ m le. l m (omega arith)) (omega arith)
  drive-ends (suc d) zero n p w l h = absurd (omega arith)
  drive-ends (suc d) (suc fuel) n p w l h =
      let p' = tick (model clock) cfg (world n) p in
      let rest = drive (model clock) cfg fuel world (suc n) p' in
      let P : Post → Type 0 = λ q. is_over q ≡ true in
      elim (tick-Verdict cfg world b clock n p w) [
        | inl v ↦
            goes_on P p' rest (rw (v.2.5, v.2.4))
              (drive-ends d fuel (suc n) p' v (λ m le. l m (omega arith)) (omega arith))
        | inr (inl v) ↦ stops P p' rest (rw (v.4, v.3)) (rw (v.4, v.3))
        | inr (inr v) ↦ stops P p' rest (rw v.4) (rw v.4)
      ]

module _ (clock : ℕ → ℕ) (cfg : Config) (x : Sample) (world : ℕ → Sample) (p : Post) where
  -- The machine before the first tick.
  begun : Post
  begun = start (model clock) cfg x p

  start-Waiting :
      p.pass_mask ≡ 0 → p.actions ≡ [] → p.rebooted ≡ false → Waiting cfg world begun 0 begun
  unfolding begun start entry enter_waiting_state mask_of Passed
  start-Waiting mask acts live = (
    waiting_cells,
    (omega arith, omega arith),
    (refl, mask, refl, acts, refl, live, refl, refl, refl, tt),
  )

  start-ms : begun.start_ms ≡ x.checked_at
  unfolding begun start entry enter_waiting_state
  start-ms = refl

  ended :
      (q : Post) (m : ℕ)
      → is_over q ≡ true
      → Verdict cfg world begun m q
      → Confirmed cfg world begun m q ⊎ RolledBack cfg world begun q
  ended q m over (inl v) = let going : is_over q ≡ false = rw (v.2.5, v.2.4) in cc
  ended q m over (inr v) = v

  post_ends :
      (fuel : ℕ)
      → p.pass_mask ≡ 0
      → p.actions ≡ []
      → p.rebooted ≡ false
      → ((n : ℕ) → x.checked_at + 50 * n ≤ (world n).checked_at)
      → cfg.deadline_ms / 50 + 6 ≤ fuel
      → let q = run_post_sequence (model clock) cfg fuel x world p in
        (m : ℕ) × (Confirmed cfg world begun m q ⊎ RolledBack cfg world begun q)
  unfolding run_post_sequence begun
  post_ends fuel mask acts live polls enough =
      let w = start-Waiting mask acts live in
      let d = cfg.deadline_ms / 50 + 1 in
      let over =
        drive-ends cfg world begun clock d fuel 0 begun w
          (λ m le. rw start-ms (let h = polls m in omega arith)) (omega arith) in
      let v = drive-Verdict cfg world begun clock fuel 0 begun w in
      (v.0, ended (run_post_sequence (model clock) cfg fuel x world p) v.0 over v.1)

-- A self test that begins with an empty pass mask, in a head that was not restarted, and that
-- sleeps at least 50 ms between ticks, is over after a fiftieth of the deadline and six ticks: the image is
-- confirmed and the five checks had held one after the other, each at a later tick, or the head
-- is restarted with a report of the failed state and the image is not confirmed.
pub post_decides :
    (k : Kernel) (cfg : Config) (x : Sample) (world : ℕ → Sample) (p : Post) (fuel : ℕ)
    → IsKernel k
    → p.pass_mask ≡ 0
    → p.actions ≡ []
    → p.rebooted ≡ false
    → ((n : ℕ) → x.checked_at + 50 * n ≤ (world n).checked_at)
    → cfg.deadline_ms / 50 + 6 ≤ fuel
    → let q = run_post_sequence k cfg fuel x world p in
      let b = start k cfg x p in (m : ℕ) × (Confirmed cfg world b m q ⊎ RolledBack cfg world b q)
unfolding begun
post_decides k cfg x world p fuel h mask acts live polls enough =
    rw (Kernel-eq k h) (post_ends k.uptime cfg x world p fuel mask acts live polls enough)
