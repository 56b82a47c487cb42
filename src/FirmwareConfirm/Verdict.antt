-- ===== src/FirmwareConfirm/Verdict.antt =====
-- What the self test can come to: it goes on, it confirms the image after every check, or it
-- restarts the head and leaves the image unconfirmed.
use dive_canhead.Base.{
  ℕ, zero, suc, ◌≤◌, ◌<◌, ◌≡◌, refl, sym, [], ◌∷◌, Bool, true, false, ◌⊎◌, inl, inr, Bool-cases,
  if◌then◌else◌, arith, subst,
}
use dive_canhead.Zephyr.{model}
use dive_canhead.FirmwareConfirm.{
  init, PostState, waiting_cells, waiting_consensus, waiting_ppo2_tx, waiting_handset,
  waiting_solenoid, confirmed, failed_timeout, failed_cell, failed_consensus, failed_no_ppo2_tx,
  failed_no_handset, failed_solenoid, state_code, Config, Sample, confirm_image, post_fail, reboot,
  Post, store, mark_check_passed, all_cells_alive, consensus_is_alive, solenoid_is_alive, ppo2_sent,
  handset_heard, abort_and_reboot, after_confirm, entry, enter_waiting_state, confirmed_entry,
  overall_deadline_exceeded, state_budget_exceeded, is_over, check, set_state, run, run_cells,
  run_consensus, run_ppo2_tx, run_handset, run_solenoid, tick, drive,
}

-- At a tick before the n-th `P` held, and `Q` says what had held before that tick.
abbrev pub Earlier : (ℕ → Type 0) → (ℕ → Type 0) → ℕ → Type 0
Earlier P Q n = (i : ℕ) × (i < n) × P i × Q i

Earlier-suc : (P Q : ℕ → Type 0) (n : ℕ) → Earlier P Q n → Earlier P Q (suc n)
Earlier-suc P Q n (i, lt, h, h2) = (i, omega arith, h, h2)

-- The two branches at the end of a round of the driver loop.
pub goes_on :
    (P : Post → Type 0) (q rest : Post)
    → is_over q ≡ false
    → P rest
    → P (if is_over q then q else rest)
goes_on P q rest e h = rw e h

pub stops :
    (P : Post → Type 0) (q rest : Post) → is_over q ≡ true → P q → P (if is_over q then q else rest)
stops P q rest e h = rw e h

-- `POST_PASS_BIT_CELLS` and the others, as far as a state has come
unfoldable pub mask_of : PostState → ℕ
mask_of waiting_consensus = 1
mask_of waiting_ppo2_tx = 3
mask_of waiting_handset = 7
mask_of waiting_solenoid = 15
mask_of confirmed = 31
mask_of _ = 0

module _ (cfg : Config) (world : ℕ → Sample) (b : Post) where
  abbrev pub CellsPassed : ℕ → Type 0
  CellsPassed n = Earlier (λ i. all_cells_alive cfg (world i) ≡ true) (λ i. Unit) n

  abbrev pub ConsensusPassed : ℕ → Type 0
  ConsensusPassed n = Earlier (λ i. consensus_is_alive (world i) ≡ true) CellsPassed n

  abbrev pub PpO2Passed : ℕ → Type 0
  PpO2Passed n = Earlier (λ i. ppo2_sent (world i) b ≡ true) ConsensusPassed n

  abbrev pub HandsetPassed : ℕ → Type 0
  HandsetPassed n = Earlier (λ i. handset_heard (world i) b ≡ true) PpO2Passed n

  -- The five checks held one after the other, each at a later tick than the one before.
  abbrev pub AllPassed : ℕ → Type 0
  AllPassed n = Earlier (λ i. solenoid_is_alive cfg (world i) ≡ true) HandsetPassed n

  unfoldable pub Passed : PostState → ℕ → Type 0
  Passed waiting_cells n = Unit
  Passed waiting_consensus n = CellsPassed n
  Passed waiting_ppo2_tx n = ConsensusPassed n
  Passed waiting_handset n = PpO2Passed n
  Passed waiting_solenoid n = HandsetPassed n
  Passed confirmed n = AllPassed n
  Passed _ n = Unit

  -- The machine stands in a state, with nothing done yet.
  abbrev pub Going : PostState → ℕ → Post → Type 0
  Going s n p =
      (p.smf ≡ s)
      × (p.pass_mask ≡ mask_of s)
      × (p.post_state ≡ s)
      × (p.actions ≡ [])
      × (p.terminate_val ≡ 0)
      × (p.rebooted ≡ false)
      × (p.start_ms ≡ b.start_ms)
      × (p.tx_baseline ≡ b.tx_baseline)
      × (p.rx_baseline ≡ b.rx_baseline)
      × Passed s n

  abbrev pub IsWaiting : PostState → Type 0
  IsWaiting s = (1 ≤ state_code s) × (state_code s ≤ 5)

  abbrev pub Waiting : ℕ → Post → Type 0
  Waiting n p = (s : PostState) × IsWaiting s × Going s n p

  -- The image is confirmed.
  abbrev pub Confirmed : ℕ → Post → Type 0
  Confirmed n p =
      (p.post_state ≡ confirmed)
      × (p.pass_mask ≡ 31)
      × (p.actions ≡ confirm_image ∷ after_confirm cfg)
      × (p.terminate_val ≡ 1)
      × (p.rebooted ≡ false)
      × AllPassed n

  -- The head is restarted, and the image is not confirmed.
  abbrev pub RolledBack : Post → Type 0
  RolledBack p =
      (s : PostState) × (6 < state_code s)
      × (p.post_state ≡ s)
      × (p.actions ≡ post_fail (state_code s) ∷ reboot ∷ [])
      × (p.rebooted ≡ true)

  abbrev pub Verdict : ℕ → Post → Type 0
  Verdict n p = Waiting n p ⊎ Confirmed n p ⊎ RolledBack p

  module _ (clock : ℕ → ℕ) where
    -- A failing check.
    aborts :
        (x : Sample) (s failed : PostState) (n : ℕ) (p : Post)
        → Going s n p
        → 6 < state_code failed
        → (q : Post) → q ≡ abort_and_reboot failed (store failed p)
        → RolledBack q
    unfolding abort_and_reboot
    aborts x s failed n p g big q e = (failed, big, rw e, rw (e, g.3), rw e)

    check-Verdict :
        (x : Sample) (s next failed : PostState) (passed : Bool) (bit budget n : ℕ) (p : Post)
        → IsWaiting s
        → Going s n p
        → 6 < state_code failed
        → entry cfg x failed (store failed p) ≡ abort_and_reboot failed (store failed p)
        → (Passed s n → Passed s (suc n))
        → (passed ≡ true
            → Verdict (suc n) (entry cfg x next (store next (mark_check_passed bit next p))))
        → Verdict (suc n) (check (model clock) cfg x passed bit next budget failed p)
    unfolding check set_state
    check-Verdict x s next failed passed bit budget n p w g big enters later good =
        elim (Bool-cases passed) [
          | inl e ↦ rw e (good e)
          | inr e ↦ elim (Bool-cases (overall_deadline_exceeded cfg x p)) [
            | inl late ↦
                rw (e, late) (inr (inr (aborts x s failed_timeout n p g (omega arith) _ refl)))
            | inr soon ↦ elim (Bool-cases (state_budget_exceeded x budget p)) [
              | inl over ↦ rw (e, soon, over) (inr (inr (aborts x s failed n p g big _ enters)))
              | inr under ↦
                  rw (e, soon, under)
                    (inl (s, w, (g.0, g.1, g.2, g.3, g.4, g.5, g.6, g.7, g.8, later g.9)))
            ]
          ]
        ]

    -- One tick in each of the waiting states.
    cells-Verdict :
        (n : ℕ) (p : Post)
        → Going waiting_cells n p
        → Verdict (suc n) (run_cells (model clock) cfg (world n) p)
    unfolding run_cells entry enter_waiting_state mark_check_passed mask_of Passed
    cells-Verdict n p g =
        check-Verdict (world n) waiting_cells waiting_consensus failed_cell _ 0 cfg.cell_timeout_ms
          n p (omega arith, omega arith) g (omega arith) refl (λ h. tt)
          (λ e. inl (
            waiting_consensus,
            (omega arith, omega arith),
            (refl, rw g.1, refl, g.3, g.4, g.5, g.6, g.7, g.8, (n, omega arith, e, tt)),
          ))

    consensus-Verdict :
        (n : ℕ) (p : Post)
        → Going waiting_consensus n p
        → Verdict (suc n) (run_consensus (model clock) cfg (world n) p)
    unfolding run_consensus entry enter_waiting_state mark_check_passed mask_of Passed
    consensus-Verdict n p g =
        check-Verdict (world n) waiting_consensus waiting_ppo2_tx failed_consensus _ 1
          cfg.consensus_timeout_ms n p (omega arith, omega arith) g (omega arith) refl
          (Earlier-suc _ _ n)
          (λ e. inl (
            waiting_ppo2_tx,
            (omega arith, omega arith),
            (refl, rw g.1, refl, g.3, g.4, g.5, g.6, g.7, g.8, (n, omega arith, e, g.9)),
          ))

    ppo2_tx-Verdict :
        (n : ℕ) (p : Post)
        → Going waiting_ppo2_tx n p
        → Verdict (suc n) (run_ppo2_tx (model clock) cfg (world n) p)
    unfolding run_ppo2_tx entry enter_waiting_state mark_check_passed mask_of Passed ppo2_sent
    ppo2_tx-Verdict n p g =
        check-Verdict (world n) waiting_ppo2_tx waiting_handset failed_no_ppo2_tx _ 2
          cfg.ppo2_tx_timeout_ms n p (omega arith, omega arith) g (omega arith) refl
          (Earlier-suc _ _ n)
          (λ e. inl (
            waiting_handset,
            (omega arith, omega arith),
            (
              refl,
              rw g.1,
              refl,
              g.3,
              g.4,
              g.5,
              g.6,
              g.7,
              g.8,
              (n, omega arith, rw (sym g.7) e, g.9),
            ),
          ))

    handset-Verdict :
        (n : ℕ) (p : Post)
        → Going waiting_handset n p
        → Verdict (suc n) (run_handset (model clock) cfg (world n) p)
    unfolding run_handset entry enter_waiting_state mark_check_passed mask_of Passed handset_heard
    handset-Verdict n p g =
        check-Verdict (world n) waiting_handset waiting_solenoid failed_no_handset _ 3
          cfg.handset_timeout_ms n p (omega arith, omega arith) g (omega arith) refl
          (Earlier-suc _ _ n)
          (λ e. inl (
            waiting_solenoid,
            (omega arith, omega arith),
            (
              refl,
              rw g.1,
              refl,
              g.3,
              g.4,
              g.5,
              g.6,
              g.7,
              g.8,
              (n, omega arith, rw (sym g.8) e, g.9),
            ),
          ))

    solenoid-Verdict :
        (n : ℕ) (p : Post)
        → Going waiting_solenoid n p
        → Verdict (suc n) (run_solenoid (model clock) cfg (world n) p)
    unfolding run_solenoid entry confirmed_entry mark_check_passed mask_of Passed
    solenoid-Verdict n p g =
        check-Verdict (world n) waiting_solenoid confirmed failed_solenoid _ 4 cfg.sol_timeout_ms n
          p (omega arith, omega arith) g (omega arith) refl (Earlier-suc _ _ n)
          (λ e. inr (inl (refl, rw g.1, rw g.3, refl, g.5, (n, omega arith, e, g.9))))

    run-Verdict :
        (s : PostState) (n : ℕ) (p : Post)
        → IsWaiting s
        → Going s n p
        → Verdict (suc n) (run (model clock) cfg (world n) s p)
    unfolding run state_code
    run-Verdict waiting_cells n p w g = cells-Verdict n p g
    run-Verdict waiting_consensus n p w g = consensus-Verdict n p g
    run-Verdict waiting_ppo2_tx n p w g = ppo2_tx-Verdict n p g
    run-Verdict waiting_handset n p w g = handset-Verdict n p g
    run-Verdict waiting_solenoid n p w g = solenoid-Verdict n p g
    run-Verdict init n p w g = absurd (omega arith)
    run-Verdict confirmed n p w g = absurd (omega arith)
    run-Verdict failed_timeout n p w g = absurd (omega arith)
    run-Verdict failed_cell n p w g = absurd (omega arith)
    run-Verdict failed_consensus n p w g = absurd (omega arith)
    run-Verdict failed_no_ppo2_tx n p w g = absurd (omega arith)
    run-Verdict failed_no_handset n p w g = absurd (omega arith)
    run-Verdict failed_solenoid n p w g = absurd (omega arith)

    pub tick-Verdict :
        (n : ℕ) (p : Post) → Waiting n p → Verdict (suc n) (tick (model clock) cfg (world n) p)
    unfolding tick
    tick-Verdict n p (s, w, g) =
        subst (λ st. Verdict (suc n) (run (model clock) cfg (world n) st p)) (sym g.0)
          (run-Verdict s n p w g)

    -- The loop, from a waiting machine.
    pub drive-Verdict :
        (fuel n : ℕ) (p : Post)
        → Waiting n p
        → (m : ℕ) × Verdict m (drive (model clock) cfg fuel world n p)
    unfolding drive
    drive-Verdict zero n p w = (n, inl w)
    drive-Verdict (suc fuel) n p w =
        let p' = tick (model clock) cfg (world n) p in
        let rest = drive (model clock) cfg fuel world (suc n) p' in
        let P : Post → Type 0 = λ q. (m : ℕ) × Verdict m q in
        elim (tick-Verdict n p w) [
          | inl v ↦ goes_on P p' rest (rw (v.2.5, v.2.4)) (drive-Verdict fuel (suc n) p' v)
          | inr (inl v) ↦ stops P p' rest (rw (v.4, v.3)) (suc n, inr (inl v))
          | inr (inr v) ↦ stops P p' rest (rw v.4) (suc n, inr (inr v))
        ]
