-- ===== src/Calibration/Outcome.antt =====
-- What a calibration leaves in the store, for each outcome.
use dive_canhead.Base.{
  ℕ, ◌≤◌, ◌<◌, ◌≡◌, refl, sym, ap, subst, ◌∙◌, inl, inr, true, false, true≢false, Option, some,
  List, ltb, either, then_branch, else_branch, arith, Bool-cases,
}
use dive_canhead.Zephyr.{Kernel, IsKernel, model, for_kernel}
use dive_canhead.ExternalFlash.{Backend, IsBackend}
use dive_canhead.CalibrationStore.{Memory, CalStore, CalKey, cell, cell_max_count}
use dive_canhead.CalibrationStore.Held.{IsMemory, Held}
use dive_canhead.Calibration.{CalFloats, CellMsg, cal_compute_target_ppo2}
use dive_canhead.Calibration.Cells.{rejected, is_ok, CalBuild, Readings, cal_compute_coeff}
use dive_canhead.Calibration.Methods.{
  Act, executing, done, restoring_on_fail, validating_request, cal_fo2_max, Run, by_method,
}
use dive_canhead.Calibration.Quiet.{by_method-Calm}
use dive_canhead.Calibration.Machine.{
  CalRequest, enter, restore_cells, back_up_cells, cal_done_entry, cal_failed_entry,
  cal_restoring_on_fail_entry, cal_executing_entry, cal_validating_request_entry,
  cal_backing_up_entry, sm_of, run_calibration_sm,
}
use dive_canhead.Calibration.Episode.{machine_ends}
use dive_canhead.Calibration.Restored.{restore-Held, backed_up, restore-result, back_up-request}
use dive_canhead.Calibration.Accepted.{calibrates_all, by_method-Calibrated}
use dive_canhead.Calibration.Saved.{Calibrated}

module _ (fl : CalFloats) (mem : Memory fl.Float) (round : IsMemory mem) (e : Backend CalKey)
    {value : e.Flash → CalKey → Option (List ℕ)} (doc : IsBackend e value) (b : CalBuild)
    (few : b.cell_count ≤ cell_max_count) where
  abbrev CalRun : Type 0
  CalRun = Run fl.Float e.Flash

  abbrev Stored : ℕ → fl.Float → CalStore fl.Float e.Flash → Type 0
  Stored i c st = Held mem round e doc i c st

  -- What the outcome of a run means: after a failure each cell that is reported as restored holds `old`,
  -- and after a success of a method that calibrates all cells each was calibrated.
  pub record Concludes (old : ℕ → fl.Float) (req : CalRequest) (r : Readings fl.Float)
      (run : CalRun) : Type 0 where
    pub restores :
        (i : ℕ)
        → i < b.cell_count
        → is_ok run.result ≡ false
        → run.restored i ≡ true
        → Stored i (old i) run.store
    pub sets :
        (i : ℕ)
        → i < b.cell_count
        → is_ok run.result ≡ true
        → calibrates_all req.method ≡ true
        → (target : ℕ) × (cal_compute_target_ppo2 req.fo2 req.pressure_mbar ≡ some target)
          × Calibrated fl mem round e doc b r target i run.store

  module _ (clock : ℕ → ℕ) where
    abbrev k : Kernel
    k = model clock

    restoring-Concludes :
        (old : ℕ → fl.Float) (req : CalRequest) (r : Readings fl.Float) (run : CalRun)
        → ((i : ℕ) → i < b.cell_count → run.previous_cals i ≡ old i)
        → is_ok run.result ≡ false
        → Concludes old req r (cal_restoring_on_fail_entry k fl mem e b run)
    unfolding cal_restoring_on_fail_entry cal_failed_entry enter
    restoring-Concludes old req r run same bad = record {
      restores = λ i here _ reported.
          subst (λ c. Stored i c (restore_cells k fl mem e b b.cell_count 0 run).store)
            (same i here)
            (restore-Held fl mem round e doc b clock b.cell_count 0 i run (omega arith)
              (omega arith) (omega (arith, few)) reported);
      sets = λ i here good _. absurd (
          true≢false (
            sym good
            ∙ ap is_ok (restore-result fl mem round e doc b clock b.cell_count 0 run)
            ∙ bad));
    }

    module _ (old : ℕ → fl.Float) (req : CalRequest) (r : Readings fl.Float) where
      -- The machine has the request as it came, and the backup.
      record Started (run : CalRun) : Type 0 where
        same_method : run.method ≡ req.method
        same_fo2 : run.fo2 ≡ req.fo2
        same_pressure : run.pressure_mbar ≡ req.pressure_mbar
        backed : (i : ℕ) → i < b.cell_count → run.previous_cals i ≡ old i

      executing-Concludes :
          (run : CalRun)
          → Started run
          → Concludes old req r (cal_executing_entry k fl mem e b r run)
      unfolding cal_executing_entry enter cal_done_entry
      executing-Concludes run st =
          let (result, run') = by_method fl mem e b run.method r run in
          let good : CalRun = record run' { result = result; smf = done } in
          let bad : CalRun = record run' { result = result; smf = restoring_on_fail } in
          let ended = cal_done_entry k fl mem e b good in
          let restored = cal_restoring_on_fail_entry k fl mem e b bad in
          let previous = (by_method-Calm fl mem e b run.method r run).calm.same_previous in
          elim (Bool-cases (is_ok result)) [
            | inl fine ↦
                then_branch (Concludes old req r) (is_ok result) ended restored fine (record {
                  restores = λ i here failure _. absurd (true≢false (sym fine ∙ failure));
                  sets = λ i here _ all.
                      let (target, found, calibrated) =
                        by_method-Calibrated fl mem round e doc b few run.method r run i here
                          (ap calibrates_all st.same_method ∙ all) fine in
                      (
                        target,
                        ap (λ v. cal_compute_target_ppo2 v req.pressure_mbar) (sym st.same_fo2)
                            ∙ ap (cal_compute_target_ppo2 run.fo2) (sym st.same_pressure)
                            ∙ found,
                        calibrated,
                      );
                })
            | inr wrong ↦ else_branch (Concludes old req r) (is_ok result) ended restored wrong (
                restoring-Concludes old req r bad
                  (λ i here. ap (λ p. p i) previous ∙ st.backed i here) wrong)
          ]

      validating-Concludes :
          (run : CalRun)
          → Started run
          → Concludes old req r (cal_validating_request_entry k fl mem e b r run)
      unfolding cal_validating_request_entry enter
      validating-Concludes run st =
          let bad : CalRun = record run { result = rejected; smf = restoring_on_fail } in
          let good : CalRun = record run { smf = executing } in
          either (Concludes old req r) (ltb cal_fo2_max run.fo2)
            (cal_restoring_on_fail_entry k fl mem e b bad) (cal_executing_entry k fl mem e b r good)
            (restoring-Concludes old req r bad st.backed refl)
            (executing-Concludes good (record {
              same_method = st.same_method;
              same_fo2 = st.same_fo2;
              same_pressure = st.same_pressure;
              backed = st.backed;
            }))

    machine-Concludes :
        (r : Readings fl.Float) (req : CalRequest) (st : CalStore fl.Float e.Flash)
        (acts : List Act)
        → Concludes st.cal_cache req r
            (cal_backing_up_entry k fl mem e b r (sm_of k fl mem e b req st acts))
    unfolding cal_backing_up_entry enter
    machine-Concludes r req st acts =
        let start = sm_of k fl mem e b req st acts in
        let saved = back_up_cells k fl mem e b b.cell_count 0 start in
        let next : CalRun = record saved { smf = validating_request } in
        let (method, fo2, pressure) =
          back_up-request fl mem round e doc b clock b.cell_count 0 start in
        validating-Concludes st.cal_cache req r next (record {
          same_method = method;
          same_fo2 = fo2;
          same_pressure = pressure;
          backed = λ i here.
              backed_up fl mem round e doc b clock b.cell_count 0 i start (omega (arith, few))
                (omega arith) (λ none_before. absurd (omega arith));
        })

  run-Concludes :
      (k : Kernel)
      → IsKernel k
      → (fuel : ℕ) (r : Readings fl.Float) (req : CalRequest) (st : CalStore fl.Float e.Flash)
      → (acts : List Act) (run : CalRun)
      → run_calibration_sm k fl mem e b fuel r req st acts ≡ some run
      → Concludes st.cal_cache req r run
  run-Concludes k kernel fuel r req st acts =
      for_kernel
        (λ k.
          (run : CalRun)
          → run_calibration_sm k fl mem e b fuel r req st acts ≡ some run
          → Concludes st.cal_cache req r run)
        (λ clock _ run eq.
          let ends = machine_ends fl mem e b clock fuel r req st acts in
          let same : cal_backing_up_entry (model clock) fl mem e b r
                (sm_of (model clock) fl mem e b req st acts)
              ≡ run =
            cc (ends, eq) in
          subst (Concludes st.cal_cache req r) same (machine-Concludes clock r req st acts))
        k kernel

  -- A calibration that ends in any other result than success leaves each cell that it reports as restored
  -- with the coefficient of before, in the flash and in the cache, whatever was written meanwhile. The
  -- flash behaves as documented.
  pub failed_calibration_restores :
      (k : Kernel)
      → IsKernel k
      → (fuel : ℕ) (r : Readings fl.Float) (req : CalRequest) (st : CalStore fl.Float e.Flash)
      → (acts : List Act) (run : CalRun) (i : ℕ)
      → run_calibration_sm k fl mem e b fuel r req st acts ≡ some run
      → is_ok run.result ≡ false
      → i < b.cell_count
      → run.restored i ≡ true
      → (value run.store.flash (cell i) ≡ some (mem.encode (st.cal_cache i)))
        × (run.store.cal_cache i ≡ st.cal_cache i)
  failed_calibration_restores k kernel fuel r req st acts run i eq bad here reported =
      let h = (run-Concludes k kernel fuel r req st acts run eq).restores i here bad reported in
      (h.in_flash, h.in_cache)

  -- A calibration of every cell against the gas of the request (analog absolute, total absolute or
  -- solenoid flush) that ends in success has read each cell and computed a coefficient for the target
  -- that is not negative, and that coefficient is in the flash and in the cache. The flash behaves
  -- as documented.
  pub successful_calibration_stores :
      (k : Kernel)
      → IsKernel k
      → (fuel : ℕ) (r : Readings fl.Float) (req : CalRequest) (st : CalStore fl.Float e.Flash)
      → (acts : List Act) (run : CalRun) (i : ℕ)
      → run_calibration_sm k fl mem e b fuel r req st acts ≡ some run
      → is_ok run.result ≡ true
      → calibrates_all req.method ≡ true
      → i < b.cell_count
      → (target : ℕ) × (msg : CellMsg fl.Float) × (cal_compute_target_ppo2 req.fo2 req.pressure_mbar
          ≡ some target)
        × (r.cell_msg i ≡ some msg)
        × (let coeff = cal_compute_coeff fl (b.cell_type i) target msg in
            (fl.below coeff (fl.of_int 0) ≡ false)
            × (value run.store.flash (cell i) ≡ some (mem.encode coeff))
            × (run.store.cal_cache i ≡ coeff))
  successful_calibration_stores k kernel fuel r req st acts run i eq good all here =
      let (target, found, c) =
        (run-Concludes k kernel fuel r req st acts run eq).sets i here good all in
      (target, c.msg, found, c.was_read, (c.accepted, c.held.in_flash, c.held.in_cache))
