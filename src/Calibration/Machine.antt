-- ===== src/Calibration/Machine.antt =====
-- One calibration from request to response, and the thread around it (Firmware/src/calibration.c).
use dive_canhead.Base.{
  ℕ, zero, suc, Bool, true, false, Option, none, some, List, ◌∷◌, ltb, ◌==◌, if◌then◌else◌,
}
use dive_canhead.Zephyr.{Kernel}
use dive_canhead.ExternalFlash.{Backend}
use dive_canhead.CalibrationStore.{
  Memory, CalStore, CalKey, calibration_store_load, calibration_store_save,
}
use dive_canhead.Calibration.{CalFloats}
use dive_canhead.Calibration.Cells.{rejected, failed, is_ok, CalBuild, Readings}
use dive_canhead.Calibration.Methods.{
  CalMethod, CalState, backing_up, validating_request, executing, restoring_on_fail, done,
  failed_state, Act, set_setpoint, all_off, respond, cal_fo2_max, cal_suppress_setpoint_cb,
  cal_restore_fallback_cb, Run, act, by_method,
}

-- `CalRequest_t`
pub record CalRequest : Type 0 where
  pub method : CalMethod
  pub fo2 : ℕ
  pub pressure_mbar : ℕ

-- The guard, the store, and what the thread of the calibration did outside, the last one first
pub record Head (C F : Type 0) : Type 0 where
  pub cal_running : Bool
  pub store : CalStore C F
  pub acts : List Act

abbrev pub loaded_or : {C : Type 0} → C → Option C → C
loaded_or old none = old
loaded_or old (some coeff) = coeff

abbrev pub saved_setpoint : Option ℕ → ℕ
saved_setpoint none = cal_restore_fallback_cb
saved_setpoint (some v) = v

module _ (k : Kernel) (fl : CalFloats) (mem : Memory fl.Float) (e : Backend CalKey)
    (b : CalBuild) where
  abbrev pub CalRun : Type 0
  CalRun = Run fl.Float e.Flash

  abbrev pub save_state : CalState → CalRun → CalRun
  save_state st run = record run { smf = st }

  -- `smf_set_state`, with the entry action of the state that is entered
  unfoldable pub enter : CalState → (CalRun → CalRun) → CalRun → CalRun
  enter st entry run = k.set_state CalState CalRun save_state (λ _. entry) st run

  abbrev pub restore_cell : ℕ → CalRun → CalRun
  restore_cell i run =
      let (rc, st) = calibration_store_save mem e i (run.previous_cals i) run.store in
      record run { store = st; restored = λ j. if j == i then rc == 0 else run.restored j }

  abbrev pub restore_cells : ℕ → ℕ → CalRun → CalRun
  restore_cells zero i run = run
  restore_cells (suc left) i run = restore_cells left (suc i) (restore_cell i run)

  -- `sm->previous_cals[i]` keeps its zero where the load fails.
  abbrev pub back_up_cells : ℕ → ℕ → CalRun → CalRun
  back_up_cells zero i run = run
  back_up_cells (suc left) i run =
      let kept =
        loaded_or (run.previous_cals i) (calibration_store_load mem i run.store.cal_cache) in
      back_up_cells left (suc i)
        (record run { previous_cals = λ j. if j == i then kept else run.previous_cals j })

  -- The entry actions of DONE and FAILED: the response, and `smf_set_terminate`
  unfoldable pub cal_done_entry : CalRun → CalRun
  cal_done_entry run = record (act (respond run.result run.cell_mv) run) { terminate_val = 1 }

  unfoldable pub cal_failed_entry : CalRun → CalRun
  cal_failed_entry run = record (act (respond run.result run.cell_mv) run) { terminate_val = 1 }

  unfoldable pub cal_restoring_on_fail_entry : CalRun → CalRun
  unfolding enter cal_failed_entry
  cal_restoring_on_fail_entry run =
      enter failed_state cal_failed_entry (restore_cells b.cell_count 0 run)

  unfoldable pub cal_executing_entry : Readings fl.Float → CalRun → CalRun
  unfolding enter cal_done_entry cal_restoring_on_fail_entry
  cal_executing_entry r run =
      let (result, run') = by_method fl mem e b run.method r run in
      let settled = record run' { result = result } in
      if is_ok result
      then enter done cal_done_entry settled
      else enter restoring_on_fail cal_restoring_on_fail_entry settled

  unfoldable pub cal_validating_request_entry : Readings fl.Float → CalRun → CalRun
  unfolding enter cal_executing_entry cal_restoring_on_fail_entry
  cal_validating_request_entry r run =
      if ltb cal_fo2_max run.fo2
      then enter restoring_on_fail cal_restoring_on_fail_entry (record run { result = rejected })
      else enter executing (cal_executing_entry r) run

  unfoldable pub cal_backing_up_entry : Readings fl.Float → CalRun → CalRun
  unfolding enter cal_validating_request_entry
  cal_backing_up_entry r run =
      enter validating_request (cal_validating_request_entry r) (back_up_cells b.cell_count 0 run)

  -- The local variable `sm` of run_calibration_sm
  abbrev pub sm_of : CalRequest → CalStore fl.Float e.Flash → List Act → CalRun
  sm_of req st acts = record {
    smf = backing_up;
    terminate_val = 0;
    method = req.method;
    fo2 = req.fo2;
    pressure_mbar = req.pressure_mbar;
    result = failed;
    cell_mv = λ i. 0;
    previous_cals = λ i. fl.of_int 0;
    store = st;
    restored = λ i. false;
    acts = acts;
  }

  -- `smf_run_state` while it returns 0; no state has a run action. `none` if the rounds do not suffice.
  abbrev pub run_until_terminated : ℕ → CalRun → Option CalRun
  run_until_terminated zero run = if run.terminate_val == 0 then none else some run
  run_until_terminated (suc fuel) run =
      let next =
        run_until_terminated fuel (k.run_state CalState CalRun (λ c. c.smf) (λ _ c. c) run) in
      if run.terminate_val == 0 then next else some run

  unfoldable pub run_calibration_sm :
      ℕ → Readings fl.Float → CalRequest → CalStore fl.Float e.Flash → List Act → Option CalRun
  unfolding cal_backing_up_entry
  run_calibration_sm fuel r req st acts = run_until_terminated fuel (
      k.set_initial CalState CalRun save_state (λ _. cal_backing_up_entry r) backing_up
        (sm_of req st acts))

  abbrev pub CalHead : Type 0
  CalHead = Head fl.Float e.Flash

  abbrev pub do_act : Act → CalHead → CalHead
  do_act a h = record h { acts = a ∷ h.acts }

  -- `SOL_DEVICE` is ready.
  abbrev pub calibration_stop_all_solenoids : CalHead → CalHead
  calibration_stop_all_solenoids h = if b.solenoid then do_act all_off h else h

  unfoldable pub calibration_try_acquire : CalHead → Bool × CalHead
  calibration_try_acquire h =
      if h.cal_running
      then (false, h)
      else (true, calibration_stop_all_solenoids (record h { cal_running = true }))

  unfoldable pub calibration_release : CalHead → CalHead
  calibration_release h =
      if h.cal_running then record (calibration_stop_all_solenoids h) { cal_running = false } else h

  -- The setpoint to restore, from what the read of the channel gave, `none` for a failure
  unfoldable pub cal_suppress_setpoint : Option ℕ → CalHead → ℕ × CalHead
  cal_suppress_setpoint channel h =
      (saved_setpoint channel, do_act (set_setpoint cal_suppress_setpoint_cb) h)

  abbrev pub cal_restore_setpoint : ℕ → CalHead → CalHead
  cal_restore_setpoint saved_setpoint h = do_act (set_setpoint saved_setpoint) h

  -- After the machine: the setpoint is restored and the guard released.
  unfoldable pub conclude : ℕ → CalHead → Option CalRun → Option CalHead
  unfolding calibration_release
  conclude baseline h none = none
  conclude baseline h (some run) = some (
      calibration_release
        (cal_restore_setpoint baseline (record h { store = run.store; acts = run.acts })))

  -- The handling of one request by cal_thread_fn; `none` if the machine did not terminate.
  unfoldable pub handle_request :
      ℕ → Option ℕ → Readings fl.Float → CalRequest → CalHead → Option CalHead
  unfolding cal_suppress_setpoint run_calibration_sm conclude
  handle_request fuel channel r req h =
      let (baseline, h') = cal_suppress_setpoint channel h in
      conclude baseline h' (run_calibration_sm fuel r req h'.store h'.acts)
