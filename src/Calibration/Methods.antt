-- ===== src/Calibration/Methods.antt =====
-- The methods of a calibration (Firmware/src/calibration.c).
use dive_canhead.Base.{
  ℕ, zero, suc, ◌/◌, Bool, true, false, not, ◌&&◌, ◌||◌, Option, none, some, List, ◌∷◌, leb, ltb,
  ◌==◌, if◌then◌else◌,
}
use dive_canhead.ExternalFlash.{Backend}
use dive_canhead.FirmwareConfirm.{cell_ok, CellStatus, cell_degraded, cell_fail, cell_need_cal}
use dive_canhead.CalibrationStore.{Memory, CalStore, CalKey}
use dive_canhead.Calibration.{
  CalFloats, CellType, analog, diveo2, o2s, CellMsg, cal_compute_target_ppo2,
}
use dive_canhead.Calibration.Cells.{
  CalResult, ok, rejected, is_ok, CalBuild, Readings, calibrate_cell,
}

-- `CalMethod_t`, and any other value
pub data CalMethod : Type 0 where
  digital_reference analog_absolute total_absolute solenoid_flush check other : CalMethod

pub data CalState : Type 0 where
  backing_up validating_request executing restoring_on_fail done failed_state : CalState

-- What the thread does outside of its own state
pub data Act : Type 0 where
  sleep set_setpoint : ℕ → Act
  fire_o2_flush fire_o2_inject fire_dil_flush all_off : Act
  respond : CalResult → (ℕ → ℕ) → Act

-- CAL_FO2_MAX, CAL_FLUSH_SECONDS, CHECK_FLUSH_SECONDS, CAL_FLUSH_MS and CAL_SETTLE_MS
abbrev pub cal_fo2_max : ℕ
cal_fo2_max = 100

abbrev pub cal_flush_seconds : ℕ
cal_flush_seconds = 25

abbrev pub check_flush_seconds : ℕ
check_flush_seconds = 10

abbrev pub cal_flush_ms : ℕ
cal_flush_ms = 1000

abbrev pub cal_settle_ms : ℕ
cal_settle_ms = 4000

-- CAL_SUPPRESS_SETPOINT_CB and CAL_RESTORE_FALLBACK_CB
abbrev pub cal_suppress_setpoint_cb : ℕ
cal_suppress_setpoint_cb = 19

abbrev pub cal_restore_fallback_cb : ℕ
cal_restore_fallback_cb = 70

-- `CalSmCtx_t` with `CalRequest_t` and `CalResponse_t`, the stored coefficients, the cells that were
-- reported as restored, and what was done outside, the last one first
pub record Run (C F : Type 0) : Type 0 where
  pub smf : CalState
  pub terminate_val : ℕ
  pub method : CalMethod
  pub fo2 : ℕ
  pub pressure_mbar : ℕ
  pub result : CalResult
  pub cell_mv : ℕ → ℕ
  pub previous_cals : ℕ → C
  pub store : CalStore C F
  pub restored : ℕ → Bool
  pub acts : List Act

abbrev pub act : {C F : Type 0} → Act → Run C F → Run C F
act a run = record run { acts = a ∷ run.acts }

abbrev pub fire : {C F : Type 0} → Option Act → Run C F → Run C F
fire none run = run
fire (some a) run = act a run

-- A burst of one second, for so many seconds
abbrev pub bursts : {C F : Type 0} → Option Act → ℕ → Run C F → Run C F
bursts valve zero run = run
bursts valve (suc n) run = bursts valve n (act (sleep cal_flush_ms) (fire valve run))

abbrev pub is_diveo2 : CellType → Bool
is_diveo2 diveo2 = true
is_diveo2 analog = false
is_diveo2 o2s = false

-- The first DiveO2 cell, by the preprocessor
abbrev pub reference_cell : CalBuild → Option ℕ
reference_cell b =
    if is_diveo2 (b.cell_type 0)
    then some 0
    else if leb 2 b.cell_count && is_diveo2 (b.cell_type 1)
    then some 1
    else if leb 3 b.cell_count && is_diveo2 (b.cell_type 2)
    then some 2
    else none

abbrev pub is_analog : CellType → Bool
is_analog analog = true
is_analog diveo2 = false
is_analog o2s = false

abbrev pub is_healthy : CellStatus → Bool
is_healthy cell_ok = true
is_healthy cell_degraded = false
is_healthy cell_fail = false
is_healthy cell_need_cal = false

abbrev pub worse : CalResult → CalResult → CalResult
worse result cell_result = if is_ok cell_result then result else cell_result

abbrev pub every_type : CellType → Bool
every_type type = true

-- The solenoid of the flush, by the preprocessor
abbrev pub flush_valve : CalBuild → Option Act
flush_valve b =
    if b.has_flush_solenoid
    then some fire_o2_flush
    else if b.has_o2_solenoid
    then some fire_o2_inject
    else none

module _ (fl : CalFloats) (mem : Memory fl.Float) (e : Backend CalKey) (b : CalBuild) where
  abbrev pub CalRun : Type 0
  CalRun = Run fl.Float e.Flash

  -- `calibrate_cell` with `resp->cell_mv[i]` for its output
  unfoldable pub calibrate_into : Readings fl.Float → ℕ → ℕ → CalRun → CalResult × CalRun
  unfolding calibrate_cell
  calibrate_into r i target_ppo2 run =
      let (result, mv, st) = calibrate_cell fl mem e b r i target_ppo2 run.store in
      (result, record run { store = st; cell_mv = λ j. if j == i then mv else run.cell_mv j })

  -- The loop over the cells from `i` on, `left` of them, that calibrates those of the given types
  abbrev pub calibrate_cells :
      (CellType → Bool) → Readings fl.Float → ℕ → ℕ → ℕ → CalResult → CalRun → CalResult × CalRun
  calibrate_cells takes r target_ppo2 zero i result run = (result, run)
  calibrate_cells takes r target_ppo2 (suc left) i result run =
      let (cell_result, run') = calibrate_into r i target_ppo2 run in
      let skip = not (takes (b.cell_type i)) in
      calibrate_cells takes r target_ppo2 left (suc i)
        (if skip then result else worse result cell_result) (if skip then run else run')

  -- After the reference was found to be valid
  abbrev pub against_reference :
      Readings fl.Float → CellMsg fl.Float → ℕ → CalRun → CalResult × CalRun
  against_reference r ref_data pressure_mbar run =
      let (result, run') = calibrate_cells is_analog r ref_data.ppo2 b.cell_count 0 ok run in
      (
        result,
        record run' {
          pressure_mbar = pressure_mbar;
          fo2 = fl.to_u8 (
              fl.roundf (
                fl.times (fl.of_int ref_data.ppo2)
                  (fl.over (fl.of_int 1000) (fl.of_int pressure_mbar))));
        },
      )

  abbrev pub check_pressure :
      Readings fl.Float → CellMsg fl.Float → Option ℕ → CalRun → CalResult × CalRun
  check_pressure r ref_data none run = (rejected, run)
  check_pressure r ref_data (some ubar) run =
      if leb (ubar / 1000) 0 || ltb 0xFFFF (ubar / 1000)
      then (rejected, run)
      else against_reference r ref_data (ubar / 1000) run

  abbrev pub check_reference :
      Readings fl.Float → Option (CellMsg fl.Float) → CalRun → CalResult × CalRun
  check_reference r none run = (rejected, run)
  check_reference r (some ref_data) run =
      if not (is_healthy ref_data.status)
      then (rejected, run)
      else check_pressure r ref_data ref_data.ambient_pressure_ubar run

  abbrev pub read_reference : Option ℕ → Readings fl.Float → Option (CellMsg fl.Float)
  read_reference none r = none
  read_reference (some _) r = r.reference

  unfoldable pub cal_digital_reference : Readings fl.Float → CalRun → CalResult × CalRun
  unfolding calibrate_into
  cal_digital_reference r run = check_reference r (read_reference (reference_cell b) r) run

  -- The loop over every cell, where the target could be computed
  abbrev pub calibrate_every : Readings fl.Float → Option ℕ → CalRun → CalResult × CalRun
  calibrate_every r none run = (rejected, run)
  calibrate_every r (some target) run = calibrate_cells every_type r target b.cell_count 0 ok run

  unfoldable pub cal_analog_absolute : Readings fl.Float → CalRun → CalResult × CalRun
  cal_analog_absolute r run =
      calibrate_every r (cal_compute_target_ppo2 run.fo2 run.pressure_mbar) run

  unfoldable pub cal_total_absolute : Readings fl.Float → CalRun → CalResult × CalRun
  cal_total_absolute r run =
      calibrate_every r (cal_compute_target_ppo2 run.fo2 run.pressure_mbar) run

  unfoldable pub cal_solenoid_flush : Readings fl.Float → CalRun → CalResult × CalRun
  unfolding cal_total_absolute
  cal_solenoid_flush r run = cal_total_absolute r (bursts (flush_valve b) cal_flush_seconds run)

  abbrev pub cal_check : CalRun → CalResult × CalRun
  cal_check run = (
    ok,
    bursts (some fire_dil_flush) check_flush_seconds
        (bursts (some fire_o2_flush) check_flush_seconds run),
  )

  -- The `switch` over the method
  abbrev pub by_method : CalMethod → Readings fl.Float → CalRun → CalResult × CalRun
  by_method digital_reference r run = cal_digital_reference r (act (sleep cal_settle_ms) run)
  by_method analog_absolute r run = cal_analog_absolute r (act (sleep cal_settle_ms) run)
  by_method total_absolute r run = cal_total_absolute r (act (sleep cal_settle_ms) run)
  by_method solenoid_flush r run = cal_solenoid_flush r run
  by_method check r run =
      if b.has_flush_solenoid && b.has_dil_flush_solenoid then cal_check run else (rejected, run)
  by_method other r run = (rejected, run)
