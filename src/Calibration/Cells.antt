-- ===== src/Calibration/Cells.antt =====
-- The calibration of one cell: reading it, computing its coefficient, saving and checking it
-- (Firmware/src/calibration.c).
use dive_canhead.Base.{ℕ, ◌/◌, Bool, true, false, not, Option, none, some, ltb, ◌==◌, if◌then◌else◌}
use dive_canhead.ExternalFlash.{Backend}
use dive_canhead.CalibrationStore.{
  Memory, CalStore, CalKey, calibration_store_load, calibration_store_save,
}
use dive_canhead.Calibration.{
  CalFloats, CellType, analog, diveo2, o2s, CellMsg, analog_cal_coefficient, diveo2_cal_coefficient,
  o2s_cal_coefficient,
}

-- `CalResult_t`, as far as the calibration produces it
pub data CalResult : Type 0 where
  ok rejected out_of_range failed : CalResult

abbrev pub is_ok : CalResult → Bool
is_ok ok = true
is_ok _ = false

-- The configuration: the cells, and the solenoids that the head has
pub record CalBuild : Type 0 where
  pub cell_count : ℕ
  pub cell_type : ℕ → CellType
  pub solenoid : Bool
  pub has_flush_solenoid : Bool
  pub has_o2_solenoid : Bool
  pub has_dil_flush_solenoid : Bool

-- What the channels of the cells give when the run reads them: `none` for a failed `zbus_chan_read`.
pub record Readings (F : Type 0) : Type 0 where
  pub cell_msg : ℕ → Option (CellMsg F)
  pub reference : Option (CellMsg F)

-- MILLIVOLTS_SCALE_DIVISOR
abbrev pub millivolts_scale_divisor : ℕ
millivolts_scale_divisor = 100

module _ (fl : CalFloats) where
  -- `cal_compute_coeff_cell_1` to `_3`, for the type of the cell
  abbrev pub cal_compute_coeff : CellType → ℕ → CellMsg fl.Float → fl.Float
  cal_compute_coeff analog target_ppo2 msg =
      let approx_counts =
        fl.abs_int16 (fl.roundf (fl.over (fl.of_int msg.millivolts) fl.counts_to_millis)) in
      analog_cal_coefficient fl approx_counts target_ppo2
  cal_compute_coeff diveo2 target_ppo2 msg =
      let approx_sample = fl.of_int32 (fl.times msg.precision_ppo2 fl.diveo2_cal_default) in
      diveo2_cal_coefficient fl approx_sample target_ppo2
  cal_compute_coeff o2s target_ppo2 msg =
      let approx_sample = fl.over msg.precision_ppo2 fl.o2s_cal_default in
      o2s_cal_coefficient fl approx_sample target_ppo2

  -- What `*mv_out` is set to: digital cells leave the zero.
  abbrev pub mv_out : CellType → CellMsg fl.Float → ℕ
  mv_out analog msg = msg.millivolts / millivolts_scale_divisor
  mv_out diveo2 msg = 0
  mv_out o2s msg = 0

  abbrev pub coefficient_of : CellType → ℕ → Option (CellMsg fl.Float) → Option (fl.Float × ℕ)
  coefficient_of type target_ppo2 none = none
  coefficient_of type target_ppo2 (some msg) =
      some (cal_compute_coeff type target_ppo2 msg, mv_out type msg)

  -- `none` for a failure, else the coefficient and the millivolts
  abbrev pub cal_read_coefficient : CalBuild → Readings fl.Float → ℕ → ℕ → Option (fl.Float × ℕ)
  cal_read_coefficient b r cell_num target_ppo2 =
      if ltb cell_num b.cell_count
      then coefficient_of (b.cell_type cell_num) target_ppo2 (r.cell_msg cell_num)
      else none

  abbrev pub cal_classify_coeff_error : fl.Float → CalResult
  cal_classify_coeff_error coeff =
      if fl.at_most coeff fl.cal_coeff_err_range_threshold then out_of_range else failed

  abbrev pub readback_result : fl.Float → Option fl.Float → CalResult
  readback_result new_coeff none = failed
  readback_result new_coeff (some readback) =
      if fl.below fl.readback_tolerance (fl.fabsf (fl.minus readback new_coeff)) then failed else ok

  module _ (mem : Memory fl.Float) (e : Backend CalKey) where
    unfoldable pub cal_validate_and_save :
        ℕ → fl.Float → CalStore fl.Float e.Flash → CalResult × CalStore fl.Float e.Flash
    cal_validate_and_save cell_num new_coeff st =
        let (save_err, st') = calibration_store_save mem e cell_num new_coeff st in
        let readback = calibration_store_load mem cell_num st'.cal_cache in
        if fl.below new_coeff (fl.of_int 0)
        then (cal_classify_coeff_error new_coeff, st)
        else if not (save_err == 0)
        then (failed, st')
        else (readback_result new_coeff readback, st')

    abbrev pub save_read :
        ℕ
        → Option (fl.Float × ℕ)
        → CalStore fl.Float e.Flash
        → CalResult × ℕ × CalStore fl.Float e.Flash
    save_read cell_num none st = (failed, 0, st)
    save_read cell_num (some found) st =
        let (result, st') = cal_validate_and_save cell_num found.0 st in (result, found.1, st')

    -- The result, the millivolts for the response, and the store
    unfoldable pub calibrate_cell :
        CalBuild
        → Readings fl.Float
        → ℕ
        → ℕ
        → CalStore fl.Float e.Flash
        → CalResult × ℕ × CalStore fl.Float e.Flash
    unfolding cal_validate_and_save
    calibrate_cell b r cell_num target_ppo2 st =
        save_read cell_num (cal_read_coefficient b r cell_num target_ppo2) st
