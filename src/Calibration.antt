-- ===== src/Calibration.antt =====
-- The calibration of the oxygen cells (Firmware/src/calibration.c) and the coefficients it computes
-- (Firmware/src/oxygen_cell_math.c). The floating-point arithmetic is the argument `fl`.
pub mod Cells
pub mod Methods
pub mod Machine
pub mod Quiet
pub mod Episode
pub mod Saved
mod Restored
pub mod Accepted
pub mod Outcome
mod Examples
use dive_canhead.Base.{
  ℕ, ◌*◌, ◌/◌, ◌%◌, ◌^◌, Bool, true, false, not, ◌||◌, Option, none, some, ltb, ◌==◌, if◌then◌else◌,
}
use dive_canhead.FirmwareConfirm.{CellStatus}

-- The operations of the floating-point types and the literals of the two files: `below a b` is
-- `a < b`, `at_most a b` is `a <= b`, `of_int` the cast of an integer. `abs_int16 x` is
-- `abs((int16_t)x)` and `of_int32 x` is `(float)(int32_t)x`.
pub record CalFloats : Type 1 where
  pub Float : Type 0
  pub below : Float → Float → Bool
  pub at_most : Float → Float → Bool
  pub minus : Float → Float → Float
  pub times : Float → Float → Float
  pub over : Float → Float → Float
  pub fabsf : Float → Float
  pub roundf : Float → Float
  pub of_int : ℕ → Float
  pub abs_int16 : Float → ℕ
  pub of_int32 : Float → Float
  pub to_u8 : Float → ℕ
  pub counts_to_millis : Float
  pub min_divisor : Float
  pub min_analog_sample : Float
  pub analog_cal_lower : Float
  pub analog_cal_upper : Float
  pub diveo2_cal_lower : Float
  pub diveo2_cal_upper : Float
  pub diveo2_cal_default : Float
  pub o2s_cal_lower : Float
  pub o2s_cal_upper : Float
  pub o2s_cal_default : Float
  pub centibar_per_bar : Float
  pub cal_coeff_err_math : Float
  pub cal_coeff_err_range : Float
  pub cal_coeff_err_range_threshold : Float
  pub readback_tolerance : Float

-- MAX_VALID_PPO2 and MBAR_PER_FRACTIONAL_UNIT
abbrev pub max_valid_ppo2 : ℕ
max_valid_ppo2 = 254

abbrev pub mbar_per_fractional_unit : ℕ
mbar_per_fractional_unit = 1000

pub data CellType : Type 0 where
  analog diveo2 o2s : CellType

-- What calibration.c reads of an `OxygenCellMsg_t`; a negative pressure is `none`.
pub record CellMsg (F : Type 0) : Type 0 where
  pub status : CellStatus
  pub ppo2 : ℕ
  pub precision_ppo2 : F
  pub millivolts : ℕ
  pub ambient_pressure_ubar : Option ℕ

-- `none` is the result -1. The product is of an 8-bit and a 16-bit number, so it fits 32 bits.
pub cal_compute_target_ppo2 : ℕ → ℕ → Option ℕ
cal_compute_target_ppo2 fo2 pressure_mbar =
    let ppo2 = fo2 * pressure_mbar % 2 ^ 32 / mbar_per_fractional_unit in
    if ltb max_valid_ppo2 ppo2 then none else some ppo2

module _ (fl : CalFloats) where
  -- A coefficient outside of its range becomes the mark for that.
  abbrev pub in_envelope : fl.Float → fl.Float → fl.Float → fl.Float
  in_envelope lower upper coeff =
      if fl.below coeff lower || fl.below upper coeff then fl.cal_coeff_err_range else coeff

  pub analog_cal_coefficient : ℕ → ℕ → fl.Float
  analog_cal_coefficient abs_counts target_ppo2 =
      let divisor = fl.times (fl.of_int abs_counts) fl.counts_to_millis in
      if fl.below divisor fl.min_divisor
      then fl.cal_coeff_err_math
      else in_envelope fl.analog_cal_lower fl.analog_cal_upper
          (fl.over (fl.of_int target_ppo2) divisor)

  pub diveo2_cal_coefficient : fl.Float → ℕ → fl.Float
  diveo2_cal_coefficient raw_ppo2_millihpa target_ppo2 =
      let ppo2_bar = fl.over (fl.of_int target_ppo2) fl.centibar_per_bar in
      let sample_abs = fl.fabsf raw_ppo2_millihpa in
      if target_ppo2 == 0
      then fl.cal_coeff_err_math
      else if fl.below sample_abs fl.min_analog_sample
      then fl.cal_coeff_err_math
      else in_envelope fl.diveo2_cal_lower fl.diveo2_cal_upper (fl.over sample_abs ppo2_bar)

  pub o2s_cal_coefficient : fl.Float → ℕ → fl.Float
  o2s_cal_coefficient cell_sample target_ppo2 =
      let ppo2_bar = fl.over (fl.of_int target_ppo2) fl.centibar_per_bar in
      if fl.below (fl.fabsf cell_sample) fl.min_divisor
      then fl.cal_coeff_err_math
      else in_envelope fl.o2s_cal_lower fl.o2s_cal_upper (fl.over ppo2_bar cell_sample)
