-- ===== src/Calibration/Examples.antt =====
-- The properties of the calibration at concrete inputs.
use dive_canhead.Base.{
  ℕ, ◌+◌, ◌-◌, ◌≡◌, ◌≢◌, ◌⊎◌, refl, ap, inl, inr, true, false, none, some, [], ◌∷◌, get_or, leb,
  ltb, ◌==◌, if◌then◌else◌, arith, ℕ_discrete,
}
use dive_canhead.Zephyr.{Kernel, IsKernel, model, model-IsKernel}
use dive_canhead.ExternalFlash.{
  Backend, save_again, ext_flash_settings_save_one, ext_flash_settings_load_subtree,
}
use dive_canhead.ExternalFlash.Journal.{journal, value, journal-IsBackend}
use dive_canhead.FirmwareConfirm.{cell_ok}
use dive_canhead.CalibrationStore.{Memory, CalStore, CalKey, cell, unknown, calibration_store_save}
use dive_canhead.CalibrationStore.Held.{IsMemory}
use dive_canhead.Calibration.{
  CalFloats, analog, CellMsg, cal_compute_target_ppo2, analog_cal_coefficient,
}
use dive_canhead.Calibration.Cells.{
  CalBuild, Readings, is_ok, cal_compute_coeff, cal_validate_and_save, calibrate_cell,
}
use dive_canhead.Calibration.Methods.{Run, total_absolute, calibrate_into, cal_total_absolute}
use dive_canhead.Calibration.Machine.{CalRequest, Head, cal_backing_up_entry, sm_of, handle_request}
use dive_canhead.Calibration.Episode.{IsServed, handle_request-IsServed, machine_ends}
use dive_canhead.Calibration.Outcome.{failed_calibration_restores, successful_calibration_stores}

-- Whole numbers from -2 on, moved up by 2; a coefficient is the target itself.
abbrev whole : CalFloats
whole = record {
  Float = ℕ;
  below = ltb;
  at_most = leb;
  minus = λ a b. (a - b) + (b - a) + 2;
  times = λ a b. a;
  over = λ a b. a;
  fabsf = λ a. a;
  roundf = λ a. a;
  of_int = λ n. n + 2;
  abs_int16 = λ a. a - 2;
  of_int32 = λ a. a;
  to_u8 = λ a. a - 2;
  counts_to_millis = 3;
  min_divisor = 3;
  min_analog_sample = 3;
  analog_cal_lower = 3;
  analog_cal_upper = 200;
  diveo2_cal_lower = 3;
  diveo2_cal_upper = 200;
  diveo2_cal_default = 3;
  o2s_cal_lower = 3;
  o2s_cal_upper = 200;
  o2s_cal_default = 3;
  centibar_per_bar = 102;
  cal_coeff_err_math = 1;
  cal_coeff_err_range = 0;
  cal_coeff_err_range_threshold = 0;
  readback_tolerance = 2;
}

abbrev words : Memory ℕ
words = record { encode = λ c. c ∷ 0 ∷ 0 ∷ 0 ∷ []; decode = λ bytes. get_or bytes 0 0 }

words-IsMemory : IsMemory words
words-IsMemory = record { encode_size = λ c. refl; decode_encode = λ c. refl }

abbrev number : CalKey → ℕ
number unknown = 0
number (cell n) = n

same_key : (k k' : CalKey) → (k ≡ k') ⊎ (k ≢ k')
same_key unknown unknown = inl refl
same_key unknown (cell n) = inr (λ e. cc e)
same_key (cell n) unknown = inr (λ e. cc e)
same_key (cell m) (cell n) = elim (ℕ_discrete m n) [
  | yes e ↦ inl (ap cell e)
  | no ne ↦ inr (λ e. ne (ap number e))
]

abbrev nvs : Backend CalKey
nvs = journal same_key

abbrev two_cells : CalBuild
two_cells = record {
  cell_count = 2;
  cell_type = λ i. analog;
  solenoid = true;
  has_flush_solenoid = false;
  has_o2_solenoid = true;
  has_dil_flush_solenoid = false;
}

abbrev sample : CellMsg ℕ
sample = record {
  status = cell_ok;
  ppo2 = 98;
  precision_ppo2 = 100;
  millivolts = 5000;
  ambient_pressure_ubar = none;
}

abbrev both : Readings ℕ
both = record { cell_msg = λ i. some sample; reference = none }

-- The second cell cannot be read.
abbrev first_only : Readings ℕ
first_only = record { cell_msg = λ i. if i == 0 then some sample else none; reference = none }

abbrev oxygen : CalRequest
oxygen = record { method = total_absolute; fo2 = 98; pressure_mbar = 1000 }

abbrev fresh : CalStore ℕ nvs.Flash
fresh = record { cal_cache = λ i. 7; cal_loaded = true; flash = [] }

abbrev k : Kernel
k = model (λ n. 5)

k-IsKernel : IsKernel k
k-IsKernel = model-IsKernel (λ n. 5) (λ n. omega arith)

abbrev run_of : Readings ℕ → Run ℕ nvs.Flash
run_of r =
    cal_backing_up_entry k whole words nvs two_cells r
      (sm_of k whole words nvs two_cells oxygen fresh [])

abbrev waiting : Head ℕ nvs.Flash
waiting = record { cal_running = true; store = fresh; acts = [] }

handle_request-IsServed_example :
    IsServed two_cells
      (some 130)
      waiting
      (handle_request k whole words nvs two_cells 0 (some 130) both oxygen waiting)
handle_request-IsServed_example =
    handle_request-IsServed whole words nvs two_cells k k-IsKernel 0 (some 130) both oxygen waiting
      refl

second_fails : is_ok (run_of first_only).result ≡ false
unfolding cal_backing_up_entry cal_total_absolute calibrate_into calibrate_cell
    cal_validate_and_save calibration_store_save ext_flash_settings_save_one save_again
    ext_flash_settings_load_subtree cal_compute_target_ppo2 analog_cal_coefficient
second_fails = refl

first_restored : (run_of first_only).restored 0 ≡ true
unfolding cal_backing_up_entry cal_total_absolute calibrate_into calibrate_cell
    cal_validate_and_save calibration_store_save ext_flash_settings_save_one save_again
    ext_flash_settings_load_subtree cal_compute_target_ppo2 analog_cal_coefficient
first_restored = refl

failed_calibration_restores_example :
    (value same_key (run_of first_only).store.flash (cell 0) ≡ some (words.encode 7))
    × ((run_of first_only).store.cal_cache 0 ≡ 7)
failed_calibration_restores_example =
    failed_calibration_restores whole words words-IsMemory nvs (journal-IsBackend same_key)
      two_cells (omega arith) k k-IsKernel 0 first_only oxygen fresh [] (run_of first_only) 0
      (machine_ends whole words nvs two_cells (λ n. 5) 0 first_only oxygen fresh []) second_fails
      (omega arith) first_restored

both_pass : is_ok (run_of both).result ≡ true
unfolding cal_backing_up_entry cal_total_absolute calibrate_into calibrate_cell
    cal_validate_and_save calibration_store_save ext_flash_settings_save_one save_again
    ext_flash_settings_load_subtree cal_compute_target_ppo2 analog_cal_coefficient
both_pass = refl

successful_calibration_stores_example :
    (target : ℕ) × (msg : CellMsg ℕ) × (cal_compute_target_ppo2 98 1000 ≡ some target)
    × (both.cell_msg 1 ≡ some msg)
    × (let coeff = cal_compute_coeff whole analog target msg in
        (ltb coeff 2 ≡ false)
        × (value same_key (run_of both).store.flash (cell 1) ≡ some (words.encode coeff))
        × ((run_of both).store.cal_cache 1 ≡ coeff))
successful_calibration_stores_example =
    successful_calibration_stores whole words words-IsMemory nvs (journal-IsBackend same_key)
      two_cells (omega arith) k k-IsKernel 0 both oxygen fresh [] (run_of both) 1
      (machine_ends whole words nvs two_cells (λ n. 5) 0 both oxygen fresh []) both_pass refl
      (omega arith)
