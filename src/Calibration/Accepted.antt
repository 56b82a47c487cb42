-- ===== src/Calibration/Accepted.antt =====
-- The methods that calibrate every cell, when they succeed.
use dive_canhead.Base.{
  ℕ, zero, suc, ◌≤◌, ◌<◌, ◌≡◌, refl, sym, ap, ◌∙◌, Bool, true, false, true≢false, Option, none,
  some, List, arith,
}
use dive_canhead.ExternalFlash.{Backend, IsBackend}
use dive_canhead.CalibrationStore.{Memory, CalStore, CalKey, cell_max_count}
use dive_canhead.CalibrationStore.Held.{IsMemory, Held}
use dive_canhead.Calibration.{CalFloats, cal_compute_target_ppo2}
use dive_canhead.Calibration.Cells.{ok, is_ok, CalBuild, Readings}
use dive_canhead.Calibration.Methods.{
  CalMethod, digital_reference, analog_absolute, total_absolute, solenoid_flush, check, other, Act,
  sleep, act, cal_settle_ms, cal_flush_ms, Run, by_method, every_type, calibrate_every, bursts,
  flush_valve, cal_flush_seconds, cal_analog_absolute, cal_total_absolute, cal_solenoid_flush,
}
use dive_canhead.Calibration.Saved.{Calibrated, cells-Calibrated}

-- The methods that calibrate every cell against the gas of the request
abbrev pub calibrates_all : CalMethod → Bool
calibrates_all analog_absolute = true
calibrates_all total_absolute = true
calibrates_all solenoid_flush = true
calibrates_all digital_reference = false
calibrates_all check = false
calibrates_all other = false

module _ (fl : CalFloats) (mem : Memory fl.Float) (round : IsMemory mem) (e : Backend CalKey)
    {value : e.Flash → CalKey → Option (List ℕ)} (doc : IsBackend e value) (b : CalBuild)
    (few : b.cell_count ≤ cell_max_count) where
  abbrev CalRun : Type 0
  CalRun = Run fl.Float e.Flash

  abbrev Stored : ℕ → fl.Float → CalStore fl.Float e.Flash → Type 0
  Stored i c st = Held mem round e doc i c st

  every-Calibrated :
      (r : Readings fl.Float) (t : Option ℕ) (run : CalRun) (i : ℕ)
      → i < b.cell_count
      → is_ok (calibrate_every fl mem e b r t run).0 ≡ true
      → (target : ℕ) × (t ≡ some target)
        × Calibrated fl mem round e doc b r target i (calibrate_every fl mem e b r t run).1.store
  every-Calibrated r none run i here good = absurd (true≢false (sym good))
  every-Calibrated r (some target) run i here good = (
    target,
    refl,
    cells-Calibrated fl mem round e doc b every_type r target b.cell_count 0 i ok run good
        (omega arith) (omega arith) here (omega (arith, few)) refl,
  )

  bursts-request :
      (valve : Option Act) (n : ℕ) (run : CalRun)
      → ((bursts valve n run).fo2 ≡ run.fo2)
        × ((bursts valve n run).pressure_mbar ≡ run.pressure_mbar)
  bursts-request valve zero run = (refl, refl)
  bursts-request none (suc n) run = bursts-request none n (act (sleep cal_flush_ms) run)
  bursts-request (some a) (suc n) run =
      bursts-request (some a) n (act (sleep cal_flush_ms) (act a run))

  pub by_method-Calibrated :
      (method : CalMethod) (r : Readings fl.Float) (run : CalRun) (i : ℕ)
      → i < b.cell_count
      → calibrates_all method ≡ true
      → is_ok (by_method fl mem e b method r run).0 ≡ true
      → (target : ℕ) × (cal_compute_target_ppo2 run.fo2 run.pressure_mbar ≡ some target)
        × Calibrated fl mem round e doc b r target i (by_method fl mem e b method r run).1.store
  unfolding cal_analog_absolute cal_total_absolute cal_solenoid_flush
  by_method-Calibrated analog_absolute r run i here all good =
      every-Calibrated r _ (act (sleep cal_settle_ms) run) i here good
  by_method-Calibrated total_absolute r run i here all good =
      every-Calibrated r _ (act (sleep cal_settle_ms) run) i here good
  by_method-Calibrated solenoid_flush r run i here all good =
      let flushed = bursts (flush_valve b) cal_flush_seconds run in
      let (fo2, pressure) = bursts-request (flush_valve b) cal_flush_seconds run in
      let (target, found, calibrated) =
        every-Calibrated r (cal_compute_target_ppo2 flushed.fo2 flushed.pressure_mbar) flushed i
          here good in
      (
        target,
        ap (λ v. cal_compute_target_ppo2 v run.pressure_mbar) (sym fo2)
            ∙ ap (cal_compute_target_ppo2 flushed.fo2) (sym pressure)
            ∙ found,
        calibrated,
      )
  by_method-Calibrated digital_reference r run i here all good = absurd (true≢false (sym all))
  by_method-Calibrated check r run i here all good = absurd (true≢false (sym all))
  by_method-Calibrated other r run i here all good = absurd (true≢false (sym all))
