-- ===== src/Calibration/Quiet.antt =====
-- The methods of a calibration neither answer nor touch the setpoint or the backup.
use dive_canhead.Base.{
  ℕ, zero, suc, ◌≡◌, refl, sym, ap, ◌∙◌, Bool, not, ◌&&◌, ◌||◌, Option, none, some, List, [], ◌∷◌,
  ◌++◌, append_assoc, ltb, leb, ◌/◌, either,
}
use dive_canhead.ExternalFlash.{Backend}
use dive_canhead.CalibrationStore.{Memory, CalKey}
use dive_canhead.Calibration.{CalFloats, CellType, CellMsg, cal_compute_target_ppo2}
use dive_canhead.Calibration.Cells.{CalResult, ok, rejected, CalBuild, Readings}
use dive_canhead.Calibration.Methods.{
  Act, sleep, set_setpoint, fire_o2_flush, fire_o2_inject, fire_dil_flush, all_off, respond, Run,
  act, bursts, flush_valve, cal_flush_seconds, check_flush_seconds, cal_flush_ms, calibrate_into,
  calibrate_cells, against_reference, check_pressure, check_reference, calibrate_every, is_healthy,
  cal_digital_reference, cal_analog_absolute, cal_total_absolute, cal_solenoid_flush, by_method,
  read_reference, cal_settle_ms, CalMethod, every_type, digital_reference, analog_absolute,
  total_absolute, solenoid_flush, check, other, reference_cell, is_analog,
}

-- Neither a change of the setpoint nor a response
abbrev pub IsQuiet : List Act → Type 0
IsQuiet [] = Unit
IsQuiet (sleep _ ∷ acts) = IsQuiet acts
IsQuiet (fire_o2_flush ∷ acts) = IsQuiet acts
IsQuiet (fire_o2_inject ∷ acts) = IsQuiet acts
IsQuiet (fire_dil_flush ∷ acts) = IsQuiet acts
IsQuiet (all_off ∷ acts) = ⊥
IsQuiet (set_setpoint _ ∷ acts) = ⊥
IsQuiet (respond _ _ ∷ acts) = ⊥

append-IsQuiet : (xs ys : List Act) → IsQuiet xs → IsQuiet ys → IsQuiet (xs ++ ys)
append-IsQuiet [] ys hx hy = hy
append-IsQuiet (sleep _ ∷ xs) ys hx hy = append-IsQuiet xs ys hx hy
append-IsQuiet (fire_o2_flush ∷ xs) ys hx hy = append-IsQuiet xs ys hx hy
append-IsQuiet (fire_o2_inject ∷ xs) ys hx hy = append-IsQuiet xs ys hx hy
append-IsQuiet (fire_dil_flush ∷ xs) ys hx hy = append-IsQuiet xs ys hx hy
append-IsQuiet (all_off ∷ xs) ys hx hy = hx
append-IsQuiet (set_setpoint _ ∷ xs) ys hx hy = hx
append-IsQuiet (respond _ _ ∷ xs) ys hx hy = hx

-- What the work on a calibration leaves alone
pub record Quietly {C F : Type 0} (run run' : Run C F) : Type 0 where
  pub quiet : List Act
  pub quiet-IsQuiet : IsQuiet quiet
  pub acts_added : run'.acts ≡ quiet ++ run.acts
  pub same_previous : run'.previous_cals ≡ run.previous_cals

module _ {C F : Type 0} where
  pub one_quiet : (run : Run C F) (a : Act) → IsQuiet (a ∷ []) → Quietly run (act a run)
  one_quiet run a q = record {
    quiet = a ∷ [];
    quiet-IsQuiet = q;
    acts_added = refl;
    same_previous = refl;
  }

  pub nothing_done :
      (run run' : Run C F)
      → run'.acts ≡ run.acts
      → run'.previous_cals ≡ run.previous_cals
      → Quietly run run'
  nothing_done run run' a p = record {
    quiet = [];
    quiet-IsQuiet = tt;
    acts_added = a;
    same_previous = p;
  }

  pub and_then : {run mid run' : Run C F} → Quietly run mid → Quietly mid run' → Quietly run run'
  and_then {run} p q = record {
    quiet = q.quiet ++ p.quiet;
    quiet-IsQuiet = append-IsQuiet q.quiet p.quiet q.quiet-IsQuiet p.quiet-IsQuiet;
    acts_added =
        q.acts_added
        ∙ ap (λ acts. q.quiet ++ acts) p.acts_added
        ∙ sym (append_assoc q.quiet p.quiet run.acts);
    same_previous = q.same_previous ∙ p.same_previous;
  }

  bursts-Quietly :
      (valve : Act) (n : ℕ) (run : Run C F)
      → IsQuiet (valve ∷ [])
      → Quietly run (bursts (some valve) n run)
  bursts-Quietly valve zero run q = nothing_done run run refl refl
  bursts-Quietly valve (suc n) run q =
      and_then
        (and_then (one_quiet run valve q) (one_quiet (act valve run) (sleep cal_flush_ms) tt))
        (bursts-Quietly valve n (act (sleep cal_flush_ms) (act valve run)) q)

  pauses-Quietly : (n : ℕ) (run : Run C F) → Quietly run (bursts none n run)
  pauses-Quietly zero run = nothing_done run run refl refl
  pauses-Quietly (suc n) run =
      and_then (one_quiet run (sleep cal_flush_ms) tt)
        (pauses-Quietly n (act (sleep cal_flush_ms) run))

module _ (fl : CalFloats) (mem : Memory fl.Float) (e : Backend CalKey) (b : CalBuild) where
  abbrev pub CalRun : Type 0
  CalRun = Run fl.Float e.Flash

  -- A step of a method leaves the state quietly.
  pub record Calm (run : CalRun) (r : CalResult × CalRun) : Type 0 where
    pub calm : Quietly run r.1

  into-Quietly :
      (r : Readings fl.Float) (i target : ℕ) (run : CalRun)
      → Quietly run (calibrate_into fl mem e b r i target run).1
  unfolding calibrate_into
  into-Quietly r i target run = nothing_done run _ refl refl

  cells-Quietly :
      (takes : CellType → Bool) (r : Readings fl.Float) (target left i : ℕ) (result : CalResult)
      → (run : CalRun) → Quietly run (calibrate_cells fl mem e b takes r target left i result run).1
  cells-Quietly takes r target zero i result run = nothing_done run run refl refl
  cells-Quietly takes r target (suc left) i result run =
      and_then
        (either (Quietly run) (not (takes (b.cell_type i))) run
          (calibrate_into fl mem e b r i target run).1 (nothing_done run run refl refl)
          (into-Quietly r i target run))
        (cells-Quietly takes r target left (suc i) _ _)

  refused : (run : CalRun) → Calm run (rejected, run)
  refused run = record { calm = nothing_done run run refl refl }

  check_pressure-Calm :
      (r : Readings fl.Float) (ref_data : CellMsg fl.Float) (pressure : Option ℕ) (run : CalRun)
      → Calm run (check_pressure fl mem e b r ref_data pressure run)
  check_pressure-Calm r ref_data none run = refused run
  check_pressure-Calm r ref_data (some ubar) run =
      let after = against_reference fl mem e b r ref_data (ubar / 1000) run in
      either (Calm run) (leb (ubar / 1000) 0 || ltb 0xFFFF (ubar / 1000)) (rejected, run) after
        (refused run)
        (record {
          calm =
              and_then (cells-Quietly is_analog r ref_data.ppo2 b.cell_count 0 ok run)
                (nothing_done _ after.1 refl refl);
        })

  check_reference-Calm :
      (r : Readings fl.Float) (found : Option (CellMsg fl.Float)) (run : CalRun)
      → Calm run (check_reference fl mem e b r found run)
  check_reference-Calm r none run = refused run
  check_reference-Calm r (some ref_data) run =
      either (Calm run) (not (is_healthy ref_data.status)) (rejected, run)
        (check_pressure fl mem e b r ref_data ref_data.ambient_pressure_ubar run) (refused run)
        (check_pressure-Calm r ref_data ref_data.ambient_pressure_ubar run)

  every-Calm :
      (r : Readings fl.Float) (target : Option ℕ) (run : CalRun)
      → Calm run (calibrate_every fl mem e b r target run)
  every-Calm r none run = refused run
  every-Calm r (some target) run = record {
    calm = cells-Quietly every_type r target b.cell_count 0 ok run;
  }

  -- The two absolute methods do the same.
  analog_absolute-eq_total :
      (r : Readings fl.Float) (run : CalRun)
      → cal_analog_absolute fl mem e b r run ≡ cal_total_absolute fl mem e b r run
  unfolding cal_analog_absolute cal_total_absolute
  analog_absolute-eq_total r run = refl

  flush-Quietly : (n : ℕ) (run : CalRun) → Quietly run (bursts (flush_valve b) n run)
  flush-Quietly n run =
      either (λ valve. Quietly run (bursts valve n run)) b.has_flush_solenoid (some fire_o2_flush) _
        (bursts-Quietly fire_o2_flush n run tt)
        (either (λ valve. Quietly run (bursts valve n run)) b.has_o2_solenoid (some fire_o2_inject)
          none (bursts-Quietly fire_o2_inject n run tt) (pauses-Quietly n run))

  after_step :
      {run mid : CalRun} {r : CalResult × CalRun} → Quietly run mid → Calm mid r → Calm run r
  after_step q c = record { calm = and_then q c.calm }

  pub by_method-Calm :
      (method : CalMethod) (r : Readings fl.Float) (run : CalRun)
      → Calm run (by_method fl mem e b method r run)
  unfolding cal_digital_reference cal_analog_absolute cal_total_absolute cal_solenoid_flush
  by_method-Calm digital_reference r run =
      let settled = act (sleep cal_settle_ms) run in
      after_step (one_quiet run (sleep cal_settle_ms) tt)
        (check_reference-Calm r (read_reference fl mem e b (reference_cell b) r) settled)
  by_method-Calm analog_absolute r run = after_step (one_quiet run (sleep cal_settle_ms) tt) (
      every-Calm r (cal_compute_target_ppo2 run.fo2 run.pressure_mbar)
        (act (sleep cal_settle_ms) run))
  by_method-Calm total_absolute r run = after_step (one_quiet run (sleep cal_settle_ms) tt) (
      every-Calm r (cal_compute_target_ppo2 run.fo2 run.pressure_mbar)
        (act (sleep cal_settle_ms) run))
  by_method-Calm solenoid_flush r run =
      let flushed = bursts (flush_valve b) cal_flush_seconds run in
      after_step (flush-Quietly cal_flush_seconds run)
        (every-Calm r (cal_compute_target_ppo2 flushed.fo2 flushed.pressure_mbar) flushed)
  by_method-Calm check r run =
      let flushed = bursts (some fire_o2_flush) check_flush_seconds run in
      either (Calm run) (b.has_flush_solenoid && b.has_dil_flush_solenoid)
        (ok, bursts (some fire_dil_flush) check_flush_seconds flushed) (rejected, run)
        (record {
          calm =
              and_then (bursts-Quietly fire_o2_flush check_flush_seconds run tt)
                (bursts-Quietly fire_dil_flush check_flush_seconds flushed tt);
        })
        (refused run)
  by_method-Calm other r run = refused run
