-- ===== src/Calibration/Episode.antt =====
-- Every request is answered once, between the two changes of the setpoint.
use dive_canhead.Base.{
  ℕ, zero, suc, ◌≡◌, refl, sym, subst, ap, ◌∙◌, inl, inr, true, false, Option, some, List, [], ◌∷◌,
  ◌++◌, ltb, if◌then◌else◌, either, Bool-cases, none,
}
use dive_canhead.Zephyr.{Kernel, IsKernel, model, for_kernel}
use dive_canhead.ExternalFlash.{Backend}
use dive_canhead.CalibrationStore.{Memory, CalStore, CalKey}
use dive_canhead.Calibration.{CalFloats}
use dive_canhead.Calibration.Cells.{CalResult, rejected, is_ok, CalBuild, Readings}
use dive_canhead.Calibration.Methods.{
  Act, set_setpoint, all_off, respond, Run, cal_suppress_setpoint_cb, by_method, executing, done,
  restoring_on_fail, validating_request, cal_fo2_max,
}
use dive_canhead.Calibration.Machine.{
  CalRequest, Head, enter, restore_cell, restore_cells, back_up_cells, cal_done_entry,
  cal_failed_entry, cal_restoring_on_fail_entry, cal_executing_entry, cal_validating_request_entry,
  cal_backing_up_entry, sm_of, run_calibration_sm, handle_request, calibration_release,
  cal_suppress_setpoint, conclude, saved_setpoint, run_until_terminated, calibration_try_acquire,
}
use dive_canhead.Calibration.Quiet.{IsQuiet, Quietly, nothing_done, and_then, by_method-Calm}

module _ (clock : ℕ → ℕ) (fl : CalFloats) (mem : Memory fl.Float) (e : Backend CalKey)
    (b : CalBuild) where
  abbrev CalRun : Type 0
  CalRun = Run fl.Float e.Flash

  -- The machine has terminated, and its last act is the response.
  record Answered (before : List Act) (run : CalRun) : Type 0 where
    mid : List Act
    mid-IsQuiet : IsQuiet mid
    answered : run.acts ≡ respond run.result run.cell_mv ∷ mid ++ before
    terminated : run.terminate_val ≡ 1

  restore_cells-Quietly :
      (left i : ℕ) (run : CalRun) → Quietly run (restore_cells (model clock) fl mem e b left i run)
  restore_cells-Quietly zero i run = nothing_done run run refl refl
  restore_cells-Quietly (suc left) i run =
      let next = restore_cell (model clock) fl mem e b i run in
      and_then (nothing_done run next refl refl) (restore_cells-Quietly left (suc i) next)

  back_up_cells-acts :
      (left i : ℕ) (run : CalRun)
      → (back_up_cells (model clock) fl mem e b left i run).acts ≡ run.acts
  back_up_cells-acts zero i run = refl
  back_up_cells-acts (suc left) i run = back_up_cells-acts left (suc i) _

  module _ (before : List Act) where
    -- What has been added so far is quiet.
    record Working (run : CalRun) : Type 0 where
      mid : List Act
      mid-IsQuiet : IsQuiet mid
      added : run.acts ≡ mid ++ before

    go_on : {run run' : CalRun} → Working run → Quietly run run' → Working run'
    go_on {run} {run'} w q =
        let start : Run fl.Float e.Flash = record run { acts = before } in
        let whole : Quietly start run' =
          and_then
            (record {
              quiet = w.mid;
              quiet-IsQuiet = w.mid-IsQuiet;
              acts_added = w.added;
              same_previous = refl;
            })
            q in
        record { mid = whole.quiet; mid-IsQuiet = whole.quiet-IsQuiet; added = whole.acts_added }

    done-Answered :
        (run : CalRun) → Working run → Answered before (cal_done_entry (model clock) fl mem e b run)
    unfolding cal_done_entry
    done-Answered run w = record {
      mid = w.mid;
      mid-IsQuiet = w.mid-IsQuiet;
      answered = ap (λ acts. respond run.result run.cell_mv ∷ acts) w.added;
      terminated = refl;
    }

    restoring-Answered :
        (run : CalRun)
        → Working run
        → Answered before (cal_restoring_on_fail_entry (model clock) fl mem e b run)
    unfolding cal_restoring_on_fail_entry cal_failed_entry enter
    restoring-Answered run w =
        let restored = restore_cells (model clock) fl mem e b b.cell_count 0 run in
        let w' = go_on w (restore_cells-Quietly b.cell_count 0 run) in
        record {
          mid = w'.mid;
          mid-IsQuiet = w'.mid-IsQuiet;
          answered = ap (λ acts. respond restored.result restored.cell_mv ∷ acts) w'.added;
          terminated = refl;
        }

    same_acts : (run run' : CalRun) → run'.acts ≡ run.acts → Working run → Working run'
    same_acts run run' a w = record {
      mid = w.mid;
      mid-IsQuiet = w.mid-IsQuiet;
      added = a ∙ w.added;
    }

    executing-Answered :
        (r : Readings fl.Float) (run : CalRun)
        → Working run
        → Answered before (cal_executing_entry (model clock) fl mem e b r run)
    unfolding cal_executing_entry enter
    executing-Answered r run w =
        let (result, run') = by_method fl mem e b run.method r run in
        let w' = go_on w (by_method-Calm fl mem e b run.method r run).calm in
        let good : CalRun = record run' { result = result; smf = done } in
        let bad : CalRun = record run' { result = result; smf = restoring_on_fail } in
        either (Answered before) (is_ok result) (cal_done_entry (model clock) fl mem e b good)
          (cal_restoring_on_fail_entry (model clock) fl mem e b bad)
          (done-Answered good (same_acts run' good refl w'))
          (restoring-Answered bad (same_acts run' bad refl w'))

    validating-Answered :
        (r : Readings fl.Float) (run : CalRun)
        → Working run
        → Answered before (cal_validating_request_entry (model clock) fl mem e b r run)
    unfolding cal_validating_request_entry enter
    validating-Answered r run w =
        let bad : CalRun = record run { result = rejected; smf = restoring_on_fail } in
        let good : CalRun = record run { smf = executing } in
        either (Answered before) (ltb cal_fo2_max run.fo2)
          (cal_restoring_on_fail_entry (model clock) fl mem e b bad)
          (cal_executing_entry (model clock) fl mem e b r good)
          (restoring-Answered bad (same_acts run bad refl w))
          (executing-Answered r good (same_acts run good refl w))

    backing_up-Answered :
        (r : Readings fl.Float) (run : CalRun)
        → Working run
        → Answered before (cal_backing_up_entry (model clock) fl mem e b r run)
    unfolding cal_backing_up_entry enter
    backing_up-Answered r run w =
        let saved = back_up_cells (model clock) fl mem e b b.cell_count 0 run in
        let next : CalRun = record saved { smf = validating_request } in
        validating-Answered r next (same_acts run next (back_up_cells-acts b.cell_count 0 run) w)

-- What the release of the guard adds
abbrev pub stopped : CalBuild → List Act → List Act
stopped b acts = if b.solenoid then all_off ∷ acts else acts

-- The setpoint in centibar that a request finds: what was read of the channel, or 0.70 bar
abbrev pub baseline : Option ℕ → ℕ
baseline none = 70
baseline (some v) = v

saved_setpoint-baseline : (channel : Option ℕ) → saved_setpoint channel ≡ baseline channel
saved_setpoint-baseline none = refl
saved_setpoint-baseline (some v) = refl

-- How the handling of a request leaves the head: the guard is free, and in order there was the change to the
-- floor of the setpoint, 0.19 bar, the work, one response, the change back, and the solenoids were stopped.
abbrev pub IsServed : {C F : Type 0} → CalBuild → Option ℕ → Head C F → Option (Head C F) → Type 0
IsServed {C} {F} b channel h out =
    (h' : Head C F) × (work : List Act) × (result : CalResult) × (mv : ℕ → ℕ) × (out ≡ some h')
    × (h'.cal_running ≡ false)
    × IsQuiet work
    × (h'.acts
        ≡ stopped b (
            set_setpoint (baseline channel) ∷ respond result mv ∷ work ++ set_setpoint 19 ∷ h.acts))

module _ (fl : CalFloats) (mem : Memory fl.Float) (e : Backend CalKey) (b : CalBuild) where
  -- The loop around the machine ends before its first round.
  ends_at_once :
      (clock : ℕ → ℕ) (fuel : ℕ) (run : Run fl.Float e.Flash)
      → run.terminate_val ≡ 1
      → run_until_terminated (model clock) fl mem e b fuel run ≡ some run
  ends_at_once clock zero run t = rw t refl
  ends_at_once clock (suc fuel) run t = rw t refl

  -- The machine terminates, and its result is the state that the entry actions lead to.
  pub machine_ends :
      (clock : ℕ → ℕ) (fuel : ℕ) (r : Readings fl.Float) (req : CalRequest)
      → (st : CalStore fl.Float e.Flash) (acts : List Act)
      → run_calibration_sm (model clock) fl mem e b fuel r req st acts
        ≡ some (
            cal_backing_up_entry
              (model clock)
              fl
              mem
              e
              b
              r
              (sm_of (model clock) fl mem e b req st acts))
  unfolding run_calibration_sm
  machine_ends clock fuel r req st acts =
      let start = sm_of (model clock) fl mem e b req st acts in
      let a =
        backing_up-Answered clock fl mem e b acts r start
          (record { mid = []; mid-IsQuiet = tt; added = refl }) in
      ends_at_once clock fuel (cal_backing_up_entry (model clock) fl mem e b r start) a.terminated

  released :
      (h : Head fl.Float e.Flash)
      → h.cal_running ≡ true
      → (clock : ℕ → ℕ)
      → ((calibration_release (model clock) fl mem e b h).cal_running ≡ false)
        × ((calibration_release (model clock) fl mem e b h).acts ≡ stopped b h.acts)
  unfolding calibration_release
  released h on clock = elim (Bool-cases b.solenoid) [
    | inl s ↦ rw (on, s) (refl, refl)
    | inr s ↦ rw (on, s) (refl, refl)
  ]

  served :
      (clock : ℕ → ℕ) (fuel : ℕ) (channel : Option ℕ) (r : Readings fl.Float) (req : CalRequest)
      → (h : Head fl.Float e.Flash) → h.cal_running ≡ true
      → IsServed b channel h (handle_request (model clock) fl mem e b fuel channel r req h)
  unfolding handle_request run_calibration_sm cal_suppress_setpoint conclude
  served clock fuel channel r req h on =
      let before = set_setpoint cal_suppress_setpoint_cb ∷ h.acts in
      let start = sm_of (model clock) fl mem e b req h.store before in
      let run = cal_backing_up_entry (model clock) fl mem e b r start in
      let a =
        backing_up-Answered clock fl mem e b before r start
          (record { mid = []; mid-IsQuiet = tt; added = refl }) in
      let next : Head fl.Float e.Flash = record h {
        store = run.store;
        acts = set_setpoint (saved_setpoint channel) ∷ run.acts;
      } in
      let (free, acts) = released next on clock in
      subst
        (λ out. IsServed b channel h (
          conclude (model clock) fl mem e b (saved_setpoint channel) (record h { acts = before })
            out))
        (sym (ends_at_once clock fuel run a.terminated))
        (
          calibration_release (model clock) fl mem e b next,
          a.mid,
          run.result,
          run.cell_mv,
          refl,
          free,
          a.mid-IsQuiet,
          acts
              ∙ ap (λ done_before. stopped b (set_setpoint (saved_setpoint channel) ∷ done_before))
                  a.answered
              ∙ ap
                  (λ (v : ℕ).
                    stopped b (set_setpoint v ∷ respond run.result run.cell_mv ∷ a.mid ++ before))
                  (saved_setpoint-baseline channel),
        )

  -- Of two requests in a row the first takes the guard, and the second is refused and changes nothing.
  try_acquire_twice :
      (k : Kernel) (h : Head fl.Float e.Flash)
      → h.cal_running ≡ false
      → let (first, h') = calibration_try_acquire k fl mem e b h in
        (first ≡ true)
        × (h'.cal_running ≡ true)
        × (calibration_try_acquire k fl mem e b h' ≡ (false, h'))
  unfolding calibration_try_acquire
  try_acquire_twice k h free = elim (Bool-cases b.solenoid) [
    | inl s ↦ rw (free, s) (refl, refl, refl)
    | inr s ↦ rw (free, s) (refl, refl, refl)
  ]

  -- A request that owns the guard is served, whatever its method, the readings and the flash: the
  -- machine terminates, exactly one response is published, between the change of the setpoint to
  -- 0.19 bar and the change back to what was read of its channel, or to 0.70 bar where nothing could
  -- be read, and the guard is free afterwards.
  pub handle_request-IsServed :
      (k : Kernel)
      → IsKernel k
      → (fuel : ℕ) (channel : Option ℕ) (r : Readings fl.Float) (req : CalRequest)
      → (h : Head fl.Float e.Flash) → h.cal_running ≡ true
      → IsServed b channel h (handle_request k fl mem e b fuel channel r req h)
  handle_request-IsServed k doc fuel channel r req h on =
      for_kernel (λ k. IsServed b channel h (handle_request k fl mem e b fuel channel r req h))
        (λ clock small. served clock fuel channel r req h on) k doc
