-- ===== src/Calibration/Restored.antt =====
-- The backup of the coefficients, and its restoration.
use dive_canhead.Base.{
  ℕ, zero, suc, ◌+◌, ◌≤◌, ◌<◌, ◌≡◌, refl, sym, ap, subst, ◌∙◌, true, false, Option, List, ◌==◌,
  arith, ℕ_discrete,
}
use dive_canhead.Zephyr.{Kernel, model}
use dive_canhead.ExternalFlash.{Backend, IsBackend}
use dive_canhead.CalibrationStore.{Memory, CalStore, CalKey, cell_max_count, calibration_store_save}
use dive_canhead.CalibrationStore.Held.{IsMemory, Held, load-some, save-Held, save_other-Held}
use dive_canhead.Calibration.{CalFloats}
use dive_canhead.Calibration.Cells.{CalBuild}
use dive_canhead.Calibration.Methods.{Run}
use dive_canhead.Calibration.Machine.{loaded_or, restore_cell, restore_cells, back_up_cells}

module _ (fl : CalFloats) (mem : Memory fl.Float) (round : IsMemory mem) (e : Backend CalKey)
    {value : e.Flash → CalKey → Option (List ℕ)} (doc : IsBackend e value) (b : CalBuild) where
  abbrev CalRun : Type 0
  CalRun = Run fl.Float e.Flash

  abbrev Stored : ℕ → fl.Float → CalStore fl.Float e.Flash → Type 0
  Stored i c st = Held mem round e doc i c st

  module _ (clock : ℕ → ℕ) where
    abbrev k : Kernel
    k = model clock

    -- The cells from `s` on leave those before alone, and what is reported of them.
    restore-kept :
        (left s i : ℕ) (c : fl.Float) (run : CalRun)
        → i < s
        → i < cell_max_count
        → Stored i c run.store
        → Stored i c (restore_cells k fl mem e b left s run).store
    restore-kept zero s i c run before small h = h
    restore-kept (suc left) s i c run before small h =
        restore-kept left (suc s) i c (restore_cell k fl mem e b s run) (omega arith) small (
          save_other-Held mem round e doc i s c (run.previous_cals s) run.store small
            (λ eq. omega (arith, eq)) h)

    restore-reported :
        (left s i : ℕ) (run : CalRun)
        → i < s
        → (restore_cells k fl mem e b left s run).restored i ≡ run.restored i
    restore-reported zero s i run before = refl
    restore-reported (suc left) s i run before =
        let differ : (i == s) ≡ false = ground arith in
        restore-reported left (suc s) i (restore_cell k fl mem e b s run) (omega arith)
        ∙ rw differ refl

    -- A cell that is reported as restored holds its backup.
    pub restore-Held :
        (left s i : ℕ) (run : CalRun)
        → s ≤ i
        → i < s + left
        → i < cell_max_count
        → (restore_cells k fl mem e b left s run).restored i ≡ true
        → Stored i (run.previous_cals i) (restore_cells k fl mem e b left s run).store
    restore-Held zero s i run low high small r = absurd (omega arith)
    restore-Held (suc left) s i run low high small r = elim (ℕ_discrete s i) [
      | no ne ↦
          restore-Held left (suc s) i (restore_cell k fl mem e b s run) (omega (arith, ne))
            (omega arith) small r
      | yes eq ↦
          let next = restore_cell k fl mem e b s run in
          let here : next.restored i ≡ true =
            sym (restore-reported left (suc s) i next (omega (arith, eq))) ∙ r in
          let saved = (calibration_store_save mem e s (run.previous_cals s) run.store).0 in
          let same : (i == s) ≡ true = ground (arith, eq) in
          let zero_rc : saved ≡ 0 = ground (arith, here, same) in
          restore-kept left (suc s) i (run.previous_cals i) next (omega (arith, eq)) small (
            subst (λ j. Stored j (run.previous_cals j) next.store) eq
              (save-Held mem round e doc s (run.previous_cals s) run.store (omega (arith, eq))
                zero_rc))
    ]

    -- The backup of each cell is its coefficient in the cache.
    pub backed_up :
        (left s i : ℕ) (run : CalRun)
        → i < cell_max_count
        → i < s + left
        → (i < s → run.previous_cals i ≡ run.store.cal_cache i)
        → (back_up_cells k fl mem e b left s run).previous_cals i ≡ run.store.cal_cache i
    backed_up zero s i run small high before = before (omega arith)
    backed_up (suc left) s i run small high before =
        backed_up left (suc s) i _ small (omega arith) (λ under. elim (ℕ_discrete i s) [
          | yes eq ↦
              let same : (i == s) ≡ true = ground (arith, eq) in
              let found = load-some mem s run.store.cal_cache (omega (arith, eq)) in
              rw same (ap (loaded_or (run.previous_cals s)) found ∙ ap run.store.cal_cache (sym eq))
          | no ne ↦
              let differ : (i == s) ≡ false = ground arith in rw differ (before (omega (arith, ne)))
        ])

    pub restore-result :
        (left s : ℕ) (run : CalRun) → (restore_cells k fl mem e b left s run).result ≡ run.result
    restore-result zero s run = refl
    restore-result (suc left) s run = restore-result left (suc s) (restore_cell k fl mem e b s run)

    pub back_up-request :
        (left s : ℕ) (run : CalRun)
        → let run' = back_up_cells k fl mem e b left s run in
          (run'.method ≡ run.method)
          × (run'.fo2 ≡ run.fo2)
          × (run'.pressure_mbar ≡ run.pressure_mbar)
    back_up-request zero s run = (refl, refl, refl)
    back_up-request (suc left) s run = back_up-request left (suc s) _
