-- ===== src/Calibration/Saved.antt =====
-- What the loop over the cells leaves in the store.
use dive_canhead.Base.{
  ℕ, zero, suc, ◌+◌, ◌≤◌, ◌<◌, ◌≡◌, ◌≢◌, refl, sym, subst, ◌∙◌, inl, inr, Bool, true, false, not,
  true≢false, Option, none, some, List, ◌==◌, if◌then◌else◌, either, then_branch, else_branch,
  arith, Bool-cases, ℕ_discrete, lt→ltb,
}
use dive_canhead.ExternalFlash.{Backend, IsBackend}
use dive_canhead.CalibrationStore.{
  Memory, CalStore, CalKey, cell_max_count, calibration_store_save, calibration_store_load,
}
use dive_canhead.CalibrationStore.Held.{IsMemory, Held, save-Held, save_other-Held}
use dive_canhead.Calibration.{CalFloats, CellType, CellMsg}
use dive_canhead.Calibration.Cells.{
  CalResult, ok, rejected, failed, out_of_range, is_ok, CalBuild, Readings, cal_compute_coeff,
  coefficient_of, cal_read_coefficient, cal_classify_coeff_error, readback_result,
  cal_validate_and_save, save_read, calibrate_cell,
}
use dive_canhead.Calibration.Methods.{Run, worse, calibrate_into, calibrate_cells}

module _ (fl : CalFloats) (mem : Memory fl.Float) (round : IsMemory mem) (e : Backend CalKey)
    {value : e.Flash → CalKey → Option (List ℕ)} (doc : IsBackend e value) (b : CalBuild) where
  abbrev Store : Type 0
  Store = CalStore fl.Float e.Flash

  abbrev Stored : ℕ → fl.Float → Store → Type 0
  Stored i c st = Held mem round e doc i c st

  -- A result of success comes with the coefficient, which is not negative, in the store.
  record Sound (i : ℕ) (c : fl.Float) (p : CalResult × Store) : Type 0 where
    accepted : is_ok p.0 ≡ true → fl.below c (fl.of_int 0) ≡ false
    held : is_ok p.0 ≡ true → Stored i c p.1

  classify-is_ok : (c : fl.Float) → is_ok (cal_classify_coeff_error fl c) ≡ false
  classify-is_ok c =
      either (λ r. is_ok r ≡ false) (fl.at_most c fl.cal_coeff_err_range_threshold) out_of_range
        failed refl refl

  failure-Sound : (i : ℕ) (c : fl.Float) (p : CalResult × Store) → is_ok p.0 ≡ false → Sound i c p
  failure-Sound i c p bad = record {
    accepted = λ good. absurd (true≢false (sym good ∙ bad));
    held = λ good. absurd (true≢false (sym good ∙ bad));
  }

  validate-Sound :
      (i : ℕ) (c : fl.Float) (st : Store)
      → i < cell_max_count
      → Sound i c (cal_validate_and_save fl mem e i c st)
  unfolding cal_validate_and_save
  validate-Sound i c st small =
      let saved = calibration_store_save mem e i c st in
      let checked : CalResult × Store =
        (readback_result fl c (calibration_store_load mem i saved.1.cal_cache), saved.1) in
      let unsaved : CalResult × Store = (failed, saved.1) in
      let refused : CalResult × Store = (cal_classify_coeff_error fl c, st) in
      elim (Bool-cases (fl.below c (fl.of_int 0))) [
        | inl negative ↦
            then_branch (Sound i c) _ refused _ negative
              (failure-Sound i c refused (classify-is_ok c))
        | inr sound ↦
            else_branch (Sound i c) _ refused _ sound (elim (Bool-cases (not (saved.0 == 0))) [
              | inl wrong ↦
                  then_branch (Sound i c) _ unsaved checked wrong (failure-Sound i c unsaved refl)
              | inr right ↦ else_branch (Sound i c) _ unsaved checked right (record {
                accepted = λ good. sound;
                held = λ good. save-Held mem round e doc i c st small (ground arith);
              })
            ])
      ]

  -- Work on another cell keeps what a cell holds.
  record Keeps (i : ℕ) (c : fl.Float) (p : CalResult × Store) : Type 0 where
    kept : Stored i c p.1

  validate-Keeps :
      (i j : ℕ) (c d : fl.Float) (st : Store)
      → i < cell_max_count
      → i ≢ j
      → Stored i c st
      → Keeps i c (cal_validate_and_save fl mem e j d st)
  unfolding cal_validate_and_save
  validate-Keeps i j c d st small ne h =
      let saved = calibration_store_save mem e j d st in
      let checked : CalResult × Store =
        (readback_result fl d (calibration_store_load mem j saved.1.cal_cache), saved.1) in
      let unsaved : CalResult × Store = (failed, saved.1) in
      let refused : CalResult × Store = (cal_classify_coeff_error fl d, st) in
      let h' = save_other-Held mem round e doc i j c d st small ne h in
      either (Keeps i c) (fl.below d (fl.of_int 0)) refused _ (record { kept = h })
        (either (Keeps i c) (not (saved.0 == 0)) unsaved checked (record { kept = h' })
          (record { kept = h' }))

  abbrev pub CalRun : Type 0
  CalRun = Run fl.Float e.Flash

  -- The cell was read, and the coefficient of what it read was accepted and stored.
  pub record Calibrated (r : Readings fl.Float) (target i : ℕ) (st : Store) : Type 0 where
    pub msg : CellMsg fl.Float
    pub was_read : r.cell_msg i ≡ some msg
    pub accepted : fl.below (cal_compute_coeff fl (b.cell_type i) target msg) (fl.of_int 0) ≡ false
    pub held : Stored i (cal_compute_coeff fl (b.cell_type i) target msg) st

  record Sets (r : Readings fl.Float) (target i : ℕ) (p : CalResult × ℕ × Store) : Type 0 where
    sets : is_ok p.0 ≡ true → Calibrated r target i p.2

  save_read-Sets :
      (r : Readings fl.Float) (target i : ℕ) (read : Option (CellMsg fl.Float)) (st : Store)
      → r.cell_msg i ≡ read
      → i < cell_max_count
      → Sets r target i (save_read fl mem e i (coefficient_of fl (b.cell_type i) target read) st)
  save_read-Sets r target i none st eq small = record {
    sets = λ good. absurd (true≢false (sym good));
  }
  save_read-Sets r target i (some msg) st eq small =
      let sound = validate-Sound i (cal_compute_coeff fl (b.cell_type i) target msg) st small in
      record {
        sets = λ good. record {
          msg = msg;
          was_read = eq;
          accepted = sound.accepted good;
          held = sound.held good;
        };
      }

  calibrate_cell-Sets :
      (r : Readings fl.Float) (target i : ℕ) (st : Store)
      → i < b.cell_count
      → i < cell_max_count
      → Sets r target i (calibrate_cell fl mem e b r i target st)
  unfolding calibrate_cell
  calibrate_cell-Sets r target i st here small =
      then_branch (λ o. Sets r target i (save_read fl mem e i o st)) _ _ none
        (lt→ltb i b.cell_count here) (save_read-Sets r target i (r.cell_msg i) st refl small)

  save_read-kept :
      (i j : ℕ) (c : fl.Float) (found : Option (fl.Float × ℕ)) (st : Store)
      → i < cell_max_count
      → i ≢ j
      → Stored i c st
      → Stored i c (save_read fl mem e j found st).2
  save_read-kept i j c none st small ne h = h
  save_read-kept i j c (some found) st small ne h =
      (validate-Keeps i j c found.0 st small ne h).kept

  into-kept :
      (r : Readings fl.Float) (i j target : ℕ) (c : fl.Float) (run : CalRun)
      → i < cell_max_count
      → i ≢ j
      → Stored i c run.store
      → Stored i c (calibrate_into fl mem e b r j target run).1.store
  unfolding calibrate_into calibrate_cell
  into-kept r i j target c run small ne h =
      save_read-kept i j c (cal_read_coefficient fl b r j target) run.store small ne h

  module _ (takes : CellType → Bool) (r : Readings fl.Float) (target : ℕ) where
    -- The cells from `s` on leave those before alone.
    cells-kept :
        (left s i : ℕ) (c : fl.Float) (result : CalResult) (run : CalRun)
        → i < s
        → i < cell_max_count
        → Stored i c run.store
        → Stored i c (calibrate_cells fl mem e b takes r target left s result run).1.store
    cells-kept zero s i c result run before small h = h
    cells-kept (suc left) s i c result run before small h =
        cells-kept left (suc s) i c _ _ (omega arith) small (
          either (λ next. Stored i c next.store) (not (takes (b.cell_type s))) run
            (calibrate_into fl mem e b r s target run).1 h
            (into-kept r i s target c run small (λ eq. omega (arith, eq)) h))

    -- A failure is not forgotten.
    cells-prior :
        (left s : ℕ) (result : CalResult) (run : CalRun)
        → is_ok (calibrate_cells fl mem e b takes r target left s result run).0 ≡ true
        → is_ok result ≡ true
    cells-prior zero s result run good = good
    cells-prior (suc left) s result run good = ground (arith, cells-prior left (suc s) _ _ good)

    worse-ok : (result other : CalResult) → is_ok (worse result other) ≡ true → is_ok other ≡ true
    worse-ok result ok good = refl
    worse-ok result rejected good = good
    worse-ok result out_of_range good = good
    worse-ok result failed good = good

    first-Calibrated :
        (left i : ℕ) (result : CalResult) (run : CalRun)
        → is_ok (calibrate_cells fl mem e b takes r target (suc left) i result run).0 ≡ true
        → i < b.cell_count
        → i < cell_max_count
        → takes (b.cell_type i) ≡ true
        → Calibrated r target i
            (calibrate_cells fl mem e b takes r target (suc left) i result run).1.store
    unfolding calibrate_into
    first-Calibrated left i result run good here small t =
        let one = calibrate_into fl mem e b r i target run in
        let rest : Bool → CalResult × CalRun = λ taken.
          calibrate_cells fl mem e b takes r target left (suc i)
            (if not taken then result else worse result one.0) (if not taken then run else one.1) in
        let good' : is_ok (rest true).0 ≡ true =
          subst (λ taken. is_ok (rest taken).0 ≡ true) t good in
        let fine =
          worse-ok result one.0 (cells-prior left (suc i) (worse result one.0) one.1 good') in
        let now = (calibrate_cell-Sets r target i run.store here small).sets fine in
        subst (λ taken. Calibrated r target i (rest taken).1.store) (sym t)
          (record {
            msg = now.msg;
            was_read = now.was_read;
            accepted = now.accepted;
            held =
                cells-kept left (suc i) i _ (worse result one.0) one.1 (omega arith) small now.held;
          })

    -- When the loop ends in success, each cell that it takes was calibrated.
    pub cells-Calibrated :
        (left s i : ℕ) (result : CalResult) (run : CalRun)
        → is_ok (calibrate_cells fl mem e b takes r target left s result run).0 ≡ true
        → s ≤ i
        → i < s + left
        → i < b.cell_count
        → i < cell_max_count
        → takes (b.cell_type i) ≡ true
        → Calibrated r target i
            (calibrate_cells fl mem e b takes r target left s result run).1.store
    cells-Calibrated zero s i result run good low high here small t = absurd (omega arith)
    cells-Calibrated (suc left) s i result run good low high here small t = elim (ℕ_discrete i s) [
      | no ne ↦
          cells-Calibrated left (suc s) i _ _ good (omega (arith, ne)) (omega arith) here small t
      | yes eq ↦
          subst
            (λ s.
              is_ok (calibrate_cells fl mem e b takes r target (suc left) s result run).0 ≡ true
              → Calibrated r target i
                  (calibrate_cells fl mem e b takes r target (suc left) s result run).1.store)
            eq (λ good. first-Calibrated left i result run good here small t) good
    ]
