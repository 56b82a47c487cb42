-- ===== src/CalibrationStore.antt =====
-- The stored calibration coefficients (Firmware/src/calibration_store.c). A coefficient is a value of `C`
-- with its four bytes in memory; the settings subsystem is the argument `e`.
pub mod Held
use dive_canhead.Base.{
  ℕ, ◌≡◌, Bool, true, false, not, Option, none, some, List, [], ◌∷◌, length, ltb, ◌==◌,
  if◌then◌else◌,
}
use dive_canhead.ExternalFlash.{
  Backend, Reader, ext_flash_settings_save_one, ext_flash_settings_load_subtree, enoent, eio,
}

-- CELL_MAX_COUNT
abbrev pub cell_max_count : ℕ
cell_max_count = 3

-- `sizeof(CalCoeff_t)`
abbrev pub coeff_size : ℕ
coeff_size = 4

-- The names below "cal": "cell" with a number, as strtol reads it, or any other.
pub data CalKey : Type 0 where
  cell : ℕ → CalKey
  unknown : CalKey

-- The bytes of a coefficient in memory
pub record Memory (C : Type 0) : Type 0 where
  pub encode : C → List ℕ
  pub decode : List ℕ → C

-- `getCalCache`, by the number of the cell, `getCalLoadedFlag`, and the flash
pub record CalStore (C F : Type 0) : Type 0 where
  pub cal_cache : ℕ → C
  pub cal_loaded : Bool
  pub flash : F

abbrev pub cal_parse_cell_key : CalKey → Option ℕ
cal_parse_cell_key (cell n) = if ltb n cell_max_count then some n else none
cal_parse_cell_key unknown = none

abbrev pub write_cell : {C : Type 0} → ℕ → C → (ℕ → C) → ℕ → C
write_cell n v cache i = if i == n then v else cache i

module _ {C : Type 0} (mem : Memory C) where
  -- What is left of cal_settings_set once the key is parsed
  abbrev pub take_value : ℕ → Option (List ℕ) → (ℕ → C) → ℕ × (ℕ → C)
  take_value n none cache = (eio, cache)
  take_value n (some bytes) cache =
      if not (coeff_size == length bytes)
      then (eio, cache)
      else (0, write_cell n (mem.decode bytes) cache)

  abbrev pub cal_settings_set : CalKey → Reader → (ℕ → C) → ℕ × (ℕ → C)
  cal_settings_set key cb cache = elim (cal_parse_cell_key key) [
    | none ↦ (enoent, cache)
    | some n ↦ take_value n (cb coeff_size) cache
  ]

  -- The calls of the handler while the subtree is loaded
  abbrev pub replay : List (CalKey × Reader) → (ℕ → C) → ℕ → C
  replay [] cache = cache
  replay (call ∷ calls) cache = replay calls (cal_settings_set call.0 call.1 cache).1

  -- `none` for an error, else the value whose size is returned
  abbrev pub cal_settings_get : CalKey → ℕ → (ℕ → C) → Option C
  cal_settings_get key val_len_max cache = elim (cal_parse_cell_key key) [
    | none ↦ none
    | some n ↦ if ltb val_len_max coeff_size then none else some (cache n)
  ]

  -- `settings_runtime_get` asks the handler of the subtree.
  abbrev pub calibration_store_load : ℕ → (ℕ → C) → Option C
  calibration_store_load cell_num cache = cal_settings_get (cell cell_num) coeff_size cache

  module _ (e : Backend CalKey) where
    unfoldable pub calibration_store_save : ℕ → C → CalStore C e.Flash → ℕ × CalStore C e.Flash
    calibration_store_save cell_num coeff st =
        let (rc, f) = ext_flash_settings_save_one e (cell cell_num) (mem.encode coeff) st.flash in
        let (loaded, calls) = ext_flash_settings_load_subtree e f in
        if rc == 0
        then (loaded, record st { cal_cache = replay calls st.cal_cache; flash = f })
        else (rc, record st { flash = f })

    -- The load at the start, under the mutex
    calibration_load_coefficients : CalStore C e.Flash → CalStore C e.Flash
    calibration_load_coefficients st =
        let rc = e.settings_subsys_init st.flash in
        let (loaded, calls) = ext_flash_settings_load_subtree e st.flash in
        let read = record st { cal_cache = replay calls st.cal_cache } in
        if st.cal_loaded
        then st
        else if not (rc == 0)
        then st
        else if not (loaded == 0)
        then read
        else record read { cal_loaded = true }
