-- ===== src/Uds/Dispatch/Table.antt =====
-- What every request leaves alone, handler by handler: a property of the state after a request
-- follows from those of the handlers that touch the image, the flash or a solenoid.
use dive_canhead.Base.{
  ℕ, zero, suc, ◌+◌, ◌*◌, ◌-◌, ◌%◌, ◌/◌, ◌++◌, ◌≡◌, refl, List, Bool, true, false, not, ◌&&◌, ◌||◌,
  Option, ltb, leb, ◌==◌, inl, inr, Option-cases, if◌then◌else◌, length, either,
}
use dive_canhead.Uds.Same.{SameState, same}
use dive_canhead.Uds.{Config, Device, Head, Risk, Handed, at, in_dive}
use dive_canhead.Uds.Write.{
  write_setpoint, write_calibration, write_solenoid_override, write_autotune, write_histogram_clear,
  write_force_revert, write_restore_factory, write_factory_capture, write_erase,
  write_fault_injection, write_log_erase, write_log_setting, write_cell_broadcast, write_setting,
  write_setting_save, write_setting_value,
}
use dive_canhead.Uds.Dispatch.{
  session_control, read_loop, read_data, read_single, write_range, write_log_table, write_table,
  write_data, setting_did_busy, is_setting,
}

module _ (h : Head) (P : Head → Type 0)
    (plain : (h' : Head) → SameState h h' → h'.risks ≡ h.risks → P h') where
  -- Both branches of a test, the first one plain.
  else_plain :
      (t : Bool) (a b : Head) → SameState h a → a.risks ≡ h.risks → P b → P (if t then a else b)
  else_plain t a b s r q = either P t a b (plain a s r) q

  setpoint_case : (request : List ℕ) (n : ℕ) → P (write_setpoint request n h)
  unfolding write_setpoint
  setpoint_case request n = else_plain (not (n == 5)) _ _ (same h) refl (plain _ (same h) refl)

  calibration_case : (d : Device) (request : List ℕ) (n : ℕ) → P (write_calibration d request n h)
  unfolding write_calibration
  calibration_case d request n = else_plain (not (n == 5)) _ _ (same h) refl (
      else_plain (ltb 100 (at request 4)) _ _ (same h) refl
        (else_plain d.calibration_running _ _ (same h) refl (plain _ (same h) refl)))

  log_setting_case :
      (d : Device) (what : Handed) (request : List ℕ) (n : ℕ)
      → P (write_log_setting d what request n h)
  unfolding write_log_setting
  log_setting_case d what request n =
      else_plain (not (n == 5)) _ _ (same h) refl
        (else_plain (not (d.log_setting == 0)) _ _ (same h) refl (plain _ (same h) refl))

  setting_case :
      (d : Device) (what : Handed) (request : List ℕ) → P (write_setting d what request h)
  unfolding write_setting
  setting_case d what request =
      else_plain (not d.setting_accepted) _ _ (same h) refl (plain _ (same h) refl)

  range_case :
      (cfg : Config) (d : Device) (did : ℕ) (request : List ℕ) (n : ℕ)
      → P (write_range cfg d did request n h)
  unfolding write_range write_cell_broadcast write_setting_save write_setting_value
  range_case cfg d did request n =
      either P
        (cfg.has_diveo2_cell && leb 0xF400 did && ltb did 0xF430 && (did - 0xF400) % 16 == 13) _ _
        (else_plain (not (n == 5)) _ _ (same h) refl (plain _ (same h) refl))
        (else_plain (setting_did_busy d did true) _ _ (same h) refl (
          either P (is_setting d 0x9350 did) _ _ (setting_case d _ request) (
            either P (is_setting d 0x9130 did) _ _
              (else_plain (not (n == 12)) _ _ (same h) refl (setting_case d _ request))
              (plain _ (same h) refl))))

  pub session_case : (d : Device) (request : List ℕ) (n : ℕ) → P (session_control d request n h)
  unfolding session_control
  session_case d request n = else_plain (ltb n 2) _ _ (same h) refl (
      else_plain (at request 2 == 1) _ _ (same h) refl (
        else_plain (not (at request 2 == 2)) _ _ (same h) refl
          (else_plain (in_dive d) _ _ (same h) refl (plain _ (same h) refl))))

  read_loop_case :
      (payload : ℕ → ℕ → Option (List ℕ)) (d : Device) (request : List ℕ) (count i : ℕ)
      (response : List ℕ)
      → P (read_loop payload d request count i response h)
  unfolding read_loop
  read_loop_case payload d request zero i response = plain _ (same h) refl
  read_loop_case payload d request (suc count) i response =
      let did = at request i * 256 + at request (i + 1) in
      else_plain (setting_did_busy d did false) _ _ (same h) refl
        (elim (Option-cases (read_single payload did (length response))) [
          | inl e ↦ rw e (plain _ (same h) refl)
          | inr (bytes, e) ↦ rw e (
              else_plain (leb 256 (length (response ++ bytes))) _ _ (same h) refl
                (read_loop_case payload d request count (i + 2) (response ++ bytes)))
        ])

  pub read_case :
      (payload : ℕ → ℕ → Option (List ℕ)) (d : Device) (request : List ℕ) (n : ℕ)
      → P (read_data payload d request n h)
  unfolding read_data
  read_case payload d request n =
      else_plain (ltb n 4 || not ((n - 2) % 2 == 0)) _ _ (same h) refl
        (read_loop_case payload d request ((n - 2) / 2) 2 _)

  -- The handlers that are not plain
  abbrev pub Handlers : Config → Device → List ℕ → ℕ → Type 0
  Handlers cfg d request n =
      P (write_solenoid_override d request n h)
      × P (write_autotune d request n h)
      × P (write_histogram_clear d request h)
      × P (write_force_revert cfg d request n h)
      × P (write_restore_factory d request n h)
      × P (write_factory_capture d request n h)
      × ((what : Risk) → P (write_erase cfg d what request n h))
      × P (write_fault_injection d request n h)
      × P (write_log_erase d request n h)

  log_table_case :
      (cfg : Config) (d : Device) (did : ℕ) (request : List ℕ) (n : ℕ)
      → P (write_log_erase d request n h)
      → P (write_log_table cfg d did request n h)
  unfolding write_log_table
  log_table_case cfg d did request n erase = either P (cfg.flash_log && did == 0xF282) _ _ erase (
      either P (cfg.flash_log && did == 0xF283) _ _ (log_setting_case d _ request n) (
        either P (cfg.flash_log && did == 0xF284) _ _ (log_setting_case d _ request n)
          (range_case cfg d did request n)))

  table_case :
      (cfg : Config) (d : Device) (did : ℕ) (request : List ℕ) (n : ℕ)
      → Handlers cfg d request n
      → P (write_table cfg d did request n h)
  unfolding write_table
  table_case cfg d did request n (fire, tune, clear, revert, restore, capture, erase, inject, log) =
      either P (did == 0xF240) _ _ (setpoint_case request n) (
        either P (did == 0xF241) _ _ (calibration_case d request n) (
          either P (cfg.has_o2_solenoid && did == 0xF242) _ _ fire (
            either P (cfg.has_o2_solenoid && did == 0xF243) _ _ tune (
              either P (did == 0xF261) _ _ clear (
                either P (did == 0xF275) _ _ revert (
                  either P (did == 0xF276) _ _ restore (
                    either P (did == 0xF277) _ _ capture (
                      either P (did == 0xF278) _ _ (erase _) (
                        either P (did == 0xF279) _ _ (erase _) (
                          either P (did == 0xF27A) _ _ inject
                            (log_table_case cfg d did request n log)))))))))))

  pub write_case :
      (cfg : Config) (d : Device) (request : List ℕ) (n : ℕ)
      → Handlers cfg d request n
      → P (write_data cfg d request n h)
  unfolding write_data
  write_case cfg d request n hs =
      else_plain (ltb n 4) _ _ (same h) refl
        (table_case cfg d (at request 2 * 256 + at request 3) request n hs)
