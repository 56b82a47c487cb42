-- ===== src/Settings/Cache.antt =====
-- The live settings, how they are loaded, changed and saved (Firmware/src/runtime_settings.c).
use dive_canhead.Base.{ℕ, ◌%◌, Bool, true, not, ◌&&◌, List, [], ◌∷◌, ◌==◌, if◌then◌else◌}
use dive_canhead.ExternalFlash.{
  Backend, Reader, ext_flash_settings_save_one, ext_flash_settings_load_subtree, enoent, einval,
}
use dive_canhead.Settings.{
  Gains, Build, RuntimeSettings, Field, ppo2, cal, depth, kp, ki, kd, bat, bcst, ident, other,
  fetch, u8_of, flag_of, flags_of, of_flag, ppo2_mode_valid, cal_mode_valid, battery_type_valid,
  divecan_identity_valid, pid_gain_valid, runtime_settings_default, runtime_settings_validate,
}

-- `getCached`, `getLoadedFlag`, and the flash that outlives a restart
pub record State (G F : Type 0) : Type 0 where
  pub cached : RuntimeSettings G
  pub loaded : Bool
  pub flash : F

-- The keys in the order in which `runtime_settings_save` names them
abbrev pub saved_fields : List Field
saved_fields = ppo2 ∷ cal ∷ depth ∷ kp ∷ ki ∷ kd ∷ bat ∷ bcst ∷ ident ∷ []

abbrev pub first_error : ℕ → List ℕ → ℕ
first_error first [] = first
first_error first (rc ∷ rcs) = first_error (if (first == 0) && not (rc == 0) then rc else first) rcs

module _ (b : Build) (g : Gains) where
  -- `load_ppo2`, `load_cal`, `load_depth`, `load_pid_gain`, `load_battery`, `load_bcst` and
  -- `load_identity`, with the choice of the key
  abbrev pub settings_set : Field → Reader → RuntimeSettings g.Gain → ℕ × RuntimeSettings g.Gain
  settings_set ppo2 cb c =
      (0, record c { ppo2_control_mode = fetch 1 u8_of (ppo2_mode_valid b) cb c.ppo2_control_mode })
  settings_set cal cb c =
      (0, record c { calibration_mode = fetch 1 u8_of (cal_mode_valid b) cb c.calibration_mode })
  settings_set depth cb c = (
    0,
    record c {
      depth_compensation =
          fetch 1 (λ bytes. flag_of (u8_of bytes)) (λ _. true) cb c.depth_compensation;
    },
  )
  settings_set kp cb c = (0, record c { pid_kp = fetch 4 g.decode (pid_gain_valid g) cb c.pid_kp })
  settings_set ki cb c = (0, record c { pid_ki = fetch 4 g.decode (pid_gain_valid g) cb c.pid_ki })
  settings_set kd cb c = (0, record c { pid_kd = fetch 4 g.decode (pid_gain_valid g) cb c.pid_kd })
  settings_set bat cb c =
      (0, record c { battery_type = fetch 1 u8_of battery_type_valid cb c.battery_type })
  settings_set bcst cb c =
      (0, record c { enforce_broadcast = fetch 3 flags_of (λ _. true) cb c.enforce_broadcast })
  settings_set ident cb c = (
    0,
    record c { divecan_identity = fetch 1 u8_of divecan_identity_valid cb c.divecan_identity },
  )
  settings_set other cb c = (enoent, c)

  -- The calls of the handler while the subtree is loaded
  abbrev pub replay : List (Field × Reader) → RuntimeSettings g.Gain → RuntimeSettings g.Gain
  replay [] c = c
  replay (call ∷ calls) c = replay calls (settings_set call.0 call.1 c).1

  -- The bytes that a field is saved as
  abbrev pub bytes_of : Field → RuntimeSettings g.Gain → List ℕ
  bytes_of ppo2 s = (s.ppo2_control_mode % 256) ∷ []
  bytes_of cal s = (s.calibration_mode % 256) ∷ []
  bytes_of depth s = of_flag s.depth_compensation ∷ []
  bytes_of kp s = g.encode s.pid_kp
  bytes_of ki s = g.encode s.pid_ki
  bytes_of kd s = g.encode s.pid_kd
  bytes_of bat s = (s.battery_type % 256) ∷ []
  bytes_of bcst s =
      let cells = s.enforce_broadcast in
      of_flag cells.cell_0 ∷ of_flag cells.cell_1 ∷ of_flag cells.cell_2 ∷ []
  bytes_of ident s = (s.divecan_identity % 256) ∷ []
  bytes_of other s = []

  module _ (e : Backend Field) where
    -- The result, and what `*out` is set to
    unfoldable pub runtime_settings_load :
        State g.Gain e.Flash → ℕ × RuntimeSettings g.Gain × State g.Gain e.Flash
    runtime_settings_load st =
        let fresh = runtime_settings_default b g in
        let rc = e.settings_subsys_init st.flash in
        let (_, calls) = ext_flash_settings_load_subtree e st.flash in
        let read = replay calls fresh in
        let kept = if runtime_settings_validate b g read then read else fresh in
        if st.loaded
        then (0, st.cached, st)
        else if not (rc == 0)
        then (rc, fresh, record st { cached = fresh; loaded = true })
        else (0, kept, record st { cached = kept; loaded = true })

    -- One write after the other, with the result of each
    abbrev pub save_all : List Field → RuntimeSettings g.Gain → e.Flash → List ℕ × e.Flash
    save_all [] s f = ([], f)
    save_all (field ∷ fields) s f =
        let (rc, f') = ext_flash_settings_save_one e field (bytes_of field s) f in
        let (rcs, f'') = save_all fields s f' in (rc ∷ rcs, f'')

    unfoldable pub runtime_settings_save :
        RuntimeSettings g.Gain → State g.Gain e.Flash → ℕ × State g.Gain e.Flash
    runtime_settings_save s st =
        let (rc_codes, f) = save_all saved_fields s st.flash in
        let first_err = first_error 0 rc_codes in
        if not (runtime_settings_validate b g s)
        then (einval, st)
        else if first_err == 0
        then (0, record st { cached = s; flash = f })
        else (first_err, record st { flash = f })

    -- The `switch` over the field
    abbrev pub save_one_field : Field → State g.Gain e.Flash → ℕ × State g.Gain e.Flash
    save_one_field other st = (einval, st)
    save_one_field field st =
        let (rc, f) = ext_flash_settings_save_one e field (bytes_of field st.cached) st.flash in
        (rc, record st { flash = f })

    unfoldable pub runtime_settings_save_field :
        Field → State g.Gain e.Flash → ℕ × State g.Gain e.Flash
    runtime_settings_save_field field st =
        if runtime_settings_validate b g st.cached then save_one_field field st else (einval, st)

    unfoldable pub runtime_settings_set_volatile :
        RuntimeSettings g.Gain → State g.Gain e.Flash → ℕ × State g.Gain e.Flash
    runtime_settings_set_volatile s st =
        if not (runtime_settings_validate b g s)
        then (einval, st)
        else (0, record st { cached = s })
