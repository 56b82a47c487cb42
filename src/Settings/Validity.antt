-- ===== src/Settings/Validity.antt =====
-- The live settings are always valid.
use dive_canhead.Base.{
  ℕ, ◌≡◌, refl, ◌∙◌, ap, inl, inr, true, false, not, ◌||◌, List, [], ◌∷◌, ◌==◌, if◌then◌else◌,
  arith, Bool-cases, either,
}
use dive_canhead.ExternalFlash.{Backend}
use dive_canhead.Settings.{
  Gains, Build, RuntimeSettings, Field, ppo2, cal, depth, kp, ki, kd, bat, bcst, ident, other,
  ppo2_mode_valid, cal_mode_valid, ppo2_control_mode_default, cal_mode_default, pid_gain_valid,
  runtime_settings_default, runtime_settings_validate,
}
use dive_canhead.Settings.Cache.{
  State, runtime_settings_load, runtime_settings_save, runtime_settings_save_field,
  runtime_settings_set_volatile, save_one_field,
}
use dive_canhead.Settings.Values.{
  stage, setting_at, setting_index_to_field, set_setting_value, save_setting, save_setting_value,
}
use dive_canhead.Settings.Menu.{menu_to_storage}

-- What Kconfig and the static asserts of runtime_settings.h demand of the defaults
pub record IsBuild (b : Build) : Type 0 where
  pub pid_needs_solenoid : b.ppo2_default_pid ≡ true → b.has_o2_solenoid ≡ true
  pub mk15_needs_solenoid : b.ppo2_default_mk15 ≡ true → b.has_o2_solenoid ≡ true
  pub reference_needs_digital : b.cal_default_digital_ref ≡ true → b.has_digital_cell ≡ true
  pub check_needs_flush : b.cal_default_check ≡ true → b.has_flush_solenoid ≡ true
  pub check_needs_diluent : b.cal_default_check ≡ true → b.has_dil_flush_solenoid ≡ true
  pub flush_needs_solenoid :
      cal_mode_default b ≡ 3 → (b.has_flush_solenoid || b.has_o2_solenoid) ≡ true
  pub depth_needs_solenoid : b.depth_default ≡ true → b.has_o2_solenoid ≡ true

-- The literals of the default gains are in range.
pub record IsGains (g : Gains) : Type 0 where
  pub kp_valid : pid_gain_valid g g.default_kp ≡ true
  pub ki_valid : pid_gain_valid g g.default_ki ≡ true
  pub kd_valid : pid_gain_valid g g.default_kd ≡ true

default_ppo2 : (b : Build) → IsBuild b → ppo2_mode_valid b (ppo2_control_mode_default b) ≡ true
default_ppo2 b h = ground (arith, h.pid_needs_solenoid, h.mk15_needs_solenoid)

default_cal : (b : Build) → IsBuild b → cal_mode_valid b (cal_mode_default b) ≡ true
default_cal b h = ground (
  arith, h.reference_needs_digital, h.check_needs_flush, h.check_needs_diluent,
  h.flush_needs_solenoid,
)

-- What a user or the start of the head does with the settings. `restart` is a power cycle: the
-- variables have their initial values again, and the flash stays.
pub data Op (G : Type 0) : Type 0 where
  restart load : Op G
  save set_volatile : RuntimeSettings G → Op G
  save_field : Field → Op G
  set_value save_value : ℕ → ℕ → Op G

module _ (b : Build) (g : Gains) where
  default-valid :
      IsBuild b → IsGains g → runtime_settings_validate b g (runtime_settings_default b g) ≡ true
  unfolding runtime_settings_validate
  default-valid h hg = ground (
    arith,
    default_ppo2 b h,
    default_cal b h,
    hg.kp_valid,
    hg.ki_valid,
    hg.kd_valid,
    h.depth_needs_solenoid,
  )

  module _ (e : Backend Field) where
    abbrev IsValid : State g.Gain e.Flash → Type 0
    IsValid st = runtime_settings_validate b g st.cached ≡ true

    abbrev pub run : Op g.Gain → State g.Gain e.Flash → State g.Gain e.Flash
    run restart st = record st { cached = runtime_settings_default b g; loaded = false }
    run load st = (runtime_settings_load b g e st).2
    run (save s) st = (runtime_settings_save b g e s st).1
    run (set_volatile s) st = (runtime_settings_set_volatile b g e s st).1
    run (save_field field) st = (runtime_settings_save_field b g e field st).1
    run (set_value i v) st = (set_setting_value g b e i v st).1
    run (save_value i v) st = (save_setting_value g b e i v st).1

    abbrev pub history : State g.Gain e.Flash → List (Op g.Gain) → State g.Gain e.Flash
    history st [] = st
    history st (op ∷ ops) = history (run op st) ops

    set_volatile-IsValid :
        (s : RuntimeSettings g.Gain) (st : State g.Gain e.Flash)
        → IsValid st
        → IsValid (runtime_settings_set_volatile b g e s st).1
    unfolding runtime_settings_set_volatile
    set_volatile-IsValid s st h = elim (Bool-cases (runtime_settings_validate b g s)) [
      | inl v ↦ rw v v
      | inr v ↦ rw v h
    ]

    save_one_field-cached :
        (field : Field) (st : State g.Gain e.Flash)
        → (save_one_field b g e field st).1.cached ≡ st.cached
    save_one_field-cached field st =
        elim field as (λ f. (save_one_field b g e f st).1.cached ≡ st.cached) [
          | other ↦ refl
          | _ ↦ refl
        ]

    -- Saving one field leaves the live settings alone.
    save_field-cached :
        (field : Field) (st : State g.Gain e.Flash)
        → (runtime_settings_save_field b g e field st).1.cached ≡ st.cached
    unfolding runtime_settings_save_field
    save_field-cached field st =
        either (λ r. r.1.cached ≡ st.cached) (runtime_settings_validate b g st.cached)
          (save_one_field b g e field st) _ (save_one_field-cached field st) refl

    adopt-valid :
        (s fresh : RuntimeSettings g.Gain)
        → runtime_settings_validate b g fresh ≡ true
        → runtime_settings_validate b g (if runtime_settings_validate b g s then s else fresh)
          ≡ true
    adopt-valid s fresh h = elim (Bool-cases (runtime_settings_validate b g s)) [
      | inl v ↦ rw v v
      | inr v ↦ rw v h
    ]

    load-IsValid :
        IsBuild b
        → IsGains g
        → (st : State g.Gain e.Flash) → IsValid st
        → IsValid (runtime_settings_load b g e st).2
    unfolding runtime_settings_load
    load-IsValid hb hg st h =
        let start = default-valid hb hg in
        elim (Bool-cases st.loaded) [
          | inl again ↦ rw again h
          | inr first ↦ elim (Bool-cases (not (e.settings_subsys_init st.flash == 0))) [
            | inl failed ↦ rw (first, failed) start
            | inr ready ↦ rw (first, ready) (adopt-valid _ _ start)
          ]
        ]

    save-IsValid :
        (s : RuntimeSettings g.Gain) (st : State g.Gain e.Flash)
        → IsValid st
        → IsValid (runtime_settings_save b g e s st).1
    unfolding runtime_settings_save
    save-IsValid s st h = ground arith

    set_setting_value-IsValid :
        (i v : ℕ) (st : State g.Gain e.Flash)
        → IsValid st
        → IsValid (set_setting_value g b e i v st).1
    unfolding set_setting_value
    set_setting_value-IsValid i v st h =
        let setting = setting_at (menu_to_storage b i) in
        ground (arith, set_volatile-IsValid (stage g setting v st.cached) st h)

    save_setting-cached :
        (field : Field) (st : State g.Gain e.Flash)
        → (save_setting g b e field st).1.cached ≡ st.cached
    save_setting-cached field st =
        elim field as (λ f. (save_setting g b e f st).1.cached ≡ st.cached) [
          | other ↦ refl
          | ppo2 ↦ save_field-cached ppo2 st
          | cal ↦ save_field-cached cal st
          | depth ↦ save_field-cached depth st
          | kp ↦ save_field-cached kp st
          | ki ↦ save_field-cached ki st
          | kd ↦ save_field-cached kd st
          | bat ↦ save_field-cached bat st
          | bcst ↦ save_field-cached bcst st
          | ident ↦ save_field-cached ident st
        ]

    save_setting_value-IsValid :
        (i v : ℕ) (st : State g.Gain e.Flash)
        → IsValid st
        → IsValid (save_setting_value g b e i v st).1
    unfolding save_setting_value
    save_setting_value-IsValid i v st h =
        let st' = (set_setting_value g b e i v st).1 in
        let field = setting_index_to_field (setting_at (menu_to_storage b i)) in
        ground (arith, set_setting_value-IsValid i v st h, save_setting-cached field st')

    run-IsValid :
        IsBuild b
        → IsGains g
        → (op : Op g.Gain) (st : State g.Gain e.Flash) → IsValid st
        → IsValid (run op st)
    run-IsValid hb hg restart st h = default-valid hb hg
    run-IsValid hb hg load st h = load-IsValid hb hg st h
    run-IsValid hb hg (save s) st h = save-IsValid s st h
    run-IsValid hb hg (set_volatile s) st h = set_volatile-IsValid s st h
    run-IsValid hb hg (save_field field) st h =
        ap (runtime_settings_validate b g) (save_field-cached field st) ∙ h
    run-IsValid hb hg (set_value i v) st h = set_setting_value-IsValid i v st h
    run-IsValid hb hg (save_value i v) st h = save_setting_value-IsValid i v st h

    history-IsValid :
        IsBuild b
        → IsGains g
        → (ops : List (Op g.Gain)) (st : State g.Gain e.Flash) → IsValid st
        → IsValid (history st ops)
    history-IsValid hb hg [] st h = h
    history-IsValid hb hg (op ∷ ops) st h =
        history-IsValid hb hg ops (run op st) (run-IsValid hb hg op st h)

    -- With the defaults that Kconfig allows, the live settings are valid after every history of
    -- restarts, loads, saves and writes over the diagnostic service, whatever the flash holds and
    -- whichever of its operations fail.
    pub settings_history-IsValid :
        IsBuild b
        → IsGains g
        → (f : e.Flash) (ops : List (Op g.Gain))
        → runtime_settings_validate b g
            (history
              (record { cached = runtime_settings_default b g; loaded = false; flash = f })
              ops).cached
          ≡ true
    settings_history-IsValid hb hg f ops = history-IsValid hb hg ops _ (default-valid hb hg)
