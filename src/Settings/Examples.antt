-- ===== src/Settings/Examples.antt =====
-- The properties of the settings at concrete inputs.
use dive_canhead.Base.{
  ℕ, ◌+◌, ◌*◌, ◌/◌, ◌≡◌, ◌≢◌, refl, true, false, none, some, List, [], ◌∷◌, length, get_or, leb,
  ltb, if◌then◌else◌,
}
use dive_canhead.ExternalFlash.{Backend, save_again, ext_flash_settings_save_one}
use dive_canhead.ExternalFlash.Journal.{journal, journal-IsBackend}
use dive_canhead.Settings.{
  Gains, Build, RuntimeSettings, runtime_settings_default, runtime_settings_validate, Field,
}
use dive_canhead.Settings.Cache.{
  State, runtime_settings_load, runtime_settings_save, runtime_settings_set_volatile,
}
use dive_canhead.Settings.Menu.{compute_menu_order, menu_to_storage}
use dive_canhead.Settings.Menu.Order.{occurrences, menu_lists_every_setting}
use dive_canhead.Settings.Values.{get_setting_value, set_setting_value}
use dive_canhead.Settings.Values.Access.{set_setting_value-get}
use dive_canhead.Settings.Validity.{
  IsBuild, IsGains, Op, load, save, set_value, save_value, restart, history,
  settings_history-IsValid,
}
use dive_canhead.Settings.Restart.Fields.{IsMemory, same_field}
use dive_canhead.Settings.Restart.{saved_settings_are_loaded}

-- Gains in millionths
abbrev micro : Gains
micro = record {
  Gain = ℕ;
  isfinite = λ k. true;
  at_most = leb;
  of_int = λ n. n * 1000000;
  times = λ a b. a * b / 1000000;
  over = λ a b. a * 1000000 / b;
  lroundf = λ k. (k + 500000) / 1000000;
  encode = λ k. k ∷ 0 ∷ 0 ∷ 0 ∷ [];
  decode = λ bytes. get_or bytes 0 0;
  default_kp = 400000;
  default_ki = 10000;
  default_kd = 0;
}

-- A head with an injection solenoid and digital cells
abbrev solo : Build
solo = record {
  has_o2_solenoid = true;
  has_digital_cell = true;
  has_flush_solenoid = false;
  has_dil_flush_solenoid = false;
  ppo2_default_pid = false;
  ppo2_default_mk15 = true;
  cal_default_digital_ref = true;
  cal_default_absolute = false;
  cal_default_total_absolute = false;
  cal_default_check = false;
  depth_default = false;
  battery_9v = false;
  battery_li1s = true;
  battery_li3s = false;
  identity_oboe = false;
  menu_slots = some 1 ∷ none ∷ some 4 ∷ some 1 ∷ some 40 ∷ [];
}

abbrev nvs : Backend Field
nvs = journal same_field

abbrev booted : State ℕ nvs.Flash
booted = record { cached = runtime_settings_default solo micro; loaded = true; flash = [] }

abbrev tuned : RuntimeSettings ℕ
tuned = record booted.cached { ppo2_control_mode = 1; pid_ki = 29; battery_type = 2 }

menu_lists_every_setting_example :
    (length (compute_menu_order solo.menu_slots 12) ≡ 12)
    × ((v : ℕ)
        → occurrences v (compute_menu_order solo.menu_slots 12) ≡ (if ltb v 12 then 1 else 0))
menu_lists_every_setting_example = menu_lists_every_setting solo.menu_slots 12

menu_order_lem :
    compute_menu_order solo.menu_slots 12 ≡ 1 ∷ 4 ∷ 0 ∷ 2 ∷ 3 ∷ 5 ∷ 6 ∷ 7 ∷ 8 ∷ 9 ∷ 10 ∷ 11 ∷ []
unfolding compute_menu_order
menu_order_lem = refl

accepted : (set_setting_value micro solo nvs 1 29 booted).0 ≡ true
unfolding set_setting_value runtime_settings_set_volatile runtime_settings_validate menu_to_storage
    compute_menu_order
accepted = refl

-- Index 1 of the menu is the proportional gain.
set_setting_value-get_example :
    let st = (set_setting_value micro solo nvs 1 29 booted).1 in
    (get_setting_value micro solo nvs 1 st ≡ 29)
    × ((j : ℕ)
        → j ≢ 1
        → get_setting_value micro solo nvs j st ≡ get_setting_value micro solo nvs j booted)
set_setting_value-get_example = set_setting_value-get micro solo nvs 1 29 booted refl accepted

solo-IsBuild : IsBuild solo
solo-IsBuild = record {
  pid_needs_solenoid = λ e. refl;
  mk15_needs_solenoid = λ e. refl;
  reference_needs_digital = λ e. refl;
  check_needs_flush = λ e. cc e;
  check_needs_diluent = λ e. cc e;
  flush_needs_solenoid = λ e. refl;
  depth_needs_solenoid = λ e. refl;
}

micro-IsGains : IsGains micro
micro-IsGains = record { kp_valid = refl; ki_valid = refl; kd_valid = refl }

abbrev day : List (Op ℕ)
day = load ∷ set_value 1 77 ∷ save tuned ∷ save_value 4 99 ∷ restart ∷ load ∷ []

settings_history-IsValid_example :
    runtime_settings_validate solo micro
      (history solo micro nvs
        (record { cached = runtime_settings_default solo micro; loaded = false; flash = [] })
        day).cached
    ≡ true
settings_history-IsValid_example =
    settings_history-IsValid solo micro nvs solo-IsBuild micro-IsGains [] day

micro-IsMemory : IsMemory micro
micro-IsMemory = record { encode_size = λ k. refl; decode_encode = λ k. refl }

saved_ok : (runtime_settings_save solo micro nvs tuned booted).0 ≡ 0
unfolding runtime_settings_save runtime_settings_validate ext_flash_settings_save_one save_again
saved_ok = refl

saved_settings_are_loaded_example :
    let f = (runtime_settings_save solo micro nvs tuned booted).1.flash in
    runtime_settings_load solo micro nvs
      (record { cached = runtime_settings_default solo micro; loaded = false; flash = f })
    ≡ (0, tuned, record { cached = tuned; loaded = true; flash = f })
saved_settings_are_loaded_example =
    saved_settings_are_loaded solo micro nvs (journal-IsBackend same_field) micro-IsMemory tuned
      booted saved_ok refl refl
