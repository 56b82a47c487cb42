-- ===== src/Settings.antt =====
-- The persistent settings (Firmware/src/runtime_settings.c, Firmware/include/runtime_settings.h). The
-- floating-point arithmetic is the argument `g`, the settings subsystem the argument `e`.
pub mod Cache
pub mod Validity
pub mod Restart
mod Examples
pub mod Menu
pub mod Values
pub mod Labels
use dive_canhead.Base.{
  ℕ, zero, suc, ◌%◌, ◌≡◌, Bool, true, false, not, ◌&&◌, ◌||◌, Option, none, some, List, [], ◌∷◌,
  ◌++◌, length, get_or, ltb, ◌==◌, if◌then◌else◌,
}
use dive_canhead.ExternalFlash.{
  Backend, Reader, ext_flash_settings_save_one, ext_flash_settings_load_subtree, enoent, einval,
}

-- `Numeric_t`: `at_most a b` is `a <= b`, `of_int` the cast from an integer, and `encode` and `decode`
-- the four bytes of a value in memory. The literals of the defaults are among them.
pub record Gains : Type 1 where
  pub Gain : Type 0
  pub isfinite : Gain → Bool
  pub at_most : Gain → Gain → Bool
  pub of_int : ℕ → Gain
  pub times : Gain → Gain → Gain
  pub over : Gain → Gain → Gain
  pub lroundf : Gain → ℕ
  pub encode : Gain → List ℕ
  pub decode : List ℕ → Gain
  pub default_kp : Gain
  pub default_ki : Gain
  pub default_kd : Gain

-- PID_GAIN_MAX
abbrev pub pid_gain_max : ℕ
pid_gain_max = 100

-- The choices of Kconfig; a menu slot of -1 is `none`.
pub record Build : Type 0 where
  pub has_o2_solenoid : Bool
  pub has_digital_cell : Bool
  pub has_flush_solenoid : Bool
  pub has_dil_flush_solenoid : Bool
  pub ppo2_default_pid : Bool
  pub ppo2_default_mk15 : Bool
  pub cal_default_digital_ref : Bool
  pub cal_default_absolute : Bool
  pub cal_default_total_absolute : Bool
  pub cal_default_check : Bool
  pub depth_default : Bool
  pub battery_9v : Bool
  pub battery_li1s : Bool
  pub battery_li3s : Bool
  pub identity_oboe : Bool
  pub menu_slots : List (Option ℕ)

-- `PPO2ControlMode_t`: Off, PID and MK15 are 0, 1 and 2.
abbrev pub valid_ppo2_control_modes : Build → List ℕ
valid_ppo2_control_modes b = 0 ∷ (if b.has_o2_solenoid then 1 ∷ 2 ∷ [] else [])

abbrev pub ppo2_control_mode_default : Build → ℕ
ppo2_control_mode_default b = if b.ppo2_default_pid then 1 else if b.ppo2_default_mk15 then 2 else 0

-- `CalMethod_t`: digital reference, analog absolute, total absolute, solenoid flush and check are 0 to 4.
abbrev pub valid_cal_modes : Build → List ℕ
valid_cal_modes b =
    (if b.has_digital_cell then 0 ∷ [] else [])
    ++ (1 ∷ 2 ∷ (if b.has_flush_solenoid || b.has_o2_solenoid then 3 ∷ [] else [])
        ++ (if b.has_flush_solenoid && b.has_dil_flush_solenoid then 4 ∷ [] else []))

abbrev pub cal_mode_default : Build → ℕ
cal_mode_default b =
    if b.cal_default_digital_ref
    then 0
    else if b.cal_default_absolute
    then 1
    else if b.cal_default_total_absolute
    then 2
    else if b.cal_default_check
    then 4
    else 3

-- BATTERY_TYPE_COUNT and DIVECAN_IDENTITY_COUNT
abbrev pub battery_type_count : ℕ
battery_type_count = 4

abbrev pub divecan_identity_count : ℕ
divecan_identity_count = 2

abbrev pub battery_type_default : Build → ℕ
battery_type_default b =
    if b.battery_9v then 0 else if b.battery_li1s then 1 else if b.battery_li3s then 3 else 2

abbrev pub divecan_identity_default : Build → ℕ
divecan_identity_default b = if b.identity_oboe then 1 else 0

-- `enforce_broadcast`, one flag for each of the CELL_MAX_COUNT cells
pub record Broadcast : Type 0 where
  pub cell_0 : Bool
  pub cell_1 : Bool
  pub cell_2 : Bool

pub record RuntimeSettings (G : Type 0) : Type 0 where
  pub ppo2_control_mode : ℕ
  pub calibration_mode : ℕ
  pub depth_compensation : Bool
  pub pid_kp : G
  pub pid_ki : G
  pub pid_kd : G
  pub battery_type : ℕ
  pub enforce_broadcast : Broadcast
  pub divecan_identity : ℕ

-- `RuntimeSettingField_t` and the names of the keys below "rt", one for each field; `other` is any
-- other value or name.
pub data Field : Type 0 where
  ppo2 cal depth kp ki kd bat bcst ident other : Field

-- The loop over a table of allowed values
abbrev pub is_listed : Bool → ℕ → List ℕ → Bool
is_listed found val [] = found
is_listed found val (x ∷ xs) = is_listed (if x == val then true else found) val xs

abbrev pub ppo2_mode_valid : Build → ℕ → Bool
ppo2_mode_valid b val = is_listed false val (valid_ppo2_control_modes b)

abbrev pub cal_mode_valid : Build → ℕ → Bool
cal_mode_valid b val = is_listed false val (valid_cal_modes b)

abbrev pub battery_type_valid : ℕ → Bool
battery_type_valid val = ltb val battery_type_count

abbrev pub divecan_identity_valid : ℕ → Bool
divecan_identity_valid val = ltb val divecan_identity_count

abbrev pub u8_of : List ℕ → ℕ
u8_of bytes = get_or bytes 0 0

abbrev pub flag_of : ℕ → Bool
flag_of byte = not (byte == 0)

abbrev pub of_flag : Bool → ℕ
of_flag flag = if flag then 1 else 0

-- What a loader makes of a read: the value if all of its bytes came and it is valid, else the old one.
abbrev pub fetch : {A : Type 0} → ℕ → (List ℕ → A) → (A → Bool) → Reader → A → A
fetch size value valid cb old = elim (cb size) [
  | none ↦ old
  | some bytes ↦ if (size == length bytes) && valid (value bytes) then value bytes else old
]

abbrev pub flags_of : List ℕ → Broadcast
flags_of bytes = record {
  cell_0 = flag_of (get_or bytes 0 0);
  cell_1 = flag_of (get_or bytes 1 0);
  cell_2 = flag_of (get_or bytes 2 0);
}

abbrev pub pid_gain_valid : (g : Gains) → g.Gain → Bool
pid_gain_valid g k =
    g.isfinite k && (g.at_most (g.of_int 0) k && g.at_most k (g.of_int pid_gain_max))

module _ (b : Build) (g : Gains) where
  -- RUNTIME_SETTINGS_DEFAULT
  abbrev pub runtime_settings_default : RuntimeSettings g.Gain
  runtime_settings_default = record {
    ppo2_control_mode = ppo2_control_mode_default b;
    calibration_mode = cal_mode_default b;
    depth_compensation = b.depth_default;
    pid_kp = g.default_kp;
    pid_ki = g.default_ki;
    pid_kd = g.default_kd;
    battery_type = battery_type_default b;
    enforce_broadcast = record { cell_0 = false; cell_1 = false; cell_2 = false };
    divecan_identity = divecan_identity_default b;
  }

  unfoldable pub runtime_settings_validate : RuntimeSettings g.Gain → Bool
  runtime_settings_validate s =
      if not (ppo2_mode_valid b s.ppo2_control_mode)
      then false
      else if not (cal_mode_valid b s.calibration_mode)
      then false
      else if not (pid_gain_valid g s.pid_kp)
          || (not (pid_gain_valid g s.pid_ki) || not (pid_gain_valid g s.pid_kd))
      then false
      else if not (battery_type_valid s.battery_type)
      then false
      else if not (divecan_identity_valid s.divecan_identity)
      then false
      else if b.has_o2_solenoid
      then true
      else not s.depth_compensation
