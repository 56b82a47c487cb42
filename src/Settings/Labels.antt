-- ===== src/Settings/Labels.antt =====
-- The labels of the settings and of their options, as the handset reads them
-- (Firmware/src/divecan/uds/uds_settings.c).
use Prim.Native.String.{String}
use dive_canhead.Base.{
  ℕ, ◌+◌, ◌-◌, ◌*◌, ◌/◌, ◌%◌, ◌^◌, ◌<◌, ◌≡◌, refl, Bool, true, false, Option, none, some, List, [],
  ◌∷◌, ◌++◌, length, take, replicate, get_or, leb, if◌then◌else◌, arith, length-append, length-take,
  length-replicate,
}
use dive_canhead.Settings.{Build}
use dive_canhead.Settings.Menu.{setting_count, menu_to_storage}
use dive_canhead.Settings.Values.{
  Setting, fw_commit, ppo2_mode, cal_mode, depth_comp, pid_kp, pid_ki, pid_kd, battery, divecan_id,
  absent, cell_bcst, setting_at, max_value, is_editable,
}

-- SETTING_KIND_TEXT, against SETTING_KIND_NUMBER
abbrev is_text : Setting → Bool
is_text pid_kp = false
is_text pid_ki = false
is_text pid_kd = false
is_text absent = false
is_text _ = true

abbrev bool_options : List String
bool_options = "Off" ∷ "On" ∷ []

-- The options of a setting without the closing NULL; `version` is APP_BUILD_VERSION_STR.
abbrev options : String → Setting → List String
options version fw_commit = version ∷ []
options version ppo2_mode = "Off" ∷ "PID" ∷ "MK15" ∷ []
options version cal_mode = "Dig Ref" ∷ "Absolute" ∷ "TotalAbs" ∷ "Sol Flsh" ∷ "Check" ∷ []
options version depth_comp = bool_options
options version battery = "9V" ∷ "Li 1S" ∷ "Li 2S" ∷ "Li 3S" ∷ []
options version (cell_bcst cell) = bool_options
options version divecan_id = "SOLO" ∷ "OBOE" ∷ []
options version pid_kp = []
options version pid_ki = []
options version pid_kd = []
options version absent = []

-- `none` is NULL.
get_setting_option_label : String → Build → ℕ → ℕ → Option String
get_setting_option_label version b setting_index option_index =
    let storage = menu_to_storage b setting_index in
    let labels = options version (setting_at storage) in
    if leb setting_count storage
    then none
    else if leb (length labels) option_index
    then none
    else some (get_or labels option_index "")

-- UDS_DID_SETTING_LABEL_BASE
abbrev setting_label_base : ℕ
setting_label_base = 0x9150

-- The index of the setting and that of the option
decode_setting_label_did : ℕ → ℕ × ℕ
decode_setting_label_did did =
    let offset = (did + 2 ^ 16 - setting_label_base) % 2 ^ 16 in (offset / 16 % 16, offset % 16)

-- The bytes of a label, up to its NUL, in a field of a fixed width; 0x20 is the space.
format_option_label : List ℕ → ℕ → List ℕ
format_option_label label width =
    let head = take width label in head ++ replicate (width - length head) 0x20

-- An editable text setting has a label for each value that may be written, and for no other.
length-options :
    (version : String) (k : Setting)
    → is_text k ≡ true
    → is_editable k ≡ true
    → length (options version k) ≡ max_value k + 1
length-options version fw_commit h e = cc e
length-options version ppo2_mode h e = refl
length-options version cal_mode h e = refl
length-options version depth_comp h e = refl
length-options version battery h e = refl
length-options version (cell_bcst cell) h e = refl
length-options version divecan_id h e = refl
length-options version pid_kp h e = cc h
length-options version pid_ki h e = cc h
length-options version pid_kd h e = cc h
length-options version absent h e = cc h

-- An identifier of a label is taken apart into the indices it was made of.
decode_setting_label_did_lem :
    (setting option : ℕ)
    → setting < 16
    → option < 16
    → decode_setting_label_did (setting_label_base + 16 * setting + option) ≡ (setting, option)
unfolding decode_setting_label_did
decode_setting_label_did_lem setting option hs ho =
    let offset : (setting_label_base + 16 * setting + option + 2 ^ 16 - setting_label_base) % 2 ^ 16
        ≡ 16 * setting + option =
      omega arith in
    let high : (16 * setting + option) / 16 % 16 ≡ setting = omega arith in
    let low : (16 * setting + option) % 16 ≡ option = omega arith in rw (offset, high, low) refl

-- A label fills its field, whatever its length.
length-format_option_label :
    (label : List ℕ) (width : ℕ) → length (format_option_label label width) ≡ width
unfolding format_option_label
length-format_option_label label width =
    let space : ℕ = 0x20 in
    let pad = width - length (take width label) in
    omega (
      arith,
      length-append (take width label) (replicate pad space),
      length-take width label,
      length-replicate pad space,
    )
