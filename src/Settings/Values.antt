-- ===== src/Settings/Values.antt =====
-- The settings as the diagnostic services read and write them
-- (Firmware/src/divecan/uds/uds_settings.c). The reports of refused values are left out.
pub mod Access
use dive_canhead.Base.{
  ℕ, ◌-◌, ◌*◌, Bool, true, false, not, ◌&&◌, List, [], ◌∷◌, get_or, ltb, leb, ◌==◌, if◌then◌else◌,
}
use dive_canhead.ExternalFlash.{Backend}
use dive_canhead.Settings.{
  Gains, Build, Broadcast, RuntimeSettings, Field, ppo2, cal, depth, kp, ki, kd, bat, bcst, ident,
  other, pid_gain_max, battery_type_count, divecan_identity_count, of_flag,
}
use dive_canhead.Settings.Cache.{State, runtime_settings_set_volatile, runtime_settings_save_field}
use dive_canhead.Settings.Menu.{setting_count, menu_to_storage}

-- The SETTING_INDEX_ names; `cell_bcst` has the number of its cell, and `absent` is any other index.
pub data Setting : Type 0 where
  fw_commit ppo2_mode cal_mode depth_comp pid_kp pid_ki pid_kd battery divecan_id absent : Setting
  cell_bcst : ℕ → Setting

-- SETTING_INDEX_CELL_BCST_BASE, and the index after the flags of the three cells
abbrev pub cell_bcst_base : ℕ
cell_bcst_base = 8

abbrev pub cell_bcst_end : ℕ
cell_bcst_end = 11

abbrev pub setting_is_cell_bcst : ℕ → Bool
setting_is_cell_bcst i = leb cell_bcst_base i && ltb i cell_bcst_end

-- The case of `setting_is_cell_bcst`, and the label of the `switch` that another index selects
abbrev pub setting_at : ℕ → Setting
setting_at i =
    let labels =
      fw_commit ∷ ppo2_mode ∷ cal_mode ∷ depth_comp ∷ pid_kp ∷ pid_ki ∷ pid_kd ∷ battery ∷ [] in
    if setting_is_cell_bcst i
    then cell_bcst (i - cell_bcst_base)
    else if i == cell_bcst_end
    then divecan_id
    else get_or labels i absent

-- PID_GAIN_SCALE_TO_WIRE
abbrev pub pid_gain_scale_to_wire : ℕ
pid_gain_scale_to_wire = 1000000

-- `editable` and `max_value` of the entries of `settings`
abbrev pub is_editable : Setting → Bool
is_editable fw_commit = false
is_editable _ = true

abbrev pub max_value : Setting → ℕ
max_value ppo2_mode = 2
max_value cal_mode = 4
max_value pid_kp = pid_gain_max * pid_gain_scale_to_wire
max_value pid_ki = pid_gain_max * pid_gain_scale_to_wire
max_value pid_kd = pid_gain_max * pid_gain_scale_to_wire
max_value battery = battery_type_count - 1
max_value divecan_id = divecan_identity_count - 1
max_value _ = 1

-- `setting_index_to_field`: `other` where it returns false.
abbrev pub setting_index_to_field : Setting → Field
setting_index_to_field (cell_bcst _) = bcst
setting_index_to_field ppo2_mode = ppo2
setting_index_to_field cal_mode = cal
setting_index_to_field depth_comp = depth
setting_index_to_field pid_kp = kp
setting_index_to_field pid_ki = ki
setting_index_to_field pid_kd = kd
setting_index_to_field battery = bat
setting_index_to_field divecan_id = ident
setting_index_to_field fw_commit = other
setting_index_to_field absent = other

-- The array of flags, by the number of the cell; there are no others.
abbrev pub cell_flag : Broadcast → ℕ → Bool
cell_flag cells i =
    if i == 0
    then cells.cell_0
    else if i == 1
    then cells.cell_1
    else if i == 2
    then cells.cell_2
    else false

abbrev pub set_cell_flag : Broadcast → ℕ → Bool → Broadcast
set_cell_flag cells i v = record cells {
  cell_0 = if i == 0 then v else cells.cell_0;
  cell_1 = if i == 1 then v else cells.cell_1;
  cell_2 = if i == 2 then v else cells.cell_2;
}

module _ (g : Gains) where
  abbrev pub to_wire : g.Gain → ℕ
  to_wire k = g.lroundf (g.times k (g.of_int pid_gain_scale_to_wire))

  abbrev pub of_wire : ℕ → g.Gain
  of_wire v = g.over (g.of_int v) (g.of_int pid_gain_scale_to_wire)

  -- The branches of UDS_GetSettingValue
  abbrev pub value_of : Setting → RuntimeSettings g.Gain → ℕ
  value_of (cell_bcst cell) rs = of_flag (cell_flag rs.enforce_broadcast cell)
  value_of ppo2_mode rs = rs.ppo2_control_mode
  value_of cal_mode rs = rs.calibration_mode
  value_of depth_comp rs = of_flag rs.depth_compensation
  value_of pid_kp rs = to_wire rs.pid_kp
  value_of pid_ki rs = to_wire rs.pid_ki
  value_of pid_kd rs = to_wire rs.pid_kd
  value_of battery rs = rs.battery_type
  value_of divecan_id rs = rs.divecan_identity
  value_of fw_commit rs = 0
  value_of absent rs = 0

  -- The branches of UDS_SetSettingValue
  abbrev pub stage : Setting → ℕ → RuntimeSettings g.Gain → RuntimeSettings g.Gain
  stage (cell_bcst cell) v rs = record rs {
    enforce_broadcast = set_cell_flag rs.enforce_broadcast cell (not (v == 0));
  }
  stage ppo2_mode v rs = record rs { ppo2_control_mode = v }
  stage cal_mode v rs = record rs { calibration_mode = v }
  stage depth_comp v rs = record rs { depth_compensation = not (v == 0) }
  stage pid_kp v rs = record rs { pid_kp = of_wire v }
  stage pid_ki v rs = record rs { pid_ki = of_wire v }
  stage pid_kd v rs = record rs { pid_kd = of_wire v }
  stage battery v rs = record rs { battery_type = v }
  stage divecan_id v rs = record rs { divecan_identity = v }
  stage fw_commit v rs = rs
  stage absent v rs = rs

  module _ (b : Build) (e : Backend Field) where
    pub get_setting_value : ℕ → State g.Gain e.Flash → ℕ
    get_setting_value index st = value_of (setting_at (menu_to_storage b index)) st.cached

    unfoldable pub set_setting_value : ℕ → ℕ → State g.Gain e.Flash → Bool × State g.Gain e.Flash
    set_setting_value index v st =
        let storage = menu_to_storage b index in
        let setting = setting_at storage in
        let (rc, st') = runtime_settings_set_volatile b g e (stage setting v st.cached) st in
        if leb setting_count storage
        then (false, st)
        else if not (is_editable setting)
        then (false, st)
        else if ltb (max_value setting) v
        then (false, st)
        else (rc == 0, st')

    abbrev pub save_setting : Field → State g.Gain e.Flash → Bool × State g.Gain e.Flash
    save_setting other st = (false, st)
    save_setting field st =
        let (rc, st') = runtime_settings_save_field b g e field st in (rc == 0, st')

    unfoldable pub save_setting_value : ℕ → ℕ → State g.Gain e.Flash → Bool × State g.Gain e.Flash
    unfolding set_setting_value
    save_setting_value index v st =
        let (applied, st') = set_setting_value index v st in
        let field = setting_index_to_field (setting_at (menu_to_storage b index)) in
        if not applied then (false, st') else save_setting field st'
