-- ===== src/Uds/Dispatch.antt =====
-- `UDS_ProcessRequest` of Firmware/src/divecan/uds/uds.c: the session, the services, and the table
-- of the identifiers that can be written.
pub mod Table
pub mod Guard
pub mod Lapse
pub mod Writes
pub mod Streaming
pub mod Others
pub mod History
pub mod Responses
use dive_canhead.Base.{
  ℕ, zero, suc, ◌+◌, ◌*◌, ◌-◌, ◌/◌, ◌%◌, ◌^◌, ◌++◌, List, [], ◌∷◌, Bool, true, false, not, ◌&&◌,
  ◌||◌, Option, none, some, length, ltb, leb, ◌==◌, if◌then◌else◌,
}
use dive_canhead.Zephyr.{Kernel}
use dive_canhead.Uds.{
  Config, Device, Head, Session, default_session, programming, mass_erase, erase_nvs, log_download,
  log_routine, log_verbosity, log_can_verbose, abort_autotune, is_programming, at, in_dive, report,
  respond, refuse, hand, service_not_supported, subfunc_not_supported, incorrect_msg_len,
  response_too_long, busy_repeat_request, conditions_not_correct, request_out_of_range,
}
use dive_canhead.Uds.Log.{log_claims, log_handle, log_handle_routine}
use dive_canhead.Uds.Ota.{ota_reset, ota_handle}
use dive_canhead.Uds.Write.{
  write_setpoint, write_calibration, write_solenoid_override, write_autotune, write_histogram_clear,
  write_force_revert, write_restore_factory, write_factory_capture, write_erase,
  write_fault_injection, write_log_erase, write_log_setting, write_cell_broadcast,
  write_setting_save, write_setting_value,
}

-- `HandleDiagnosticSessionControl`
unfoldable pub session_control : Device → List ℕ → ℕ → Head → Head
unfolding refuse respond
session_control d request n h =
    let sub = at request 2 in
    if ltb n 2
    then refuse 0x10 incorrect_msg_len h
    else if sub == 1
    then respond (0x50 ∷ sub ∷ []) (record h { session = default_session })
    else if not (sub == 2)
    then refuse 0x10 subfunc_not_supported h
    else if in_dive d
    then refuse 0x10 conditions_not_correct h
    else respond (0x50 ∷ sub ∷ []) (record h { session = programming })

-- A range of identifiers, one for each setting
abbrev pub is_setting : Device → ℕ → ℕ → Bool
is_setting d base did = leb base did && ltb did (base + d.setting_count)

-- `settingDidBusy`
unfoldable pub setting_did_busy : Device → ℕ → Bool → Bool
setting_did_busy d did include_save_range =
    not d.settings_loaded
    && (is_setting d 0x9130 did || include_save_range && is_setting d 0x9350 did)

-- `ReadSingleDID` at an offset of the response, with what its readers write behind the header:
-- `payload did room` is at most `room` bytes, or nothing for an identifier that is not served.
unfoldable pub read_single : (ℕ → ℕ → Option (List ℕ)) → ℕ → ℕ → Option (List ℕ)
read_single payload did offset =
    if ltb (256 - offset) 3 then none else (elim (payload did (256 - offset - 2)) [
      | none ↦ none
      | some bytes ↦ some (did / 256 % 256 ∷ did % 256 ∷ bytes)
    ])

-- The loop of `HandleReadDataByIdentifier`: `count` identifiers left, the next one at `i`.
unfoldable pub read_loop :
    (ℕ → ℕ → Option (List ℕ)) → Device → List ℕ → ℕ → ℕ → List ℕ → Head → Head
unfolding respond refuse
read_loop payload d request zero i response h = respond response h
read_loop payload d request (suc count) i response h =
    let did = at request i * 256 + at request (i + 1) in
    if setting_did_busy d did false
    then refuse 0x22 busy_repeat_request h
    else (elim (read_single payload did (length response)) [
      | none ↦ refuse 0x22 request_out_of_range h
      | some bytes ↦
          (let rest = read_loop payload d request count (i + 2) (response ++ bytes) h in
            if leb 256 (length (response ++ bytes)) then refuse 0x22 response_too_long h else rest)
    ])

-- `HandleReadDataByIdentifier`. Behind the two header bytes a request of even length has a whole
-- number of identifiers.
unfoldable pub read_data : (ℕ → ℕ → Option (List ℕ)) → Device → List ℕ → ℕ → Head → Head
unfolding refuse read_loop
read_data payload d request n h =
    if ltb n 4 || not ((n - 2) % 2 == 0)
    then refuse 0x22 incorrect_msg_len h
    else read_loop payload d request ((n - 2) / 2) 2 (0x62 ∷ []) h

-- The identifiers that are addressed by range, behind the table
unfoldable pub write_range : Config → Device → ℕ → List ℕ → ℕ → Head → Head
unfolding refuse setting_did_busy write_cell_broadcast write_setting_save write_setting_value
write_range cfg d did request n h =
    if cfg.has_diveo2_cell && leb 0xF400 did && ltb did 0xF430 && (did - 0xF400) % 16 == 13
    then write_cell_broadcast did request n h
    else if setting_did_busy d did true
    then refuse 0x2E busy_repeat_request h
    else if is_setting d 0x9350 did
    then write_setting_save d did request n h
    else if is_setting d 0x9130 did
    then write_setting_value d did request n h
    else refuse 0x2E request_out_of_range h

-- `writeDidTable` from the flash log on
unfoldable pub write_log_table : Config → Device → ℕ → List ℕ → ℕ → Head → Head
unfolding write_log_erase write_log_setting write_range
write_log_table cfg d did request n h =
    if cfg.flash_log && did == 0xF282
    then write_log_erase d request n h
    else if cfg.flash_log && did == 0xF283
    then write_log_setting d (log_verbosity (at request 4)) request n h
    else if cfg.flash_log && did == 0xF284
    then write_log_setting d (log_can_verbose (at request 4)) request n h
    else write_range cfg d did request n h

-- `writeDidTable`, first match
unfoldable pub write_table : Config → Device → ℕ → List ℕ → ℕ → Head → Head
unfolding write_log_table
write_table cfg d did request n h =
    if did == 0xF240
    then write_setpoint request n h
    else if did == 0xF241
    then write_calibration d request n h
    else if cfg.has_o2_solenoid && did == 0xF242
    then write_solenoid_override d request n h
    else if cfg.has_o2_solenoid && did == 0xF243
    then write_autotune d request n h
    else if did == 0xF261
    then write_histogram_clear d request h
    else if did == 0xF275
    then write_force_revert cfg d request n h
    else if did == 0xF276
    then write_restore_factory d request n h
    else if did == 0xF277
    then write_factory_capture d request n h
    else if did == 0xF278
    then write_erase cfg d mass_erase request n h
    else if did == 0xF279
    then write_erase cfg d erase_nvs request n h
    else if did == 0xF27A
    then write_fault_injection d request n h
    else write_log_table cfg d did request n h

-- `HandleWriteDataByIdentifier`
unfoldable pub write_data : Config → Device → List ℕ → ℕ → Head → Head
unfolding refuse write_table
write_data cfg d request n h =
    if ltb n 4
    then refuse 0x2E incorrect_msg_len h
    else write_table cfg d (at request 2 * 256 + at request 3) request n h

-- The S3 test of `UDS_MaintainSession`
abbrev pub is_lapsed : Device → Head → Bool
is_lapsed d h = is_programming h && ltb 30000 ((d.now_ms + 2 ^ 32 - h.last_activity_ms) % 2 ^ 32)

-- The dive test of `UDS_MaintainSession`, where the session has not lapsed.
abbrev pub is_forced : Device → Head → Bool
is_forced d h = is_programming h && in_dive d

module _ (k : Kernel) (cfg : Config) where
  -- The session ends, and a download under way with it.
  unfoldable pub end_session : Head → Head
  end_session h = ota_reset k cfg (record h { session = default_session })

  -- `UDS_MaintainSession`
  unfoldable pub maintain_session : Device → Head → Head
  unfolding end_session hand
  maintain_session d h =
      record (if is_lapsed d h
        then end_session h
        else if is_forced d h
        then end_session (hand (abort_autotune true) h)
        else h) { last_activity_ms = d.now_ms }

  -- `dispatchOtaOrLogDownload`
  unfoldable pub dispatch_transfer : Device → List ℕ → ℕ → Head → Head
  unfolding hand log_claims log_handle
  dispatch_transfer d request n h =
      if cfg.flash_log && log_claims (at request 1) request h
      then log_handle request n (hand (log_download request) h)
      else ota_handle k cfg d request n h

  -- `dispatchRoutineControl`
  unfoldable pub dispatch_routine : Device → List ℕ → ℕ → Head → Head
  unfolding hand log_handle_routine
  dispatch_routine d request n h =
      let rid = at request 3 * 256 + at request 4 in
      if cfg.flash_log && leb 5 n && leb 0xF100 rid && leb rid 0xF1FF
      then log_handle_routine d request n (hand (log_routine request) h)
      else ota_handle k cfg d request n h

  -- The `switch` on the service, with what the readers of identifiers give.
  unfoldable pub serve : (ℕ → ℕ → Option (List ℕ)) → Device → List ℕ → ℕ → Head → Head
  unfolding refuse session_control write_data dispatch_transfer dispatch_routine
  serve payload d request n h =
      let sid = at request 1 in
      if sid == 0x10
      then session_control d request n h
      else if sid == 0x22
      then read_data payload d request n h
      else if sid == 0x2E
      then write_data cfg d request n h
      else if sid == 0x34 || sid == 0x36 || sid == 0x37
      then dispatch_transfer d request n h
      else if sid == 0x31
      then dispatch_routine d request n h
      else refuse sid service_not_supported h

  -- `UDS_ProcessRequest`
  unfoldable pub process_request : (ℕ → ℕ → Option (List ℕ)) → Device → List ℕ → ℕ → Head → Head
  unfolding report
  process_request payload d request n h =
      if n == 0 then report 28 0 h else serve payload d request n (maintain_session d h)
