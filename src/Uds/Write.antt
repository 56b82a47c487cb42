-- ===== src/Uds/Write.antt =====
-- WriteDataByIdentifier (`HandleWriteDataByIdentifier` of Firmware/src/divecan/uds/uds.c): a handler
-- for each identifier. The pumping of the transmit queue before a restart, and the sleep there, leave
-- this state alone.
use dive_canhead.Base.{
  ℕ, zero, suc, ◌+◌, ◌*◌, ◌-◌, ◌/◌, ◌%◌, ◌^◌, List, [], ◌∷◌, Bool, true, false, not, ◌&&◌, ◌||◌,
  ltb, leb, ◌==◌, if◌then◌else◌, none, some,
}
use dive_canhead.Maintenance.{claim, release, clear}
use dive_canhead.Maintenance
use dive_canhead.Uds.{
  Config, Device, Head, Risk, Handed, request_upgrade, reboot, restore_factory, capture_factory,
  inject_fault, erase_log, fire_solenoid, start_autotune, setpoint, calibrate, broadcast,
  save_setting, set_setting, abort_autotune, clear_histogram, is_programming, at, in_dive, report,
  respond, negative_response, refuse, refuse_flash, risk, hand, incorrect_msg_len,
  conditions_not_correct, request_out_of_range, busy_repeat_request, general_prog_fail,
  service_not_in_session, err_flash, err_solenoid_disabled,
}

-- `buildWriteDidPositiveResponse` and `UDS_SendResponse`
unfoldable pub accept : List ℕ → Head → Head
unfolding respond
accept request h = respond (0x6E ∷ at request 2 ∷ at request 3 ∷ []) h

-- `clamp_setpoint_cb`
unfoldable pub clamp_setpoint_cb : ℕ → ℕ
clamp_setpoint_cb cb =
    if cb == 19 then 19 else if ltb cb 40 then 40 else if ltb 160 cb then 160 else cb

unfoldable pub write_setpoint : List ℕ → ℕ → Head → Head
unfolding accept refuse hand
write_setpoint request n h =
    if not (n == 5)
    then refuse 0x2E incorrect_msg_len h
    else accept request (hand (setpoint (clamp_setpoint_cb (at request 4))) h)

unfoldable pub write_calibration : Device → List ℕ → ℕ → Head → Head
unfolding accept refuse hand
write_calibration d request n h =
    let pressure : ℕ = elim d.ambient_mbar [ none ↦ 1013 | some p ↦ p ] in
    if not (n == 5)
    then refuse 0x2E incorrect_msg_len h
    else if ltb 100 (at request 4)
    then refuse 0x2E request_out_of_range h
    else if d.calibration_running
    then refuse 0x2E conditions_not_correct h
    else accept request (hand (calibrate d.calibration_mode (at request 4) pressure) h)

-- The response code of the guards that four handlers have in this order, 0 when they let pass.
abbrev pub guards : Bool → Bool → Device → Head → ℕ
guards length_ok magic_ok d h =
    if not length_ok
    then incorrect_msg_len
    else if not magic_ok
    then request_out_of_range
    else if not (is_programming h)
    then service_not_in_session
    else if in_dive d
    then conditions_not_correct
    else 0

-- `checkOtaWritePrecondition`
unfoldable pub check_precondition : Device → List ℕ → ℕ → Head → ℕ
check_precondition d request n h = guards (n == 5) (at request 4 == 1) d h

-- The firing of a channel, after the guards of `writeSolenoidOverrideDID`
unfoldable pub fire_channel : Device → List ℕ → Head → Head
unfolding accept refuse risk report negative_response
fire_channel d request h =
    let channel = at request 4 in
    if leb d.solenoid_channels channel
    then refuse 0x2E request_out_of_range h
    else (let h' = risk (fire_solenoid channel) h in
        if not (d.solenoid_fire == 0)
        then negative_response 0x2E conditions_not_correct
            (report err_solenoid_disabled d.solenoid_fire h')
        else accept request h')

-- `writeSolenoidOverrideDID`
unfoldable pub write_solenoid_override : Device → List ℕ → ℕ → Head → Head
unfolding refuse fire_channel
write_solenoid_override d request n h =
    if not (n == 6)
    then refuse 0x2E incorrect_msg_len h
    else if not (is_programming h)
    then refuse 0x2E service_not_in_session h
    else if in_dive d
    then refuse 0x2E conditions_not_correct h
    else if not (at request 5 == 0x5A)
    then refuse 0x2E request_out_of_range h
    else if not d.mode_latched
    then refuse 0x2E busy_repeat_request h
    else if not d.mode_off
    then refuse 0x2E conditions_not_correct h
    else if d.calibration_running
    then refuse 0x2E conditions_not_correct h
    else fire_channel d request h

-- `writeAutotuneControlDID`
unfoldable pub write_autotune : Device → List ℕ → ℕ → Head → Head
unfolding accept refuse risk hand
write_autotune d request n h =
    let budget = at request 8 * 256 + at request 9 in
    let h' = risk (start_autotune (at request 6) (at request 7) budget) h in
    if ltb n 6
    then refuse 0x2E incorrect_msg_len h
    else if not (is_programming h)
    then refuse 0x2E service_not_in_session h
    else if not (at request 5 == 0xA7)
    then refuse 0x2E request_out_of_range h
    else if at request 4 == 2
    then accept request (hand (abort_autotune false) h)
    else if not (at request 4 == 1)
    then refuse 0x2E request_out_of_range h
    else if not (n == 10)
    then refuse 0x2E incorrect_msg_len h
    else if in_dive d
    then refuse 0x2E conditions_not_correct h
    else if d.autotune_start == 0
    then accept request h'
    else refuse 0x2E conditions_not_correct h'

-- `writeHistogramClearDID`
unfoldable pub write_histogram_clear : Device → List ℕ → Head → Head
unfolding accept refuse_flash hand
write_histogram_clear d request h =
    let (arena, rc) = clear d.nvs h.arena in
    let h' : Head = hand clear_histogram (record h { arena = arena }) in
    if not (rc == 0) then refuse_flash 0x2E conditions_not_correct rc h' else accept request h'

-- `claimFlashMaintenance`, and what follows a granted claim
unfoldable pub with_flash : (Head → Head) → Head → Head
unfolding refuse
with_flash body h =
    let (arena, granted) = claim Maintenance.flash h.arena in
    let h' : Head = record h { arena = arena } in
    if granted then body h' else refuse 0x2E conditions_not_correct h'

abbrev pub release_flash : Head → Head
release_flash h = record h { arena = release Maintenance.flash h.arena }

abbrev pub log_paused_to : Config → Bool → Head → Head
log_paused_to cfg paused h = if cfg.flash_log then record h { log_paused = paused } else h

-- The body of `writeForceRevertDID`. The log is paused only around the request for the upgrade.
unfoldable pub force_revert : Config → Device → List ℕ → Head → Head
unfolding accept refuse refuse_flash risk
force_revert cfg d request h =
    let staged = release_flash (log_paused_to cfg false (risk request_upgrade h)) in
    if not (d.bank_header == 0)
    then refuse 0x2E conditions_not_correct (release_flash h)
    else if not (d.upgrade == 0)
    then refuse_flash 0x2E general_prog_fail d.upgrade staged
    else risk reboot (accept request staged)

-- A body behind the common guards
unfoldable pub guarded : ℕ → (Head → Head) → Head → Head
unfolding refuse
guarded nrc body h = if not (nrc == 0) then refuse 0x2E nrc h else body h

unfoldable pub write_force_revert : Config → Device → List ℕ → ℕ → Head → Head
unfolding guarded with_flash force_revert
write_force_revert cfg d request n h =
    guarded (check_precondition d request n h) (with_flash (force_revert cfg d request)) h

-- The erasures that restart the head: acknowledged first, and restarted whatever they return.
unfoldable pub erase_and_reboot : Config → Device → Risk → List ℕ → Head → Head
unfolding accept risk report
erase_and_reboot cfg d what request h =
    let h' = risk what (log_paused_to cfg true (accept request h)) in
    risk reboot (if not (d.flash_command == 0) then report err_flash d.flash_command h' else h')

-- `writeFactoryFlashEraseDID` and `writeNvsEraseDID`
unfoldable pub write_erase : Config → Device → Risk → List ℕ → ℕ → Head → Head
unfolding guarded with_flash erase_and_reboot
write_erase cfg d what request n h =
    guarded (check_precondition d request n h) (with_flash (erase_and_reboot cfg d what request)) h

-- `restore_work_handler` of Firmware/src/factory_image.c, where the restore fails: it holds the flash log off
-- and claims the region for its time, and then lets the log run again, whatever had held it off.
unfoldable pub restore_work_handler : Config → Device → Head → Head
unfolding report
restore_work_handler cfg d h =
    let paused = log_paused_to cfg true h in
    let (arena, granted) = claim Maintenance.factory paused.arena in
    let copied : Head =
      if granted && d.factory_captured
      then record paused { arena = release Maintenance.factory arena }
      else paused in
    report err_flash d.flash_command (log_paused_to cfg false copied)

-- `writeRestoreFactoryDID`. `factory_image_restore_async` only submits the work to a queue of its own:
-- it runs at another time, as `restore_work_handler`, with a restart when it succeeds.
unfoldable pub write_restore_factory : Device → List ℕ → ℕ → Head → Head
unfolding guarded accept refuse risk
write_restore_factory d request n h =
    guarded (check_precondition d request n h)
      (λ h.
        if not d.factory_captured
        then refuse 0x2E conditions_not_correct h
        else risk restore_factory (accept request h))
      h

-- `writeFactoryCaptureDID`
unfoldable pub write_factory_capture : Device → List ℕ → ℕ → Head → Head
unfolding guarded accept refuse risk
write_factory_capture d request n h =
    guarded (check_precondition d request n h)
      (λ h.
        if not d.image_confirmed
        then refuse 0x2E conditions_not_correct h
        else accept request (risk capture_factory h))
      h

-- `writeFaultInjectionDID`
unfoldable pub write_fault_injection : Device → List ℕ → ℕ → Head → Head
unfolding guarded accept risk
write_fault_injection d request n h =
    let kind = at request 4 in
    guarded (guards (n == 6) (at request 5 == 0xC5 && (kind == 1 || kind == 2 || kind == 3)) d h)
      (λ h. risk (inject_fault kind) (accept request h)) h

-- What `writeLogEraseDID` does with the region; `flash_log_erase` itself pauses the log and
-- resumes it.
unfoldable pub erase_log_stream : Device → List ℕ → Head → Head
unfolding accept refuse_flash risk
erase_log_stream d request h =
    let erased = release_flash (risk (erase_log (at request 4 % 4)) h) in
    let h' : Head = record erased { log_paused = false } in
    if not (d.flash_command == 0)
    then refuse_flash 0x2E conditions_not_correct d.flash_command h'
    else accept request h'

-- `writeLogEraseDID`
unfoldable pub write_log_erase : Device → List ℕ → ℕ → Head → Head
unfolding guarded with_flash erase_log_stream
write_log_erase d request n h =
    guarded (guards (n == 6) (at request 5 == 0xA5) d h) (with_flash (erase_log_stream d request)) h

-- `writeLogVerbosityDID` and `writeLogCanVerboseDID`
unfoldable pub write_log_setting : Device → Handed → List ℕ → ℕ → Head → Head
unfolding accept refuse hand
write_log_setting d what request n h =
    if not (n == 5)
    then refuse 0x2E incorrect_msg_len h
    else if not (d.log_setting == 0)
    then refuse 0x2E request_out_of_range (hand what h)
    else accept request (hand what h)

-- `writeCellBroadcastDID`
unfoldable pub write_cell_broadcast : ℕ → List ℕ → ℕ → Head → Head
unfolding accept refuse hand
write_cell_broadcast did request n h =
    if not (n == 5)
    then refuse 0x2E incorrect_msg_len h
    else accept request (hand (broadcast ((did - 0xF400) / 16) (not (at request 4 == 0))) h)

-- The loop that reads a big-endian value, `i` the next byte and `count` the rounds left
unfoldable pub big_endian : List ℕ → ℕ → ℕ → ℕ → ℕ
big_endian request zero i value = value
big_endian request (suc count) i value =
    big_endian request count (suc i) ((value * 256 + at request (4 + i)) % 2 ^ 64)

-- The end of the two handlers of settings
unfoldable pub write_setting : Device → Handed → List ℕ → Head → Head
unfolding accept refuse hand
write_setting d what request h =
    if not d.setting_accepted
    then refuse 0x2E request_out_of_range (hand what h)
    else accept request (hand what h)

-- `writeSettingSaveDID`: the value is as long as the request, eight bytes at most.
unfoldable pub write_setting_save : Device → ℕ → List ℕ → ℕ → Head → Head
unfolding write_setting
write_setting_save d did request n h =
    let count = if ltb 8 (n - 4) then 8 else n - 4 in
    write_setting d (save_setting ((did - 0x9350) % 256) (big_endian request count 0 0)) request h

-- `writeSettingValueDID_handler`
unfoldable pub write_setting_value : Device → ℕ → List ℕ → ℕ → Head → Head
unfolding write_setting refuse
write_setting_value d did request n h =
    if not (n == 12)
    then refuse 0x2E incorrect_msg_len h
    else write_setting d (set_setting ((did - 0x9130) % 256) (big_endian request 8 0 0)) request h
