-- ===== src/Uds/Ota.antt =====
-- The firmware download machine (Firmware/src/divecan/uds/uds_ota.c).
pub mod Invariant
pub mod Kept
pub mod Stream
pub mod Paths
pub mod Completion
pub mod Trailer
use dive_canhead.Base.{
  ℕ, ◌+◌, ◌*◌, ◌-◌, ◌/◌, ◌%◌, ◌^◌, ◌++◌, List, [], ◌∷◌, Bool, true, false, not, ◌&&◌, ◌||◌, take,
  drop, ltb, ◌==◌, if◌then◌else◌, Option, none, some,
}
use dive_canhead.Zephyr.{Kernel}
use dive_canhead.Maintenance.{claim, release}
use dive_canhead.Maintenance
use dive_canhead.Uds.Ota.Trailer.{Extract, found, unreadable, absent, extract_slot1_sha256}
use dive_canhead.Uds.{
  report, err_flash, OtaState, ota_idle, downloading, awaiting_activate, activating, Config, Device,
  Head, erase_slot1, request_upgrade, reboot, is_programming, at, in_dive, respond, refuse,
  refuse_flash, risk, service_not_supported, subfunc_not_supported, incorrect_msg_len,
  conditions_not_correct, request_sequence_err, request_out_of_range, general_prog_fail,
  wrong_block_seq_counter, service_not_in_session,
}

-- EBADMSG
abbrev pub ebadmsg : ℕ
ebadmsg = 77

-- `OtaEvent_e`
pub data OtaEvent : Type 0 where
  no_event request_download transfer_data transfer_exit routine_control : OtaEvent

-- `sid_to_event`
unfoldable pub sid_to_event : ℕ → OtaEvent
sid_to_event sid =
    if sid == 0x34
    then request_download
    else if sid == 0x36
    then transfer_data
    else if sid == 0x37
    then transfer_exit
    else if sid == 0x31
    then routine_control
    else no_event

abbrev pub store_ota : OtaState → Head → Head
store_ota st h = record h { ota = st }

-- `ota_idle_entry`
unfoldable pub idle_entry : Head → Head
idle_entry h = record h {
  bytes_expected = 0;
  bytes_received = 0;
  next_seq = 1;
  has_image = false;
  arena = release Maintenance.ota h.arena;
}

-- `flash_log_pause` and `flash_log_resume`, where the log is built in
abbrev pub pause_log : Config → Bool → Head → Head
pause_log cfg paused h = if cfg.flash_log then record h { log_paused = paused } else h

-- `ota_downloading_entry`
unfoldable pub downloading_entry : Config → Head → Head
downloading_entry cfg h = record (pause_log cfg true h) { push_suspended = true }

-- `ota_downloading_exit`
unfoldable pub downloading_exit : Config → Head → Head
downloading_exit cfg h = record (pause_log cfg false h) { push_suspended = false }

-- The entry and exit columns of `ota_states`
unfoldable pub ota_entry : Config → OtaState → Head → Head
unfolding idle_entry downloading_entry risk
ota_entry cfg ota_idle h = idle_entry h
ota_entry cfg downloading h = downloading_entry cfg h
ota_entry cfg awaiting_activate h = h
ota_entry cfg activating h = risk reboot h

unfoldable pub ota_exit : Config → OtaState → Head → Head
unfolding downloading_exit
ota_exit cfg downloading h = downloading_exit cfg h
ota_exit cfg _ h = h

-- The four big-endian length bytes of a download request
abbrev pub announced : List ℕ → ℕ
announced request =
    at request 8 * 2 ^ 24 + at request 9 * 2 ^ 16 + at request 10 * 2 ^ 8 + at request 11

-- `ota_erase_and_init_download`, and whether it succeeded. The erase stands between
-- `flash_log_pause` and `flash_log_resume`.
unfoldable pub erase_and_init : Config → Device → ℕ → Head → Head × Bool
unfolding refuse_flash risk
erase_and_init cfg d length h₀ =
    let h = pause_log cfg false (risk erase_slot1 h₀) in
    if not (d.slot1_erase == 0)
    then (refuse_flash 0x34 general_prog_fail d.slot1_erase h, false)
    else if not (d.image_init == 0)
    then (refuse_flash 0x34 general_prog_fail d.image_init h, false)
    else (
      record h { bytes_expected = length; bytes_received = 0; next_seq = 1; streamed = [] },
      true,
    )

-- The part of `ota_handle_request_download` behind the format check
unfoldable pub open_download : Config → Device → ℕ → Head → Head × Bool
unfolding erase_and_init refuse refuse_flash
open_download cfg d length h =
    if not (d.slot1_open == 0)
    then (refuse_flash 0x34 general_prog_fail d.slot1_open h, false)
    else if ltb d.slot1_size length
    then (refuse 0x34 request_out_of_range h, false)
    else (let (arena, granted) = claim Maintenance.ota h.arena in
        let h' : Head = record h { arena = arena; has_image = granted } in
        if granted
        then erase_and_init cfg d length h'
        else (refuse 0x34 conditions_not_correct h', false))

-- The end of `ota_handle_request_download`: the claim is handed back after a failure.
unfoldable pub give_back : Head → Head
give_back h =
    if h.has_image
    then record h { has_image = false; arena = release Maintenance.ota h.arena }
    else h

-- `ota_handle_transfer_data`
unfoldable pub handle_transfer_data : Device → List ℕ → ℕ → Head → Head
unfolding refuse refuse_flash respond
handle_transfer_data d request n h =
    let seq = at request 2 in
    if ltb n 3
    then refuse 0x36 incorrect_msg_len h
    else if not (seq == h.next_seq)
    then refuse 0x36 wrong_block_seq_counter h
    else if not (d.image_write == 0)
    then refuse_flash 0x36 general_prog_fail d.image_write h
    else respond (0x76 ∷ seq ∷ []) (record h {
      bytes_received = (h.bytes_received + (n - 3)) % 2 ^ 32;
      next_seq = (h.next_seq + 1) % 256;
      streamed = h.streamed ++ take (n - 3) (drop 3 request);
    })

-- The end of `validateSlot1`, by what was found of the hash
unfoldable pub compare_hash : Device → Option Extract → Head → ℕ × Head
unfolding report
compare_hash d (some (found hash covers)) h = (d.image_check h.streamed hash covers, h)
compare_hash d (some (unreadable rc)) h = (ebadmsg, report err_flash rc h)
compare_hash d (some absent) h = (ebadmsg, h)
compare_hash d none h = (ebadmsg, h)

-- `validateSlot1`, with its result: the hash of slot1 against the one in its trailer
unfoldable pub validate_slot1 : Device → Head → ℕ × Head
unfolding compare_hash report
validate_slot1 d h =
    if not (d.slot1_reopen == 0)
    then (d.slot1_reopen, report err_flash d.slot1_reopen h)
    else compare_hash d (extract_slot1_sha256 (d.slot1_read h.streamed)) h

module _ (k : Kernel) (cfg : Config) where
  unfoldable pub set_ota : OtaState → Head → Head
  unfolding ota_entry ota_exit
  set_ota st h =
      k.change_state OtaState Head (λ h. h.ota) (ota_exit cfg) store_ota (ota_entry cfg) st h

  -- `UDS_OTA_Reset`
  unfoldable pub ota_reset : Head → Head
  unfolding set_ota
  ota_reset h = set_ota ota_idle h

  unfoldable pub handle_request_download : Device → List ℕ → ℕ → Head → Head
  unfolding open_download give_back refuse respond set_ota
  handle_request_download d request n h =
      if ltb n 12
      then refuse 0x34 incorrect_msg_len h
      else if not (is_programming h)
      then refuse 0x34 service_not_in_session h
      else if in_dive d
      then refuse 0x34 conditions_not_correct h
      else if not (at request 2 == 0) || not (at request 3 == 0x44)
      then give_back (refuse 0x34 request_out_of_range h)
      else (let (h', ok) = open_download cfg d (announced request) h in
          if ok then set_ota downloading (respond (0x74 ∷ 0x20 ∷ 1 ∷ 0 ∷ []) h') else give_back h')

  unfoldable pub handle_transfer_exit : Device → ℕ → Head → Head
  unfolding refuse refuse_flash respond set_ota
  handle_transfer_exit d n h =
      if ltb n 2
      then refuse 0x37 incorrect_msg_len h
      else if not (d.image_flush == 0)
      then refuse_flash 0x37 general_prog_fail d.image_flush h
      else if not (d.bank_header == 0)
      then refuse_flash 0x37 general_prog_fail d.bank_header h
      else set_ota awaiting_activate (respond (0x77 ∷ []) h)

  -- The part of `ota_handle_routine_control` behind its guards. `flash_log_pause` and
  -- `flash_log_resume` stand around the request for the upgrade.
  unfoldable pub activate : Device → List ℕ → Head → Head
  unfolding refuse refuse_flash respond set_ota risk validate_slot1
  activate d request h₀ =
      let (rc, h) = validate_slot1 d h₀ in
      if not (rc == 0)
      then refuse 0x31 conditions_not_correct h
      else (let h' = pause_log cfg false (risk request_upgrade h) in
          if not (d.upgrade == 0)
          then refuse_flash 0x31 general_prog_fail d.upgrade h'
          else set_ota activating
              (respond (0x71 ∷ at request 2 ∷ at request 3 ∷ at request 4 ∷ []) h'))

  unfoldable pub handle_routine_control : Device → List ℕ → ℕ → Head → Head
  unfolding activate refuse
  handle_routine_control d request n h =
      if ltb n 5
      then refuse 0x31 incorrect_msg_len h
      else if not (at request 2 == 1)
      then refuse 0x31 subfunc_not_supported h
      else if not (at request 3 * 256 + at request 4 == 0xF001)
      then refuse 0x31 request_out_of_range h
      else if not (is_programming h)
      then refuse 0x31 service_not_in_session h
      else if in_dive d
      then refuse 0x31 conditions_not_correct h
      else activate d request h

  -- The run column of `ota_states`, the state first. An event that a state does not take is
  -- refused as out of sequence, and a service of another kind as not supported.
  unfoldable pub ota_run : Device → List ℕ → ℕ → OtaEvent → OtaState → Head → Head
  unfolding refuse
  ota_run d request n request_download ota_idle h = handle_request_download d request n h
  ota_run d request n transfer_data downloading h = handle_transfer_data d request n h
  ota_run d request n transfer_exit downloading h = handle_transfer_exit d n h
  ota_run d request n routine_control awaiting_activate h = handle_routine_control d request n h
  ota_run d request n ev activating h = h
  ota_run d request n no_event st h = refuse (at request 1) service_not_supported h
  ota_run d request n ev st h = refuse (at request 1) request_sequence_err h

  -- `UDS_OTA_Handle`
  unfoldable pub ota_handle : Device → List ℕ → ℕ → Head → Head
  ota_handle d request n h =
      k.run_state OtaState Head (λ h. h.ota) (ota_run d request n (sid_to_event (at request 1))) h
