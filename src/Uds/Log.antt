-- ===== src/Uds/Log.antt =====
-- The state of the log download and what it shares with the firmware download
-- (Firmware/src/divecan/uds/uds_log_download.c): the scratch region, the flash log and the log push. Its
-- responses, its error reports and the blocks it reads are not modelled, and the resolution of a
-- selector is an input.
use dive_canhead.Base.{
  ℕ, ◌+◌, ◌*◌, ◌^◌, List, Bool, true, false, not, ◌&&◌, ◌||◌, ltb, leb, ◌==◌, if◌then◌else◌,
}
use dive_canhead.Maintenance.{claim, release}
use dive_canhead.Maintenance
use dive_canhead.Uds.{Device, Head, LogState, ld_idle, ld_selected, ld_streaming, is_streaming, at}

-- `fl_start_streaming`
unfoldable pub fl_start_streaming : Head → Head × Bool
fl_start_streaming h =
    let (arena, granted) = claim Maintenance.log_stream h.arena in
    if granted
    then (
      record h {
        arena = arena;
        log_paused = true;
        push_suspended = true;
        log_state = ld_streaming;
      },
      true,
    )
    else (h, false)

-- `fl_stop_streaming`
unfoldable pub fl_stop_streaming : LogState → Head → Head
fl_stop_streaming next_state h =
    if is_streaming h
    then record h {
      log_paused = false;
      push_suspended = false;
      arena = release Maintenance.log_stream h.arena;
      log_state = next_state;
    }
    else record h { log_state = next_state }

abbrev pub is_selected : LogState → Bool
is_selected ld_idle = false
is_selected ld_selected = true
is_selected ld_streaming = false

-- `fl_start_routine`; a selector that is resolved leaves a range selected.
unfoldable pub fl_start_routine : Device → ℕ → Head → Head
unfolding fl_start_streaming fl_stop_streaming
fl_start_routine d rid h =
    if rid == 0xF105
    then if is_selected h.log_state then (fl_start_streaming h).0 else h
    else if leb 0xF100 rid && leb rid 0xF106
    then (let h' = fl_stop_streaming ld_idle h in
        if d.log_resolves then record h' { log_state = ld_selected } else h')
    else h

-- `UDS_LogDownload_HandleRoutine`
unfoldable pub log_handle_routine : Device → List ℕ → ℕ → Head → Head
unfolding fl_start_routine
log_handle_routine d request n h =
    if ltb n 5
    then h
    else if not (at request 2 == 1)
    then h
    else fl_start_routine d (at request 3 * 256 + at request 4) h

-- `UDS_LogDownload_Claims`, with the address in its little-endian bytes
unfoldable pub log_claims : ℕ → List ℕ → Head → Bool
log_claims sid request h =
    let addr =
      at request 4 + at request 5 * 2 ^ 8 + at request 6 * 2 ^ 16 + at request 7 * 2 ^ 24 in
    if sid == 0x34
    then is_streaming h && addr == 0xFFFFFFFE
    else (sid == 0x36 || sid == 0x37) && is_streaming h

-- `UDS_LogDownload_Handle`: only the end of the transfer changes what is shared.
unfoldable pub log_handle : List ℕ → ℕ → Head → Head
unfolding fl_stop_streaming
log_handle request n h = if at request 1 == 0x37 && leb 2 n then fl_stop_streaming ld_idle h else h

-- `UDS_LogDownload_Poll`, with whether the last block is more than ten seconds old
unfoldable pub log_poll : Bool → Head → Head
unfolding fl_stop_streaming
log_poll stale h = if is_streaming h && stale then fl_stop_streaming ld_idle h else h
