-- ===== src/Uds.antt =====
-- The diagnostic services (Firmware/src/divecan/uds/uds.c and uds_ota.c): one state for the context of
-- a client, the firmware download and what the two touch elsewhere; the calls out of these files
-- that return something are inputs of a request.
pub mod Same
pub mod Ota
pub mod Log
pub mod Write
pub mod Dispatch
mod Examples
use dive_canhead.Base.{
  ℕ, ◌+◌, ◌*◌, ◌-◌, ◌/◌, ◌%◌, ◌^◌, ◌++◌, List, [], ◌∷◌, Bool, true, false, not, ◌&&◌, ◌||◌, Option,
  none, some, get_or, ltb, leb, ◌==◌, if◌then◌else◌,
}
use dive_canhead.Zephyr.{Kernel}
use dive_canhead.Maintenance.{Maintenance, Outcome}
use dive_canhead.Uds.Ota.Trailer.{Read}

-- `UDS_Session_t`
pub data Session : Type 0 where
  default_session programming : Session

-- `OtaState_e`
pub data OtaState : Type 0 where
  ota_idle downloading awaiting_activate activating : OtaState

-- `LogDownloadState_t` of uds_log_download.c
pub data LogState : Type 0 where
  ld_idle ld_selected ld_streaming : LogState

abbrev pub streams : LogState → Bool
streams ld_idle = false
streams ld_selected = false
streams ld_streaming = true

-- The calls that only a programming session makes: the erasure of slot1, of the flash, of the stored
-- settings and of the log, the request for an upgrade, the restart, the restore and the capture of
-- the factory image, an injected fault, the solenoid override and the start of the autotune. The
-- clearing of the error histogram and a calibration, which erase or fire too, are not among them:
-- the code does not tie them to a session.
pub data Risk : Type 0 where
  erase_slot1 request_upgrade reboot restore_factory capture_factory mass_erase erase_nvs : Risk
  inject_fault erase_log fire_solenoid : ℕ → Risk
  start_autotune : ℕ → ℕ → ℕ → Risk

-- Requests that these files hand to another part of the program.
pub data Handed : Type 0 where
  log_download log_routine : List ℕ → Handed
  setpoint : ℕ → Handed
  calibrate : ℕ → ℕ → ℕ → Handed
  broadcast : ℕ → Bool → Handed
  save_setting set_setting : ℕ → ℕ → Handed
  clear_histogram : Handed
  -- with whether a dive is the reason
  abort_autotune : Bool → Handed
  log_verbosity log_can_verbose : ℕ → Handed

-- The build options
pub record Config : Type 0 where
  pub flash_log : Bool
  pub has_o2_solenoid : Bool
  pub has_diveo2_cell : Bool

-- What the calls out of these files return while one request is handled; 0 is success.
pub record Device : Type 0 where
  pub now_ms : ℕ
  -- `zbus_chan_read` of the ambient pressure
  pub ambient_mbar : Option ℕ
  pub slot1_open : ℕ
  pub slot1_size : ℕ
  pub slot1_erase : ℕ
  pub image_init : ℕ
  pub image_write : ℕ
  pub image_flush : ℕ
  pub bank_header : ℕ
  -- `flash_area_open` in `validateSlot1`, then what is read of slot1 at an offset, for so many bytes,
  -- and `flash_img_check` for a hash and a length, both after these bytes were streamed into it
  pub slot1_reopen : ℕ
  pub slot1_read : List ℕ → ℕ → ℕ → Read
  pub image_check : List ℕ → List ℕ → ℕ → ℕ
  pub upgrade : ℕ
  pub image_confirmed : Bool
  pub factory_captured : Bool
  pub flash_command : ℕ
  pub nvs : Outcome
  pub calibration_running : Bool
  pub calibration_mode : ℕ
  pub mode_latched : Bool
  pub mode_off : Bool
  pub solenoid_channels : ℕ
  pub solenoid_fire : ℕ
  pub autotune_start : ℕ
  pub settings_loaded : Bool
  pub setting_count : ℕ
  pub setting_accepted : Bool
  pub log_setting : ℕ
  -- whether `fl_resolve_selector` selects a range
  pub log_resolves : Bool

-- `UDSContext_t`, `OtaSmCtx_t` (`flash_ctx` as whether it is NULL), the arena, the two flags of
-- the download phase, the state of the log download; then what was done, in order: the payloads given to `ISOTP_Send`, the
-- bytes streamed to slot1, the risks, the requests handed on; and the errors, the last one first.
pub record Head : Type 0 where
  pub session : Session
  pub last_activity_ms : ℕ
  pub ota : OtaState
  pub has_image : Bool
  pub bytes_expected : ℕ
  pub bytes_received : ℕ
  pub next_seq : ℕ
  pub arena : Maintenance
  pub log_paused : Bool
  pub push_suspended : Bool
  pub log_state : LogState
  pub sent : List (List ℕ)
  pub streamed : List ℕ
  pub risks : List Risk
  pub handed : List Handed
  pub errors : List (ℕ × ℕ)

-- The static objects, all of them zero at reset, with the download machine on its idle state.
abbrev pub head_at : Maintenance → Head
head_at arena = record {
  session = default_session;
  last_activity_ms = 0;
  ota = ota_idle;
  has_image = false;
  bytes_expected = 0;
  bytes_received = 0;
  next_seq = 1;
  arena = arena;
  log_paused = false;
  push_suspended = false;
  log_state = ld_idle;
  sent = [];
  streamed = [];
  risks = [];
  handed = [];
  errors = [];
}

abbrev pub is_programming : Head → Bool
is_programming h = elim h.session [ default_session ↦ false | programming ↦ true ]

abbrev pub is_streaming : Head → Bool
is_streaming h = streams h.log_state

abbrev pub err_flash : ℕ
err_flash = 7

abbrev pub err_solenoid_disabled : ℕ
err_solenoid_disabled = 16

abbrev pub err_uds_nrc : ℕ
err_uds_nrc = 21

-- `UDS_NRC_t`, as far as these files send it
abbrev pub service_not_supported : ℕ
service_not_supported = 0x11

abbrev pub subfunc_not_supported : ℕ
subfunc_not_supported = 0x12

abbrev pub incorrect_msg_len : ℕ
incorrect_msg_len = 0x13

abbrev pub response_too_long : ℕ
response_too_long = 0x14

abbrev pub busy_repeat_request : ℕ
busy_repeat_request = 0x21

abbrev pub conditions_not_correct : ℕ
conditions_not_correct = 0x22

abbrev pub request_sequence_err : ℕ
request_sequence_err = 0x24

abbrev pub request_out_of_range : ℕ
request_out_of_range = 0x31

abbrev pub general_prog_fail : ℕ
general_prog_fail = 0x72

abbrev pub wrong_block_seq_counter : ℕ
wrong_block_seq_counter = 0x73

abbrev pub service_not_in_session : ℕ
service_not_in_session = 0x7F

-- A byte of the request buffer
abbrev pub at : List ℕ → ℕ → ℕ
at request i = get_or request i 0

-- `UDS_IsInDive`
unfoldable pub in_dive : Device → Bool
in_dive d = elim d.ambient_mbar [ none ↦ false | some p ↦ ltb 1200 p ]

-- OP_ERROR_DETAIL
unfoldable pub report : ℕ → ℕ → Head → Head
report code detail h = record h { errors = (code, detail) ∷ h.errors }

-- `UDS_SendResponse`, with the payload that the response buffer holds.
unfoldable pub respond : List ℕ → Head → Head
respond payload h = record h { sent = h.sent ++ payload ∷ [] }

-- `UDS_SendNegativeResponse`
unfoldable pub negative_response : ℕ → ℕ → Head → Head
unfolding respond
negative_response sid nrc h = respond (0x7F ∷ sid ∷ nrc ∷ []) h

-- The report that stands before it everywhere, and the response
unfoldable pub refuse : ℕ → ℕ → Head → Head
unfolding report negative_response
refuse sid nrc h = negative_response sid nrc (report err_uds_nrc nrc h)

-- A failed flash operation of a request
unfoldable pub refuse_flash : ℕ → ℕ → ℕ → Head → Head
unfolding report negative_response
refuse_flash sid nrc rc h = negative_response sid nrc (report err_flash rc h)

unfoldable pub risk : Risk → Head → Head
risk r h = record h { risks = h.risks ++ r ∷ [] }

unfoldable pub hand : Handed → Head → Head
hand r h = record h { handed = h.handed ++ r ∷ [] }
