-- ===== src/Uds/Examples.antt =====
-- The theorems on the diagnostic services at concrete requests.
use dive_canhead.Base.{
  ℕ, ◌≡◌, refl, List, [], ◌∷◌, true, false, Option, none, some, inl, inr, arith, leb, if◌then◌else◌,
  take, drop, replicate, ◌==◌,
}
use dive_canhead.Zephyr.{Kernel, IsKernel, model, model-IsKernel}
use dive_canhead.Maintenance.{ota, flash, at_reset}
use dive_canhead.Maintenance.Ownership.{claims}
use dive_canhead.Uds.{
  Config, Device, Head, programming, downloading, head_at, respond, is_programming, in_dive,
}
use dive_canhead.Uds.Ota.Invariant.{Phase, IsValid}
use dive_canhead.Uds.Ota.Trailer.{bytes, extract_slot1_sha256}
use dive_canhead.Uds.Ota.Stream.{transfer_blocks, flatten, acks, transfer_blocks-flatten}
use dive_canhead.Uds.Ota.Paths.{IsWorking, IsGenuine, open_request}
use dive_canhead.Uds.Ota.Completion.{Decided, download, download_completes}
use dive_canhead.Uds.Dispatch.{process_request, maintain_session, read_data}
use dive_canhead.Uds.Dispatch.Guard.{closed_session_is_harmless}
use dive_canhead.Uds.Dispatch.History.{
  Event, asks, calls, polls, restores, AllAllowed, IsAllowed, react_all, download_history-IsValid,
}
use dive_canhead.Uds.Dispatch.Responses.{
  Answered, Serves, wanted, records, read_data-Answered, read_data-records,
}
use dive_canhead.Uds.Dispatch.Lapse.{IsReleased, lapse-IsReleased, default_session-strands}

abbrev kernel : Kernel
kernel = model (λ n. 0)

kernel-IsKernel : IsKernel kernel
kernel-IsKernel = model-IsKernel (λ n. 0) (λ n. omega arith)

abbrev config : Config
config = record { flash_log = true; has_o2_solenoid = true; has_diveo2_cell = false }

-- At the surface, one second after the start, where every call succeeds.
abbrev surface : Device
surface = record {
  now_ms = 1000;
  ambient_mbar = some 1013;
  slot1_open = 0;
  slot1_size = 0x60000;
  slot1_erase = 0;
  image_init = 0;
  image_write = 0;
  image_flush = 0;
  bank_header = 0;
  slot1_reopen = 0;
  slot1_read = λ streamed off len. bytes (take len (drop off streamed));
  image_check = λ streamed hash covers. if covers == 36 then 0 else 22;
  upgrade = 0;
  image_confirmed = true;
  factory_captured = true;
  flash_command = 0;
  nvs = record { rc = 0; reported = true };
  calibration_running = false;
  calibration_mode = 1;
  mode_latched = true;
  mode_off = true;
  solenoid_channels = 2;
  solenoid_fire = 0;
  autotune_start = 0;
  settings_loaded = true;
  setting_count = 10;
  setting_accepted = true;
  log_setting = 0;
  log_resolves = true;
}

-- Forty meters deep
abbrev dive : Device
dive = record surface { ambient_mbar = some 5000 }

abbrev minute_later : Device
minute_later = record surface { now_ms = 61000 }

-- A programming session, one second old
abbrev opened_session : Head
opened_session = record (head_at at_reset) { session = programming }

abbrev begun : Head
begun = record opened_session {
  ota = downloading;
  has_image = true;
  arena = record at_reset { owner = ota; content_owner = ota; save_pause_depth = 1 };
  log_paused = true;
  push_suspended = true;
}

begun-IsValid : IsValid config begun
unfolding Phase
begun-IsValid = record { phase = ((refl, refl, refl), refl, refl) }

idle-IsValid : IsValid config opened_session
unfolding Phase
idle-IsValid = record { phase = (refl, omega arith, (refl, λ on. cc)) }

-- One identifier with two bytes, where they fit
abbrev reader : ℕ → ℕ → Option (List ℕ)
reader did room = if leb 2 room then some (0xAB ∷ 0xCD ∷ []) else none

reader-Serves : Serves reader (λ did. 0xAB ∷ 0xCD ∷ [])
reader-Serves did room fits = let e : leb 2 room ≡ true = ground arith in rw e refl

-- The factory image is asked for in a dive.
abbrev restore_request : List ℕ
restore_request = 0 ∷ 0x2E ∷ 0xF2 ∷ 0x76 ∷ 1 ∷ []

closed_session_is_harmless_example :
    (process_request kernel config reader dive restore_request 5 opened_session).risks ≡ []
unfolding in_dive
closed_session_is_harmless_example =
    closed_session_is_harmless kernel config reader dive restore_request 5 opened_session
      kernel-IsKernel (inr (inl refl))

-- A download is opened, another part asks for the flash, a restore fails, a block comes, and the log
-- is asked for.
abbrev story : List Event
story =
    asks surface (open_request 0 0 4 0) 12
    ∷ calls (claims flash)
    ∷ restores surface
    ∷ polls true
    ∷ asks surface (0 ∷ 0x36 ∷ 1 ∷ 10 ∷ 20 ∷ []) 5
    ∷ asks surface (0 ∷ 0x31 ∷ 1 ∷ 0xF1 ∷ 0x05 ∷ []) 5
    ∷ []

story-AllAllowed : AllAllowed story
unfolding AllAllowed IsAllowed
story-AllAllowed =
    (omega arith, ((omega arith, omega arith), (tt, (tt, (omega arith, (omega arith, tt))))))

download_history-IsValid_example :
    IsValid config (react_all kernel config reader opened_session story)
download_history-IsValid_example =
    download_history-IsValid kernel config reader opened_session story kernel-IsKernel
      story-AllAllowed idle-IsValid

read_data-Answered_example :
    Answered opened_session
      (read_data reader surface (0 ∷ 0x22 ∷ 0xF2 ∷ 0x60 ∷ []) 4 opened_session)
read_data-Answered_example =
    read_data-Answered reader surface (0 ∷ 0x22 ∷ 0xF2 ∷ 0x60 ∷ []) 4 opened_session

read_data-records_example :
    read_data reader surface (0 ∷ 0x22 ∷ wanted (0xF200 ∷ 0xF201 ∷ [])) 6 opened_session
    ≡ respond (0x62 ∷ records (λ did. 0xAB ∷ 0xCD ∷ []) (0xF200 ∷ 0xF201 ∷ [])) opened_session
unfolding records
read_data-records_example =
    read_data-records reader (λ did. 0xAB ∷ 0xCD ∷ []) surface 0 0xF200 (0xF201 ∷ []) opened_session
      reader-Serves refl (omega arith)

abbrev image : List (List ℕ)
image = (10 ∷ 20 ∷ 30 ∷ []) ∷ (40 ∷ []) ∷ []

transfer_blocks-flatten_example :
    let h' = transfer_blocks kernel config surface 1 image begun in
    (h'.streamed ≡ flatten image) × (h'.sent ≡ acks 1 image) × (h'.ota ≡ downloading)
transfer_blocks-flatten_example =
    transfer_blocks-flatten kernel config surface 1 image begun kernel-IsKernel refl refl refl

surface-IsWorking : IsWorking surface
unfolding in_dive
surface-IsWorking = record {
  surface = refl;
  opens = refl;
  erases = refl;
  inits = refl;
  streams = refl;
  flushes = refl;
  has_header = refl;
  reopens = refl;
  upgrades = refl;
}

-- A header of 32 bytes, a body of four bytes, and a trailer with a hash
abbrev signed : List (List ℕ)
signed =
    (0x3D ∷ 0xB8 ∷ 0xF3 ∷ 0x96 ∷ 0 ∷ 0 ∷ 0 ∷ 0 ∷ 32 ∷ 0 ∷ 0 ∷ 0 ∷ 4 ∷ 0 ∷ 0 ∷ 0 ∷ replicate 16 0)
    ∷ (1 ∷ 2 ∷ 3 ∷ 4 ∷ [])
    ∷ (0x07 ∷ 0x69 ∷ 40 ∷ 0 ∷ 0x10 ∷ 0 ∷ 32 ∷ 0 ∷ replicate 32 7)
    ∷ []

signed-IsGenuine : IsGenuine surface (flatten signed)
unfolding flatten extract_slot1_sha256
signed-IsGenuine = record { hash = replicate 32 7; covers = 36; has_trailer = refl; matches = refl }

download_completes_example :
    let h' = download kernel config surface (open_request 0 0 0 76) signed opened_session in
    (h'.streamed ≡ flatten signed) × Decided surface (flatten signed) opened_session h'
download_completes_example =
    download_completes kernel config surface 0 0 0 76 signed opened_session kernel-IsKernel
      surface-IsWorking refl refl refl (omega arith)

-- A minute passed without a request, or the diver descended.
lapse-IsReleased_example : IsReleased config (maintain_session kernel config minute_later begun)
lapse-IsReleased_example =
    lapse-IsReleased kernel config minute_later begun kernel-IsKernel refl begun-IsValid refl

default_session-strands_example :
    let h' = process_request kernel config reader surface (0 ∷ 0x10 ∷ 1 ∷ []) 3 begun in
    let h'' = maintain_session kernel config dive h' in
    (is_programming h'' ≡ false)
    × (h''.ota ≡ downloading)
    × (h''.arena ≡ begun.arena)
    × (h''.log_paused ≡ true)
unfolding in_dive
default_session-strands_example =
    default_session-strands kernel config reader surface dive 0 begun kernel-IsKernel refl refl refl
