-- ===== src/BootHistory.antt =====
-- The crash and reboot histories (Firmware/src/boot_history.c): two rings of five records in NVS, and
-- the start of the head that adds to them. What settings, hwinfo and retained memory answer at
-- a start is an input, since their code is not in this file or not in the repository.
pub mod Newest
pub mod Startup
mod Examples
use dive_canhead.Base.{
  ℕ, zero, suc, ◌+◌, ◌-◌, ◌%◌, ◌^◌, ◌++◌, List, [], ◌∷◌, Bool, true, false, not, ◌&&◌, ◌||◌, Option,
  none, some, get_or, set, blit, drop, take, replicate, ltb, leb, ◌==◌, if◌then◌else◌,
}

abbrev pub depth : ℕ
depth = 5

abbrev pub history_magic : ℕ
history_magic = 0x42484953

abbrev pub storage_version : ℕ
storage_version = 2

-- `BootCrashRecord_t`
pub record CrashRecord : Type 0 where
  pub reboot_sequence : ℕ
  pub reason : ℕ
  pub pc : ℕ
  pub lr : ℕ
  pub cfsr : ℕ
  pub sp : ℕ
  pub xpsr : ℕ
  pub exc_return : ℕ
  pub stack_source : ℕ
  pub thread : ℕ

-- `BootRebootRecord_t`
pub record RebootRecord : Type 0 where
  pub reboot_sequence : ℕ
  pub reset_cause : ℕ

-- The members `count` and `records` that both stores have
pub record Ring (A : Type 0) : Type 0 where
  pub count : ℕ
  pub records : List A

-- `CrashHistoryStore_t`
pub record CrashStore : Type 0 where
  pub magic : ℕ
  pub version : ℕ
  pub ring : Ring CrashRecord

-- `RebootHistoryStore_t`
pub record RebootStore : Type 0 where
  pub magic : ℕ
  pub version : ℕ
  pub next_sequence : ℕ
  pub ring : Ring RebootRecord

abbrev pub no_crash : CrashRecord
no_crash = record {
  reboot_sequence = 0;
  reason = 0;
  pc = 0;
  lr = 0;
  cfsr = 0;
  sp = 0;
  xpsr = 0;
  exc_return = 0;
  stack_source = 0;
  thread = 0;
}

abbrev pub no_reboot : RebootRecord
no_reboot = record { reboot_sequence = 0; reset_cause = 0 }

-- `crash_store_valid`
unfoldable pub crash_store_valid : CrashStore → Bool
crash_store_valid st =
    history_magic == st.magic && storage_version == st.version && leb st.ring.count depth

-- `reboot_store_valid`
unfoldable pub reboot_store_valid : RebootStore → Bool
reboot_store_valid st =
    history_magic == st.magic
    && storage_version == st.version
    && leb st.ring.count depth
    && not (st.next_sequence == 0)

-- `reset_crash_store`
unfoldable pub reset_crash_store : CrashStore
reset_crash_store = record {
  magic = history_magic;
  version = storage_version;
  ring = record { count = 0; records = replicate depth no_crash };
}

-- `reset_reboot_store`
unfoldable pub reset_reboot_store : RebootStore
reset_reboot_store = record {
  magic = history_magic;
  version = storage_version;
  next_sequence = 1;
  ring = record { count = 0; records = replicate depth no_reboot };
}

-- `load_crash_store`: `none` is a read of another size than the store's.
unfoldable pub load_crash_store : Option CrashStore → CrashStore
load_crash_store none = reset_crash_store
load_crash_store (some st) = if crash_store_valid st then st else reset_crash_store

-- `load_reboot_store`
unfoldable pub load_reboot_store : Option RebootStore → RebootStore
load_reboot_store none = reset_reboot_store
load_reboot_store (some st) = if reboot_store_valid st then st else reset_reboot_store

-- The body that `append_crash` and `append_reboot` share
unfoldable pub append : {A : Type 0} → A → Ring A → Ring A
append r ring =
    if ltb ring.count depth
    then record { count = ring.count + 1; records = set ring.records ring.count r }
    else record ring {
      records = set (blit ring.records 0 (take (depth - 1) (drop 1 ring.records))) (depth - 1) r;
    }

-- The loop of the two functions that copy records out
unfoldable pub copy_out : {A : Type 0} → A → Ring A → ℕ → ℕ → List A
copy_out d ring zero i = []
copy_out d ring (suc n) i = get_or ring.records (ring.count - 1 - i) d ∷ copy_out d ring n (suc i)

-- The records that `boot_history_get_crashes` and `boot_history_get_reboots` copy from a store
unfoldable pub get_newest : {A : Type 0} → A → ℕ → Ring A → List A
get_newest d capacity ring =
    copy_out d ring (if ltb ring.count capacity then ring.count else capacity) 0

-- `boot_history_get_crashes`, with what the settings hold
unfoldable pub get_crashes : ℕ → Option CrashStore → List CrashRecord
get_crashes capacity stored = get_newest no_crash capacity (load_crash_store stored).ring

-- `boot_history_get_reboots`
unfoldable pub get_reboots : ℕ → Option RebootStore → List RebootRecord
get_reboots capacity stored = get_newest no_reboot capacity (load_reboot_store stored).ring

-- `allocate_reboot_sequence`
unfoldable pub allocate_sequence : RebootStore → ℕ × RebootStore
allocate_sequence st =
    let next = (st.next_sequence + 1) % 2 ^ 32 in
    (st.next_sequence, record st { next_sequence = if next == 0 then 1 else next })

-- What the calls of a start return; a result code is 0 or the magnitude of an error.
pub record Answers : Type 0 where
  pub settings_rc : ℕ
  pub cause_rc : ℕ
  pub cause : ℕ
  pub clear_rc : ℕ
  pub stored_reboots : Option RebootStore
  pub stored_crashes : Option CrashStore
  pub last_crash : Option CrashRecord
  pub save_reboots_rc : ℕ
  pub save_crashes_rc : ℕ

-- The two static objects, and what the start did outside: the stores given to
-- `ext_flash_settings_save_one`, and whether the crash in retained memory was acknowledged.
pub record Boot : Type 0 where
  pub initialized : Bool
  pub reset_cause : ℕ
  pub saved_reboots : Option RebootStore
  pub saved_crashes : Option CrashStore
  pub acknowledged : Bool

-- The first error is the result.
abbrev pub first_error : ℕ → ℕ → ℕ
first_error result rc = if not (rc == 0) && result == 0 then rc else result

-- `record_reboot`
unfoldable pub record_reboot : RebootStore → ℕ → Boot → Boot
record_reboot st sequence b = record b {
  saved_reboots = some (record st {
    ring = append (record { reboot_sequence = sequence; reset_cause = b.reset_cause }) st.ring;
  });
}

-- `record_crash`, with its result
unfoldable pub record_crash : Answers → ℕ → Boot → Boot × ℕ
record_crash ans sequence b = elim ans.last_crash [
  | none ↦ (b, 0)
  | some crash ↦
      (let st = load_crash_store ans.stored_crashes in
        let saved = record st {
          ring = append (record crash { reboot_sequence = sequence }) st.ring;
        } in
        (
          record b {
            saved_crashes = some saved;
            acknowledged = ans.save_crashes_rc == 0 || b.acknowledged;
          },
          ans.save_crashes_rc,
        ))
]

-- The part of `boot_history_init` for ready settings
unfoldable pub record_start : Answers → ℕ → Boot → Boot × ℕ
record_start ans result b₀ =
    let (sequence, st) = allocate_sequence (load_reboot_store ans.stored_reboots) in
    let b₁ = record_reboot st sequence b₀ in
    let (b₂, rc) = record_crash ans sequence b₁ in
    (b₂, first_error (first_error result ans.save_reboots_rc) rc)

-- `boot_history_init`
unfoldable pub boot_history_init : Answers → Boot → Boot × ℕ
boot_history_init ans b₀ =
    let got = ans.cause_rc == 0 in
    let b : Boot = record b₀ { initialized = true; reset_cause = if got then ans.cause else 0 } in
    let result = first_error ans.settings_rc (if got then ans.clear_rc else ans.cause_rc) in
    if b₀.initialized
    then (b₀, 0)
    else if ans.settings_rc == 0
    then record_start ans result b
    else (b, result)
