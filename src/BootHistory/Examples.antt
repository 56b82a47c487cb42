-- ===== src/BootHistory/Examples.antt =====
-- The histories at concrete records.
use dive_canhead.Base.{ℕ, ◌≡◌, refl, [], ◌∷◌, none, some, false, take}
use dive_canhead.BootHistory.{
  Answers, Boot, CrashRecord, RebootRecord, no_crash, no_reboot, append, load_reboot_store,
  load_crash_store, allocate_sequence, boot_history_init, get_newest,
}
use dive_canhead.BootHistory.Newest.{append_all, newest_first}
use dive_canhead.BootHistory.Newest
use dive_canhead.BootHistory.Startup

abbrev reboot_of : ℕ → RebootRecord
reboot_of n = record { reboot_sequence = n; reset_cause = 2 }

history_is_newest_first_example :
    let rs =
      reboot_of 1 ∷ reboot_of 2 ∷ reboot_of 3 ∷ reboot_of 4 ∷ reboot_of 5 ∷ reboot_of 6 ∷ [] in
    let records = no_reboot ∷ no_reboot ∷ no_reboot ∷ no_reboot ∷ no_reboot ∷ [] in
    get_newest no_reboot 3 (append_all no_reboot rs (record { count = 0; records = records }))
    ≡ take 3 (take 5 (newest_first no_reboot rs []))
history_is_newest_first_example =
    Newest.history_is_newest_first no_reboot
      (reboot_of 1 ∷ reboot_of 2 ∷ reboot_of 3 ∷ reboot_of 4 ∷ reboot_of 5 ∷ reboot_of 6 ∷ [])
      (no_reboot ∷ no_reboot ∷ no_reboot ∷ no_reboot ∷ no_reboot ∷ []) 3 refl

abbrev crash : CrashRecord
crash = record no_crash { reason = 4; pc = 0x08001234 }

abbrev answers : Answers
answers = record {
  settings_rc = 0;
  cause_rc = 0;
  cause = 2;
  clear_rc = 0;
  stored_reboots = none;
  stored_crashes = none;
  last_crash = some crash;
  save_reboots_rc = 0;
  save_crashes_rc = 5;
}

abbrev powered : Boot
powered = record {
  initialized = false;
  reset_cause = 0;
  saved_reboots = none;
  saved_crashes = none;
  acknowledged = false;
}

start_records_crash_example :
    let b' = (boot_history_init answers powered).0 in
    let reboots = load_reboot_store none in
    let crashes = load_crash_store none in
    let n = reboots.next_sequence in
    (b'.saved_reboots
      ≡ some (record reboots {
        next_sequence = (allocate_sequence reboots).1.next_sequence;
        ring = append (record { reboot_sequence = n; reset_cause = 2 }) reboots.ring;
      }))
    × (b'.saved_crashes
        ≡ some
            (record crashes { ring = append (record crash { reboot_sequence = n }) crashes.ring }))
    × (b'.acknowledged ≡ false)
    × ((again : Answers) → boot_history_init again b' ≡ (b', 0))
start_records_crash_example = Startup.start_records_crash answers powered crash refl refl refl refl
