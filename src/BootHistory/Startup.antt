-- ===== src/BootHistory/Startup.antt =====
-- What one start of the head records.
use dive_canhead.Base.{◌≡◌, refl, Bool, true, false, some, ◌==◌, ◌||◌, if◌then◌else◌}
use dive_canhead.BootHistory.{
  Answers, Boot, CrashRecord, append, load_reboot_store, load_crash_store, allocate_sequence,
  record_start, record_reboot, record_crash, boot_history_init,
}

or-false : (b : Bool) → b || false ≡ b
or-false true = refl
or-false false = refl

-- The first start with ready settings and a crash in retained memory adds one record to each
-- history, both with the sequence number that the reboot history had next, and takes the crash for
-- acknowledged just when the write of the crash history succeeded. A second call changes nothing.
pub start_records_crash :
    (ans : Answers) (b : Boot) (crash : CrashRecord)
    → b.initialized ≡ false
    → b.acknowledged ≡ false
    → ans.settings_rc ≡ 0
    → ans.last_crash ≡ some crash
    → let b' = (boot_history_init ans b).0 in
      let reboots = load_reboot_store ans.stored_reboots in
      let crashes = load_crash_store ans.stored_crashes in
      let n = reboots.next_sequence in
      let cause = if ans.cause_rc == 0 then ans.cause else 0 in
      (b'.saved_reboots
        ≡ some (record reboots {
          next_sequence = (allocate_sequence reboots).1.next_sequence;
          ring = append (record { reboot_sequence = n; reset_cause = cause }) reboots.ring;
        }))
      × (b'.saved_crashes
          ≡ some (record crashes {
            ring = append (record crash { reboot_sequence = n }) crashes.ring;
          }))
      × (b'.acknowledged ≡ (ans.save_crashes_rc == 0))
      × ((again : Answers) → boot_history_init again b' ≡ (b', 0))
unfolding boot_history_init record_start record_reboot record_crash allocate_sequence
start_records_crash ans b crash fresh kept ready got =
    rw (fresh, kept, ready, got) (refl, refl, or-false (ans.save_crashes_rc == 0), λ again. refl)
