-- ===== src/Maintenance/Examples.antt =====
-- The arena and the histogram at concrete calls: a firmware download holds the region while errors
-- come in, and the save worker runs before and after.
use dive_canhead.Base.{
  ◌≡◌, ◌++◌, refl, List, [], ◌∷◌, true, false, some, arith, ℕ, zero, suc, replicate,
}
use dive_canhead.Maintenance.{
  Maintenance, Outcome, Owner, ota, factory, log_index, at_reset, claim, save_work, free_or_same,
  release, resume, take_content, owner_writes_scratch, pause, settings_set, snapshot,
}
use dive_canhead.Maintenance.Ownership.{
  Call, claims, releases, builds, errors, saves, after_all, IsHeld, Undisturbed,
}
use dive_canhead.Maintenance.Ownership
use dive_canhead.Maintenance.Saving
use dive_canhead.Maintenance.Saving.{AllCounters, restored}

abbrev written : Outcome
written = record { rc = 0; reported = true }

-- A cache of the log index, taken over by a download that a factory capture cannot interrupt.
abbrev calls : List Call
calls =
    claims log_index ∷ claims ota ∷ errors 3 ∷ claims factory ∷ saves written ∷ releases ota ∷ []

arena_history-IsHeld_example : IsHeld (after_all at_reset calls)
arena_history-IsHeld_example = Ownership.arena_history-IsHeld at_reset calls refl

-- The download holds the region, and an error was counted.
abbrev downloading : Maintenance
downloading = record at_reset {
  owner = ota;
  content_owner = ota;
  generation = 1;
  dirty = true;
  save_pause_depth = 1;
}

abbrev attempts : List Call
attempts = errors 3 ∷ claims factory ∷ releases factory ∷ saves written ∷ builds true ∷ []

exclusive_owner_stays_example : Undisturbed downloading (after_all downloading attempts)
unfolding Ownership.AllAllow Ownership.Allows
exclusive_owner_stays_example =
    Ownership.exclusive_owner_stays downloading attempts refl (omega arith, omega arith)
      (tt, (tt, (omega arith, (tt, (tt, tt)))))

-- The log-index cache is released, a flash operation reserves the region, and the cache is back.
abbrev cached : Maintenance
cached = record at_reset { content_owner = log_index; generation = 7 }

abbrev reservation : List Call
reservation = claims Owner.flash ∷ releases Owner.flash ∷ claims log_index ∷ []

kept : (after_all cached reservation).generation ≡ cached.generation
unfolding after_all Ownership.after claim free_or_same release resume take_content
    owner_writes_scratch pause
kept = refl

-- An error counted over 70000 times, and nothing that holds the histogram off the flash.
abbrev counted : Maintenance
counted = record at_reset { histogram = 0 ∷ 70000 ∷ replicate 36 5; dirty = true }

fives-AllCounters : (n : ℕ) → AllCounters (replicate n 5)
fives-AllCounters zero = tt
fives-AllCounters (suc n) = (omega arith, fives-AllCounters n)

saved_histogram_is_restored_example :
    let s' = save_work written counted in
    let kept : List ℕ = 0 ∷ 65535 ∷ replicate 36 5 in
    (s'.dirty ≡ false)
    × (s'.writes ≡ [] ++ (kept, 0) ∷ [])
    × (settings_set (some kept) at_reset ≡ (restored counted.histogram at_reset, true))
    × (snapshot 38 s' ≡ (some kept, 76))
    × (snapshot 38 (restored counted.histogram at_reset) ≡ (some kept, 76))
saved_histogram_is_restored_example =
    Saving.saved_histogram_is_restored counted at_reset written refl
      (omega arith, (omega arith, fives-AllCounters 36)) refl refl refl
