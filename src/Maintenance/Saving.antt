-- ===== src/Maintenance/Saving.antt =====
-- What the histogram keeps over a restart.
use dive_canhead.Base.{
  ℕ, ◌^◌, ◌<◌, ◌≡◌, refl, List, [], ◌∷◌, ◌++◌, true, false, arith, some, ◌≢◌, map, length, suc, leb,
  if◌then◌else◌, ap, ◌==◌,
}
use dive_canhead.Maintenance.{
  Maintenance, Outcome, observe, save_work, save_to_nvs, settings_set, snapshot, snapshot_to_u16,
  to_u16,
}

-- A counter as a 16-bit entry: at most 65535
abbrev pub capped : ℕ → ℕ
capped v = if leb v 65535 then v else 65535

-- No counter has reached the sign bit of its word.
abbrev pub AllCounters : List ℕ → Type 0
AllCounters [] = Unit
AllCounters (v ∷ vs) = (v < 2 ^ 31) × AllCounters vs

to_u16-capped : (v : ℕ) → v < 2 ^ 31 → to_u16 v ≡ capped v
unfolding to_u16
to_u16-capped v h = ground arith

snapshot-capped :
    (counters : List ℕ) → AllCounters counters → snapshot_to_u16 counters ≡ map capped counters
unfolding snapshot_to_u16
snapshot-capped [] h = refl
snapshot-capped (v ∷ vs) (small, h) = rw (to_u16-capped v small, snapshot-capped vs h)

-- Capping twice is capping once.
snapshot_again : (counters : List ℕ) → snapshot_to_u16 (map capped counters) ≡ map capped counters
unfolding snapshot_to_u16 to_u16
snapshot_again [] = refl
snapshot_again (v ∷ vs) =
    let fixed : to_u16 (capped v) ≡ capped v = ground arith in rw (fixed, snapshot_again vs)

length-capped : (counters : List ℕ) → length (map capped counters) ≡ length counters
length-capped [] = refl
length-capped (v ∷ vs) = ap suc (length-capped vs)

-- The state whose histogram is read back from the flash
abbrev pub restored : List ℕ → Maintenance → Maintenance
restored counters s = record s { histogram = map capped counters }

-- A dirty histogram of 38 counters below 2^31 that nothing holds off is written by the save worker.
-- When the write succeeds the histogram is clean, and the last write holds each counter, or 65535
-- where it is greater. Replaying that write at the next start is accepted, whatever the state then,
-- and makes these numbers the histogram; a snapshot gives the same 76 bytes before and after.
pub saved_histogram_is_restored :
    (s fresh : Maintenance) (out : Outcome)
    → length s.histogram ≡ 38
    → AllCounters s.histogram
    → s.save_pause_depth ≡ 0
    → s.dirty ≡ true
    → out.rc ≡ 0
    → let s' = save_work out s in
      let kept = map capped s.histogram in
      (s'.dirty ≡ false)
      × (s'.writes ≡ s.writes ++ (kept, 0) ∷ [])
      × (settings_set (some kept) fresh ≡ (restored s.histogram fresh, true))
      × (snapshot 38 s' ≡ (some kept, 76))
      × (snapshot 38 (restored s.histogram fresh) ≡ (some kept, 76))
unfolding save_work save_to_nvs snapshot settings_set
saved_histogram_is_restored s fresh out size small free dirty ok =
    let kept = snapshot-capped s.histogram small in
    let accepted : (length (map capped s.histogram) == 38) ≡ true =
      rw (length-capped s.histogram, size) refl in
    rw (free, dirty, ok, kept, snapshot_again s.histogram, accepted) (refl, refl, refl, refl, refl)

-- A failed write leaves the histogram dirty for the next tick of the worker, and the arena alone.
save_failure : (s : Maintenance) (out : Outcome) → out.rc ≢ 0 → (save_work out s).dirty ≡ s.dirty
unfolding save_work save_to_nvs observe
save_failure s out bad = ground arith
