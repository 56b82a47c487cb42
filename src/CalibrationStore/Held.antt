-- ===== src/CalibrationStore/Held.antt =====
-- A coefficient that was saved is in the flash and in the cache, until its own cell is saved again.
use dive_canhead.Base.{
  ℕ, ◌<◌, ◌≡◌, ◌≢◌, refl, ap, sym, ◌⊎◌, ◌∙◌, false, Option, none, some, inl, inr, List, [], ◌∷◌,
  ◌++◌, length, take_all, ltb, ◌==◌, arith, lt→ltb, ℕ_discrete, Bool-cases,
}
use dive_canhead.ExternalFlash.{
  Backend, IsBackend, Reader, Absent, Delivers, Reads, stored, failed_read,
  ext_flash_settings_save_one,
}
use dive_canhead.ExternalFlash.Stores.{save-stored, save-kept, load_subtree-eq}
use dive_canhead.CalibrationStore.{
  Memory, CalStore, CalKey, cell, unknown, cell_max_count, coeff_size, take_value, cal_settings_set,
  replay, cal_settings_get, calibration_store_load, calibration_store_save,
}

-- A coefficient is what it was when its bytes are read back.
pub record IsMemory {C : Type 0} (mem : Memory C) : Type 0 where
  pub encode_size : (c : C) → length (mem.encode c) ≡ coeff_size
  pub decode_encode : (c : C) → mem.decode (mem.encode c) ≡ c

cell_of : CalKey → ℕ
cell_of (cell n) = n
cell_of unknown = cell_max_count

key_cases : (key : CalKey) (i : ℕ) → (key ≡ cell i) ⊎ (key ≢ cell i)
unfolding cell_of
key_cases unknown i = inr (λ e. cc e)
key_cases (cell n) i = elim (ℕ_discrete n i) [
  | yes e ↦ inl (ap cell e)
  | no ne ↦ inr (λ e. ne (ap cell_of e))
]

cell-ne : (i j : ℕ) → i ≢ j → cell i ≢ cell j
unfolding cell_of
cell-ne i j ne e = ne (ap cell_of e)

-- A cell that exists is always found.
pub load-some :
    {C : Type 0} (mem : Memory C) (i : ℕ) (cache : ℕ → C)
    → i < cell_max_count
    → calibration_store_load mem i cache ≡ some (cache i)
load-some mem i cache small =
    let low = lt→ltb i cell_max_count small in rw (low, cal_settings_get) refl

module _ {C : Type 0} (mem : Memory C) (round : IsMemory mem) where
  take_value-other :
      (n i : ℕ) (read : Option (List ℕ)) (cache : ℕ → C)
      → i ≢ n
      → (take_value mem n read cache).1 i ≡ cache i
  take_value-other n i none cache ne = refl
  take_value-other n i (some bytes) cache ne = ground arith

  -- A call for another name leaves the entry of the cell.
  set_other :
      (i : ℕ) (key : CalKey) (cb : Reader) (cache : ℕ → C)
      → key ≢ cell i
      → (cal_settings_set mem key cb cache).1 i ≡ cache i
  set_other i unknown cb cache ne = refl
  set_other i (cell n) cb cache ne = elim (Bool-cases (ltb n cell_max_count)) [
    | inl low ↦
        rw (low, cal_settings_set)
          (take_value-other n i (cb coeff_size) cache (λ e. ne (ap cell (sym e))))
    | inr high ↦ rw (high, cal_settings_set)
  ]

  take_value_self :
      (i : ℕ) (bytes : List ℕ) (cache : ℕ → C)
      → length bytes ≡ coeff_size
      → (take_value mem i (some bytes) cache).1 i ≡ mem.decode bytes
  take_value_self i bytes cache size = rw size (ground arith)

  -- The call that reads the bytes of a coefficient sets the entry of its cell.
  set_stored :
      (i : ℕ) (c : C) (cache : ℕ → C)
      → i < cell_max_count
      → (cal_settings_set mem (cell i) (stored (mem.encode c)) cache).1 i ≡ c
  set_stored i c cache small =
      let size = round.encode_size c in
      let whole : stored (mem.encode c) coeff_size ≡ some (mem.encode c) =
        ap some (take_all coeff_size (mem.encode c) (omega (arith, size))) in
      let low = lt→ltb i cell_max_count small in
      rw (low, cal_settings_set)
        (ap (λ read. (take_value mem i read cache).1 i) whole
          ∙ take_value_self i (mem.encode c) cache size
          ∙ round.decode_encode c)

  replay-Absent :
      (i : ℕ) (calls : List (CalKey × Reader)) (cache : ℕ → C)
      → Absent (cell i) calls
      → replay mem calls cache i ≡ cache i
  replay-Absent i [] cache h = refl
  replay-Absent i (call ∷ calls) cache (ne, h) =
      replay-Absent i calls (cal_settings_set mem call.0 call.1 cache).1 h
      ∙ set_other i call.0 call.1 cache ne

  replay-append :
      (xs ys : List (CalKey × Reader)) (cache : ℕ → C)
      → replay mem (xs ++ ys) cache ≡ replay mem ys (replay mem xs cache)
  replay-append [] ys cache = refl
  replay-append (x ∷ xs) ys cache = replay-append xs ys (cal_settings_set mem x.0 x.1 cache).1

  replay_delivered :
      (i : ℕ) (c : C) (calls : List (CalKey × Reader)) (cache : ℕ → C)
      → i < cell_max_count
      → Delivers (cell i) (mem.encode c) calls
      → replay mem calls cache i ≡ c
  replay_delivered i c calls cache small (before, after, split, absent) =
      let call : CalKey × Reader = (cell i, stored (mem.encode c)) in
      rw (split, replay-append before (call ∷ after) cache)
        (replay-Absent i after (cal_settings_set mem call.0 call.1 (replay mem before cache)).1
            absent
          ∙ set_stored i c (replay mem before cache) small)

  -- A read that fails leaves the cache.
  set_failed :
      (key : CalKey) (cache : ℕ → C) → (cal_settings_set mem key failed_read cache).1 ≡ cache
  set_failed unknown cache = refl
  set_failed (cell n) cache = elim (Bool-cases (ltb n cell_max_count)) [
    | inl low ↦ rw (low, cal_settings_set) refl
    | inr high ↦ rw (high, cal_settings_set) refl
  ]

  -- What the cache holds of a cell stays, if each call about it reads the same coefficient or fails.
  replay-Reads :
      (i : ℕ) (c : C) (calls : List (CalKey × Reader)) (cache : ℕ → C)
      → i < cell_max_count
      → Reads (cell i) (mem.encode c) calls
      → cache i ≡ c
      → replay mem calls cache i ≡ c
  replay-Reads i c [] cache small h held = held
  replay-Reads i c ((key, cb) ∷ calls) cache small (case, h) held =
      replay-Reads i c calls (cal_settings_set mem key cb cache).1 small h (elim case [
        | inl ne ↦ set_other i key cb cache ne ∙ held
        | inr reads ↦ elim reads [
          | inl whole ↦ rw whole (elim (key_cases key i) [
            | inl here ↦ rw here (set_stored i c cache small)
            | inr ne ↦ set_other i key (stored (mem.encode c)) cache ne ∙ held
          ])
          | inr failed ↦ rw (failed, set_failed key cache) held
        ]
      ])

  module _ (e : Backend CalKey) {value : e.Flash → CalKey → Option (List ℕ)}
      (doc : IsBackend e value) where
    -- The coefficient of a cell, in the flash and in the cache
    pub record Held (i : ℕ) (c : C) (st : CalStore C e.Flash) : Type 0 where
      pub in_flash : value st.flash (cell i) ≡ some (mem.encode c)
      pub in_cache : st.cal_cache i ≡ c

    pub save-Held :
        (i : ℕ) (c : C) (st : CalStore C e.Flash)
        → i < cell_max_count
        → (calibration_store_save mem e i c st).0 ≡ 0
        → Held i c (calibration_store_save mem e i c st).1
    unfolding calibration_store_save
    save-Held i c st small ok =
        let (rc, f) = ext_flash_settings_save_one e (cell i) (mem.encode c) st.flash in
        elim (ℕ_discrete rc 0) [
          | no bad ↦ absurd (ground arith)
          | yes z ↦
              let kept = save-stored e doc (cell i) (mem.encode c) st.flash z in
              rw (z, load_subtree-eq e doc f)
                (record {
                  in_flash = kept;
                  in_cache = replay_delivered i c (e.settings_load_subtree f).1 st.cal_cache small (
                      doc.load_delivers (cell i) (mem.encode c) f kept
                        (rw (z, load_subtree-eq e doc f) at ok));
                })
        ]

    -- A load, whatever its result, keeps a coefficient that the cache and the flash agree on.
    reloaded :
        (i : ℕ) (c : C) (f : e.Flash) (cache : ℕ → C)
        → i < cell_max_count
        → value f (cell i) ≡ some (mem.encode c)
        → cache i ≡ c
        → replay mem (e.settings_load_subtree f).1 cache i ≡ c
    reloaded i c f cache small kept held = elim (ℕ_discrete (e.settings_load_subtree f).0 0) [
      | yes whole ↦
          replay_delivered i c (e.settings_load_subtree f).1 cache small
            (doc.load_delivers (cell i) (mem.encode c) f kept whole)
      | no failed ↦
          replay-Reads i c (e.settings_load_subtree f).1 cache small
            (doc.failed_load_reads (cell i) (mem.encode c) f kept failed) held
    ]

    -- Saving another cell, whatever its result, keeps it.
    pub save_other-Held :
        (i j : ℕ) (c d : C) (st : CalStore C e.Flash)
        → i < cell_max_count
        → i ≢ j
        → Held i c st
        → Held i c (calibration_store_save mem e j d st).1
    unfolding calibration_store_save
    save_other-Held i j c d st small ne h =
        let (rc, f) = ext_flash_settings_save_one e (cell j) (mem.encode d) st.flash in
        let kept =
          save-kept e doc (cell j) (cell i) (mem.encode d) st.flash (cell-ne i j ne) ∙ h.in_flash in
        elim (ℕ_discrete rc 0) [
          | no bad ↦
              let failed : (rc == 0) ≡ false = ground arith in
              rw failed (record { in_flash = kept; in_cache = h.in_cache })
          | yes z ↦
              rw (z, load_subtree-eq e doc f)
                (record {
                  in_flash = kept;
                  in_cache = reloaded i c f st.cal_cache small kept h.in_cache;
                })
        ]
