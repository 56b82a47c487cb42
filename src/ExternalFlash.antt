-- ===== src/ExternalFlash.antt =====
-- The locked access to the settings on the external flash (Firmware/src/external_flash.c). The settings
-- subsystem and the mutex are Zephyr's and not in the repository: `Backend` is their parameter, with the
-- documented behaviour of a store of keys in `IsBackend`.
pub mod Stores
pub mod Journal
use dive_canhead.Base.{
  ℕ, zero, suc, ◌-◌, ◌≡◌, ◌≢◌, ◌⊎◌, refl, ◌∙◌, Bool, true, false, not, ◌&&◌, ◌||◌, Option, none,
  some, List, [], ◌∷◌, ◌++◌, take, ltb, ◌==◌, if◌then◌else◌, succeeded,
}

-- `settings_read_cb`: for so many bytes wanted, the bytes read, or `none` for a negative result
abbrev pub Reader : Type 0
Reader = ℕ → Option (List ℕ)

-- An error is the number of its errno, 0 is success.
abbrev pub ebusy : ℕ
ebusy = 16

abbrev pub eagain : ℕ
eagain = 11

abbrev pub enoent : ℕ
enoent = 2

abbrev pub eio : ℕ
eio = 5

abbrev pub einval : ℕ
einval = 22

-- EXT_FLASH_SAVE_RETRY_ATTEMPTS
abbrev pub save_retry_attempts : ℕ
save_retry_attempts = 40

-- `K` names the keys of one subtree. `settings_load_subtree` gives its result and the calls of the
-- handler that it made.
pub record Backend (K : Type 0) : Type 1 where
  pub Flash : Type 0
  pub k_mutex_lock : Flash → ℕ
  pub settings_subsys_init : Flash → ℕ
  pub settings_save_one : K → List ℕ → Flash → ℕ × Flash
  pub settings_load_subtree : Flash → ℕ × List (K × Reader)

abbrev pub stored : List ℕ → Reader
stored bytes n = some (take n bytes)

abbrev pub failed_read : Reader
failed_read n = none

module _ {K : Type 0} where
  -- No call is about the key.
  abbrev pub Absent : K → List (K × Reader) → Type 0
  Absent k [] = Unit
  Absent k (call ∷ calls) = (call.0 ≢ k) × Absent k calls

  -- The last call about the key reads these bytes.
  abbrev pub Delivers : K → List ℕ → List (K × Reader) → Type 0
  Delivers k bytes calls =
      (before : List (K × Reader)) × (after : List (K × Reader)) × (calls
        ≡ before ++ (k, stored bytes) ∷ after)
      × Absent k after

  -- Where a call is about the key, it reads these bytes, or the read fails.
  abbrev pub Reads : K → List ℕ → List (K × Reader) → Type 0
  Reads k bytes [] = Unit
  Reads k bytes (call ∷ calls) =
      ((call.0 ≢ k) ⊎ (call.1 ≡ stored bytes) ⊎ (call.1 ≡ failed_read)) × Reads k bytes calls

  -- `value` is what the store holds for a key. A lock with K_FOREVER is granted. A load that succeeds
  -- gives every key that is held; one that fails may leave keys out, but makes up no value.
  pub record IsBackend (e : Backend K) (value : e.Flash → K → Option (List ℕ)) : Type 0 where
    pub lock_granted : (f : e.Flash) → e.k_mutex_lock f ≡ 0
    pub save_stores :
        (k : K) (bytes : List ℕ) (f : e.Flash)
        → (e.settings_save_one k bytes f).0 ≡ 0
        → value (e.settings_save_one k bytes f).1 k ≡ some bytes
    pub save_keeps :
        (k k' : K) (bytes : List ℕ) (f : e.Flash)
        → k' ≢ k
        → value (e.settings_save_one k bytes f).1 k' ≡ value f k'
    pub load_delivers :
        (k : K) (bytes : List ℕ) (f : e.Flash)
        → value f k ≡ some bytes
        → (e.settings_load_subtree f).0 ≡ 0
        → Delivers k bytes (e.settings_load_subtree f).1
    pub failed_load_reads :
        (k : K) (bytes : List ℕ) (f : e.Flash)
        → value f k ≡ some bytes
        → (e.settings_load_subtree f).0 ≢ 0
        → Reads k bytes (e.settings_load_subtree f).1

  module _ (e : Backend K) where
    -- `attempts` are still allowed.
    unfoldable pub save_again : ℕ → K → List ℕ → ℕ × e.Flash → ℕ × e.Flash
    save_again zero k bytes saved = saved
    save_again (suc attempts) k bytes saved =
        let retried = save_again attempts k bytes (e.settings_save_one k bytes saved.1) in
        if (ebusy == saved.0) || (eagain == saved.0) then retried else saved

    unfoldable pub ext_flash_settings_save_one : K → List ℕ → e.Flash → ℕ × e.Flash
    unfolding save_again
    ext_flash_settings_save_one k bytes f =
        let rc = e.k_mutex_lock f in
        let saved = e.settings_save_one k bytes f in
        if rc == 0 then save_again (save_retry_attempts - 1) k bytes saved else (rc, f)

    unfoldable pub ext_flash_settings_load_subtree : e.Flash → ℕ × List (K × Reader)
    ext_flash_settings_load_subtree f =
        let rc = e.k_mutex_lock f in if rc == 0 then e.settings_load_subtree f else (rc, [])
