-- ===== src/ExternalFlash/Stores.antt =====
-- What a save through the lock leaves in the store, with its retries.
use dive_canhead.Base.{ℕ, zero, suc, ◌-◌, ◌≡◌, ◌≢◌, ◌∙◌, ◌||◌, Option, some, List, ◌==◌, either}
use dive_canhead.ExternalFlash.{
  Backend, IsBackend, save_again, ext_flash_settings_save_one, ext_flash_settings_load_subtree,
  ebusy, eagain, save_retry_attempts,
}

module _ {K : Type 0} (e : Backend K) {value : e.Flash → K → Option (List ℕ)}
    (doc : IsBackend e value) where
  -- Success means that the bytes are in the store.
  record Stores (k : K) (bytes : List ℕ) (r : ℕ × e.Flash) : Type 0 where
    holds : r.0 ≡ 0 → value r.1 k ≡ some bytes

  save_again-Stores :
      (n : ℕ) (k : K) (bytes : List ℕ) (saved : ℕ × e.Flash)
      → Stores k bytes saved
      → Stores k bytes (save_again e n k bytes saved)
  unfolding save_again
  save_again-Stores zero k bytes saved h = h
  save_again-Stores (suc n) k bytes saved h =
      either (Stores k bytes) ((ebusy == saved.0) || (eagain == saved.0))
        (save_again e n k bytes (e.settings_save_one k bytes saved.1)) saved
        (save_again-Stores n k bytes (e.settings_save_one k bytes saved.1)
          (record { holds = doc.save_stores k bytes saved.1 }))
        h

  -- Whatever the result, another key holds what it held in `f`.
  record Keeps (k' : K) (f : e.Flash) (r : ℕ × e.Flash) : Type 0 where
    same : value r.1 k' ≡ value f k'

  save_again-Keeps :
      (n : ℕ) (k k' : K) (bytes : List ℕ) (f : e.Flash) (saved : ℕ × e.Flash)
      → k' ≢ k
      → Keeps k' f saved
      → Keeps k' f (save_again e n k bytes saved)
  unfolding save_again
  save_again-Keeps zero k k' bytes f saved ne h = h
  save_again-Keeps (suc n) k k' bytes f saved ne h =
      either (Keeps k' f) ((ebusy == saved.0) || (eagain == saved.0))
        (save_again e n k bytes (e.settings_save_one k bytes saved.1)) saved
        (save_again-Keeps n k k' bytes f (e.settings_save_one k bytes saved.1) ne
          (record { same = doc.save_keeps k k' bytes saved.1 ne ∙ h.same }))
        h

  -- A save that returns 0 has stored the bytes under its key.
  pub save-stored :
      (k : K) (bytes : List ℕ) (f : e.Flash)
      → (ext_flash_settings_save_one e k bytes f).0 ≡ 0
      → value (ext_flash_settings_save_one e k bytes f).1 k ≡ some bytes
  unfolding ext_flash_settings_save_one
  save-stored k bytes f ok =
      let first : Stores k bytes (e.settings_save_one k bytes f) = record {
        holds = doc.save_stores k bytes f;
      } in
      let again =
        save_again-Stores (save_retry_attempts - 1) k bytes (e.settings_save_one k bytes f) first in
      rw (doc.lock_granted f) (again.holds (rw (doc.lock_granted f) at ok))

  -- No other key changes.
  pub save-kept :
      (k k' : K) (bytes : List ℕ) (f : e.Flash)
      → k' ≢ k
      → value (ext_flash_settings_save_one e k bytes f).1 k' ≡ value f k'
  unfolding ext_flash_settings_save_one
  save-kept k k' bytes f ne =
      let first : Keeps k' f (e.settings_save_one k bytes f) = record {
        same = doc.save_keeps k k' bytes f ne;
      } in
      let again =
        save_again-Keeps (save_retry_attempts - 1) k k' bytes f (e.settings_save_one k bytes f) ne
          first in
      rw (doc.lock_granted f) again.same

  pub load_subtree-eq :
      (f : e.Flash) → ext_flash_settings_load_subtree e f ≡ e.settings_load_subtree f
  unfolding ext_flash_settings_load_subtree
  load_subtree-eq f = rw (doc.lock_granted f)
