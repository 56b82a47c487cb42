-- ===== src/ExternalFlash/Journal.antt =====
-- A store that the documented behaviour describes: a journal of the saves, the last one first.
use dive_canhead.Base.{
  ℕ, ◌≡◌, ◌≢◌, ◌⊎◌, refl, sym, inl, inr, Option, none, some, List, [], ◌∷◌, ◌++◌, append_assoc,
}
use dive_canhead.ExternalFlash.{Backend, IsBackend, Reader, Absent, Delivers, stored}

module _ {K : Type 0} (same : (k k' : K) → (k ≡ k') ⊎ (k ≢ k')) where
  abbrev pub Journal : Type 0
  Journal = List (K × List ℕ)

  abbrev found : {A B : Type 0} → A ⊎ B → List ℕ → Option (List ℕ) → Option (List ℕ)
  found (inl here) bytes older = some bytes
  found (inr ne) bytes older = older

  abbrev pub value : Journal → K → Option (List ℕ)
  value [] k = none
  value (entry ∷ journal) k = found (same k entry.0) entry.1 (value journal k)

  abbrev calls : Journal → List (K × Reader)
  calls [] = []
  calls (entry ∷ journal) = calls journal ++ (entry.0, stored entry.1) ∷ []

  abbrev pub journal : Backend K
  journal = record {
    Flash = Journal;
    k_mutex_lock = λ f. 0;
    settings_subsys_init = λ f. 0;
    settings_save_one = λ k bytes f. (0, (k, bytes) ∷ f);
    settings_load_subtree = λ f. (0, calls f);
  }

  Absent-append :
      (k : K) (xs ys : List (K × Reader)) → Absent k xs → Absent k ys → Absent k (xs ++ ys)
  Absent-append k [] ys hx hy = hy
  Absent-append k (x ∷ xs) ys hx hy = (hx.0, Absent-append k xs ys hx.1 hy)

  value-saved : (k : K) (bytes : List ℕ) (f : Journal) → value ((k, bytes) ∷ f) k ≡ some bytes
  value-saved k bytes f = elim (same k k) as (λ d. found d bytes (value f k) ≡ some bytes) [
    | inl here ↦ refl
    | inr ne ↦ absurd (ne refl)
  ]

  value-kept :
      (k k' : K) (bytes : List ℕ) (f : Journal) → k' ≢ k → value ((k, bytes) ∷ f) k' ≡ value f k'
  value-kept k k' bytes f ne = elim (same k' k) as (λ d. found d bytes (value f k') ≡ value f k') [
    | inl here ↦ absurd (ne here)
    | inr other ↦ refl
  ]

  calls-Delivers :
      (k : K) (bytes : List ℕ) (f : Journal) → value f k ≡ some bytes → Delivers k bytes (calls f)
  calls-Delivers k bytes [] h = cc h
  calls-Delivers k bytes (entry ∷ f) h =
      let last : K × Reader = (entry.0, stored entry.1) in
      elim (same k entry.0)
          as (λ d.
            found d entry.1 (value f k) ≡ some bytes → Delivers k bytes (calls f ++ last ∷ [])) [
              | inl here ↦
                  λ e. let eq : entry.1 ≡ bytes = cc e in (calls f, [], rw (here, eq) refl, tt)
              | inr ne ↦ λ e.
                  let (before, after, split, absent) = calls-Delivers k bytes f e in
                  (
                    before,
                    after ++ last ∷ [],
                    rw (split, append_assoc before) refl,
                    Absent-append k after (last ∷ []) absent ((λ eq. ne (sym eq)), tt),
                  )
            ]
        h

  pub journal-IsBackend : IsBackend journal value
  journal-IsBackend = record {
    lock_granted = λ f. refl;
    save_stores = λ k bytes f ok. value-saved k bytes f;
    save_keeps = λ k k' bytes f ne. value-kept k k' bytes f ne;
    load_delivers = λ k bytes f h done. calls-Delivers k bytes f h;
    failed_load_reads = λ k bytes f h failed. absurd (failed refl);
  }
