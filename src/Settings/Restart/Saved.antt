-- ===== src/Settings/Restart/Saved.antt =====
-- What nine writes leave in the store.
use dive_canhead.Base.{
  ℕ, ◌≡◌, ◌≢◌, ◌⊎◌, refl, ◌∙◌, inl, inr, true, false, Option, some, List, [], ◌∷◌, ◌==◌, arith,
  ℕ_discrete, Bool-cases,
}
use dive_canhead.ExternalFlash.{Backend, IsBackend, ext_flash_settings_save_one}
use dive_canhead.ExternalFlash.Stores.{save-stored, save-kept}
use dive_canhead.Settings.{Gains, Build, RuntimeSettings, Field, other, runtime_settings_validate}
use dive_canhead.Settings.Cache.{
  State, bytes_of, saved_fields, first_error, save_all, runtime_settings_save,
}
use dive_canhead.Settings.Restart.Fields.{same_field}

module _ (b : Build) (g : Gains) where
  abbrev AllZero : List ℕ → Type 0
  AllZero [] = Unit
  AllZero (rc ∷ rcs) = (rc ≡ 0) × AllZero rcs

  first_error-set : (first : ℕ) (rcs : List ℕ) → first ≢ 0 → first_error first rcs ≢ 0
  first_error-set first [] ne = ne
  first_error-set first (rc ∷ rcs) ne =
      let stop : (first == 0) ≡ false = ground arith in rw stop (first_error-set first rcs ne)

  first_error-AllZero : (rcs : List ℕ) → first_error 0 rcs ≡ 0 → AllZero rcs
  first_error-AllZero [] h = tt
  first_error-AllZero (rc ∷ rcs) h = elim (ℕ_discrete rc 0) [
    | yes e ↦ (e, first_error-AllZero rcs (rw e at h))
    | no ne ↦
        let bad : (rc == 0) ≡ false = ground arith in
        absurd (first_error-set rc rcs ne (rw bad at h))
  ]

  module _ (e : Backend Field) {value : e.Flash → Field → Option (List ℕ)}
      (doc : IsBackend e value) where
    abbrev pub Holds : Field → RuntimeSettings g.Gain → e.Flash → Type 0
    Holds k s f = value f k ≡ some (bytes_of b g k s)

    save_all-keeps :
        (fields : List Field) (k : Field) (s : RuntimeSettings g.Gain) (f : e.Flash)
        → AllZero (save_all b g e fields s f).0
        → Holds k s f
        → Holds k s (save_all b g e fields s f).1
    save_all-keeps [] k s f ok h = h
    save_all-keeps (x ∷ fields) k s f (ok, oks) h =
        save_all-keeps fields k s (ext_flash_settings_save_one e x (bytes_of b g x s) f).1 oks
          (elim (same_field k x) [
            | inl same ↦ rw same (save-stored e doc x (bytes_of b g x s) f ok)
            | inr ne ↦ save-kept e doc x k (bytes_of b g x s) f ne ∙ h
          ])

    abbrev Among : Field → List Field → Type 0
    Among k [] = ⊥
    Among k (x ∷ fields) = (k ≡ x) ⊎ Among k fields

    save_all-Holds :
        (fields : List Field) (k : Field) (s : RuntimeSettings g.Gain) (f : e.Flash)
        → Among k fields
        → AllZero (save_all b g e fields s f).0
        → Holds k s (save_all b g e fields s f).1
    save_all-Holds [] k s f m ok = elim m [ ]
    save_all-Holds (x ∷ fields) k s f (inl same) (ok, oks) =
        save_all-keeps fields k s (ext_flash_settings_save_one e x (bytes_of b g x s) f).1 oks
          (rw same (save-stored e doc x (bytes_of b g x s) f ok))
    save_all-Holds (x ∷ fields) k s f (inr m) (ok, oks) =
        save_all-Holds fields k s (ext_flash_settings_save_one e x (bytes_of b g x s) f).1 m oks

    Among-saved_fields : (k : Field) → (k ≡ other) ⊎ Among k saved_fields
    Among-saved_fields k = elim k as (λ k. (k ≡ other) ⊎ Among k saved_fields) [
      | other ↦ inl refl
      | _ ↦ inr (search (refl, inl, inr) depth 10)
    ]

    -- After a save that returned 0, every field is in the store.
    pub saved-Holds :
        (k : Field) (s : RuntimeSettings g.Gain) (st : State g.Gain e.Flash)
        → (runtime_settings_save b g e s st).0 ≡ 0
        → k ≢ other
        → (runtime_settings_validate b g s ≡ true)
          × Holds k s (runtime_settings_save b g e s st).1.flash
    unfolding runtime_settings_save
    saved-Holds k s st ok ne = elim (Bool-cases (runtime_settings_validate b g s)) [
      | inr v ↦ absurd (ground arith)
      | inl v ↦
          let (rcs, f) = save_all b g e saved_fields s st.flash in
          elim (ℕ_discrete (first_error 0 rcs) 0) [
            | no bad ↦ absurd (ground arith)
            | yes z ↦ elim (Among-saved_fields k) [
              | inl o ↦ absurd (ne o)
              | inr m ↦
                  rw (v, z)
                    (refl, save_all-Holds saved_fields k s st.flash m (first_error-AllZero rcs z))
            ]
          ]
    ]
