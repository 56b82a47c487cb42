-- ===== src/Settings/Restart.antt =====
-- What was saved is loaded at the next start.
pub mod Fields
mod Saved
use dive_canhead.Base.{
  ℕ, ◌%◌, ◌≤◌, ◌<◌, ◌≡◌, ◌≢◌, ◌⊎◌, refl, sym, ap, ◌∙◌, inl, inr, Bool, true, false, not, ◌&&◌, ◌||◌,
  true≢false, Option, some, List, [], ◌∷◌, ◌++◌, length, take, get_or, ltb, ◌==◌, if◌then◌else◌,
  arith, ℕ_discrete, Bool-cases, take_all, ltb→lt,
}
use dive_canhead.ExternalFlash.{
  Backend, IsBackend, Reader, Absent, Delivers, stored, ext_flash_settings_save_one,
}
use dive_canhead.ExternalFlash.Stores.{save-stored, save-kept, load_subtree-eq}
use dive_canhead.Settings.{
  Gains, Build, Broadcast, RuntimeSettings, Field, ppo2, cal, depth, kp, ki, kd, bat, bcst, ident,
  other, fetch, u8_of, flag_of, flags_of, of_flag, is_listed, ppo2_mode_valid, cal_mode_valid,
  battery_type_valid, divecan_identity_valid, pid_gain_valid, runtime_settings_default,
  runtime_settings_validate,
}
use dive_canhead.Settings.Cache.{
  State, settings_set, replay, bytes_of, saved_fields, first_error, save_all, runtime_settings_load,
  runtime_settings_save,
}
use dive_canhead.Settings.Restart.Fields.{
  IsMemory, number_of, same_field, Agrees, same_settings, FieldValid, validate-FieldValid,
  set-Agrees, set_ne-Agrees,
}
use dive_canhead.Settings.Restart.Saved.{saved-Holds}

module _ (b : Build) (g : Gains) where
  replay-append :
      (xs ys : List (Field × Reader)) (c : RuntimeSettings g.Gain)
      → replay b g (xs ++ ys) c ≡ replay b g ys (replay b g xs c)
  replay-append [] ys c = refl
  replay-append (x ∷ xs) ys c = replay-append xs ys (settings_set b g x.0 x.1 c).1

  replay-Absent :
      (k : Field) (s : RuntimeSettings g.Gain) (calls : List (Field × Reader))
      → Absent k calls
      → (c : RuntimeSettings g.Gain) → Agrees k s c
      → Agrees k s (replay b g calls c)
  replay-Absent k s [] h c a = a
  replay-Absent k s (call ∷ calls) (ne, h) c a =
      replay-Absent k s calls h (settings_set b g call.0 call.1 c).1
        (set_ne-Agrees b g k call.0 s c call.1 ne a)

  -- A subtree that delivers what a valid field was saved as restores the field.
  replay-Agrees :
      IsMemory g
      → (k : Field) (s c : RuntimeSettings g.Gain) (calls : List (Field × Reader))
      → FieldValid b g k s
      → Delivers k (bytes_of b g k s) calls
      → Agrees k s (replay b g calls c)
  replay-Agrees mem k s c calls v (before, after, split, h) =
      let call : Field × Reader = (k, stored (bytes_of b g k s)) in
      rw (split, replay-append before (call ∷ after) c)
        (replay-Absent k s after h _ (set-Agrees b g mem k s (replay b g before c) v))

  module _ (e : Backend Field) {value : e.Flash → Field → Option (List ℕ)}
      (doc : IsBackend e value) where
    -- Settings whose save returned 0 are what the next start loads, from the defaults: the load returns
    -- them and makes them the live settings. The flash behaves as documented, is ready at the start and
    -- loads without an error, and a gain is read back from its four bytes.
    pub saved_settings_are_loaded :
        IsMemory g
        → (s : RuntimeSettings g.Gain) (st : State g.Gain e.Flash)
        → (runtime_settings_save b g e s st).0 ≡ 0
        → e.settings_subsys_init (runtime_settings_save b g e s st).1.flash ≡ 0
        → (e.settings_load_subtree (runtime_settings_save b g e s st).1.flash).0 ≡ 0
        → let f = (runtime_settings_save b g e s st).1.flash in
          runtime_settings_load b g e
            (record { cached = runtime_settings_default b g; loaded = false; flash = f })
          ≡ (0, s, record { cached = s; loaded = true; flash = f })
    unfolding runtime_settings_load
    saved_settings_are_loaded mem s st ok ready whole =
        let fresh = runtime_settings_default b g in
        let f = (runtime_settings_save b g e s st).1.flash in
        let calls = (e.settings_load_subtree f).1 in
        let v = (saved-Holds b g e doc ppo2 s st ok (λ eq. omega (arith, ap number_of eq))).0 in
        let same : replay b g calls fresh ≡ s = same_settings s (replay b g calls fresh) (λ k.
          elim (same_field k other) [
            | inl o ↦ rw o tt
            | inr ne ↦ replay-Agrees mem k s fresh calls (validate-FieldValid b g s k v) (
                doc.load_delivers k (bytes_of b g k s) f (saved-Holds b g e doc k s st ok ne).1
                  whole)
          ]) in
        rw (load_subtree-eq e doc f, same, v, ready) refl
