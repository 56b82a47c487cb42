-- ===== src/Uds/Dispatch/Writes.antt =====
-- The handlers of WriteDataByIdentifier and the download machine: those that need the flash get it
-- only while no download is under way.
use dive_canhead.Base.{
  ℕ, ◌≡◌, ◌≢◌, refl, sym, ◌∙◌, ap, subst, List, true, false, not, ◌&&◌, ◌||◌, ltb, leb, ◌==◌, inl,
  inr, Bool-cases, arith, either,
}
use dive_canhead.Maintenance.{owner_code, claim, release, clear}
use dive_canhead.Maintenance
use dive_canhead.Maintenance.Claims.{claim-cases, release-free}
use dive_canhead.Maintenance.Ownership.{clear-SameArena, claim-Undisturbed}
use dive_canhead.Uds.{
  OtaState, ota_idle, downloading, awaiting_activate, activating, Config, Device, Head, Risk, at,
  is_programming, in_dive, refuse,
}
use dive_canhead.Uds.Same.{Aside, still}
use dive_canhead.Uds.Write.{
  guards, guarded, with_flash, check_precondition, fire_channel, write_solenoid_override,
  write_autotune, write_histogram_clear, write_force_revert, force_revert, write_restore_factory,
  write_factory_capture, write_erase, erase_and_reboot, write_fault_injection, write_log_erase,
  erase_log_stream,
}
use dive_canhead.Uds.Dispatch.{write_data}
use dive_canhead.Uds.Dispatch.Table.{write_case}
use dive_canhead.Uds.Ota.Invariant.{
  Phase, IsValid, Aside-IsValid, IsValid-along, Shares, Alone, Alone-Shares, owned-Alone,
  claim-Shares,
}

-- Idle, the region free or with another.
abbrev pub Idle : Head → Type 0
Idle h = (h.ota ≡ ota_idle) × (h.has_image ≡ false) × (owner_code h.arena.owner ≢ 1) × Alone h

Idle-IsValid : (cfg : Config) (h : Head) → Idle h → IsValid cfg h
unfolding Phase
Idle-IsValid cfg h (o, i, a, s) = record { phase = rw o (i, a, Alone-Shares h s) }

module _ (d : Device) (request : List ℕ) (n : ℕ) (h : Head) (P : Head → Type 0)
    (plain : (h' : Head) → Aside h h' → P h') where
  solenoid_case : P (write_solenoid_override d request n h)
  unfolding write_solenoid_override fire_channel
  solenoid_case = either P (not (n == 6)) _ _ (plain _ (still h)) (
      either P (not (is_programming h)) _ _ (plain _ (still h)) (
        either P (in_dive d) _ _ (plain _ (still h)) (
          either P (not (at request 5 == 0x5A)) _ _ (plain _ (still h)) (
            either P (not d.mode_latched) _ _ (plain _ (still h)) (
              either P (not d.mode_off) _ _ (plain _ (still h)) (
                either P d.calibration_running _ _ (plain _ (still h)) (
                  either P (leb d.solenoid_channels (at request 4)) _ _ (plain _ (still h)) (
                    either P (not (d.solenoid_fire == 0)) _ _ (plain _ (still h))
                      (plain _ (still h))))))))))

  autotune_case : P (write_autotune d request n h)
  unfolding write_autotune
  autotune_case = either P (ltb n 6) _ _ (plain _ (still h)) (
      either P (not (is_programming h)) _ _ (plain _ (still h)) (
        either P (not (at request 5 == 0xA7)) _ _ (plain _ (still h)) (
          either P (at request 4 == 2) _ _ (plain _ (still h)) (
            either P (not (at request 4 == 1)) _ _ (plain _ (still h)) (
              either P (not (n == 10)) _ _ (plain _ (still h)) (
                either P (in_dive d) _ _ (plain _ (still h)) (
                  either P (d.autotune_start == 0) _ _ (plain _ (still h))
                    (plain _ (still h)))))))))

  restore_case : P (write_restore_factory d request n h)
  unfolding write_restore_factory guarded
  restore_case =
      either P (not (check_precondition d request n h == 0)) _ _ (plain _ (still h))
        (either P (not d.factory_captured) _ _ (plain _ (still h)) (plain _ (still h)))

  capture_case : P (write_factory_capture d request n h)
  unfolding write_factory_capture guarded
  capture_case =
      either P (not (check_precondition d request n h == 0)) _ _ (plain _ (still h))
        (either P (not d.image_confirmed) _ _ (plain _ (still h)) (plain _ (still h)))

  inject_case : P (write_fault_injection d request n h)
  unfolding write_fault_injection guarded
  inject_case =
      let kind = at request 4 in
      let nrc =
        guards (n == 6) (at request 5 == 0xC5 && (kind == 1 || kind == 2 || kind == 3)) d h in
      either P (not (nrc == 0)) _ _ (plain _ (still h)) (plain _ (still h))

  clear_case : P (write_histogram_clear d request h)
  unfolding write_histogram_clear
  clear_case =
      let kept = (clear-SameArena d.nvs h.arena).0 in
      either P (not ((clear d.nvs h.arena).1 == 0)) _ _
        (plain _ (kept, (refl, refl, refl, refl, refl, refl)))
        (plain _ (kept, (refl, refl, refl, refl, refl, refl)))

flash_refused :
    (h : Head)
    → h.arena.owner ≡ Maintenance.ota
    → (claim Maintenance.flash h.arena).0.owner ≡ Maintenance.flash
    → true ≡ false
flash_refused h own taken =
    let kept =
      (claim-Undisturbed Maintenance.flash h.arena (rw own (omega arith, omega arith))).0 in
    let same : 1 ≡ 5 = ap owner_code (sym own ∙ sym kept ∙ taken) in absurd (omega (arith, same))

-- Where the flash is granted, no log is downloaded either.
granted-Alone :
    (h : Head)
    → Shares h
    → (claim Maintenance.flash h.arena).0.owner ≡ Maintenance.flash
    → Alone (record h { arena = (claim Maintenance.flash h.arena).0 })
granted-Alone h s taken =
    owned-Alone (record h { arena = (claim Maintenance.flash h.arena).0 })
      (claim-Shares Maintenance.flash h s) (subst (λ o. owner_code o ≢ 4) (sym taken) (omega arith))

-- Where the flash is granted, no download is under way.
granted-Idle :
    (cfg : Config) (st : OtaState) (h : Head)
    → h.ota ≡ st
    → Phase cfg st h
    → (claim Maintenance.flash h.arena).0.owner ≡ Maintenance.flash
    → Idle (record h { arena = (claim Maintenance.flash h.arena).0 })
unfolding Phase
granted-Idle cfg ota_idle h o (p, q, r) taken =
    (o, p, subst (λ m. owner_code m ≢ 1) (sym taken) (omega arith), granted-Alone h r taken)
granted-Idle cfg downloading h o (p, q, r) taken = let never = flash_refused h p.1 taken in cc
granted-Idle cfg awaiting_activate h o (p, q) taken = let never = flash_refused h p.1 taken in cc
granted-Idle cfg activating h o (p, q) taken = let never = flash_refused h p.1 taken in cc

with_flash-IsValid :
    (cfg : Config) (body : Head → Head) (h : Head)
    → ((h' : Head) → Idle h' → h'.arena.owner ≡ Maintenance.flash → Idle (body h'))
    → IsValid cfg h
    → IsValid cfg (with_flash body h)
unfolding with_flash refuse
with_flash-IsValid cfg body h keeps v = elim (claim-cases Maintenance.flash h.arena) [
  | inl (e, own) ↦
      rw e (Idle-IsValid cfg _ (keeps _ (granted-Idle cfg h.ota h refl v.phase own) own))
  | inr (e, kept) ↦ rw (e, kept) (Aside-IsValid cfg h _ (still h) v)
]

free_ne :
    (h : Head)
    → h.arena.owner ≡ Maintenance.flash
    → owner_code (release Maintenance.flash h.arena).owner ≢ 1
free_ne h e =
    subst (λ o. owner_code o ≢ 1) (sym (release-free Maintenance.flash h.arena e)) (omega arith)

module _ (d : Device) (request : List ℕ) (h : Head) (idle : Idle h) where
  force_revert-Idle :
      (cfg : Config) → h.arena.owner ≡ Maintenance.flash → Idle (force_revert cfg d request h)
  unfolding force_revert
  force_revert-Idle cfg own =
      let (o, i, a, s) = idle in
      elim (Bool-cases cfg.flash_log) [
        | inl e ↦ rw e (
            either Idle (not (d.bank_header == 0)) _ _ (o, i, free_ne h own, s)
              (either Idle (not (d.upgrade == 0)) _ _ (o, i, free_ne h own, s)
                (o, i, free_ne h own, s)))
        | inr e ↦ rw e (
            either Idle (not (d.bank_header == 0)) _ _ (o, i, free_ne h own, s)
              (either Idle (not (d.upgrade == 0)) _ _ (o, i, free_ne h own, s)
                (o, i, free_ne h own, s)))
      ]

  erase_and_reboot-Idle :
      (cfg : Config) (what : Risk) → Idle (erase_and_reboot cfg d what request h)
  unfolding erase_and_reboot
  erase_and_reboot-Idle cfg what = elim (Bool-cases cfg.flash_log) [
    | inl e ↦ elim (Bool-cases (d.flash_command == 0)) [
      | inl f ↦ rw (e, f) idle
      | inr f ↦ rw (e, f) idle
    ]
    | inr e ↦ elim (Bool-cases (d.flash_command == 0)) [
      | inl f ↦ rw (e, f) idle
      | inr f ↦ rw (e, f) idle
    ]
  ]

  log_erase-Idle : h.arena.owner ≡ Maintenance.flash → Idle (erase_log_stream d request h)
  unfolding erase_log_stream
  log_erase-Idle own =
      let (o, i, a, s) = idle in
      either Idle (not (d.flash_command == 0)) _ _ (o, i, free_ne h own, s) (o, i, free_ne h own, s)

module _ (cfg : Config) (d : Device) (request : List ℕ) (n : ℕ) (h : Head) (v : IsValid cfg h) where
  behind_guards :
      (nrc : ℕ) (body : Head → Head) → IsValid cfg (body h) → IsValid cfg (guarded nrc body h)
  unfolding guarded refuse
  behind_guards nrc body b =
      either (IsValid cfg) (not (nrc == 0)) (refuse 0x2E nrc h) _
        (Aside-IsValid cfg h (refuse 0x2E nrc h) (still h) v) b

  revert-IsValid : IsValid cfg (write_force_revert cfg d request n h)
  unfolding write_force_revert
  revert-IsValid =
      behind_guards (check_precondition d request n h) (with_flash (force_revert cfg d request)) (
        with_flash-IsValid cfg (force_revert cfg d request) h
          (λ h' idle own. force_revert-Idle d request h' idle cfg own) v)

  erase-IsValid : (what : Risk) → IsValid cfg (write_erase cfg d what request n h)
  unfolding write_erase
  erase-IsValid what =
      behind_guards (check_precondition d request n h)
        (with_flash (erase_and_reboot cfg d what request))
        (with_flash-IsValid cfg (erase_and_reboot cfg d what request) h
          (λ h' idle own. erase_and_reboot-Idle d request h' idle cfg what) v)

  log_erase-IsValid : IsValid cfg (write_log_erase d request n h)
  unfolding write_log_erase
  log_erase-IsValid =
      behind_guards (guards (n == 6) (at request 5 == 0xA5) d h)
        (with_flash (erase_log_stream d request))
        (with_flash-IsValid cfg (erase_log_stream d request) h
          (λ h' idle own. log_erase-Idle d request h' idle own) v)

  -- A write request keeps the machine's invariant.
  pub write_data-IsValid : IsValid cfg (write_data cfg d request n h)
  write_data-IsValid =
      let aside : (h' : Head) → Aside h h' → IsValid cfg h' = λ h' a. Aside-IsValid cfg h h' a v in
      write_case h (IsValid cfg) (λ h' s r. IsValid-along cfg h h' s v) cfg d request n
        (
          solenoid_case d request n h (IsValid cfg) aside,
          autotune_case d request n h (IsValid cfg) aside,
          clear_case d request n h (IsValid cfg) aside,
          revert-IsValid,
          restore_case d request n h (IsValid cfg) aside,
          capture_case d request n h (IsValid cfg) aside,
          erase-IsValid,
          inject_case d request n h (IsValid cfg) aside,
          log_erase-IsValid,
        )
