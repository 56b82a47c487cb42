-- ===== src/Uds/Dispatch/Others.antt =====
-- What other parts of the program do to the scratch region, and the invariant of the firmware download.
use dive_canhead.Base.{
  ◌≡◌, ◌≢◌, ◌⊎◌, refl, sym, ap, subst, true, ◌&&◌, inl, inr, Bool-cases, if◌then◌else◌, arith,
  either, ==_iff, false, Bool,
}
use dive_canhead.Maintenance.{
  Owner, is_owner, free, ota, factory, log_index, log_stream, flash, autotune, owner_code, claim,
  release, resume, set_index_building,
}
use dive_canhead.Maintenance
use dive_canhead.Maintenance.Claims.{claim-cases}
use dive_canhead.Maintenance.Ownership.{claim-Undisturbed}
use dive_canhead.Uds.{
  err_flash, OtaState, ota_idle, downloading, awaiting_activate, activating, Config, Device, Head,
  report,
}
use dive_canhead.Uds.Same.{Aside, still}
use dive_canhead.Uds.Ota.Invariant.{Phase, IsValid, Aside-IsValid, owned-Alone, Alone-Shares}
use dive_canhead.Uds.Write.{restore_work_handler, log_paused_to}

-- Not in the name of one of the two downloads.
abbrev pub IsOther : Owner → Type 0
IsOther o = (owner_code o ≢ 1) × (owner_code o ≢ 4)

owner-cases : (o : Owner) → (o ≡ ota) ⊎ (o ≡ log_stream) ⊎ IsOther o
owner-cases free = inr (inr (omega arith, omega arith))
owner-cases ota = inl refl
owner-cases factory = inr (inr (omega arith, omega arith))
owner-cases log_index = inr (inr (omega arith, omega arith))
owner-cases log_stream = inr (inl refl)
owner-cases flash = inr (inr (omega arith, omega arith))
owner-cases autotune = inr (inr (omega arith, omega arith))

-- What such a call does to the owner, as far as the two downloads care.
abbrev pub Respects : Owner → Owner → Type 0
Respects o o' = (o' ≡ o) ⊎ (IsOther o × (owner_code o' ≢ 1))

pub claim-Respects :
    (o : Owner) (s : Maintenance.Maintenance) → IsOther o → Respects s.owner (claim o s).0.owner
claim-Respects o s ne = elim (owner-cases s.owner) [
  | inl own ↦ inl (claim-Undisturbed o s (rw own (omega arith, omega arith))).0
  | inr rest ↦ elim rest [
    | inl own ↦ inl (claim-Undisturbed o s (rw own (omega arith, omega arith))).0
    | inr other ↦ elim (claim-cases o s) [
      | inl (e, taken) ↦ inr (other, subst (λ p. owner_code p ≢ 1) (sym taken) ne.0)
      | inr (e, kept) ↦ inl (ap (λ m. m.owner) kept)
    ]
  ]
]

pub release-Respects :
    (o : Owner) (s : Maintenance.Maintenance) → IsOther o → Respects s.owner (release o s).owner
unfolding release resume
release-Respects o s ne = elim (Bool-cases (is_owner o s.owner)) [
  | inl e ↦
      let own : owner_code o ≡ owner_code s.owner =
        (==_iff (owner_code o) (owner_code s.owner)).0 e in
      rw e (inr (rw (← own) ne, ground arith))
  | inr e ↦ rw e (inl refl)
]

other-IsValid :
    (cfg : Config) (st : OtaState) (h : Head) (s : Maintenance.Maintenance)
    → h.ota ≡ st
    → IsOther h.arena.owner
    → owner_code s.owner ≢ 1
    → Phase cfg st h
    → IsValid cfg (record h { arena = s })
unfolding Phase
other-IsValid cfg ota_idle h s o was is (p, q, r) =
    let alone = owned-Alone h r was.1 in
    record { phase = rw o (p, is, Alone-Shares (record h { arena = s }) alone) }
other-IsValid cfg downloading h s o was is (p, q, r) = absurd (was.0 (ap owner_code p.1))
other-IsValid cfg awaiting_activate h s o was is (p, q) = absurd (was.0 (ap owner_code p.1))
other-IsValid cfg activating h s o was is (p, q) = absurd (was.0 (ap owner_code p.1))

pub calls_phase :
    (cfg : Config) (h : Head) (s : Maintenance.Maintenance)
    → Respects h.arena.owner s.owner
    → IsValid cfg h
    → IsValid cfg (record h { arena = s })
calls_phase cfg h s (inl kept) v =
    Aside-IsValid cfg h (record h { arena = s }) (kept, (refl, refl, refl, refl, refl, refl)) v
calls_phase cfg h s (inr (was, is)) v = other-IsValid cfg h.ota h s refl was is v.phase

paused-Aside : (cfg : Config) (on : Bool) (h : Head) → Aside h (log_paused_to cfg on h)
paused-Aside cfg on h = either (Aside h) cfg.flash_log _ _ (still h) (still h)

-- The worker of the restore claims the region and gives it back, and changes the flag of the log.
pub restore-IsValid :
    (cfg : Config) (d : Device) (h : Head)
    → IsValid cfg h
    → IsValid cfg (restore_work_handler cfg d h)
unfolding restore_work_handler report
restore-IsValid cfg d h v =
    let paused = log_paused_to cfg true h in
    let (arena, granted) = claim factory paused.arena in
    let held : Head = record paused { arena = arena } in
    let back : Head = record paused { arena = release factory arena } in
    let copied : Head = if granted && d.factory_captured then back else paused in
    let resumed = log_paused_to cfg false copied in
    let start = Aside-IsValid cfg h paused (paused-Aside cfg true h) v in
    let claimed =
      calls_phase cfg paused arena (claim-Respects factory paused.arena (omega arith, omega arith))
        start in
    let given =
      calls_phase cfg held (release factory arena)
        (release-Respects factory arena (omega arith, omega arith)) claimed in
    let done = either (IsValid cfg) (granted && d.factory_captured) back paused given start in
    Aside-IsValid cfg resumed (report err_flash d.flash_command resumed) (still resumed)
      (Aside-IsValid cfg copied resumed (paused-Aside cfg false copied) done)
