-- ===== src/Uds/Dispatch/Streaming.antt =====
-- What the log download does to the invariant of the firmware download.
use dive_canhead.Base.{
  ℕ, ◌+◌, ◌*◌, ◌≡◌, ◌≢◌, refl, sym, ap, subst, List, true, ◌&&◌, leb, ◌==◌, inl, inr, Bool-cases,
  arith, either, ltb, not, false, ◌∙◌,
}
use dive_canhead.Maintenance.{
  Owner, is_owner, free, ota, factory, log_index, log_stream, flash, autotune, owner_code, claim,
  release, resume, set_index_building,
}
use dive_canhead.Maintenance
use dive_canhead.Maintenance.Claims.{claim-cases, release-free}
use dive_canhead.Maintenance.Ownership.{claim-Undisturbed}
use dive_canhead.Uds.{
  LogState, ld_idle, ld_selected, ld_streaming, streams, is_streaming, OtaState, ota_idle,
  downloading, awaiting_activate, activating, Config, Device, Head, at,
}
use dive_canhead.Uds.Ota.Invariant.{Phase, IsValid, Aside-IsValid}
use dive_canhead.Uds.Log.{
  log_handle, log_handle_routine, fl_start_routine, fl_start_streaming, fl_stop_streaming,
  is_selected,
}

module _ (cfg : Config) where
  -- A state that may have another log download, which does not stream either.
  stopped-IsValid :
      (st : OtaState) (next : LogState) (h : Head)
      → h.ota ≡ st
      → streams next ≡ false
      → is_streaming h ≡ true
      → Phase cfg st h
      → IsValid cfg (record h {
        log_paused = false;
        push_suspended = false;
        arena = release Maintenance.log_stream h.arena;
        log_state = next;
      })
  unfolding Phase
  stopped-IsValid ota_idle next h o quiet on (p, q, (push, stream)) =
      let free_again = release-free Maintenance.log_stream h.arena (stream on) in
      record {
        phase = rw o (
          p,
          subst (λ m. owner_code m ≢ 1) (sym free_again) (omega arith),
          (sym quiet, λ on'. let never : true ≡ false = sym on' ∙ quiet in cc),
        );
      }
  stopped-IsValid downloading next h o quiet on (p, q, r) =
      let never : true ≡ false = sym on ∙ r in cc
  stopped-IsValid awaiting_activate next h o quiet on (p, q) =
      let never : true ≡ false = sym on ∙ q.1 in cc
  stopped-IsValid activating next h o quiet on (p, q) =
      let never : true ≡ false = sym on ∙ q.1 in cc

  pub stop-IsValid :
      (next : LogState) (h : Head)
      → streams next ≡ false
      → IsValid cfg h
      → IsValid cfg (fl_stop_streaming next h)
  unfolding fl_stop_streaming
  stop-IsValid next h quiet v = elim (Bool-cases (is_streaming h)) [
    | inl on ↦ rw on (stopped-IsValid h.ota next h refl quiet on v.phase)
    | inr off ↦ rw off (
        Aside-IsValid cfg h (record h { log_state = next })
          (refl, (refl, refl, refl, refl, refl, quiet ∙ sym off)) v)
  ]

  log_refused :
      (h : Head)
      → h.arena.owner ≡ ota
      → (claim Maintenance.log_stream h.arena).0.owner ≡ Maintenance.log_stream
      → true ≡ false
  log_refused h own taken =
      let kept =
        (claim-Undisturbed Maintenance.log_stream h.arena (rw own (omega arith, omega arith))).0 in
      let same : 1 ≡ 4 = ap owner_code (sym own ∙ sym kept ∙ taken) in absurd (omega (arith, same))

  begun-IsValid :
      (st : OtaState) (h : Head)
      → h.ota ≡ st
      → (claim Maintenance.log_stream h.arena).0.owner ≡ Maintenance.log_stream
      → Phase cfg st h
      → IsValid cfg (record h {
        arena = (claim Maintenance.log_stream h.arena).0;
        log_paused = true;
        push_suspended = true;
        log_state = ld_streaming;
      })
  unfolding Phase
  begun-IsValid ota_idle h o taken (p, q, r) = record {
    phase = rw o (p, subst (λ m. owner_code m ≢ 1) (sym taken) (omega arith), (refl, λ on. taken));
  }
  begun-IsValid downloading h o taken (p, q, r) = let never = log_refused h p.1 taken in cc
  begun-IsValid awaiting_activate h o taken (p, q) = let never = log_refused h p.1 taken in cc
  begun-IsValid activating h o taken (p, q) = let never = log_refused h p.1 taken in cc

  start-IsValid : (h : Head) → IsValid cfg h → IsValid cfg (fl_start_streaming h).0
  unfolding fl_start_streaming
  start-IsValid h v = elim (claim-cases Maintenance.log_stream h.arena) [
    | inl (e, own) ↦ rw e (begun-IsValid h.ota h refl own v.phase)
    | inr (e, kept) ↦ rw e v
  ]

  pub log_handle-IsValid :
      (request : List ℕ) (n : ℕ) (h : Head) → IsValid cfg h → IsValid cfg (log_handle request n h)
  unfolding log_handle
  log_handle-IsValid request n h v =
      either (IsValid cfg) (at request 1 == 0x37 && leb 2 n) _ _ (stop-IsValid ld_idle h refl v) v

  -- A selector ends a stream, and leaves a range selected or not.
  selected-IsValid :
      (h : Head)
      → IsValid cfg h
      → IsValid cfg (record (fl_stop_streaming ld_idle h) { log_state = ld_selected })
  unfolding fl_stop_streaming
  selected-IsValid h v =
      let v' = stop-IsValid ld_selected h refl v in
      elim (Bool-cases (is_streaming h)) [
        | inl on ↦ rw on (stopped-IsValid h.ota ld_selected h refl refl on v.phase)
        | inr off ↦ rw off (
            Aside-IsValid cfg h (record h { log_state = ld_selected })
              (refl, (refl, refl, refl, refl, refl, sym off)) v)
      ]

  pub log_routine-IsValid :
      (d : Device) (request : List ℕ) (n : ℕ) (h : Head)
      → IsValid cfg h
      → IsValid cfg (log_handle_routine d request n h)
  unfolding log_handle_routine fl_start_routine
  log_routine-IsValid d request n h v =
      let rid = at request 3 * 256 + at request 4 in
      either (IsValid cfg) (ltb n 5) _ _ v (
        either (IsValid cfg) (not (at request 2 == 1)) _ _ v (
          either (IsValid cfg) (rid == 0xF105) _ _
            (either (IsValid cfg) (is_selected h.log_state) _ _ (start-IsValid h v) v)
            (either (IsValid cfg) (leb 0xF100 rid && leb rid 0xF106) _ _
              (either (IsValid cfg) d.log_resolves _ _ (selected-IsValid h v)
                (stop-IsValid ld_idle h refl v))
              v)))
