-- ===== src/Uds/Dispatch/Guard.antt =====
-- What a request may not do outside the programming session, or in a dive.
use dive_canhead.Base.{
  ℕ, ◌+◌, ◌*◌, ◌≡◌, refl, sym, ◌∙◌, List, [], ◌∷◌, Bool, true, false, not, ◌&&◌, ◌||◌, Option, ltb,
  leb, ◌==◌, ◌⊎◌, inl, inr, Bool-cases, if◌then◌else◌,
}
use dive_canhead.Zephyr.{Kernel, IsKernel, model, Kernel-eq}
use dive_canhead.Maintenance.{clear}
use dive_canhead.Uds.{
  LogState, ld_idle, log_download, log_routine, is_streaming, Config, Device, Head, default_session,
  abort_autotune, OtaState, ota_idle, downloading, awaiting_activate, activating, Risk,
  is_programming, at, in_dive, respond, hand,
}
use dive_canhead.Uds.Ota.{
  OtaEvent, request_download, transfer_data, transfer_exit, routine_control, idle_entry,
  downloading_exit, handle_request_download, handle_transfer_data, handle_transfer_exit,
  handle_routine_control, ota_run, ota_handle, ota_reset, set_ota, ota_entry, ota_exit,
}
use dive_canhead.Uds.Write.{
  guards, guarded, check_precondition, write_solenoid_override, write_autotune,
  write_histogram_clear, write_force_revert, write_restore_factory, write_factory_capture,
  write_erase, write_fault_injection, write_log_erase,
}
use dive_canhead.Maintenance
use dive_canhead.Maintenance.{claim}
use dive_canhead.Uds.Log.{
  log_claims, log_handle, log_handle_routine, fl_start_routine, fl_start_streaming,
  fl_stop_streaming, is_selected,
}
use dive_canhead.Uds.Dispatch.{
  write_data, is_lapsed, is_forced, end_session, maintain_session, dispatch_transfer,
  dispatch_routine, serve, process_request,
}
use dive_canhead.Uds.Dispatch.Table.{write_case, session_case, read_case}

-- Nothing risky was done between two states.
abbrev Quiet : Head → Head → Type 0
Quiet h h' = h'.risks ≡ h.risks

both_ways : (h a b : Head) (t : Bool) → Quiet h a → Quiet h b → Quiet h (if t then a else b)
both_ways h a b true p q = p
both_ways h a b false p q = q

guards_closed :
    (a b : Bool) (d : Device) (h : Head) → is_programming h ≡ false → (guards a b d h == 0) ≡ false
guards_closed true true d h e = rw e refl
guards_closed true false d h e = refl
guards_closed false b d h e = refl

write_solenoid_override-Quiet :
    (d : Device) (request : List ℕ) (n : ℕ) (h : Head)
    → is_programming h ≡ false
    → Quiet h (write_solenoid_override d request n h)
unfolding write_solenoid_override
write_solenoid_override-Quiet d request n h e = rw e (both_ways h _ _ (not (n == 6)) refl refl)

write_autotune-Quiet :
    (d : Device) (request : List ℕ) (n : ℕ) (h : Head)
    → is_programming h ≡ false
    → Quiet h (write_autotune d request n h)
unfolding write_autotune
write_autotune-Quiet d request n h e = rw e (both_ways h _ _ (ltb n 6) refl refl)

-- The handlers behind the common guards
module _ (d : Device) (request : List ℕ) (n : ℕ) (h : Head) (e : is_programming h ≡ false) where
  force_revert-Quiet : (cfg : Config) → Quiet h (write_force_revert cfg d request n h)
  unfolding write_force_revert check_precondition guarded
  force_revert-Quiet cfg = rw (guards_closed (n == 5) (at request 4 == 1) d h e) refl

  restore_factory-Quiet : Quiet h (write_restore_factory d request n h)
  unfolding write_restore_factory check_precondition guarded
  restore_factory-Quiet = rw (guards_closed (n == 5) (at request 4 == 1) d h e) refl

  factory_capture-Quiet : Quiet h (write_factory_capture d request n h)
  unfolding write_factory_capture check_precondition guarded
  factory_capture-Quiet = rw (guards_closed (n == 5) (at request 4 == 1) d h e) refl

  erase-Quiet : (cfg : Config) (what : Risk) → Quiet h (write_erase cfg d what request n h)
  unfolding write_erase check_precondition guarded
  erase-Quiet cfg what = rw (guards_closed (n == 5) (at request 4 == 1) d h e) refl

  fault_injection-Quiet : Quiet h (write_fault_injection d request n h)
  unfolding write_fault_injection guarded
  fault_injection-Quiet =
      rw
        (guards_closed (n == 6)
          (at request 5 == 0xC5 && (at request 4 == 1 || at request 4 == 2 || at request 4 == 3)) d
          h e)
        refl

  log_erase-Quiet : Quiet h (write_log_erase d request n h)
  unfolding write_log_erase guarded
  log_erase-Quiet = rw (guards_closed (n == 6) (at request 5 == 0xA5) d h e) refl

histogram_clear-Quiet :
    (d : Device) (request : List ℕ) (h : Head) → Quiet h (write_histogram_clear d request h)
unfolding write_histogram_clear
histogram_clear-Quiet d request h = both_ways h _ _ (not ((clear d.nvs h.arena).1 == 0)) refl refl

write_data-Quiet :
    (cfg : Config) (d : Device) (request : List ℕ) (n : ℕ) (h : Head)
    → is_programming h ≡ false
    → Quiet h (write_data cfg d request n h)
write_data-Quiet cfg d request n h e =
    write_case h (Quiet h) (λ h' s r. r) cfg d request n
      (
        write_solenoid_override-Quiet d request n h e,
        write_autotune-Quiet d request n h e,
        histogram_clear-Quiet d request h,
        force_revert-Quiet d request n h e cfg,
        restore_factory-Quiet d request n h e,
        factory_capture-Quiet d request n h e,
        erase-Quiet d request n h e cfg,
        fault_injection-Quiet d request n h e,
        log_erase-Quiet d request n h e,
      )

exit-Quiet : (cfg : Config) (st : OtaState) (h : Head) → Quiet h (ota_exit cfg st h)
unfolding ota_exit downloading_exit
exit-Quiet cfg ota_idle h = refl
exit-Quiet cfg downloading h = both_ways h _ _ cfg.flash_log refl refl
exit-Quiet cfg awaiting_activate h = refl
exit-Quiet cfg activating h = refl

exit-session : (cfg : Config) (st : OtaState) (h : Head) → (ota_exit cfg st h).session ≡ h.session
unfolding ota_exit downloading_exit
exit-session cfg ota_idle h = refl
exit-session cfg downloading h = elim (Bool-cases cfg.flash_log) [
  | inl e ↦ rw e refl
  | inr e ↦ rw e refl
]
exit-session cfg awaiting_activate h = refl
exit-session cfg activating h = refl

-- A session that has lapsed, is ended by a dive, or was never opened.
abbrev pub IsClosed : Device → Head → Type 0
IsClosed d h = (is_programming h ≡ false) ⊎ (in_dive d ≡ true) ⊎ (is_lapsed d h ≡ true)

shut_by : (a b : Bool) → b ≡ true → (a && b) ≡ false → a ≡ false
shut_by true b p q = let never : true ≡ false = sym p ∙ q in cc
shut_by false b p q = refl

still_closed :
    (d : Device) (h : Head)
    → IsClosed d h
    → is_lapsed d h ≡ false
    → is_forced d h ≡ false
    → is_programming h ≡ false
still_closed d h (inl shut) e f = shut
still_closed d h (inr (inl dive)) e f = shut_by (is_programming h) (in_dive d) dive f
still_closed d h (inr (inr late)) e f = let never : true ≡ false = sym late ∙ e in cc

module _ (clock : ℕ → ℕ) (cfg : Config) where
  reset-Quiet : (h : Head) → Quiet h (ota_reset (model clock) cfg h)
  unfolding ota_reset set_ota ota_entry idle_entry
  reset-Quiet h = exit-Quiet cfg h.ota h

  reset-session : (h : Head) → (ota_reset (model clock) cfg h).session ≡ h.session
  unfolding ota_reset set_ota ota_entry idle_entry
  reset-session h = exit-session cfg h.ota h

  transfer_exit-Quiet :
      (d : Device) (n : ℕ) (h : Head) → Quiet h (handle_transfer_exit (model clock) cfg d n h)
  unfolding handle_transfer_exit set_ota ota_entry
  transfer_exit-Quiet d n h = both_ways h _ _ (ltb n 2) refl (
      both_ways h _ _ (not (d.image_flush == 0)) refl (
        both_ways h _ _ (not (d.bank_header == 0)) refl
          (exit-Quiet cfg h.ota (respond (0x77 ∷ []) h))))

  transfer_data-Quiet :
      (d : Device) (request : List ℕ) (n : ℕ) (h : Head)
      → Quiet h (handle_transfer_data d request n h)
  unfolding handle_transfer_data
  transfer_data-Quiet d request n h = both_ways h _ _ (ltb n 3) refl (
      both_ways h _ _ (not (at request 2 == h.next_seq)) refl
        (both_ways h _ _ (not (d.image_write == 0)) refl refl))

  ota_run-Quiet :
      (d : Device) (request : List ℕ) (n : ℕ) (ev : OtaEvent) (st : OtaState) (h : Head)
      → is_programming h ≡ false
      → Quiet h (ota_run (model clock) cfg d request n ev st h)
  unfolding ota_run handle_request_download handle_routine_control
  ota_run-Quiet d request n request_download ota_idle h e =
      rw e (both_ways h _ _ (ltb n 12) refl refl)
  ota_run-Quiet d request n transfer_data downloading h e = transfer_data-Quiet d request n h
  ota_run-Quiet d request n transfer_exit downloading h e = transfer_exit-Quiet d n h
  ota_run-Quiet d request n routine_control awaiting_activate h e = rw e (
      both_ways h _ _ (ltb n 5) refl (
        both_ways h _ _ (not (at request 2 == 1)) refl
          (both_ways h _ _ (not (at request 3 * 256 + at request 4 == 0xF001)) refl refl)))
  ota_run-Quiet d request n ev activating h e = refl
  ota_run-Quiet d request n ev st h e = refl

  ota_handle-Quiet :
      (d : Device) (request : List ℕ) (n : ℕ) (h : Head)
      → is_programming h ≡ false
      → Quiet h (ota_handle (model clock) cfg d request n h)
  unfolding ota_handle
  ota_handle-Quiet d request n h e = ota_run-Quiet d request n _ h.ota h e

  stop-Quiet : (next : LogState) (h : Head) → Quiet h (fl_stop_streaming next h)
  unfolding fl_stop_streaming
  stop-Quiet next h = both_ways h _ _ (is_streaming h) refl refl

  start-Quiet : (h : Head) → Quiet h (fl_start_streaming h).0
  unfolding fl_start_streaming
  start-Quiet h = elim (Bool-cases (claim Maintenance.log_stream h.arena).1) [
    | inl e ↦ rw e refl
    | inr e ↦ rw e refl
  ]

  -- The log download makes no risky call.
  log_handle-Quiet : (request : List ℕ) (n : ℕ) (h : Head) → Quiet h (log_handle request n h)
  unfolding log_handle
  log_handle-Quiet request n h =
      both_ways h _ _ (at request 1 == 0x37 && leb 2 n) (stop-Quiet ld_idle h) refl

  log_routine-Quiet :
      (d : Device) (request : List ℕ) (n : ℕ) (h : Head)
      → Quiet h (log_handle_routine d request n h)
  unfolding log_handle_routine fl_start_routine
  log_routine-Quiet d request n h =
      let rid = at request 3 * 256 + at request 4 in
      both_ways h _ _ (ltb n 5) refl (
        both_ways h _ _ (not (at request 2 == 1)) refl (
          both_ways h _ _ (rid == 0xF105)
            (both_ways h _ _ (is_selected h.log_state) (start-Quiet h) refl)
            (both_ways h _ _ (leb 0xF100 rid && leb rid 0xF106)
              (both_ways h _ _ d.log_resolves (stop-Quiet ld_idle h) (stop-Quiet ld_idle h)) refl)))

  serve-Quiet :
      (payload : ℕ → ℕ → Option (List ℕ)) (d : Device) (request : List ℕ) (n : ℕ) (h : Head)
      → is_programming h ≡ false
      → Quiet h (serve (model clock) cfg payload d request n h)
  unfolding serve dispatch_transfer dispatch_routine hand
  serve-Quiet payload d request n h e =
      let sid = at request 1 in
      let rid = at request 3 * 256 + at request 4 in
      let ota = ota_handle-Quiet d request n h e in
      both_ways h _ _ (sid == 0x10) (session_case h (Quiet h) (λ h' s r. r) d request n) (
        both_ways h _ _ (sid == 0x22) (read_case h (Quiet h) (λ h' s r. r) payload d request n) (
          both_ways h _ _ (sid == 0x2E) (write_data-Quiet cfg d request n h e) (
            both_ways h _ _ (sid == 0x34 || sid == 0x36 || sid == 0x37)
              (both_ways h _ _ (cfg.flash_log && log_claims sid request h)
                (log_handle-Quiet request n (hand (log_download request) h)) ota)
              (both_ways h _ _ (sid == 0x31)
                (both_ways h _ _ (cfg.flash_log && leb 5 n && leb 0xF100 rid && leb rid 0xF1FF)
                  (log_routine-Quiet d request n (hand (log_routine request) h)) ota)
                refl))))

  ended :
      (h : Head)
      → let h' = end_session (model clock) cfg h in (is_programming h' ≡ false) × Quiet h h'
  unfolding end_session
  ended h =
      let h₀ : Head = record h { session = default_session } in
      (rw (reset-session h₀) refl, reset-Quiet h₀)

  maintain-closed :
      (d : Device) (h : Head)
      → IsClosed d h
      → let h' = maintain_session (model clock) cfg d h in (is_programming h' ≡ false) × Quiet h h'
  unfolding maintain_session hand
  maintain-closed d h closed = elim (Bool-cases (is_lapsed d h)) [
    | inl e ↦ rw e (ended h)
    | inr e ↦ elim (Bool-cases (is_forced d h)) [
      | inl f ↦ rw (e, f) (ended (hand (abort_autotune true) h))
      | inr f ↦ rw (e, f) (still_closed d h closed e f, refl)
    ]
  ]

  process-Quiet :
      (payload : ℕ → ℕ → Option (List ℕ)) (d : Device) (request : List ℕ) (n : ℕ) (h : Head)
      → IsClosed d h
      → Quiet h (process_request (model clock) cfg payload d request n h)
  unfolding process_request
  process-Quiet payload d request n h closed =
      let (shut, same) = maintain-closed d h closed in
      both_ways h _ _ (n == 0) refl
        (serve-Quiet payload d request n (maintain_session (model clock) cfg d h) shut ∙ same)

-- A request that comes when the session is not a programming session, or has lapsed, or while the
-- head is in a dive, makes none of the calls that the code ties to such a session: slot1, the
-- flash, the stored settings and the log are not erased, no upgrade is requested, the factory image is neither
-- restored nor captured, no fault is injected, the solenoid override does not fire, no autotune is
-- started and the head is not restarted. This holds for every request, and whatever the calls out
-- of these files return. The clearing of the error histogram and the start of a calibration are
-- not among these calls: the code accepts both in any session.
pub closed_session_is_harmless :
    (k : Kernel) (cfg : Config) (payload : ℕ → ℕ → Option (List ℕ)) (d : Device) (request : List ℕ)
    (n : ℕ) (h : Head)
    → IsKernel k
    → IsClosed d h
    → (process_request k cfg payload d request n h).risks ≡ h.risks
closed_session_is_harmless k cfg payload d request n h doc closed =
    rw (Kernel-eq k doc) (process-Quiet k.uptime cfg payload d request n h closed)
