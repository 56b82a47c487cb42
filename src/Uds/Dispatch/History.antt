-- ===== src/Uds/Dispatch/History.antt =====
-- Histories of requests and of what other parts of the program do to the scratch region.
use dive_canhead.Base.{
  ℕ, ◌+◌, ◌*◌, ◌≤◌, refl, List, [], ◌∷◌, true, ◌&&◌, ◌||◌, Option, leb, ◌==◌, inl, if◌then◌else◌,
  either, length, Bool,
}
use dive_canhead.Zephyr.{Kernel, IsKernel, model, Kernel-eq}
use dive_canhead.Maintenance.{
  Owner, is_owner, free, ota, factory, log_index, log_stream, flash, autotune, owner_code, claim,
  release, resume, set_index_building,
}
use dive_canhead.Maintenance
use dive_canhead.Maintenance.Ownership.{
  Call, claims, releases, builds, errors, saves, clears, after, observe-SameArena,
  save_work-SameArena, clear-SameArena,
}
use dive_canhead.Uds.{
  ld_idle, is_streaming, log_download, log_routine, Config, Device, Head, default_session,
  abort_autotune, at, report, hand, refuse,
}
use dive_canhead.Uds.Same.{Aside, still}
use dive_canhead.Uds.Ota.{sid_to_event, ota_handle}
use dive_canhead.Uds.Ota.Invariant.{IsValid, Aside-IsValid, IsValid-along, reset-IsValid}
use dive_canhead.Uds.Log.{log_claims, log_poll}
use dive_canhead.Uds.Write.{restore_work_handler}
use dive_canhead.Uds.Ota.Kept.{run-IsValid}
use dive_canhead.Uds.Dispatch.Streaming.{stop-IsValid, log_handle-IsValid, log_routine-IsValid}
use dive_canhead.Uds.Dispatch.Others.{
  IsOther, Respects, claim-Respects, release-Respects, calls_phase, restore-IsValid,
}
use dive_canhead.Uds.Dispatch.{
  serve, process_request, maintain_session, end_session, is_lapsed, is_forced, dispatch_transfer,
  dispatch_routine,
}
use dive_canhead.Uds.Dispatch.Table.{session_case, read_case}
use dive_canhead.Uds.Dispatch.Writes.{write_data-IsValid}

module _ (clock : ℕ → ℕ) (cfg : Config) where
  handle-IsValid :
      (d : Device) (request : List ℕ) (n : ℕ) (h : Head)
      → n ≤ length request
      → IsValid cfg h
      → IsValid cfg (ota_handle (model clock) cfg d request n h)
  unfolding ota_handle
  handle-IsValid d request n h fits v =
      run-IsValid clock cfg d request n h (sid_to_event (at request 1)) h.ota fits refl v

  handed-IsValid : (h h' : Head) → Aside h h' → IsValid cfg h → IsValid cfg h'
  handed-IsValid h h' a v = Aside-IsValid cfg h h' a v

  serve-IsValid :
      (payload : ℕ → ℕ → Option (List ℕ)) (d : Device) (request : List ℕ) (n : ℕ) (h : Head)
      → n ≤ length request
      → IsValid cfg h
      → IsValid cfg (serve (model clock) cfg payload d request n h)
  unfolding serve dispatch_transfer dispatch_routine hand refuse
  serve-IsValid payload d request n h fits v =
      let sid = at request 1 in
      let rid = at request 3 * 256 + at request 4 in
      let P : Head → Type 0 = IsValid cfg in
      let plain : (h' : Head) → Aside h h' → IsValid cfg h' = λ h' a. Aside-IsValid cfg h h' a v in
      let ota = handle-IsValid d request n h fits v in
      either (IsValid cfg) (sid == 0x10) _ _
        (session_case h (IsValid cfg) (λ h' s r. IsValid-along cfg h h' s v) d request n)
        (either (IsValid cfg) (sid == 0x22) _ _
          (read_case h (IsValid cfg) (λ h' s r. IsValid-along cfg h h' s v) payload d request n)
          (either (IsValid cfg) (sid == 0x2E) _ _ (write_data-IsValid cfg d request n h v) (
            either (IsValid cfg) (sid == 0x34 || sid == 0x36 || sid == 0x37) _ _
              (either (IsValid cfg) (cfg.flash_log && log_claims sid request h) _ _
                (log_handle-IsValid cfg request n _
                  (plain (hand (log_download request) h) (still h)))
                ota)
              (either (IsValid cfg) (sid == 0x31) _ _
                (either (IsValid cfg) (cfg.flash_log && leb 5 n && leb 0xF100 rid && leb rid 0xF1FF)
                  _ _
                  (log_routine-IsValid cfg d request n _
                    (plain (hand (log_routine request) h) (still h)))
                  ota)
                (plain _ (still h))))))

  ended-IsValid : (h : Head) → IsValid cfg h → IsValid cfg (end_session (model clock) cfg h)
  unfolding end_session
  ended-IsValid h v =
      reset-IsValid clock cfg (record h { session = default_session })
        (Aside-IsValid cfg h (record h { session = default_session }) (still h) v)

  maintain-IsValid :
      (d : Device) (h : Head) → IsValid cfg h → IsValid cfg (maintain_session (model clock) cfg d h)
  unfolding maintain_session hand
  maintain-IsValid d h v =
      let h' : Head =
        if is_lapsed d h
        then end_session (model clock) cfg h
        else if is_forced d h
        then end_session (model clock) cfg (hand (abort_autotune true) h)
        else h in
      let v' : IsValid cfg h' = either (IsValid cfg) (is_lapsed d h) _ _ (ended-IsValid h v) (
        either (IsValid cfg) (is_forced d h) _ _
          (ended-IsValid (hand (abort_autotune true) h)
            (Aside-IsValid cfg h (hand (abort_autotune true) h) (still h) v))
          v) in
      Aside-IsValid cfg h' (record h' { last_activity_ms = d.now_ms }) (still h') v'

  process-IsValid :
      (payload : ℕ → ℕ → Option (List ℕ)) (d : Device) (request : List ℕ) (n : ℕ) (h : Head)
      → n ≤ length request
      → IsValid cfg h
      → IsValid cfg (process_request (model clock) cfg payload d request n h)
  unfolding process_request report
  process-IsValid payload d request n h fits v =
      either (IsValid cfg) (n == 0) _ _ (Aside-IsValid cfg h (report 28 0 h) (still h) v)
        (serve-IsValid payload d request n _ fits (maintain-IsValid d h v))

-- A request in a buffer of so many bytes, a round of the poll of the log download, a failed restore
-- of the factory image, or a call of the arena by another part of the program.
pub data Event : Type 0 where
  asks : Device → List ℕ → ℕ → Event
  polls : Bool → Event
  restores : Device → Event
  calls : Call → Event

-- The message is inside its buffer; the other parts act in their own names.
unfoldable pub IsAllowed : Event → Type 0
IsAllowed (asks d request n) = n ≤ length request
IsAllowed (polls stale) = Unit
IsAllowed (restores d) = Unit
IsAllowed (calls (claims o)) = IsOther o
IsAllowed (calls (releases o)) = IsOther o
IsAllowed (calls c) = Unit

unfoldable pub AllAllowed : List Event → Type 0
AllAllowed [] = Unit
AllAllowed (e ∷ es) = IsAllowed e × AllAllowed es

unfoldable pub react : Kernel → Config → (ℕ → ℕ → Option (List ℕ)) → Head → Event → Head
unfolding process_request log_poll restore_work_handler
react k cfg payload h (asks d request n) = process_request k cfg payload d request n h
react k cfg payload h (polls stale) = log_poll stale h
react k cfg payload h (restores d) = restore_work_handler cfg d h
react k cfg payload h (calls c) = record h { arena = after h.arena c }

unfoldable pub react_all : Kernel → Config → (ℕ → ℕ → Option (List ℕ)) → Head → List Event → Head
react_all k cfg payload h [] = h
react_all k cfg payload h (e ∷ es) = react_all k cfg payload (react k cfg payload h e) es

after-Respects :
    (s : Maintenance.Maintenance) (c : Call)
    → IsAllowed (calls c)
    → Respects s.owner (after s c).owner
unfolding after IsAllowed set_index_building
after-Respects s (claims o) a = claim-Respects o s a
after-Respects s (releases o) a = release-Respects o s a
after-Respects s (builds b) a = inl refl
after-Respects s (errors code) a = inl (observe-SameArena code s).0
after-Respects s (saves out) a = inl (save_work-SameArena out s).0
after-Respects s (clears out) a = inl (clear-SameArena out s).0

react-IsValid :
    (clock : ℕ → ℕ) (cfg : Config) (payload : ℕ → ℕ → Option (List ℕ)) (h : Head) (e : Event)
    → IsAllowed e
    → IsValid cfg h
    → IsValid cfg (react (model clock) cfg payload h e)
unfolding react IsAllowed log_poll
react-IsValid clock cfg payload h (asks d request n) a v =
    process-IsValid clock cfg payload d request n h a v
react-IsValid clock cfg payload h (polls stale) a v =
    either (IsValid cfg) (is_streaming h && stale) _ _ (stop-IsValid cfg ld_idle h refl v) v
react-IsValid clock cfg payload h (restores d) a v = restore-IsValid cfg d h v
react-IsValid clock cfg payload h (calls c) a v =
    calls_phase cfg h (after h.arena c) (after-Respects h.arena c a) v

history-IsValid :
    (clock : ℕ → ℕ) (cfg : Config) (payload : ℕ → ℕ → Option (List ℕ)) (h : Head) (es : List Event)
    → AllAllowed es
    → IsValid cfg h
    → IsValid cfg (react_all (model clock) cfg payload h es)
unfolding react_all AllAllowed
history-IsValid clock cfg payload h [] a v = v
history-IsValid clock cfg payload h (e ∷ es) (a, more) v =
    history-IsValid clock cfg payload (react (model clock) cfg payload h e) es more
      (react-IsValid clock cfg payload h e a v)

-- From a state that satisfies the invariant, such as the one at reset, it holds after every
-- sequence of requests, each no longer than its buffer, of rounds of the poll of the log download,
-- of failed restores of the factory image, and of calls that other parts of the program make to the scratch
-- region and the histogram in the name of neither download. Idle, the firmware download has no
-- image writer and does not own the region; the log push is suspended just while a log is streamed, and the
-- region is then the log download's. In any other state the firmware download has a writer and owns
-- the region, no log is streamed, and its count of bytes is the number streamed to slot1 modulo
-- 2^32; the log push is suspended while it downloads, and runs when it waits or activates.
pub download_history-IsValid :
    (k : Kernel) (cfg : Config) (payload : ℕ → ℕ → Option (List ℕ)) (h : Head) (es : List Event)
    → IsKernel k
    → AllAllowed es
    → IsValid cfg h
    → IsValid cfg (react_all k cfg payload h es)
download_history-IsValid k cfg payload h es doc a v =
    rw (Kernel-eq k doc) (history-IsValid k.uptime cfg payload h es a v)
