-- ===== src/Uds/Dispatch/Lapse.antt =====
-- How a programming session ends, and what becomes of a download that is under way.
use dive_canhead.Base.{
  ℕ, ◌≡◌, ◌≢◌, refl, ◌∙◌, List, [], ◌∷◌, Bool, true, false, not, ◌||◌, Option, inl, inr, Bool-cases,
  true≢false, ap, subst,
}
use dive_canhead.Zephyr.{Kernel, IsKernel, model, Kernel-eq}
use dive_canhead.Maintenance.{owner_code}
use dive_canhead.Uds.{
  streams, OtaState, ota_idle, downloading, awaiting_activate, activating, default_session,
  abort_autotune, Config, Device, Head, is_programming, respond, hand,
}
use dive_canhead.Uds.Same.{still}
use dive_canhead.Uds.Ota.{set_ota, ota_reset, ota_entry, ota_exit, idle_entry, downloading_exit}
use dive_canhead.Uds.Ota.Invariant.{IsValid, Phase, Aside-IsValid, reset-IsValid}
use dive_canhead.Uds.Dispatch.{
  is_lapsed, is_forced, end_session, maintain_session, serve, process_request, session_control,
}

-- The download is over, its resources are back and the flash log runs.
pub record IsReleased (cfg : Config) (h : Head) : Type 0 where
  pub closed : is_programming h ≡ false
  pub idle : h.ota ≡ ota_idle
  pub writer : h.has_image ≡ false
  pub region : owner_code h.arena.owner ≢ 1
  pub push : h.push_suspended ≡ false
  pub log : not cfg.flash_log || not h.log_paused ≡ true

last_reason : (a b : Bool) → a ≡ false → a || b ≡ true → b ≡ true
last_reason true b e p = absurd (true≢false e)
last_reason false b e p = p

module _ (clock : ℕ → ℕ) (cfg : Config) where
  exit_session : (st : OtaState) (h : Head) → (ota_exit cfg st h).session ≡ h.session
  unfolding ota_exit downloading_exit
  exit_session ota_idle h = refl
  exit_session downloading h = elim (Bool-cases cfg.flash_log) [
    | inl e ↦ rw e refl
    | inr e ↦ rw e refl
  ]
  exit_session awaiting_activate h = refl
  exit_session activating h = refl

  reset_session : (h : Head) → (ota_reset (model clock) cfg h).session ≡ h.session
  unfolding ota_reset set_ota ota_entry idle_entry
  reset_session h = exit_session h.ota h

  reset_idle : (h : Head) → (ota_reset (model clock) cfg h).ota ≡ ota_idle
  unfolding ota_reset set_ota ota_entry idle_entry
  reset_idle h = refl

  exit_log :
      (st : OtaState) (h : Head)
      → st ≡ downloading
      → not cfg.flash_log || not (ota_exit cfg st h).log_paused ≡ true
  unfolding ota_exit downloading_exit
  exit_log st h o = elim (Bool-cases cfg.flash_log) [ inl e ↦ rw (o, e) refl | inr e ↦ rw e refl ]

  reset_log :
      (h : Head)
      → h.ota ≡ downloading
      → not cfg.flash_log || not (ota_reset (model clock) cfg h).log_paused ≡ true
  unfolding ota_reset set_ota ota_entry idle_entry
  reset_log h o = exit_log h.ota h o

  exit_log_state : (st : OtaState) (h : Head) → (ota_exit cfg st h).log_state ≡ h.log_state
  unfolding ota_exit downloading_exit
  exit_log_state ota_idle h = refl
  exit_log_state downloading h = elim (Bool-cases cfg.flash_log) [
    | inl e ↦ rw e refl
    | inr e ↦ rw e refl
  ]
  exit_log_state awaiting_activate h = refl
  exit_log_state activating h = refl

  reset_log_state : (h : Head) → (ota_reset (model clock) cfg h).log_state ≡ h.log_state
  unfolding ota_reset set_ota ota_entry idle_entry
  reset_log_state h = exit_log_state h.ota h

  released :
      (h : Head)
      → h.ota ≡ downloading
      → IsValid cfg h
      → IsReleased cfg (end_session (model clock) cfg h)
  unfolding end_session Phase ota_reset set_ota ota_entry idle_entry
  released h o v =
      let h₀ : Head = record h { session = default_session } in
      let (p, q, r) = (reset-IsValid clock cfg h₀ (Aside-IsValid cfg h h₀ (still h) v)).phase in
      let down = subst (λ st. Phase cfg st h) o v.phase in
      record {
        closed = rw (reset_session h₀) refl;
        idle = refl;
        writer = p;
        region = q;
        push = r.0 ∙ ap streams (reset_log_state h₀) ∙ down.2;
        log = reset_log h₀ o;
      }

  handed-IsReleased :
      (d : Device) (h : Head)
      → h.ota ≡ downloading
      → IsValid cfg h
      → IsReleased cfg (end_session (model clock) cfg (hand (abort_autotune true) h))
  unfolding hand
  handed-IsReleased d h o v =
      let h' : Head = hand (abort_autotune true) h in
      released h' o (Aside-IsValid cfg h h' (still h) v)

  touched :
      (h : Head) (t : ℕ) → IsReleased cfg h → IsReleased cfg (record h { last_activity_ms = t })
  touched h t r = record {
    closed = r.closed;
    idle = r.idle;
    writer = r.writer;
    region = r.region;
    push = r.push;
    log = r.log;
  }

  maintained :
      (d : Device) (h : Head)
      → h.ota ≡ downloading
      → IsValid cfg h
      → is_lapsed d h || is_forced d h ≡ true
      → IsReleased cfg (maintain_session (model clock) cfg d h)
  unfolding maintain_session
  maintained d h o v due =
      let h' : Head = hand (abort_autotune true) h in
      elim (Bool-cases (is_lapsed d h)) [
        | inl e ↦ rw e (touched (end_session (model clock) cfg h) d.now_ms (released h o v))
        | inr e ↦
            rw (e, last_reason (is_lapsed d h) (is_forced d h) e due)
              (touched (end_session (model clock) cfg h') d.now_ms (handed-IsReleased d h o v))
      ]

  -- A closed session never ends again, at whatever time and depth.
  kept_open :
      (d : Device) (h : Head)
      → is_programming h ≡ false
      → maintain_session (model clock) cfg d h ≡ record h { last_activity_ms = d.now_ms }
  unfolding maintain_session
  kept_open d h shut = rw shut refl

  left_download :
      (payload : ℕ → ℕ → Option (List ℕ)) (d : Device) (pad : ℕ) (h : Head)
      → is_lapsed d h ≡ false
      → is_forced d h ≡ false
      → let h' = process_request (model clock) cfg payload d (pad ∷ 0x10 ∷ 1 ∷ []) 3 h in
        (is_programming h' ≡ false)
        × (h'.ota ≡ h.ota)
        × (h'.arena ≡ h.arena)
        × (h'.log_paused ≡ h.log_paused)
  unfolding process_request serve session_control respond maintain_session
  left_download payload d pad h e f = rw (e, f) (refl, refl, refl, refl)

  after_left :
      (payload : ℕ → ℕ → Option (List ℕ)) (d late : Device) (pad : ℕ) (h : Head)
      → h.ota ≡ downloading
      → is_lapsed d h ≡ false
      → is_forced d h ≡ false
      → let h' = process_request (model clock) cfg payload d (pad ∷ 0x10 ∷ 1 ∷ []) 3 h in
        let h'' = maintain_session (model clock) cfg late h' in
        (is_programming h'' ≡ false)
        × (h''.ota ≡ downloading)
        × (h''.arena ≡ h.arena)
        × (h''.log_paused ≡ h.log_paused)
  after_left payload d late pad h o e f =
      let h' : Head = process_request (model clock) cfg payload d (pad ∷ 0x10 ∷ 1 ∷ []) 3 h in
      let (p, q, r, t) = left_download payload d pad h e f in
      rw (kept_open late h' p) (p, q ∙ o, r, t)

-- While an image is downloaded, in a state that satisfies the invariant, and the programming session
-- is open and either has lapsed or the head is in a dive, the maintenance of the session that stands
-- before every request gives everything back: afterwards the session is the default one, the machine is idle
-- and has no image writer, the scratch region is not the download's, the log push runs, and the
-- flash log, where it is built in, is not paused.
pub lapse-IsReleased :
    (k : Kernel) (cfg : Config) (d : Device) (h : Head)
    → IsKernel k
    → h.ota ≡ downloading
    → IsValid cfg h
    → is_lapsed d h || is_forced d h ≡ true
    → IsReleased cfg (maintain_session k cfg d h)
lapse-IsReleased k cfg d h doc o v due = rw (Kernel-eq k doc) (maintained k.uptime cfg d h o v due)

-- A client that returns to the default session by the request for it, while an image is
-- downloaded, the session is alive and there is no dive, leaves the download under way: whatever
-- the time and the pressure at the next maintenance of the session, the session is closed, the
-- machine still downloads, the scratch region is as it was, and the log is paused as it was.
pub default_session-strands :
    (k : Kernel) (cfg : Config) (payload : ℕ → ℕ → Option (List ℕ)) (d late : Device) (pad : ℕ)
    (h : Head)
    → IsKernel k
    → h.ota ≡ downloading
    → is_lapsed d h ≡ false
    → is_forced d h ≡ false
    → let h' = process_request k cfg payload d (pad ∷ 0x10 ∷ 1 ∷ []) 3 h in
      let h'' = maintain_session k cfg late h' in
      (is_programming h'' ≡ false)
      × (h''.ota ≡ downloading)
      × (h''.arena ≡ h.arena)
      × (h''.log_paused ≡ h.log_paused)
default_session-strands k cfg payload d late pad h doc o e f =
    rw (Kernel-eq k doc) (after_left k.uptime cfg payload d late pad h o e f)
