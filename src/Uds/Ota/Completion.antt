-- ===== src/Uds/Ota/Completion.antt =====
-- A firmware download from its request to the restart, or to the refusal of its image, where every other
-- call out of the code succeeds.
use dive_canhead.Base.{
  ℕ, ◌≤◌, ◌≡◌, refl, sym, ◌∙◌, ap, subst, List, [], ◌∷◌, ◌++◌, append_assoc, Bool, true, false,
  if◌then◌else◌, inl, inr, Bool-cases, true≢false, ◌⊎◌,
}
use dive_canhead.Zephyr.{Kernel, IsKernel, model, Kernel-eq}
use dive_canhead.Maintenance.{claim, release, free_or_same}
use dive_canhead.Maintenance
use dive_canhead.Uds.{
  refuse, OtaState, ota_idle, downloading, awaiting_activate, activating, Config, Device, Head,
  respond, erase_slot1, request_upgrade, reboot, risk, is_programming,
}
use dive_canhead.Uds.Ota.{
  sid_to_event, ota_handle, ota_run, set_ota, ota_entry, ota_exit, downloading_entry,
  downloading_exit, announced, give_back,
}
use dive_canhead.Uds.Ota.Paths.{
  IsWorking, IsGenuine, IsGenuine-cases, Ready, ready, run_at, open_path, exit_path, activate_path,
  rejected, refuse_path, open_request, activate_request,
}
use dive_canhead.Uds.Ota.Stream.{transfer_blocks, flatten, blocks_taken}

-- The four steps of a client
unfoldable pub download : Kernel → Config → Device → List ℕ → List (List ℕ) → Head → Head
unfolding ota_handle transfer_blocks
download k cfg d request blocks h₀ =
    let h₁ = ota_handle k cfg d request 12 h₀ in
    let h₂ = transfer_blocks k cfg d 1 blocks h₁ in
    let h₃ = ota_handle k cfg d (0 ∷ 0x37 ∷ []) 2 h₂ in ota_handle k cfg d activate_request 5 h₃

-- What the steps keep for the next one
record Stage (st : OtaState) (h₀ : Head) (bytes : List ℕ) (h : Head) : Type 0 where
  state : h.ota ≡ st
  content : h.streamed ≡ bytes
  session : h.session ≡ h₀.session
  risks : h.risks ≡ h₀.risks ++ erase_slot1 ∷ []

record Open (h₀ h : Head) : Type 0 where
  stage : Stage downloading h₀ [] h
  first : h.next_seq ≡ 1

record Done (h₀ : Head) (bytes : List ℕ) (h : Head) : Type 0 where
  state : h.ota ≡ activating
  content : h.streamed ≡ bytes
  risks : h.risks ≡ h₀.risks ++ erase_slot1 ∷ request_upgrade ∷ reboot ∷ []

-- The image that is not genuine is not activated.
record Kept (h₀ : Head) (bytes : List ℕ) (h : Head) : Type 0 where
  state : h.ota ≡ awaiting_activate
  content : h.streamed ≡ bytes
  risks : h.risks ≡ h₀.risks ++ erase_slot1 ∷ []

on_same :
    (h₀ h : Head) → h.session ≡ h₀.session → is_programming h₀ ≡ true → is_programming h ≡ true
on_same h₀ h e p = rw e p

module _ (clock : ℕ → ℕ) (cfg : Config) (d : Device) (w : IsWorking d) where
  started :
      (r : Head × Bool) (h : Head)
      → Ready cfg d h w r
      → h.ota ≡ ota_idle
      → Open h (
          if r.1
          then set_ota (model clock) cfg downloading (respond (0x74 ∷ 0x20 ∷ 1 ∷ 0 ∷ []) r.0)
          else give_back r.0)
  unfolding set_ota ota_entry ota_exit downloading_entry respond
  started (h', false) h (ok, o, q, e, s, r) i = absurd (true≢false (sym ok))
  started (h', true) h (ok, o, q, e, s, r) i = elim (Bool-cases cfg.flash_log) [
    | inl l ↦
        rw (o, i, l)
          (record {
            stage = record { state = refl; content = e; session = s; risks = r };
            first = q;
          })
    | inr l ↦
        rw (o, i, l)
          (record {
            stage = record { state = refl; content = e; session = s; risks = r };
            first = q;
          })
  ]

  opened :
      (a b c e : ℕ) (h : Head)
      → h.ota ≡ ota_idle
      → is_programming h ≡ true
      → h.arena.owner ≡ Maintenance.free
      → announced (open_request a b c e) ≤ d.slot1_size
      → Open h (ota_handle (model clock) cfg d (open_request a b c e) 12 h)
  unfolding ota_run sid_to_event
  opened a b c e h o p f fits =
      run_at clock cfg d w h (Open h) (open_request a b c e) 12 ota_idle o (
        open_path clock cfg d w h (Open h) a b c e p
          (started _ h (ready cfg d h w (announced (open_request a b c e)) f fits) o))

  finished :
      (h₀ h : Head) (bytes : List ℕ)
      → Stage downloading h₀ bytes h
      → Stage awaiting_activate h₀ bytes (ota_handle (model clock) cfg d (0 ∷ 0x37 ∷ []) 2 h)
  unfolding ota_run sid_to_event set_ota ota_entry ota_exit downloading_exit respond
  finished h₀ h bytes t =
      let o = t.state in
      run_at clock cfg d w h (Stage awaiting_activate h₀ bytes) (0 ∷ 0x37 ∷ []) 2 downloading o (
        exit_path clock cfg d w h (Stage awaiting_activate h₀ bytes)
          (elim (Bool-cases cfg.flash_log) [
            | inl l ↦
                rw (o, l)
                  (record {
                    state = refl;
                    content = t.content;
                    session = t.session;
                    risks = t.risks;
                  })
            | inr l ↦
                rw (o, l)
                  (record {
                    state = refl;
                    content = t.content;
                    session = t.session;
                    risks = t.risks;
                  })
          ]))

  activated :
      (h₀ h : Head) (bytes : List ℕ)
      → Stage awaiting_activate h₀ bytes h
      → is_programming h₀ ≡ true
      → IsGenuine d bytes
      → Done h₀ bytes (ota_handle (model clock) cfg d activate_request 5 h)
  unfolding ota_run sid_to_event set_ota ota_entry ota_exit respond risk
  activated h₀ h bytes t p g =
      let o = t.state in
      let risky =
        ap (λ l. l ++ request_upgrade ∷ [] ++ reboot ∷ []) t.risks
        ∙ ap (λ l. l ++ reboot ∷ [])
            (append_assoc h₀.risks (erase_slot1 ∷ []) (request_upgrade ∷ []))
        ∙ append_assoc h₀.risks (erase_slot1 ∷ request_upgrade ∷ []) (reboot ∷ []) in
      run_at clock cfg d w h (Done h₀ bytes) activate_request 5 awaiting_activate o (
        activate_path clock cfg d w h (Done h₀ bytes) (on_same h₀ h t.session p)
          (subst (IsGenuine d) (sym t.content) g)
          (elim (Bool-cases cfg.flash_log) [
            | inl l ↦ rw (o, l) (record { state = refl; content = t.content; risks = risky })
            | inr l ↦ rw (o, l) (record { state = refl; content = t.content; risks = risky })
          ]))

  refused :
      (h₀ h : Head) (bytes : List ℕ)
      → Stage awaiting_activate h₀ bytes h
      → is_programming h₀ ≡ true
      → ¬ IsGenuine d bytes
      → Kept h₀ bytes (ota_handle (model clock) cfg d activate_request 5 h)
  unfolding ota_run sid_to_event refuse
  refused h₀ h bytes t p fake =
      let o = t.state in
      let (bad, state, content, risks) =
        rejected clock cfg d w h (Kept h₀ bytes)
          (subst (λ c. ¬ IsGenuine d c) (sym t.content) fake) in
      run_at clock cfg d w h (Kept h₀ bytes) activate_request 5 awaiting_activate o (
        refuse_path clock cfg d w h (Kept h₀ bytes) (on_same h₀ h t.session p) bad
          (record { state = state ∙ o; content = content ∙ t.content; risks = risks ∙ t.risks }))

  streamed-Stage :
      (h₀ h : Head) (blocks : List (List ℕ))
      → Open h₀ h
      → Stage downloading h₀ (flatten blocks) (transfer_blocks (model clock) cfg d 1 blocks h)
  streamed-Stage h₀ h blocks begun =
      let t = begun.stage in
      let (p, q, o, s, r) = blocks_taken clock cfg d 1 blocks h w.streams t.state begun.first in
      record {
        state = o;
        content = p ∙ ap (λ l. l ++ flatten blocks) t.content;
        session = s ∙ t.session;
        risks = r ∙ t.risks;
      }

  completes :
      (a b c e : ℕ) (blocks : List (List ℕ)) (h : Head)
      → h.ota ≡ ota_idle
      → is_programming h ≡ true
      → h.arena.owner ≡ Maintenance.free
      → announced (open_request a b c e) ≤ d.slot1_size
      → IsGenuine d (flatten blocks)
      → Done h (flatten blocks) (download (model clock) cfg d (open_request a b c e) blocks h)
  unfolding download
  completes a b c e blocks h o p f fits g =
      activated h _ (flatten blocks)
        (finished h _ (flatten blocks) (streamed-Stage h _ blocks (opened a b c e h o p f fits))) p
        g

  declines :
      (a b c e : ℕ) (blocks : List (List ℕ)) (h : Head)
      → h.ota ≡ ota_idle
      → is_programming h ≡ true
      → h.arena.owner ≡ Maintenance.free
      → announced (open_request a b c e) ≤ d.slot1_size
      → ¬ IsGenuine d (flatten blocks)
      → Kept h (flatten blocks) (download (model clock) cfg d (open_request a b c e) blocks h)
  unfolding download
  declines a b c e blocks h o p f fits fake =
      refused h _ (flatten blocks)
        (finished h _ (flatten blocks) (streamed-Stage h _ blocks (opened a b c e h o p f fits))) p
        fake

-- The two ends of a download from one state: the image in slot1 is genuine and the head restarts into
-- it, or it is not, and neither an upgrade nor a restart is asked for.
abbrev pub Decided : Device → List ℕ → Head → Head → Type 0
Decided d content h h' =
    IsGenuine d content
      × (h'.ota ≡ activating)
      × (h'.risks ≡ h.risks ++ erase_slot1 ∷ request_upgrade ∷ reboot ∷ [])
    ⊎ (¬ IsGenuine d content)
      × (h'.ota ≡ awaiting_activate)
      × (h'.risks ≡ h.risks ++ erase_slot1 ∷ [])

-- An idle head in a programming session at the surface, with the scratch region free, that is asked to
-- take an image whose announced size fits into slot1, is sent its blocks in order, then the
-- end of the transfer and the activation: slot1 got exactly the blocks in their order, and one of
-- two things happened. Either what is then read of slot1 has a trailer with a hash that the
-- check of the flash driver confirms: the machine is activating, and what was done is the erasure of
-- slot1, the request for the upgrade and the restart, in this order and nothing else. Or it has
-- not: the machine still waits for the activation, and only slot1 was erased. All other calls out
-- of the code succeed. The total length of the blocks need not be the announced size.
pub download_completes :
    (k : Kernel) (cfg : Config) (d : Device) (a b c e : ℕ) (blocks : List (List ℕ)) (h : Head)
    → IsKernel k
    → IsWorking d
    → h.ota ≡ ota_idle
    → is_programming h ≡ true
    → h.arena.owner ≡ Maintenance.free
    → announced (open_request a b c e) ≤ d.slot1_size
    → let h' = download k cfg d (open_request a b c e) blocks h in
      (h'.streamed ≡ flatten blocks) × Decided d (flatten blocks) h h'
download_completes k cfg d a b c e blocks h doc w o p f fits =
    rw (Kernel-eq k doc) (elim (IsGenuine-cases d (flatten blocks)) [
      | inl g ↦
          let done = completes k.uptime cfg d w a b c e blocks h o p f fits g in
          (done.content, inl (g, done.state, done.risks))
      | inr fake ↦
          let kept = declines k.uptime cfg d w a b c e blocks h o p f fits fake in
          (kept.content, inr (fake, kept.state, kept.risks))
    ])
