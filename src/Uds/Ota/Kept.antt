-- ===== src/Uds/Ota/Kept.antt =====
-- Every handler of the download machine keeps its invariant.
use dive_canhead.Base.{
  ℕ, ◌+◌, ◌*◌, ◌-◌, ◌%◌, ◌^◌, ◌≤◌, ◌≡◌, ◌≢◌, ◌⊎◌, refl, ◌∙◌, subst, List, [], ◌∷◌, ◌++◌, Bool, true,
  false, not, ◌||◌, ltb, ◌==◌, inl, inr, Bool-cases, if◌then◌else◌, arith, length, take, drop,
  length-append, length-take, length-drop, either, some, none,
}
use dive_canhead.Zephyr.{model}
use dive_canhead.Maintenance.{owner_code, claim, release}
use dive_canhead.Maintenance
use dive_canhead.Maintenance.Claims.{claim-cases}
use dive_canhead.Uds.Ota.Trailer.{found, unreadable, absent, extract_slot1_sha256}
use dive_canhead.Uds.{
  report, request_upgrade, OtaState, ota_idle, downloading, awaiting_activate, activating, Config,
  Device, Head, at, is_programming, in_dive, refuse, respond, risk, refuse_flash,
}
use dive_canhead.Uds.Same.{same, Aside, still}
use dive_canhead.Uds.Ota.Invariant.{
  IsValid, Phase, Shares, released, ota-Alone, claim-Shares, release-Shares, IsValid-along,
  Aside-IsValid,
}
use dive_canhead.Uds.Ota.{
  OtaEvent, no_event, request_download, transfer_data, transfer_exit, routine_control,
  downloading_entry, downloading_exit, ota_entry, ota_exit, announced, erase_and_init,
  open_download, give_back, set_ota, handle_request_download, handle_transfer_data,
  handle_transfer_exit, activate, validate_slot1, compare_hash, pause_log, handle_routine_control,
  ota_run,
}

-- What an attempt to open a download leaves: the region and the writer, or neither of them.
abbrev Opened : Head × Bool → Type 0
Opened (h, ok) =
    (h.ota ≡ ota_idle)
    × Shares h
    × (((h.has_image ≡ true)
          × (h.arena.owner ≡ Maintenance.ota)
          × (ok ≡ true → h.bytes_received ≡ length h.streamed % 2 ^ 32))
        ⊎ ((h.has_image ≡ false) × (owner_code h.arena.owner ≢ 1) × (ok ≡ false)))

erase-Opened :
    (cfg : Config) (d : Device) (bytes : ℕ) (h : Head)
    → h.ota ≡ ota_idle
    → Shares h
    → h.has_image ≡ true
    → h.arena.owner ≡ Maintenance.ota
    → Opened (erase_and_init cfg d bytes h)
unfolding erase_and_init refuse_flash
erase-Opened cfg d bytes h o s i a = elim (Bool-cases cfg.flash_log) [
  | inl e ↦ rw e (
      either Opened (not (d.slot1_erase == 0)) _ _ (o, s, inl (i, a, λ never. cc))
        (either Opened (not (d.image_init == 0)) _ _ (o, s, inl (i, a, λ never. cc))
          (o, s, inl (i, a, λ t. refl))))
  | inr e ↦ rw e (
      either Opened (not (d.slot1_erase == 0)) _ _ (o, s, inl (i, a, λ never. cc))
        (either Opened (not (d.image_init == 0)) _ _ (o, s, inl (i, a, λ never. cc))
          (o, s, inl (i, a, λ t. refl))))
]

open-Opened :
    (cfg : Config) (d : Device) (bytes : ℕ) (h : Head)
    → h.ota ≡ ota_idle
    → Phase cfg ota_idle h
    → Opened (open_download cfg d bytes h)
unfolding open_download Phase refuse refuse_flash
open-Opened cfg d bytes h o (p, q, r) =
    either Opened (not (d.slot1_open == 0)) _ _ (o, r, inr (p, q, refl))
      (either Opened (ltb d.slot1_size bytes) _ _ (o, r, inr (p, q, refl))
        (elim (claim-cases Maintenance.ota h.arena) [
          | inl (e, own) ↦
              rw e (erase-Opened cfg d bytes _ o (claim-Shares Maintenance.ota h r) refl own)
          | inr (e, kept) ↦ rw (e, kept) (o, r, inr (refl, q, refl))
        ]))

give_back_phase : (cfg : Config) (h : Head) → Opened (h, false) → IsValid cfg (give_back h)
unfolding give_back Phase
give_back_phase cfg h (o, s, inl (i, a, w)) =
    rw i (record {
      phase = rw o (refl, released h a, release-Shares Maintenance.ota h (omega arith) s);
    })
give_back_phase cfg h (o, s, inr (i, a, w)) = rw i (record { phase = rw o (refl, a, s) })

module _ (clock : ℕ → ℕ) (cfg : Config) (d : Device) (request : List ℕ) (n : ℕ) (h : Head) where
  started-IsValid :
      (r : Head × Bool)
      → Opened r
      → IsValid cfg (
          if r.1
          then set_ota (model clock) cfg downloading (respond (0x74 ∷ 0x20 ∷ 1 ∷ 0 ∷ []) r.0)
          else give_back r.0)
  unfolding set_ota respond ota_entry ota_exit downloading_entry Phase
  started-IsValid (h', false) o = give_back_phase cfg h' o
  started-IsValid (h', true) (o, s, inr (i, a, w)) = let never : true ≡ false = w in cc
  started-IsValid (h', true) (o, s, inl (i, a, w)) = rw o (elim (Bool-cases cfg.flash_log) [
    | inl e ↦ rw e (record { phase = ((i, a, w refl), refl, (ota-Alone h' s a).1) })
    | inr e ↦ rw e (record { phase = ((i, a, w refl), refl, (ota-Alone h' s a).1) })
  ])

  plain : (sid nrc : ℕ) → IsValid cfg h → IsValid cfg (refuse sid nrc h)
  unfolding refuse
  plain sid nrc v = IsValid-along cfg h (refuse sid nrc h) (same h) v

  plain_flash : (sid rc : ℕ) → IsValid cfg h → IsValid cfg (refuse_flash sid 0x72 rc h)
  unfolding refuse_flash
  plain_flash sid rc v = IsValid-along cfg h (refuse_flash sid 0x72 rc h) (same h) v

  request_download-IsValid :
      h.ota ≡ ota_idle
      → Phase cfg ota_idle h
      → IsValid cfg h
      → IsValid cfg (handle_request_download (model clock) cfg d request n h)
  unfolding handle_request_download refuse Phase
  request_download-IsValid o (p, q, r) v = either (IsValid cfg) (ltb n 12) _ _ (plain 0x34 0x13 v) (
      either (IsValid cfg) (not (is_programming h)) _ _ (plain 0x34 0x7F v) (
        either (IsValid cfg) (in_dive d) _ _ (plain 0x34 0x22 v) (
          either (IsValid cfg) (not (at request 2 == 0) || not (at request 3 == 0x44)) _ _
            (give_back_phase cfg (refuse 0x34 0x31 h) (o, r, inr (p, q, refl)))
            (started-IsValid (open_download cfg d (announced request) h)
              (open-Opened cfg d (announced request) h o (p, q, r))))))

  -- The bytes that one request brings, of those that are there.
  counted :
      (ys : List ℕ)
      → n ≤ length request
      → 3 ≤ n
      → h.bytes_received ≡ length ys % 2 ^ 32
      → (h.bytes_received + (n - 3)) % 2 ^ 32
        ≡ length (ys ++ take (n - 3) (drop 3 request)) % 2 ^ 32
  counted ys fits long e = rw e (
      omega (
        arith,
        fits,
        long,
        length-append ys (take (n - 3) (drop 3 request)),
        length-take (n - 3) (drop 3 request),
        length-drop 3 request,
      ))

  transfer_data-IsValid :
      n ≤ length request
      → h.ota ≡ downloading
      → Phase cfg downloading h
      → IsValid cfg h
      → IsValid cfg (handle_transfer_data d request n h)
  unfolding handle_transfer_data respond Phase
  transfer_data-IsValid fits o (p, q, r) v = elim (Bool-cases (ltb n 3)) [
    | inl e ↦ rw e (plain 0x36 0x13 v)
    | inr e ↦ rw e (
        either (IsValid cfg) (not (at request 2 == h.next_seq)) _ _ (plain 0x36 0x73 v) (
          either (IsValid cfg) (not (d.image_write == 0)) _ _ (plain_flash 0x36 d.image_write v)
            (record {
              phase = rw o ((p.0, p.1, counted h.streamed fits (ground arith) p.2), q, r);
            })))
  ]

  transfer_exit-IsValid :
      h.ota ≡ downloading
      → Phase cfg downloading h
      → IsValid cfg h
      → IsValid cfg (handle_transfer_exit (model clock) cfg d n h)
  unfolding handle_transfer_exit set_ota respond ota_entry ota_exit downloading_exit Phase
  transfer_exit-IsValid o (p, q, r) v = either (IsValid cfg) (ltb n 2) _ _ (plain 0x37 0x13 v) (
      either (IsValid cfg) (not (d.image_flush == 0)) _ _ (plain_flash 0x37 d.image_flush v) (
        either (IsValid cfg) (not (d.bank_header == 0)) _ _ (plain_flash 0x37 d.bank_header v) (
          rw o (elim (Bool-cases cfg.flash_log) [
            | inl e ↦ rw e (record { phase = (p, (refl, r)) })
            | inr e ↦ rw e (record { phase = (p, (refl, r)) })
          ]))))

  -- The validation of slot1 changes nothing but the errors.
  validated :
      (P : ℕ × Head → Type 0)
      → ((rc : ℕ) (h' : Head) → Aside h h' → P (rc, h'))
      → P (validate_slot1 d h)
  unfolding validate_slot1 compare_hash report
  validated P aside = elim (Bool-cases (d.slot1_reopen == 0)) [
    | inr e ↦ rw e (aside _ _ (still h))
    | inl e ↦
        rw e
          (elim (extract_slot1_sha256 (d.slot1_read h.streamed)) as (λ r. P (compare_hash d r h)) [
            | none ↦ aside _ _ (still h)
            | some r ↦ elim r as (λ r. P (compare_hash d (some r) h)) [
              | found hash covers ↦ aside _ _ (still h)
              | unreadable rc ↦ aside _ _ (still h)
              | absent ↦ aside _ _ (still h)
            ]
          ])
  ]

  -- What `activate` does once slot1 was validated
  abbrev activated : ℕ × Head → Head
  activated (rc, h') =
      if not (rc == 0)
      then refuse 0x31 0x22 h'
      else (let h'' = pause_log cfg false (risk request_upgrade h') in
          if not (d.upgrade == 0)
          then refuse_flash 0x31 0x72 d.upgrade h''
          else set_ota (model clock) cfg activating
              (respond (0x71 ∷ at request 2 ∷ at request 3 ∷ at request 4 ∷ []) h''))

  activated-IsValid :
      (rc : ℕ) (h' : Head)
      → h'.ota ≡ awaiting_activate
      → Phase cfg awaiting_activate h'
      → IsValid cfg h'
      → IsValid cfg (activated (rc, h'))
  unfolding set_ota respond refuse_flash refuse risk ota_entry ota_exit Phase
  activated-IsValid rc h' o (p, q) v =
      either (IsValid cfg) (not (rc == 0)) _ _
        (Aside-IsValid cfg h' (refuse 0x31 0x22 h') (still h') v)
        (elim (Bool-cases cfg.flash_log) [
          | inl e ↦
              rw (e, o)
                (either (IsValid (record cfg { flash_log = true })) (not (d.upgrade == 0)) _ _
                  (record { phase = (p, q) }) (record { phase = (p, q) }))
          | inr e ↦
              rw (e, o)
                (either (IsValid (record cfg { flash_log = false })) (not (d.upgrade == 0)) _ _
                  (record { phase = (p, q) }) (record { phase = (p, q) }))
        ])

  carried_over :
      h.ota ≡ awaiting_activate
      → IsValid cfg h
      → (rc : ℕ) (h' : Head) → Aside h h'
      → IsValid cfg (activated (rc, h'))
  carried_over o v rc h' a =
      let o' : h'.ota ≡ awaiting_activate = a.1.0 ∙ o in
      let v' : IsValid cfg h' = Aside-IsValid cfg h h' a v in
      activated-IsValid rc h' o' (subst (λ st. Phase cfg st h') o' v'.phase) v'

  routine_control-IsValid :
      h.ota ≡ awaiting_activate
      → IsValid cfg h
      → IsValid cfg (handle_routine_control (model clock) cfg d request n h)
  unfolding handle_routine_control activate
  routine_control-IsValid o v = either (IsValid cfg) (ltb n 5) _ _ (plain 0x31 0x13 v) (
      either (IsValid cfg) (not (at request 2 == 1)) _ _ (plain 0x31 0x12 v) (
        either (IsValid cfg) (not (at request 3 * 256 + at request 4 == 0xF001)) _ _
          (plain 0x31 0x31 v)
          (either (IsValid cfg) (not (is_programming h)) _ _ (plain 0x31 0x7F v) (
            either (IsValid cfg) (in_dive d) _ _ (plain 0x31 0x22 v)
              (validated (λ r. IsValid cfg (activated r)) (carried_over o v))))))

  -- The run action of each state keeps the invariant, for a message in a buffer that holds it.
  pub run-IsValid :
      (ev : OtaEvent) (st : OtaState)
      → n ≤ length request
      → h.ota ≡ st
      → IsValid cfg h
      → IsValid cfg (ota_run (model clock) cfg d request n ev st h)
  unfolding ota_run
  run-IsValid request_download ota_idle fits o v =
      request_download-IsValid o (subst (λ st. Phase cfg st h) o v.phase) v
  run-IsValid transfer_data downloading fits o v =
      transfer_data-IsValid fits o (subst (λ st. Phase cfg st h) o v.phase) v
  run-IsValid transfer_exit downloading fits o v =
      transfer_exit-IsValid o (subst (λ st. Phase cfg st h) o v.phase) v
  run-IsValid routine_control awaiting_activate fits o v = routine_control-IsValid o v
  run-IsValid ev activating fits o v = v
  run-IsValid no_event st fits o v = plain (at request 1) 0x11 v
  run-IsValid ev st fits o v = plain (at request 1) 0x24 v
