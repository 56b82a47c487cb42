-- ===== src/Uds/Ota/Paths.antt =====
-- The way of the requests of a firmware download through the tests of their handlers, with the check of the
-- image, where the other calls out of the code succeed.
use dive_canhead.Base.{
  ℕ, ◌≤◌, ◌≡◌, refl, sym, ◌∙◌, ap, subst, List, [], ◌∷◌, ◌++◌, Bool, true, false, not,
  if◌then◌else◌, inl, inr, Bool-cases, le→ltb, else_branch, then_branch, succeeded, some, ◌⊎◌, none,
  Option, ℕ_discrete, ◌==◌, ==_iff,
}
use dive_canhead.Zephyr.{model}
use dive_canhead.Maintenance.{claim, release, free_or_same}
use dive_canhead.Maintenance
use dive_canhead.Uds.Ota.Trailer.{Extract, found, unreadable, absent, extract_slot1_sha256}
use dive_canhead.Uds.{
  refuse, OtaState, downloading, awaiting_activate, activating, Config, Device, Head, at, respond,
  erase_slot1, request_upgrade, risk, is_programming, in_dive,
}
use dive_canhead.Uds.Ota.{
  sid_to_event, ota_handle, ota_run, handle_request_download, open_download, erase_and_init,
  handle_transfer_exit, handle_routine_control, activate, validate_slot1, compare_hash, set_ota,
  announced, give_back, pause_log,
}

-- Every call that the download makes but the check of the image returns 0, and the head is not in a dive.
pub record IsWorking (d : Device) : Type 0 where
  pub surface : in_dive d ≡ false
  pub opens : d.slot1_open ≡ 0
  pub erases : d.slot1_erase ≡ 0
  pub inits : d.image_init ≡ 0
  pub streams : d.image_write ≡ 0
  pub flushes : d.image_flush ≡ 0
  pub has_header : d.bank_header ≡ 0
  pub reopens : d.slot1_reopen ≡ 0
  pub upgrades : d.upgrade ≡ 0

-- What is read of slot1 after these bytes were streamed into it has a trailer with a hash, which
-- `flash_img_check` finds to be the hash of the image.
pub record IsGenuine (d : Device) (content : List ℕ) : Type 0 where
  pub hash : List ℕ
  pub covers : ℕ
  pub has_trailer : extract_slot1_sha256 (d.slot1_read content) ≡ some (found hash covers)
  pub matches : d.image_check content hash covers ≡ 0

by_trailer :
    (d : Device) (content : List ℕ) (r : Option Extract)
    → extract_slot1_sha256 (d.slot1_read content) ≡ r
    → IsGenuine d content ⊎ (¬ IsGenuine d content)
by_trailer d content none e = inr (λ g. let same = sym e ∙ g.has_trailer in cc)
by_trailer d content (some (unreadable rc)) e = inr (λ g. let same = sym e ∙ g.has_trailer in cc)
by_trailer d content (some absent) e = inr (λ g. let same = sym e ∙ g.has_trailer in cc)
by_trailer d content (some (found hash covers)) e =
    elim (ℕ_discrete (d.image_check content hash covers) 0) [
      | yes z ↦ inl (record { hash = hash; covers = covers; has_trailer = e; matches = z })
      | no bad ↦ inr (λ g. let same = sym e ∙ g.has_trailer in let matched = g.matches in bad cc)
    ]

-- Whether an image is genuine can be decided.
pub IsGenuine-cases :
    (d : Device) (content : List ℕ) → IsGenuine d content ⊎ (¬ IsGenuine d content)
IsGenuine-cases d content = by_trailer d content (extract_slot1_sha256 (d.slot1_read content)) refl

-- RequestDownload, with the four bytes of the size
abbrev pub open_request : ℕ → ℕ → ℕ → ℕ → List ℕ
open_request a b c e = 0 ∷ 0x34 ∷ 0 ∷ 0x44 ∷ 0 ∷ 0 ∷ 0 ∷ 0 ∷ a ∷ b ∷ c ∷ e ∷ []

abbrev pub activate_request : List ℕ
activate_request = 0 ∷ 0x31 ∷ 1 ∷ 0xF0 ∷ 0x01 ∷ []

module _ (cfg : Config) (d : Device) (h : Head) (w : IsWorking d) where
  -- What a successful attempt to open a download from `h` leaves.
  abbrev pub Ready : Head × Bool → Type 0
  Ready (h', ok) =
      (ok ≡ true)
      × (h'.ota ≡ h.ota)
      × (h'.next_seq ≡ 1)
      × (h'.streamed ≡ [])
      × (h'.session ≡ h.session)
      × (h'.risks ≡ h.risks ++ erase_slot1 ∷ [])

  erased :
      (bytes : ℕ) (h₀ : Head)
      → h₀.ota ≡ h.ota
      → h₀.session ≡ h.session
      → h₀.risks ≡ h.risks
      → Ready (erase_and_init cfg d bytes h₀)
  unfolding erase_and_init risk
  erased bytes h₀ o s r = else_branch Ready _ _ _ (succeeded d.slot1_erase w.erases) (
      else_branch Ready _ _ _ (succeeded d.image_init w.inits) (elim (Bool-cases cfg.flash_log) [
        | inl e ↦ rw e (refl, o, refl, refl, s, ap (λ l. l ++ erase_slot1 ∷ []) r)
        | inr e ↦ rw e (refl, o, refl, refl, s, ap (λ l. l ++ erase_slot1 ∷ []) r)
      ]))

  claimed : h.arena.owner ≡ Maintenance.free → (claim Maintenance.ota h.arena).1 ≡ true
  unfolding claim free_or_same
  claimed f = rw f refl

  pub ready :
      (bytes : ℕ)
      → h.arena.owner ≡ Maintenance.free
      → bytes ≤ d.slot1_size
      → Ready (open_download cfg d bytes h)
  unfolding open_download
  ready bytes f fits = else_branch Ready _ _ _ (succeeded d.slot1_open w.opens) (
      else_branch Ready _ _ _ (le→ltb d.slot1_size bytes fits)
        (then_branch Ready _ _ _ (claimed f) (erased bytes _ refl refl refl)))

-- The way of each request through its tests, for any property of the state
module _ (clock : ℕ → ℕ) (cfg : Config) (d : Device) (w : IsWorking d) (h : Head)
    (P : Head → Type 0) where
  pub run_at :
      (request : List ℕ) (n : ℕ) (st : OtaState)
      → h.ota ≡ st
      → P (ota_run (model clock) cfg d request n (sid_to_event (at request 1)) st h)
      → P (ota_handle (model clock) cfg d request n h)
  unfolding ota_handle
  run_at request n st o p =
      subst (λ st. P (ota_run (model clock) cfg d request n (sid_to_event (at request 1)) st h))
        (sym o) p

  pub open_path :
      (a b c e : ℕ)
      → is_programming h ≡ true
      → (let r = open_download cfg d (announced (open_request a b c e)) h in
          P (
            if r.1
            then set_ota (model clock) cfg downloading (respond (0x74 ∷ 0x20 ∷ 1 ∷ 0 ∷ []) r.0)
            else give_back r.0))
      → P (handle_request_download (model clock) cfg d (open_request a b c e) 12 h)
  unfolding handle_request_download
  open_path a b c e on p = else_branch P _ _ _ (ap not on) (else_branch P _ _ _ w.surface p)

  pub exit_path :
      P (set_ota (model clock) cfg awaiting_activate (respond (0x77 ∷ []) h))
      → P (handle_transfer_exit (model clock) cfg d 2 h)
  unfolding handle_transfer_exit
  exit_path p =
      else_branch P _ _ _ (succeeded d.image_flush w.flushes)
        (else_branch P _ _ _ (succeeded d.bank_header w.has_header) p)

  -- A genuine image is validated without an error.
  validates : IsGenuine d h.streamed → validate_slot1 d h ≡ (0, h)
  unfolding validate_slot1 compare_hash
  validates g = rw (w.reopens, g.has_trailer, g.matches) refl

  -- What an image that is not genuine leaves of the state, and no success
  abbrev pub Rejects : ℕ × Head → Type 0
  Rejects (rc, h') =
      ((rc == 0) ≡ false) × (h'.ota ≡ h.ota) × (h'.streamed ≡ h.streamed) × (h'.risks ≡ h.risks)

  compared :
      (r : Option Extract)
      → extract_slot1_sha256 (d.slot1_read h.streamed) ≡ r
      → ¬ IsGenuine d h.streamed
      → Rejects (compare_hash d r h)
  unfolding compare_hash
  compared none e fake = (refl, refl, refl, refl)
  compared (some (unreadable rc)) e fake = (refl, refl, refl, refl)
  compared (some absent) e fake = (refl, refl, refl, refl)
  compared (some (found hash covers)) e fake =
      elim (Bool-cases (d.image_check h.streamed hash covers == 0)) [
        | inl z ↦ absurd (
            fake (record {
              hash = hash;
              covers = covers;
              has_trailer = e;
              matches = (==_iff (d.image_check h.streamed hash covers) 0).0 z;
            }))
        | inr bad ↦ (bad, refl, refl, refl)
      ]

  pub rejected : ¬ IsGenuine d h.streamed → Rejects (validate_slot1 d h)
  unfolding validate_slot1
  rejected fake = rw w.reopens (compared (extract_slot1_sha256 (d.slot1_read h.streamed)) refl fake)

  pub refuse_path :
      is_programming h ≡ true
      → ((validate_slot1 d h).0 == 0) ≡ false
      → P (refuse 0x31 0x22 (validate_slot1 d h).1)
      → P (handle_routine_control (model clock) cfg d activate_request 5 h)
  unfolding handle_routine_control activate
  refuse_path on bad p =
      else_branch P _ _ _ (ap not on)
        (else_branch P _ _ _ w.surface (then_branch P _ _ _ (ap not bad) p))

  pub activate_path :
      is_programming h ≡ true
      → IsGenuine d h.streamed
      → P (
          set_ota
            (model clock)
            cfg
            activating
            (respond (0x71 ∷ 1 ∷ 0xF0 ∷ 0x01 ∷ []) (pause_log cfg false (risk request_upgrade h))))
      → P (handle_routine_control (model clock) cfg d activate_request 5 h)
  unfolding handle_routine_control activate
  activate_path on g p = else_branch P _ _ _ (ap not on) (
      else_branch P _ _ _ w.surface
        (rw (validates g) (else_branch P _ _ _ (succeeded d.upgrade w.upgrades) p)))
