-- ===== src/Uds/Ota/Invariant.antt =====
-- What the download machine keeps: outside its idle state it owns the scratch region.
use dive_canhead.Base.{
  ℕ, ◌%◌, ◌^◌, ◌≡◌, ◌≢◌, refl, sym, ◌∙◌, ap, subst, true, false, inl, inr, Bool-cases, arith,
  length,
}
use dive_canhead.Zephyr.{model}
use dive_canhead.Maintenance.{owner_code, claim, release}
use dive_canhead.Maintenance
use dive_canhead.Maintenance.Claims.{release-free, release-other}
use dive_canhead.Maintenance.Ownership.{claim-Undisturbed}
use dive_canhead.Uds.{
  is_streaming, OtaState, ota_idle, downloading, awaiting_activate, activating, Config, Head,
}
use dive_canhead.Uds.Same.{SameState, Aside}
use dive_canhead.Uds.Ota.{idle_entry, downloading_exit, ota_entry, ota_exit, set_ota, ota_reset}

-- The image writer is set up in the region, which the download owns, and has got all the bytes.
abbrev pub Holds : Head → Type 0
Holds h =
    (h.has_image ≡ true)
    × (h.arena.owner ≡ Maintenance.ota)
    × (h.bytes_received ≡ length h.streamed % 2 ^ 32)

-- The log download: while it streams, the log push is suspended and the region is its own.
abbrev pub Shares : Head → Type 0
Shares h =
    (h.push_suspended ≡ is_streaming h)
    × (is_streaming h ≡ true → h.arena.owner ≡ Maintenance.log_stream)

-- No log is downloaded, and the log push runs.
abbrev pub Alone : Head → Type 0
Alone h = (h.push_suspended ≡ false) × (is_streaming h ≡ false)

unfoldable pub Phase : Config → OtaState → Head → Type 0
Phase cfg ota_idle h = (h.has_image ≡ false) × (owner_code h.arena.owner ≢ 1) × Shares h
Phase cfg downloading h = Holds h × (h.push_suspended ≡ true) × (is_streaming h ≡ false)
Phase cfg awaiting_activate h = Holds h × Alone h
Phase cfg activating h = Holds h × Alone h

pub record IsValid (cfg : Config) (h : Head) : Type 0 where
  pub phase : Phase cfg h.ota h

pub released :
    (h : Head)
    → h.arena.owner ≡ Maintenance.ota
    → owner_code (release Maintenance.ota h.arena).owner ≢ 1
released h e =
    subst (λ o. owner_code o ≢ 1) (sym (release-free Maintenance.ota h.arena e)) (omega arith)

pub kept_free :
    (h : Head)
    → owner_code h.arena.owner ≢ 1
    → owner_code (release Maintenance.ota h.arena).owner ≢ 1
kept_free h ne = rw (release-other Maintenance.ota h.arena ne) ne

pub Alone-Shares : (h : Head) → Alone h → Shares h
Alone-Shares h (push, stream) =
    (push ∙ sym stream, λ on. let never : true ≡ false = sym on ∙ stream in cc)

-- While another owns the region, no log is downloaded.
pub owned-Alone : (h : Head) → Shares h → owner_code h.arena.owner ≢ 4 → Alone h
owned-Alone h (push, stream) other = elim (Bool-cases (is_streaming h)) [
  | inl on ↦ absurd (other (ap owner_code (stream on)))
  | inr off ↦ (push ∙ off, off)
]

pub ota-Alone : (h : Head) → Shares h → h.arena.owner ≡ Maintenance.ota → Alone h
ota-Alone h s own = owned-Alone h s (rw own (omega arith))

-- A claim that the log download refuses, or that is granted while it does not stream.
pub claim-Shares :
    (o : Maintenance.Owner) (h : Head)
    → Shares h
    → Shares (record h { arena = (claim o h.arena).0 })
claim-Shares o h (push, stream) = (
  push,
  λ on.
      let own = stream on in
      (claim-Undisturbed o h.arena (rw own (omega arith, omega arith))).0 ∙ own,
)

pub release-Shares :
    (o : Maintenance.Owner) (h : Head)
    → owner_code o ≢ 4
    → Shares h
    → Shares (record h { arena = release o h.arena })
release-Shares o h ne (push, stream) = (
  push,
  λ on.
      let own = stream on in
      let kept = release-other o h.arena (λ e. ne (sym e ∙ ap owner_code own)) in
      ap (λ (m : Maintenance.Maintenance). m.owner) kept ∙ own,
)

module _ (clock : ℕ → ℕ) (cfg : Config) where
  reset-Phase :
      (st : OtaState) (h : Head)
      → Phase cfg st h
      → Phase cfg ota_idle (idle_entry (ota_exit cfg st h))
  unfolding Phase idle_entry ota_exit downloading_exit
  reset-Phase ota_idle h (p, q, r) =
      (refl, kept_free h q, release-Shares Maintenance.ota h (omega arith) r)
  reset-Phase downloading h ((p, q, r), s, t) = elim (Bool-cases cfg.flash_log) [
    | inl e ↦ rw e (refl, released h q, (sym t, λ on. let never : true ≡ false = sym on ∙ t in cc))
    | inr e ↦ rw e (refl, released h q, (sym t, λ on. let never : true ≡ false = sym on ∙ t in cc))
  ]
  reset-Phase awaiting_activate h ((p, q, r), s) =
      (refl, released h q, release-Shares Maintenance.ota h (omega arith) (Alone-Shares h s))
  reset-Phase activating h ((p, q, r), s) =
      (refl, released h q, release-Shares Maintenance.ota h (omega arith) (Alone-Shares h s))

  -- Whatever the state, a reset leaves the machine idle and the region to others.
  pub reset-IsValid : (h : Head) → IsValid cfg h → IsValid cfg (ota_reset (model clock) cfg h)
  unfolding ota_reset set_ota ota_entry idle_entry Phase
  reset-IsValid h v = record { phase = reset-Phase h.ota h v.phase }

Holds-along : (h h' : Head) → Aside h h' → Holds h → Holds h'
Holds-along h h' (a, (o, i, s, b, w, g)) (p, q, r) =
    (i ∙ p, a ∙ q, b ∙ r ∙ ap (λ ys. length ys % 2 ^ 32) (sym w))

Shares-along : (h h' : Head) → Aside h h' → Shares h → Shares h'
Shares-along h h' (a, (o, i, s, b, w, g)) (push, stream) =
    (s ∙ push ∙ sym g, λ on. a ∙ stream (sym g ∙ on))

Alone-along : (h h' : Head) → Aside h h' → Alone h → Alone h'
Alone-along h h' (a, (o, i, s, b, w, g)) (push, stream) = (s ∙ push, g ∙ stream)

Phase-along :
    (cfg : Config) (st : OtaState) (h h' : Head) → Aside h h' → Phase cfg st h → Phase cfg st h'
unfolding Phase
Phase-along cfg ota_idle h h' (a, (o, i, s, b, w, g)) (p, q, r) =
    let aside : Aside h h' = (a, (o, i, s, b, w, g)) in
    (i ∙ p, subst (λ m. owner_code m ≢ 1) (sym a) q, Shares-along h h' aside r)
Phase-along cfg downloading h h' (a, (o, i, s, b, w, g)) (p, q, r) =
    (Holds-along h h' (a, (o, i, s, b, w, g)) p, s ∙ q, g ∙ r)
Phase-along cfg awaiting_activate h h' aside (p, q) =
    (Holds-along h h' aside p, Alone-along h h' aside q)
Phase-along cfg activating h h' aside (p, q) = (Holds-along h h' aside p, Alone-along h h' aside q)

-- A state with the same machine, owner and log is as good.
pub Aside-IsValid : (cfg : Config) (h h' : Head) → Aside h h' → IsValid cfg h → IsValid cfg h'
Aside-IsValid cfg h h' (a, m) v = record {
  phase = subst (λ st. Phase cfg st h') (sym m.0) (Phase-along cfg h.ota h h' (a, m) v.phase);
}

pub IsValid-along : (cfg : Config) (h h' : Head) → SameState h h' → IsValid cfg h → IsValid cfg h'
IsValid-along cfg h h' (a, l, m) v = Aside-IsValid cfg h h' (ap (λ s. s.owner) a, m) v
