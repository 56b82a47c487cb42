-- ===== src/Uds/Ota/Trailer/Walk.antt =====
-- The walk over the trailer ends, whatever is in the flash.
use dive_canhead.Base.{
  ℕ, zero, suc, ◌+◌, ◌*◌, ◌/◌, ◌%◌, ◌^◌, ◌≤◌, ◌<◌, ◌≡◌, refl, sym, ◌∙◌, List, not, ◌&&◌, ◌⊎◌, inl,
  inr, Bool-cases, Option, some, leb, ◌==◌, arith, either,
}
use dive_canhead.Uds.Ota.Trailer.{
  Read, failed, bytes, Extract, found, unreadable, absent, le16, read_one_tlv_entry, walk,
  walk_section, extract_at, extract_slot1_sha256,
}

-- It ends with a result.
abbrev pub Ends : Option Extract → Type 0
Ends o = (x : Extract) × (o ≡ some x)

-- A read that leaves the area fails.
abbrev pub StaysInside : (ℕ → ℕ → Read) → ℕ → Type 0
StaysInside read size = (off len : ℕ) → size < off + len → (rc : ℕ) × (read off len ≡ failed rc)

Read-cases : (r : Read) → ((rc : ℕ) × (r ≡ failed rc)) ⊎ ((raw : List ℕ) × (r ≡ bytes raw))
Read-cases (failed rc) = inl (rc, refl)
Read-cases (bytes raw) = inr (raw, refl)

module _ (read : ℕ → ℕ → Read) (size : ℕ) (inside : StaysInside read size)
    (small : size + 2 ^ 17 ≤ 2 ^ 32) where
  -- A read that succeeds lies in the area.
  read_fits : (off len : ℕ) (raw : List ℕ) → read off len ≡ bytes raw → off + len ≤ size
  read_fits off len raw e = elim (Bool-cases (leb (off + len) size)) [
    | inl f ↦ ground arith
    | inr f ↦
        (let (rc, g) = inside off len (ground arith) in
          let clash : failed rc ≡ bytes raw = sym g ∙ e in cc)
  ]

  walk-Ends :
      (covers walk_end fuel cursor : ℕ)
      → 1 ≤ fuel
      → walk_end < cursor + 4 * fuel
      → Ends (walk read covers walk_end fuel cursor)
  unfolding walk read_one_tlv_entry
  walk-Ends covers walk_end zero cursor lo enough = absurd (omega (arith, lo))
  walk-Ends covers walk_end (suc fuel) cursor lo enough =
      elim (Bool-cases (leb ((cursor + 4) % 2 ^ 32) walk_end)) [
        | inr out ↦ rw out (absent, refl)
        | inl more ↦ rw more (elim (Read-cases (read cursor 4)) [
          | inl (rc, e) ↦ rw e (unreadable rc, refl)
          | inr (raw, e) ↦ rw e (elim (Bool-cases (le16 raw 0 == 0x10 && le16 raw 2 == 32)) [
            | inl hash ↦ rw hash (elim (Read-cases (read (cursor + 4) 32)) [
              | inl (rc, f) ↦ rw f (unreadable rc, refl)
              | inr (sum, f) ↦ rw f (found sum covers, refl)
            ])
            | inr other ↦
                let fits = read_fits cursor 4 raw e in
                let len : le16 raw 2 < 2 ^ 16 = omega arith in
                let ahead : (cursor + 4) % 2 ^ 32 ≤ walk_end = ground arith in
                rw other (
                  walk-Ends covers walk_end fuel ((cursor + 4 + le16 raw 2) % 2 ^ 32)
                    (omega (arith, ahead, enough, fits, small))
                    (omega (arith, ahead, enough, fits, small, len)))
          ])
        ])
      ]

  section-Ends :
      (covers tlv_off tlv_tot : ℕ)
      → tlv_off + 4 ≤ size
      → tlv_tot < 2 ^ 16
      → Ends (walk_section read covers tlv_off tlv_tot)
  unfolding walk_section
  section-Ends covers tlv_off tlv_tot fits short =
      walk-Ends covers ((tlv_off + tlv_tot) % 2 ^ 32) (tlv_tot / 4 + 1) ((tlv_off + 4) % 2 ^ 32)
        (omega arith) (omega (arith, fits, short, small))

  extract_at-Ends : (covers tlv_off : ℕ) → Ends (extract_at read covers tlv_off)
  unfolding extract_at
  extract_at-Ends covers tlv_off = elim (Read-cases (read tlv_off 4)) [
    | inl (rc, e) ↦ rw (e, extract_at) (unreadable rc, refl)
    | inr (info, e) ↦
        rw (e, extract_at)
          (either Ends (not (le16 info 0 == 0x6907)) _ _ (absent, refl)
            (section-Ends covers tlv_off (le16 info 2) (read_fits tlv_off 4 info e) (omega arith)))
  ]

-- Whatever the flash holds, damaged headers and lengths included, the search for the hash in slot1
-- ends with a result within a quarter of the announced trailer and one round, if a read beyond the
-- end of the area fails and the area ends at least 2^17 bytes below the end of the 32-bit
-- addresses: no cursor wraps around, and none is visited twice.
pub extract_slot1_sha256-Ends :
    (read : ℕ → ℕ → Read) (size : ℕ)
    → StaysInside read size
    → size + 2 ^ 17 ≤ 2 ^ 32
    → Ends (extract_slot1_sha256 read)
unfolding extract_slot1_sha256
extract_slot1_sha256-Ends read size inside small = elim (Read-cases (read 0 32)) [
  | inl (rc, e) ↦ rw (e, extract_slot1_sha256) (unreadable rc, refl)
  | inr (raw, e) ↦ rw (e, extract_slot1_sha256) (extract_at-Ends read size inside small _ _)
]
