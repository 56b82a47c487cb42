-- ===== src/Uds/Ota/Trailer.antt =====
-- The validation of the image in slot1 before it is activated (`validateSlot1` of
-- Firmware/src/divecan/uds/uds_ota.c): its trailer is walked for the hash, which the flash driver compares. A
-- `size_t` has 32 bits.
pub mod Walk
pub mod Layout
mod Examples
use dive_canhead.Base.{
  ℕ, zero, suc, ◌+◌, ◌*◌, ◌/◌, ◌%◌, ◌^◌, List, [], ◌∷◌, Bool, true, false, not, ◌&&◌, Option, none,
  some, get_or, leb, ◌==◌, if◌then◌else◌,
}

-- What `external_flash_area_read` gives: the bytes, or the error with its sign changed.
pub data Read : Type 0 where
  failed : ℕ → Read
  bytes : List ℕ → Read

-- `TlvWalkResult_e`, with the next cursor, the hash, and the reported error
pub data TlvWalkResult : Type 0 where
  walk_continue : ℕ → TlvWalkResult
  walk_found : List ℕ → TlvWalkResult
  walk_error : ℕ → TlvWalkResult

-- What `extractSlot1Sha256` ends with: true with the hash and the length that it covers, or false
-- with an error that it reported or without one.
pub data Extract : Type 0 where
  found : List ℕ → ℕ → Extract
  unreadable : ℕ → Extract
  absent : Extract

abbrev pub byte : List ℕ → ℕ → ℕ
byte raw i = get_or raw i 0 % 256

abbrev pub le16 : List ℕ → ℕ → ℕ
le16 raw i = byte raw i + byte raw (i + 1) * 2 ^ 8

abbrev pub le32 : List ℕ → ℕ → ℕ
le32 raw i = le16 raw i + le16 raw (i + 2) * 2 ^ 16

module _ (read : ℕ → ℕ → Read) where
  -- `readOneTlvEntry`
  unfoldable pub read_one_tlv_entry : ℕ → TlvWalkResult
  read_one_tlv_entry cursor = elim (read cursor 4) [
    | failed rc ↦ walk_error rc
    | bytes header ↦
        if le16 header 0 == 0x10 && le16 header 2 == 32
        then (elim (read (cursor + 4) 32) [
          | failed rc ↦ walk_error rc
          | bytes hash ↦ walk_found hash
        ])
        else walk_continue ((cursor + 4 + le16 header 2) % 2 ^ 32)
  ]

  -- The loop of `walkTlvSectionForSha256`, for so many rounds, with the length that the hash covers
  unfoldable pub walk : ℕ → ℕ → ℕ → ℕ → Option Extract
  unfolding read_one_tlv_entry
  walk covers walk_end zero cursor = none
  walk covers walk_end (suc fuel) cursor =
      if leb ((cursor + 4) % 2 ^ 32) walk_end
      then (elim (read_one_tlv_entry cursor) [
        | walk_found hash ↦ some (found hash covers)
        | walk_error rc ↦ some (unreadable rc)
        | walk_continue next ↦ walk covers walk_end fuel next
      ])
      else some absent

  -- `walkTlvSectionForSha256`: an entry has at least four bytes.
  unfoldable pub walk_section : ℕ → ℕ → ℕ → Option Extract
  unfolding walk
  walk_section covers tlv_off tlv_tot =
      walk covers ((tlv_off + tlv_tot) % 2 ^ 32) (tlv_tot / 4 + 1) ((tlv_off + 4) % 2 ^ 32)

  -- `extractSlot1Sha256` behind the header of the image
  unfoldable pub extract_at : ℕ → ℕ → Option Extract
  unfolding walk_section
  extract_at covers tlv_off = elim (read tlv_off 4) [
    | failed rc ↦ some (unreadable rc)
    | bytes info ↦
        if not (le16 info 0 == 0x6907)
        then some absent
        else walk_section covers tlv_off (le16 info 2)
  ]

  -- `extractSlot1Sha256`
  unfoldable pub extract_slot1_sha256 : Option Extract
  unfolding extract_at
  extract_slot1_sha256 = elim (read 0 32) [
    | failed rc ↦ some (unreadable rc)
    | bytes raw ↦
        extract_at ((le16 raw 8 + le32 raw 12) % 2 ^ 32)
          ((le16 raw 8 + le32 raw 12 + le16 raw 10) % 2 ^ 32)
  ]
