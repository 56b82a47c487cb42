-- ===== src/Uds/Ota/Trailer/Examples.antt =====
-- The search for the hash at a small image.
use dive_canhead.Base.{
  ℕ, ◌+◌, ◌≡◌, refl, ◌∙◌, ap, List, [], ◌∷◌, ◌++◌, true, false, some, leb, if◌then◌else◌, arith,
  length, length-append, take, drop, take-append, drop-append, replicate, lt→leb, le→leb,
}
use dive_canhead.Uds.Ota.Trailer.{Read, failed, bytes, found, extract_slot1_sha256}
use dive_canhead.Uds.Ota.Trailer.Walk.{StaysInside, Ends, extract_slot1_sha256-Ends}
use dive_canhead.Uds.Ota.Trailer.Layout.{
  Entry, AllOther, entries_bytes, ReadsFrom, signed_image, extract_slot1_sha256-found,
}

-- A flash area that holds these bytes; EINVAL beyond its end.
abbrev area : List ℕ → ℕ → ℕ → Read
area content off len =
    if leb (off + len) (length content) then bytes (take len (drop off content)) else failed 22

area-ReadsFrom : (content : List ℕ) → ReadsFrom (area content) content
area-ReadsFrom content pre part post e =
    let fits : leb (length pre + length part) (length content) ≡ true =
      le→leb
        (omega (arith, ap length e, length-append pre (part ++ post), length-append part post)) in
    let there : drop (length pre) content ≡ part ++ post =
      ap (drop (length pre)) e ∙ drop-append pre (part ++ post) in
    rw (fits, there, take-append part post) refl

area-StaysInside : (content : List ℕ) → StaysInside (area content) (length content)
area-StaysInside content off len beyond = (
  22,
  (let e : leb (off + len) (length content) ≡ false = lt→leb (off + len) (length content) beyond in
      rw e refl),
)

-- A header of 32 bytes that announces itself and a body of four bytes
abbrev header : List ℕ
header = 0x3D ∷ 0xB8 ∷ 0xF3 ∷ 0x96 ∷ 0 ∷ 0 ∷ 0 ∷ 0 ∷ 32 ∷ 0 ∷ 0 ∷ 0 ∷ 4 ∷ 0 ∷ 0 ∷ 0 ∷ replicate 16 0

abbrev hash : List ℕ
hash = replicate 32 7

abbrev key_entry : Entry
key_entry = record { type = 0x20; payload = 1 ∷ 2 ∷ [] }

abbrev image : List ℕ
image = signed_image header (1 ∷ 2 ∷ 3 ∷ 4 ∷ []) 46 (key_entry ∷ []) hash (0xFF ∷ [])

key_entry_other : AllOther (key_entry ∷ [])
unfolding AllOther
key_entry_other =
    (record { type_fits = omega arith; length_fits = omega arith; not_hash = refl }, tt)

extract_slot1_sha256-found_example : extract_slot1_sha256 (area image) ≡ some (found hash 36)
unfolding entries_bytes
extract_slot1_sha256-found_example =
    extract_slot1_sha256-found (area image) header (1 ∷ 2 ∷ 3 ∷ 4 ∷ []) (key_entry ∷ []) hash
      (0xFF ∷ []) 46 (area-ReadsFrom image) (omega arith) refl refl key_entry_other refl
      (omega arith) (omega arith)

-- A trailer that announces more than there is
extract_slot1_sha256-Ends_example : Ends (extract_slot1_sha256 (area (take 60 image)))
unfolding entries_bytes
extract_slot1_sha256-Ends_example =
    extract_slot1_sha256-Ends (area (take 60 image)) (length (take 60 image))
      (area-StaysInside (take 60 image)) (omega arith)
