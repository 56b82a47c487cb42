-- ===== src/Uds/Ota/Trailer/Layout.antt =====
-- The layout that the signing tool writes, and that the hash in it is found.
use dive_canhead.Base.{
  ℕ, zero, suc, ◌+◌, ◌*◌, ◌/◌, ◌%◌, ◌^◌, ◌≤◌, ◌<◌, ◌≡◌, refl, sym, ◌∙◌, ap, List, [], ◌∷◌, ◌++◌,
  append_assoc, true, false, ◌&&◌, some, leb, ◌==◌, arith, le→leb, length, length-append,
}
use dive_canhead.Uds.Ota.Trailer.{
  Read, bytes, found, le16, le32, read_one_tlv_entry, walk, walk_section, walk_continue, walk_found,
  extract_at, extract_slot1_sha256,
}

abbrev pub put16 : ℕ → List ℕ
put16 n = n % 256 ∷ n / 256 % 256 ∷ []

abbrev pub put32 : ℕ → List ℕ
put32 n = n % 256 ∷ n / 256 % 256 ∷ n / 2 ^ 16 % 256 ∷ n / 2 ^ 24 % 256 ∷ []

-- An entry of the trailer: its type and its payload
pub record Entry : Type 0 where
  pub type : ℕ
  pub payload : List ℕ

-- Not a hash entry, and small enough for its fields
pub record IsOther (e : Entry) : Type 0 where
  pub type_fits : e.type < 2 ^ 16
  pub length_fits : length e.payload < 2 ^ 16
  pub not_hash : (e.type == 0x10 && length e.payload == 32) ≡ false

unfoldable pub AllOther : List Entry → Type 0
AllOther [] = Unit
AllOther (e ∷ es) = IsOther e × AllOther es

abbrev pub entry_bytes : Entry → List ℕ
entry_bytes e = put16 e.type ++ put16 (length e.payload) ++ e.payload

unfoldable pub entries_bytes : List Entry → List ℕ
entries_bytes [] = []
entries_bytes (e ∷ es) = entry_bytes e ++ entries_bytes es

-- A read inside the area succeeds, with the bytes that are there.
abbrev pub ReadsFrom : (ℕ → ℕ → Read) → List ℕ → Type 0
ReadsFrom read content =
    (pre part post : List ℕ)
    → content ≡ pre ++ (part ++ post)
    → read (length pre) (length part) ≡ bytes part

abbrev pub hash_entry : List ℕ → Entry
hash_entry hash = record { type = 0x10; payload = hash }

read_back16 : (n : ℕ) → n < 2 ^ 16 → n % 256 % 256 + n / 256 % 256 % 256 * 2 ^ 8 ≡ n
read_back16 n small = omega (arith, small)

module _ (read : ℕ → ℕ → Read) (content : List ℕ) (reads : ReadsFrom read content)
    (small : length content < 2 ^ 31) where
  other_continues :
      (pre post : List ℕ) (e : Entry)
      → IsOther e
      → content ≡ pre ++ (entry_bytes e ++ post)
      → read_one_tlv_entry read (length pre) ≡ walk_continue (length (pre ++ entry_bytes e))
  unfolding read_one_tlv_entry
  other_continues pre post e ok there =
      let header = put16 e.type ++ put16 (length e.payload) in
      let r : read (length pre) 4 ≡ bytes header = reads pre header (e.payload ++ post) there in
      let type_back : le16 header 0 ≡ e.type = read_back16 e.type ok.type_fits in
      let length_back : le16 header 2 ≡ length e.payload =
        read_back16 (length e.payload) ok.length_fits in
      let whole = ap length there ∙ length-append pre (entry_bytes e ++ post) in
      let rest = length-append (entry_bytes e) post in
      let own = length-append pre (entry_bytes e) in
      let next : (length pre + 4 + length e.payload) % 2 ^ 32 ≡ length (pre ++ entry_bytes e) =
        omega (arith, whole, rest, own, small) in
      rw (r, read_one_tlv_entry, type_back, length_back, ok.not_hash, next) refl

  hash_found :
      (pre post hash : List ℕ)
      → length hash ≡ 32
      → content ≡ pre ++ (entry_bytes (hash_entry hash) ++ post)
      → read_one_tlv_entry read (length pre) ≡ walk_found hash
  unfolding read_one_tlv_entry
  hash_found pre post hash size there =
      let header = put16 0x10 ++ put16 (length hash) in
      let r : read (length pre) 4 ≡ bytes header = reads pre header (hash ++ post) there in
      let length_back : le16 header 2 ≡ length hash =
        read_back16 (length hash) (omega (arith, size)) in
      let second =
        reads (pre ++ header) hash post (there ∙ sym (append_assoc pre header (hash ++ post))) in
      let off : length (pre ++ header) ≡ length pre + 4 = length-append pre header in
      let sum : read (length (pre ++ header)) 32 ≡ bytes hash =
        ap (read (length (pre ++ header))) (sym size) ∙ second in
      rw (r, read_one_tlv_entry, length_back, size, sym off, sum) refl

  walk_finds :
      (es : List Entry) (pre post hash : List ℕ) (covers walk_end fuel : ℕ)
      → AllOther es
      → length hash ≡ 32
      → content ≡ pre ++ (entries_bytes es ++ (entry_bytes (hash_entry hash) ++ post))
      → length pre + length (entries_bytes es) + 36 ≤ walk_end
      → 1 + length es ≤ fuel
      → walk read covers walk_end fuel (length pre) ≡ some (found hash covers)
  unfolding walk entries_bytes AllOther
  walk_finds es pre post hash covers walk_end zero others size there room fuel =
      absurd (omega (arith, fuel))
  walk_finds [] pre post hash covers walk_end (suc n) others size there room fuel =
      let more : leb ((length pre + 4) % 2 ^ 32) walk_end ≡ true = le→leb (omega (arith, room)) in
      rw (walk, more, hash_found pre post hash size there) refl
  walk_finds (e ∷ es) pre post hash covers walk_end (suc n) (other, others) size there room fuel =
      let rest = entries_bytes es ++ (entry_bytes (hash_entry hash) ++ post) in
      let here : content ≡ pre ++ (entry_bytes e ++ rest) =
        there
        ∙ ap (λ l. pre ++ l)
            (append_assoc (entry_bytes e) (entries_bytes es)
              (entry_bytes (hash_entry hash) ++ post)) in
      let more : leb ((length pre + 4) % 2 ^ 32) walk_end ≡ true = le→leb (omega (arith, room)) in
      let own = length-append pre (entry_bytes e) in
      let both = length-append (entry_bytes e) (entries_bytes es) in
      rw (walk, more, other_continues pre rest e other here)
        (walk_finds es (pre ++ entry_bytes e) post hash covers walk_end n others size
          (here ∙ sym (append_assoc pre (entry_bytes e) rest)) (omega (arith, room, own, both))
          (omega (arith, fuel)))

  count_entries : (es : List Entry) → 4 * length es ≤ length (entries_bytes es)
  unfolding entries_bytes
  count_entries [] = omega arith
  count_entries (e ∷ es) =
      omega (arith, count_entries es, length-append (entry_bytes e) (entries_bytes es))

  section_found :
      (es : List Entry) (lead post hash : List ℕ) (covers tlv_tot : ℕ)
      → AllOther es
      → length hash ≡ 32
      → tlv_tot < 2 ^ 16
      → length (entries_bytes es) + 40 ≤ tlv_tot
      → content
        ≡ lead
          ++ ((put16 0x6907 ++ put16 tlv_tot)
              ++ (entries_bytes es ++ (entry_bytes (hash_entry hash) ++ post)))
      → extract_at read covers (length lead) ≡ some (found hash covers)
  unfolding extract_at walk_section
  section_found es lead post hash covers tlv_tot others size short room there =
      let info = put16 0x6907 ++ put16 tlv_tot in
      let rest = entries_bytes es ++ (entry_bytes (hash_entry hash) ++ post) in
      let r : read (length lead) 4 ≡ bytes info = reads lead info rest there in
      let total : le16 info 2 ≡ tlv_tot = read_back16 tlv_tot short in
      let whole = ap length there ∙ length-append lead (info ++ rest) in
      let own : length (lead ++ info) ≡ length lead + 4 = length-append lead info in
      let start : (length lead + 4) % 2 ^ 32 ≡ length (lead ++ info) =
        omega (arith, whole, own, small) in
      let stop : (length lead + tlv_tot) % 2 ^ 32 ≡ length lead + tlv_tot =
        omega (arith, whole, short, small) in
      rw (r, extract_at, total, walk_section, start, stop)
        (walk_finds es (lead ++ info) post hash covers (length lead + tlv_tot) (tlv_tot / 4 + 1)
          others size (there ∙ sym (append_assoc lead info rest)) (omega (arith, room, own))
          (omega (arith, room, count_entries es)))

-- Header and body, the mark of the trailer with its length, other entries, the hash, what follows
abbrev pub signed_image : List ℕ → List ℕ → ℕ → List Entry → List ℕ → List ℕ → List ℕ
signed_image raw body tlv_tot es hash post =
    (raw ++ body)
    ++ ((put16 0x6907 ++ put16 tlv_tot)
        ++ (entries_bytes es ++ (entry_bytes (hash_entry hash) ++ post)))

-- An image that is laid out as the signing tool writes it has its hash found, with the length of
-- header and body: a header of 32 bytes, the body and the protected entries up to the offset
-- that the header announces, the mark of the trailer with its length, any entries that are not a
-- SHA-256 entry of 32 bytes, and the hash entry within the announced length. What follows it does not
-- matter. The reads of the flash give what is there, and the image is shorter than 2^31 bytes.
pub extract_slot1_sha256-found :
    (read : ℕ → ℕ → Read) (raw body : List ℕ) (es : List Entry) (hash post : List ℕ) (tlv_tot : ℕ)
    → ReadsFrom read (signed_image raw body tlv_tot es hash post)
    → length (signed_image raw body tlv_tot es hash post) < 2 ^ 31
    → length raw ≡ 32
    → length (raw ++ body) ≡ le16 raw 8 + le32 raw 12 + le16 raw 10
    → AllOther es
    → length hash ≡ 32
    → tlv_tot < 2 ^ 16
    → length (entries_bytes es) + 40 ≤ tlv_tot
    → extract_slot1_sha256 read ≡ some (found hash (le16 raw 8 + le32 raw 12))
unfolding extract_slot1_sha256
extract_slot1_sha256-found read raw body es hash post tlv_tot reads small wide offset others size
      short room =
    let trailer =
      (put16 0x6907 ++ put16 tlv_tot)
      ++ (entries_bytes es ++ (entry_bytes (hash_entry hash) ++ post)) in
    let first : read 0 32 ≡ bytes raw =
      ap (read 0) (sym wide) ∙ reads [] raw (body ++ trailer) (append_assoc raw body trailer) in
    let whole = length-append (raw ++ body) trailer in
    let at : (le16 raw 8 + le32 raw 12 + le16 raw 10) % 2 ^ 32 ≡ length (raw ++ body) =
      omega (arith, whole, small, offset) in
    let covers : (le16 raw 8 + le32 raw 12) % 2 ^ 32 ≡ le16 raw 8 + le32 raw 12 =
      omega (arith, whole, small, offset) in
    rw (first, extract_slot1_sha256, at, covers)
      (section_found read (signed_image raw body tlv_tot es hash post) reads small es (raw ++ body)
        post hash (le16 raw 8 + le32 raw 12) tlv_tot others size short room refl)
