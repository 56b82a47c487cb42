-- ===== src/Isotp/TxQueue/Wire.antt =====
-- The bytes of the frames that the transmit queue builds, as a receiver reads them.
use dive_canhead.Base.{
  ℕ, zero, suc, ◌+◌, ◌*◌, ◌/◌, ◌%◌, ◌≤◌, ◌<◌, ◌≡◌, refl, ap, Bool, true, ◌∷◌, length, take, drop,
  take-take, length-take, length-drop, length-blit, bit_or, ◌==◌, ==_iff, arith, dec_lt, false,
  if◌then◌else◌,
}
use dive_canhead.Isotp.Frame.{byte, pci_of, pci_low, pci_cf, pci_ff, zeros}
use dive_canhead.Isotp.TxQueue.{
  Request, Sender, single_frame, first_frame, consecutive_frame, cf_size, request_id,
}

-- Whether `bit_or` with `pci` adds each of the first so many numbers to it.
or_adds : ℕ → ℕ → Bool
or_adds pci zero = true
or_adds pci (suc count) = if bit_or pci count == pci + count then or_adds pci count else false

both : (a b : Bool) → (if a then b else false) ≡ true → (a ≡ true) × (b ≡ true)
both true b h = (refl, h)
both false b h = cc

or_adds_lem :
    (pci count : ℕ) → or_adds pci count ≡ true → (v : ℕ) → v < count → bit_or pci v ≡ pci + v
unfolding or_adds
or_adds_lem pci zero ok v small = absurd (omega arith)
or_adds_lem pci (suc count) ok v small =
    let (same, rest) = both (bit_or pci count == pci + count) (or_adds pci count) ok in
    elim (dec_lt v count) [
      | yes less ↦ or_adds_lem pci count rest v less
      | no last ↦ (let e : v ≡ count = omega arith in rw e ((==_iff _ _).0 same))
    ]

pub bit_or-cf : (x : ℕ) → x < 16 → bit_or pci_cf x ≡ 32 + x
unfolding or_adds
bit_or-cf x small = or_adds_lem pci_cf 16 refl x small

pub bit_or-ff : (x : ℕ) → x < 16 → bit_or pci_ff x ≡ 16 + x
unfolding or_adds
bit_or-ff x small = or_adds_lem pci_ff 16 refl x small

-- A Consecutive Frame shows its number and its chunk of the payload.
pub cf_wire :
    (s : Sender)
    → s.current.length ≤ length s.current.payload
    → s.tx_bytes_sent < s.current.length
    → let m = consecutive_frame s in
      (pci_of m ≡ 0x20)
      × (pci_low m ≡ (s.tx_sequence_number + 1) % 16)
      × (take (cf_size s) (drop 1 m.bytes)
          ≡ take (cf_size s) (drop s.tx_bytes_sent s.current.payload))
      × (length m.bytes ≡ 8)
unfolding consecutive_frame
cf_wire s h lt =
    let chunk = drop s.tx_bytes_sent s.current.payload in
    let n = cf_size s in
    let first = bit_or-cf ((s.tx_sequence_number + 1) % 16) (omega arith) in
    let long : n ≤ length chunk = ground (arith, length-drop s.tx_bytes_sent s.current.payload) in
    (
      omega (arith, first),
      omega (arith, first),
      take-take n chunk _ long,
      length-blit (zeros 8) 0 (bit_or pci_cf ((s.tx_sequence_number + 1) % 16) ∷ take n chunk)
          (ground (arith, length-take n chunk)),
    )

pub cf_id : (s : Sender) → (consecutive_frame s).id ≡ request_id s.current
unfolding consecutive_frame
cf_id s = refl

pub ff_id : (r : Request) → (first_frame r).id ≡ request_id r
unfolding first_frame
ff_id r = refl

pub sf_id : (r : Request) → ((single_frame r).id ≡ request_id r) × ((single_frame r).length ≡ 8)
unfolding single_frame
sf_id r = (refl, refl)

-- A First Frame announces the payload and the pad byte, and shows the pad and five bytes.
pub ff_wire :
    (r : Request)
    → r.length ≤ 255
    → r.length ≤ length r.payload
    → 6 < r.length
    → let m = first_frame r in
      (pci_of m ≡ 0x10)
      × (pci_low m * 256 + byte m 1 ≡ r.length + 1)
      × (take 6 (drop 2 m.bytes) ≡ 0 ∷ take 5 r.payload)
      × (length m.bytes ≡ 8)
unfolding first_frame
ff_wire r small h big =
    let total = r.length + 1 in
    let first = bit_or-ff (total / 256 % 16) (omega arith) in
    (
      omega (arith, first),
      omega (arith, first),
      ap (λ zs. 0 ∷ zs) (take-take 5 r.payload _ (omega arith)),
      length-blit (zeros 8) 0
          (bit_or pci_ff (total / 256 % 16) ∷ total % 256 ∷ 0 ∷ take 5 r.payload)
          (omega (arith, length-take 5 r.payload)),
    )

-- A Single Frame announces the payload and the pad byte, and shows both.
pub sf_wire :
    (r : Request)
    → r.length ≤ 6
    → r.length ≤ length r.payload
    → let m = single_frame r in
      (pci_of m ≡ 0x00)
      × (pci_low m ≡ r.length + 1)
      × (take (r.length + 1) (drop 1 m.bytes) ≡ 0 ∷ take r.length r.payload)
      × (length m.bytes ≡ 8)
unfolding single_frame
sf_wire r small h =
    let e : r.length + 1 ≡ suc r.length = omega arith in
    (
      omega arith,
      omega arith,
      rw e (ap (λ zs. 0 ∷ zs) (take-take r.length r.payload _ h)),
      length-blit (zeros 8) 0 ((r.length % 256 + 1) ∷ 0 ∷ take r.length r.payload)
          (omega (arith, length-take r.length r.payload)),
    )
