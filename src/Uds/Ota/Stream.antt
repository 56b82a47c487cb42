-- ===== src/Uds/Ota/Stream.antt =====
-- A download as its client drives it: the image in blocks, numbered from 1 and modulo 256.
use dive_canhead.Base.{
  ℕ, ◌+◌, ◌-◌, ◌%◌, ◌^◌, ◌≡◌, refl, sym, ◌∙◌, ap, List, [], ◌∷◌, ◌++◌, append_assoc, append-nil,
  true, false, ltb, ◌==◌, arith, length, take_all,
}
use dive_canhead.Zephyr.{Kernel, IsKernel, model, Kernel-eq}
use dive_canhead.Uds.{downloading, Config, Device, Head, respond}
use dive_canhead.Uds.Ota.{sid_to_event, ota_handle, ota_run, handle_transfer_data}

-- A block as a TransferData request
abbrev pub block_request : ℕ → List ℕ → List ℕ
block_request seq block = 0 ∷ 0x36 ∷ seq ∷ block

unfoldable pub flatten : List (List ℕ) → List ℕ
flatten [] = []
flatten (block ∷ blocks) = block ++ flatten blocks

-- The positive responses to so many blocks
unfoldable pub acks : ℕ → List (List ℕ) → List (List ℕ)
acks seq [] = []
acks seq (block ∷ blocks) = (0x76 ∷ seq ∷ []) ∷ acks ((seq + 1) % 256) blocks

-- The client sends every block with its number.
unfoldable pub transfer_blocks : Kernel → Config → Device → ℕ → List (List ℕ) → Head → Head
transfer_blocks k cfg d seq [] h = h
transfer_blocks k cfg d seq (block ∷ blocks) h =
    transfer_blocks k cfg d ((seq + 1) % 256) blocks
      (ota_handle k cfg d (block_request seq block) (3 + length block) h)

-- The state after a block that was taken
abbrev taken : Head → ℕ → List ℕ → Head
taken h seq block = record h {
  bytes_received = (h.bytes_received + length block) % 2 ^ 32;
  next_seq = (h.next_seq + 1) % 256;
  streamed = h.streamed ++ block;
  sent = h.sent ++ (0x76 ∷ seq ∷ []) ∷ [];
}

block_taken :
    (clock : ℕ → ℕ) (cfg : Config) (d : Device) (seq : ℕ) (block : List ℕ) (h : Head)
    → d.image_write ≡ 0
    → h.ota ≡ downloading
    → h.next_seq ≡ seq
    → ota_handle (model clock) cfg d (block_request seq block) (3 + length block) h
      ≡ taken h seq block
unfolding ota_handle sid_to_event ota_run handle_transfer_data respond
block_taken clock cfg d seq block h ok o s =
    let long : ltb (3 + length block) 3 ≡ false = ground arith in
    let same : (seq == seq) ≡ true = ground arith in
    let size : 3 + length block - 3 ≡ length block = omega arith in
    rw (o, s, ok, long, same, size, take_all (length block) block (omega arith)) refl

pub blocks_taken :
    (clock : ℕ → ℕ) (cfg : Config) (d : Device) (seq : ℕ) (blocks : List (List ℕ)) (h : Head)
    → d.image_write ≡ 0
    → h.ota ≡ downloading
    → h.next_seq ≡ seq
    → let h' = transfer_blocks (model clock) cfg d seq blocks h in
      (h'.streamed ≡ h.streamed ++ flatten blocks)
      × (h'.sent ≡ h.sent ++ acks seq blocks)
      × (h'.ota ≡ downloading)
      × (h'.session ≡ h.session)
      × (h'.risks ≡ h.risks)
unfolding transfer_blocks flatten acks
blocks_taken clock cfg d seq [] h ok o s =
    (sym (append-nil h.streamed), sym (append-nil h.sent), o, refl, refl)
blocks_taken clock cfg d seq (block ∷ blocks) h ok o s =
    let next : Head =
      ota_handle (model clock) cfg d (block_request seq block) (3 + length block) h in
    let e : next ≡ taken h seq block = block_taken clock cfg d seq block h ok o s in
    let (p, q, r, m, n) =
      blocks_taken clock cfg d ((seq + 1) % 256) blocks next ok (ap (λ g. g.ota) e ∙ o)
        (ap (λ g. g.next_seq) e ∙ ap (λ m. (m + 1) % 256) s) in
    (
      p ∙ ap (λ g. g.streamed ++ flatten blocks) e ∙ append_assoc h.streamed block (flatten blocks),
      q
          ∙ ap (λ g. g.sent ++ acks ((seq + 1) % 256) blocks) e
          ∙ append_assoc h.sent ((0x76 ∷ seq ∷ []) ∷ []) (acks ((seq + 1) % 256) blocks),
      r,
      m ∙ ap (λ g. g.session) e,
      n ∙ ap (λ g. g.risks) e,
    )

-- While the machine downloads and the writer of the image works, a client that numbers its blocks
-- from the number expected next, modulo 256, has them all streamed to slot1 in their order, and gets
-- the positive response with the number of each; the machine goes on downloading. There is
-- no bound on the number of blocks or on their lengths.
pub transfer_blocks-flatten :
    (k : Kernel) (cfg : Config) (d : Device) (seq : ℕ) (blocks : List (List ℕ)) (h : Head)
    → IsKernel k
    → d.image_write ≡ 0
    → h.ota ≡ downloading
    → h.next_seq ≡ seq
    → let h' = transfer_blocks k cfg d seq blocks h in
      (h'.streamed ≡ h.streamed ++ flatten blocks)
      × (h'.sent ≡ h.sent ++ acks seq blocks)
      × (h'.ota ≡ downloading)
transfer_blocks-flatten k cfg d seq blocks h doc ok o s =
    let all = blocks_taken k.uptime cfg d seq blocks h ok o s in
    rw (Kernel-eq k doc) (all.0, all.1, all.2)
