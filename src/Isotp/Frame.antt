-- ===== src/Isotp/Frame.antt =====
-- CAN frames and the constants of ISO-TP (Firmware/src/divecan/include/isotp.h, divecan_types.h).
-- A byte is a number below 256 and a `uint16_t` or `uint32_t` one below 2^16 or 2^32; a mask of
-- low bits is written as `%`, a shift right as `/`.
use dive_canhead.Base.{ℕ, ◌+◌, ◌*◌, ◌/◌, ◌-◌, ◌%◌, ◌^◌, List, get_or, replicate, bit_or}

-- `DiveCANMessage_t`
pub record Message : Type 0 where
  pub id : ℕ
  pub length : ℕ
  pub bytes : List ℕ

abbrev pub max_payload : ℕ
max_payload = 256

abbrev pub sf_max_data : ℕ
sf_max_data = 7

abbrev pub ff_data_bytes : ℕ
ff_data_bytes = 6

abbrev pub cf_data_bytes : ℕ
cf_data_bytes = 7

abbrev pub pci_sf : ℕ
pci_sf = 0x00

abbrev pub pci_ff : ℕ
pci_ff = 0x10

abbrev pub pci_cf : ℕ
pci_cf = 0x20

abbrev pub pci_fc : ℕ
pci_fc = 0x30

abbrev pub fc_cts : ℕ
fc_cts = 0x30

abbrev pub fc_wait : ℕ
fc_wait = 0x31

abbrev pub fc_ovflw : ℕ
fc_ovflw = 0x32

abbrev pub broadcast_addr : ℕ
broadcast_addr = 0xFF

abbrev pub timeout_n_cr : ℕ
timeout_n_cr = 1000

abbrev pub timeout_n_bs : ℕ
timeout_n_bs = 1000

-- `data[i]`
abbrev pub byte : Message → ℕ → ℕ
byte m i = get_or m.bytes i 0

-- `data[0] & ISOTP_PCI_MASK` and `data[0] & ISOTP_PCI_LEN_MASK`
abbrev pub pci_of : Message → ℕ
pci_of m = byte m 0 / 16 * 16

abbrev pub pci_low : Message → ℕ
pci_low m = byte m 0 % 16

-- Bits 11-8 and bits 7-0 of the CAN identifier
abbrev pub msg_target : Message → ℕ
msg_target m = m.id / 256 % 16

abbrev pub msg_source : Message → ℕ
msg_source m = m.id % 256

-- `message_id | (target << 8) | source`
abbrev pub can_id : ℕ → ℕ → ℕ → ℕ
can_id message_id target source = bit_or (bit_or message_id (target * 256)) source

abbrev pub zeros : ℕ → List ℕ
zeros n = replicate n 0

-- `now - then` of two `uint32_t`
abbrev pub elapsed : ℕ → ℕ → ℕ
elapsed now before = (now + 2 ^ 32 - before) % 2 ^ 32

-- What the error reports of the two files carry: the `OpError_t` code, and its detail.
pub data Fault : Type 0 where
  isotp_state isotp_timeout isotp_overflow isotp_seq queue_fault null_ptr math_fault : Fault
