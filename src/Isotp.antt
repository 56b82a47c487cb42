-- ===== src/Isotp.antt =====
-- The ISO-TP transport (Firmware/src/divecan/isotp.c, isotp_tx_queue.c).
pub mod Frame
pub mod Receive
pub mod TxQueue
pub mod Transfer
pub mod Send
mod Examples
