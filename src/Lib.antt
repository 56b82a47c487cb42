-- ===== src/Lib.antt =====
-- Verification of the DiveCANHead firmware: the control head of a rebreather on the DiveCAN bus.
--
-- The parts modelled, and how they interact. A client on the bus speaks ISO-TP with the head:
-- Isotp/Receive.antt is the receive context of Firmware/src/divecan/isotp.c, and
-- Isotp/TxQueue.antt is the one transmit queue of Firmware/src/divecan/isotp_tx_queue.c;
-- Isotp/Frame.antt holds the frames and constants that both use, and Isotp/Transfer.antt puts the two
-- sides together, from `ISOTP_Send` of Isotp/Send.antt on.
-- FirmwareConfirm.antt is the power-on self test of Firmware/src/firmware_confirm.c, which confirms a new
-- image or restarts the head without confirming it. Maintenance.antt is the scratch region that
-- maintenance jobs share (Firmware/src/maintenance_arena.c) with the error histogram that it holds off
-- the flash (Firmware/src/error_histogram.c). BootHistory.antt is the two rings of crashes and reboots
-- of Firmware/src/boot_history.c. The error reports of all parts reach the histogram over
-- zbus; only the report that the histogram makes itself is followed there.
-- The diagnostic services are in Uds.antt and below: Uds/Dispatch.antt is the request dispatch, the session and
-- the reads of Firmware/src/divecan/uds/uds.c (`UDS_ProcessRequest` is `process_request`), Uds/Write.antt its
-- write handlers, and Uds/Ota.antt the firmware download of Firmware/src/divecan/uds/uds_ota.c
-- (`UDS_OTA_Handle` is `ota_handle`, the three columns of `ota_states` are `ota_entry`, `ota_run` and
-- `ota_exit`). They share one state, `Head`, which holds the scratch region of Maintenance.antt. What
-- the calls out of these two files return while a request is handled is the argument `Device`; the
-- readers of the identifiers are the argument `payload`. What such calls do is a list in the state:
-- the payloads sent, the bytes streamed, the calls that need a programming session, the requests
-- handed to other parts. What the log download of Firmware/src/divecan/uds/uds_log_download.c does to the
-- scratch region, the flash log and the log push is in Uds/Log.antt, without its own responses and
-- blocks. The worker of a restore of the factory image runs at another time than its request, as
-- `restore_work_handler` of Uds/Write.antt (Firmware/src/factory_image.c).
-- Uds/Ota/Trailer.antt is the search for the hash of the image in slot1 (`extractSlot1Sha256`), over the
-- argument `read`, which stands for the flash driver; `validateSlot1` is `validate_slot1` of Uds/Ota.antt.
-- Heartbeat.antt is the liveness monitor of Firmware/src/heartbeat.c with the rounds of the thread that feeds
-- the watchdog (Firmware/src/watchdog_feeder.c).
-- Consensus.antt is the vote over the oxygen cells (Firmware/src/oxygen_cell_math.c), over the argument `fl`
-- for the floating-point operations; the three entries of each array of a message are three fields.
-- ExternalFlash.antt is the locked access to the settings subsystem
-- (Firmware/src/external_flash.c), over the parameter `Backend`, with the documented behaviour of
-- its store as `IsBackend`; a journal in ExternalFlash/Journal.antt has that behaviour. Two parts
-- keep their data there. Settings.antt and Settings/Cache.antt are the persistent settings of
-- Firmware/src/runtime_settings.c and Firmware/include/runtime_settings.h (`runtime_settings_load`
-- and the other functions keep their names), and Settings/Menu.antt, Settings/Values.antt and
-- Settings/Labels.antt what Firmware/src/divecan/uds/uds_settings.c makes of them:
-- `UDS_ComputeMenuOrder` is `compute_menu_order`, `UDS_SetSettingValue` is `set_setting_value`.
-- CalibrationStore.antt is the coefficients of Firmware/src/calibration_store.c. On it stands the
-- calibration of Firmware/src/calibration.c: Calibration.antt has the coefficients (with
-- Firmware/src/oxygen_cell_math.c), Calibration/Cells.antt one cell, Calibration/Methods.antt the
-- methods, and Calibration/Machine.antt the state machine, the guard and the handling of a request
-- by `cal_thread_fn`. What the channels of the cells give is the argument `Readings`. The nine
-- keys of the settings are the constructors of `Field`, and a name below "cal" is one of `CalKey`.
--
-- The calls of Zephyr (the state-machine framework, message queues, the clock) are not in the
-- repository: Zephyr.antt makes them the parameter `Kernel`, with what the documentation says of
-- them as `IsKernel`. Base.antt holds what all files share.
--
-- How code became definitions. A static object or a context is a record, and a function that
-- changes it is a function from the record to the record: `ISOTP_ProcessRxFrame` is
-- `process_rx_frame`, `ISOTP_TxQueue_Enqueue` is `enqueue`, `isotp_idle_run` is the idle case of `run`.
-- What a call leaves outside is a list in the record: frames, sleeps and other actions in order,
-- error reports the last one first; a clock
-- read is the next value of a stream. Machine words are natural numbers with the wrap-around of
-- each assignment written out. Mutexes and atomics are not modelled: each call is one step, and
-- a history is a sequence of such steps.
--
-- Fuel. The loop that sends Consecutive Frames has one round more than the payload has bytes, and every
-- round sends at least one byte.
-- The loop of the self test has one round for each tick; `post_decides` shows that a fiftieth of
-- the deadline in milliseconds and six ticks are enough.
--
-- The walk over the trailer of an image has a round for every four bytes announced, and an entry has
-- at least four bytes.
--
-- The retries of a save are counted down from the limit of the code. The loop around the
-- calibration machine ends before its first round, so any fuel is enough.
--
-- Not modelled: the threads around these calls, the CAN driver, logging, the records behind the
-- identifiers that UDS reads, the log push, the blocks of the log download, the names of the settings, the drivers
-- of the cells, PPO2 control, flash log and power management. A pointer that must not be NULL is not one
-- here, so the null checks of the entry points have no counterpart.
pub mod Base
pub mod Zephyr
pub mod BootHistory
pub mod Calibration
pub mod CalibrationStore
pub mod Consensus
pub mod ExternalFlash
pub mod FirmwareConfirm
pub mod Heartbeat
pub mod Isotp
pub mod Maintenance
pub mod Settings
pub mod Uds
