-- ===== src/FirmwareConfirm/Examples.antt =====
-- The self test of a board on which every check passes.
use dive_canhead.Base.{ℕ, ◌+◌, ◌*◌, refl, [], true, false, none, some, arith, ◌⊎◌}
use dive_canhead.Zephyr.{Kernel, IsKernel, model, model-IsKernel}
use dive_canhead.FirmwareConfirm.{
  init, Config, Sample, Post, cell_ok, cell_need_cal, start, run_post_sequence,
}
use dive_canhead.FirmwareConfirm.Verdict.{Confirmed, RolledBack}
use dive_canhead.FirmwareConfirm.Deadline

abbrev kernel : Kernel
kernel = model (λ n. 0)

kernel-IsKernel : IsKernel kernel
kernel-IsKernel = model-IsKernel (λ n. 0) (λ n. omega arith)

abbrev board : Config
board = record {
  cell_count = 3;
  has_o2_solenoid = true;
  deadline_ms = 400;
  cell_timeout_ms = 200;
  consensus_timeout_ms = 200;
  ppo2_tx_timeout_ms = 200;
  handset_timeout_ms = 200;
  sol_timeout_ms = 200;
  capture_on_boot = true;
  confirm_error = none;
}

-- Tick `n` of a board on which `heard` says how many handset frames came.
abbrev sample : (ℕ → ℕ) → ℕ → Sample
sample heard n = record {
  cell_1 = some cell_ok;
  cell_2 = some cell_need_cal;
  cell_3 = some cell_ok;
  consensus_ppo2 = some 70;
  solenoid_status = some 8;
  tx_count = 10 + n;
  bus_init_count = heard n;
  bus_id_count = 2;
  checked_at = 1000 + 50 * n;
  budget_at = 1000 + 50 * n;
  entered_at = 1000 + 50 * n;
}

abbrev asked : ℕ → ℕ
asked n = n

abbrev reset : Post
reset = record {
  smf = init;
  terminate_val = 0;
  start_ms = 0;
  state_start_ms = 0;
  tx_baseline = 0;
  rx_baseline = 0;
  post_state = init;
  pass_mask = 0;
  rebooted = false;
  actions = [];
}

post_decides_example :
    let q = run_post_sequence kernel board 14 (sample asked 0) (sample asked) reset in
    let b = start kernel board (sample asked 0) reset in
    (m : ℕ) × (Confirmed board (sample asked) b m q ⊎ RolledBack board (sample asked) b q)
post_decides_example =
    Deadline.post_decides kernel board (sample asked 0) (sample asked) reset 14 kernel-IsKernel refl
      refl refl (λ n. omega arith) (omega arith)
