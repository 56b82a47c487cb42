-- ===== src/FirmwareConfirm.antt =====
-- The power-on self test of a new image (Firmware/src/firmware_confirm.c): a machine that ticks
-- until every check has passed, and the image is confirmed, or until a deadline, and the head is
-- restarted without confirming, on which MCUboot goes back to the old image.
pub mod Verdict
pub mod Deadline
mod Examples
use dive_canhead.Base.{
  ℕ, zero, suc, ◌++◌, ◌+◌, ◌-◌, ◌%◌, ◌^◌, List, [], ◌∷◌, Bool, true, false, not, ◌&&◌, ◌||◌, Option,
  none, some, ltb, leb, ◌==◌, if◌then◌else◌, bit_or,
}
use dive_canhead.Zephyr.{Kernel}

-- `PostState_t`
pub data PostState : Type 0 where
  init waiting_cells waiting_consensus waiting_ppo2_tx waiting_handset waiting_solenoid : PostState
  confirmed failed_timeout failed_cell failed_consensus failed_no_ppo2_tx : PostState
  failed_no_handset failed_solenoid : PostState

-- `CellStatus_t`
pub data CellStatus : Type 0 where
  cell_ok cell_degraded cell_fail cell_need_cal : CellStatus

-- The number of a state, as it is reported with OP_ERR_POST_FAIL
unfoldable pub state_code : PostState → ℕ
state_code init = 0
state_code waiting_cells = 1
state_code waiting_consensus = 2
state_code waiting_ppo2_tx = 3
state_code waiting_handset = 4
state_code waiting_solenoid = 5
state_code confirmed = 6
state_code failed_timeout = 7
state_code failed_cell = 8
state_code failed_consensus = 9
state_code failed_no_ppo2_tx = 10
state_code failed_no_handset = 11
state_code failed_solenoid = 12

abbrev pub required_ppo2_tx_count : ℕ
required_ppo2_tx_count = 3

abbrev pub ppo2_fail : ℕ
ppo2_fail = 0xFF

abbrev pub sol_norm : ℕ
sol_norm = 8

-- The build options, and what `boot_write_img_confirmed` returns.
pub record Config : Type 0 where
  pub cell_count : ℕ
  pub has_o2_solenoid : Bool
  pub deadline_ms : ℕ
  pub cell_timeout_ms : ℕ
  pub consensus_timeout_ms : ℕ
  pub ppo2_tx_timeout_ms : ℕ
  pub handset_timeout_ms : ℕ
  pub sol_timeout_ms : ℕ
  pub capture_on_boot : Bool
  pub confirm_error : Option ℕ

-- What one tick can read: the channels (`none` for a failed `zbus_chan_read`), the counters, and
-- `k_uptime_get` at the overall deadline, at the budget of the state and on entry to a state.
pub record Sample : Type 0 where
  pub cell_1 : Option CellStatus
  pub cell_2 : Option CellStatus
  pub cell_3 : Option CellStatus
  pub consensus_ppo2 : Option ℕ
  pub solenoid_status : Option ℕ
  pub tx_count : ℕ
  pub bus_init_count : ℕ
  pub bus_id_count : ℕ
  pub checked_at : ℕ
  pub budget_at : ℕ
  pub entered_at : ℕ

pub data Action : Type 0 where
  confirm_image capture_async reboot : Action
  flash_error : ℕ → Action
  post_fail : ℕ → Action

-- `PostSmCtx_t`, the two atomics, whether `sys_reboot` was called, and the actions in order.
pub record Post : Type 0 where
  pub smf : PostState
  pub terminate_val : ℕ
  pub start_ms : ℕ
  pub state_start_ms : ℕ
  pub tx_baseline : ℕ
  pub rx_baseline : ℕ
  pub post_state : PostState
  pub pass_mask : ℕ
  pub rebooted : Bool
  pub actions : List Action

abbrev pub store : PostState → Post → Post
store st p = record p { smf = st }

-- `mark_check_passed`
unfoldable pub mark_check_passed : ℕ → PostState → Post → Post
mark_check_passed bit next p = record p {
  pass_mask = bit_or p.pass_mask (2 ^ bit);
  post_state = next;
}

-- `cell_is_alive`, after the read
unfoldable pub cell_is_alive : Option CellStatus → Bool
cell_is_alive (some cell_ok) = true
cell_is_alive (some cell_need_cal) = true
cell_is_alive (some cell_degraded) = false
cell_is_alive (some cell_fail) = false
cell_is_alive none = false

-- `all_cells_alive`
unfoldable pub all_cells_alive : Config → Sample → Bool
unfolding cell_is_alive
all_cells_alive cfg x =
    cell_is_alive x.cell_1
    && (if leb 2 cfg.cell_count then cell_is_alive x.cell_2 else true)
    && (if leb 3 cfg.cell_count then cell_is_alive x.cell_3 else true)

-- `consensus_is_alive`
unfoldable pub consensus_is_alive : Sample → Bool
consensus_is_alive x = elim x.consensus_ppo2 [ none ↦ false | some v ↦ not (v == ppo2_fail) ]

-- `solenoid_is_alive`
unfoldable pub solenoid_is_alive : Config → Sample → Bool
solenoid_is_alive cfg x =
    if cfg.has_o2_solenoid
    then (elim x.solenoid_status [ none ↦ false | some v ↦ v == sol_norm ])
    else true

-- `handset_rx_total`
unfoldable pub handset_rx_total : Sample → ℕ
handset_rx_total x =
    let sum = x.bus_init_count + x.bus_id_count in if ltb (2 ^ 32 - 1) sum then 2 ^ 32 - 1 else sum

-- The test of `post_ppo2_tx_run`, on 32-bit counts
unfoldable pub ppo2_sent : Sample → Post → Bool
ppo2_sent x p = leb required_ppo2_tx_count ((x.tx_count + 2 ^ 32 - p.tx_baseline) % 2 ^ 32)

-- The test of `post_handset_run`
unfoldable pub handset_heard : Sample → Post → Bool
handset_heard x p = ltb p.rx_baseline (handset_rx_total x)

-- `enter_waiting_state`
unfoldable pub enter_waiting_state : Sample → PostState → Post → Post
enter_waiting_state x st p = record p { state_start_ms = x.entered_at; post_state = st }

-- `abort_and_reboot`
unfoldable pub abort_and_reboot : PostState → Post → Post
unfolding state_code
abort_and_reboot st p = record p {
  post_state = st;
  rebooted = true;
  actions = p.actions ++ post_fail (state_code st) ∷ reboot ∷ [];
}

-- What `post_confirmed_entry` does after `boot_write_img_confirmed`.
unfoldable pub after_confirm : Config → List Action
after_confirm cfg = elim cfg.confirm_error [
  | some e ↦ flash_error e ∷ []
  | none ↦ if cfg.capture_on_boot then capture_async ∷ [] else []
]

-- `post_confirmed_entry`
unfoldable pub confirmed_entry : Config → Post → Post
unfolding after_confirm
confirmed_entry cfg p = record p {
  actions = p.actions ++ confirm_image ∷ after_confirm cfg;
  terminate_val = 1;
}

-- The entry column of `post_states`
unfoldable pub entry : Config → Sample → PostState → Post → Post
unfolding enter_waiting_state abort_and_reboot confirmed_entry
entry cfg x init p = p
entry cfg x waiting_cells p = enter_waiting_state x waiting_cells p
entry cfg x waiting_consensus p = enter_waiting_state x waiting_consensus p
entry cfg x waiting_ppo2_tx p = enter_waiting_state x waiting_ppo2_tx p
entry cfg x waiting_handset p = enter_waiting_state x waiting_handset p
entry cfg x waiting_solenoid p = enter_waiting_state x waiting_solenoid p
entry cfg x confirmed p = confirmed_entry cfg p
entry cfg x failed_timeout p = abort_and_reboot failed_timeout p
entry cfg x failed_cell p = abort_and_reboot failed_cell p
entry cfg x failed_consensus p = abort_and_reboot failed_consensus p
entry cfg x failed_no_ppo2_tx p = abort_and_reboot failed_no_ppo2_tx p
entry cfg x failed_no_handset p = abort_and_reboot failed_no_handset p
entry cfg x failed_solenoid p = abort_and_reboot failed_solenoid p

-- `overall_deadline_exceeded`, with the difference of `deadline_remaining_ms` moved over
unfoldable pub overall_deadline_exceeded : Config → Sample → Post → Bool
overall_deadline_exceeded cfg x p = leb (p.start_ms + cfg.deadline_ms) x.checked_at

-- `state_budget_exceeded`
unfoldable pub state_budget_exceeded : Sample → ℕ → Post → Bool
state_budget_exceeded x budget p = leb (p.state_start_ms + budget) x.budget_at

-- The driver loop stops: `smf_run_state` returned nonzero, or the head was restarted.
abbrev pub is_over : Post → Bool
is_over p = p.rebooted || not (p.terminate_val == 0)

module _ (k : Kernel) (cfg : Config) where
  unfoldable pub set_state : Sample → PostState → Post → Post
  unfolding entry
  set_state x st p = k.set_state PostState Post store (entry cfg x) st p

  -- The branches that the five run functions share
  unfoldable pub check : Sample → Bool → ℕ → PostState → ℕ → PostState → Post → Post
  check x passed bit next budget failed p =
      if passed
      then set_state x next (mark_check_passed bit next p)
      else if overall_deadline_exceeded cfg x p
      then set_state x failed_timeout p
      else if state_budget_exceeded x budget p
      then set_state x failed p
      else p

  unfoldable pub run_cells : Sample → Post → Post
  run_cells x p =
      check x (all_cells_alive cfg x) 0 waiting_consensus cfg.cell_timeout_ms failed_cell p

  unfoldable pub run_consensus : Sample → Post → Post
  run_consensus x p =
      check x (consensus_is_alive x) 1 waiting_ppo2_tx cfg.consensus_timeout_ms failed_consensus p

  unfoldable pub run_ppo2_tx : Sample → Post → Post
  run_ppo2_tx x p =
      check x (ppo2_sent x p) 2 waiting_handset cfg.ppo2_tx_timeout_ms failed_no_ppo2_tx p

  unfoldable pub run_handset : Sample → Post → Post
  run_handset x p =
      check x (handset_heard x p) 3 waiting_solenoid cfg.handset_timeout_ms failed_no_handset p

  unfoldable pub run_solenoid : Sample → Post → Post
  run_solenoid x p =
      check x (solenoid_is_alive cfg x) 4 confirmed cfg.sol_timeout_ms failed_solenoid p

  -- The run column of `post_states`
  unfoldable pub run : Sample → PostState → Post → Post
  run x waiting_cells p = run_cells x p
  run x waiting_consensus p = run_consensus x p
  run x waiting_ppo2_tx p = run_ppo2_tx x p
  run x waiting_handset p = run_handset x p
  run x waiting_solenoid p = run_solenoid x p
  run x _ p = p

  unfoldable pub tick : Sample → Post → Post
  tick x p = k.run_state PostState Post (λ p. p.smf) (run x) p

  -- The loop of `run_post_sequence`, on fuel; tick `n` reads `world n`.
  unfoldable pub drive : ℕ → (ℕ → Sample) → ℕ → Post → Post
  drive zero world n p = p
  drive (suc fuel) world n p =
      let p' = tick (world n) p in
      let rest = drive fuel world (suc n) p' in if is_over p' then p' else rest

  -- The part of `run_post_sequence` before the loop. The two atomics are as the caller left them.
  unfoldable pub start : Sample → Post → Post
  unfolding entry
  start x p = k.set_initial PostState Post store (entry cfg x) waiting_cells (record p {
    smf = init;
    terminate_val = 0;
    start_ms = x.checked_at;
    state_start_ms = 0;
    tx_baseline = x.tx_count;
    rx_baseline = handset_rx_total x;
  })

  -- `run_post_sequence`
  unfoldable pub run_post_sequence : ℕ → Sample → (ℕ → Sample) → Post → Post
  run_post_sequence fuel x world p = drive fuel world 0 (start x p)

-- `PostInitAction_t`
pub data InitAction : Type 0 where
  silent defer run_post : InitAction

-- `firmware_confirm_decide`; the first argument is MCUboot's BOOT_SWAP_TYPE_TEST.
unfoldable pub decide : ℕ → Bool → ℕ → InitAction
decide swap_type_test is_confirmed swap_type =
    if is_confirmed then silent else if swap_type == swap_type_test then defer else run_post
