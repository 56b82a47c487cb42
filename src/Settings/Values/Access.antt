-- ===== src/Settings/Values/Access.antt =====
-- What a setting is after it was written.
use dive_canhead.Base.{
  ℕ, zero, suc, ◌+◌, ◌≤◌, ◌<◌, ◌≡◌, ◌≢◌, refl, ap, sym, ◌∙◌, Bool, true, false, ◌&&◌, true≢false,
  ltb, ◌==◌, arith, ℕ_discrete,
}
use dive_canhead.ExternalFlash.{Backend}
use dive_canhead.Settings.{Gains, Build, Broadcast, RuntimeSettings, Field, of_flag}
use dive_canhead.Settings.Cache.{State, runtime_settings_set_volatile}
use dive_canhead.Settings.Menu.{setting_count, menu_to_storage}
use dive_canhead.Settings.Menu.Order.{same_storage, storage_bound}
use dive_canhead.Settings.Values.{
  Setting, fw_commit, ppo2_mode, cal_mode, depth_comp, pid_kp, pid_ki, pid_kd, battery, divecan_id,
  absent, cell_bcst, setting_at, is_editable, max_value, cell_flag, set_cell_flag, to_wire, of_wire,
  value_of, stage, get_setting_value, set_setting_value,
}

-- The index of a setting
abbrev index_of : Setting → ℕ
index_of fw_commit = 0
index_of ppo2_mode = 1
index_of cal_mode = 2
index_of depth_comp = 3
index_of pid_kp = 4
index_of pid_ki = 5
index_of pid_kd = 6
index_of battery = 7
index_of (cell_bcst cell) = 8 + cell
index_of divecan_id = 11
index_of absent = 12

-- A setting that exists: a flag is one of three.
abbrev exists : Setting → Bool
exists absent = false
exists (cell_bcst cell) = ltb cell 3
exists _ = true

abbrev all_below : ℕ → (ℕ → Bool) → Bool
all_below zero test = true
all_below (suc n) test = test n && all_below n test

all_below_lem :
    (n : ℕ) (test : ℕ → Bool) → all_below n test ≡ true → (i : ℕ) → i < n → test i ≡ true
all_below_lem zero test h i small = absurd (omega arith)
all_below_lem (suc n) test h i small = elim (ℕ_discrete i n) [
  | yes e ↦ rw e (ground arith)
  | no ne ↦ all_below_lem n test (ground arith) i (omega (arith, ne))
]

index_of-setting_at : (i : ℕ) → i ≤ setting_count → index_of (setting_at i) ≡ i
index_of-setting_at i h =
    ground (arith, all_below_lem 13 (λ j. index_of (setting_at j) == j) refl i (omega arith))

setting_at-exists : (i : ℕ) → i < setting_count → exists (setting_at i) ≡ true
setting_at-exists i h = all_below_lem 12 (λ j. exists (setting_at j)) refl i h

cell_flag-set_ne :
    (cells : Broadcast) (i j : ℕ) (v : Bool)
    → j ≢ i
    → cell_flag (set_cell_flag cells i v) j ≡ cell_flag cells j
cell_flag-set_ne cells i j v ne = ground arith

module _ (g : Gains) where
  -- A setting that was staged is read back, if its value survives the conversion to a gain.
  value_of-stage :
      (k : Setting) (v : ℕ) (rs : RuntimeSettings g.Gain)
      → exists k ≡ true
      → is_editable k ≡ true
      → v ≤ max_value k
      → to_wire g (of_wire g v) ≡ v
      → value_of g k (stage g k v rs) ≡ v
  value_of-stage fw_commit v rs h ed m r = absurd (true≢false (sym ed))
  value_of-stage ppo2_mode v rs h ed m r = refl
  value_of-stage cal_mode v rs h ed m r = refl
  value_of-stage depth_comp v rs h ed m r = ground arith
  value_of-stage pid_kp v rs h ed m r = r
  value_of-stage pid_ki v rs h ed m r = r
  value_of-stage pid_kd v rs h ed m r = r
  value_of-stage battery v rs h ed m r = refl
  value_of-stage divecan_id v rs h ed m r = refl
  value_of-stage absent v rs h ed m r = absurd (true≢false (sym h))
  value_of-stage (cell_bcst cell) v rs h ed m r = ground arith

  abbrev Apart : Setting → ℕ → RuntimeSettings g.Gain → Setting → Type 0
  Apart k' v rs k = k' ≢ k → value_of g k' (stage g k v rs) ≡ value_of g k' rs

  -- No other setting changes.
  value_of-stage_ne :
      (k k' : Setting) (v : ℕ) (rs : RuntimeSettings g.Gain)
      → k' ≢ k
      → value_of g k' (stage g k v rs) ≡ value_of g k' rs
  value_of-stage_ne k fw_commit v rs ne = refl
  value_of-stage_ne k absent v rs ne = refl
  value_of-stage_ne k ppo2_mode v rs ne =
      elim k as (Apart ppo2_mode v rs) [ ppo2_mode ↦ λ n. absurd (n refl) | _ ↦ λ n. refl ] ne
  value_of-stage_ne k cal_mode v rs ne =
      elim k as (Apart cal_mode v rs) [ cal_mode ↦ λ n. absurd (n refl) | _ ↦ λ n. refl ] ne
  value_of-stage_ne k depth_comp v rs ne =
      elim k as (Apart depth_comp v rs) [ depth_comp ↦ λ n. absurd (n refl) | _ ↦ λ n. refl ] ne
  value_of-stage_ne k pid_kp v rs ne =
      elim k as (Apart pid_kp v rs) [ pid_kp ↦ λ n. absurd (n refl) | _ ↦ λ n. refl ] ne
  value_of-stage_ne k pid_ki v rs ne =
      elim k as (Apart pid_ki v rs) [ pid_ki ↦ λ n. absurd (n refl) | _ ↦ λ n. refl ] ne
  value_of-stage_ne k pid_kd v rs ne =
      elim k as (Apart pid_kd v rs) [ pid_kd ↦ λ n. absurd (n refl) | _ ↦ λ n. refl ] ne
  value_of-stage_ne k battery v rs ne =
      elim k as (Apart battery v rs) [ battery ↦ λ n. absurd (n refl) | _ ↦ λ n. refl ] ne
  value_of-stage_ne k divecan_id v rs ne =
      elim k as (Apart divecan_id v rs) [ divecan_id ↦ λ n. absurd (n refl) | _ ↦ λ n. refl ] ne
  value_of-stage_ne k (cell_bcst i) v rs ne =
      elim k as (Apart (cell_bcst i) v rs) [
        | cell_bcst j ↦
            λ n. ap of_flag (cell_flag-set_ne rs.enforce_broadcast j i _ (λ e. n (ap cell_bcst e)))
        | _ ↦ λ n. refl
      ]
        ne

  module _ (b : Build) (e : Backend Field) where
    -- A write that is accepted has passed the tests, and holds the staged settings.
    set_setting_value-true :
        (index v : ℕ) (st : State g.Gain e.Flash)
        → (set_setting_value g b e index v st).0 ≡ true
        → let storage = menu_to_storage b index in
          (storage < setting_count)
          × (is_editable (setting_at storage) ≡ true)
          × (v ≤ max_value (setting_at storage))
          × ((set_setting_value g b e index v st).1.cached
              ≡ stage g (setting_at storage) v st.cached)
    unfolding set_setting_value runtime_settings_set_volatile
    set_setting_value-true index v st h = ground arith

    -- A write that the diagnostic service accepts is read back at its index, if the value survives the
    -- conversion to a gain, and no other index reads differently than before.
    pub set_setting_value-get :
        (index v : ℕ) (st : State g.Gain e.Flash)
        → to_wire g (of_wire g v) ≡ v
        → (set_setting_value g b e index v st).0 ≡ true
        → let st' = (set_setting_value g b e index v st).1 in
          (get_setting_value g b e index st' ≡ v)
          × ((j : ℕ) → j ≢ index → get_setting_value g b e j st' ≡ get_setting_value g b e j st)
    unfolding get_setting_value
    set_setting_value-get index v st r h =
        let (small, editable, bounded, same) = set_setting_value-true index v st h in
        let k = setting_at (menu_to_storage b index) in
        (
          ap (value_of g k) same
              ∙ value_of-stage k v st.cached (setting_at-exists _ small) editable bounded r,
          λ j ne.
              let k' = setting_at (menu_to_storage b j) in
              ap (value_of g k') same
              ∙ value_of-stage_ne k k' v st.cached (λ same_setting. ne (
                  sym (
                    same_storage b index j small (
                      sym (index_of-setting_at _ (storage_bound b index))
                      ∙ ap index_of (sym same_setting)
                      ∙ index_of-setting_at _ (storage_bound b j))))),
        )
