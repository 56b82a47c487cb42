-- ===== src/Settings/Restart/Fields.antt =====
-- The fields of the settings, and reading one back.
use dive_canhead.Base.{
  ℕ, ◌%◌, ◌≡◌, ◌≢◌, ◌⊎◌, refl, sym, ap, ◌∙◌, inl, inr, Bool, true, false, not, ◌||◌, true≢false,
  List, [], ◌∷◌, length, get_or, if◌then◌else◌, arith, ℕ_discrete, take_all,
}
use dive_canhead.ExternalFlash.{Reader, stored}
use dive_canhead.Settings.{
  Gains, Build, RuntimeSettings, Field, ppo2, cal, depth, kp, ki, kd, bat, bcst, ident, other,
  fetch, flag_of, of_flag, ppo2_mode_valid, cal_mode_valid, battery_type_valid,
  divecan_identity_valid, pid_gain_valid, runtime_settings_validate,
}
use dive_canhead.Settings.Cache.{settings_set, bytes_of}

-- A value of four bytes is what it was when it is read back.
pub record IsMemory (g : Gains) : Type 0 where
  pub encode_size : (k : g.Gain) → length (g.encode k) ≡ 4
  pub decode_encode : (k : g.Gain) → g.decode (g.encode k) ≡ k

abbrev pub number_of : Field → ℕ
number_of ppo2 = 0
number_of cal = 1
number_of depth = 2
number_of kp = 3
number_of ki = 4
number_of kd = 5
number_of bat = 6
number_of bcst = 7
number_of ident = 8
number_of other = 9

abbrev numbered : ℕ → Field
numbered n = get_or (ppo2 ∷ cal ∷ depth ∷ kp ∷ ki ∷ kd ∷ bat ∷ bcst ∷ ident ∷ []) n other

numbered-number_of : (k : Field) → numbered (number_of k) ≡ k
numbered-number_of k = elim k as (λ k. numbered (number_of k) ≡ k) [
  | ppo2 ↦ refl
  | cal ↦ refl
  | depth ↦ refl
  | kp ↦ refl
  | ki ↦ refl
  | kd ↦ refl
  | bat ↦ refl
  | bcst ↦ refl
  | ident ↦ refl
  | other ↦ refl
]

pub same_field : (k k' : Field) → (k ≡ k') ⊎ (k ≢ k')
same_field k k' = elim (ℕ_discrete (number_of k) (number_of k')) [
  | yes e ↦ inl (sym (numbered-number_of k) ∙ ap numbered e ∙ numbered-number_of k')
  | no ne ↦ inr (λ e. ne (ap number_of e))
]

-- The two settings have the same value in the field.
abbrev pub Agrees : {G : Type 0} → Field → RuntimeSettings G → RuntimeSettings G → Type 0
Agrees ppo2 s c = c.ppo2_control_mode ≡ s.ppo2_control_mode
Agrees cal s c = c.calibration_mode ≡ s.calibration_mode
Agrees depth s c = c.depth_compensation ≡ s.depth_compensation
Agrees kp s c = c.pid_kp ≡ s.pid_kp
Agrees ki s c = c.pid_ki ≡ s.pid_ki
Agrees kd s c = c.pid_kd ≡ s.pid_kd
Agrees bat s c = c.battery_type ≡ s.battery_type
Agrees bcst s c = c.enforce_broadcast ≡ s.enforce_broadcast
Agrees ident s c = c.divecan_identity ≡ s.divecan_identity
Agrees other s c = Unit

-- Settings that agree in every field are the same.
pub same_settings : {G : Type 0} (s c : RuntimeSettings G) → ((k : Field) → Agrees k s c) → c ≡ s
same_settings s c h = λ i. record {
  ppo2_control_mode = h ppo2 i;
  calibration_mode = h cal i;
  depth_compensation = h depth i;
  pid_kp = h kp i;
  pid_ki = h ki i;
  pid_kd = h kd i;
  battery_type = h bat i;
  enforce_broadcast = h bcst i;
  divecan_identity = h ident i;
}

flag_of-of_flag : (v : Bool) → flag_of (of_flag v) ≡ v
flag_of-of_flag true = refl
flag_of-of_flag false = refl

-- A valid value that is read whole is taken.
fetch-stored :
    {A : Type 0} (size : ℕ) (value : List ℕ → A) (valid : A → Bool) (bytes : List ℕ) (old : A)
    → length bytes ≡ size
    → valid (value bytes) ≡ true
    → fetch size value valid (stored bytes) old ≡ value bytes
fetch-stored size value valid bytes old e v =
    rw (take_all size bytes (omega (arith, e)), e, v) (ground arith)

ppo2_mode-small : (b : Build) (v : ℕ) → ppo2_mode_valid b v ≡ true → v % 256 ≡ v
ppo2_mode-small b v h = ground arith

cal_mode-small : (b : Build) (v : ℕ) → cal_mode_valid b v ≡ true → v % 256 ≡ v
cal_mode-small b v h = ground arith

passed : (t x : Bool) → (if t then false else x) ≡ true → (t ≡ false) × (x ≡ true)
passed true x h = absurd (true≢false (sym h))
passed false x h = (refl, h)

neither : (s t : Bool) → (s || t) ≡ false → (s ≡ false) × (t ≡ false)
neither true t h = absurd (true≢false h)
neither false t h = (refl, h)

not-false : (t : Bool) → not t ≡ false → t ≡ true
not-false true h = refl
not-false false h = absurd (true≢false h)

module _ (b : Build) (g : Gains) where
  -- What a valid value of each field is
  abbrev pub FieldValid : Field → RuntimeSettings g.Gain → Type 0
  FieldValid ppo2 s = ppo2_mode_valid b s.ppo2_control_mode ≡ true
  FieldValid cal s = cal_mode_valid b s.calibration_mode ≡ true
  FieldValid kp s = pid_gain_valid g s.pid_kp ≡ true
  FieldValid ki s = pid_gain_valid g s.pid_ki ≡ true
  FieldValid kd s = pid_gain_valid g s.pid_kd ≡ true
  FieldValid bat s = battery_type_valid s.battery_type ≡ true
  FieldValid ident s = divecan_identity_valid s.divecan_identity ≡ true
  FieldValid _ s = Unit

  pub validate-FieldValid :
      (s : RuntimeSettings g.Gain) (k : Field)
      → runtime_settings_validate b g s ≡ true
      → FieldValid k s
  unfolding runtime_settings_validate
  validate-FieldValid s k h =
      let (p, h₁) = passed _ _ h in
      let (c, h₂) = passed _ _ h₁ in
      let (gains, h₃) = passed _ _ h₂ in
      let (t, h₄) = passed _ _ h₃ in
      let (i, _) = passed _ _ h₄ in
      let (first, others) = neither _ _ gains in
      let (second, third) = neither _ _ others in
      elim k as (λ k. FieldValid k s) [
        | ppo2 ↦ not-false _ p
        | cal ↦ not-false _ c
        | kp ↦ not-false _ first
        | ki ↦ not-false _ second
        | kd ↦ not-false _ third
        | bat ↦ not-false _ t
        | ident ↦ not-false _ i
        | _ ↦ tt
      ]

  -- Reading back what a field was saved as restores the field.
  pub set-Agrees :
      IsMemory g
      → (k : Field) (s c : RuntimeSettings g.Gain) → FieldValid k s
      → Agrees k s (settings_set b g k (stored (bytes_of b g k s)) c).1
  set-Agrees mem ppo2 s c v =
      let same = ppo2_mode-small b s.ppo2_control_mode v in rw same (ground arith)
  set-Agrees mem cal s c v = rw (cal_mode-small b s.calibration_mode v) (ground arith)
  set-Agrees mem depth s c v = flag_of-of_flag s.depth_compensation
  set-Agrees mem kp s c v =
      fetch-stored 4 g.decode (pid_gain_valid g) (g.encode s.pid_kp) c.pid_kp
        (mem.encode_size s.pid_kp) (rw (mem.decode_encode s.pid_kp) v)
      ∙ mem.decode_encode s.pid_kp
  set-Agrees mem ki s c v =
      fetch-stored 4 g.decode (pid_gain_valid g) (g.encode s.pid_ki) c.pid_ki
        (mem.encode_size s.pid_ki) (rw (mem.decode_encode s.pid_ki) v)
      ∙ mem.decode_encode s.pid_ki
  set-Agrees mem kd s c v =
      fetch-stored 4 g.decode (pid_gain_valid g) (g.encode s.pid_kd) c.pid_kd
        (mem.encode_size s.pid_kd) (rw (mem.decode_encode s.pid_kd) v)
      ∙ mem.decode_encode s.pid_kd
  set-Agrees mem bat s c v =
      let same : s.battery_type % 256 ≡ s.battery_type = ground arith in rw (same, v)
  set-Agrees mem bcst s c v = λ i. record {
    cell_0 = flag_of-of_flag s.enforce_broadcast.cell_0 i;
    cell_1 = flag_of-of_flag s.enforce_broadcast.cell_1 i;
    cell_2 = flag_of-of_flag s.enforce_broadcast.cell_2 i;
  }
  set-Agrees mem ident s c v =
      let same : s.divecan_identity % 256 ≡ s.divecan_identity = ground arith in rw (same, v)
  set-Agrees mem other s c v = tt

  abbrev Unless : Field → RuntimeSettings g.Gain → RuntimeSettings g.Gain → Reader → Field → Type 0
  Unless k s c cb k' = k' ≢ k → Agrees k s c → Agrees k s (settings_set b g k' cb c).1

  -- Another key leaves the field.
  pub set_ne-Agrees :
      (k k' : Field) (s c : RuntimeSettings g.Gain) (cb : Reader)
      → k' ≢ k
      → Agrees k s c
      → Agrees k s (settings_set b g k' cb c).1
  set_ne-Agrees ppo2 k' s c cb ne a =
      elim k' as (Unless ppo2 s c cb) [ ppo2 ↦ λ n _. absurd (n refl) | _ ↦ λ n a. a ] ne a
  set_ne-Agrees cal k' s c cb ne a =
      elim k' as (Unless cal s c cb) [ cal ↦ λ n _. absurd (n refl) | _ ↦ λ n a. a ] ne a
  set_ne-Agrees depth k' s c cb ne a =
      elim k' as (Unless depth s c cb) [ depth ↦ λ n _. absurd (n refl) | _ ↦ λ n a. a ] ne a
  set_ne-Agrees kp k' s c cb ne a =
      elim k' as (Unless kp s c cb) [ kp ↦ λ n _. absurd (n refl) | _ ↦ λ n a. a ] ne a
  set_ne-Agrees ki k' s c cb ne a =
      elim k' as (Unless ki s c cb) [ ki ↦ λ n _. absurd (n refl) | _ ↦ λ n a. a ] ne a
  set_ne-Agrees kd k' s c cb ne a =
      elim k' as (Unless kd s c cb) [ kd ↦ λ n _. absurd (n refl) | _ ↦ λ n a. a ] ne a
  set_ne-Agrees bat k' s c cb ne a =
      elim k' as (Unless bat s c cb) [ bat ↦ λ n _. absurd (n refl) | _ ↦ λ n a. a ] ne a
  set_ne-Agrees bcst k' s c cb ne a =
      elim k' as (Unless bcst s c cb) [ bcst ↦ λ n _. absurd (n refl) | _ ↦ λ n a. a ] ne a
  set_ne-Agrees ident k' s c cb ne a =
      elim k' as (Unless ident s c cb) [ ident ↦ λ n _. absurd (n refl) | _ ↦ λ n a. a ] ne a
  set_ne-Agrees other k' s c cb ne a = tt
