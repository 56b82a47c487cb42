-- ===== src/Consensus/Election.antt =====
-- The vote as a function of the trusted readings alone.
use dive_canhead.Base.{
  ℕ, ◌+◌, ◌-◌, ◌≡◌, ◌⊎◌, refl, sym, ◌∙◌, ap, subst, List, [], Bool, true, false, not, ◌&&◌, Option,
  none, some, ltb, ◌==◌, if◌then◌else◌, inl, inr, Bool-cases, either,
}
use dive_canhead.FirmwareConfirm.{CellStatus, cell_ok, cell_degraded, cell_fail, cell_need_cal}
use dive_canhead.Consensus.{
  Floats, ppo2_fail, Cell, Vote, Consensus, one_if, cell_at, ppo2_centibar_to_wire, too_far, settle,
  included_values, two_cell_consensus, min_index, difference, average_of_two, judge,
  three_cell_consensus, load, screen, adopt, one_cell_consensus, vote, consensus_calculate,
}

-- The one status that lets a cell vote
abbrev pub is_healthy : CellStatus → Bool
is_healthy cell_ok = true
is_healthy cell_degraded = false
is_healthy cell_fail = false
is_healthy cell_need_cal = false

-- A cell that is to be believed: its status is OK, its reading neither zero nor the mark of a
-- failure, and its sample recent.
abbrev pub is_trusted : {F : Type 0} → ℕ → ℕ → Cell F → Bool
is_trusted now staleness c =
    is_healthy c.status
    && not (c.ppo2 == 0xFF)
    && not (c.ppo2 == 0)
    && not (ltb staleness (now - c.timestamp))

-- What a cell brings into the vote: both its readings, if it is there and trusted.
unfoldable pub ballot : {F : Type 0} → ℕ → ℕ → Option (Cell F) → Option (ℕ × F)
ballot now staleness none = none
ballot now staleness (some c) =
    if is_trusted now staleness c then some (c.ppo2, c.precision) else none

-- The two results, and which cells voted
pub record Verdict (F : Type 0) : Type 0 where
  pub ppo2 : ℕ
  pub precision : F
  pub voted_1 : Bool
  pub voted_2 : Bool
  pub voted_3 : Bool

abbrev pub verdict : {F : Type 0} → Consensus F → Verdict F
verdict c = record {
  ppo2 = c.consensus_ppo2;
  precision = c.precision_consensus;
  voted_1 = c.vote_1.included;
  voted_2 = c.vote_2.included;
  voted_3 = c.vote_3.included;
}

-- A function of a choice, choice by choice
through :
    {A B : Type 0} (f : A → B) (t : Bool) (a b : A) (a' b' : B)
    → f a ≡ a'
    → f b ≡ b'
    → f (if t then a else b) ≡ (if t then a' else b')
through f true a b a' b' p q = p
through f false a b a' b' p q = q

module _ (fl : Floats) where
  abbrev pub failure : Verdict fl.Float
  failure = record {
    ppo2 = 0xFF;
    precision = fl.constant 0xFF;
    voted_1 = false;
    voted_2 = false;
    voted_3 = false;
  }

  -- The greater of two numbers, and the less
  abbrev pub at_least : fl.Float → fl.Float → fl.Float
  at_least low x = if fl.below x low then low else x

  abbrev pub at_most : fl.Float → fl.Float → fl.Float
  at_most high x = if fl.below high x then high else x

  -- The value in centibar: the mark of a failure above 254, else the nearest integer of 0 to 254
  abbrev pub saturated : fl.Float → ℕ
  saturated centibar =
      if fl.below (fl.constant 254) centibar
      then 0xFF
      else fl.truncate (at_most (fl.constant 254) (at_least (fl.constant 0) (fl.round centibar)))

  abbrev pub decided : fl.Float → fl.Float → Bool → Bool → Bool → Verdict fl.Float
  decided centibar bar a b c = record {
    ppo2 = saturated centibar;
    precision = bar;
    voted_1 = a;
    voted_2 = b;
    voted_3 = c;
  }

  -- How far two readings lie from each other, in bar
  abbrev pub apart : fl.Float → fl.Float → fl.Float
  apart x y = fl.abs (fl.minus x y)

  -- More than 15 centibar
  abbrev pub is_wide : fl.Float → Bool
  is_wide gap = fl.below (fl.constant 15) (fl.times gap (fl.constant 100))

  abbrev pub mean : fl.Float → fl.Float → fl.Float
  mean x y = fl.over (fl.plus x y) (fl.constant 2)

  -- Two cells agree or fail together.
  abbrev pub pair : fl.Float → fl.Float → Bool → Bool → Bool → Verdict fl.Float
  pair x y a b c =
      let centibar = fl.times (mean x y) (fl.constant 100) in
      if is_wide (apart x y)
      then failure
      else decided centibar (fl.over centibar (fl.constant 100)) a b c

  -- Of three cells, the closest two, and the third one against their average
  abbrev pub triple :
      fl.Float → fl.Float → fl.Float → Bool → Bool → Bool → fl.Float → Verdict fl.Float
  triple x y other a b c all =
      if is_wide (apart x y)
      then failure
      else if is_wide (apart other (mean x y))
      then decided (fl.times (mean x y) (fl.constant 100)) (mean x y) a b c
      else decided all (fl.over all (fl.constant 100)) true true true

  -- The closest two of three: a pair wins if no earlier pair is as close and no later one is closer.
  abbrev pub all_three : fl.Float → fl.Float → fl.Float → Verdict fl.Float
  all_three x y z =
      let all = fl.times (fl.over (fl.plus (fl.plus x y) z) (fl.constant 3)) (fl.constant 100) in
      let without_x = triple y z x false true true all in
      let without_y = triple x z y true false true all in
      let without_z = triple x y z true true false all in
      if fl.below (apart x z) (apart x y)
      then if fl.below (apart y z) (apart x z) then without_x else without_y
      else if fl.below (apart y z) (apart x y)
      then without_x
      else without_z

  abbrev pub single : ℕ → fl.Float → Verdict fl.Float
  single p x = record { ppo2 = p; precision = x; voted_1 = false; voted_2 = false; voted_3 = false }

  unfoldable pub elect :
      Option (ℕ × fl.Float) → Option (ℕ × fl.Float) → Option (ℕ × fl.Float) → Verdict fl.Float
  elect none none none = failure
  elect (some (p, x)) none none = single p x
  elect none (some (q, y)) none = single q y
  elect none none (some (r, z)) = single r z
  elect (some (p, x)) (some (q, y)) none = pair x y true true false
  elect (some (p, x)) none (some (r, z)) = pair x z true false true
  elect none (some (q, y)) (some (r, z)) = pair y z false true true
  elect (some (p, x)) (some (q, y)) (some (r, z)) = all_three x y z

  abbrev start : Vote fl.Float → Vote fl.Float → Vote fl.Float → Consensus fl.Float
  start a b c = record {
    consensus_ppo2 = ppo2_fail;
    precision_consensus = fl.constant ppo2_fail;
    vote_1 = a;
    vote_2 = b;
    vote_3 = c;
    confidence = 0;
    reported = [];
  }

  abbrev marked : Bool → Vote fl.Float → Vote fl.Float
  marked b v = record v { included = b }

  abbrev of_vote : Bool → Vote fl.Float → Option (ℕ × fl.Float)
  of_vote b v = if b then some (v.ppo2, v.precision) else none

  settled :
      (centibar bar : fl.Float) (a b c : Vote fl.Float)
      → verdict (settle fl centibar bar (start a b c))
        ≡ decided centibar bar a.included b.included c.included
  unfolding settle ppo2_centibar_to_wire
  settled centibar bar a b c = elim (Bool-cases (fl.below (fl.constant 254) centibar)) [
    | inl e ↦ rw e refl
    | inr e ↦ rw e refl
  ]

  judged :
      (x y other : fl.Float) (a b c : Bool) (u v w : Vote fl.Float)
      → let all =
          fl.times
            (fl.over (fl.plus (fl.plus u.precision v.precision) w.precision) (fl.constant 3))
            (fl.constant 100) in
        verdict (
          judge fl
            (difference fl x y)
            (average_of_two fl x y)
            other
            (start (marked a u) (marked b v) (marked c w))
            (start (marked true u) (marked true v) (marked true w)))
        ≡ triple x y other a b c all
  unfolding judge too_far
  judged x y other a b c u v w = through verdict (is_wide (apart x y)) _ _ _ _ refl (
      through verdict (is_wide (apart other (mean x y))) _ _ _ _
        (settled _ _ (marked a u) (marked b v) (marked c w))
        (settled _ _ (marked true u) (marked true v) (marked true w)))

  -- The choice of the code by the index of the least difference
  closest :
      {A B : Type 0} (f : A → B) (d_0 d_1 d_2 : fl.Float) (a b c : A) (a' b' c' : B)
      → f a ≡ a'
      → f b ≡ b'
      → f c ≡ c'
      → let index = min_index fl d_0 d_1 d_2 in
        f (if index == 0 then a else if index == 1 then b else c) ≡ (
          if fl.below d_1 d_0
          then if fl.below d_2 d_1 then c' else b'
          else if fl.below d_2 d_0
          then c'
          else a')
  unfolding min_index
  closest f d_0 d_1 d_2 a b c a' b' c' p q r = elim (Bool-cases (fl.below d_1 d_0)) [
    | inl e ↦ elim (Bool-cases (fl.below d_2 d_1)) [ inl g ↦ rw (e, g) r | inr g ↦ rw (e, g) q ]
    | inr e ↦ elim (Bool-cases (fl.below d_2 d_0)) [ inl g ↦ rw (e, g) r | inr g ↦ rw (e, g) p ]
  ]

  vote-elect :
      (a b c : Bool) (u v w : Vote fl.Float)
      → verdict (vote fl (start (marked a u) (marked b v) (marked c w)))
        ≡ elect (of_vote a u) (of_vote b v) (of_vote c w)
  unfolding vote elect one_cell_consensus adopt two_cell_consensus included_values
      three_cell_consensus too_far
  vote-elect false false false u v w = refl
  vote-elect true false false u v w = refl
  vote-elect false true false u v w = refl
  vote-elect false false true u v w = refl
  vote-elect true true false u v w =
      through verdict (is_wide (apart u.precision v.precision)) _ _ _ _ refl
        (settled _ _ (marked true u) (marked true v) (marked false w))
  vote-elect true false true u v w =
      through verdict (is_wide (apart u.precision w.precision)) _ _ _ _ refl
        (settled _ _ (marked true u) (marked false v) (marked true w))
  vote-elect false true true u v w =
      through verdict (is_wide (apart v.precision w.precision)) _ _ _ _ refl
        (settled _ _ (marked false u) (marked true v) (marked true w))
  vote-elect true true true u v w =
      closest verdict (apart u.precision v.precision) (apart u.precision w.precision)
        (apart v.precision w.precision) _ _ _ _ _ _
        (judged u.precision v.precision w.precision true true false u v w)
        (judged u.precision w.precision v.precision true false true u v w)
        (judged v.precision w.precision u.precision false true true u v w)

  screen-ballot :
      (now staleness : ℕ) (cell : Option (Cell fl.Float))
      → of_vote (screen fl now staleness cell).included (screen fl now staleness cell)
        ≡ ballot now staleness cell
  unfolding screen load ballot
  screen-ballot now staleness none = refl
  screen-ballot now staleness (some c) = elim (Bool-cases (c.ppo2 == ppo2_fail)) [
    | inl e ↦ elim (Bool-cases (is_healthy c.status)) [
      | inl u ↦ rw (e, u) refl
      | inr u ↦ rw (e, u) refl
    ]
    | inr e ↦ elim (Bool-cases (c.ppo2 == 0)) [
      | inl f ↦ elim (Bool-cases (is_healthy c.status)) [
        | inl u ↦ rw (e, f, u) refl
        | inr u ↦ rw (e, f, u) refl
      ]
      | inr f ↦ elim (Bool-cases (is_healthy c.status)) [
        | inr u ↦ rw (e, f, u) refl
        | inl u ↦ elim (Bool-cases (ltb staleness (now - c.timestamp))) [
          | inl g ↦ rw (e, f, u, g) refl
          | inr g ↦ rw (e, f, u, g) refl
        ]
      ]
    ]
  ]

  -- How many cells a verdict counts
  abbrev votes : Verdict fl.Float → ℕ
  votes v = one_if v.voted_1 + one_if v.voted_2 + one_if v.voted_3

  abbrev IsMajority : Verdict fl.Float → Type 0
  IsMajority v = (votes v ≡ 0) ⊎ (votes v ≡ 2) ⊎ (votes v ≡ 3)

  triple-IsMajority :
      (x y other : fl.Float) (a b c : Bool) (all : fl.Float)
      → one_if a + one_if b + one_if c ≡ 2
      → IsMajority (triple x y other a b c all)
  triple-IsMajority x y other a b c all two =
      either IsMajority (is_wide (apart x y)) _ _ (inl refl)
        (either IsMajority (is_wide (apart other (mean x y))) _ _ (inr (inl two)) (inr (inr refl)))

  elect-IsMajority : (a b c : Option (ℕ × fl.Float)) → IsMajority (elect a b c)
  unfolding elect
  elect-IsMajority none none none = inl refl
  elect-IsMajority (some (p, x)) none none = inl refl
  elect-IsMajority none (some (q, y)) none = inl refl
  elect-IsMajority none none (some (r, z)) = inl refl
  elect-IsMajority (some (p, x)) (some (q, y)) none =
      either IsMajority (is_wide (apart x y)) _ _ (inl refl) (inr (inl refl))
  elect-IsMajority (some (p, x)) none (some (r, z)) =
      either IsMajority (is_wide (apart x z)) _ _ (inl refl) (inr (inl refl))
  elect-IsMajority none (some (q, y)) (some (r, z)) =
      either IsMajority (is_wide (apart y z)) _ _ (inl refl) (inr (inl refl))
  elect-IsMajority (some (p, x)) (some (q, y)) (some (r, z)) =
      either IsMajority (fl.below (apart x z) (apart x y)) _ _
        (either IsMajority (fl.below (apart y z) (apart x z)) _ _
          (triple-IsMajority y z x false true true _ refl)
          (triple-IsMajority x z y true false true _ refl))
        (either IsMajority (fl.below (apart y z) (apart x y)) _ _
          (triple-IsMajority y z x false true true _ refl)
          (triple-IsMajority x y z true true false _ refl))

-- The results of the vote, and which cells it counts, are those of an election among the trusted
-- cells: with none of them a failure; a single one gives its reading and is voted out; two give their
-- average, or a failure if they differ by more than the deviation allowed; of three, the closest two
-- decide whether the third one counts. The readings of a cell that is failed, degraded, not
-- calibrated, stale, or at zero or at the mark of a failure have no influence. This holds for every
-- arithmetic, with at most three cells read.
pub consensus_calculate-elect :
    (fl : Floats) (cells : List (Cell fl.Float)) (now staleness : ℕ)
    → verdict (consensus_calculate fl cells now staleness)
      ≡ elect fl
          (ballot now staleness (cell_at cells 0))
          (ballot now staleness (cell_at cells 1))
          (ballot now staleness (cell_at cells 2))
unfolding consensus_calculate
consensus_calculate-elect fl cells now staleness =
    let a = screen fl now staleness (cell_at cells 0) in
    let b = screen fl now staleness (cell_at cells 1) in
    let c = screen fl now staleness (cell_at cells 2) in
    vote-elect fl a.included b.included c.included a b c
    ∙ ap (λ x. elect fl x (of_vote fl b.included b) (of_vote fl c.included c))
        (screen-ballot fl now staleness (cell_at cells 0))
    ∙ ap (λ y. elect fl (ballot now staleness (cell_at cells 0)) y (of_vote fl c.included c))
        (screen-ballot fl now staleness (cell_at cells 1))
    ∙ ap
        (elect fl (ballot now staleness (cell_at cells 0)) (ballot now staleness (cell_at cells 1)))
        (screen-ballot fl now staleness (cell_at cells 2))

-- The confidence that is published is 0, 2 or 3: one cell alone is never counted as a vote.
pub consensus_calculate-confidence :
    (fl : Floats) (cells : List (Cell fl.Float)) (now staleness : ℕ)
    → let n = (consensus_calculate fl cells now staleness).confidence in (n ≡ 0) ⊎ (n ≡ 2) ⊎ (n ≡ 3)
unfolding consensus_calculate
consensus_calculate-confidence fl cells now staleness =
    let e = consensus_calculate-elect fl cells now staleness in
    subst (IsMajority fl) (sym e) (
      elect-IsMajority fl (ballot now staleness (cell_at cells 0))
        (ballot now staleness (cell_at cells 1)) (ballot now staleness (cell_at cells 2)))
