-- ===== src/Consensus.antt =====
-- The vote over the oxygen cells (Firmware/src/oxygen_cell_math.c). The floating-point arithmetic is the
-- argument `fl`: no theorem here needs a law of it.
pub mod Election
mod Examples
use dive_canhead.Base.{
  ℕ, zero, suc, ◌+◌, ◌*◌, ◌-◌, List, [], ◌∷◌, ◌++◌, Bool, true, false, not, ◌&&◌, ◌||◌, Option,
  none, some, ltb, ◌==◌, if◌then◌else◌,
}
use dive_canhead.FirmwareConfirm.{CellStatus, cell_ok, cell_degraded, cell_fail, cell_need_cal}

-- The operations of `PrecisionPPO2_t`: `below a b` is `a < b`, and `truncate` the cast to an integer.
pub record Floats : Type 1 where
  pub Float : Type 0
  pub plus : Float → Float → Float
  pub minus : Float → Float → Float
  pub times : Float → Float → Float
  pub over : Float → Float → Float
  pub abs : Float → Float
  pub round : Float → Float
  pub below : Float → Float → Bool
  pub constant : ℕ → Float
  pub truncate : Float → ℕ

-- PPO2_FAIL and MAX_VALID_PPO2
abbrev pub ppo2_fail : ℕ
ppo2_fail = 0xFF

abbrev pub max_valid_ppo2 : ℕ
max_valid_ppo2 = 254

abbrev pub max_deviation : ℕ
max_deviation = 15

-- `OxygenCellMsg_t`, as far as the vote reads it
pub record Cell (F : Type 0) : Type 0 where
  pub status : CellStatus
  pub ppo2 : ℕ
  pub precision : F
  pub millivolts : ℕ
  pub timestamp : ℕ

-- The entries of the arrays of `ConsensusMsg_t` for one cell
pub record Vote (F : Type 0) : Type 0 where
  pub status : CellStatus
  pub ppo2 : ℕ
  pub precision : F
  pub millivolts : ℕ
  pub included : Bool

-- `ConsensusMsg_t`, and the values that were reported with OP_ERR_MATH, the last one first
pub record Consensus (F : Type 0) : Type 0 where
  pub consensus_ppo2 : ℕ
  pub precision_consensus : F
  pub vote_1 : Vote F
  pub vote_2 : Vote F
  pub vote_3 : Vote F
  pub confidence : ℕ
  pub reported : List F

abbrev pub exclude : {F : Type 0} → Vote F → Vote F
exclude v = record v { included = false }

abbrev pub exclude_all : {F : Type 0} → Consensus F → Consensus F
exclude_all c = record c {
  vote_1 = exclude c.vote_1;
  vote_2 = exclude c.vote_2;
  vote_3 = exclude c.vote_3;
}

abbrev pub one_if : Bool → ℕ
one_if b = if b then 1 else 0

-- `consensus_confidence`, which counts as the screening does
abbrev pub included_count : {F : Type 0} → Consensus F → ℕ
included_count c = one_if c.vote_1.included + one_if c.vote_2.included + one_if c.vote_3.included

-- The status test of the screening
abbrev pub is_usable : CellStatus → Bool
is_usable cell_ok = true
is_usable cell_degraded = false
is_usable cell_fail = false
is_usable cell_need_cal = false

-- The cell at an index of the array of `count` cells
abbrev pub cell_at : {F : Type 0} → List (Cell F) → ℕ → Option (Cell F)
cell_at [] i = none
cell_at (c ∷ cs) zero = some c
cell_at (c ∷ cs) (suc i) = cell_at cs i

module _ (fl : Floats) where
  -- `ppo2_centibar_to_wire`
  unfoldable pub ppo2_centibar_to_wire : fl.Float → ℕ
  ppo2_centibar_to_wire centibar =
      let rounded = fl.round centibar in
      let lower = if fl.below rounded (fl.constant 0) then fl.constant 0 else rounded in
      fl.truncate
        (if fl.below (fl.constant max_valid_ppo2) lower then fl.constant max_valid_ppo2 else lower)

  -- A distance in bar that is more than MAX_DEVIATION in centibar
  unfoldable pub too_far : fl.Float → fl.Float → Bool
  too_far a b =
      fl.below (fl.constant max_deviation) (fl.times (fl.abs (fl.minus a b)) (fl.constant 100))

  -- The write of both results: the average in centibar, saturated, and the one in bar.
  unfoldable pub settle : fl.Float → fl.Float → Consensus fl.Float → Consensus fl.Float
  unfolding ppo2_centibar_to_wire
  settle centibar bar c =
      if fl.below (fl.constant max_valid_ppo2) centibar
      then record c {
        consensus_ppo2 = ppo2_fail;
        precision_consensus = bar;
        reported = centibar ∷ c.reported;
      }
      else record c { consensus_ppo2 = ppo2_centibar_to_wire centibar; precision_consensus = bar }

  -- The first two of the included values, zero where there is none
  unfoldable pub included_values : Consensus fl.Float → fl.Float × fl.Float
  included_values c =
      let zeroth = fl.constant 0 in
      if c.vote_1.included
      then (
        c.vote_1.precision,
        if c.vote_2.included
            then c.vote_2.precision
            else if c.vote_3.included
            then c.vote_3.precision
            else zeroth,
      )
      else if c.vote_2.included
      then (c.vote_2.precision, if c.vote_3.included then c.vote_3.precision else zeroth)
      else (if c.vote_3.included then c.vote_3.precision else zeroth, zeroth)

  -- `two_cell_consensus`
  unfoldable pub two_cell_consensus : Consensus fl.Float → Consensus fl.Float
  unfolding included_values too_far settle
  two_cell_consensus c =
      let (a, b) = included_values c in
      let average = fl.times (fl.over (fl.plus a b) (fl.constant 2)) (fl.constant 100) in
      if too_far a b then exclude_all c else settle average (fl.over average (fl.constant 100)) c

  -- The last two rounds of the search for the least difference; its first round compares a number
  -- with itself.
  unfoldable pub min_index : fl.Float → fl.Float → fl.Float → ℕ
  min_index d_0 d_1 d_2 =
      let least = if fl.below d_1 d_0 then d_1 else d_0 in
      if fl.below d_2 least then 2 else if fl.below d_1 d_0 then 1 else 0

  abbrev pub difference : fl.Float → fl.Float → fl.Float
  difference a b = fl.abs (fl.minus a b)

  abbrev pub average_of_two : fl.Float → fl.Float → fl.Float
  average_of_two a b = fl.over (fl.plus a b) (fl.constant 2)

  -- The branches of `three_cell_consensus` behind the choice of the closest pair: their
  -- difference and average, the value of the remaining cell, and the state without that cell
  unfoldable pub judge :
      fl.Float → fl.Float → fl.Float → Consensus fl.Float → Consensus fl.Float → Consensus fl.Float
  unfolding too_far settle
  judge min_difference average remaining without c =
      let total =
        fl.times
          (fl.over (fl.plus (fl.plus c.vote_1.precision c.vote_2.precision) c.vote_3.precision)
            (fl.constant 3))
          (fl.constant 100) in
      if fl.below (fl.constant max_deviation) (fl.times min_difference (fl.constant 100))
      then exclude_all c
      else if too_far remaining average
      then settle (fl.times average (fl.constant 100)) average without
      else settle total (fl.over total (fl.constant 100)) c

  -- `three_cell_consensus`
  unfoldable pub three_cell_consensus : Consensus fl.Float → Consensus fl.Float
  unfolding min_index judge
  three_cell_consensus c =
      let a = c.vote_1.precision in
      let b = c.vote_2.precision in
      let e = c.vote_3.precision in
      let index = min_index (difference a b) (difference a e) (difference b e) in
      if index == 0
      then judge (difference a b) (average_of_two a b) e (record c { vote_3 = exclude c.vote_3 }) c
      else if index == 1
      then judge (difference a e) (average_of_two a e) b (record c { vote_2 = exclude c.vote_2 }) c
      else judge (difference b e) (average_of_two b e) a (record c { vote_1 = exclude c.vote_1 }) c

  -- The loading of one entry, for a cell of the array or beyond its end
  unfoldable pub load : Option (Cell fl.Float) → Vote fl.Float
  load none = record {
    status = cell_fail;
    ppo2 = 0;
    precision = fl.constant 0;
    millivolts = 0;
    included = false;
  }
  load (some cell) = record {
    status = cell.status;
    ppo2 = cell.ppo2;
    precision = cell.precision;
    millivolts = cell.millivolts;
    included = true;
  }

  -- The screening of one entry
  unfoldable pub screen : ℕ → ℕ → Option (Cell fl.Float) → Vote fl.Float
  unfolding load
  screen now staleness none = load none
  screen now staleness (some cell) =
      let v = load (some cell) in
      if cell.ppo2 == ppo2_fail || cell.ppo2 == 0
      then exclude v
      else if not (is_usable cell.status) || ltb staleness (now - cell.timestamp)
      then exclude v
      else v

  -- A single included cell gives the result, and is voted out.
  unfoldable pub adopt : Vote fl.Float → Consensus fl.Float → Consensus fl.Float
  adopt v c =
      if v.included
      then record c { consensus_ppo2 = v.ppo2; precision_consensus = v.precision }
      else c

  unfoldable pub one_cell_consensus : Consensus fl.Float → Consensus fl.Float
  unfolding adopt
  one_cell_consensus c = exclude_all (adopt c.vote_3 (adopt c.vote_2 (adopt c.vote_1 c)))

  -- The choice by the number of included cells
  unfoldable pub vote : Consensus fl.Float → Consensus fl.Float
  unfolding one_cell_consensus two_cell_consensus three_cell_consensus
  vote c =
      let count = included_count c in
      if count == 0
      then c
      else if count == 1
      then one_cell_consensus c
      else if count == 2
      then two_cell_consensus c
      else three_cell_consensus c

  -- `consensus_calculate`
  unfoldable pub consensus_calculate : List (Cell fl.Float) → ℕ → ℕ → Consensus fl.Float
  unfolding screen vote
  consensus_calculate cells now staleness =
      let c = vote (record {
        consensus_ppo2 = ppo2_fail;
        precision_consensus = fl.constant ppo2_fail;
        vote_1 = screen now staleness (cell_at cells 0);
        vote_2 = screen now staleness (cell_at cells 1);
        vote_3 = screen now staleness (cell_at cells 2);
        confidence = 0;
        reported = [];
      }) in
      record c { confidence = included_count c }
