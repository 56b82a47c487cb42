-- ===== src/Consensus/Examples.antt =====
-- The vote over three cells, with an arithmetic of whole numbers.
use dive_canhead.Base.{
  ℕ, ◌+◌, ◌*◌, ◌-◌, ◌/◌, ◌≡◌, refl, List, [], ◌∷◌, ltb, if◌then◌else◌, true, false,
}
use dive_canhead.FirmwareConfirm.{cell_ok}
use dive_canhead.Consensus.{Floats, Cell, cell_at, consensus_calculate}
use dive_canhead.Consensus.Election.{ballot, verdict, elect, consensus_calculate-elect}

abbrev whole : Floats
whole = record {
  Float = ℕ;
  plus = λ a b. a + b;
  minus = λ a b. if ltb a b then b - a else a - b;
  times = λ a b. a * b;
  over = λ a b. a / b;
  abs = λ a. a;
  round = λ a. a;
  below = ltb;
  constant = λ n. n;
  truncate = λ a. a;
}

abbrev reading : ℕ → Cell ℕ
reading bar = record {
  status = cell_ok;
  ppo2 = bar * 100;
  precision = bar;
  millivolts = 50;
  timestamp = 90;
}

-- Two cells agree on one bar, the third reads two bar.
abbrev cells : List (Cell ℕ)
cells = reading 1 ∷ reading 2 ∷ reading 1 ∷ []

consensus_calculate-elect_example :
    verdict (consensus_calculate whole cells 100 20)
    ≡ elect whole
        (ballot 100 20 (cell_at cells 0))
        (ballot 100 20 (cell_at cells 1))
        (ballot 100 20 (cell_at cells 2))
consensus_calculate-elect_example = consensus_calculate-elect whole cells 100 20

outlier_is_voted_out :
    verdict (consensus_calculate whole cells 100 20)
    ≡ record { ppo2 = 100; precision = 1; voted_1 = true; voted_2 = false; voted_3 = true }
unfolding consensus_calculate
outlier_is_voted_out = refl
