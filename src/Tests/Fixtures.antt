-- ===== src/Tests/Fixtures.antt =====
-- The stubs and the fixtures in the tests of src/graph/function.rs. A `f64` is a `Fixed`, which
-- counts units of 1e-270 exactly, and a balance a number.
use hopr_api.Prelude.{ℕ, ◌+◌, ◌*◌, ◌/◌, ◌^◌, Bool, true, false, Option, none, some}
use hopr_api.Float.Fixed.{Fixed, nan, plus, minus, fixed_float}
use hopr_api.Word.{nat_word}
use hopr_api.Graph.Traits.{
  LinkObservable, ImmediateMeasurement, IntermediateMeasurement, EdgeObservableRead,
}

-- 1e-6 and 1e-12 are the units of the decimals below.
abbrev pub micros : ℕ → Fixed
micros n = plus (n * 10 ^ 264)

abbrev pub unit : ℕ
unit = 1000000

abbrev pub below_zero : ℕ → Fixed
below_zero n = minus (n * 10 ^ 264)

abbrev pub picos : ℕ → Fixed
picos n = plus (n * 10 ^ 258)

abbrev pub test_penalty : Fixed
test_penalty = micros 500000

abbrev pub test_min_ack_rate : Fixed
test_min_ack_rate = micros 100000

abbrev pub good_score : Fixed
good_score = micros 950000

abbrev pub good_ack : Fixed
good_ack = micros 900000

abbrev pub funded : ℕ
funded = 1000

-- Stubs: what the getters of a stub that a value function may call return.
pub record StubImmediate : Type 0 where
  pub connected : Option Bool
  pub score : Option Fixed
  pub ack_rate : Option Fixed

pub record StubIntermediate : Type 0 where
  pub balance : Option ℕ
  pub score : Option Fixed

pub record Observations : Type 0 where
  pub immediate : Option StubImmediate
  pub intermediate : Option StubIntermediate
  pub health : Option Fixed

-- `Observations::default()`
abbrev pub unobserved : Observations
unobserved = record { immediate = none; intermediate = none; health = none }

-- The latency and the probe rate are `unreachable!`, so no value stands for them.
abbrev link_of : Option Fixed → LinkObservable Fixed
link_of score = record { average_latency = none; average_probe_rate = none; score = score }

abbrev immediate_of : Option StubImmediate → Option (ImmediateMeasurement Fixed)
immediate_of none = none
immediate_of (some i) =
    some (record { link = link_of i.score; is_connected = i.connected; ack_rate = i.ack_rate })

abbrev intermediate_of : Option StubIntermediate → Option (IntermediateMeasurement Fixed ℕ)
intermediate_of none = none
intermediate_of (some m) = some (record { link = link_of m.score; balance = m.balance })

abbrev score_of_immediate : Option StubImmediate → Option Fixed
score_of_immediate none = none
score_of_immediate (some i) = i.score

abbrev score_of_intermediate : Option StubIntermediate → Option Fixed
score_of_intermediate none = none
score_of_intermediate (some m) = m.score

-- No fixture has a negative score, so only non-negative ones are averaged.
abbrev mean : Fixed → Fixed → Fixed
mean (plus a) (plus b) = plus ((a + b) / 2)
mean _ _ = nan

abbrev average_of : Option Fixed → Option Fixed → Option Fixed
average_of (some immediate) (some intermediate) = some (mean immediate intermediate)
average_of (some only) none = some only
average_of none (some only) = some only
average_of none none = none

-- impl EdgeObservableRead for Observations
abbrev pub observed : Observations → EdgeObservableRead Fixed ℕ
observed o = record {
  last_update = 0;
  immediate_qos = immediate_of o.immediate;
  intermediate_qos = intermediate_of o.intermediate;
  score = average_of (score_of_immediate o.immediate) (score_of_intermediate o.intermediate);
  health = o.health;
}

abbrev pub with_immediate : Observations → Option Fixed → Option Fixed → Observations
with_immediate o score ack_rate = record o {
  immediate = some (record { connected = some true; score = score; ack_rate = ack_rate });
}

abbrev pub with_intermediate : Observations → Option ℕ → Option Fixed → Observations
with_intermediate o balance score = record o {
  intermediate = some (record { balance = balance; score = score });
}

abbrev pub immediate_only : Observations
immediate_only = with_immediate unobserved (some good_score) (some good_ack)

abbrev pub healthy : Observations
healthy = with_intermediate immediate_only (some funded) (some good_score)

abbrev pub relayed_only : Observations
relayed_only = with_intermediate unobserved (some funded) (some good_score)

abbrev pub balance_only : Observations
balance_only = with_intermediate unobserved (some funded) none

abbrev pub unfunded : Observations
unfunded = with_intermediate unobserved none (some good_score)

abbrev pub acking : Option Fixed → Observations
acking ack_rate = with_immediate healthy (some good_score) ack_rate

abbrev pub dead_intermediate : Observations
dead_intermediate = with_intermediate healthy (some funded) (some (plus 0))

abbrev pub funded_with : ℕ → Observations
funded_with balance = with_intermediate healthy (some balance) (some good_score)

abbrev pub connectivity_unknown : Observations
connectivity_unknown = record (with_intermediate unobserved (some funded) none) {
  immediate = some (record { connected = none; score = none; ack_rate = none });
}

abbrev disconnect : Option StubImmediate → Option StubImmediate
disconnect none = none
disconnect (some i) = some (record i { connected = some false })

abbrev pub connectivity_down : Observations
connectivity_down = record connectivity_unknown {
  immediate = disconnect connectivity_unknown.immediate;
}
