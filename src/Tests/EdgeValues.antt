-- ===== src/Tests/EdgeValues.antt =====
-- The harness of the tests of src/graph/function.rs; the children are the tests.
mod Forward
mod Backward
mod Folds
mod Judged
mod Scores
mod Funded
use hopr_api.Prelude.{
  ℕ, zero, suc, ◌+◌, ◌-◌, ◌*◌, ◌/◌, ◌^◌, Bool, true, false, ◌&&◌, Option, none, some, List, [], ◌∷◌,
  ltb, leb, if◌then◌else◌, is_some_and,
}
use hopr_api.Float.{Float, lt}
use hopr_api.Float.Fixed.{Fixed, nan, plus, minus, fixed_float}
use hopr_api.Word.{Word, nat_word}
use hopr_api.Graph.Traits.{
  LinkObservable, ImmediateMeasurement, IntermediateMeasurement, EdgeObservableRead,
}
use hopr_api.Graph.Function.{EdgeValueFn, forward, returning, forward_without_self_loopback}
use hopr_api.Tests.Fixtures.{
  micros, unit, below_zero, picos, test_penalty, test_min_ack_rate, good_score, good_ack, funded,
  unobserved, observed, with_immediate, with_intermediate, immediate_only, healthy, relayed_only,
  balance_only, unfunded, acking, dead_intermediate, funded_with, connectivity_unknown,
  connectivity_down, Observations,
}

pub data Direction : Type 0 where
  onward : Direction  -- Forward
  backward : Direction  -- Returning
  without_self_loopback : Direction  -- ForwardWithoutSelfLoopback

abbrev constructor_of : Direction → ℕ → Option ℕ → EdgeValueFn Fixed (EdgeObservableRead Fixed ℕ)
constructor_of onward length face = forward length test_penalty test_min_ack_rate face
constructor_of backward length face = returning length test_penalty test_min_ack_rate face
constructor_of without_self_loopback length face =
    forward_without_self_loopback length test_penalty test_min_ack_rate face

-- A length of 0 is the error of `NonZeroUsize::new`.
abbrev pub build :
    Direction → ℕ → Option ℕ → Option (EdgeValueFn Fixed (EdgeObservableRead Fixed ℕ))
build direction zero face = none
build direction (suc n) face = some (constructor_of direction (suc n) face)

abbrev pub value_from : Direction → Option ℕ → ℕ → ℕ → Fixed → Observations → Option Fixed
value_from direction face length index initial o = elim (build direction length face) [
  | none ↦ none
  | some v ↦ some (v.value_fn initial (observed o) index)
]

abbrev pub edge_value : Direction → ℕ → ℕ → Observations → Option Fixed
edge_value direction length index o = value_from direction none length index (micros unit) o

-- A case of a table: an edge, and the value of its snapshot.
pub record Case : Type 0 where
  pub path_length : ℕ
  pub path_index : ℕ
  pub initial_value : Fixed
  pub observations : Observations
  pub result_value : Fixed

abbrev pub case : ℕ → ℕ → Fixed → Observations → Fixed → Case
case length index initial o result = record {
  path_length = length;
  path_index = index;
  initial_value = initial;
  observations = o;
  result_value = result;
}

-- `assert_eq` on two doubles.
abbrev pub same : Fixed → Fixed → Bool
same x y = fixed_float.le x y && fixed_float.le y x

-- `(x - y).abs() < e`, for values that are not negative.
abbrev pub within : ℕ → Fixed → Fixed → Bool
within e (plus a) (plus b) = ltb (a - b) e && ltb (b - a) e
within e _ _ = false

abbrev pub is_positive : Option Fixed → Bool
is_positive v = is_some_and v λ x. lt (plus 0) x

abbrev pub is_negative : Option Fixed → Bool
is_negative v = is_some_and v λ x. lt x (plus 0)

abbrev pub both : (Fixed → Fixed → Bool) → Option Fixed → Option Fixed → Bool
both test x y = is_some_and x λ a. is_some_and y λ b. test a b

abbrev pub assert_edge_value : Direction → Case → Bool
assert_edge_value direction c =
    is_some_and
      (value_from direction none c.path_length c.path_index c.initial_value c.observations)
      λ v. same v c.result_value

abbrev pub directions : List Direction
directions = onward ∷ backward ∷ without_self_loopback ∷ []
