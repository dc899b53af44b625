-- ===== src/Graph/Function.antt =====
-- src/graph/function.rs: the value functions that score a path edge by edge. The helpers take the
-- observation's getters; each constructor returns the record with its closure.
pub mod Scaling
pub mod Funding
pub mod Rejection
pub mod Positive
pub mod Inner
pub mod Accepted
pub mod Last
pub mod Arms
pub mod Bounds
pub mod Discovery
pub mod Survival
pub mod Returning
pub mod Ranking
pub mod Looser
pub mod Relays
use hopr_api.Prelude.{
  ℕ, suc, ◌+◌, ◌-◌, ◌%◌, ◌<◌, ◌≡◌, Bool, true, false, not, ◌&&◌, Option, none, some, ltb, leb, ◌==◌,
  if◌then◌else◌, is_some, is_some_and, unwrap_or,
}
use hopr_api.Float.{Float, lt, is_nan, fmax, fmin, clamp_unit}
use hopr_api.Word.{Word, u64_mod}
use hopr_api.Graph.Traits.{ImmediateMeasurement, IntermediateMeasurement, EdgeObservableRead}

-- A rejected edge is negative, a path's value starts at 1.0 and its minimum is 0.0.
pub record EdgeValueFn {ℓ} (C W : Type ℓ) : Type ℓ where
  pub initial : C
  pub min : Option C
  pub value_fn : C → W → ℕ → C

module _ {ℓ} {F : Type ℓ} ⦃f : Float F⦄ where
  open f use {nought, whole, tiny, neg, mul, le}

  unfoldable pub score_or_penalize : F → Option F → F → F
  score_or_penalize cost score penalty = mul cost (fmax (unwrap_or score penalty) tiny)

  -- `health.filter(|health| !health.is_nan())`
  abbrev pub judged : Option F → Option F
  judged none = none
  judged (some h) = if is_nan h then none else some h

  scale_by_judged : F → Option F → F
  scale_by_judged value (some h) = if le h nought then neg value else mul value (fmin h whole)
  scale_by_judged value none = value

  -- The first arm of the match is taken whatever the health is.
  unfoldable pub scale_by_health : F → Option F → F
  unfolding scale_by_judged
  scale_by_health value health =
      if le value nought then value else scale_by_judged value (judged health)

  unfoldable pub apply_ack_rate : Option F → F → F → F → F
  apply_ack_rate (some rate) cost min_ack_rate penalty =
      if lt rate min_ack_rate then neg cost else mul cost rate
  apply_ack_rate none cost min_ack_rate penalty = mul cost penalty

module _ {ℓ} {U : Type ℓ} ⦃w : Word U⦄ where
  abbrev pub default_ticket_face_value : U
  default_ticket_face_value = w.one

  -- `remaining_hops as u64` loses nothing: a `usize` has at most 64 bits.
  unfoldable pub balance_suffices : Option U → ℕ → U → Bool
  balance_suffices balance remaining_hops face_value =
      if remaining_hops == 0
      then true
      else if w.is_zero face_value
      then is_some balance
      else is_some_and balance λ b.
        is_some_and (w.checked_mul (w.from remaining_hops) face_value) λ required. w.le required b

-- What a constructor's closure captures, after clamping and defaulting.
pub record Terms {ℓ} (F U : Type ℓ) : Type ℓ where
  pub length : ℕ
  pub penalty : F
  pub min_ack_rate : F
  pub face_value : U

-- `is_connected() != Some(false)`
abbrev pub not_disconnected : Option Bool → Bool
not_disconnected (some false) = false
not_disconnected (some true) = true
not_disconnected none = true

module _ {ℓ} {F U : Type ℓ} ⦃f : Float F⦄ ⦃w : Word U⦄ where
  open f use {nought, whole, neg, mul}

  pub funded_or_reject : Option (IntermediateMeasurement F U) → F → F → ℕ → U → F
  funded_or_reject (some intermediate) cost penalty hops face_value =
      if balance_suffices intermediate.balance hops face_value
      then score_or_penalize cost intermediate.link.score penalty
      else neg cost
  funded_or_reject none cost penalty hops face_value = neg cost

  unfoldable pub require_funding : EdgeObservableRead F U → F → F → ℕ → U → F
  unfolding funded_or_reject
  require_funding o cost penalty hops face_value =
      funded_or_reject o.intermediate_qos cost penalty hops face_value

  first_edge_on :
      Terms F U
      → F
      → Option F
      → Option (ImmediateMeasurement F)
      → Option (IntermediateMeasurement F U)
      → F
  first_edge_on t cost score (some immediate) (some intermediate) =
      if not_disconnected immediate.is_connected
        && balance_suffices intermediate.balance (t.length - 1) t.face_value
      then apply_ack_rate immediate.ack_rate (score_or_penalize cost score t.penalty) t.min_ack_rate
          t.penalty
      else neg cost
  first_edge_on t cost score _ _ = neg cost

  -- The arm of index 0 in `forward` and in `forward_without_self_loopback`.
  unfoldable pub first_edge : Terms F U → F → EdgeObservableRead F U → F
  unfolding first_edge_on
  first_edge t cost o = first_edge_on t cost o.score o.immediate_qos o.intermediate_qos

  -- A direct route also enforces the acknowledgement rate.
  direct_rate : Terms F U → F → Option (ImmediateMeasurement F) → F
  direct_rate t base none = base
  direct_rate t base (some immediate) =
      if t.length == 1
      then apply_ack_rate immediate.ack_rate base t.min_ack_rate t.penalty
      else base

  last_by_connection : Terms F U → F → Option (ImmediateMeasurement F) → F
  unfolding direct_rate
  last_by_connection t cost none = mul cost t.penalty
  last_by_connection t cost (some immediate) =
      if not_disconnected immediate.is_connected
      then direct_rate t (score_or_penalize cost immediate.link.score t.penalty) (some immediate)
      else mul cost t.penalty

  last_by_balance :
      Terms F U → F → Option (ImmediateMeasurement F) → Option (IntermediateMeasurement F U) → F
  unfolding last_by_connection direct_rate
  last_by_balance t cost immediate none = last_by_connection t cost immediate
  last_by_balance t cost immediate (some intermediate) =
      if is_some intermediate.balance
      then direct_rate t (score_or_penalize cost intermediate.link.score t.penalty) immediate
      else last_by_connection t cost immediate

  -- The last edge of `forward`: an intermediate balance, else connectivity, else the penalty.
  unfoldable pub last_edge : Terms F U → F → EdgeObservableRead F U → F
  unfolding last_by_balance
  last_edge t cost o = last_by_balance t cost o.immediate_qos o.intermediate_qos

  return_edge_on : Terms F U → F → Option (ImmediateMeasurement F) → F
  return_edge_on t cost none = neg cost
  return_edge_on t cost (some immediate) =
      if not_disconnected immediate.is_connected
      then apply_ack_rate immediate.ack_rate (score_or_penalize cost immediate.link.score t.penalty)
          t.min_ack_rate t.penalty
      else neg cost

  -- The last edge of `returning`, from the last relay to this node.
  unfoldable pub return_edge : Terms F U → F → EdgeObservableRead F U → F
  unfolding return_edge_on
  return_edge t cost o = return_edge_on t cost o.immediate_qos

  -- The three closures `edge_value`, arm by arm; a path's edges are numbered from 0.
  unfoldable pub forward_edge_value : Terms F U → F → EdgeObservableRead F U → ℕ → F
  forward_edge_value t cost o index =
      if index == t.length - 1
      then last_edge t cost o
      else if index == 0
      then first_edge t cost o
      else if leb t.length index
      then neg cost
      else require_funding o cost t.penalty (t.length - index - 1) t.face_value

  unfoldable pub returning_edge_value : Terms F U → F → EdgeObservableRead F U → ℕ → F
  returning_edge_value t cost o index =
      if index == t.length - 1
      then return_edge t cost o
      else if leb t.length index
      then neg cost
      else require_funding o cost t.penalty (t.length - index - 1) t.face_value

  unfoldable pub loopback_edge_value : Terms F U → F → EdgeObservableRead F U → ℕ → F
  loopback_edge_value t cost o index =
      if index == 0
      then first_edge t cost o
      else if leb t.length index
      then neg cost
      else require_funding o cost t.penalty (t.length - index - 1) t.face_value

  -- Every edge but the last is scaled by the relayer's health. `path_index + 1` wraps as a `usize`.
  unfoldable pub but_last_by_health :
      ℕ → (F → EdgeObservableRead F U → ℕ → F) → F → EdgeObservableRead F U → ℕ → F
  but_last_by_health length edge_value cost o index =
      if ltb ((index + 1) % u64_mod) length
      then scale_by_health (edge_value cost o index) o.health
      else edge_value cost o index

  -- The clamping and defaulting with which each constructor begins.
  unfoldable pub terms : ℕ → F → F → Option U → Terms F U
  terms length penalty min_ack_rate face_value = record {
    length = length;
    penalty = clamp_unit penalty;
    min_ack_rate = clamp_unit min_ack_rate;
    face_value = unwrap_or face_value default_ticket_face_value;
  }

  -- `length` is a `NonZeroUsize`: the theorems suppose that it is at least 1.
  unfoldable pub forward : ℕ → F → F → Option U → EdgeValueFn F (EdgeObservableRead F U)
  forward length penalty min_ack_rate face_value = record {
    initial = whole;
    min = some nought;
    value_fn =
        but_last_by_health length
          (forward_edge_value (terms length penalty min_ack_rate face_value));
  }

  unfoldable pub returning : ℕ → F → F → Option U → EdgeValueFn F (EdgeObservableRead F U)
  returning length penalty min_ack_rate face_value = record {
    initial = whole;
    min = some nought;
    value_fn =
        but_last_by_health length
          (returning_edge_value (terms length penalty min_ack_rate face_value));
  }

  unfoldable pub forward_without_self_loopback :
      ℕ → F → F → Option U → EdgeValueFn F (EdgeObservableRead F U)
  forward_without_self_loopback length penalty min_ack_rate face_value = record {
    initial = whole;
    min = some nought;
    value_fn = λ cost o index.
        scale_by_health
          (loopback_edge_value (terms length penalty min_ack_rate face_value) cost o index)
          o.health;
  }
