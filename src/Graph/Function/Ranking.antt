-- ===== src/Graph/Function/Ranking.antt =====
-- When the observations of one edge in src/graph/function.rs are at least as good as those of another.
pub mod Scaling
pub mod Arms
pub mod Edges
pub mod Values
pub mod Paths
use hopr_api.Prelude.{ℕ, ◌≤◌, ◌≡◌, Option, none, some, List, [], ◌∷◌}
use hopr_api.Float.{Float, ◌≼◌, IsPositive}
use hopr_api.Word.{Word, IsUnsigned}
use hopr_api.Graph.Traits.{ImmediateMeasurement, IntermediateMeasurement, EdgeObservableRead}
use hopr_api.Graph.Function.{not_disconnected}

-- Both are missing, or both are there and in the relation.
abbrev pub OptionLe {ℓ} : {A : Type ℓ} → (A → A → Type 0) → Option A → Option A → Type 0
OptionLe R none none = Unit
OptionLe R (some a) (some b) = R a b
OptionLe R _ _ = ⊥

module _ {ℓ} {F : Type ℓ} ⦃f : Float F⦄ where
  -- As connected, scored and acknowledged at least as well.
  pub record DirectLe (m m' : ImmediateMeasurement F) : Type 0 where
    pub connected : not_disconnected m.is_connected ≡ not_disconnected m'.is_connected
    pub score : OptionLe ◌≼◌ m.link.score m'.link.score
    pub rate : OptionLe ◌≼◌ m.ack_rate m'.ack_rate

  -- A value that is positive is no higher than the other one.
  abbrev pub Improves : F → F → Type 0
  Improves v v' = IsPositive v → v ≼ v'

abbrev pub BalanceLe {ℓ} : {U : Type ℓ} ⦃w : Word U⦄ → IsUnsigned U → U → U → Type 0
BalanceLe words b b' = words.to_nat b ≤ words.to_nat b'

module _ {ℓ} {F U : Type ℓ} ⦃f : Float F⦄ ⦃w : Word U⦄ (words : IsUnsigned U) where
  -- A balance no lower, and a score no lower.
  pub record RelayedLe (m m' : IntermediateMeasurement F U) : Type 0 where
    pub balance : OptionLe (BalanceLe words) m.balance m'.balance
    pub score : OptionLe ◌≼◌ m.link.score m'.link.score

  -- The same kinds of observations, each at least as good.
  pub record IsBetter (o o' : EdgeObservableRead F U) : Type 0 where
    pub aggregate : OptionLe ◌≼◌ o.score o'.score
    pub direct : OptionLe DirectLe o.immediate_qos o'.immediate_qos
    pub relayed : OptionLe RelayedLe o.intermediate_qos o'.intermediate_qos
    pub health : OptionLe ◌≼◌ o.health o'.health

  abbrev pub BetterEach : List (EdgeObservableRead F U) → List (EdgeObservableRead F U) → Type 0
  BetterEach [] [] = Unit
  BetterEach (o ∷ os) (o' ∷ os') = IsBetter o o' × BetterEach os os'
  BetterEach _ _ = ⊥
