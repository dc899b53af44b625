-- ===== src/Graph/Function/Ranking/Arms.antt =====
-- The checks and the scoring that the arms of the value functions share keep the ranking.
use hopr_api.Prelude.{
  ℕ, ◌<◌, ◌≡◌, refl, inl, inr, true, Option, none, some, arith, Bool-cases, is_some, Every,
}
use hopr_api.Float.{Float, ◌≼◌, InUnit}
use hopr_api.Float.Laws.{IsIeee}
use hopr_api.Word.{Word, IsUnsigned, u64_mod}
use hopr_api.Graph.Traits.{ImmediateMeasurement, IntermediateMeasurement}
use hopr_api.Graph.Function.{score_or_penalize, apply_ack_rate, balance_suffices, funded_or_reject}
use hopr_api.Graph.Function.Funding.{Funds, balance_suffices_iff}
use hopr_api.Graph.Function.Scaling.{score_or_penalize_bounds}
use hopr_api.Graph.Function.Ranking.{OptionLe, Improves, BalanceLe, RelayedLe}
use hopr_api.Graph.Function.Ranking.Scaling.{rejected-Improves, score_mono, ack_mono}

abbrev pub IsRated {ℓ} : {F : Type ℓ} ⦃f : Float F⦄ → ImmediateMeasurement F → Type 0
IsRated m = Every InUnit m.link.score × Every InUnit m.ack_rate

pub suffices_mono {ℓ} :
    {U : Type ℓ} ⦃w : Word U⦄ (words : IsUnsigned U) (b b' : Option U) (hops : ℕ) (face : U)
    → hops < u64_mod
    → OptionLe (BalanceLe words) b b'
    → balance_suffices b hops face ≡ true
    → balance_suffices b' hops face ≡ true
unfolding Funds
suffices_mono words none none hops face h s e = e
suffices_mono words (some b) (some b') hops face h s e = ground (
  arith,
  balance_suffices_iff words (some b) hops face h,
  balance_suffices_iff words (some b') hops face h,
)
suffices_mono words none (some b') hops face h s e = absurd s
suffices_mono words (some b) none hops face h s e = absurd s

pub same_presence {ℓ} :
    {U : Type ℓ} ⦃w : Word U⦄ (words : IsUnsigned U) (a b : Option U)
    → OptionLe (BalanceLe words) a b
    → is_some a ≡ is_some b
same_presence words none none h = refl
same_presence words (some a) (some b) h = refl
same_presence words none (some b) h = absurd h
same_presence words (some a) none h = absurd h

module _ {ℓ} {F U : Type ℓ} ⦃f : Float F⦄ ⦃w : Word U⦄ (laws : IsIeee F)
    (words : IsUnsigned U) where
  open f use {nought, whole, neg, mul}

  module _ (cost cost' : F) (c : nought ≼ cost) (h : cost ≼ cost') (c' : cost' ≼ whole) where
    pub acked_mono :
        (score score' rate rate' : Option F) (least penalty : F)
        → OptionLe ◌≼◌ score score'
        → OptionLe ◌≼◌ rate rate'
        → Every InUnit score
        → Every InUnit score'
        → Every InUnit rate
        → Every InUnit rate'
        → InUnit penalty
        → Improves
            (apply_ack_rate rate (score_or_penalize cost score penalty) least penalty)
            (apply_ack_rate rate' (score_or_penalize cost' score' penalty) least penalty)
    acked_mono score score' rate rate' least penalty s r m m' k k' q =
        let low =
          score_or_penalize_bounds laws cost score penalty (c, laws.le_trans _ _ _ h c') m q in
        let high =
          score_or_penalize_bounds laws cost' score' penalty (laws.le_trans _ _ _ c h, c') m' q in
        ack_mono laws _ _ rate rate' least penalty low.0
          (score_mono laws cost cost' score score' penalty c h c' s m' q)
          (laws.le_trans _ _ _ high.1 c') r k k' q

    pub funded_mono :
        (m m' : Option (IntermediateMeasurement F U)) (penalty : F) (hops : ℕ) (face : U)
        → hops < u64_mod
        → OptionLe (RelayedLe words) m m'
        → Every (λ m. Every InUnit m.link.score) m'
        → InUnit penalty
        → Improves
            (funded_or_reject m cost penalty hops face)
            (funded_or_reject m' cost' penalty hops face)
    unfolding funded_or_reject
    funded_mono none none penalty hops face u b k q = rejected-Improves laws cost _ c
    funded_mono (some m) (some m') penalty hops face u b k q =
        elim (Bool-cases (balance_suffices m.balance hops face)) [
          | inl e ↦
              rw (e, suffices_mono words m.balance m'.balance hops face u b.balance e)
                (λ _.
                  score_mono laws cost cost' m.link.score m'.link.score penalty c h c' b.score k q)
          | inr e ↦ rw e (rejected-Improves laws cost _ c)
        ]
    funded_mono none (some m') penalty hops face u b k q = absurd b
    funded_mono (some m) none penalty hops face u b k q = absurd b
