-- ===== src/Graph/Function/Ranking/Scaling.antt =====
-- The helpers of src/graph/function.rs never rank a better observation lower.
use hopr_api.Prelude.{◌≡◌, refl, inl, inr, false, Option, none, some, arith, Bool-cases, Every}
use hopr_api.Float.{Float, fmax, fmin, ◌≼◌, InUnit}
use hopr_api.Float.Laws.{
  IsIeee, nought_num, whole_num, neg-le_of_nonneg, tiny-le-fmax, fmax_tiny-le,
}
use hopr_api.Graph.Function.{
  score_or_penalize, judged, scale_by_judged, scale_by_health, apply_ack_rate,
}
use hopr_api.Graph.Function.Scaling.{fmin-InUnit}
use hopr_api.Graph.Function.Ranking.{OptionLe, Improves}

module _ {ℓ} {F : Type ℓ} ⦃f : Float F⦄ (laws : IsIeee F) where
  open f use {nought, whole, tiny, neg, mul, le}
  open laws use {num_of_le, le_trans, le_total, mul_mono}

  fmax_tiny_mono : (x y : F) → x ≼ y → fmax x tiny ≼ fmax y tiny
  fmax_tiny_mono x y h = ground (
    arith,
    num_of_le x y h,
    num_of_le tiny whole laws.tiny-le-whole,
    le_trans x y tiny h,
    tiny-le-fmax laws y,
    le_total x tiny,
  )

  fmin_whole_mono : (x y : F) → x ≼ y → fmin x whole ≼ fmin y whole
  fmin_whole_mono x y h = ground (
    arith,
    num_of_le x y h,
    whole_num laws,
    le_trans whole x y,
    le_total x whole,
    le_total y whole,
  )

  -- A rejected edge is never better than another.
  pub rejected-Improves : (cost : F) (v : F) → nought ≼ cost → Improves (neg cost) v
  rejected-Improves cost v c p = absurd (p.1 (neg-le_of_nonneg laws cost c))

  pub score_mono :
      (cost cost' : F) (score score' : Option F) (penalty : F)
      → nought ≼ cost
      → cost ≼ cost'
      → cost' ≼ whole
      → OptionLe ◌≼◌ score score'
      → Every InUnit score'
      → InUnit penalty
      → score_or_penalize cost score penalty ≼ score_or_penalize cost' score' penalty
  unfolding score_or_penalize
  score_mono cost cost' none none penalty a b c s r q =
      mul_mono _ _ _ _ a b c (le_trans _ _ _ laws.nought-le-tiny (tiny-le-fmax laws penalty))
        (fmax_tiny_mono penalty penalty (num_of_le _ _ q.1).0) (fmax_tiny-le laws penalty q.1)
  score_mono cost cost' (some x) (some y) penalty a b c s r q =
      mul_mono _ _ _ _ a b c (le_trans _ _ _ laws.nought-le-tiny (tiny-le-fmax laws x))
        (fmax_tiny_mono x y s) (fmax_tiny-le laws y r.1)
  score_mono cost cost' none (some y) penalty a b c s r q = absurd s
  score_mono cost cost' (some x) none penalty a b c s r q = absurd s

  pub ack_mono :
      (base base' : F) (rate rate' : Option F) (least penalty : F)
      → nought ≼ base
      → base ≼ base'
      → base' ≼ whole
      → OptionLe ◌≼◌ rate rate'
      → Every InUnit rate
      → Every InUnit rate'
      → InUnit penalty
      → Improves (apply_ack_rate rate base least penalty) (apply_ack_rate rate' base' least penalty)
  unfolding apply_ack_rate
  ack_mono base base' none none least penalty a b c s r r' q =
      λ _. mul_mono _ _ _ _ a b c q.0 (num_of_le _ _ q.1).0 q.1
  ack_mono base base' (some x) (some y) least penalty a b c s r r' q = ground (
    arith,
    rejected-Improves base (mul base' y) a,
    rejected-Improves base (neg base') a,
    mul_mono base base' x y a b c r.0 s r'.1,
    le_trans x y least s,
    le_trans least x y,
  )
  ack_mono base base' none (some y) least penalty a b c s r r' q = absurd s
  ack_mono base base' (some x) none least penalty a b c s r r' q = absurd s

  stays_above : (v v' : F) → v ≼ v' → le v nought ≡ false → le v' nought ≡ false
  stays_above v v' h e = ground (arith, le_trans v v' nought h)

  judged_num : (x : F) → x ≼ x → judged (some x) ≡ some x
  judged_num x h = rw h refl

  negated_below : (v : F) → le v nought ≡ false → ¬ (nought ≼ neg v)
  negated_below v e h =
      ground
        (arith, laws.le-neg nought v, le_trans (neg nought) nought (neg v) laws.neg-le-nought h)

  judged_mono :
      (v v' x y : F)
      → InUnit v
      → v ≼ v'
      → v' ≼ whole
      → le v nought ≡ false
      → x ≼ y
      → Improves (scale_by_judged v (some x)) (scale_by_judged v' (some y))
  unfolding scale_by_judged
  judged_mono v v' x y v0 h w e s = elim (Bool-cases (le x nought)) [
    | inl a ↦ λ p. absurd (negated_below v e (rw a at p.0))
    | inr a ↦ λ p.
        rw (stays_above x y s a, a)
          (mul_mono _ _ _ _ v0.0 h w (fmin-InUnit laws x (num_of_le _ _ s).0 a).0
            (fmin_whole_mono x y s)
            (fmin-InUnit laws y (num_of_le _ _ s).1 (stays_above x y s a)).1)
  ]

  judged-Improves :
      (v v' : F) (health health' : Option F)
      → InUnit v
      → v ≼ v'
      → v' ≼ whole
      → le v nought ≡ false
      → OptionLe ◌≼◌ health health'
      → Improves (scale_by_judged v (judged health)) (scale_by_judged v' (judged health'))
  judged-Improves v v' none none v0 h w e s = unfold scale_by_judged in λ _. h
  judged-Improves v v' (some x) (some y) v0 h w e s =
      rw (judged_num x (num_of_le _ _ s).0, judged_num y (num_of_le _ _ s).1)
        (judged_mono v v' x y v0 h w e s)
  judged-Improves v v' none (some y) v0 h w e s = absurd s
  judged-Improves v v' (some x) none v0 h w e s = absurd s

  -- Scaling by a health no lower keeps an improvement.
  pub health_mono :
      (v v' : F) (health health' : Option F)
      → v ≼ whole
      → v' ≼ whole
      → OptionLe ◌≼◌ health health'
      → Improves v v'
      → Improves (scale_by_health v health) (scale_by_health v' health')
  unfolding scale_by_health
  health_mono v v' health health' u w s i = elim (Bool-cases (le v nought)) [
    | inl e ↦ λ p. absurd ((rw e at p).1 e)
    | inr e ↦
        let v0 : InUnit v =
          (ground (arith, le_total v nought (num_of_le _ _ u).0 (nought_num laws)), u) in
        let h = i (v0.0, λ z. cc (z, e)) in
        rw (e, stays_above v v' h e) (judged-Improves v v' health health' v0 h w e s)
  ]
