-- ===== src/Graph/Function/Positive.antt =====
-- Where the first edge of a path leaves it a positive value.
use hopr_api.Prelude.{◌≡◌, false, Option, none, some, arith, Every}
use hopr_api.Float.{Float, lt, ◌≼◌, InUnit, IsPositive}
use hopr_api.Float.Laws.{IsIeee, mul_bounds}
use hopr_api.Word.{Word, IsUnsigned}
use hopr_api.Graph.Function.{apply_ack_rate}
use hopr_api.Graph.Function.Scaling.{Acknowledges}

module _ {ℓ} {F U : Type ℓ} ⦃f : Float F⦄ ⦃w : Word U⦄ (laws : IsIeee F)
    (words : IsUnsigned U) where
  open f use {whole}

  -- A value above a positive one is positive.
  pub lifted : {x y : F} → IsPositive x → x ≼ y → IsPositive y
  lifted (h, p) b = (laws.le_trans _ _ _ h b, λ z. p (laws.le_trans _ _ _ b z))

  not_below : {rate least : F} → InUnit rate → InUnit least → lt rate least ≡ false → least ≼ rate
  not_below {rate = rate} {least = least} r l a =
      ground (arith, laws.le_total rate least (laws.num_of_le _ _ r.1).0 (laws.num_of_le _ _ l.1).0)

  pub lowest_pos :
      {cost c : F}
      → InUnit cost
      → InUnit c
      → IsPositive (f.mul (f.mul cost f.tiny) c)
      → IsPositive (f.mul cost f.tiny)
  lowest_pos {cost = cost} {c = c} u i p =
      let (a, b) = mul_bounds laws cost f.tiny u (laws.nought-le-tiny, laws.tiny-le-whole) in
      lifted p (mul_bounds laws _ c (a, laws.le_trans _ _ _ b u.1) i).1

  -- What an acknowledged edge leaves of a value is positive, where the rate is the least one at
  -- least and neither the least one nor the penalty takes the lowest value to 0.0.
  pub acked_pos :
      (rate : Option F) (cost base least penalty : F)
      → IsPositive (f.mul cost f.tiny)
      → f.mul cost f.tiny ≼ base
      → base ≼ whole
      → Every InUnit rate
      → InUnit penalty
      → InUnit least
      → IsPositive (f.mul (f.mul cost f.tiny) penalty)
      → IsPositive (f.mul (f.mul cost f.tiny) least)
      → Acknowledges least rate
      → IsPositive (apply_ack_rate rate base least penalty)
  unfolding apply_ack_rate
  acked_pos none cost base least penalty p b c r q l pen low a =
      lifted pen (laws.mul_mono _ _ _ _ p.0 b c q.0 (laws.num_of_le _ _ q.0).1 q.1)
  acked_pos (some rate) cost base least penalty p b c r q l pen low a =
      rw a (lifted low (laws.mul_mono _ _ _ _ p.0 b c l.0 (not_below r l a) r.1))
