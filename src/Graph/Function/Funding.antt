-- ===== src/Graph/Function/Funding.antt =====
-- When a channel's balance funds the ticket of a hop.
use hopr_api.Prelude.{
  ℕ, ◌*◌, ◌≤◌, ◌<◌, ◌≡◌, ◌↔◌, ◌⊎◌, inl, inr, true, Option, none, some, arith, Option-cases, leb,
  is_some_and,
}
use hopr_api.Word.{Word, IsUnsigned, u64_mod}
use hopr_api.Graph.Function.{balance_suffices}

module _ {ℓ} {U : Type ℓ} ⦃w : Word U⦄ (laws : IsUnsigned U) where
  open laws use {to_nat, to_nat_lt, to_nat-from, is_zero-eq, le-eq, checked_mul-eq}

  -- There is a balance, and it is worth `hops` tickets of the face value, as integers.
  unfoldable pub Funds : ℕ → U → Option U → Type 0
  Funds hops face none = ⊥
  Funds hops face (some b) = hops * to_nat face ≤ to_nat b

  affords-eq :
      (hops : ℕ) (face b : U)
      → hops < u64_mod
      → is_some_and (w.checked_mul (w.from hops) face) (λ r. w.le r b)
        ≡ leb (hops * to_nat face) (to_nat b)
  affords-eq hops face b h = elim (Option-cases (w.checked_mul (w.from hops) face)) [
    | inl e ↦
        rw e (ground (arith, checked_mul-eq (w.from hops) face, to_nat-from hops h, to_nat_lt b))
    | inr (r, e) ↦
        rw e (ground (arith, checked_mul-eq (w.from hops) face, to_nat-from hops h, le-eq r b))
  ]

  -- A balance suffices exactly when no hop remains, or when there is a balance worth the remaining
  -- hops' tickets. The hops fit 64 bits; that the product may overflow 256 bits, or the face value be 0, changes nothing.
  pub balance_suffices_iff :
      (balance : Option U) (hops : ℕ) (face : U)
      → hops < u64_mod
      → (balance_suffices balance hops face ≡ true) ↔ ((hops ≡ 0) ⊎ Funds hops face balance)
  unfolding balance_suffices Funds
  balance_suffices_iff none hops face h = ground arith
  balance_suffices_iff (some b) hops face h =
      ground (arith, affords-eq hops face b h, is_zero-eq face)
