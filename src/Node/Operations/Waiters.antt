-- ===== src/Node/Operations/Waiters.antt =====
-- Which events resolve the waiters of src/node/incentive.rs.
use hopr_api.Prelude.{◌≡◌, sym, ap, ◌∙◌, Bool, true, arith, Eq}
use hopr_api.Node.Operations.{
  ChainEvent, channel_opened, channel_balance_increased, channel_closed, channel_closure_initiated,
  other_event, opens, funds, closes,
}

-- What an operation waits for: the channel, and the amount where it is funded.
pub data Awaited {ℓ} (I B : Type ℓ) : Type ℓ where
  opening : I → Awaited I B
  funding : I → B → Awaited I B
  closing : I → Awaited I B

same {ℓ} : {A : Type ℓ} ⦃e : Eq A⦄ (a b c : A) → e.beq a b ≡ true → e.beq a c ≡ true → b ≡ c
same ⦃e⦄ a b c h k = sym ((e.beq_iff a b).0 h) ∙ (e.beq_iff a c).0 k

module _ {ℓ} {I B : Type ℓ} ⦃ei : Eq I⦄ ⦃eb : Eq B⦄ where
  -- The closures that the three operations pass to `wait_for_on_chain_event`.
  abbrev pub resolves : Awaited I B → ChainEvent I B → Bool
  resolves (opening id) e = opens id e
  resolves (funding id amount) e = funds id amount e
  resolves (closing id) e = closes id e

  -- One event never resolves two operations that wait for different things: if it resolves the
  -- waiters of both, they open, fund with the same amount, or close the same channel.
  pub resolves_one :
      (x y : Awaited I B) (e : ChainEvent I B) → resolves x e ≡ true → resolves y e ≡ true → x ≡ y
  resolves_one (opening a) (opening b) (channel_opened c) h k = ap opening (same c.id a b h k)
  resolves_one (closing a) (closing b) (channel_closed c) h k = ap closing (same c.id a b h k)
  resolves_one (closing a) (closing b) (channel_closure_initiated c) h k =
      ap closing (same c.id a b h k)
  resolves_one (funding a x) (funding b y) (channel_balance_increased c z) h k =
      ground (arith, h, k, same c.id a b, same z x y)
  resolves_one x y (channel_opened c) h k = cc
  resolves_one x y (channel_balance_increased c z) h k = cc
  resolves_one x y (channel_closed c) h k = cc
  resolves_one x y (channel_closure_initiated c) h k = cc
  resolves_one (opening a) y other_event h k = cc
  resolves_one (funding a x) y other_event h k = cc
  resolves_one (closing a) y other_event h k = cc
