-- ===== src/Tickets/Neglect.antt =====
-- src/tickets/mod.rs: the operations of `TicketManagement` on the state that a ticket manager keeps,
-- as the trait documents them, and what neglecting tickets before redeeming leaves to redeem.
use hopr_api.Prelude.{
  ℕ, ◌+◌, ◌≡◌, ◌⊎◌, inl, inr, Bool, true, not, Option, none, some, List, [], ◌∷◌, map, Memᴰ, Result,
  ok, Eq, leb, Bool-cases, if◌then◌else◌,
}
use hopr_api.Chain.Channels.{ChannelEntry}
use hopr_api.Chain.Channels.Redeemable.{RedeemableAt}
use hopr_api.Tickets.{
  Client, ChannelStats, RedemptionResult, as_ref, requested, redeem_all_tickets,
  pending_to_close_redemption_tolerance,
}
use hopr_api.Tickets.Merge.{Merges}
use hopr_api.Tickets.Queue.{HonoursQueues}
use hopr_api.Tickets.Redemption.{Honours}
use hopr_api.Tickets.Settled.{settled_iff}

-- `S` is the state of the manager, `I` the type of channels, `T` of redeemable tickets, `V` of verified
-- ones, `R` what a stream yields. An operation that changes the state returns the new one.
pub record TicketManagement {ℓ} (S I T V B R Z : Type ℓ) : Type ℓ where
  pub redeem_stream : S → I → Option B → Result (List R) Z
  pub neglect_tickets : I → Option ℕ → S → Result (List V × S) Z
  pub ticket_stats : S → Option I → Result (ChannelStats B) Z
  pub insert_incoming_ticket : T → S → Result (List V × S) Z

module _ {ℓ} {V : Type ℓ} where
  abbrev pub picked : (V → Bool) → List V → List V
  picked test [] = []
  picked test (t ∷ ts) = let rest = picked test ts in if test t then t ∷ rest else rest

  -- The ticket's index is at most the one given, if any.
  abbrev pub is_up_to : (V → ℕ) → Option ℕ → V → Bool
  is_up_to index none t = true
  is_up_to index (some most) t = leb (index t) most

  pub picked-or_not :
      (test : V → Bool) {t : V} (ts : List V)
      → Memᴰ t ts
      → Memᴰ t (picked test ts) ⊎ Memᴰ t (picked (λ u. not (test u)) ts)
  picked-or_not test [] m = elim m [ ]
  picked-or_not test (u ∷ ts) (Memᴰ.head e) = elim (Bool-cases (test u)) [
    | inl h ↦ inl (rw h (Memᴰ.head e))
    | inr h ↦ inr (rw h (Memᴰ.head e))
  ]
  picked-or_not test (u ∷ ts) (Memᴰ.tail m) =
      let rest = picked-or_not test ts m in
      elim (Bool-cases (test u)) [
        | inl h ↦ elim rest [ inl k ↦ inl (rw h (Memᴰ.tail k)) | inr k ↦ inr (rw h k) ]
        | inr h ↦ elim rest [ inl k ↦ inl (rw h k) | inr k ↦ inr (rw h (Memᴰ.tail k)) ]
      ]

module _ {ℓ} {S I T V B R Z : Type ℓ} (manager : TicketManagement S I T V B R Z) (index : V → ℕ)
    (queue : S → I → List V) where
  -- Neglecting takes the tickets up to the index, in their order, out of the queue of the channel.
  abbrev pub NeglectsUpTo : Type ℓ
  NeglectsUpTo =
      (id : I) (most : Option ℕ) (s after : S) (ts : List V)
      → manager.neglect_tickets id most s ≡ ok (ts, after)
      → (ts ≡ picked (is_up_to index most) (queue s id))
        × (queue after id ≡ picked (λ t. not (is_up_to index most t)) (queue s id))

module _ {ℓ} {A I E S T V B X Z : Type ℓ} ⦃ea : Eq A⦄ ⦃ei : Eq I⦄ (below : V → B → Bool)
    (index : V → ℕ) (client : Client A I E) (known : List (ChannelEntry A I))
    (manager : TicketManagement S I T V B (Result (RedemptionResult V X) Z) Z)
    (queue : S → I → List V)
    (merge : List (List (Result (RedemptionResult V X) Z))
      → List (Result (RedemptionResult V X) Z)) where
  -- When the tickets of a channel up to an index are neglected and then redeeming all tickets
  -- succeeds, every ticket that was queued in the channel is either among the neglected ones or
  -- among the settled ones: none is left or lost. The channel is a known one towards this node in
  -- which tickets can be redeemed for at least the tolerance, and its stream can be opened; the
  -- chain's client honours selectors, the manager keeps its queues as documented, and `merge` yields
  -- the items of streams, each stream's in its order.
  pub neglected_or_settled :
      (id : I) (most : Option ℕ) (s after : S) (ts : List V) (min_value : B)
      (cs : List (ChannelEntry A I)) (rs : List (RedemptionResult V X)) (c : ChannelEntry A I)
      (stream : List (Result (RedemptionResult V X) Z)) (t : V)
      → NeglectsUpTo manager index queue
      → Honours client (manager.redeem_stream after) known
      → HonoursQueues below (queue after) (manager.redeem_stream after)
      → ((ss : List (List (Result (RedemptionResult V X) Z))) → Merges ss (merge ss))
      → manager.neglect_tickets id most s ≡ ok (ts, after)
      → client.stream_channels (requested client none (some pending_to_close_redemption_tolerance))
        ≡ ok cs
      → redeem_all_tickets client (manager.redeem_stream after) merge min_value ≡ ok rs
      → c.id ≡ id
      → Memᴰ c known
      → c.destination ≡ client.me
      → RedeemableAt (client.now + pending_to_close_redemption_tolerance) c.status
      → manager.redeem_stream after c.id (some min_value) ≡ ok stream
      → Memᴰ t (queue s id)
      → Memᴰ t ts ⊎ Memᴰ t (map as_ref rs)
  neglected_or_settled id most s after ts min_value cs rs c stream t neglects honours queues merges
        gone answered redeemed same known_c to open_at opened queued =
      let (taken, left) = neglects id most s after ts gone in
      let settled =
        settled_iff below client known (queue after) (manager.redeem_stream after) merge min_value
          cs rs honours queues merges answered redeemed t in
      elim (picked-or_not (is_up_to index most) (queue s id) queued) [
        | inl m ↦ inl (rw taken m)
        | inr m ↦
            inr (settled.1 (c, stream, (known_c, (tt, to, open_at), opened, rw (same, left) m)))
      ]
