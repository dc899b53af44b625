-- ===== src/Tickets/Value.antt =====
-- src/tickets/mod.rs and src/node/incentive.rs: the value of tickets when all are redeemed: what is
-- redeemed, rejected, neglected and left makes up what was queued.
use hopr_api.Prelude.{
  ℕ, suc, ◌+◌, ◌*◌, ◌≤◌, ◌<◌, ◌≡◌, refl, Bool, Option, none, some, List, [], ◌∷◌, map, Result, ok,
  ltb, arith,
}
use hopr_api.Chain.Channels.{ChannelEntry}
use hopr_api.Tickets.{
  Client, RedemptionResult, redeemed, value_too_low, rejected_on_chain, requested,
  redeem_all_tickets, pending_to_close_redemption_tolerance,
}
use hopr_api.Tickets.Merge.{Takes, this, other, Merges}
use hopr_api.Tickets.Queue.{
  Settles, redeems, rejects, neglects, Extracts, rests, extracts, Redeemed, succeeds, HonoursQueues,
}
use hopr_api.Tickets.Draining.{opened_queues, redeem_all_drains}

-- `value` is the worth of a ticket.
module _ {ℓ} {V : Type ℓ} (value : V → ℕ) where
  abbrev pub queue_value : List V → ℕ
  queue_value [] = 0
  queue_value (t ∷ q) = value t + queue_value q

  abbrev pub total_value : List (List V) → ℕ
  total_value [] = 0
  total_value (q ∷ qs) = queue_value q + total_value qs

  total_value-Takes :
      {t : V} {qs next : List (List V)}
      → Takes qs t next
      → total_value qs ≡ value t + total_value next
  total_value-Takes this = omega arith
  total_value-Takes (other k) = let h = total_value-Takes k in omega arith

  emptied_value : (qs : List (List V)) → total_value (map (λ q. []) qs) ≡ 0
  emptied_value [] = refl
  emptied_value (q ∷ qs) = omega (arith, emptied_value qs)

module _ {ℓ} {V X : Type ℓ} where
  -- How many tickets were neglected.
  abbrev pub neglected_count : List (RedemptionResult V X) → ℕ
  neglected_count [] = 0
  neglected_count (redeemed t ∷ rs) = neglected_count rs
  neglected_count (value_too_low t ∷ rs) = suc (neglected_count rs)
  neglected_count (rejected_on_chain t why ∷ rs) = neglected_count rs

module _ {ℓ} {V X : Type ℓ} (value : V → ℕ) where
  -- The values of the tickets of the results, by what happened to the tickets.
  abbrev pub redeemed_value : List (RedemptionResult V X) → ℕ
  redeemed_value [] = 0
  redeemed_value (redeemed t ∷ rs) = value t + redeemed_value rs
  redeemed_value (value_too_low t ∷ rs) = redeemed_value rs
  redeemed_value (rejected_on_chain t why ∷ rs) = redeemed_value rs

  abbrev pub rejected_value : List (RedemptionResult V X) → ℕ
  rejected_value [] = 0
  rejected_value (redeemed t ∷ rs) = rejected_value rs
  rejected_value (value_too_low t ∷ rs) = rejected_value rs
  rejected_value (rejected_on_chain t why ∷ rs) = value t + rejected_value rs

  abbrev pub neglected_value : List (RedemptionResult V X) → ℕ
  neglected_value [] = 0
  neglected_value (redeemed t ∷ rs) = neglected_value rs
  neglected_value (value_too_low t ∷ rs) = value t + neglected_value rs
  neglected_value (rejected_on_chain t why ∷ rs) = neglected_value rs

  abbrev pub settled_value : List (RedemptionResult V X) → ℕ
  settled_value rs = redeemed_value rs + rejected_value rs + neglected_value rs

module _ {ℓ} {V B : Type ℓ} (value : V → ℕ) (amount : B → ℕ) where
  -- A ticket is worth less than a minimum where its value is below the minimum's amount.
  abbrev pub worth_less : V → B → Bool
  worth_less t least = ltb (value t) (amount least)

module _ {ℓ} {V B X : Type ℓ} (value : V → ℕ) (amount : B → ℕ) where
  Settles-value :
      {t : V} {r : RedemptionResult V X} {least : Option B} (rs : List (RedemptionResult V X))
      → Settles (worth_less value amount) least t r
      → settled_value value (r ∷ rs) ≡ value t + settled_value value rs
  Settles-value rs (redeems e) = omega arith
  Settles-value rs (rejects e) = omega arith
  Settles-value rs (neglects e) = omega arith

  Extracts-value :
      {least : Option B} {qs left : List (List V)} {rs : List (RedemptionResult V X)}
      → Extracts (worth_less value amount) least qs rs left
      → total_value value qs ≡ settled_value value rs + total_value value left
  Extracts-value rests = omega arith
  Extracts-value (extracts {rs = rs} k s e) =
      omega (arith, total_value-Takes value k, Settles-value rs s, Extracts-value e)

  -- A neglected ticket is below the minimum, so neglect costs less than the minimum for each.
  neglect_cost :
      {least : B} {qs left : List (List V)} {rs : List (RedemptionResult V X)}
      → Extracts (worth_less value amount) (some least) qs rs left
      → neglected_value value rs + neglected_count rs ≤ neglected_count rs * amount least
  neglect_cost rests = omega arith
  neglect_cost (extracts k (redeems h) e) = neglect_cost e
  neglect_cost (extracts k (rejects h) e) = neglect_cost e
  neglect_cost {least = least} (extracts {t = t} {rs = rs} k (neglects h) e) =
      let low : value t < amount least = ground arith in
      let count = neglected_count rs in
      let more : suc count * amount least ≡ amount least + count * amount least = omega arith in
      omega (arith, neglect_cost e, low, more)

  conserved :
      {E Z : Type ℓ} {qs : List (List V)} {least : B} {rs : List (RedemptionResult V X)}
      {items : List (Result (RedemptionResult V X) Z)}
      → Redeemed (worth_less value amount) {E = E} {Z = Z} (some least) qs items (ok rs)
      → (settled_value value rs ≡ total_value value qs)
        × (neglected_value value rs + neglected_count rs ≤ neglected_count rs * amount least)
  conserved {qs = qs} (succeeds same e m) =
      (omega (arith, Extracts-value e, emptied_value value qs), neglect_cost e)

module _ {ℓ} {A I E V B X Z : Type ℓ} (value : V → ℕ) (amount : B → ℕ) (client : Client A I E)
    (queue : I → List V)
    (redeem_stream : I → Option B → Result (List (Result (RedemptionResult V X) Z)) Z)
    (merge : List (List (Result (RedemptionResult V X) Z))
      → List (Result (RedemptionResult V X) Z)) where
  -- When redeeming all tickets succeeds, the redeemed, the rejected and the neglected value of the
  -- results make up the value queued in the channels whose stream was opened, and what is neglected
  -- is worth less than the minimum value for each neglected ticket. The chain's client answers, the
  -- ticket manager's streams are those of its queues and compare a ticket's value with the minimum,
  -- and `merge` yields the items of streams, each stream's in its order.
  pub value_conserved :
      (min_value : B) (cs : List (ChannelEntry A I)) (rs : List (RedemptionResult V X))
      → HonoursQueues (worth_less value amount) queue redeem_stream
      → ((ss : List (List (Result (RedemptionResult V X) Z))) → Merges ss (merge ss))
      → client.stream_channels (requested client none (some pending_to_close_redemption_tolerance))
        ≡ ok cs
      → redeem_all_tickets client redeem_stream merge min_value ≡ ok rs
      → (settled_value value rs
          ≡ total_value value
              (opened_queues (worth_less value amount) queue redeem_stream (some min_value) cs))
        × (neglected_value value rs + neglected_count rs ≤ neglected_count rs * amount min_value)
  value_conserved min_value cs rs honours merges answered redeemed_all = conserved value amount (
      rw redeemed_all at (
        redeem_all_drains (worth_less value amount) client queue redeem_stream merge min_value cs
          honours merges answered))
