-- ===== src/Tickets/Draining.antt =====
-- src/node/incentive.rs and src/tickets/mod.rs: redeeming the tickets of all channels empties their
-- queues, as the queues of src/tickets/mod.rs are documented.
use hopr_api.Prelude.{
  ◌≡◌, refl, ap, Bool, Option, none, some, List, [], ◌∷◌, map, Result, ok, err, map_err,
  Result-cases, inl, inr, All,
}
use hopr_api.Chain.Channels.{ChannelEntry, ChannelSelector}
use hopr_api.Node.Errors.{right}
use hopr_api.Tickets.{
  Client, RedemptionResult, as_ref, try_collect, requested, open_streams, redeem_all_tickets,
  redeem_with, pending_to_close_redemption_tolerance,
}
use hopr_api.Tickets.Merge.{Takes, this, other, Merges, ends, yields}
use hopr_api.Tickets.Queue.{
  Settles, redeems, rejects, neglects, Attempts, drained, settles, fails, rests, extracts, Redeemed,
  HonoursQueues, succeeds, gets_stuck,
}
use hopr_api.Tickets.Collection.{collect_first, collected_first, redeem_with_answered}

module _ {ℓ} {V : Type ℓ} where
  emptied_alike :
      {t : V} {qs next : List (List V)}
      → Takes qs t next
      → map {B = List V} (λ q. []) next ≡ map (λ q. []) qs
  emptied_alike this = refl
  emptied_alike (other {s = s} t) = ap (λ rest. [] ∷ rest) (emptied_alike t)

  All-emptied : (qs : List (List V)) → All (λ q. q ≡ []) (map {B = List V} (λ q. []) qs)
  All-emptied [] = tt
  All-emptied (q ∷ qs) = (refl, All-emptied qs)

module _ {ℓ} {V B X : Type ℓ} (below : V → B → Bool) (min_amount : Option B) where
  settled_ticket : {t : V} {r : RedemptionResult V X} → Settles below min_amount t r → t ≡ as_ref r
  settled_ticket (redeems e) = refl
  settled_ticket (rejects e) = refl
  settled_ticket (neglects e) = refl

module _ {ℓ} {V B X Z : Type ℓ} (below : V → B → Bool) (min_amount : Option B) where
  -- Each stream is one of the queue at its place.
  pub data EachAttempts
      : List (List V) → List (List (Result (RedemptionResult V X) Z)) → Type ℓ where
    no_queue : EachAttempts [] []
    queued :
        {q : List V} {qs : List (List V)} {s : List (Result (RedemptionResult V X) Z)}
        {ss : List (List (Result (RedemptionResult V X) Z))}
        → Attempts below min_amount q s
        → EachAttempts qs ss
        → EachAttempts (q ∷ qs) (s ∷ ss)

  -- A result that a stream yields takes its ticket from the front of the stream's queue.
  take_ok :
      {r : RedemptionResult V X} {qs : List (List V)}
      {ss ss' : List (List (Result (RedemptionResult V X) Z))}
      → EachAttempts qs ss
      → Takes ss (ok r) ss'
      → (t : V) × (next : List (List V)) × (Takes qs t next
          × Settles below min_amount t r
          × EachAttempts next ss')
  take_ok no_queue t = elim t [ ]
  take_ok (queued (settles s a) h) this = (_, _, (this, s, queued a h))
  take_ok (queued a h) (other t) =
      let (u, next, (k, s, e)) = take_ok h t in (u, _, (other k, s, queued a e))

  take_err :
      {z : Z} {qs : List (List V)} {ss ss' : List (List (Result (RedemptionResult V X) Z))}
      → EachAttempts qs ss
      → Takes ss (err z) ss'
      → (t : V) × (rest : List (List V)) × Takes qs t rest
  take_err no_queue t = elim t [ ]
  take_err (queued fails h) this = (_, _, this)
  take_err (queued a h) (other t) = let (u, next, k) = take_err h t in (u, _, other k)

  -- A stream that ends without error has emptied its queue.
  ended :
      (qs : List (List V)) {ss : List (List (Result (RedemptionResult V X) Z))}
      → EachAttempts qs ss
      → All (λ s. s ≡ []) ss
      → map (λ q. []) qs ≡ qs
  ended [] no_queue e = refl
  ended (q ∷ qs) (queued drained h) (e, es) = ap (λ rest. [] ∷ rest) (ended qs h es)
  ended (q ∷ qs) (queued (settles k a) h) (e, es) = cc
  ended (q ∷ qs) (queued fails h) (e, es) = cc

  module _ {E : Type ℓ} {t : V} {r : RedemptionResult V X} {qs next : List (List V)}
      (taken : Takes qs t next) (settled : Settles below min_amount t r) where
    more_ok :
        (items : List (Result (RedemptionResult V X) Z)) (rs : List (RedemptionResult V X))
        → Redeemed below {E = E} min_amount next items (ok rs)
        → Redeemed below {E = E} min_amount qs (ok r ∷ items) (ok (r ∷ rs))
    more_ok items rs (succeeds same e m) =
        succeeds (ap (λ items. ok r ∷ items) same)
          (rw (← emptied_alike taken) (extracts taken settled e))
          (yields (rw (← settled_ticket below min_amount settled) taken) m)

    more_err :
        (items : List (Result (RedemptionResult V X) Z)) (z : Z)
        → Redeemed below {E = E} min_amount next items (err (right z))
        → Redeemed below {E = E} min_amount qs (ok r ∷ items) (err (right z))
    more_err items z (gets_stuck later same e k) =
        gets_stuck later (ap (λ items. ok r ∷ items) same) (extracts taken settled e) k

    more :
        (items : List (Result (RedemptionResult V X) Z))
        → Redeemed below {E = E} min_amount next items (map_err right (try_collect items))
        → Redeemed below {E = E} min_amount qs
            (ok r ∷ items)
            (map_err right (try_collect (ok r ∷ items)))
    more items h = elim (Result-cases (try_collect items)) [
      | inl (rs, e) ↦ rw (collect_first r items rs e) (more_ok items rs (rw e at h))
      | inr (z, e) ↦ rw (collected_first r items z e) (more_err items z (rw e at h))
    ]

  -- What the group of the streams of the queues yields redeems their tickets.
  pub run :
      {E : Type ℓ} {out : List (Result (RedemptionResult V X) Z)} (qs : List (List V))
      {ss : List (List (Result (RedemptionResult V X) Z))}
      → EachAttempts qs ss
      → Merges ss out
      → Redeemed below {E = E} min_amount qs out (map_err right (try_collect out))
  unfolding try_collect
  run qs h (ends e) =
      succeeds refl (rw (ended qs h e) rests) (ends (rw (ended qs h e) at (All-emptied qs)))
  run qs h (yields {x = ok r} {xs = out} t m) =
      let (u, next, (k, s, rest)) = take_ok h t in more k s out (run next rest m)
  run qs h (yields {x = err z} t m) =
      let (u, rest, k) = take_err h t in gets_stuck {rs = []} _ refl rests k

module _ {ℓ} {A I V B X Z : Type ℓ} (below : V → B → Bool) (queue : I → List V)
    (redeem_stream : I → Option B → Result (List (Result (RedemptionResult V X) Z)) Z) where
  -- The queues of the channels whose stream can be opened.
  unfoldable pub opened_queues : Option B → List (ChannelEntry A I) → List (List V)
  opened_queues min_amount [] = []
  opened_queues min_amount (c ∷ cs) =
      let rest = opened_queues min_amount cs in
      elim (redeem_stream c.id min_amount) [ ok stream ↦ queue c.id ∷ rest | err z ↦ rest ]

  opened_queued :
      (min_amount : Option B) (cs : List (ChannelEntry A I))
      → HonoursQueues below queue redeem_stream
      → EachAttempts below min_amount
          (opened_queues min_amount cs)
          (open_streams redeem_stream min_amount cs)
  unfolding opened_queues open_streams
  opened_queued min_amount [] h = no_queue
  opened_queued min_amount (c ∷ cs) h =
      let rest = opened_queued min_amount cs h in
      elim (Result-cases (redeem_stream c.id min_amount)) [
        | inl (s, e) ↦ rw (opened_queues, open_streams, e) (queued (h c.id min_amount s e) rest)
        | inr (z, e) ↦ rw (opened_queues, open_streams, e) rest
      ]

module _ {ℓ} {A I E V B X Z : Type ℓ} (below : V → B → Bool) (client : Client A I E)
    (queue : I → List V)
    (redeem_stream : I → Option B → Result (List (Result (RedemptionResult V X) Z)) Z)
    (merge : List (List (Result (RedemptionResult V X) Z))
      → List (Result (RedemptionResult V X) Z)) where
  -- What `redeem_with` does to the queues of the channels answered.
  pub redeem_with_drains :
      (selector : Option (ChannelSelector A I)) (min_value : B) (cs : List (ChannelEntry A I))
      → HonoursQueues below queue redeem_stream
      → ((ss : List (List (Result (RedemptionResult V X) Z))) → Merges ss (merge ss))
      → client.stream_channels
          (requested client selector (some pending_to_close_redemption_tolerance))
        ≡ ok cs
      → Redeemed below
          (some min_value)
          (opened_queues below queue redeem_stream (some min_value) cs)
          (merge (open_streams redeem_stream (some min_value) cs))
          (redeem_with client redeem_stream merge selector min_value)
  redeem_with_drains selector min_value cs honours merges answered =
      rw (redeem_with_answered client redeem_stream merge selector min_value cs answered) (
        run below (some min_value) _
          (opened_queued below queue redeem_stream (some min_value) cs honours) (merges _))

  -- When the chain's client answers, the ticket manager's streams are those of its queues and `merge`
  -- yields the items of streams, each stream's in its order, redeeming all tickets does one of two
  -- things to the queues of the channels whose stream was opened. Either it empties them and succeeds
  -- with the results of all items of the streams: their tickets are those of all queues, each
  -- queue's in its order, and a ticket is neglected exactly where it is worth less than `min_value`.
  -- Or it fails with the first error among the items: the results before it took their tickets from
  -- the fronts of the queues, and a queue still has a ticket.
  pub redeem_all_drains :
      (min_value : B) (cs : List (ChannelEntry A I))
      → HonoursQueues below queue redeem_stream
      → ((ss : List (List (Result (RedemptionResult V X) Z))) → Merges ss (merge ss))
      → client.stream_channels (requested client none (some pending_to_close_redemption_tolerance))
        ≡ ok cs
      → Redeemed below
          (some min_value)
          (opened_queues below queue redeem_stream (some min_value) cs)
          (merge (open_streams redeem_stream (some min_value) cs))
          (redeem_all_tickets client redeem_stream merge min_value)
  unfolding redeem_all_tickets
  redeem_all_drains = redeem_with_drains none
