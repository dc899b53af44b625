-- ===== src/Tickets/Settled.antt =====
-- src/node/incentive.rs and src/tickets/mod.rs: which tickets are settled when redeeming the tickets
-- of all channels succeeds.
use hopr_api.Prelude.{
  ◌+◌, ◌≡◌, refl, ap, ◌↔◌, Bool, Option, none, some, List, [], ◌∷◌, map, Memᴰ, All-Memᴰ, Result, ok,
  Result-cases, inl, inr, Eq, Every,
}
use hopr_api.Chain.Channels.{ChannelEntry, ChannelSelector, default, with_source, with_destination}
use hopr_api.Chain.Channels.Redeemable.{RedeemableAt, redeemable_iff}
use hopr_api.Tickets.{
  Client, RedemptionResult, as_ref, requested, redeem_in_channels, redeem_with, redeem_all_tickets,
  redeem_tickets_with_counterparty, pending_to_close_redemption_tolerance,
}
use hopr_api.Tickets.Merge.{Takes, this, other, Merges, ends, yields, Within, Merges-Within}
use hopr_api.Tickets.Queue.{Redeemed, succeeds, HonoursQueues}
use hopr_api.Tickets.Redemption.{Honours}
use hopr_api.Tickets.Draining.{opened_queues, redeem_with_drains}

module _ {ℓ} {X : Type ℓ} where
  -- `x` is in one of the lists.
  abbrev pub InOne : X → List (List X) → Type ℓ
  InOne x ss = (s : List X) × (Memᴰ s ss × Memᴰ x s)

  InOne-Takes : {x y : X} {ss ss' : List (List X)} → Takes ss x ss' → InOne y ss' → InOne y ss
  InOne-Takes this (s, (Memᴰ.head e, m)) = (_, (Memᴰ.head refl, Memᴰ.tail (rw e at m)))
  InOne-Takes this (s, (Memᴰ.tail k, m)) = (s, (Memᴰ.tail k, m))
  InOne-Takes (other t) (s, (Memᴰ.head e, m)) = (s, (Memᴰ.head e, m))
  InOne-Takes (other t) (s, (Memᴰ.tail k, m)) =
      let (u, (n, o)) = InOne-Takes t (s, (k, m)) in (u, (Memᴰ.tail n, o))

  InOne-taken : {x : X} {ss ss' : List (List X)} → Takes ss x ss' → InOne x ss
  InOne-taken this = (_, (Memᴰ.head refl, Memᴰ.head refl))
  InOne-taken (other t) = let (u, (n, o)) = InOne-taken t in (u, (Memᴰ.tail n, o))

  merged : {x : X} {ss : List (List X)} {out : List X} → Merges ss out → Memᴰ x out → InOne x ss
  merged (ends e) m = elim m [ ]
  merged (yields t g) (Memᴰ.head e) = rw e (InOne-taken t)
  merged (yields t g) (Memᴰ.tail m) = InOne-Takes t (merged g m)

  Within-Memᴰ : {x : X} {s out : List X} → Within s out → Memᴰ x s → Memᴰ x out
  Within-Memᴰ Within.empty m = elim m [ ]
  Within-Memᴰ (Within.keep w) (Memᴰ.head e) = Memᴰ.head e
  Within-Memᴰ (Within.keep w) (Memᴰ.tail m) = Memᴰ.tail (Within-Memᴰ w m)
  Within-Memᴰ (Within.skip w) m = Memᴰ.tail (Within-Memᴰ w m)

  -- What a group yields is what is in one of its streams.
  pub merged_iff :
      {x : X} {ss : List (List X)} {out : List X} → Merges ss out → Memᴰ x out ↔ InOne x ss
  merged_iff {ss = ss} g =
      (merged g, λ h. Within-Memᴰ (All-Memᴰ (λ s. Within s _) ss (Merges-Within g) h.1.0) h.1.1)

module _ {ℓ} {A I V B X Z : Type ℓ} (below : V → B → Bool) (queue : I → List V)
    (redeem_stream : I → Option B → Result (List (Result (RedemptionResult V X) Z)) Z)
    (min_amount : Option B) where
  abbrev OpenIn : List (ChannelEntry A I) → V → Type ℓ
  OpenIn cs t =
      (c : ChannelEntry A I) × (stream : List (Result (RedemptionResult V X) Z)) × (Memᴰ c cs
        × (redeem_stream c.id min_amount ≡ ok stream)
        × Memᴰ t (queue c.id))

  queued_in :
      (t : V) (cs : List (ChannelEntry A I))
      → InOne t (opened_queues below queue redeem_stream min_amount cs)
      → OpenIn cs t
  unfolding opened_queues
  queued_in t [] (q, (k, m)) = elim k [ ]
  queued_in t (c ∷ cs) h =
      let rest = queued_in t cs in
      elim (Result-cases (redeem_stream c.id min_amount)) [
        | inl (s, e) ↦ here s e rest (rw (opened_queues, e) at h)
        | inr (z, e) ↦ later (rest (rw (opened_queues, e) at h))
      ]
    where
      later : OpenIn cs t → OpenIn (c ∷ cs) t
      later (d, s, (k, e, m)) = (d, s, (Memᴰ.tail k, e, m))

      here :
          (s : List (Result (RedemptionResult V X) Z))
          → redeem_stream c.id min_amount ≡ ok s
          → (InOne t (opened_queues below queue redeem_stream min_amount cs) → OpenIn cs t)
          → InOne t (queue c.id ∷ opened_queues below queue redeem_stream min_amount cs)
          → OpenIn (c ∷ cs) t
      here s e rest (q, (Memᴰ.head k, m)) = (c, s, (Memᴰ.head refl, e, rw k at m))
      here s e rest (q, (Memᴰ.tail k, m)) = later (rest (q, (k, m)))

  opens_queue :
      (cs : List (ChannelEntry A I)) {c : ChannelEntry A I}
      {s : List (Result (RedemptionResult V X) Z)}
      → Memᴰ c cs
      → redeem_stream c.id min_amount ≡ ok s
      → Memᴰ (queue c.id) (opened_queues below queue redeem_stream min_amount cs)
  unfolding opened_queues
  opens_queue [] m e = elim m [ ]
  opens_queue (d ∷ cs) (Memᴰ.head k) e =
      rw (opened_queues, ← k, e) (Memᴰ.head (ap (λ c. queue c.id) k))
  opens_queue (d ∷ cs) (Memᴰ.tail k) e =
      let rest = opens_queue cs k e in
      elim (Result-cases (redeem_stream d.id min_amount)) [
        | inl (s, h) ↦ rw (opened_queues, h) (Memᴰ.tail rest)
        | inr (z, h) ↦ rw (opened_queues, h) rest
      ]

module _ {ℓ} {A I E V B X Z : Type ℓ} ⦃ea : Eq A⦄ ⦃ei : Eq I⦄ (below : V → B → Bool)
    (client : Client A I E) (known : List (ChannelEntry A I)) (queue : I → List V)
    (redeem_stream : I → Option B → Result (List (Result (RedemptionResult V X) Z)) Z)
    (merge : List (List (Result (RedemptionResult V X) Z))
      → List (Result (RedemptionResult V X) Z)) where
  -- The ticket is queued in a known channel towards this node, of the source named if any, in which
  -- tickets can be redeemed for at least the tolerance, and whose stream can be opened.
  abbrev pub Redeemable : Option A → B → V → Type ℓ
  Redeemable source min_value t =
      (c : ChannelEntry A I) × (stream : List (Result (RedemptionResult V X) Z)) × (Memᴰ c known
        × (Every (λ a. c.source ≡ a) source
            × (c.destination ≡ client.me)
            × RedeemableAt (client.now + pending_to_close_redemption_tolerance) c.status)
        × (redeem_stream c.id (some min_value) ≡ ok stream)
        × Memᴰ t (queue c.id))

  settled_in :
      (min_value : B) (cs : List (ChannelEntry A I)) (rs : List (RedemptionResult V X))
      (items : List (Result (RedemptionResult V X) Z))
      → Redeemed below {E = E} {Z = Z}
          (some min_value)
          (opened_queues below queue redeem_stream (some min_value) cs)
          items
          (ok rs)
      → (t : V) → Memᴰ t (map as_ref rs) ↔ OpenIn below queue redeem_stream (some min_value) cs t
  settled_in min_value cs rs items (succeeds same e m) t =
      let all = merged_iff m in
      (
        λ h. queued_in below queue redeem_stream (some min_value) t cs (all.0 h),
        λ (c, s, (k, e, u)).
            all.1 (queue c.id, (opens_queue below queue redeem_stream (some min_value) cs k e, u)),
      )

  settled_with :
      (s : ChannelSelector A I) (min_value : B) (cs : List (ChannelEntry A I))
      (rs : List (RedemptionResult V X))
      → s.allowed_states ≡ []
      → Honours client redeem_stream known
      → HonoursQueues below queue redeem_stream
      → ((ss : List (List (Result (RedemptionResult V X) Z))) → Merges ss (merge ss))
      → client.stream_channels
          (requested client (some s) (some pending_to_close_redemption_tolerance))
        ≡ ok cs
      → redeem_with client redeem_stream merge (some s) min_value ≡ ok rs
      → (t : V) → Memᴰ t (map as_ref rs) ↔ Redeemable s.source min_value t
  settled_with s min_value cs rs none_named honours queues merges answered h t =
      let drains =
        redeem_with_drains below client queue redeem_stream merge (some s) min_value cs queues
          merges answered in
      let here = settled_in min_value cs rs _ (rw h at drains) t in
      let taken =
        honours (requested client (some s) (some pending_to_close_redemption_tolerance)) cs
          answered in
      let allowed = λ (c : ChannelEntry A I).
        redeemable_iff s client.me client.now (some pending_to_close_redemption_tolerance) c
          none_named in
      (
        λ m.
            let (c, o, (k, e, u)) = here.0 m in
            let (n, p) = (taken c).0 k in (c, o, (n, (allowed c).0 p, e, u)),
        λ (c, o, (n, w, e, u)). here.1 (c, o, ((taken c).1 (n, (allowed c).1 w), e, u)),
      )

  -- When redeeming all tickets succeeds, the tickets of the results are exactly those queued in a
  -- known channel towards this node in which tickets can be redeemed for at least the tolerance,
  -- and whose stream can be opened. The chain's client honours selectors, the ticket manager's
  -- streams are those of its queues, and `merge` yields the items of streams, each stream's in its
  -- order.
  pub settled_iff :
      (min_value : B) (cs : List (ChannelEntry A I)) (rs : List (RedemptionResult V X))
      → Honours client redeem_stream known
      → HonoursQueues below queue redeem_stream
      → ((ss : List (List (Result (RedemptionResult V X) Z))) → Merges ss (merge ss))
      → client.stream_channels (requested client none (some pending_to_close_redemption_tolerance))
        ≡ ok cs
      → redeem_all_tickets client redeem_stream merge min_value ≡ ok rs
      → (t : V) → Memᴰ t (map as_ref rs) ↔ Redeemable none min_value t
  unfolding default redeem_all_tickets redeem_with redeem_in_channels
  settled_iff min_value cs rs honours queues merges answered h =
      settled_with default min_value cs rs refl honours queues merges answered h

  -- When redeeming the tickets of a counterparty succeeds, the tickets of the results are exactly
  -- those queued in a known channel from the counterparty towards this node in which tickets can be
  -- redeemed for at least the tolerance, and whose stream can be opened, under the conditions of
  -- redeeming all tickets.
  pub settled_with_counterparty_iff :
      (node_address issuer : A) (min_value : B) (cs : List (ChannelEntry A I))
      (rs : List (RedemptionResult V X))
      → Honours client redeem_stream known
      → HonoursQueues below queue redeem_stream
      → ((ss : List (List (Result (RedemptionResult V X) Z))) → Merges ss (merge ss))
      → client.stream_channels (
          requested client
            (some (with_destination node_address (with_source issuer default)))
            (some pending_to_close_redemption_tolerance))
        ≡ ok cs
      → redeem_tickets_with_counterparty client redeem_stream merge node_address issuer min_value
        ≡ ok rs
      → (t : V) → Memᴰ t (map as_ref rs) ↔ Redeemable (some issuer) min_value t
  unfolding default with_source with_destination redeem_tickets_with_counterparty
  settled_with_counterparty_iff node_address issuer min_value cs rs =
      settled_with (with_destination node_address (with_source issuer default)) min_value cs rs refl
