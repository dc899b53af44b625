-- ===== src/Tickets/Queue.antt =====
-- src/tickets/mod.rs: the queue of tickets that `TicketManagement` documents. A redemption stream
-- takes the tickets of its channel from the front of their queue; nothing else is supposed to take
-- tickets from it meanwhile.
use hopr_api.Prelude.{
  ◌≡◌, Bool, true, false, Option, none, some, List, [], ◌∷◌, ◌++◌, map, Result, ok, err,
}
use hopr_api.Node.Errors.{right, CompoundResult}
use hopr_api.Tickets.{RedemptionResult, redeemed, value_too_low, rejected_on_chain, as_ref}
use hopr_api.Tickets.Merge.{Takes, Merges}

module _ {ℓ} {V B : Type ℓ} (below : V → B → Bool) where
  -- `below t m` says that the ticket `t` is worth less than `m`.
  abbrev pub is_low : Option B → V → Bool
  is_low none t = false
  is_low (some m) t = below t m

module _ {ℓ} {V B X : Type ℓ} (below : V → B → Bool) where
  -- The result that a ticket can have: it is neglected where it is worth less than the minimum, else
  -- redeemed or rejected.
  pub data Settles (min_amount : Option B) : V → RedemptionResult V X → Type ℓ where
    redeems : {t : V} → is_low below min_amount t ≡ false → Settles min_amount t (redeemed t)
    rejects :
        {t : V} {reason : X}
        → is_low below min_amount t ≡ false
        → Settles min_amount t (rejected_on_chain t reason)
    neglects : {t : V} → is_low below min_amount t ≡ true → Settles min_amount t (value_too_low t)

  -- What the stream of a queue yields: the results of the tickets in their order, up to the end of
  -- the queue or to a processing error, whose ticket stays.
  pub data Attempts {Z : Type ℓ} (min_amount : Option B)
      : List V → List (Result (RedemptionResult V X) Z) → Type ℓ where
    drained : Attempts min_amount [] []
    settles :
        {t : V} {r : RedemptionResult V X} {queue : List V}
        {items : List (Result (RedemptionResult V X) Z)}
        → Settles min_amount t r
        → Attempts min_amount queue items
        → Attempts min_amount (t ∷ queue) (ok r ∷ items)
    fails : {t : V} {z : Z} {queue : List V} → Attempts min_amount (t ∷ queue) (err z ∷ [])

  -- Tickets taken one by one, each from the front of one of the queues, with their results.
  pub data Extracts (min_amount : Option B)
      : List (List V) → List (RedemptionResult V X) → List (List V) → Type ℓ where
    rests : {queues : List (List V)} → Extracts min_amount queues [] queues
    extracts :
        {queues next left : List (List V)} {t : V} {r : RedemptionResult V X}
        {rs : List (RedemptionResult V X)}
        → Takes queues t next
        → Settles min_amount t r
        → Extracts min_amount next rs left
        → Extracts min_amount queues (r ∷ rs) left

  -- What redemption in channels with these queues returns when the group of their streams yields
  -- `items`. It succeeds with the results of all items: their tickets are those of all queues, each
  -- queue's in its order, and no queue keeps one. Or it fails with the first error: the results
  -- before it took tickets from the fronts of the queues, and a queue still has a ticket.
  pub data Redeemed {E Z : Type ℓ} (min_amount : Option B) (queues : List (List V))
      (items : List (Result (RedemptionResult V X) Z))
      : CompoundResult (List (RedemptionResult V X)) E Z → Type ℓ where
    succeeds :
        {rs : List (RedemptionResult V X)}
        → items ≡ map ok rs
        → Extracts min_amount queues rs (map (λ q. []) queues)
        → Merges queues (map as_ref rs)
        → Redeemed min_amount queues items (ok rs)
    gets_stuck :
        {z : Z} {rs : List (RedemptionResult V X)} {t : V} {kept rest : List (List V)}
        (later : List (Result (RedemptionResult V X) Z))
        → items ≡ map ok rs ++ err z ∷ later
        → Extracts min_amount queues rs kept
        → Takes kept t rest
        → Redeemed min_amount queues items (err (right z))

module _ {ℓ} {I V B X Z : Type ℓ} (below : V → B → Bool) (queue : I → List V)
    (redeem_stream : I → Option B → Result (List (Result (RedemptionResult V X) Z)) Z) where
  -- A stream that is opened is one of the channel's queue.
  abbrev pub HonoursQueues : Type ℓ
  HonoursQueues =
      (id : I) (min_amount : Option B) (stream : List (Result (RedemptionResult V X) Z))
      → redeem_stream id min_amount ≡ ok stream
      → Attempts below min_amount (queue id) stream
