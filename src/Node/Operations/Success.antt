-- ===== src/Node/Operations/Success.antt =====
-- src/node/incentive.rs: when opening, funding and closing a channel succeed, and what they return.
use hopr_api.Prelude.{
  ℕ, ◌*◌, ◌≡◌, ◌≢◌, refl, ap, ◌∙◌, ◌↔◌, ◌⊎◌, inl, inr, true, Option, none, some, List, [], Eq,
  arith,
}
use hopr_api.Chain.Channels.{ChannelStatus}
use hopr_api.Node.Errors.{EitherErr, ChainOutput, output_of, new_empty}
use hopr_api.Node.Operations.{
  Channel, ChainEvent, channel_opened, channel_balance_increased, channel_closed,
  channel_closure_initiated, other_event, open_to, fund, close, Call, Answers, Outcome, done,
  failed, panicked, Run, ◌>>=◌, submit_and_wait, opens, funds, closes, open_channel, fund_channel,
  close_channel_by_id, status_of,
}
use hopr_api.Node.Operations.Log.{
  IsWaiter, ResolvedBy, submit_and_wait_done, submit_and_wait_succeeds, submit_and_wait_ne_panicked,
}

-- The event says that this channel was closed, or that its closure was initiated.
abbrev pub EndsChannel {ℓ} : {I B : Type ℓ} → Channel I → ChainEvent I B → Type ℓ
EndsChannel c event = (event ≡ channel_closed c) ⊎ (event ≡ channel_closure_initiated c)

-- The output is that of the event with which the waiter resolved, for this channel.
abbrev pub ClosedBy {ℓ} :
    {H I B E W : Type ℓ}
    → ⦃ei : Eq I⦄ → ⦃eb : Eq B⦄ → Answers H I B E W
    → I
    → ChainOutput H ChannelStatus
    → Type ℓ
ClosedBy {I} {B} r id out =
    (time : ℕ) × (event : ChainEvent I B) × (c : Channel I) × (ResolvedBy r (closes id) time event
        out.tx_hash
      × EndsChannel c event
      × (c.id ≡ id)
      × (out.output ≡ some c.status))

module _ {ℓ} {I B : Type ℓ} ⦃ei : Eq I⦄ ⦃eb : Eq B⦄ where
  opened :
      (id : I) (event : ChainEvent I B)
      → opens id event ≡ true
      → (c : Channel I) × (event ≡ channel_opened c) × (c.id ≡ id)
  opened id (channel_opened c) h = (c, refl, (ei.beq_iff c.id id).0 h)
  opened id (channel_balance_increased c a) h = cc
  opened id (channel_closed c) h = cc
  opened id (channel_closure_initiated c) h = cc
  opened id other_event h = cc

  funded :
      (id : I) (amount : B) (event : ChainEvent I B)
      → funds id amount event ≡ true
      → (c : Channel I) × (event ≡ channel_balance_increased c amount) × (c.id ≡ id)
  funded id amount (channel_opened c) h = cc
  funded id amount (channel_balance_increased c a) h =
      (c, ground (arith, h, eb.beq_iff a amount), ground (arith, h, ei.beq_iff c.id id))
  funded id amount (channel_closed c) h = cc
  funded id amount (channel_closure_initiated c) h = cc
  funded id amount other_event h = cc

same_output {ℓ κ} :
    {H : Type ℓ} {X : Type κ} (out : ChainOutput H X) {o : Option X}
    → out.output ≡ o
    → record { tx_hash = out.tx_hash; output = o } ≡ out
same_output out e = rw (← e) refl

module _ {ℓ κ} {C Z R H : Type ℓ} {X : Type κ} where
  continued :
      (result : Outcome R Z × List C) (next : R → Run C Z (ChainOutput H X)) (res : R)
      → result.0 ≡ done res
      → ((λ _. result) >>= next) [] ≡ next res result.1
  continued (done res', log) next res h = let same : res' ≡ res = cc in rw same refl
  continued (failed z, log) next res h = cc
  continued (panicked, log) next res h = cc

module _ {ℓ} (A : Type ℓ) {H I B E W : Type ℓ} ⦃ei : Eq I⦄ ⦃eb : Eq B⦄ (r : Answers H I B E W)
    (waiter : IsWaiter r) where
  -- An operation that goes on to return something made of the transaction.
  returned :
      {X : Type ℓ}
      (result : Outcome (record { tx : H; event : ChainEvent I B }) (EitherErr E W)
        × List (Call A I B))
      (output : H → ChainOutput H X) (out : ChainOutput H X)
      → (((λ _. result) >>= (λ res log. (done (output res.tx), log))) []).0 ≡ done out
      → (res : record { tx : H; event : ChainEvent I B }) × (result.0 ≡ done res)
        × (out ≡ output res.tx)
  returned (done res, log) output out h = (res, refl, cc)
  returned (failed z, log) output out h = cc
  returned (panicked, log) output out h = cc

  -- With a waiter that resolves only with events that its predicate accepts: opening or funding a
  -- channel returns exactly where the chain tells its time, the waiter is spawned, the submission
  -- accepted and the transaction returned is confirmed, and the waiter, with twice the time as its
  -- timeout, resolves with an event of the very operation. For opening it is one that the channel
  -- asked for was opened, whose identifier is returned; for funding it is one that the balance of the
  -- channel asked for rose by the very amount, and nothing else is returned.
  pub open_fund_iff :
      (id : I) (dst : A) (amount : B)
      → ((out : ChainOutput H I)
          → ((open_channel r id dst amount []).0 ≡ done out) ↔ (
              (time : ℕ) × (c : Channel I) × ((c.id ≡ id)
                × ResolvedBy r (opens id) time (channel_opened c) out.tx_hash
                × (out.output ≡ some id))))
        × ((out : ChainOutput H (Unit {ℓ}))
            → ((fund_channel {A = A} r id amount []).0 ≡ done out) ↔ (
                (time : ℕ) × (c : Channel I) × ((c.id ≡ id)
                  × ResolvedBy r
                      (funds id amount)
                      time
                      (channel_balance_increased c amount)
                      out.tx_hash
                  × (out.output ≡ none))))
  unfolding open_channel fund_channel
  open_fund_iff id dst amount = (
    λ out. (
      λ h.
          let (res, e, o) =
            returned (submit_and_wait r (opens id) (open_to dst amount) []) (λ tx. output_of tx id)
              out h in
          let (time, (told, spawned, sent, ev, conf)) =
            submit_and_wait_done A r (opens id) (open_to dst amount) res e in
          let (c, same, k) = opened id res.event (waiter (opens id) (2 * time) res.event ev) in
          rw o (time, c, (k, (told, spawned, sent, rw same at ev, conf), refl)),
      λ (time, c, (k, by, o)).
          ap (λ p. p.0)
            (continued (submit_and_wait r (opens id) (open_to dst amount) []) _ _ (
              submit_and_wait_succeeds A r (opens id) (open_to dst amount) time (channel_opened c)
                out.tx_hash by))
          ∙ ap done (same_output out o),
    ),
    λ out. (
      λ h.
          let (res, e, o) =
            returned (submit_and_wait r (funds id amount) (fund id amount) []) new_empty out h in
          let (time, (told, spawned, sent, ev, conf)) =
            submit_and_wait_done A r (funds id amount) (fund id amount) res e in
          let (c, same, k) =
            funded id amount res.event (waiter (funds id amount) (2 * time) res.event ev) in
          rw o (time, c, (k, (told, spawned, sent, rw same at ev, conf), refl)),
      λ (time, c, (k, by, o)).
          ap (λ p. p.0)
            (continued (submit_and_wait r (funds id amount) (fund id amount) []) _ _ (
              submit_and_wait_succeeds A r (funds id amount) (fund id amount) time
                (channel_balance_increased c amount) out.tx_hash by))
          ∙ ap done (same_output out o),
    ),
  )

  ended :
      (id : I) (event : ChainEvent I B)
      → closes id event ≡ true
      → (c : Channel I) × EndsChannel c event × (c.id ≡ id)
  ended id (channel_closed c) h = (c, inl refl, (ei.beq_iff c.id id).0 h)
  ended id (channel_closure_initiated c) h = (c, inr refl, (ei.beq_iff c.id id).0 h)
  ended id _ h = cc

  -- What closing makes of the outcome before it.
  closing :
      (tx : H) (event : ChainEvent I B) (c : Channel I) (log : List (Call A I B))
      → EndsChannel c event
      → (status_of {E = E} {W = W} tx event log).0 ≡ done (output_of tx c.status)
  unfolding status_of
  closing tx event c log (inl e) = rw e refl
  closing tx event c log (inr e) = rw e refl

  close_returns :
      (id : I) (out : ChainOutput H ChannelStatus)
      → ClosedBy r id out
      → (close_channel_by_id {A = A} r id []).0 ≡ done out
  unfolding close_channel_by_id
  close_returns id out (time, event, c, (by, ends, k, o)) =
      let waited = submit_and_wait_succeeds A r (closes id) (close id) time event out.tx_hash by in
      ap (λ p. p.0) (continued (submit_and_wait r (closes id) (close id) []) _ _ waited)
      ∙ closing out.tx_hash event c _ ends
      ∙ ap done (same_output out o)

  -- With a waiter that resolves only with events that its predicate accepts, closing never reaches
  -- `unreachable!()`. It returns exactly where the chain tells its time, the waiter is spawned, the
  -- submission accepted and the transaction returned is confirmed, and the waiter, with twice the
  -- time as its timeout, resolves with a closed or a closure initiated event of the channel asked
  -- for: the status returned is the one in that event.
  pub close_iff :
      (id : I)
      → ((close_channel_by_id {A = A} r id []).0 ≢ panicked)
        × ((out : ChainOutput H ChannelStatus)
            → ((close_channel_by_id {A = A} r id []).0 ≡ done out) ↔ ClosedBy r id out)
  unfolding close_channel_by_id
  close_iff id =
      let (safe, sound) =
        go (submit_and_wait r (closes id) (close id) [])
          (submit_and_wait_done A r (closes id) (close id))
          (submit_and_wait_ne_panicked A r (closes id) (close id)) in
      (safe, λ out. (sound out, close_returns id out))
    where
      go :
          (result : Outcome (record { tx : H; event : ChainEvent I B }) (EitherErr E W)
            × List (Call A I B))
          → ((res : record { tx : H; event : ChainEvent I B })
              → result.0 ≡ done res
              → (time : ℕ) × ResolvedBy r (closes id) time res.event res.tx)
          → result.0 ≢ panicked
          → let next = (λ _. result) >>= (λ res. status_of {E = E} {W = W} res.tx res.event) in
            ((next []).0 ≢ panicked)
            × ((out : ChainOutput H ChannelStatus) → (next []).0 ≡ done out → ClosedBy r id out)
      go (done res, log) from_waiter safe =
          let (time, by) = from_waiter res refl in
          let (c, ends, same) = ended id res.event (waiter (closes id) (2 * time) res.event by.3) in
          let status = closing res.tx res.event c log ends in
          (
            λ e. cc (status, e),
            λ out e.
                let made : output_of res.tx c.status ≡ out = cc (status, e) in
                rw (← made) (time, res.event, c, (by, ends, same, refl)),
          )
      go (failed z, log) from_waiter safe = (λ e. cc, λ out e. cc)
      go (panicked, log) from_waiter safe = (λ e. absurd (safe refl), λ out e. cc)
