-- ===== src/Node/Operations.antt =====
-- src/node/incentive.rs: opening, funding and closing a channel. Each operation asks the chain for
-- its typical time, spawns a waiter for the event, submits the transaction, awaits its confirmation
-- and then the event. The chain and the node are the implementor's: an operation is given what they
-- answer, and leaves a log of the calls that it made.
pub mod Log
pub mod Success
pub mod Waiters
use hopr_api.Prelude.{
  ℕ, ◌+◌, ◌*◌, ◌≡◌, Bool, true, false, ◌&&◌, ◌||◌, Option, none, some, List, [], ◌∷◌, ◌++◌, Result,
  ok, err, Eq,
}
use hopr_api.Chain.Channels.{ChannelStatus}
use hopr_api.Node.Errors.{EitherErr, left, right, ChainOutput, output_of, new_empty}

-- What the predicates read of a channel entry in an event.
pub record Channel {ℓ} (I : Type ℓ) : Type ℓ where
  pub id : I
  pub status : ChannelStatus

-- The variants of `ChainEvent` that the predicates name, and all others.
pub data ChainEvent {ℓ} (I B : Type ℓ) : Type ℓ where
  channel_opened : Channel I → ChainEvent I B
  channel_balance_increased : Channel I → B → ChainEvent I B
  channel_closed : Channel I → ChainEvent I B
  channel_closure_initiated : Channel I → ChainEvent I B
  other_event : ChainEvent I B

pub data Submission {ℓ} (A I B : Type ℓ) : Type ℓ where
  open_to : A → B → Submission A I B
  fund : I → B → Submission A I B
  close : I → Submission A I B

-- The calls, in the order in which they are made.
pub data Call {ℓ} (A I B : Type ℓ) : Type ℓ where
  ask_time : Call A I B
  spawn_waiter : ℕ → Call A I B
  submit : Submission A I B → Call A I B
  await_confirmation : Call A I B
  abort_waiter : Call A I B
  await_event : Call A I B

-- What the chain and the waiter answer. The waiter is given the predicate and the timeout.
pub record Answers {ℓ} (H I B E W : Type ℓ) : Type ℓ where
  pub typical_resolution_time : Result ℕ E
  pub spawned : Result (Unit {0}) E
  pub submitted : Result (Unit {0}) E
  pub confirmed : Result H E
  pub event : (ChainEvent I B → Bool) → ℕ → Result (ChainEvent I B) (EitherErr E W)

-- `unreachable!()` panics.
pub data Outcome {ℓ κ} (X : Type ℓ) (Z : Type κ) : Type (ℓ ⊔ κ) where
  done : X → Outcome X Z
  failed : Z → Outcome X Z
  panicked : Outcome X Z

abbrev pub chain_operation_timeout_multiplier : ℕ
chain_operation_timeout_multiplier = 2

-- A computation over the log of calls.
abbrev pub Run {ℓ κ} : Type ℓ → Type ℓ → Type κ → Type (ℓ ⊔ κ)
Run C Z X = List C → Outcome X Z × List C

module _ {ℓ κ ι} {C Z : Type ℓ} {X : Type κ} {Y : Type ι} where
  abbrev continue : Outcome X Z → (X → Run C Z Y) → Run C Z Y
  continue (done x) f log = f x log
  continue (failed z) f log = (failed z, log)
  continue panicked f log = (panicked, log)

  infixl 5 ◌>>=◌
  abbrev pub ◌>>=◌ : Run C Z X → (X → Run C Z Y) → Run C Z Y
  ◌>>=◌ m f log = let (out, log') = m log in continue out f log'

abbrev pub answer {ℓ κ ι} :
    {Z : Type ℓ} {X : Type κ} {E : Type ι} → Result X E → (E → Z) → Outcome X Z
answer (ok x) wrap = done x
answer (err e) wrap = failed (wrap e)

module _ {ℓ κ ι} {C Z : Type ℓ} {X : Type κ} {E : Type ι} where
  -- One call, and `map_err(wrap)?` on what it answers.
  abbrev pub call : C → Result X E → (E → Z) → Run C Z X
  call c r wrap log = (answer r wrap, log ++ c ∷ [])

  -- `.inspect_err(|_| event_abort.abort())` on the confirmation.
  abbrev pub call_or_abort : C → C → Result X E → (E → Z) → Run C Z X
  call_or_abort c abort (ok x) wrap log = (done x, log ++ c ∷ [])
  call_or_abort c abort (err e) wrap log = (failed (wrap e), (log ++ c ∷ []) ++ abort ∷ [])

module _ {ℓ} {H A I B E W : Type ℓ} where
  -- The calls that the three operations share, up to the event.
  unfoldable pub submit_and_wait :
      Answers H I B E W
      → (ChainEvent I B → Bool)
      → Submission A I B
      → Run (Call A I B) (EitherErr E W) (record { tx : H; event : ChainEvent I B })
  submit_and_wait r predicate what = do
    time ← call ask_time r.typical_resolution_time left
    _ ← call (spawn_waiter (chain_operation_timeout_multiplier * time)) r.spawned left
    _ ← call (submit what) r.submitted left
    tx ← call_or_abort await_confirmation abort_waiter r.confirmed left
    event ←
        call await_event (r.event predicate (chain_operation_timeout_multiplier * time)) (λ z. z)
    (λ log. (done (record { tx = tx; event = event }), log))

module _ {ℓ} {I B : Type ℓ} ⦃ei : Eq I⦄ ⦃eb : Eq B⦄ where
  abbrev pub opens : I → ChainEvent I B → Bool
  opens id (channel_opened c) = ei.beq c.id id
  opens id _ = false

  abbrev pub funds : I → B → ChainEvent I B → Bool
  funds id amount (channel_balance_increased c a) = ei.beq c.id id && eb.beq a amount
  funds id amount _ = false

  abbrev pub closes : I → ChainEvent I B → Bool
  closes id (channel_closed c) = ei.beq c.id id
  closes id (channel_closure_initiated c) = ei.beq c.id id
  closes id _ = false

module _ {ℓ} {H A I B E W : Type ℓ} ⦃ei : Eq I⦄ ⦃eb : Eq B⦄ where
  -- `channel_id` is what `generate_channel_id` makes of this node and the destination.
  unfoldable pub open_channel :
      Answers H I B E W → I → A → B → Run (Call A I B) (EitherErr E W) (ChainOutput H I)
  open_channel r channel_id destination amount = do
    result ← submit_and_wait r (opens channel_id) (open_to destination amount)
    (λ log. (done (output_of result.tx channel_id), log))

  unfoldable pub fund_channel :
      Answers H I B E W → I → B → Run (Call A I B) (EitherErr E W) (ChainOutput H (Unit {ℓ}))
  fund_channel r channel_id amount = do
    result ← submit_and_wait r (funds channel_id amount) (fund channel_id amount)
    (λ log. (done (new_empty result.tx), log))

  status_of : H → ChainEvent I B → Run (Call A I B) (EitherErr E W) (ChainOutput H (ChannelStatus))
  status_of tx (channel_closure_initiated c) log = (done (output_of tx c.status), log)
  status_of tx (channel_closed c) log = (done (output_of tx c.status), log)
  status_of tx _ log = (panicked, log)

  unfoldable pub close_channel_by_id :
      Answers H I B E W → I → Run (Call A I B) (EitherErr E W) (ChainOutput H ChannelStatus)
  unfolding status_of
  close_channel_by_id r channel_id = do
    result ← submit_and_wait r (closes channel_id) (close channel_id)
    status_of result.tx result.event
