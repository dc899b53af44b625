-- ===== src/Node/Operations/Log.antt =====
-- The order of the calls, what becomes of the waiter, and what the calls shared by the operations do.
use hopr_api.Prelude.{
  ℕ, ◌*◌, ◌≡◌, ◌≢◌, refl, ◌↔◌, Bool, true, false, not, ◌&&◌, ◌||◌, List, [], ◌∷◌, Result, ok, err,
  Eq, arith,
}
use hopr_api.Node.Operations.{
  ChainEvent, Submission, open_to, fund, close, Call, ask_time, spawn_waiter, submit,
  await_confirmation, abort_waiter, await_event, Answers, done, panicked,
  chain_operation_timeout_multiplier, submit_and_wait, opens, funds, closes, open_channel,
  fund_channel, close_channel_by_id, status_of,
}

abbrev is_ok {ℓ κ} : {X : Type ℓ} {E : Type κ} → Result X E → Bool
is_ok (ok x) = true
is_ok (err e) = false

module _ {ℓ} {A I B : Type ℓ} where
  -- A transaction is submitted only after the waiter was spawned with the timeout.
  abbrev pub WaiterFirst : ℕ → Bool → List (Call A I B) → Type 0
  WaiterFirst timeout seen [] = Unit
  WaiterFirst timeout seen (ask_time ∷ log) = WaiterFirst timeout seen log
  WaiterFirst timeout seen (spawn_waiter t ∷ log) = (t ≡ timeout) × WaiterFirst timeout true log
  WaiterFirst timeout seen (submit what ∷ log) = (seen ≡ true) × WaiterFirst timeout seen log
  WaiterFirst timeout seen (await_confirmation ∷ log) = WaiterFirst timeout seen log
  WaiterFirst timeout seen (abort_waiter ∷ log) = WaiterFirst timeout seen log
  WaiterFirst timeout seen (await_event ∷ log) = WaiterFirst timeout seen log

  abbrev is_spawn : Call A I B → Bool
  is_spawn (spawn_waiter t) = true
  is_spawn _ = false

  abbrev is_end : Call A I B → Bool
  is_end abort_waiter = true
  is_end await_event = true
  is_end _ = false

  abbrev some_call : (Call A I B → Bool) → List (Call A I B) → Bool
  some_call p [] = false
  some_call p (c ∷ log) = p c || some_call p log

-- The chain told its time, the waiter was spawned and the submission was refused.
abbrev pub SubmissionRefused {ℓ} : {H I B E W : Type ℓ} → Answers H I B E W → Type ℓ
SubmissionRefused {E} r =
    (e : E) × (is_ok r.typical_resolution_time ≡ true)
    × (is_ok r.spawned ≡ true)
    × (r.submitted ≡ err e)

abbrev pub Timed {ℓ} : {H I B E W : Type ℓ} → Answers H I B E W → ℕ → Type ℓ
Timed r time = r.typical_resolution_time ≡ ok time

module _ {ℓ} {H A I B E W : Type ℓ} (r : Answers H I B E W) where
  -- The waiter was spawned, and neither aborted nor awaited.
  abbrev pub leaves_waiter : List (Call A I B) → Bool
  leaves_waiter log = is_ok r.spawned && some_call is_spawn log && not (some_call is_end log)

  submit_and_wait_waiter :
      (predicate : ChainEvent I B → Bool) (what : Submission A I B)
      → (leaves_waiter (submit_and_wait r predicate what []).1 ≡ true) ↔ SubmissionRefused r
  unfolding submit_and_wait
  submit_and_wait_waiter predicate what = ground arith

  submit_and_wait_first :
      (predicate : ChainEvent I B → Bool) (what : Submission A I B) (time : ℕ)
      → Timed r time
      → WaiterFirst
          (chain_operation_timeout_multiplier * time)
          false
          (submit_and_wait r predicate what []).1
  unfolding submit_and_wait
  submit_and_wait_first predicate what time e = ground arith

module _ {ℓ} {H A I B E W : Type ℓ} ⦃ei : Eq I⦄ ⦃eb : Eq B⦄ (r : Answers H I B E W) where
  open_log :
      (id : I) (dst : A) (amount : B)
      → (open_channel r id dst amount []).1
        ≡ (submit_and_wait r (opens id) (open_to dst amount) []).1
  unfolding open_channel
  open_log id dst amount = ground arith

  fund_log :
      (id : I) (amount : B)
      → (fund_channel {A = A} r id amount []).1
        ≡ (submit_and_wait r (funds id amount) (fund id amount) []).1
  unfolding fund_channel
  fund_log id amount = ground arith

  close_log :
      (id : I)
      → (close_channel_by_id {A = A} r id []).1 ≡ (submit_and_wait r (closes id) (close id) []).1
  unfolding close_channel_by_id status_of
  close_log id = ground arith

  -- A waiter that was spawned is left running, neither aborted nor awaited, exactly where the chain
  -- refuses the submission; this holds of opening, funding and closing.
  pub waiter_left_iff :
      (id : I) (dst : A) (amount : B)
      → ((leaves_waiter r (open_channel r id dst amount []).1 ≡ true) ↔ SubmissionRefused r)
        × ((leaves_waiter {A = A} r (fund_channel r id amount []).1 ≡ true) ↔ SubmissionRefused r)
        × ((leaves_waiter {A = A} r (close_channel_by_id r id []).1 ≡ true) ↔ SubmissionRefused r)
  waiter_left_iff id dst amount = (
    rw (open_log id dst amount) (submit_and_wait_waiter r (opens id) (open_to dst amount)),
    rw (fund_log id amount) (submit_and_wait_waiter r (funds id amount) (fund id amount)),
    rw (close_log id) (submit_and_wait_waiter r (closes id) (close id)),
  )

  -- Each operation submits its transaction only after it has spawned the waiter for the event, with
  -- twice the chain's typical time as the timeout, where the chain tells
  -- that time.
  pub waiter_first :
      (id : I) (dst : A) (amount : B) (time : ℕ)
      → r.typical_resolution_time ≡ ok time
      → WaiterFirst (2 * time) false (open_channel r id dst amount []).1
        × WaiterFirst {A = A} (2 * time) false (fund_channel r id amount []).1
        × WaiterFirst {A = A} (2 * time) false (close_channel_by_id r id []).1
  waiter_first id dst amount time e = (
    rw (open_log id dst amount) (submit_and_wait_first r (opens id) (open_to dst amount) time e),
    rw (fund_log id amount) (submit_and_wait_first r (funds id amount) (fund id amount) time e),
    rw (close_log id) (submit_and_wait_first r (closes id) (close id) time e),
  )

abbrev time_of {ℓ} : {E : Type ℓ} → Result ℕ E → ℕ
time_of (ok time) = time
time_of (err e) = 0

-- The waiter resolves only with an event that its predicate accepts.
abbrev pub IsWaiter {ℓ} : {H I B E W : Type ℓ} → Answers H I B E W → Type ℓ
IsWaiter {I} {B} r =
    (predicate : ChainEvent I B → Bool) (timeout : ℕ) (event : ChainEvent I B)
    → r.event predicate timeout ≡ ok event
    → predicate event ≡ true

-- The chain told this time, the waiter was spawned, the submission accepted and this transaction
-- confirmed, and the waiter, with twice the time as its timeout, resolved with this event.
abbrev pub ResolvedBy {ℓ} :
    {H I B E W : Type ℓ}
    → Answers H I B E W
    → (ChainEvent I B → Bool)
    → ℕ
    → ChainEvent I B
    → H
    → Type ℓ
ResolvedBy r predicate time event tx =
    Timed r time
    × (r.spawned ≡ ok tt)
    × (r.submitted ≡ ok tt)
    × (r.event predicate (2 * time) ≡ ok event)
    × (r.confirmed ≡ ok tx)

module _ {ℓ} (A : Type ℓ) {H I B E W : Type ℓ} ⦃ei : Eq I⦄ ⦃eb : Eq B⦄ (r : Answers H I B E W) where
  pub submit_and_wait_done :
      (predicate : ChainEvent I B → Bool) (what : Submission A I B)
      (out : record { tx : H; event : ChainEvent I B })
      → (submit_and_wait r predicate what []).0 ≡ done out
      → (time : ℕ) × ResolvedBy r predicate time out.event out.tx
  unfolding submit_and_wait
  submit_and_wait_done predicate what out e = (
    time_of r.typical_resolution_time,
    (ground arith, ground arith, ground arith, ground arith, ground arith),
  )

  pub submit_and_wait_succeeds :
      (predicate : ChainEvent I B → Bool) (what : Submission A I B) (time : ℕ)
      (event : ChainEvent I B) (tx : H)
      → ResolvedBy r predicate time event tx
      → (submit_and_wait r predicate what []).0 ≡ done (record { tx = tx; event = event })
  unfolding submit_and_wait
  submit_and_wait_succeeds predicate what time event tx (t, s, m, e, c) = rw (t, s, m, c, e) refl

  pub submit_and_wait_ne_panicked :
      (predicate : ChainEvent I B → Bool) (what : Submission A I B)
      → (submit_and_wait r predicate what []).0 ≢ panicked
  unfolding submit_and_wait
  submit_and_wait_ne_panicked predicate what = ground arith
