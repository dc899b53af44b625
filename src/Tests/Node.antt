-- ===== src/Tests/Node.antt =====
-- src/node at concrete inputs.
use hopr_api.Prelude.{
  ℕ, ◌*◌, ◌≡◌, ◌≢◌, refl, ◌↔◌, Bool, true, false, none, some, [], Result, ok, err, nat_eq,
}
use hopr_api.Chain.Channels.{ChannelStatus}
use hopr_api.Node.Errors.{EitherErr, right, ChainOutput}
use hopr_api.Node.Balances.{ChainApi}
use hopr_api.Node.Operations.{
  Answers, ChainEvent, channel_opened, channel_balance_increased, channel_closed, opens, funds,
  open_channel, fund_channel, close_channel_by_id, done, panicked,
}
use hopr_api.Node.Operations.Success.{ClosedBy, close_iff, open_fund_iff}
use hopr_api.Node.Operations.Log.{
  SubmissionRefused, leaves_waiter, waiter_left_iff, WaiterFirst, waiter_first, IsWaiter,
  ResolvedBy,
}

-- The chain refuses the submission.
abbrev refusing : Answers ℕ ℕ ℕ ℕ ℕ
refusing = record {
  typical_resolution_time = ok 10;
  spawned = ok tt;
  submitted = err 1;
  confirmed = ok 99;
  event = λ predicate timeout. err (right 2);
}

waiter_left_iff_example :
    ((leaves_waiter refusing (open_channel {A = ℕ} refusing 5 2 100 []).1 ≡ true)
      ↔ SubmissionRefused refusing)
    × ((leaves_waiter {A = ℕ} refusing (fund_channel refusing 5 100 []).1 ≡ true)
        ↔ SubmissionRefused refusing)
    × ((leaves_waiter {A = ℕ} refusing (close_channel_by_id refusing 5 []).1 ≡ true)
        ↔ SubmissionRefused refusing)
waiter_left_iff_example = waiter_left_iff refusing 5 2 100

waiter_first_example :
    WaiterFirst (2 * 10) false (open_channel {A = ℕ} refusing 5 2 100 []).1
    × WaiterFirst {A = ℕ} (2 * 10) false (fund_channel refusing 5 100 []).1
    × WaiterFirst {A = ℕ} (2 * 10) false (close_channel_by_id refusing 5 []).1
waiter_first_example = waiter_first refusing 5 2 100 10 refl

-- The channel closes in time.
abbrev answer : Bool → Result (ChainEvent ℕ ℕ) (EitherErr ℕ ℕ)
answer true = ok (channel_closed (record { id = 5; status = ChannelStatus.closed }))
answer false = err (right 2)

abbrev closes_in_time : Answers ℕ ℕ ℕ ℕ ℕ
closes_in_time = record refusing {
  submitted = ok tt;
  event = λ predicate timeout.
      answer (predicate (channel_closed (record { id = 5; status = ChannelStatus.closed })));
}

answer_sound :
    (b : Bool) (event : ChainEvent ℕ ℕ)
    → answer b ≡ ok event
    → (b ≡ true) × (event ≡ channel_closed (record { id = 5; status = ChannelStatus.closed }))
answer_sound true event e = (refl, cc)
answer_sound false event e = cc

closes_in_time-IsWaiter : IsWaiter closes_in_time
closes_in_time-IsWaiter predicate timeout event e =
    let h =
      answer_sound (predicate (channel_closed (record { id = 5; status = ChannelStatus.closed })))
        event e in
    rw h.1 h.0

close_iff_example :
    ((close_channel_by_id {A = ℕ} closes_in_time 5 []).0 ≢ panicked)
    × ((out : ChainOutput ℕ ChannelStatus)
        → ((close_channel_by_id {A = ℕ} closes_in_time 5 []).0 ≡ done out)
          ↔ ClosedBy closes_in_time 5 out)
close_iff_example = close_iff ℕ closes_in_time closes_in_time-IsWaiter 5

-- Both events come in time.
abbrev five : hopr_api.Node.Operations.Channel ℕ
five = record { id = 5; status = ChannelStatus.open_channel }

abbrev heard_of : Bool → Bool → Result (ChainEvent ℕ ℕ) (EitherErr ℕ ℕ)
heard_of true later = ok (channel_opened five)
heard_of false true = ok (channel_balance_increased five 100)
heard_of false false = err (right 2)

abbrev grows_in_time : Answers ℕ ℕ ℕ ℕ ℕ
grows_in_time = record refusing {
  submitted = ok tt;
  event = λ predicate timeout.
      heard_of (predicate (channel_opened five)) (predicate (channel_balance_increased five 100));
}

heard_sound :
    (predicate : ChainEvent ℕ ℕ → Bool) (a b : Bool) (event : ChainEvent ℕ ℕ)
    → predicate (channel_opened five) ≡ a
    → predicate (channel_balance_increased five 100) ≡ b
    → heard_of a b ≡ ok event
    → predicate event ≡ true
heard_sound predicate true b event x y e = cc (x, e)
heard_sound predicate false true event x y e = cc (y, e)
heard_sound predicate false false event x y e = cc

grows_in_time-IsWaiter : IsWaiter grows_in_time
grows_in_time-IsWaiter predicate timeout event e = heard_sound predicate _ _ event refl refl e

open_fund_iff_example :
    ((out : ChainOutput ℕ ℕ)
      → ((open_channel {A = ℕ} grows_in_time 5 2 100 []).0 ≡ done out) ↔ (
          (time : ℕ) × (c : hopr_api.Node.Operations.Channel ℕ) × ((c.id ≡ 5)
            × ResolvedBy grows_in_time (opens 5) time (channel_opened c) out.tx_hash
            × (out.output ≡ some 5))))
    × ((out : ChainOutput ℕ (Unit {0}))
        → ((fund_channel {A = ℕ} grows_in_time 5 100 []).0 ≡ done out) ↔ (
            (time : ℕ) × (c : hopr_api.Node.Operations.Channel ℕ) × ((c.id ≡ 5)
              × ResolvedBy grows_in_time
                  (funds 5 100)
                  time
                  (channel_balance_increased c 100)
                  out.tx_hash
              × (out.output ≡ none))))
open_fund_iff_example = open_fund_iff ℕ grows_in_time grows_in_time-IsWaiter 5 2 100

-- The submission succeeds and the confirmation fails.
abbrev unconfirmed : ChainApi ℕ ℕ ℕ ℕ ℕ ℕ ℕ
unconfirmed = record {
  balance = λ a. ok 10;
  safe_allowance = λ a. ok 10;
  withdraw = λ amount recipient. ok (err 3);
  chain_info = ok 0;
  minimum_ticket_price = ok 1;
  minimum_incoming_ticket_win_prob = ok 1;
  channel_closure_notice_period = ok 60;
}

abbrev output : ChainOutput ℕ (Unit {0})
output = record { tx_hash = 99; output = none }
