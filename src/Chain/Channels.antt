-- ===== src/Chain/Channels.antt =====
-- src/chain/channels.rs: the channel selector. Addresses and channel identifiers are opaque, and a
-- channel entry of hopr_types is the record of what the code reads of it. Times are numbers on one
-- scale, as `chrono` compares them.
pub mod Laws
pub mod Redeemable
use hopr_api.Prelude.{
  ℕ, ◌+◌, Bool, true, false, not, ◌&&◌, ◌||◌, Option, none, some, List, [], ◌∷◌, ◌++◌, ltb, leb,
  if◌then◌else◌, Eq, matches, unwrap_or,
}

pub data ChannelStatus : Type 0 where
  closed : ChannelStatus
  open_channel : ChannelStatus
  pending_to_close : ℕ → ChannelStatus

pub data ChannelStatusDiscriminants : Type 0 where
  closed open_state pending_to_close : ChannelStatusDiscriminants

abbrev pub discriminant : ChannelStatus → ChannelStatusDiscriminants
discriminant ChannelStatus.closed = ChannelStatusDiscriminants.closed
discriminant open_channel = open_state
discriminant (ChannelStatus.pending_to_close t) = ChannelStatusDiscriminants.pending_to_close

abbrev pub same_state : ChannelStatusDiscriminants → ChannelStatusDiscriminants → Bool
same_state ChannelStatusDiscriminants.closed ChannelStatusDiscriminants.closed = true
same_state open_state open_state = true
same_state ChannelStatusDiscriminants.pending_to_close ChannelStatusDiscriminants.pending_to_close =
    true
same_state _ _ = false

abbrev pub allows : List ChannelStatusDiscriminants → ChannelStatusDiscriminants → Bool
allows [] d = false
allows (s ∷ ss) d = same_state s d || allows ss d

-- std::ops::Bound, and `RangeBounds::contains`
pub data Bound : Type 0 where
  included : ℕ → Bound
  excluded : ℕ → Bound
  unbounded : Bound

abbrev pub after : Bound → ℕ → Bool
after (included a) t = leb a t
after (excluded a) t = ltb a t
after unbounded t = true

abbrev pub before : Bound → ℕ → Bool
before (included a) t = leb t a
before (excluded a) t = ltb t a
before unbounded t = true

abbrev pub in_range : Bound × Bound → ℕ → Bool
in_range range t = after range.0 t && before range.1 t

-- What the selector reads of a `ChannelEntry`.
pub record ChannelEntry {ℓ} (A I : Type ℓ) : Type ℓ where
  pub id : I
  pub source : A
  pub destination : A
  pub status : ChannelStatus

pub record ChannelSelector {ℓ} (A I : Type ℓ) : Type ℓ where
  pub source : Option A
  pub destination : Option A
  pub id : Option I
  pub allowed_states : List ChannelStatusDiscriminants
  pub closure_time_range : Bound × Bound

module _ {ℓ} {A I : Type ℓ} where
  unfoldable pub default : ChannelSelector A I
  default = record {
    source = none;
    destination = none;
    id = none;
    allowed_states = [];
    closure_time_range = (unbounded, unbounded);
  }

  unfoldable pub with_source : A → ChannelSelector A I → ChannelSelector A I
  with_source address s = record s { source = some address; id = none }

  unfoldable pub with_destination : A → ChannelSelector A I → ChannelSelector A I
  with_destination address s = record s { destination = some address; id = none }

  unfoldable pub with_id : I → ChannelSelector A I → ChannelSelector A I
  with_id id s = record s { id = some id; source = none; destination = none }

  -- `extend_from_slice`: the states add to those already allowed.
  unfoldable pub with_allowed_states :
      List ChannelStatusDiscriminants → ChannelSelector A I → ChannelSelector A I
  with_allowed_states states s = record s { allowed_states = s.allowed_states ++ states }

  unfoldable pub with_closure_time_range : Bound × Bound → ChannelSelector A I → ChannelSelector A I
  with_closure_time_range range s = record s { closure_time_range = range }

  -- `now` is what `chrono::Utc::now()` returns.
  unfoldable pub with_redeemable_channels : ℕ → Option ℕ → ChannelSelector A I → ChannelSelector A I
  unfolding with_allowed_states with_closure_time_range
  with_redeemable_channels now min_grace_period s =
      with_closure_time_range (included (now + unwrap_or min_grace_period 0), unbounded)
        (with_allowed_states (open_state ∷ ChannelStatusDiscriminants.pending_to_close ∷ []) s)

abbrev pub is_empty : List ChannelStatusDiscriminants → Bool
is_empty [] = true
is_empty (_ ∷ _) = false

module _ {ℓ} {A I : Type ℓ} ⦃ea : Eq A⦄ ⦃ei : Eq I⦄ where
  by_parties : ChannelSelector A I → ChannelEntry A I → Bool
  by_parties s c = matches s.source c.source && matches s.destination c.destination

  by_identity : Option I → ChannelSelector A I → ChannelEntry A I → Bool
  unfolding by_parties
  by_identity none s c = by_parties s c
  by_identity (some id) s c = ei.beq c.id id

  by_closure : ChannelSelector A I → ChannelStatus → Bool
  by_closure s (ChannelStatus.pending_to_close t) =
      not (allows s.allowed_states ChannelStatusDiscriminants.pending_to_close)
      || in_range s.closure_time_range t
  by_closure s _ = true

  -- The early returns, in their order.
  unfoldable pub satisfies : ChannelSelector A I → ChannelEntry A I → Bool
  unfolding by_identity by_closure
  satisfies s c =
      if not (by_identity s.id s c)
      then false
      else if not (is_empty s.allowed_states)
          && not (allows s.allowed_states (discriminant c.status))
      then false
      else by_closure s c.status
