-- ===== src/Chain/Channels/Laws.antt =====
-- The channel selector against what its fields say, and its builder.
use hopr_api.Prelude.{
  ℕ, ◌≤◌, ◌<◌, ◌≡◌, refl, ◌↔◌, ◌⊎◌, inl, inr, true, not, ◌&&◌, Option, none, some, List, [], ◌∷◌,
  arith, Eq, matches_iff, and_iff, if_not_iff, guard_iff, Every,
}
use hopr_api.Chain.Channels.{
  ChannelStatus, ChannelStatusDiscriminants, discriminant, allows, Bound, included, excluded,
  unbounded, in_range, ChannelEntry, ChannelSelector, default, with_source, with_destination,
  with_id, with_allowed_states, with_closure_time_range, satisfies, by_identity, by_closure,
  is_empty,
}

abbrev pub After : Bound → ℕ → Type 0
After (included a) t = a ≤ t
After (excluded a) t = a < t
After unbounded t = Unit

abbrev pub Before : Bound → ℕ → Type 0
Before (included a) t = t ≤ a
Before (excluded a) t = t < a
Before unbounded t = Unit

abbrev pub Lists : ChannelStatusDiscriminants → List ChannelStatusDiscriminants → Type 0
Lists d [] = ⊥
Lists d (s ∷ ss) = (s ≡ d) ⊎ Lists d ss

-- The state is allowed; no states at all allow every state.
abbrev pub StateAllowed : List ChannelStatusDiscriminants → ChannelStatus → Type 0
StateAllowed [] status = Unit
StateAllowed (s ∷ ss) status = Lists (discriminant status) (s ∷ ss)

-- Where closing channels are listed, one closes within the range.
abbrev pub ClosesInRange : List ChannelStatusDiscriminants → Bound × Bound → ChannelStatus → Type 0
ClosesInRange states range (ChannelStatus.pending_to_close t) =
    Lists ChannelStatusDiscriminants.pending_to_close states → After range.0 t × Before range.1 t
ClosesInRange states range _ = Unit

allows_iff :
    (states : List ChannelStatusDiscriminants) (d : ChannelStatusDiscriminants)
    → (allows states d ≡ true) ↔ Lists d states
allows_iff [] d = ground arith
allows_iff (s ∷ ss) d = ground (arith, allows_iff ss d)

state_iff :
    (states : List ChannelStatusDiscriminants) (status : ChannelStatus)
    → ((not (not (is_empty states) && not (allows states (discriminant status)))) ≡ true)
      ↔ StateAllowed states status
state_iff [] status = ground arith
state_iff (s ∷ ss) status = ground (arith, allows_iff (s ∷ ss) (discriminant status))

in_range_iff :
    (range : Bound × Bound) (t : ℕ)
    → (in_range range t ≡ true) ↔ (After range.0 t × Before range.1 t)
in_range_iff range t = ground arith

module _ {ℓ} {A I : Type ℓ} ⦃ea : Eq A⦄ ⦃ei : Eq I⦄ where
  -- A set identifier decides alone; else the parties do.
  abbrev pub SameChannel : Option I → ChannelSelector A I → ChannelEntry A I → Type ℓ
  SameChannel none s c =
      Every (λ a. c.source ≡ a) s.source × Every (λ a. c.destination ≡ a) s.destination
  SameChannel (some id) s c = c.id ≡ id

  by_identity_iff :
      (id : Option I) (s : ChannelSelector A I) (c : ChannelEntry A I)
      → (by_identity id s c ≡ true) ↔ SameChannel id s c
  unfolding by_identity
  by_identity_iff none s c =
      and_iff _ _ (matches_iff s.source c.source) (matches_iff s.destination c.destination)
  by_identity_iff (some id) s c = ei.beq_iff c.id id

  by_closure_iff :
      (s : ChannelSelector A I) (status : ChannelStatus)
      → (by_closure s status ≡ true) ↔ ClosesInRange s.allowed_states s.closure_time_range status
  unfolding by_closure
  by_closure_iff s (ChannelStatus.pending_to_close t) = ground (
    arith,
    allows_iff s.allowed_states ChannelStatusDiscriminants.pending_to_close,
    in_range_iff s.closure_time_range t,
  )
  by_closure_iff s _ = (λ _. tt, λ _. refl)

  -- A selector takes a channel exactly when it is the channel named, or else has the parties named;
  -- its state is among the allowed ones, unless none is given; and, where closing channels are
  -- allowed by name and this one is closing, it closes within the range.
  pub channel_satisfies_iff :
      (s : ChannelSelector A I) (c : ChannelEntry A I)
      → (satisfies s c ≡ true) ↔ (
          SameChannel s.id s c
          × (StateAllowed s.allowed_states c.status
              × ClosesInRange s.allowed_states s.closure_time_range c.status))
  unfolding satisfies
  channel_satisfies_iff s c =
      if_not_iff _ _ (by_identity_iff s.id s c)
        (guard_iff _ _ (state_iff s.allowed_states c.status) (by_closure_iff s c.status))

  -- The selectors that the builder's methods make.
  pub data Built : ChannelSelector A I → Type ℓ where
    fresh : Built default
    source_set : (a : A) {s : ChannelSelector A I} → Built s → Built (with_source a s)
    destination_set : (a : A) {s : ChannelSelector A I} → Built s → Built (with_destination a s)
    id_set : (i : I) {s : ChannelSelector A I} → Built s → Built (with_id i s)
    states_added :
        (ss : List ChannelStatusDiscriminants) {s : ChannelSelector A I}
        → Built s
        → Built (with_allowed_states ss s)
    range_set :
        (r : Bound × Bound) {s : ChannelSelector A I}
        → Built s
        → Built (with_closure_time_range r s)

  -- A selector that is built from the default by the builder methods, in any order and number, does
  -- not name both a channel and a party of one.
  pub Built-exclusive :
      {s : ChannelSelector A I}
      → Built s
      → (s.id ≡ none) ⊎ ((s.source ≡ none) × (s.destination ≡ none))
  unfolding default with_source with_destination with_id with_allowed_states with_closure_time_range
  Built-exclusive fresh = inl refl
  Built-exclusive (source_set a b) = inl refl
  Built-exclusive (destination_set a b) = inl refl
  Built-exclusive (id_set i b) = inr (refl, refl)
  Built-exclusive (states_added ss b) = Built-exclusive b
  Built-exclusive (range_set r b) = Built-exclusive b
