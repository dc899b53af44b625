-- ===== src/Chain/Channels/Redeemable.antt =====
-- The selector of the channels in which tickets can still be redeemed.
use hopr_api.Prelude.{
  ℕ, ◌+◌, ◌≤◌, ◌≡◌, ◌↔◌, inl, inr, true, Option, List, [], ◌∷◌, ◌++◌, arith, Eq, Every, unwrap_or,
}
use hopr_api.Chain.Channels.{
  ChannelStatus, open_channel, ChannelStatusDiscriminants, open_state, included, unbounded,
  ChannelEntry, ChannelSelector, with_destination, with_redeemable_channels, satisfies,
}
use hopr_api.Chain.Channels.Laws.{Lists, StateAllowed, ClosesInRange, channel_satisfies_iff}

-- The channel is open, or closes no earlier than the grace period from now.
abbrev pub RedeemableAt : ℕ → ChannelStatus → Type 0
RedeemableAt least ChannelStatus.closed = ⊥
RedeemableAt least open_channel = Unit
RedeemableAt least (ChannelStatus.pending_to_close t) = least ≤ t

abbrev redeemable_states : List ChannelStatusDiscriminants
redeemable_states = open_state ∷ ChannelStatusDiscriminants.pending_to_close ∷ []

abbrev Window : List ChannelStatusDiscriminants → ℕ → ChannelStatus → Type 0
Window states least status =
    StateAllowed (states ++ redeemable_states) status
    × ClosesInRange (states ++ redeemable_states) (included least, unbounded) status

Window-iff :
    (states : List ChannelStatusDiscriminants) (least : ℕ) (status : ChannelStatus)
    → states ≡ []
    → Window states least status ↔ RedeemableAt least status
Window-iff [] least status e = ground arith
Window-iff (x ∷ xs) least status e = cc

Lists-append :
    (d : ChannelStatusDiscriminants) (xs ys : List ChannelStatusDiscriminants)
    → Lists d xs
    → Lists d (xs ++ ys)
Lists-append d [] ys h = absurd h
Lists-append d (x ∷ xs) ys (inl e) = inl e
Lists-append d (x ∷ xs) ys (inr h) = inr (Lists-append d xs ys h)

closed-Window :
    (states : List ChannelStatusDiscriminants) (least : ℕ) (status : ChannelStatus)
    → Lists ChannelStatusDiscriminants.closed states
    → status ≡ ChannelStatus.closed
    → Window states least status
closed-Window [] least status l e = absurd l
closed-Window (x ∷ xs) least status l e =
    ground (arith, Lists-append ChannelStatusDiscriminants.closed (x ∷ xs) redeemable_states l)

module _ {ℓ} {A I : Type ℓ} ⦃ea : Eq A⦄ ⦃ei : Eq I⦄ where
  -- The selector that redemption makes of one that allows no state by name: it takes exactly the
  -- channels of the given source, if any, towards `me` in which tickets can be redeemed for the
  -- grace period at least. An identifier that the selector named counts for nothing.
  pub redeemable_iff :
      (s : ChannelSelector A I) (me : A) (now : ℕ) (grace : Option ℕ) (c : ChannelEntry A I)
      → s.allowed_states ≡ []
      → (satisfies (with_redeemable_channels now grace (with_destination me s)) c ≡ true) ↔ (
          Every (λ a. c.source ≡ a) s.source
          × (c.destination ≡ me)
          × RedeemableAt (now + unwrap_or grace 0) c.status)
  unfolding with_redeemable_channels with_destination
  redeemable_iff s me now grace c e =
      let taken =
        channel_satisfies_iff (with_redeemable_channels now grace (with_destination me s)) c in
      let states = Window-iff s.allowed_states (now + unwrap_or grace 0) c.status e in
      (
        λ h. let ((a, b), p) = taken.0 h in (a, b, states.0 p),
        λ h. taken.1 ((h.0, h.1), states.1 h.2),
      )

  -- States that the selector allowed before stay allowed: a channel towards `me`, of the source
  -- named if any, that the caller's selector allows as closed is taken although no ticket can be
  -- redeemed in it.
  pub closed_stays_allowed :
      (s : ChannelSelector A I) (me : A) (now : ℕ) (grace : Option ℕ) (c : ChannelEntry A I)
      → Lists ChannelStatusDiscriminants.closed s.allowed_states
      → c.status ≡ ChannelStatus.closed
      → Every (λ a. c.source ≡ a) s.source
      → c.destination ≡ me
      → satisfies (with_redeemable_channels now grace (with_destination me s)) c ≡ true
  unfolding with_redeemable_channels with_destination
  closed_stays_allowed s me now grace c l e src dst =
      (channel_satisfies_iff (with_redeemable_channels now grace (with_destination me s)) c).1
        ((src, dst), closed-Window s.allowed_states (now + unwrap_or grace 0) c.status l e)
