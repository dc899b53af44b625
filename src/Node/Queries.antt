-- ===== src/Node/Queries.antt =====
-- src/node/incentive.rs: the queries of channels and accounts, by the selectors that they build.
use hopr_api.Prelude.{◌≡◌, refl, ◌↔◌, true, Option, List, [], ◌∷◌, Result, arith, Eq}
use hopr_api.Chain.Channels.{
  ChannelStatus, ChannelStatusDiscriminants, open_state, ChannelEntry, ChannelSelector, default,
  with_source, with_destination, with_allowed_states, satisfies, unbounded,
}
use hopr_api.Chain.Channels.Laws.{StateAllowed, ClosesInRange, channel_satisfies_iff}
use hopr_api.Chain.Resolver.{ChainReads, channel_by_parties}
use hopr_api.Chain.Accounts
use hopr_api.Chain.Accounts.{AccountEntry, AccountSelector}

abbrev all_states : List ChannelStatusDiscriminants
all_states =
    ChannelStatusDiscriminants.closed ∷ open_state ∷ ChannelStatusDiscriminants.pending_to_close
    ∷ []

module _ {ℓ} {A I : Type ℓ} where
  unfoldable pub selector_to : A → ChannelSelector A I
  unfolding default with_destination with_allowed_states
  selector_to destination = with_allowed_states all_states (with_destination destination default)

  unfoldable pub selector_from : A → ChannelSelector A I
  unfolding default with_source with_allowed_states
  selector_from source = with_allowed_states all_states (with_source source default)

module _ {ℓ} {A I X E : Type ℓ} (stream_channels : ChannelSelector A I → Result X E) where
  abbrev pub channels_to : A → Result X E
  channels_to destination = stream_channels (selector_to destination)

  abbrev pub channels_from : A → Result X E
  channels_from source = stream_channels (selector_from source)

module _ {ℓ} {A K : Type ℓ} where
  unfoldable pub announced_selector : AccountSelector A K
  unfolding Accounts.default
  announced_selector = record (Accounts.default) { public_only = true }

abbrev pub announced_peers {ℓ} :
    {A K X E : Type ℓ} → (AccountSelector A K → Result X E) → Result X E
announced_peers stream_accounts = stream_accounts announced_selector

module _ {ℓ} {A K I C E : Type ℓ} (generate_channel_id : A → A → I)
    (chain : ChainReads A K I C E) where
  abbrev pub channel_by_id : I → Result (Option C) E
  channel_by_id channel_id = chain.channel_by_id channel_id

  abbrev pub channel : A → A → Result (Option C) E
  channel source destination = channel_by_parties generate_channel_id chain source destination

every_state :
    (status : ChannelStatus)
    → StateAllowed all_states status × ClosesInRange all_states (unbounded, unbounded) status
every_state status = ground arith

module _ {ℓ} {A I : Type ℓ} ⦃ea : Eq A⦄ ⦃ei : Eq I⦄ where
  -- The channels asked for by `channels_to` and `channels_from` are all those with the destination,
  -- or the source, in whatever state they are and whenever they close.
  pub channel_queries_iff :
      (a : A) (c : ChannelEntry A I)
      → ((satisfies (selector_to a) c ≡ true) ↔ (c.destination ≡ a))
        × ((satisfies (selector_from a) c ≡ true) ↔ (c.source ≡ a))
  unfolding selector_to selector_from
  channel_queries_iff a c =
      let to = channel_satisfies_iff (selector_to a) c in
      let from = channel_satisfies_iff (selector_from a) c in
      (
        (λ h. (to.0 h).0.1, λ h. to.1 ((tt, h), every_state c.status)),
        (λ h. (from.0 h).0.0, λ h. from.1 ((h, tt), every_state c.status)),
      )

-- The accounts asked for by `announced_peers` are those announced with routable addresses.
pub announced_peers_iff {ℓ} :
    {A K : Type ℓ} ⦃ea : Eq A⦄ ⦃ek : Eq K⦄ (account : AccountEntry A K)
    → (Accounts.satisfies announced_selector account ≡ true)
      ↔ (account.has_announced_with_routing_info ≡ true)
unfolding announced_selector
announced_peers_iff account =
    let all = Accounts.account_satisfies_iff announced_selector account in
    (λ h. (all.0 h).0 refl, λ h. all.1 ((λ _. h), (tt, (tt, tt))))
