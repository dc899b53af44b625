-- ===== src/Tickets/Redemption.antt =====
-- src/tickets/mod.rs: which channels `redeem_in_channels` redeems in, and what the group of their
-- streams yields.
use hopr_api.Prelude.{
  ℕ, ◌+◌, ◌≡◌, refl, sym, ◌↔◌, true, Option, some, List, [], ◌∷◌, Memᴰ, Result, ok, err,
  Result-cases, inl, inr, Eq, Every, unwrap_or,
}
use hopr_api.Chain.Channels.{ChannelEntry, ChannelSelector, satisfies}
use hopr_api.Chain.Channels.Redeemable.{RedeemableAt, redeemable_iff}
use hopr_api.Tickets.{Client, requested, open_streams, redeem_in_channels}

module _ {ℓ} {A I R B Z : Type ℓ} (redeem_stream : I → Option B → Result (List R) Z)
    (min_amount : Option B) (c : ChannelEntry A I) (cs : List (ChannelEntry A I)) where
  open_one :
      (s : List R)
      → redeem_stream c.id min_amount ≡ ok s
      → open_streams redeem_stream min_amount (c ∷ cs)
        ≡ s ∷ open_streams redeem_stream min_amount cs
  unfolding open_streams
  open_one s e = rw (open_streams, e) refl

  open_none :
      (z : Z)
      → redeem_stream c.id min_amount ≡ err z
      → open_streams redeem_stream min_amount (c ∷ cs) ≡ open_streams redeem_stream min_amount cs
  unfolding open_streams
  open_none z e = rw (open_streams, e) refl

module _ {ℓ} {A I R B Z : Type ℓ} (redeem_stream : I → Option B → Result (List R) Z)
    (min_amount : Option B) where
  abbrev OpenedIn : List (ChannelEntry A I) → List R → Type ℓ
  OpenedIn cs stream =
      (c : ChannelEntry A I) × (Memᴰ c cs × (redeem_stream c.id min_amount ≡ ok stream))

  opened_here :
      (c : ChannelEntry A I) (cs : List (ChannelEntry A I)) (s stream : List R)
      → redeem_stream c.id min_amount ≡ ok s
      → (Memᴰ stream (open_streams redeem_stream min_amount cs) → OpenedIn cs stream)
      → Memᴰ stream (s ∷ open_streams redeem_stream min_amount cs)
      → OpenedIn (c ∷ cs) stream
  opened_here c cs s stream e rest (Memᴰ.head h) = (c, (Memᴰ.head refl, rw h e))
  opened_here c cs s stream e rest (Memᴰ.tail m) = let h = rest m in (h.0, (Memᴰ.tail h.1.0, h.1.1))

  opened :
      (cs : List (ChannelEntry A I)) (stream : List R)
      → Memᴰ stream (open_streams redeem_stream min_amount cs)
      → OpenedIn cs stream
  unfolding open_streams
  opened [] stream m = elim m [ ]
  opened (c ∷ cs) stream m =
      let rest = opened cs stream in
      elim (Result-cases (redeem_stream c.id min_amount)) [
        | inl (s, e) ↦
            opened_here c cs s stream e rest (rw (open_one redeem_stream min_amount c cs s e) at m)
        | inr (z, e) ↦
            let h = rest (rw (open_none redeem_stream min_amount c cs z e) at m) in
            (h.0, (Memᴰ.tail h.1.0, h.1.1))
      ]

  opens :
      (cs : List (ChannelEntry A I)) (stream : List R) (c : ChannelEntry A I)
      → Memᴰ c cs
      → redeem_stream c.id min_amount ≡ ok stream
      → Memᴰ stream (open_streams redeem_stream min_amount cs)
  opens [] stream c m f = elim m [ ]
  opens (d ∷ cs) stream c (Memᴰ.head h) f =
      rw (open_one redeem_stream min_amount d cs stream (rw (sym h) f)) (Memᴰ.head refl)
  opens (d ∷ cs) stream c (Memᴰ.tail m) f =
      let rest = opens cs stream c m f in
      elim (Result-cases (redeem_stream d.id min_amount)) [
        | inl (s, e) ↦ rw (open_one redeem_stream min_amount d cs s e) (Memᴰ.tail rest)
        | inr (z, e) ↦ rw (open_none redeem_stream min_amount d cs z e) rest
      ]

module _ {ℓ} {A I E R B Z : Type ℓ} ⦃ea : Eq A⦄ ⦃ei : Eq I⦄ (client : Client A I E)
    (redeem_stream : I → Option B → Result (List R) Z) where
  -- Of the channels `known` to the chain, the client returns those that the selector takes.
  abbrev pub Honours : List (ChannelEntry A I) → Type ℓ
  Honours known =
      (s : ChannelSelector A I) (cs : List (ChannelEntry A I))
      → client.stream_channels s ≡ ok cs
      → (c : ChannelEntry A I) → Memᴰ c cs ↔ (Memᴰ c known × (satisfies s c ≡ true))

  -- A known channel towards this node, of the source named if any, in which tickets can be
  -- redeemed for the grace period at least, and whose stream is `stream`.
  abbrev pub RedeemedFrom :
      List (ChannelEntry A I) → Option A → Option B → Option ℕ → List R → Type ℓ
  RedeemedFrom known source min_amount grace stream =
      (c : ChannelEntry A I) × (Memᴰ c known
        × (Every (λ a. c.source ≡ a) source
            × (c.destination ≡ client.me)
            × RedeemableAt (client.now + unwrap_or grace 0) c.status)
        × (redeem_stream c.id min_amount ≡ ok stream))

  -- When the chain's client honours selectors and answers the one that redemption makes of the
  -- given one, which names no states, redemption returns a group that holds exactly the streams of
  -- the channels towards this node, from the source that the given selector names if it names one,
  -- in which tickets can be redeemed for the grace period at least, and whose stream can be opened.
  -- Nothing else of the given selector counts: an identifier in it is unset with the destination.
  pub redeem_in_channels_iff :
      (known : List (ChannelEntry A I)) (s : ChannelSelector A I) (min_amount : Option B)
      (grace : Option ℕ) (cs : List (ChannelEntry A I))
      → Honours known
      → s.allowed_states ≡ []
      → client.stream_channels (requested client (some s) grace) ≡ ok cs
      → (streams : List (List R)) × ((redeem_in_channels client redeem_stream
              (some s)
              min_amount
              grace
            ≡ ok streams)
          × ((stream : List R)
              → Memᴰ stream streams ↔ RedeemedFrom known s.source min_amount grace stream))
  unfolding redeem_in_channels
  redeem_in_channels_iff known s min_amount grace cs honours none_named answered =
      let taken = honours (requested client (some s) grace) cs answered in
      let redeemable =
        λ (c : ChannelEntry A I). redeemable_iff s client.me client.now grace c none_named in
      (
        open_streams redeem_stream min_amount cs,
        (
          rw (redeem_in_channels, answered) refl,
          λ stream. (
            λ m.
                let h = opened redeem_stream min_amount cs stream m in
                let k = (taken h.0).0 h.1.0 in (h.0, (k.0, (redeemable h.0).0 k.1, h.1.1)),
            λ h.
                opens redeem_stream min_amount cs stream h.0
                  ((taken h.0).1 (h.1.0, (redeemable h.0).1 h.1.1)) h.1.2,
          ),
        ),
      )
