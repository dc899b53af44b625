-- ===== src/Tests/Tickets.antt =====
-- src/tickets/mod.rs and the redemption of src/node/incentive.rs at concrete inputs.
use hopr_api.Prelude.{
  ℕ, ◌≡◌, refl, sym, ◌↔◌, ◌++◌, true, false, Option, none, some, List, [], ◌∷◌, Memᴰ, Result, ok,
  nat_eq, All, Bool-cases, inl, inr,
}
use hopr_api.Chain.Channels.{
  ChannelStatus, ChannelEntry, ChannelSelector, default, with_source, with_destination, satisfies,
  unbounded,
}
use hopr_api.Tickets.{
  Client, requested, open_streams, redeem_in_channels, redeem_tickets_with_counterparty,
  pending_to_close_redemption_tolerance,
}
use hopr_api.Tickets.Merge.{Takes, Merges}
use hopr_api.Tickets.Redemption.{Honours, RedeemedFrom, redeem_in_channels_iff}
use hopr_api.Tickets.Collection.{IsOk, CollectsAll, counterparty_redemption_iff}

-- Channel 5 is open towards 2, and channel 6 closed.
abbrev pub channel : ChannelEntry ℕ ℕ
channel = record { id = 5; source = 1; destination = 2; status = ChannelStatus.open_channel }

abbrev pub known : List (ChannelEntry ℕ ℕ)
known = channel ∷ record channel { id = 6; status = ChannelStatus.closed } ∷ []

-- `filter` of the channels by the selector.
unfoldable pub filtered : ChannelSelector ℕ ℕ → List (ChannelEntry ℕ ℕ) → List (ChannelEntry ℕ ℕ)
filtered s [] = []
filtered s (c ∷ cs) =
    let rest = filtered s cs in elim (satisfies s c) [ true ↦ c ∷ rest | false ↦ rest ]

abbrev pub client : Client ℕ ℕ ℕ
client = record { me = 2; now = 100; stream_channels = λ s. ok (filtered s known) }

-- Each channel has two tickets.
abbrev stream : ℕ → Option ℕ → Result (List (Result ℕ ℕ)) ℕ
stream id min_amount = ok (ok id ∷ ok 7 ∷ [])

module _ (s : ChannelSelector ℕ ℕ) where
  keep_one :
      (c : ChannelEntry ℕ ℕ) (cs : List (ChannelEntry ℕ ℕ))
      → satisfies s c ≡ true
      → filtered s (c ∷ cs) ≡ c ∷ filtered s cs
  unfolding filtered
  keep_one c cs e = rw (filtered, e) refl

  drop_one :
      (c : ChannelEntry ℕ ℕ) (cs : List (ChannelEntry ℕ ℕ))
      → satisfies s c ≡ false
      → filtered s (c ∷ cs) ≡ filtered s cs
  unfolding filtered
  drop_one c cs e = rw (filtered, e) refl

  filtered_sound :
      (cs : List (ChannelEntry ℕ ℕ)) (c : ChannelEntry ℕ ℕ)
      → Memᴰ c (filtered s cs)
      → Memᴰ c cs × (satisfies s c ≡ true)
  unfolding filtered
  filtered_sound [] c m = elim m [ ]
  filtered_sound (d ∷ cs) c m =
      let rest = filtered_sound cs c in
      elim (Bool-cases (satisfies s d)) [
        | inl e ↦ first d cs c e rest (rw (keep_one d cs e) at m)
        | inr e ↦ let h = rest (rw (drop_one d cs e) at m) in (Memᴰ.tail h.0, h.1)
      ]
    where
      first :
          (d : ChannelEntry ℕ ℕ) (cs : List (ChannelEntry ℕ ℕ)) (c : ChannelEntry ℕ ℕ)
          → satisfies s d ≡ true
          → (Memᴰ c (filtered s cs) → Memᴰ c cs × (satisfies s c ≡ true))
          → Memᴰ c (d ∷ filtered s cs)
          → Memᴰ c (d ∷ cs) × (satisfies s c ≡ true)
      first d cs c e rest (Memᴰ.head h) = (Memᴰ.head h, rw h e)
      first d cs c e rest (Memᴰ.tail m) = let h = rest m in (Memᴰ.tail h.0, h.1)

  filtered_complete :
      (cs : List (ChannelEntry ℕ ℕ)) (c : ChannelEntry ℕ ℕ)
      → Memᴰ c cs
      → satisfies s c ≡ true
      → Memᴰ c (filtered s cs)
  filtered_complete [] c m h = elim m [ ]
  filtered_complete (d ∷ cs) c (Memᴰ.head e) h = rw (keep_one d cs (rw (sym e) h)) (Memᴰ.head e)
  filtered_complete (d ∷ cs) c (Memᴰ.tail m) h =
      let rest = filtered_complete cs c m h in
      elim (Bool-cases (satisfies s d)) [
        | inl e ↦ rw (keep_one d cs e) (Memᴰ.tail rest)
        | inr e ↦ rw (drop_one d cs e) rest
      ]

pub client-Honours : Honours client stream known
client-Honours s cs e c =
    rw (answered s cs e) (filtered_sound s known c, λ (m, h). filtered_complete s known c m h)
  where
    answered :
        (s : ChannelSelector ℕ ℕ) (cs : List (ChannelEntry ℕ ℕ))
        → client.stream_channels s ≡ ok cs
        → cs ≡ filtered s known
    answered s cs e = cc

abbrev by_source : ChannelSelector ℕ ℕ
by_source = record {
  source = some 1;
  destination = none;
  id = some 5;
  allowed_states = [];
  closure_time_range = (unbounded, unbounded);
}

redeem_in_channels_iff_example :
    (streams : List (List (Result ℕ ℕ))) × ((redeem_in_channels client stream
          (some by_source)
          (some 4)
          none
        ≡ ok streams)
      × ((one : List (Result ℕ ℕ))
          → Memᴰ one streams ↔ RedeemedFrom client stream known (some 1) (some 4) none one))
redeem_in_channels_iff_example =
    redeem_in_channels_iff client stream known by_source (some 4) none
      (filtered (requested client (some by_source) none) known) client-Honours refl refl

-- Stream after stream.
abbrev pub in_turn {ℓ} : {X : Type ℓ} → List (List X) → List X
in_turn [] = []
in_turn (s ∷ ss) = s ++ in_turn ss

add_empty {ℓ} :
    {X : Type ℓ} {ss : List (List X)} {out : List X} → Merges ss out → Merges ([] ∷ ss) out
add_empty (Merges.ends e) = Merges.ends (refl, e)
add_empty (Merges.yields t m) = Merges.yields (Takes.other t) (add_empty m)

pub in_turn-Merges {ℓ} : {X : Type ℓ} (ss : List (List X)) → Merges ss (in_turn ss)
in_turn-Merges [] = Merges.ends tt
in_turn-Merges {X = X} (s ∷ ss) = before s (in_turn-Merges ss)
  where
    before : {out : List X} (s : List X) → Merges ss out → Merges (s ∷ ss) (s ++ out)
    before [] m = add_empty m
    before (x ∷ s) m = Merges.yields Takes.this (before s m)

-- What the client returns of the channels from 1.
abbrev from_one : List (ChannelEntry ℕ ℕ)
from_one =
    filtered
      (requested client (some (with_destination 2 (with_source 1 default)))
        (some pending_to_close_redemption_tolerance))
      known

counterparty_redemption_iff_example :
    (((vs : List ℕ) × (redeem_tickets_with_counterparty client stream in_turn 2 1 4 ≡ ok vs))
      ↔ All (All IsOk) (open_streams stream (some 4) from_one))
    × ((vs : List ℕ)
        → redeem_tickets_with_counterparty client stream in_turn 2 1 4 ≡ ok vs
        → CollectsAll (open_streams stream (some 4) from_one) vs)
counterparty_redemption_iff_example =
    counterparty_redemption_iff client stream in_turn 2 1 4 from_one in_turn-Merges refl

-- The streams of the redeemable channels that the client has for a selector.
abbrev streams_of : Option (ChannelSelector ℕ ℕ) → List (List (Result ℕ ℕ))
streams_of s = open_streams stream (some 4) (filtered (requested client s none) known)

redeemed_of :
    (s : Option (ChannelSelector ℕ ℕ))
    → redeem_in_channels client stream s (some 4) none ≡ ok (streams_of s)
unfolding redeem_in_channels
redeemed_of s = refl
