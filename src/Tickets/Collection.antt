-- ===== src/Tickets/Collection.antt =====
-- src/node/incentive.rs: when `redeem_all_tickets` and `redeem_tickets_with_counterparty` succeed,
-- and what they return then.
use hopr_api.Prelude.{
  ◌≡◌, refl, ap, ◌↔◌, Option, some, List, [], ◌∷◌, Result, ok, err, map_err, Result-cases, inl, inr,
  map, All,
}
use mathlib.Core.Path.{subst}
use hopr_api.Chain.Channels.{ChannelEntry, ChannelSelector, default, with_source, with_destination}
use hopr_api.Node.Errors.{right}
use hopr_api.Tickets.{
  Client, try_collect, requested, open_streams, redeem_in_channels,
  redeem_tickets_with_counterparty, pending_to_close_redemption_tolerance, redeem_with,
}
use hopr_api.Tickets.Merge.{Merges, Within, Merges-Within, All-Merges, All-Within}

-- The item is no error.
abbrev pub IsOk {ℓ} : {X E : Type ℓ} → Result X E → Type 0
IsOk (ok x) = Unit
IsOk (err e) = ⊥

module _ {ℓ} {X E : Type ℓ} where
  pub collect_first :
      (x : X) (items : List (Result X E)) (xs : List X)
      → try_collect items ≡ ok xs
      → try_collect (ok x ∷ items) ≡ ok (x ∷ xs)
  unfolding try_collect
  collect_first x items xs e = rw (try_collect, e) refl

  collect :
      (items : List (Result X E))
      → All IsOk items
      → (xs : List X) × ((try_collect items ≡ ok xs) × (items ≡ map ok xs))
  unfolding try_collect
  collect [] h = ([], (refl, refl))
  collect (ok x ∷ items) h =
      let rest = collect items h.1 in
      (x ∷ rest.0, (collect_first x items rest.0 rest.1.0, ap (λ v. ok x ∷ v) rest.1.1))
  collect (err e ∷ items) h = absurd h.0

  pub collected_first :
      (x : X) (items : List (Result X E)) (e : E)
      → try_collect items ≡ err e
      → try_collect (ok x ∷ items) ≡ err e
  unfolding try_collect
  collected_first x items e h = rw (try_collect, h) refl

  collected : (items : List (Result X E)) (xs : List X) → try_collect items ≡ ok xs → All IsOk items
  unfolding try_collect
  collected [] xs h = tt
  collected (ok x ∷ items) xs h =
      let rest = collected items in
      elim (Result-cases (try_collect items)) [
        | inl (ys, e) ↦ (tt, rest ys e)
        | inr (z, e) ↦ cc (h, collected_first x items z e)
      ]
  collected (err e ∷ items) xs h = cc

-- The results are the items of the streams, none of them an error, interleaved.
abbrev pub CollectsAll {ℓ} : {X E : Type ℓ} → List (List (Result X E)) → List X → Type ℓ
CollectsAll streams xs = Merges streams (map ok xs)

module _ {ℓ} {X E : Type ℓ} (streams : List (List (Result X E))) (out : List (Result X E))
    (merges : Merges streams out) where
  All-kept : All IsOk out → All (All IsOk) streams
  All-kept h = each streams (Merges-Within merges)
    where
      each : (ss : List (List (Result X E))) → All (λ s. Within s out) ss → All (All IsOk) ss
      each [] ws = tt
      each (s ∷ ss) (w, ws) = (All-Within IsOk w h, each ss ws)

  collects_all : (xs : List X) → out ≡ map ok xs → CollectsAll streams xs
  collects_all xs e = rw e at merges

  collect_streams :
      All (All IsOk) streams → (xs : List X) × ((try_collect out ≡ ok xs) × CollectsAll streams xs)
  collect_streams h =
      let k = collect out (All-Merges IsOk merges h) in (k.0, (k.1.0, collects_all k.0 k.1.1))

  unwrapped :
      {D : Type ℓ} (f : E → D) (r : Result (List X) E) (xs : List X)
      → map_err f r ≡ ok xs
      → r ≡ ok xs
  unwrapped f (ok ys) xs h = cc
  unwrapped f (err e) xs h = cc

  collect_iff :
      {D : Type ℓ} (f : E → D)
      → (((xs : List X) × (map_err f (try_collect out) ≡ ok xs)) ↔ All (All IsOk) streams)
        × ((xs : List X) → map_err f (try_collect out) ≡ ok xs → CollectsAll streams xs)
  collect_iff f =
      let every = λ (xs : List X) (h : map_err f (try_collect out) ≡ ok xs).
        All-kept (collected out xs (unwrapped f (try_collect out) xs h)) in
      (
        (λ p. every p.0 p.1, λ h. let k = collect_streams h in (k.0, ap (map_err f) k.1.0)),
        λ xs h.
            let k = collect_streams (every xs h) in
            let same : k.0 ≡ xs = cc (k.1.0, unwrapped f (try_collect out) xs h) in
            subst (CollectsAll streams) same k.1.1,
      )

-- `merge` yields the items of its streams in some order that keeps the order in each.
module _ {ℓ} {A I E V B Z : Type ℓ} (client : Client A I E)
    (redeem_stream : I → Option B → Result (List (Result V Z)) Z)
    (merge : List (List (Result V Z)) → List (Result V Z)) (selector : Option (ChannelSelector A I))
    (min_value : B) (cs : List (ChannelEntry A I)) where
  pub redeem_with_answered :
      client.stream_channels
          (requested client selector (some pending_to_close_redemption_tolerance))
        ≡ ok cs
      → redeem_with client redeem_stream merge selector min_value
        ≡ map_err right (try_collect (merge (open_streams redeem_stream (some min_value) cs)))
  unfolding redeem_with redeem_in_channels
  redeem_with_answered answered = rw answered refl

module _ {ℓ} {A I E V B Z : Type ℓ} (client : Client A I E)
    (redeem_stream : I → Option B → Result (List (Result V Z)) Z)
    (merge : List (List (Result V Z)) → List (Result V Z)) where
  -- When the chain's client answers and `merge` yields the items of the streams, each stream's in
  -- its order, then redeeming the tickets of a counterparty succeeds exactly when no item of an
  -- opened stream is an error, and what it returns then is an interleaving of exactly the results
  -- in these streams, each stream's in its order.
  pub counterparty_redemption_iff :
      (node_address issuer : A) (min_value : B) (cs : List (ChannelEntry A I))
      → ((ss : List (List (Result V Z))) → Merges ss (merge ss))
      → client.stream_channels (
          requested client
            (some (with_destination node_address (with_source issuer default)))
            (some pending_to_close_redemption_tolerance))
        ≡ ok cs
      → (((vs : List V) × (redeem_tickets_with_counterparty client redeem_stream merge node_address
                issuer min_value
              ≡ ok vs))
          ↔ All (All IsOk) (open_streams redeem_stream (some min_value) cs))
        × ((vs : List V)
            → redeem_tickets_with_counterparty client redeem_stream merge node_address issuer
                min_value
              ≡ ok vs
            → CollectsAll (open_streams redeem_stream (some min_value) cs) vs)
  unfolding redeem_tickets_with_counterparty
  counterparty_redemption_iff node_address issuer min_value cs merges answered =
      rw
        (redeem_with_answered client redeem_stream merge
          (some (with_destination node_address (with_source issuer default))) min_value cs answered)
        (collect_iff (open_streams redeem_stream (some min_value) cs) _ (merges _) right)
