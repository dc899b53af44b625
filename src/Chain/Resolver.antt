-- ===== src/Chain/Resolver.antt =====
-- src/chain/mod.rs: the path address resolver over the key and channel reads of a chain.
use hopr_api.Prelude.{Option, Result, ok, err, map_err, ◌≡◌, ◌↔◌, arith}

-- The errors of hopr_types that the resolver makes, over the texts it formats.
pub data PathError {ℓ} (M : Type ℓ) : Type ℓ where
  unknown_peer : M → PathError M
  missing_channel : M → M → PathError M

-- What the resolver calls of a chain: `A` addresses, `K` packet keys, `I` channel identifiers, `C`
-- channel entries.
pub record ChainReads {ℓ} (A K I C E : Type ℓ) : Type ℓ where
  pub chain_key_to_packet_key : A → Result (Option K) E
  pub packet_key_to_chain_key : K → Result (Option A) E
  pub channel_by_id : I → Result (Option C) E

-- The texts: `shows_a` prints an address, the others a key or an address with an error.
pub record Formats {ℓ} (A K E M : Type ℓ) : Type ℓ where
  pub shows_address : A → M
  pub shows_address_error : A → E → M
  pub shows_key_error : K → E → M

module _ {ℓ} {A K I C E : Type ℓ} (generate_channel_id : A → A → I)
    (chain : ChainReads A K I C E) where
  -- The provided method of `ChainReadChannelOperations`.
  abbrev pub channel_by_parties : A → A → Result (Option C) E
  channel_by_parties src dst = chain.channel_by_id (generate_channel_id src dst)

module _ {ℓ} {A K I C E M : Type ℓ} (generate_channel_id : A → A → I) (chain : ChainReads A K I C E)
    (format : Formats A K E M) where
  abbrev pub resolve_transport_address : A → Result (Option K) (PathError M)
  resolve_transport_address address =
      map_err (λ e. unknown_peer (format.shows_address_error address e))
        (chain.chain_key_to_packet_key address)

  abbrev pub resolve_chain_address : K → Result (Option A) (PathError M)
  resolve_chain_address key =
      map_err (λ e. unknown_peer (format.shows_key_error key e)) (chain.packet_key_to_chain_key key)

  abbrev pub get_channel : A → A → Result (Option C) (PathError M)
  get_channel src dst =
      map_err (λ e. missing_channel (format.shows_address src) (format.shows_address_error dst e))
        (channel_by_parties generate_channel_id chain src dst)

  map_err_iff :
      {X : Type ℓ} (f : E → PathError M) (r : Result X E) (x : X)
      → (map_err f r ≡ ok x) ↔ (r ≡ ok x)
  map_err_iff f (ok y) x = ground arith
  map_err_iff f (err e) x = ground arith

  -- The resolver answers exactly what the chain answers, a missing key, address or channel included,
  -- and fails exactly when the chain does.
  pub resolver_iff :
      (src dst : A) (key : K) (found : Option K) (address : Option A) (channel : Option C)
      → ((resolve_transport_address src ≡ ok found)
          ↔ (chain.chain_key_to_packet_key src ≡ ok found))
        × ((resolve_chain_address key ≡ ok address)
            ↔ (chain.packet_key_to_chain_key key ≡ ok address))
        × ((get_channel src dst ≡ ok channel)
            ↔ (chain.channel_by_id (generate_channel_id src dst) ≡ ok channel))
  resolver_iff src dst key found address channel = (
    map_err_iff _ (chain.chain_key_to_packet_key src) found,
    map_err_iff _ (chain.packet_key_to_chain_key key) address,
    map_err_iff _ (chain.channel_by_id (generate_channel_id src dst)) channel,
  )
