-- ===== src/Tests/Peers.antt =====
-- The tests of src/node/types.rs and of src/network/types.rs. An address and a multiaddress are
-- numbers.
use hopr_api.Prelude.{
  ℕ, ◌≡◌, refl, Bool, true, not, ◌&&◌, List, [], ◌∷◌, ◌++◌, map, length, nat_eq, ◌==◌,
  if◌then◌else◌,
}
use hopr_api.Node.State.{
  AnnouncementOrigin, AnnouncedPeer, Health, unknown, red, orange, yellow, green, health_number,
}
use hopr_api.Node.Peers.{same_origin, same_items, same_peer}

-- `HashSet::insert`: an origin that is there already changes nothing.
abbrev insert : AnnouncementOrigin → List AnnouncementOrigin → List AnnouncementOrigin
insert o [] = o ∷ []
insert o (p ∷ set) = let rest = insert o set in if same_origin p o then p ∷ set else p ∷ rest

abbrev announcement_origin_should_be_usable_as_hash_key : Bool
announcement_origin_should_be_usable_as_hash_key =
    length (
      insert AnnouncementOrigin.chain
        (insert AnnouncementOrigin.dht (insert AnnouncementOrigin.chain [])))
    == 2

usable_as_hash_key_passes : announcement_origin_should_be_usable_as_hash_key ≡ true
usable_as_hash_key_passes = refl

abbrev peer_from : AnnouncementOrigin → AnnouncedPeer ℕ ℕ
peer_from origin = record { address = 0; multiaddresses = []; origin = origin }

abbrev announced_peer_should_support_equality : Bool
announced_peer_should_support_equality =
    same_peer (peer_from AnnouncementOrigin.chain) (peer_from AnnouncementOrigin.chain)

supports_equality_passes : announced_peer_should_support_equality ≡ true
unfolding same_peer same_items
supports_equality_passes = refl

abbrev announced_peers_with_different_origins_should_not_be_equal : Bool
announced_peers_with_different_origins_should_not_be_equal =
    not (same_peer (peer_from AnnouncementOrigin.chain) (peer_from AnnouncementOrigin.dht))

different_origins_passes : announced_peers_with_different_origins_should_not_be_equal ≡ true
unfolding same_peer same_items
different_origins_passes = refl

-- A clone is the value itself, and `push` changes only the clone.
abbrev listed : AnnouncedPeer ℕ ℕ
listed = record (peer_from AnnouncementOrigin.chain) { multiaddresses = 1234 ∷ [] }

abbrev pushed : AnnouncedPeer ℕ ℕ
pushed = record listed { multiaddresses = listed.multiaddresses ++ 5678 ∷ [] }

abbrev announced_peer_clone_should_be_independent : Bool
announced_peer_clone_should_be_independent =
    length listed.multiaddresses == 1 && length pushed.multiaddresses == 2

clone_independent_passes : announced_peer_clone_should_be_independent ≡ true
clone_independent_passes = refl

-- `Health::iter()`
abbrev healths : List Health
healths = unknown ∷ red ∷ orange ∷ yellow ∷ green ∷ []

abbrev network_health_should_be_representable_numerically_and_ordered : List ℕ
network_health_should_be_representable_numerically_and_ordered = map health_number healths

representable_numerically_passes :
    network_health_should_be_representable_numerically_and_ordered ≡ 0 ∷ 1 ∷ 2 ∷ 3 ∷ 4 ∷ []
representable_numerically_passes = refl
