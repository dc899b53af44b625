-- ===== src/Node/Peers.antt =====
-- src/node/types.rs: the equality that is derived of announced peers.
use hopr_api.Prelude.{◌≡◌, refl, ◌↔◌, Bool, true, false, ◌&&◌, List, [], ◌∷◌, Eq, arith}
use hopr_api.Node.State.{AnnouncementOrigin, chain, dht, AnnouncedPeer}

abbrev pub same_origin : AnnouncementOrigin → AnnouncementOrigin → Bool
same_origin chain chain = true
same_origin chain dht = false
same_origin dht chain = false
same_origin dht dht = true

same_origin_iff : (o p : AnnouncementOrigin) → (same_origin o p ≡ true) ↔ (o ≡ p)
same_origin_iff o p = ground arith

module _ {ℓ} {M : Type ℓ} ⦃e : Eq M⦄ where
  -- `PartialEq` of vectors.
  unfoldable pub same_items : List M → List M → Bool
  same_items [] [] = true
  same_items [] (y ∷ ys) = false
  same_items (x ∷ xs) [] = false
  same_items (x ∷ xs) (y ∷ ys) = e.beq x y && same_items xs ys

  same_items_iff : (xs ys : List M) → (same_items xs ys ≡ true) ↔ (xs ≡ ys)
  unfolding same_items
  same_items_iff [] [] = (λ h. refl, λ h. refl)
  same_items_iff [] (y ∷ ys) = (λ h. cc, λ h. cc)
  same_items_iff (x ∷ xs) [] = (λ h. cc, λ h. cc)
  same_items_iff (x ∷ xs) (y ∷ ys) = ground (arith, same_items_iff xs ys, e.beq_iff x y)

module _ {ℓ} {A M : Type ℓ} ⦃ea : Eq A⦄ ⦃em : Eq M⦄ where
  -- Field by field, in the order of declaration.
  unfoldable pub same_peer : AnnouncedPeer A M → AnnouncedPeer A M → Bool
  same_peer p q =
      ea.beq p.address q.address
      && same_items p.multiaddresses q.multiaddresses
      && same_origin p.origin q.origin

  -- Two peers are equal exactly where all three fields are.
  pub same_peer_iff : (p q : AnnouncedPeer A M) → (same_peer p q ≡ true) ↔ (p ≡ q)
  unfolding same_peer
  same_peer_iff p q = ground (
    arith,
    ea.beq_iff p.address q.address,
    same_items_iff p.multiaddresses q.multiaddresses,
    same_origin_iff p.origin q.origin,
  )
