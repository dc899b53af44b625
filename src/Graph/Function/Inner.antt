-- ===== src/Graph/Function/Inner.antt =====
-- The edges of a path that lead into a relayer, across the three constructors.
use hopr_api.Prelude.{
  ℕ, ◌+◌, ◌-◌, ◌%◌, ◌<◌, ◌≡◌, sym, ◌∙◌, inl, inr, true, false, Option, arith, Bool-cases, ltb, leb,
  ◌==◌, if◌then◌else◌,
}
use hopr_api.Float.{Float}
use hopr_api.Word.{Word, u64_mod}
use hopr_api.Graph.Traits.{EdgeObservableRead}
use hopr_api.Graph.Function.{
  Terms, terms, scale_by_health, require_funding, first_edge, forward_edge_value,
  returning_edge_value, loopback_edge_value, but_last_by_health, forward, returning,
  forward_without_self_loopback,
}

-- The tests of the closures, at the index of an edge that is not the last.
inner_tests :
    (length index : ℕ)
    → index + 1 < length
    → length < u64_mod
    → (ltb ((index + 1) % u64_mod) length ≡ true)
      × ((index == length - 1) ≡ false)
      × (leb length index ≡ false)
inner_tests length index h u = ground arith

later : (index : ℕ) → 0 < index → (index == 0) ≡ false
later index h = ground arith

module _ {ℓ} {F U : Type ℓ} ⦃f : Float F⦄ ⦃w : Word U⦄ where
  -- A relay edge: funded for the hops after it, scored, and scaled by the relayer's health.
  abbrev pub relay_edge : Terms F U → F → EdgeObservableRead F U → ℕ → F
  relay_edge t cost o index =
      scale_by_health (require_funding o cost t.penalty (t.length - index - 1) t.face_value)
        o.health

  module _ (length : ℕ) (penalty least : F) (face : Option U) (cost : F)
      (o : EdgeObservableRead F U) (index : ℕ) (inner : index + 1 < length)
      (usize : length < u64_mod) where
    pub forward-inner : (forward length penalty least face).value_fn cost o index ≡ (
        if index == 0
        then scale_by_health (first_edge (terms length penalty least face) cost o) o.health
        else relay_edge (terms length penalty least face) cost o index)
    unfolding forward but_last_by_health forward_edge_value terms
    forward-inner =
        let (a, b, c) = inner_tests length index inner usize in
        rw (a, b) (elim (Bool-cases (index == 0)) [ inl e ↦ rw e | inr e ↦ rw (e, c) ])

    pub loopback-inner :
        (forward_without_self_loopback length penalty least face).value_fn cost o index ≡ (
          if index == 0
          then scale_by_health (first_edge (terms length penalty least face) cost o) o.health
          else relay_edge (terms length penalty least face) cost o index)
    unfolding forward_without_self_loopback loopback_edge_value terms
    loopback-inner =
        let (a, b, c) = inner_tests length index inner usize in
        elim (Bool-cases (index == 0)) [ inl e ↦ rw e | inr e ↦ rw (e, c) ]

    pub returning-inner :
        (returning length penalty least face).value_fn cost o index
        ≡ relay_edge (terms length penalty least face) cost o index
    unfolding returning but_last_by_health returning_edge_value terms
    returning-inner = let (a, b, c) = inner_tests length index inner usize in rw (a, b, c)

    -- Before the last edge, the value functions of whole forward paths and of paths whose loopback
    -- is appended later agree; past the first edge, that of return paths agrees with them.
    -- The length fits 64 bits.
    pub inner_agree :
        ((forward length penalty least face).value_fn cost o index
          ≡ (forward_without_self_loopback length penalty least face).value_fn cost o index)
        × (0 < index
            → (forward length penalty least face).value_fn cost o index
              ≡ (returning length penalty least face).value_fn cost o index)
    inner_agree = (
      forward-inner ∙ sym loopback-inner,
      λ h. rw (forward-inner, returning-inner, later index h),
    )
