-- ===== src/Chain/Pool/Attribution.antt =====
-- src/chain/deposit_pool.rs: matching the outcomes of a batch with its inputs, in any order.
pub mod Moves
use hopr_api.Prelude.{
  ℕ, ◌≤◌, ◌≡◌, refl, sym, ap, ◌∙◌, ◌↔◌, inl, inr, Option, none, some, Option-cases, Bool-cases,
  List, [], ◌∷◌, Memᴰ, All, All-Memᴰ, length, Result, ok, err, map_ok, Eq, if◌then◌else◌,
}
use mathlib.Core.Option.{some-injective}
use hopr_api.Chain.Pool.JoinAll.{Paired, none_left, pair, join_all_finishes}
use hopr_api.Chain.Pool.{DepositPool, BatchOutcomes, one_deposit, deposit_funds_to_multiple}

-- `into_iter().flatten().collect::<BTreeMap<_, _>>().get(id)`: a later entry replaces an earlier.
unfoldable pub by_allocation {ℓ} : {I R E : Type ℓ} ⦃e : Eq I⦄ → BatchOutcomes I R E → I → Option R
by_allocation [] id = none
by_allocation (err e ∷ outs) id = by_allocation outs id
by_allocation ⦃e⦄ (ok (key, r) ∷ outs) id =
    let later = by_allocation outs id in
    elim later [ some r' ↦ some r' | none ↦ if e.beq key id then some r else none ]

-- No two inputs have the same identifier.
abbrev pub DistinctBy {ℓ} : {Op I : Type ℓ} → (Op → I) → List Op → Type ℓ
DistinctBy key [] = Unit
DistinctBy key (op ∷ ops) = All (λ other. ¬ (key other ≡ key op)) ops × DistinctBy key ops

none-some {ℓ} : {A : Type ℓ} {a : A} → none ≡ some a → ⊥
none-some e = cc

ok-pair {ℓ} :
    {I R E : Type ℓ} {id key : I} {r r' : R}
    → key ≡ id
    → r' ≡ r
    → ◌≡◌ {A = Result (I × R) E} (ok (id, r)) (ok (key, r'))
ok-pair a b = cc

ok-injective {ℓ} :
    {I R E : Type ℓ} {id key : I} {r r' : R}
    → ◌≡◌ {A = Result (I × R) E} (ok (id, r)) (ok (key, r'))
    → (id ≡ key) × (r ≡ r')
ok-injective h = (cc, cc)

pub tagged_answer {ℓ} :
    {I R E : Type ℓ} {id found : I} {r : R} (answer : Result R E)
    → map_ok {B = I × R} (λ receipt. (id, receipt)) answer ≡ ok (found, r)
    → (found ≡ id) × (answer ≡ ok r)
tagged_answer (ok a) h = let (k, c) = ok-injective h in (sym k, ap ok c)
tagged_answer (err x) h = cc

module _ {ℓ} {I R E : Type ℓ} ⦃e : Eq I⦄ where
  found_mem :
      (outs : BatchOutcomes I R E) (id : I) (r : R)
      → by_allocation outs id ≡ some r
      → Memᴰ (ok (id, r)) outs
  unfolding by_allocation
  found_mem [] id r h = cc
  found_mem (err x ∷ outs) id r h = Memᴰ.tail (found_mem outs id r h)
  found_mem (ok (key, r') ∷ outs) id r h =
      let later = found_mem outs id r in
      elim (Option-cases (by_allocation outs id)) [
        | inr (a, c) ↦ Memᴰ.tail (later (c ∙ (rw c at h)))
        | inl c ↦ elim (Bool-cases (e.beq key id)) [
          | inl b ↦
              Memᴰ.head (ok-pair ((e.beq_iff key id).0 b) (some-injective _ _ (rw (c, b) at h)))
          | inr b ↦ absurd (none-some (rw (c, b) at h))
        ]
      ]

  mem_found :
      (outs : BatchOutcomes I R E) (id : I) (r : R)
      → Memᴰ (ok (id, r)) outs
      → (r' : R) × (by_allocation outs id ≡ some r')
  unfolding by_allocation
  mem_found [] id r m = elim m [ ]
  mem_found (err x ∷ outs) id r (Memᴰ.head h) = cc
  mem_found (err x ∷ outs) id r (Memᴰ.tail m) = mem_found outs id r m
  mem_found (ok (key, r') ∷ outs) id r (Memᴰ.head h) = elim (Option-cases (by_allocation outs id)) [
    | inr (a, c) ↦ (a, rw c refl)
    | inl c ↦ (r', rw (c, (e.beq_iff key id).1 (sym (ok-injective h).0)) refl)
  ]
  mem_found (ok (key, r') ∷ outs) id r (Memᴰ.tail m) =
      let (a, c) = mem_found outs id r m in (a, rw c refl)

-- `result.ok()`
abbrev pub receipt_of {ℓ} : {R E : Type ℓ} → Result R E → Option R
receipt_of (ok r) = some r
receipt_of (err e) = none

module _ {ℓ} {S Op I R E : Type ℓ} (key : Op → I) (answer : Op → S → Result R E) where
  -- The outcome is an answer to the input, under the input's identifier.
  abbrev pub Names : Op → Result (I × R) E → Type ℓ
  Names op out = (s : S) × (out ≡ map_ok (λ receipt. (key op, receipt)) (answer op s))

  told :
      {id : I} {r : R} {ops : List Op} {outs : BatchOutcomes I R E}
      → Paired Names ops outs
      → Memᴰ (ok (id, r)) outs
      → (op : Op) × Memᴰ op ops × (id ≡ key op)
  told none_left m = elim m [ ]
  told (pair {op = op} (s, t) p) (Memᴰ.head h) =
      (op, Memᴰ.head refl, (tagged_answer (answer op s) (sym t ∙ sym h)).0)
  told (pair t p) (Memᴰ.tail m) = let (op, n, k) = told p m in (op, Memᴰ.tail n, k)

  -- An input's outcome is there, and no other names the input.
  own :
      {ops : List Op} {outs : BatchOutcomes I R E} (op : Op)
      → Paired Names ops outs
      → DistinctBy key ops
      → Memᴰ op ops
      → (s : S) × Memᴰ (map_ok (λ receipt. (key op, receipt)) (answer op s)) outs
        × ((r : R) → Memᴰ (ok (key op, r)) outs → answer op s ≡ ok r)
  own op none_left d m = elim m [ ]
  own op (pair {op = other} {out = out} (s, t) p) (f, d) (Memᴰ.head x) = (
    s,
    Memᴰ.head (rw (x, t) refl),
    λ r n. elim n [
      | Memᴰ.head h ↦ ap (λ o. answer o s) x ∙ (tagged_answer (answer other s) (sym t ∙ sym h)).1
      | Memᴰ.tail n ↦ let (op', m, k) = told p n in absurd (All-Memᴰ _ _ f m (sym k ∙ ap key x))
    ],
  )
  own op (pair {op = other} {out = out} (s, t) p) (f, d) (Memᴰ.tail m) =
      let (s', n, only) = own op p d m in
      (
        s',
        Memᴰ.tail n,
        λ r n. elim n [
          | Memᴰ.head h ↦
              absurd (All-Memᴰ _ _ f m (tagged_answer (answer other s) (sym t ∙ sym h)).0)
          | Memᴰ.tail n ↦ only r n
        ],
      )

  module _ ⦃e : Eq I⦄ (outs outs' : BatchOutcomes I R E)
      (same : (out : Result (I × R) E) → Memᴰ out outs' ↔ Memᴰ out outs) (id : I) where
    found_own :
        (a : Result R E)
        → Memᴰ (map_ok (λ receipt. (id, receipt)) a) outs
        → ((r : R) → Memᴰ (ok (id, r)) outs → a ≡ ok r)
        → by_allocation outs' id ≡ receipt_of a
    found_own (ok r) m only =
        let (r', h) = mem_found outs' id r ((same _).1 m) in
        h ∙ sym (ap receipt_of (only r' ((same _).0 (found_mem outs' id r' h))))
    found_own (err z) m only = elim (Option-cases (by_allocation outs' id)) [
      | inl h ↦ h
      | inr (r, h) ↦ h ∙ sym (ap receipt_of (only r ((same _).0 (found_mem outs' id r h))))
    ]

  -- What a caller finds under an input's identifier, among the outcomes in any order.
  pub attributed :
      ⦃e : Eq I⦄ {ops : List Op} {outs : BatchOutcomes I R E}
      (shuffle : BatchOutcomes I R E → BatchOutcomes I R E) (op : Op)
      → DistinctBy key ops
      → Paired Names ops outs
      → ((l : BatchOutcomes I R E) (out : Result (I × R) E) → Memᴰ out (shuffle l) ↔ Memᴰ out l)
      → Memᴰ op ops
      → (s : S) × (by_allocation (shuffle outs) (key op) ≡ receipt_of (answer op s))
  attributed {outs = outs} shuffle op d p same m =
      let (s, n, only) = own op p d m in
      (s, found_own outs (shuffle outs) (same outs) (key op) (answer op s) n only)

module _ {ℓ} {S I A K N B D R E : Type ℓ} ⦃e : Eq I⦄ (pool : DepositPool S I A K N B D R E) where
  abbrev deposited : I × A × B × D → S → Result R E
  deposited (id, dst, amount, extra) s = (pool.deposit_funds_to id dst amount extra s).0

  -- A caller of a batch deposit finds the receipt of each deposit under the deposit's identifier,
  -- and nothing there where the deposit failed. In whatever order the deposits end and the caller
  -- has their outcomes, what it finds is what the pool answered for this deposit in some state. No two
  -- deposits have the same identifier; one choice for each deposit is enough.
  pub deposits_attributed :
      (choices : List ℕ) (deposits : List (I × A × B × D)) (s : S)
      (shuffle : BatchOutcomes I R E → BatchOutcomes I R E) (id : I) (dst : A) (amount : B)
      (extra : D)
      → DistinctBy (λ (deposit : I × A × B × D). deposit.0) deposits
      → length deposits ≤ length choices
      → ((l : BatchOutcomes I R E) (out : Result (I × R) E) → Memᴰ out (shuffle l) ↔ Memᴰ out l)
      → Memᴰ (id, dst, amount, extra) deposits
      → (outs : BatchOutcomes I R E) × ((deposit_funds_to_multiple pool choices deposits s).0
          ≡ some outs)
        × ((s' : S) × (by_allocation (shuffle outs) id
              ≡ receipt_of (pool.deposit_funds_to id dst amount extra s').0))
  unfolding deposit_funds_to_multiple one_deposit
  deposits_attributed choices deposits s shuffle id dst amount extra d c same m =
      let key = λ (deposit : I × A × B × D). deposit.0 in
      let (outs, h, p) =
        join_all_finishes (one_deposit pool) (Names key deposited) (λ op s. (s, refl)) choices
          deposits s c in
      (outs, h, attributed key deposited shuffle (id, dst, amount, extra) d p same m)
