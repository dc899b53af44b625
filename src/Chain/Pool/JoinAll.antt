-- ===== src/Chain/Pool/JoinAll.antt =====
-- futures::join_all as the batch operations use it: every future runs to its end once, in an order
-- that is not theirs to choose. `choices` says which of the pending ones ends next; one choice for
-- each input is enough. `none` stands for futures that are still pending when the choices run out.
pub mod Order
pub mod Counts
use hopr_api.Prelude.{
  ℕ, zero, suc, ◌+◌, ◌-◌, ◌≤◌, ◌<◌, ◌≡◌, refl, ap, Bool-cases, Option-cases, ◌⊎◌, inl, inr, false,
  Option, none, some, List, [], ◌∷◌, arith, length, ◌==◌, if◌then◌else◌,
}
use mathlib.Core.Option.{some-injective}

none-some {ℓ} : {A : Type ℓ} {a : A} → none ≡ some a → ⊥
none-some e = cc

module _ {ℓ} {Op Out : Type ℓ} where
  pending : List (Op ⊎ Out) → ℕ
  pending [] = 0
  pending (inl op ∷ slots) = suc (pending slots)
  pending (inr out ∷ slots) = pending slots

  collect : List (Op ⊎ Out) → Option (List Out)
  collect [] = some []
  collect (inl op ∷ slots) = none
  collect (inr out ∷ slots) = elim (collect slots) [ none ↦ none | some outs ↦ some (out ∷ outs) ]

  start : List Op → List (Op ⊎ Out)
  start [] = []
  start (op ∷ ops) = inl op ∷ start ops

module _ {ℓ} {S Op Out : Type ℓ} where
  abbrev keep : Op ⊎ Out → List (Op ⊎ Out) × S → List (Op ⊎ Out) × S
  keep slot (slots, s) = (slot ∷ slots, s)

  abbrev fill : List (Op ⊎ Out) → Out × S → List (Op ⊎ Out) × S
  fill slots (out, s) = (inr out ∷ slots, s)

  -- The pending future of the number chosen ends; the last one, if there are not so many.
  complete : (Op → S → Out × S) → ℕ → List (Op ⊎ Out) → S → List (Op ⊎ Out) × S
  complete run k [] s = ([], s)
  complete run k (inr out ∷ slots) s = keep (inr out) (complete run k slots s)
  complete run zero (inl op ∷ slots) s = fill slots (run op s)
  complete run (suc k) (inl op ∷ slots) s =
      let later = complete run k slots s in
      if pending slots == 0 then fill slots (run op s) else keep (inl op) later

  drive : (Op → S → Out × S) → List ℕ → List (Op ⊎ Out) → S → List (Op ⊎ Out) × S
  drive run [] slots s = (slots, s)
  drive run (k ∷ choices) slots s =
      let (slots', s') = complete run k slots s in drive run choices slots' s'

  unfoldable pub join_all : (Op → S → Out × S) → List ℕ → List Op → S → Option (List Out) × S
  unfolding drive start collect complete pending
  join_all run choices ops s =
      let (slots, s') = drive run choices (start ops) s in (collect slots, s')

-- Each outcome stands at the place of its input, and they are as many.
pub data Paired {ℓ} {Op Out : Type ℓ} (R : Op → Out → Type ℓ) : List Op → List Out → Type ℓ where
  none_left : Paired R [] []
  pair :
      {op : Op} {out : Out} {ops : List Op} {outs : List Out}
      → R op out
      → Paired R ops outs
      → Paired R (op ∷ ops) (out ∷ outs)

data Slots {ℓ} {Op Out : Type ℓ} (R : Op → Out → Type ℓ) : List Op → List (Op ⊎ Out) → Type ℓ where
  no_slot : Slots R [] []
  waits :
      {op : Op} {ops : List Op} {slots : List (Op ⊎ Out)}
      → Slots R ops slots
      → Slots R (op ∷ ops) (inl op ∷ slots)
  ended :
      {op : Op} {out : Out} {ops : List Op} {slots : List (Op ⊎ Out)}
      → R op out
      → Slots R ops slots
      → Slots R (op ∷ ops) (inr out ∷ slots)

module _ {ℓ} {S Op Out : Type ℓ} (run : Op → S → Out × S) (R : Op → Out → Type ℓ)
    (holds : (op : Op) (s : S) → R op (run op s).0) where
  Slots-complete :
      (k : ℕ) (s : S) {ops : List Op} {slots : List (Op ⊎ Out)}
      → Slots R ops slots
      → Slots R ops (complete run k slots s).0
  unfolding complete
  Slots-complete k s no_slot = no_slot
  Slots-complete k s (ended r h) = ended r (Slots-complete k s h)
  Slots-complete zero s (waits {op = op} h) = ended (holds op s) h
  Slots-complete (suc k) s (waits {op = op} {slots = slots} h) =
      let later = Slots-complete k s h in
      elim (Bool-cases (pending slots == 0)) [
        | inl e ↦ rw e (ended (holds op s) h)
        | inr e ↦ rw e (waits later)
      ]

  Slots-drive :
      (choices : List ℕ) (s : S) {ops : List Op} {slots : List (Op ⊎ Out)}
      → Slots R ops slots
      → Slots R ops (drive run choices slots s).0
  unfolding drive
  Slots-drive [] s h = h
  Slots-drive (k ∷ choices) s {slots = slots} h =
      Slots-drive choices (complete run k slots s).1 (Slots-complete k s h)

  Slots-start : (ops : List Op) → Slots R ops (start ops)
  unfolding start
  Slots-start [] = no_slot
  Slots-start (op ∷ ops) = waits (Slots-start ops)

  collect_lem :
      {ops : List Op} {slots : List (Op ⊎ Out)}
      → Slots R ops slots
      → pending slots ≡ 0
      → (outs : List Out) × (collect slots ≡ some outs) × Paired R ops outs
  unfolding collect pending
  collect_lem no_slot e = ([], refl, none_left)
  collect_lem (waits h) e = absurd (omega arith)
  collect_lem (ended {out = out} r h) e =
      let (outs, c, p) = collect_lem h e in (out ∷ outs, rw c, pair r p)

  collect-Paired :
      {ops : List Op} {slots : List (Op ⊎ Out)} {outs : List Out}
      → Slots R ops slots
      → collect slots ≡ some outs
      → Paired R ops outs
  unfolding collect
  collect-Paired no_slot e = rw (← some-injective _ _ e) none_left
  collect-Paired (waits h) e = cc
  collect-Paired (ended {out = out} {slots = slots} r h) e = elim (Option-cases (collect slots)) [
    | inl c ↦ absurd (none-some (rw c at e))
    | inr (outs', c) ↦ rw (← some-injective _ _ (rw c at e)) (pair r (collect-Paired h c))
  ]

  -- The outcomes that a run collects stand at the places of their inputs.
  pub join_all-Paired :
      (choices : List ℕ) (ops : List Op) (s : S) {outs : List Out}
      → (join_all run choices ops s).0 ≡ some outs
      → Paired R ops outs
  unfolding join_all
  join_all-Paired choices ops s e = collect-Paired (Slots-drive choices s (Slots-start ops)) e

positive : (n : ℕ) → (n == 0) ≡ false → 0 < n
positive n h = ground arith

module _ {ℓ} {S Op Out : Type ℓ} (run : Op → S → Out × S) where
  pending-complete :
      (k : ℕ) (slots : List (Op ⊎ Out)) (s : S)
      → pending (complete run k slots s).0 ≡ pending slots - 1
  unfolding complete pending
  pending-complete k [] s = omega arith
  pending-complete k (inr out ∷ slots) s = pending-complete k slots s
  pending-complete zero (inl op ∷ slots) s = omega arith
  pending-complete (suc k) (inl op ∷ slots) s =
      let later = pending-complete k slots s in
      elim (Bool-cases (pending slots == 0)) [
        | inl e ↦ rw e (omega arith)
        | inr e ↦ rw e (omega (arith, later, positive _ e))
      ]

  pending-drive :
      (choices : List ℕ) (slots : List (Op ⊎ Out)) (s : S)
      → pending (drive run choices slots s).0 ≡ pending slots - length choices
  unfolding drive
  pending-drive [] slots s = omega arith
  pending-drive (k ∷ choices) slots s =
      let (slots', s') = complete run k slots s in
      omega (arith, pending-complete k slots s, pending-drive choices slots' s')

  pending-start : (ops : List Op) → pending {Out = Out} (start ops) ≡ length ops
  unfolding pending start
  pending-start [] = refl
  pending-start (op ∷ ops) = ap suc (pending-start ops)

  none_pending :
      (choices : List ℕ) (ops : List Op) (s : S)
      → length ops ≤ length choices
      → pending (drive run choices (start ops) s).0 ≡ 0
  none_pending choices ops s h =
      omega (arith, pending-drive choices (start ops) s, pending-start ops)

  -- With a choice for each input, the outcomes are there, one at the place of each input.
  pub join_all_finishes :
      (R : Op → Out → Type ℓ) (holds : (op : Op) (s : S) → R op (run op s).0) (choices : List ℕ)
      (ops : List Op) (s : S)
      → length ops ≤ length choices
      → (outs : List Out) × ((join_all run choices ops s).0 ≡ some outs) × Paired R ops outs
  join_all_finishes R holds choices ops s h =
      let (outs, c, p) =
        collect_lem run R holds (Slots-drive run R holds choices s (Slots-start run R holds ops))
          (none_pending choices ops s h) in
      (outs, unfold join_all in c, p)
