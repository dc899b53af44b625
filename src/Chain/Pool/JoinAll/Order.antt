-- ===== src/Chain/Pool/JoinAll/Order.antt =====
-- join_all runs every future once: what they log is a permutation of their keys.
use mathlib.Core.List.{Permᴰ, Perm}
use mathlib.Core.List.Permᴰ
use hopr_api.Prelude.{
  ℕ, zero, suc, ◌≤◌, ◌≡◌, refl, Bool-cases, inl, inr, ◌⊎◌, List, [], ◌∷◌, ◌++◌, map, arith, length,
  ◌==◌,
}
use hopr_api.Chain.Pool.JoinAll.{join_all, pending, start, complete, drive, none_pending}

module _ {ℓ} {S Op Out I : Type ℓ} (run : Op → S → Out × S) (key : Op → I) (attempts : S → List I)
    (logs : (op : Op) (s : S) → attempts (run op s).1 ≡ key op ∷ attempts s) where
  waiting : List (Op ⊎ Out) → List I
  waiting [] = []
  waiting (inl op ∷ slots) = key op ∷ waiting slots
  waiting (inr out ∷ slots) = waiting slots

  -- A future that ends moves its key from those that wait to those that were logged.
  complete_order :
      (k : ℕ) (slots : List (Op ⊎ Out)) (s : S)
      → Permᴰ
          (waiting (complete run k slots s).0 ++ attempts (complete run k slots s).1)
          (waiting slots ++ attempts s)
  unfolding complete waiting
  complete_order k [] s = Permᴰ.refl (attempts s)
  complete_order k (inr out ∷ slots) s = complete_order k slots s
  complete_order zero (inl op ∷ slots) s =
      rw (logs op s) (Permᴰ.middle (key op) (waiting slots) (attempts s))
  complete_order (suc k) (inl op ∷ slots) s =
      let later = complete_order k slots s in
      elim (Bool-cases (pending slots == 0)) [
        | inl e ↦ rw (e, logs op s) (Permᴰ.middle (key op) (waiting slots) (attempts s))
        | inr e ↦ rw e (Permᴰ.cons refl later)
      ]

  drive_order :
      (choices : List ℕ) (slots : List (Op ⊎ Out)) (s : S)
      → Permᴰ
          (waiting (drive run choices slots s).0 ++ attempts (drive run choices slots s).1)
          (waiting slots ++ attempts s)
  unfolding drive
  drive_order [] slots s = Permᴰ.refl _
  drive_order (k ∷ choices) slots s =
      let (slots', s') = complete run k slots s in
      Permᴰ.trans (drive_order choices slots' s') (complete_order k slots s)

  waiting-start : (ops : List Op) → waiting (start ops) ≡ map key ops
  unfolding waiting start
  waiting-start [] = refl
  waiting-start (op ∷ ops) = rw (waiting-start ops) refl

  none_waiting : (slots : List (Op ⊎ Out)) → pending slots ≡ 0 → waiting slots ≡ []
  unfolding waiting pending
  none_waiting [] e = refl
  none_waiting (inl op ∷ slots) e = absurd (omega (arith, e))
  none_waiting (inr out ∷ slots) e = none_waiting slots e

  -- Where each future logs its key when it runs, and there is a choice for each, the log is a
  -- permutation of the keys before what was there.
  pub join_all_order :
      (choices : List ℕ) (ops : List Op) (s : S)
      → length ops ≤ length choices
      → Perm (attempts (join_all run choices ops s).1) (map key ops ++ attempts s)
  unfolding join_all
  join_all_order choices ops s h =
      let order = drive_order choices (start ops) s in
      ∣ rw (← waiting-start ops) (
        rw (none_waiting (drive run choices (start ops) s).0 (none_pending run choices ops s h)) at
          order) ∣₁
