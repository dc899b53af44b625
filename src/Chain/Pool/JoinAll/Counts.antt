-- ===== src/Chain/Pool/JoinAll/Counts.antt =====
-- join_all runs every future once: a measure that each raises by one is raised by their number.
use hopr_api.Prelude.{
  ℕ, zero, suc, ◌+◌, ◌≤◌, ◌≡◌, Bool-cases, ◌⊎◌, inl, inr, some, List, [], ◌∷◌, arith, length, ◌==◌,
}
use hopr_api.Chain.Pool.JoinAll.{
  join_all, pending, start, complete, drive, Paired, none_pending, pending-start, join_all_finishes,
}

module _ {ℓ} {S Op Out : Type ℓ} (run : Op → S → Out × S) (m : S → ℕ)
    (counts : (op : Op) (s : S) → m (run op s).1 ≡ suc (m s)) where
  complete_counts :
      (k : ℕ) (slots : List (Op ⊎ Out)) (s : S)
      → pending (complete run k slots s).0 + m (complete run k slots s).1 ≡ pending slots + m s
  unfolding complete pending
  complete_counts k [] s = omega arith
  complete_counts k (inr out ∷ slots) s = complete_counts k slots s
  complete_counts zero (inl op ∷ slots) s = omega (arith, counts op s)
  complete_counts (suc k) (inl op ∷ slots) s =
      let later = complete_counts k slots s in
      elim (Bool-cases (pending slots == 0)) [
        | inl e ↦ rw e (omega (arith, counts op s))
        | inr e ↦ rw e (omega (arith, later))
      ]

  drive_counts :
      (choices : List ℕ) (slots : List (Op ⊎ Out)) (s : S)
      → pending (drive run choices slots s).0 + m (drive run choices slots s).1
        ≡ pending slots + m s
  unfolding drive
  drive_counts [] slots s = omega arith
  drive_counts (k ∷ choices) slots s =
      let (slots', s') = complete run k slots s in
      omega (arith, complete_counts k slots s, drive_counts choices slots' s')

  -- With a choice for each input, the outcomes are there, one at the place of each input, whatever
  -- the order in which the futures end; and each future was run once.
  pub join_all_lem :
      (R : Op → Out → Type ℓ) (holds : (op : Op) (s : S) → R op (run op s).0) (choices : List ℕ)
      (ops : List Op) (s : S)
      → length ops ≤ length choices
      → (outs : List Out) × ((join_all run choices ops s).0 ≡ some outs)
        × Paired R ops outs
        × (m (join_all run choices ops s).1 ≡ length ops + m s)
  join_all_lem R holds choices ops s h =
      let (outs, c, p) = join_all_finishes run R holds choices ops s h in
      (
        outs,
        c,
        p,
        unfold join_all in
            omega (
              arith,
              drive_counts choices (start ops) s,
              none_pending run choices ops s h,
              pending-start run ops,
            ),
      )
