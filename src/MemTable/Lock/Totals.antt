-- ===== src/MemTable/Lock/Totals.antt =====
-- Sums over the threads of a weight of where each one stands.
use logvine.Prelude.{
  ℕ, zero, suc, ◌+◌, ◌≤◌, ◌<◌, ◌≡◌, refl, nat_beq, nat_beq_iff, Bool-cases, inl, inr, arith, ◌≢◌,
}
use logvine.MemTable.Lock.{update}

module _ {ℓ} {A : Type ℓ} (weight : A → ℕ) where
  unfoldable pub sum_below : ℕ → (ℕ → A) → ℕ
  sum_below zero f = 0
  sum_below (suc n) f = weight (f n) + sum_below n f

  sum_below-update_outside :
      (n i : ℕ) (a : A) (f : ℕ → A) → n ≤ i → sum_below n (update f i a) ≡ sum_below n f
  unfolding sum_below
  sum_below-update_outside zero i a f h = refl
  sum_below-update_outside (suc n) i a f h = ground (arith, sum_below-update_outside n i a f)

  -- A thread that moves takes its old weight out and brings its new one in.
  pub sum_below-update :
      (n i : ℕ) (a : A) (f : ℕ → A)
      → i < n
      → sum_below n (update f i a) + weight (f i) ≡ sum_below n f + weight a
  unfolding sum_below
  sum_below-update zero i a f h = absurd (omega arith)
  sum_below-update (suc n) i a f h = elim (Bool-cases (nat_beq i n)) [
    | inl same ↦
        let i_is : i ≡ n = (nat_beq_iff i n).0 same in
        rw same (ground (arith, sum_below-update_outside n i a f))
    | inr other ↦ ground (arith, nat_beq_iff i n, sum_below-update n i a f)
  ]

  pub weight-le-sum_below : (n i : ℕ) (f : ℕ → A) → i < n → weight (f i) ≤ sum_below n f
  unfolding sum_below
  weight-le-sum_below zero i f h = absurd (omega arith)
  weight-le-sum_below (suc n) i f h = elim (Bool-cases (nat_beq i n)) [
    | inl same ↦ let i_is : i ≡ n = (nat_beq_iff i n).0 same in ground arith
    | inr other ↦ ground (arith, nat_beq_iff i n, weight-le-sum_below n i f)
  ]

  -- Two different threads.
  pub weights-le-sum_below :
      (n i j : ℕ) (f : ℕ → A) → i < n → j < n → i ≢ j → weight (f i) + weight (f j) ≤ sum_below n f
  unfolding sum_below
  weights-le-sum_below zero i j f hi hj ne = absurd (omega arith)
  weights-le-sum_below (suc n) i j f hi hj ne = elim (Bool-cases (nat_beq i n)) [
    | inl i_last ↦
        let i_is : i ≡ n = (nat_beq_iff i n).0 i_last in ground (arith, weight-le-sum_below n j f)
    | inr i_below ↦ elim (Bool-cases (nat_beq j n)) [
      | inl j_last ↦
          let j_is : j ≡ n = (nat_beq_iff j n).0 j_last in
          ground (arith, nat_beq_iff i n, weight-le-sum_below n i f)
      | inr j_below ↦ ground (arith, nat_beq_iff i n, nat_beq_iff j n, weights-le-sum_below n i j f)
    ]
  ]

  -- A sum that is not 0 has a thread of a weight that is not 0.
  pub some_weight : (n : ℕ) (f : ℕ → A) → 0 < sum_below n f → (i : ℕ) × (i < n) × (0 < weight (f i))
  unfolding sum_below
  some_weight zero f h = absurd (omega arith)
  some_weight (suc n) f h = elim (Bool-cases (nat_beq (weight (f n)) 0)) [
    | inl none_here ↦
        let (i, below, heavy) = some_weight n f (ground arith) in (i, omega arith, heavy)
    | inr some_here ↦ (n, omega arith, ground arith)
  ]
