-- ===== src/Prelude/Order.antt =====
-- `sorted` of the Python library, for any strict weak order: a stable insertion sort.
use logvine.Prelude.Tests.{if◌then◌else◌, Equality, ◌==◌, Bool-cases}
use logvine.Prelude.Lists.{All}
use logvine.Prelude.Bytes.{
  Bytes, bytes_eq, bytes_lt, bytes_lt_irrefl, bytes_lt_trans, bytes_lt_total,
}
use mathlib.Core.Path.{◌≡◌, refl}
use mathlib.Core.Logic.{inl, inr}
use mathlib.Core.Bool.{Bool, true, false, ◌||◌}
use mathlib.Core.List.{List, [], ◌∷◌}
use native.Mathlib.Omega.{arith}

module _ {ℓ} {A : Type ℓ} (lt : A → A → Bool) where
  unfoldable pub insert_sorted : A → List A → List A
  insert_sorted x [] = x ∷ []
  insert_sorted x (y ∷ ys) = if lt y x then y ∷ insert_sorted x ys else x ∷ y ∷ ys

  unfoldable pub sorted : List A → List A
  unfolding insert_sorted
  sorted [] = []
  sorted (x ∷ xs) = insert_sorted x (sorted xs)

  pub record IsWeakOrder : Type ℓ where
    pub asym : (a b : A) → lt a b ≡ true → lt b a ≡ false
    pub le_trans : (a b c : A) → lt b a ≡ false → lt c b ≡ false → lt c a ≡ false

  -- No later item is less than an earlier one.
  abbrev pub IsSorted : List A → Type ℓ
  IsSorted [] = Unit
  IsSorted (x ∷ xs) = All (λ y. lt y x ≡ false) xs × IsSorted xs

module _ {ℓ κ} {A : Type ℓ} (lt : A → A → Bool) (P : A → Type κ) where
  pub insert_sorted-All : (x : A) (xs : List A) → P x → All P xs → All P (insert_sorted lt x xs)
  unfolding insert_sorted
  insert_sorted-All x [] p h = (p, tt)
  insert_sorted-All x (y ∷ ys) p h = elim (Bool-cases (lt y x)) [
    | inl e ↦ rw e (h.0, insert_sorted-All x ys p h.1)
    | inr e ↦ rw e (p, h)
  ]

  pub sorted-All : (xs : List A) → All P xs → All P (sorted lt xs)
  unfolding sorted
  sorted-All [] h = h
  sorted-All (x ∷ xs) h = insert_sorted-All x (sorted lt xs) h.0 (sorted-All xs h.1)

module _ {ℓ} {A : Type ℓ} (lt : A → A → Bool) (order : IsWeakOrder lt) where
  -- What is not below a lower item is not below a higher one.
  All-weaken :
      (x y : A) (xs : List A)
      → lt y x ≡ false
      → All (λ z. lt z y ≡ false) xs
      → All (λ z. lt z x ≡ false) xs
  All-weaken x y [] h all = tt
  All-weaken x y (z ∷ zs) h all = (order.le_trans x y z h all.0, All-weaken x y zs h all.1)

  pub insert_sorted-IsSorted :
      (x : A) (xs : List A) → IsSorted lt xs → IsSorted lt (insert_sorted lt x xs)
  unfolding insert_sorted
  insert_sorted-IsSorted x [] s = (tt, tt)
  insert_sorted-IsSorted x (y ∷ ys) s = elim (Bool-cases (lt y x)) [
    | inl e ↦ rw e (
      insert_sorted-All lt (λ z. lt z y ≡ false) x ys (order.asym y x e) s.0,
      insert_sorted-IsSorted x ys s.1,
    )
    | inr e ↦ rw e ((e, All-weaken x y ys e s.0), s)
  ]

  pub sorted-IsSorted : (xs : List A) → IsSorted lt (sorted lt xs)
  unfolding sorted
  sorted-IsSorted [] = tt
  sorted-IsSorted (x ∷ xs) = insert_sorted-IsSorted x (sorted lt xs) (sorted-IsSorted xs)

module _ {ℓ} {A : Type ℓ} ⦃e : Equality A⦄ where
  unfoldable pub contains : A → List A → Bool
  contains a [] = false
  contains a (x ∷ xs) = x == a || contains a xs

  contains-insert_sorted :
      (lt : A → A → Bool) (a x : A) (xs : List A)
      → contains a (insert_sorted lt x xs) ≡ (x == a || contains a xs)
  unfolding contains insert_sorted
  contains-insert_sorted lt a x [] = refl
  contains-insert_sorted lt a x (y ∷ ys) = ground (arith, contains-insert_sorted lt a x ys)

  pub contains-sorted :
      (lt : A → A → Bool) (a : A) (xs : List A) → contains a (sorted lt xs) ≡ contains a xs
  unfolding contains sorted
  contains-sorted lt a [] = refl
  contains-sorted lt a (x ∷ xs) =
      ground (arith, contains-insert_sorted lt a x (sorted lt xs), contains-sorted lt a xs)

  pub All-contains {κ} :
      (P : A → Type κ) (a : A) (xs : List A) → All P xs → contains a xs ≡ true → P a
  unfolding contains
  All-contains P a [] h c = absurd (ground arith)
  All-contains P a (x ∷ xs) h c = elim (Bool-cases (x == a)) [
    | inl q ↦ rw ((e.same_iff x a).0 q) at h.0
    | inr q ↦ All-contains P a xs h.1 (rw q at c)
  ]

pub bytes_lt_asym : (a b : Bytes) → bytes_lt a b ≡ true → bytes_lt b a ≡ false
bytes_lt_asym a b p = elim (Bool-cases (bytes_lt b a)) [
  | inl q ↦ absurd (ground (arith, bytes_lt_irrefl a, bytes_lt_trans a b a p q))
  | inr q ↦ q
]

pub bytes_le_trans :
    (a b c : Bytes) → bytes_lt b a ≡ false → bytes_lt c b ≡ false → bytes_lt c a ≡ false
bytes_le_trans a b c p q = elim (Bool-cases (bytes_lt c a)) [
  | inl r ↦ elim (Bool-cases (bytes_lt a b)) [
    | inl s ↦ absurd (ground (arith, bytes_lt_trans c a b r s))
    | inr s ↦ absurd (ground (arith, bytes_lt_total a b s p))
  ]
  | inr r ↦ r
]

pub bytes_lt-IsWeakOrder : IsWeakOrder bytes_lt
bytes_lt-IsWeakOrder = record { asym = bytes_lt_asym; le_trans = bytes_le_trans }
