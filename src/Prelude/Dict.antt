-- ===== src/Prelude/Dict.antt =====
-- Python's `dict`: entries in the order in which their keys were first set.
pub mod Sorted
use logvine.Prelude.Tests.{
  if◌then◌else◌, Equality, ◌==◌, is_some, Bool-cases, ==_refl, ==_comm, or_else,
}
use logvine.Prelude.Order.{contains}
use logvine.Prelude.Lists.{All}
use mathlib.Core.Path.{◌≡◌, refl}
use mathlib.Core.Logic.{inl, inr}
use mathlib.Core.Bool.{Bool, true, false}
use mathlib.Core.Option.{Option, none, some}
use mathlib.Core.List.{List, [], ◌∷◌}
use native.Mathlib.Omega.{arith}

abbrev pub Dict {ℓ κ} : Type ℓ → Type κ → Type (ℓ ⊔ κ)
Dict K V = List (K × V)

module _ {ℓ κ} {K : Type ℓ} {V : Type κ} where
  -- d.keys()
  abbrev pub keys : Dict K V → List K
  keys [] = []
  keys ((j, v) ∷ d) = j ∷ keys d

module _ {ℓ κ} {K : Type ℓ} {V : Type κ} ⦃e : Equality K⦄ where
  -- d.get(k)
  unfoldable pub get : K → Dict K V → Option V
  get k [] = none
  get k ((j, v) ∷ d) = if j == k then some v else get k d

  -- k in d
  abbrev pub has : K → Dict K V → Bool
  has k d = is_some (get k d)

  -- d[k] = v
  unfoldable pub set : K → V → Dict K V → Dict K V
  set k v [] = (k, v) ∷ []
  set k v ((j, w) ∷ d) = if j == k then (j, v) ∷ d else (j, w) ∷ set k v d

  pub get-set :
      (k j : K) (v : V) (d : Dict K V) → get j (set k v d) ≡ (if k == j then some v else get j d)
  unfolding get set
  get-set k j v [] = refl
  get-set k j v ((i, w) ∷ d) =
      ground (arith, get-set k j v d, e.same_iff i k, e.same_iff i j, e.same_iff k j)

  pub contains-keys : (k : K) (d : Dict K V) → contains k (keys d) ≡ has k d
  unfolding contains get
  contains-keys k [] = refl
  contains-keys k ((j, v) ∷ d) = ground (arith, contains-keys k d)

  -- [(k, d[k]) for k in ks]; `none` is a KeyError
  unfoldable pub items_at : Dict K V → List K → Option (Dict K V)
  items_at d [] = some []
  items_at d (k ∷ ks) = elim (get k d) [
    | none ↦ none
    | some v ↦ elim (items_at d ks) [ none ↦ none | some rest ↦ some ((k, v) ∷ rest) ]
  ]

  has-weaken :
      (j : K) (w : V) (d : Dict K V) (ks : List K)
      → All (λ k. has k d ≡ true) ks
      → All (λ k. has k ((j, w) ∷ d) ≡ true) ks
  unfolding get
  has-weaken j w d [] h = tt
  has-weaken j w d (k ∷ ks) h = (ground (arith, h.0), has-weaken j w d ks h.1)

  pub has-keys : (d : Dict K V) → All (λ k. has k d ≡ true) (keys d)
  unfolding get
  has-keys [] = tt
  has-keys ((j, v) ∷ d) = (rw ==_refl refl, has-weaken j v d (keys d) (has-keys d))

  -- dict(pairs) over what is there: the last pair of a key stays.
  unfoldable pub set_all : List (K × V) → Dict K V → Dict K V
  set_all [] d = d
  set_all ((k, v) ∷ pairs) d = set_all pairs (set k v d)

  abbrev pub IsDistinct : Dict K V → Type 0
  IsDistinct [] = Unit
  IsDistinct ((k, v) ∷ d) = (has k d ≡ false) × IsDistinct d

  pub set-IsDistinct : (k : K) (v : V) (d : Dict K V) → IsDistinct d → IsDistinct (set k v d)
  unfolding set get
  set-IsDistinct k v [] h = (refl, tt)
  set-IsDistinct k v ((j, w) ∷ d) h = elim (Bool-cases (j == k)) [
    | inl q ↦ rw q h
    | inr q ↦ rw q (ground (arith, h.0, get-set k j v d, ==_comm j k), set-IsDistinct k v d h.1)
  ]

  -- Over distinct keys, the pair of a key that is set last is its only one.
  pub get-set_all :
      (k : K) (pairs d : Dict K V)
      → IsDistinct pairs
      → get k (set_all pairs d) ≡ or_else (get k pairs) (get k d)
  unfolding set_all get
  get-set_all k [] d h = refl
  get-set_all k ((j, v) ∷ pairs) d h =
      ground (arith, get-set_all k pairs (set j v d) h.1, get-set j k v d, h.0, e.same_iff j k)
