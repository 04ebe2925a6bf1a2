-- ===== src/Prelude/Dict/Sorted.antt =====
-- A dictionary whose pairs are sorted holds what it held.
use logvine.Prelude.Tests.{Equality, ◌==◌, if◌then◌else◌, Bool-cases, is_some, or_else}
use logvine.Prelude.Order.{insert_sorted, sorted}
use logvine.Prelude.Dict.{Dict, get, has, set_all, get-set_all, IsDistinct}
use mathlib.Core.Path.{◌≡◌, refl, ap, ◌∙◌}
use mathlib.Core.Logic.{inl, inr}
use mathlib.Core.Bool.{Bool, false}
use mathlib.Core.Option.{Option, none, some}
use mathlib.Core.List.{[], ◌∷◌}
use native.Mathlib.Omega.{arith}

or_else-none {ℓ} : {A : Type ℓ} (o : Option A) → or_else o none ≡ o
or_else-none none = refl
or_else-none (some a) = refl

module _ {ℓ κ} {K : Type ℓ} {V : Type κ} ⦃e : Equality K⦄ (lt : K × V → K × V → Bool) where
  get-insert_sorted :
      (k j : K) (v : V) (d : Dict K V)
      → has j d ≡ false
      → get k (insert_sorted lt (j, v) d) ≡ (if j == k then some v else get k d)
  unfolding get insert_sorted
  get-insert_sorted k j v [] h = refl
  get-insert_sorted k j v ((i, w) ∷ d) h =
      ground (arith, get-insert_sorted k j v d, e.same_iff i k, e.same_iff j k, e.same_iff i j)

  insert_sorted-IsDistinct :
      (j : K) (v : V) (d : Dict K V)
      → has j d ≡ false
      → IsDistinct d
      → IsDistinct (insert_sorted lt (j, v) d)
  unfolding get insert_sorted
  insert_sorted-IsDistinct j v [] h s = (refl, tt)
  insert_sorted-IsDistinct j v ((i, w) ∷ d) h s = elim (Bool-cases (lt (i, w) (j, v))) [
    | inl below ↦ rw below (
      ground (arith, get-insert_sorted i j v d, s.0, e.same_iff i j, e.same_iff j i),
      insert_sorted-IsDistinct j v d (ground arith) s.1,
    )
    | inr above ↦ rw above (h, s)
  ]

  -- Both at once: each needs the other for the pairs that are sorted already.
  pub sorted_same :
      (d : Dict K V)
      → IsDistinct d
      → IsDistinct (sorted lt d) × ((k : K) → get k (sorted lt d) ≡ get k d)
  unfolding sorted get
  sorted_same [] h = (tt, λ k. refl)
  sorted_same ((j, v) ∷ d) h =
      let (distinct, reads) = sorted_same d h.1 in
      let absent : has j (sorted lt d) ≡ false = ap is_some (reads j) ∙ h.0 in
      (
        insert_sorted-IsDistinct j v (sorted lt d) absent distinct,
        λ k.
            get-insert_sorted k j v (sorted lt d) absent
            ∙ ap (λ (o : Option V). if j == k then some v else o) (reads k),
      )

  -- dict(sorted(d.items())) is d, for lookups.
  pub get-set_all-sorted :
      (k : K) (d : Dict K V) → IsDistinct d → get k (set_all (sorted lt d) []) ≡ get k d
  unfolding get
  get-set_all-sorted k d h =
      let (distinct, reads) = sorted_same d h in
      get-set_all k (sorted lt d) [] distinct ∙ or_else-none (get k (sorted lt d)) ∙ reads k
