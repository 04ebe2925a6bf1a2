-- ===== src/Engine/Erasing.antt =====
-- What src/storage/engine.py makes of the values that are put: the bytes of the tombstone are those that
-- `delete` stores, so that a put of them takes the key away.
use logvine.Prelude.{
  ◌≡◌, refl, ap, ◌∙◌, not, Bool-cases, none, some, List, [], ◌∷◌, inl, inr, false, if◌then◌else◌,
  ◌==◌, arith,
}
use logvine.Prelude.Bytes.{Bytes, bytes_eq}
use logvine.Prelude.Dict
use logvine.Prelude.Dict.{Dict, IsDistinct, has}
use logvine.MemTable.{tombstone}
use logvine.StorageEngine.Dictionary.{Dictionary, without, store_all, get-without, kept-IsDistinct}
use logvine.Prelude.Order.{contains}

unfoldable pub store_erasing : Bytes → Bytes → Dictionary → Dictionary
store_erasing key value d = if value == tombstone then without key d else Dict.set key value d

unfoldable pub store_all_erasing : List Bytes → List Bytes → Dictionary → Dictionary
store_all_erasing [] values d = d
store_all_erasing (key ∷ keys) [] d = d
store_all_erasing (key ∷ keys) (value ∷ values) d =
    store_all_erasing keys values (store_erasing key value d)

pub get-store_erasing :
    (key value j : Bytes) (d : Dictionary)
    → Dict.get j (store_erasing key value d)
      ≡ (if key == j then (if value == tombstone then none else some value) else Dict.get j d)
unfolding store_erasing
get-store_erasing key value j d = elim (Bool-cases (value == tombstone)) [
  | inl gone ↦ rw gone (get-without key j d)
  | inr stays ↦ rw stays (Dict.get-set key j value d)
]

pub store_erasing-IsDistinct :
    (key value : Bytes) (d : Dictionary) → IsDistinct d → IsDistinct (store_erasing key value d)
unfolding store_erasing without
store_erasing-IsDistinct key value d h = elim (Bool-cases (value == tombstone)) [
  | inl gone ↦ rw gone (kept-IsDistinct (λ i. not (key == i)) d h)
  | inr stays ↦ rw stays (Dict.set-IsDistinct key value d h)
]

-- A value of any other bytes is stored as it is.
pub store_erasing-set :
    (key value : Bytes) (d : Dictionary)
    → (value == tombstone) ≡ false
    → store_erasing key value d ≡ Dict.set key value d
unfolding store_erasing
store_erasing-set key value d h = rw h refl

pub store_all_erasing-store_all :
    (keys values : List Bytes) (d : Dictionary)
    → contains tombstone values ≡ false
    → store_all_erasing keys values d ≡ store_all keys values d
unfolding store_all store_all_erasing contains
store_all_erasing-store_all [] values d h = refl
store_all_erasing-store_all (key ∷ keys) [] d h = refl
store_all_erasing-store_all (key ∷ keys) (value ∷ values) d h =
    ap (store_all_erasing keys values) (store_erasing-set key value d (ground arith))
    ∙ store_all_erasing-store_all keys values (Dict.set key value d) (ground arith)
