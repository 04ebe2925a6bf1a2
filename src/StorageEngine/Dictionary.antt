-- ===== src/StorageEngine/Dictionary.antt =====
-- What the abstract class of src/storage/engine.py promises: the engine that is a dictionary, where
-- nothing fails and every value that is put is read back, the tombstone's bytes too.
use logvine.Prelude.{
  ◌≡◌, refl, ap, ◌∙◌, Bool, not, Bool-cases, Option, none, some, List, [], ◌∷◌, inl, inr,
  if◌then◌else◌, ◌==◌, is_some, arith,
}
use logvine.Prelude.Bytes.{Bytes, bytes_eq, bytes_beq_iff}
use logvine.Prelude.Order.{sorted}
use logvine.Prelude.Interval.{in_range}
use logvine.Prelude.Result.{Result, ok, raise, key_error}
use logvine.Prelude.Dict
use logvine.Prelude.Dict.{Dict, IsDistinct, has}
use logvine.MemTable.{pair_lt}
use logvine.StorageEngine.{StorageEngine}

abbrev pub Dictionary : Type 0
Dictionary = Dict Bytes Bytes

-- The pairs whose keys a test holds of.
unfoldable pub kept : (Bytes → Bool) → Dictionary → Dictionary
kept p [] = []
kept p ((j, v) ∷ d) = let rest = kept p d in if p j then (j, v) ∷ rest else rest

unfoldable pub without : Bytes → Dictionary → Dictionary
without key d = kept (λ j. not (key == j)) d

-- The pairs of a batch, one after the other.
unfoldable pub store_all : List Bytes → List Bytes → Dictionary → Dictionary
store_all [] values d = d
store_all (key ∷ keys) [] d = d
store_all (key ∷ keys) (value ∷ values) d = store_all keys values (Dict.set key value d)

unfoldable pub lookup : Option Bytes → Result Bytes
lookup none = raise key_error
lookup (some value) = ok value

instance abbrev pub dictionary_engine : StorageEngine Dictionary
dictionary_engine = record {
  put = λ key value d. (ok tt, Dict.set key value d);
  get = λ key d. lookup (Dict.get key d);
  delete = λ key d. (ok tt, without key d);
  read_key_range = λ start_key end_key d. ok (sorted pair_lt (kept (in_range start_key end_key) d));
  batch_put = λ keys values d. (ok tt, store_all keys values d);
  flush = λ now created d. d;
}

pub get-kept :
    (p : Bytes → Bool) (k : Bytes) (d : Dictionary)
    → Dict.get k (kept p d) ≡ (if p k then Dict.get k d else none)
unfolding kept Dict.get
get-kept p k [] = ground arith
get-kept p k ((j, v) ∷ d) = elim (Bool-cases (j == k)) [
  | inr q ↦ elim (Bool-cases (p j)) [
    | inl here ↦ rw (here, q, get-kept p k d) refl
    | inr gone ↦ rw (gone, q, get-kept p k d) refl
  ]
  | inl q ↦
      let same : p j ≡ p k = ap p ((bytes_beq_iff j k).0 q) in
      elim (Bool-cases (p k)) [
        | inl here ↦ rw (same, here, q) refl
        | inr gone ↦ rw (same, gone) (get-kept p k d ∙ rw gone refl)
      ]
]

pub kept-IsDistinct : (p : Bytes → Bool) (d : Dictionary) → IsDistinct d → IsDistinct (kept p d)
unfolding kept
kept-IsDistinct p [] h = tt
kept-IsDistinct p ((j, v) ∷ d) h = elim (Bool-cases (p j)) [
  | inl q ↦ rw q (ap is_some (get-kept p j d) ∙ rw q h.0, kept-IsDistinct p d h.1)
  | inr q ↦ rw q (kept-IsDistinct p d h.1)
]

pub get-without :
    (key j : Bytes) (d : Dictionary)
    → Dict.get j (without key d) ≡ (if key == j then none else Dict.get j d)
unfolding without
get-without key j d = get-kept (λ i. not (key == i)) j d ∙ ground arith
