-- ===== src/Engine/Holds.antt =====
-- The engine of src/storage/engine.py against a dictionary of what its reads show.
use logvine.Prelude.{
  ◌≡◌, refl, sym, ap, ◌∙◌, fun_ext, Option, none, some, List, [], ◌∷◌, All, not, ◌==◌, subst,
}
use logvine.Prelude.Bytes.{Bytes, IsBytes, bytes_eq}
use logvine.Prelude.Order.{sorted}
use logvine.Prelude.Interval.{in_range}
use logvine.Prelude.Result.{Result, ok, raise, Error}
use logvine.Prelude.Dict
use logvine.Prelude.Dict.{Dict, keys, IsDistinct}
use logvine.Prelude.Dict.Sorted.{sorted_same}
use logvine.MemTable.{pair_lt}
use logvine.SsTable.Items.{IsStrict, sorted-keys-IsStrict}
use logvine.StorageEngine.Dictionary.{
  Dictionary, kept, without, lookup, get-kept, get-without, kept-IsDistinct,
}
use logvine.Engine.Erasing
use logvine.Engine.Erasing.{store_erasing, store_all_erasing, store_erasing-IsDistinct}
use logvine.Engine.{Engine, put, get, delete, batch_put, read_key_range}
use logvine.Engine.FlushSound.{Healthy}
use logvine.Engine.System.{
  Change, Map, put_change, batch_changes, change, made, seen, shown, put_step, delete_step,
  batch_step,
}
use logvine.Engine.Makes.{Implements, Makes, answer, Step-Makes}
use logvine.Engine.Strict.{strict_unique}
use logvine.Engine.Ranges.{keys-sorted, read_key_range-Implements}

-- A healthy engine whose reads are those of a dictionary.
pub record Holds (s : Engine) (d : Dictionary) : Type 0 where
  pub healthy : Healthy s
  pub reads : Implements s (λ j. Dict.get j d)
  pub distinct : IsDistinct d

get-store_erasing :
    (key value : Bytes) (d : Dictionary) (j : Bytes)
    → change (seen (put_change key value ∷ [])) (λ i. Dict.get i d) j
      ≡ Dict.get j (store_erasing key value d)
unfolding change put_change seen shown
get-store_erasing key value d j = sym (Erasing.get-store_erasing key value j d)

get-store_all_erasing :
    (ks vs : List Bytes) (d : Dictionary) (j : Bytes)
    → change (seen (batch_changes ks vs)) (λ i. Dict.get i d) j
      ≡ Dict.get j (store_all_erasing ks vs d)
unfolding change batch_changes put_change seen shown store_all_erasing
get-store_all_erasing [] vs d j = refl
get-store_all_erasing (key ∷ ks) [] d j = refl
get-store_all_erasing (key ∷ ks) (value ∷ vs) d j =
    ap (λ (m : Map). change (seen (batch_changes ks vs)) m j)
      (fun_ext (get-store_erasing key value d))
    ∙ get-store_all_erasing ks vs (store_erasing key value d) j

store_all_erasing-IsDistinct :
    (ks vs : List Bytes) (d : Dictionary) → IsDistinct d → IsDistinct (store_all_erasing ks vs d)
unfolding store_all_erasing
store_all_erasing-IsDistinct [] vs d h = h
store_all_erasing-IsDistinct (key ∷ ks) [] d h = h
store_all_erasing-IsDistinct (key ∷ ks) (value ∷ vs) d h =
    store_all_erasing-IsDistinct ks vs (store_erasing key value d)
      (store_erasing-IsDistinct key value d h)

answer-lookup : (o : Option Bytes) → answer o ≡ lookup o
unfolding answer lookup
answer-lookup none = refl
answer-lookup (some v) = refl

-- A write that the engine takes leaves the dictionary after it, and one that it refuses the one before.
pub data Written (d d' : Dictionary) : Result (Unit {0}) × Engine → Type 0 where
  taken : (s : Engine) → Holds s d' → Written d d' (ok tt, s)
  raised : (e : Error) (s : Engine) → Holds s d → Written d d' (raise e, s)

made-Written :
    (cs : List Change) (s : Engine) (d d' : Dictionary) (r : Result (Unit {0})) (s' : Engine)
    → Makes s (made r cs) s'
    → ((j : Bytes) → change (seen cs) (λ i. Dict.get i d) j ≡ Dict.get j d')
    → IsDistinct d'
    → Holds s d
    → Written d d' (r, s')
made-Written cs s d d' (ok tt) s' (healthy, makes) same distinct h = taken s' (record {
  healthy = healthy;
  reads = λ j. makes (λ i. Dict.get i d) h.reads j ∙ ap answer (same j);
  distinct = distinct;
})
made-Written cs s d d' (raise e) s' (healthy, makes) same distinct h = raised e s' (record {
  healthy = healthy;
  reads = unfold change seen shown in makes (λ i. Dict.get i d) h.reads;
  distinct = h.distinct;
})

module _ (s : Engine) (d : Dictionary) (h : Holds s d) where
  pub put-Written :
      (key value : Bytes) → IsBytes key → Written d (store_erasing key value d) (put key value s)
  put-Written key value is =
      made-Written (put_change key value ∷ []) s d (store_erasing key value d) (put key value s).0
        (put key value s).1 (Step-Makes s _ _ (put_step key value is) h.healthy)
        (get-store_erasing key value d) (store_erasing-IsDistinct key value d h.distinct) h

  pub delete-Written : (key : Bytes) → IsBytes key → Written d (without key d) (delete key s)
  delete-Written key is =
      made-Written ((key, none) ∷ []) s d (without key d) (delete key s).0 (delete key s).1
        (Step-Makes s _ _ (delete_step key is) h.healthy)
        (λ j. unfold change seen shown in sym (get-without key j d))
        (unfold without in kept-IsDistinct (λ i. not (key == i)) d h.distinct) h

  pub batch_put-Written :
      (ks vs : List Bytes)
      → All IsBytes ks
      → Written d (store_all_erasing ks vs d) (batch_put ks vs s)
  batch_put-Written ks vs is =
      made-Written (batch_changes ks vs) s d (store_all_erasing ks vs d) (batch_put ks vs s).0
        (batch_put ks vs s).1 (Step-Makes s _ _ (batch_step ks vs is) h.healthy)
        (get-store_all_erasing ks vs d) (store_all_erasing-IsDistinct ks vs d h.distinct) h

  pub get-lookup : (key : Bytes) → get key s ≡ lookup (Dict.get key d)
  get-lookup key = h.reads key ∙ answer-lookup (Dict.get key d)

  pub read_key_range-sorted :
      (start_key end_key : Bytes)
      → read_key_range start_key end_key s
        ≡ ok (sorted pair_lt (kept (in_range start_key end_key) d))
  read_key_range-sorted start_key end_key =
      let inside = kept (in_range start_key end_key) d in
      let inside_distinct = kept-IsDistinct (in_range start_key end_key) d h.distinct in
      let (distinct, same) = sorted_same pair_lt inside inside_distinct in
      let (pairs, made, up, reads) =
        read_key_range-Implements start_key end_key s (λ j. Dict.get j d) h.healthy h.reads in
      made
      ∙ ap ok (
          strict_unique pairs (sorted pair_lt inside) up
            (subst IsStrict (sym (keys-sorted inside))
              (sorted-keys-IsStrict inside inside_distinct))
            (λ j. reads j ∙ sym (same j ∙ get-kept (in_range start_key end_key) j d)))
