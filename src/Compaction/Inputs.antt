-- ===== src/Compaction/Inputs.antt =====
-- `merge_sstables` of src/storage/compaction.py over all of its inputs.
use logvine.Prelude.{
  ℕ, suc, ◌+◌, ◌<◌, ◌≡◌, ◌≢◌, refl, sym, ap, ◌∙◌, Option, none, some, List, [], ◌∷◌, arith, All,
  All-implies, or_else,
}
use logvine.Prelude.Bytes.{Bytes, bytes_eq}
use logvine.Prelude.Dict
use logvine.Compaction.{Items, HeapEntry, advance, initial_heap, merge_items, count}
use logvine.Compaction.Heap.{
  IsAscending, IsHeap, size, advance-IsHeap, size-advance, advance-All, Found, earlier, tag, find,
  find-advance,
}
use logvine.Compaction.Merge.{value_of, merge_loop-Merged}

-- The value of a key in the first input that has it.
abbrev pub first_input : Bytes → List Items → Option Bytes
first_input k [] = none
first_input k (items ∷ inputs) = or_else (Dict.get k items) (first_input k inputs)

abbrev Below : ℕ → List HeapEntry → Type 0
Below i = All (λ y. y.index < i)

abbrev FoundBelow : ℕ → Found → Type 0
FoundBelow i none = Unit {0}
FoundBelow i (some (j, v)) = j < i

earlier-FoundBelow :
    (i j : ℕ) (o : Option Bytes) (c : Found)
    → j < i
    → FoundBelow i c
    → FoundBelow i (earlier (tag j o) c)
earlier-FoundBelow i j none c h g = g
earlier-FoundBelow i j (some v) none h g = h
earlier-FoundBelow i j (some v) (some (k, w)) h g = ground arith

find-FoundBelow :
    (i : ℕ) (k : Bytes) (heap : List HeapEntry) → Below i heap → FoundBelow i (find k heap)
unfolding find
find-FoundBelow i k [] h = tt
find-FoundBelow i k (y ∷ ys) h =
    earlier-FoundBelow i y.index (Dict.get k ((y.key, y.value) ∷ y.iterator)) (find k ys) h.0
      (find-FoundBelow i k ys h.1)

-- A table that comes after those of the heap adds what they do not have.
value_of-earlier :
    (i : ℕ) (o : Option Bytes) (c : Found)
    → FoundBelow i c
    → value_of (earlier (tag i o) c) ≡ or_else (value_of c) o
value_of-earlier i none none h = refl
value_of-earlier i none (some (j, w)) h = refl
value_of-earlier i (some v) none h = refl
value_of-earlier i (some v) (some (j, w)) h = ground arith

or_else_assoc : (a b c : Option Bytes) → or_else (or_else a b) c ≡ or_else a (or_else b c)
or_else_assoc none b c = refl
or_else_assoc (some v) b c = refl

-- The heap that the inputs are pushed onto, from position `i` on.
record Pushed (i : ℕ) (inputs : List Items) (before after : List HeapEntry) : Type 0 where
  is_heap : IsHeap after
  size_is : size after ≡ count inputs + size before
  reads :
      (k : Bytes)
      → value_of (find k after) ≡ or_else (value_of (find k before)) (first_input k inputs)

or_else-none : (o : Option Bytes) → or_else o none ≡ o
or_else-none none = refl
or_else-none (some v) = refl

initial_heap-Pushed :
    (i : ℕ) (inputs : List Items) (heap : List HeapEntry)
    → All IsAscending inputs
    → IsHeap heap
    → Below i heap
    → Pushed i inputs heap (initial_heap i inputs heap)
unfolding initial_heap
initial_heap-Pushed i [] heap up h below = record {
  is_heap = h;
  size_is = omega arith;
  reads = λ k. sym (or_else-none (value_of (find k heap)));
}
initial_heap-Pushed i (items ∷ inputs) heap up h below =
    let new =
      All-implies (λ y. y.index < i) (λ y. y.index ≢ i) heap (λ y lt q. omega arith) below in
    let heap' = advance items i heap in
    let below' =
      advance-All (λ y. y.index < suc i) items i heap (λ k v rest q. omega arith)
        (All-implies (λ y. y.index < i) (λ y. y.index < suc i) heap (λ y lt. omega arith) below) in
    let p =
      initial_heap-Pushed (suc i) inputs heap' up.1 (advance-IsHeap items i heap up.0 new h)
        below' in
    record {
      is_heap = p.is_heap;
      size_is = omega (arith, p.size_is, size-advance items i heap);
      reads = λ k.
          p.reads k
          ∙ ap (λ (c : Found). or_else (value_of c) (first_input k inputs))
              (find-advance k items i heap new)
          ∙ ap (λ (o : Option Bytes). or_else o (first_input k inputs))
              (value_of-earlier i (Dict.get k items) (find k heap) (find-FoundBelow i k heap below))
          ∙ or_else_assoc (value_of (find k heap)) (Dict.get k items) (first_input k inputs);
    }

empty-IsHeap : IsHeap []
empty-IsHeap = record { in_order = tt; ascending = tt; apart = tt }

-- The merge of inputs whose keys go up ends, and gives each key of theirs once: the keys go up, and
-- each has the value of the first input that has the key.
pub merge_items_lem :
    (inputs : List Items)
    → All IsAscending inputs
    → (items : Items) × (merge_items inputs ≡ some items)
      × IsAscending items
      × ((k : Bytes) → Dict.get k items ≡ first_input k inputs)
unfolding merge_items
merge_items_lem inputs up =
    let p = initial_heap-Pushed 0 inputs [] up empty-IsHeap tt in
    let heap = initial_heap 0 inputs [] in
    let m =
      merge_loop-Merged (count inputs) heap none (unfold size in omega (arith, p.size_is)) p.is_heap
        tt in
    (m.items, m.result_is, m.ascending, λ k. m.reads k refl ∙ p.reads k ∙ unfold find in refl)
