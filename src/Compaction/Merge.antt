-- ===== src/Compaction/Merge.antt =====
-- `merge_sstables` of src/storage/compaction.py: what comes out of the merge.
use logvine.Prelude.{
  ℕ, zero, suc, ◌<◌, ◌≤◌, ◌≡◌, ◌≢◌, refl, sym, ap, ◌∙◌, true, false, ◌⊎◌, Option, none, some, List,
  [], ◌∷◌, ◌==◌, Bool-cases, inl, inr, arith, All, All-implies, subst, ==_refl, ==_comm,
}
use logvine.Prelude.Bytes.{
  Bytes, bytes_eq, bytes_lt, bytes_beq_iff, bytes_lt_irrefl, bytes_lt_trans, bytes_lt_total,
}
use logvine.Prelude.Order.{bytes_lt_asym}
use logvine.Prelude.Dict
use logvine.Compaction.{Items, HeapEntry, entry_lt, advance, is_last, merge_loop}
use logvine.Compaction.Heap.{
  IsAscending, stream, IsHeap, size, advance-IsHeap, size-advance, advance-All, Found, earlier, tag,
  find, find-advance,
}

pub get-above :
    (k : Bytes) (items : Items) → All (λ p. bytes_lt k p.0 ≡ true) items → Dict.get k items ≡ none
unfolding Dict.get
get-above k [] h = refl
get-above k ((j, v) ∷ items) h =
    ground (arith, get-above k items h.1, h.0, bytes_beq_iff j k, bytes_lt_irrefl k)

above_trans :
    (a b : Bytes) (items : Items)
    → bytes_lt a b ≡ true
    → All (λ p. bytes_lt b p.0 ≡ true) items
    → All (λ p. bytes_lt a p.0 ≡ true) items
above_trans a b items h =
    All-implies (λ p. bytes_lt b p.0 ≡ true) (λ p. bytes_lt a p.0 ≡ true) items
      (λ p g. bytes_lt_trans a b p.0 h g)

-- An entry that is not before another holds nothing at its key, or is of a later table.
own-later :
    (e y : HeapEntry)
    → entry_lt y e ≡ false
    → y.index ≢ e.index
    → IsAscending (stream y)
    → (Dict.get e.key (stream y) ≡ none) ⊎ (e.index < y.index)
unfolding entry_lt Dict.get
own-later e y after other up = elim (Bool-cases (y.key == e.key)) [
  | inl q ↦ inr (ground (arith, bytes_beq_iff y.key e.key))
  | inr q ↦
      let above : bytes_lt e.key y.key ≡ true = ground (
        arith,
        bytes_lt_total y.key e.key,
        bytes_beq_iff y.key e.key,
        Bool-cases (bytes_lt e.key y.key),
      ) in
      inl (rw q (get-above e.key y.iterator (above_trans e.key y.key y.iterator above up.0)))
]

earlier-stays :
    (i j : ℕ) (v : Bytes) (o : Option Bytes) (c : Found)
    → (o ≡ none) ⊎ (i < j)
    → earlier (some (i, v)) c ≡ some (i, v)
    → earlier (some (i, v)) (earlier (tag j o) c) ≡ some (i, v)
earlier-stays i j v none c h g = g
earlier-stays i j v (some w) none (inl h) g = absurd (ground arith)
earlier-stays i j v (some w) none (inr h) g = ground arith
earlier-stays i j v (some w) (some (k, u)) (inl h) g = absurd (ground arith)
earlier-stays i j v (some w) (some (k, u)) (inr h) g = ground arith

-- At the key of the first entry of a heap, its value comes first.
find-first :
    (e : HeapEntry) (heap : List HeapEntry)
    → All (λ y. entry_lt y e ≡ false) heap
    → All (λ y. y.index ≢ e.index) heap
    → All (λ y. IsAscending (stream y)) heap
    → earlier (some (e.index, e.value)) (find e.key heap) ≡ some (e.index, e.value)
unfolding find
find-first e [] after other up = refl
find-first e (y ∷ ys) after other up =
    earlier-stays e.index y.index e.value (Dict.get e.key (stream y)) (find e.key ys)
      (own-later e y after.0 other.0 up.0) (find-first e ys after.1 other.1 up.1)

abbrev pub value_of : Found → Option Bytes
value_of none = none
value_of (some (index, v)) = some v

-- The keys that are left are not below the last one.
abbrev pub FromLast : Option Bytes → List HeapEntry → Type 0
FromLast none heap = Unit {0}
FromLast (some l) heap = All (λ e. bytes_lt e.key l ≡ false) heap

abbrev pub AboveLast : Option Bytes → Items → Type 0
AboveLast none items = Unit {0}
AboveLast (some l) items = All (λ p. bytes_lt l p.0 ≡ true) items

-- What the loop gives: all keys of the heap but the last one, going up, each with its first value.
pub record Merged (heap : List HeapEntry) (last : Option Bytes) (r : Option Items) : Type 0 where
  pub items : Items
  pub result_is : r ≡ some items
  pub ascending : IsAscending items
  pub above : AboveLast last items
  pub reads : (k : Bytes) → is_last last k ≡ false → Dict.get k items ≡ value_of (find k heap)

above-nil : (last : Option Bytes) → AboveLast last []
above-nil none = tt
above-nil (some l) = tt

module _ (e : HeapEntry) (heap : List HeapEntry) (h : IsHeap (e ∷ heap)) where
  abbrev next_heap : List HeapEntry
  next_heap = advance e.iterator e.index heap

  rest-IsHeap : IsHeap heap
  rest-IsHeap = record { in_order = h.in_order.1; ascending = h.ascending.1; apart = h.apart.1 }

  next-IsHeap : IsHeap next_heap
  next-IsHeap = advance-IsHeap e.iterator e.index heap h.ascending.0.1 h.apart.0 rest-IsHeap

  next-FromLast : FromLast (some e.key) next_heap
  next-FromLast =
      advance-All (λ y. bytes_lt y.key e.key ≡ false) e.iterator e.index heap
        (λ k v rest is.
          bytes_lt_asym e.key k (subst (All (λ p. bytes_lt e.key p.0 ≡ true)) is h.ascending.0.0).0)
        (All-implies (λ y. entry_lt y e ≡ false) (λ y. bytes_lt y.key e.key ≡ false) heap
          (λ y after. unfold entry_lt in ground arith) h.in_order.0)

  -- At any other key, the rest of the heap holds what the heap holds.
  find-next : (k : Bytes) → (e.key == k) ≡ false → find k next_heap ≡ find k (e ∷ heap)
  unfolding find Dict.get
  find-next k other = find-advance k e.iterator e.index heap h.apart.0 ∙ rw other refl

  find-key : value_of (find e.key (e ∷ heap)) ≡ some e.value
  unfolding find Dict.get
  find-key = rw ==_refl (ap value_of (find-first e heap h.in_order.0 h.apart.0 h.ascending.1))

  size-next : suc (size next_heap) ≡ size (e ∷ heap)
  unfolding size
  size-next = omega (arith, size-advance e.iterator e.index heap)

  -- The pair is passed over: its key is the last one.
  merge_skip :
      (last : Option Bytes) (r : Option Items)
      → is_last last e.key ≡ true
      → Merged next_heap (some e.key) r
      → Merged (e ∷ heap) last r
  merge_skip none r same m = absurd (ground arith)
  merge_skip (some l) r same m =
      let key_is : e.key ≡ l = (bytes_beq_iff e.key l).0 same in
      record {
        items = m.items;
        result_is = m.result_is;
        ascending = m.ascending;
        above = subst (λ b. All (λ p. bytes_lt b p.0 ≡ true) m.items) key_is m.above;
        reads = λ k other.
            let apart : (k == e.key) ≡ false = ap (λ (b : Bytes). k == b) key_is ∙ other in
            m.reads k apart ∙ ap value_of (find-next k (==_comm e.key k ∙ apart));
      }

  yield-above :
      (last : Option Bytes) (items : Items)
      → is_last last e.key ≡ false
      → FromLast last (e ∷ heap)
      → All (λ p. bytes_lt e.key p.0 ≡ true) items
      → AboveLast last ((e.key, e.value) ∷ items)
  yield-above none items other from above = tt
  yield-above (some l) items other from above =
      let up : bytes_lt l e.key ≡ true =
        ground (arith, from.0, bytes_lt_total e.key l, bytes_beq_iff e.key l) in
      (up, above_trans l e.key items up above)

  -- The pair comes out: its key is above the last one.
  merge_yield :
      (last : Option Bytes) (items : Items)
      → is_last last e.key ≡ false
      → FromLast last (e ∷ heap)
      → (m : Merged next_heap (some e.key) (some items))
      → Merged (e ∷ heap) last (some ((e.key, e.value) ∷ items))
  merge_yield last items other from m =
      let same : m.items ≡ items = ground (arith, m.result_is) in
      let above' : All (λ p. bytes_lt e.key p.0 ≡ true) items =
        subst (AboveLast (some e.key)) same m.above in
      record {
        items = (e.key, e.value) ∷ items;
        result_is = refl;
        ascending = (above', subst IsAscending same m.ascending);
        above = yield-above last items other from above';
        reads = λ k not_last. elim (Bool-cases (e.key == k)) [
          | inl q ↦
              let key_is : e.key ≡ k = (bytes_beq_iff e.key k).0 q in
              unfold Dict.get in
              rw q (sym find-key ∙ ap (λ (b : Bytes). value_of (find b (e ∷ heap))) key_is)
          | inr q ↦
              unfold Dict.get in
              rw q (
                ap (Dict.get k) (sym same)
                ∙ m.reads k (==_comm k e.key ∙ q)
                ∙ ap value_of (find-next k q))
        ];
      }

-- After enough rounds the loop has ended, and gives what it should.
pub merge_loop-Merged :
    (fuel : ℕ) (heap : List HeapEntry) (last : Option Bytes)
    → size heap ≤ fuel
    → IsHeap heap
    → FromLast last heap
    → Merged heap last (merge_loop fuel heap last)
unfolding merge_loop
merge_loop-Merged fuel [] last enough h from = record {
  items = [];
  result_is = refl;
  ascending = tt;
  above = above-nil last;
  reads = λ k not_last. unfold Dict.get find in refl;
}
merge_loop-Merged zero (e ∷ heap) last enough h from = absurd (unfold size in omega arith)
merge_loop-Merged (suc fuel) (e ∷ heap) last enough h from =
    let m =
      merge_loop-Merged fuel (next_heap e heap h) (some e.key) (omega (arith, size-next e heap h))
        (next-IsHeap e heap h) (next-FromLast e heap h) in
    elim (Bool-cases (is_last last e.key)) [
      | inl same ↦ rw same (merge_skip e heap h last _ same m)
      | inr other ↦
          rw (other, m.result_is)
            (merge_yield e heap h last m.items other from
              (subst (Merged (next_heap e heap h) (some e.key)) m.result_is m))
    ]
