-- ===== src/Compaction/Heap.antt =====
-- The heap of `merge_sstables` in src/storage/compaction.py: its order, and what its entries hold.
use logvine.Prelude.{
  ℕ, ◌+◌, ◌≡◌, ◌≢◌, refl, sym, ap, ◌∙◌, true, false, Option, none, some, List, [], ◌∷◌, ltb, length,
  if◌then◌else◌, Bool-cases, inl, inr, arith, All,
}
use logvine.Prelude.Bytes.{
  Bytes, bytes_eq, bytes_lt, bytes_beq_iff, bytes_lt_irrefl, bytes_lt_total,
}
use logvine.Prelude.Order.{
  insert_sorted, insert_sorted-All, insert_sorted-IsSorted, IsWeakOrder, IsSorted, bytes_lt_asym,
  bytes_le_trans,
}
use logvine.Prelude.Dict
use logvine.Compaction.{Items, HeapEntry, entry_lt, heappush, advance}

entry_lt_asym : (a b : HeapEntry) → entry_lt a b ≡ true → entry_lt b a ≡ false
unfolding entry_lt
entry_lt_asym a b h = ground (
  arith,
  bytes_lt_asym a.key b.key,
  bytes_beq_iff a.key b.key,
  bytes_beq_iff b.key a.key,
  bytes_lt_irrefl a.key,
)

entry_le_trans :
    (a b c : HeapEntry) → entry_lt b a ≡ false → entry_lt c b ≡ false → entry_lt c a ≡ false
unfolding entry_lt
entry_le_trans a b c p q = ground (
  arith,
  bytes_le_trans a.key b.key c.key,
  bytes_beq_iff b.key a.key,
  bytes_beq_iff c.key b.key,
  bytes_beq_iff c.key a.key,
  bytes_lt_total b.key a.key,
  bytes_lt_total c.key b.key,
  bytes_lt_asym a.key b.key,
  bytes_lt_asym b.key c.key,
)

pub entry_lt-IsWeakOrder : IsWeakOrder entry_lt
entry_lt-IsWeakOrder = record { asym = entry_lt_asym; le_trans = entry_le_trans }

-- Keys that go up, with no key twice.
abbrev pub IsAscending : Items → Type 0
IsAscending [] = Unit {0}
IsAscending ((k, v) ∷ items) = All (λ p. bytes_lt k p.0 ≡ true) items × IsAscending items

-- The pairs that an entry stands for.
abbrev pub stream : HeapEntry → Items
stream e = (e.key, e.value) ∷ e.iterator

-- No two entries are of the same table.
abbrev pub Apart : List HeapEntry → Type 0
Apart [] = Unit {0}
Apart (e ∷ heap) = All (λ y. y.index ≢ e.index) heap × Apart heap

pub record IsHeap (heap : List HeapEntry) : Type 0 where
  pub in_order : IsSorted entry_lt heap
  pub ascending : All (λ e. IsAscending (stream e)) heap
  pub apart : Apart heap

unfoldable pub size : List HeapEntry → ℕ
size [] = 0
size (e ∷ heap) = length (stream e) + size heap

insert-Apart :
    (e : HeapEntry) (heap : List HeapEntry)
    → All (λ y. y.index ≢ e.index) heap
    → Apart heap
    → Apart (insert_sorted entry_lt e heap)
unfolding insert_sorted
insert-Apart e [] new apart = (tt, tt)
insert-Apart e (y ∷ ys) new apart = elim (Bool-cases (entry_lt y e)) [
  | inl below ↦ rw below (
    insert_sorted-All entry_lt (λ z. z.index ≢ y.index) e ys (λ q. new.0 (sym q)) apart.0,
    insert-Apart e ys new.1 apart.1,
  )
  | inr above ↦ rw above (new, apart)
]

pub advance-IsHeap :
    (items : Items) (index : ℕ) (heap : List HeapEntry)
    → IsAscending items
    → All (λ y. y.index ≢ index) heap
    → IsHeap heap
    → IsHeap (advance items index heap)
unfolding advance heappush
advance-IsHeap [] index heap up new h = h
advance-IsHeap ((k, v) ∷ items) index heap up new h =
    let e : HeapEntry = record { key = k; index = index; value = v; iterator = items } in
    record {
      in_order = insert_sorted-IsSorted entry_lt entry_lt-IsWeakOrder e heap h.in_order;
      ascending = insert_sorted-All entry_lt (λ e'. IsAscending (stream e')) e heap up h.ascending;
      apart = insert-Apart e heap new h.apart;
    }

size-insert :
    (e : HeapEntry) (heap : List HeapEntry)
    → size (insert_sorted entry_lt e heap) ≡ length (stream e) + size heap
unfolding size insert_sorted
size-insert e [] = refl
size-insert e (y ∷ ys) = ground (arith, size-insert e ys)

-- A pair is taken off the heap in each round, and none is lost.
pub size-advance :
    (items : Items) (index : ℕ) (heap : List HeapEntry)
    → size (advance items index heap) ≡ length items + size heap
unfolding advance heappush
size-advance [] index heap = omega arith
size-advance ((k, v) ∷ items) index heap =
    size-insert (record { key = k; index = index; value = v; iterator = items }) heap

-- What holds of the key of each entry that is left holds of the next one's.
pub advance-All {κ} :
    (P : HeapEntry → Type κ) (items : Items) (index : ℕ) (heap : List HeapEntry)
    → ((k v : Bytes) (rest : Items)
        → items ≡ (k, v) ∷ rest
        → P (record { key = k; index = index; value = v; iterator = rest }))
    → All P heap
    → All P (advance items index heap)
unfolding advance heappush
advance-All P [] index heap p h = h
advance-All P ((k, v) ∷ items) index heap p h =
    insert_sorted-All entry_lt P (record { key = k; index = index; value = v; iterator = items })
      heap (p k v items refl) h

-- A value with the position of its table.
abbrev pub Found : Type 0
Found = Option (ℕ × Bytes)

-- The one of the table that comes first.
abbrev pub earlier : Found → Found → Found
earlier none b = b
earlier (some a) none = some a
earlier (some (i, v)) (some (j, w)) = if ltb j i then some (j, w) else some (i, v)

abbrev pub tag : ℕ → Option Bytes → Found
tag index none = none
tag index (some v) = some (index, v)

abbrev pub own : Bytes → HeapEntry → Found
own k e = tag e.index (Dict.get k (stream e))

-- What the entries of a heap hold at a key: the value of the table that comes first.
unfoldable pub find : Bytes → List HeapEntry → Found
find k [] = none
find k (e ∷ heap) = earlier (own k e) (find k heap)

earlier_swap :
    (i j : ℕ) (a b : Option Bytes) (c : Found)
    → i ≢ j
    → earlier (tag i a) (earlier (tag j b) c) ≡ earlier (tag j b) (earlier (tag i a) c)
earlier_swap i j none b c h = refl
earlier_swap i j (some v) none c h = refl
earlier_swap i j (some v) (some w) none h = ground arith
earlier_swap i j (some v) (some w) (some (k, u)) h = ground arith

find-insert :
    (k : Bytes) (e : HeapEntry) (heap : List HeapEntry)
    → All (λ y. y.index ≢ e.index) heap
    → find k (insert_sorted entry_lt e heap) ≡ earlier (own k e) (find k heap)
unfolding find insert_sorted
find-insert k e [] new = refl
find-insert k e (y ∷ ys) new = elim (Bool-cases (entry_lt y e)) [
  | inl below ↦ rw below (
      ap (earlier (own k y)) (find-insert k e ys new.1)
      ∙ earlier_swap y.index e.index (Dict.get k (stream y)) (Dict.get k (stream e)) (find k ys)
          new.0)
  | inr above ↦ rw above refl
]

pub find-advance :
    (k : Bytes) (items : Items) (index : ℕ) (heap : List HeapEntry)
    → All (λ y. y.index ≢ index) heap
    → find k (advance items index heap) ≡ earlier (tag index (Dict.get k items)) (find k heap)
unfolding advance heappush
find-advance k [] index heap new = unfold Dict.get in refl
find-advance k ((j, v) ∷ items) index heap new =
    find-insert k (record { key = j; index = index; value = v; iterator = items }) heap new
