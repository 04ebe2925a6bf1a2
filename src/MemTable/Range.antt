-- ===== src/MemTable/Range.antt =====
-- Range reads of src/storage/memtable.py against its point reads.
use logvine.Prelude.{
  ℕ, ◌≡◌, refl, true, false, ◌&&◌, Option, none, some, List, [], ◌∷◌, arith, if◌then◌else◌, or_else,
  ◌==◌, All, Bool-cases, inl, inr, Option-cases, ◌∙◌,
}
use logvine.Prelude.Bytes.{Bytes, bytes_eq, bytes_beq_iff, bytes_lt}
use logvine.Prelude.Order.{
  sorted, IsSorted, contains, contains-sorted, sorted-All, sorted-IsSorted, bytes_lt-IsWeakOrder,
}
use logvine.Prelude.Interval.{in_range, past_end}
use logvine.Prelude.Dict
use logvine.Prelude.Dict.{Dict, keys, has, get-set, contains-keys, has-keys}
use logvine.MemTable.{MemTable, copy_range, copy_frozen, get_range, get_frozen, get}
use logvine.MemTable.Reads.{get-or_else, get_frozen-append}
use mathlib.Core.List.{reverse, reverse-append}

module _ (start_key end_key : Bytes) (source : Dict Bytes Bytes) where
  -- What the copy of some keys leaves at a key.
  abbrev copied_at : List Bytes → Dict Bytes Bytes → Bytes → Option Bytes
  copied_at ks acc j =
      if in_range start_key end_key j && contains j ks then Dict.get j source else Dict.get j acc

  stop_at :
      (k : Bytes) (ks : List Bytes) (acc : Dict Bytes Bytes) (j : Bytes)
      → bytes_lt k end_key ≡ false
      → All (λ y. bytes_lt y k ≡ false) ks
      → Dict.get j acc ≡ copied_at (k ∷ ks) acc j
  stop_at k ks acc j e s = elim (Bool-cases (contains j (k ∷ ks))) [
    | inl c ↦ rw (c, past_end end_key k ks j e s c) (ground arith)
    | inr c ↦ rw c (ground arith)
  ]

  copy_at :
      (k v : Bytes) (ks : List Bytes) (acc : Dict Bytes Bytes) (j : Bytes)
      → in_range start_key end_key k ≡ true
      → Dict.get k source ≡ some v
      → copied_at ks (Dict.set k v acc) j ≡ copied_at (k ∷ ks) acc j
  unfolding contains
  copy_at k v ks acc j i g = elim (Bool-cases (k == j)) [
    | inl q ↦ rw (get-set k j v acc, q) (rw (← (bytes_beq_iff k j).0 q) (rw (i, g) (ground arith)))
    | inr q ↦ rw (get-set k j v acc, q) refl
  ]

  skip_at :
      (k : Bytes) (ks : List Bytes) (acc : Dict Bytes Bytes) (j : Bytes)
      → in_range start_key end_key k ≡ false
      → copied_at ks acc j ≡ copied_at (k ∷ ks) acc j
  unfolding contains
  skip_at k ks acc j i = elim (Bool-cases (k == j)) [
    | inl q ↦ rw q (rw (← (bytes_beq_iff k j).0 q) (rw i refl))
    | inr q ↦ rw q refl
  ]

  -- Over sorted keys that the buffer has, the loop ends with no KeyError, and copies just the pairs
  -- of the range.
  copy_range_lem :
      (ks : List Bytes) (acc : Dict Bytes Bytes)
      → IsSorted bytes_lt ks
      → All (λ k. has k source ≡ true) ks
      → (r : Dict Bytes Bytes) × (copy_range start_key end_key source ks acc ≡ some r)
        × ((j : Bytes) → Dict.get j r ≡ copied_at ks acc j)
  unfolding copy_range
  copy_range_lem [] acc s h = (acc, refl, λ j. unfold contains in ground arith)
  copy_range_lem (k ∷ ks) acc s h = elim (Bool-cases (bytes_lt k end_key)) [
    | inr e ↦ (acc, rw e refl, λ j. stop_at k ks acc j e s.0)
    | inl e ↦ elim (Bool-cases (in_range start_key end_key k)) [
      | inl i ↦ elim (Option-cases (Dict.get k source)) [
        | inl g ↦ absurd (ground arith)
        | inr (v, g) ↦
            let (r, done, spec) = copy_range_lem ks (Dict.set k v acc) s.1 h.1 in
            (r, ground arith, λ j. spec j ∙ copy_at k v ks acc j i g)
      ]
      | inr i ↦
          let (r, done, spec) = copy_range_lem ks acc s.1 h.1 in
          (r, ground arith, λ j. spec j ∙ skip_at k ks acc j i)
    ]
  ]

  -- The loop over the keys of the buffer itself.
  copy_buffer :
      (acc : Dict Bytes Bytes)
      → (r : Dict Bytes Bytes) × (copy_range start_key end_key source
            (sorted bytes_lt (keys source))
            acc
          ≡ some r)
        × ((j : Bytes)
            → Dict.get j r ≡ (
                if in_range start_key end_key j
                then or_else (Dict.get j source) (Dict.get j acc)
                else Dict.get j acc))
  copy_buffer acc =
      let ks = sorted bytes_lt (keys source) in
      let (r, done, spec) =
        copy_range_lem ks acc (sorted-IsSorted bytes_lt bytes_lt-IsWeakOrder (keys source))
          (sorted-All bytes_lt (λ k. has k source ≡ true) (keys source) (has-keys source)) in
      (
        r,
        done,
        λ j.
            ground
              (arith, spec j, contains-sorted bytes_lt j (keys source), contains-keys j source),
      )

-- The newer frozen buffers are read before the oldest one.
frozen_first :
    (j : Bytes) (d : Dict Bytes Bytes) (o : ℕ) (rest : List (Dict Bytes Bytes × ℕ))
    → get_frozen j (reverse ((d, o) ∷ rest)) ≡ or_else (get_frozen j (reverse rest)) (Dict.get j d)
unfolding get_frozen
frozen_first j d o rest =
    rw (reverse-append ((d, o) ∷ []) rest)
      (rw (get_frozen-append j (reverse rest) ((d, o) ∷ [])) (ground arith))

module _ (start_key end_key : Bytes) where
  copy_frozen_lem :
      (queue : List (Dict Bytes Bytes × ℕ)) (acc : Dict Bytes Bytes)
      → (r : Dict Bytes Bytes) × (copy_frozen start_key end_key queue acc ≡ some r)
        × ((j : Bytes)
            → Dict.get j r ≡ (
                if in_range start_key end_key j
                then or_else (get_frozen j (reverse queue)) (Dict.get j acc)
                else Dict.get j acc))
  unfolding copy_frozen
  copy_frozen_lem [] acc = (acc, refl, λ j. unfold get_frozen reverse in ground arith)
  copy_frozen_lem ((d, o) ∷ rest) acc =
      let (r1, done1, spec1) = copy_buffer start_key end_key d acc in
      let (r2, done2, spec2) = copy_frozen_lem rest r1 in
      (r2, ground arith, λ j. rw (frozen_first j d o rest) (ground (arith, spec1 j, spec2 j)))

  -- A range read meets no KeyError, and has at each key of the range what a point read of the key
  -- returns; outside of the range it has nothing.
  pub get-get_range :
      (j : Bytes) (m : MemTable)
      → Dict.get j (get_range start_key end_key m)
        ≡ (if in_range start_key end_key j then get j m else none)
  unfolding get_range
  get-get_range j m =
      let (r1, done1, spec1) = copy_frozen_lem m.frozen_queue [] in
      let (r2, done2, spec2) = copy_buffer start_key end_key m.active r1 in
      let nothing : Dict.get {V = Bytes} j [] ≡ none = unfold Dict.get in refl in
      rw get-or_else (ground (arith, spec1 j, spec2 j))
