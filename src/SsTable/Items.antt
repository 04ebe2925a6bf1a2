-- ===== src/SsTable/Items.antt =====
-- `iter_items` of src/storage/sstable.py: the pairs of a written table in the order of their keys.
use logvine.Prelude.{
  ℕ, ◌≡◌, refl, sym, ap, ◌∙◌, true, false, some, List, [], ◌∷◌, arith, All, All-implies, ◌==◌,
  Bool-cases, Option-cases, inl, inr, is_some, subst,
}
use logvine.Prelude.Bytes.{Bytes, bytes_eq, bytes_lt, bytes_beq_iff, bytes_lt_trans, bytes_lt_total}
use logvine.Prelude.Order.{
  insert_sorted, insert_sorted-All, sorted, sorted-All, contains, contains-sorted,
}
use logvine.Prelude.Result.{ok}
use logvine.Prelude.Dict
use logvine.Prelude.Dict.{
  Dict, keys, has, set_all, contains-keys, has-keys, IsDistinct, set-IsDistinct,
}
use logvine.SsTable.{SsTable, Files, get_loaded, collect, iter_items, ensure_index}
use logvine.SsTable.Write.{AgreesAt, AgreesAt-has}
use logvine.SsTable.Lookup.{
  Written, reads_back, path-ensure_index, get_loaded-Agrees, load_index-index, ensure_index-empty,
}

-- Keys that go up, with none twice.
abbrev pub IsStrict : List Bytes → Type 0
IsStrict [] = Unit {0}
IsStrict (k ∷ ks) = All (λ j. bytes_lt k j ≡ true) ks × IsStrict ks

insert-IsStrict :
    (k : Bytes) (ks : List Bytes)
    → contains k ks ≡ false
    → IsStrict ks
    → IsStrict (insert_sorted bytes_lt k ks)
unfolding insert_sorted contains
insert-IsStrict k [] new s = (tt, tt)
insert-IsStrict k (j ∷ ks) new s = elim (Bool-cases (bytes_lt j k)) [
  | inl below ↦ rw below (
    insert_sorted-All bytes_lt (λ i. bytes_lt j i ≡ true) k ks below s.0,
    insert-IsStrict k ks (ground arith) s.1,
  )
  | inr above ↦
      let up : bytes_lt k j ≡ true =
        ground (arith, bytes_lt_total j k, bytes_beq_iff j k, Bool-cases (bytes_lt k j)) in
      rw above (
        (
          up,
          All-implies (λ i. bytes_lt j i ≡ true) (λ i. bytes_lt k i ≡ true) ks
              (λ i h. bytes_lt_trans k j i up h) s.0,
        ),
        s,
      )
]

pub sorted-keys-IsStrict :
    {V : Type 0} (d : Dict Bytes V) → IsDistinct d → IsStrict (sorted bytes_lt (keys d))
unfolding sorted
sorted-keys-IsStrict [] h = tt
sorted-keys-IsStrict ((k, v) ∷ d) h =
    insert-IsStrict k (sorted bytes_lt (keys d))
      (contains-sorted bytes_lt k (keys d) ∙ contains-keys k d ∙ h.0) (sorted-keys-IsStrict d h.1)

-- The pairs at a list of keys.
record PairsAt (d : Dict Bytes Bytes) (ks : List Bytes) (items : List (Bytes × Bytes))
    : Type 0 where
  keys_are : keys items ≡ ks
  reads : (k : Bytes) → contains k ks ≡ true → Dict.get k items ≡ Dict.get k d

collect-PairsAt :
    (d : Dict Bytes Bytes) (files : Files) (t : SsTable) (ks : List Bytes)
    → ((k : Bytes) → get_loaded k files t ≡ ok (Dict.get k d))
    → All (λ k. has k d ≡ true) ks
    → (items : List (Bytes × Bytes)) × (collect files t ks ≡ ok items) × PairsAt d ks items
unfolding collect contains Dict.get
collect-PairsAt d files t [] loaded here =
    ([], refl, record { keys_are = refl; reads = λ k h. absurd (ground arith) })
collect-PairsAt d files t (k ∷ ks) loaded here = elim (Option-cases (Dict.get k d)) [
  | inl absent ↦ absurd (ground (arith, here.0))
  | inr (value, there) ↦
      let (items, made, p) = collect-PairsAt d files t ks loaded here.1 in
      (
        (k, value) ∷ items,
        rw (loaded k, there, made) refl,
        record {
          keys_are = ap (◌∷◌ k) p.keys_are;
          reads = λ j h. elim (Bool-cases (k == j)) [
            | inl q ↦
                let same : k ≡ j = (bytes_beq_iff k j).0 q in
                rw q (sym there ∙ ap (λ (i : Bytes). Dict.get i d) same)
            | inr q ↦ rw q (p.reads j (rw q at h))
          ];
        },
      )
]

set_all-IsDistinct :
    {V : Type 0} (pairs d : Dict Bytes V) → IsDistinct d → IsDistinct (set_all pairs d)
unfolding set_all
set_all-IsDistinct [] d h = h
set_all-IsDistinct ((k, v) ∷ pairs) d h =
    set_all-IsDistinct pairs (Dict.set k v d) (set-IsDistinct k v d h)

-- Dictionaries with the same keys that agree at those keys agree.
same_where_has :
    {V : Type 0} (k : Bytes) (d d' : Dict Bytes V)
    → has k d ≡ has k d'
    → (has k d' ≡ true → Dict.get k d ≡ Dict.get k d')
    → Dict.get k d ≡ Dict.get k d'
same_where_has k d d' same reads = elim (Option-cases (Dict.get k d')) [
  | inr (v, there) ↦ reads (ap is_some there)
  | inl absent ↦ elim (Option-cases (Dict.get k d)) [
    | inl absent' ↦ absent' ∙ sym absent
    | inr (v, there) ↦ absurd (ground arith)
  ]
]

-- A table that was loaded from a written file: its sorted keys are those of the pairs, and a lookup
-- of a key finds its value.
pub record Loaded (d : Dict Bytes Bytes) (files : Files) (t : SsTable) (ks : List Bytes)
    : Type 0 where
  pub reads : (k : Bytes) → get_loaded k files t ≡ ok (Dict.get k d)
  pub here : All (λ k. has k d ≡ true) ks
  pub all : (k : Bytes) → contains k ks ≡ has k d
  pub strict : IsStrict ks

pub ensure_index-Loaded :
    (pairs : List (Bytes × Bytes)) (file : Bytes) (index : Dict Bytes ℕ) (files : Files)
    (t : SsTable)
    → Written pairs file index
    → Dict.get t.path files ≡ some file
    → t.index ≡ []
    → Loaded
        (set_all pairs [])
        files
        (ensure_index files t)
        (sorted bytes_lt (keys (ensure_index files t).index))
ensure_index-Loaded pairs file index files t w stands empty =
    let d = set_all pairs [] in
    let t' = ensure_index files t in
    let loaded : t'.index ≡ set_all index [] =
      ap (λ (u : SsTable). u.index) (ensure_index-empty files t empty)
      ∙ load_index-index files t file (set_all index []) stands w.reloads in
    let agrees : (k : Bytes) → AgreesAt file (Dict.get k t'.index) (Dict.get k d) = λ k.
      subst (λ o. AgreesAt file o (Dict.get k d))
        (sym (reads_back k pairs files t file index w stands (inl empty))) (w.agrees k) in
    let same_has : (k : Bytes) → has k t'.index ≡ has k d =
      λ k. AgreesAt-has file (Dict.get k t'.index) (Dict.get k d) (agrees k) in
    record {
      reads = λ k.
          get_loaded-Agrees k files t' file d
            (ap (λ (q : Bytes). Dict.get q files) (path-ensure_index files t) ∙ stands) (agrees k);
      here =
          sorted-All bytes_lt (λ k. has k d ≡ true) (keys t'.index)
            (All-implies (λ k. has k t'.index ≡ true) (λ k. has k d ≡ true) (keys t'.index)
              (λ k h. sym (same_has k) ∙ h) (has-keys t'.index));
      all = λ k. contains-sorted bytes_lt k (keys t'.index) ∙ contains-keys k t'.index ∙ same_has k;
      strict =
          sorted-keys-IsStrict t'.index
            (subst IsDistinct (sym loaded) (set_all-IsDistinct index [] tt));
    }

-- The iterator over a new table at the path of a written file reads it whole: it yields each key of
-- the file once, in increasing order, with the value that a lookup finds.
pub iter_items-Written :
    (pairs : List (Bytes × Bytes)) (file : Bytes) (index : Dict Bytes ℕ) (files : Files)
    (t : SsTable)
    → Written pairs file index
    → Dict.get t.path files ≡ some file
    → t.index ≡ []
    → (items : List (Bytes × Bytes)) × ((iter_items files t).0 ≡ ok items)
      × IsStrict (keys items)
      × ((k : Bytes) → Dict.get k items ≡ Dict.get k (set_all pairs []))
unfolding iter_items
iter_items-Written pairs file index files t w stands empty =
    let d = set_all pairs [] in
    let t' = ensure_index files t in
    let ks = sorted bytes_lt (keys t'.index) in
    let l = ensure_index-Loaded pairs file index files t w stands empty in
    let (items, made, p) = collect-PairsAt d files t' ks l.reads l.here in
    (
      items,
      made,
      subst IsStrict (sym p.keys_are) l.strict,
      λ k.
          same_where_has k items d
            (sym (contains-keys k items) ∙ ap (contains k) p.keys_are ∙ l.all k)
            (λ h. p.reads k (l.all k ∙ h)),
    )
