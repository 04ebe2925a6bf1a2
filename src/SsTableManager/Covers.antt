-- ===== src/SsTableManager/Covers.antt =====
-- The metadata that `build_metadata` of src/storage/sstable_manager.py makes of a written table: its
-- key range hides no key of the table.
use logvine.Prelude.{
  ℕ, ◌≡◌, refl, sym, ap, ◌∙◌, true, false, Option, none, some, List, [], ◌∷◌, arith, All,
  All-implies, ◌==◌, Bool-cases, Option-cases, inl, inr, ◌||◌, is_some, subst,
}
use logvine.Prelude.Bytes.{Bytes, IsBytes, bytes_eq, bytes_lt, bytes_beq_iff, bytes_lt_irrefl}
use logvine.Prelude.Text.{hex, fromhex, fromhex-hex}
use logvine.Prelude.Order.{
  sorted, IsSorted, sorted-IsSorted, bytes_lt-IsWeakOrder, contains, contains-sorted, All-contains,
  sorted-All,
}
use logvine.Prelude.Result.{ok}
use logvine.Prelude.Dict
use logvine.Prelude.Dict.{Dict, keys, has, set_all, contains-keys, has-keys}
use logvine.SsTable
use logvine.SsTable.{SsTable, Files, init, ensure_index}
use logvine.SsTable.Write.{AgreesAt-has}
use logvine.SsTable.Lookup.{Written, reads_back, path-ensure_index, get-Written}
use logvine.Manifest.{Metadata}
use logvine.SsTableManager.{last_key, metadata_for, build_metadata, metadata_to_sstable, get_from}

All-last_key {ℓ} :
    (P : Bytes → Type ℓ) (k : Bytes) (ks : List Bytes) → All P (k ∷ ks) → P (last_key (k ∷ ks))
All-last_key P k [] h = h.0
All-last_key P k (k' ∷ ks) h = All-last_key P k' ks h.1

-- A key of a sorted list is not below the first nor above the last.
sorted_bounds :
    (key k : Bytes) (ks : List Bytes)
    → IsSorted bytes_lt (k ∷ ks)
    → contains key (k ∷ ks) ≡ true
    → (bytes_lt key k ≡ false) × (bytes_lt (last_key (k ∷ ks)) key ≡ false)
unfolding contains
sorted_bounds key k [] s h = ground (arith, bytes_beq_iff k key, bytes_lt_irrefl key)
sorted_bounds key k (k' ∷ ks) s h = elim (Bool-cases (k == key)) [
  | inl q ↦
      let same : k ≡ key = (bytes_beq_iff k key).0 q in
      rw (← same) (bytes_lt_irrefl k, All-last_key (λ y. bytes_lt y k ≡ false) k' ks s.0)
  | inr q ↦
      let later : contains key (k' ∷ ks) ≡ true = unfold contains in rw q at h in
      (
        All-contains (λ y. bytes_lt y k ≡ false) key (k' ∷ ks) s.0 later,
        (sorted_bounds key k' ks s.1 later).1,
      )
]

-- The metadata of a sorted list of keys that is not empty.
record Describes (meta : Metadata) (t : SsTable) (created : ℕ) (k : Bytes) (ks : List Bytes)
    : Type 0 where
  path_is : meta.path ≡ t.path
  created_is : meta.created_at_ms ≡ created
  min_is : meta.min_key_hex ≡ hex k
  max_is : meta.max_key_hex ≡ hex (last_key (k ∷ ks))

metadata_for-Describes :
    (created level : ℕ) (files : Files) (t : SsTable) (ks : List Bytes) (meta : Metadata)
    → metadata_for created level files t ks ≡ ok meta
    → (k : Bytes) × (rest : List Bytes) × (ks ≡ k ∷ rest) × Describes meta t created k rest
unfolding metadata_for
metadata_for-Describes created level files t [] meta h = absurd (ground arith)
metadata_for-Describes created level files t (k ∷ ks) meta h = (k, ks, refl, ground arith)

get_from-range :
    (key : Bytes) (files : Files) (meta : Metadata) (low high : Bytes) (value : Option Bytes)
    → fromhex meta.min_key_hex ≡ ok low
    → fromhex meta.max_key_hex ≡ ok high
    → ((bytes_lt key low || bytes_lt high key) ≡ true → value ≡ none)
    → (SsTable.get key files (metadata_to_sstable meta)).0 ≡ ok value
    → get_from key files meta ≡ ok value
unfolding get_from
get_from-range key files meta low high value l h absent reads =
    elim (Bool-cases (bytes_lt key low || bytes_lt high key)) [
      | inl out ↦ rw (l, h, out) (sym (ap ok (absent out)))
      | inr within ↦ rw (l, h, within) reads
    ]

module _ (pairs : List (Bytes × Bytes)) (file : Bytes) (index : Dict Bytes ℕ) (files : Files)
    (t : SsTable) (w : Written pairs file index) (stands : Dict.get t.path files ≡ some file)
    (indexed : t.index ≡ index)
    (all_bytes : (k : Bytes) → has k (set_all pairs []) ≡ true → IsBytes k) where
  has-index : (k : Bytes) → has k (ensure_index files t).index ≡ has k (set_all pairs [])
  has-index k =
      ap is_some (reads_back k pairs files t file index w stands (inr indexed))
      ∙ AgreesAt-has file (Dict.get k index) (Dict.get k (set_all pairs [])) (w.agrees k)

  abbrev sorted_keys : List Bytes
  sorted_keys = sorted bytes_lt (keys (ensure_index files t).index)

  sorted_keys-IsBytes : All IsBytes sorted_keys
  sorted_keys-IsBytes =
      let index' = (ensure_index files t).index in
      sorted-All bytes_lt IsBytes (keys index') (
        All-implies (λ k. has k index' ≡ true) IsBytes (keys index')
          (λ k h. all_bytes k (sym (has-index k) ∙ h)) (has-keys index'))

  contains-sorted_keys : (k : Bytes) → contains k sorted_keys ≡ has k (set_all pairs [])
  contains-sorted_keys k =
      let index' = (ensure_index files t).index in
      contains-sorted bytes_lt k (keys index') ∙ contains-keys k index' ∙ has-index k

  out_of_range :
      (key k : Bytes) (ks : List Bytes)
      → sorted_keys ≡ k ∷ ks
      → (bytes_lt key k || bytes_lt (last_key (k ∷ ks)) key) ≡ true
      → Dict.get key (set_all pairs []) ≡ none
  out_of_range key k ks are out = elim (Option-cases (Dict.get key (set_all pairs []))) [
    | inl absent ↦ absent
    | inr (value, there) ↦
        let s =
          subst (IsSorted bytes_lt) are
            (sorted-IsSorted bytes_lt bytes_lt-IsWeakOrder (keys (ensure_index files t).index)) in
        let c : contains key (k ∷ ks) ≡ true =
          ap (contains key) (sym are) ∙ contains-sorted_keys key ∙ ap is_some there in
        let (low, high) = sorted_bounds key k ks s c in absurd (ground arith)
  ]

  -- A read that looks at the key range first finds what the table holds.
  pub get_from-build_metadata :
      (key : Bytes) (created level : ℕ) (meta : Metadata)
      → build_metadata created t level files ≡ ok meta
      → (get_from key files meta ≡ ok (Dict.get key (set_all pairs [])))
        × (meta.path ≡ t.path)
        × (meta.created_at_ms ≡ created)
  unfolding build_metadata
  get_from-build_metadata key created level meta h =
      let (k, ks, are, d) =
        metadata_for-Describes created level files (ensure_index files t) sorted_keys meta h in
      let path_is : meta.path ≡ t.path = d.path_is ∙ path-ensure_index files t in
      let bs = subst (All IsBytes) are sorted_keys-IsBytes in
      let low = ap fromhex d.min_is ∙ fromhex-hex k bs.0 in
      let high =
        ap fromhex d.max_is ∙ fromhex-hex (last_key (k ∷ ks)) (All-last_key IsBytes k ks bs) in
      let reads : (SsTable.get key files (metadata_to_sstable meta)).0
          ≡ ok (Dict.get key (set_all pairs [])) =
        unfold metadata_to_sstable init in
        get-Written key pairs files (metadata_to_sstable meta) file index w
          (ap (λ (p : Bytes). Dict.get p files) path_is ∙ stands) (inl refl) in
      (
        get_from-range key files meta k (last_key (k ∷ ks)) (Dict.get key (set_all pairs [])) low
            high (out_of_range key k ks are) reads,
        path_is,
        d.created_is,
      )
