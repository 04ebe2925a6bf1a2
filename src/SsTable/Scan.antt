-- ===== src/SsTable/Scan.antt =====
-- `range_scan` of src/storage/sstable.py: the pairs of a written table from one key to before another.
use logvine.Prelude.{
  ℕ, ◌≡◌, refl, ◌∙◌, true, false, ◌&&◌, none, some, List, [], ◌∷◌, arith, All, ◌==◌, All-implies,
  Bool-cases, Option-cases, inl, inr, subst, if◌then◌else◌,
}
use logvine.Prelude.Bytes.{Bytes, bytes_eq, bytes_lt, bytes_le, bytes_beq_iff}
use logvine.Prelude.Order.{sorted, contains, bytes_lt_asym}
use logvine.Prelude.Interval.{in_range, past_end}
use logvine.Prelude.Result.{ok}
use logvine.Prelude.Dict
use logvine.Prelude.Dict.{Dict, keys, has, set_all}
use logvine.SsTable.{SsTable, Files, get_loaded, scan, range_scan, ensure_index}
use logvine.SsTable.Lookup.{Written}
use logvine.SsTable.Items.{IsStrict, ensure_index-Loaded}

module _ (start_key end_key : Bytes) (d : Dict Bytes Bytes) (files : Files) (t : SsTable)
    (loaded : (k : Bytes) → get_loaded k files t ≡ ok (Dict.get k d)) where
  -- The pairs of a scan over some keys.
  abbrev ScansTo : List Bytes → List (Bytes × Bytes) → Type 0
  ScansTo ks items =
      (scan start_key end_key files t ks ≡ ok items)
      × ((j : Bytes)
          → Dict.get j items
            ≡ (if in_range start_key end_key j && contains j ks then Dict.get j d else none))

  scan-next :
      (key value : Bytes) (ks : List Bytes) (items : List (Bytes × Bytes))
      → in_range start_key end_key key ≡ true
      → Dict.get key d ≡ some value
      → ScansTo ks items
      → ScansTo (key ∷ ks) ((key, value) ∷ items)
  unfolding scan contains Dict.get
  scan-next key value ks items within there (made, reads) = (
    rw (within, loaded key, there, made) refl,
    λ j. elim (Bool-cases (key == j)) [
      | inl q ↦ rw q (rw (← (bytes_beq_iff key j).0 q) (rw (within, there) refl))
      | inr q ↦ rw q (reads j)
    ],
  )

  -- A key before the range changes nothing.
  scan-before :
      (key : Bytes) (ks : List Bytes) (items : List (Bytes × Bytes)) (j : Bytes)
      → in_range start_key end_key key ≡ false
      → Dict.get j items
        ≡ (if in_range start_key end_key j && contains j ks then Dict.get j d else none)
      → Dict.get j items
        ≡ (if in_range start_key end_key j && contains j (key ∷ ks) then Dict.get j d else none)
  unfolding contains
  scan-before key ks items j out reads = elim (Bool-cases (key == j)) [
    | inl q ↦
        let out' =
          subst (λ i. in_range start_key end_key i ≡ false) ((bytes_beq_iff key j).0 q) out in
        reads ∙ rw out' refl
    | inr q ↦ rw q reads
  ]

  -- Past the range there is nothing left.
  scan-past :
      (key : Bytes) (ks : List Bytes) (j : Bytes)
      → bytes_le end_key key ≡ true
      → All (λ i. bytes_lt key i ≡ true) ks
      → none
        ≡ (if in_range start_key end_key j && contains j (key ∷ ks) then Dict.get j d else none)
  scan-past key ks j past s = elim (Bool-cases (contains j (key ∷ ks))) [
    | inr c ↦ rw c (ground arith)
    | inl c ↦
        let after =
          All-implies (λ i. bytes_lt key i ≡ true) (λ i. bytes_lt i key ≡ false) ks
            (λ i h. bytes_lt_asym key i h) s in
        let out : bytes_lt j end_key ≡ false = past_end end_key key ks j (ground arith) after c in
        rw out (ground arith)
  ]

  scan-ScansTo :
      (ks : List Bytes)
      → IsStrict ks
      → All (λ k. has k d ≡ true) ks
      → (items : List (Bytes × Bytes)) × ScansTo ks items
  unfolding scan contains Dict.get
  scan-ScansTo [] s here = ([], (refl, λ j. ground arith))
  scan-ScansTo (key ∷ ks) s here =
      let (items, (made, reads)) = scan-ScansTo ks s.1 here.1 in
      elim (Bool-cases (in_range start_key end_key key)) [
        | inl within ↦ elim (Option-cases (Dict.get key d)) [
          | inl absent ↦ absurd (ground (arith, here.0))
          | inr (value, there) ↦
              ((key, value) ∷ items, scan-next key value ks items within there (made, reads))
        ]
        | inr out ↦ elim (Bool-cases (bytes_le end_key key)) [
          | inl past ↦ ([], (rw (out, past) refl, λ j. scan-past key ks j past s.0))
          | inr before ↦
              (items, (rw (out, before) made, λ j. scan-before key ks items j out (reads j)))
        ]
      ]

-- A scan of a new table at the path of a written file reads the range: at each key of the range it
-- has what a lookup of the key finds, and elsewhere nothing.
pub range_scan-Written :
    (start_key end_key : Bytes) (pairs : List (Bytes × Bytes)) (file : Bytes) (index : Dict Bytes ℕ)
    (files : Files) (t : SsTable)
    → Written pairs file index
    → Dict.get t.path files ≡ some file
    → t.index ≡ []
    → (items : List (Bytes × Bytes)) × ((range_scan start_key end_key files t).0 ≡ ok items)
      × ((j : Bytes)
          → Dict.get j items
            ≡ (if in_range start_key end_key j then Dict.get j (set_all pairs []) else none))
unfolding range_scan
range_scan-Written start_key end_key pairs file index files t w stands empty =
    let d = set_all pairs [] in
    let l = ensure_index-Loaded pairs file index files t w stands empty in
    let t' = ensure_index files t in
    let ks = sorted bytes_lt (keys t'.index) in
    let (items, (made, reads)) =
      scan-ScansTo start_key end_key d files t' l.reads ks l.strict l.here in
    (
      items,
      made,
      λ j. elim (Option-cases (Dict.get j d)) [
        | inl absent ↦ reads j ∙ rw absent (ground arith)
        | inr (value, there) ↦ reads j ∙ rw (l.all j, there) (ground arith)
      ],
    )
