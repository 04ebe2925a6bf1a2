-- ===== src/SsTable/Lookup.antt =====
-- Reads of src/storage/sstable.py from a file that `write` wrote.
use logvine.Prelude.{
  ℕ, ◌≡◌, refl, sym, ◌∙◌, ap, some, List, [], ◌∷◌, ◌++◌, arith, length, ==_refl, ◌⊎◌, inl, inr,
  Option-cases,
}
use logvine.Prelude.Bytes.{Bytes, bytes_eq}
use logvine.Prelude.Struct.{pack}
use logvine.Prelude.Result.{ok, >>=-ok, Result-cases}
use logvine.Prelude.Dict
use logvine.Prelude.Dict.{Dict, set_all, get-set, get-set_all, IsDistinct}
use logvine.SsTable.{
  SsTable, Files, FilePath, init, write_entries, write_index, file_bytes, write, write_done, loaded,
  load_file, load_index, index_of, ensure_by, ensure_index, value_at, get_loaded, get,
}
use logvine.SsTable.Write.{
  Agrees, AgreesAt, EntryAt, read_value-EntryAt, write_entries-Agrees, Agrees-append,
}
use logvine.SsTable.Index.{load_file_written}

-- What a file that was written holds: entries that its index finds, and that index behind them.
pub record Written (pairs : List (Bytes × Bytes)) (file : Bytes) (index : Dict Bytes ℕ)
    : Type 0 where
  pub agrees : Agrees file index (set_all pairs [])
  pub reloads : load_file file ≡ loaded (set_all index [])
  pub distinct : IsDistinct index

pub file_bytes-Written :
    (pairs : List (Bytes × Bytes)) (file : Bytes) (index : Dict Bytes ℕ)
    → file_bytes pairs ≡ ok (file, index)
    → Written pairs file index
unfolding file_bytes
file_bytes-Written pairs file index h =
    let ((written, i), entries, h1) = >>=-ok (write_entries pairs [] []) _ h in
    let (bytes, encoded, h2) = >>=-ok (write_index i) _ h1 in
    let (footer, packed, h3) = >>=-ok (pack 8 (length written)) _ h2 in
    let file_is : written ++ (bytes ++ footer) ≡ file = ground arith in
    let index_is : i ≡ index = ground arith in
    let (agrees, distinct) =
      write_entries-Agrees pairs [] [] [] written i (λ k. unfold Dict.get in tt) tt entries in
    rw (← file_is, ← index_is)
      (record {
        agrees = Agrees-append written (bytes ++ footer) i (set_all pairs []) agrees;
        reloads = load_file_written i written bytes footer encoded packed;
        distinct = distinct;
      })

value_found :
    (files : Files) (path : FilePath) (file : Bytes) (offset : ℕ) (value : Bytes)
    → Dict.get path files ≡ some file
    → EntryAt file offset value
    → value_at files path offset ≡ ok (some value)
unfolding value_at
value_found files path file offset value stands e = ground (arith, read_value-EntryAt e)

-- A table that finds what the index of a written file finds reads the pairs back.
pub get_loaded-Agrees :
    (key : Bytes) (files : Files) (t : SsTable) (file : Bytes) (d : Dict Bytes Bytes)
    → Dict.get t.path files ≡ some file
    → AgreesAt file (Dict.get key t.index) (Dict.get key d)
    → get_loaded key files t ≡ ok (Dict.get key d)
unfolding get_loaded
get_loaded-Agrees key files t file d stands a = elim (Option-cases (Dict.get key t.index)) [
  | inl i ↦ elim (Option-cases (Dict.get key d)) [
    | inl v ↦ ground arith
    | inr (value, v) ↦ absurd (rw (i, v) at a)
  ]
  | inr (offset, i) ↦ elim (Option-cases (Dict.get key d)) [
    | inl v ↦ absurd (rw (i, v) at a)
    | inr (value, v) ↦
        ground (arith, value_found files t.path file offset value stands (rw (i, v) at a))
  ]
]

pub load_index-index :
    (files : Files) (t : SsTable) (file : Bytes) (index : Dict Bytes ℕ)
    → Dict.get t.path files ≡ some file
    → load_file file ≡ loaded index
    → (load_index files t).index ≡ index
unfolding load_index index_of
load_index-index files t file index stands reloads = ground arith

pub path-ensure_index : (files : Files) (t : SsTable) → (ensure_index files t).path ≡ t.path
unfolding ensure_by load_index
path-ensure_index files t = ground arith

pub ensure_index-empty :
    (files : Files) (t : SsTable) → t.index ≡ [] → ensure_index files t ≡ load_index files t
unfolding ensure_by
ensure_index-empty files t h = rw h refl

ensure_index-full :
    (files : Files) (t : SsTable) (k : Bytes) (o : ℕ) (index : Dict Bytes ℕ)
    → t.index ≡ (k, o) ∷ index
    → ensure_index files t ≡ t
unfolding ensure_by
ensure_index-full files t k o index h = rw h refl

-- Both tables that can stand for a written file find what its index finds: one with no index yet,
-- which loads it, and one with the index that the write left.
reads_back_empty :
    (key : Bytes) (pairs : List (Bytes × Bytes)) (files : Files) (t : SsTable) (file : Bytes)
    (index : Dict Bytes ℕ)
    → Written pairs file index
    → Dict.get t.path files ≡ some file
    → t.index ≡ []
    → Dict.get key (ensure_index files t).index ≡ Dict.get key index
reads_back_empty key pairs files t file index w stands e =
    ap (λ (u : SsTable). Dict.get key u.index) (ensure_index-empty files t e)
    ∙ ap (Dict.get key) (load_index-index files t file (set_all index []) stands w.reloads)
    ∙ get-set_all key index [] w.distinct
    ∙ unfold Dict.get in ground arith

pub reads_back :
    (key : Bytes) (pairs : List (Bytes × Bytes)) (files : Files) (t : SsTable) (file : Bytes)
    (index : Dict Bytes ℕ)
    → Written pairs file index
    → Dict.get t.path files ≡ some file
    → (t.index ≡ []) ⊎ (t.index ≡ index)
    → Dict.get key (ensure_index files t).index ≡ Dict.get key index
reads_back key pairs files t file index w stands (inl e) =
    reads_back_empty key pairs files t file index w stands e
reads_back key pairs files t file [] w stands (inr e) =
    reads_back_empty key pairs files t file [] w stands e
reads_back key pairs files t file ((k, o) ∷ index) w stands (inr e) =
    ap (λ (u : SsTable). Dict.get key u.index) (ensure_index-full files t k o index e)
    ∙ ap (Dict.get key) e

-- A read of a written file is the lookup of its pairs.
pub get-Written :
    (key : Bytes) (pairs : List (Bytes × Bytes)) (files : Files) (t : SsTable) (file : Bytes)
    (index : Dict Bytes ℕ)
    → Written pairs file index
    → Dict.get t.path files ≡ some file
    → (t.index ≡ []) ⊎ (t.index ≡ index)
    → (get key files t).0 ≡ ok (Dict.get key (set_all pairs []))
unfolding get
get-Written key pairs files t file index w stands which =
    get_loaded-Agrees key files (ensure_index files t) file (set_all pairs [])
      (rw (path-ensure_index files t) stands)
      (rw (reads_back key pairs files t file index w stands which) (w.agrees key))

pub write-ok :
    (pairs : List (Bytes × Bytes)) (t t' : SsTable) (files files' : Files)
    → write pairs t files ≡ (ok t', files')
    → (file : Bytes) × (file_bytes pairs ≡ ok (file, t'.index))
      × (t'.path ≡ t.path)
      × (files' ≡ Dict.set t.path file files)
unfolding write write_done
write-ok pairs t t' files files' h = elim (Result-cases (file_bytes pairs)) [
  | inl ((file, index), made) ↦
      let done : record t { index = index } ≡ t' = ground arith in
      (
        file,
        made ∙ ap (λ (i : Dict Bytes ℕ). ok (file, i)) (ap (λ (u : SsTable). u.index) done),
        sym (ap (λ (u : SsTable). u.path) done),
        ground arith,
      )
  | inr (e, failing) ↦ absurd (ground arith)
]

-- After a write that succeeds, a read of any key from the file returns the value of the last pair
-- with the key, or None where there is no such pair: from the table that wrote the file, and from
-- a new table at its path, which loads the index from the file first.
pub get-write :
    (key : Bytes) (pairs : List (Bytes × Bytes)) (t t' : SsTable) (files files' : Files)
    → write pairs t files ≡ (ok t', files')
    → ((get key files' t').0 ≡ ok (Dict.get key (set_all pairs [])))
      × ((get key files' (init t.path t.level)).0 ≡ ok (Dict.get key (set_all pairs [])))
get-write key pairs t t' files files' h =
    let (file, made, same_path, files_are) = write-ok pairs t t' files files' h in
    let w = file_bytes-Written pairs file t'.index made in
    let stands : Dict.get t.path files' ≡ some file =
      rw files_are (ground (arith, get-set t.path t.path file files, ==_refl t.path)) in
    (
      get-Written key pairs files' t' file t'.index w (rw same_path stands) (inr refl),
      get-Written key pairs files' (init t.path t.level) file t'.index w (unfold init in stands)
          (inl (unfold init in refl)),
    )
