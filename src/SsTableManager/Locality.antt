-- ===== src/SsTableManager/Locality.antt =====
-- A read of src/storage/sstable_manager.py depends on the files of the tables that it asks, only.
use logvine.Prelude.{
  ℕ, ◌≡◌, refl, sym, ap, ◌∙◌, false, Option, none, some, List, [], ◌∷◌, arith, All, ◌==◌,
  Option-cases, inl, inr,
}
use logvine.Prelude.Bytes.{Bytes, bytes_eq, bytes_beq_iff}
use logvine.Prelude.Result.{Result, ok, ◌>>=◌}
use logvine.Prelude.Dict
use logvine.Prelude.Dict.{get-set}
use logvine.SsTable
use logvine.SsTable.{SsTable, Files, FilePath, unlink, init, index_of, load_file, read_value}
use logvine.Manifest.{Metadata}
use logvine.SsTableManager.{metadata_to_sstable, get_from, get_first}

-- What a new table answers from the content of its file.
abbrev read_content : Bytes → Bytes → Result (Option Bytes)
read_content key file = elim (Dict.get key (index_of (load_file file))) [
  | none ↦ ok none
  | some offset ↦ (do value ← read_value file offset; ok (some value))
]

abbrev read_table : Bytes → Option Bytes → Result (Option Bytes)
read_table key none = ok none
read_table key (some file) = read_content key file

get-read_table :
    (key : Bytes) (files : Files) (meta : Metadata)
    → (SsTable.get key files (metadata_to_sstable meta)).0
      ≡ read_table key (Dict.get meta.path files)
unfolding SsTable.get SsTable.ensure_by SsTable.load_index SsTable.get_loaded SsTable.value_at
    metadata_to_sstable init Dict.get
get-read_table key files meta = elim (Option-cases (Dict.get meta.path files)) [
  | inl absent ↦ ground arith
  | inr (file, there) ↦ ground arith
]

abbrev SameFile : Files → Files → ℕ × Metadata → Type 0
SameFile files files' (level, meta) = Dict.get meta.path files' ≡ Dict.get meta.path files

pub get_from-SameFile :
    (key : Bytes) (files files' : Files) (meta : Metadata)
    → Dict.get meta.path files' ≡ Dict.get meta.path files
    → get_from key files' meta ≡ get_from key files meta
unfolding get_from
get_from-SameFile key files files' meta h =
    let same =
      get-read_table key files' meta
      ∙ ap (read_table key) h
      ∙ sym (get-read_table key files meta) in
    rw same refl

-- A loop over tables whose files are the same answers alike.
get_first-SameFile :
    (key : Bytes) (files files' : Files) (tables : List (ℕ × Metadata))
    → All (SameFile files files') tables
    → get_first key files' tables ≡ get_first key files tables
unfolding get_first
get_first-SameFile key files files' [] h = refl
get_first-SameFile key files files' ((level, meta) ∷ rest) h = ground (
  arith,
  get_from-SameFile key files files' meta h.0,
  get_first-SameFile key files files' rest h.1,
)

-- No table that a read would ask is at the path.
abbrev pub Unused : FilePath → List (ℕ × Metadata) → Type 0
Unused path = All (λ t. (path == t.1.path) ≡ false)

pub get-unlink :
    (path j : FilePath) (files : Files)
    → (path == j) ≡ false
    → Dict.get j (unlink path files) ≡ Dict.get j files
unfolding unlink Dict.get
get-unlink path j [] h = refl
get-unlink path j ((p, c) ∷ files) h = ground (
  arith,
  get-unlink path j files h,
  bytes_beq_iff p path,
  bytes_beq_iff path j,
  bytes_beq_iff p j,
)

-- A file that is written or removed at an unused path changes no read.
pub get_first-set :
    (key : Bytes) (path : FilePath) (file : Bytes) (files : Files) (tables : List (ℕ × Metadata))
    → Unused path tables
    → get_first key (Dict.set path file files) tables ≡ get_first key files tables
get_first-set key path file files tables h =
    get_first-SameFile key files (Dict.set path file files) tables (set-SameFile tables h)
  where
    set-SameFile :
        (ts : List (ℕ × Metadata))
        → Unused path ts
        → All (SameFile files (Dict.set path file files)) ts
    set-SameFile [] h = tt
    set-SameFile ((level, meta) ∷ rest) h =
        (ground (arith, get-set path meta.path file files), set-SameFile rest h.1)

pub get_first-unlink :
    (key : Bytes) (path : FilePath) (files : Files) (tables : List (ℕ × Metadata))
    → Unused path tables
    → get_first key (unlink path files) tables ≡ get_first key files tables
get_first-unlink key path files tables h =
    get_first-SameFile key files (unlink path files) tables (unlink-SameFile tables h)
  where
    unlink-SameFile :
        (ts : List (ℕ × Metadata)) → Unused path ts → All (SameFile files (unlink path files)) ts
    unlink-SameFile [] h = tt
    unlink-SameFile ((level, meta) ∷ rest) h =
        (get-unlink path meta.path files h.0, unlink-SameFile rest h.1)
