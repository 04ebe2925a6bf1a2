-- ===== src/SsTable.antt =====
-- src/storage/sstable.py: sorted tables as files of entries, an index and a footer.
pub mod Write
pub mod Load
pub mod Index
pub mod Lookup
pub mod Items
pub mod Scan
use logvine.Prelude.{
  ℕ, zero, suc, ◌+◌, ◌-◌, ◌≡◌, Bool, true, false, ◌&&◌, Option, none, some, List, [], ◌∷◌, ◌++◌,
  ltb, length, take, drop, if◌then◌else◌,
}
use logvine.Prelude.Bytes.{Bytes, bytes_eq, bytes_lt, bytes_le}
use logvine.Prelude.Struct.{pack, unpack}
use logvine.Prelude.Order.{sorted}
use logvine.Prelude.Result.{Result, ok, raise, ◌>>=◌, os_error}
use logvine.Prelude.Dict
use logvine.Prelude.Dict.{Dict, keys}

-- A path is its text, as code points; the files are a map from paths to contents.
abbrev pub FilePath : Type 0
FilePath = List ℕ

abbrev pub Files : Type 0
Files = Dict FilePath Bytes

pub record SsTable : Type 0 where
  pub path : FilePath
  pub level : ℕ
  pub index : Dict Bytes ℕ

unfoldable pub init : FilePath → ℕ → SsTable
init path level = record { path = path; level = level; index = [] }

-- One entry, as `write` writes it.
unfoldable pub encode_entry : Bytes → Bytes → Result Bytes
encode_entry key value = do
  key_len ← pack 4 (length key)
  value_len ← pack 4 (length value)
  ok (key_len ++ (key ++ (value_len ++ value)))

-- The loop over the pairs: what is written so far, and the index.
unfoldable pub write_entries :
    List (Bytes × Bytes) → Bytes → Dict Bytes ℕ → Result (Bytes × Dict Bytes ℕ)
write_entries [] written index = ok (written, index)
write_entries ((key, value) ∷ pairs) written index = do
  entry ← encode_entry key value
  write_entries pairs (written ++ entry) (Dict.set key (length written) index)

-- The loop over the index.
unfoldable pub write_index : Dict Bytes ℕ → Result Bytes
write_index [] = ok []
write_index ((key, offset) ∷ index) = do
  key_len ← pack 4 (length key)
  place ← pack 8 offset
  rest ← write_index index
  ok (key_len ++ (key ++ (place ++ rest)))

-- The whole file, with its index: entries, index and footer.
unfoldable pub file_bytes : List (Bytes × Bytes) → Result (Bytes × Dict Bytes ℕ)
file_bytes pairs = do
  (written, index) ← write_entries pairs [] []
  index_bytes ← write_index index
  footer ← pack 8 (length written)
  ok (written ++ (index_bytes ++ footer), index)

-- del files[path]
unfoldable pub unlink : FilePath → Files → Files
unlink path [] = []
unlink path ((p, c) ∷ files) =
    let rest = unlink path files in if Dict.has path ((p, c) ∷ []) then rest else (p, c) ∷ rest

-- An exception while writing removes the file and goes on to the caller.
unfoldable pub write_done : Result (Bytes × Dict Bytes ℕ) → SsTable → Files → Result SsTable × Files
write_done (ok (content, index)) t files =
    (ok (record t { index = index }), Dict.set t.path content files)
write_done (raise e) t files = (raise e, unlink t.path files)

unfoldable pub write : List (Bytes × Bytes) → SsTable → Files → Result SsTable × Files
write pairs t files = write_done (file_bytes pairs) t files

-- One round of the loop in `_load_index`: the key, its offset, and the position behind them.
unfoldable pub read_index_entry : Bytes → ℕ → Result (Bytes × ℕ × ℕ)
read_index_entry file position = do
  key_len ← unpack 4 (take 4 (drop position file))
  let key = take key_len (drop (position + 4) file)
  let place = position + 4 + length key
  offset ← unpack 8 (take 8 (drop place file))
  ok (key, offset, place + 8)

-- `out_of_fuel` is no end of the source's loop.
pub data Loading : Type 0 where
  loaded : Dict Bytes ℕ → Loading
  failed : Loading
  out_of_fuel : Loading

-- `while f.tell() < index_end`, on fuel.
unfoldable pub load_loop : ℕ → Bytes → ℕ → ℕ → Dict Bytes ℕ → Loading
load_loop zero file index_end position index =
    if ltb position index_end then out_of_fuel else loaded index
load_loop (suc fuel) file index_end position index =
    let next : Loading = elim (read_index_entry file position) [
      | raise e ↦ failed
      | ok (key, offset, position') ↦
          load_loop fuel file index_end position' (Dict.set key offset index)
    ] in
    if ltb position index_end then next else loaded index

-- `seek(-8, SEEK_END)` fails on a shorter file. Each round reads twelve bytes at least, so the size
-- of the file is fuel enough.
unfoldable pub load_file : Bytes → Loading
load_file file =
    let size = length file in
    if ltb size 8 then failed else (elim (unpack 8 (take 8 (drop (size - 8) file))) [
      | raise e ↦ failed
      | ok index_offset ↦ load_loop size file (size - 8) index_offset []
    ])

unfoldable pub index_of : Loading → Dict Bytes ℕ
index_of (loaded index) = index
index_of failed = []
index_of out_of_fuel = []

unfoldable pub load_index : Files → SsTable → SsTable
load_index files t = elim (Dict.get t.path files) [
  | none ↦ record t { index = [] }
  | some file ↦ record t { index = index_of (load_file file) }
]

-- `if not self.index: self._load_index()`
unfoldable pub ensure_by : Dict Bytes ℕ → Files → SsTable → SsTable
ensure_by [] files t = load_index files t
ensure_by (entry ∷ index) files t = t

abbrev pub ensure_index : Files → SsTable → SsTable
ensure_index files t = ensure_by t.index files t

-- The value of the entry at an offset of the file.
unfoldable pub read_value : Bytes → ℕ → Result Bytes
read_value file offset = do
  key_len ← unpack 4 (take 4 (drop offset file))
  let place = offset + 4 + length (take key_len (drop (offset + 4) file))
  value_len ← unpack 4 (take 4 (drop place file))
  ok (take value_len (drop (place + 4) file))

-- A missing file is an OSError.
unfoldable pub value_at : Files → FilePath → ℕ → Result (Option Bytes)
value_at files path offset = elim (Dict.get path files) [
  | none ↦ raise os_error
  | some file ↦ (do value ← read_value file offset; ok (some value))
]

unfoldable pub get_loaded : Bytes → Files → SsTable → Result (Option Bytes)
get_loaded key files t = elim (Dict.get key t.index) [
  | none ↦ ok none
  | some offset ↦ value_at files t.path offset
]

-- The table comes back with its index loaded.
unfoldable pub get : Bytes → Files → SsTable → Result (Option Bytes) × SsTable
get key files t = let t' = ensure_index files t in (get_loaded key files t', t')

abbrev pub with_value : Bytes → Option Bytes → List (Bytes × Bytes) → List (Bytes × Bytes)
with_value key none rest = rest
with_value key (some value) rest = (key, value) ∷ rest

-- The loop of `range_scan` over the sorted keys. An exception ends the scan.
unfoldable pub scan : Bytes → Bytes → Files → SsTable → List Bytes → Result (List (Bytes × Bytes))
scan start_key end_key files t [] = ok []
scan start_key end_key files t (key ∷ rest) =
    let later = scan start_key end_key files t rest in
    if bytes_le start_key key && bytes_lt key end_key
    then (do value ← get_loaded key files t; items ← later; ok (with_value key value items))
    else if bytes_le end_key key
    then ok []
    else later

unfoldable pub range_scan :
    Bytes → Bytes → Files → SsTable → Result (List (Bytes × Bytes)) × SsTable
range_scan start_key end_key files t =
    let t' = ensure_index files t in
    (scan start_key end_key files t' (sorted bytes_lt (keys t'.index)), t')

unfoldable pub collect : Files → SsTable → List Bytes → Result (List (Bytes × Bytes))
collect files t [] = ok []
collect files t (key ∷ rest) = do
  value ← get_loaded key files t
  items ← collect files t rest
  ok (with_value key value items)

unfoldable pub iter_items : Files → SsTable → Result (List (Bytes × Bytes)) × SsTable
iter_items files t =
    let t' = ensure_index files t in (collect files t' (sorted bytes_lt (keys t'.index)), t')
