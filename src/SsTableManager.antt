-- ===== src/SsTableManager.antt =====
-- src/storage/sstable_manager.py: which tables a read looks at, and in which order.
pub mod Newest
pub mod Locality
pub mod Covers
pub mod Ordered
use logvine.Prelude.{
  ℕ, suc, Bool, true, ◌&&◌, ◌||◌, Option, none, some, List, [], ◌∷◌, ◌++◌, ltb, nat_beq, length,
  if◌then◌else◌, ◌==◌,
}
use logvine.Prelude.Bytes.{Bytes, bytes_eq, bytes_lt, bytes_le}
use logvine.Prelude.Text.{hex, fromhex}
use logvine.Prelude.Order.{sorted}
use logvine.Prelude.Result.{Result, ok, raise, ◌>>=◌, value_error}
use logvine.Prelude.Dict
use logvine.Prelude.Dict.{Dict, keys}
use logvine.SsTable
use logvine.SsTable.{SsTable, Files, ensure_index}
use logvine.Manifest.{Manifest, Metadata, iter_levels, get_level_sstables}

-- enumerate(entries)
unfoldable pub enumerate_from : ℕ → List Metadata → List (ℕ × Metadata)
enumerate_from i [] = []
enumerate_from i (entry ∷ entries) = (i, entry) ∷ enumerate_from (suc i) entries

-- The order of the sort key (created_at_ms, path, position).
unfoldable pub older : ℕ × Metadata → ℕ × Metadata → Bool
older (i, a) (j, b) =
    ltb a.created_at_ms b.created_at_ms
    || (nat_beq a.created_at_ms b.created_at_ms
        && (bytes_lt a.path b.path || (a.path == b.path && ltb i j)))

abbrev pub newer : ℕ × Metadata → ℕ × Metadata → Bool
newer a b = older b a

abbrev pub metadata_of : List (ℕ × Metadata) → List Metadata
metadata_of [] = []
metadata_of ((i, entry) ∷ entries) = entry ∷ metadata_of entries

unfoldable pub ordered_entries : Bool → List Metadata → List Metadata
ordered_entries newest_first entries =
    metadata_of (sorted (if newest_first then newer else older) (enumerate_from 0 entries))

unfoldable pub at_level : ℕ → List Metadata → List (ℕ × Metadata)
at_level level [] = []
at_level level (entry ∷ rest) = (level, entry) ∷ at_level level rest

unfoldable pub each_level : Bool → List (ℕ × List Metadata) → List (ℕ × Metadata)
each_level newest_first [] = []
each_level newest_first ((level, entries) ∷ levels) =
    at_level level (ordered_entries newest_first entries) ++ each_level newest_first levels

unfoldable pub level_entries : Option ℕ → Manifest → List (ℕ × List Metadata)
level_entries none m = iter_levels m
level_entries (some level) m = (level, get_level_sstables level m) ∷ []

unfoldable pub iter_sstable_metadata : Option ℕ → Bool → Manifest → List (ℕ × Metadata)
iter_sstable_metadata level newest_first m = each_level newest_first (level_entries level m)

unfoldable pub metadata_to_sstable : Metadata → SsTable
metadata_to_sstable meta = SsTable.init meta.path meta.level

-- sorted_keys[0] and sorted_keys[-1]
abbrev pub first_key : List Bytes → Bytes
first_key [] = []
first_key (k ∷ ks) = k

abbrev pub last_key : List Bytes → Bytes
last_key [] = []
last_key (k ∷ []) = k
last_key (k ∷ k' ∷ ks) = last_key (k' ∷ ks)

abbrev pub file_size : Option Bytes → ℕ
file_size none = 0
file_size (some file) = length file

-- `now` is int(time() * 1000). An index that is still empty after a load is refused.
unfoldable pub metadata_for : ℕ → ℕ → Files → SsTable → List Bytes → Result Metadata
metadata_for now level files t [] = raise value_error
metadata_for now level files t (k ∷ ks) = ok (record {
  path = t.path;
  level = level;
  created_at_ms = now;
  size_bytes = file_size (Dict.get t.path files);
  entry_count = length (k ∷ ks);
  min_key_hex = hex (first_key (k ∷ ks));
  max_key_hex = hex (last_key (k ∷ ks));
})

unfoldable pub build_metadata : ℕ → SsTable → ℕ → Files → Result Metadata
build_metadata now t level files =
    let t' = ensure_index files t in
    metadata_for now level files t' (sorted bytes_lt (keys t'.index))

-- One table of the loop of `get`: nothing where the key is out of its range.
unfoldable pub get_from : Bytes → Files → Metadata → Result (Option Bytes)
get_from key files meta = do
  min_key ← fromhex meta.min_key_hex
  max_key ← fromhex meta.max_key_hex
  if bytes_lt key min_key || bytes_lt max_key key
      then ok none
      else (SsTable.get key files (metadata_to_sstable meta)).0

-- The loop of `get`: the first table that has the key answers.
unfoldable pub get_first : Bytes → Files → List (ℕ × Metadata) → Result (Option Bytes)
get_first key files [] = ok none
get_first key files ((level, meta) ∷ rest) =
    let later = get_first key files rest in
    elim (get_from key files meta) [
      | raise e ↦ raise e
      | ok none ↦ later
      | ok (some value) ↦ ok (some value)
    ]

unfoldable pub get : Bytes → Files → Manifest → Result (Option Bytes)
get key files m = get_first key files (iter_sstable_metadata none true m)

-- The loop of `get_overlapping_sstables`.
unfoldable pub overlapping : Bytes → Bytes → List (ℕ × Metadata) → Result (List SsTable)
overlapping start_key end_key [] = ok []
overlapping start_key end_key ((level, meta) ∷ rest) = do
  min_key ← fromhex meta.min_key_hex
  max_key ← fromhex meta.max_key_hex
  later ← overlapping start_key end_key rest
  if bytes_le end_key min_key || bytes_lt max_key start_key
      then ok later
      else ok (metadata_to_sstable meta ∷ later)

unfoldable pub get_overlapping_sstables : Bytes → Bytes → Manifest → Result (List SsTable)
get_overlapping_sstables start_key end_key m =
    overlapping start_key end_key (iter_sstable_metadata none true m)
