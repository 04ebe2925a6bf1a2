-- ===== src/Manifest.antt =====
-- src/storage/manifest.py: the tables of each level, and their saved copy.
pub mod Json
pub mod Save
use logvine.Prelude.{
  ℕ, ◌+◌, Bool, Option, none, some, List, [], ◌∷◌, ◌++◌, ltb, if◌then◌else◌, ◌==◌, nat_eq,
}
use logvine.Prelude.Bytes.{bytes_eq}
use logvine.Prelude.Text.{Text}
use logvine.Prelude.Order.{sorted}
use logvine.Prelude.Dict
use logvine.Prelude.Dict.{Dict}
use logvine.SsTable.{FilePath}

-- The metadata dictionary that `build_metadata` makes.
pub record Metadata : Type 0 where
  pub path : FilePath
  pub level : ℕ
  pub created_at_ms : ℕ
  pub size_bytes : ℕ
  pub entry_count : ℕ
  pub min_key_hex : Text
  pub max_key_hex : Text

abbrev pub Levels : Type 0
Levels = Dict ℕ (List Metadata)

-- What the JSON file holds, as the loader reads it.
pub record Saved : Type 0 where
  pub version : ℕ
  pub levels : Levels

-- `file` is the manifest file, if there is one.
pub record Manifest : Type 0 where
  pub levels : Levels
  pub version : ℕ
  pub file : Option Saved

unfoldable pub init : Option Saved → Manifest
init file = record { levels = []; version = 0; file = file }

unfoldable pub load : Manifest → Manifest
load m = elim m.file [
  | none ↦ record m { levels = []; version = 0 }
  | some saved ↦ record m { levels = saved.levels; version = saved.version }
]

-- `save` and `_save_locked`: the rename puts the new copy there as a whole.
unfoldable pub save : Manifest → Manifest
save m = record m { file = some (record { version = m.version; levels = m.levels }) }

abbrev pub or_empty : Option (List Metadata) → List Metadata
or_empty none = []
or_empty (some entries) = entries

unfoldable pub get_level_sstables : ℕ → Manifest → List Metadata
get_level_sstables level m = or_empty (Dict.get level m.levels)

unfoldable pub add_sstable : ℕ → Metadata → Manifest → Manifest
add_sstable level metadata m = save (record m {
  levels = Dict.set level (get_level_sstables level m ++ metadata ∷ []) m.levels;
  version = m.version + 1;
})

-- [entry for entry in entries if entry.get("path") != path]
unfoldable pub without_path : FilePath → List Metadata → List Metadata
without_path path [] = []
without_path path (entry ∷ entries) =
    let rest = without_path path entries in if entry.path == path then rest else entry ∷ rest

unfoldable pub remove_sstable : ℕ → FilePath → Manifest → Manifest
remove_sstable level path m = save (record m {
  levels = Dict.set level (without_path path (get_level_sstables level m)) m.levels;
  version = m.version + 1;
})

abbrev pub level_lt : ℕ × List Metadata → ℕ × List Metadata → Bool
level_lt a b = ltb a.0 b.0

-- The levels of a snapshot, in order of level.
unfoldable pub iter_levels : Manifest → List (ℕ × List Metadata)
iter_levels m = sorted level_lt m.levels

unfoldable pub get_version : Manifest → ℕ
get_version m = m.version
