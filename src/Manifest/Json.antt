-- ===== src/Manifest/Json.antt =====
-- What src/storage/manifest.py gives to `json.dump`, and what it makes of what `json.load` gives.
use logvine.Prelude.{
  ℕ, ◌≡◌, refl, sym, ap, ◌∙◌, append-nil, false, Option, none, some, List, [], ◌∷◌, ◌++◌, arith,
  All, ◌==◌, ==_comm, nat_eq, append_assoc, if◌then◌else◌, map,
}
use logvine.Prelude.Bytes.{bytes_eq, bytes_beq}
use logvine.Prelude.Text.{Text, decimal}
use logvine.Prelude.Result.{Result, ok, raise, ◌>>=◌, type_error, value_error, attribute_error}
use logvine.Prelude.Dict
use logvine.Prelude.Dict.{Dict, has, set_all, IsDistinct}
use logvine.Config.{int, int-decimal}
use logvine.Json.{
  Json, null, boolean, number, other_number, string, array, object, JsonFields, field, no_fields,
  get_field, iterate, from_list, item_list,
}
use logvine.Manifest.{Metadata, Levels, Saved}

-- "version"
abbrev version_field : Text
version_field = 118 ∷ 101 ∷ 114 ∷ 115 ∷ 105 ∷ 111 ∷ 110 ∷ []

-- "levels"
abbrev levels_field : Text
levels_field = 108 ∷ 101 ∷ 118 ∷ 101 ∷ 108 ∷ 115 ∷ []

-- "path"
abbrev path_field : Text
path_field = 112 ∷ 97 ∷ 116 ∷ 104 ∷ []

-- "level"
abbrev level_field : Text
level_field = 108 ∷ 101 ∷ 118 ∷ 101 ∷ 108 ∷ []

-- "created_at_ms"
abbrev created_field : Text
created_field = 99 ∷ 114 ∷ 101 ∷ 97 ∷ 116 ∷ 101 ∷ 100 ∷ 95 ∷ 97 ∷ 116 ∷ 95 ∷ 109 ∷ 115 ∷ []

-- "size_bytes"
abbrev size_field : Text
size_field = 115 ∷ 105 ∷ 122 ∷ 101 ∷ 95 ∷ 98 ∷ 121 ∷ 116 ∷ 101 ∷ 115 ∷ []

-- "entry_count"
abbrev entries_field : Text
entries_field = 101 ∷ 110 ∷ 116 ∷ 114 ∷ 121 ∷ 95 ∷ 99 ∷ 111 ∷ 117 ∷ 110 ∷ 116 ∷ []

-- "min_key_hex"
abbrev min_key_field : Text
min_key_field = 109 ∷ 105 ∷ 110 ∷ 95 ∷ 107 ∷ 101 ∷ 121 ∷ 95 ∷ 104 ∷ 101 ∷ 120 ∷ []

-- "max_key_hex"
abbrev max_key_field : Text
max_key_field = 109 ∷ 97 ∷ 120 ∷ 95 ∷ 107 ∷ 101 ∷ 121 ∷ 95 ∷ 104 ∷ 101 ∷ 120 ∷ []

-- A metadata dictionary.
unfoldable pub metadata_json : Metadata → Json
metadata_json m = object (
    field path_field (string m.path) (
      field level_field (number m.level) (
        field created_field (number m.created_at_ms) (
          field size_field (number m.size_bytes) (
            field entries_field (number m.entry_count) (
              field min_key_field (string m.min_key_hex)
                (field max_key_field (string m.max_key_hex) no_fields)))))))

-- {str(level): entries for level, entries in self._levels.items()}
unfoldable pub serialized_levels : Levels → JsonFields
serialized_levels [] = no_fields
serialized_levels ((level, entries) ∷ levels) =
    field (decimal level) (array (from_list (map metadata_json entries))) (serialized_levels levels)

-- {"version": self._version, "levels": serialized_levels}
unfoldable pub saved_json : Saved → Json
saved_json saved = object (
    field version_field (number saved.version)
      (field levels_field (object (serialized_levels saved.levels)) no_fields))

abbrev or_value_error : Option ℕ → Result ℕ
or_value_error none = raise value_error
or_value_error (some n) = ok n

-- int(value); `save` writes no float and no negative number, and they are refused here.
unfoldable pub int_of : Json → Result ℕ
int_of (number n) = ok n
int_of (boolean b) = ok (if b then 1 else 0)
int_of (string text) = or_value_error (int text)
int_of (other_number b) = raise value_error
int_of null = raise type_error
int_of (array items) = raise type_error
int_of (object _) = raise type_error

abbrev pub RawLevels : Type 0
RawLevels = Dict ℕ (List Json)

-- for level, entries in raw_levels.items(): levels[int(level)] = list(entries)
unfoldable pub read_levels : JsonFields → RawLevels → Result RawLevels
read_levels no_fields levels = ok levels
read_levels (field level entries rest) levels = do
  n ← int_of (string level)
  items ← iterate entries
  read_levels rest (Dict.set n items levels)

-- data.get("levels", {}), whose `items` only a dictionary has
unfoldable pub raw_levels : Option Json → Result JsonFields
raw_levels none = ok no_fields
raw_levels (some (object fields)) = ok fields
raw_levels (some v) = raise attribute_error

abbrev or_zero : Option Json → Json
or_zero none = number 0
or_zero (some v) = v

-- `load`, on what `json.load` gives: the levels and the version.
unfoldable pub load_json : Json → Result (RawLevels × ℕ)
load_json (object data_) = do
  fields ← raw_levels (get_field levels_field data_)
  levels ← read_levels fields []
  version ← int_of (or_zero (get_field version_field data_))
  ok (levels, version)
load_json v = raise attribute_error

-- The entries as they are kept after a load.
abbrev pub raw : Levels → RawLevels
raw [] = []
raw ((level, entries) ∷ levels) = (level, map metadata_json entries) ∷ raw levels

item_list-from_list : (vs : List Json) → item_list (from_list vs) ≡ vs
item_list-from_list [] = refl
item_list-from_list (v ∷ vs) = ap (◌∷◌ v) (item_list-from_list vs)

set_new :
    (k : ℕ) (v : List Json) (d : RawLevels) → has k d ≡ false → Dict.set k v d ≡ d ++ (k, v) ∷ []
unfolding Dict.set Dict.get
set_new k v [] h = refl
set_new k v ((j, w) ∷ d) h = ground (arith, set_new k v d)

has-append :
    (j k : ℕ) (v : List Json) (d : RawLevels)
    → has j d ≡ false
    → (k == j) ≡ false
    → has j (d ++ (k, v) ∷ []) ≡ false
unfolding Dict.get
has-append j k v [] h g = ground arith
has-append j k v ((i, w) ∷ d) h g = ground (arith, has-append j k v d)

-- No level of the second list stands in the first.
abbrev Apart : RawLevels → Levels → Type 0
Apart d levels = All (λ l. has l.0 d ≡ false) levels

append-Apart :
    (k : ℕ) (v : List Json) (d : RawLevels) (levels : Levels)
    → has k levels ≡ false
    → Apart d levels
    → Apart (d ++ (k, v) ∷ []) levels
unfolding Dict.get
append-Apart k v d [] h a = tt
append-Apart k v d ((j, entries) ∷ levels) h a = (
  has-append j k v d a.0 ground (arith, ==_comm k j),
  append-Apart k v d levels (ground (arith, ==_comm k j)) a.1,
)

nothing-Apart : (levels : Levels) → Apart [] levels
unfolding Dict.get
nothing-Apart [] = tt
nothing-Apart ((level, entries) ∷ levels) = (refl, nothing-Apart levels)

read_levels-serialized_levels :
    (levels : Levels) (d : RawLevels)
    → IsDistinct levels
    → Apart d levels
    → read_levels (serialized_levels levels) d ≡ ok (d ++ raw levels)
unfolding read_levels serialized_levels int_of iterate
read_levels-serialized_levels [] d h a = ap ok (sym (append-nil d))
read_levels-serialized_levels ((level, entries) ∷ levels) d h a =
    let items = map metadata_json entries in
    rw (int-decimal level, item_list-from_list items, set_new level items d a.0)
      (read_levels-serialized_levels levels (d ++ (level, items) ∷ []) h.1
          (append-Apart level items d levels h.0 a.1)
        ∙ ap ok (append_assoc d ((level, items) ∷ []) (raw levels)))

-- What `save` gives to `json.dump` is read back by `load` as the same version and the same levels, in
-- their order, each with its entries, where the manifest has each level once.
pub load_json-saved_json :
    (saved : Saved)
    → IsDistinct saved.levels
    → load_json (saved_json saved) ≡ ok (raw saved.levels, saved.version)
unfolding load_json saved_json get_field raw_levels int_of bytes_beq
load_json-saved_json saved h =
    rw (read_levels-serialized_levels saved.levels [] h (nothing-Apart saved.levels)) refl
