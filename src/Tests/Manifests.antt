-- ===== src/Tests/Manifests.antt =====
-- The theorems about the saved manifest, at two manifests of one table.
use logvine.Prelude.{
  ℕ, ◌<◌, ◌≡◌, refl, Option, none, some, List, [], ◌∷◌, ◌==◌, if◌then◌else◌, length, take, ◌⊎◌,
  nat_eq,
}
use logvine.Prelude.Bytes.{bytes_eq, bytes_beq}
use logvine.Prelude.Text.{Text}
use logvine.Prelude.Result.{ok}
use logvine.Prelude.Dict
use logvine.Prelude.Dict.{IsDistinct}
use logvine.Json.{Json, object, number, field}
use logvine.Manifest.{Metadata, Saved}
use logvine.Manifest.Json.{raw, saved_json, load_json, load_json-saved_json}
use logvine.Manifest.Save.{
  Survives, as_synced, whole, run_steps, save_steps, save_step, settled, saved_file, loaded,
  load_text, Loadable, load-save_crash,
}

abbrev table : Metadata
table = record {
  path = 47 ∷ 97 ∷ [];
  level = 0;
  created_at_ms = 7;
  size_bytes = 20;
  entry_count = 1;
  min_key_hex = 54 ∷ 49 ∷ [];
  max_key_hex = 54 ∷ 49 ∷ [];
}

abbrev first_saved : Saved
first_saved = record { version = 1; levels = (0, table ∷ []) ∷ [] }

abbrev next_saved : Saved
next_saved = record { version = 2; levels = (0, []) ∷ (1, record table { level = 1 } ∷ []) ∷ [] }

next_once : IsDistinct next_saved.levels
unfolding Dict.get
next_once = (refl, (refl, tt))

first_once : IsDistinct first_saved.levels
unfolding Dict.get
first_once = (refl, tt)

load_json-saved_json_example :
    load_json (saved_json next_saved) ≡ ok (raw next_saved.levels, next_saved.version)
load_json-saved_json_example = load_json-saved_json next_saved next_once

-- A text that tells the two manifests apart, and its reader.
abbrev version_of : Json → ℕ
version_of (object (field n (number version) rest)) = version
version_of v = 0

abbrev dumps : Json → List Text
dumps v = (123 ∷ []) ∷ (version_of v ∷ 125 ∷ []) ∷ []

abbrev loads : Text → Option Json
loads text =
    if text == (123 ∷ 1 ∷ 125 ∷ [])
    then some (saved_json first_saved)
    else some (saved_json next_saved)

first_Loadable : Loadable dumps loads (some first_saved)
unfolding saved_json bytes_beq
first_Loadable = (refl, first_once)

next_Loadable : Loadable dumps loads (some next_saved)
unfolding saved_json bytes_beq
next_Loadable = (refl, next_once)

-- The power goes between the rename and the sync of the directory, and the rename is lost.
rename_lost :
    Survives
      (run_steps
        (take 5 (save_steps (dumps (saved_json next_saved))))
        (settled (saved_file dumps loads (some first_saved)) none))
      (some (123 ∷ 1 ∷ 125 ∷ []))
unfolding saved_json run_steps save_steps save_step take
rename_lost = as_synced (whole (123 ∷ 1 ∷ 125 ∷ []))

load-save_crash_example :
    ((load_text dumps loads (some (123 ∷ 1 ∷ 125 ∷ []))
        ≡ ok (loaded dumps loads (some first_saved)))
      × (5 < length (save_steps (dumps (saved_json next_saved)))))
    ⊎ (load_text dumps loads (some (123 ∷ 1 ∷ 125 ∷ []))
        ≡ ok (loaded dumps loads (some next_saved)))
load-save_crash_example =
    load-save_crash dumps loads (some first_saved) next_saved none 5 (some (123 ∷ 1 ∷ 125 ∷ []))
      first_Loadable next_Loadable rename_lost
