-- ===== src/Manifest/Save.antt =====
-- `_save_locked` of src/storage/manifest.py, step by step, and what a power cut leaves of it.
use logvine.Prelude.{
  ℕ, zero, suc, ◌<◌, ◌≡◌, refl, sym, ap, ◌∙◌, Bool, true, false, Option, none, some, List, [], ◌∷◌,
  ◌++◌, arith, append-nil, append_assoc, length, take, inl, inr, ◌⊎◌, nat_eq,
}
use logvine.Prelude.Text.{Text}
use logvine.Prelude.Result.{Result, ok, raise, value_error}
use logvine.Prelude.Dict.{IsDistinct}
use logvine.Json.{Json}
use logvine.Manifest.{Saved}
use logvine.Manifest.Json.{RawLevels, raw, saved_json, load_json, load_json-saved_json}

-- A file: what was written to it, and whether all of that was synced.
pub record Content : Type 0 where
  pub text : Text
  pub synced : Bool

-- The file that the manifest's path names, the one that it named when the directory was last synced,
-- and the file at the path of the temporary copy.
pub record Disk : Type 0 where
  pub file : Option Content
  pub durable : Option Content
  pub tmp : Option Content

-- The calls of `_save_locked`; a write is of what reaches the file at once, the last at the flush.
pub data SaveStep : Type 0 where
  open_tmp : SaveStep
  write : Text → SaveStep
  fsync : SaveStep
  replace : SaveStep
  sync_dir : SaveStep

abbrev written : Text → Option Content → Option Content
written chunk none = none
written chunk (some c) = some (record { text = c.text ++ chunk; synced = false })

abbrev synced_all : Option Content → Option Content
synced_all none = none
synced_all (some c) = some (record c { synced = true })

unfoldable pub save_step : SaveStep → Disk → Disk
save_step open_tmp d = record d { tmp = some (record { text = []; synced = false }) }
save_step (write chunk) d = record d { tmp = written chunk d.tmp }
save_step fsync d = record d { tmp = synced_all d.tmp }
save_step replace d = record d { file = d.tmp; tmp = none }
save_step sync_dir d = record d { durable = d.file }

unfoldable pub run_steps : List SaveStep → Disk → Disk
run_steps [] d = d
run_steps (s ∷ steps) d = run_steps steps (save_step s d)

abbrev pub closing : List SaveStep
closing = fsync ∷ replace ∷ sync_dir ∷ []

abbrev pub writes : List Text → List SaveStep
writes [] = closing
writes (chunk ∷ chunks) = write chunk ∷ writes chunks

unfoldable pub save_steps : List Text → List SaveStep
save_steps chunks = open_tmp ∷ writes chunks

abbrev pub joined : List Text → Text
joined [] = []
joined (chunk ∷ chunks) = chunk ++ joined chunks

-- What a file has after a power cut: one that was not synced may have anything.
pub data Reads : Option Content → Option Text → Type 0 where
  no_file : Reads none none
  whole : (text : Text) → Reads (some (record { text = text; synced = true })) (some text)
  damaged : (text other : Text) → Reads (some (record { text = text; synced = false })) (some other)

-- The path names the file of now or that of the last sync of the directory.
pub data Survives (d : Disk) (t : Option Text) : Type 0 where
  as_now : Reads d.file t → Survives d t
  as_synced : Reads d.durable t → Survives d t

abbrev whole_file : Text → Content
whole_file text = record { text = text; synced = true }

abbrev pub contents : Option Text → Option Content
contents none = none
contents (some text) = some (whole_file text)

-- A disk where the manifest has a text, or is not there, and nothing waits to be synced.
abbrev pub settled : Option Text → Option Content → Disk
settled old tmp = record { file = contents old; durable = contents old; tmp = tmp }

Reads-contents : (old t : Option Text) → Reads (contents old) t → t ≡ old
Reads-contents none _ no_file = refl
Reads-contents (some text) _ (whole _) = refl

settled-Survives :
    (old t : Option Text) (tmp : Option Content) → Survives (settled old tmp) t → t ≡ old
settled-Survives old t tmp (as_now r) = Reads-contents old t r
settled-Survives old t tmp (as_synced r) = Reads-contents old t r

writes_crash :
    (chunks : List Text) (done : Text) (b : Bool) (old t : Option Text) (n : ℕ)
    → Survives
        (run_steps
          (take n (writes chunks))
          (settled old (some (record { text = done; synced = b }))))
        t
    → ((t ≡ old) × (n < length (writes chunks))) ⊎ (t ≡ some (done ++ joined chunks))
unfolding run_steps save_step take
writes_crash [] done b old t zero s = inl (settled-Survives old t _ s, omega arith)
writes_crash [] done b old t (suc zero) s = inl (settled-Survives old t _ s, omega arith)
writes_crash [] done b old t (suc (suc zero)) (as_now r) =
    inr (Reads-contents (some done) t r ∙ ap some (sym (append-nil done)))
writes_crash [] done b old t (suc (suc zero)) (as_synced r) =
    inl (Reads-contents old t r, omega arith)
writes_crash [] done b old t (suc (suc (suc zero))) s =
    inr (settled-Survives (some done) t none s ∙ ap some (sym (append-nil done)))
writes_crash [] done b old t (suc (suc (suc (suc n)))) s =
    inr (settled-Survives (some done) t none s ∙ ap some (sym (append-nil done)))
writes_crash (chunk ∷ chunks) done b old t zero s = inl (settled-Survives old t _ s, omega arith)
writes_crash (chunk ∷ chunks) done b old t (suc n) s =
    elim (writes_crash chunks (done ++ chunk) false old t n s) [
      | inl (is, h) ↦ inl (is, omega (arith, h))
      | inr is ↦ inr (is ∙ ap some (append_assoc done chunk (joined chunks)))
    ]

save_crash :
    (chunks : List Text) (old t : Option Text) (tmp : Option Content) (n : ℕ)
    → Survives (run_steps (take n (save_steps chunks)) (settled old tmp)) t
    → ((t ≡ old) × (n < length (save_steps chunks))) ⊎ (t ≡ some (joined chunks))
unfolding run_steps save_step take save_steps
save_crash chunks old t tmp zero s = inl (settled-Survives old t tmp s, omega arith)
save_crash chunks old t tmp (suc n) s = elim (writes_crash chunks [] false old t n s) [
  | inl (is, h) ↦ inl (is, omega (arith, h))
  | inr is ↦ inr is
]

-- `dumps` gives the pieces in which `json.dump` writes a value, and `loads` is `json.load` of a whole
-- text, with `none` where it raises.
module _ (dumps : Json → List Text) (loads : Text → Option Json) where
  abbrev pub saved_text : Saved → Text
  saved_text saved = joined (dumps (saved_json saved))

  abbrev pub saved_file : Option Saved → Option Text
  saved_file none = none
  saved_file (some saved) = some (saved_text saved)

  -- `load`: no file is no levels.
  unfoldable pub load_text : Option Text → Result (RawLevels × ℕ)
  load_text none = ok ([], 0)
  load_text (some text) = elim (loads text) [ none ↦ raise value_error | some v ↦ load_json v ]

  -- The levels and the version of a manifest.
  abbrev pub loaded : Option Saved → RawLevels × ℕ
  loaded none = ([], 0)
  loaded (some saved) = (raw saved.levels, saved.version)

  -- `json.load` reads back what `json.dump` wrote of the manifest, which has each level once.
  abbrev pub Loadable : Option Saved → Type 0
  Loadable none = Unit {0}
  Loadable (some saved) =
      (loads (saved_text saved) ≡ some (saved_json saved)) × IsDistinct saved.levels

  load_text-saved_file :
      (saved : Option Saved) → Loadable saved → load_text (saved_file saved) ≡ ok (loaded saved)
  unfolding load_text
  load_text-saved_file none h = refl
  load_text-saved_file (some saved) (back, once) = rw back (load_json-saved_json saved once)

  -- A power cut at any point of a save leaves the manifest of before or the new one, whole: the next
  -- start loads the levels and the version of the one or the other, and of the new one where the save
  -- had returned. The manifest of before, or that there was none, is on disk at the start of the save;
  -- both manifests have each level once, and `json.load` reads back what `json.dump` wrote of them.
  pub load-save_crash :
      (old : Option Saved) (new : Saved) (tmp : Option Content) (n : ℕ) (t : Option Text)
      → Loadable old
      → Loadable (some new)
      → Survives
          (run_steps (take n (save_steps (dumps (saved_json new)))) (settled (saved_file old) tmp))
          t
      → ((load_text t ≡ ok (loaded old)) × (n < length (save_steps (dumps (saved_json new)))))
        ⊎ (load_text t ≡ ok (loaded (some new)))
  load-save_crash old new tmp n t is_old is_new s =
      elim (save_crash (dumps (saved_json new)) (saved_file old) t tmp n s) [
        | inl (is, h) ↦ inl (ap load_text is ∙ load_text-saved_file old is_old, h)
        | inr is ↦ inr (ap load_text is ∙ load_text-saved_file (some new) is_new)
      ]
