-- ===== src/SsTable/Write.antt =====
-- What `write` of src/storage/sstable.py puts in a file: each offset of the index is that of the
-- entry of the last pair with its key.
use logvine.Prelude.{
  is_some, ℕ, ◌+◌, ◌≡◌, refl, sym, ◌∙◌, ap, Option, none, some, List, [], ◌∷◌, ◌++◌, arith, length,
  take, drop, length-append, append_assoc, append-nil, slice_lem, Bool-cases, inl, inr, ◌==◌,
}
use logvine.Prelude.Bytes.{Bytes, bytes_eq}
use logvine.Prelude.Struct.{pack, unpack, pack_lem}
use logvine.Prelude.Result.{ok, >>=-ok}
use logvine.Prelude.Dict
use logvine.Prelude.Dict.{Dict, get-set, set_all, IsDistinct, set-IsDistinct}
use logvine.SsTable.{encode_entry, write_entries, read_value}

-- An entry with this value stands at the offset.
pub record EntryAt (file : Bytes) (offset : ℕ) (value : Bytes) : Type 0 where
  pub before : Bytes
  pub key : Bytes
  pub entry : Bytes
  pub behind : Bytes
  pub encoded : encode_entry key value ≡ ok entry
  pub file_is : file ≡ before ++ (entry ++ behind)
  pub offset_is : offset ≡ length before

EntryAt-append :
    {file : Bytes} {offset : ℕ} {value : Bytes} (more : Bytes)
    → EntryAt file offset value
    → EntryAt (file ++ more) offset value
EntryAt-append more e = record {
  before = e.before;
  key = e.key;
  entry = e.entry;
  behind = e.behind ++ more;
  encoded = e.encoded;
  file_is = rw e.file_is (
      append_assoc e.before (e.entry ++ e.behind) more
      ∙ ap (λ (l : Bytes). e.before ++ l) (append_assoc e.entry e.behind more));
  offset_is = e.offset_is;
}

-- The parts of an entry that was encoded.
record EntryParts (key value entry : Bytes) : Type 0 where
  key_len : Bytes
  value_len : Bytes
  key_len_packed : pack 4 (length key) ≡ ok key_len
  value_len_packed : pack 4 (length value) ≡ ok value_len
  entry_is : entry ≡ key_len ++ (key ++ (value_len ++ value))

encode_entry-Parts :
    (key value entry : Bytes) → encode_entry key value ≡ ok entry → EntryParts key value entry
unfolding encode_entry
encode_entry-Parts key value entry h =
    let (key_len, key_len_packed, h1) = >>=-ok (pack 4 (length key)) _ h in
    let (value_len, value_len_packed, h2) = >>=-ok (pack 4 (length value)) _ h1 in
    record {
      key_len = key_len;
      value_len = value_len;
      key_len_packed = key_len_packed;
      value_len_packed = value_len_packed;
      entry_is = ground arith;
    }

read_value_lem :
    (file : Bytes) (offset key_len value_len : ℕ) (key value : Bytes)
    → unpack 4 (take 4 (drop offset file)) ≡ ok key_len
    → take key_len (drop (offset + 4) file) ≡ key
    → unpack 4 (take 4 (drop (offset + 4 + length key) file)) ≡ ok value_len
    → take value_len (drop (offset + 4 + length key + 4) file) ≡ value
    → read_value file offset ≡ ok value
unfolding read_value
read_value_lem file offset key_len value_len key value k_is key_is v_is value_is =
    rw k_is (rw key_is (rw v_is (rw value_is refl)))

-- The value of an entry is read back at its offset.
pub read_value-EntryAt :
    {file : Bytes} {offset : ℕ} {value : Bytes}
    → EntryAt file offset value
    → read_value file offset ≡ ok value
read_value-EntryAt {file} {offset} {value} e =
    let p = encode_entry-Parts e.key value e.entry e.encoded in
    let kp = pack_lem 4 (length e.key) p.key_len p.key_len_packed in
    let vp = pack_lem 4 (length value) p.value_len p.value_len_packed in
    let whole : file ≡ e.before ++ (p.key_len ++ (e.key ++ (p.value_len ++ (value ++ e.behind)))) =
      e.file_is ∙ rw p.entry_is (simp append_assoc) in
    let s1 : take 4 (drop offset file) ≡ p.key_len =
      slice_lem file e.before p.key_len (e.key ++ (p.value_len ++ (value ++ e.behind))) whole
        e.offset_is (sym kp.0) in
    let s2 : take (length e.key) (drop (offset + 4) file) ≡ e.key =
      slice_lem file (e.before ++ p.key_len) e.key (p.value_len ++ (value ++ e.behind))
        (whole ∙ simp append_assoc) (omega (arith, kp, length-append e.before p.key_len)) refl in
    let s3 : take 4 (drop (offset + 4 + length e.key) file) ≡ p.value_len =
      slice_lem file (e.before ++ (p.key_len ++ e.key)) p.value_len (value ++ e.behind)
        (whole ∙ simp append_assoc)
        (omega
          (arith, kp, length-append e.before (p.key_len ++ e.key), length-append p.key_len e.key))
        (sym vp.0) in
    let s4 : take (length value) (drop (offset + 4 + length e.key + 4) file) ≡ value =
      slice_lem file (e.before ++ (p.key_len ++ (e.key ++ p.value_len))) value e.behind
        (whole ∙ simp append_assoc)
        (omega (
          arith,
          kp,
          vp,
          length-append e.before (p.key_len ++ (e.key ++ p.value_len)),
          length-append p.key_len (e.key ++ p.value_len),
          length-append e.key p.value_len,
        ))
        refl in
    read_value_lem file offset (length e.key) (length value) e.key value (rw s1 kp.1) s2
      (rw s3 vp.1) s4

-- The index and the dictionary of the pairs hold the same keys, and the entry at the offset of a
-- key has its value.
abbrev pub AgreesAt : Bytes → Option ℕ → Option Bytes → Type 0
AgreesAt file none none = Unit
AgreesAt file none (some v) = ⊥
AgreesAt file (some o) none = ⊥
AgreesAt file (some o) (some v) = EntryAt file o v

abbrev pub Agrees : Bytes → Dict Bytes ℕ → Dict Bytes Bytes → Type 0
Agrees file index d = (k : Bytes) → AgreesAt file (Dict.get k index) (Dict.get k d)

pub AgreesAt-has :
    (file : Bytes) (o : Option ℕ) (v : Option Bytes) → AgreesAt file o v → is_some o ≡ is_some v
AgreesAt-has file none none a = refl
AgreesAt-has file none (some v) a = elim a [ ]
AgreesAt-has file (some o) none a = elim a [ ]
AgreesAt-has file (some o) (some v) a = refl

AgreesAt-append :
    (file more : Bytes) (o : Option ℕ) (v : Option Bytes)
    → AgreesAt file o v
    → AgreesAt (file ++ more) o v
AgreesAt-append file more none none a = tt
AgreesAt-append file more none (some v) a = elim a [ ]
AgreesAt-append file more (some o) none a = elim a [ ]
AgreesAt-append file more (some o) (some v) a = EntryAt-append more a

pub Agrees-append :
    (file more : Bytes) (index : Dict Bytes ℕ) (d : Dict Bytes Bytes)
    → Agrees file index d
    → Agrees (file ++ more) index d
Agrees-append file more index d a =
    λ k. AgreesAt-append file more (Dict.get k index) (Dict.get k d) (a k)

-- One more entry at the end, with its key set in the index and in the dictionary.
Agrees-set :
    (file key value entry : Bytes) (index : Dict Bytes ℕ) (d : Dict Bytes Bytes)
    → encode_entry key value ≡ ok entry
    → Agrees file index d
    → Agrees (file ++ entry) (Dict.set key (length file) index) (Dict.set key value d)
Agrees-set file key value entry index d made a = λ k.
    rw (get-set key k (length file) index, get-set key k value d)
      (elim (Bool-cases (key == k)) [
        | inl q ↦ rw q (record {
          before = file;
          key = key;
          entry = entry;
          behind = [];
          encoded = made;
          file_is = rw append-nil refl;
          offset_is = refl;
        })
        | inr q ↦ rw q (Agrees-append file entry index d a k)
      ])

-- The loop over the pairs.
pub write_entries-Agrees :
    (pairs : List (Bytes × Bytes)) (written : Bytes) (index : Dict Bytes ℕ) (d : Dict Bytes Bytes)
    (w : Bytes) (i : Dict Bytes ℕ)
    → Agrees written index d
    → IsDistinct index
    → write_entries pairs written index ≡ ok (w, i)
    → Agrees w i (set_all pairs d) × IsDistinct i
unfolding write_entries set_all
write_entries-Agrees [] written index d w i a distinct h =
    let same_w : written ≡ w = ground arith in
    let same_i : index ≡ i = ground arith in rw (← same_w, ← same_i) (a, distinct)
write_entries-Agrees ((key, value) ∷ pairs) written index d w i a distinct h =
    let (entry, made, h1) = >>=-ok (encode_entry key value) _ h in
    write_entries-Agrees pairs (written ++ entry) (Dict.set key (length written) index)
      (Dict.set key value d) w i (Agrees-set written key value entry index d made a)
      (set-IsDistinct key (length written) index distinct) h1
