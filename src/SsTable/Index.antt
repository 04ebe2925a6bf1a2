-- ===== src/SsTable/Index.antt =====
-- `_load_index` of src/storage/sstable.py over the index that `write` wrote.
use logvine.Prelude.{
  ℕ, zero, suc, ◌+◌, ◌-◌, ◌≤◌, ◌≡◌, refl, sym, ◌∙◌, ap, ap₂, [], ◌∷◌, ◌++◌, arith, length, take,
  drop, length-append, append_assoc, slice_lem, append-nil, le→ltb_false,
}
use logvine.Prelude.Bytes.{Bytes, bytes_eq}
use logvine.Prelude.Struct.{pack, unpack, pack_lem}
use logvine.Prelude.Result.{ok, >>=-ok}
use logvine.Prelude.Dict
use logvine.Prelude.Dict.{Dict, set_all}
use logvine.SsTable.{write_index, read_index_entry, loaded, load_loop, load_file}
use logvine.SsTable.Load.{load_loop_step}

read_index_entry_lem :
    (file key : Bytes) (position offset : ℕ)
    → unpack 4 (take 4 (drop position file)) ≡ ok (length key)
    → take (length key) (drop (position + 4) file) ≡ key
    → unpack 8 (take 8 (drop (position + 4 + length key) file)) ≡ ok offset
    → read_index_entry file position ≡ ok (key, offset, position + 4 + length key + 8)
unfolding read_index_entry
read_index_entry_lem file key position offset k_is key_is o_is = rw k_is (rw key_is (rw o_is refl))

-- The parts of an index that was encoded.
record IndexParts (key : Bytes) (offset : ℕ) (index : Dict Bytes ℕ) (bytes : Bytes) : Type 0 where
  key_len : Bytes
  place : Bytes
  rest : Bytes
  key_len_packed : pack 4 (length key) ≡ ok key_len
  place_packed : pack 8 offset ≡ ok place
  rest_encoded : write_index index ≡ ok rest
  bytes_is : bytes ≡ key_len ++ (key ++ (place ++ rest))

write_index-Parts :
    (key : Bytes) (offset : ℕ) (index : Dict Bytes ℕ) (bytes : Bytes)
    → write_index ((key, offset) ∷ index) ≡ ok bytes
    → IndexParts key offset index bytes
unfolding write_index
write_index-Parts key offset index bytes h =
    let (key_len, key_len_packed, h1) = >>=-ok (pack 4 (length key)) _ h in
    let (place, place_packed, h2) = >>=-ok (pack 8 offset) _ h1 in
    let (rest, rest_encoded, h3) = >>=-ok (write_index index) _ h2 in
    record {
      key_len = key_len;
      place = place;
      rest = rest;
      key_len_packed = key_len_packed;
      place_packed = place_packed;
      rest_encoded = rest_encoded;
      bytes_is = ground arith;
    }

length-IndexParts :
    (key : Bytes) (offset : ℕ) (index : Dict Bytes ℕ) (bytes : Bytes)
    (p : IndexParts key offset index bytes)
    → length bytes ≡ 12 + length key + length p.rest
length-IndexParts key offset index bytes p =
    ap length p.bytes_is
    ∙ omega (
      arith,
      length-append p.key_len (key ++ (p.place ++ p.rest)),
      length-append key (p.place ++ p.rest),
      length-append p.place p.rest,
      pack_lem 4 (length key) p.key_len p.key_len_packed,
      pack_lem 8 offset p.place p.place_packed,
    )

load_loop_end :
    (fuel : ℕ) (file : Bytes) (position : ℕ) (index : Dict Bytes ℕ)
    → load_loop fuel file position position index ≡ loaded index
unfolding load_loop
load_loop_end zero file position index = rw (le→ltb_false position position (omega arith)) refl
load_loop_end (suc fuel) file position index =
    rw (le→ltb_false position position (omega arith)) refl

-- The first entry of the index that was written is read back at its position.
entry_read :
    (before behind bytes key : Bytes) (offset : ℕ) (index : Dict Bytes ℕ)
    (p : IndexParts key offset index bytes)
    → read_index_entry (before ++ (bytes ++ behind)) (length before)
      ≡ ok (key, offset, length before + 4 + length key + 8)
entry_read before behind bytes key offset index p =
    let file = before ++ (bytes ++ behind) in
    let kp = pack_lem 4 (length key) p.key_len p.key_len_packed in
    let op = pack_lem 8 offset p.place p.place_packed in
    let whole : file ≡ before ++ (p.key_len ++ (key ++ (p.place ++ (p.rest ++ behind)))) =
      ap (λ (l : Bytes). before ++ (l ++ behind)) p.bytes_is ∙ simp append_assoc in
    let s1 : take 4 (drop (length before) file) ≡ p.key_len =
      slice_lem file before p.key_len (key ++ (p.place ++ (p.rest ++ behind))) whole refl
        (sym kp.0) in
    let s2 : take (length key) (drop (length before + 4) file) ≡ key =
      slice_lem file (before ++ p.key_len) key (p.place ++ (p.rest ++ behind))
        (whole ∙ simp append_assoc) (omega (arith, kp, length-append before p.key_len)) refl in
    let s3 : take 8 (drop (length before + 4 + length key) file) ≡ p.place =
      slice_lem file (before ++ (p.key_len ++ key)) p.place (p.rest ++ behind)
        (whole ∙ simp append_assoc)
        (omega (arith, kp, length-append before (p.key_len ++ key), length-append p.key_len key))
        (sym op.0) in
    read_index_entry_lem file key (length before) offset (rw s1 kp.1) s2 (rw s3 op.1)

-- The loop reads back each entry of an index that was written.
pub load_loop-write_index :
    (index : Dict Bytes ℕ) (before behind bytes : Bytes) (acc : Dict Bytes ℕ) (fuel : ℕ)
    → write_index index ≡ ok bytes
    → length bytes ≤ fuel
    → load_loop fuel
        (before ++ (bytes ++ behind))
        (length before + length bytes)
        (length before)
        acc
      ≡ loaded (set_all index acc)
unfolding set_all write_index
load_loop-write_index [] before behind bytes acc fuel h enough =
    let empty : bytes ≡ [] = ground arith in
    rw empty (
      ap (λ (n : ℕ). load_loop fuel (before ++ behind) n (length before) acc) (omega arith)
      ∙ load_loop_end fuel (before ++ behind) (length before) acc)
load_loop-write_index ((key, offset) ∷ index) before behind bytes acc zero h enough = absurd (
    omega (
      arith,
      length-IndexParts key offset index bytes (write_index-Parts key offset index bytes h),
    ))
load_loop-write_index ((key, offset) ∷ index) before behind bytes acc (suc fuel) h enough =
    let p = write_index-Parts key offset index bytes h in
    let size = length-IndexParts key offset index bytes p in
    let head = p.key_len ++ (key ++ p.place) in
    let before' = before ++ head in
    let head_size : length head ≡ 12 + length key = omega (
      arith,
      length-append p.key_len (key ++ p.place),
      length-append key p.place,
      pack_lem 4 (length key) p.key_len p.key_len_packed,
      pack_lem 8 offset p.place p.place_packed,
    ) in
    let position : length before + 4 + length key + 8 ≡ length before' =
      omega (arith, length-append before head, head_size) in
    let same_file : before ++ (bytes ++ behind) ≡ before' ++ (p.rest ++ behind) =
      ap (λ (l : Bytes). before ++ (l ++ behind)) p.bytes_is ∙ simp append_assoc in
    let same_end : length before + length bytes ≡ length before' + length p.rest =
      omega (arith, length-append before head, head_size, size) in
    load_loop_step fuel (before ++ (bytes ++ behind)) (length before + length bytes) (length before)
      acc key offset (length before + 4 + length key + 8) (omega (arith, size))
      (entry_read before behind bytes key offset index p)
    ∙ ap
        (λ (l : Bytes).
          load_loop fuel l (length before + length bytes) (length before + 4 + length key + 8)
            (Dict.set key offset acc))
        same_file
    ∙ ap₂
        (λ (a b : ℕ). load_loop fuel (before' ++ (p.rest ++ behind)) a b (Dict.set key offset acc))
        same_end position
    ∙ load_loop-write_index index before' behind p.rest (Dict.set key offset acc) fuel
        p.rest_encoded (omega (arith, size))

-- A file of entries, an index and the footer that `write` makes is loaded to its index.
pub load_file_written :
    (index : Dict Bytes ℕ) (written bytes footer : Bytes)
    → write_index index ≡ ok bytes
    → pack 8 (length written) ≡ ok footer
    → load_file (written ++ (bytes ++ footer)) ≡ loaded (set_all index [])
unfolding load_file
load_file_written index written bytes footer encoded packed =
    let file = written ++ (bytes ++ footer) in
    let fp = pack_lem 8 (length written) footer packed in
    let size : length file ≡ length written + (length bytes + 8) =
      omega (arith, fp, length-append written (bytes ++ footer), length-append bytes footer) in
    let last : take 8 (drop (length file - 8) file) ≡ footer =
      slice_lem file (written ++ bytes) footer [] (rw append-nil (simp append_assoc))
        (omega (arith, size, length-append written bytes)) (sym fp.0) in
    let end_is : length file - 8 ≡ length written + length bytes = omega (arith, size) in
    rw (le→ltb_false (length file) 8 (omega (arith, size))) (
      rw last (
        rw fp.1 (
          ap (λ (n : ℕ). load_loop (length file) file n (length written) []) end_is
          ∙ load_loop-write_index index written footer bytes [] (length file) encoded
              (omega (arith, size)))))
