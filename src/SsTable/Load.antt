-- ===== src/SsTable/Load.antt =====
-- `_load_index` of src/storage/sstable.py over any file.
use logvine.Prelude.{
  ℕ, zero, suc, ◌+◌, ◌-◌, ◌<◌, ◌≤◌, ◌≡◌, ◌≢◌, [], arith, length, take, drop, inl, inr, lt→ltb,
}
use logvine.Prelude.Bytes.{Bytes, bytes_eq}
use logvine.Prelude.Struct.{unpack}
use logvine.Prelude.Result.{ok, >>=-ok, Result-cases}
use logvine.Prelude.Dict
use logvine.Prelude.Dict.{Dict, set_all}
use logvine.SsTable.{read_index_entry, out_of_fuel, load_loop, load_file}

-- An entry of the index that is read takes twelve bytes at least.
read_index_entry-size :
    (file : Bytes) (position offset position' : ℕ) (key : Bytes)
    → read_index_entry file position ≡ ok (key, offset, position')
    → position + 12 ≤ position'
unfolding read_index_entry
read_index_entry-size file position offset position' key h =
    let (key_len, k, h1) = >>=-ok (unpack 4 (take 4 (drop position file))) _ h in
    let place = position + 4 + length (take key_len (drop (position + 4) file)) in
    let (o, p, h2) = >>=-ok (unpack 8 (take 8 (drop place file))) _ h1 in
    let e : place + 8 ≡ position' = ground arith in omega arith

pub load_loop_step :
    (fuel : ℕ) (file : Bytes) (index_end position : ℕ) (index : Dict Bytes ℕ) (key : Bytes)
    (offset position' : ℕ)
    → position < index_end
    → read_index_entry file position ≡ ok (key, offset, position')
    → load_loop (suc fuel) file index_end position index
      ≡ load_loop fuel file index_end position' (Dict.set key offset index)
unfolding load_loop
load_loop_step fuel file index_end position index key offset position' more read =
    rw (lt→ltb position index_end more) (ground arith)

-- With fuel for the bytes up to the footer, the loop never runs out of it, on any file.
load_loop_total :
    (fuel : ℕ) (file : Bytes) (index_end position : ℕ) (index : Dict Bytes ℕ)
    → index_end ≤ position + fuel
    → load_loop fuel file index_end position index ≢ out_of_fuel
unfolding load_loop
load_loop_total zero file index_end position index h = λ p. ground arith
load_loop_total (suc fuel) file index_end position index h =
    elim (Result-cases (read_index_entry file position)) [
      | inr (e, r) ↦ λ p. ground arith
      | inl ((key, offset, position'), r) ↦ λ p. ground (
        arith,
        read_index_entry-size file position offset position' key r,
        load_loop_total fuel file index_end position' (Dict.set key offset index),
      )
    ]

-- Loading ends on every file, whatever its bytes are.
pub load_file_total : (file : Bytes) → load_file file ≢ out_of_fuel
unfolding load_file
load_file_total file = elim (Result-cases (unpack 8 (take 8 (drop (length file - 8) file)))) [
  | inr (e, r) ↦ λ p. ground arith
  | inl (index_offset, r) ↦ λ p.
      ground
        (arith, load_loop_total (length file) file (length file - 8) index_offset [] (omega arith))
]
