-- ===== src/Wal.antt =====
-- src/storage/wal.py: the records of the log, their replay, and the log object with its file.
pub mod Record
pub mod Replay
pub mod Torn
pub mod Log
pub mod Fits
pub mod Append
pub mod Batch
pub mod Truncate
use logvine.Prelude.{
  ℕ, zero, suc, ◌+◌, ◌-◌, ◌≡◌, Bool, true, false, Option, none, some, List, [], ◌∷◌, ◌++◌, ltb, leb,
  nat_beq, length, take, drop, if◌then◌else◌,
}
use logvine.Prelude.Bytes.{Bytes}
use logvine.Prelude.Crc.{crc32}
use logvine.Prelude.Struct.{pack, unpack, be_bytes, be_value}
use logvine.Prelude.Result.{Error, Result, ok, raise, ◌>>=◌, struct_error, index_error, value_error}

-- `OperationType`, as the number that is written.
abbrev pub operation_put : ℕ
operation_put = 1

abbrev pub operation_delete : ℕ
operation_delete = 2

-- bytearray.append: a byte only.
unfoldable pub byte : ℕ → Result Bytes
byte b = if ltb b 256 then ok (b ∷ []) else raise value_error

-- The bytes of a record before its checksum.
unfoldable pub record_data : ℕ → Bytes → Bytes → Result Bytes
record_data operation key value = do
  op ← byte operation
  key_len ← pack 4 (length key)
  value_len ← pack 4 (length value)
  ok (op ++ (key_len ++ (key ++ (value_len ++ value))))

unfoldable pub construct_record : ℕ → Bytes → Bytes → Result Bytes
construct_record operation key value = do
  content ← record_data operation key value
  checksum ← pack 4 (crc32 content)
  let payload = content ++ checksum
  record_length ← pack 4 (length payload)
  ok (record_length ++ payload)

-- What `replay` yields.
pub record Entry : Type 0 where
  pub operation : ℕ
  pub key : Bytes
  pub value : Bytes
  pub offset : ℕ

-- data[0]
unfoldable pub first_byte : Bytes → Result ℕ
first_byte [] = raise index_error
first_byte (b ∷ bs) = ok b

-- The fields of a payload whose checksum is right. Slices past the end are short, as in Python.
unfoldable pub decode : ℕ → Bytes → Result Entry
decode offset content = do
  operation_type ← first_byte content
  key_len ← unpack 4 (take 4 (drop 1 content))
  let key_end = 5 + key_len
  value_len ← unpack 4 (take 4 (drop key_end content))
  ok (record {
    operation = operation_type;
    key = take key_len (drop 5 content);
    value = take value_len (drop (key_end + 4) content);
    offset = offset;
  })

-- One round of the loop: a record is yielded and so many bytes are read, the loop breaks, or an
-- exception leaves the generator.
pub data Round : Type 0 where
  yielded : Entry → ℕ → Round
  broken : Round
  failed : Error → Round

unfoldable pub decoded : Result Entry → ℕ → Round
decoded (ok entry) size = yielded entry size
decoded (raise e) size = failed e

unfoldable pub check_payload : ℕ → Bytes → Result ℕ → Round
check_payload offset payload (raise e) = failed e
check_payload offset payload (ok stored_checksum) =
    let content = take (length payload - 4) payload in
    if nat_beq (crc32 content) stored_checksum
    then decoded (decode offset content) (4 + length payload)
    else broken

unfoldable pub read_payload : ℕ → Bytes → Result ℕ → Round
read_payload offset rest (raise e) = failed e
read_payload offset rest (ok record_length) =
    let payload = take record_length (drop 4 rest) in
    if ltb (length payload) record_length
    then broken
    else check_payload offset payload (unpack 4 (drop (length payload - 4) payload))

-- `rest` is the file from `offset` on.
unfoldable pub read_record : ℕ → Bytes → Round
read_record offset rest = read_payload offset rest (unpack 4 (take 4 rest))

-- How a replay ends: by the end of the file or a `break`, or by an exception. `out_of_fuel` is no
-- end of the source's loop.
pub data Ending : Type 0 where
  finished : Ending
  raised : Error → Ending
  out_of_fuel : Ending

pub record Replayed : Type 0 where
  pub entries : List Entry
  pub ending : Ending

abbrev pub yield : Entry → Replayed → Replayed
yield e r = record { entries = e ∷ r.entries; ending = r.ending }

-- `while f.tell() < file_size`, on fuel.
unfoldable pub replay_loop : ℕ → ℕ → Bytes → Replayed
replay_loop fuel offset [] = record { entries = []; ending = finished }
replay_loop zero offset (b ∷ bs) = record { entries = []; ending = out_of_fuel }
replay_loop (suc fuel) offset (b ∷ bs) = elim (read_record offset (b ∷ bs)) [
  | yielded entry size ↦ yield entry (replay_loop fuel (offset + size) (drop size (b ∷ bs)))
  | broken ↦ record { entries = []; ending = finished }
  | failed e ↦ record { entries = []; ending = raised e }
]

-- Each round that goes on reads four bytes at least, so the length of the file is fuel enough.
unfoldable pub replay : Option Bytes → Replayed
replay none = record { entries = []; ending = finished }
replay (some content) = replay_loop (length content) 0 content
