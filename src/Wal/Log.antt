-- ===== src/Wal/Log.antt =====
-- The `WAL` object of src/storage/wal.py: the file at the path, and the handle that the object has
-- open on it.
use logvine.Prelude.{
  ℕ, ◌+◌, ◌-◌, Option, none, some, List, [], ◌∷◌, ◌++◌, nat_beq, leb, length, drop, not,
  if◌then◌else◌,
}
use logvine.Prelude.Bytes.{Bytes}
use logvine.Prelude.Result.{Result, ok, raise, ◌>>=◌, value_error}
use logvine.Wal.{construct_record, Replayed, replay}

-- `self.file`: None; a file object on the file that stands at the path, with its position; one on a
-- file that a rename has unlinked from the path, whose bytes no later open of the path finds; or a
-- closed file object.
pub data Handle : Type 0 where
  absent : Handle
  linked : ℕ → Handle
  orphan : Bytes → ℕ → Handle
  shut : Handle

-- `content` is the file at the path, if there is one.
pub record Wal : Type 0 where
  pub content : Option Bytes
  pub handle : Handle

abbrev pub created : Option Bytes → Bytes
created none = []
created (some c) = c

-- `open` makes the file if it is missing. Mode "ab+" starts at the end of the file.
unfoldable pub open_file : Wal → Wal
open_file w = record {
  content = some (created w.content);
  handle = linked (length (created w.content));
}

-- `__init__` opens the log, and then sets `self.file` to what `open` returns, None.
unfoldable pub init : Option Bytes → Wal
init disk = record (open_file (record { content = disk; handle = absent })) { handle = absent }

unfoldable pub close_handle : Handle → Handle
close_handle absent = absent
close_handle (linked position) = shut
close_handle (orphan c position) = shut
close_handle shut = shut

unfoldable pub close : Wal → Wal
close w = record w { handle = close_handle w.handle }

-- `if not self.file: self.open()`
unfoldable pub ensure_by : Handle → Wal → Wal
ensure_by absent w = open_file w
ensure_by (linked position) w = w
ensure_by (orphan c position) w = w
ensure_by shut w = w

abbrev pub ensure_open : Wal → Wal
ensure_open w = ensure_by w.handle w

-- self.file.tell(); a closed file refuses. `absent` does not get here.
unfoldable pub tell : Handle → Result ℕ
tell absent = raise value_error
tell (linked position) = ok position
tell (orphan c position) = ok position
tell shut = raise value_error

abbrev pub appended : Option Bytes → Bytes → Option Bytes
appended none bytes = none
appended (some c) bytes = some (c ++ bytes)

-- An append goes to the end of the handle's own file, and leaves the position there.
unfoldable pub write_by : Handle → Bytes → Wal → Wal
write_by (linked position) bytes w = record {
  content = appended w.content bytes;
  handle = linked (length (created (appended w.content bytes)));
}
write_by (orphan c position) bytes w = record w {
  handle = orphan (c ++ bytes) (length (c ++ bytes));
}
write_by absent bytes w = w
write_by shut bytes w = w

abbrev pub write : Bytes → Wal → Wal
write bytes w = write_by w.handle bytes w

-- Under the lock of `append`: the record is built before the position is read, and a failure of
-- either leaves the file as it is.
unfoldable pub write_result : Result (ℕ × Bytes) → Wal → Result ℕ × Wal
write_result (ok (offset, bytes)) w = (ok offset, write bytes w)
write_result (raise e) w = (raise e, w)

unfoldable pub append : ℕ → Bytes → Bytes → Wal → Result ℕ × Wal
append operation key value wal =
    let w = ensure_open wal in
    write_result
      (do
        bytes ← construct_record operation key value
        record_offset ← tell w.handle
        ok (record_offset, bytes))
      w

-- The loop of `append_batch` over zip(keys, values): the bytes of all records, and of the last one.
unfoldable pub construct_batch :
    ℕ → List Bytes → List Bytes → Bytes × Bytes → Result (Bytes × Bytes)
construct_batch operation [] values built = ok built
construct_batch operation (key ∷ keys) [] built = ok built
construct_batch operation (key ∷ keys) (value ∷ values) (batch_record, last) = do
  bytes ← construct_record operation key value
  construct_batch operation keys values (batch_record ++ bytes, bytes)

abbrev pub tell_result : Wal → Result ℕ × Wal
tell_result w = (tell w.handle, w)

unfoldable pub append_nonempty : ℕ → List Bytes → List Bytes → Wal → Result ℕ × Wal
append_nonempty operation keys values w =
    write_result
      (do
        (batch_record, last) ← construct_batch operation keys values ([], [])
        batch_offset ← tell w.handle
        ok (batch_offset + length batch_record - length last, batch_record))
      w

unfoldable pub append_batch : ℕ → List Bytes → List Bytes → Wal → Result ℕ × Wal
append_batch operation keys values wal =
    let w = ensure_open wal in
    if not (nat_beq (length keys) (length values))
    then (raise value_error, wal)
    else if nat_beq (length keys) 0
    then tell_result w
    else append_nonempty operation keys values w

-- os.replace puts a new file at the path: a handle stays on the old one.
unfoldable pub unlink_by : Handle → Bytes → Handle
unlink_by absent old = absent
unlink_by (linked position) old = orphan old position
unlink_by (orphan c position) old = orphan c position
unlink_by shut old = shut

-- A cut at or past the end empties the file in place; a cut before it writes the rest to a new file
-- and renames that over the path.
unfoldable pub truncate_content : ℕ → Option Bytes → Wal → Wal
truncate_content offset none w = w
truncate_content offset (some c) w =
    if leb (length c) offset
    then record w { content = some [] }
    else record { content = some (drop offset c); handle = unlink_by w.handle c }

unfoldable pub truncate_upto : ℕ → Wal → Wal
truncate_upto offset w = if nat_beq offset 0 then w else truncate_content offset w.content w

unfoldable pub replay_log : Wal → Replayed
replay_log w = replay w.content
