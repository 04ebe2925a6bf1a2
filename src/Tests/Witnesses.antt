-- ===== src/Tests/Witnesses.antt =====
-- The theorems that have conditions or parameters, each at an input that meets them.
use logvine.Prelude.{
  ◌<◌, ◌≤◌, ◌^◌, ◌≡◌, ◌≢◌, refl, none, some, List, [], ◌∷◌, ◌++◌, arith, inl, inr, true, ◌⊎◌, ◌↔◌,
  length, take, or_else, All, ◌==◌, false,
}
use logvine.Prelude.Bytes.{Bytes, bytes_eq}
use logvine.Prelude.Crc.{crc32}
use logvine.Prelude.Struct.{pack, unpack}
use logvine.Prelude.Result.{Result, ok, raise, struct_error, value_error}
use logvine.Prelude.Dict
use logvine.Prelude.Dict.{set_all}
use logvine.MemTable
use logvine.MemTable.{MemTable, tombstone}
use logvine.MemTable.Calls
use logvine.MemTable.Calls.{Call, last_write}
use logvine.MemTable.Range
use logvine.MemTable.Reads
use logvine.MemTable.Size
use logvine.MemTable.Size.{IsExact}
use logvine.Wal
use logvine.Wal.{operation_put, construct_record, finished, raised, out_of_fuel, yielded}
use logvine.Wal.Record
use logvine.Wal.Record.{entry_at}
use logvine.Wal.Replay
use logvine.Wal.Replay.{LogOp, IsLog, entries_from}
use logvine.Wal.Torn
use logvine.Wal.Fits
use logvine.Wal.Log
use logvine.Wal.Log.{Wal, linked}
use logvine.Wal.Append
use logvine.Wal.Batch
use logvine.Wal.Append.{Holds, log_end, last_offset}
use logvine.Wal.Truncate
use logvine.SsTable
use logvine.SsTable.{SsTable, Files}
use logvine.SsTable.Load
use logvine.SsTable.Lookup
use logvine.Engine
use logvine.Engine.Lsm.{lsm_engine}
use logvine.Engine.{Engine}
use logvine.Engine.Batches
use logvine.Engine.Recovery
use logvine.Engine.Recovery.{IsRecoverable}
use logvine.Engine.Writes
use logvine.Engine.Writes.{Write, put_op}
use logvine.Engine.Flush
use logvine.Prelude.Utf8.{encode, encode_char, decode, strict, characters, byte_step, first_of}
use logvine.Json.{
  Json, JsonFields, object, field, no_fields, string, array, item, no_items, get_field, truthy,
  iterate,
}
use logvine.Operations.Validate
use logvine.Operations.Words.{
  operation_field, key_field, keys_field, values_field, get_text, batch_name,
}
use logvine.Operations.{
  from_json, batch_put, parse, parse_batch, required, ensure_all, ensure_bytes, validate,
}
use logvine.Controller.{
  Reply, stream_done, decode_pair, stream_response, handle_request, chunk_size,
}
use logvine.Controller.Stream
use logvine.Controller.Replies
use logvine.Controller.Replies.{Framed, asks_range}
use logvine.Tests.{program, a, b, c, table, fresh, filled}

-- The record of a put of b"a" with the value b"b", and the log that holds it alone.
abbrev op : LogOp
op = put_op a b

abbrev bytes : Bytes
bytes = 0 ∷ 0 ∷ 0 ∷ 15 ∷ 1 ∷ 0 ∷ 0 ∷ 0 ∷ 1 ∷ 97 ∷ 0 ∷ 0 ∷ 0 ∷ 1 ∷ 98 ∷ 117 ∷ 113 ∷ 136 ∷ 82 ∷ []

made : construct_record operation_put a b ≡ ok bytes
unfolding program
made = refl

one-IsLog : IsLog (op ∷ []) bytes
one-IsLog = (bytes, [], made, refl, refl)

two-IsLog : IsLog (op ∷ op ∷ []) (bytes ++ bytes)
two-IsLog = (bytes, bytes, made, one-IsLog, refl)

-- A log object that has its file open, at the end.
abbrev open_wal : Wal
open_wal = record { content = some bytes; handle = linked 19 }

open_wal-Holds : Holds (op ∷ []) open_wal
open_wal-Holds = record { log = bytes; content_is = refl; is_log = one-IsLog; handle_is = inr refl }

abbrev long_wal : Wal
long_wal = record { content = some (bytes ++ bytes); handle = linked 38 }

long_wal-Holds : Holds (op ∷ op ∷ []) long_wal
long_wal-Holds = record {
  log = bytes ++ bytes;
  content_is = refl;
  is_log = two-IsLog;
  handle_is = inr refl;
}

fresh-IsRecoverable : IsRecoverable [] fresh
unfolding program Recovery.last_logged MemTable.get_frozen
fresh-IsRecoverable = record {
  holds = record { log = []; content_is = refl; is_log = refl; handle_is = inl refl };
  reads = λ j. refl;
  saved = refl;
}

abbrev script : List Write
script = Write.put a a ∷ Write.put b b ∷ Write.delete a ∷ []

get-run_restart_example :
    (s' : Engine) × (Engine.init
        (Writes.run script fresh).storage_path
        70
        (Writes.run script fresh).wal.content
        (Writes.run script fresh).manifest.file
        (Writes.run script fresh).files
      ≡ ok s')
    × ((j : Bytes) → Engine.get j s' ≡ Engine.get j (Writes.run script fresh))
get-run_restart_example =
    Writes.get-run_restart script [] fresh 70 (omega arith) fresh-IsRecoverable

-- A table of two pairs at the path "/", and the files with it.
abbrev pairs : List (Bytes × Bytes)
pairs = (a, b) ∷ (c, a) ∷ []

abbrev written : Result SsTable × Files
written = SsTable.write pairs (SsTable.init (47 ∷ []) 0) []

abbrev indexed : SsTable
indexed = record { path = 47 ∷ []; level = 0; index = (a, 0) ∷ (c, 10) ∷ [] }

writes : written ≡ (ok indexed, written.1)
unfolding program
writes = refl

get-write_example :
    ((SsTable.get c written.1 indexed).0 ≡ ok (Dict.get c (set_all pairs [])))
    × ((SsTable.get c written.1 (SsTable.init (47 ∷ []) 0)).0 ≡ ok (Dict.get c (set_all pairs [])))
unfolding SsTable.init
get-write_example = Lookup.get-write c pairs (SsTable.init (47 ∷ []) 0) indexed [] written.1 writes

replay_torn_example :
    Wal.replay (some (bytes ++ take 2 bytes))
    ≡ record { entries = entries_from 0 (op ∷ []); ending = raised struct_error }
replay_torn_example = Torn.replay_torn (op ∷ []) bytes bytes op 2 one-IsLog made (omega arith)

-- A frame whose content is one byte and whose checksum is 0.
abbrev damaged_content : Bytes
damaged_content = 1 ∷ []

abbrev stored_checksum : Bytes
stored_checksum = 0 ∷ 0 ∷ 0 ∷ 0 ∷ []

abbrev frame_length : Bytes
frame_length = 0 ∷ 0 ∷ 0 ∷ 5 ∷ []

framed : pack 4 (length (damaged_content ++ stored_checksum)) ≡ ok frame_length
unfolding program
framed = refl

kept : unpack 4 stored_checksum ≡ ok 0
unfolding program
kept = refl

differ : crc32 damaged_content ≢ 0
unfolding program
differ = omega arith

replay_damaged_example :
    Wal.replay (some (bytes ++ (frame_length ++ ((damaged_content ++ stored_checksum) ++ bytes))))
    ≡ record { entries = entries_from 0 (op ∷ []); ending = finished }
replay_damaged_example =
    Torn.replay_damaged (op ∷ []) bytes frame_length damaged_content stored_checksum bytes 0
      one-IsLog framed kept refl differ

get-get_range_example : Dict.get b (MemTable.get_range a c table) ≡ MemTable.get b table
unfolding program
get-get_range_example = Range.get-get_range a c b table

append-durable_example :
    ((Log.append operation_put a b open_wal).0 ≡ ok 19)
    × Holds (op ∷ op ∷ []) (Log.append operation_put a b open_wal).1
    × (Log.replay_log (Log.append operation_put a b open_wal).1 ≡ record {
      entries = (Log.replay_log open_wal).entries ++ entry_at 19 operation_put a b ∷ [];
      ending = finished;
    })
append-durable_example = Append.append-durable (op ∷ []) op open_wal bytes open_wal-Holds made

two_records :
    Log.construct_batch operation_put (a ∷ a ∷ []) (b ∷ b ∷ []) ([], [])
    ≡ ok (bytes ++ bytes, bytes)
unfolding program
two_records = refl

append_batch-durable_example :
    ((Log.append_batch operation_put (a ∷ a ∷ []) (b ∷ b ∷ []) open_wal).0 ≡ ok 38)
    × Holds
        (op ∷ op ∷ op ∷ [])
        (Log.append_batch operation_put (a ∷ a ∷ []) (b ∷ b ∷ []) open_wal).1
append_batch-durable_example =
    Batch.append_batch-durable (op ∷ []) operation_put (a ∷ a ∷ []) (b ∷ b ∷ []) open_wal
      (bytes ++ bytes) bytes open_wal-Holds (omega arith) refl two_records

put-fresh : (Engine.put a b fresh).0 ≡ ok tt
unfolding program
put-fresh = refl

delete_fresh : (Engine.delete a filled).0 ≡ ok tt
unfolding program
delete_fresh = refl

batch_fresh : (Engine.batch_put (a ∷ []) (b ∷ []) fresh).0 ≡ ok tt
unfolding program
batch_fresh = refl

get-batch_put_example :
    Engine.get a (Engine.batch_put (a ∷ []) (b ∷ []) fresh).1
    ≡ Batches.over (Batches.last_pair a (a ∷ []) (b ∷ [])) (Engine.get a fresh)
get-batch_put_example = Batches.get-batch_put a (a ∷ []) (b ∷ []) fresh batch_fresh

batch_put_blocks_example :
    Engine.flush_all ((1, 1) ∷ (2, 2) ∷ []) (Engine.batch_put (a ∷ []) (b ∷ []) fresh).1 ≡ none
unfolding program
batch_put_blocks_example =
    Flush.batch_put_blocks (a ∷ []) (b ∷ []) fresh ((1, 1) ∷ (2, 2) ∷ []) batch_fresh refl refl refl

batch_mismatch : (Engine.batch_put (a ∷ []) [] fresh).0 ≡ raise value_error
unfolding program
batch_mismatch = refl

batch_put_failed_example :
    (w : Wal) × (Engine.batch_put (a ∷ []) [] fresh ≡ (raise value_error, record fresh { wal = w }))
    × (((Batches.is_accepted (a ∷ []) [] fresh ≡ true)
          × (Log.append_batch operation_put (a ∷ []) [] fresh.wal ≡ (raise value_error, w)))
        ⊎ ((Batches.is_accepted (a ∷ []) [] fresh ≡ false)
            × (w ≡ fresh.wal)
            × (value_error ≡ Batches.rejection (a ∷ []) [] fresh)))
batch_put_failed_example = Batches.batch_put_failed (a ∷ []) [] fresh value_error batch_mismatch

abbrev calls : List Call
calls = Call.put a b ∷ Call.rotate ∷ Call.delete c ∷ Call.set_max_wal_offset 9 ∷ []

get-run_example :
    MemTable.get c (Calls.run calls table) ≡ or_else (last_write c calls) (MemTable.get c table)
get-run_example = Calls.get-run c calls table

run-IsExact_example : IsExact (Calls.run calls table)
run-IsExact_example = Calls.run-IsExact calls table (unfold program in refl)

put-IsExact_example :
    (Size.value_size (Dict.get b table.active) ≤ table.current_size)
    × IsExact (MemTable.put b c table)
put-IsExact_example = Size.put-IsExact b c table (unfold program in refl)

get-clear_frozen_example :
    MemTable.get a table
    ≡ or_else
        (MemTable.get a (MemTable.clear_frozen table))
        (Dict.get a (MemTable.get_frozen_items table))
get-clear_frozen_example = Reads.get-clear_frozen a table

replay_total_example : (Wal.replay (some (bytes ++ bytes))).ending ≢ out_of_fuel
replay_total_example = Replay.replay_total (some (bytes ++ bytes))

read_record-construct_record_example :
    Wal.read_record 7 (bytes ++ a) ≡ yielded (entry_at 7 operation_put a b) 19
read_record-construct_record_example =
    Record.read_record-construct_record operation_put a b bytes 7 a made

construct_record_fits_example :
    ((r : Bytes) × (construct_record operation_put a b ≡ ok r)) ↔ (15 < 2 ^ 32)
construct_record_fits_example = Fits.construct_record_fits operation_put a b (omega arith)

truncate_upto-boundary_example :
    Log.replay_log (Log.truncate_upto 19 long_wal)
    ≡ record { entries = entries_from 0 (op ∷ []); ending = finished }
truncate_upto-boundary_example =
    Truncate.truncate_upto-boundary (op ∷ []) (op ∷ []) long_wal long_wal-Holds (omega arith)

append-truncate_upto_example :
    ((Log.append operation_put a b (Log.truncate_upto 19 long_wal)).0 ≡ ok 38)
    × (Log.replay_log (Log.append operation_put a b (Log.truncate_upto 19 long_wal)).1
        ≡ record { entries = entries_from 0 (op ∷ []); ending = finished })
append-truncate_upto_example =
    Truncate.append-truncate_upto (op ∷ []) (op ∷ []) op long_wal 38 bytes long_wal-Holds refl
      (omega arith) (omega arith) made

load_file_total_example : SsTable.load_file bytes ≢ SsTable.out_of_fuel
load_file_total_example = Load.load_file_total bytes

-- {"operation": "get", "key": "a"}
abbrev get_request : Json
get_request =
    object (field operation_field (string get_text) (field key_field (string a) no_fields))

handle_request-replies_example :
    (replies : List Reply) × ((handle_request (some get_request) filled).0 ≡ ok replies)
    × Framed (asks_range (from_json (some get_request))) replies
handle_request-replies_example = Replies.handle_request-replies (some get_request) filled

pairs_decoded : Stream.decode_pairs ((a, b) ∷ (b, a) ∷ []) ≡ ok ((a, b) ∷ (b, a) ∷ [])
unfolding Stream.decode_pairs decode_pair decode strict characters byte_step first_of
pairs_decoded = refl

stream_response-chunks_example :
    (chunks : List Stream.Pairs) × (stream_response a c (ok ((a, b) ∷ (b, a) ∷ []))
      ≡ Stream.numbered a c 1 chunks ++ stream_done a c ∷ [])
    × (Stream.joined chunks ≡ (a, b) ∷ (b, a) ∷ [])
    × All (λ items. (0 < length items) × (length items ≤ chunk_size)) chunks
stream_response-chunks_example =
    Stream.stream_response-chunks a c ((a, b) ∷ (b, a) ∷ []) ((a, b) ∷ (b, a) ∷ []) pairs_decoded

b-no_tombstone : (b == tombstone) ≡ false
unfolding program
b-no_tombstone = refl

a-encoded : encode a ≡ ok a
unfolding encode encode_char
a-encoded = refl

b-encoded : encode b ≡ ok b
unfolding encode encode_char
b-encoded = refl

-- {"keys": "ab", "values": ["a", "b"]}, where the text is read character by character
abbrev batch_data : JsonFields
batch_data =
    field keys_field (string (97 ∷ 98 ∷ []))
      (field values_field (array (item (string a) (item (string b) no_items))) no_fields)

parse-batch_data : parse batch_name batch_data ≡ ok (batch_put (a ∷ b ∷ []) (a ∷ b ∷ []))
unfolding program parse parse_batch required get_field truthy iterate ensure_all ensure_bytes encode
    encode_char
parse-batch_data = refl

parse-validate_example : validate (batch_put (a ∷ b ∷ []) (a ∷ b ∷ [])) ≡ ok tt
parse-validate_example =
    Validate.parse-validate batch_name batch_data (batch_put (a ∷ b ∷ []) (a ∷ b ∷ []))
      parse-batch_data
