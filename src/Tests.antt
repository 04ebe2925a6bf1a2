-- ===== src/Tests.antt =====
-- Runs of the model at fixed inputs.
mod Witnesses
mod Locks
mod Tables
mod Systems
mod Servers
mod Manifests
mod Losses
mod Calls
use logvine.Prelude.{
  ℕ, ◌+◌, ◌<◌, ◌^◌, ◌≡◌, refl, sym, ◌∙◌, Option, none, some, List, [], ◌∷◌, ◌++◌, arith,
  if◌then◌else◌, ◌==◌, true, false, inl, inr, length, or_else, take, drop,
}
use logvine.Prelude.Bytes.{Bytes, bytes_eq, bytes_beq, bytes_lt}
use logvine.Prelude.Crc.{crc32}
use logvine.Prelude.Struct.{pack, unpack, be_bytes, be_value}
use logvine.Prelude.Result.{Result, ok, raise, key_error, struct_error}
use logvine.Prelude.Dict
use logvine.Prelude.Order.{sorted, insert_sorted, contains}
use logvine.Prelude.Text
use logvine.MemTable
use logvine.MemTable.{MemTable, tombstone}
use logvine.MemTable.Calls.{Call}
use logvine.Wal
use logvine.Wal.{operation_put, operation_delete, construct_record}
use logvine.Wal.Log
use logvine.Wal.Log.{Wal}
use logvine.SsTable
use logvine.SsTable.{SsTable, Files}
use logvine.Manifest
use logvine.SsTableManager
use logvine.Compaction
use logvine.Engine
use logvine.Engine.{Engine}

program : Unit {0}
unfolding bytes_beq bytes_lt crc32 pack unpack be_bytes be_value Dict.get Dict.set sorted contains
    Text.decimal Text.decimal_digits Text.hex Text.hex_digit Text.fromhex Text.hex_value
    Text.is_space MemTable.init MemTable.set_max_wal_offset MemTable.put MemTable.get
    MemTable.delete MemTable.is_full MemTable.rotate MemTable.clear_frozen
    MemTable.batch_would_exceed MemTable.get_frozen_items MemTable.get_max_wal_offset_frozen
    MemTable.get_frozen_queue_depth MemTable.get_range MemTable.iter_sorted Wal.byte Wal.record_data
    Wal.construct_record Wal.first_byte Wal.decode Wal.decoded Wal.check_payload Wal.read_payload
    Wal.read_record Wal.replay_loop Wal.replay take drop Log.open_file Log.init Log.ensure_by
    Log.tell Log.write_by Log.write_result Log.append Log.construct_batch Log.append_nonempty
    Log.append_batch Log.unlink_by Log.truncate_content Log.truncate_upto Log.replay_log
    SsTable.init SsTable.encode_entry SsTable.write_entries SsTable.write_index SsTable.file_bytes
    SsTable.unlink SsTable.write_done SsTable.write SsTable.read_index_entry SsTable.load_loop
    SsTable.load_file SsTable.index_of SsTable.load_index SsTable.ensure_by SsTable.read_value
    SsTable.value_at SsTable.get_loaded SsTable.get SsTable.scan SsTable.range_scan SsTable.collect
    SsTable.iter_items Manifest.init Manifest.load Manifest.save Manifest.get_level_sstables
    Manifest.add_sstable Manifest.without_path Manifest.remove_sstable Manifest.iter_levels
    SsTableManager.enumerate_from SsTableManager.older SsTableManager.ordered_entries
    SsTableManager.at_level SsTableManager.each_level SsTableManager.level_entries
    SsTableManager.iter_sstable_metadata SsTableManager.metadata_to_sstable
    SsTableManager.metadata_for SsTableManager.build_metadata SsTableManager.get_from
    SsTableManager.get_first SsTableManager.get SsTableManager.overlapping
    SsTableManager.get_overlapping_sstables Compaction.needs_compaction Compaction.entry_lt
    Compaction.heappush Compaction.advance Compaction.initial_heap Compaction.merge_loop
    Compaction.merge_items Compaction.read_all Compaction.merge_sstables Compaction.remove_all
    Compaction.remove_old_sstable_files Compaction.finish_compaction Compaction.compact_tables
    Compaction.compact Compaction.may_start_compaction Engine.replay_entry Engine.replay_entries
    Engine.init Engine.put_locked Engine.put_logged Engine.put Engine.found Engine.get_stored
    Engine.get Engine.delete_logged Engine.delete Engine.collect Engine.collect_tables
    Engine.read_key_range Engine.entry_size Engine.input_size Engine.put_all Engine.batch_locked
    Engine.batch_logged Engine.batch_put Engine.start_compaction Engine.flush_recorded
    Engine.flush_written Engine.flush_items Engine.flush Engine.flush_all
program = tt

-- b"a", b"b", b"c"
abbrev a : Bytes
a = 97 ∷ []

abbrev b : Bytes
b = 98 ∷ []

abbrev c : Bytes
c = 99 ∷ []

abbrev table : MemTable
table = MemTable.put b a (MemTable.rotate (MemTable.delete c (MemTable.put a b (MemTable.init 10))))

get-table : MemTable.get a table ≡ some b
unfolding program
get-table = refl

range_table : MemTable.get_range a c table ≡ (a, b) ∷ (b, a) ∷ []
unfolding program
range_table = refl

-- A fresh engine on an empty disk, whose table in memory is rotated at three bytes of values.
abbrev fresh : Engine
fresh = record {
  storage_path = 47 ∷ [];
  memtable_max_size = 70;
  wal = Log.init none;
  manifest = Manifest.load (Manifest.init none);
  memtable = MemTable.init 3;
  files = [];
  compaction_in_progress = false;
  started_flushes = 0;
  started_compactions = 0;
}

-- Three puts, the last of which rotates, a delete, and a flush at 1000 ms.
abbrev filled : Engine
filled = (Engine.delete b (Engine.put c c (Engine.put b b (Engine.put a a fresh).1).1).1).1

abbrev flushed : Engine
flushed = Engine.flush 1000 1001 filled

flush_filled :
    (filled.started_flushes ≡ 1)
    × (MemTable.get_frozen_queue_depth flushed.memtable ≡ 0)
    × (Engine.get a flushed ≡ ok a)
    × (Engine.get b flushed ≡ raise key_error)
    × (Engine.read_key_range a (100 ∷ []) flushed ≡ ok ((a, a) ∷ (c, c) ∷ []))
unfolding program
flush_filled = (refl, refl, refl, refl, refl)

-- Two more flushes reach the threshold, and the compaction leaves one table, of level 1.
abbrev thrice : Engine
thrice =
    Engine.flush 3000 3001
      (Engine.put a (98 ∷ 98 ∷ 98 ∷ [])
        (Engine.flush 2000 2001 (Engine.put b (99 ∷ 99 ∷ 99 ∷ []) flushed).1)).1

abbrev compacted : Compaction.State
compacted =
    Compaction.compact (47 ∷ []) 4000000 4000
      (record { manifest = thrice.manifest; files = thrice.files; in_progress = true })

compact_thrice :
    (thrice.started_compactions ≡ 1)
    × (length (Manifest.get_level_sstables 0 compacted.manifest) ≡ 0)
    × (SsTableManager.get a compacted.files compacted.manifest ≡ ok (some (98 ∷ 98 ∷ 98 ∷ [])))
    × (SsTableManager.get c compacted.files compacted.manifest ≡ ok (some c))
unfolding program
compact_thrice = (refl, refl, refl, refl)
