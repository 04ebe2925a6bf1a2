-- ===== src/Engine/Lsm.antt =====
-- `LSMStorageEngine` of src/storage/engine.py as a `StorageEngine`.
use logvine.StorageEngine.{StorageEngine}
use logvine.Engine.{Engine, put, get, delete, read_key_range, batch_put, flush}

instance abbrev pub lsm_engine : StorageEngine Engine
lsm_engine = record {
  put = put;
  get = get;
  delete = delete;
  read_key_range = read_key_range;
  batch_put = batch_put;
  flush = flush;
}
