-- ===== src/StorageEngine.antt =====
-- The abstract class of src/storage/engine.py: what the requests use of an engine.
pub mod Dictionary
use logvine.Prelude.{ℕ, List}
use logvine.Prelude.Bytes.{Bytes}
use logvine.Prelude.Result.{Result}

-- The methods of an engine that keeps its state in `S`. A call that raises may change the state too.
-- A flush is given the two readings of the clock that it makes.
pub record StorageEngine {ℓ} (S : Type ℓ) : Type ℓ where
  pub put : (key value : Bytes) → S → Result (Unit {0}) × S
  pub get : (key : Bytes) → S → Result Bytes
  pub delete : (key : Bytes) → S → Result (Unit {0}) × S
  pub read_key_range : (start_key end_key : Bytes) → S → Result (List (Bytes × Bytes))
  pub batch_put : (keys values : List Bytes) → S → Result (Unit {0}) × S
  pub flush : (now created : ℕ) → S → S
