-- ===== src/Tests/Losses.antt =====
-- Runs that lose a value, outside the conditions of the theorems or by what they name.
use logvine.Prelude.{◌≡◌, refl, none, some, [], ◌∷◌}
use logvine.Prelude.Result.{ok, raise, key_error}
use logvine.MemTable.{tombstone}
use logvine.SsTableManager
use logvine.Compaction
use logvine.Compaction.{State}
use logvine.Engine
use logvine.Engine.{Engine}
use logvine.Engine.System.{shared}
use logvine.Engine.Refines.{empty_engine}
use logvine.Tests.{program, a, b}

abbrev begun : Engine
begun = empty_engine (47 ∷ []) 1

-- A put of the tombstone's bytes reports success, and the key is not found.
tombstone_put :
    ((Engine.put a tombstone begun).0 ≡ ok tt)
    × (Engine.get a (Engine.put a tombstone begun).1 ≡ raise key_error)
unfolding program
tombstone_put = (refl, refl)

abbrev first_flushed : Engine
first_flushed = Engine.flush 1000 1001 (Engine.put a a begun).1

-- A second flush in the same millisecond.
abbrev again_flushed : Engine
again_flushed = Engine.flush 1000 1001 (Engine.put b b first_flushed).1

-- It writes its table at the path of the first one's, whose key is lost.
same_path :
    (Engine.get a first_flushed ≡ ok a)
    × (Engine.get a again_flushed ≡ raise key_error)
    × (Engine.get b again_flushed ≡ ok b)
unfolding program
same_path = (refl, refl, refl)

abbrev compacted : State
compacted = Compaction.compact (47 ∷ []) 2000 2001 (shared first_flushed)

-- A reader that has the manifest from before a compaction, and opens the tables after it, finds them
-- gone and takes a key for absent that a reader of the new manifest finds.
old_snapshot :
    (SsTableManager.get a compacted.files compacted.manifest ≡ ok (some a))
    × (SsTableManager.get a compacted.files first_flushed.manifest ≡ ok none)
unfolding program
old_snapshot = (refl, refl)
