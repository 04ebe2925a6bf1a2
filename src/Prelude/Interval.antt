-- ===== src/Prelude/Interval.antt =====
-- The keys from a start key to before an end key.
use logvine.Prelude.Bytes.{Bytes, bytes_eq, bytes_lt, bytes_le, bytes_lt_irrefl}
use logvine.Prelude.Order.{contains, All-contains, bytes_le_trans}
use logvine.Prelude.Lists.{All}
use mathlib.Core.Path.{◌≡◌}
use mathlib.Core.Bool.{Bool, true, false, ◌&&◌}
use mathlib.Core.List.{List, ◌∷◌}

-- start_key <= key < end_key
abbrev pub in_range : Bytes → Bytes → Bytes → Bool
in_range start_key end_key key = bytes_le start_key key && bytes_lt key end_key

-- Past the end of the range no later key is in it.
pub past_end :
    (end_key k : Bytes) (ks : List Bytes) (j : Bytes)
    → bytes_lt k end_key ≡ false
    → All (λ y. bytes_lt y k ≡ false) ks
    → contains j (k ∷ ks) ≡ true
    → bytes_lt j end_key ≡ false
past_end end_key k ks j e s c =
    bytes_le_trans end_key k j e
      (All-contains (λ y. bytes_lt y k ≡ false) j (k ∷ ks) (bytes_lt_irrefl k, s) c)
