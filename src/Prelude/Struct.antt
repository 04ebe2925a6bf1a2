-- ===== src/Prelude/Struct.antt =====
-- `struct.pack` and `struct.unpack` at the big-endian formats ">I" and ">Q".
use Prim.Native.Nat.{ℕ, zero, suc, ◌+◌, ◌*◌, ◌/◌, ◌%◌, ◌^◌, ◌≤◌, ◌<◌}
use logvine.Prelude.Tests.{ltb, nat_beq, if◌then◌else◌, ltb→lt, lt→ltb, le→ltb_false, Bool-cases}
use mathlib.Core.Logic.{inl, inr}
use logvine.Prelude.Lists.{length, length-append}
use logvine.Prelude.Bytes.{Bytes}
use logvine.Prelude.Result.{Result, ok, raise, struct_error}
use mathlib.Core.Path.{◌≡◌, refl}
use mathlib.Core.List.{[], ◌∷◌, ◌++◌}
use native.Mathlib.Omega.{arith}
use native.Mathlib.Nat.{pow-suc}

-- The `w` lowest bytes of a number, the highest first.
unfoldable pub be_bytes : ℕ → ℕ → Bytes
be_bytes zero n = []
be_bytes (suc w) n = be_bytes w (n / 256) ++ (n % 256) ∷ []

unfoldable pub be_value : ℕ → Bytes → ℕ
be_value acc [] = acc
be_value acc (b ∷ bs) = be_value (acc * 256 + b) bs

be_value-append :
    (acc : ℕ) (xs : Bytes) (b : ℕ) → be_value acc (xs ++ b ∷ []) ≡ be_value acc xs * 256 + b
unfolding be_value
be_value-append acc [] b = refl
be_value-append acc (x ∷ xs) b = be_value-append (acc * 256 + x) xs b

length-be_bytes : (w n : ℕ) → length (be_bytes w n) ≡ w
unfolding be_bytes
length-be_bytes zero n = refl
length-be_bytes (suc w) n =
    omega
      (arith, length-append (be_bytes w (n / 256)) ((n % 256) ∷ []), length-be_bytes w (n / 256))

be_value-be_bytes : (w n : ℕ) → n < 256 ^ w → be_value 0 (be_bytes w n) ≡ n
unfolding be_bytes be_value
be_value-be_bytes zero n h = omega arith
be_value-be_bytes (suc w) n h =
    rw (be_value-append 0 (be_bytes w (n / 256)) (n % 256))
      (omega (arith, be_value-be_bytes w (n / 256) (omega (arith, pow-suc 256 w))))

-- struct.pack at a width of `w` bytes (4 for ">I", 8 for ">Q"): a number that does not fit is
-- refused.
unfoldable pub pack : ℕ → ℕ → Result Bytes
pack w n = if ltb n (256 ^ w) then ok (be_bytes w n) else raise struct_error

-- struct.unpack(…, bs)[0]: any other number of bytes is refused.
unfoldable pub unpack : ℕ → Bytes → Result ℕ
unpack w bs = if nat_beq (length bs) w then ok (be_value 0 bs) else raise struct_error

-- A successful pack gives `w` bytes, which unpack to the number.
pub pack_lem :
    (w n : ℕ) (bs : Bytes)
    → pack w n ≡ ok bs
    → (length bs ≡ w) × (unpack w bs ≡ ok n) × (n < 256 ^ w)
unfolding pack unpack
pack_lem w n bs h = elim (Bool-cases (ltb n (256 ^ w))) [
  | inl fits ↦
      let same : be_bytes w n ≡ bs = ground arith in
      rw (← same) (
        length-be_bytes w n,
        ground (arith, length-be_bytes w n, be_value-be_bytes w n (ltb→lt n (256 ^ w) fits)),
        ltb→lt n (256 ^ w) fits,
      )
  | inr no_room ↦ absurd (ground arith)
]

pub pack_total : (w n : ℕ) → n < 256 ^ w → pack w n ≡ ok (be_bytes w n)
unfolding pack
pack_total w n h = rw (lt→ltb n (256 ^ w) h)

pub pack_too_large : (w n : ℕ) → 256 ^ w ≤ n → pack w n ≡ raise struct_error
unfolding pack
pack_too_large w n h = rw (le→ltb_false n (256 ^ w) h)

pub unpack_short : (w : ℕ) (bs : Bytes) → length bs < w → unpack w bs ≡ raise struct_error
unfolding unpack
unpack_short w bs h = ground arith
