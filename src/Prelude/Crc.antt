-- ===== src/Prelude/Crc.antt =====
-- `zlib.crc32`: the reflected CRC-32 with polynomial 0xEDB88320, bit by bit.
use Prim.Native.Nat.{ℕ, zero, suc, ◌/◌, ◌%◌, ◌^◌, ◌<◌, bit_xor}
use logvine.Prelude.Tests.{nat_beq, if◌then◌else◌}
use logvine.Prelude.Bytes.{Bytes}
use mathlib.Core.Path.{◌≡◌, refl}
use mathlib.Core.List.{[], ◌∷◌}
use native.Mathlib.Omega.{arith}

crc_bits : ℕ → ℕ → ℕ
crc_bits zero c = c
crc_bits (suc n) c = crc_bits n (if nat_beq (c % 2) 1 then bit_xor (c / 2) 0xEDB88320 else c / 2)

crc_loop : ℕ → Bytes → ℕ
unfolding crc_bits
crc_loop c [] = c
crc_loop c (b ∷ bs) = crc_loop (crc_bits 8 (bit_xor c b)) bs

unfoldable pub crc32 : Bytes → ℕ
unfolding crc_loop
crc32 bs = bit_xor (crc_loop 0xffffffff bs) 0xffffffff % 2 ^ 32

pub crc32-lt : (bs : Bytes) → crc32 bs < 2 ^ 32
unfolding crc32
crc32-lt bs = omega arith

-- The check value of the algorithm: the checksum of b"123456789".
crc32_check : crc32 (49 ∷ 50 ∷ 51 ∷ 52 ∷ 53 ∷ 54 ∷ 55 ∷ 56 ∷ 57 ∷ []) ≡ 0xCBF43926
unfolding crc32
crc32_check = refl
