-- ===== src/Prelude/Text.antt =====
-- Text as code points: decimal numerals, and `bytes.hex` with `bytes.fromhex`.
use Prim.Native.Nat.{ℕ, zero, suc, ◌+◌, ◌-◌, ◌*◌, ◌/◌, ◌%◌, ◌<◌}
use logvine.Prelude.Tests.{ltb, leb, nat_beq, if◌then◌else◌}
use logvine.Prelude.Bytes.{Bytes, IsBytes}
use logvine.Prelude.Result.{Result, ok, raise, ◌>>=◌, value_error}
use mathlib.Core.Path.{◌≡◌, refl}
use mathlib.Core.Bool.{Bool, false, ◌&&◌, ◌||◌}
use mathlib.Core.List.{List, [], ◌∷◌, ◌++◌}
use native.Mathlib.Omega.{arith}

abbrev pub Text : Type 0
Text = List ℕ

-- The fuel is one more than the number, which has no more digits than that.
unfoldable pub decimal_digits : ℕ → ℕ → Text
decimal_digits zero n = []
decimal_digits (suc fuel) n =
    let higher = decimal_digits fuel (n / 10) in
    if ltb n 10 then (48 + n) ∷ [] else higher ++ (48 + n % 10) ∷ []

-- str(n)
unfoldable pub decimal : ℕ → Text
decimal n = decimal_digits (suc n) n

-- A digit of `bytes.hex`.
unfoldable pub hex_digit : ℕ → ℕ
hex_digit n = if ltb n 10 then 48 + n else 87 + n

-- b.hex()
unfoldable pub hex : Bytes → Text
hex [] = []
hex (b ∷ bs) = hex_digit (b / 16) ∷ hex_digit (b % 16) ∷ hex bs

-- A digit of either case; any other character is refused.
unfoldable pub hex_value : ℕ → Result ℕ
hex_value c =
    if leb 48 c && leb c 57
    then ok (c - 48)
    else if leb 97 c && leb c 102
    then ok (c - 87)
    else if leb 65 c && leb c 70
    then ok (c - 55)
    else raise value_error

-- ASCII white space
unfoldable pub is_space : ℕ → Bool
is_space c = nat_beq c 32 || (leb 9 c && leb c 13)

-- bytes.fromhex(s): white space is skipped between bytes.
unfoldable pub fromhex : Text → Result Bytes
fromhex [] = ok []
fromhex (c ∷ []) = if is_space c then ok [] else raise value_error
fromhex (c ∷ d ∷ rest) =
    let skipped = fromhex (d ∷ rest) in
    let read : Result Bytes = do
      high ← hex_value c
      low ← hex_value d
      bytes ← fromhex rest
      ok ((high * 16 + low) ∷ bytes)
    in if is_space c then skipped else read

hex_value-hex_digit : (n : ℕ) → n < 16 → hex_value (hex_digit n) ≡ ok n
unfolding hex_value hex_digit
hex_value-hex_digit n h = ground arith

not-is_space : (n : ℕ) → n < 16 → is_space (hex_digit n) ≡ false
unfolding is_space hex_digit
not-is_space n h = ground arith

-- Reading the hexadecimal text of a byte string gives the byte string.
pub fromhex-hex : (b : Bytes) → IsBytes b → fromhex (hex b) ≡ ok b
unfolding fromhex hex
fromhex-hex [] h = refl
fromhex-hex (b ∷ bs) h = ground (
  arith,
  not-is_space (b / 16) (omega arith),
  hex_value-hex_digit (b / 16) (omega arith),
  hex_value-hex_digit (b % 16) (omega arith),
  fromhex-hex bs h.1,
)

decimal_example : decimal 1204 ≡ 49 ∷ 50 ∷ 48 ∷ 52 ∷ []
unfolding decimal decimal_digits
decimal_example = refl
