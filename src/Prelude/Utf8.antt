-- ===== src/Prelude/Utf8.antt =====
-- `str.encode` and `bytes.decode` at UTF-8, strict and with errors="replace".
pub mod RoundTrip
use Prim.Native.Nat.{ℕ, ◌+◌, ◌-◌, ◌*◌, ◌/◌, ◌%◌}
use logvine.Prelude.Tests.{ltb, leb, nat_beq, if◌then◌else◌}
use logvine.Prelude.Bytes.{Bytes}
use logvine.Prelude.Text.{Text}
use logvine.Prelude.Result.{Result, ok, raise, ◌>>=◌, value_error}
use mathlib.Core.Path.{◌≡◌, refl}
use mathlib.Core.Bool.{◌&&◌}
use mathlib.Core.Option.{Option, none, some}
use mathlib.Core.List.{List, [], ◌∷◌, ◌++◌}

-- A surrogate is refused with UnicodeEncodeError, which is a ValueError; from 0x110000 on no number is
-- a character.
unfoldable pub encode_char : ℕ → Result Bytes
encode_char c =
    if ltb c 0x80
    then ok (c ∷ [])
    else if ltb c 0x800
    then ok ((0xC0 + c / 64) ∷ (0x80 + c % 64) ∷ [])
    else if leb 0xD800 c && ltb c 0xE000
    then raise value_error
    else if ltb c 0x10000
    then ok ((0xE0 + c / 4096) ∷ (0x80 + c / 64 % 64) ∷ (0x80 + c % 64) ∷ [])
    else if ltb c 0x110000
    then ok
        ((0xF0 + c / 262144) ∷ (0x80 + c / 4096 % 64) ∷ (0x80 + c / 64 % 64) ∷ (0x80 + c % 64) ∷ [])
    else raise value_error

-- s.encode("utf-8")
unfoldable pub encode : Text → Result Bytes
encode [] = ok []
encode (c ∷ cs) = do bytes ← encode_char c; rest ← encode cs; ok (bytes ++ rest)

-- The bytes still needed for a character, the bounds of the next one, and the value so far.
pub data Pending : Type 0 where
  ready : Pending
  needs : (count low high value : ℕ) → Pending

-- What the first byte of a character gives: `none` stands for an error.
unfoldable pub first_of : ℕ → List (Option ℕ) × Pending
first_of b =
    if ltb b 0x80
    then (some b ∷ [], ready)
    else if leb 0xC2 b && leb b 0xDF
    then ([], needs 1 0x80 0xBF (b - 0xC0))
    else if nat_beq b 0xE0
    then ([], needs 2 0xA0 0xBF 0)
    else if nat_beq b 0xED
    then ([], needs 2 0x80 0x9F 0x0D)
    else if leb 0xE1 b && leb b 0xEF
    then ([], needs 2 0x80 0xBF (b - 0xE0))
    else if nat_beq b 0xF0
    then ([], needs 3 0x90 0xBF 0)
    else if leb 0xF1 b && leb b 0xF3
    then ([], needs 3 0x80 0xBF (b - 0xF0))
    else if nat_beq b 0xF4
    then ([], needs 3 0x80 0x8F 4)
    else (none ∷ [], ready)

-- A byte out of bounds ends the character with an error, and starts the next one.
unfoldable pub byte_step : Pending → ℕ → List (Option ℕ) × Pending
byte_step ready b = first_of b
byte_step (needs count low high value) b =
    let next = value * 64 + (b - 0x80) in
    let (more, pending) = first_of b in
    if leb low b && leb b high
    then if leb count 1 then (some next ∷ [], ready) else ([], needs (count - 1) 0x80 0xBF next)
    else (none ∷ more, pending)

unfoldable pub characters : Pending → Bytes → List (Option ℕ)
characters ready [] = []
characters (needs count low high value) [] = none ∷ []
characters pending (b ∷ bs) =
    let (out, pending') = byte_step pending b in out ++ characters pending' bs

unfoldable pub strict : List (Option ℕ) → Result Text
strict [] = ok []
strict (none ∷ cs) = raise value_error
strict (some c ∷ cs) = do text ← strict cs; ok (c ∷ text)

unfoldable pub replaced : List (Option ℕ) → Text
replaced [] = []
replaced (none ∷ cs) = 0xFFFD ∷ replaced cs
replaced (some c ∷ cs) = c ∷ replaced cs

-- b.decode(): an error is a UnicodeDecodeError, which is a ValueError.
unfoldable pub decode : Bytes → Result Text
decode bytes = strict (characters ready bytes)

-- b.decode("utf-8", errors="replace")
unfoldable pub decode_replace : Bytes → Text
decode_replace bytes = replaced (characters ready bytes)

decode_replace_example :
    decode_replace (0x41 ∷ 0xE2 ∷ 0x82 ∷ 0xAC ∷ 0xE2 ∷ 0x82 ∷ 0x42 ∷ 0xFF ∷ [])
    ≡ 0x41 ∷ 0x20AC ∷ 0xFFFD ∷ 0x42 ∷ 0xFFFD ∷ []
unfolding decode_replace replaced characters byte_step first_of
decode_replace_example = refl
