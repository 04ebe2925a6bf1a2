-- ===== src/Prelude/Utf8/RoundTrip.antt =====
-- `str.encode` and `bytes.decode`: decoding what was encoded.
use Prim.Native.Nat.{ℕ, ◌+◌, ◌*◌, ◌/◌, ◌%◌, ◌-◌, ◌<◌, ◌≤◌}
use logvine.Prelude.Tests.{nat_beq, if◌then◌else◌}
use logvine.Prelude.Bytes.{Bytes, IsBytes}
use logvine.Prelude.Text.{Text}
use logvine.Prelude.Result.{ok, >>=-ok}
use logvine.Prelude.Utf8.{
  encode_char, encode, Pending, ready, needs, first_of, byte_step, characters, strict, decode,
  replaced, decode_replace,
}
use mathlib.Core.Path.{◌≡◌, refl, ap, ◌∙◌}
use mathlib.Core.Logic.{◌⊎◌, inl, inr}
use mathlib.Core.Option.{Option, none, some}
use mathlib.Core.List.{List, [], ◌∷◌, ◌++◌}
use native.Mathlib.Omega.{arith}

-- A byte within its bounds, the last of its character or not.
last_byte :
    (low high value b : ℕ)
    → low ≤ b
    → b ≤ high
    → byte_step (needs 1 low high value) b ≡ (some (value * 64 + (b - 0x80)) ∷ [], ready)
unfolding byte_step
last_byte low high value b h h' = ground arith

middle_byte :
    (count low high value b : ℕ)
    → 1 < count
    → low ≤ b
    → b ≤ high
    → byte_step (needs count low high value) b
      ≡ ([], needs (count - 1) 0x80 0xBF (value * 64 + (b - 0x80)))
unfolding byte_step
middle_byte count low high value b more h h' = ground arith

first_two : (q : ℕ) → 2 ≤ q → q < 32 → first_of (0xC0 + q) ≡ ([], needs 1 0x80 0xBF q)
unfolding first_of
first_two q h h' = ground arith

abbrev low_three : ℕ → ℕ
low_three q = if nat_beq q 0 then 0xA0 else 0x80

abbrev high_three : ℕ → ℕ
high_three q = if nat_beq q 13 then 0x9F else 0xBF

first_three : (q : ℕ) → q < 16 → first_of (0xE0 + q) ≡ ([], needs 2 (low_three q) (high_three q) q)
unfolding first_of
first_three q h = ground arith

abbrev low_four : ℕ → ℕ
low_four q = if nat_beq q 0 then 0x90 else 0x80

abbrev high_four : ℕ → ℕ
high_four q = if nat_beq q 4 then 0x8F else 0xBF

first_four : (q : ℕ) → q < 5 → first_of (0xF0 + q) ≡ ([], needs 3 (low_four q) (high_four q) q)
unfolding first_of
first_four q h = ground arith

emit :
    (p p' : Pending) (b : ℕ) (bs : Bytes) (out : List (Option ℕ))
    → byte_step p b ≡ (out, p')
    → characters p (b ∷ bs) ≡ out ++ characters p' bs
unfolding characters
emit ready p' b bs out h = rw h refl
emit (needs count low high value) p' b bs out h = rw h refl

emit_first :
    (p' : Pending) (b : ℕ) (bs : Bytes)
    → first_of b ≡ ([], p')
    → characters ready (b ∷ bs) ≡ characters p' bs
unfolding byte_step
emit_first p' b bs h = emit ready p' b bs [] h

emit_middle :
    (count low high value r : ℕ) (bs : Bytes)
    → 1 < count
    → low ≤ 0x80 + r
    → 0x80 + r ≤ high
    → characters (needs count low high value) ((0x80 + r) ∷ bs)
      ≡ characters (needs (count - 1) 0x80 0xBF (value * 64 + r)) bs
emit_middle count low high value r bs more h h' =
    let v : value * 64 + (0x80 + r - 0x80) ≡ value * 64 + r = omega arith in
    emit _ _ (0x80 + r) bs [] (middle_byte count low high value (0x80 + r) more h h')
    ∙ ap (λ (k : ℕ). characters (needs (count - 1) 0x80 0xBF k) bs) v

emit_last :
    (low high value r : ℕ) (bs : Bytes)
    → low ≤ 0x80 + r
    → 0x80 + r ≤ high
    → characters (needs 1 low high value) ((0x80 + r) ∷ bs)
      ≡ some (value * 64 + r) ∷ characters ready bs
emit_last low high value r bs h h' =
    let v : value * 64 + (0x80 + r - 0x80) ≡ value * 64 + r = omega arith in
    emit _ _ (0x80 + r) bs _ (last_byte low high value (0x80 + r) h h')
    ∙ ap (λ (k : ℕ). some k ∷ characters ready bs) v

one : (c : ℕ) (bs : Bytes) → c < 0x80 → characters ready (c ∷ bs) ≡ some c ∷ characters ready bs
unfolding first_of byte_step
one c bs h = emit ready ready c bs (some c ∷ []) (ground arith)

two :
    (q r : ℕ) (bs : Bytes)
    → 2 ≤ q
    → q < 32
    → r < 64
    → characters ready ((0xC0 + q) ∷ (0x80 + r) ∷ bs) ≡ some (q * 64 + r) ∷ characters ready bs
two q r bs h h' hr =
    emit_first _ (0xC0 + q) _ (first_two q h h')
    ∙ emit_last 0x80 0xBF q r bs (omega arith) (omega arith)

three :
    (q r s : ℕ) (bs : Bytes)
    → q < 16
    → low_three q ≤ 0x80 + r
    → 0x80 + r ≤ high_three q
    → s < 64
    → characters ready ((0xE0 + q) ∷ (0x80 + r) ∷ (0x80 + s) ∷ bs)
      ≡ some ((q * 64 + r) * 64 + s) ∷ characters ready bs
three q r s bs h low high hs =
    emit_first _ (0xE0 + q) _ (first_three q h)
    ∙ emit_middle 2 (low_three q) (high_three q) q r _ (omega arith) low high
    ∙ emit_last 0x80 0xBF (q * 64 + r) s bs (omega arith) (omega arith)

four :
    (q r s t : ℕ) (bs : Bytes)
    → q < 5
    → low_four q ≤ 0x80 + r
    → 0x80 + r ≤ high_four q
    → s < 64
    → t < 64
    → characters ready ((0xF0 + q) ∷ (0x80 + r) ∷ (0x80 + s) ∷ (0x80 + t) ∷ bs)
      ≡ some (((q * 64 + r) * 64 + s) * 64 + t) ∷ characters ready bs
four q r s t bs h low high hs ht =
    emit_first _ (0xF0 + q) _ (first_four q h)
    ∙ emit_middle 3 (low_four q) (high_four q) q r _ (omega arith) low high
    ∙ emit_middle 2 0x80 0xBF (q * 64 + r) s _ (omega arith) (omega arith) (omega arith)
    ∙ emit_last 0x80 0xBF ((q * 64 + r) * 64 + s) t bs (omega arith) (omega arith)

-- What `encode` gives for a character, by its range.
encode_char-cases :
    (c : ℕ) (bytes : Bytes)
    → encode_char c ≡ ok bytes
    → ((c < 0x80) × (bytes ≡ c ∷ []))
      ⊎ (((0x80 ≤ c) × (c < 0x800) × (bytes ≡ (0xC0 + c / 64) ∷ (0x80 + c % 64) ∷ []))
          ⊎ (((0x800 ≤ c)
                × (c < 0x10000)
                × ((c < 0xD800) ⊎ (0xE000 ≤ c))
                × (bytes ≡ (0xE0 + c / 4096) ∷ (0x80 + c / 64 % 64) ∷ (0x80 + c % 64) ∷ []))
              ⊎ ((0x10000 ≤ c)
                  × (c < 0x110000)
                  × (bytes
                      ≡ (0xF0 + c / 262144)
                        ∷ (0x80 + c / 4096 % 64)
                        ∷ (0x80 + c / 64 % 64)
                        ∷ (0x80 + c % 64)
                        ∷ []))))
unfolding encode_char
encode_char-cases c bytes h = ground arith

encode_char_lem :
    (c : ℕ) (bytes bs : Bytes)
    → encode_char c ≡ ok bytes
    → characters ready (bytes ++ bs) ≡ some c ∷ characters ready bs
encode_char_lem c bytes bs h = elim (encode_char-cases c bytes h) [
  | inl (small, q) ↦ rw q (one c bs small)
  | inr (inl (low, high, q)) ↦
      let v : c / 64 * 64 + c % 64 ≡ c = omega arith in
      rw q (
        two (c / 64) (c % 64) bs (omega arith) (omega arith) (omega arith)
        ∙ ap (λ (k : ℕ). some k ∷ characters ready bs) v)
  | inr (inr (inl (low, high, no_surrogate, q))) ↦
      let v : (c / 4096 * 64 + c / 64 % 64) * 64 + c % 64 ≡ c = omega arith in
      rw q (
        three (c / 4096) (c / 64 % 64) (c % 64) bs (omega arith) (ground arith) (ground arith)
          (omega arith)
        ∙ ap (λ (k : ℕ). some k ∷ characters ready bs) v)
  | inr (inr (inr (low, valid, q))) ↦
      let v : ((c / 262144 * 64 + c / 4096 % 64) * 64 + c / 64 % 64) * 64 + c % 64 ≡ c =
        omega arith in
      rw q (
        four (c / 262144) (c / 4096 % 64) (c / 64 % 64) (c % 64) bs (omega arith) (ground arith)
          (ground arith) (omega arith) (omega arith)
        ∙ ap (λ (k : ℕ). some k ∷ characters ready bs) v)
]

-- Decoding what a text was encoded to gives the text.
pub decode-encode : (text : Text) (bytes : Bytes) → encode text ≡ ok bytes → decode bytes ≡ ok text
unfolding encode decode characters strict
decode-encode [] bytes h = let none_left : bytes ≡ [] = ground arith in rw none_left refl
decode-encode (c ∷ cs) bytes h =
    let (first, made, h1) = >>=-ok (encode_char c) _ h in
    let (rest, rest_made, h2) = >>=-ok (encode cs) _ h1 in
    let bytes_are : bytes ≡ first ++ rest = ground arith in
    rw (bytes_are, encode_char_lem c first rest made, decode-encode cs rest rest_made) refl

append-IsBytes : (a b : Bytes) → IsBytes a → IsBytes b → IsBytes (a ++ b)
append-IsBytes [] b h k = k
append-IsBytes (x ∷ a) b h k = (h.0, append-IsBytes a b h.1 k)

encode_char-IsBytes : (c : ℕ) (bytes : Bytes) → encode_char c ≡ ok bytes → IsBytes bytes
encode_char-IsBytes c bytes h = elim (encode_char-cases c bytes h) [
  | inl (low, q) ↦ rw q (omega arith, tt)
  | inr (inl (low, high, q)) ↦ rw q (omega arith, (omega arith, tt))
  | inr (inr (inl (low, high, no_surrogate, q))) ↦
      rw q (omega arith, (omega arith, (omega arith, tt)))
  | inr (inr (inr (low, valid, q))) ↦
      rw q (omega arith, (omega arith, (omega arith, (omega arith, tt))))
]

pub encode-IsBytes : (text : Text) (bytes : Bytes) → encode text ≡ ok bytes → IsBytes bytes
unfolding encode
encode-IsBytes [] bytes h = let none_left : bytes ≡ [] = ground arith in rw none_left tt
encode-IsBytes (c ∷ cs) bytes h =
    let (first, made, h1) = >>=-ok (encode_char c) _ h in
    let (rest, rest_made, h2) = >>=-ok (encode cs) _ h1 in
    let bytes_are : bytes ≡ first ++ rest = ground arith in
    rw bytes_are (
      append-IsBytes first rest (encode_char-IsBytes c first made)
        (encode-IsBytes cs rest rest_made))

-- A text that is not empty has bytes.
pub encode-nonempty :
    (c : ℕ) (cs : Text) (bytes : Bytes)
    → encode (c ∷ cs) ≡ ok bytes
    → (b : ℕ) × (bs : Bytes) × (bytes ≡ b ∷ bs)
unfolding encode
encode-nonempty c cs bytes h =
    let (first, made, h1) = >>=-ok (encode_char c) _ h in
    let (rest, rest_made, h2) = >>=-ok (encode cs) _ h1 in
    let bytes_are : bytes ≡ first ++ rest = ground arith in
    elim (encode_char-cases c first made) [
      | inl (low, q) ↦ (_, _, bytes_are ∙ ap (λ (f : Bytes). f ++ rest) q)
      | inr (inl (low, high, q)) ↦ (_, _, bytes_are ∙ ap (λ (f : Bytes). f ++ rest) q)
      | inr (inr (inl (low, high, no_surrogate, q))) ↦
          (_, _, bytes_are ∙ ap (λ (f : Bytes). f ++ rest) q)
      | inr (inr (inr (low, valid, q))) ↦ (_, _, bytes_are ∙ ap (λ (f : Bytes). f ++ rest) q)
    ]

replaced-strict : (cs : List (Option ℕ)) (text : Text) → strict cs ≡ ok text → replaced cs ≡ text
unfolding strict replaced
replaced-strict [] text h = ground arith
replaced-strict (none ∷ cs) text h = absurd (ground arith)
replaced-strict (some c ∷ cs) text h =
    let (rest, strict_rest, h1) = >>=-ok (strict cs) _ h in
    let text_is : text ≡ c ∷ rest = ground arith in
    rw (text_is, replaced-strict cs rest strict_rest) refl

-- Where a decoding succeeds, replacing errors gives the same text.
pub decode_replace-decode :
    (bytes : Bytes) (text : Text) → decode bytes ≡ ok text → decode_replace bytes ≡ text
unfolding decode decode_replace
decode_replace-decode bytes text h = replaced-strict (characters ready bytes) text h
