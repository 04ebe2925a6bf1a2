-- ===== src/Config.antt =====
-- src/config.py: the settings, from the variables of the environment.
use logvine.Prelude.{
  ℕ, zero, suc, ◌+◌, ◌-◌, ◌*◌, ◌<◌, ◌≤◌, ◌≡◌, refl, sym, ap, ◌∙◌, Bool, true, false, ◌&&◌, Option,
  none, some, [], ◌∷◌, ◌++◌, arith, leb, ltb, nat_beq, append_assoc, append-nil, if◌then◌else◌, ◌/◌,
  ◌%◌, Bool-cases, inl, inr,
}
use logvine.Prelude.Text.{Text, decimal, decimal_digits, is_space}

pub record Settings : Type 0 where
  pub memtable_max_size : ℕ
  pub controller_max_workers : ℕ

-- The defaults.
abbrev pub default_settings : Settings
default_settings = record { memtable_max_size = 32000000; controller_max_workers = 16 }

abbrev all_spaces : Text → Bool
all_spaces [] = true
all_spaces (c ∷ cs) = is_space c && all_spaces cs

-- The digits of a number from the left, with `n` for those read so far; `ended` says whether the
-- last character was one. A single `_` may stand between two digits.
unfoldable pub read_digits : ℕ → Bool → Text → Option ℕ
read_digits n ended [] = if ended then some n else none
read_digits n ended (c ∷ cs) =
    let more = read_digits (n * 10 + (c - 48)) true cs in
    let joined = read_digits n false cs in
    if leb 48 c && leb c 57
    then more
    else if ended && nat_beq c 95
    then joined
    else if ended && all_spaces (c ∷ cs)
    then some n
    else none

-- A number that is not positive is as good as none here.
abbrev negated : Option ℕ → Option ℕ
negated none = none
negated (some n) = some 0

unfoldable pub read_signed : Text → Option ℕ
read_signed [] = none
read_signed (c ∷ cs) =
    if nat_beq c 45
    then negated (read_digits 0 false cs)
    else if nat_beq c 43
    then read_digits 0 false cs
    else read_digits 0 false (c ∷ cs)

-- int(raw) of a text of ASCII characters, with 0 for a negative number; `none` is a ValueError.
unfoldable pub int : Text → Option ℕ
int [] = none
int (c ∷ cs) = let rest = int cs in if is_space c then rest else read_signed (c ∷ cs)

abbrev positive_or : ℕ → Option ℕ → ℕ
positive_or default none = default
positive_or default (some zero) = default
positive_or default (some (suc parsed)) = suc parsed

-- One setting: its default where the variable is not set, is no integer or is not positive.
unfoldable pub setting : ℕ → Option Text → ℕ
setting default none = default
setting default (some raw) = positive_or default (int raw)

-- On what `os.getenv` answers for LOGVINE_MEMTABLE_MAX_SIZE and LOGVINE_MAX_WORKERS.
unfoldable pub load_settings : Option Text → Option Text → Settings
load_settings raw_max_size raw_max_workers = record {
  memtable_max_size = setting default_settings.memtable_max_size raw_max_size;
  controller_max_workers = setting default_settings.controller_max_workers raw_max_workers;
}

read_digits-one :
    (n d v : ℕ) (ended : Bool) (rest : Text)
    → d < 10
    → n * 10 + d ≡ v
    → read_digits n ended ((48 + d) ∷ rest) ≡ read_digits v true rest
unfolding read_digits
read_digits-one n d v ended rest h is =
    let value : n * 10 + ((48 + d) - 48) ≡ v = omega arith in ground (arith, value)

-- The digits of a number are read back.
read_digits-decimal_digits :
    (fuel n : ℕ) (ended : Bool) (rest : Text)
    → n < fuel
    → read_digits 0 ended (decimal_digits fuel n ++ rest) ≡ read_digits n true rest
unfolding decimal_digits
read_digits-decimal_digits zero n ended rest h = absurd (omega arith)
read_digits-decimal_digits (suc fuel) n ended rest h = elim (Bool-cases (ltb n 10)) [
  | inl one ↦ rw one (read_digits-one 0 n n ended rest (ground arith) (omega arith))
  | inr more ↦
      let large : 10 ≤ n = ground arith in
      rw more (
        ap (read_digits 0 ended)
          (append_assoc (decimal_digits fuel (n / 10)) ((48 + n % 10) ∷ []) rest)
        ∙ read_digits-decimal_digits fuel (n / 10) ended ((48 + n % 10) ∷ rest) (omega arith)
        ∙ read_digits-one (n / 10) (n % 10) n true rest (omega arith) (omega arith))
]

-- A text that begins with a digit.
record Begins (text : Text) : Type 0 where
  first : ℕ
  later : Text
  text_is : text ≡ first ∷ later
  is_digit : (leb 48 first && leb first 57) ≡ true

decimal_digits-Begins : (fuel n : ℕ) → n < fuel → Begins (decimal_digits fuel n)
unfolding decimal_digits
decimal_digits-Begins zero n h = absurd (omega arith)
decimal_digits-Begins (suc fuel) n h = elim (Bool-cases (ltb n 10)) [
  | inl one ↦
      rw one (record { first = 48 + n; later = []; text_is = refl; is_digit = ground arith })
  | inr more ↦
      let b = decimal_digits-Begins fuel (n / 10) (ground arith) in
      rw more (record {
        first = b.first;
        later = b.later ++ (48 + n % 10) ∷ [];
        text_is = ap (λ (t : Text). t ++ (48 + n % 10) ∷ []) b.text_is;
        is_digit = b.is_digit;
      })
]

int-digit :
    (c : ℕ) (cs : Text)
    → (leb 48 c && leb c 57) ≡ true
    → int (c ∷ cs) ≡ read_digits 0 false (c ∷ cs)
unfolding int read_signed is_space
int-digit c cs h = ground (arith, h)

pub int-decimal : (n : ℕ) → int (decimal n) ≡ some n
unfolding decimal
int-decimal n =
    let text = decimal_digits (suc n) n in
    let b = decimal_digits-Begins (suc n) n (omega arith) in
    ap int b.text_is
    ∙ int-digit b.first b.later b.is_digit
    ∙ ap (read_digits 0 false) (sym b.text_is ∙ sym (append-nil text))
    ∙ read_digits-decimal_digits (suc n) n false [] (omega arith)
    ∙ unfold read_digits in refl

setting-decimal : (default n : ℕ) → 0 < n → setting default (some (decimal n)) ≡ n
unfolding setting
setting-decimal default zero h = absurd (omega arith)
setting-decimal default (suc n) h = rw (int-decimal (suc n)) refl

-- Variables that hold the decimal numerals of two positive numbers set the settings to these.
pub load_settings-decimal :
    (max_size max_workers : ℕ)
    → 0 < max_size
    → 0 < max_workers
    → load_settings (some (decimal max_size)) (some (decimal max_workers))
      ≡ record { memtable_max_size = max_size; controller_max_workers = max_workers }
unfolding load_settings
load_settings-decimal max_size max_workers h g =
    rw (setting-decimal 32000000 max_size h, setting-decimal 16 max_workers g) refl
