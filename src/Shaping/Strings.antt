-- ===== src/Shaping/Strings.antt =====
-- Texts as lists of Unicode scalar values, and what the standard library says of them.
use Prim.Native.Char.{code}
use Prim.Native.String.{String}
use svm_wasi_core.Base.{
  All-append, All, inr, ◌-◌, inl, ◌*◌, Bool-cases, ℕ, zero, suc, ◌+◌, ◌/◌, ◌%◌, ◌<◌, ◌≤◌, ◌≡◌, refl,
  List, [], ◌∷◌, ◌++◌, ltb, if◌then◌else◌, length, length-append, arith,
}

abbrev pub Text : Type 0
Text = List ℕ

abbrev pub codes : String → Text
codes String.[] = []
codes (String.◌∷◌ c s) = code c ∷ codes s

-- The bytes of one scalar value in UTF-8.
abbrev pub utf8_width : ℕ → ℕ
utf8_width c = if ltb c 0x80 then 1 else if ltb c 0x800 then 2 else if ltb c 0x10000 then 3 else 4

-- `s.len()`
abbrev pub byte_len : Text → ℕ
byte_len [] = 0
byte_len (c ∷ s) = utf8_width c + byte_len s

-- The decimal digits of `n`, which `{}` prints for a `usize`; `n` rounds are enough.
decimal_loop : ℕ → ℕ → Text
decimal_loop zero n = []
decimal_loop (suc fuel) n =
    let higher = decimal_loop fuel (n / 10) in
    if ltb n 10 then (48 + n) ∷ [] else higher ++ ((48 + n % 10) ∷ [])

unfoldable pub decimal : ℕ → Text
unfolding decimal_loop
decimal n = decimal_loop (suc n) n

decimal_loop_nonempty : (fuel n : ℕ) → n < fuel → 1 ≤ length (decimal_loop fuel n)
unfolding decimal_loop
decimal_loop_nonempty zero n h = absurd (omega arith)
decimal_loop_nonempty (suc fuel) n h =
    ground (arith, length-append (decimal_loop fuel (n / 10)) ((48 + n % 10) ∷ []))

pub decimal_nonempty : (n : ℕ) → 1 ≤ length (decimal n)
unfolding decimal
decimal_nonempty n = decimal_loop_nonempty (suc n) n (omega arith)

-- The number that a run of digits stands for.
abbrev pub read_decimal : ℕ → Text → ℕ
read_decimal acc [] = acc
read_decimal acc (c ∷ s) = read_decimal (acc * 10 + (c - 48)) s

read_decimal-append :
    (acc c : ℕ) (s : Text) → read_decimal acc (s ++ (c ∷ [])) ≡ read_decimal acc s * 10 + (c - 48)
read_decimal-append acc c [] = refl
read_decimal-append acc c (x ∷ s) = read_decimal-append (acc * 10 + (x - 48)) c s

read-decimal_loop : (fuel n : ℕ) → n < fuel → read_decimal 0 (decimal_loop fuel n) ≡ n
unfolding decimal_loop
read-decimal_loop zero n h = absurd (omega arith)
read-decimal_loop (suc fuel) n h = elim (Bool-cases (ltb n 10)) [
  | inl e ↦ rw e (omega arith)
  | inr e ↦
      rw (e, read_decimal-append, read-decimal_loop fuel (n / 10) (ground arith)) (omega arith)
]

-- The printed digits stand for the number.
pub read-decimal : (n : ℕ) → read_decimal 0 (decimal n) ≡ n
unfolding decimal
read-decimal n = read-decimal_loop (suc n) n (omega arith)

-- The character is one of the digits 0 to 9.
abbrev pub IsDigit : ℕ → Type 0
IsDigit c = (48 ≤ c) × (c ≤ 57)

decimal_loop-IsDigit : (fuel n : ℕ) → All IsDigit (decimal_loop fuel n)
unfolding decimal_loop
decimal_loop-IsDigit zero n = tt
decimal_loop-IsDigit (suc fuel) n = elim (Bool-cases (ltb n 10)) [
  | inl e ↦ rw e ((omega arith, ground arith), tt)
  | inr e ↦ rw e (
      All-append IsDigit (decimal_loop fuel (n / 10)) ((48 + n % 10) ∷ [])
        (decimal_loop-IsDigit fuel (n / 10)) ((omega arith, omega arith), tt))
]

-- Only digits are printed.
pub decimal-IsDigit : (n : ℕ) → All IsDigit (decimal n)
unfolding decimal
decimal-IsDigit n = decimal_loop-IsDigit (suc n) n
