-- ===== src/Base/Int.antt =====
-- Signed integers, and `i64` as the integers that fit 64 bits of two's complement.
use Prim.Native.Nat.{ℕ, suc, ◌+◌, ◌-◌, ◌^◌, ◌≤◌, ◌<◌}
use mathlib.Core.Path.{◌≡◌, ap, ◌∙◌}
use mathlib.Core.Bool.{Bool, false}
use mathlib.Core.List.{List}
use native.Mathlib.Omega.{arith}
use svm_wasi_core.Base.Tests.{ltb, leb, ◌==◌, if◌then◌else◌}
use svm_wasi_core.Base.Lists.{length}
use svm_wasi_core.Base.Bytes.{to_le_bytes, from_le_bytes, from-to_le_bytes, length-to_le_bytes}

-- `negsuc n` is -(n + 1).
pub data ℤ : Type 0 where
  pos : ℕ → ℤ
  negsuc : ℕ → ℤ

abbrev pub pos_part : ℤ → ℕ
pos_part (pos n) = n
pos_part (negsuc n) = 0

abbrev pub neg_part : ℤ → ℕ
neg_part (pos n) = 0
neg_part (negsuc n) = suc n

-- a - b, as an integer.
abbrev pub sub_ℕ : ℕ → ℕ → ℤ
sub_ℕ a b = if leb b a then pos (a - b) else negsuc (b - a - 1)

infixl 65 ◌+ℤ◌
abbrev pub ◌+ℤ◌ : ℤ → ℤ → ℤ
a +ℤ b = sub_ℕ (pos_part a + pos_part b) (neg_part a + neg_part b)

infix 50 ◌≤ℤ◌ ◌<ℤ◌
abbrev pub ◌≤ℤ◌ : ℤ → ℤ → Type 0
a ≤ℤ b = pos_part a + neg_part b ≤ pos_part b + neg_part a

abbrev pub ◌<ℤ◌ : ℤ → ℤ → Type 0
a <ℤ b = pos_part a + neg_part b < pos_part b + neg_part a

-- The tests of the source, `b >= a` and `a == 0`.
abbrev pub leb_ℤ : ℤ → ℤ → Bool
leb_ℤ a b = leb (pos_part a + neg_part b) (pos_part b + neg_part a)

abbrev pub is_zero : ℤ → Bool
is_zero (pos n) = n == 0
is_zero (negsuc n) = false

-- The range of `i64`.
abbrev pub IsI64 : ℤ → Type 0
IsI64 (pos n) = n < 2 ^ 63
IsI64 (negsuc n) = n < 2 ^ 63

abbrev pub i64_max : ℤ
i64_max = pos (2 ^ 63 - 1)

abbrev pub i64_min : ℤ
i64_min = negsuc (2 ^ 63 - 1)

-- `i as u64` and `u as i64`: the same 64 bits.
abbrev pub i64_bits : ℤ → ℕ
i64_bits (pos n) = n
i64_bits (negsuc n) = 2 ^ 64 - suc n

abbrev pub as_i64 : ℕ → ℤ
as_i64 u = if ltb u (2 ^ 63) then pos u else negsuc (2 ^ 64 - suc u)

-- `a.saturating_add(b)` on `i64`.
abbrev pub saturating_add : ℤ → ℤ → ℤ
saturating_add a b =
    if leb_ℤ i64_max (a +ℤ b) then i64_max else if leb_ℤ (a +ℤ b) i64_min then i64_min else a +ℤ b

-- `i.to_le_bytes()` and `i64::from_le_bytes`.
unfoldable pub i64_to_le_bytes : ℤ → List ℕ
i64_to_le_bytes i = to_le_bytes 8 (i64_bits i)

unfoldable pub i64_from_le_bytes : List ℕ → ℤ
i64_from_le_bytes bs = as_i64 (from_le_bytes bs)

pub as_i64-i64_bits : (i : ℤ) → IsI64 i → as_i64 (i64_bits i) ≡ i
as_i64-i64_bits (pos n) h = ground arith
as_i64-i64_bits (negsuc n) h = ground arith

pub i64_bits-as_i64 : (u : ℕ) → u < 2 ^ 64 → i64_bits (as_i64 u) ≡ u
i64_bits-as_i64 u h = ground arith

i64_bits_bound : (i : ℤ) → IsI64 i → i64_bits i < 2 ^ 64
i64_bits_bound (pos n) h = omega arith
i64_bits_bound (negsuc n) h = omega arith

pub as_i64-IsI64 : (u : ℕ) → u < 2 ^ 64 → IsI64 (as_i64 u)
as_i64-IsI64 u h = ground arith

pub i64_from-to_le_bytes : (i : ℤ) → IsI64 i → i64_from_le_bytes (i64_to_le_bytes i) ≡ i
unfolding i64_to_le_bytes i64_from_le_bytes
i64_from-to_le_bytes i h =
    ap as_i64 (from-to_le_bytes 8 (i64_bits i) (i64_bits_bound i h)) ∙ as_i64-i64_bits i h

pub length-i64_to_le_bytes : (i : ℤ) → length (i64_to_le_bytes i) ≡ 8
unfolding i64_to_le_bytes
length-i64_to_le_bytes i = length-to_le_bytes 8 (i64_bits i)
