-- ===== src/Base/Cuts.antt =====
-- Cutting a byte string into the fields that a reader takes from it.
use Prim.Native.Nat.{ℕ, zero, suc, ◌+◌, ◌-◌, ◌^◌, ◌≤◌, ◌<◌}
use mathlib.Core.Path.{◌≡◌, refl}
use mathlib.Core.List.{List, [], ◌∷◌, ◌++◌}
use mathlib.Core.Option.{some}
use native.Mathlib.Omega.{arith}
use native.Mathlib.Nat.{zero-add, suc-add, suc-add, zero-add, pow-suc, mul_comm}
use svm_wasi_core.Base.Lists.{
  take-append-drop, length, get_elem?, take, drop, All, length-take, length-drop,
}
use svm_wasi_core.Base.Calls.{ok, slice, in_range}
use svm_wasi_core.Base.Bytes.{IsByte, to_le_bytes, from_le_bytes, to-from_le_bytes}
use svm_wasi_core.Base.Int.{i64_bits-as_i64, i64_to_le_bytes, i64_from_le_bytes}

module _ {ℓ} {A : Type ℓ} where
  -- The field from `a` to `b`.
  abbrev pub cut : List A → ℕ → ℕ → List A
  cut xs a b = take (b - a) (drop a xs)

  pub slice-cut {κ} :
      {E : Type κ} (xs : List A) (a b : ℕ)
      → a ≤ b
      → b ≤ length xs
      → slice {E = E} xs a b ≡ ok (cut xs a b)
  unfolding slice
  slice-cut xs a b h k = rw (in_range a b _ h k)

  pub length-cut : (xs : List A) (a b : ℕ) → a ≤ b → b ≤ length xs → length (cut xs a b) ≡ b - a
  length-cut xs a b h k = omega (arith, length-take (b - a) (drop a xs), length-drop a xs)

  take-nil : (n : ℕ) → take {A = A} n [] ≡ []
  take-nil zero = refl
  take-nil (suc n) = refl

  pub drop-nil : (n : ℕ) → drop {A = A} n [] ≡ []
  drop-nil zero = refl
  drop-nil (suc n) = refl

  take-drop_append : (n a : ℕ) (xs : List A) → take n (drop a xs) ++ drop (a + n) xs ≡ drop a xs
  take-drop_append n zero xs = rw zero-add (take-append-drop n xs)
  take-drop_append n (suc a) [] = rw (take-nil n, drop-nil (suc a + n))
  take-drop_append n (suc a) (x ∷ xs) = rw suc-add (take-drop_append n a xs)

  -- What stands from `a` on is the field from `a` to `b`, and what stands from `b` on.
  pub drop-cut : (xs : List A) (a b : ℕ) → a ≤ b → cut xs a b ++ drop b xs ≡ drop a xs
  drop-cut xs a b h =
      let e : a + (b - a) ≡ b = omega arith in rw e at (take-drop_append (b - a) a xs)

  pub drop_elem :
      (xs : List A) (i : ℕ) (v : A) → get_elem? xs i ≡ some v → v ∷ drop (suc i) xs ≡ drop i xs
  drop_elem [] i v h = cc
  drop_elem (x ∷ xs) zero v h = cc
  drop_elem (x ∷ xs) (suc i) v h = drop_elem xs i v h

  pub elem_inside : (xs : List A) (i : ℕ) → i < length xs → (v : A) × (get_elem? xs i ≡ some v)
  elem_inside [] i h = absurd (omega arith)
  elem_inside (x ∷ xs) zero h = (x, refl)
  elem_inside (x ∷ xs) (suc i) h = elem_inside xs i (omega arith)

  pub drop_end : (n : ℕ) (xs : List A) → length xs ≡ n → drop n xs ≡ []
  drop_end zero [] h = refl
  drop_end zero (x ∷ xs) h = absurd (omega arith)
  drop_end (suc n) [] h = refl
  drop_end (suc n) (x ∷ xs) h = drop_end n xs (omega arith)

module _ {ℓ κ} {A : Type ℓ} (P : A → Type κ) where
  All-take : (n : ℕ) (xs : List A) → All P xs → All P (take n xs)
  All-take zero xs h = tt
  All-take (suc n) [] h = tt
  All-take (suc n) (x ∷ xs) (hx, hxs) = (hx, All-take n xs hxs)

  All-drop : (n : ℕ) (xs : List A) → All P xs → All P (drop n xs)
  All-drop zero xs h = h
  All-drop (suc n) [] h = tt
  All-drop (suc n) (x ∷ xs) (hx, hxs) = All-drop n xs hxs

  pub All-cut : (xs : List A) (a b : ℕ) → All P xs → All P (cut xs a b)
  All-cut xs a b h = All-take (b - a) (drop a xs) (All-drop a xs h)

pub from_le_bytes_bound : (bs : List ℕ) → All IsByte bs → from_le_bytes bs < 256 ^ length bs
unfolding from_le_bytes
from_le_bytes_bound [] h = omega arith
from_le_bytes_bound (b ∷ bs) (hb, hbs) =
    rw (pow-suc, mul_comm (256 ^ length bs) 256) (omega (arith, from_le_bytes_bound bs hbs))

pub i64_to-from_le_bytes :
    (bs : List ℕ) → All IsByte bs → length bs ≡ 8 → i64_to_le_bytes (i64_from_le_bytes bs) ≡ bs
unfolding i64_to_le_bytes i64_from_le_bytes
i64_to-from_le_bytes bs h l =
    let bound : from_le_bytes bs < 2 ^ 64 = rw l at (from_le_bytes_bound bs h) in
    rw (i64_bits-as_i64 (from_le_bytes bs) bound, ← l) (to-from_le_bytes bs h)

pub to-from_le_bytes_of :
    (w : ℕ) (bs : List ℕ) → All IsByte bs → length bs ≡ w → to_le_bytes w (from_le_bytes bs) ≡ bs
to-from_le_bytes_of w bs h l = rw (← l) (to-from_le_bytes bs h)
