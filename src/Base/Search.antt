-- ===== src/Base/Search.antt =====
-- `iter().position(…)` and the comparison of byte slices.
use Prim.Native.Nat.{ℕ, suc, ◌<◌}
use mathlib.Core.Path.{◌≡◌, refl, ap}
use mathlib.Core.Logic.{◌≢◌}
use mathlib.Core.Bool.{Bool, true, false, ◌&&◌}
use mathlib.Core.List.{List, [], ◌∷◌}
use mathlib.Core.Option.{Option, none, some}
use native.Mathlib.Omega.{arith}
use svm_wasi_core.Base.Tests.{◌==◌}
use svm_wasi_core.Base.Lists.{take, length, get_elem?, All}

-- `a == b` on byte slices.
abbrev pub bytes_eq : List ℕ → List ℕ → Bool
bytes_eq [] [] = true
bytes_eq [] (y ∷ ys) = false
bytes_eq (x ∷ xs) [] = false
bytes_eq (x ∷ xs) (y ∷ ys) = x == y && bytes_eq xs ys

pub bytes_eq→eq : (xs ys : List ℕ) → bytes_eq xs ys ≡ true → xs ≡ ys
bytes_eq→eq [] [] h = refl
bytes_eq→eq [] (y ∷ ys) h = cc
bytes_eq→eq (x ∷ xs) [] h = cc
bytes_eq→eq (x ∷ xs) (y ∷ ys) h = ground (arith, bytes_eq→eq xs ys)

pub bytes_eq_refl : (xs : List ℕ) → bytes_eq xs xs ≡ true
bytes_eq_refl [] = refl
bytes_eq_refl (x ∷ xs) = ground (arith, bytes_eq_refl xs)

module _ {A : Type 0} (dec : Discrete A) (a : A) where
  -- `xs.iter().position(|x| *x == a)`
  unfoldable pub position : List A → Option ℕ
  position [] = none
  position (x ∷ xs) = elim (dec x a) [
    | yes _ ↦ some 0
    | no _ ↦ elim (position xs) [ none ↦ none | some i ↦ some (suc i) ]
  ]

  -- The element stands in place `i` and in no place before it.
  pub record FirstAt (xs : List A) (i : ℕ) : Type 0 where
    pub there : get_elem? xs i ≡ some a
    pub inside : i < length xs
    pub none_before : All (λ x. x ≢ a) (take i xs)

  pub position-yes : (x : A) (xs : List A) → x ≡ a → position (x ∷ xs) ≡ some 0
  unfolding position
  position-yes x xs e = go (dec x a)
    where
      go :
          (d : Dec (x ≡ a))
          → (elim d as (λ _. Option ℕ) [
            | yes _ ↦ some 0
            | no _ ↦ elim (position xs) [ none ↦ none | some i ↦ some (suc i) ]
          ])
            ≡ some 0
      go (yes _) = refl
      go (no n) = absurd (n e)

  pub position-no :
      (x : A) (xs : List A)
      → x ≢ a
      → position (x ∷ xs) ≡ elim (position xs) [ none ↦ none | some i ↦ some (suc i) ]
  unfolding position
  position-no x xs e = go (dec x a)
    where
      go :
          (d : Dec (x ≡ a))
          → (elim d as (λ _. Option ℕ) [
            | yes _ ↦ some 0
            | no _ ↦ elim (position xs) [ none ↦ none | some i ↦ some (suc i) ]
          ])
            ≡ elim (position xs) [ none ↦ none | some i ↦ some (suc i) ]
      go (yes y) = absurd (e y)
      go (no _) = refl

  -- What a search finds: nothing, when the element is not there, or its first place.
  pub data Found (xs : List A) : Option ℕ → Type 0 where
    missing : All (λ x. x ≢ a) xs → Found xs none
    found : (i : ℕ) → FirstAt xs i → Found xs (some i)

  Found-later :
      (x : A) (xs : List A) (o : Option ℕ)
      → x ≢ a
      → Found xs o
      → Found (x ∷ xs) (elim o [ none ↦ none | some i ↦ some (suc i) ])
  Found-later x xs o e (missing h) = missing (e, h)
  Found-later x xs o e (found i f) = found (suc i) (record {
    there = f.there;
    inside = omega (arith, f.inside);
    none_before = (e, f.none_before);
  })

  pub position-Found : (xs : List A) → Found xs (position xs)
  position-Found [] = unfold position in missing tt
  position-Found (x ∷ xs) = elim (dec x a) [
    | yes e ↦
        rw (position-yes x xs e)
          (found 0 (record { there = ap some e; inside = omega arith; none_before = tt }))
    | no e ↦ rw (position-no x xs e) (Found-later x xs (position xs) e (position-Found xs))
  ]
