-- ===== src/Tests/Vectors.antt =====
-- Vectors of numbers, which the sample keys, signatures and points are made of.
use native.Mathlib.Decide.{ℕ_discrete}
use svm_wasi_core.Base.{arith, ℕ, zero, suc, ◌≡◌, refl, ap, List, [], ◌∷◌, ◌++◌, length}

abbrev pub Vec : ℕ → Type 0
Vec zero = Unit
Vec (suc n) = ℕ × Vec n

abbrev pub vec_of : (n : ℕ) → List ℕ → Vec n
vec_of zero xs = tt
vec_of (suc n) [] = (0, vec_of n [])
vec_of (suc n) (x ∷ xs) = (x, vec_of n xs)

abbrev pub list_of : (n : ℕ) → Vec n → List ℕ
list_of zero v = []
list_of (suc n) (x, v) = x ∷ list_of n v

pub length-list_of : (n : ℕ) (v : Vec n) → length (list_of n v) ≡ n
length-list_of zero v = refl
length-list_of (suc n) (x, v) = ap suc (length-list_of n v)

pub vec_of-list_of : (n : ℕ) (v : Vec n) (rest : List ℕ) → vec_of n (list_of n v ++ rest) ≡ v
vec_of-list_of zero v rest = refl
vec_of-list_of (suc n) (x, v) rest = rw (vec_of-list_of n v rest)

pub list_of-vec_of : (n : ℕ) (xs : List ℕ) → length xs ≡ n → list_of n (vec_of n xs) ≡ xs
list_of-vec_of zero [] h = refl
list_of-vec_of zero (x ∷ xs) h = absurd (omega arith)
list_of-vec_of (suc n) [] h = absurd (omega arith)
list_of-vec_of (suc n) (x ∷ xs) h = ap (λ ys. x ∷ ys) (list_of-vec_of n xs (omega arith))

unfoldable pub vec_discrete : (n : ℕ) → Discrete (Vec n)
vec_discrete zero v w = yes refl
vec_discrete (suc n) (x, v) (y, w) = elim (ℕ_discrete x y) [
  | no h ↦ no (λ p. h (ap (λ q. q.0) p))
  | yes e ↦ elim (vec_discrete n v w) [
    | no h ↦ no (λ p. h (ap (λ q. q.1) p))
    | yes f ↦ yes (cc (e, f))
  ]
]
