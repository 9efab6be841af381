-- ===== src/Base/Calls.antt =====
-- What a call of a Rust function comes to: a value, an error value, or a panic.
-- A function that returns `Option` is an `Outcome Unit`, with `err tt` for its `None`.
use Prim.Native.Nat.{◌<◌, ℕ, suc, ◌-◌, ◌+◌, ◌≤◌}
use mathlib.Core.Path.{◌≡◌, refl}
use mathlib.Core.Bool.{Bool, true, false, ◌&&◌}
use mathlib.Core.List.{List, ◌++◌}
use mathlib.Core.Option.{Option, none, some}
use mathlib.Core.Logic.{◌⊎◌, inl, inr}
use native.Mathlib.Omega.{arith}
use native.Mathlib.Nat.{sub-zero}
use svm_wasi_core.Base.Tests.{leb, if◌then◌else◌, le→leb}
use svm_wasi_core.Base.Lists.{
  length, take, drop, get_elem?, set, length-append, take-append, drop-append,
}

pub data Outcome {ℓ κ} (E : Type ℓ) (A : Type κ) : Type (ℓ ⊔ κ) where
  ok : A → Outcome E A
  err : E → Outcome E A
  panic : Outcome E A

infixl 5 ◌>>=◌ ◌>>◌
abbrev pub ◌>>=◌ {ℓ κ μ} :
    {E : Type ℓ} {A : Type κ} {B : Type μ} → Outcome E A → (A → Outcome E B) → Outcome E B
panic >>= rest = panic
err e >>= rest = err e
ok a >>= rest = rest a

abbrev pub ◌>>◌ {ℓ κ} : {E : Type ℓ} {B : Type κ} → Outcome E (Unit {0}) → Outcome E B → Outcome E B
check >> rest = check >>= λ done. rest

-- `if bad { return Err(e) }`
abbrev pub fail_if {ℓ} : {E : Type ℓ} → Bool → E → Outcome E (Unit {0})
fail_if true e = err e
fail_if false e = ok tt

-- `o.ok_or(e)`
abbrev pub ok_or {ℓ κ} : {E : Type ℓ} {A : Type κ} → Option A → E → Outcome E A
ok_or none e = err e
ok_or (some a) e = ok a

-- `r.map_err(f)`
abbrev pub map_err {ℓ κ μ} :
    {E : Type ℓ} {F : Type κ} {A : Type μ} → (E → F) → Outcome E A → Outcome F A
map_err f (ok a) = ok a
map_err f (err e) = err (f e)
map_err f panic = panic

-- `r.expect(…)`
abbrev pub expect {ℓ κ μ} : {E : Type ℓ} {F : Type κ} {A : Type μ} → Outcome E A → Outcome F A
expect (ok a) = ok a
expect (err e) = panic
expect panic = panic

-- `let Ok(a) = r else { … }`
abbrev pub ok? {ℓ κ} : {E : Type ℓ} {A : Type κ} → Outcome E A → Option A
ok? (ok a) = some a
ok? _ = none

pub Outcome-cases :
    {E A : Type 0} (m : Outcome E A)
    → ((a : A) × (m ≡ ok a)) ⊎ (((e : E) × (m ≡ err e)) ⊎ (m ≡ panic))
Outcome-cases (ok a) = inl (a, refl)
Outcome-cases (err e) = inr (inl (e, refl))
Outcome-cases panic = inr (inr refl)

pub in_range : (a b n : ℕ) → a ≤ b → b ≤ n → (leb a b && leb b n) ≡ true
in_range a b n h k = ground arith

module _ {ℓ κ} {E : Type ℓ} {A : Type κ} where
  -- `&xs[a..b]`: panics when the range is not inside.
  unfoldable pub slice : List A → ℕ → ℕ → Outcome E (List A)
  slice xs a b = if leb a b && leb b (length xs) then ok (take (b - a) (drop a xs)) else panic

  -- `xs[i]`
  abbrev pub index : List A → ℕ → Outcome E A
  index xs i = elim (get_elem? xs i) [ none ↦ panic | some a ↦ ok a ]

  -- `xs[i] = v`
  unfoldable pub store : List A → ℕ → A → Outcome E (List A)
  store xs i v = if leb (suc i) (length xs) then ok (set xs i v) else panic

  pub slice_prefix : (xs : List A) (n : ℕ) → n ≤ length xs → slice xs 0 n ≡ ok (take n xs)
  unfolding slice
  slice_prefix xs n h = rw (in_range 0 n _ (omega arith) h, sub-zero n)

  pub slice_outside : (xs : List A) (n : ℕ) → length xs < n → slice xs 0 n ≡ panic
  unfolding slice
  slice_outside xs n h =
      let outside : (leb 0 n && leb n (length xs)) ≡ false = ground arith in rw outside

  pub store_outside : (xs : List A) (i : ℕ) (v : A) → length xs ≤ i → store xs i v ≡ panic
  unfolding store
  store_outside xs i v h =
      let outside : leb (suc i) (length xs) ≡ false = ground arith in rw outside

  -- A range that covers exactly the middle part of a list reads that part.
  pub slice_middle :
      (front mid back : List A) (a b : ℕ)
      → length front ≡ a
      → a + length mid ≡ b
      → slice (front ++ (mid ++ back)) a b ≡ ok mid
  unfolding slice
  slice_middle front mid back a b ha hb =
      let inside : b ≤ length (front ++ (mid ++ back)) =
        omega (arith, length-append front (mid ++ back), length-append mid back) in
      rw (
        in_range a b _ (omega arith) inside,
        drop-append a front (mid ++ back) ha,
        take-append (b - a) mid back (omega arith),
      )

  pub index-some : (xs : List A) (i : ℕ) (a : A) → get_elem? xs i ≡ some a → index xs i ≡ ok a
  index-some xs i a h = rw (h, index)

  pub store_lem : (xs : List A) (i : ℕ) (v : A) → suc i ≤ length xs → store xs i v ≡ ok (set xs i v)
  unfolding store
  store_lem xs i v h = rw (le→leb _ _ h)

-- Inversion of a chain that returned a value.
-- A chain that ends well had a first call that did.
pub >>=-eq-ok {ℓ κ μ} :
    {E : Type ℓ} {T : Type κ} {U : Type μ} {last : U} (call : Outcome E T) (rest : T → Outcome E U)
    → (call >>= rest) ≡ ok last
    → (first : T) × (call ≡ ok first) × (rest first ≡ ok last)
>>=-eq-ok (ok first) rest done = (first, refl, done)
>>=-eq-ok panic rest done = cc
>>=-eq-ok (err e) rest done = cc

pub >>=_assoc {ℓ κ μ ν} :
    {E : Type ℓ} {A : Type κ} {B : Type μ} {C : Type ν} (m : Outcome E A) (f : A → Outcome E B)
    (g : B → Outcome E C)
    → (m >>= f >>= g) ≡ (m >>= λ a. f a >>= g)
>>=_assoc (ok a) f g = refl
>>=_assoc (err e) f g = refl
>>=_assoc panic f g = refl

pub map_err-ok :
    {E F A : Type 0} {a : A} (f : E → F) (m : Outcome E A) → map_err f m ≡ ok a → m ≡ ok a
map_err-ok f (ok b) h = cc
map_err-ok f (err e) h = cc
map_err-ok f panic h = cc
