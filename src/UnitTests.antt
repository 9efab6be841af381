-- ===== src/UnitTests.antt =====
-- The unit tests that stand in the source files, as definitions, and that they pass.
-- A test is the outcome of its body: `ok` when it passes, and a panic when an assertion fails.
pub mod Subscriptions
pub mod Delegations
pub mod Replays
pub mod Clients
pub mod Builders
pub mod TokenAccounts
pub mod Envelopes
pub mod Signing
pub mod Signed
pub mod Mints
pub mod Spends
pub mod Durable
pub mod NonceAccounts
pub mod Recovered
pub mod Keypairs
pub mod Addresses
pub mod Shapes
pub mod Responses
pub mod Statuses
pub mod Passing
use text.Mathlib.Text.{◌==◌ as text_eq}
use svm_wasi_core.Base.{
  true, true, false, ◌==◌, String, ℕ, ◌≡◌, ◌≢◌, refl, Bool, Option, none, some, List, replicate,
  Outcome, ok, err, panic, if◌then◌else◌,
}
use svm_wasi_core.Base.Int.{ℤ, pos, negsuc}
use svm_wasi_core.Keys.{Keys}

abbrev pub Test : Type 0
Test = Outcome (Unit {0}) (Unit {0})

-- `assert!`
abbrev pub assert : {F : Type 0} → Bool → Outcome F (Unit {0})
assert b = if b then ok tt else panic

module _ {E A : Type 0} where
  -- `Result::unwrap`
  abbrev pub unwrap : Outcome E A → Outcome (Unit {0}) A
  unwrap (ok a) = ok a
  unwrap (err e) = panic
  unwrap panic = panic

  -- `Result::unwrap_err`
  abbrev pub unwrap_err : Outcome E A → Outcome (Unit {0}) E
  unwrap_err (ok a) = panic
  unwrap_err (err e) = ok e
  unwrap_err panic = panic

  -- `Result::is_err`
  abbrev pub is_err : Outcome E A → Outcome (Unit {0}) Bool
  is_err (ok a) = ok false
  is_err (err e) = ok true
  is_err panic = panic

module _ {A : Type 0} where
  -- `Option::unwrap`
  abbrev pub unwrap_some : Option A → Outcome (Unit {0}) A
  unwrap_some (some a) = ok a
  unwrap_some none = panic

  -- `Option::is_none`
  abbrev pub is_none : Option A → Bool
  is_none (some a) = false
  is_none none = true

  asserted : {a b : A} → Dec (a ≡ b) → Test
  asserted (yes e) = ok tt
  asserted (no n) = panic

  refuted : {a b : A} → Dec (a ≡ b) → Test
  refuted (yes e) = panic
  refuted (no n) = ok tt

  -- `assert_eq!`
  unfoldable pub assert_eq : Discrete A → A → A → Test
  unfolding asserted
  assert_eq same a b = asserted (same a b)

  -- `assert_ne!`
  unfoldable pub assert_ne : Discrete A → A → A → Test
  unfolding refuted
  assert_ne same a b = refuted (same a b)

  asserted_holds : {a b : A} (d : Dec (a ≡ b)) → a ≡ b → asserted d ≡ ok tt
  unfolding asserted
  asserted_holds (yes e) h = refl
  asserted_holds (no n) h = absurd (n h)

  refuted_holds : {a b : A} (d : Dec (a ≡ b)) → a ≢ b → refuted d ≡ ok tt
  unfolding refuted
  refuted_holds (yes e) h = absurd (h e)
  refuted_holds (no n) h = refl

  pub assert_eq_holds : (same : Discrete A) (a b : A) → a ≡ b → assert_eq same a b ≡ ok tt
  unfolding assert_eq asserted
  assert_eq_holds same a b h = asserted_holds (same a b) h

  pub assert_ne_holds : (same : Discrete A) (a b : A) → a ≢ b → assert_ne same a b ≡ ok tt
  unfolding assert_ne refuted
  assert_ne_holds same a b h = refuted_holds (same a b) h

-- `==` on `str`
abbrev pub same_string : String → String → Bool
same_string s t = text_eq s t

-- `==` on `i64`
abbrev pub same_int : ℤ → ℤ → Bool
same_int (pos m) (pos n) = m == n
same_int (negsuc m) (negsuc n) = m == n
same_int (pos m) (negsuc n) = false
same_int (negsuc m) (pos n) = false

-- `pk(byte)`
abbrev pub pk : (K : Keys) → ℕ → K.Key
pk K byte = K.new_from_array (replicate 32 byte)

-- `==` between a value, as the text that it may be, and a text
abbrev pub is_text : Option String → String → Bool
is_text (some s) t = same_string s t
is_text none t = false
