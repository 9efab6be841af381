-- ===== src/Tests/Instructions.antt =====
-- The theorems on the builders of instructions, at concrete inputs.
use svm_wasi_core.Base.{arith, ℕ, ◌≡◌, refl, ◌⊎◌, inl, inr, Outcome, ok, err}
use svm_wasi_core.Base.Int.{pos, negsuc}
use svm_wasi_core.Instruction.{Programs, Instruction}
use svm_wasi_core.Instruction.Subscriptions.{create_recurring_delegation, transfer_recurring}
use svm_wasi_core.Instruction.Token.{TokenInterface, transfer, transfer_checked}
use svm_wasi_core.Instruction.Layouts.{Creation, create_recurring_delegation-Creation}
use svm_wasi_core.Instruction.Dispatch.{ChecksProgram, Dispatch, transfer-Dispatch}
use svm_wasi_core.Tests.Vectors.{Vec}
use svm_wasi_core.Tests.Samples.{programs, sample_keys, key}

create_recurring_delegation-Creation_example :
    Creation sample_keys programs
      (key 8)
      (key 8)
      (key 1)
      (key 2)
      (key 4)
      0
      100
      60
      (pos 0)
      (pos 5000)
      (negsuc 0)
      (create_recurring_delegation sample_keys programs
        (key 1)
        (key 2)
        (key 4)
        0
        100
        60
        (pos 0)
        (pos 5000)
        (negsuc 0))
unfolding svm_wasi_core.Instruction.Subscriptions.id svm_wasi_core.Instruction.known_id
    svm_wasi_core.Instruction.system_id
create_recurring_delegation-Creation_example =
    create_recurring_delegation-Creation sample_keys programs (key 8) (key 8) (key 1) (key 2)
      (key 4) 0 100 60 (pos 0) (pos 5000) (negsuc 0)
      (record {
        fits_nonce = omega arith;
        fits_amount = omega arith;
        fits_period = omega arith;
        fits_start = omega arith;
        fits_expiry = omega arith;
        fits_init = omega arith;
      })
      refl refl

-- What a package builds for the program, once its id is compared.
abbrev checked : {P : Type 0} → Dec P → ℕ → Outcome (Unit {0}) ℕ
checked (yes same) amount = ok amount
checked (no differs) amount = err tt

checked-yes : {P : Type 0} (d : Dec P) (amount : ℕ) → P → checked d amount ≡ ok amount
checked-yes (yes same) amount h = refl
checked-yes (no differs) amount h = absurd (differs h)

checked-no : {P : Type 0} (d : Dec P) (amount : ℕ) → ¬ P → checked d amount ≡ err tt
checked-no (yes same) amount h = absurd (h same)
checked-no (no differs) amount h = refl

-- A package that builds the amount, for its own program `id` and for those that `accepts` finds.
abbrev builds :
    {Accepts : Vec 32 → Type 0}
    → Vec 32
    → ((p : Vec 32) → Dec (Accepts p))
    → TokenInterface (Vec 32) ℕ
builds id accepts = record {
  id = id;
  transfer = λ p a b c signers amount. checked (accepts p) amount;
  transfer_checked = λ p a m b c signers amount decimals. checked (accepts p) amount;
}

abbrev builds-ChecksProgram :
    {Accepts : Vec 32 → Type 0} (id : Vec 32) (accepts : (p : Vec 32) → Dec (Accepts p))
    → ChecksProgram sample_keys (builds id accepts) Accepts
builds-ChecksProgram id accepts = record {
  built = λ p a b c signers amount. amount;
  accepted = λ p a b c signers amount h. checked-yes (accepts p) amount h;
  refused = λ p a b c signers amount h. checked-no (accepts p) amount h;
  built_checked = λ p a m b c signers amount decimals. amount;
  accepted_checked = λ p a m b c signers amount decimals h. checked-yes (accepts p) amount h;
  refused_checked = λ p a m b c signers amount decimals h. checked-no (accepts p) amount h;
}

abbrev is_classic : (p : Vec 32) → Dec (p ≡ key 7)
is_classic p = sample_keys.key_discrete p (key 7)

either : {P Q : Type 0} → Dec P → Dec Q → Dec (P ⊎ Q)
either (yes p) q = yes (inl p)
either (no n) (yes q) = yes (inr q)
either (no n) (no n') = no (λ h. elim h [ inl p ↦ n p | inr q ↦ n' q ])

abbrev is_either : (p : Vec 32) → Dec ((p ≡ key 8) ⊎ (p ≡ key 7))
is_either p = either (sample_keys.key_discrete p (key 8)) (is_classic p)

abbrev classic : TokenInterface (Vec 32) ℕ
classic = builds (key 7) is_classic

abbrev extended : TokenInterface (Vec 32) ℕ
extended = builds (key 8) is_either

transfer-Dispatch_example :
    Dispatch sample_keys
      (key 7)
      (key 8)
      (key 7)
      500
      500
      (transfer sample_keys classic extended (key 1) (key 2) (key 3) 500 (key 7))
    × Dispatch sample_keys (key 7) (key 8) (key 7) 500 500 (
        transfer_checked sample_keys classic extended (key 1) (key 4) (key 2) (key 3) 500 6 (key 7))
transfer-Dispatch_example =
    transfer-Dispatch sample_keys classic extended (builds-ChecksProgram (key 7) is_classic)
      (builds-ChecksProgram (key 8) is_either) (key 1) (key 4) (key 2) (key 3) 500 6 (key 7)
