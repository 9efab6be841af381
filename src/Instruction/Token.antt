-- ===== src/Instruction/Token.antt =====
-- src/instruction/token.rs and src/instruction/memo.rs: the builders of the packages
-- spl-token-interface, spl-token-2022-interface and spl-memo-interface, chosen by program id.
use svm_wasi_core.Base.{ℕ, List, [], Outcome, expect}
use svm_wasi_core.Keys.{Keys}
use svm_wasi_core.Shaping.Strings.{Text}

-- One of the two token packages. A builder takes the program id, the accounts in the order of its
-- parameters, the extra signers, the amount, and the decimals where it has them.
pub record TokenInterface (Key Ix : Type 0) : Type 0 where
  pub id : Key
  pub transfer : Key → Key → Key → Key → List Key → ℕ → Outcome (Unit {0}) Ix
  pub transfer_checked : Key → Key → Key → Key → Key → List Key → ℕ → ℕ → Outcome (Unit {0}) Ix

-- `spl_memo_interface`; `as_bytes` is its argument's encoding.
pub record MemoInterface (Key Ix : Type 0) : Type 0 where
  pub id : Key
  pub as_bytes : Text → List ℕ
  pub build_memo : Key → List ℕ → List Key → Ix

-- `if a == b { x } else { y }`
abbrev pub if_equal {ℓ} : {P : Type 0} {A : Type ℓ} → Dec P → A → A → A
if_equal (yes same) x y = x
if_equal (no other) x y = y

module _ (K : Keys) {Ix : Type 0} (token token_2022 : TokenInterface K.Key Ix) where
  open K use {Key, key_discrete}

  unfoldable pub token_program_id : Key
  token_program_id = token.id

  unfoldable pub token_2022_program_id : Key
  token_2022_program_id = token_2022.id

  -- The outcome has a panic in place of an error.
  unfoldable pub transfer : Key → Key → Key → ℕ → Key → Outcome (Unit {0}) Ix
  transfer source destination owner amount program =
      if_equal (key_discrete program token_2022.id)
        (expect (token_2022.transfer program source destination owner [] amount))
        (expect (token.transfer program source destination owner [] amount))

  unfoldable pub transfer_checked : Key → Key → Key → Key → ℕ → ℕ → Key → Outcome (Unit {0}) Ix
  transfer_checked source mint destination owner amount decimals program =
      if_equal (key_discrete program token_2022.id)
        (expect
          (token_2022.transfer_checked program source mint destination owner [] amount decimals))
        (expect (token.transfer_checked program source mint destination owner [] amount decimals))

-- `build_memo`
unfoldable pub build_memo : {Key Ix : Type 0} → MemoInterface Key Ix → Text → List Key → Ix
build_memo m memo signers = m.build_memo m.id (m.as_bytes memo) signers
