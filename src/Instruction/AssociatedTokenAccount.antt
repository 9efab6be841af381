-- ===== src/Instruction/AssociatedTokenAccount.antt =====
-- src/instruction/associated_token_account.rs: associated token accounts and their creation.
use svm_wasi_core.Base.{ℕ, true, false, [], ◌∷◌, Outcome, ok, ◌>>=◌}
use svm_wasi_core.Keys.{Keys}
use svm_wasi_core.Instruction.{Programs, Instruction, known_id, system_id, find_address}

abbrev pub create : ℕ
create = 0

abbrev pub create_idempotent : ℕ
create_idempotent = 1

module _ (K : Keys) (P : Programs K.Key) where
  open K use {Key, as_ref}
  open P use {AccountMeta, new, new_readonly}

  unfoldable pub id : Outcome (Unit {0}) Key
  id = known_id P "ATokenGPvbdGVxr1b2hvZbsiqW5xWH25efTNsLJA8knL"

  unfoldable pub get_associated_token_address : Key → Key → Key → Outcome (Unit {0}) Key
  get_associated_token_address wallet mint token_program_id = do
    (address, bump) ← find_address P (as_ref wallet ∷ as_ref token_program_id ∷ as_ref mint ∷ []) id
    ok address

  unfoldable pub build :
      Key → Key → Key → Key → ℕ → Outcome (Unit {0}) (Instruction Key AccountMeta)
  build funding_account wallet mint token_program_id tag = do
    associated_account ← get_associated_token_address wallet mint token_program_id
    program_id ← id
    system ← system_id P
    ok (record {
      program_id = program_id;
      accounts =
          new funding_account true
          ∷ new associated_account false
          ∷ new_readonly wallet false
          ∷ new_readonly mint false
          ∷ new_readonly system false
          ∷ new_readonly token_program_id false
          ∷ [];
      ix_data = tag ∷ [];
    })

  unfoldable pub create_associated_token_account :
      Key → Key → Key → Key → Outcome (Unit {0}) (Instruction Key AccountMeta)
  create_associated_token_account funding_account wallet mint token_program_id =
      build funding_account wallet mint token_program_id create

  unfoldable pub create_associated_token_account_idempotent :
      Key → Key → Key → Key → Outcome (Unit {0}) (Instruction Key AccountMeta)
  create_associated_token_account_idempotent funding_account wallet mint token_program_id =
      build funding_account wallet mint token_program_id create_idempotent
