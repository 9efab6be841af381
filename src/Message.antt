-- ===== src/Message.antt =====
-- src/message.rs: messages that spend a durable nonce.
pub mod Durable
use svm_wasi_core.Base.{ℕ, ◌≡◌, Option, some, List, [], ◌∷◌, map, Outcome, ok}
use svm_wasi_core.Keys.{Keys}
use svm_wasi_core.Instruction.{Instruction}
use svm_wasi_core.Transaction.{MessageFormat}

-- The compilers of the package solana-message, for its legacy messages and its v0 messages, and
-- the instruction of solana-system-interface that consumes a nonce.
pub record Compilers {Key Hash : Type 0} (Legacy V0 : MessageFormat Key Hash) (AccountMeta : Type 0)
    : Type 1 where
  pub LookupTable : Type 0
  pub CompileError : Type 0
  -- `advance_nonce_account(nonce_account, nonce_authority)`
  pub advance_nonce_account : Key → Key → Instruction Key AccountMeta
  -- `Message::new(instructions, payer)`, and an assignment to `message.recent_blockhash`
  pub new_message : List (Instruction Key AccountMeta) → Option Key → Legacy.Message
  pub set_recent_blockhash : Hash → Legacy.Message → Legacy.Message
  -- `v0::Message::try_compile(payer, instructions, lookup_tables, recent_blockhash)`
  pub try_compile :
      Key
      → List (Instruction Key AccountMeta)
      → List LookupTable
      → Hash
      → Outcome CompileError V0.Message
  -- The data of the compiled instructions. Compilation keeps their order and their data.
  pub instruction_data : Legacy.Message → List (List ℕ)
  pub instruction_data_v0 : V0.Message → List (List ℕ)
  pub instruction_data-new_message :
      (ixs : List (Instruction Key AccountMeta)) (payer : Option Key)
      → instruction_data (new_message ixs payer) ≡ map (λ ix. ix.ix_data) ixs
  pub recent_blockhash-set :
      (h : Hash) (m : Legacy.Message) → Legacy.recent_blockhash (set_recent_blockhash h m) ≡ h
  pub instruction_data-set :
      (h : Hash) (m : Legacy.Message)
      → instruction_data (set_recent_blockhash h m) ≡ instruction_data m
  pub instruction_data_v0-try_compile :
      (payer : Key) (ixs : List (Instruction Key AccountMeta)) (tables : List LookupTable)
      (h : Hash) (m : V0.Message)
      → try_compile payer ixs tables h ≡ ok m
      → instruction_data_v0 m ≡ map (λ ix. ix.ix_data) ixs
  pub recent_blockhash-try_compile :
      (payer : Key) (ixs : List (Instruction Key AccountMeta)) (tables : List LookupTable)
      (h : Hash) (m : V0.Message)
      → try_compile payer ixs tables h ≡ ok m
      → V0.recent_blockhash m ≡ h

module _ {Key Hash AccountMeta : Type 0} (Legacy V0 : MessageFormat Key Hash)
    (C : Compilers Legacy V0 AccountMeta) where
  open C use {
    LookupTable, CompileError, advance_nonce_account, new_message, set_recent_blockhash,
    try_compile,
  }

  unfoldable pub compile_legacy_with_durable_nonce :
      Key → Key → Key → Hash → List (Instruction Key AccountMeta) → Legacy.Message
  compile_legacy_with_durable_nonce payer nonce_account nonce_authority nonce_blockhash
        instructions =
      let all = advance_nonce_account nonce_account nonce_authority ∷ instructions in
      let message = new_message all (some payer) in set_recent_blockhash nonce_blockhash message

  unfoldable pub compile_v0_with_durable_nonce :
      Key
      → Key
      → Key
      → Hash
      → List (Instruction Key AccountMeta)
      → List LookupTable
      → Outcome CompileError V0.Message
  compile_v0_with_durable_nonce payer nonce_account nonce_authority nonce_blockhash instructions
        address_lookup_table_accounts =
      let all = advance_nonce_account nonce_account nonce_authority ∷ instructions in
      try_compile payer all address_lookup_table_accounts nonce_blockhash
