-- ===== src/Instruction.antt =====
-- src/instruction/mod.rs and the ids of its modules: instructions for the programs of the chain.
-- A function that returns `Option<T>` is an `Outcome Unit T`, with `err tt` for `None`, since a
-- hard-coded id that does not parse is a panic.
pub mod Subscriptions
pub mod AssociatedTokenAccount
pub mod Token
pub mod Layouts
pub mod Pulls
pub mod Dispatch
use svm_wasi_core.Base.{
  ℕ, String, ◌≡◌, Bool, true, false, Option, none, some, List, [], ◌∷◌, map, Outcome, ok, err,
  ok_or, ◌>>=◌, expect,
}
use svm_wasi_core.Keys.{Keys}

-- The packages solana-instruction and solana-pubkey.
pub record Programs (Key : Type 0) : Type 1 where
  -- `AccountMeta`, its fields and its two constructors
  pub AccountMeta : Type 0
  pub pubkey : AccountMeta → Key
  pub is_signer : AccountMeta → Bool
  pub is_writable : AccountMeta → Bool
  pub new : Key → Bool → AccountMeta
  pub new_readonly : Key → Bool → AccountMeta
  -- `Pubkey::from_str`
  pub from_str : String → Outcome (Unit {0}) Key
  -- `Pubkey::try_find_program_address`
  pub try_find_program_address : List (List ℕ) → Key → Option (Key × ℕ)
  pub pubkey-new : (k : Key) (b : Bool) → pubkey (new k b) ≡ k
  pub is_signer-new : (k : Key) (b : Bool) → is_signer (new k b) ≡ b
  pub is_writable-new : (k : Key) (b : Bool) → is_writable (new k b) ≡ true
  pub pubkey-new_readonly : (k : Key) (b : Bool) → pubkey (new_readonly k b) ≡ k
  pub is_signer-new_readonly : (k : Key) (b : Bool) → is_signer (new_readonly k b) ≡ b
  pub is_writable-new_readonly : (k : Key) (b : Bool) → is_writable (new_readonly k b) ≡ false

-- `solana_instruction::Instruction`, as its literals are written.
pub record Instruction (Key AccountMeta : Type 0) : Type 0 where
  pub program_id : Key
  pub accounts : List AccountMeta
  pub ix_data : List ℕ

module _ {Key : Type 0} (P : Programs Key) where
  open P use {AccountMeta, pubkey, is_signer, is_writable, from_str, try_find_program_address}

  unfoldable pub known_id : String → Outcome (Unit {0}) Key
  known_id base58 = expect (from_str base58)

  -- `system::id`
  unfoldable pub system_id : Outcome (Unit {0}) Key
  system_id = expect (from_str "11111111111111111111111111111111")

  -- `system::recent_blockhashes_sysvar_id`
  unfoldable pub recent_blockhashes_sysvar_id : Outcome (Unit {0}) Key
  recent_blockhashes_sysvar_id = expect (from_str "SysvarRecentB1ockHashes11111111111111111111")

  -- `system::rent_sysvar_id`
  unfoldable pub rent_sysvar_id : Outcome (Unit {0}) Key
  rent_sysvar_id = expect (from_str "SysvarRent111111111111111111111111111111111")

  -- `Pubkey::try_find_program_address(seeds, &id())`
  abbrev pub find_address : List (List ℕ) → Outcome (Unit {0}) Key → Outcome (Unit {0}) (Key × ℕ)
  find_address seeds id = do program ← id; ok_or (try_find_program_address seeds program) tt

  -- An account with what the instruction asks of it: its signature, and to be written.
  abbrev pub role : AccountMeta → Key × Bool × Bool
  role a = (pubkey a, is_signer a, is_writable a)
