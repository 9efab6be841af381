-- ===== src/TokenState.antt =====
-- src/token_state.rs: the state of token mints and accounts, and the extensions of a mint.
pub mod Trimmed
pub mod Finders
use svm_wasi_core.Base.{
  ℕ, String, Option, none, some, List, length, min, Outcome, ok, err, panic, ◌>>=◌, map_err, slice,
}

-- The package spl-token-2022-interface: its state types with `Pack`, its reader of extensions, and
-- the fields of the three raw extensions behind the conversions that this file calls. A
-- `ProgramError` is its text.
pub record TokenPackage (Key : Type 0) : Type 1 where
  pub Mint : Type 0
  pub TokenAccount : Type 0
  -- `Mint::LEN`, `TokenAccount::LEN`, `Mint::unpack`, `TokenAccount::unpack`
  pub mint_len : ℕ
  pub account_len : ℕ
  pub mint_unpack : List ℕ → Outcome String Mint
  pub account_unpack : List ℕ → Outcome String TokenAccount
  -- `StateWithExtensions::<Mint>::unpack` and its `get_extension` at the three types
  pub MintState : Type 0
  pub state_unpack : List ℕ → Outcome String MintState
  pub RawFee : Type 0
  pub RawFeeConfig : Type 0
  pub RawDelegate : Type 0
  pub RawHook : Type 0
  pub get_fee_config : MintState → Outcome String RawFeeConfig
  pub get_delegate : MintState → Outcome String RawDelegate
  pub get_hook : MintState → Outcome String RawHook
  pub config_authority : RawFeeConfig → Option Key
  pub withdraw_authority : RawFeeConfig → Option Key
  pub raw_withheld_amount : RawFeeConfig → ℕ
  pub older_fee : RawFeeConfig → RawFee
  pub newer_fee : RawFeeConfig → RawFee
  pub raw_epoch : RawFee → ℕ
  pub raw_maximum_fee : RawFee → ℕ
  pub raw_basis_points : RawFee → ℕ
  pub raw_delegate : RawDelegate → Option Key
  pub hook_authority : RawHook → Option Key
  pub hook_program_id : RawHook → Option Key

pub data TokenStateError : Type 0 where
  program : String → TokenStateError

pub record TransferFee : Type 0 where
  pub epoch : ℕ
  pub maximum_fee : ℕ
  pub transfer_fee_basis_points : ℕ

pub record TransferFeeConfig (Key : Type 0) : Type 0 where
  pub transfer_fee_config_authority : Option Key
  pub withdraw_withheld_authority : Option Key
  pub withheld_amount : ℕ
  pub older_transfer_fee : TransferFee
  pub newer_transfer_fee : TransferFee

pub record TransferHookConfig (Key : Type 0) : Type 0 where
  pub authority : Option Key
  pub program_id : Option Key

module _ {Key : Type 0} (P : TokenPackage Key) where
  open P use {
    Mint, TokenAccount, MintState, RawFee, RawFeeConfig, RawHook, mint_len, account_len,
    mint_unpack, account_unpack, state_unpack, get_fee_config, get_delegate, get_hook,
    config_authority, withdraw_authority, raw_withheld_amount, older_fee, newer_fee, raw_epoch,
    raw_maximum_fee, raw_basis_points, raw_delegate, hook_authority, hook_program_id,
  }

  unfoldable pub unpack_mint : List ℕ → Outcome TokenStateError Mint
  unpack_mint bytes = do
    let base_len = min mint_len (length bytes)
    base ← slice bytes 0 base_len
    map_err program (mint_unpack base)

  unfoldable pub unpack_token_account : List ℕ → Outcome TokenStateError TokenAccount
  unpack_token_account bytes = do
    let base_len = min account_len (length bytes)
    base ← slice bytes 0 base_len
    map_err program (account_unpack base)

  abbrev pub fee_of : RawFee → TransferFee
  fee_of raw = record {
    epoch = raw_epoch raw;
    maximum_fee = raw_maximum_fee raw;
    transfer_fee_basis_points = raw_basis_points raw;
  }

  abbrev pub fee_config_of : RawFeeConfig → TransferFeeConfig Key
  fee_config_of raw = record {
    transfer_fee_config_authority = config_authority raw;
    withdraw_withheld_authority = withdraw_authority raw;
    withheld_amount = raw_withheld_amount raw;
    older_transfer_fee = fee_of (older_fee raw);
    newer_transfer_fee = fee_of (newer_fee raw);
  }

  -- `let Ok(raw) = extension else { return Ok(None) };` and what follows it.
  abbrev pub let_ok :
      {Raw A : Type 0} → Outcome String Raw → (Raw → Option A) → Outcome TokenStateError (Option A)
  let_ok (ok raw) rest = ok (rest raw)
  let_ok (err e) rest = ok none
  let_ok panic rest = panic

  abbrev pub hook_config_of : RawHook → TransferHookConfig Key
  hook_config_of raw = record { authority = hook_authority raw; program_id = hook_program_id raw }

  unfoldable pub find_transfer_fee_config :
      List ℕ → Outcome TokenStateError (Option (TransferFeeConfig Key))
  find_transfer_fee_config mint_data = do
    state ← map_err program (state_unpack mint_data)
    let_ok (get_fee_config state) (λ raw. some (fee_config_of raw))

  unfoldable pub find_permanent_delegate : List ℕ → Outcome TokenStateError (Option Key)
  find_permanent_delegate mint_data = do
    state ← map_err program (state_unpack mint_data)
    let_ok (get_delegate state) raw_delegate

  unfoldable pub find_transfer_hook :
      List ℕ → Outcome TokenStateError (Option (TransferHookConfig Key))
  find_transfer_hook mint_data = do
    state ← map_err program (state_unpack mint_data)
    let_ok (get_hook state) (λ raw. some (hook_config_of raw))
