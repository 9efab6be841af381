-- ===== src/Examples/Arguments.antt =====
-- `parse_args` of the two examples that take flags.
pub mod Options
use Prim.Native.String.{◌++◌ as ◌⊕◌}
use svm_wasi_core.Base.{
  String, Bool, Option, none, some, List, [], ◌∷◌, Outcome, ok, err, ◌>>=◌, ok_or, map_err,
  if◌then◌else◌,
}
use svm_wasi_core.Texts.{string_eq}

-- The flags of the sweep.
pub data Flag : Type 0 where
  rpc_url_flag ephemeral_flag transaction_flag authority_flag unknown_flag : Flag

abbrev pub flag_of : String → Flag
flag_of flag =
    if string_eq flag "--rpc-url"
    then rpc_url_flag
    else if string_eq flag "--ephemeral-pubkey"
    then ephemeral_flag
    else if string_eq flag "--transaction-base64"
    then transaction_flag
    else if string_eq flag "--nonce-authority-keypair"
    then authority_flag
    else unknown_flag

-- `Args` of sign_and_broadcast_sweep.rs, and its fields while the flags are read.
pub record SweepArgs (Key : Type 0) : Type 0 where
  pub rpc_url : String
  pub ephemeral_pubkey : Key
  pub transaction_base64 : String
  pub nonce_authority_keypair_path : String

pub record SweepFlags (Key : Type 0) : Type 0 where
  pub rpc_url : Option String
  pub ephemeral_pubkey : Option Key
  pub transaction_base64 : Option String
  pub nonce_authority_keypair_path : Option String

module _ {Key : Type 0} where
  abbrev pub no_flags : SweepFlags Key
  no_flags = record {
    rpc_url = none;
    ephemeral_pubkey = none;
    transaction_base64 = none;
    nonce_authority_keypair_path = none;
  }

  -- The record that `parse_args` builds after the loop.
  unfoldable pub finish_sweep : SweepFlags Key → Outcome String (SweepArgs Key)
  finish_sweep f = do
    rpc_url ← ok_or f.rpc_url "missing --rpc-url"
    ephemeral_pubkey ← ok_or f.ephemeral_pubkey "missing --ephemeral-pubkey"
    transaction_base64 ← ok_or f.transaction_base64 "missing --transaction-base64"
    path ← ok_or f.nonce_authority_keypair_path "missing --nonce-authority-keypair"
    ok (record {
      rpc_url = rpc_url;
      ephemeral_pubkey = ephemeral_pubkey;
      transaction_base64 = transaction_base64;
      nonce_authority_keypair_path = path;
    })

  module _ (key_from_str : String → Outcome String Key) where
    -- One turn of the loop, with the value of the flag.
    unfoldable pub take_flag : String → String → SweepFlags Key → Outcome String (SweepFlags Key)
    take_flag flag value f = elim (flag_of flag) [
      | rpc_url_flag ↦ ok (record f { rpc_url = some value })
      | ephemeral_flag ↦ do
        k ← map_err (λ e. "--ephemeral-pubkey: " ⊕ e) (key_from_str value)
        ok (record f { ephemeral_pubkey = some k })
      | transaction_flag ↦ ok (record f { transaction_base64 = some value })
      | authority_flag ↦ ok (record f { nonce_authority_keypair_path = some value })
      | unknown_flag ↦ err ("unrecognized flag " ⊕ flag)
    ]

    unfoldable pub sweep_loop : List String → SweepFlags Key → Outcome String (SweepFlags Key)
    sweep_loop [] f = ok f
    sweep_loop (flag ∷ []) f = err (flag ⊕ " needs a value")
    sweep_loop (flag ∷ value ∷ rest) f = take_flag flag value f >>= sweep_loop rest

    -- `parse_args` of sign_and_broadcast_sweep.rs, on the arguments behind the program's name.
    unfoldable pub parse_sweep_args : List String → Outcome String (SweepArgs Key)
    parse_sweep_args args = sweep_loop args no_flags >>= finish_sweep

-- `Args` of create_durable_nonce_account.rs
pub record NonceArgs : Type 0 where
  pub nonce_rpc_url : String
  pub payer_keypair_path : String

unfoldable pub nonce_loop : List String → Option String → Option String → Outcome String NonceArgs
nonce_loop [] url path = do
  rpc_url ← ok_or url "missing --rpc-url"
  payer_keypair_path ← ok_or path "missing --payer-keypair"
  ok (record { nonce_rpc_url = rpc_url; payer_keypair_path = payer_keypair_path })
nonce_loop (flag ∷ []) url path = err (flag ⊕ " needs a value")
nonce_loop (flag ∷ value ∷ rest) url path =
    let with_url = nonce_loop rest (some value) path in
    let with_path = nonce_loop rest url (some value) in
    if string_eq flag "--rpc-url"
    then with_url
    else if string_eq flag "--payer-keypair"
    then with_path
    else err ("unrecognized flag " ⊕ flag)

-- `parse_args` of create_durable_nonce_account.rs, on the arguments behind the program's name.
unfoldable pub parse_nonce_args : List String → Outcome String NonceArgs
parse_nonce_args args = nonce_loop args none none
