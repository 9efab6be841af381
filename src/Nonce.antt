-- ===== src/Nonce.antt =====
-- src/nonce.rs: durable-nonce accounts.
pub mod Usable
use svm_wasi_core.Base.{ℕ, String, Option, none, some, List, Outcome, map_err, expect}

-- The enums `State` and `Versions` of the package solana-nonce, as this file matches on them.
pub data NonceState (Data : Type 0) : Type 0 where
  uninitialized : NonceState Data
  initialized : Data → NonceState Data

pub data NonceAccount (Data : Type 0) : Type 0 where
  legacy : NonceState Data → NonceAccount Data
  current : NonceState Data → NonceAccount Data

-- What this file calls of the packages solana-nonce and bincode.
pub record Nonces (Key Hash : Type 0) : Type 1 where
  pub Data : Type 0
  pub DurableNonce : Type 0
  -- `DurableNonce::from_blockhash`, `NonceData::new`, `data.blockhash()`, `NonceAccount::new`
  pub from_blockhash : Hash → DurableNonce
  pub new_data : Key → DurableNonce → ℕ → Data
  pub blockhash : Data → Hash
  pub new_account : NonceState Data → NonceAccount Data
  -- `bincode::serialize` and `bincode::deserialize`; an error is its text
  pub serialize : NonceAccount Data → Outcome String (List ℕ)
  pub deserialize : List ℕ → Outcome String (NonceAccount Data)

pub data NonceError : Type 0 where
  decode : String → NonceError

module _ {Key Hash : Type 0} (N : Nonces Key Hash) where
  open N use {Data, from_blockhash, new_data, blockhash, new_account, serialize, deserialize}

  unfoldable pub parse_nonce_account : List ℕ → Outcome NonceError (NonceAccount Data)
  parse_nonce_account bytes = map_err decode (deserialize bytes)

  unfoldable pub usable_blockhash : NonceAccount Data → Option Hash
  usable_blockhash (current (initialized d)) = some (blockhash d)
  usable_blockhash (current uninitialized) = none
  usable_blockhash (legacy s) = none

  unfoldable pub encode_initialized_nonce_account : Key → Hash → ℕ → Outcome NonceError (List ℕ)
  encode_initialized_nonce_account authority hash lamports_per_signature =
      let durable_nonce = from_blockhash hash in
      let d = new_data authority durable_nonce lamports_per_signature in
      let account = new_account (initialized d) in expect (serialize account)
