-- ===== src/Transaction/Errors.antt =====
-- The two error types of src/transaction.rs; a `to_string()` of an inner error is its text.
use svm_wasi_core.Base.{String}

pub data SignTransactionError : Type 0 where
  not_a_required_signer : SignTransactionError

pub data ParseVersionedTransactionError : Type 0 where
  base64 : String → ParseVersionedTransactionError
  truncated : ParseVersionedTransactionError
  signatures : String → ParseVersionedTransactionError
  not_versioned : ParseVersionedTransactionError
  message : String → ParseVersionedTransactionError
