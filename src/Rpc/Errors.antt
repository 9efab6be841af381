-- ===== src/Rpc/Errors.antt =====
-- `RpcError` of src/rpc/mod.rs, with the texts that its messages are formatted to.
use svm_wasi_core.Base.{String}
use svm_wasi_core.Base.Int.{ℤ}

pub data RpcError : Type 0 where
  transport : String → RpcError
  rpc : (code : ℤ) (message : String) → RpcError
  decode : String → RpcError
