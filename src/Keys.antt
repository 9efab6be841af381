-- ===== src/Keys.antt =====
-- `pubkey.rs` and `hash.rs` pass on the types of the packages solana-pubkey and solana-hash.
-- What this crate relies on is an interface: a 32-byte array behind a type with equality.
use svm_wasi_core.Base.{ℕ, ◌≡◌, List, length}

-- `Pubkey` and `Hash` are each such a type.
pub record Keys : Type 1 where
  pub Key : Type 0
  -- `==`
  pub key_discrete : Discrete Key
  -- `Pubkey::new_from_array`, `Pubkey::as_ref` and `to_bytes`
  pub new_from_array : List ℕ → Key
  pub as_ref : Key → List ℕ
  -- `PUBKEY_BYTES` is 32, and the array is all that a key holds.
  pub length-as_ref : (k : Key) → length (as_ref k) ≡ 32
  pub new_from_array-as_ref : (k : Key) → new_from_array (as_ref k) ≡ k
  pub as_ref-new_from_array : (bs : List ℕ) → length bs ≡ 32 → as_ref (new_from_array bs) ≡ bs
