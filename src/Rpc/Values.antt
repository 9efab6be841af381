-- ===== src/Rpc/Values.antt =====
-- What the RPC client uses of the packages serde_json, solana-pubkey, solana-hash and base64.
use svm_wasi_core.Base.{ℕ, String, Bool, Option, List, Outcome}
use svm_wasi_core.Base.Int.{ℤ}

-- serde_json: `Value` with its accessors, and what `json!` builds.
pub record Json : Type 1 where
  pub Value : Type 0
  pub Float : Type 0
  -- `v.get(field)` and `v.get(0)`
  pub get : Value → String → Option Value
  pub get_index : Value → ℕ → Option Value
  pub as_str : Value → Option String
  pub as_u64 : Value → Option ℕ
  pub as_i64 : Value → Option ℤ
  pub as_f64 : Value → Option Float
  pub as_bool : Value → Option Bool
  pub as_array : Value → Option (List Value)
  pub is_null : Value → Bool
  pub json_string : String → Value
  pub json_number : ℕ → Value
  pub json_bool : Bool → Value
  pub json_array : List Value → Value
  pub json_object : List (String × Value) → Value

-- Parsing and printing of keys, hashes and base64; an error is its text.
pub record Codecs (Key Hash : Type 0) : Type 0 where
  -- `Pubkey::from_str`, `pubkey.to_string()`, `Hash::from_str`
  pub key_from_str : String → Outcome String Key
  pub key_to_string : Key → String
  pub hash_from_str : String → Outcome String Hash
  -- `BASE64.decode`
  pub base64_decode : String → Outcome String (List ℕ)
