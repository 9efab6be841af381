-- ===== src/Rpc/Decode.antt =====
-- The readers of src/rpc/mod.rs: from the JSON of a response to the crate's own types.
use Prim.Native.String.{◌++◌ as ◌⊕◌}
use mathlib.Core.Option
use svm_wasi_core.Base.{
  ℕ, String, ◌%◌, Bool, false, Option, none, some, List, [], ◌∷◌, Outcome, ok, ◌>>=◌, ok_or,
  map_err, if◌then◌else◌,
}
use svm_wasi_core.Base.Int.{ℤ}
use svm_wasi_core.Rpc.Errors.{RpcError}
use svm_wasi_core.Rpc.Values.{Json, Codecs}

pub record AccountInfo (Key : Type 0) : Type 0 where
  pub lamports : ℕ
  pub account_data : List ℕ
  pub owner : Key
  pub executable : Bool
  pub rent_epoch : ℕ

pub record BlockhashInfo (Hash : Type 0) : Type 0 where
  pub blockhash : Hash
  pub last_valid_block_height : ℕ

pub record TokenAmount (Float : Type 0) : Type 0 where
  pub amount : String
  pub decimals : ℕ
  pub ui_amount : Option Float

pub record TokenAccountEntry (Key : Type 0) : Type 0 where
  pub pubkey : Key
  pub account : AccountInfo Key

pub record SimulateTransactionResult (Value : Type 0) : Type 0 where
  pub error : Option Value
  pub logs : List String
  pub units_consumed : Option ℕ

pub record SignatureStatus (Value : Type 0) : Type 0 where
  pub slot : ℕ
  pub confirmations : Option ℕ
  pub error : Option Value
  pub confirmation_status : Option String

pub record SignatureInfo (Value : Type 0) : Type 0 where
  pub signature : String
  pub slot : ℕ
  pub error : Option Value
  pub memo : Option String
  pub block_time : Option ℤ
  pub confirmation_status : Option String

-- `iter().map(f).collect::<Result<Vec<_>, _>>()`: the first error ends it.
unfoldable pub collect : {E A B : Type 0} → (A → Outcome E B) → List A → Outcome E (List B)
collect f [] = ok []
collect f (x ∷ xs) = do y ← f x; ys ← collect f xs; ok (y ∷ ys)

module _ (J : Json) where
  open J use {
    Value, Float, get, get_index, as_str, as_u64, as_i64, as_f64, as_bool, as_array, is_null,
  }

  -- `.ok_or_else(|| RpcError::Decode(…))`
  abbrev pub or_decode : {A : Type 0} → Option A → String → Outcome RpcError A
  or_decode o text = ok_or o (RpcError.decode text)

  -- `require`
  unfoldable pub require : Value → String → Outcome RpcError Value
  require value field = or_decode (get value field) ("missing `" ⊕ field ⊕ "`")

  -- `value.get(field).cloned().filter(|v| !v.is_null())`
  unfoldable pub get_non_null : Value → String → Option Value
  get_non_null value field = elim (get value field) [
    | none ↦ none
    | some v ↦ if is_null v then none else some v
  ]

  -- `value.get(field).and_then(f)`
  abbrev pub get_and : {A : Type 0} → Value → String → (Value → Option A) → Option A
  get_and value field f = elim (get value field) [ none ↦ none | some v ↦ f v ]

  -- `arr.iter().filter_map(|v| v.as_str().map(String::from)).collect()`
  unfoldable pub strings_of : List Value → List String
  strings_of [] = []
  strings_of (v ∷ vs) = elim (as_str v) [ none ↦ strings_of vs | some s ↦ s ∷ strings_of vs ]

  -- The closures of the list methods: a null entry is `None`.
  abbrev pub nullable :
      {A : Type 0} → (Value → Outcome RpcError A) → Value → Outcome RpcError (Option A)
  nullable f entry = if is_null entry then ok none else (f entry >>= λ a. ok (some a))

  module _ {Key Hash : Type 0} (C : Codecs Key Hash) where
    open C use {key_from_str, hash_from_str, base64_decode}

    -- `decode_pubkey`
    unfoldable pub decode_pubkey : Value → String → Outcome RpcError Key
    decode_pubkey value field = do
      s ← or_decode (as_str value) ("expected a string for `" ⊕ field ⊕ "`")
      map_err (λ e. RpcError.decode ("invalid pubkey in `" ⊕ field ⊕ "`: " ⊕ e)) (key_from_str s)

    -- `decode_account_info`
    unfoldable pub decode_account_info : Value → Outcome RpcError (AccountInfo Key)
    decode_account_info value = do
      lamports_value ← require value "lamports"
      lamports ← or_decode (as_u64 lamports_value) "`lamports` is not a u64"
      owner_value ← require value "owner"
      owner ← decode_pubkey owner_value "owner"
      executable_value ← require value "executable"
      let executable = Option.get_or (as_bool executable_value) false
      rent_epoch_value ← require value "rentEpoch"
      rent_epoch ← or_decode (as_u64 rent_epoch_value) "`rentEpoch` is not a u64"
      data_value ← require value "data"
      base64_str ←
          or_decode (elim (get_index data_value 0) [ none ↦ none | some v ↦ as_str v ])
            "expected `data` as [base64, \"base64\"] — request base64 encoding"
      account_data ←
          map_err (λ e. RpcError.decode ("invalid base64 account data: " ⊕ e))
            (base64_decode base64_str)
      ok (record {
        lamports = lamports;
        account_data = account_data;
        owner = owner;
        executable = executable;
        rent_epoch = rent_epoch;
      })

    -- What `get_latest_blockhash` reads.
    unfoldable pub decode_blockhash_info : Value → Outcome RpcError (BlockhashInfo Hash)
    decode_blockhash_info value = do
      blockhash_value ← require value "blockhash"
      blockhash_str ← or_decode (as_str blockhash_value) "`blockhash` is not a string"
      blockhash ←
          map_err (λ e. RpcError.decode ("invalid blockhash: " ⊕ e)) (hash_from_str blockhash_str)
      height_value ← require value "lastValidBlockHeight"
      height ← or_decode (as_u64 height_value) "`lastValidBlockHeight` is not a u64"
      ok (record { blockhash = blockhash; last_valid_block_height = height })

    -- One entry of `get_token_accounts_by_owner`.
    unfoldable pub decode_token_account : Value → Outcome RpcError (TokenAccountEntry Key)
    decode_token_account entry = do
      pubkey_value ← require entry "pubkey"
      pubkey ← decode_pubkey pubkey_value "pubkey"
      account_value ← require entry "account"
      account ← decode_account_info account_value
      ok (record { pubkey = pubkey; account = account })

  -- What `get_token_account_balance` reads; `as u8` keeps the low eight bits.
  unfoldable pub decode_token_amount : Value → Outcome RpcError (TokenAmount Float)
  decode_token_amount value = do
    amount_value ← require value "amount"
    amount ← or_decode (as_str amount_value) "`amount` is not a string"
    decimals_value ← require value "decimals"
    decimals ← or_decode (as_u64 decimals_value) "`decimals` is not a number"
    ok (record {
      amount = amount;
      decimals = decimals % 256;
      ui_amount = get_and value "uiAmount" as_f64;
    })

  -- What `simulate_transaction` reads.
  unfoldable pub decode_simulation : Value → Outcome RpcError (SimulateTransactionResult Value)
  decode_simulation value = ok (record {
    error = get_non_null value "err";
    logs = elim (get_and value "logs" as_array) [ none ↦ [] | some entries ↦ strings_of entries ];
    units_consumed = get_and value "unitsConsumed" as_u64;
  })

  -- One entry of `get_signature_statuses`.
  unfoldable pub decode_signature_status : Value → Outcome RpcError (SignatureStatus Value)
  decode_signature_status entry = do
    slot_value ← require entry "slot"
    slot ← or_decode (as_u64 slot_value) "`slot` is not a u64"
    ok (record {
      slot = slot;
      confirmations = get_and entry "confirmations" as_u64;
      error = get_non_null entry "err";
      confirmation_status = get_and entry "confirmationStatus" as_str;
    })

  -- One entry of `get_signatures_for_address`.
  unfoldable pub decode_signature_info : Value → Outcome RpcError (SignatureInfo Value)
  decode_signature_info entry = do
    signature_value ← require entry "signature"
    signature ← or_decode (as_str signature_value) "`signature` is not a string"
    slot_value ← require entry "slot"
    slot ← or_decode (as_u64 slot_value) "`slot` is not a u64"
    ok (record {
      signature = signature;
      slot = slot;
      error = get_non_null entry "err";
      memo = get_and entry "memo" as_str;
      block_time = get_and entry "blockTime" as_i64;
      confirmation_status = get_and entry "confirmationStatus" as_str;
    })
