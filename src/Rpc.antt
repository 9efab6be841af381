-- ===== src/Rpc.antt =====
-- src/rpc/mod.rs: the JSON-RPC client, over any transport.
-- A call returns its result with the client that it leaves; the request counter is an `AtomicU64`.
pub mod Values
pub mod Errors
pub mod Decode
pub mod Mock
pub mod Session
pub mod Described
pub mod Failures
pub mod Results
pub mod Readers
pub mod Calls
pub mod Ids
use Prim.Native.String.{◌++◌ as ◌⊕◌}
use mathlib.Core.Option
use Values.{Json, Codecs}
use Errors.{RpcError}
use Decode.{
  AccountInfo, BlockhashInfo, TokenAmount, TokenAccountEntry, SimulateTransactionResult,
  SignatureStatus, SignatureInfo, collect, or_decode, nullable, get_and, decode_account_info,
  decode_blockhash_info, decode_token_account, decode_token_amount, decode_simulation,
  decode_signature_status, decode_signature_info,
}
use svm_wasi_core.Base.{
  ℕ, String, ◌+◌, ◌%◌, ◌^◌, Bool, false, true, Option, none, some, List, [], ◌∷◌, ◌++◌, map,
  Outcome, ok, err, panic, ◌>>=◌, ok_or, if◌then◌else◌,
}
use svm_wasi_core.Base.Int.{ℤ, pos}

-- `trait RpcTransport`, with the state that an implementation keeps.
pub record Transport (Value : Type 0) : Type 1 where
  pub State : Type 0
  pub send : State → Value → Outcome RpcError Value × State

-- `RpcClient`
pub record Client (State : Type 0) : Type 0 where
  pub transport : State
  pub next_id : ℕ

abbrev pub Call : Type 0 → Type 0 → Type 0
Call State A = Client State → Outcome RpcError A × Client State

-- `RpcClient::new`
abbrev pub new_client : {State : Type 0} → State → Client State
new_client transport = record { transport = transport; next_id = 1 }

-- `let value = call?;` and a reading of the value
unfoldable pub read_with :
    {State A B : Type 0} → Call State A → (A → Outcome RpcError B) → Call State B
read_with m f c = let (r, c') = m c in (r >>= f, c')

module _ (J : Json) where
  open J use {
    Value, Float, get, as_str, as_u64, as_i64, as_array, is_null, json_string, json_number,
    json_bool, json_array, json_object,
  }

  -- `json!({ "jsonrpc": "2.0", "id": id, "method": method, "params": params })`
  abbrev pub request : ℕ → String → Value → Value
  request id method params = json_object (
      ("jsonrpc", json_string "2.0")
      ∷ ("id", json_number id)
      ∷ ("method", json_string method)
      ∷ ("params", params)
      ∷ [])

  -- The `RpcError::Rpc` for an `error` object.
  abbrev pub rpc_error : Value → RpcError
  rpc_error error =
      RpcError.rpc (Option.get_or (get_and J error "code" as_i64) (pos 0))
        (Option.get_or (get_and J error "message" as_str) "unknown RPC error")

  -- How `call` reads a response.
  unfoldable pub envelope : Value → Outcome RpcError Value
  envelope response = elim (get response "error") [
    | some error ↦ err (rpc_error error)
    | none ↦ or_decode J (get response "result") "response has neither `result` nor `error`"
  ]

  -- How `call_value` reads the result of `call`.
  unfoldable pub value_of : String → Value → Outcome RpcError Value
  value_of method result =
      or_decode J (get result "value") ("`" ⊕ method ⊕ "` result missing `value`")

  abbrev pub commitment : String × Value
  commitment = ("commitment", json_string "confirmed")

  abbrev pub base64_encoding : String × Value
  base64_encoding = ("encoding", json_string "base64")

  module _ (T : Transport Value) where
    open T use {State, send}

    -- `RpcClient::call`; `fetch_add` wraps.
    unfoldable pub call : String → Value → Call State Value
    call method params c =
        let (response, transport) = send c.transport (request c.next_id method params) in
        (
          response >>= envelope,
          record { transport = transport; next_id = (c.next_id + 1) % 2 ^ 64 },
        )

    -- `RpcClient::call_value`
    unfoldable pub call_value : String → Value → Call State Value
    unfolding read_with
    call_value method params = read_with (call method params) (value_of method)

    abbrev pub array_of :
        {A : Type 0} → (Value → Outcome RpcError A) → String → Value → Outcome RpcError (List A)
    array_of f text value = do entries ← or_decode J (as_array value) text; collect f entries

    unfoldable pub simulate_transaction : String → Call State (SimulateTransactionResult Value)
    unfolding read_with
    simulate_transaction transaction_base64 =
        read_with
          (call_value "simulateTransaction" (
            json_array (
              json_string transaction_base64
              ∷ json_object (base64_encoding ∷ commitment ∷ ("sigVerify", json_bool false) ∷ [])
              ∷ [])))
          (decode_simulation J)

    unfoldable pub send_transaction : String → Call State String
    unfolding read_with
    send_transaction transaction_base64 =
        read_with
          (call "sendTransaction" (
            json_array (
              json_string transaction_base64
              ∷ json_object
                  (base64_encoding ∷ ("preflightCommitment", json_string "confirmed") ∷ [])
              ∷ [])))
          (λ result. or_decode J (as_str result) "expected a string signature")

    unfoldable pub get_signature_statuses :
        List String → Call State (List (Option (SignatureStatus Value)))
    unfolding read_with
    get_signature_statuses signatures =
        read_with
          (call_value "getSignatureStatuses" (
            json_array (
              json_array (map json_string signatures)
              ∷ json_object (("searchTransactionHistory", json_bool true) ∷ [])
              ∷ [])))
          (array_of (nullable J (decode_signature_status J)) "expected an array `value`")

    unfoldable pub get_minimum_balance_for_rent_exemption : ℕ → Call State ℕ
    unfolding read_with
    get_minimum_balance_for_rent_exemption data_len =
        read_with
          (call "getMinimumBalanceForRentExemption" (json_array (json_number data_len ∷ [])))
          (λ result. or_decode J (as_u64 result) "expected a u64 result")

    module _ {Key Hash : Type 0} (C : Codecs Key Hash) where
      open C use {key_to_string}

      abbrev pub json_key : Key → Value
      json_key pubkey = json_string (key_to_string pubkey)

      unfoldable pub get_latest_blockhash : Call State (BlockhashInfo Hash)
      unfolding read_with
      get_latest_blockhash =
          read_with
            (call_value "getLatestBlockhash" (json_array (json_object (commitment ∷ []) ∷ [])))
            (decode_blockhash_info J C)

      unfoldable pub get_balance : Key → Call State ℕ
      unfolding read_with
      get_balance pubkey =
          read_with
            (call_value "getBalance"
              (json_array (json_key pubkey ∷ json_object (commitment ∷ []) ∷ [])))
            (λ value. or_decode J (as_u64 value) "expected a u64 `value`")

      unfoldable pub get_account_info : Key → Call State (Option (AccountInfo Key))
      unfolding read_with
      get_account_info pubkey =
          read_with
            (call_value "getAccountInfo"
              (json_array (json_key pubkey ∷ json_object (base64_encoding ∷ commitment ∷ []) ∷ [])))
            (nullable J (decode_account_info J C))

      unfoldable pub get_multiple_accounts : List Key → Call State (List (Option (AccountInfo Key)))
      unfolding read_with
      get_multiple_accounts pubkeys =
          read_with
            (call_value "getMultipleAccounts" (
              json_array (
                json_array (map json_key pubkeys)
                ∷ json_object (base64_encoding ∷ commitment ∷ [])
                ∷ [])))
            (array_of (nullable J (decode_account_info J C)) "expected an array `value`")

      unfoldable pub get_token_account_balance : Key → Call State (TokenAmount Float)
      unfolding read_with
      get_token_account_balance token_account =
          read_with
            (call_value "getTokenAccountBalance"
              (json_array (json_key token_account ∷ json_object (commitment ∷ []) ∷ [])))
            (decode_token_amount J)

      unfoldable pub get_token_accounts_by_owner :
          Key → Key → Call State (List (TokenAccountEntry Key))
      unfolding read_with
      get_token_accounts_by_owner owner mint =
          read_with
            (call_value "getTokenAccountsByOwner" (
              json_array (
                json_key owner
                ∷ json_object (("mint", json_key mint) ∷ [])
                ∷ json_object (base64_encoding ∷ commitment ∷ [])
                ∷ [])))
            (array_of (decode_token_account J C) "expected an array `value`")

      -- The `until` entry is there only when it is given.
      unfoldable pub get_signatures_for_address :
          Key → Option String → Call State (List (SignatureInfo Value))
      unfolding read_with
      get_signatures_for_address address until =
          read_with
            (call "getSignaturesForAddress" (
              json_array (
                json_key address
                ∷ json_object (
                    commitment
                    ∷ (elim until [ none ↦ [] | some s ↦ ("until", json_string s) ∷ [] ]))
                ∷ [])))
            (array_of (decode_signature_info J) "expected an array result")
