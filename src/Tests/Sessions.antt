-- ===== src/Tests/Sessions.antt =====
-- The theorems on the RPC client, at concrete inputs.
use svm_wasi_core.Base.{arith, ◌↔◌, ◌≡◌, refl, false, some, none, String, List, [], ◌∷◌, ok, err}
use svm_wasi_core.Shaping.Strings.{codes}
use svm_wasi_core.Rpc.Errors.{RpcError}
use svm_wasi_core.Rpc.Decode.{
  BlockhashInfo, TokenAccountEntry, SignatureStatus, SignatureInfo, decode_blockhash_info,
  decode_token_account, decode_signature_status, decode_signature_info, AccountInfo,
  decode_account_info,
}
use svm_wasi_core.Rpc.Readers.{HoldsBlockhash, HoldsEntry, HoldsStatus, HoldsInfo, readers-Holds}
use svm_wasi_core.Rpc.{
  call, call_value, Client, Transport, new_client, request, envelope, get_latest_blockhash,
  get_balance, get_account_info, get_multiple_accounts, get_token_account_balance,
  get_token_accounts_by_owner, simulate_transaction, send_transaction, get_signature_statuses,
  get_signatures_for_address, get_minimum_balance_for_rent_exemption,
}
use svm_wasi_core.Rpc.Mock.{new_mock}
use svm_wasi_core.Rpc.Session.{run_calls, answers, requests, run_calls-new_mock}
use svm_wasi_core.Rpc.Described.{Describes}
use svm_wasi_core.Rpc.Results.{AccountsRead, get_multiple_accounts-ReadFrom}
use svm_wasi_core.Rpc.Ids.{Ids, run, run-Ids}
use svm_wasi_core.Rpc.Calls.{Answer, Valued, call-Answer}
use svm_wasi_core.Tests.Vectors.{Vec, vec_of}
use svm_wasi_core.Tests.Samples.{key}
use svm_wasi_core.Tests.Documents.{Document, sample_json, sample_codecs}

abbrev two_calls : List (String × Document)
two_calls = ("getBalance", sample_json.json_array []) ∷ ("getSlot", sample_json.json_array []) ∷ []

abbrev one_response : List Document
one_response = sample_json.json_object (("result", sample_json.json_number 5) ∷ []) ∷ []

run_calls-new_mock_example :
    ((run_calls sample_json two_calls (new_client (new_mock one_response))).0
      ≡ answers sample_json two_calls one_response)
    × ((run_calls sample_json two_calls (new_client (new_mock one_response))).1.transport.received
        ≡ requests sample_json 1 two_calls)
run_calls-new_mock_example = run_calls-new_mock sample_json two_calls one_response

abbrev account : AccountInfo (Vec 32)
account = record {
  lamports = 5;
  account_data = codes "ab";
  owner = vec_of 32 (codes "owner");
  executable = false;
  rent_epoch = 3;
}

abbrev account_json : Document
account_json = sample_json.json_object (
    ("lamports", sample_json.json_number 5)
    ∷ ("owner", sample_json.json_string "owner")
    ∷ ("executable", sample_json.json_bool false)
    ∷ ("rentEpoch", sample_json.json_number 3)
    ∷ (
      "data",
      sample_json.json_array (sample_json.json_string "ab" ∷ sample_json.json_string "base64" ∷ []),
    )
    ∷ [])

-- A value with the fields of all five results.
abbrev whole_json : Document
whole_json = sample_json.json_object (
    ("lamports", sample_json.json_number 5)
    ∷ ("owner", sample_json.json_string "owner")
    ∷ ("executable", sample_json.json_bool false)
    ∷ ("rentEpoch", sample_json.json_number 3)
    ∷ (
      "data",
      sample_json.json_array (sample_json.json_string "ab" ∷ sample_json.json_string "base64" ∷ []),
    )
    ∷ ("blockhash", sample_json.json_string "hash")
    ∷ ("lastValidBlockHeight", sample_json.json_number 7)
    ∷ ("pubkey", sample_json.json_string "key")
    ∷ ("account", account_json)
    ∷ ("signature", sample_json.json_string "signature")
    ∷ ("slot", sample_json.json_number 9)
    ∷ ("err", Document.null)
    ∷ [])

abbrev status : SignatureStatus Document
status = record { slot = 9; confirmations = none; error = none; confirmation_status = none }

abbrev signature_info : SignatureInfo Document
signature_info = record {
  signature = "signature";
  slot = 9;
  error = none;
  memo = none;
  block_time = none;
  confirmation_status = none;
}

abbrev blockhash_info : BlockhashInfo (Vec 32)
blockhash_info = record { blockhash = vec_of 32 (codes "hash"); last_valid_block_height = 7 }

abbrev token_account : TokenAccountEntry (Vec 32)
token_account = record { pubkey = vec_of 32 (codes "key"); account = account }

readers-Holds_example :
    ((decode_account_info sample_json sample_codecs whole_json ≡ ok account)
      ↔ Describes sample_json sample_codecs whole_json account)
    × ((decode_blockhash_info sample_json sample_codecs whole_json ≡ ok blockhash_info)
        ↔ HoldsBlockhash sample_json sample_codecs whole_json blockhash_info)
    × ((decode_token_account sample_json sample_codecs whole_json ≡ ok token_account)
        ↔ HoldsEntry sample_json sample_codecs whole_json token_account)
    × ((decode_signature_status sample_json whole_json ≡ ok status)
        ↔ HoldsStatus sample_json whole_json status)
    × ((decode_signature_info sample_json whole_json ≡ ok signature_info)
        ↔ HoldsInfo sample_json whole_json signature_info)
readers-Holds_example =
    readers-Holds sample_json sample_codecs whole_json account blockhash_info token_account status
      signature_info

-- A transport that is down.
abbrev down : Transport Document
down = record { State = Unit {0}; send = λ s q. (err (RpcError.transport "refused"), s) }

call-Answer_example :
    Answer sample_json
      (err (RpcError.transport "refused"))
      (call sample_json down "getSlot" (sample_json.json_array []) (new_client tt)).0
    × Valued sample_json "getSlot"
        (call sample_json down "getSlot" (sample_json.json_array []) (new_client tt)).0
        (call_value sample_json down "getSlot" (sample_json.json_array []) (new_client tt)).0
    × ((call sample_json down "getSlot" (sample_json.json_array []) (new_client tt)).1
        ≡ record { transport = tt; next_id = 2 })
    × ((call_value sample_json down "getSlot" (sample_json.json_array []) (new_client tt)).1
        ≡ record { transport = tt; next_id = 2 })
call-Answer_example =
    call-Answer sample_json down "getSlot" (sample_json.json_array []) (new_client tt)

run-Ids_example :
    Ids sample_json down two_calls
      (run sample_json down two_calls (new_client (tt, []))).transport.1
run-Ids_example = run-Ids sample_json down two_calls tt (omega arith) (λ id method params. refl)

-- A server that knows one of two accounts.
abbrev accounts_server : Transport Document
accounts_server = record {
  State = Unit {0};
  send = λ s q. (
    ok (
        sample_json.json_object (
          (
            "result",
            sample_json.json_object
                (("value", sample_json.json_array (account_json ∷ Document.null ∷ [])) ∷ []),
          )
          ∷ [])),
    s,
  );
}

get_multiple_accounts-ReadFrom_example :
    ((get_multiple_accounts sample_json accounts_server sample_codecs
        (key 1 ∷ key 2 ∷ [])
        (new_client tt)).0
      ≡ ok (some account ∷ none ∷ []))
    ↔ AccountsRead sample_json sample_codecs accounts_server
        (new_client tt)
        (key 1 ∷ key 2 ∷ [])
        (some account ∷ none ∷ [])
get_multiple_accounts-ReadFrom_example =
    get_multiple_accounts-ReadFrom sample_json sample_codecs accounts_server (new_client tt)
      (key 1 ∷ key 2 ∷ []) (some account ∷ none ∷ [])

-- The list that it returns there.
returned :
    (get_multiple_accounts sample_json accounts_server sample_codecs
      (key 1 ∷ key 2 ∷ [])
      (new_client tt)).0
    ≡ ok (some account ∷ none ∷ [])
unfolding get_multiple_accounts call_value svm_wasi_core.Rpc.call envelope
    svm_wasi_core.Rpc.value_of svm_wasi_core.Rpc.Decode.collect decode_account_info
    svm_wasi_core.Rpc.Decode.require svm_wasi_core.Rpc.Decode.decode_pubkey
returned = refl
