-- ===== src/UnitTests/Clients.antt =====
-- The tests of src/rpc/mod.rs that are not about one response, over a client of the mock transport.
use Prim.Native.String.{String}
use svm_wasi_core.Base.{◌&&◌, ◌≡◌, refl, ◌>>=◌, ◌>>◌, ◌==◌, not, ok, panic, [], ◌∷◌, index}
use svm_wasi_core.Base.Int.{ℤ, negsuc}
use svm_wasi_core.Keys.{Keys}
use svm_wasi_core.Rpc.{
  get_account_info, get_balance, get_minimum_balance_for_rent_exemption, new_client,
}
use svm_wasi_core.Rpc.Errors.{RpcError}
use svm_wasi_core.Rpc.Values.{Json, Codecs}
use svm_wasi_core.Rpc.Decode.{get_and}
use svm_wasi_core.Rpc.Mock.{new_mock, ok_mock, mock_transport}
use svm_wasi_core.Tests.Documents.{Document, integer, sample_json, sample_codecs}
use svm_wasi_core.Tests.Samples.{sample_keys}
use svm_wasi_core.UnitTests.{
  is_none, same_string, same_int, Test, assert, unwrap, unwrap_err, unwrap_some, is_err, is_text,
  pk,
}

-- `matches!` of an RPC error with its code and message.
abbrev assert_rpc : RpcError → ℤ → String → Test
assert_rpc (RpcError.rpc code message) c m = do
  assert (same_int code c)
  assert (same_string message m)
assert_rpc (RpcError.transport text) c m = panic
assert_rpc (RpcError.decode text) c m = panic

-- `json!` of a null and of an integer.
module _ (J : Json) (json_null : J.Value) (json_int : ℤ → J.Value) where
  open J use {Value, json_object, json_number, json_string, as_str, as_u64}

  module _ (K : Keys) {Hash : Type 0} (C : Codecs K.Key Hash) where
    unfoldable rpc_error_response_surfaces_code_and_message : Test
    rpc_error_response_surfaces_code_and_message = do
      let error = json_object (
          ("code", json_int (negsuc 32601))
          ∷ ("message", json_string "Invalid param: WrongSize")
          ∷ [])
      let client = new_client (new_mock (json_object (("error", error) ∷ []) ∷ []))
      error ← unwrap_err (get_balance J mock_transport C (pk K 1) client).0
      assert_rpc error (negsuc 32601) "Invalid param: WrongSize"

    unfoldable transport_failure_propagates_without_panicking : Test
    transport_failure_propagates_without_panicking = do
      let client = new_client (new_mock [])
      failed ← is_err (get_balance J mock_transport C (pk K 1) client).0
      assert failed

    unfoldable get_account_info_returns_none_for_missing_account : Test
    get_account_info_returns_none_for_missing_account = do
      let context = json_object (("slot", json_number 1) ∷ [])
      let client =
          new_client
            (ok_mock J (json_object (("context", context) ∷ ("value", json_null) ∷ []) ∷ []))
      account ← unwrap (get_account_info J mock_transport C (pk K 1) client).0
      assert (is_none account)

  unfoldable request_ids_increment_across_calls : Test
  request_ids_increment_across_calls = do
    let client = new_client (ok_mock J (json_number 1000000 ∷ json_number 2000000 ∷ []))
    let (a, client) = get_minimum_balance_for_rent_exemption J mock_transport 80 client
    a ← unwrap a
    let (b, client) = get_minimum_balance_for_rent_exemption J mock_transport 165 client
    b ← unwrap b
    assert ((a == 1000000) && (b == 2000000))
    first ← index client.transport.received 0
    id_a ← unwrap_some (get_and J first "id" as_u64)
    second ← index client.transport.received 1
    id_b ← unwrap_some (get_and J second "id" as_u64)
    assert (not (id_a == id_b))
    assert (is_text (get_and J first "jsonrpc" as_str) "2.0")
    assert (is_text (get_and J first "method" as_str) "getMinimumBalanceForRentExemption")

-- They pass over the sample JSON type.
rpc_error_response_surfaces_code_and_message_lem :
    rpc_error_response_surfaces_code_and_message sample_json Document.null integer sample_keys
      sample_codecs
    ≡ ok tt
unfolding rpc_error_response_surfaces_code_and_message get_balance svm_wasi_core.Rpc.call
    svm_wasi_core.Rpc.call_value svm_wasi_core.Rpc.envelope svm_wasi_core.Rpc.value_of
    svm_wasi_core.Rpc.read_with svm_wasi_core.Rpc.Mock.send_mock svm_wasi_core.Rpc.Mock.pop new_mock
    ok_mock
rpc_error_response_surfaces_code_and_message_lem = refl

transport_failure_propagates_without_panicking_lem :
    transport_failure_propagates_without_panicking sample_json Document.null integer sample_keys
      sample_codecs
    ≡ ok tt
unfolding transport_failure_propagates_without_panicking get_balance svm_wasi_core.Rpc.call
    svm_wasi_core.Rpc.call_value svm_wasi_core.Rpc.envelope svm_wasi_core.Rpc.value_of
    svm_wasi_core.Rpc.read_with svm_wasi_core.Rpc.Mock.send_mock svm_wasi_core.Rpc.Mock.pop new_mock
    ok_mock
transport_failure_propagates_without_panicking_lem = refl

get_account_info_returns_none_for_missing_account_lem :
    get_account_info_returns_none_for_missing_account sample_json Document.null integer sample_keys
      sample_codecs
    ≡ ok tt
unfolding get_account_info_returns_none_for_missing_account get_account_info svm_wasi_core.Rpc.call
    svm_wasi_core.Rpc.call_value svm_wasi_core.Rpc.envelope svm_wasi_core.Rpc.value_of
    svm_wasi_core.Rpc.read_with svm_wasi_core.Rpc.Mock.send_mock svm_wasi_core.Rpc.Mock.pop new_mock
    ok_mock
get_account_info_returns_none_for_missing_account_lem = refl

request_ids_increment_across_calls_lem :
    request_ids_increment_across_calls sample_json Document.null integer ≡ ok tt
unfolding request_ids_increment_across_calls get_minimum_balance_for_rent_exemption
    svm_wasi_core.Rpc.call svm_wasi_core.Rpc.call_value svm_wasi_core.Rpc.envelope
    svm_wasi_core.Rpc.value_of svm_wasi_core.Rpc.read_with svm_wasi_core.Rpc.Mock.send_mock
    svm_wasi_core.Rpc.Mock.pop new_mock ok_mock
request_ids_increment_across_calls_lem = refl
