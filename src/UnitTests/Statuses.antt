-- ===== src/UnitTests/Statuses.antt =====
-- The tests of src/rpc/mod.rs in `tests::fixtures`: the documented responses on transactions and
-- signatures, and on the rent.
use Prim.Native.String.{String}
use svm_wasi_core.Base.{◌>>=◌, ◌>>◌, ◌==◌, not, none, some, [], ◌∷◌, length, index}
use svm_wasi_core.Rpc.{
  get_minimum_balance_for_rent_exemption, get_signature_statuses, get_signatures_for_address,
  send_transaction, simulate_transaction, new_client,
}
use svm_wasi_core.Rpc.Values.{Json, Codecs}
use svm_wasi_core.Rpc.Decode.{get_and}
use svm_wasi_core.Rpc.Mock.{ok_mock, mock_transport}
use svm_wasi_core.UnitTests.{same_string, Test, assert, unwrap, unwrap_some, is_none, is_text}
use svm_wasi_core.UnitTests.Responses.{Fixtures, in_context, ata}

abbrev pub sent_signature : String
sent_signature =
    "5VERv8NMvzbJMEkV8xnrLkEaWRtSz9CosKDYjCJjBRnbJLgp8uirBgmQpjKhoR4tjF3ZpRzrFmBV6UjKdiSZkQUW"

module _ (J : Json) {Key Hash : Type 0} (C : Codecs Key Hash) (F : Fixtures J Key Hash) where
  open J use {
    Value, json_object, json_number, json_string, json_bool, json_array, as_str, get, get_index,
  }
  open C use {key_from_str}
  open F use {json_null, json_float, same_float, same_key, hash_to_string, base64_encode}

  unfoldable pub parses_simulate_transaction_success : Test
  parses_simulate_transaction_success = do
    let client = new_client (
        ok_mock J (
          in_context J C F (
            json_object (
              ("err", json_null)
              ∷ (
                "logs",
                json_array (
                    json_string "Program 11111111111111111111111111111111 invoke [1]"
                    ∷ json_string "Program 11111111111111111111111111111111 success"
                    ∷ []),
              )
              ∷ ("accounts", json_null)
              ∷ ("unitsConsumed", json_number 150)
              ∷ ("returnData", json_null)
              ∷ []))
          ∷ []))
    result ← unwrap (simulate_transaction J mock_transport "base64tx==" client).0
    assert (is_none result.error)
    assert (length result.logs == 2)
    units ← unwrap_some result.units_consumed
    assert (units == 150)

  unfoldable pub parses_simulate_transaction_failure_preserving_err_value : Test
  parses_simulate_transaction_failure_preserving_err_value = do
    let instruction_error = json_array (json_number 0 ∷ json_string "Custom" ∷ json_number 1 ∷ [])
    let client = new_client (
        ok_mock J (
          in_context J C F (
            json_object (
              ("err", json_object (("InstructionError", instruction_error) ∷ []))
              ∷ (
                "logs",
                json_array (
                    json_string "Program 11111111111111111111111111111111 invoke [1]"
                    ∷ json_string
                        "Program 11111111111111111111111111111111 failed: custom program error: 0x1"
                    ∷ []),
              )
              ∷ ("unitsConsumed", json_number 0)
              ∷ []))
          ∷ []))
    result ← unwrap (simulate_transaction J mock_transport "base64tx==" client).0
    assert (not (is_none result.error))

  unfoldable pub parses_get_signature_statuses_with_a_null_entry : Test
  parses_get_signature_statuses_with_a_null_entry = do
    let status = json_object (
        ("slot", json_number 433648200)
        ∷ ("confirmations", json_null)
        ∷ ("err", json_null)
        ∷ ("confirmationStatus", json_string "finalized")
        ∷ [])
    let client =
        new_client (ok_mock J (in_context J C F (json_array (status ∷ json_null ∷ [])) ∷ []))
    statuses ← unwrap (get_signature_statuses J mock_transport ("sig1" ∷ "sig2" ∷ []) client).0
    assert (length statuses == 2)
    entry ← index statuses 0
    first ← unwrap_some entry
    assert (is_text first.confirmation_status "finalized")
    second ← index statuses 1
    assert (is_none second)

  unfoldable pub parses_get_signatures_for_address_bare_array_result : Test
  parses_get_signatures_for_address_bare_array_result = do
    let entry = json_object (
        ("signature", json_string sent_signature)
        ∷ ("slot", json_number 433648265)
        ∷ ("err", json_null)
        ∷ ("memo", json_string "invoice LOGO-04")
        ∷ ("blockTime", json_number 1798000000)
        ∷ ("confirmationStatus", json_string "confirmed")
        ∷ [])
    let client = new_client (ok_mock J (json_array (entry ∷ []) ∷ []))
    address ← unwrap (key_from_str ata)
    signatures ← unwrap (get_signatures_for_address J mock_transport C address none client).0
    assert (length signatures == 1)
    first ← index signatures 0
    assert (is_text first.memo "invoice LOGO-04")
    assert (is_text first.confirmation_status "confirmed")
    assert (is_none first.error)

  unfoldable pub get_signatures_for_address_returns_empty_for_an_unused_address : Test
  get_signatures_for_address_returns_empty_for_an_unused_address = do
    let client = new_client (ok_mock J (json_array [] ∷ []))
    address ← unwrap (key_from_str ata)
    signatures ← unwrap (get_signatures_for_address J mock_transport C address none client).0
    assert (length signatures == 0)

  unfoldable pub get_signatures_for_address_sends_until_when_provided : Test
  get_signatures_for_address_sends_until_when_provided = do
    let client = new_client (ok_mock J (json_array [] ∷ []))
    address ← unwrap (key_from_str ata)
    let (sent, client) =
        get_signatures_for_address J mock_transport C address (some "sig123") client
    signatures ← unwrap sent
    request ← index client.transport.received 0
    params ← unwrap_some (get request "params")
    config ← unwrap_some (get_index params 1)
    assert (is_text (get_and J config "until" as_str) "sig123")

  unfoldable pub parses_send_transaction_signature : Test
  parses_send_transaction_signature = do
    let client = new_client (ok_mock J (json_string sent_signature ∷ []))
    sig ← unwrap (send_transaction J mock_transport "base64tx==" client).0
    assert (same_string sig sent_signature)

  unfoldable pub parses_get_minimum_balance_for_rent_exemption : Test
  parses_get_minimum_balance_for_rent_exemption = do
    let client = new_client (ok_mock J (json_number 890880 ∷ []))
    least ← unwrap (get_minimum_balance_for_rent_exemption J mock_transport 165 client).0
    assert (least == 890880)
