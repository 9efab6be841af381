-- ===== src/UnitTests/Replays.antt =====
-- The tests of src/rpc/mock.rs. They pass for any JSON type.
use svm_wasi_core.Base.{some, String, ℕ, ◌≡◌, refl, ◌>>=◌, ◌>>◌, ◌==◌, ok, [], ◌∷◌, length, index}
use svm_wasi_core.Rpc.Values.{Json}
use svm_wasi_core.Rpc.Decode.{get_and}
use svm_wasi_core.Rpc.Mock.{new_mock, ok_mock, send_mock}
use svm_wasi_core.UnitTests.{Test, assert, assert_eq, assert_eq_holds, unwrap, is_err, is_text}

module _ (J : Json) where
  open J use {Value, json_object, json_number, json_string, as_str}

  -- `json!({"result": n})`
  abbrev result : ℕ → Value
  result n = json_object (("result", json_number n) ∷ [])

  unfoldable replays_responses_in_order : Discrete Value → Test
  replays_responses_in_order same = do
    let transport = new_mock (result 1 ∷ result 2 ∷ [])
    let (sent, transport) = send_mock transport (json_object [])
    first ← unwrap sent
    assert_eq same first (result 1)
    let (sent, transport) = send_mock transport (json_object [])
    second ← unwrap sent
    assert_eq same second (result 2)

  replays_responses_in_order_lem : (same : Discrete Value) → replays_responses_in_order same ≡ ok tt
  unfolding replays_responses_in_order new_mock send_mock svm_wasi_core.Rpc.Mock.pop
  replays_responses_in_order_lem same = rw (
    assert_eq_holds same (result 1) (result 1) refl,
    assert_eq_holds same (result 2) (result 2) refl,
  )

  unfoldable errors_once_exhausted_rather_than_panicking : Test
  errors_once_exhausted_rather_than_panicking = do
    let transport = new_mock (result 1 ∷ [])
    let (sent, transport) = send_mock transport (json_object [])
    first ← unwrap sent
    let (sent, transport) = send_mock transport (json_object [])
    refused ← is_err sent
    assert refused

  errors_once_exhausted_rather_than_panicking_lem :
      errors_once_exhausted_rather_than_panicking ≡ ok tt
  unfolding errors_once_exhausted_rather_than_panicking new_mock send_mock
      svm_wasi_core.Rpc.Mock.pop
  errors_once_exhausted_rather_than_panicking_lem = refl

  -- `json!({"id": n, "method": s})`
  abbrev numbered : ℕ → String → Value
  numbered n s = json_object (("id", json_number n) ∷ ("method", json_string s) ∷ [])

  unfoldable records_every_request_received : Test
  records_every_request_received = do
    let transport = ok_mock J (json_number 1 ∷ json_number 2 ∷ [])
    let (sent, transport) = send_mock transport (numbered 1 "a")
    first ← unwrap sent
    let (sent, transport) = send_mock transport (numbered 2 "b")
    second ← unwrap sent
    assert (length transport.received == 2)
    request ← index transport.received 0
    assert (is_text (get_and J request "method" as_str) "a")
    request ← index transport.received 1
    assert (is_text (get_and J request "method" as_str) "b")

  -- A field that stands in an object is found.
  abbrev FindsMethod : Type 0
  FindsMethod = (n : ℕ) (s : String) → get_and J (numbered n s) "method" as_str ≡ some s

  records_every_request_received_lem : FindsMethod → records_every_request_received ≡ ok tt
  unfolding records_every_request_received new_mock ok_mock send_mock svm_wasi_core.Rpc.Mock.pop
  records_every_request_received_lem finds = rw (finds 1 "a", finds 2 "b")
