-- ===== src/UnitTests/Passing.antt =====
-- The tests on documented responses pass, over the sample JSON type and keys that are their texts.
use Prim.Native.Char.{nul}
use Prim.Native.String.{String}
use svm_wasi_core.Base.{ℕ, ◌≡◌, refl, ◌==◌, List, [], ◌∷◌, ok}
use svm_wasi_core.Shaping.Strings.{codes}
use svm_wasi_core.Rpc.Values.{Codecs}
use svm_wasi_core.Rpc.Mock.{ok_mock, new_mock, send_mock, pop}
use svm_wasi_core.Rpc.Decode.{
  decode_blockhash_info, decode_account_info, decode_token_amount, decode_token_account,
  decode_simulation, decode_signature_status, decode_signature_info, collect, get_non_null, require,
  decode_pubkey, strings_of,
}
use svm_wasi_core.Rpc.{
  call, call_value, envelope, value_of, read_with, get_latest_blockhash, get_account_info,
  get_token_account_balance, get_token_accounts_by_owner, simulate_transaction,
  get_signature_statuses, get_signatures_for_address, send_transaction,
  get_minimum_balance_for_rent_exemption,
}
use svm_wasi_core.Tests.Documents.{Document, sample_json}
use svm_wasi_core.UnitTests.{same_string}
use svm_wasi_core.UnitTests.Responses.{
  Fixtures, parses_get_latest_blockhash, parses_get_account_info_for_the_known_ata,
  parses_get_token_account_balance, parses_get_token_accounts_by_owner_with_two_entries,
}
use svm_wasi_core.UnitTests.Statuses.{
  parses_simulate_transaction_success, parses_simulate_transaction_failure_preserving_err_value,
  parses_get_signature_statuses_with_a_null_entry,
  parses_get_signatures_for_address_bare_array_result,
  get_signatures_for_address_returns_empty_for_an_unused_address,
  get_signatures_for_address_sends_until_when_provided, parses_send_transaction_signature,
  parses_get_minimum_balance_for_rent_exemption,
}

abbrev text_codecs : Codecs String String
text_codecs = record {
  key_from_str = λ s. ok s;
  key_to_string = λ k. k;
  hash_from_str = λ s. ok s;
  base64_decode = λ s. ok (codes s);
}

-- As many nul characters as there are bytes, which is the inverse of `codes` on zeros.
abbrev nuls : List ℕ → String
nuls [] = String.[]
nuls (b ∷ bs) = String.◌∷◌ nul (nuls bs)

abbrev fixtures : Fixtures sample_json String String
fixtures = record {
  json_null = Document.null;
  json_float = Document.number;
  ui_amount = 6131218;
  same_float = λ x y. x == y;
  same_key = same_string;
  hash_to_string = λ h. h;
  base64_encode = nuls;
}

parses_get_latest_blockhash_lem :
    parses_get_latest_blockhash sample_json text_codecs fixtures ≡ ok tt
unfolding parses_get_latest_blockhash get_latest_blockhash decode_blockhash_info call call_value
    value_of envelope read_with ok_mock new_mock send_mock pop require decode_pubkey
parses_get_latest_blockhash_lem = refl

parses_get_account_info_for_the_known_ata_lem :
    parses_get_account_info_for_the_known_ata sample_json text_codecs fixtures ≡ ok tt
unfolding parses_get_account_info_for_the_known_ata get_account_info decode_account_info call
    call_value value_of envelope read_with ok_mock new_mock send_mock pop require decode_pubkey
parses_get_account_info_for_the_known_ata_lem = refl

parses_get_token_account_balance_lem :
    parses_get_token_account_balance sample_json text_codecs fixtures ≡ ok tt
unfolding parses_get_token_account_balance get_token_account_balance decode_token_amount call
    call_value value_of envelope read_with ok_mock new_mock send_mock pop require
parses_get_token_account_balance_lem = refl

parses_get_token_accounts_by_owner_with_two_entries_lem :
    parses_get_token_accounts_by_owner_with_two_entries sample_json text_codecs fixtures ≡ ok tt
unfolding parses_get_token_accounts_by_owner_with_two_entries get_token_accounts_by_owner
    decode_token_account decode_account_info collect call call_value value_of envelope read_with
    ok_mock new_mock send_mock pop require decode_pubkey
parses_get_token_accounts_by_owner_with_two_entries_lem = refl

parses_simulate_transaction_success_lem :
    parses_simulate_transaction_success sample_json text_codecs fixtures ≡ ok tt
unfolding parses_simulate_transaction_success simulate_transaction decode_simulation get_non_null
    call call_value value_of envelope read_with ok_mock new_mock send_mock pop require strings_of
parses_simulate_transaction_success_lem = refl

parses_simulate_transaction_failure_preserving_err_value_lem :
    parses_simulate_transaction_failure_preserving_err_value sample_json text_codecs fixtures
    ≡ ok tt
unfolding parses_simulate_transaction_failure_preserving_err_value simulate_transaction
    decode_simulation get_non_null call call_value value_of envelope read_with ok_mock new_mock
    send_mock pop require
parses_simulate_transaction_failure_preserving_err_value_lem = refl

parses_get_signature_statuses_with_a_null_entry_lem :
    parses_get_signature_statuses_with_a_null_entry sample_json text_codecs fixtures ≡ ok tt
unfolding parses_get_signature_statuses_with_a_null_entry get_signature_statuses
    decode_signature_status get_non_null collect call call_value value_of envelope read_with ok_mock
    new_mock send_mock pop require
parses_get_signature_statuses_with_a_null_entry_lem = refl

parses_get_signatures_for_address_bare_array_result_lem :
    parses_get_signatures_for_address_bare_array_result sample_json text_codecs fixtures ≡ ok tt
unfolding parses_get_signatures_for_address_bare_array_result get_signatures_for_address
    decode_signature_info get_non_null collect call envelope read_with ok_mock new_mock send_mock
    pop require
parses_get_signatures_for_address_bare_array_result_lem = refl

get_signatures_for_address_returns_empty_for_an_unused_address_lem :
    get_signatures_for_address_returns_empty_for_an_unused_address sample_json text_codecs fixtures
    ≡ ok tt
unfolding get_signatures_for_address_returns_empty_for_an_unused_address get_signatures_for_address
    collect call envelope read_with ok_mock new_mock send_mock pop
get_signatures_for_address_returns_empty_for_an_unused_address_lem = refl

get_signatures_for_address_sends_until_when_provided_lem :
    get_signatures_for_address_sends_until_when_provided sample_json text_codecs fixtures ≡ ok tt
unfolding get_signatures_for_address_sends_until_when_provided get_signatures_for_address collect
    call envelope read_with ok_mock new_mock send_mock pop
get_signatures_for_address_sends_until_when_provided_lem = refl

parses_send_transaction_signature_lem :
    parses_send_transaction_signature sample_json text_codecs fixtures ≡ ok tt
unfolding parses_send_transaction_signature send_transaction call envelope read_with ok_mock
    new_mock send_mock pop
parses_send_transaction_signature_lem = refl

parses_get_minimum_balance_for_rent_exemption_lem :
    parses_get_minimum_balance_for_rent_exemption sample_json text_codecs fixtures ≡ ok tt
unfolding parses_get_minimum_balance_for_rent_exemption get_minimum_balance_for_rent_exemption call
    envelope read_with ok_mock new_mock send_mock pop
parses_get_minimum_balance_for_rent_exemption_lem = refl
