-- ===== src/UnitTests/Responses.antt =====
-- The tests of src/rpc/mod.rs in `tests::fixtures`: the documented responses on blockhashes and accounts.
use Prim.Native.String.{String}
use svm_wasi_core.Base.{ℕ, ◌>>=◌, ◌>>◌, ◌==◌, Bool, false, List, [], ◌∷◌, length, index, replicate}
use svm_wasi_core.Base.Search.{bytes_eq}
use svm_wasi_core.Rpc.{
  get_account_info, get_latest_blockhash, get_token_account_balance, get_token_accounts_by_owner,
  new_client,
}
use svm_wasi_core.Rpc.Values.{Json, Codecs}
use svm_wasi_core.Rpc.Mock.{ok_mock, mock_transport}
use svm_wasi_core.UnitTests.{same_string, Test, assert, unwrap, unwrap_some}

abbrev pub usdc_mint : String
usdc_mint = "EPjFWdd5AufqSSqeM2qN1xzybapC8G4wEGGkZwyTDt1v"

abbrev pub token_program : String
token_program = "TokenkegQfeZyiNwAJbNbGKPFXCWuBvf9Ss623VQ5DA"

abbrev pub ata : String
ata = "BmeV7UWExZeSboQXYW4biUVEx2SyYDVTdWhHoQEQcUFu"

abbrev pub owner : String
owner = "5Q544fKrFoe6tsEbD7S8EmxGTJYAKtTVhAW5Q5pge4j1"

-- What the tests use of the packages beside what the client uses: a null, a floating-point literal
-- and its comparison, the comparison and printing of keys and hashes, and the encoding to base64.
pub record Fixtures (J : Json) (Key Hash : Type 0) : Type 0 where
  pub json_null : J.Value
  pub json_float : J.Float → J.Value
  pub ui_amount : J.Float
  pub same_float : J.Float → J.Float → Bool
  pub same_key : Key → Key → Bool
  pub hash_to_string : Hash → String
  pub base64_encode : List ℕ → String

module _ (J : Json) {Key Hash : Type 0} (C : Codecs Key Hash) (F : Fixtures J Key Hash) where
  open J use {
    Value, json_object, json_number, json_string, json_bool, json_array, as_str, get, get_index,
  }
  open C use {key_from_str}
  open F use {json_null, json_float, same_float, same_key, hash_to_string, base64_encode}

  -- `{"context": {"slot": 433648265}, "value": value}`
  abbrev pub in_context : Value → Value
  in_context value =
      json_object
        (("context", json_object (("slot", json_number 433648265) ∷ [])) ∷ ("value", value) ∷ [])

  unfoldable pub parses_get_latest_blockhash : Test
  parses_get_latest_blockhash = do
    let client = new_client (
        ok_mock J (
          in_context (
            json_object (
              ("blockhash", json_string "EETubP5AKHgjPAhzPAFcb8BAY1hMH639CWCFTqi3hq1k")
              ∷ ("lastValidBlockHeight", json_number 275123456)
              ∷ []))
          ∷ []))
    info ← unwrap (get_latest_blockhash J mock_transport C client).0
    assert
        (same_string (hash_to_string info.blockhash) "EETubP5AKHgjPAhzPAFcb8BAY1hMH639CWCFTqi3hq1k")
    assert (info.last_valid_block_height == 275123456)

  unfoldable pub parses_get_account_info_for_the_known_ata : Test
  parses_get_account_info_for_the_known_ata = do
    let raw_data = replicate 165 0
    let encoded = base64_encode raw_data
    let client = new_client (
        ok_mock J (
          in_context (
            json_object (
              ("lamports", json_number 2039280)
              ∷ ("owner", json_string token_program)
              ∷ ("executable", json_bool false)
              ∷ ("rentEpoch", json_number 18446744073709551615)
              ∷ ("data", json_array (json_string encoded ∷ json_string "base64" ∷ []))
              ∷ ("space", json_number 165)
              ∷ []))
          ∷ []))
    address ← unwrap (key_from_str ata)
    found ← unwrap (get_account_info J mock_transport C address client).0
    account ← unwrap_some found
    assert (account.lamports == 2039280)
    program ← unwrap (key_from_str token_program)
    assert (same_key account.owner program)
    assert (account.rent_epoch == 18446744073709551615)
    assert (bytes_eq account.account_data raw_data)

  unfoldable pub parses_get_token_account_balance : Test
  parses_get_token_account_balance = do
    let client = new_client (
        ok_mock J (
          in_context (
            json_object (
              ("amount", json_string "6131218")
              ∷ ("decimals", json_number 6)
              ∷ ("uiAmount", json_float F.ui_amount)
              ∷ ("uiAmountString", json_string "6.131218")
              ∷ []))
          ∷ []))
    address ← unwrap (key_from_str ata)
    balance ← unwrap (get_token_account_balance J mock_transport C address client).0
    assert (same_string balance.amount "6131218")
    assert (balance.decimals == 6)
    ui_amount ← unwrap_some balance.ui_amount
    assert (same_float ui_amount F.ui_amount)

  -- `entry(pubkey, lamports)`
  abbrev pub token_entry : String → ℕ → Value
  token_entry pubkey lamports = json_object (
      ("pubkey", json_string pubkey)
      ∷ (
        "account",
        json_object (
            ("lamports", json_number lamports)
            ∷ ("owner", json_string token_program)
            ∷ ("executable", json_bool false)
            ∷ ("rentEpoch", json_number 18446744073709551615)
            ∷ (
              "data",
              json_array
                  (json_string (base64_encode (replicate 165 0)) ∷ json_string "base64" ∷ []),
            )
            ∷ ("space", json_number 165)
            ∷ []),
      )
      ∷ [])

  unfoldable pub parses_get_token_accounts_by_owner_with_two_entries : Test
  parses_get_token_accounts_by_owner_with_two_entries = do
    let client = new_client (
        ok_mock J (
          in_context (
            json_array (
              token_entry ata 2039280
              ∷ token_entry "14ivbuCkynkVJ1n1NVj4WyAFGXywxvS4TFzujP2o7bi" 2039280
              ∷ []))
          ∷ []))
    holder ← unwrap (key_from_str owner)
    mint ← unwrap (key_from_str usdc_mint)
    entries ← unwrap (get_token_accounts_by_owner J mock_transport C holder mint client).0
    assert (length entries == 2)
    first ← index entries 0
    address ← unwrap (key_from_str ata)
    assert (same_key first.pubkey address)
