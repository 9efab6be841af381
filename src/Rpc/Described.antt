-- ===== src/Rpc/Described.antt =====
-- Which values `decode_account_info` reads, and to what.
use svm_wasi_core.Base.{
  ◌↔◌, Option-cases, inl, inr, arith, String, ◌≡◌, false, Option, none, some, ok,
}
use mathlib.Core.Option
use svm_wasi_core.Rpc.Values.{Json, Codecs}
use svm_wasi_core.Rpc.Decode.{AccountInfo, require, get_and, decode_pubkey, decode_account_info}

module _ (J : Json) {Key Hash : Type 0} (C : Codecs Key Hash) where
  open J use {Value, get, get_index, as_str, as_u64, as_bool}
  open C use {key_from_str, base64_decode}

  -- The value holds the account: each field under its name, in the form that the client asks for.
  pub record Describes (value : Value) (account : AccountInfo Key) : Type 0 where
    pub lamports : get_and J value "lamports" as_u64 ≡ some account.lamports
    pub owner_text : String
    pub owner_string : get_and J value "owner" as_str ≡ some owner_text
    pub owner : key_from_str owner_text ≡ ok account.owner
    pub executable_value : Value
    pub executable_there : get value "executable" ≡ some executable_value
    pub executable : Option.get_or (as_bool executable_value) false ≡ account.executable
    pub rent_epoch : get_and J value "rentEpoch" as_u64 ≡ some account.rent_epoch
    pub base64_text : String
    pub base64_string :
        get_and J value "data" (λ d. elim (get_index d 0) [ none ↦ none | some v ↦ as_str v ])
        ≡ some base64_text
    pub account_data : base64_decode base64_text ≡ ok account.account_data

  pub decode_account_info_described :
      (value : Value) (account : AccountInfo Key)
      → Describes value account
      → decode_account_info J C value ≡ ok account
  unfolding decode_account_info require decode_pubkey
  decode_account_info_described value account d = ground arith

  -- The text of the account's bytes.
  abbrev data_text : Value → Option String
  data_text value =
      get_and J value "data" (λ d. elim (get_index d 0) [ none ↦ none | some v ↦ as_str v ])

  pub Describes-decode_account_info :
      (value : Value) (account : AccountInfo Key)
      → decode_account_info J C value ≡ ok account
      → Describes value account
  unfolding decode_account_info require decode_pubkey
  Describes-decode_account_info value account h =
      elim (Option-cases (get_and J value "owner" as_str)) [
        | inl e ↦ absurd (ground arith)
        | inr (owner_text, e) ↦ elim (Option-cases (get value "executable")) [
          | inl f ↦ absurd (ground arith)
          | inr (executable_value, f) ↦ elim (Option-cases (data_text value)) [
            | inl g ↦ absurd (ground arith)
            | inr (base64_text, g) ↦ record {
              lamports = ground arith;
              owner_text = owner_text;
              owner_string = e;
              owner = ground arith;
              executable_value = executable_value;
              executable_there = f;
              executable = ground arith;
              rent_epoch = ground arith;
              base64_text = base64_text;
              base64_string = g;
              account_data = ground arith;
            }
          ]
        ]
      ]

  -- `decode_account_info` gives an account exactly on the values that hold it, with its fields in
  -- the form that the client asks for.
  pub decode_account_info-Describes :
      (value : Value) (account : AccountInfo Key)
      → (decode_account_info J C value ≡ ok account) ↔ Describes value account
  decode_account_info-Describes value account =
      (Describes-decode_account_info value account, decode_account_info_described value account)
