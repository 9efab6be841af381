-- ===== src/Rpc/Readers.antt =====
-- Which values the readers of the client's results accept, and what they make of them.
use svm_wasi_core.Base.{String, ◌↔◌, Option-cases, inl, inr, arith, ℕ, ◌≡◌, ◌<◌, ◌%◌, some, ok}
use svm_wasi_core.Rpc.Values.{Json, Codecs}
use svm_wasi_core.Rpc.Described.{Describes, decode_account_info-Describes}
use svm_wasi_core.Rpc.Decode.{
  AccountInfo, BlockhashInfo, TokenAccountEntry, SignatureStatus, SignatureInfo, get_non_null,
  decode_pubkey, decode_account_info, decode_blockhash_info, decode_token_account,
  decode_signature_status, decode_signature_info, TokenAmount, require, get_and,
  decode_token_amount,
}

module _ (J : Json) where
  open J use {Value, Float, get, as_str, as_u64, as_i64, as_f64}

  -- The value holds the amount, and a count of decimals of which the low eight bits are kept.
  pub record HoldsAmount (value : Value) (t : TokenAmount Float) : Type 0 where
    pub amount : get_and J value "amount" as_str ≡ some t.amount
    pub wide_decimals : ℕ
    pub read : get_and J value "decimals" as_u64 ≡ some wide_decimals
    pub low : wide_decimals % 256 ≡ t.decimals
    pub ui_amount : get_and J value "uiAmount" as_f64 ≡ t.ui_amount

  decode_token_amount_held :
      (value : Value) (t : TokenAmount Float)
      → HoldsAmount value t
      → decode_token_amount J value ≡ ok t
  unfolding decode_token_amount require
  decode_token_amount_held value t h = ground arith

  HoldsAmount-decode_token_amount :
      (value : Value) (t : TokenAmount Float)
      → decode_token_amount J value ≡ ok t
      → HoldsAmount value t
  unfolding decode_token_amount require
  HoldsAmount-decode_token_amount value t h =
      elim (Option-cases (get_and J value "decimals" as_u64)) [
        | inl e ↦ absurd (ground arith)
        | inr (d, e) ↦ record {
          amount = ground arith;
          wide_decimals = d;
          read = e;
          low = ground arith;
          ui_amount = ground arith;
        }
      ]

  -- The reader of a token balance gives an amount exactly on the values that hold it under the
  -- names of the JSON-RPC interface, with the low eight bits of the count of decimals. Those are
  -- the count itself exactly when it is below 256, and a smaller number otherwise.
  pub decode_token_amount-HoldsAmount :
      (value : Value) (t : TokenAmount Float)
      → ((decode_token_amount J value ≡ ok t) ↔ HoldsAmount value t)
        × ((h : HoldsAmount value t)
            → (t.decimals < 256) × ((t.decimals ≡ h.wide_decimals) ↔ (h.wide_decimals < 256)))
  decode_token_amount-HoldsAmount value t = (
    (HoldsAmount-decode_token_amount value t, decode_token_amount_held value t),
    λ h.
        let low : h.wide_decimals % 256 ≡ t.decimals = h.low in
        (omega (arith, low), (λ e. omega (arith, low, e), λ l. omega (arith, low, l))),
  )

  -- The value holds the four fields of a signature's status.
  pub record HoldsStatus (entry : Value) (s : SignatureStatus Value) : Type 0 where
    pub slot : get_and J entry "slot" as_u64 ≡ some s.slot
    pub confirmations : get_and J entry "confirmations" as_u64 ≡ s.confirmations
    pub error : get_non_null J entry "err" ≡ s.error
    pub confirmation_status : get_and J entry "confirmationStatus" as_str ≡ s.confirmation_status

  -- The value holds the six fields of an entry of an address's history.
  pub record HoldsInfo (entry : Value) (i : SignatureInfo Value) : Type 0 where
    pub signature : get_and J entry "signature" as_str ≡ some i.signature
    pub slot : get_and J entry "slot" as_u64 ≡ some i.slot
    pub error : get_non_null J entry "err" ≡ i.error
    pub memo : get_and J entry "memo" as_str ≡ i.memo
    pub block_time : get_and J entry "blockTime" as_i64 ≡ i.block_time
    pub confirmation_status : get_and J entry "confirmationStatus" as_str ≡ i.confirmation_status

  decode_signature_status-HoldsStatus :
      (entry : Value) (s : SignatureStatus Value)
      → (decode_signature_status J entry ≡ ok s) ↔ HoldsStatus entry s
  unfolding decode_signature_status require
  decode_signature_status-HoldsStatus entry s = (
    λ h. record {
      slot = ground arith;
      confirmations = ground arith;
      error = ground arith;
      confirmation_status = ground arith;
    },
    λ h. ground arith,
  )

  decode_signature_info-HoldsInfo :
      (entry : Value) (i : SignatureInfo Value)
      → (decode_signature_info J entry ≡ ok i) ↔ HoldsInfo entry i
  unfolding decode_signature_info require
  decode_signature_info-HoldsInfo entry i = (
    λ h. record {
      signature = ground arith;
      slot = ground arith;
      error = ground arith;
      memo = ground arith;
      block_time = ground arith;
      confirmation_status = ground arith;
    },
    λ h. ground arith,
  )

  module _ {Key Hash : Type 0} (C : Codecs Key Hash) where
    open C use {key_from_str, hash_from_str}

    -- The value holds a blockhash that parses, and its height.
    pub record HoldsBlockhash (value : Value) (b : BlockhashInfo Hash) : Type 0 where
      pub blockhash_text : String
      pub blockhash_string : get_and J value "blockhash" as_str ≡ some blockhash_text
      pub blockhash : hash_from_str blockhash_text ≡ ok b.blockhash
      pub height : get_and J value "lastValidBlockHeight" as_u64 ≡ some b.last_valid_block_height

    -- The value holds a key that parses, and an account.
    pub record HoldsEntry (entry : Value) (e : TokenAccountEntry Key) : Type 0 where
      pub key_text : String
      pub key_string : get_and J entry "pubkey" as_str ≡ some key_text
      pub pubkey : key_from_str key_text ≡ ok e.pubkey
      pub account_value : Value
      pub account_there : get entry "account" ≡ some account_value
      pub account : decode_account_info J C account_value ≡ ok e.account

    HoldsBlockhash-decode_blockhash_info :
        (value : Value) (b : BlockhashInfo Hash)
        → decode_blockhash_info J C value ≡ ok b
        → HoldsBlockhash value b
    unfolding decode_blockhash_info require
    HoldsBlockhash-decode_blockhash_info value b h =
        elim (Option-cases (get_and J value "blockhash" as_str)) [
          | inl e ↦ absurd (ground arith)
          | inr (text, e) ↦ record {
            blockhash_text = text;
            blockhash_string = e;
            blockhash = ground arith;
            height = ground arith;
          }
        ]

    decode_blockhash_info_held :
        (value : Value) (b : BlockhashInfo Hash)
        → HoldsBlockhash value b
        → decode_blockhash_info J C value ≡ ok b
    unfolding decode_blockhash_info require
    decode_blockhash_info_held value b h = ground arith

    HoldsEntry-decode_token_account :
        (entry : Value) (e : TokenAccountEntry Key)
        → decode_token_account J C entry ≡ ok e
        → HoldsEntry entry e
    unfolding decode_token_account require decode_pubkey
    HoldsEntry-decode_token_account entry e h =
        elim (Option-cases (get_and J entry "pubkey" as_str)) [
          | inl n ↦ absurd (ground arith)
          | inr (text, n) ↦ elim (Option-cases (get entry "account")) [
            | inl m ↦ absurd (ground arith)
            | inr (value, m) ↦ record {
              key_text = text;
              key_string = n;
              pubkey = ground arith;
              account_value = value;
              account_there = m;
              account = ground arith;
            }
          ]
        ]

    decode_token_account_held :
        (entry : Value) (e : TokenAccountEntry Key)
        → HoldsEntry entry e
        → decode_token_account J C entry ≡ ok e
    unfolding decode_token_account require decode_pubkey
    decode_token_account_held entry e h = ground arith

    -- The readers of an account, a blockhash, an entry of a wallet's token accounts, a signature's
    -- status and an entry of an address's history each give a result exactly on the values that
    -- hold it, under the names of the JSON-RPC interface: the required fields present and of their
    -- types, and an optional field of another type read as missing. An account's `executable` has
    -- to be there, and is false when it is no Boolean.
    pub readers-Holds :
        (value : Value) (a : AccountInfo Key) (b : BlockhashInfo Hash) (e : TokenAccountEntry Key)
        (s : SignatureStatus Value) (i : SignatureInfo Value)
        → ((decode_account_info J C value ≡ ok a) ↔ Describes J C value a)
          × ((decode_blockhash_info J C value ≡ ok b) ↔ HoldsBlockhash value b)
          × ((decode_token_account J C value ≡ ok e) ↔ HoldsEntry value e)
          × ((decode_signature_status J value ≡ ok s) ↔ HoldsStatus value s)
          × ((decode_signature_info J value ≡ ok i) ↔ HoldsInfo value i)
    readers-Holds value a b e s i = (
      decode_account_info-Describes J C value a,
      (HoldsBlockhash-decode_blockhash_info value b, decode_blockhash_info_held value b),
      (HoldsEntry-decode_token_account value e, decode_token_account_held value e),
      decode_signature_status-HoldsStatus value s,
      decode_signature_info-HoldsInfo value i,
    )
