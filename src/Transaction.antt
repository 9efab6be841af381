-- ===== src/Transaction.antt =====
-- src/transaction.rs: the envelope of signatures around a message, for legacy and v0 messages.
-- A `&mut self` method returns the transaction that it leaves; when it returns an error it has
-- written nothing.
pub mod Errors
pub mod Signing
pub mod Verified
pub mod Envelopes
pub mod Complete
pub mod Reachable
pub mod Malformed
pub mod Order
pub mod Wire
use Errors.{SignTransactionError, ParseVersionedTransactionError}
use svm_wasi_core.Base.{
  ℕ, ◌≡◌, ◌≤◌, Bool, not, List, [], ◌∷◌, ◌++◌, length, ◌==◌, Option, none, some, Outcome, ok, err,
  panic, ◌>>=◌, ◌>>◌, fail_if, ok_or, map_err, expect, slice, store, replicate, leb, drop,
  if◌then◌else◌, String,
}
use svm_wasi_core.Base.Search.{position}
use svm_wasi_core.Keys.{Keys}
use svm_wasi_core.Sign.{Signatures, Ed25519, Keypair, sign_message}

-- A message type of the package solana-message with the bincode package's encoding of it; the
-- fields are those that this file reads. Errors are their texts.
pub record MessageFormat (Key Hash : Type 0) : Type 1 where
  pub Message : Type 0
  -- `header.num_required_signatures`, `account_keys`, `recent_blockhash`
  pub num_required_signatures : Message → ℕ
  pub account_keys : Message → List Key
  pub recent_blockhash : Message → Hash
  -- `bincode::serialize(&message)` and `bincode::deserialize`
  pub serialize : Message → Outcome String (List ℕ)
  pub deserialize : List ℕ → Outcome String Message

-- The other packages: bincode with solana-short-vec for the signature array, and base64.
pub record Envelope (Signature Text : Type 0) : Type 0 where
  -- `bincode::serialize(&ShortVec(signatures))`
  pub serialize_signatures : List Signature → Outcome String (List ℕ)
  -- `bincode::deserialize_from(&mut cursor)`, with the position of the cursor after it
  pub deserialize_signatures : List ℕ → Outcome String (List Signature × ℕ)
  -- `BASE64.encode` and `BASE64.decode`
  pub encode : List ℕ → Text
  pub decode : Text → Outcome String (List ℕ)
  -- `solana_message::MESSAGE_VERSION_PREFIX`
  pub version_prefix : ℕ

-- `Transaction` and `VersionedTransaction`, for the message type at hand.
pub record Transaction (Signature Message : Type 0) : Type 0 where
  pub signatures : List Signature
  pub message : Message

module _ (K : Keys) (S : Signatures) (E : Ed25519) where
  open K use {Key, key_discrete}
  open S use {Signature}

  -- The place of `pubkey` among the first `required` account keys.
  abbrev pub signer_index : List Key → ℕ → Key → Outcome SignTransactionError ℕ
  signer_index account_keys required pubkey = do
    signers ← slice account_keys 0 required
    ok_or (position key_discrete pubkey signers) SignTransactionError.not_a_required_signer

  -- `sign_into`
  unfoldable pub sign_into :
      List Signature
      → List Key
      → ℕ
      → List ℕ
      → Keypair K S E
      → Outcome SignTransactionError (List Signature)
  sign_into signatures account_keys required message_bytes keypair = do
    index ← signer_index account_keys required keypair.pubkey
    store signatures index (sign_message K S E keypair message_bytes)

module _ (S : Signatures) {Text : Type 0} (V : Envelope S.Signature Text) where
  open S use {Signature, default}
  open V use {serialize_signatures, deserialize_signatures, encode, decode, version_prefix}

  -- `serialize_with_signatures`
  unfoldable pub serialize_with_signatures :
      List Signature → List ℕ → Outcome ParseVersionedTransactionError (List ℕ)
  serialize_with_signatures signatures message_bytes = do
    buf ← expect (serialize_signatures signatures)
    ok (buf ++ message_bytes)

  module _ (K : Keys) {Hash : Type 0} (M : MessageFormat K.Key Hash) where
    open K use {Key}
    open M use {
      Message, num_required_signatures, account_keys, recent_blockhash, serialize, deserialize,
    }

    -- `new_unsigned` of both types
    unfoldable pub new_unsigned : Message → Transaction Signature Message
    new_unsigned message = record {
      signatures = replicate (num_required_signatures message) default;
      message = message;
    }

    -- `Transaction::serialize`
    unfoldable pub serialize_legacy :
        Transaction Signature Message → Outcome ParseVersionedTransactionError (List ℕ)
    serialize_legacy tx = do
      message_bytes ← expect (serialize tx.message)
      serialize_with_signatures tx.signatures message_bytes

    -- `Transaction::to_base64`
    unfoldable pub to_base64_legacy :
        Transaction Signature Message → Outcome ParseVersionedTransactionError Text
    to_base64_legacy tx = do bytes ← serialize_legacy tx; ok (encode bytes)

    -- `VersionedTransaction::recent_blockhash`
    unfoldable pub blockhash_of : Transaction Signature Message → Hash
    blockhash_of tx = recent_blockhash tx.message

    -- `VersionedTransaction::message_bytes` and `message_bytes_to_sign`
    unfoldable pub message_bytes {ℓ} :
        {F : Type ℓ} → Transaction Signature Message → Outcome F (List ℕ)
    message_bytes tx = do bytes ← expect (serialize tx.message); ok (version_prefix ∷ bytes)

    -- `VersionedTransaction::serialize`
    unfoldable pub serialize_versioned :
        Transaction Signature Message → Outcome ParseVersionedTransactionError (List ℕ)
    serialize_versioned tx = do
      bytes ← message_bytes tx
      serialize_with_signatures tx.signatures bytes

    -- `VersionedTransaction::to_base64`
    unfoldable pub to_base64 :
        Transaction Signature Message → Outcome ParseVersionedTransactionError Text
    to_base64 tx = do bytes ← serialize_versioned tx; ok (encode bytes)

    -- The version byte, and the message behind it.
    parse_message :
        List Signature
        → List ℕ
        → Outcome ParseVersionedTransactionError (Transaction Signature Message)
    parse_message sigs [] = err ParseVersionedTransactionError.truncated
    parse_message sigs (version_byte ∷ bytes) = do
      fail_if (not (version_byte == version_prefix)) ParseVersionedTransactionError.not_versioned
      m ← map_err ParseVersionedTransactionError.message (deserialize bytes)
      ok (record { signatures = sigs; message = m })

    -- `VersionedTransaction::try_from_bytes`; `bytes.get(consumed..)` is `None` past the end.
    unfoldable pub try_from_bytes :
        List ℕ → Outcome ParseVersionedTransactionError (Transaction Signature Message)
    unfolding parse_message
    try_from_bytes bytes = do
      (sigs, consumed) ←
          map_err ParseVersionedTransactionError.signatures (deserialize_signatures bytes)
      rest ←
          ok_or (if leb consumed (length bytes) then some (drop consumed bytes) else none)
            ParseVersionedTransactionError.truncated
      parse_message sigs rest

    -- `VersionedTransaction::try_from_base64`
    unfoldable pub try_from_base64 :
        Text → Outcome ParseVersionedTransactionError (Transaction Signature Message)
    try_from_base64 encoded = do
      bytes ← map_err ParseVersionedTransactionError.base64 (decode encoded)
      try_from_bytes bytes

    module _ (E : Ed25519) where
      -- `Transaction::try_sign`
      unfoldable pub try_sign_legacy :
          Keypair K S E
          → Transaction Signature Message
          → Outcome SignTransactionError (Transaction Signature Message)
      try_sign_legacy keypair tx = do
        bytes ← expect (serialize tx.message)
        sigs ←
            sign_into K S E tx.signatures (account_keys tx.message)
              (num_required_signatures tx.message) bytes keypair
        ok (record tx { signatures = sigs })

      -- `VersionedTransaction::try_sign`
      unfoldable pub try_sign_versioned :
          Keypair K S E
          → Transaction Signature Message
          → Outcome SignTransactionError (Transaction Signature Message)
      try_sign_versioned keypair tx = do
        bytes ← message_bytes tx
        sigs ←
            sign_into K S E tx.signatures (account_keys tx.message)
              (num_required_signatures tx.message) bytes keypair
        ok (record tx { signatures = sigs })

      -- `VersionedTransaction::insert_signature`
      unfoldable pub insert_signature :
          Key
          → Signature
          → Transaction Signature Message
          → Outcome SignTransactionError (Transaction Signature Message)
      insert_signature pubkey signature tx = do
        index ←
            signer_index K S E (account_keys tx.message) (num_required_signatures tx.message) pubkey
        sigs ← store tx.signatures index signature
        ok (record tx { signatures = sigs })
