-- ===== src/Transaction/Malformed.antt =====
-- Signing a v0 transaction that was parsed, whatever its header and its slots are.
use svm_wasi_core.Base.{
  arith, ℕ, ◌≡◌, ◌≢◌, ◌≤◌, ◌<◌, suc, Bool-cases, inl, inr, leb, List, ◌∷◌, length, set, All, Option,
  Outcome, ok, err, panic, ◌>>=◌, ok_or, store, slice_prefix, slice_outside, store_lem,
  store_outside,
}
use svm_wasi_core.Base.Search.{FirstAt, Found, missing, found, position-Found}
use svm_wasi_core.Keys.{Keys}
use svm_wasi_core.Sign.{Signatures, Ed25519, Keypair, sign_message}
use svm_wasi_core.Transaction.Errors.{SignTransactionError, not_a_required_signer}
use svm_wasi_core.Transaction.Signing.{required_signers}
use svm_wasi_core.Transaction.Wire.{
  ReadsMessages, ReadsSignatures, serialize_parts, try_from_bytes-serialize,
}
use svm_wasi_core.Transaction.Envelopes.{Tx, try_sign_versioned-insert}
use svm_wasi_core.Transaction.{
  MessageFormat, Envelope, serialize_versioned, try_from_bytes, insert_signature,
  try_sign_versioned,
}

module _ (S : Signatures) {Text : Type 0} (V : Envelope S.Signature Text) (K : Keys) {Hash : Type 0}
    (M : MessageFormat K.Key Hash) (E : Ed25519) where
  open S use {Signature}
  open K use {Key, key_discrete}
  open M use {num_required_signatures, account_keys, serialize}
  open V use {version_prefix}

  -- The header asks for no more keys than the message has.
  abbrev pub HasKeys : Tx S V K M E → Type 0
  HasKeys tx = num_required_signatures tx.message ≤ length (account_keys tx.message)

  -- What an insertion into any transaction comes to.
  pub data Verdict (pubkey : Key) (signature : Signature) (tx : Tx S V K M E)
      : Outcome SignTransactionError (Tx S V K M E) → Type 0 where
    keys_missing :
        length (account_keys tx.message) < num_required_signatures tx.message
        → Verdict pubkey signature tx panic
    no_signer :
        HasKeys tx
        → All (λ signer. signer ≢ pubkey) (required_signers S V K M tx)
        → Verdict pubkey signature tx (err not_a_required_signer)
    slot_missing :
        (i : ℕ)
        → HasKeys tx
        → FirstAt key_discrete pubkey (required_signers S V K M tx) i
        → length tx.signatures ≤ i
        → Verdict pubkey signature tx panic
    fills :
        (i : ℕ)
        → HasKeys tx
        → FirstAt key_discrete pubkey (required_signers S V K M tx) i
        → i < length tx.signatures
        → Verdict pubkey signature tx
            (ok (record tx { signatures = set tx.signatures i signature }))

  store-Verdict :
      (pubkey : Key) (signature : Signature) (tx : Tx S V K M E) (o : Option ℕ)
      → HasKeys tx
      → Found key_discrete pubkey (required_signers S V K M tx) o
      → Verdict pubkey signature tx (
          ok_or o not_a_required_signer >>= λ index.
          store tx.signatures index signature >>= λ sigs. ok (record tx { signatures = sigs }))
  store-Verdict pubkey signature tx _ h (missing m) = no_signer h m
  store-Verdict pubkey signature tx _ h (found i f) =
      elim (Bool-cases (leb (suc i) (length tx.signatures))) [
        | inl e ↦
            rw (store_lem {E = SignTransactionError} tx.signatures i signature (ground arith))
              (fills i h f (ground arith))
        | inr e ↦
            rw (store_outside {E = SignTransactionError} tx.signatures i signature (ground arith))
              (slot_missing i h f (ground arith))
      ]

  insert_signature-Verdict :
      (pubkey : Key) (signature : Signature) (tx : Tx S V K M E)
      → Verdict pubkey signature tx (insert_signature S V K M E pubkey signature tx)
  unfolding insert_signature
  insert_signature-Verdict pubkey signature tx =
      elim (Bool-cases
        (leb (num_required_signatures tx.message) (length (account_keys tx.message)))) [
          | inl e ↦
              let enough : HasKeys tx = ground arith in
              rw (slice_prefix {E = SignTransactionError} (account_keys tx.message) _ enough) (
                store-Verdict pubkey signature tx _ enough
                  (position-Found key_discrete pubkey (required_signers S V K M tx)))
          | inr e ↦
              rw
                (slice_outside {E = SignTransactionError} (account_keys tx.message)
                  (num_required_signatures tx.message) (ground arith))
                (keys_missing (ground arith))
        ]

  -- Under what bincode documents, the bytes of a v0 transaction parse whatever its header asks for
  -- and however many slots it has. An insertion or a signing of what was parsed then panics exactly
  -- when the header asks for more keys than the message has, or when there is no slot at the
  -- signer's first place among the required signers. It fails exactly when the keys are there and
  -- the signer is none of them, and otherwise sets that slot and nothing else.
  pub parsed-Verdict :
      (tx : Tx S V K M E) (bytes : List ℕ) (pubkey : Key) (signature : Signature)
      (k : Keypair K S E)
      → ReadsMessages M
      → ReadsSignatures V
      → serialize_versioned S V K M tx ≡ ok bytes
      → (try_from_bytes S V K M bytes ≡ ok tx)
        × Verdict pubkey signature tx (insert_signature S V K M E pubkey signature tx)
        × ((body : List ℕ) × (serialize tx.message ≡ ok body)
            × Verdict k.pubkey
                (sign_message K S E k (version_prefix ∷ body))
                tx
                (try_sign_versioned S V K M E k tx))
  parsed-Verdict tx bytes pubkey signature k rm rs h =
      let (front, body, p, q, e) = serialize_parts S V K M tx bytes h in
      (
        try_from_bytes-serialize S V K M tx bytes rm rs h,
        insert_signature-Verdict pubkey signature tx,
        (
          body,
          q,
          rw (try_sign_versioned-insert S V K M E k tx body q)
              (insert_signature-Verdict k.pubkey _ tx),
        ),
      )
