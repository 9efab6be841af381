-- ===== src/Transaction/Envelopes.antt =====
-- `try_sign` of both types: a signature over the message for a legacy transaction, and over the
-- version byte and the message for a v0 transaction.
use svm_wasi_core.Base.{>>=_assoc, ℕ, ◌≡◌, List, ◌∷◌, ok}
use svm_wasi_core.Keys.{Keys}
use svm_wasi_core.Sign.{Signatures, Ed25519, Keypair, sign_message}
use svm_wasi_core.Sign.Laws.{IsMatched, sign_message-verify}
use svm_wasi_core.Transaction.Signing.{IsSound}
use svm_wasi_core.Transaction.Verified.{Signing, insert_signature-Signing}
use svm_wasi_core.Transaction.{
  Transaction, MessageFormat, Envelope, sign_into, message_bytes, insert_signature,
  try_sign_versioned, try_sign_legacy,
}

module _ (S : Signatures) {Text : Type 0} (V : Envelope S.Signature Text) (K : Keys) {Hash : Type 0}
    (M : MessageFormat K.Key Hash) (E : Ed25519) where
  open S use {Signature}
  open M use {Message}
  open V use {version_prefix}

  abbrev pub Tx : Type 0
  Tx = Transaction Signature Message

  pub try_sign_versioned-insert :
      (k : Keypair K S E) (tx : Tx) (body : List ℕ)
      → M.serialize tx.message ≡ ok body
      → try_sign_versioned S V K M E k tx
        ≡ insert_signature S V K M E k.pubkey (sign_message K S E k (version_prefix ∷ body)) tx
  unfolding try_sign_versioned sign_into insert_signature message_bytes
  try_sign_versioned-insert k tx body h = rw (h, >>=_assoc, >>=_assoc)

  pub try_sign_legacy-insert :
      (k : Keypair K S E) (tx : Tx) (body : List ℕ)
      → M.serialize tx.message ≡ ok body
      → try_sign_legacy S V K M E k tx
        ≡ insert_signature S V K M E k.pubkey (sign_message K S E k body) tx
  unfolding try_sign_legacy sign_into insert_signature
  try_sign_legacy-insert k tx body h = rw (h, >>=_assoc)

  module _ (k : Keypair K S E) (tx : Tx) (body : List ℕ) (matched : IsMatched K S E k)
      (encodes : M.serialize tx.message ≡ ok body) where
    -- On a transaction with a slot and a key for each required signature, whose message encodes, a
    -- `try_sign` of either type by a key pair that belongs together never panics. It fails exactly
    -- when the key is no required signer. Otherwise it leaves a signature that verifies, under the
    -- account key in the signer's first place among the required signers, over the message's
    -- encoding, with the version byte in front for a v0 transaction. No other slot changes, every
    -- slot that verified still does, and the message is the same.
    pub try_sign-Signing :
        IsSound S V K M tx
        → Signing S V K M E (version_prefix ∷ body) k.pubkey tx (try_sign_versioned S V K M E k tx)
          × Signing S V K M E body k.pubkey tx (try_sign_legacy S V K M E k tx)
    try_sign-Signing h = (
      rw (try_sign_versioned-insert k tx body encodes) (
          insert_signature-Signing S V K M E (version_prefix ∷ body) k.pubkey _ tx
            (sign_message-verify K S E k (version_prefix ∷ body) matched) h),
      rw (try_sign_legacy-insert k tx body encodes) (
          insert_signature-Signing S V K M E body k.pubkey _ tx
            (sign_message-verify K S E k body matched) h),
    )
