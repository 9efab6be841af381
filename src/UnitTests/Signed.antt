-- ===== src/UnitTests/Signed.antt =====
-- The tests of src/transaction.rs on signing pass, on the answers that they unwrap.
use svm_wasi_core.Base.{
  index-some, get_elem?-take, index-some, ℕ, ◌≡◌, ◌≢◌, refl, true, Outcome, ok, err, List, ◌∷◌,
  index, some, get_elem?, All, All-get_elem?, String,
}
use svm_wasi_core.Keys.{Keys}
use svm_wasi_core.Sign.{Signatures, Ed25519, Keypair}
use svm_wasi_core.Sign.Laws.{IsMatched}
use svm_wasi_core.Message.{Compilers}
use svm_wasi_core.Instruction.{Instruction}
use svm_wasi_core.Transaction.{Transaction, MessageFormat, Envelope, new_unsigned, message_bytes}
use svm_wasi_core.Transaction.Errors.{SignTransactionError, not_a_required_signer}
use svm_wasi_core.Transaction.Signing.{
  IsSound, Answer, refused, filled, required_signers, insert_signature-Answer,
}
use svm_wasi_core.Transaction.Verified.{Signing, not_required, signs}
use svm_wasi_core.Transaction.Envelopes.{try_sign-Signing}
use svm_wasi_core.UnitTests.{assert_ne_holds, pk}
use svm_wasi_core.UnitTests.Envelopes.{legacy_message, v0_message}
use svm_wasi_core.UnitTests.Signing.{
  vector_keypair, first_place, encodes_unsigned,
  versioned_try_sign_produces_a_signature_verifiable_against_the_prefixed_message,
  try_sign_fills_the_payers_slot_with_a_verifiable_signature,
  insert_signature_rejects_a_pubkey_that_is_not_a_required_signer,
  try_sign_rejects_a_keypair_that_is_not_a_required_signer,
}

-- `hex_decode` is `hex::decode`, of the package hex; `transfer` and `zero_hash` are as for the tests
-- on the envelope.
module _ (S : Signatures) {Text : Type 0} (V : Envelope S.Signature Text) (K : Keys)
    {Hash AccountMeta : Type 0} (Legacy V0 : MessageFormat K.Key Hash)
    (C : Compilers Legacy V0 AccountMeta)
    (transfer : K.Key → K.Key → ℕ → Instruction K.Key AccountMeta) (zero_hash : Hash) (E : Ed25519)
    (hex_decode : String → Outcome String (List ℕ)) where
  open K use {Key, as_ref}
  open S use {Signature, default, to_array}

  -- Signing by the first of the required signers leaves a signature in the first slot.
  first_slot :
      (M : MessageFormat Key Hash) (bytes : List ℕ) (pubkey : Key)
      (tx : Transaction Signature M.Message)
      → (r : Outcome SignTransactionError (Transaction Signature M.Message))
      → get_elem? (required_signers S V K M tx) 0 ≡ some pubkey
      → Signing S V K M E bytes pubkey tx r
      → (tx' : Transaction Signature M.Message) × (signature : Signature) × (r ≡ ok tx')
        × (index {E = Unit {0}} tx'.signatures 0 ≡ ok signature)
        × (E.verify (as_ref pubkey) bytes (to_array signature) ≡ true)
        × (tx'.message ≡ tx.message)
  first_slot M bytes pubkey tx _ h (not_required all) =
      absurd (All-get_elem? _ _ 0 pubkey all h refl)
  first_slot M bytes pubkey tx _ h (signs tx' s) =
      let zeroth : s.place ≡ 0 = first_place K pubkey _ s.place h s.first in
      let v = s.now in
      let there : get_elem? (M.account_keys tx.message) 0 ≡ some pubkey =
        get_elem?-take (M.num_required_signatures tx.message) (M.account_keys tx.message) 0 pubkey
          h in
      let same : v.key ≡ pubkey = cc (v.signer, zeroth, there, s.message) in
      (
        tx',
        v.signature,
        refl,
        index-some tx'.signatures 0 v.signature (rw zeroth at v.slot),
        rw same at v.accepted,
        s.message,
      )

  -- Signing by a key that is none of the required signers is refused.
  refuses :
      (M : MessageFormat Key Hash) (bytes : List ℕ) (pubkey : Key)
      (tx : Transaction Signature M.Message)
      → (r : Outcome SignTransactionError (Transaction Signature M.Message))
      → All (λ k. k ≢ pubkey) (required_signers S V K M tx)
      → Signing S V K M E bytes pubkey tx r
      → r ≡ err not_a_required_signer
  refuses M bytes pubkey tx _ others (not_required all) = refl
  refuses M bytes pubkey tx _ others (signs tx' s) =
      absurd (All-get_elem? _ _ s.place pubkey others s.first.there refl)

  refuses_answer :
      (M : MessageFormat Key Hash) (pubkey : Key) (signature : Signature)
      (tx : Transaction Signature M.Message)
      → (r : Outcome SignTransactionError (Transaction Signature M.Message))
      → All (λ k. k ≢ pubkey) (required_signers S V K M tx)
      → Answer S V K M tx pubkey signature r
      → r ≡ err not_a_required_signer
  refuses_answer M pubkey signature tx _ others (refused all) = refl
  refuses_answer M pubkey signature tx _ others (filled i tx' f w) =
      absurd (All-get_elem? _ _ i pubkey others f.there refl)

  -- No signature that verifies is the one of zeros.
  abbrev ZerosNeverVerify : Key → Type 0
  ZerosNeverVerify pubkey =
      (bytes : List ℕ) (signature : Signature)
      → E.verify (as_ref pubkey) bytes (to_array signature) ≡ true
      → signature ≢ default

  module _ (keypair : Keypair K S E)
      (loaded : vector_keypair S V K Legacy V0 C transfer zero_hash E hex_decode ≡ ok keypair) where
    versioned_try_sign_produces_a_signature_verifiable_against_the_prefixed_message_lem :
        (same : Discrete Signature) (message : V0.Message) (body : List ℕ)
        → IsMatched K S E keypair
        → v0_message S V K Legacy V0 C transfer zero_hash keypair.pubkey zero_hash ≡ ok message
        → V0.serialize message ≡ ok body
        → IsSound S V K V0 (new_unsigned S V K V0 message)
        → get_elem? (required_signers S V K V0 (new_unsigned S V K V0 message)) 0
          ≡ some keypair.pubkey
        → ZerosNeverVerify keypair.pubkey
        → versioned_try_sign_produces_a_signature_verifiable_against_the_prefixed_message S V K
            Legacy V0 C transfer zero_hash E hex_decode same
          ≡ ok tt
    unfolding versioned_try_sign_produces_a_signature_verifiable_against_the_prefixed_message
        message_bytes
    versioned_try_sign_produces_a_signature_verifiable_against_the_prefixed_message_lem same message
          body matched compiled encodes sound payer zeros =
        let tx = new_unsigned S V K V0 message in
        let (tx', signature, r, i, v, m) =
          first_slot V0 (V.version_prefix ∷ body) keypair.pubkey tx _ payer
            (try_sign-Signing S V K V0 E keypair tx body matched
              (encodes_unsigned S V K V0 message body encodes) sound).0 in
        rw (
          loaded,
          compiled,
          r,
          i,
          assert_ne_holds same signature default (zeros _ signature v),
          m,
          encodes_unsigned S V K V0 message body encodes,
          v,
        )

    try_sign_fills_the_payers_slot_with_a_verifiable_signature_lem :
        (same : Discrete Signature) (body : List ℕ)
        → IsMatched K S E keypair
        → Legacy.serialize (legacy_message S V K Legacy V0 C transfer zero_hash keypair.pubkey)
          ≡ ok body
        → IsSound S V K Legacy (
            new_unsigned S V K Legacy
              (legacy_message S V K Legacy V0 C transfer zero_hash keypair.pubkey))
        → get_elem?
            (required_signers S V K Legacy (
              new_unsigned S V K Legacy
                (legacy_message S V K Legacy V0 C transfer zero_hash keypair.pubkey)))
            0
          ≡ some keypair.pubkey
        → ZerosNeverVerify keypair.pubkey
        → try_sign_fills_the_payers_slot_with_a_verifiable_signature S V K Legacy V0 C transfer
            zero_hash E hex_decode same
          ≡ ok tt
    unfolding try_sign_fills_the_payers_slot_with_a_verifiable_signature
    try_sign_fills_the_payers_slot_with_a_verifiable_signature_lem same body matched encodes sound
          payer zeros =
        let message = legacy_message S V K Legacy V0 C transfer zero_hash keypair.pubkey in
        let tx = new_unsigned S V K Legacy message in
        let (tx', signature, r, i, v, m) =
          first_slot Legacy body keypair.pubkey tx _ payer
            (try_sign-Signing S V K Legacy E keypair tx body matched
              (encodes_unsigned S V K Legacy message body encodes) sound).1 in
        rw (
          loaded,
          r,
          i,
          assert_ne_holds same signature default (zeros _ signature v),
          m,
          encodes_unsigned S V K Legacy message body encodes,
          v,
        )

    try_sign_rejects_a_keypair_that_is_not_a_required_signer_lem :
        (body : List ℕ)
        → IsMatched K S E keypair
        → Legacy.serialize (legacy_message S V K Legacy V0 C transfer zero_hash (pk K 1)) ≡ ok body
        → IsSound S V K Legacy (
            new_unsigned S V K Legacy
              (legacy_message S V K Legacy V0 C transfer zero_hash (pk K 1)))
        → All
            (λ k. k ≢ keypair.pubkey)
            (required_signers S V K Legacy (
              new_unsigned S V K Legacy
                (legacy_message S V K Legacy V0 C transfer zero_hash (pk K 1))))
        → try_sign_rejects_a_keypair_that_is_not_a_required_signer S V K Legacy V0 C transfer
            zero_hash E hex_decode
          ≡ ok tt
    unfolding try_sign_rejects_a_keypair_that_is_not_a_required_signer
    try_sign_rejects_a_keypair_that_is_not_a_required_signer_lem body matched encodes sound others =
        let message = legacy_message S V K Legacy V0 C transfer zero_hash (pk K 1) in
        let tx = new_unsigned S V K Legacy message in
        rw (
          loaded,
          refuses Legacy body keypair.pubkey tx _ others
              (try_sign-Signing S V K Legacy E keypair tx body matched
                (encodes_unsigned S V K Legacy message body encodes) sound).1,
        )

  insert_signature_rejects_a_pubkey_that_is_not_a_required_signer_lem :
      (message : V0.Message)
      → v0_message S V K Legacy V0 C transfer zero_hash (pk K 1) zero_hash ≡ ok message
      → IsSound S V K V0 (new_unsigned S V K V0 message)
      → All (λ k. k ≢ pk K 9) (required_signers S V K V0 (new_unsigned S V K V0 message))
      → insert_signature_rejects_a_pubkey_that_is_not_a_required_signer S V K Legacy V0 C transfer
          zero_hash E hex_decode
        ≡ ok tt
  unfolding insert_signature_rejects_a_pubkey_that_is_not_a_required_signer
  insert_signature_rejects_a_pubkey_that_is_not_a_required_signer_lem message compiled sound
        others =
      let tx = new_unsigned S V K V0 message in
      rw (
        compiled,
        refuses_answer V0 (pk K 9) default tx _ others
            (insert_signature-Answer S V K V0 E tx (pk K 9) default sound),
      )
