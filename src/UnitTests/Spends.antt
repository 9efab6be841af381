-- ===== src/UnitTests/Spends.antt =====
-- The test of src/transaction.rs that spends from a stealth address. What it draws from `OsRng` is
-- an argument.
use svm_wasi_core.Base.{
  ℕ, ◌≡◌, ◌≢◌, refl, ◌>>=◌, ◌>>◌, ◌∙◌, ap, true, some, Outcome, ok, List, ◌∷◌, index, index-some,
  get_elem?, All-get_elem?,
}
use svm_wasi_core.Keys.{Keys}
use svm_wasi_core.Sign.{Signatures, Ed25519}
use svm_wasi_core.Message.{Compilers}
use svm_wasi_core.Instruction.{Instruction}
use svm_wasi_core.Stealth.Curves.{Curve, Hazmat}
use svm_wasi_core.Stealth.{
  generate_keypair, ephemeral_keypair, derive_one_time_address, recover_one_time_privkey,
  sign_with_recovered_key,
}
use svm_wasi_core.Stealth.Laws.{as_ref-to_pubkey}
use svm_wasi_core.Transaction.{
  Transaction, MessageFormat, Envelope, new_unsigned, message_bytes, insert_signature, to_base64,
  try_from_base64,
}
use svm_wasi_core.Transaction.Errors.{SignTransactionError}
use svm_wasi_core.Transaction.Signing.{
  IsSound, Answer, refused, filled, required_signers, insert_signature-Answer,
}
use svm_wasi_core.Transaction.Wire.{
  CountsInByte, ReadsMessages, ReadsSignatures, EncodesSignatures, DecodesBase64,
  try_from_base64-to_base64, to_base64_total,
}
use svm_wasi_core.UnitTests.{
  Test, assert, assert_eq, assert_eq_holds, assert_ne, assert_ne_holds, unwrap,
}
use svm_wasi_core.UnitTests.Addresses.{recovered_address}
use svm_wasi_core.UnitTests.Envelopes.{v0_message}
use svm_wasi_core.UnitTests.Signing.{first_place, encodes_unsigned}

module _ (S : Signatures) {Text : Type 0} (V : Envelope S.Signature Text) (K : Keys)
    {Hash AccountMeta : Type 0} (Legacy V0 : MessageFormat K.Key Hash)
    (M : Compilers Legacy V0 AccountMeta)
    (transfer : K.Key → K.Key → ℕ → Instruction K.Key AccountMeta) (zero_hash : Hash) (E : Ed25519)
    (C : Curve) (H : Hazmat C) (scan_priv spend_priv r : C.Scalar) (hash_prefix : List ℕ) where
  open K use {Key, as_ref}
  open S use {Signature, default, to_array}

  unfoldable insert_signature_from_a_recovered_stealth_key_verifies_and_round_trips :
      Discrete Signature → Discrete (Transaction Signature V0.Message) → Test
  insert_signature_from_a_recovered_stealth_key_verifies_and_round_trips same same_tx = do
    let (scan_priv, scan_pub) = generate_keypair K C scan_priv
    let (spend_priv, spend_pub) = generate_keypair K C spend_priv
    let (ephemeral_scalar, ephemeral_pub) = ephemeral_keypair K C r
    one_time_address ← unwrap (derive_one_time_address K C scan_pub spend_pub ephemeral_scalar)
    t ← unwrap (recover_one_time_privkey K C scan_priv ephemeral_pub spend_priv)
    message ← v0_message S V K Legacy V0 M transfer zero_hash one_time_address zero_hash
    let unsigned = new_unsigned S V K V0 message
    bytes ← message_bytes S V K V0 unsigned
    signature ← unwrap (sign_with_recovered_key K C S H hash_prefix t bytes)
    tx ← unwrap (insert_signature S V K V0 E one_time_address signature unsigned)
    slot ← index tx.signatures 0
    assert_ne same slot default
    encoded ← unwrap (to_base64 S V K V0 tx)
    decoded ← unwrap (try_from_base64 S V K V0 encoded)
    assert_eq same_tx decoded tx
    slot ← index decoded.signatures 0
    bytes ← message_bytes S V K V0 decoded
    assert (H.verify (as_ref one_time_address) bytes (to_array slot))

  drawn_scalar : (a : C.Scalar) → (generate_keypair K C a).0 ≡ a
  unfolding generate_keypair
  drawn_scalar a = refl

  drawn_ephemeral : (ephemeral_keypair K C r).0 ≡ r
  unfolding ephemeral_keypair generate_keypair
  drawn_ephemeral = refl

  message_bytes-prefixed :
      (tx : Transaction Signature V0.Message) (body : List ℕ)
      → V0.serialize tx.message ≡ ok body
      → message_bytes S V K V0 {F = Unit {0}} tx ≡ ok (V.version_prefix ∷ body)
  unfolding message_bytes
  message_bytes-prefixed tx body h = rw h

  -- An insertion for the first of the required signers fills the first slot.
  first_filled :
      (pubkey : Key) (signature : Signature) (tx : Transaction Signature V0.Message)
      → (o : Outcome SignTransactionError (Transaction Signature V0.Message))
      → get_elem? (required_signers S V K V0 tx) 0 ≡ some pubkey
      → Answer S V K V0 tx pubkey signature o
      → (tx' : Transaction Signature V0.Message) × (o ≡ ok tx')
        × (index {E = Unit {0}} tx'.signatures 0 ≡ ok signature)
        × (tx'.message ≡ tx.message)
        × IsSound S V K V0 tx'
  first_filled pubkey signature tx _ h (refused all) =
      absurd (All-get_elem? _ _ 0 pubkey all h refl)
  first_filled pubkey signature tx _ h (filled i tx' f w) =
      let zeroth : i ≡ 0 = first_place K pubkey _ i h f in
      (tx', refl, index-some tx'.signatures 0 signature (rw zeroth at w.slot), w.message, w.sound)

  module _ (t : C.Scalar)
      (h : recover_one_time_privkey K C scan_priv (ephemeral_keypair K C r).1 spend_priv
        ≡ ok t) where
    -- The public key of the recovered scalar, and its signature.
    abbrev address : Key
    address = (generate_keypair K C t).1

    abbrev signature_over : List ℕ → Signature
    signature_over bytes =
        S.from_array (H.raw_sign t hash_prefix bytes (H.key_of (C.scale t C.base)))

    sign-signature_over :
        (bytes : List ℕ)
        → sign_with_recovered_key K C S H hash_prefix t bytes ≡ ok (signature_over bytes)
    unfolding sign_with_recovered_key
    sign-signature_over bytes = rw (H.verifying_key_from_bytes-compress (C.scale t C.base))

    verify-signature_over :
        (bytes : List ℕ) → H.verify (as_ref address) bytes (to_array (signature_over bytes)) ≡ true
    unfolding generate_keypair
    verify-signature_over bytes = rw (
      as_ref-to_pubkey K C (C.scale t C.base),
      S.to_array-from_array _ (H.length-raw_sign t hash_prefix bytes (H.key_of (C.scale t C.base))),
      H.verify-raw_sign t hash_prefix bytes,
    )

    insert_signature_from_a_recovered_stealth_key_verifies_and_round_trips_lem :
        (same : Discrete Signature) (same_tx : Discrete (Transaction Signature V0.Message))
        → (message : V0.Message) (body : List ℕ)
        → v0_message S V K Legacy V0 M transfer zero_hash address zero_hash ≡ ok message
        → V0.serialize message ≡ ok body
        → IsSound S V K V0 (new_unsigned S V K V0 message)
        → get_elem? (required_signers S V K V0 (new_unsigned S V K V0 message)) 0 ≡ some address
        → signature_over (V.version_prefix ∷ body) ≢ default
        → ReadsMessages V0
        → ReadsSignatures V
        → EncodesSignatures V
        → CountsInByte V0
        → DecodesBase64 V
        → insert_signature_from_a_recovered_stealth_key_verifies_and_round_trips same same_tx
          ≡ ok tt
    unfolding insert_signature_from_a_recovered_stealth_key_verifies_and_round_trips
    insert_signature_from_a_recovered_stealth_key_verifies_and_round_trips_lem same same_tx message
          body compiled encodes sound payer differs rm rs total counts d =
        let tx = new_unsigned S V K V0 message in
        let plain = encodes_unsigned S V K V0 message body encodes in
        let signature = signature_over (V.version_prefix ∷ body) in
        let (tx', inserted, slot, m, sound') =
          first_filled address signature tx _ payer
            (insert_signature-Answer S V K V0 E tx address signature sound) in
        let plain' : V0.serialize tx'.message ≡ ok body = ap V0.serialize m ∙ plain in
        let (text, printed) = to_base64_total S V K V0 tx' body total counts sound' plain' in
        rw (
          drawn_scalar scan_priv,
          drawn_scalar spend_priv,
          drawn_ephemeral,
          recovered_address K C scan_priv spend_priv r t h,
          h,
          compiled,
          message_bytes-prefixed tx body plain,
          sign-signature_over (V.version_prefix ∷ body),
          inserted,
          slot,
          assert_ne_holds same signature default differs,
          printed,
          try_from_base64-to_base64 S V K V0 tx' text rm rs d printed,
          assert_eq_holds same_tx tx' tx' refl,
          slot,
          message_bytes-prefixed tx' body plain',
          verify-signature_over (V.version_prefix ∷ body),
        )
