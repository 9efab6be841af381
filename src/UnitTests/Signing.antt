-- ===== src/UnitTests/Signing.antt =====
-- The tests of src/transaction.rs on signing, but for the one with a stealth key.
use svm_wasi_core.Base.{
  zero, suc, ℕ, ◌≡◌, refl, ◌>>=◌, ◌>>◌, ◌==◌, Bool, true, Outcome, ok, List, [], ◌∷◌, ◌++◌, length,
  index, some, get_elem?, String,
}
use svm_wasi_core.Base.Search.{FirstAt}
use svm_wasi_core.Keys.{Keys}
use svm_wasi_core.Sign.{Signatures, Ed25519, Keypair, from_bytes}
use svm_wasi_core.Message.{Compilers}
use svm_wasi_core.Instruction.{Instruction}
use svm_wasi_core.Transaction.{
  MessageFormat, Envelope, new_unsigned, message_bytes, try_sign_versioned, try_sign_legacy,
  insert_signature,
}
use svm_wasi_core.Transaction.Errors.{SignTransactionError}
use svm_wasi_core.UnitTests.{Test, assert, assert_ne, unwrap, unwrap_err, pk}
use svm_wasi_core.UnitTests.Envelopes.{legacy_message, v0_message}

-- `err == SignTransactionError::NotARequiredSigner`
abbrev is_not_a_required_signer : SignTransactionError → Bool
is_not_a_required_signer SignTransactionError.not_a_required_signer = true

module _ (K : Keys) where
  open K use {Key}

  pub first_place :
      (a : Key) (xs : List Key) (i : ℕ)
      → get_elem? xs 0 ≡ some a
      → FirstAt K.key_discrete a xs i
      → i ≡ 0
  first_place a xs zero h f = refl
  first_place a [] (suc i) h f = absurd cc
  first_place a (x ∷ xs) (suc i) h f = absurd (f.none_before.0 (cc h))

module _ (S : Signatures) {Text : Type 0} (V : Envelope S.Signature Text) (K : Keys)
    {Hash : Type 0} where
  open K use {Key}

  pub encodes_unsigned :
      (M : MessageFormat Key Hash) (m : M.Message) (body : List ℕ)
      → M.serialize m ≡ ok body
      → M.serialize (new_unsigned S V K M m).message ≡ ok body
  unfolding new_unsigned
  encodes_unsigned M m body h = h

-- `hex_decode` is `hex::decode`, of the package hex; `transfer` and `zero_hash` are as for the tests
-- on the envelope.
module _ (S : Signatures) {Text : Type 0} (V : Envelope S.Signature Text) (K : Keys)
    {Hash AccountMeta : Type 0} (Legacy V0 : MessageFormat K.Key Hash)
    (C : Compilers Legacy V0 AccountMeta)
    (transfer : K.Key → K.Key → ℕ → Instruction K.Key AccountMeta) (zero_hash : Hash) (E : Ed25519)
    (hex_decode : String → Outcome String (List ℕ)) where
  open K use {Key, as_ref}
  open S use {Signature, default, to_array}

  -- The key pair of the vector in RFC 8032, as three of the tests load it.
  abbrev pub vector_keypair : Outcome (Unit {0}) (Keypair K S E)
  vector_keypair = do
    seed ← unwrap (hex_decode "9d61b19deffd5a60ba844af492ec2cc44449c5697b326919703bac031cae7f60")
    assert (length seed == 32)
    public ← unwrap (hex_decode "d75a980182b10ab7d54bfed3c964073a0ee172f3daa62325af021a68f707511a")
    assert (length public == 32)
    unwrap (from_bytes K S E (seed ++ public))

  unfoldable pub versioned_try_sign_produces_a_signature_verifiable_against_the_prefixed_message :
      Discrete Signature → Test
  versioned_try_sign_produces_a_signature_verifiable_against_the_prefixed_message same = do
    keypair ← vector_keypair
    let payer = keypair.pubkey
    message ← v0_message S V K Legacy V0 C transfer zero_hash payer zero_hash
    tx ← unwrap (try_sign_versioned S V K V0 E keypair (new_unsigned S V K V0 message))
    signature ← index tx.signatures 0
    assert_ne same signature default
    bytes ← message_bytes S V K V0 tx
    assert (E.verify (as_ref payer) bytes (to_array signature))

  unfoldable pub try_sign_fills_the_payers_slot_with_a_verifiable_signature :
      Discrete Signature → Test
  try_sign_fills_the_payers_slot_with_a_verifiable_signature same = do
    keypair ← vector_keypair
    let payer = keypair.pubkey
    let message = legacy_message S V K Legacy V0 C transfer zero_hash payer
    tx ← unwrap (try_sign_legacy S V K Legacy E keypair (new_unsigned S V K Legacy message))
    signature ← index tx.signatures 0
    assert_ne same signature default
    bytes ← unwrap (Legacy.serialize tx.message)
    assert (E.verify (as_ref payer) bytes (to_array signature))

  unfoldable pub insert_signature_rejects_a_pubkey_that_is_not_a_required_signer : Test
  insert_signature_rejects_a_pubkey_that_is_not_a_required_signer = do
    message ← v0_message S V K Legacy V0 C transfer zero_hash (pk K 1) zero_hash
    let tx = new_unsigned S V K V0 message
    let unrelated = pk K 9
    error ← unwrap_err (insert_signature S V K V0 E unrelated default tx)
    assert (is_not_a_required_signer error)

  unfoldable pub try_sign_rejects_a_keypair_that_is_not_a_required_signer : Test
  try_sign_rejects_a_keypair_that_is_not_a_required_signer = do
    unrelated_keypair ← vector_keypair
    let message = legacy_message S V K Legacy V0 C transfer zero_hash (pk K 1)
    error ←
        unwrap_err
          (try_sign_legacy S V K Legacy E unrelated_keypair (new_unsigned S V K Legacy message))
    assert (is_not_a_required_signer error)
