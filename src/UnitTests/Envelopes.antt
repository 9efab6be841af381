-- ===== src/UnitTests/Envelopes.antt =====
-- The tests of src/transaction.rs on the envelope and its wire format.
use mathlib.Core.Option.{some}
use svm_wasi_core.Base.{
  ◌≢◌, get_elem?-append, index-some, arith, ◌++◌, get_elem?, ◌<◌, zero, suc, eq→==,
  length-replicate, length-replicate, eq→==, suc, ℕ, ◌≡◌, refl, ◌>>=◌, ◌>>◌, ◌==◌, ◌+◌, ◌*◌, ◌%◌,
  Bool, true, false, ◌&&◌, Outcome, ok, List, [], ◌∷◌, length, index, replicate,
}
use svm_wasi_core.Base.Search.{bytes_eq, bytes_eq_refl}
use svm_wasi_core.Keys.{Keys}
use svm_wasi_core.Sign.{Signatures}
use svm_wasi_core.Message.{Compilers}
use svm_wasi_core.Instruction.{Instruction}
use svm_wasi_core.Transaction.{
  Transaction, MessageFormat, Envelope, new_unsigned, serialize_legacy, serialize_versioned,
  to_base64, to_base64_legacy, try_from_base64, try_from_bytes, blockhash_of,
}
use svm_wasi_core.Transaction.Errors.{ParseVersionedTransactionError}
use svm_wasi_core.Transaction.Wire.{
  ReadsMessages, ReadsSignatures, DecodesBase64, try_from_base64-to_base64, try_from_bytes-legacy,
  serialize_parts,
}
use svm_wasi_core.UnitTests.{Test, assert, assert_eq, assert_eq_holds, unwrap, unwrap_err, pk}

-- `matches!(err, ParseVersionedTransactionError::NotVersioned)`
abbrev is_not_versioned : ParseVersionedTransactionError → Bool
is_not_versioned (ParseVersionedTransactionError.base64 text) = false
is_not_versioned ParseVersionedTransactionError.truncated = false
is_not_versioned (ParseVersionedTransactionError.signatures text) = false
is_not_versioned ParseVersionedTransactionError.not_versioned = true
is_not_versioned (ParseVersionedTransactionError.message text) = false

-- Documented encoding of fewer than 128 signatures: their number in one byte, and 64 bytes each.
abbrev CountsSignatures : {Signature Text : Type 0} → Envelope Signature Text → Type 0
CountsSignatures {Signature} V =
    (sigs : List Signature) (bytes : List ℕ)
    → length sigs < 128
    → V.serialize_signatures sigs ≡ ok bytes
    → (get_elem? bytes 0 ≡ some (length sigs)) × (length bytes ≡ 1 + length sigs * 64)

get_elem?-first :
    (xs ys : List ℕ) (n : ℕ) → get_elem? xs 0 ≡ some n → get_elem? (xs ++ ys) 0 ≡ some n
get_elem?-first [] ys n h = absurd cc
get_elem?-first (x ∷ xs) ys n h = h

-- `transfer` is `system::transfer`, of the package solana-system-interface, and `zero_hash` is
-- `Hash::default()`.
module _ (S : Signatures) {Text : Type 0} (V : Envelope S.Signature Text) (K : Keys)
    {Hash AccountMeta : Type 0} (Legacy V0 : MessageFormat K.Key Hash)
    (C : Compilers Legacy V0 AccountMeta)
    (transfer : K.Key → K.Key → ℕ → Instruction K.Key AccountMeta) (zero_hash : Hash) where
  open K use {Key}
  open S use {Signature, default}

  -- The message of the tests, for a payer: a transfer of 1,000 lamports to key 2.
  abbrev pub legacy_message : Key → Legacy.Message
  legacy_message payer = C.new_message (transfer payer (pk K 2) 1000 ∷ []) (some payer)

  abbrev pub v0_message : Key → Hash → Outcome (Unit {0}) V0.Message
  v0_message payer blockhash =
      unwrap (C.try_compile payer (transfer payer (pk K 2) 1000 ∷ []) [] blockhash)

  -- `signatures.iter().all(|s| *s == Signature::default())`
  abbrev all_default : (Signature → Signature → Bool) → List Signature → Bool
  all_default same [] = true
  all_default same (s ∷ ss) = same s default && all_default same ss

  unfoldable unsigned_transaction_has_one_placeholder_per_required_signature :
      (Signature → Signature → Bool) → Test
  unsigned_transaction_has_one_placeholder_per_required_signature same = do
    let message = legacy_message (pk K 1)
    let tx = new_unsigned S V K Legacy message
    assert (length tx.signatures == Legacy.num_required_signatures message)
    assert (all_default same tx.signatures)

  all_default-replicate :
      (same : Signature → Signature → Bool)
      → same default default ≡ true
      → (n : ℕ) → all_default same (replicate n default) ≡ true
  all_default-replicate same h zero = refl
  all_default-replicate same h (suc n) = rw (h, all_default-replicate same h n)

  unsigned_transaction_has_one_placeholder_per_required_signature_lem :
      (same : Signature → Signature → Bool)
      → same default default ≡ true
      → unsigned_transaction_has_one_placeholder_per_required_signature same ≡ ok tt
  unfolding unsigned_transaction_has_one_placeholder_per_required_signature new_unsigned
  unsigned_transaction_has_one_placeholder_per_required_signature_lem same h =
      let n = Legacy.num_required_signatures (legacy_message (pk K 1)) in
      rw (eq→== _ n (length-replicate n default), all_default-replicate same h n)

  unfoldable to_base64_round_trips_through_standard_base64 : Test
  to_base64_round_trips_through_standard_base64 = do
    let tx = new_unsigned S V K Legacy (legacy_message (pk K 1))
    encoded ← unwrap (to_base64_legacy S V K Legacy tx)
    decoded ← unwrap (V.decode encoded)
    bytes ← unwrap (serialize_legacy S V K Legacy tx)
    assert (bytes_eq decoded bytes)

  to_base64_round_trips_through_standard_base64_lem :
      (bytes : List ℕ)
      → DecodesBase64 V
      → serialize_legacy S V K Legacy (new_unsigned S V K Legacy (legacy_message (pk K 1)))
        ≡ ok bytes
      → to_base64_round_trips_through_standard_base64 ≡ ok tt
  unfolding to_base64_round_trips_through_standard_base64 to_base64_legacy
  to_base64_round_trips_through_standard_base64_lem bytes decodes h =
      rw (h, decodes bytes, bytes_eq_refl bytes)

  blockhash_of-new_unsigned :
      (m : V0.Message) → blockhash_of S V K V0 (new_unsigned S V K V0 m) ≡ V0.recent_blockhash m
  unfolding blockhash_of new_unsigned
  blockhash_of-new_unsigned m = refl

  length-new_unsigned :
      (m : V0.Message) → length (new_unsigned S V K V0 m).signatures ≡ V0.num_required_signatures m
  unfolding new_unsigned
  length-new_unsigned m = length-replicate (V0.num_required_signatures m) default

  unfoldable versioned_transaction_unsigned_matches_v0_header_and_version_prefix :
      Discrete Hash → Test
  versioned_transaction_unsigned_matches_v0_header_and_version_prefix same = do
    message ← v0_message (pk K 1) zero_hash
    let tx = new_unsigned S V K V0 message
    assert (length tx.signatures == V0.num_required_signatures message)
    assert_eq same (blockhash_of S V K V0 tx) (V0.recent_blockhash message)
    bytes ← unwrap (serialize_versioned S V K V0 tx)
    first ← index bytes 0
    assert (first == length tx.signatures % 256)
    let version_byte_index = 1 + length tx.signatures * 64
    version_byte ← index bytes version_byte_index
    assert (version_byte == V.version_prefix)

  versioned_transaction_unsigned_matches_v0_header_and_version_prefix_lem :
      (same : Discrete Hash) (message : V0.Message) (bytes : List ℕ)
      → CountsSignatures V
      → v0_message (pk K 1) zero_hash ≡ ok message
      → V0.num_required_signatures message < 128
      → serialize_versioned S V K V0 (new_unsigned S V K V0 message) ≡ ok bytes
      → versioned_transaction_unsigned_matches_v0_header_and_version_prefix same ≡ ok tt
  unfolding versioned_transaction_unsigned_matches_v0_header_and_version_prefix
  versioned_transaction_unsigned_matches_v0_header_and_version_prefix_lem same message bytes counts
        compiled few written =
      let tx = new_unsigned S V K V0 message in
      let n = V0.num_required_signatures message in
      let l : length tx.signatures ≡ n = length-new_unsigned message in
      let (front, body, p, q, e) = serialize_parts S V K V0 tx bytes written in
      let (first, size) = counts tx.signatures front (omega arith) p in
      let at_first : index {E = Unit {0}} bytes 0 ≡ ok (length tx.signatures) =
        index-some bytes 0 _ (rw e (get_elem?-first front (V.version_prefix ∷ body) _ first)) in
      let at_version : index {E = Unit {0}} bytes (1 + length tx.signatures * 64)
          ≡ ok V.version_prefix =
        index-some bytes _ _ (rw e (get_elem?-append _ front V.version_prefix body size)) in
      rw (
        compiled,
        eq→== _ n l,
        written,
        at_first,
        eq→== (length tx.signatures) (length tx.signatures % 256) (omega arith),
        at_version,
        eq→== V.version_prefix V.version_prefix refl,
        assert_eq_holds same (blockhash_of S V K V0 tx) (V0.recent_blockhash message)
            (blockhash_of-new_unsigned message),
      )

  unfoldable versioned_transaction_round_trips_through_base64 :
      Hash → Discrete (Transaction Signature V0.Message) → Test
  versioned_transaction_round_trips_through_base64 nines same = do
    message ← v0_message (pk K 1) nines
    let tx = new_unsigned S V K V0 message
    encoded ← unwrap (to_base64 S V K V0 tx)
    decoded ← unwrap (try_from_base64 S V K V0 encoded)
    assert_eq same decoded tx

  versioned_transaction_round_trips_through_base64_lem :
      (nines : Hash) (same : Discrete (Transaction Signature V0.Message)) (message : V0.Message)
      (text : Text)
      → ReadsMessages V0
      → ReadsSignatures V
      → DecodesBase64 V
      → v0_message (pk K 1) nines ≡ ok message
      → to_base64 S V K V0 (new_unsigned S V K V0 message) ≡ ok text
      → versioned_transaction_round_trips_through_base64 nines same ≡ ok tt
  unfolding versioned_transaction_round_trips_through_base64
  versioned_transaction_round_trips_through_base64_lem nines same message text rm rs d compiled
        printed =
      rw
        (
          compiled,
          printed,
          try_from_base64-to_base64 S V K V0 (new_unsigned S V K V0 message) text rm rs d printed,
        )
        (assert_eq_holds same _ _ refl)

  unfoldable try_from_bytes_rejects_a_legacy_message_missing_the_version_prefix : Test
  try_from_bytes_rejects_a_legacy_message_missing_the_version_prefix = do
    let legacy_tx = new_unsigned S V K Legacy (legacy_message (pk K 1))
    bytes ← unwrap (serialize_legacy S V K Legacy legacy_tx)
    error ← unwrap_err (try_from_bytes S V K V0 bytes)
    assert (is_not_versioned error)

  try_from_bytes_rejects_a_legacy_message_missing_the_version_prefix_lem :
      (bytes body : List ℕ) (b : ℕ)
      → ReadsSignatures V
      → serialize_legacy S V K Legacy (new_unsigned S V K Legacy (legacy_message (pk K 1)))
        ≡ ok bytes
      → Legacy.serialize (new_unsigned S V K Legacy (legacy_message (pk K 1))).message
        ≡ ok (b ∷ body)
      → b ≢ V.version_prefix
      → try_from_bytes_rejects_a_legacy_message_missing_the_version_prefix ≡ ok tt
  unfolding try_from_bytes_rejects_a_legacy_message_missing_the_version_prefix
  try_from_bytes_rejects_a_legacy_message_missing_the_version_prefix_lem bytes body b rs written
        encoded n =
      rw (
        written,
        try_from_bytes-legacy S V K V0 Legacy (new_unsigned S V K Legacy (legacy_message (pk K 1)))
            bytes body b rs written encoded n,
      )
