-- ===== src/UnitTests/Keypairs.antt =====
-- The tests of src/sign.rs, over ed25519-dalek's answers on the vector of RFC 8032.
use mathlib.Core.List.{append-nil}
use svm_wasi_core.Base.{
  ap, length-append, arith, eq→==, slice, slice_middle, inr, inl, Bool-cases, ℕ, ◌≡◌, ◌≢◌, refl,
  ◌>>=◌, ◌>>◌, ◌==◌, Bool, true, false, String, Outcome, ok, err, panic, List, [], ◌++◌, length,
  replicate,
}
use svm_wasi_core.Base.Search.{bytes_eq→eq, bytes_eq, bytes_eq_refl}
use svm_wasi_core.Keys.{Keys}
use svm_wasi_core.Sign.{
  Signatures, Ed25519, SignError, Keypair, from_bytes, sign_message, invalid_length,
  public_key_mismatch,
}
use svm_wasi_core.UnitTests.{Test, assert, unwrap}

-- `keypair_bytes(seed, pubkey)`
abbrev joined : List ℕ → List ℕ → List ℕ
joined seed pubkey = seed ++ pubkey

module _ (K : Keys) (S : Signatures) (E : Ed25519) where
  -- `matches!(result, Err(SignError::InvalidLength(n)))`
  abbrev is_invalid_length : Outcome SignError (Keypair K S E) → ℕ → Bool
  is_invalid_length (err (invalid_length m)) n = m == n
  is_invalid_length (err public_key_mismatch) n = false
  is_invalid_length (ok k) n = false
  is_invalid_length panic n = false

  abbrev is_mismatch : Outcome SignError (Keypair K S E) → Bool
  is_mismatch (err (invalid_length m)) = false
  is_mismatch (err public_key_mismatch) = true
  is_mismatch (ok k) = false
  is_mismatch panic = false

  unfoldable signs_the_rfc8032_empty_message_test_vector : (String → Outcome String (List ℕ)) → Test
  signs_the_rfc8032_empty_message_test_vector hex_decode = do
    seed ← unwrap (hex_decode "9d61b19deffd5a60ba844af492ec2cc44449c5697b326919703bac031cae7f60")
    assert (length seed == 32)
    pubkey ← unwrap (hex_decode "d75a980182b10ab7d54bfed3c964073a0ee172f3daa62325af021a68f707511a")
    assert (length pubkey == 32)
    expected_sig ← unwrap (
        hex_decode
          "e5564300c360ac729086e2cc806e828a84877f1eb8e5d974d873e065224901555fb8821590a33bacc61e39701cf9b46bd25bf5f0595bbe24655141438e7a100b")
    assert (length expected_sig == 64)
    keypair ← unwrap (from_bytes K S E (joined seed pubkey))
    assert (bytes_eq (K.as_ref keypair.pubkey) pubkey)
    let sig = sign_message K S E keypair []
    assert (bytes_eq (S.to_array sig) expected_sig)

  joined-halves :
      (seed pubkey : List ℕ)
      → length seed ≡ 32
      → length pubkey ≡ 32
      → (slice {E = SignError} (joined seed pubkey) 0 32 ≡ ok seed)
        × (slice {E = SignError} (joined seed pubkey) 32 64 ≡ ok pubkey)
  joined-halves seed pubkey l m = (
    slice_middle [] seed pubkey 0 32 refl (omega arith),
    rw (append-nil pubkey) at (slice_middle {E = SignError} seed pubkey [] 32 64 l (omega arith)),
  )

  sign_message-from_array :
      (k : Keypair K S E) (message sig : List ℕ)
      → E.sign k.signing_key message ≡ sig
      → sign_message K S E k message ≡ S.from_array sig
  unfolding sign_message
  sign_message-from_array k message sig h = ap S.from_array h

  signs_the_rfc8032_empty_message_test_vector_lem :
      (hex_decode : String → Outcome String (List ℕ)) (seed pubkey expected_sig : List ℕ)
      → hex_decode "9d61b19deffd5a60ba844af492ec2cc44449c5697b326919703bac031cae7f60" ≡ ok seed
      → length seed ≡ 32
      → hex_decode "d75a980182b10ab7d54bfed3c964073a0ee172f3daa62325af021a68f707511a" ≡ ok pubkey
      → length pubkey ≡ 32
      → hex_decode
          "e5564300c360ac729086e2cc806e828a84877f1eb8e5d974d873e065224901555fb8821590a33bacc61e39701cf9b46bd25bf5f0595bbe24655141438e7a100b"
        ≡ ok expected_sig
      → length expected_sig ≡ 64
      → E.verifying_key (E.from_seed seed) ≡ pubkey
      → E.sign (E.from_seed seed) [] ≡ expected_sig
      → signs_the_rfc8032_empty_message_test_vector hex_decode ≡ ok tt
  unfolding signs_the_rfc8032_empty_message_test_vector from_bytes
  signs_the_rfc8032_empty_message_test_vector_lem hex_decode seed pubkey expected_sig d1 l1 d2 l2 d3
        l3 public signed =
      let (low, high) = joined-halves seed pubkey l1 l2 in
      rw (
        d1,
        l1,
        d2,
        l2,
        d3,
        l3,
        eq→== (length (seed ++ pubkey)) 64 (omega (arith, length-append seed pubkey)),
        low,
        public,
        high,
        bytes_eq_refl pubkey,
        K.as_ref-new_from_array pubkey l2,
        bytes_eq_refl pubkey,
        sign_message-from_array
            (record { signing_key = E.from_seed seed; pubkey = K.new_from_array pubkey }) []
            expected_sig signed,
        S.to_array-from_array expected_sig l3,
        bytes_eq_refl expected_sig,
      )

  unfoldable rejects_wrong_length : Test
  rejects_wrong_length = assert (is_invalid_length (from_bytes K S E (replicate 63 0)) 63)

  rejects_wrong_length_lem : rejects_wrong_length ≡ ok tt
  unfolding rejects_wrong_length from_bytes
  rejects_wrong_length_lem = refl

  unfoldable rejects_mismatched_public_key : Test
  rejects_mismatched_public_key =
      let seed = replicate 32 7 in
      let wrong_pubkey = replicate 32 9 in
      assert (is_mismatch (from_bytes K S E (joined seed wrong_pubkey)))

  rejects_mismatched_public_key_lem :
      E.verifying_key (E.from_seed (replicate 32 7)) ≢ replicate 32 9
      → rejects_mismatched_public_key ≡ ok tt
  unfolding rejects_mismatched_public_key from_bytes slice
  rejects_mismatched_public_key_lem differ =
      elim (Bool-cases
        (bytes_eq (E.verifying_key (E.from_seed (replicate 32 7))) (replicate 32 9))) [
          | inl e ↦ absurd (differ (bytes_eq→eq _ _ e))
          | inr e ↦ rw e
        ]
