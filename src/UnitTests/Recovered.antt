-- ===== src/UnitTests/Recovered.antt =====
-- The test of src/stealth_sign.rs that does not rest on two nonces being different. What it draws
-- from `OsRng` is an argument.
use svm_wasi_core.Base.{ℕ, ◌≡◌, ◌>>=◌, ok, List}
use svm_wasi_core.Keys.{Keys}
use svm_wasi_core.Sign.{Signatures}
use svm_wasi_core.Shaping.Strings.{codes}
use svm_wasi_core.Stealth.Curves.{Curve, Hazmat}
use svm_wasi_core.Stealth.{
  generate_keypair, ephemeral_keypair, recover_one_time_privkey, sign_with_recovered_key,
}
use svm_wasi_core.UnitTests.{Test, assert, unwrap}

module _ (K : Keys) (C : Curve) (S : Signatures) (H : Hazmat C) (scan_priv spend_priv r : C.Scalar)
    (hash_prefix : List ℕ) where
  open C use {Scalar, scale, base, compress}

  unfoldable signs_a_message_verifiable_by_a_standard_ed25519_verifier : Test
  signs_a_message_verifiable_by_a_standard_ed25519_verifier = do
    let (scan_priv, scan_pub) = generate_keypair K C scan_priv
    let (spend_priv, spend_pub) = generate_keypair K C spend_priv
    let (ephemeral_scalar, ephemeral_pub) = ephemeral_keypair K C r
    t ← unwrap (recover_one_time_privkey K C scan_priv ephemeral_pub spend_priv)
    let point = scale t base
    let one_time_pubkey_bytes = compress point
    let message = codes "unsigned transaction message bytes go here"
    signature ← unwrap (sign_with_recovered_key K C S H hash_prefix t message)
    assert (H.verify one_time_pubkey_bytes message (S.to_array signature))

  signs_a_message_verifiable_by_a_standard_ed25519_verifier_lem :
      (t : Scalar)
      → recover_one_time_privkey K C scan_priv (ephemeral_keypair K C r).1 spend_priv ≡ ok t
      → signs_a_message_verifiable_by_a_standard_ed25519_verifier ≡ ok tt
  unfolding signs_a_message_verifiable_by_a_standard_ed25519_verifier sign_with_recovered_key
      generate_keypair ephemeral_keypair
  signs_a_message_verifiable_by_a_standard_ed25519_verifier_lem t h =
      let message = codes "unsigned transaction message bytes go here" in
      rw (
        h,
        H.verifying_key_from_bytes-compress (scale t base),
        S.to_array-from_array _ (H.length-raw_sign t hash_prefix message (H.key_of (scale t base))),
        H.verify-raw_sign t hash_prefix message,
      )
