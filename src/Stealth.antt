-- ===== src/Stealth.antt =====
-- src/stealth.rs: one-time addresses from dual-key stealth meta-addresses, and
-- src/stealth_sign.rs: signing with the recovered one-time key.
-- A scalar or a nonce prefix that the code draws from `OsRng` is an argument.
pub mod Curves
pub mod Errors
pub mod Laws
use Curves.{Curve, Hazmat}
use Errors.{StealthError, StealthSignError}
use svm_wasi_core.Base.{
  ℕ, String, not, List, length, ◌==◌, Outcome, ok, err, ◌>>=◌, ◌>>◌, fail_if, ok_or, map_err,
}
use svm_wasi_core.Keys.{Keys}
use svm_wasi_core.Sign.{Signatures}

module _ (K : Keys) (C : Curve) where
  open K use {Key, as_ref, new_from_array}
  open C use {
    Point, Scalar, base, scale, add, add_scalars, is_identity, from_encoding, compress,
    hash_from_bytes, scalar_to_bytes, from_canonical_bytes, hex_encode, hex_decode,
  }

  unfoldable pub decompress : Key → String → Outcome StealthError Point
  decompress pubkey kind = do
    fail_if (not (length (as_ref pubkey) == 32)) (StealthError.invalid_point kind)
    ok_or (from_encoding (as_ref pubkey)) (StealthError.invalid_point kind)

  unfoldable pub to_pubkey : Point → Key
  to_pubkey point = new_from_array (compress point)

  unfoldable pub hash_shared_secret : Point → Outcome StealthError Scalar
  hash_shared_secret shared = do
    fail_if (is_identity shared) StealthError.degenerate_shared_secret
    ok (hash_from_bytes (compress shared))

  -- `generate_keypair`, with the random scalar.
  unfoldable pub generate_keypair : Scalar → Scalar × Key
  generate_keypair scalar = (scalar, to_pubkey (scale scalar base))

  -- `ephemeral_keypair`, with the random scalar.
  unfoldable pub ephemeral_keypair : Scalar → Scalar × Key
  ephemeral_keypair scalar = generate_keypair scalar

  unfoldable pub scalar_to_hex : Scalar → String
  scalar_to_hex scalar = hex_encode (scalar_to_bytes scalar)

  unfoldable pub scalar_from_hex : String → Outcome StealthError Scalar
  scalar_from_hex hex_str = do
    bytes ← map_err StealthError.invalid_scalar_hex (hex_decode hex_str)
    fail_if (not (length bytes == 32)) (StealthError.invalid_scalar_hex "expected 32 bytes")
    ok_or (from_canonical_bytes bytes)
        (StealthError.invalid_scalar_hex "not a canonical scalar mod L")

  unfoldable pub derive_one_time_address : Key → Key → Scalar → Outcome StealthError Key
  derive_one_time_address scan_pub spend_pub ephemeral_scalar = do
    scan_point ← decompress scan_pub "scan_pub"
    spend_point ← decompress spend_pub "spend_pub"
    let shared = scale ephemeral_scalar scan_point
    c ← hash_shared_secret shared
    let one_time = add (scale c base) spend_point
    ok (to_pubkey one_time)

  unfoldable pub recompute_one_time_address : Scalar → Key → Key → Outcome StealthError Key
  recompute_one_time_address scan_priv ephemeral_pub spend_pub = do
    ephemeral_point ← decompress ephemeral_pub "ephemeral_pub"
    spend_point ← decompress spend_pub "spend_pub"
    let shared = scale scan_priv ephemeral_point
    c ← hash_shared_secret shared
    let one_time = add (scale c base) spend_point
    ok (to_pubkey one_time)

  unfoldable pub recover_one_time_privkey : Scalar → Key → Scalar → Outcome StealthError Scalar
  recover_one_time_privkey scan_priv ephemeral_pub spend_priv = do
    ephemeral_point ← decompress ephemeral_pub "ephemeral_pub"
    let shared = scale scan_priv ephemeral_point
    c ← hash_shared_secret shared
    ok (add_scalars c spend_priv)

  module _ (S : Signatures) (H : Hazmat C) where
    open S use {Signature, from_array}
    open H use {verifying_key_from_bytes, raw_sign}

    -- `sign_with_recovered_key`, with the random nonce prefix.
    unfoldable pub sign_with_recovered_key :
        List ℕ → Scalar → List ℕ → Outcome StealthSignError Signature
    sign_with_recovered_key hash_prefix scalar message = do
      let point = scale scalar base
      verifying_key ←
          ok_or (verifying_key_from_bytes (compress point)) StealthSignError.invalid_point
      ok (from_array (raw_sign scalar hash_prefix message verifying_key))
