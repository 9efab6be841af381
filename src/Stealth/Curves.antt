-- ===== src/Stealth/Curves.antt =====
-- What src/stealth.rs and src/stealth_sign.rs use of the packages curve25519-dalek, hex and
-- ed25519-dalek, and the group laws that they rely on.
use svm_wasi_core.Base.{ℕ, String, ◌≡◌, Bool, true, Option, some, List, length, Outcome, ok}

pub record Curve : Type 1 where
  pub Point : Type 0
  pub Scalar : Type 0
  -- `ED25519_BASEPOINT_TABLE`, `scalar * point`, `+` on points and on scalars
  pub base : Point
  pub scale : Scalar → Point → Point
  pub add : Point → Point → Point
  pub add_scalars : Scalar → Scalar → Scalar
  pub is_identity : Point → Bool
  -- `CompressedEdwardsY(bytes).decompress()` and `point.compress().to_bytes()`
  pub from_encoding : List ℕ → Option Point
  pub compress : Point → List ℕ
  -- `Scalar::hash_from_bytes::<Sha512>`, `scalar.to_bytes()`, `Scalar::from_canonical_bytes`
  pub hash_from_bytes : List ℕ → Scalar
  pub scalar_to_bytes : Scalar → List ℕ
  pub from_canonical_bytes : List ℕ → Option Scalar
  -- `hex::encode` and `hex::decode`; an error is its text
  pub hex_encode : List ℕ → String
  pub hex_decode : String → Outcome String (List ℕ)
  pub scale_comm : (a b : Scalar) (p : Point) → scale a (scale b p) ≡ scale b (scale a p)
  -- Scalars add modulo the order of the base point, so that this is a law of its multiples only.
  pub scale-add_scalars :
      (a b : Scalar) → scale (add_scalars a b) base ≡ add (scale a base) (scale b base)
  pub length-compress : (p : Point) → length (compress p) ≡ 32
  pub from_encoding-compress : (p : Point) → from_encoding (compress p) ≡ some p
  pub length-scalar_to_bytes : (a : Scalar) → length (scalar_to_bytes a) ≡ 32
  pub from_canonical_bytes-scalar_to_bytes :
      (a : Scalar) → from_canonical_bytes (scalar_to_bytes a) ≡ some a
  -- A canonical encoding is the only one.
  pub from_canonical_bytes-unique :
      (bytes : List ℕ) (a : Scalar)
      → from_canonical_bytes bytes ≡ some a
      → scalar_to_bytes a ≡ bytes
  pub hex_decode-hex_encode : (bytes : List ℕ) → hex_decode (hex_encode bytes) ≡ ok bytes

module _ (C : Curve) where
  open C use {Scalar, Point, base, scale, compress}

  -- ed25519-dalek's `hazmat` interface, over the same curve.
  pub record Hazmat : Type 1 where
    pub VerifyingKey : Type 0
    -- `VerifyingKey::from_bytes(…).ok()`
    pub verifying_key_from_bytes : List ℕ → Option VerifyingKey
    -- `raw_sign::<Sha512>(&ExpandedSecretKey { scalar, hash_prefix }, message, &key).to_bytes()`
    pub raw_sign : Scalar → List ℕ → List ℕ → VerifyingKey → List ℕ
    -- `VerifyingKey::from_bytes(key)?.verify(message, signature).is_ok()`
    pub verify : List ℕ → List ℕ → List ℕ → Bool
    pub length-raw_sign :
        (a : Scalar) (prefix message : List ℕ) (k : VerifyingKey)
        → length (raw_sign a prefix message k) ≡ 64
    -- The encoding of a point is accepted.
    pub key_of : Point → VerifyingKey
    pub verifying_key_from_bytes-compress :
        (p : Point) → verifying_key_from_bytes (compress p) ≡ some (key_of p)
    pub verify-raw_sign :
        (a : Scalar) (prefix message : List ℕ)
        → verify
            (compress (scale a base))
            message
            (raw_sign a prefix message (key_of (scale a base)))
          ≡ true
