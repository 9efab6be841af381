-- ===== src/Sign.antt =====
-- src/sign.rs and src/signature.rs: Ed25519 keypairs and the signatures that they make.
pub mod Laws
use svm_wasi_core.Base.{
  ℕ, ◌≡◌, Bool, true, not, List, length, ◌==◌, Outcome, ok, err, ◌>>=◌, ◌>>◌, fail_if, slice,
}
use svm_wasi_core.Base.Search.{bytes_eq}
use svm_wasi_core.Keys.{Keys}

-- The package solana-signature: a 64-byte array behind a type.
pub record Signatures : Type 1 where
  pub Signature : Type 0
  -- `Signature::default()`
  pub default : Signature
  -- `Signature::from` and `<[u8; 64]>::from`
  pub from_array : List ℕ → Signature
  pub to_array : Signature → List ℕ
  pub to_array-from_array : (bs : List ℕ) → length bs ≡ 64 → to_array (from_array bs) ≡ bs

-- The package ed25519-dalek: keys from a seed, and signatures that verify under the derived key.
pub record Ed25519 : Type 1 where
  pub SigningKey : Type 0
  -- `SigningKey::from_bytes`, `verifying_key().to_bytes()`, `sign(message).to_bytes()`
  pub from_seed : List ℕ → SigningKey
  pub verifying_key : SigningKey → List ℕ
  pub sign : SigningKey → List ℕ → List ℕ
  -- `VerifyingKey::verify(message, signature).is_ok()`
  pub verify : List ℕ → List ℕ → List ℕ → Bool
  pub length-verifying_key : (k : SigningKey) → length (verifying_key k) ≡ 32
  pub length-sign : (k : SigningKey) (message : List ℕ) → length (sign k message) ≡ 64
  pub verify-sign :
      (k : SigningKey) (message : List ℕ) → verify (verifying_key k) message (sign k message) ≡ true

abbrev pub keypair_bytes : ℕ
keypair_bytes = 64

pub data SignError : Type 0 where
  invalid_length : ℕ → SignError
  public_key_mismatch : SignError

module _ (K : Keys) (S : Signatures) (E : Ed25519) where
  open K use {Key, new_from_array}
  open S use {Signature, from_array}
  open E use {SigningKey, from_seed, verifying_key, sign}

  pub record Keypair : Type 0 where
    pub signing_key : SigningKey
    pub pubkey : Key

  -- `Keypair::from_bytes`
  unfoldable pub from_bytes : List ℕ → Outcome SignError Keypair
  from_bytes bytes = do
    fail_if (not (length bytes == keypair_bytes)) (invalid_length (length bytes))
    seed ← slice bytes 0 32
    let signing_key = from_seed seed
    let derived = verifying_key signing_key
    stored ← slice bytes 32 64
    fail_if (not (bytes_eq derived stored)) public_key_mismatch
    ok (record { signing_key = signing_key; pubkey = new_from_array derived })

  -- `Keypair::sign_message`
  unfoldable pub sign_message : Keypair → List ℕ → Signature
  sign_message k message = from_array (sign k.signing_key message)
