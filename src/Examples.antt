-- ===== src/Examples.antt =====
-- examples/: the three programs that an operator runs on a machine of their own. What they read is
-- an argument, drawn secrets too; what they print is left out, and errors that are only printed are
-- one failure.
pub mod Arguments
pub mod Sweep
pub mod NonceAccount
use Prim.Native.String.{◌++◌ as ◌⊕◌}
use svm_wasi_core.Base.{ℕ, String, List, Outcome, ok, err, panic, ◌>>=◌, map_err}
use svm_wasi_core.Keys.{Keys}
use svm_wasi_core.Texts.{show_number}
use svm_wasi_core.Sign.{
  Signatures, Ed25519, Keypair, SignError, invalid_length, public_key_mismatch, keypair_bytes,
  from_bytes,
}
use svm_wasi_core.Stealth.Curves.{Curve}
use svm_wasi_core.Stealth.{generate_keypair, scalar_to_hex}

-- `ExitCode`, or a panic.
pub data Exit : Type 0 where
  success failure panicked : Exit

-- The files of the machine: `std::fs::read_to_string`, and `serde_json::from_str::<Vec<u8>>`.
pub record Files : Type 0 where
  pub read_to_string : String → Outcome String String
  pub parse_bytes : String → Outcome String (List ℕ)

-- `SignError` as it is displayed.
abbrev pub show_sign_error : SignError → String
show_sign_error (invalid_length n) =
    "expected " ⊕ show_number keypair_bytes ⊕ " bytes, got " ⊕ show_number n
show_sign_error public_key_mismatch =
    "stored public key does not match the key derived from the secret seed"

module _ (K : Keys) (S : Signatures) (E : Ed25519) where
  -- `load_keypair_file`
  unfoldable pub load_keypair_file : Files → String → Outcome String (Keypair K S E)
  load_keypair_file files path = do
    contents ← map_err (λ e. "could not read " ⊕ path ⊕ ": " ⊕ e) (files.read_to_string path)
    bytes ←
        map_err (λ e. path ⊕ " is not a solana-keygen JSON keypair file: " ⊕ e)
          (files.parse_bytes contents)
    map_err (λ e. path ⊕ ": " ⊕ show_sign_error e) (from_bytes K S E bytes)

-- An early return of `ExitCode::FAILURE`, whatever the error.
abbrev pub or_fail : {F A : Type 0} → Outcome F A → Outcome (Unit {0}) A
or_fail m = map_err (λ e. tt) m

-- generate_stealth_meta_address.rs: the four values that are shown, from the two random scalars.
pub record MetaAddress (Key : Type 0) : Type 0 where
  pub scan_privkey : String
  pub scan_pubkey : Key
  pub spend_privkey : String
  pub spend_pubkey : Key

unfoldable pub meta_address : (K : Keys) (C : Curve) → C.Scalar → C.Scalar → MetaAddress K.Key
meta_address K C scan spend =
    let (scan_priv, scan_pub) = generate_keypair K C scan in
    let (spend_priv, spend_pub) = generate_keypair K C spend in
    record {
      scan_privkey = scalar_to_hex K C scan_priv;
      scan_pubkey = scan_pub;
      spend_privkey = scalar_to_hex K C spend_priv;
      spend_pubkey = spend_pub;
    }

-- The exit after the last call of a run.
abbrev pub exit_of {ℓ} : {E : Type ℓ} {A : Type 0} → Outcome E A → Exit
exit_of (ok a) = success
exit_of (err e) = failure
exit_of panic = panicked
