-- ===== src/Tests/Samples.antt =====
-- Concrete packages: each interface of the models has an instance.
use mathlib.Core.Option.{Option, some}
use mathlib.Core.List.{append-nil, append_assoc}
use mathlib.Core.Option
use svm_wasi_core.Base.{
  get_elem?, arith, ℕ, zero, suc, ◌+◌, ◌≡◌, refl, ap, ◌∙◌, sym, String, List, [], ◌∷◌, ◌++◌, length,
  length-append, drop, drop-append, Outcome, ok, err,
}
use svm_wasi_core.Base.Search.{bytes_eq, bytes_eq_refl}
use svm_wasi_core.Base.{Bool, true, false}
use svm_wasi_core.Instruction.{Programs}
use svm_wasi_core.Keys.{Keys}
use svm_wasi_core.Sign.{Signatures, Ed25519}
use svm_wasi_core.Transaction.{MessageFormat, Envelope}
use svm_wasi_core.Transaction.Wire.{ReadsSignatures}
use svm_wasi_core.Tests.Vectors.{
  Vec, vec_of, list_of, length-list_of, vec_of-list_of, list_of-vec_of, vec_discrete,
}

abbrev pub sample_keys : Keys
sample_keys = record {
  Key = Vec 32;
  key_discrete = vec_discrete 32;
  new_from_array = vec_of 32;
  as_ref = list_of 32;
  length-as_ref = length-list_of 32;
  new_from_array-as_ref =
      λ k. ap (vec_of 32) (sym (append-nil (list_of 32 k))) ∙ vec_of-list_of 32 k [];
  as_ref-new_from_array = list_of-vec_of 32;
}

abbrev pub key : ℕ → Vec 32
key n = vec_of 32 (n ∷ [])

abbrev pub sample_signatures : Signatures
sample_signatures = record {
  Signature = Vec 64;
  default = vec_of 64 [];
  from_array = vec_of 64;
  to_array = list_of 64;
  to_array-from_array = list_of-vec_of 64;
}

-- A signature is the verifying key twice.
abbrev pub sample_ed25519 : Ed25519
sample_ed25519 = record {
  SigningKey = Vec 32;
  from_seed = vec_of 32;
  verifying_key = list_of 32;
  sign = λ k message. list_of 32 k ++ list_of 32 k;
  verify = λ k message signature. bytes_eq (k ++ k) signature;
  length-verifying_key = length-list_of 32;
  length-sign =
      λ k message. omega (arith, length-append (list_of 32 k) (list_of 32 k), length-list_of 32 k);
  verify-sign = λ k message. bytes_eq_refl (list_of 32 k ++ list_of 32 k);
}

-- Any bytes are a message, of two accounts that both sign.
abbrev pub sample_messages : MessageFormat (Vec 32) (Vec 32)
sample_messages = record {
  Message = List ℕ;
  num_required_signatures = λ m. 2;
  account_keys = λ m. key 1 ∷ key 2 ∷ key 3 ∷ [];
  recent_blockhash = λ m. key 9;
  serialize = λ m. ok m;
  deserialize = λ bytes. ok bytes;
}

-- Vectors of `w` numbers behind one another.
module _ (w : ℕ) where
  abbrev write_all : List (Vec w) → List ℕ
  write_all [] = []
  write_all (s ∷ ss) = list_of w s ++ write_all ss

  abbrev read_all : ℕ → List ℕ → List (Vec w)
  read_all zero bytes = []
  read_all (suc n) bytes = vec_of w bytes ∷ read_all n (drop w bytes)

  read-write_all :
      (ss : List (Vec w)) (rest : List ℕ) → read_all (length ss) (write_all ss ++ rest) ≡ ss
  read-write_all [] rest = refl
  read-write_all (s ∷ ss) rest = rw (
    append_assoc (list_of w s) (write_all ss) rest,
    vec_of-list_of w s (write_all ss ++ rest),
    drop-append w (list_of w s) (write_all ss ++ rest) (length-list_of w s),
    read-write_all ss rest,
  )

  abbrev blocks : ℕ → ℕ
  blocks zero = 0
  blocks (suc n) = w + blocks n

  length-write_all : (ss : List (Vec w)) → length (write_all ss) ≡ blocks (length ss)
  length-write_all [] = refl
  length-write_all (s ∷ ss) =
      omega
        (arith, length-append (list_of w s) (write_all ss), length-list_of w s, length-write_all ss)

abbrev parse_signatures : List ℕ → Outcome String (List (Vec 64) × ℕ)
parse_signatures [] = err "empty"
parse_signatures (n ∷ bytes) = ok (read_all 64 n bytes, blocks 64 n + 1)

abbrev pub sample_envelope : Envelope (Vec 64) (List ℕ)
sample_envelope = record {
  serialize_signatures = λ ss. ok (length ss ∷ write_all 64 ss);
  deserialize_signatures = parse_signatures;
  encode = λ bytes. bytes;
  decode = λ text. ok text;
  version_prefix = 128;
}

pub sample_envelope-ReadsSignatures : ReadsSignatures sample_envelope
sample_envelope-ReadsSignatures ss bytes rest h =
    let same : length ss ∷ write_all 64 ss ≡ bytes = cc in
    let size : length (length ss ∷ write_all 64 ss) ≡ blocks 64 (length ss) + 1 =
      omega (arith, length-write_all 64 ss) in
    rw (← same, read-write_all 64 ss rest, size)

-- The two signers of the sample messages differ.
pub signers_differ :
    (i j : ℕ) (k : Vec 32)
    → get_elem? (key 1 ∷ key 2 ∷ []) i ≡ some k
    → get_elem? (key 1 ∷ key 2 ∷ []) j ≡ some k
    → i ≡ j
signers_differ zero zero k p q = refl
signers_differ zero (suc zero) k p q =
    let heads : ◌≡◌ {A = Option ℕ} (some 1) (some 2) = ap (Option.map (λ v. v.0)) (p ∙ sym q) in cc
signers_differ (suc zero) zero k p q =
    let heads : ◌≡◌ {A = Option ℕ} (some 2) (some 1) = ap (Option.map (λ v. v.0)) (p ∙ sym q) in cc
signers_differ (suc zero) (suc zero) k p q = refl
signers_differ zero (suc (suc j)) k p q = cc
signers_differ (suc zero) (suc (suc j)) k p q = cc
signers_differ (suc (suc i)) j k p q = cc

-- Every text is the id of one program, and every address has the first bump.
abbrev pub programs : Programs (Vec 32)
programs = record {
  AccountMeta = Vec 32 × Bool × Bool;
  pubkey = λ a. a.0;
  is_signer = λ a. a.1;
  is_writable = λ a. a.2;
  new = λ k b. (k, b, true);
  new_readonly = λ k b. (k, b, false);
  from_str = λ s. ok (key 8);
  try_find_program_address = λ seeds program. some (key 9, 255);
  pubkey-new = λ k b. refl;
  is_signer-new = λ k b. refl;
  is_writable-new = λ k b. refl;
  pubkey-new_readonly = λ k b. refl;
  is_signer-new_readonly = λ k b. refl;
  is_writable-new_readonly = λ k b. refl;
}
