-- ===== src/Tests/Curves.antt =====
-- The theorems on stealth payments, over a sample group: the numbers under addition.
use native.Mathlib.Nat.{mul_comm, mul_assoc}
use Prim.Native.Char.{char, code, nul}
use svm_wasi_core.Base.{
  ◌++◌, ◌↔◌, String, zero, suc, inr, inl, arith, ℕ, ◌+◌, ◌*◌, ◌≡◌, refl, sym, ap, ◌∙◌, true, Option,
  some, none, List, [], ◌∷◌, replicate, ◌==◌, if◌then◌else◌, ok, Bool-cases,
}
use svm_wasi_core.Base.Search.{bytes_eq, bytes_eq_refl, bytes_eq→eq}
use svm_wasi_core.Stealth.Curves.{Curve, Hazmat}
use svm_wasi_core.Stealth.{
  generate_keypair, ephemeral_keypair, scalar_from_hex, derive_one_time_address,
  recompute_one_time_address, recover_one_time_privkey, sign_with_recovered_key,
}
use svm_wasi_core.Stealth.Laws.{
  recompute-derive, scalar_from_hex-canonical, Derived, derive_one_time_address-Derived,
  sign_with_recovered_key-verify,
}
use svm_wasi_core.Tests.Vectors.{Vec}
use svm_wasi_core.Tests.Samples.{sample_keys, key, sample_signatures}

-- Bytes as text: each number is that many ones, with a zero behind them.
abbrev ones : ℕ → String → String
ones zero s = String.◌∷◌ nul s
ones (suc n) s = String.◌∷◌ (char 1 tt) (ones n s)

abbrev pub hex : List ℕ → String
hex [] = String.[]
hex (n ∷ ns) = ones n (hex ns)

abbrev pub unhex : ℕ → String → List ℕ
unhex n String.[] = []
unhex n (String.◌∷◌ c s) = if code c == 0 then n ∷ unhex 0 s else unhex (n + 1) s

unhex-ones : (n m : ℕ) (s : String) → unhex m (ones n s) ≡ (m + n) ∷ unhex 0 s
unhex-ones zero m s = ap (λ k. k ∷ unhex 0 s) (omega arith)
unhex-ones (suc n) m s = unhex-ones n (m + 1) s ∙ ap (λ k. k ∷ unhex 0 s) (omega arith)

pub unhex-hex : (bytes : List ℕ) → unhex 0 (hex bytes) ≡ bytes
unhex-hex [] = refl
unhex-hex (n ∷ ns) =
    let from_zero : 0 + n ≡ n = omega arith in
    unhex-ones n 0 (hex ns) ∙ rw from_zero (ap (λ ms. n ∷ ms) (unhex-hex ns))

-- A number as 32 bytes, of which the first is any number.
abbrev pub padded : ℕ → List ℕ
padded n = n ∷ replicate 31 0

abbrev head_of : List ℕ → ℕ
head_of [] = 0
head_of (n ∷ rest) = n

abbrev canonical : List ℕ → Option ℕ
canonical bytes = if bytes_eq (padded (head_of bytes)) bytes then some (head_of bytes) else none

pub canonical-padded : (n : ℕ) → canonical (padded n) ≡ some n
canonical-padded n = rw (bytes_eq_refl (padded n))

pub canonical_unique : (bytes : List ℕ) (n : ℕ) → canonical bytes ≡ some n → padded n ≡ bytes
canonical_unique bytes n h = elim (Bool-cases (bytes_eq (padded (head_of bytes)) bytes)) [
  | inl e ↦
      let same : some (head_of bytes) ≡ some n = rw e at h in
      let heads : head_of bytes ≡ n = cc in
      ap padded (sym heads) ∙ bytes_eq→eq (padded (head_of bytes)) bytes e
  | inr e ↦ let impossible : ◌≡◌ {A = Option ℕ} none (some n) = rw e at h in cc
]

pub scale_swap : (a b p : ℕ) → a * (b * p) ≡ b * (a * p)
scale_swap a b p = sym (mul_assoc a b p) ∙ (ap (λ n. n * p) (mul_comm a b) ∙ mul_assoc b a p)

pub distribute : (a b p : ℕ) → (a + b) * p ≡ a * p + b * p
distribute a b p = grind arith

abbrev pub numbers : Curve
numbers = record {
  Point = ℕ;
  Scalar = ℕ;
  base = 1;
  scale = λ a p. a * p;
  add = λ p q. p + q;
  add_scalars = λ a b. a + b;
  is_identity = λ p. p == 0;
  from_encoding = canonical;
  compress = padded;
  hash_from_bytes = head_of;
  scalar_to_bytes = padded;
  from_canonical_bytes = canonical;
  hex_encode = hex;
  hex_decode = λ text. ok (unhex 0 text);
  scale_comm = scale_swap;
  scale-add_scalars = λ a b. distribute a b 1;
  length-compress = λ p. refl;
  from_encoding-compress = canonical-padded;
  length-scalar_to_bytes = λ a. refl;
  from_canonical_bytes-scalar_to_bytes = canonical-padded;
  from_canonical_bytes-unique = canonical_unique;
  hex_decode-hex_encode = λ bytes. ap ok (unhex-hex bytes);
}

-- A signature is the public key twice.
abbrev pub sample_hazmat : Hazmat numbers
sample_hazmat = record {
  VerifyingKey = ℕ;
  verifying_key_from_bytes = canonical;
  raw_sign = λ a prefix message k. padded k ++ padded k;
  verify = λ k message signature. bytes_eq (k ++ k) signature;
  length-raw_sign = λ a prefix message k. refl;
  key_of = λ p. p;
  verifying_key_from_bytes-compress = canonical-padded;
  verify-raw_sign = λ a prefix message. bytes_eq_refl (padded (a * 1) ++ padded (a * 1));
}

recompute-derive_example :
    recompute_one_time_address sample_keys numbers 3
      (ephemeral_keypair sample_keys numbers 5).1
      (key 7)
    ≡ derive_one_time_address sample_keys numbers
        (generate_keypair sample_keys numbers 3).1
        (key 7)
        5
recompute-derive_example = recompute-derive sample_keys numbers 3 5 (key 7)

scalar_from_hex-canonical_example :
    (scalar_from_hex sample_keys numbers (hex (padded 9)) ≡ ok 9)
    ↔ (numbers.hex_decode (hex (padded 9)) ≡ ok (padded 9))
scalar_from_hex-canonical_example = scalar_from_hex-canonical sample_keys numbers (hex (padded 9)) 9

derive_one_time_address-Derived_example :
    Derived sample_keys numbers
      (some 3)
      (some 7)
      5
      (derive_one_time_address sample_keys numbers (key 3) (key 7) 5)
derive_one_time_address-Derived_example =
    derive_one_time_address-Derived sample_keys numbers (key 3) (key 7) 5

sign_with_recovered_key-verify_example :
    (signature : Vec 64) × (address : Vec 32) × (sign_with_recovered_key sample_keys numbers
        sample_signatures sample_hazmat [] 22
        (1 ∷ [])
      ≡ ok signature)
    × (recompute_one_time_address sample_keys numbers 3
          (key 5)
          (generate_keypair sample_keys numbers 7).1
        ≡ ok address)
    × (sample_hazmat.verify
          (sample_keys.as_ref address)
          (1 ∷ [])
          (sample_signatures.to_array signature)
        ≡ true)
unfolding recover_one_time_privkey svm_wasi_core.Stealth.decompress
    svm_wasi_core.Stealth.hash_shared_secret
sign_with_recovered_key-verify_example =
    sign_with_recovered_key-verify sample_keys numbers sample_signatures sample_hazmat 3 7 22
      (key 5) [] (1 ∷ []) refl
