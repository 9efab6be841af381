-- ===== src/Sign/Laws.antt =====
-- Which bytes `Keypair::from_bytes` loads.
use svm_wasi_core.Base.{
  length-append, take_all, drop-append, take, take-append, false, ℕ, ◌≡◌, ◌≢◌, refl, true, List,
  length, ◌++◌, arith, Bool-cases, inl, inr, Outcome, ok, err, eq→==, ==→eq, ◌==◌, ◌∙◌,
}
use svm_wasi_core.Base.Cuts.{cut, slice-cut}
use svm_wasi_core.Base.Search.{bytes_eq, bytes_eq→eq, bytes_eq_refl}
use mathlib.Core.Path.{ap, subst}
use svm_wasi_core.Keys.{Keys}
use svm_wasi_core.Sign.{
  Signatures, Ed25519, SignError, invalid_length, public_key_mismatch, Keypair, from_bytes,
  sign_message,
}

module _ (K : Keys) (S : Signatures) (E : Ed25519) where
  open K use {as_ref, new_from_array, as_ref-new_from_array}
  open S use {to_array, to_array-from_array}
  open E use {
    SigningKey, from_seed, verifying_key, verify, sign, length-verifying_key, length-sign,
    verify-sign,
  }

  -- The public key that belongs to the seed in the first 32 bytes.
  abbrev pub derived_key : List ℕ → List ℕ
  derived_key bytes = verifying_key (from_seed (cut bytes 0 32))

  -- The key pair is the seed's, and the key that it claims is the stored one.
  pub record Loaded (bytes : List ℕ) (k : Keypair K S E) : Type 0 where
    pub seed : k.signing_key ≡ from_seed (cut bytes 0 32)
    pub claimed : as_ref k.pubkey ≡ cut bytes 32 64
    pub derived : as_ref k.pubkey ≡ verifying_key k.signing_key

  pub data Answer (bytes : List ℕ) : Outcome SignError (Keypair K S E) → Type 0 where
    bad_length : length bytes ≢ 64 → Answer bytes (err (invalid_length (length bytes)))
    mismatch :
        length bytes ≡ 64
        → derived_key bytes ≢ cut bytes 32 64
        → Answer bytes (err public_key_mismatch)
    loaded : (k : Keypair K S E) → length bytes ≡ 64 → Loaded bytes k → Answer bytes (ok k)

  from_bytes_bad :
      (bytes : List ℕ)
      → length bytes ≢ 64
      → from_bytes K S E bytes ≡ err (invalid_length (length bytes))
  unfolding from_bytes
  from_bytes_bad bytes h = elim (Bool-cases (length bytes == 64)) [
    | inl e ↦ absurd (h (==→eq _ _ e))
    | inr e ↦ rw e
  ]

  from_bytes_mismatch :
      (bytes : List ℕ)
      → length bytes ≡ 64
      → bytes_eq (derived_key bytes) (cut bytes 32 64) ≡ false
      → from_bytes K S E bytes ≡ err public_key_mismatch
  unfolding from_bytes
  from_bytes_mismatch bytes l e = rw (
    eq→== _ _ l,
    slice-cut {E = SignError} bytes 0 32 (omega arith) (omega arith),
    slice-cut {E = SignError} bytes 32 64 (omega arith) (omega arith),
    e,
  )

  from_bytes_loaded :
      (bytes : List ℕ)
      → length bytes ≡ 64
      → bytes_eq (derived_key bytes) (cut bytes 32 64) ≡ true
      → from_bytes K S E bytes
        ≡ ok (record {
          signing_key = from_seed (cut bytes 0 32);
          pubkey = new_from_array (derived_key bytes);
        })
  unfolding from_bytes
  from_bytes_loaded bytes l e = rw (
    eq→== _ _ l,
    slice-cut {E = SignError} bytes 0 32 (omega arith) (omega arith),
    slice-cut {E = SignError} bytes 32 64 (omega arith) (omega arith),
    e,
  )

  -- `from_bytes` never panics. It refuses a length other than 64, and a stored public key that is
  -- not the one derived from the seed; it loads all other bytes, as the seed's key under the
  -- stored public key.
  pub from_bytes-Answer : (bytes : List ℕ) → Answer bytes (from_bytes K S E bytes)
  from_bytes-Answer bytes = elim (Bool-cases (length bytes == 64)) [
    | inr e ↦
        let h : length bytes ≢ 64 = λ l. cc (e, eq→== _ 64 l) in
        rw (from_bytes_bad bytes h) (bad_length h)
    | inl e ↦
        let l : length bytes ≡ 64 = ==→eq _ _ e in
        elim (Bool-cases (bytes_eq (derived_key bytes) (cut bytes 32 64))) [
          | inr d ↦
              rw (from_bytes_mismatch bytes l d)
                (mismatch l (λ p. cc (d, bytes_eq_refl (cut bytes 32 64), p)))
          | inl d ↦
              let key = as_ref-new_from_array (derived_key bytes) (length-verifying_key _) in
              rw (from_bytes_loaded bytes l d) (
                loaded _ l
                  (record { seed = refl; claimed = key ∙ bytes_eq→eq _ _ d; derived = key }))
        ]
  ]

  Answer-ok :
      (bytes : List ℕ) (r : Outcome SignError (Keypair K S E)) (k : Keypair K S E)
      → Answer bytes r
      → r ≡ ok k
      → Loaded bytes k
  Answer-ok bytes _ k (bad_length h) e = cc
  Answer-ok bytes _ k (mismatch l h) e = cc
  Answer-ok bytes _ k (loaded k' l h) e = let p : k' ≡ k = cc in subst (Loaded bytes) p h

  pub from_bytes-Loaded :
      (bytes : List ℕ) (k : Keypair K S E) → from_bytes K S E bytes ≡ ok k → Loaded bytes k
  from_bytes-Loaded bytes k h = Answer-ok bytes _ k (from_bytes-Answer bytes) h

  -- A pair whose public key is the one of its signing key.
  abbrev pub IsMatched : Keypair K S E → Type 0
  IsMatched k = as_ref k.pubkey ≡ verifying_key k.signing_key

  pub sign_message-verify :
      (k : Keypair K S E) (message : List ℕ)
      → IsMatched k
      → verify (as_ref k.pubkey) message (to_array (sign_message K S E k message)) ≡ true
  unfolding sign_message
  sign_message-verify k message h =
      rw (h, to_array-from_array _ (length-sign k.signing_key message))
        (verify-sign k.signing_key message)

  -- What a loaded key pair signs verifies under the public key in the last 32 of its bytes.
  pub verify-from_bytes :
      (bytes message : List ℕ) (k : Keypair K S E)
      → from_bytes K S E bytes ≡ ok k
      → verify (cut bytes 32 64) message (to_array (sign_message K S E k message)) ≡ true
  verify-from_bytes bytes message k h =
      let l = from_bytes-Loaded bytes k h in
      rw (← l.claimed) (sign_message-verify k message l.derived)

  -- The bytes of a seed and its own public key load.
  pub from_bytes-seed :
      (seed : List ℕ)
      → length seed ≡ 32
      → from_bytes K S E (seed ++ verifying_key (from_seed seed))
        ≡ ok (record {
          signing_key = from_seed seed;
          pubkey = new_from_array (verifying_key (from_seed seed));
        })
  from_bytes-seed seed h =
      let key = verifying_key (from_seed seed) in
      let bytes = seed ++ key in
      let lk = length-verifying_key (from_seed seed) in
      let front : cut bytes 0 32 ≡ seed = take-append 32 seed key h in
      let back : cut bytes 32 64 ≡ key =
        ap (take 32) (drop-append 32 seed key h) ∙ take_all 32 key lk in
      let derived : derived_key bytes ≡ key = ap (λ t. verifying_key (from_seed t)) front in
      let same : bytes_eq (derived_key bytes) (cut bytes 32 64) ≡ true =
        ap (λ t. bytes_eq t (cut bytes 32 64)) derived
        ∙ (ap (bytes_eq key) back ∙ bytes_eq_refl key) in
      from_bytes_loaded bytes (omega (arith, length-append seed key)) same
      ∙ ap
          (λ t. ok (record {
            signing_key = from_seed t;
            pubkey = new_from_array (verifying_key (from_seed t));
          }))
          front
