-- ===== src/Stealth/Laws.antt =====
-- The sender, the scanner and the signer of a stealth payment agree.
use svm_wasi_core.Base.{
  map_err-ok, Outcome-cases, ◌↔◌, inr, inl, ℕ, String, ◌≡◌, refl, ap, sym, ◌∙◌, Bool, true, false,
  not, Option, some, none, List, length, ◌==◌, Outcome, ok, err, ◌>>=◌, ◌>>◌, fail_if, ok_or,
  map_err, >>=-eq-ok, Bool-cases, Option-cases,
}
use svm_wasi_core.Keys.{Keys}
use svm_wasi_core.Sign.{Signatures}
use svm_wasi_core.Stealth.Curves.{Curve, Hazmat}
use svm_wasi_core.Stealth.Errors.{StealthError}
use svm_wasi_core.Stealth.{
  decompress, to_pubkey, hash_shared_secret, generate_keypair, ephemeral_keypair, scalar_to_hex,
  scalar_from_hex, derive_one_time_address, recompute_one_time_address, recover_one_time_privkey,
  sign_with_recovered_key,
}

checked-ok :
    {E A : Type 0} {a : A} (e e' : E) (bad : Bool) (o : Option A)
    → (fail_if bad e >> ok_or o e') ≡ ok a
    → o ≡ some a
checked-ok e e' true none h = cc
checked-ok e e' true (some b) h = cc
checked-ok e e' false none h = cc
checked-ok e e' false (some b) h = cc

module _ (K : Keys) (C : Curve) where
  open K use {Key, as_ref, new_from_array, length-as_ref, as_ref-new_from_array}
  open C use {
    Point, Scalar, base, scale, add, add_scalars, is_identity, from_encoding, compress,
    hash_from_bytes, scalar_to_bytes, from_canonical_bytes, hex_encode, hex_decode, scale_comm,
    scale-add_scalars, length-compress, from_encoding-compress, length-scalar_to_bytes,
    from_canonical_bytes-scalar_to_bytes, from_canonical_bytes-unique, hex_decode-hex_encode,
  }

  pub as_ref-to_pubkey : (p : Point) → as_ref (to_pubkey K C p) ≡ compress p
  unfolding to_pubkey
  as_ref-to_pubkey p = as_ref-new_from_array (compress p) (length-compress p)

  pub decompress-to_pubkey :
      (p : Point) (kind : String) → decompress K C (to_pubkey K C p) kind ≡ ok p
  unfolding decompress
  decompress-to_pubkey p kind = rw (as_ref-to_pubkey p, length-compress p, from_encoding-compress p)

  -- The sender's address for a payment to the scan key of `scan_priv`, with the ephemeral scalar
  -- `r`, is the one the scanner recomputes from `scan_priv` and the published key of `r`, for
  -- every spend key: the two also refuse the same payments with the same error.
  pub recompute-derive :
      (scan_priv r : Scalar) (spend_pub : Key)
      → recompute_one_time_address K C scan_priv (ephemeral_keypair K C r).1 spend_pub
        ≡ derive_one_time_address K C (generate_keypair K C scan_priv).1 spend_pub r
  unfolding recompute_one_time_address derive_one_time_address generate_keypair ephemeral_keypair
  recompute-derive scan_priv r spend_pub = rw (
    decompress-to_pubkey (scale r base) "ephemeral_pub",
    decompress-to_pubkey (scale scan_priv base) "scan_pub",
    scale_comm scan_priv r base,
  )

  -- The public key of the recovered private key is the address that the scanner computes for the
  -- spend key of `spend_priv`, for every published ephemeral key; recovery refuses the same keys,
  -- with the same error.
  pub recover-recompute :
      (scan_priv spend_priv : Scalar) (ephemeral_pub : Key)
      → (recover_one_time_privkey K C scan_priv ephemeral_pub spend_priv >>= λ t.
          ok (generate_keypair K C t).1)
        ≡ recompute_one_time_address K C scan_priv ephemeral_pub (generate_keypair K C spend_priv).1
  unfolding recompute_one_time_address recover_one_time_privkey generate_keypair hash_shared_secret
  recover-recompute scan_priv spend_priv ephemeral_pub =
      elim (Outcome-cases (decompress K C ephemeral_pub "ephemeral_pub")) [
        | inl (p, d) ↦ elim (Bool-cases (is_identity (scale scan_priv p))) [
          | inl e ↦ rw (d, decompress-to_pubkey (scale spend_priv base) "spend_pub", e)
          | inr e ↦ rw (
            d,
            decompress-to_pubkey (scale spend_priv base) "spend_pub",
            e,
            scale-add_scalars (hash_from_bytes (compress (scale scan_priv p))) spend_priv,
          )
        ]
        | inr (inl (e, d)) ↦ rw d
        | inr (inr d) ↦ rw d
      ]

  -- Reading a scalar's hex gives it back.
  pub scalar_from_hex-scalar_to_hex :
      (a : Scalar) → scalar_from_hex K C (scalar_to_hex K C a) ≡ ok a
  unfolding scalar_from_hex scalar_to_hex
  scalar_from_hex-scalar_to_hex a = rw (
    hex_decode-hex_encode (scalar_to_bytes a),
    length-scalar_to_bytes a,
    from_canonical_bytes-scalar_to_bytes a,
  )

  accepted-canonical :
      (text : String) (a : Scalar)
      → scalar_from_hex K C text ≡ ok a
      → hex_decode text ≡ ok (scalar_to_bytes a)
  unfolding scalar_from_hex
  accepted-canonical text a h =
      let (bytes, p, q) =
        >>=-eq-ok (map_err StealthError.invalid_scalar_hex (hex_decode text))
          (λ bs.
            fail_if (not (length bs == 32)) (StealthError.invalid_scalar_hex "expected 32 bytes")
            >> ok_or (from_canonical_bytes bs)
                (StealthError.invalid_scalar_hex "not a canonical scalar mod L"))
          h in
      map_err-ok StealthError.invalid_scalar_hex (hex_decode text) p
      ∙ ap ok (sym (from_canonical_bytes-unique bytes a (checked-ok _ _ _ _ q)))

  -- A text is read as a scalar exactly when it is hex for the bytes of that scalar: no longer
  -- string, and no encoding that stands for its value modulo the group order.
  pub scalar_from_hex-canonical :
      (text : String) (a : Scalar)
      → (scalar_from_hex K C text ≡ ok a) ↔ (hex_decode text ≡ ok (scalar_to_bytes a))
  unfolding scalar_from_hex
  scalar_from_hex-canonical text a = (
    accepted-canonical text a,
    λ h. rw (h, length-scalar_to_bytes a, from_canonical_bytes-scalar_to_bytes a),
  )

  -- What the derivation of an address comes to, with the keys' points.
  pub data Derived (scan spend : Option Point) (r : Scalar)
      : Outcome StealthError Key → Type 0 where
    bad_scan : scan ≡ none → Derived scan spend r (err (StealthError.invalid_point "scan_pub"))
    bad_spend :
        (v : Point)
        → scan ≡ some v
        → spend ≡ none
        → Derived scan spend r (err (StealthError.invalid_point "spend_pub"))
    degenerate :
        (v s : Point)
        → scan ≡ some v
        → spend ≡ some s
        → is_identity (scale r v) ≡ true
        → Derived scan spend r (err StealthError.degenerate_shared_secret)
    address :
        (v s : Point) (k : Key)
        → scan ≡ some v
        → spend ≡ some s
        → is_identity (scale r v) ≡ false
        → as_ref k ≡ compress (add (scale (hash_from_bytes (compress (scale r v))) base) s)
        → Derived scan spend r (ok k)

  decompress-from_encoding :
      (k : Key) (kind : String)
      → decompress K C k kind ≡ elim (from_encoding (as_ref k)) [
        | none ↦ err (StealthError.invalid_point kind)
        | some p ↦ ok p
      ]
  unfolding decompress
  decompress-from_encoding k kind = elim (Option-cases (from_encoding (as_ref k))) [
    | inl e ↦ rw (length-as_ref k, e)
    | inr (p, e) ↦ rw (length-as_ref k, e)
  ]

  -- `derive_one_time_address` checks the scan key, then the spend key, then that the shared secret
  -- is not the identity; past these the address is the encoding of `H(r·V)·G + S`.
  pub derive_one_time_address-Derived :
      (scan_pub spend_pub : Key) (r : Scalar)
      → Derived
          (from_encoding (as_ref scan_pub))
          (from_encoding (as_ref spend_pub))
          r
          (derive_one_time_address K C scan_pub spend_pub r)
  unfolding derive_one_time_address hash_shared_secret
  derive_one_time_address-Derived scan_pub spend_pub r =
      rw
        (
          decompress-from_encoding scan_pub "scan_pub",
          decompress-from_encoding spend_pub "spend_pub",
        )
        (elim (Option-cases (from_encoding (as_ref scan_pub))) [
          | inl e ↦ rw e (bad_scan refl)
          | inr (v, e) ↦ elim (Option-cases (from_encoding (as_ref spend_pub))) [
            | inl f ↦ rw (e, f) (bad_spend v refl refl)
            | inr (s, f) ↦ elim (Bool-cases (is_identity (scale r v))) [
              | inl g ↦ rw (e, f, g) (degenerate v s refl refl g)
              | inr g ↦ rw (e, f, g) (address v s _ refl refl g (as_ref-to_pubkey _))
            ]
          ]
        ])

  module _ (S : Signatures) (H : Hazmat C) where
    open H use {
      raw_sign, verify, key_of, length-raw_sign, verifying_key_from_bytes-compress, verify-raw_sign,
    }

    -- The key that is recovered for a payment signs every message, and the signature verifies
    -- under the payment's address: the address that the scanner computes for the spend key.
    pub sign_with_recovered_key-verify :
        (scan_priv spend_priv t : Scalar) (ephemeral_pub : Key) (prefix message : List ℕ)
        → recover_one_time_privkey K C scan_priv ephemeral_pub spend_priv ≡ ok t
        → (signature : S.Signature) × (address : Key) × (sign_with_recovered_key K C S H prefix t
              message
            ≡ ok signature)
          × (recompute_one_time_address K C scan_priv ephemeral_pub
                (generate_keypair K C spend_priv).1
              ≡ ok address)
          × (verify (as_ref address) message (S.to_array signature) ≡ true)
    unfolding sign_with_recovered_key generate_keypair
    sign_with_recovered_key-verify scan_priv spend_priv t ephemeral_pub prefix message h = (
      S.from_array (raw_sign t prefix message (key_of (scale t base))),
      (generate_keypair K C t).1,
      rw (verifying_key_from_bytes-compress (scale t base)),
      sym (recover-recompute scan_priv spend_priv ephemeral_pub) ∙ rw h,
      rw (
        as_ref-to_pubkey (scale t base),
        S.to_array-from_array _ (length-raw_sign t prefix message (key_of (scale t base))),
        verify-raw_sign t prefix message,
      ),
    )
