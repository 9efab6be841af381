-- ===== src/UnitTests/Addresses.antt =====
-- The tests of src/stealth.rs that do not rest on two hashes being different. What they draw from
-- `OsRng` is an argument; each `expect` of theirs panics when a shared secret is the identity.
use Prim.Native.String.{len}
use svm_wasi_core.Base.{
  Bool-cases, inr, length-to_le_bytes, length-append, inl, Option-cases, arith, eq→==,
  if◌then◌else◌, ℕ, zero, suc, ◌≡◌, refl, ap, sym, ◌∙◌, ◌>>=◌, ◌>>◌, ◌==◌, ◌+◌, ◌*◌, Bool, true,
  false, String, Option, some, none, ok, err, List, [], ◌∷◌, ◌++◌, length, replicate, to_le_bytes,
}
use svm_wasi_core.Keys.{Keys}
use svm_wasi_core.Stealth.Curves.{Curve}
use svm_wasi_core.Stealth.Errors.{StealthError}
use svm_wasi_core.Stealth.Laws.{
  scalar_from_hex-scalar_to_hex, recompute-derive, recover-recompute, decompress-to_pubkey,
}
use svm_wasi_core.Stealth.{
  decompress, to_pubkey, generate_keypair, ephemeral_keypair, derive_one_time_address,
  recompute_one_time_address, recover_one_time_privkey, scalar_to_hex, scalar_from_hex,
}
use svm_wasi_core.UnitTests.{
  Test, assert, assert_eq, assert_eq_holds, unwrap, unwrap_err, unwrap_some, same_string,
}

-- `err == StealthError::InvalidPoint { kind }` and `matches!(err, StealthError::InvalidScalarHex(_))`
abbrev is_invalid_point : StealthError → String → Bool
is_invalid_point (StealthError.invalid_point kind) s = same_string kind s
is_invalid_point StealthError.degenerate_shared_secret s = false
is_invalid_point (StealthError.invalid_scalar_hex text) s = false

abbrev is_invalid_scalar_hex : StealthError → Bool
is_invalid_scalar_hex (StealthError.invalid_point kind) = false
is_invalid_scalar_hex StealthError.degenerate_shared_secret = false
is_invalid_scalar_hex (StealthError.invalid_scalar_hex text) = true

module _ (K : Keys) (C : Curve) where
  open K use {Key, key_discrete, new_from_array}
  open C use {Point, Scalar, base, scale, from_encoding}

  -- `decompress` of the package, on the bytes, is `None`.
  unfoldable off_curve : List ℕ → Bool
  off_curve bytes = elim (from_encoding bytes) [ none ↦ true | some p ↦ false ]

  -- `(y..y + n).map(…).find(…)`
  unfoldable find_off_curve : ℕ → ℕ → Option (List ℕ)
  find_off_curve zero y = none
  find_off_curve (suc n) y =
      let bytes = to_le_bytes 8 y ++ replicate 24 0 in
      let later = find_off_curve n (y + 1) in if off_curve bytes then some bytes else later

  module _ (scan_priv spend_priv r : Scalar) where
    unfoldable recovered_privkey_derives_the_same_public_one_time_address : Test
    recovered_privkey_derives_the_same_public_one_time_address = do
      let (scan_priv, scan_pub) = generate_keypair K C scan_priv
      let (spend_priv, spend_pub) = generate_keypair K C spend_priv
      let (ephemeral_scalar, ephemeral_pub) = ephemeral_keypair K C r
      expected ← unwrap (derive_one_time_address K C scan_pub spend_pub ephemeral_scalar)
      t ← unwrap (recover_one_time_privkey K C scan_priv ephemeral_pub spend_priv)
      let recovered = to_pubkey K C (scale t base)
      assert_eq key_discrete recovered expected

    unfoldable sender_and_recipient_derive_the_same_one_time_address : Test
    sender_and_recipient_derive_the_same_one_time_address = do
      let (scan_priv, scan_pub) = generate_keypair K C scan_priv
      let (spend_priv, spend_pub) = generate_keypair K C spend_priv
      let (ephemeral_scalar, ephemeral_pub) = ephemeral_keypair K C r
      sender_side ← unwrap (derive_one_time_address K C scan_pub spend_pub ephemeral_scalar)
      recipient_side ← unwrap (recompute_one_time_address K C scan_priv ephemeral_pub spend_pub)
      assert_eq key_discrete sender_side recipient_side

    module _ (t : Scalar)
        (h : recover_one_time_privkey K C scan_priv (ephemeral_keypair K C r).1 spend_priv
          ≡ ok t) where
      -- What the sender derives is the public key of what the signer recovers.
      pub recovered_address :
          derive_one_time_address K C
            (generate_keypair K C scan_priv).1
            (generate_keypair K C spend_priv).1
            r
          ≡ ok (generate_keypair K C t).1
      recovered_address =
          sym (recompute-derive K C scan_priv r (generate_keypair K C spend_priv).1)
          ∙ (sym (recover-recompute K C scan_priv spend_priv (ephemeral_keypair K C r).1)
              ∙ ap (λ o. o >>= λ u. ok (generate_keypair K C u).1) h)

      recovered_privkey_derives_the_same_public_one_time_address_lem :
          recovered_privkey_derives_the_same_public_one_time_address ≡ ok tt
      unfolding recovered_privkey_derives_the_same_public_one_time_address generate_keypair
          ephemeral_keypair
      recovered_privkey_derives_the_same_public_one_time_address_lem =
          rw (recovered_address, h) (assert_eq_holds key_discrete _ _ refl)

      sender_and_recipient_derive_the_same_one_time_address_lem :
          sender_and_recipient_derive_the_same_one_time_address ≡ ok tt
      unfolding sender_and_recipient_derive_the_same_one_time_address generate_keypair
          ephemeral_keypair
      sender_and_recipient_derive_the_same_one_time_address_lem =
          rw
            (
              recompute-derive K C scan_priv r (generate_keypair K C spend_priv).1,
              recovered_address,
            )
            (assert_eq_holds key_discrete _ _ refl)

  unfoldable rejects_a_non_canonical_point : Scalar → Scalar → Test
  rejects_a_non_canonical_point scan_priv r = do
    bogus_bytes ← unwrap_some (find_off_curve 998 2)
    let bogus = new_from_array bogus_bytes
    let (scan_priv, scan_pub) = generate_keypair K C scan_priv
    let (ephemeral_scalar, ephemeral_pub) = ephemeral_keypair K C r
    error ← unwrap_err (derive_one_time_address K C scan_pub bogus ephemeral_scalar)
    assert (is_invalid_point error "spend_pub")

  unfoldable scalar_hex_round_trips : Discrete Scalar → Scalar → Test
  scalar_hex_round_trips same drawn = do
    let (scalar, public) = generate_keypair K C drawn
    let hex_str = scalar_to_hex K C scalar
    assert (len hex_str == 64)
    read ← unwrap (scalar_from_hex K C hex_str)
    assert_eq same read scalar

  unfoldable scalar_from_hex_rejects_wrong_length : Test
  scalar_from_hex_rejects_wrong_length = do
    error ← unwrap_err (scalar_from_hex K C "deadbeef")
    assert (is_invalid_scalar_hex error)

  unfoldable scalar_from_hex_rejects_non_hex : Test
  scalar_from_hex_rejects_non_hex = do
    error ←
        unwrap_err
          (scalar_from_hex K C "zzzzzzzzzzzzzzzzzzzzzzzzzzzzzzzzzzzzzzzzzzzzzzzzzzzzzzzzzzzzzzzz")
    assert (is_invalid_scalar_hex error)

  off_curve-none : (bytes : List ℕ) → off_curve bytes ≡ true → from_encoding bytes ≡ none
  unfolding off_curve
  off_curve-none bytes h = elim (Option-cases (from_encoding bytes)) [
    | inl e ↦ e
    | inr (p, e) ↦ absurd (ground arith)
  ]

  length-small_bytes : (y : ℕ) → length (to_le_bytes 8 y ++ replicate 24 0) ≡ 32
  length-small_bytes y =
      omega (arith, length-append (to_le_bytes 8 y) (replicate 24 0), length-to_le_bytes 8 y)

  find_off_curve-found :
      (n y : ℕ) (bytes : List ℕ)
      → find_off_curve n y ≡ some bytes
      → (off_curve bytes ≡ true) × (length bytes ≡ 32)
  unfolding find_off_curve
  find_off_curve-found zero y bytes h = absurd cc
  find_off_curve-found (suc n) y bytes h =
      elim (Bool-cases (off_curve (to_le_bytes 8 y ++ replicate 24 0))) [
        | inl e ↦
            let same : to_le_bytes 8 y ++ replicate 24 0 ≡ bytes = cc (rw e at h) in
            (rw (← same) e, rw (← same) (length-small_bytes y))
        | inr e ↦ find_off_curve-found n (y + 1) bytes (rw e at h)
      ]

  decompress_bogus :
      (bytes : List ℕ)
      → from_encoding bytes ≡ none
      → length bytes ≡ 32
      → decompress K C (new_from_array bytes) "spend_pub"
        ≡ err (StealthError.invalid_point "spend_pub")
  unfolding decompress
  decompress_bogus bytes off l = rw (K.as_ref-new_from_array bytes l, l, off)

  derive_bogus :
      (v : Point) (bytes : List ℕ) (r : Scalar)
      → from_encoding bytes ≡ none
      → length bytes ≡ 32
      → derive_one_time_address K C (to_pubkey K C v) (new_from_array bytes) r
        ≡ err (StealthError.invalid_point "spend_pub")
  unfolding derive_one_time_address
  derive_bogus v bytes r off l =
      rw (decompress-to_pubkey K C v "scan_pub", decompress_bogus bytes off l)

  rejects_a_non_canonical_point_lem :
      (scan_priv r : Scalar) (bytes : List ℕ)
      → find_off_curve 998 2 ≡ some bytes
      → rejects_a_non_canonical_point scan_priv r ≡ ok tt
  unfolding rejects_a_non_canonical_point generate_keypair ephemeral_keypair
  rejects_a_non_canonical_point_lem scan_priv r bytes h =
      let (off, l) = find_off_curve-found 998 2 bytes h in
      rw (h, derive_bogus (scale scan_priv base) bytes r (off_curve-none bytes off) l)

  -- Documented length of an encoding to hex.
  abbrev DoublesLength : Type 0
  DoublesLength = (bytes : List ℕ) → len (C.hex_encode bytes) ≡ 2 * length bytes

  length-scalar_to_hex : (a : Scalar) → DoublesLength → len (scalar_to_hex K C a) ≡ 64
  unfolding scalar_to_hex
  length-scalar_to_hex a doubles =
      omega (arith, doubles (C.scalar_to_bytes a), C.length-scalar_to_bytes a)

  scalar_hex_round_trips_lem :
      (same : Discrete Scalar) (drawn : Scalar)
      → DoublesLength
      → scalar_hex_round_trips same drawn ≡ ok tt
  unfolding scalar_hex_round_trips generate_keypair
  scalar_hex_round_trips_lem same drawn doubles =
      rw
        (
          eq→== (len (scalar_to_hex K C drawn)) 64 (length-scalar_to_hex drawn doubles),
          scalar_from_hex-scalar_to_hex K C drawn,
        )
        (assert_eq_holds same drawn drawn refl)

  scalar_from_hex_rejects_wrong_length_lem :
      C.hex_decode "deadbeef" ≡ ok (0xde ∷ 0xad ∷ 0xbe ∷ 0xef ∷ [])
      → scalar_from_hex_rejects_wrong_length ≡ ok tt
  unfolding scalar_from_hex_rejects_wrong_length scalar_from_hex
  scalar_from_hex_rejects_wrong_length_lem h = rw h

  scalar_from_hex_rejects_non_hex_lem :
      (text : String)
      → C.hex_decode "zzzzzzzzzzzzzzzzzzzzzzzzzzzzzzzzzzzzzzzzzzzzzzzzzzzzzzzzzzzzzzzz" ≡ err text
      → scalar_from_hex_rejects_non_hex ≡ ok tt
  unfolding scalar_from_hex_rejects_non_hex scalar_from_hex
  scalar_from_hex_rejects_non_hex_lem text h = rw h
