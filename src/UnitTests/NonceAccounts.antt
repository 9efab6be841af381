-- ===== src/UnitTests/NonceAccounts.antt =====
-- The tests of src/nonce.rs, under what bincode and solana-nonce document.
use svm_wasi_core.Base.{◌≡◌, refl, ◌>>=◌, ◌>>◌, Bool, true, not, String, ok, err, panic, replicate}
use svm_wasi_core.Keys.{Keys}
use svm_wasi_core.Nonce.{
  Nonces, NonceAccount, NonceError, decode, legacy, current, initialized, uninitialized,
  parse_nonce_account, usable_blockhash, encode_initialized_nonce_account,
}
use svm_wasi_core.Nonce.Usable.{Encodes, MakesCurrent}
use svm_wasi_core.UnitTests.{
  Test, assert, assert_eq, assert_eq_holds, unwrap, unwrap_err, is_none, pk,
}

-- Keys and hashes are each a `Keys`; `authority_of` is the field of the nonce data.
module _ (K H : Keys) (N : Nonces K.Key H.Key) (authority_of : N.Data → K.Key) where
  -- `assert_eq!(data.authority, authority)` in the arm of a current initialized account
  abbrev assert_authority : NonceAccount N.Data → K.Key → Test
  assert_authority (current (initialized d)) authority =
      assert_eq K.key_discrete (authority_of d) authority
  assert_authority (current uninitialized) authority = panic
  assert_authority (legacy s) authority = panic

  abbrev is_decode : NonceError → Bool
  is_decode (decode text) = true

  unfoldable parses_current_initialized_account_and_recovers_its_blockhash : Test
  parses_current_initialized_account_and_recovers_its_blockhash = do
    let authority = pk K 1
    let blockhash = pk H 2
    raw ← unwrap (encode_initialized_nonce_account N authority blockhash 5000)
    account ← unwrap (parse_nonce_account N raw)
    assert_authority account authority
    assert (not (is_none (usable_blockhash N account)))

  unfoldable legacy_version_is_never_usable_even_if_initialized : Test
  legacy_version_is_never_usable_even_if_initialized =
      let d = N.new_data (pk K 1) (N.from_blockhash (pk H 2)) 5000 in
      assert (is_none (usable_blockhash N (legacy (initialized d))))

  unfoldable uninitialized_account_has_no_usable_blockhash : Test
  uninitialized_account_has_no_usable_blockhash =
      assert (is_none (usable_blockhash N (N.new_account uninitialized)))

  unfoldable rejects_malformed_bytes_rather_than_panicking : Test
  rejects_malformed_bytes_rather_than_panicking = do
    error ← unwrap_err (parse_nonce_account N (replicate 3 0))
    assert (is_decode error)

  parses_current_initialized_account_and_recovers_its_blockhash_lem :
      Encodes N
      → MakesCurrent N
      → authority_of (N.new_data (pk K 1) (N.from_blockhash (pk H 2)) 5000) ≡ pk K 1
      → parses_current_initialized_account_and_recovers_its_blockhash ≡ ok tt
  unfolding parses_current_initialized_account_and_recovers_its_blockhash
      encode_initialized_nonce_account parse_nonce_account usable_blockhash
  parses_current_initialized_account_and_recovers_its_blockhash_lem e c a =
      let d = N.new_data (pk K 1) (N.from_blockhash (pk H 2)) 5000 in
      rw (
        c (initialized d),
        e.writes (current (initialized d)),
        e.reads (current (initialized d)),
        assert_eq_holds K.key_discrete (authority_of d) (pk K 1) a,
      )

  legacy_version_is_never_usable_even_if_initialized_lem :
      legacy_version_is_never_usable_even_if_initialized ≡ ok tt
  unfolding legacy_version_is_never_usable_even_if_initialized usable_blockhash
  legacy_version_is_never_usable_even_if_initialized_lem = refl

  uninitialized_account_has_no_usable_blockhash_lem :
      MakesCurrent N → uninitialized_account_has_no_usable_blockhash ≡ ok tt
  unfolding uninitialized_account_has_no_usable_blockhash usable_blockhash
  uninitialized_account_has_no_usable_blockhash_lem c = rw (c uninitialized)

  rejects_malformed_bytes_rather_than_panicking_lem :
      (text : String)
      → N.deserialize (replicate 3 0) ≡ err text
      → rejects_malformed_bytes_rather_than_panicking ≡ ok tt
  unfolding rejects_malformed_bytes_rather_than_panicking parse_nonce_account
  rejects_malformed_bytes_rather_than_panicking_lem text h = rw h
