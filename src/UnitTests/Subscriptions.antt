-- ===== src/UnitTests/Subscriptions.antt =====
-- The tests of src/subscription_state.rs on authorities.
use svm_wasi_core.Base.{
  set, length-concat, store_lem, ◌≡◌, ◌-◌, ◌&&◌, ◌==◌, ◌>>=◌, ◌>>◌, refl, Bool, false, length,
  replicate, ok, arith, store,
}
use svm_wasi_core.Base.Int.{length-i64_to_le_bytes, pos}
use svm_wasi_core.Keys.{Keys}
use svm_wasi_core.SubscriptionState.{
  SubscriptionStateError, SubscriptionAuthority, wrong_length, wrong_discriminator,
  unpack_authority, hand_assembled_subscription_authority, subscription_authority_len,
}
use svm_wasi_core.SubscriptionState.RoundTrip.{unpack_authority-hand_assembled}
use svm_wasi_core.SubscriptionState.{authority_fields}
use svm_wasi_core.SubscriptionState.Exact.{authority_bad_tag}
use svm_wasi_core.UnitTests.{
  Test, assert, assert_eq, assert_eq_holds, unwrap, unwrap_err, same_string, same_int, pk,
}

-- The derived `PartialEq` of the error.
abbrev pub same_error : SubscriptionStateError → SubscriptionStateError → Bool
same_error (wrong_length m n s) (wrong_length m' n' s') = (m == m') && (n == n') && same_string s s'
same_error (wrong_discriminator m n s) (wrong_discriminator m' n' s') =
    (m == m') && (n == n') && same_string s s'
same_error (wrong_length m n s) (wrong_discriminator m' n' s') = false
same_error (wrong_discriminator m n s) (wrong_length m' n' s') = false

module _ (K : Keys) where
  open K use {Key, key_discrete}

  -- The layout has the length that its builder asserts.
  length-hand_assembled_subscription_authority :
      (a : SubscriptionAuthority Key)
      → length (hand_assembled_subscription_authority K a) ≡ subscription_authority_len
  length-hand_assembled_subscription_authority a = omega (
    arith,
    length-concat (authority_fields K a),
    K.length-as_ref a.user,
    K.length-as_ref a.token_mint,
    K.length-as_ref a.payer,
    length-i64_to_le_bytes a.init_id,
  )

  unfoldable unpacks_subscription_authority : Test
  unpacks_subscription_authority = do
    let user = pk K 1
    let mint = pk K 2
    let payer = pk K 3
    authority ← unwrap (
        unpack_authority K (
          hand_assembled_subscription_authority K (record {
            user = user;
            token_mint = mint;
            payer = payer;
            bump = 254;
            init_id = pos 12345;
          })))
    assert_eq key_discrete authority.user user
    assert_eq key_discrete authority.token_mint mint
    assert_eq key_discrete authority.payer payer
    assert (authority.bump == 254)
    assert (same_int authority.init_id (pos 12345))

  unpacks_subscription_authority_lem : unpacks_subscription_authority ≡ ok tt
  unfolding unpacks_subscription_authority
  unpacks_subscription_authority_lem = rw (
    unpack_authority-hand_assembled K
        (record {
          user = pk K 1;
          token_mint = pk K 2;
          payer = pk K 3;
          bump = 254;
          init_id = pos 12345;
        })
        (omega arith),
    assert_eq_holds key_discrete (pk K 1) (pk K 1) refl,
    assert_eq_holds key_discrete (pk K 2) (pk K 2) refl,
    assert_eq_holds key_discrete (pk K 3) (pk K 3) refl,
  )

  unfoldable subscription_authority_rejects_wrong_length : Test
  subscription_authority_rejects_wrong_length = do
    error ← unwrap_err (unpack_authority K (replicate (subscription_authority_len - 1) 0))
    assert (
        same_error error (
          wrong_length (subscription_authority_len - 1) subscription_authority_len
            "SubscriptionAuthority"))

  subscription_authority_rejects_wrong_length_lem :
      subscription_authority_rejects_wrong_length ≡ ok tt
  unfolding subscription_authority_rejects_wrong_length unpack_authority
  subscription_authority_rejects_wrong_length_lem = refl

  unfoldable subscription_authority_rejects_wrong_discriminator : Test
  subscription_authority_rejects_wrong_discriminator = do
    bytes ←
        store
          (hand_assembled_subscription_authority K (record {
            user = pk K 1;
            token_mint = pk K 2;
            payer = pk K 3;
            bump = 254;
            init_id = pos 0;
          }))
          0 3
    error ← unwrap_err (unpack_authority K bytes)
    assert (same_error error (wrong_discriminator 3 0 "SubscriptionAuthority"))

  subscription_authority_rejects_wrong_discriminator_lem :
      subscription_authority_rejects_wrong_discriminator ≡ ok tt
  unfolding subscription_authority_rejects_wrong_discriminator
  subscription_authority_rejects_wrong_discriminator_lem =
      let a : SubscriptionAuthority Key = record {
        user = pk K 1;
        token_mint = pk K 2;
        payer = pk K 3;
        bump = 254;
        init_id = pos 0;
      } in
      let l = length-hand_assembled_subscription_authority a in
      rw (
        store_lem {E = Unit {0}} (hand_assembled_subscription_authority K a) 0 3 (omega arith),
        authority_bad_tag K (set (hand_assembled_subscription_authority K a) 0 3) 3 l refl
            (omega arith),
      )
