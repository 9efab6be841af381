-- ===== src/UnitTests/Delegations.antt =====
-- The tests of src/subscription_state.rs on delegations.
use svm_wasi_core.Base.{
  ◌<◌, length-to_le_bytes, set, length-concat, store_lem, ◌^◌, ℕ, ◌≡◌, ◌-◌, ◌+◌, ◌==◌, ◌>>=◌, ◌>>◌,
  refl, not, length, replicate, ok, arith, store,
}
use svm_wasi_core.Base.Int.{length-i64_to_le_bytes, pos}
use svm_wasi_core.Keys.{Keys}
use svm_wasi_core.SubscriptionState.{
  RecurringDelegation, wrong_length, wrong_discriminator, unpack_delegation, amount_available,
  is_expired, hand_assembled_recurring_delegation, recurring_delegation_len,
}
use svm_wasi_core.SubscriptionState.RoundTrip.{unpack_delegation-hand_assembled}
use svm_wasi_core.SubscriptionState.{delegation_fields}
use svm_wasi_core.SubscriptionState.Exact.{delegation_bad_tag}
use svm_wasi_core.UnitTests.{
  Test, assert, assert_eq, assert_eq_holds, unwrap, unwrap_err, same_int, pk,
}
use svm_wasi_core.UnitTests.Subscriptions.{same_error}

module _ (K : Keys) where
  open K use {Key, key_discrete}

  -- The layout has the length that its builder asserts.
  length-hand_assembled_recurring_delegation :
      (d : RecurringDelegation Key)
      → length (hand_assembled_recurring_delegation K 1 7 d) ≡ recurring_delegation_len
  length-hand_assembled_recurring_delegation d = omega (
    arith,
    length-concat (delegation_fields K 1 7 d),
    K.length-as_ref d.delegator,
    K.length-as_ref d.delegatee,
    K.length-as_ref d.payer,
    length-i64_to_le_bytes d.init_id,
    K.length-as_ref d.subscription_authority,
    K.length-as_ref d.mint,
    length-i64_to_le_bytes d.current_period_start_ts,
    length-to_le_bytes 8 d.period_length_s,
    length-i64_to_le_bytes d.expiry_ts,
    length-to_le_bytes 8 d.amount_per_period,
    length-to_le_bytes 8 d.amount_pulled_in_period,
  )

  -- The delegation of the tests, of which only these vary.
  abbrev laid_out : (start period expiry amount pulled : ℕ) → RecurringDelegation Key
  laid_out start period expiry amount pulled = record {
    delegator = pk K 1;
    delegatee = pk K 2;
    payer = pk K 3;
    init_id = pos 0;
    subscription_authority = pk K 4;
    mint = pk K 5;
    current_period_start_ts = pos start;
    period_length_s = period;
    expiry_ts = pos expiry;
    amount_per_period = amount;
    amount_pulled_in_period = pulled;
  }

  unfoldable unpacks_recurring_delegation : Test
  unpacks_recurring_delegation = do
    let delegator = pk K 1
    let delegatee = pk K 2
    let payer = pk K 3
    let subscription_authority = pk K 4
    let mint = pk K 5
    delegation ← unwrap (
        unpack_delegation K (
          hand_assembled_recurring_delegation K 1 7 (record {
            delegator = delegator;
            delegatee = delegatee;
            payer = payer;
            init_id = pos 99;
            subscription_authority = subscription_authority;
            mint = mint;
            current_period_start_ts = pos 1000000;
            period_length_s = 2592000;
            expiry_ts = pos 0;
            amount_per_period = 15000000;
            amount_pulled_in_period = 5000000;
          })))
    assert_eq key_discrete delegation.delegator delegator
    assert_eq key_discrete delegation.delegatee delegatee
    assert_eq key_discrete delegation.payer payer
    assert (same_int delegation.init_id (pos 99))
    assert_eq key_discrete delegation.subscription_authority subscription_authority
    assert_eq key_discrete delegation.mint mint
    assert (same_int delegation.current_period_start_ts (pos 1000000))
    assert (delegation.period_length_s == 2592000)
    assert (same_int delegation.expiry_ts (pos 0))
    assert (delegation.amount_per_period == 15000000)
    assert (delegation.amount_pulled_in_period == 5000000)

  -- A delegation of small numbers parses.
  parses :
      (start period expiry amount pulled : ℕ)
      → start + period + expiry + amount + pulled < 2 ^ 63
      → unpack_delegation K
          (hand_assembled_recurring_delegation K 1 7 (laid_out start period expiry amount pulled))
        ≡ ok (laid_out start period expiry amount pulled)
  parses start period expiry amount pulled small =
      unpack_delegation-hand_assembled K 1 7 (laid_out start period expiry amount pulled) (record {
        init_id = omega arith;
        start = omega arith;
        period = omega arith;
        expiry = omega arith;
        amount = omega arith;
        pulled = omega arith;
      })

  unpacks_recurring_delegation_lem : unpacks_recurring_delegation ≡ ok tt
  unfolding unpacks_recurring_delegation
  unpacks_recurring_delegation_lem = rw (
    unpack_delegation-hand_assembled K 1 7
        (record (laid_out 1000000 2592000 0 15000000 5000000) { init_id = pos 99 })
        (record {
          init_id = omega arith;
          start = omega arith;
          period = omega arith;
          expiry = omega arith;
          amount = omega arith;
          pulled = omega arith;
        }),
    assert_eq_holds key_discrete (pk K 1) (pk K 1) refl,
    assert_eq_holds key_discrete (pk K 2) (pk K 2) refl,
    assert_eq_holds key_discrete (pk K 3) (pk K 3) refl,
    assert_eq_holds key_discrete (pk K 4) (pk K 4) refl,
    assert_eq_holds key_discrete (pk K 5) (pk K 5) refl,
  )

  unfoldable recurring_delegation_rejects_wrong_length : Test
  recurring_delegation_rejects_wrong_length = do
    error ← unwrap_err (unpack_delegation K (replicate (recurring_delegation_len - 1) 0))
    assert (
        same_error error (
          wrong_length (recurring_delegation_len - 1) recurring_delegation_len
            "RecurringDelegation"))

  recurring_delegation_rejects_wrong_length_lem : recurring_delegation_rejects_wrong_length ≡ ok tt
  unfolding recurring_delegation_rejects_wrong_length unpack_delegation
  recurring_delegation_rejects_wrong_length_lem = refl

  unfoldable recurring_delegation_rejects_wrong_discriminator : Test
  recurring_delegation_rejects_wrong_discriminator = do
    bytes ← store (hand_assembled_recurring_delegation K 1 7 (laid_out 0 2592000 0 1 0)) 0 0
    error ← unwrap_err (unpack_delegation K bytes)
    assert (same_error error (wrong_discriminator 0 3 "RecurringDelegation"))

  recurring_delegation_rejects_wrong_discriminator_lem :
      recurring_delegation_rejects_wrong_discriminator ≡ ok tt
  unfolding recurring_delegation_rejects_wrong_discriminator
  recurring_delegation_rejects_wrong_discriminator_lem =
      let d = laid_out 0 2592000 0 1 0 in
      let l = length-hand_assembled_recurring_delegation d in
      rw (
        store_lem {E = Unit {0}} (hand_assembled_recurring_delegation K 1 7 d) 0 0 (omega arith),
        delegation_bad_tag K (set (hand_assembled_recurring_delegation K 1 7 d) 0 0) 0 l refl
            (omega arith),
      )

  unfoldable full_amount_available_when_period_not_yet_pulled : Test
  full_amount_available_when_period_not_yet_pulled = do
    delegation ← unwrap (
        unpack_delegation K
          (hand_assembled_recurring_delegation K 1 7 (laid_out 1000000 2592000 0 15000000 0)))
    assert (amount_available delegation (pos 1500000) == 15000000)

  full_amount_available_when_period_not_yet_pulled_lem :
      full_amount_available_when_period_not_yet_pulled ≡ ok tt
  unfolding full_amount_available_when_period_not_yet_pulled amount_available is_expired
  full_amount_available_when_period_not_yet_pulled_lem =
      rw (parses 1000000 2592000 0 15000000 0 (omega arith))

  unfoldable partial_amount_available_after_a_partial_pull : Test
  partial_amount_available_after_a_partial_pull = do
    delegation ← unwrap (
        unpack_delegation K
          (hand_assembled_recurring_delegation K 1 7 (laid_out 1000000 2592000 0 15000000 9000000)))
    assert (amount_available delegation (pos 1500000) == 6000000)

  partial_amount_available_after_a_partial_pull_lem :
      partial_amount_available_after_a_partial_pull ≡ ok tt
  unfolding partial_amount_available_after_a_partial_pull amount_available is_expired
  partial_amount_available_after_a_partial_pull_lem =
      rw (parses 1000000 2592000 0 15000000 9000000 (omega arith))

  unfoldable full_amount_available_again_once_period_rolls_over : Test
  full_amount_available_again_once_period_rolls_over = do
    delegation ← unwrap (
        unpack_delegation K (
          hand_assembled_recurring_delegation K 1 7 (laid_out 1000000 2592000 0 15000000 15000000)))
    let next_period_time = pos (1000000 + 2592000 + 1)
    assert (amount_available delegation next_period_time == 15000000)

  full_amount_available_again_once_period_rolls_over_lem :
      full_amount_available_again_once_period_rolls_over ≡ ok tt
  unfolding full_amount_available_again_once_period_rolls_over amount_available is_expired
  full_amount_available_again_once_period_rolls_over_lem =
      rw (parses 1000000 2592000 0 15000000 15000000 (omega arith))

  unfoldable zero_available_once_expired : Test
  zero_available_once_expired = do
    delegation ← unwrap (
        unpack_delegation K
          (hand_assembled_recurring_delegation K 1 7 (laid_out 1000000 2592000 5000000 15000000 0)))
    assert (is_expired delegation (pos 5000000))
    assert (amount_available delegation (pos 5000000) == 0)
    assert (amount_available delegation (pos 6000000) == 0)

  zero_available_once_expired_lem : zero_available_once_expired ≡ ok tt
  unfolding zero_available_once_expired amount_available is_expired
  zero_available_once_expired_lem = rw (parses 1000000 2592000 5000000 15000000 0 (omega arith))

  unfoldable never_expires_when_expiry_ts_is_zero : Test
  never_expires_when_expiry_ts_is_zero = do
    delegation ← unwrap (
        unpack_delegation K
          (hand_assembled_recurring_delegation K 1 7 (laid_out 1000000 2592000 0 15000000 0)))
    assert (not (is_expired delegation (pos (2 ^ 63 - 2))))

  never_expires_when_expiry_ts_is_zero_lem : never_expires_when_expiry_ts_is_zero ≡ ok tt
  unfolding never_expires_when_expiry_ts_is_zero amount_available is_expired
  never_expires_when_expiry_ts_is_zero_lem = rw (parses 1000000 2592000 0 15000000 0 (omega arith))
