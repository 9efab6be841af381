-- ===== src/SubscriptionState/RoundTrip.antt =====
-- What `unpack` reads from the layout that the tests assemble by hand.
use svm_wasi_core.Base.{
  from-to_le_bytes, from_le_bytes, length-to_le_bytes, ℕ, ◌^◌, ◌<◌, ◌≡◌, refl, List, length, arith,
  eq→==, ok, index, slice, concat, length-concat, slice-concat, index-concat,
}
use svm_wasi_core.Base.Int.{IsI64, i64_from_le_bytes, i64_from-to_le_bytes, length-i64_to_le_bytes}
use svm_wasi_core.Keys.{Keys}
use svm_wasi_core.SubscriptionState.{
  SubscriptionStateError, SubscriptionAuthority, RecurringDelegation, unpack_authority,
  unpack_delegation, delegation_fields, hand_assembled_recurring_delegation, authority_fields,
  hand_assembled_subscription_authority,
}

-- Every number of a delegation fits its machine type.
pub record FitsWords {Key : Type 0} (d : RecurringDelegation Key) : Type 0 where
  pub init_id : IsI64 d.init_id
  pub start : IsI64 d.current_period_start_ts
  pub period : d.period_length_s < 2 ^ 64
  pub expiry : IsI64 d.expiry_ts
  pub amount : d.amount_per_period < 2 ^ 64
  pub pulled : d.amount_pulled_in_period < 2 ^ 64

module _ (K : Keys) where
  open K use {Key, new_from_array, as_ref, length-as_ref, new_from_array-as_ref}

  abbrev pub Read : List ℕ → ℕ → ℕ → List ℕ → Type 0
  Read bytes a b field = slice {E = SubscriptionStateError} bytes a b ≡ ok field

  pub unpack_authority_reads :
      (bytes user mint payer init : List ℕ) (bump : ℕ)
      → length bytes ≡ 106
      → index {E = SubscriptionStateError} bytes 0 ≡ ok 0
      → Read bytes 1 33 user
      → Read bytes 33 65 mint
      → Read bytes 65 97 payer
      → index {E = SubscriptionStateError} bytes 97 ≡ ok bump
      → Read bytes 98 106 init
      → unpack_authority K bytes
        ≡ ok (record {
          user = new_from_array user;
          token_mint = new_from_array mint;
          payer = new_from_array payer;
          bump = bump;
          init_id = i64_from_le_bytes init;
        })
  unfolding unpack_authority
  unpack_authority_reads bytes user mint payer init bump hl h0 h1 h2 h3 h4 h5 =
      rw (eq→== (length bytes) 106 hl, h0, h1, h2, h3, h4, h5)

  -- `SubscriptionAuthority::unpack` reads back every authority whose `init_id` is an `i64` from the
  -- layout of the account.
  pub unpack_authority-hand_assembled :
      (a : SubscriptionAuthority Key)
      → IsI64 a.init_id
      → unpack_authority K (hand_assembled_subscription_authority K a) ≡ ok a
  unpack_authority-hand_assembled a h =
      let ps = authority_fields K a in
      let lu = length-as_ref a.user in
      let lm = length-as_ref a.token_mint in
      let lp = length-as_ref a.payer in
      let li = length-i64_to_le_bytes a.init_id in
      rw
        (unpack_authority_reads (concat ps) _ _ _ _ _ (omega (arith, length-concat ps)) refl
          (slice-concat ps 1 _ 1 33 refl refl (omega arith))
          (slice-concat ps 2 _ 33 65 refl (omega arith) (omega arith))
          (slice-concat ps 3 _ 65 97 refl (omega arith) (omega arith))
          (index-concat ps 4 a.bump 97 refl (omega arith))
          (slice-concat ps 5 _ 98 106 refl (omega arith) (omega arith)))
        (cc (
          new_from_array-as_ref a.user,
          new_from_array-as_ref a.token_mint,
          new_from_array-as_ref a.payer,
          i64_from-to_le_bytes a.init_id h,
        ))

  pub unpack_delegation_reads :
      (bytes dor dee payer init auth mint start period expiry amount pulled : List ℕ)
      → length bytes ≡ 211
      → index {E = SubscriptionStateError} bytes 0 ≡ ok 3
      → Read bytes 3 35 dor
      → Read bytes 35 67 dee
      → Read bytes 67 99 payer
      → Read bytes 99 107 init
      → Read bytes 107 139 auth
      → Read bytes 139 171 mint
      → Read bytes 171 179 start
      → Read bytes 179 187 period
      → Read bytes 187 195 expiry
      → Read bytes 195 203 amount
      → Read bytes 203 211 pulled
      → unpack_delegation K bytes
        ≡ ok (record {
          delegator = new_from_array dor;
          delegatee = new_from_array dee;
          payer = new_from_array payer;
          init_id = i64_from_le_bytes init;
          subscription_authority = new_from_array auth;
          mint = new_from_array mint;
          current_period_start_ts = i64_from_le_bytes start;
          period_length_s = from_le_bytes period;
          expiry_ts = i64_from_le_bytes expiry;
          amount_per_period = from_le_bytes amount;
          amount_pulled_in_period = from_le_bytes pulled;
        })
  unfolding unpack_delegation
  unpack_delegation_reads bytes a b c d e f g h i j k hl h0 h1 h2 h3 h4 h5 h6 h7 h8 h9 h10 h11 =
      rw (eq→== (length bytes) 211 hl, h0, h1, h2, h3, h4, h5, h6, h7, h8, h9, h10, h11)

  -- `RecurringDelegation::unpack` reads back every delegation whose numbers fit their types from
  -- the layout of the account, whatever the version and bump bytes.
  pub unpack_delegation-hand_assembled :
      (version bump : ℕ) (d : RecurringDelegation Key)
      → FitsWords d
      → unpack_delegation K (hand_assembled_recurring_delegation K version bump d) ≡ ok d
  unpack_delegation-hand_assembled version bump d fits =
      let ps = delegation_fields K version bump d in
      let l1 = length-as_ref d.delegator in
      let l2 = length-as_ref d.delegatee in
      let l3 = length-as_ref d.payer in
      let l4 = length-i64_to_le_bytes d.init_id in
      let l5 = length-as_ref d.subscription_authority in
      let l6 = length-as_ref d.mint in
      let l7 = length-i64_to_le_bytes d.current_period_start_ts in
      let l8 = length-to_le_bytes 8 d.period_length_s in
      let l9 = length-i64_to_le_bytes d.expiry_ts in
      let l10 = length-to_le_bytes 8 d.amount_per_period in
      let l11 = length-to_le_bytes 8 d.amount_pulled_in_period in
      rw
        (unpack_delegation_reads (concat ps) _ _ _ _ _ _ _ _ _ _ _ (omega (arith, length-concat ps))
          refl (slice-concat ps 1 _ 3 35 refl refl (omega arith))
          (slice-concat ps 2 _ 35 67 refl (omega arith) (omega arith))
          (slice-concat ps 3 _ 67 99 refl (omega arith) (omega arith))
          (slice-concat ps 4 _ 99 107 refl (omega arith) (omega arith))
          (slice-concat ps 5 _ 107 139 refl (omega arith) (omega arith))
          (slice-concat ps 6 _ 139 171 refl (omega arith) (omega arith))
          (slice-concat ps 7 _ 171 179 refl (omega arith) (omega arith))
          (slice-concat ps 8 _ 179 187 refl (omega arith) (omega arith))
          (slice-concat ps 9 _ 187 195 refl (omega arith) (omega arith))
          (slice-concat ps 10 _ 195 203 refl (omega arith) (omega arith))
          (slice-concat ps 11 _ 203 211 refl (omega arith) (omega arith)))
        (cc (
          new_from_array-as_ref d.delegator,
          new_from_array-as_ref d.delegatee,
          new_from_array-as_ref d.payer,
          i64_from-to_le_bytes d.init_id fits.init_id,
          new_from_array-as_ref d.subscription_authority,
          new_from_array-as_ref d.mint,
          i64_from-to_le_bytes d.current_period_start_ts fits.start,
          from-to_le_bytes 8 d.period_length_s fits.period,
          i64_from-to_le_bytes d.expiry_ts fits.expiry,
          from-to_le_bytes 8 d.amount_per_period fits.amount,
          from-to_le_bytes 8 d.amount_pulled_in_period fits.pulled,
        ))
