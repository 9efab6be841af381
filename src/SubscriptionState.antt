-- ===== src/SubscriptionState.antt =====
-- src/subscription_state.rs: reading the account state of the Subscriptions & Allowances program.
pub mod RoundTrip
pub mod Available
pub mod Exact
pub mod Pullable
use svm_wasi_core.Base.{
  ℕ, ◌-◌, Bool, not, ◌&&◌, List, [], ◌∷◌, length, String, ◌==◌, if◌then◌else◌, Outcome, ok, ◌>>=◌,
  ◌>>◌, fail_if, index, slice, to_le_bytes, from_le_bytes, concat,
}
use svm_wasi_core.Base.Int.{
  ℤ, is_zero, leb_ℤ, as_i64, saturating_add, i64_to_le_bytes, i64_from_le_bytes,
}
use svm_wasi_core.Keys.{Keys}

abbrev pub discriminator_subscription_authority : ℕ
discriminator_subscription_authority = 0

abbrev pub discriminator_recurring_delegation : ℕ
discriminator_recurring_delegation = 3

abbrev pub subscription_authority_len : ℕ
subscription_authority_len = 106

abbrev pub recurring_delegation_len : ℕ
recurring_delegation_len = 211

pub data SubscriptionStateError : Type 0 where
  wrong_length : (actual expected : ℕ) (kind : String) → SubscriptionStateError
  wrong_discriminator : (actual expected : ℕ) (kind : String) → SubscriptionStateError

pub record SubscriptionAuthority (Key : Type 0) : Type 0 where
  pub user : Key
  pub token_mint : Key
  pub payer : Key
  pub bump : ℕ
  pub init_id : ℤ

pub record RecurringDelegation (Key : Type 0) : Type 0 where
  pub delegator : Key
  pub delegatee : Key
  pub payer : Key
  pub init_id : ℤ
  pub subscription_authority : Key
  pub mint : Key
  pub current_period_start_ts : ℤ
  pub period_length_s : ℕ
  pub expiry_ts : ℤ
  pub amount_per_period : ℕ
  pub amount_pulled_in_period : ℕ

module _ (K : Keys) where
  open K use {Key, new_from_array, as_ref}

  -- `SubscriptionAuthority::unpack`
  unfoldable pub unpack_authority :
      List ℕ → Outcome SubscriptionStateError (SubscriptionAuthority Key)
  unpack_authority bytes = do
    fail_if (not (length bytes == subscription_authority_len))
        (wrong_length (length bytes) subscription_authority_len "SubscriptionAuthority")
    tag ← index bytes 0
    fail_if (not (tag == discriminator_subscription_authority))
        (wrong_discriminator tag discriminator_subscription_authority "SubscriptionAuthority")
    user ← slice bytes 1 33
    token_mint ← slice bytes 33 65
    payer ← slice bytes 65 97
    bump ← index bytes 97
    init_id ← slice bytes 98 106
    ok (record {
      user = new_from_array user;
      token_mint = new_from_array token_mint;
      payer = new_from_array payer;
      bump = bump;
      init_id = i64_from_le_bytes init_id;
    })

  -- `RecurringDelegation::unpack`
  unfoldable pub unpack_delegation :
      List ℕ → Outcome SubscriptionStateError (RecurringDelegation Key)
  unpack_delegation bytes = do
    fail_if (not (length bytes == recurring_delegation_len))
        (wrong_length (length bytes) recurring_delegation_len "RecurringDelegation")
    tag ← index bytes 0
    fail_if (not (tag == discriminator_recurring_delegation))
        (wrong_discriminator tag discriminator_recurring_delegation "RecurringDelegation")
    delegator ← slice bytes 3 35
    delegatee ← slice bytes 35 67
    payer ← slice bytes 67 99
    init_id ← slice bytes 99 107
    subscription_authority ← slice bytes 107 139
    mint ← slice bytes 139 171
    current_period_start_ts ← slice bytes 171 179
    period_length_s ← slice bytes 179 187
    expiry_ts ← slice bytes 187 195
    amount_per_period ← slice bytes 195 203
    amount_pulled_in_period ← slice bytes 203 211
    ok (record {
      delegator = new_from_array delegator;
      delegatee = new_from_array delegatee;
      payer = new_from_array payer;
      init_id = i64_from_le_bytes init_id;
      subscription_authority = new_from_array subscription_authority;
      mint = new_from_array mint;
      current_period_start_ts = i64_from_le_bytes current_period_start_ts;
      period_length_s = from_le_bytes period_length_s;
      expiry_ts = i64_from_le_bytes expiry_ts;
      amount_per_period = from_le_bytes amount_per_period;
      amount_pulled_in_period = from_le_bytes amount_pulled_in_period;
    })

  -- The fields that `hand_assembled_subscription_authority` of the tests lays out, in order.
  abbrev pub authority_fields : SubscriptionAuthority Key → List (List ℕ)
  authority_fields a =
      (discriminator_subscription_authority ∷ [])
      ∷ as_ref a.user
      ∷ as_ref a.token_mint
      ∷ as_ref a.payer
      ∷ (a.bump ∷ [])
      ∷ i64_to_le_bytes a.init_id
      ∷ []

  abbrev pub hand_assembled_subscription_authority : SubscriptionAuthority Key → List ℕ
  hand_assembled_subscription_authority a = concat (authority_fields a)

  -- The fields that `hand_assembled_recurring_delegation` of the tests lays out; that function
  -- fixes the version to 1 and the bump to 7.
  abbrev pub delegation_fields : ℕ → ℕ → RecurringDelegation Key → List (List ℕ)
  delegation_fields version bump d =
      (discriminator_recurring_delegation ∷ version ∷ bump ∷ [])
      ∷ as_ref d.delegator
      ∷ as_ref d.delegatee
      ∷ as_ref d.payer
      ∷ i64_to_le_bytes d.init_id
      ∷ as_ref d.subscription_authority
      ∷ as_ref d.mint
      ∷ i64_to_le_bytes d.current_period_start_ts
      ∷ to_le_bytes 8 d.period_length_s
      ∷ i64_to_le_bytes d.expiry_ts
      ∷ to_le_bytes 8 d.amount_per_period
      ∷ to_le_bytes 8 d.amount_pulled_in_period
      ∷ []

  abbrev pub hand_assembled_recurring_delegation : ℕ → ℕ → RecurringDelegation Key → List ℕ
  hand_assembled_recurring_delegation version bump d = concat (delegation_fields version bump d)

module _ {Key : Type 0} where
  -- `RecurringDelegation::is_expired`
  unfoldable pub is_expired : RecurringDelegation Key → ℤ → Bool
  is_expired d current_unix_time = not (is_zero d.expiry_ts) && leb_ℤ d.expiry_ts current_unix_time

  -- `RecurringDelegation::amount_available`. `saturating_sub` on `u64` is `-` on ℕ.
  unfoldable pub amount_available : RecurringDelegation Key → ℤ → ℕ
  unfolding is_expired
  amount_available d current_unix_time =
      if is_expired d current_unix_time
      then 0
      else (let period_elapsed =
            leb_ℤ (saturating_add d.current_period_start_ts (as_i64 d.period_length_s))
              current_unix_time in
          if period_elapsed
          then d.amount_per_period
          else d.amount_per_period - d.amount_pulled_in_period)
