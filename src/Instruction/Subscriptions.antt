-- ===== src/Instruction/Subscriptions.antt =====
-- src/instruction/subscriptions.rs: the builders for the Subscriptions & Allowances program.
use svm_wasi_core.Base.{ℕ, true, false, List, [], ◌∷◌, Outcome, ok, ◌>>=◌, to_le_bytes, concat}
use svm_wasi_core.Base.Int.{ℤ, i64_min, i64_to_le_bytes}
use svm_wasi_core.Keys.{Keys}
use svm_wasi_core.Shaping.Strings.{codes}
use svm_wasi_core.Instruction.{Programs, Instruction, known_id, system_id, find_address}

abbrev pub init_subscription_authority_discriminator : ℕ
init_subscription_authority_discriminator = 0

abbrev pub create_recurring_delegation_discriminator : ℕ
create_recurring_delegation_discriminator = 2

abbrev pub transfer_recurring_discriminator : ℕ
transfer_recurring_discriminator = 5

-- `UNKNOWN_INIT_ID`
abbrev pub unknown_init_id : ℤ
unknown_init_id = i64_min

module _ (K : Keys) (P : Programs K.Key) where
  open K use {Key, as_ref}
  open P use {AccountMeta, new, new_readonly}

  unfoldable pub id : Outcome (Unit {0}) Key
  id = known_id P "De1egAFMkMWZSN5rYXRj9CAdheBamobVNubTsi9avR44"

  unfoldable pub subscription_authority_pda : Key → Key → Outcome (Unit {0}) (Key × ℕ)
  subscription_authority_pda user token_mint =
      find_address P (codes "SubscriptionAuthority" ∷ as_ref user ∷ as_ref token_mint ∷ []) id

  unfoldable pub recurring_delegation_pda : Key → Key → Key → ℕ → Outcome (Unit {0}) (Key × ℕ)
  recurring_delegation_pda subscription_authority delegator delegatee nonce =
      find_address P
        (codes "delegation"
          ∷ as_ref subscription_authority
          ∷ as_ref delegator
          ∷ as_ref delegatee
          ∷ to_le_bytes 8 nonce
          ∷ [])
        id

  unfoldable pub event_authority_pda : Outcome (Unit {0}) (Key × ℕ)
  event_authority_pda = find_address P (codes "event_authority" ∷ []) id

  unfoldable pub initialize_subscription_authority :
      Key → Key → Key → Key → Outcome (Unit {0}) (Instruction Key AccountMeta)
  initialize_subscription_authority user token_mint user_ata token_program = do
    (subscription_authority, bump) ← subscription_authority_pda user token_mint
    program_id ← id
    system ← system_id P
    ok (record {
      program_id = program_id;
      accounts =
          new user true
          ∷ new subscription_authority false
          ∷ new_readonly token_mint false
          ∷ new user_ata false
          ∷ new_readonly system false
          ∷ new_readonly token_program false
          ∷ [];
      ix_data = init_subscription_authority_discriminator ∷ [];
    })

  -- The pushes to `data` of `create_recurring_delegation`, one after another.
  abbrev pub create_fields : ℕ → ℕ → ℕ → ℤ → ℤ → ℤ → List (List ℕ)
  create_fields nonce amount_per_period period_length_s start_ts expiry_ts init_id =
      (create_recurring_delegation_discriminator ∷ [])
      ∷ to_le_bytes 8 nonce
      ∷ to_le_bytes 8 amount_per_period
      ∷ to_le_bytes 8 period_length_s
      ∷ i64_to_le_bytes start_ts
      ∷ i64_to_le_bytes expiry_ts
      ∷ i64_to_le_bytes init_id
      ∷ []

  unfoldable pub create_recurring_delegation :
      Key → Key → Key → ℕ → ℕ → ℕ → ℤ → ℤ → ℤ → Outcome (Unit {0}) (Instruction Key AccountMeta)
  create_recurring_delegation delegator delegatee token_mint nonce amount_per_period period_length_s
        start_ts expiry_ts expected_subscription_authority_init_id =
      do
        (subscription_authority, bump) ← subscription_authority_pda delegator token_mint
        (delegation_account, bump') ←
            recurring_delegation_pda subscription_authority delegator delegatee nonce
        let ix_data = concat (
            create_fields nonce amount_per_period period_length_s start_ts expiry_ts
              expected_subscription_authority_init_id)
        program_id ← id
        system ← system_id P
        ok (record {
          program_id = program_id;
          accounts =
              new delegator true
              ∷ new_readonly subscription_authority false
              ∷ new delegation_account false
              ∷ new_readonly delegatee false
              ∷ new_readonly system false
              ∷ [];
          ix_data = ix_data;
        })

  -- The pushes to `data` of `transfer_recurring`, one after another.
  abbrev pub transfer_fields : ℕ → Key → Key → List (List ℕ)
  transfer_fields amount delegator token_mint =
      (transfer_recurring_discriminator ∷ [])
      ∷ to_le_bytes 8 amount
      ∷ as_ref delegator
      ∷ as_ref token_mint
      ∷ []

  unfoldable pub transfer_recurring :
      Key → Key → Key → Key → Key → Key → Key → ℕ → Outcome (Unit {0}) (Instruction Key AccountMeta)
  transfer_recurring delegation_account delegator delegatee token_mint delegator_ata receiver_ata
        token_program amount =
      do
        (subscription_authority, bump) ← subscription_authority_pda delegator token_mint
        (event_authority, bump') ← event_authority_pda
        let ix_data = concat (transfer_fields amount delegator token_mint)
        program_id ← id
        self ← id
        ok (record {
          program_id = program_id;
          accounts =
              new delegation_account false
              ∷ new_readonly subscription_authority false
              ∷ new delegator_ata false
              ∷ new receiver_ata false
              ∷ new_readonly token_mint false
              ∷ new_readonly token_program false
              ∷ new_readonly delegatee true
              ∷ new_readonly event_authority false
              ∷ new_readonly self false
              ∷ [];
          ix_data = ix_data;
        })
