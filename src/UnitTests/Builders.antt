-- ===== src/UnitTests/Builders.antt =====
-- The tests of src/instruction/subscriptions.rs. They pass whenever the ids parse and the derived
-- addresses exist, which the tests unwrap.
use mathlib.Core.List.{append-nil}
use svm_wasi_core.Base.{
  length-to_le_bytes, length-concat, arith, eq→==, ℕ, ◌≡◌, refl, ◌>>=◌, ◌>>◌, ◌==◌, ◌+◌, true,
  false, ok, List, [], ◌∷◌, ◌++◌, length, to_le_bytes, concat,
}
use svm_wasi_core.Base.Int.{pos, i64_to_le_bytes}
use svm_wasi_core.Base.Search.{bytes_eq, bytes_eq_refl}
use svm_wasi_core.Keys.{Keys}
use svm_wasi_core.Instruction.{Programs, system_id}
use svm_wasi_core.Instruction.Subscriptions.{
  transfer_fields, id, subscription_authority_pda, recurring_delegation_pda, event_authority_pda,
  initialize_subscription_authority, create_recurring_delegation, transfer_recurring,
}
use svm_wasi_core.UnitTests.{Test, assert, assert_eq, assert_eq_holds, unwrap, pk}

module _ (K : Keys) (P : Programs K.Key) (same_meta : Discrete P.AccountMeta)
    (token_program : K.Key) where
  open K use {Key, key_discrete, as_ref}
  open P use {AccountMeta, new, new_readonly}

  -- `==` on lists of accounts
  same_accounts : Discrete (List AccountMeta)
  same_accounts = hlevel (same_meta)

  unfoldable initialize_subscription_authority_encodes_bare_discriminator : Test
  unfolding same_accounts
  initialize_subscription_authority_encodes_bare_discriminator = do
    let user = pk K 1
    let mint = pk K 2
    let ata = pk K 3
    ix ← unwrap (initialize_subscription_authority K P user mint ata token_program)
    program ← id K P
    assert_eq key_discrete ix.program_id program
    assert (bytes_eq ix.ix_data (0 ∷ []))
    (expected_authority, bump) ← unwrap (subscription_authority_pda K P user mint)
    system ← system_id P
    assert_eq same_accounts ix.accounts (
        new user true
        ∷ new expected_authority false
        ∷ new_readonly mint false
        ∷ new ata false
        ∷ new_readonly system false
        ∷ new_readonly token_program false
        ∷ [])

  initialize_subscription_authority_encodes_bare_discriminator_lem :
      (program system authority : Key) (bump : ℕ)
      → id K P ≡ ok program
      → system_id P ≡ ok system
      → subscription_authority_pda K P (pk K 1) (pk K 2) ≡ ok (authority, bump)
      → initialize_subscription_authority_encodes_bare_discriminator ≡ ok tt
  unfolding initialize_subscription_authority_encodes_bare_discriminator
      initialize_subscription_authority same_accounts
  initialize_subscription_authority_encodes_bare_discriminator_lem program system authority bump hp
        hs ha =
      rw (ha, hp, hs, assert_eq_holds key_discrete program program refl)
        (assert_eq_holds same_accounts _ _ refl)

  unfoldable create_recurring_delegation_encodes_fields_in_order : Test
  unfolding same_accounts
  create_recurring_delegation_encodes_fields_in_order = do
    let delegator = pk K 1
    let delegatee = pk K 4
    let mint = pk K 2
    ix ← unwrap (
        create_recurring_delegation K P delegator delegatee mint 7 15000000 2592000 (pos 0)
          (pos 5000000000) (pos 42))
    program ← id K P
    assert_eq key_discrete ix.program_id program
    let expected =
        (2 ∷ [])
        ++ (to_le_bytes 8 7
            ++ (to_le_bytes 8 15000000
                ++ (to_le_bytes 8 2592000
                    ++ (i64_to_le_bytes (pos 0)
                        ++ (i64_to_le_bytes (pos 5000000000) ++ i64_to_le_bytes (pos 42))))))
    assert (bytes_eq ix.ix_data expected)
    assert (length ix.ix_data == 1 + 48)
    (subscription_authority, bump) ← unwrap (subscription_authority_pda K P delegator mint)
    (delegation_account, bump') ←
        unwrap (recurring_delegation_pda K P subscription_authority delegator delegatee 7)
    system ← system_id P
    assert_eq same_accounts ix.accounts (
        new delegator true
        ∷ new_readonly subscription_authority false
        ∷ new delegation_account false
        ∷ new_readonly delegatee false
        ∷ new_readonly system false
        ∷ [])

  create_recurring_delegation_encodes_fields_in_order_lem :
      (program system authority delegation : Key) (bump bump' : ℕ)
      → id K P ≡ ok program
      → system_id P ≡ ok system
      → subscription_authority_pda K P (pk K 1) (pk K 2) ≡ ok (authority, bump)
      → recurring_delegation_pda K P authority (pk K 1) (pk K 4) 7 ≡ ok (delegation, bump')
      → create_recurring_delegation_encodes_fields_in_order ≡ ok tt
  unfolding create_recurring_delegation_encodes_fields_in_order create_recurring_delegation
      same_accounts to_le_bytes i64_to_le_bytes
  create_recurring_delegation_encodes_fields_in_order_lem program system authority delegation bump
        bump' hp hs ha hd =
      rw (ha, hd, hp, hs, assert_eq_holds key_discrete program program refl)
        (assert_eq_holds same_accounts _ _ refl)

  unfoldable transfer_recurring_encodes_amount_delegator_mint_in_order : Test
  unfolding same_accounts
  transfer_recurring_encodes_amount_delegator_mint_in_order = do
    let delegation_account = pk K 9
    let delegator = pk K 1
    let delegatee = pk K 4
    let mint = pk K 2
    let delegator_ata = pk K 5
    let receiver_ata = pk K 6
    ix ← unwrap (
        transfer_recurring K P delegation_account delegator delegatee mint delegator_ata
          receiver_ata token_program 250000)
    let expected = (5 ∷ []) ++ (to_le_bytes 8 250000 ++ (as_ref delegator ++ as_ref mint))
    assert (bytes_eq ix.ix_data expected)
    assert (length ix.ix_data == 1 + 72)
    (subscription_authority, bump) ← unwrap (subscription_authority_pda K P delegator mint)
    (event_authority, bump') ← unwrap (event_authority_pda K P)
    program ← id K P
    assert_eq same_accounts ix.accounts (
        new delegation_account false
        ∷ new_readonly subscription_authority false
        ∷ new delegator_ata false
        ∷ new receiver_ata false
        ∷ new_readonly mint false
        ∷ new_readonly token_program false
        ∷ new_readonly delegatee true
        ∷ new_readonly event_authority false
        ∷ new_readonly program false
        ∷ [])

  transfer_data-bytes_eq :
      (a b : Key)
      → bytes_eq
          (concat (transfer_fields K P 250000 a b))
          ((5 ∷ []) ++ (to_le_bytes 8 250000 ++ (as_ref a ++ as_ref b)))
        ≡ true
  transfer_data-bytes_eq a b =
      rw (append-nil (as_ref b))
        (bytes_eq_refl ((5 ∷ []) ++ (to_le_bytes 8 250000 ++ (as_ref a ++ as_ref b))))

  length-transfer_data : (a b : Key) → length (concat (transfer_fields K P 250000 a b)) ≡ 1 + 72
  length-transfer_data a b = omega (
    arith,
    length-concat (transfer_fields K P 250000 a b),
    length-to_le_bytes 8 250000,
    K.length-as_ref a,
    K.length-as_ref b,
  )

  transfer_recurring_encodes_amount_delegator_mint_in_order_lem :
      (program authority event : Key) (bump bump' : ℕ)
      → id K P ≡ ok program
      → subscription_authority_pda K P (pk K 1) (pk K 2) ≡ ok (authority, bump)
      → event_authority_pda K P ≡ ok (event, bump')
      → transfer_recurring_encodes_amount_delegator_mint_in_order ≡ ok tt
  unfolding transfer_recurring_encodes_amount_delegator_mint_in_order transfer_recurring
      same_accounts
  transfer_recurring_encodes_amount_delegator_mint_in_order_lem program authority event bump bump'
        hp ha he =
      rw
        (
          ha,
          he,
          hp,
          transfer_data-bytes_eq (pk K 1) (pk K 2),
          eq→== _ 73 (length-transfer_data (pk K 1) (pk K 2)),
        )
        (assert_eq_holds same_accounts _ _ refl)

  unfoldable event_authority_pda_is_deterministic : Test
  event_authority_pda_is_deterministic = do
    (a, bump_a) ← unwrap (event_authority_pda K P)
    (b, bump_b) ← unwrap (event_authority_pda K P)
    assert_eq key_discrete a b
    assert (bump_a == bump_b)

  event_authority_pda_is_deterministic_lem :
      (event : Key) (bump : ℕ)
      → event_authority_pda K P ≡ ok (event, bump)
      → event_authority_pda_is_deterministic ≡ ok tt
  unfolding event_authority_pda_is_deterministic
  event_authority_pda_is_deterministic_lem event bump he =
      rw (he, assert_eq_holds key_discrete event event refl, eq→== bump bump refl)
