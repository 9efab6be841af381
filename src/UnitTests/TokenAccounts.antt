-- ===== src/UnitTests/TokenAccounts.antt =====
-- The tests of src/instruction/associated_token_account.rs. They pass whenever the texts parse as
-- keys and the address of the token account exists, which the tests unwrap.
use svm_wasi_core.Base.{
  String, ◌≡◌, refl, ◌>>=◌, ◌>>◌, ◌==◌, true, false, Outcome, ok, [], ◌∷◌, length, index,
}
use svm_wasi_core.Base.Search.{bytes_eq}
use svm_wasi_core.Keys.{Keys}
use svm_wasi_core.Instruction.{Programs, system_id}
use svm_wasi_core.Instruction.AssociatedTokenAccount.{
  build, id, create, create_idempotent, get_associated_token_address,
  create_associated_token_account, create_associated_token_account_idempotent,
}
use svm_wasi_core.UnitTests.{Test, assert, assert_eq, assert_eq_holds, unwrap, same_string}

-- `token_program` is `token::token_program_id()`.
module _ (K : Keys) (P : Programs K.Key) (same_meta : Discrete P.AccountMeta)
    (token_program : K.Key) where
  open K use {Key, key_discrete}
  open P use {AccountMeta, new, new_readonly, from_str}

  -- `pk(s)`
  abbrev parsed : String → Outcome (Unit {0}) Key
  parsed s = unwrap (from_str s)

  unfoldable get_associated_token_address_matches_known_mainnet_ata : (Key → String) → Test
  get_associated_token_address_matches_known_mainnet_ata to_string = do
    wallet ← parsed "5Q544fKrFoe6tsEbD7S8EmxGTJYAKtTVhAW5Q5pge4j1"
    usdc_mint ← parsed "EPjFWdd5AufqSSqeM2qN1xzybapC8G4wEGGkZwyTDt1v"
    ata ← unwrap (get_associated_token_address K P wallet usdc_mint token_program)
    assert (same_string (to_string ata) "BmeV7UWExZeSboQXYW4biUVEx2SyYDVTdWhHoQEQcUFu")

  unfoldable create_idempotent_uses_tag_one_and_six_accounts : Test
  create_idempotent_uses_tag_one_and_six_accounts = do
    funding ← parsed "TokenkegQfeZyiNwAJbNbGKPFXCWuBvf9Ss623VQ5DA"
    wallet ← parsed "5Q544fKrFoe6tsEbD7S8EmxGTJYAKtTVhAW5Q5pge4j1"
    mint ← parsed "EPjFWdd5AufqSSqeM2qN1xzybapC8G4wEGGkZwyTDt1v"
    ix ← unwrap (create_associated_token_account_idempotent K P funding wallet mint token_program)
    assert (bytes_eq ix.ix_data (create_idempotent ∷ []))
    program ← id K P
    assert_eq key_discrete ix.program_id program
    assert (length ix.accounts == 6)
    account ← index ix.accounts 0
    assert_eq same_meta account (new funding true)
    address ← unwrap (get_associated_token_address K P wallet mint token_program)
    account ← index ix.accounts 1
    assert_eq same_meta account (new address false)
    account ← index ix.accounts 2
    assert_eq same_meta account (new_readonly wallet false)
    account ← index ix.accounts 3
    assert_eq same_meta account (new_readonly mint false)
    system ← system_id P
    account ← index ix.accounts 4
    assert_eq same_meta account (new_readonly system false)
    account ← index ix.accounts 5
    assert_eq same_meta account (new_readonly token_program false)

  unfoldable create_uses_tag_zero : Test
  create_uses_tag_zero = do
    funding ← parsed "TokenkegQfeZyiNwAJbNbGKPFXCWuBvf9Ss623VQ5DA"
    wallet ← parsed "5Q544fKrFoe6tsEbD7S8EmxGTJYAKtTVhAW5Q5pge4j1"
    mint ← parsed "EPjFWdd5AufqSSqeM2qN1xzybapC8G4wEGGkZwyTDt1v"
    ix ← unwrap (create_associated_token_account K P funding wallet mint token_program)
    assert (bytes_eq ix.ix_data (create ∷ []))

  module _ (funding wallet mint program system address : Key)
      (hf : from_str "TokenkegQfeZyiNwAJbNbGKPFXCWuBvf9Ss623VQ5DA" ≡ ok funding)
      (hw : from_str "5Q544fKrFoe6tsEbD7S8EmxGTJYAKtTVhAW5Q5pge4j1" ≡ ok wallet)
      (hm : from_str "EPjFWdd5AufqSSqeM2qN1xzybapC8G4wEGGkZwyTDt1v" ≡ ok mint)
      (hp : id K P ≡ ok program) (hs : system_id P ≡ ok system)
      (ha : get_associated_token_address K P wallet mint token_program ≡ ok address) where
    -- This one also says what the address derivation answers for the known pair.
    get_associated_token_address_matches_known_mainnet_ata_lem :
        (to_string : Key → String)
        → to_string address ≡ "BmeV7UWExZeSboQXYW4biUVEx2SyYDVTdWhHoQEQcUFu"
        → get_associated_token_address_matches_known_mainnet_ata to_string ≡ ok tt
    unfolding get_associated_token_address_matches_known_mainnet_ata
    get_associated_token_address_matches_known_mainnet_ata_lem to_string known =
        rw (hw, hm, ha, known)

    create_idempotent_uses_tag_one_and_six_accounts_lem :
        create_idempotent_uses_tag_one_and_six_accounts ≡ ok tt
    unfolding create_idempotent_uses_tag_one_and_six_accounts
        create_associated_token_account_idempotent build
    create_idempotent_uses_tag_one_and_six_accounts_lem = rw (
      hf,
      hw,
      hm,
      ha,
      hp,
      hs,
      assert_eq_holds key_discrete program program refl,
      assert_eq_holds same_meta (new funding true) (new funding true) refl,
      assert_eq_holds same_meta (new address false) (new address false) refl,
      assert_eq_holds same_meta (new_readonly wallet false) (new_readonly wallet false) refl,
      assert_eq_holds same_meta (new_readonly mint false) (new_readonly mint false) refl,
      assert_eq_holds same_meta (new_readonly system false) (new_readonly system false) refl,
      assert_eq_holds same_meta (new_readonly token_program false)
          (new_readonly token_program false) refl,
    )

    create_uses_tag_zero_lem : create_uses_tag_zero ≡ ok tt
    unfolding create_uses_tag_zero create_associated_token_account build
    create_uses_tag_zero_lem = rw (hf, hw, hm, ha, hp, hs)
