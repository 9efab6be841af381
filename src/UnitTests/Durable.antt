-- ===== src/UnitTests/Durable.antt =====
-- The tests of src/message.rs, under what solana-message and solana-system-interface document.
use mathlib.Core.Option.{some}
use svm_wasi_core.Base.{
  ℕ, ◌≡◌, ◌>>=◌, ◌>>◌, ◌==◌, Bool, true, false, ◌||◌, String, Outcome, ok, List, [], ◌∷◌, length,
  index,
}
use svm_wasi_core.Base.Search.{bytes_eq}
use svm_wasi_core.Keys.{Keys}
use svm_wasi_core.Instruction.{Instruction}
use svm_wasi_core.Transaction.{MessageFormat}
use svm_wasi_core.Message.{
  Compilers, compile_legacy_with_durable_nonce, compile_v0_with_durable_nonce,
}
use svm_wasi_core.UnitTests.{Test, assert, assert_eq, assert_eq_holds, unwrap}

-- `from_str` is `Pubkey::from_str`, `transfer` is that of solana-system-interface, and `nines` is the
-- blockhash of 32 nines.
module _ (K : Keys) {Hash AccountMeta : Type 0} (same_hash : Discrete Hash)
    (Legacy V0 : MessageFormat K.Key Hash) (C : Compilers Legacy V0 AccountMeta)
    (from_str : String → Outcome String K.Key)
    (transfer : K.Key → K.Key → ℕ → Instruction K.Key AccountMeta) (nines : Hash) where
  open K use {Key, key_discrete}

  -- `keys.contains(&key)`
  same_key : {a b : Key} → Dec (a ≡ b) → Bool
  same_key (yes e) = true
  same_key (no n) = false

  unfoldable contains : List Key → Key → Bool
  unfolding same_key
  contains [] key = false
  contains (k ∷ keys) key = same_key (key_discrete k key) || contains keys key

  unfoldable durable_nonce_message_places_advance_nonce_first_and_uses_nonce_blockhash : Test
  durable_nonce_message_places_advance_nonce_first_and_uses_nonce_blockhash = do
    payer ← unwrap (from_str "TokenkegQfeZyiNwAJbNbGKPFXCWuBvf9Ss623VQ5DA")
    nonce_account ← unwrap (from_str "ATokenGPvbdGVxr1b2hvZbsiqW5xWH25efTNsLJA8knL")
    to ← unwrap (from_str "MemoSq4gqABAXKb96qnH8TysNcWxMyWCqXgDLGmfcHr")
    let transfer_ix = transfer payer to 1000
    let message =
        compile_legacy_with_durable_nonce Legacy V0 C payer nonce_account payer nines
          (transfer_ix ∷ [])
    first ← index (C.instruction_data message) 0
    assert (bytes_eq first (4 ∷ 0 ∷ 0 ∷ 0 ∷ []))
    assert (length (C.instruction_data message) == 2)
    assert_eq same_hash (Legacy.recent_blockhash message) nines
    assert (contains (Legacy.account_keys message) nonce_account)

  unfoldable durable_nonce_v0_message_places_advance_nonce_first_and_uses_nonce_blockhash : Test
  durable_nonce_v0_message_places_advance_nonce_first_and_uses_nonce_blockhash = do
    payer ← unwrap (from_str "TokenkegQfeZyiNwAJbNbGKPFXCWuBvf9Ss623VQ5DA")
    nonce_account ← unwrap (from_str "ATokenGPvbdGVxr1b2hvZbsiqW5xWH25efTNsLJA8knL")
    to ← unwrap (from_str "MemoSq4gqABAXKb96qnH8TysNcWxMyWCqXgDLGmfcHr")
    let transfer_ix = transfer payer to 1000
    message ← unwrap (
        compile_v0_with_durable_nonce Legacy V0 C payer nonce_account payer nines (transfer_ix ∷ [])
          [])
    first ← index (C.instruction_data_v0 message) 0
    assert (bytes_eq first (4 ∷ 0 ∷ 0 ∷ 0 ∷ []))
    assert (length (C.instruction_data_v0 message) == 2)
    assert_eq same_hash (V0.recent_blockhash message) nines
    assert (contains (V0.account_keys message) nonce_account)

  module _ (payer nonce_account to : Key)
      (hp : from_str "TokenkegQfeZyiNwAJbNbGKPFXCWuBvf9Ss623VQ5DA" ≡ ok payer)
      (hn : from_str "ATokenGPvbdGVxr1b2hvZbsiqW5xWH25efTNsLJA8knL" ≡ ok nonce_account)
      (ht : from_str "MemoSq4gqABAXKb96qnH8TysNcWxMyWCqXgDLGmfcHr" ≡ ok to)
      (advance : (C.advance_nonce_account nonce_account payer).ix_data ≡ 4 ∷ 0 ∷ 0 ∷ 0 ∷ []) where
    durable_nonce_message_places_advance_nonce_first_and_uses_nonce_blockhash_lem :
        contains
            (Legacy.account_keys (
              compile_legacy_with_durable_nonce Legacy V0 C payer nonce_account payer nines
                (transfer payer to 1000 ∷ [])))
            nonce_account
          ≡ true
        → durable_nonce_message_places_advance_nonce_first_and_uses_nonce_blockhash ≡ ok tt
    unfolding durable_nonce_message_places_advance_nonce_first_and_uses_nonce_blockhash
        compile_legacy_with_durable_nonce
    durable_nonce_message_places_advance_nonce_first_and_uses_nonce_blockhash_lem holds =
        let ixs = C.advance_nonce_account nonce_account payer ∷ transfer payer to 1000 ∷ [] in
        rw (
          hp,
          hn,
          ht,
          C.instruction_data-set nines (C.new_message ixs (some payer)),
          C.instruction_data-new_message ixs (some payer),
          advance,
          assert_eq_holds same_hash _ nines
              (C.recent_blockhash-set nines (C.new_message ixs (some payer))),
          holds,
        )

    durable_nonce_v0_message_places_advance_nonce_first_and_uses_nonce_blockhash_lem :
        (message : V0.Message)
        → C.try_compile payer
            (C.advance_nonce_account nonce_account payer ∷ transfer payer to 1000 ∷ [])
            []
            nines
          ≡ ok message
        → contains (V0.account_keys message) nonce_account ≡ true
        → durable_nonce_v0_message_places_advance_nonce_first_and_uses_nonce_blockhash ≡ ok tt
    unfolding durable_nonce_v0_message_places_advance_nonce_first_and_uses_nonce_blockhash
        compile_v0_with_durable_nonce
    durable_nonce_v0_message_places_advance_nonce_first_and_uses_nonce_blockhash_lem message
          compiled holds =
        let ixs = C.advance_nonce_account nonce_account payer ∷ transfer payer to 1000 ∷ [] in
        rw (
          hp,
          hn,
          ht,
          compiled,
          C.instruction_data_v0-try_compile payer ixs [] nines message compiled,
          advance,
          assert_eq_holds same_hash _ nines
              (C.recent_blockhash-try_compile payer ixs [] nines message compiled),
          holds,
        )
