-- ===== src/Instruction/Dispatch.antt =====
-- Which token program the builders of src/instruction/token.rs accept.
use svm_wasi_core.Base.{ℕ, ◌≡◌, ◌≢◌, ◌⊎◌, inl, List, [], Outcome, ok, err, panic, expect}
use svm_wasi_core.Keys.{Keys}
use svm_wasi_core.Instruction.Token.{if_equal, TokenInterface, transfer, transfer_checked}

module _ (K : Keys) {Ix : Type 0} where
  open K use {Key, key_discrete}

  -- What a token package checks of the program id: it builds for the programs that it accepts, and
  -- refuses all others.
  pub record ChecksProgram (t : TokenInterface Key Ix) (Accepts : Key → Type 0) : Type 0 where
    pub built : Key → Key → Key → Key → List Key → ℕ → Ix
    pub accepted :
        (p a b c : Key) (signers : List Key) (amount : ℕ)
        → Accepts p
        → t.transfer p a b c signers amount ≡ ok (built p a b c signers amount)
    pub refused :
        (p a b c : Key) (signers : List Key) (amount : ℕ)
        → ¬ Accepts p
        → t.transfer p a b c signers amount ≡ err tt
    pub built_checked : Key → Key → Key → Key → Key → List Key → ℕ → ℕ → Ix
    pub accepted_checked :
        (p a m b c : Key) (signers : List Key) (amount decimals : ℕ)
        → Accepts p
        → t.transfer_checked p a m b c signers amount decimals
          ≡ ok (built_checked p a m b c signers amount decimals)
    pub refused_checked :
        (p a m b c : Key) (signers : List Key) (amount decimals : ℕ)
        → ¬ Accepts p
        → t.transfer_checked p a m b c signers amount decimals ≡ err tt

  -- `check_program_account` of the token package accepts its own id alone;
  -- `check_spl_token_program_account` of the Token-2022 package accepts both ids.
  abbrev pub ChecksOwn : TokenInterface Key Ix → Type 0
  ChecksOwn token = ChecksProgram token (λ p. p ≡ token.id)

  abbrev pub ChecksBoth : TokenInterface Key Ix → TokenInterface Key Ix → Type 0
  ChecksBoth token token_2022 = ChecksProgram token_2022 (λ p. (p ≡ token_2022.id) ⊎ (p ≡ token.id))

  -- The instruction of the package whose id the program is, or a panic.
  pub data Dispatch (id id_2022 p : Key) (built built_2022 : Ix)
      : Outcome (Unit {0}) Ix → Type 0 where
    by_token_2022 : p ≡ id_2022 → Dispatch id id_2022 p built built_2022 (ok built_2022)
    by_token : p ≢ id_2022 → p ≡ id → Dispatch id id_2022 p built built_2022 (ok built)
    by_none : p ≢ id_2022 → p ≢ id → Dispatch id id_2022 p built built_2022 panic

  choose-Dispatch :
      (id id_2022 p : Key) (built built_2022 : Ix) (m m' : Outcome (Unit {0}) Ix)
      → (p ≡ id_2022 → m' ≡ ok built_2022)
      → (p ≡ id → m ≡ ok built)
      → (p ≢ id → m ≡ err tt)
      → (d : Dec (p ≡ id_2022))
      → Dispatch id id_2022 p built built_2022 (if_equal d (expect m') (expect m))
  choose-Dispatch id id_2022 p built built_2022 m m' h2 h1 h0 (yes e) = rw (h2 e) (by_token_2022 e)
  choose-Dispatch id id_2022 p built built_2022 m m' h2 h1 h0 (no n) = elim (key_discrete p id) [
    | yes e ↦ rw (h1 e) (by_token n e)
    | no n' ↦ rw (h0 n') (by_none n n')
  ]

  module _ (token token_2022 : TokenInterface Key Ix) (C : ChecksOwn token)
      (C' : ChecksBoth token token_2022) where
    -- When the token package builds for its own program id alone, and the Token-2022 package for
    -- its own and for that of the other, `transfer` and `transfer_checked` give the Token-2022
    -- package's instruction for its own id only, the token package's for the other id, although
    -- both packages accept that one, and panic for every other program.
    pub transfer-Dispatch :
        (a m b c : Key) (amount decimals : ℕ) (p : Key)
        → Dispatch token.id token_2022.id p
            (C.built p a b c [] amount)
            (C'.built p a b c [] amount)
            (transfer K token token_2022 a b c amount p)
          × Dispatch token.id token_2022.id p
              (C.built_checked p a m b c [] amount decimals)
              (C'.built_checked p a m b c [] amount decimals)
              (transfer_checked K token token_2022 a m b c amount decimals p)
    unfolding transfer transfer_checked
    transfer-Dispatch a m b c amount decimals p = (
      choose-Dispatch token.id token_2022.id p _ _ (token.transfer p a b c [] amount)
          (token_2022.transfer p a b c [] amount) (λ e. C'.accepted p a b c [] amount (inl e))
          (C.accepted p a b c [] amount) (C.refused p a b c [] amount)
          (key_discrete p token_2022.id),
      choose-Dispatch token.id token_2022.id p _ _
          (token.transfer_checked p a m b c [] amount decimals)
          (token_2022.transfer_checked p a m b c [] amount decimals)
          (λ e. C'.accepted_checked p a m b c [] amount decimals (inl e))
          (C.accepted_checked p a m b c [] amount decimals)
          (C.refused_checked p a m b c [] amount decimals) (key_discrete p token_2022.id),
    )
