-- ===== src/TokenState/Finders.antt =====
-- What the three finders of a mint's extensions answer.
use svm_wasi_core.Base.{
  Outcome-cases, ℕ, String, ◌≡◌, refl, ◌⊎◌, inl, inr, Option, none, some, List, Outcome, ok, err,
  panic, ◌>>=◌, map_err,
}
use svm_wasi_core.TokenState.{
  TokenPackage, TokenStateError, TransferFee, TransferFeeConfig, TransferHookConfig, fee_config_of,
  hook_config_of, let_ok, find_transfer_fee_config, find_permanent_delegate, find_transfer_hook,
}

module _ {Key : Type 0} (P : TokenPackage Key) where
  open P use {MintState, state_unpack, get_fee_config, get_delegate, get_hook, raw_delegate}

  -- Each field is the one that the package reads.
  pub record SameFee (raw : P.RawFee) (fee : TransferFee) : Type 0 where
    pub epoch : fee.epoch ≡ P.raw_epoch raw
    pub maximum_fee : fee.maximum_fee ≡ P.raw_maximum_fee raw
    pub basis_points : fee.transfer_fee_basis_points ≡ P.raw_basis_points raw

  pub record SameConfig (raw : P.RawFeeConfig) (config : TransferFeeConfig Key) : Type 0 where
    pub config_authority : config.transfer_fee_config_authority ≡ P.config_authority raw
    pub withdraw_authority : config.withdraw_withheld_authority ≡ P.withdraw_authority raw
    pub withheld : config.withheld_amount ≡ P.raw_withheld_amount raw
    pub older : SameFee (P.older_fee raw) config.older_transfer_fee
    pub newer : SameFee (P.newer_fee raw) config.newer_transfer_fee

  pub record SameHook (raw : P.RawHook) (config : TransferHookConfig Key) : Type 0 where
    pub authority : config.authority ≡ P.hook_authority raw
    pub program_id : config.program_id ≡ P.hook_program_id raw

  -- A finding of something that stands in the relation to the extension.
  pub data Finds {Raw A : Type 0} (Same : Raw → A → Type 0) (raw : Raw) : Option A → Type 0 where
    finds : (found : A) → Same raw found → Finds Same raw (some found)

  -- The answer of a finder for the extension that `get` reads; `Reads` is what it makes of it.
  pub data Found {Raw A : Type 0} (get : MintState → Outcome String Raw)
      (Reads : Raw → Option A → Type 0) (mint_data : List ℕ)
      : Outcome TokenStateError (Option A) → Type 0 where
    no_mint :
        (text : String)
        → state_unpack mint_data ≡ err text
        → Found get Reads mint_data (err (TokenStateError.program text))
    absent :
        (state : MintState) (text : String)
        → state_unpack mint_data ≡ ok state
        → get state ≡ err text
        → Found get Reads mint_data (ok none)
    present :
        (state : MintState) (raw : Raw) (found : Option A)
        → state_unpack mint_data ≡ ok state
        → get state ≡ ok raw
        → Reads raw found
        → Found get Reads mint_data (ok found)
    package_panic :
        (state_unpack mint_data ≡ panic)
          ⊎ ((state : MintState) × (state_unpack mint_data ≡ ok state) × (get state ≡ panic))
        → Found get Reads mint_data panic

  finder-Found :
      {Raw A : Type 0} (get : MintState → Outcome String Raw) (convert : Raw → Option A)
      (Reads : Raw → Option A → Type 0) (mint_data : List ℕ)
      → ((raw : Raw) → Reads raw (convert raw))
      → Found get Reads mint_data (
          map_err TokenStateError.program (state_unpack mint_data) >>= λ state.
          let_ok P (get state) convert)
  finder-Found get convert Reads mint_data reads = elim (Outcome-cases (state_unpack mint_data)) [
    | inl (state, e) ↦ elim (Outcome-cases (get state)) [
      | inl (raw, f) ↦ rw (e, f) (present state raw (convert raw) e f (reads raw))
      | inr (inl (text, f)) ↦ rw (e, f) (absent state text e f)
      | inr (inr f) ↦ rw (e, f) (package_panic (inr (state, e, f)))
    ]
    | inr (inl (text, e)) ↦ rw e (no_mint text e)
    | inr (inr e) ↦ rw e (package_panic (inl e))
  ]

  SameConfig-refl : (raw : P.RawFeeConfig) → SameConfig raw (fee_config_of P raw)
  SameConfig-refl raw = record {
    config_authority = refl;
    withdraw_authority = refl;
    withheld = refl;
    older = record { epoch = refl; maximum_fee = refl; basis_points = refl };
    newer = record { epoch = refl; maximum_fee = refl; basis_points = refl };
  }

  SameHook-refl : (raw : P.RawHook) → SameHook raw (hook_config_of P raw)
  SameHook-refl raw = record { authority = refl; program_id = refl }

  -- Each of the three finders fails exactly on bytes that the package does not read as a mint, with
  -- the package's text. On a mint without its extension it finds nothing, which is no error. On a
  -- mint with it, it gives, field by field, what the package reads: the two authorities of a fee
  -- configuration, the withheld amount and the epoch, maximum and basis points of its older and of
  -- its newer fee; the authority and the program of a hook; and the delegate, which there may be
  -- none of. It panics only when the package does.
  pub finders-Found :
      (mint_data : List ℕ)
      → Found get_fee_config (Finds SameConfig) mint_data (find_transfer_fee_config P mint_data)
        × Found get_delegate
            (λ raw found. found ≡ raw_delegate raw)
            mint_data
            (find_permanent_delegate P mint_data)
        × Found get_hook (Finds SameHook) mint_data (find_transfer_hook P mint_data)
  unfolding find_transfer_fee_config find_permanent_delegate find_transfer_hook
  finders-Found mint_data = (
    finder-Found get_fee_config (λ raw. some (fee_config_of P raw)) (Finds SameConfig) mint_data
        (λ raw. finds (fee_config_of P raw) (SameConfig-refl raw)),
    finder-Found get_delegate raw_delegate (λ raw found. found ≡ raw_delegate raw) mint_data
        (λ raw. refl),
    finder-Found get_hook (λ raw. some (hook_config_of P raw)) (Finds SameHook) mint_data
        (λ raw. finds (hook_config_of P raw) (SameHook-refl raw)),
  )
