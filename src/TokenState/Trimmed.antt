-- ===== src/TokenState/Trimmed.antt =====
-- What `unpack_mint` and `unpack_token_account` read of accounts of every length.
use svm_wasi_core.Base.{
  arith, ℕ, String, ◌≡◌, ◌≢◌, ◌≤◌, ◌<◌, refl, List, length, take, min, Outcome, Outcome-cases, ok,
  panic, err, map_err, slice, slice_prefix, ◌>>=◌, Bool-cases, leb, take_all, inl, inr,
}
use svm_wasi_core.TokenState.{TokenPackage, TokenStateError, unpack_mint, unpack_token_account}

-- `Pack::unpack` refuses every length but the exact one.
abbrev pub RefusesLengths : {A : Type 0} → ℕ → (List ℕ → Outcome String A) → Type 0
RefusesLengths len unpack =
    (bytes : List ℕ) → length bytes ≢ len → (text : String) × (unpack bytes ≡ err text)

-- A reader that returns on all bytes.
abbrev pub NeverPanics : {A : Type 0} → (List ℕ → Outcome String A) → Type 0
NeverPanics unpack = (bytes : List ℕ) → unpack bytes ≢ panic

-- What a reader of the base fields gives: an error on bytes that are too short, and otherwise what
-- the package reads from the first `len` bytes, whatever is behind them.
pub data Trimmed {A : Type 0} (len : ℕ) (unpack : List ℕ → Outcome String A) (bytes : List ℕ)
    : Outcome TokenStateError A → Type 0 where
  too_short :
      (text : String)
      → length bytes < len
      → Trimmed len unpack bytes (err (TokenStateError.program text))
  refused_base :
      (text : String)
      → len ≤ length bytes
      → unpack (take len bytes) ≡ err text
      → Trimmed len unpack bytes (err (TokenStateError.program text))
  base_read :
      (state : A)
      → len ≤ length bytes
      → unpack (take len bytes) ≡ ok state
      → Trimmed len unpack bytes (ok state)

base_Trimmed :
    {A : Type 0} (len : ℕ) (unpack : List ℕ → Outcome String A) (bytes : List ℕ)
    → NeverPanics unpack
    → len ≤ length bytes
    → Trimmed len unpack bytes (map_err TokenStateError.program (unpack (take len bytes)))
base_Trimmed len unpack bytes returns enough = elim (Outcome-cases (unpack (take len bytes))) [
  | inl (state, e) ↦ rw e (base_read state enough e)
  | inr (inl (text, e)) ↦ rw e (refused_base text enough e)
  | inr (inr e) ↦ absurd (returns (take len bytes) e)
]

trimmed :
    {A : Type 0} (len : ℕ) (unpack : List ℕ → Outcome String A) (bytes : List ℕ)
    → RefusesLengths len unpack
    → NeverPanics unpack
    → Trimmed len unpack bytes (
        slice bytes 0 (min len (length bytes)) >>= λ base.
        map_err TokenStateError.program (unpack base))
trimmed len unpack bytes refuses returns = elim (Bool-cases (leb len (length bytes))) [
  | inl e ↦
      let enough : len ≤ length bytes = ground arith in
      let all : min len (length bytes) ≡ len = omega arith in
      rw (all, slice_prefix {E = TokenStateError} bytes len enough)
        (base_Trimmed len unpack bytes returns enough)
  | inr e ↦
      let short : length bytes < len = ground arith in
      let all : min len (length bytes) ≡ length bytes = omega arith in
      let (text, refused) = refuses bytes (λ same. omega (arith, same)) in
      rw
        (
          all,
          slice_prefix {E = TokenStateError} bytes (length bytes) (omega arith),
          take_all (length bytes) bytes refl,
          refused,
        )
        (too_short text short)
]

module _ {Key : Type 0} (P : TokenPackage Key) where
  open P use {Mint, TokenAccount, mint_len, account_len, mint_unpack, account_unpack}

  -- When the package's two readers refuse every other length and never panic, `unpack_mint` and
  -- `unpack_token_account` never panic either: each fails on bytes that are too short, and
  -- otherwise fails with the package's text or gives the state, as the package does for the bytes
  -- of the base length alone, so that extensions behind these make no difference.
  pub unpack_mint-Trimmed :
      (bytes : List ℕ)
      → RefusesLengths mint_len mint_unpack
      → RefusesLengths account_len account_unpack
      → NeverPanics mint_unpack
      → NeverPanics account_unpack
      → Trimmed mint_len mint_unpack bytes (unpack_mint P bytes)
        × Trimmed account_len account_unpack bytes (unpack_token_account P bytes)
  unfolding unpack_mint unpack_token_account
  unpack_mint-Trimmed bytes m a m' a' =
      (trimmed mint_len mint_unpack bytes m m', trimmed account_len account_unpack bytes a a')
