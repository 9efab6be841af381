-- ===== src/Tests/States.antt =====
-- The theorems on nonce accounts and token state, at concrete inputs.
use svm_wasi_core.Base.{
  ap, ◌+◌, ℕ, String, ◌≡◌, refl, ◌==◌, if◌then◌else◌, Bool-cases, inl, inr, ==→eq, some, none, List,
  [], ◌∷◌, length, Outcome, ok, err, panic, ◌>>=◌,
}
use svm_wasi_core.Nonce.{
  Nonces, NonceAccount, NonceState, current, legacy, initialized, uninitialized,
  parse_nonce_account, usable_blockhash, encode_initialized_nonce_account,
}
use svm_wasi_core.Nonce.Usable.{usable_blockhash-encode}
use svm_wasi_core.TokenState.{
  find_transfer_hook, find_permanent_delegate, find_transfer_fee_config, TokenPackage, unpack_mint,
  unpack_token_account,
}
use svm_wasi_core.TokenState.Finders.{Found, Finds, SameConfig, SameHook, finders-Found}
use svm_wasi_core.TokenState.Trimmed.{RefusesLengths, NeverPanics, Trimmed, unpack_mint-Trimmed}

-- Nonce data are the hash, the authority and the fee; keys and hashes are numbers.
abbrev write : NonceAccount (ℕ × ℕ × ℕ) → List ℕ
write (current (initialized (h, k, fee))) = 1 ∷ h ∷ k ∷ fee ∷ []
write (current uninitialized) = 2 ∷ []
write (legacy (initialized (h, k, fee))) = 3 ∷ h ∷ k ∷ fee ∷ []
write (legacy uninitialized) = []

abbrev read_data : List ℕ → NonceState (ℕ × ℕ × ℕ)
read_data (h ∷ (k ∷ (fee ∷ rest))) = initialized (h, k, fee)
read_data [] = uninitialized
read_data (h ∷ []) = uninitialized
read_data (h ∷ (k ∷ [])) = uninitialized

abbrev read : List ℕ → NonceAccount (ℕ × ℕ × ℕ)
read [] = legacy uninitialized
read (tag ∷ rest) = if tag == 3 then legacy (read_data rest) else current (read_data rest)

read-write : (a : NonceAccount (ℕ × ℕ × ℕ)) → read (write a) ≡ a
read-write (current (initialized (h, k, fee))) = refl
read-write (current uninitialized) = refl
read-write (legacy (initialized (h, k, fee))) = refl
read-write (legacy uninitialized) = refl

abbrev sample_nonces : Nonces ℕ ℕ
sample_nonces = record {
  Data = ℕ × ℕ × ℕ;
  DurableNonce = ℕ;
  from_blockhash = λ h. h + 1;
  new_data = λ k h fee. (h, k, fee);
  blockhash = λ d. d.0;
  new_account = λ s. current s;
  serialize = λ a. ok (write a);
  deserialize = λ bytes. ok (read bytes);
}

usable_blockhash-encode_example :
    (encode_initialized_nonce_account sample_nonces 7 41 5000
      >>= parse_nonce_account sample_nonces
      >>= λ account. ok (usable_blockhash sample_nonces account))
    ≡ ok (some 42)
usable_blockhash-encode_example =
    usable_blockhash-encode sample_nonces 7 41 5000
      (record { encoding = write; writes = λ a. refl; reads = λ a. ap ok (read-write a) })
      (λ s. refl)

-- A state that is all its bytes.
abbrev exact : ℕ → List ℕ → Outcome String (List ℕ)
exact len bytes = if length bytes == len then ok bytes else err "invalid account data"

exact-RefusesLengths : (len : ℕ) → RefusesLengths len (exact len)
exact-RefusesLengths len bytes differs = elim (Bool-cases (length bytes == len)) [
  | inl e ↦ absurd (differs (==→eq (length bytes) len e))
  | inr e ↦ ("invalid account data", rw e)
]

exact-NeverPanics : (len : ℕ) → NeverPanics (exact len)
exact-NeverPanics len bytes h = elim (Bool-cases (length bytes == len)) [
  | inl e ↦ let impossible : ◌≡◌ {A = Outcome String (List ℕ)} (ok bytes) panic = rw e at h in cc
  | inr e ↦
      let impossible : ◌≡◌ {A = Outcome String (List ℕ)} (err "invalid account data") panic =
        rw e at h in
      cc
]

-- A mint has two bytes and an account three; every mint has all three extensions.
abbrev sample_package : TokenPackage ℕ
sample_package = record {
  Mint = List ℕ;
  TokenAccount = List ℕ;
  mint_len = 2;
  account_len = 3;
  mint_unpack = exact 2;
  account_unpack = exact 3;
  MintState = List ℕ;
  state_unpack = λ bytes. ok bytes;
  RawFee = ℕ;
  RawFeeConfig = ℕ;
  RawDelegate = ℕ;
  RawHook = ℕ;
  get_fee_config = λ s. ok 6;
  get_delegate = λ s. ok 8;
  get_hook = λ s. ok 7;
  config_authority = λ r. none;
  withdraw_authority = λ r. none;
  raw_withheld_amount = λ r. r;
  older_fee = λ r. r + 1;
  newer_fee = λ r. r + 2;
  raw_epoch = λ r. r;
  raw_maximum_fee = λ r. r;
  raw_basis_points = λ r. r;
  raw_delegate = λ r. some r;
  hook_authority = λ r. some r;
  hook_program_id = λ r. none;
}

unpack_mint-Trimmed_example :
    Trimmed 2 (exact 2) (8 ∷ 9 ∷ []) (unpack_mint sample_package (8 ∷ 9 ∷ []))
    × Trimmed 3 (exact 3) (8 ∷ 9 ∷ []) (unpack_token_account sample_package (8 ∷ 9 ∷ []))
unpack_mint-Trimmed_example =
    unpack_mint-Trimmed sample_package (8 ∷ 9 ∷ []) (exact-RefusesLengths 2)
      (exact-RefusesLengths 3) (exact-NeverPanics 2) (exact-NeverPanics 3)

finders-Found_example :
    Found sample_package sample_package.get_fee_config
      (Finds sample_package (SameConfig sample_package))
      (8 ∷ 9 ∷ [])
      (find_transfer_fee_config sample_package (8 ∷ 9 ∷ []))
    × Found sample_package sample_package.get_delegate
        (λ raw found. found ≡ sample_package.raw_delegate raw)
        (8 ∷ 9 ∷ [])
        (find_permanent_delegate sample_package (8 ∷ 9 ∷ []))
    × Found sample_package sample_package.get_hook
        (Finds sample_package (SameHook sample_package))
        (8 ∷ 9 ∷ [])
        (find_transfer_hook sample_package (8 ∷ 9 ∷ []))
finders-Found_example = finders-Found sample_package (8 ∷ 9 ∷ [])
