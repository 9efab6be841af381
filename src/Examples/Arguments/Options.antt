-- ===== src/Examples/Arguments/Options.antt =====
-- Which arguments `parse_args` takes, and what it reads from them.
use mathlib.Core.List.{append-nil}
use Prim.Native.String.{◌++◌ as ◌⊕◌}
use svm_wasi_core.Base.{
  sym, String, ◌≡◌, refl, ap, ◌∙◌, Option, none, some, List, [], ◌∷◌, ◌++◌, Outcome, ok, err, ◌>>=◌,
  ok_or,
}
use svm_wasi_core.Examples.Arguments.{
  unknown_flag, SweepFlags, flag_of, no_flags, finish_sweep, take_flag, sweep_loop,
  parse_sweep_args,
}

-- A flag with its value, as the operator means it.
pub data Setting (Key : Type 0) : Type 0 where
  rpc_url : String → Setting Key
  ephemeral_pubkey : String → Key → Setting Key
  transaction_base64 : String → Setting Key
  nonce_authority_keypair : String → Setting Key

module _ {Key : Type 0} where
  -- How a command line writes settings.
  abbrev pub command_line : List (Setting Key) → List String
  command_line [] = []
  command_line (rpc_url v ∷ ss) = "--rpc-url" ∷ v ∷ command_line ss
  command_line (ephemeral_pubkey v k ∷ ss) = "--ephemeral-pubkey" ∷ v ∷ command_line ss
  command_line (transaction_base64 v ∷ ss) = "--transaction-base64" ∷ v ∷ command_line ss
  command_line (nonce_authority_keypair v ∷ ss) = "--nonce-authority-keypair" ∷ v ∷ command_line ss

  -- The last setting of a kind, or else what there was before.
  abbrev pub last :
      {A : Type 0} → (Setting Key → Option A) → List (Setting Key) → Option A → Option A
  last f [] before = before
  last f (s ∷ ss) before = last f ss (elim (f s) [ none ↦ before | some a ↦ some a ])

  abbrev pub url_in : Setting Key → Option String
  url_in (rpc_url v) = some v
  url_in (ephemeral_pubkey v k) = none
  url_in (transaction_base64 v) = none
  url_in (nonce_authority_keypair v) = none

  abbrev pub key_in : Setting Key → Option Key
  key_in (rpc_url v) = none
  key_in (ephemeral_pubkey v k) = some k
  key_in (transaction_base64 v) = none
  key_in (nonce_authority_keypair v) = none

  abbrev pub transaction_in : Setting Key → Option String
  transaction_in (rpc_url v) = none
  transaction_in (ephemeral_pubkey v k) = none
  transaction_in (transaction_base64 v) = some v
  transaction_in (nonce_authority_keypair v) = none

  abbrev pub authority_in : Setting Key → Option String
  authority_in (rpc_url v) = none
  authority_in (ephemeral_pubkey v k) = none
  authority_in (transaction_base64 v) = none
  authority_in (nonce_authority_keypair v) = some v

  abbrev pub settings_from : List (Setting Key) → SweepFlags Key → SweepFlags Key
  settings_from ss f = record {
    rpc_url = last url_in ss f.rpc_url;
    ephemeral_pubkey = last key_in ss f.ephemeral_pubkey;
    transaction_base64 = last transaction_in ss f.transaction_base64;
    nonce_authority_keypair_path = last authority_in ss f.nonce_authority_keypair_path;
  }

  module _ (key_from_str : String → Outcome String Key) where
    -- The text of each ephemeral key parses to the key.
    abbrev pub Parses : List (Setting Key) → Type 0
    Parses [] = Unit
    Parses (rpc_url v ∷ ss) = Parses ss
    Parses (ephemeral_pubkey v k ∷ ss) = (key_from_str v ≡ ok k) × Parses ss
    Parses (transaction_base64 v ∷ ss) = Parses ss
    Parses (nonce_authority_keypair v ∷ ss) = Parses ss

    sweep_loop-settings :
        (ss : List (Setting Key)) (rest : List String) (f : SweepFlags Key)
        → Parses ss
        → sweep_loop key_from_str (command_line ss ++ rest) f
          ≡ sweep_loop key_from_str rest (settings_from ss f)
    unfolding sweep_loop take_flag
    sweep_loop-settings [] rest f h = refl
    sweep_loop-settings (rpc_url v ∷ ss) rest f h = sweep_loop-settings ss rest _ h
    sweep_loop-settings (ephemeral_pubkey v k ∷ ss) rest f (e, h) =
        rw e (sweep_loop-settings ss rest _ h)
    sweep_loop-settings (transaction_base64 v ∷ ss) rest f h = sweep_loop-settings ss rest _ h
    sweep_loop-settings (nonce_authority_keypair v ∷ ss) rest f h = sweep_loop-settings ss rest _ h

    take_flag-unknown :
        (flag value : String) (f : SweepFlags Key)
        → flag_of flag ≡ unknown_flag
        → take_flag key_from_str flag value f ≡ err ("unrecognized flag " ⊕ flag)
    unfolding take_flag
    take_flag-unknown flag value f u = rw (take_flag, u)

    sweep_loop-unknown :
        (flag value : String) (rest : List String) (f : SweepFlags Key)
        → flag_of flag ≡ unknown_flag
        → sweep_loop key_from_str (flag ∷ value ∷ rest) f ≡ err ("unrecognized flag " ⊕ flag)
    unfolding sweep_loop
    sweep_loop-unknown flag value rest f u =
        ap (λ r. r >>= sweep_loop key_from_str rest) (take_flag-unknown flag value f u)

    -- Settings in any order and number are read as the last of each kind, with an error for the
    -- first kind that has none. An argument behind them with no value is an error that names it, and
    -- so is a pair behind them that begins with no flag, whatever follows.
    pub parse_sweep_args-settings :
        (ss : List (Setting Key)) (flag value : String) (rest : List String)
        → Parses ss
        → flag_of flag ≡ unknown_flag
        → (parse_sweep_args key_from_str (command_line ss) ≡ (do
          url ← ok_or (last url_in ss none) "missing --rpc-url"
          key ← ok_or (last key_in ss none) "missing --ephemeral-pubkey"
          transaction ← ok_or (last transaction_in ss none) "missing --transaction-base64"
          path ← ok_or (last authority_in ss none) "missing --nonce-authority-keypair"
          ok (record {
            rpc_url = url;
            ephemeral_pubkey = key;
            transaction_base64 = transaction;
            nonce_authority_keypair_path = path;
          })))
          × (parse_sweep_args key_from_str (command_line ss ++ (flag ∷ []))
              ≡ err (flag ⊕ " needs a value"))
          × (parse_sweep_args key_from_str (command_line ss ++ (flag ∷ value ∷ rest))
              ≡ err ("unrecognized flag " ⊕ flag))
    unfolding parse_sweep_args finish_sweep sweep_loop take_flag
    parse_sweep_args-settings ss flag value rest h u = (
      ap (λ args. sweep_loop key_from_str args no_flags >>= finish_sweep)
            (sym (append-nil (command_line ss)))
          ∙ rw (sweep_loop-settings ss [] no_flags h),
      rw (sweep_loop-settings ss (flag ∷ []) no_flags h),
      rw (
        sweep_loop-settings ss (flag ∷ value ∷ rest) no_flags h,
        sweep_loop-unknown flag value rest _ u,
      ),
    )
