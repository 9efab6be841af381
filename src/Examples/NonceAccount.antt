-- ===== src/Examples/NonceAccount.antt =====
-- examples/create_durable_nonce_account.rs: creates a nonce account whose authority is the payer.
pub mod Inputs
pub mod Trace
pub mod Creation
use svm_wasi_core.Base.{ℕ, String, Option, some, List, ◌++◌, Outcome, ok, err, panic, ◌>>=◌, expect}
use svm_wasi_core.Keys.{Keys}
use svm_wasi_core.Sign.{Signatures, Ed25519, Keypair, from_bytes}
use svm_wasi_core.Instruction.{Instruction}
use svm_wasi_core.Transaction.{
  MessageFormat, Envelope, new_unsigned, try_sign_legacy, to_base64_legacy,
}
use svm_wasi_core.Message.{Compilers}
use svm_wasi_core.Rpc.Values.{Json, Codecs}
use svm_wasi_core.Rpc.Errors.{RpcError}
use svm_wasi_core.Rpc.Decode.{BlockhashInfo}
use svm_wasi_core.Rpc.{
  new_client, get_minimum_balance_for_rent_exemption, get_latest_blockhash, send_transaction,
}
use svm_wasi_core.Http.{Http, NativeClient, new_native, native_transport}
use svm_wasi_core.Examples.Arguments.{parse_nonce_args}
use svm_wasi_core.Examples.{
  Exit, success, failure, panicked, exit_of, Files, load_keypair_file, or_fail,
}

-- What the run reads; `seed` is the random secret of the nonce account's key.
pub record NonceHost : Type 0 where
  pub args : List String
  pub files : Files
  pub seed : List ℕ

-- `solana_system_interface::instruction::create_nonce_account(from, nonce, authority, lamports)`,
-- and `NonceState::size()` of the package solana-nonce.
pub record NoncePrograms (Key AccountMeta : Type 0) : Type 0 where
  pub create_nonce_account : Key → Key → Key → ℕ → List (Instruction Key AccountMeta)
  pub nonce_state_size : ℕ

module _ (K : Keys) (S : Signatures) (V : Envelope S.Signature String) {Hash AccountMeta : Type 0}
    (Legacy V0 : MessageFormat K.Key Hash) (C : Compilers Legacy V0 AccountMeta)
    (P : NoncePrograms K.Key AccountMeta) (E : Ed25519) where
  open C use {new_message, set_recent_blockhash}
  open P use {create_nonce_account, nonce_state_size}
  open E use {from_seed, verifying_key}

  -- The key pair of the fresh account.
  unfoldable pub fresh_keypair : List ℕ → Outcome (Unit {0}) (Keypair K S E)
  fresh_keypair seed = expect (from_bytes K S E (seed ++ verifying_key (from_seed seed)))

  -- `main` up to the client: the payer, the nonce account's key pair, and the URL.
  unfoldable pub prepare_nonce :
      NonceHost → Outcome (Unit {0}) (Keypair K S E × Keypair K S E × String)
  prepare_nonce host = do
    args ← or_fail (parse_nonce_args host.args)
    payer ← or_fail (load_keypair_file K S E host.files args.payer_keypair_path)
    nonce_keypair ← fresh_keypair host.seed
    ok (payer, nonce_keypair, args.nonce_rpc_url)

  -- The message that creates the account, for the fetched balance and blockhash.
  unfoldable pub creation_message : Keypair K S E → Keypair K S E → ℕ → Hash → Legacy.Message
  creation_message payer nonce_keypair lamports blockhash =
      let instructions =
        create_nonce_account payer.pubkey nonce_keypair.pubkey payer.pubkey lamports in
      set_recent_blockhash blockhash (new_message instructions (some payer.pubkey))

  -- Both signatures, and the text to send.
  unfoldable pub sign_creation :
      Keypair K S E → Keypair K S E → Legacy.Message → Outcome (Unit {0}) String
  sign_creation payer nonce_keypair message = do
    let tx = new_unsigned S V K Legacy message
    tx ← or_fail (try_sign_legacy S V K Legacy E payer tx)
    tx ← or_fail (try_sign_legacy S V K Legacy E nonce_keypair tx)
    or_fail (to_base64_legacy S V K Legacy tx)

  module _ (J : Json) (N : Http J.Value) (D : Codecs K.Key Hash) where
    open N use {World}

    -- The end of `main`, from the signatures on.
    unfoldable pub send_creation :
        Outcome (Unit {0}) String → NativeClient N → Exit × NativeClient N
    send_creation (err e) c = (failure, c)
    send_creation panic c = (panicked, c)
    send_creation (ok text) c =
        let (sent, c') = send_transaction J (native_transport N) text c in (exit_of sent, c')

    unfoldable pub after_blockhash :
        Keypair K S E
        → Keypair K S E
        → ℕ
        → Outcome RpcError (BlockhashInfo Hash)
        → NativeClient N
        → Exit × NativeClient N
    unfolding send_creation
    after_blockhash payer nonce_keypair lamports (err e) c = (failure, c)
    after_blockhash payer nonce_keypair lamports panic c = (panicked, c)
    after_blockhash payer nonce_keypair lamports (ok info) c =
        let message = creation_message payer nonce_keypair lamports info.blockhash in
        send_creation (sign_creation payer nonce_keypair message) c

    unfoldable pub after_rent :
        Keypair K S E → Keypair K S E → Outcome RpcError ℕ → NativeClient N → Exit × NativeClient N
    unfolding after_blockhash
    after_rent payer nonce_keypair (err e) c = (failure, c)
    after_rent payer nonce_keypair panic c = (panicked, c)
    after_rent payer nonce_keypair (ok lamports) c =
        let (info, c') = get_latest_blockhash J (native_transport N) D c in
        after_blockhash payer nonce_keypair lamports info c'

    -- `main` from the new client on.
    unfoldable pub create_on :
        Keypair K S E → Keypair K S E → NativeClient N → Exit × NativeClient N
    unfolding after_rent
    create_on payer nonce_keypair c =
        let (lamports, c') =
          get_minimum_balance_for_rent_exemption J (native_transport N) nonce_state_size c in
        after_rent payer nonce_keypair lamports c'

    unfoldable pub finish_nonce_run :
        World → Outcome (Unit {0}) (Keypair K S E × Keypair K S E × String) → Exit × World
    unfolding create_on
    finish_nonce_run w (err e) = (failure, w)
    finish_nonce_run w panic = (panicked, w)
    finish_nonce_run w (ok (payer, nonce_keypair, url)) =
        let (exit, c) = create_on payer nonce_keypair (new_client (new_native N url w)) in
        (exit, c.transport.world)

    -- `main`
    unfoldable pub create_durable_nonce_account : NonceHost → World → Exit × World
    unfolding finish_nonce_run
    create_durable_nonce_account host w = finish_nonce_run w (prepare_nonce host)
