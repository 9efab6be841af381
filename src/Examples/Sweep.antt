-- ===== src/Examples/Sweep.antt =====
-- examples/sign_and_broadcast_sweep.rs: signs a sweep with a recovered stealth key and with the
-- nonce authority's key, simulates it, and broadcasts it once the operator confirms.
pub mod Trace
pub mod CoSigned
pub mod Recovered
pub mod Prepared
use svm_wasi_core.Base.{
  ℕ, String, Bool, true, false, Option, none, some, List, [], ◌∷◌, Outcome, ok, err, panic, ◌>>=◌,
  if◌then◌else◌,
}
use svm_wasi_core.Keys.{Keys}
use svm_wasi_core.Texts.{trim, string_eq}
use svm_wasi_core.Sign.{Signatures, Ed25519, Keypair}
use svm_wasi_core.Stealth.Curves.{Curve, Hazmat}
use svm_wasi_core.Stealth.{
  to_pubkey, scalar_from_hex, recover_one_time_privkey, sign_with_recovered_key,
}
use svm_wasi_core.Transaction.{
  MessageFormat, Envelope, Transaction, message_bytes, insert_signature, try_sign_versioned,
  try_from_base64, to_base64,
}
use svm_wasi_core.Rpc.Values.{Json}
use svm_wasi_core.Rpc.Errors.{RpcError}
use svm_wasi_core.Rpc.Decode.{SimulateTransactionResult}
use svm_wasi_core.Rpc.{Client, Call, new_client, simulate_transaction, send_transaction}
use svm_wasi_core.Http.{NativeClient, Http, Endpoint, new_native, native_transport}
use svm_wasi_core.Examples.Arguments.{SweepArgs, parse_sweep_args}
use svm_wasi_core.Examples.{
  exit_of, Exit, success, failure, panicked, Files, load_keypair_file, or_fail,
}

-- What the run reads: its arguments, the two hidden prompts, the files, and the line that the
-- operator types to confirm; `hash_prefix` is drawn when it signs.
pub record SweepHost : Type 0 where
  pub args : List String
  pub scan_privkey : Outcome String String
  pub spend_privkey : Outcome String String
  pub files : Files
  pub confirmation : Outcome String String
  pub hash_prefix : List ℕ

module _ (K : Keys) (C : Curve) (S : Signatures) (H : Hazmat C) (V : Envelope S.Signature String)
    {Hash : Type 0} (M : MessageFormat K.Key Hash) (E : Ed25519) where
  open C use {base, scale}

  abbrev pub SweepTx : Type 0
  SweepTx = Transaction S.Signature M.Message

  -- The recovered key's part: `insert_signature` of its signature over the message bytes.
  unfoldable pub add_one_time_signature : List ℕ → C.Scalar → SweepTx → Outcome (Unit {0}) SweepTx
  add_one_time_signature hash_prefix t tx = do
    let one_time_pubkey = to_pubkey K C (scale t base)
    bytes ← message_bytes S V K M tx
    signature ← or_fail (sign_with_recovered_key K C S H hash_prefix t bytes)
    or_fail (insert_signature S V K M E one_time_pubkey signature tx)

  -- The two prompts, and the one-time key that they open.
  unfoldable pub recovered_key : SweepHost → SweepArgs K.Key → Outcome (Unit {0}) C.Scalar
  recovered_key host args = do
    scan_privkey_hex ← or_fail host.scan_privkey
    spend_privkey_hex ← or_fail host.spend_privkey
    scan_priv ← or_fail (scalar_from_hex K C (trim scan_privkey_hex))
    spend_priv ← or_fail (scalar_from_hex K C (trim spend_privkey_hex))
    or_fail (recover_one_time_privkey K C scan_priv args.ephemeral_pubkey spend_priv)

  -- `main` from the prompts up to the signed transaction.
  unfoldable pub sign_sweep : SweepHost → SweepArgs K.Key → Outcome (Unit {0}) SweepTx
  sign_sweep host args = do
    t ← recovered_key host args
    tx ← or_fail (try_from_base64 S V K M args.transaction_base64)
    tx ← add_one_time_signature host.hash_prefix t tx
    nonce_authority ← or_fail (load_keypair_file K S E host.files args.nonce_authority_keypair_path)
    or_fail (try_sign_versioned S V K M E nonce_authority tx)

module _ (J : Json) (N : Http J.Value) where
  open N use {World}

  -- The broadcast, behind the operator's line.
  unfoldable pub confirm_and_send :
      Outcome String String → String → NativeClient N → Exit × NativeClient N
  confirm_and_send (err e) transaction c = (failure, c)
  confirm_and_send panic transaction c = (panicked, c)
  confirm_and_send (ok line) transaction c =
      let (sent, c') = send_transaction J (native_transport N) transaction c in
      if string_eq (trim line) "yes" then (exit_of sent, c') else (success, c)

  -- What follows the simulation.
  unfoldable pub after_simulation :
      Outcome String String
      → String
      → Outcome RpcError (SimulateTransactionResult J.Value)
      → NativeClient N
      → Exit × NativeClient N
  unfolding confirm_and_send
  after_simulation confirmation transaction (err e) c = (failure, c)
  after_simulation confirmation transaction panic c = (panicked, c)
  after_simulation confirmation transaction (ok sim) c = elim sim.error [
    | some e ↦ (failure, c)
    | none ↦ confirm_and_send confirmation transaction c
  ]

  -- `main` from the new client on.
  unfoldable pub broadcast : Outcome String String → String → NativeClient N → Exit × NativeClient N
  unfolding after_simulation
  broadcast confirmation transaction c =
      let (sim, c') = simulate_transaction J (native_transport N) transaction c in
      after_simulation confirmation transaction sim c'

  module _ (K : Keys) (C : Curve) (S : Signatures) (H : Hazmat C) (V : Envelope S.Signature String)
      {Hash : Type 0} (M : MessageFormat K.Key Hash) (E : Ed25519)
      (key_from_str : String → Outcome String K.Key) where
    -- What is signed, as text, and the URL that it goes to.
    unfoldable pub prepare_sweep : SweepHost → Outcome (Unit {0}) (String × String)
    prepare_sweep host = do
      args ← or_fail (parse_sweep_args key_from_str host.args)
      tx ← sign_sweep K C S H V M E host args
      text ← or_fail (to_base64 S V K M tx)
      ok (text, args.rpc_url)

    unfoldable pub finish_sweep_run :
        SweepHost → World → Outcome (Unit {0}) (String × String) → Exit × World
    unfolding broadcast
    finish_sweep_run host w (err e) = (failure, w)
    finish_sweep_run host w panic = (panicked, w)
    finish_sweep_run host w (ok (text, url)) =
        let (exit, c) = broadcast host.confirmation text (new_client (new_native N url w)) in
        (exit, c.transport.world)

    -- `main`
    unfoldable pub sweep : SweepHost → World → Exit × World
    unfolding finish_sweep_run
    sweep host w = finish_sweep_run host w (prepare_sweep host)
