-- ===== src/Examples/Sweep/Trace.antt =====
-- Which requests a run of the sweep posts, and when.
use mathlib.Core.List.{append_assoc, append-nil}
use svm_wasi_core.Base.{
  String, ◌≡◌, ◌≢◌, refl, ap, sym, ◌∙◌, >>=-eq-ok, map_err-ok, true, false, Bool-cases,
  Option-cases, inl, inr, none, List, [], ◌∷◌, ◌++◌, Outcome, ok, err, panic,
}
use svm_wasi_core.Keys.{Keys}
use svm_wasi_core.Texts.{trim, string_eq}
use svm_wasi_core.Sign.{Signatures, Ed25519}
use svm_wasi_core.Stealth.Curves.{Curve, Hazmat}
use svm_wasi_core.Transaction.{MessageFormat, Envelope}
use svm_wasi_core.Rpc.Values.{Json}
use svm_wasi_core.Rpc.Errors.{RpcError}
use svm_wasi_core.Rpc.Decode.{SimulateTransactionResult}
use svm_wasi_core.Rpc.{
  request, call, call_value, new_client, simulate_transaction, send_transaction, base64_encoding,
  commitment,
}
use svm_wasi_core.Http.{NativeClient, Http, new_native, native_transport, send_native}
use svm_wasi_core.Examples.{or_fail, exit_of, Exit, success, failure, panicked}
use svm_wasi_core.Examples.Sweep.{
  to_base64, sign_sweep, parse_sweep_args, SweepArgs, SweepHost, confirm_and_send, after_simulation,
  broadcast, prepare_sweep, finish_sweep_run, sweep,
}

module _ (J : Json) (N : Http J.Value) where
  open J use {Value, json_string, json_bool, json_array, json_object}
  open N use {World, posted, posted-post}

  -- The two requests that a run may post, with the ids that a new client gives them.
  abbrev pub simulate_request : String → Value
  simulate_request text = request J 1 "simulateTransaction" (
      json_array (
        json_string text
        ∷ json_object (base64_encoding J ∷ commitment J ∷ ("sigVerify", json_bool false) ∷ [])
        ∷ []))

  abbrev pub send_request : String → Value
  send_request text = request J 2 "sendTransaction" (
      json_array (
        json_string text
        ∷ json_object (base64_encoding J ∷ ("preflightCommitment", json_string "confirmed") ∷ [])
        ∷ []))

  -- The client that a run makes, and what its simulation comes to.
  abbrev pub first_client : String → World → NativeClient N
  first_client url w = new_client (new_native N url w)

  abbrev pub simulation :
      String → String → World → Outcome RpcError (SimulateTransactionResult Value)
  simulation text url w = (simulate_transaction J (native_transport N) text (first_client url w)).0

  simulate-posted :
      (text url : String) (w : World)
      → posted
          (simulate_transaction J (native_transport N) text (first_client url w)).1.transport.world
        ≡ posted w ++ ((url, simulate_request text) ∷ [])
  unfolding simulate_transaction call_value call send_native new_native
  simulate-posted text url w = posted-post url (simulate_request text) w

  send-posted :
      (text url : String) (w : World)
      → posted
          (send_transaction J
            (native_transport N)
            text
            (simulate_transaction J
              (native_transport N)
              text
              (first_client url w)).1).1.transport.world
        ≡ posted w ++ ((url, simulate_request text) ∷ (url, send_request text) ∷ [])
  unfolding send_transaction simulate_transaction call_value call send_native new_native
  send-posted text url w =
      posted-post url (send_request text) _
      ∙ (ap (λ l. l ++ ((url, send_request text) ∷ [])) (posted-post url (simulate_request text) w)
          ∙ append_assoc (posted w) _ _)

  module _ (K : Keys) (C : Curve) (S : Signatures) (H : Hazmat C) (V : Envelope S.Signature String)
      {Hash : Type 0} (M : MessageFormat K.Key Hash) (E : Ed25519)
      (key_from_str : String → Outcome String K.Key) (host : SweepHost) (w : World) where
    -- The run has the text to send, and the URL is that of its arguments.
    pub record Prepared (text url : String) : Type 0 where
      pub prepared : prepare_sweep J N K C S H V M E key_from_str host ≡ ok (text, url)
      pub args : SweepArgs K.Key
      pub parsed : parse_sweep_args key_from_str host.args ≡ ok args
      pub named : args.rpc_url ≡ url

    prepare_sweep-Prepared :
        (text url : String)
        → prepare_sweep J N K C S H V M E key_from_str host ≡ ok (text, url)
        → Prepared text url
    unfolding prepare_sweep
    prepare_sweep-Prepared text url h =
        let (args, a, rest) = >>=-eq-ok (or_fail (parse_sweep_args key_from_str host.args)) _ h in
        let (tx, b, rest') = >>=-eq-ok (sign_sweep K C S H V M E host args) _ rest in
        let (written, c, done) = >>=-eq-ok (or_fail (to_base64 S V K M tx)) _ rest' in
        record {
          prepared = h;
          args = args;
          parsed = map_err-ok _ (parse_sweep_args key_from_str host.args) a;
          named = cc;
        }

    -- What a run posts, and its exit.
    pub data Trace : List (String × Value) → Exit → Type 0 where
      nothing_posted : (e : Exit) → e ≢ success → Trace [] e
      only_simulated :
          (text url : String) (e : Exit)
          → Prepared text url
          → e ≢ success
          → Trace ((url, simulate_request text) ∷ []) e
      declined :
          (text url line : String)
          → Prepared text url
          → host.confirmation ≡ ok line
          → string_eq (trim line) "yes" ≡ false
          → Trace ((url, simulate_request text) ∷ []) success
      broadcasted :
          (text url line : String) (sim : SimulateTransactionResult Value)
          → Prepared text url
          → simulation text url w ≡ ok sim
          → sim.error ≡ none
          → host.confirmation ≡ ok line
          → string_eq (trim line) "yes" ≡ true
          → Trace ((url, simulate_request text) ∷ (url, send_request text) ∷ []) (
              exit_of
                (send_transaction J
                  (native_transport N)
                  text
                  (simulate_transaction J (native_transport N) text (first_client url w)).1).0)

    -- The requests of a run, behind those of the world before it.
    abbrev pub Traced : Exit → World → Type 0
    Traced e w' =
        (events : List (String × Value)) × (posted w' ≡ posted w ++ events) × Trace events e

    confirm-Traced :
        (text url : String) (sim : SimulateTransactionResult Value)
        (confirmation : Outcome String String)
        → Prepared text url
        → simulation text url w ≡ ok sim
        → sim.error ≡ none
        → host.confirmation ≡ confirmation
        → let (e, c) =
            confirm_and_send J N confirmation text
              (simulate_transaction J (native_transport N) text (first_client url w)).1 in
          Traced e c.transport.world
    unfolding confirm_and_send
    confirm-Traced text url sim (err x) p s n h =
        (_, simulate-posted text url w, only_simulated text url failure p (λ q. cc))
    confirm-Traced text url sim panic p s n h =
        (_, simulate-posted text url w, only_simulated text url panicked p (λ q. cc))
    confirm-Traced text url sim (ok line) p s n h =
        elim (Bool-cases (string_eq (trim line) "yes")) [
          | inl y ↦ rw y (_, send-posted text url w, broadcasted text url line sim p s n h y)
          | inr y ↦ rw y (_, simulate-posted text url w, declined text url line p h y)
        ]

    after-Traced :
        (text url : String) (r : Outcome RpcError (SimulateTransactionResult Value))
        → Prepared text url
        → simulation text url w ≡ r
        → let (e, c) =
            after_simulation J N host.confirmation text r
              (simulate_transaction J (native_transport N) text (first_client url w)).1 in
          Traced e c.transport.world
    unfolding after_simulation
    after-Traced text url (err x) p s =
        (_, simulate-posted text url w, only_simulated text url failure p (λ q. cc))
    after-Traced text url panic p s =
        (_, simulate-posted text url w, only_simulated text url panicked p (λ q. cc))
    after-Traced text url (ok sim) p s = elim (Option-cases sim.error) [
      | inl n ↦ rw n (confirm-Traced text url sim host.confirmation p s n refl)
      | inr (x, n) ↦
          rw n (_, simulate-posted text url w, only_simulated text url failure p (λ q. cc))
    ]

    finish-Traced :
        (r : Outcome (Unit {0}) (String × String))
        → prepare_sweep J N K C S H V M E key_from_str host ≡ r
        → let (e, w') = finish_sweep_run J N K C S H V M E key_from_str host w r in Traced e w'
    unfolding finish_sweep_run broadcast
    finish-Traced (err x) p = ([], sym (append-nil (posted w)), nothing_posted failure (λ q. cc))
    finish-Traced panic p = ([], sym (append-nil (posted w)), nothing_posted panicked (λ q. cc))
    finish-Traced (ok (text, url)) p =
        after-Traced text url _ (prepare_sweep-Prepared text url p) refl

    -- A run of the sweep posts nothing but, in this order and to the URL of its arguments, the
    -- simulation of the prepared transaction and the broadcast of the same. It broadcasts only when
    -- the simulation came back without an error and the operator typed `yes`, and its exit is then
    -- that of the broadcast. Without the broadcast it exits with success only when the operator
    -- declined after the simulation.
    pub sweep-Trace : let (e, w') = sweep J N K C S H V M E key_from_str host w in Traced e w'
    unfolding sweep
    sweep-Trace = finish-Traced _ refl
