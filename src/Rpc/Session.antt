-- ===== src/Rpc/Session.antt =====
-- A client over the mock transport: which responses its calls read, and which requests they send.
use svm_wasi_core.Base.{
  ℕ, String, ◌+◌, ◌%◌, ◌^◌, List, [], ◌∷◌, ◌++◌, length, drop, Outcome, err, ◌≡◌, refl, ap,
}
use mathlib.Core.List.{reverse, append_assoc, append-nil}
use svm_wasi_core.Base.Cuts.{drop-nil}
use svm_wasi_core.Rpc.Errors.{RpcError}
use svm_wasi_core.Rpc.Values.{Json}
use svm_wasi_core.Rpc.Mock.{send_mock-next, MockTransport, mock_transport, send_mock, new_mock, pop}
use svm_wasi_core.Rpc.{Client, request, envelope, call, new_client}

module _ (J : Json) where
  open J use {Value}

  abbrev pub MockClient : Type 0
  MockClient = Client (MockTransport Value)

  -- Calls made one after the other, as methods and their parameters.
  pub run_calls : List (String × Value) → MockClient → List (Outcome RpcError Value) × MockClient
  run_calls [] c = ([], c)
  run_calls ((method, params) ∷ calls) c =
      let (r, c') = call J mock_transport method params c in
      let (rs, c'') = run_calls calls c' in (r ∷ rs, c'')

  abbrev pub exhausted : Outcome RpcError Value
  exhausted = err (RpcError.transport "MockTransport: no more queued responses")

  -- The answers that calls should get from queued responses: each reads the next one.
  abbrev pub answers : List (String × Value) → List Value → List (Outcome RpcError Value)
  answers [] responses = []
  answers (c ∷ calls) [] = exhausted ∷ answers calls []
  answers (c ∷ calls) (r ∷ responses) = envelope J r ∷ answers calls responses

  -- The requests that calls should send from a client whose next id is `id`.
  abbrev pub requests : ℕ → List (String × Value) → List Value
  requests id [] = []
  requests id ((method, params) ∷ calls) =
      request J id method params ∷ requests ((id + 1) % 2 ^ 64) calls

  abbrev pub ids_after : ℕ → List (String × Value) → ℕ
  ids_after id [] = id
  ids_after id (c ∷ calls) = ids_after ((id + 1) % 2 ^ 64) calls

  abbrev at : List Value → List Value → ℕ → MockClient
  at responses received id = record {
    transport = record { responses = reverse responses; received = received };
    next_id = id;
  }

  call-empty :
      (log : List Value) (id : ℕ) (method : String) (params : Value)
      → call J mock_transport method params (at [] log id)
        ≡ (exhausted, at [] (log ++ (request J id method params ∷ [])) ((id + 1) % 2 ^ 64))
  unfolding call send_mock pop
  call-empty log id method params = refl

  call-next :
      (r : Value) (rs log : List Value) (id : ℕ) (method : String) (params : Value)
      → call J mock_transport method params (at (r ∷ rs) log id)
        ≡ (envelope J r, at rs (log ++ (request J id method params ∷ [])) ((id + 1) % 2 ^ 64))
  unfolding call
  call-next r rs log id method params = rw (send_mock-next r rs log)

  run_calls-at :
      (calls : List (String × Value)) (rs log : List Value) (id : ℕ)
      → run_calls calls (at rs log id) ≡ (
        answers calls rs,
        at (drop (length calls) rs) (log ++ requests id calls) (ids_after id calls),
      )
  unfolding run_calls
  run_calls-at [] rs log id = rw (append-nil log)
  run_calls-at ((method, params) ∷ calls) [] log id = rw (
    call-empty log id method params,
    run_calls-at calls [] (log ++ (request J id method params ∷ [])) ((id + 1) % 2 ^ 64),
    append_assoc log (request J id method params ∷ []) (requests ((id + 1) % 2 ^ 64) calls),
    drop-nil (length calls),
  )
  run_calls-at ((method, params) ∷ calls) (r ∷ rs) log id = rw (
    call-next r rs log id method params,
    run_calls-at calls rs (log ++ (request J id method params ∷ [])) ((id + 1) % 2 ^ 64),
    append_assoc log (request J id method params ∷ []) (requests ((id + 1) % 2 ^ 64) calls),
  )

  -- A new client over queued responses: its calls read the responses in the order in which they
  -- were queued, each as an envelope; calls beyond them get a transport error; and every call, that
  -- failed or not, is recorded once, in order, under the next id.
  pub run_calls-new_mock :
      (calls : List (String × Value)) (responses : List Value)
      → ((run_calls calls (new_client (new_mock responses))).0 ≡ answers calls responses)
        × ((run_calls calls (new_client (new_mock responses))).1.transport.received
            ≡ requests 1 calls)
  unfolding new_mock
  run_calls-new_mock calls responses = (
    ap (λ p. p.0) (run_calls-at calls responses [] 1),
    ap (λ p. p.1.transport.received) (run_calls-at calls responses [] 1),
  )
