-- ===== src/Rpc/Mock.antt =====
-- src/rpc/mock.rs: the transport that replays queued responses and records the requests. The two
-- mutexes guard one queue and one log, which are the fields here.
use svm_wasi_core.Base.{ok, Option, none, some, List, [], ◌∷◌, ◌++◌, map, Outcome, ok_or, ◌≡◌, refl}
use mathlib.Core.List.{reverse, reverse-cons}
use svm_wasi_core.Rpc.Errors.{RpcError}
use svm_wasi_core.Rpc.Values.{Json}
use svm_wasi_core.Rpc.{Transport}

-- `vec.pop()`: the last element, and the others.
unfoldable pub pop {ℓ} : {A : Type ℓ} → List A → Option (A × List A)
pop [] = none
pop (x ∷ []) = some (x, [])
pop (x ∷ (y ∷ ys)) = elim (pop (y ∷ ys)) [ none ↦ none | some (z, zs) ↦ some (z, x ∷ zs) ]

pub pop-append {ℓ} : {A : Type ℓ} (xs : List A) (x : A) → pop (xs ++ (x ∷ [])) ≡ some (x, xs)
unfolding pop
pop-append [] x = refl
pop-append (y ∷ []) x = refl
pop-append (y ∷ (z ∷ zs)) x = rw (pop-append (z ∷ zs) x)

pub record MockTransport (Value : Type 0) : Type 0 where
  pub responses : List Value
  pub received : List Value

module _ {Value : Type 0} where
  -- `MockTransport::new`
  unfoldable pub new_mock : List Value → MockTransport Value
  new_mock responses = record { responses = reverse responses; received = [] }

  -- `RpcTransport::send`
  unfoldable pub send_mock :
      MockTransport Value → Value → Outcome RpcError Value × MockTransport Value
  send_mock s request =
      let received = s.received ++ (request ∷ []) in
      elim (pop s.responses) [
        | none ↦ (
          ok_or none (RpcError.transport "MockTransport: no more queued responses"),
          record { responses = []; received = received },
        )
        | some (r, rest) ↦ (
          ok_or (some r) (RpcError.transport "MockTransport: no more queued responses"),
          record { responses = rest; received = received },
        )
      ]

  -- The queue is kept reversed, so that the next response is the last element.
  pub send_mock-next :
      (r : Value) (rs received : List Value) (request : Value)
      → send_mock (record { responses = reverse (r ∷ rs); received = received }) request
        ≡ (ok r, record { responses = reverse rs; received = received ++ (request ∷ []) })
  unfolding send_mock
  send_mock-next r rs received request =
      rw (reverse-cons r rs, pop-append (reverse rs) r, send_mock)

  abbrev pub mock_transport : Transport Value
  mock_transport = record { State = MockTransport Value; send = send_mock }

-- `MockTransport::ok`
unfoldable pub ok_mock : (J : Json) → List J.Value → MockTransport J.Value
unfolding new_mock
ok_mock J results = new_mock (map (λ r. J.json_object (("result", r) ∷ [])) results)
