-- ===== src/Rpc/Calls.antt =====
-- How `call` and `call_value` answer, on every response of the server.
use Prim.Native.String.{◌++◌ as ◌⊕◌}
use mathlib.Core.Option
use svm_wasi_core.Base.{
  refl, ◌>>=◌, ◌+◌, ◌%◌, ◌^◌, inl, inr, Option-cases, none, panic, err, ok, some, Option, Outcome,
  String, ◌≡◌,
}
use svm_wasi_core.Rpc.Errors.{RpcError}
use svm_wasi_core.Rpc.Values.{Json}
use svm_wasi_core.Rpc.Decode.{get_and}
use svm_wasi_core.Rpc.{
  pos, ℤ, read_with, call_value, envelope, request, value_of, Transport, Client, call,
}

-- A field, or the default where it is missing.
pub data Defaults {A : Type 0} (field : Option A) (default : A) : A → Type 0 where
  given : (a : A) → field ≡ some a → Defaults field default a
  missing : field ≡ none → Defaults field default default

get_or-Defaults :
    {A : Type 0} (field : Option A) (default : A)
    → Defaults field default (Option.get_or field default)
get_or-Defaults (some a) default = given a refl
get_or-Defaults none default = missing refl

module _ (J : Json) where
  open J use {Value, get, as_i64, as_str}

  -- What `call` answers, of what the transport gave.
  pub data Answer (sent : Outcome RpcError Value) : Outcome RpcError Value → Type 0 where
    unsent : (e : RpcError) → sent ≡ err e → Answer sent (err e)
    panicked : sent ≡ panic → Answer sent panic
    server_error :
        (response error : Value) (code : ℤ) (message : String)
        → sent ≡ ok response
        → get response "error" ≡ some error
        → Defaults (get_and J error "code" as_i64) (pos 0) code
        → Defaults (get_and J error "message" as_str) "unknown RPC error" message
        → Answer sent (err (RpcError.rpc code message))
    no_result :
        (response : Value)
        → sent ≡ ok response
        → get response "error" ≡ none
        → get response "result" ≡ none
        → Answer sent (err (RpcError.decode "response has neither `result` nor `error`"))
    result :
        (response value : Value)
        → sent ≡ ok response
        → get response "error" ≡ none
        → get response "result" ≡ some value
        → Answer sent (ok value)

  -- What `call_value` answers, of what `call` answered.
  pub data Valued (method : String) (called : Outcome RpcError Value)
      : Outcome RpcError Value → Type 0 where
    failed : (e : RpcError) → called ≡ err e → Valued method called (err e)
    panics : called ≡ panic → Valued method called panic
    no_value :
        (value : Value)
        → called ≡ ok value
        → get value "value" ≡ none
        → Valued method called (err (RpcError.decode ("`" ⊕ method ⊕ "` result missing `value`")))
    valued :
        (value inner : Value)
        → called ≡ ok value
        → get value "value" ≡ some inner
        → Valued method called (ok inner)

  envelope-Answer : (response : Value) → Answer (ok response) (envelope J response)
  unfolding envelope
  envelope-Answer response = elim (Option-cases (get response "error")) [
    | inr (error, e) ↦
        rw (e, envelope)
          (server_error response error _ _ refl e (get_or-Defaults _ (pos 0))
            (get_or-Defaults _ "unknown RPC error"))
    | inl e ↦ elim (Option-cases (get response "result")) [
      | inl f ↦ rw (e, f, envelope) (no_result response refl e f)
      | inr (value, f) ↦ rw (e, f, envelope) (result response value refl e f)
    ]
  ]

  sent-Answer : (sent : Outcome RpcError Value) → Answer sent (sent >>= envelope J)
  sent-Answer (ok response) = envelope-Answer response
  sent-Answer (err e) = unsent e refl
  sent-Answer panic = panicked refl

  called-Valued :
      (method : String) (called : Outcome RpcError Value)
      → Valued method called (called >>= value_of J method)
  unfolding value_of
  called-Valued method (err e) = failed e refl
  called-Valued method panic = panics refl
  called-Valued method (ok value) = elim (Option-cases (get value "value")) [
    | inl e ↦ rw e (no_value value refl e)
    | inr (inner, e) ↦ rw e (valued value inner refl e)
  ]

  module _ (T : Transport Value) (method : String) (params : Value) (c : Client T.State) where
    -- What the transport gives for the request of the call, and the client that is left.
    abbrev sent : Outcome RpcError Value
    sent = (T.send c.transport (request J c.next_id method params)).0

    abbrev left : Client T.State
    left = record {
      transport = (T.send c.transport (request J c.next_id method params)).1;
      next_id = (c.next_id + 1) % 2 ^ 64;
    }

    -- `call` sends one request, with the client's counter as its id, and the counter goes on by one
    -- and wraps at 2^64. It fails as the transport fails; it answers a response that has the field
    -- `error`, whatever else it has, by an RPC error with the code and the message in it, or 0 and
    -- "unknown RPC error" for those that are missing; and it refuses a response that has neither
    -- `error` nor `result`. Any other gives the result. `call_value` fails as `call` fails, refuses
    -- a result without `value`, naming the method, and else gives that value; it leaves the same
    -- client.
    pub call-Answer :
        Answer sent (call J T method params c).0
        × Valued method (call J T method params c).0 (call_value J T method params c).0
        × ((call J T method params c).1 ≡ left)
        × ((call_value J T method params c).1 ≡ left)
    unfolding call call_value read_with
    call-Answer = (sent-Answer sent, called-Valued method (sent >>= envelope J), refl, refl)
