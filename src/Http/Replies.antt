-- ===== src/Http/Replies.antt =====
-- What the two HTTP transports make of a response, and what they post.
use svm_wasi_core.Base.{
  Outcome-cases, arith, String, ◌≡◌, refl, ◌≤◌, ◌<◌, [], ◌∷◌, ◌++◌, Bool-cases, leb, ltb, ◌&&◌, inl,
  inr, Outcome, ok, err, panic, map_err,
}
use svm_wasi_core.Rpc.Errors.{RpcError}
use svm_wasi_core.Http.{Http, Endpoint, send_native, send_waki, read_native, read_waki}

module _ {Value : Type 0} (H : Http Value) where
  open H use {Response, post, status_code, read_json, posted, posted-post}

  -- What a transport answers, for what the post came to: the JSON of a response that it accepts,
  -- and for all else an error of the transport. It panics only when a package does.
  pub data Reply (Accepts : Response → Type 0)
      : Outcome String Response → Outcome RpcError Value → Type 0 where
    json :
        (r : Response) (value : Value)
        → Accepts r
        → read_json r ≡ ok value
        → Reply Accepts (ok r) (ok value)
    no_json :
        (r : Response) (text reason : String)
        → Accepts r
        → read_json r ≡ err text
        → Reply Accepts (ok r) (err (RpcError.transport reason))
    refused :
        (r : Response) (reason : String)
        → ¬ Accepts r
        → Reply Accepts (ok r) (err (RpcError.transport reason))
    no_response : (text : String) → Reply Accepts (err text) (err (RpcError.transport text))
    panic_sent : Reply Accepts panic panic
    panic_json : (r : Response) → read_json r ≡ panic → Reply Accepts (ok r) panic

  abbrev pub IsAny : Response → Type 0
  IsAny r = Unit

  abbrev pub IsSuccess : Response → Type 0
  IsSuccess r = (200 ≤ status_code r) × (status_code r < 300)

  json-Reply :
      (Accepts : Response → Type 0) (r : Response) (text : String → String)
      → Accepts r
      → Reply Accepts (ok r) (map_err (λ e. RpcError.transport (text e)) (read_json r))
  json-Reply Accepts r text a = elim (Outcome-cases (read_json r)) [
    | inl (value, e) ↦ rw e (json r value a e)
    | inr (inl (reason, e)) ↦ rw e (no_json r reason (text reason) a e)
    | inr (inr e) ↦ rw e (panic_json r e)
  ]

  read_native-Reply : (sent : Outcome String Response) → Reply IsAny sent (read_native H sent)
  unfolding read_native
  read_native-Reply (ok r) = json-Reply IsAny r _ tt
  read_native-Reply (err text) = no_response text
  read_native-Reply panic = panic_sent

  read_waki-Reply : (sent : Outcome String Response) → Reply IsSuccess sent (read_waki H sent)
  unfolding read_waki
  read_waki-Reply (ok r) = elim (Bool-cases (leb 200 (status_code r) && ltb (status_code r) 300)) [
    | inl e ↦ rw e (json-Reply IsSuccess r _ (ground arith))
    | inr e ↦ rw e (refused r _ (λ a. ground arith))
  ]
  read_waki-Reply (err text) = no_response text
  read_waki-Reply panic = panic_sent

  -- Both transports post the request once, to their URL, and keep the URL. What they answer is the
  -- JSON of the response, or an error of the transport: the wasi transport accepts the responses
  -- with a status from 200 to 299, and the native one those that its package gives it.
  pub send-Reply :
      (t : Endpoint H) (request : Value)
      → let sent = (post t.url request t.world).0 in
        let native = send_native H t request in
        let waki = send_waki H t request in
        Reply IsAny sent native.0
        × Reply IsSuccess sent waki.0
        × (posted native.1.world ≡ posted t.world ++ ((t.url, request) ∷ []))
        × (posted waki.1.world ≡ posted t.world ++ ((t.url, request) ∷ []))
        × (native.1.url ≡ t.url)
        × (waki.1.url ≡ t.url)
  unfolding send_native send_waki
  send-Reply t request = (
    read_native-Reply _,
    read_waki-Reply _,
    posted-post t.url request t.world,
    posted-post t.url request t.world,
    refl,
    refl,
  )
