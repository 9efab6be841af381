-- ===== src/Http.antt =====
-- src/rpc/native_transport.rs and src/rpc/waki_transport.rs: the two transports over HTTP.
-- The outside world is a state that each request passes on.
pub mod Replies
pub mod Posts
use Prim.Native.String.{◌++◌ as ◌⊕◌}
use svm_wasi_core.Base.{
  ℕ, String, ◌≡◌, Bool, not, ◌&&◌, List, [], ◌∷◌, ◌++◌, Outcome, ok, err, ◌>>=◌, ◌>>◌, fail_if,
  map_err, leb, ltb,
}
use svm_wasi_core.Texts.{show_number}
use svm_wasi_core.Rpc.Errors.{RpcError}
use svm_wasi_core.Rpc.{Transport, Client}

-- A blocking HTTP client, as the packages ureq and waki offer one: it posts JSON to a URL and has a
-- response, whose status and JSON can be read. An error is its text.
pub record Http (Value : Type 0) : Type 1 where
  pub World : Type 0
  pub Response : Type 0
  -- `ureq::post(url).send_json(request)`, and `Client::new().post(url).json(request).send()`
  pub post : String → Value → World → Outcome String Response × World
  -- `response.status_code()`
  pub status_code : Response → ℕ
  -- `body_mut().read_json::<Value>()`, and `response.json::<Value>()`
  pub read_json : Response → Outcome String Value
  -- What was posted so far, and where.
  pub posted : World → List (String × Value)
  pub posted-post :
      (url : String) (request : Value) (w : World)
      → posted ((post url request w).1) ≡ posted w ++ ((url, request) ∷ [])

module _ {Value : Type 0} (H : Http Value) where
  open H use {World, Response, post, status_code, read_json}

  -- `NativeHttpTransport` and `WakiTransport`, with the world that they act on.
  pub record Endpoint : Type 0 where
    pub url : String
    pub world : World

  -- `NativeHttpTransport::new`
  unfoldable pub new_native : String → World → Endpoint
  new_native url w = record { url = url; world = w }

  -- `WakiTransport::new`
  unfoldable pub new_waki : String → World → Endpoint
  new_waki url w = record { url = url; world = w }

  unfoldable pub read_native : Outcome String Response → Outcome RpcError Value
  read_native sent = do
    response ← map_err RpcError.transport sent
    map_err (λ e. RpcError.transport ("invalid JSON response: " ⊕ e)) (read_json response)

  unfoldable pub read_waki : Outcome String Response → Outcome RpcError Value
  read_waki sent = do
    response ← map_err RpcError.transport sent
    let status = status_code response
    fail_if (not (leb 200 status && ltb status 300))
        (RpcError.transport ("HTTP " ⊕ show_number status ⊕ " from RPC endpoint"))
    map_err (λ e. RpcError.transport ("invalid JSON response: " ⊕ e)) (read_json response)

  -- `NativeHttpTransport::send`
  unfoldable pub send_native : Endpoint → Value → Outcome RpcError Value × Endpoint
  unfolding read_native
  send_native t request =
      let (sent, w) = post t.url request t.world in (read_native sent, record t { world = w })

  -- `WakiTransport::send`
  unfoldable pub send_waki : Endpoint → Value → Outcome RpcError Value × Endpoint
  unfolding read_waki
  send_waki t request =
      let (sent, w) = post t.url request t.world in (read_waki sent, record t { world = w })

  abbrev pub native_transport : Transport Value
  native_transport = record { State = Endpoint; send = send_native }

  abbrev pub waki_transport : Transport Value
  waki_transport = record { State = Endpoint; send = send_waki }

  -- A client of the native transport.
  abbrev pub NativeClient : Type 0
  NativeClient = Client Endpoint
