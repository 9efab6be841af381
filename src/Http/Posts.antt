-- ===== src/Http/Posts.antt =====
-- The RPC client over an HTTP transport: which requests its methods post.
use svm_wasi_core.Base.{ℕ, String, ◌≡◌, refl, ◌+◌, ◌%◌, ◌^◌, Option, List, [], ◌∷◌, ◌++◌, Outcome}
use svm_wasi_core.Rpc.Values.{Json, Codecs}
use svm_wasi_core.Rpc.Errors.{RpcError}
use svm_wasi_core.Rpc.{
  Transport, request, call, call_value, read_with, get_latest_blockhash, get_balance,
  get_account_info, get_multiple_accounts, get_token_account_balance, get_token_accounts_by_owner,
  simulate_transaction, send_transaction, get_signature_statuses, get_signatures_for_address,
  get_minimum_balance_for_rent_exemption,
}
use svm_wasi_core.Http.{Http, Endpoint, NativeClient, send_native, send_waki}

module _ (J : Json) (N : Http J.Value) where
  open J use {Value}
  open N use {posted, posted-post}

  -- A client posted one request: to its URL, under its next id, for `method`.
  pub record PostsOne (method : String) (c c' : NativeClient N) : Type 0 where
    pub params : Value
    pub post :
        posted c'.transport.world
        ≡ posted c.transport.world ++ ((c.transport.url, request J c.next_id method params) ∷ [])
    pub url : c'.transport.url ≡ c.transport.url
    pub next : c'.next_id ≡ (c.next_id + 1) % 2 ^ 64

  -- A transport over an endpoint.
  abbrev pub over : (Endpoint N → Value → Outcome RpcError Value × Endpoint N) → Transport Value
  over send = record { State = Endpoint N; send = send }

  -- Sending posts the request once, to the URL of the endpoint, which stays.
  abbrev pub SendsOnce : (Endpoint N → Value → Outcome RpcError Value × Endpoint N) → Type 0
  SendsOnce send =
      (t : Endpoint N) (q : Value)
      → (posted (send t q).1.world ≡ posted t.world ++ ((t.url, q) ∷ []))
        × ((send t q).1.url ≡ t.url)

  pub send_native-SendsOnce : SendsOnce (send_native N)
  unfolding send_native
  send_native-SendsOnce t q = (posted-post t.url q t.world, refl)

  pub send_waki-SendsOnce : SendsOnce (send_waki N)
  unfolding send_waki
  send_waki-SendsOnce t q = (posted-post t.url q t.world, refl)

  module _ (send : Endpoint N → Value → Outcome RpcError Value × Endpoint N)
      (once : SendsOnce send) where
    call-PostsOne :
        (method : String) (params : Value) (c : NativeClient N)
        → PostsOne method c (call J (over send) method params c).1
    unfolding call
    call-PostsOne method params c =
        let (sent, same) = once c.transport (request J c.next_id method params) in
        record { params = params; post = sent; url = same; next = refl }

    call_value-PostsOne :
        (method : String) (params : Value) (c : NativeClient N)
        → PostsOne method c (call_value J (over send) method params c).1
    unfolding call_value read_with
    call_value-PostsOne method params c = call-PostsOne method params c

  module _ {Key Hash : Type 0} (C : Codecs Key Hash) where
    -- Each of the client's eleven methods over `send`, with the JSON-RPC method that it calls.
    abbrev pub EachPostsOne :
        (Endpoint N → Value → Outcome RpcError Value × Endpoint N)
        → NativeClient N
        → Key
        → Key
        → List Key
        → String
        → List String
        → Option String
        → ℕ
        → Type 0
    EachPostsOne send c k mint ks text texts until n =
        let T = over send in
        PostsOne "getLatestBlockhash" c (get_latest_blockhash J T C c).1
        × PostsOne "getBalance" c (get_balance J T C k c).1
        × PostsOne "getAccountInfo" c (get_account_info J T C k c).1
        × PostsOne "getMultipleAccounts" c (get_multiple_accounts J T C ks c).1
        × PostsOne "getTokenAccountBalance" c (get_token_account_balance J T C k c).1
        × PostsOne "getTokenAccountsByOwner" c (get_token_accounts_by_owner J T C k mint c).1
        × PostsOne "simulateTransaction" c (simulate_transaction J T text c).1
        × PostsOne "sendTransaction" c (send_transaction J T text c).1
        × PostsOne "getSignatureStatuses" c (get_signature_statuses J T texts c).1
        × PostsOne "getSignaturesForAddress" c (get_signatures_for_address J T C k until c).1
        × PostsOne "getMinimumBalanceForRentExemption" c
            (get_minimum_balance_for_rent_exemption J T n c).1

    each-PostsOne :
        (send : Endpoint N → Value → Outcome RpcError Value × Endpoint N) (c : NativeClient N)
        (k mint : Key) (ks : List Key) (text : String) (texts : List String) (until : Option String)
        (n : ℕ)
        → SendsOnce send
        → EachPostsOne send c k mint ks text texts until n
    unfolding get_latest_blockhash get_balance get_account_info get_multiple_accounts
        get_token_account_balance get_token_accounts_by_owner simulate_transaction send_transaction
        get_signature_statuses get_signatures_for_address get_minimum_balance_for_rent_exemption
        read_with
    each-PostsOne send c k mint ks text texts until n once = (
      call_value-PostsOne send once _ _ c,
      call_value-PostsOne send once _ _ c,
      call_value-PostsOne send once _ _ c,
      call_value-PostsOne send once _ _ c,
      call_value-PostsOne send once _ _ c,
      call_value-PostsOne send once _ _ c,
      call_value-PostsOne send once _ _ c,
      call-PostsOne send once _ _ c,
      call_value-PostsOne send once _ _ c,
      call-PostsOne send once _ _ c,
      call-PostsOne send once _ _ c,
    )

    -- Over each of the two HTTP transports, a method of the client posts exactly one request,
    -- whatever comes back: for its JSON-RPC method, to the transport's URL, which stays, and under
    -- the client's next id, which goes up by one and starts over after 2^64 - 1.
    pub methods-PostsOne :
        (c : NativeClient N) (k mint : Key) (ks : List Key) (text : String) (texts : List String)
        (until : Option String) (n : ℕ)
        → EachPostsOne (send_native N) c k mint ks text texts until n
          × EachPostsOne (send_waki N) c k mint ks text texts until n
    methods-PostsOne c k mint ks text texts until n = (
      each-PostsOne (send_native N) c k mint ks text texts until n send_native-SendsOnce,
      each-PostsOne (send_waki N) c k mint ks text texts until n send_waki-SendsOnce,
    )
