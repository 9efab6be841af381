-- ===== src/Examples/NonceAccount/Trace.antt =====
-- Which requests a run that creates a nonce account posts, and when.
use svm_wasi_core.Base.{ℕ, String, ◌≡◌, ◌≢◌, List, [], ◌∷◌, ◌++◌, Outcome, ok}
use svm_wasi_core.Keys.{Keys}
use svm_wasi_core.Sign.{Signatures, Ed25519, Keypair}
use svm_wasi_core.Transaction.{MessageFormat, Envelope}
use svm_wasi_core.Message.{Compilers}
use svm_wasi_core.Rpc.Values.{Json, Codecs}
use svm_wasi_core.Rpc.Errors.{RpcError}
use svm_wasi_core.Rpc.Decode.{BlockhashInfo}
use svm_wasi_core.Rpc.{
  request, new_client, get_minimum_balance_for_rent_exemption, get_latest_blockhash,
  send_transaction, base64_encoding, commitment,
}
use svm_wasi_core.Http.{Http, NativeClient, new_native, native_transport}
use svm_wasi_core.Examples.{Exit, success, exit_of}
use svm_wasi_core.Examples.NonceAccount.Inputs.{Given}
use svm_wasi_core.Examples.NonceAccount.{NonceHost, NoncePrograms, creation_message, sign_creation}

module _ (K : Keys) (S : Signatures) (V : Envelope S.Signature String) {Hash AccountMeta : Type 0}
    (Legacy V0 : MessageFormat K.Key Hash) (C : Compilers Legacy V0 AccountMeta)
    (P : NoncePrograms K.Key AccountMeta) (E : Ed25519) (J : Json) (N : Http J.Value)
    (D : Codecs K.Key Hash) where
  open J use {Value, json_string, json_number, json_array, json_object}
  open N use {World, posted, posted-post}
  open P use {nonce_state_size}

  -- The three requests that a run may post, with the ids that a new client gives them.
  abbrev pub rent_request : Value
  rent_request =
      request J 1 "getMinimumBalanceForRentExemption"
        (json_array (json_number nonce_state_size ∷ []))

  abbrev pub blockhash_request : Value
  blockhash_request =
      request J 2 "getLatestBlockhash" (json_array (json_object (commitment J ∷ []) ∷ []))

  abbrev pub creation_request : String → Value
  creation_request text = request J 3 "sendTransaction" (
      json_array (
        json_string text
        ∷ json_object (base64_encoding J ∷ ("preflightCommitment", json_string "confirmed") ∷ [])
        ∷ []))

  -- The client of a run, after its first and after its second call; and what the calls came to.
  abbrev pub fetch_rent : String → World → Outcome RpcError ℕ × NativeClient N
  fetch_rent url w =
      get_minimum_balance_for_rent_exemption J (native_transport N) nonce_state_size
        (new_client (new_native N url w))

  abbrev pub fetch_blockhash :
      String → World → Outcome RpcError (BlockhashInfo Hash) × NativeClient N
  fetch_blockhash url w = get_latest_blockhash J (native_transport N) D (fetch_rent url w).1

  abbrev pub send_text : String → String → World → Outcome RpcError String × NativeClient N
  send_text text url w = send_transaction J (native_transport N) text (fetch_blockhash url w).1

  module _ (host : NonceHost) (w : World) where
    abbrev pub Ready : Keypair K S E → Keypair K S E → String → Type 0
    Ready = Given K S V Legacy V0 C P E host

    -- What a run posts, and its exit.
    pub data Trace : List (String × Value) → Exit → Type 0 where
      nothing_posted :
          (e : Exit)
          → e ≢ success
          → ((payer nonce_keypair : Keypair K S E) (url : String) → ¬ Ready payer nonce_keypair url)
          → Trace [] e
      without_rent :
          (payer nonce_keypair : Keypair K S E) (url : String) (e : Exit)
          → Ready payer nonce_keypair url
          → ((lamports : ℕ) → (fetch_rent url w).0 ≢ ok lamports)
          → e ≢ success
          → Trace ((url, rent_request) ∷ []) e
      not_sent :
          (payer nonce_keypair : Keypair K S E) (url : String) (lamports : ℕ) (e : Exit)
          → Ready payer nonce_keypair url
          → (fetch_rent url w).0 ≡ ok lamports
          → ((info : BlockhashInfo Hash) (text : String)
              → (fetch_blockhash url w).0 ≡ ok info
              → sign_creation K S V Legacy V0 C P E payer nonce_keypair (
                  creation_message K S V Legacy V0 C P E payer nonce_keypair lamports
                    info.blockhash)
                ≢ ok text)
          → e ≢ success
          → Trace ((url, rent_request) ∷ (url, blockhash_request) ∷ []) e
      sent :
          (payer nonce_keypair : Keypair K S E) (url text : String) (lamports : ℕ)
          (info : BlockhashInfo Hash)
          → Ready payer nonce_keypair url
          → (fetch_rent url w).0 ≡ ok lamports
          → (fetch_blockhash url w).0 ≡ ok info
          → sign_creation K S V Legacy V0 C P E payer nonce_keypair
              (creation_message K S V Legacy V0 C P E payer nonce_keypair lamports info.blockhash)
            ≡ ok text
          → Trace
              ((url, rent_request) ∷ (url, blockhash_request) ∷ (url, creation_request text) ∷ [])
              (exit_of (send_text text url w).0)

    -- The requests of a run, behind those of the world before it.
    abbrev pub Traced : Exit → World → Type 0
    Traced e w' =
        (events : List (String × Value)) × (posted w' ≡ posted w ++ events) × Trace events e
