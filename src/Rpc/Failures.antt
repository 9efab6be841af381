-- ===== src/Rpc/Failures.antt =====
-- What the methods of the client return when no request gets a result.
use svm_wasi_core.Base.{ℕ, String, ◌≡◌, Option, List, err, ◌>>=◌}
use svm_wasi_core.Rpc.Errors.{RpcError}
use svm_wasi_core.Rpc.Values.{Json, Codecs}
use svm_wasi_core.Rpc.{
  Transport, Client, request, envelope, call, call_value, read_with, simulate_transaction,
  send_transaction, get_signature_statuses, get_minimum_balance_for_rent_exemption,
  get_latest_blockhash, get_balance, get_account_info, get_multiple_accounts,
  get_token_account_balance, get_token_accounts_by_owner, get_signatures_for_address,
}

module _ (J : Json) {Key Hash : Type 0} (C : Codecs Key Hash) where
  open J use {Value}

  module _ (T : Transport Value) (c : Client T.State) where
    -- No request gets a result: the transport fails, or the server answers with an error, or with
    -- neither a result nor an error. In each case the client has the error `e`.
    abbrev pub NoResult : RpcError → Type 0
    NoResult e = (q : Value) → ((T.send c.transport q).0 >>= envelope J) ≡ err e

    call-fails :
        (e : RpcError) (method : String) (params : Value)
        → NoResult e
        → (call J T method params c).0 ≡ err e
    unfolding call
    call-fails e method params h = h (request J c.next_id method params)

    call_value-fails :
        (e : RpcError) (method : String) (params : Value)
        → NoResult e
        → (call_value J T method params c).0 ≡ err e
    unfolding call_value
    call_value-fails e method params h = rw (call-fails e method params h)

    -- When no request gets a result, every method of the client fails with the error at hand.
    pub methods-NoResult :
        (e : RpcError) (k mint : Key) (ks : List Key) (text : String) (texts : List String)
        (until : Option String) (n : ℕ)
        → NoResult e
        → ((get_latest_blockhash J T C c).0 ≡ err e)
          × ((get_balance J T C k c).0 ≡ err e)
          × ((get_account_info J T C k c).0 ≡ err e)
          × ((get_multiple_accounts J T C ks c).0 ≡ err e)
          × ((get_token_account_balance J T C k c).0 ≡ err e)
          × ((get_token_accounts_by_owner J T C k mint c).0 ≡ err e)
          × ((simulate_transaction J T text c).0 ≡ err e)
          × ((send_transaction J T text c).0 ≡ err e)
          × ((get_signature_statuses J T texts c).0 ≡ err e)
          × ((get_signatures_for_address J T C k until c).0 ≡ err e)
          × ((get_minimum_balance_for_rent_exemption J T n c).0 ≡ err e)
    unfolding get_latest_blockhash get_balance get_account_info get_multiple_accounts
        get_token_account_balance get_token_accounts_by_owner simulate_transaction send_transaction
        get_signature_statuses get_signatures_for_address get_minimum_balance_for_rent_exemption
        read_with
    methods-NoResult e k mint ks text texts until n h =
        let value_fails : (method : String) (params : Value)
            → (call_value J T method params c).0 ≡ err e =
          (λ method params. call_value-fails e method params h) in
        let fails : (method : String) (params : Value) → (call J T method params c).0 ≡ err e =
          (λ method params. call-fails e method params h) in
        (
          rw value_fails,
          rw value_fails,
          rw value_fails,
          rw value_fails,
          rw value_fails,
          rw value_fails,
          rw value_fails,
          rw fails,
          rw value_fails,
          rw fails,
          rw fails,
        )
