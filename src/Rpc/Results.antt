-- ===== src/Rpc/Results.antt =====
-- What `get_multiple_accounts` returns.
use svm_wasi_core.Base.{
  ◌↔◌, Bool-cases, refl, inl, inr, map, String, ◌≡◌, true, false, Option, none, some, List, [], ◌∷◌,
  Outcome, ok, >>=-eq-ok,
}
use svm_wasi_core.Rpc.Described.{
  Describes, decode_account_info_described, Describes-decode_account_info,
}
use svm_wasi_core.Rpc.Errors.{RpcError}
use svm_wasi_core.Rpc.Values.{Json, Codecs}
use svm_wasi_core.Rpc.Decode.{AccountInfo, collect, nullable, or_decode, decode_account_info}
use svm_wasi_core.Rpc.{
  Transport, Client, Call, call_value, read_with, array_of, json_key, base64_encoding, commitment,
  get_multiple_accounts,
}

-- `collect` succeeds exactly with a result for each element, in the same places.
abbrev pub AllRead : {E A B : Type 0} → (A → Outcome E B) → List A → List B → Type 0
AllRead f [] [] = Unit
AllRead f [] (y ∷ ys) = ⊥
AllRead f (x ∷ xs) [] = ⊥
AllRead f (x ∷ xs) (y ∷ ys) = (f x ≡ ok y) × AllRead f xs ys

pub collect-AllRead :
    {E A B : Type 0} (f : A → Outcome E B) (xs : List A) (ys : List B)
    → collect f xs ≡ ok ys
    → AllRead f xs ys
unfolding collect
collect-AllRead f [] [] h = tt
collect-AllRead f [] (y ∷ ys) h = cc
collect-AllRead f (x ∷ xs) [] h =
    let (y, p, q) = >>=-eq-ok (f x) _ h in let (zs, r, s) = >>=-eq-ok (collect f xs) _ q in cc
collect-AllRead f (x ∷ xs) (w ∷ ws) h =
    let (y, p, q) = >>=-eq-ok (f x) _ h in
    let (zs, r, s) = >>=-eq-ok (collect f xs) _ q in
    let same : zs ≡ ws = cc in (cc, collect-AllRead f xs ws (rw (← same) r))

pub AllRead-collect :
    {E A B : Type 0} (f : A → Outcome E B) (xs : List A) (ys : List B)
    → AllRead f xs ys
    → collect f xs ≡ ok ys
unfolding collect
AllRead-collect f [] [] h = refl
AllRead-collect f [] (y ∷ ys) h = absurd h
AllRead-collect f (x ∷ xs) [] h = absurd h
AllRead-collect f (x ∷ xs) (y ∷ ys) (p, h) = rw (p, AllRead-collect f xs ys h)

module _ (J : Json) {Key Hash : Type 0} (C : Codecs Key Hash) where
  open J use {json_array, json_object, Value}

  -- A null holds no account, and another value the account that it describes.
  abbrev pub Holds : Value → Option (AccountInfo Key) → Type 0
  Holds entry none = J.is_null entry ≡ true
  Holds entry (some account) = (J.is_null entry ≡ false) × Describes J C entry account

  abbrev pub AllHold : List Value → List (Option (AccountInfo Key)) → Type 0
  AllHold [] [] = Unit
  AllHold [] (o ∷ os) = ⊥
  AllHold (entry ∷ entries) [] = ⊥
  AllHold (entry ∷ entries) (o ∷ os) = Holds entry o × AllHold entries os

  -- The value is an array that holds as many accounts or nulls, place by place.
  pub data ReadFrom (value : Value) (accounts : List (Option (AccountInfo Key))) : Type 0 where
    read_from :
        (entries : List Value)
        → J.as_array value ≡ some entries
        → AllHold entries accounts
        → ReadFrom value accounts

  nullable-Holds :
      (entry : Value) (o : Option (AccountInfo Key))
      → nullable J (decode_account_info J C) entry ≡ ok o
      → Holds entry o
  nullable-Holds entry none h = elim (Bool-cases (J.is_null entry)) [
    | inl e ↦ e
    | inr e ↦ let (a, p, q) = >>=-eq-ok (decode_account_info J C entry) _ (rw e at h) in cc
  ]
  nullable-Holds entry (some account) h = elim (Bool-cases (J.is_null entry)) [
    | inl e ↦
        let impossible : ◌≡◌ {A = Outcome RpcError (Option (AccountInfo Key))} (ok none)
            (ok (some account)) =
          rw e at h in
        cc
    | inr e ↦
        let (a, p, q) = >>=-eq-ok (decode_account_info J C entry) _ (rw e at h) in
        let same : a ≡ account = cc in
        (e, Describes-decode_account_info J C entry account (rw (← same) p))
  ]

  Holds-nullable :
      (entry : Value) (o : Option (AccountInfo Key))
      → Holds entry o
      → nullable J (decode_account_info J C) entry ≡ ok o
  Holds-nullable entry none h = rw h
  Holds-nullable entry (some account) (e, d) =
      rw (e, decode_account_info_described J C entry account d)

  AllRead-AllHold :
      (entries : List Value) (accounts : List (Option (AccountInfo Key)))
      → AllRead (nullable J (decode_account_info J C)) entries accounts
      → AllHold entries accounts
  AllRead-AllHold [] [] h = tt
  AllRead-AllHold [] (o ∷ os) h = h
  AllRead-AllHold (entry ∷ entries) [] h = h
  AllRead-AllHold (entry ∷ entries) (o ∷ os) (p, h) =
      (nullable-Holds entry o p, AllRead-AllHold entries os h)

  AllHold-AllRead :
      (entries : List Value) (accounts : List (Option (AccountInfo Key)))
      → AllHold entries accounts
      → AllRead (nullable J (decode_account_info J C)) entries accounts
  AllHold-AllRead [] [] h = tt
  AllHold-AllRead [] (o ∷ os) h = h
  AllHold-AllRead (entry ∷ entries) [] h = h
  AllHold-AllRead (entry ∷ entries) (o ∷ os) (p, h) =
      (Holds-nullable entry o p, AllHold-AllRead entries os h)

  module _ (T : Transport Value) (c : Client T.State) where
    read_with-ok :
        {A B : Type 0} {b : B} (m : Call T.State A) (f : A → Outcome RpcError B)
        (d : Client T.State)
        → (read_with m f d).0 ≡ ok b
        → (a : A) × ((m d).0 ≡ ok a) × (f a ≡ ok b)
    unfolding read_with
    read_with-ok m f d h = >>=-eq-ok (m d).0 f h

    or_decode-ok :
        {A : Type 0} {a : A} (o : Option A) (text : String) → or_decode J o text ≡ ok a → o ≡ some a
    or_decode-ok none text h = cc
    or_decode-ok (some x) text h = cc

    -- The one request of `get_multiple_accounts`.
    abbrev pub accounts_params : List Key → Value
    accounts_params ks = json_array (
        json_array (map (json_key J T C) ks)
        ∷ json_object (base64_encoding J ∷ commitment J ∷ [])
        ∷ [])

    -- The call gave a value that holds the accounts.
    abbrev pub AccountsRead : List Key → List (Option (AccountInfo Key)) → Type 0
    AccountsRead ks accounts =
        (value : Value) × ((call_value J T "getMultipleAccounts" (accounts_params ks) c).0
          ≡ ok value)
        × ReadFrom value accounts

    get_multiple_accounts_read :
        (ks : List Key) (accounts : List (Option (AccountInfo Key)))
        → (get_multiple_accounts J T C ks c).0 ≡ ok accounts
        → AccountsRead ks accounts
    unfolding get_multiple_accounts
    get_multiple_accounts_read ks accounts h =
        let (value, p, q) =
          read_with-ok (call_value J T "getMultipleAccounts" (accounts_params ks))
            (array_of J T (nullable J (decode_account_info J C)) "expected an array `value`") c h in
        let (entries, r, s) =
          >>=-eq-ok (or_decode J (J.as_array value) "expected an array `value`")
            (λ es. collect (nullable J (decode_account_info J C)) es) q in
        (
          value,
          p,
          read_from entries (or_decode-ok (J.as_array value) _ r) (
              AllRead-AllHold entries accounts
                (collect-AllRead (nullable J (decode_account_info J C)) entries accounts s)),
        )

    read_get_multiple_accounts :
        (ks : List Key) (accounts : List (Option (AccountInfo Key)))
        → AccountsRead ks accounts
        → (get_multiple_accounts J T C ks c).0 ≡ ok accounts
    unfolding get_multiple_accounts read_with
    read_get_multiple_accounts ks accounts (value, p, read_from entries r h) = rw (
      p,
      r,
      AllRead-collect (nullable J (decode_account_info J C)) entries accounts
          (AllHold-AllRead entries accounts h),
    )

    -- `get_multiple_accounts` returns a list exactly when its call gives a value that is an array
    -- of the same length and, place by place, an entry is null where the list has no account, and
    -- is not null and holds the account's fields, each under its name, where the list has one.
    pub get_multiple_accounts-ReadFrom :
        (ks : List Key) (accounts : List (Option (AccountInfo Key)))
        → ((get_multiple_accounts J T C ks c).0 ≡ ok accounts) ↔ AccountsRead ks accounts
    get_multiple_accounts-ReadFrom ks accounts =
        (get_multiple_accounts_read ks accounts, read_get_multiple_accounts ks accounts)
