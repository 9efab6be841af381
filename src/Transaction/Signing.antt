-- ===== src/Transaction/Signing.antt =====
-- Filling the signature slots.
use svm_wasi_core.Base.{
  refl, All-replicate, ap, length-replicate, set_comm, sym, ◌∙◌, ◌>>=◌, ok_or, suc, Option, some, ℕ,
  ◌≡◌, ◌≢◌, ◌≤◌, ◌<◌, List, length, Outcome, ok, err, get_elem?, set, All, take, slice_prefix,
  store, store_lem, arith, length-set, length-take, get_elem?-set_self,
}
use svm_wasi_core.Base.Search.{position, FirstAt, Found, missing, found, position-Found}
use svm_wasi_core.Keys.{Keys}
use svm_wasi_core.Sign.{Signatures, Ed25519}
use svm_wasi_core.Transaction.Errors.{SignTransactionError, not_a_required_signer}
use svm_wasi_core.Transaction.{Transaction, MessageFormat, Envelope, new_unsigned, insert_signature}

module _ (S : Signatures) {Text : Type 0} (V : Envelope S.Signature Text) where
  open S use {Signature, default}

  module _ (K : Keys) {Hash : Type 0} (M : MessageFormat K.Key Hash) where
    open K use {Key, key_discrete}
    open M use {Message, num_required_signatures, account_keys}

    -- A slot for each required signature, and an account key for each slot.
    pub record IsSound (tx : Transaction Signature Message) : Type 0 where
      pub slots : length tx.signatures ≡ num_required_signatures tx.message
      pub keys : num_required_signatures tx.message ≤ length (account_keys tx.message)

    -- The keys that must sign, in the order of their slots.
    abbrev pub required_signers : Transaction Signature Message → List Key
    required_signers tx = take (num_required_signatures tx.message) (account_keys tx.message)

    -- `signature` stands in slot `i`, and nothing else differs from `tx`.
    pub record Filled (tx : Transaction Signature Message) (i : ℕ) (signature : Signature)
        (tx' : Transaction Signature Message) : Type 0 where
      pub slot : get_elem? tx'.signatures i ≡ some signature
      pub others : tx'.signatures ≡ set tx.signatures i signature
      pub message : tx'.message ≡ tx.message
      pub sound : IsSound tx'

    -- The answers of an insertion for `pubkey`.
    pub data Answer (tx : Transaction Signature Message) (pubkey : Key) (signature : Signature)
        : Outcome SignTransactionError (Transaction Signature Message) → Type 0 where
      refused :
          All (λ k. k ≢ pubkey) (required_signers tx)
          → Answer tx pubkey signature (err not_a_required_signer)
      filled :
          (i : ℕ) (tx' : Transaction Signature Message)
          → FirstAt key_discrete pubkey (required_signers tx) i
          → Filled tx i signature tx'
          → Answer tx pubkey signature (ok tx')

    module _ (E : Ed25519) where
      -- What `insert_signature` does once the required signers have been searched.
      placed :
          Transaction Signature Message
          → Signature
          → Option ℕ
          → Outcome SignTransactionError (Transaction Signature Message)
      placed tx signature o = do
        index ← ok_or o not_a_required_signer
        sigs ← store tx.signatures index signature
        ok (record tx { signatures = sigs })

      insert-placed :
          (tx : Transaction Signature Message) (pubkey : Key) (signature : Signature)
          → IsSound tx
          → insert_signature S V K M E pubkey signature tx
            ≡ placed tx signature (position key_discrete pubkey (required_signers tx))
      unfolding insert_signature placed
      insert-placed tx pubkey signature h =
          rw (slice_prefix {E = SignTransactionError} (account_keys tx.message) _ h.keys)

      placed-Answer :
          (tx : Transaction Signature Message) (pubkey : Key) (signature : Signature) (o : Option ℕ)
          → IsSound tx
          → Found key_discrete pubkey (required_signers tx) o
          → Answer tx pubkey signature (placed tx signature o)
      unfolding placed
      placed-Answer tx pubkey signature _ h (missing m) = refused m
      placed-Answer tx pubkey signature _ h (found i f) =
          let inside : suc i ≤ length tx.signatures = omega (
            arith,
            h.slots,
            h.keys,
            f.inside,
            length-take (num_required_signatures tx.message) (account_keys tx.message),
          ) in
          rw (store_lem {E = SignTransactionError} tx.signatures i signature inside) (
            filled i _ f (record {
              slot = get_elem?-set_self tx.signatures i signature inside;
              others = refl;
              message = refl;
              sound = record {
                slots = omega (arith, h.slots, length-set tx.signatures i signature);
                keys = h.keys;
              };
            }))

      -- On a transaction with a slot and a key for each required signature, `insert_signature`
      -- never panics: it fails exactly when the key is not among the required signers, and
      -- otherwise fills the slot of the key's first place there, and changes nothing else.
      pub insert_signature-Answer :
          (tx : Transaction Signature Message) (pubkey : Key) (signature : Signature)
          → IsSound tx
          → Answer tx pubkey signature (insert_signature S V K M E pubkey signature tx)
      insert_signature-Answer tx pubkey signature h = rw (insert-placed tx pubkey signature h) (
          placed-Answer tx pubkey signature _ h
            (position-Found key_discrete pubkey (required_signers tx)))

      places_differ :
          (tx : Transaction Signature Message) (p q : Key) (i j : ℕ)
          → p ≢ q
          → FirstAt key_discrete p (required_signers tx) i
          → FirstAt key_discrete q (required_signers tx) j
          → i ≢ j
      places_differ tx p q i j n f g e =
          let both : some p ≡ some q =
            sym f.there ∙ (ap (get_elem? (required_signers tx)) e ∙ g.there) in
          n (cc both)

      placed-some :
          (tx : Transaction Signature Message) (s : Signature) (i : ℕ)
          → i < length tx.signatures
          → placed tx s (some i) ≡ ok (record tx { signatures = set tx.signatures i s })
      unfolding placed
      placed-some tx s i h = rw (store_lem {E = SignTransactionError} tx.signatures i s h)

      slot_inside :
          (tx : Transaction Signature Message) (p : Key) (i : ℕ)
          → IsSound tx
          → FirstAt key_discrete p (required_signers tx) i
          → i < length tx.signatures
      slot_inside tx p i h f = omega (
        arith,
        h.slots,
        h.keys,
        f.inside,
        length-take (num_required_signatures tx.message) (account_keys tx.message),
      )

      set-IsSound :
          (tx : Transaction Signature Message) (s : Signature) (i : ℕ)
          → IsSound tx
          → IsSound (record tx { signatures = set tx.signatures i s })
      set-IsSound tx s i h = record {
        slots = omega (arith, h.slots, length-set tx.signatures i s);
        keys = h.keys;
      }

      placed_twice :
          (tx : Transaction Signature Message) (p q : Key) (s t : Signature) (a b : Option ℕ)
          → IsSound tx
          → p ≢ q
          → Found key_discrete p (required_signers tx) a
          → Found key_discrete q (required_signers tx) b
          → (placed tx s a >>= λ u. placed u t b) ≡ (placed tx t b >>= λ u. placed u s a)
      placed_twice tx p q s t _ _ h n (missing m) (missing k) = unfold placed in refl
      placed_twice tx p q s t _ _ h n (missing m) (found j g) =
          rw (placed-some tx t j (slot_inside tx q j h g)) (unfold placed in refl)
      placed_twice tx p q s t _ _ h n (found i f) (missing k) =
          rw (placed-some tx s i (slot_inside tx p i h f)) (unfold placed in refl)
      placed_twice tx p q s t _ _ h n (found i f) (found j g) =
          let hi = slot_inside tx p i h f in
          let hj = slot_inside tx q j h g in
          rw (
            placed-some tx s i hi,
            placed-some tx t j hj,
            placed-some (record tx { signatures = set tx.signatures i s }) t j
                (omega (arith, length-set tx.signatures i s)),
            placed-some (record tx { signatures = set tx.signatures j t }) s i
                (omega (arith, length-set tx.signatures j t)),
            set_comm tx.signatures i j s t (places_differ tx p q i j n f g),
          )

      then_insert :
          (tx : Transaction Signature Message) (p q : Key) (s t : Signature)
          → IsSound tx
          → (insert_signature S V K M E p s tx >>= insert_signature S V K M E q t) ≡ (
              placed tx s (position key_discrete p (required_signers tx)) >>= λ u.
              placed u t (position key_discrete q (required_signers tx)))
      then_insert tx p q s t h = rw (insert-placed tx p s h) (
          go (position key_discrete p (required_signers tx))
            (position-Found key_discrete p (required_signers tx)))
        where
          go :
              (a : Option ℕ)
              → Found key_discrete p (required_signers tx) a
              → (placed tx s a >>= insert_signature S V K M E q t) ≡ (
                  placed tx s a >>= λ u. placed u t (position key_discrete q (required_signers tx)))
          go _ (missing m) = unfold placed in refl
          go _ (found i f) = rw (placed-some tx s i (slot_inside tx p i h f)) (
              insert-placed (record tx { signatures = set tx.signatures i s }) q t
                (set-IsSound tx s i h))

      -- Two insertions for different keys give the same result in either order, errors included.
      pub insert_signature_comm :
          (tx : Transaction Signature Message) (p q : Key) (s t : Signature)
          → IsSound tx
          → p ≢ q
          → (insert_signature S V K M E p s tx >>= insert_signature S V K M E q t)
            ≡ (insert_signature S V K M E q t tx >>= insert_signature S V K M E p s)
      insert_signature_comm tx p q s t h n =
          then_insert tx p q s t h
          ∙ (placed_twice tx p q s t _ _ h n (position-Found key_discrete p (required_signers tx))
                (position-Found key_discrete q (required_signers tx))
              ∙ sym (then_insert tx q p t s h))

    -- A new transaction has the default signature in a slot for each required signature, and a key for
    -- each if its message has one.
    pub new_unsigned-IsSound :
        (m : Message)
        → num_required_signatures m ≤ length (account_keys m)
        → IsSound (new_unsigned S V K M m)
          × All (λ s. s ≡ default) (new_unsigned S V K M m).signatures
    unfolding new_unsigned
    new_unsigned-IsSound m h = (
      record { slots = length-replicate (num_required_signatures m) default; keys = h },
      All-replicate (λ s. s ≡ default) (num_required_signatures m) default refl,
    )
