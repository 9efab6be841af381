-- ===== src/Transaction/Complete.antt =====
-- Signing by several key pairs, one after the other: the transaction gets all its signatures.
use mathlib.Core.Path.{subst}
use svm_wasi_core.Base.{
  >>=-eq-ok, All-get_elem?, ap, sym, ◌∙◌, ◌>>=◌, ◌⊎◌, inl, inr, refl, ℕ, ◌≡◌, some, All, get_elem?,
  take, List, [], ◌∷◌, Outcome, ok,
}
use svm_wasi_core.Keys.{Keys}
use svm_wasi_core.Sign.{Signatures, Ed25519, Keypair}
use svm_wasi_core.Sign.Laws.{IsMatched}
use svm_wasi_core.Transaction.Errors.{SignTransactionError}
use svm_wasi_core.Transaction.Signing.{IsSound}
use svm_wasi_core.Transaction.Verified.{Verified, Signed, Signing, not_required, signs}
use svm_wasi_core.Transaction.Envelopes.{Tx, try_sign-Signing}
use svm_wasi_core.Transaction.{
  sign_into, message_bytes, MessageFormat, Envelope, try_sign_versioned, try_sign_legacy,
}

module _ (S : Signatures) {Text : Type 0} (V : Envelope S.Signature Text) (K : Keys) {Hash : Type 0}
    (M : MessageFormat K.Key Hash) (E : Ed25519) where
  open S use {Signature}
  open K use {Key}
  open M use {Message, account_keys, num_required_signatures}
  open V use {version_prefix}

  abbrev pub Keyring : Type 0
  Keyring = List (Keypair K S E)

  -- The keys that must sign a message.
  abbrev pub signers : Message → List Key
  signers m = take (num_required_signatures m) (account_keys m)

  -- Every key pair of the ring belongs together, and its key must sign the message.
  abbrev pub AllSigners : Message → Keyring → Type 0
  AllSigners m =
      All (λ k. IsMatched K S E k × ((i : ℕ) × (get_elem? (signers m) i ≡ some k.pubkey)))

  -- One of the key pairs is for `key`.
  abbrev pub Holds : Keyring → Key → Type 0
  Holds [] key = ⊥
  Holds (k ∷ ks) key = (k.pubkey ≡ key) ⊎ Holds ks key

  -- No key must sign twice.
  abbrev pub AreDistinct : Message → Type 0
  AreDistinct m =
      (i j : ℕ) (key : Key)
      → get_elem? (signers m) i ≡ some key
      → get_elem? (signers m) j ≡ some key
      → i ≡ j

  -- A `try_sign` for each key pair, and the first error ends it.
  unfoldable pub sign_all :
      (Keypair K S E → Tx S V K M E → Outcome SignTransactionError (Tx S V K M E))
      → Keyring
      → Tx S V K M E
      → Outcome SignTransactionError (Tx S V K M E)
  sign_all try_sign [] tx = ok tx
  sign_all try_sign (k ∷ ks) tx = try_sign k tx >>= sign_all try_sign ks

  try_sign_versioned-message :
      (k : Keypair K S E) (tx tx' : Tx S V K M E)
      → try_sign_versioned S V K M E k tx ≡ ok tx'
      → tx'.message ≡ tx.message
  unfolding try_sign_versioned
  try_sign_versioned-message k tx tx' h =
      let (bytes, p, rest) = >>=-eq-ok (message_bytes S V K M tx) _ h in
      let (sigs, q, done) =
        >>=-eq-ok
          (sign_into K S E tx.signatures (account_keys tx.message)
            (num_required_signatures tx.message) bytes k)
          _ rest in
      let same : record tx { signatures = sigs } ≡ tx' = cc in sym (ap (λ u. u.message) same)

  -- Signing keeps the message.
  pub sign_all-message :
      (ks : Keyring) (tx tx' : Tx S V K M E)
      → sign_all (try_sign_versioned S V K M E) ks tx ≡ ok tx'
      → tx'.message ≡ tx.message
  unfolding sign_all
  sign_all-message [] tx tx' h = cc
  sign_all-message (k ∷ ks) tx tx' h =
      let (next, p, rest) = >>=-eq-ok (try_sign_versioned S V K M E k tx) _ h in
      sign_all-message ks next tx' rest ∙ try_sign_versioned-message k tx next p

  module _ (bytes : List ℕ) (m : Message)
      (try_sign : Keypair K S E → Tx S V K M E → Outcome SignTransactionError (Tx S V K M E))
      (signing : (k : Keypair K S E) (tx : Tx S V K M E)
        → IsMatched K S E k
        → tx.message ≡ m
        → IsSound S V K M tx
        → Signing S V K M E bytes k.pubkey tx (try_sign k tx)) where
    Signing-Signed :
        (pubkey : Key) (tx : Tx S V K M E) (r : Outcome SignTransactionError (Tx S V K M E)) (i : ℕ)
        → Signing S V K M E bytes pubkey tx r
        → get_elem? (signers tx.message) i ≡ some pubkey
        → (tx' : Tx S V K M E) × (r ≡ ok tx') × Signed S V K M E bytes pubkey tx tx'
    Signing-Signed pubkey tx _ i (not_required n) e =
        absurd (All-get_elem? _ (signers tx.message) i pubkey n e refl)
    Signing-Signed pubkey tx _ i (signs tx' s) e = (tx', refl, s)

    sign_all-slot :
        (ks : Keyring) (tx : Tx S V K M E) (j : ℕ) (key : Key)
        → tx.message ≡ m
        → IsSound S V K M tx
        → AreDistinct m
        → AllSigners m ks
        → get_elem? (signers m) j ≡ some key
        → Verified S V K M E bytes tx j ⊎ Holds ks key
        → (tx' : Tx S V K M E) × (sign_all try_sign ks tx ≡ ok tx')
          × (tx'.message ≡ m)
          × IsSound S V K M tx'
          × Verified S V K M E bytes tx' j
    unfolding sign_all
    sign_all-slot [] tx j key same h d a e (inl v) = (tx, refl, same, h, v)
    sign_all-slot [] tx j key same h d a e (inr z) = absurd z
    sign_all-slot (k ∷ ks) tx j key same h d ((matched, (i, there)), a) e v =
        let (tx1, p, s) =
          Signing-Signed k.pubkey tx (try_sign k tx) i (signing k tx matched same h)
            (ap (λ u. get_elem? (signers u) i) same ∙ there) in
        let next : Verified S V K M E bytes tx1 j ⊎ Holds ks key = elim v [
          | inl w ↦ inl (s.still j w)
          | inr (inl q) ↦ inl (
              subst (Verified S V K M E bytes tx1)
                (d s.place j key
                  (ap (λ u. get_elem? (signers u) s.place) (sym same) ∙ (s.first.there ∙ ap some q))
                  e)
                s.now)
          | inr (inr w) ↦ inr w
        ] in
        rw p (sign_all-slot ks tx1 j key (s.message ∙ same) s.sound d a e next)

  -- When a message encodes, its required signers are distinct, and each has a key pair in the
  -- ring, which has no others, then signing a transaction of the message with all the ring, each
  -- pair once, succeeds, in any order of the ring and for both types. It keeps the message and
  -- a slot for each required signature, and the slot of each required signer then verifies over the bytes to sign.
  pub sign_all-Verified :
      (tx : Tx S V K M E) (body : List ℕ) (ks : Keyring) (j : ℕ) (key : Key)
      → M.serialize tx.message ≡ ok body
      → IsSound S V K M tx
      → AreDistinct tx.message
      → AllSigners tx.message ks
      → get_elem? (signers tx.message) j ≡ some key
      → Holds ks key
      → ((tx' : Tx S V K M E) × (sign_all (try_sign_versioned S V K M E) ks tx ≡ ok tx')
          × (tx'.message ≡ tx.message)
          × IsSound S V K M tx'
          × Verified S V K M E (version_prefix ∷ body) tx' j)
        × ((tx' : Tx S V K M E) × (sign_all (try_sign_legacy S V K M E) ks tx ≡ ok tx')
            × (tx'.message ≡ tx.message)
            × IsSound S V K M tx'
            × Verified S V K M E body tx' j)
  sign_all-Verified tx body ks j key encodes h d a e held = (
    sign_all-slot (version_prefix ∷ body) tx.message (try_sign_versioned S V K M E)
        (λ k u matched same sound.
          (try_sign-Signing S V K M E k u body matched (ap M.serialize same ∙ encodes) sound).0)
        ks tx j key refl h d a e (inr held),
    sign_all-slot body tx.message (try_sign_legacy S V K M E)
        (λ k u matched same sound.
          (try_sign-Signing S V K M E k u body matched (ap M.serialize same ∙ encodes) sound).1)
        ks tx j key refl h d a e (inr held),
  )
