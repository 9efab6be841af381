-- ===== src/Transaction/Order.antt =====
-- Signing by several key pairs in different orders.
use mathlib.Core.List.{Permᴰ, Pairwise, mem-cons_self}
use mathlib.Core.List.Permᴰ
use mathlib.Core.HLevel.{¬_prop}
use svm_wasi_core.Base.{ap, sym, ◌∙◌, ◌>>=◌, >>=_assoc, refl, ℕ, ◌≡◌, ◌≢◌, List, ◌∷◌, Outcome, ok}
use svm_wasi_core.Keys.{Keys}
use svm_wasi_core.Sign.{Signatures, Ed25519, Keypair, sign_message}
use svm_wasi_core.Transaction.Errors.{SignTransactionError}
use svm_wasi_core.Transaction.Signing.{
  IsSound, Answer, refused, filled, insert_signature-Answer, insert_signature_comm,
}
use svm_wasi_core.Transaction.Envelopes.{Tx, try_sign_versioned-insert, try_sign_legacy-insert}
use svm_wasi_core.Transaction.Complete.{Keyring, sign_all}
use svm_wasi_core.Transaction.{
  MessageFormat, Envelope, insert_signature, try_sign_versioned, try_sign_legacy,
}

module _ (S : Signatures) {Text : Type 0} (V : Envelope S.Signature Text) (K : Keys) {Hash : Type 0}
    (M : MessageFormat K.Key Hash) (E : Ed25519) where
  open V use {version_prefix}

  abbrev Signed : Type 0
  Signed = Outcome SignTransactionError (Tx S V K M E)

  -- Two key pairs for different accounts.
  abbrev pub Differ : Keypair K S E → Keypair K S E → Type 0
  Differ k l = k.pubkey ≢ l.pubkey

  -- No two key pairs of the ring are for the same account.
  abbrev pub AllDiffer : Keyring S V K M E → Type 0
  AllDiffer = Pairwise Differ

  Differ-prop : (k l : Keypair K S E) → IsProp (Differ k l)
  Differ-prop k l = ¬_prop

  module _ (bytes : List ℕ) (m : M.Message) (try_sign : Keypair K S E → Tx S V K M E → Signed)
      (inserts : (k : Keypair K S E) (tx : Tx S V K M E)
        → tx.message ≡ m
        → try_sign k tx ≡ insert_signature S V K M E k.pubkey (sign_message K S E k bytes) tx) where
    -- An insertion of `k`'s signature.
    abbrev insertion : Keypair K S E → Tx S V K M E → Signed
    insertion k = insert_signature S V K M E k.pubkey (sign_message K S E k bytes)

    -- Two ways to go on that agree on sound transactions of the message.
    abbrev Agree : (Tx S V K M E → Signed) → (Tx S V K M E → Signed) → Type 0
    Agree rest rest' = (u : Tx S V K M E) → u.message ≡ m → IsSound S V K M u → rest u ≡ rest' u

    Answer-Agree :
        (tx : Tx S V K M E) (k : Keypair K S E) (r : Signed) (rest rest' : Tx S V K M E → Signed)
        → tx.message ≡ m
        → Answer S V K M tx k.pubkey (sign_message K S E k bytes) r
        → Agree rest rest'
        → (r >>= rest) ≡ (r >>= rest')
    Answer-Agree tx k _ rest rest' same (refused n) g = refl
    Answer-Agree tx k _ rest rest' same (filled i u f w) g = g u (w.message ∙ same) w.sound

    try_sign-Agree :
        (k : Keypair K S E) (tx : Tx S V K M E) (rest rest' : Tx S V K M E → Signed)
        → tx.message ≡ m
        → IsSound S V K M tx
        → Agree rest rest'
        → (try_sign k tx >>= rest) ≡ (insertion k tx >>= rest')
    try_sign-Agree k tx rest rest' same h g =
        ap (λ r. r >>= rest) (inserts k tx same)
        ∙ Answer-Agree tx k _ rest rest' same (insert_signature-Answer S V K M E tx k.pubkey _ h) g

    try_sign-Agree_both :
        (k : Keypair K S E) (tx : Tx S V K M E) (rest rest' : Tx S V K M E → Signed)
        → tx.message ≡ m
        → IsSound S V K M tx
        → Agree rest rest'
        → (try_sign k tx >>= rest) ≡ (try_sign k tx >>= rest')
    try_sign-Agree_both k tx rest rest' same h g =
        try_sign-Agree k tx rest rest' same h g ∙ ap (λ r. r >>= rest') (sym (inserts k tx same))

    two_insertions :
        (a b : Keypair K S E) (tx : Tx S V K M E) (rest : Tx S V K M E → Signed)
        → tx.message ≡ m
        → IsSound S V K M tx
        → (try_sign a tx >>= λ u. try_sign b u >>= rest) ≡ (insertion a tx >>= insertion b >>= rest)
    two_insertions a b tx rest same h =
        try_sign-Agree a tx _ _ same h (λ u e w. ap (λ r. r >>= rest) (inserts b u e))
        ∙ sym (>>=_assoc (insertion a tx) (insertion b) rest)

    sign_all_permuted :
        {ks ls : Keyring S V K M E} (tx : Tx S V K M E)
        → Permᴰ ks ls
        → AllDiffer ks
        → tx.message ≡ m
        → IsSound S V K M tx
        → sign_all S V K M E try_sign ks tx ≡ sign_all S V K M E try_sign ls tx
    unfolding sign_all
    sign_all_permuted tx Permᴰ.nil d same h = refl
    sign_all_permuted tx (Permᴰ.cons {a = a} {b = b} {l₁ = l₁} {l₂ = l₂} e p) (Pairwise.cons n d)
          same h =
        rw (← e) (try_sign-Agree_both a tx _ _ same h (λ u w t. sign_all_permuted u p d w t))
    sign_all_permuted tx (Permᴰ.swap {a = a} {b = b} {l = l} e f)
          (Pairwise.cons n (Pairwise.cons o d)) same h =
        rw (← e, ← f)
          (two_insertions a b tx _ same h
            ∙ (ap (λ r. r >>= sign_all S V K M E try_sign l)
                  (insert_signature_comm S V K M E tx a.pubkey b.pubkey _ _ h (n b mem-cons_self))
                ∙ sym (two_insertions b a tx _ same h)))
    sign_all_permuted tx (Permᴰ.trans p q) d same h =
        sign_all_permuted tx p d same h
        ∙ sign_all_permuted tx q (Permᴰ.pairwise Differ-prop (λ k l n e. n (sym e)) p d) same h

  -- When a message encodes, signing a transaction of it, that has a slot and a key for each
  -- required signature, with the key pairs of a ring gives the same in every order of the ring,
  -- errors included, if no two key pairs are for the same account: for both types.
  pub sign_all_comm :
      (tx : Tx S V K M E) (body : List ℕ) (ks ls : Keyring S V K M E)
      → Permᴰ ks ls
      → AllDiffer ks
      → M.serialize tx.message ≡ ok body
      → IsSound S V K M tx
      → (sign_all S V K M E (try_sign_versioned S V K M E) ks tx
          ≡ sign_all S V K M E (try_sign_versioned S V K M E) ls tx)
        × (sign_all S V K M E (try_sign_legacy S V K M E) ks tx
            ≡ sign_all S V K M E (try_sign_legacy S V K M E) ls tx)
  sign_all_comm tx body ks ls p d encodes h = (
    sign_all_permuted (version_prefix ∷ body) tx.message (try_sign_versioned S V K M E)
        (λ k u same. try_sign_versioned-insert S V K M E k u body (ap M.serialize same ∙ encodes))
        tx p d refl h,
    sign_all_permuted body tx.message (try_sign_legacy S V K M E)
        (λ k u same. try_sign_legacy-insert S V K M E k u body (ap M.serialize same ∙ encodes)) tx p
        d refl h,
  )
