-- ===== src/Transaction/Reachable.antt =====
-- The v0 transactions that the operations make of a message, and the invariant of their slots.
use mathlib.Core.Path.{sym, subst}
use native.Mathlib.Decide.{ℕ_discrete}
use svm_wasi_core.Base.{
  All-get_elem?, ap, ◌∙◌, ◌⊎◌, inl, inr, refl, ℕ, ◌≡◌, ◌≤◌, true, some, List, ◌∷◌, length, Outcome,
  ok, get_elem?,
}
use svm_wasi_core.Keys.{Keys}
use svm_wasi_core.Sign.{Signatures, Ed25519, Keypair}
use svm_wasi_core.Sign.Laws.{IsMatched}
use svm_wasi_core.Transaction.Errors.{SignTransactionError}
use svm_wasi_core.Transaction.Signing.{IsSound, new_unsigned-IsSound}
use svm_wasi_core.Transaction.Verified.{
  Verified, Signed, Signing, not_required, signs, insert_signature-Signing,
}
use svm_wasi_core.Transaction.Envelopes.{Tx, try_sign-Signing}
use svm_wasi_core.Transaction.{
  MessageFormat, Envelope, new_unsigned, insert_signature, try_sign_versioned,
}

module _ (S : Signatures) {Text : Type 0} (V : Envelope S.Signature Text) (K : Keys) {Hash : Type 0}
    (M : MessageFormat K.Key Hash) (E : Ed25519) (m : M.Message) (body : List ℕ)
    (encodes : M.serialize m ≡ ok body) where
  open S use {Signature, default, to_array}
  open K use {Key, as_ref}
  open M use {num_required_signatures, account_keys}
  open V use {version_prefix}
  open E use {verify}

  -- What the signatures of `m` cover.
  abbrev pub covered : List ℕ
  covered = version_prefix ∷ body

  -- From the unsigned transaction of `m`, by signing with key pairs that belong together and by
  -- inserting signatures that verify under the key that they are inserted for.
  pub data Reachable : Tx S V K M E → Type 0 where
    unsigned : Reachable (new_unsigned S V K M m)
    signed :
        (k : Keypair K S E) (tx tx' : Tx S V K M E)
        → IsMatched K S E k
        → try_sign_versioned S V K M E k tx ≡ ok tx'
        → Reachable tx
        → Reachable tx'
    inserted :
        (pubkey : Key) (signature : Signature) (tx tx' : Tx S V K M E)
        → verify (as_ref pubkey) covered (to_array signature) ≡ true
        → insert_signature S V K M E pubkey signature tx ≡ ok tx'
        → Reachable tx
        → Reachable tx'

  -- Each slot holds the placeholder, or a signature that verifies under the account key of its
  -- place.
  pub record Slots (tx : Tx S V K M E) : Type 0 where
    pub message : tx.message ≡ m
    pub sound : IsSound S V K M tx
    pub slot :
        (i : ℕ) (signature : Signature)
        → get_elem? tx.signatures i ≡ some signature
        → (signature ≡ default) ⊎ Verified S V K M E covered tx i

  Signed-Slots :
      (pubkey : Key) (tx tx' : Tx S V K M E)
      → Slots tx
      → Signed S V K M E covered pubkey tx tx'
      → Slots tx'
  Signed-Slots pubkey tx tx' h s = record {
    message = s.message ∙ h.message;
    sound = s.sound;
    slot = λ i signature e. elim (ℕ_discrete s.place i) [
      | yes p ↦ inr (subst (Verified S V K M E covered tx') p s.now)
      | no n ↦ elim (h.slot i signature (sym (s.others i n) ∙ e)) [
        | inl d ↦ inl d
        | inr v ↦ inr (s.still i v)
      ]
    ];
  }

  Signing-ok :
      (pubkey : Key) (tx tx' : Tx S V K M E) (r : Outcome SignTransactionError (Tx S V K M E))
      → Signing S V K M E covered pubkey tx r
      → r ≡ ok tx'
      → Signed S V K M E covered pubkey tx tx'
  Signing-ok pubkey tx tx' _ (not_required n) e = cc
  Signing-ok pubkey tx tx' _ (signs u s) e =
      let p : u ≡ tx' = cc in subst (Signed S V K M E covered pubkey tx) p s

  -- When a message encodes and has a key for each required signature, every v0 transaction that is
  -- made of it, by signing with key pairs that belong together and by inserting signatures that
  -- verify, in any number and order, holds that message and one slot for each required signature,
  -- and in each slot the placeholder or a signature that verifies under the account key of that
  -- place over the version byte and the message's encoding.
  pub Reachable-Slots :
      (tx : Tx S V K M E)
      → num_required_signatures m ≤ length (account_keys m)
      → Reachable tx
      → Slots tx
  unfolding new_unsigned
  Reachable-Slots _ enough unsigned =
      let (sound, placeholders) = new_unsigned-IsSound S V K M m enough in
      record {
        message = refl;
        sound = sound;
        slot = λ i signature e. inl (All-get_elem? _ _ i signature placeholders e);
      }
  Reachable-Slots _ enough (signed k tx tx' matched e r) =
      let h = Reachable-Slots tx enough r in
      Signed-Slots k.pubkey tx tx' h (
        Signing-ok k.pubkey tx tx' _
          (try_sign-Signing S V K M E k tx body matched (ap M.serialize h.message ∙ encodes)
            h.sound).0
          e)
  Reachable-Slots _ enough (inserted pubkey signature tx tx' accepted e r) =
      let h = Reachable-Slots tx enough r in
      Signed-Slots pubkey tx tx' h (
        Signing-ok pubkey tx tx' _
          (insert_signature-Signing S V K M E covered pubkey signature tx accepted h.sound) e)
