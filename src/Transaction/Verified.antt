-- ===== src/Transaction/Verified.antt =====
-- What the runtime verifies of a transaction, and what an inserted signature does to it.
use mathlib.Core.Path.{subst}
use native.Mathlib.Decide.{ℕ_discrete}
use svm_wasi_core.Base.{
  err, All, ap, ◌∙◌, some, ℕ, ◌≡◌, ◌≢◌, true, List, Outcome, ok, get_elem?, get_elem?-take,
  get_elem?-set_ne,
}
use svm_wasi_core.Base.Search.{FirstAt}
use svm_wasi_core.Keys.{Keys}
use svm_wasi_core.Sign.{Signatures, Ed25519}
use svm_wasi_core.Transaction.Errors.{not_a_required_signer, SignTransactionError}
use svm_wasi_core.Transaction.Signing.{
  IsSound, Filled, Answer, refused, filled, required_signers, insert_signature-Answer,
}
use svm_wasi_core.Transaction.{Transaction, MessageFormat, Envelope, insert_signature}

-- `bytes` is what the signatures are to cover.
module _ (S : Signatures) {Text : Type 0} (V : Envelope S.Signature Text) (K : Keys) {Hash : Type 0}
    (M : MessageFormat K.Key Hash) (E : Ed25519) (bytes : List ℕ) where
  open S use {Signature, to_array}
  open K use {Key, key_discrete, as_ref}
  open M use {Message, num_required_signatures, account_keys}
  open E use {verify}

  -- The signature in slot `i` verifies over the bytes under account key `i`.
  pub record Verified (tx : Transaction Signature Message) (i : ℕ) : Type 0 where
    pub key : Key
    pub signature : Signature
    pub signer : get_elem? (account_keys tx.message) i ≡ some key
    pub slot : get_elem? tx.signatures i ≡ some signature
    pub accepted : verify (as_ref key) bytes (to_array signature) ≡ true

  -- The slot of the first place of `pubkey` among the required signers verifies, every slot that
  -- did still does, no other slot changes, and the message is the same.
  pub record Signed (pubkey : Key) (tx tx' : Transaction Signature Message) : Type 0 where
    pub place : ℕ
    pub first : FirstAt key_discrete pubkey (required_signers S V K M tx) place
    pub now : Verified tx' place
    pub still : (j : ℕ) → Verified tx j → Verified tx' j
    pub others : (j : ℕ) → place ≢ j → get_elem? tx'.signatures j ≡ get_elem? tx.signatures j
    pub message : tx'.message ≡ tx.message
    pub sound : IsSound S V K M tx'

  -- What a signing by `pubkey` comes to: an error when it is no required signer, and otherwise a
  -- transaction that is signed.
  pub data Signing (pubkey : Key) (tx : Transaction Signature Message)
      : Outcome SignTransactionError (Transaction Signature Message) → Type 0 where
    not_required :
        All (λ signer. signer ≢ pubkey) (required_signers S V K M tx)
        → Signing pubkey tx (err not_a_required_signer)
    signs :
        (tx' : Transaction Signature Message) → Signed pubkey tx tx' → Signing pubkey tx (ok tx')

  module _ (pubkey : Key) (signature : Signature)
      (accepted : verify (as_ref pubkey) bytes (to_array signature) ≡ true)
      (tx tx' : Transaction Signature Message) (i : ℕ)
      (first : FirstAt key_discrete pubkey (required_signers S V K M tx) i)
      (filled_slot : Filled S V K M tx i signature tx') where
    Verified-new : Verified tx' i
    Verified-new = record {
      key = pubkey;
      signature = signature;
      signer =
          ap (λ m. get_elem? (account_keys m) i) filled_slot.message
          ∙ get_elem?-take (num_required_signatures tx.message) (account_keys tx.message) i pubkey
              first.there;
      slot = filled_slot.slot;
      accepted = accepted;
    }

    other_slot : (j : ℕ) → i ≢ j → get_elem? tx'.signatures j ≡ get_elem? tx.signatures j
    other_slot j n =
        ap (λ sigs. get_elem? sigs j) filled_slot.others
        ∙ get_elem?-set_ne tx.signatures i j signature n

    Verified-other : (j : ℕ) → i ≢ j → Verified tx j → Verified tx' j
    Verified-other j n v = record {
      key = v.key;
      signature = v.signature;
      signer = ap (λ m. get_elem? (account_keys m) j) filled_slot.message ∙ v.signer;
      slot = other_slot j n ∙ v.slot;
      accepted = v.accepted;
    }

    Filled-Signed : Signed pubkey tx tx'
    Filled-Signed = record {
      place = i;
      first = first;
      now = Verified-new;
      still = λ j v. elim (ℕ_discrete i j) [
        | yes e ↦ subst (Verified tx') e Verified-new
        | no n ↦ Verified-other j n v
      ];
      others = other_slot;
      message = filled_slot.message;
      sound = filled_slot.sound;
    }

  Answer-Signing :
      (pubkey : Key) (signature : Signature) (tx : Transaction Signature Message)
      (r : Outcome SignTransactionError (Transaction Signature Message))
      → verify (as_ref pubkey) bytes (to_array signature) ≡ true
      → Answer S V K M tx pubkey signature r
      → Signing pubkey tx r
  Answer-Signing pubkey signature tx _ a (refused n) = not_required n
  Answer-Signing pubkey signature tx _ a (filled i u f w) =
      signs u (Filled-Signed pubkey signature a tx u i f w)

  -- The same for every signature that verifies under its key.
  pub insert_signature-Signing :
      (pubkey : Key) (signature : Signature) (tx : Transaction Signature Message)
      → verify (as_ref pubkey) bytes (to_array signature) ≡ true
      → IsSound S V K M tx
      → Signing pubkey tx (insert_signature S V K M E pubkey signature tx)
  insert_signature-Signing pubkey signature tx a h =
      Answer-Signing pubkey signature tx _ a
        (insert_signature-Answer S V K M E tx pubkey signature h)
