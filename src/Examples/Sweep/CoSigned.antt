-- ===== src/Examples/Sweep/CoSigned.antt =====
-- The transaction that a run of the sweep signs: the slots of its two signers.
use svm_wasi_core.Base.{refl, ap, ◌∙◌}
use svm_wasi_core.Base.{
  inl, take, inr, map_err-ok, map_err, >>=-eq-ok, ◌⊎◌, ℕ, String, ◌≡◌, ◌≢◌, true, List, ◌∷◌,
  Outcome, ok, err, All,
}
use mathlib.Core.Path.{ap, subst}
use svm_wasi_core.Base.{◌>>=◌}
use svm_wasi_core.Keys.{Keys}
use svm_wasi_core.Sign.{Signatures, Ed25519, Keypair}
use svm_wasi_core.Sign.Laws.{IsMatched, from_bytes-Loaded}
use svm_wasi_core.Stealth.Curves.{Curve, Hazmat}
use svm_wasi_core.Stealth.Laws.{as_ref-to_pubkey}
use svm_wasi_core.Transaction.Errors.{SignTransactionError}
use svm_wasi_core.Stealth.{to_pubkey, sign_with_recovered_key}
use svm_wasi_core.Transaction.Signing.{IsSound, required_signers}
use svm_wasi_core.Transaction.Verified.{
  Signed, Signing, not_required, signs, insert_signature-Signing,
}
use svm_wasi_core.Transaction.Envelopes.{try_sign-Signing}
use svm_wasi_core.Transaction.{
  MessageFormat, Envelope, message_bytes, insert_signature, try_sign_versioned, try_from_base64,
}
use svm_wasi_core.Examples.Arguments.{SweepArgs}
use svm_wasi_core.Examples.{from_bytes, load_keypair_file, or_fail}
use svm_wasi_core.Examples.Sweep.{
  SweepHost, SweepTx, add_one_time_signature, recovered_key, sign_sweep,
}

module _ (K : Keys) (C : Curve) (S : Signatures) (H : Hazmat C) (V : Envelope S.Signature String)
    {Hash : Type 0} (M : MessageFormat K.Key Hash) (E : Ed25519) where
  open C use {base, scale, compress}
  open V use {version_prefix}

  load_keypair_file-IsMatched :
      (host : SweepHost) (path : String) (k : Keypair K S E)
      → load_keypair_file K S E host.files path ≡ ok k
      → IsMatched K S E k
  unfolding load_keypair_file
  load_keypair_file-IsMatched host path k h =
      let (contents, a, b) = >>=-eq-ok (map_err _ (host.files.read_to_string path)) _ h in
      let (bytes, c, d) = >>=-eq-ok (map_err _ (host.files.parse_bytes contents)) _ b in
      (from_bytes-Loaded K S E bytes k (map_err-ok _ (from_bytes K S E bytes) d)).derived

  abbrev pub one_time_key : C.Scalar → K.Key
  one_time_key t = to_pubkey K C (scale t base)

  -- What a signing of `tx` by the one-time key of `t` and by `authority` comes to.
  pub data CoSigning (bytes : List ℕ) (t : C.Scalar) (authority : K.Key)
      (tx : SweepTx K C S H V M E) : Outcome (Unit {0}) (SweepTx K C S H V M E) → Type 0 where
    stranger :
        (key : K.Key)
        → (key ≡ one_time_key t) ⊎ (key ≡ authority)
        → All (λ signer. signer ≢ key) (required_signers S V K M tx)
        → CoSigning bytes t authority tx (err tt)
    co_signed :
        (mid tx' : SweepTx K C S H V M E)
        → Signed S V K M E bytes (one_time_key t) tx mid
        → Signed S V K M E bytes authority mid tx'
        → CoSigning bytes t authority tx (ok tx')

  abbrev pub one_time_signature : C.Scalar → List ℕ → List ℕ → S.Signature
  one_time_signature t prefix bytes =
      S.from_array (H.raw_sign t prefix bytes (H.key_of (scale t base)))

  -- Both sides of the package verify alike.
  abbrev pub VerifyAlike : Type 0
  VerifyAlike =
      (key message signature : List ℕ)
      → H.verify key message signature ≡ true
      → E.verify key message signature ≡ true

  one_time_signature-verify :
      (t : C.Scalar) (prefix bytes : List ℕ)
      → VerifyAlike
      → E.verify (K.as_ref (one_time_key t)) bytes (S.to_array (one_time_signature t prefix bytes))
        ≡ true
  one_time_signature-verify t prefix bytes alike = alike _ _ _ (
      rw (
        as_ref-to_pubkey K C (scale t base),
        S.to_array-from_array _ (H.length-raw_sign t prefix bytes (H.key_of (scale t base))),
        H.verify-raw_sign t prefix bytes,
      ))

  add_one_time_signature-insert :
      (prefix : List ℕ) (t : C.Scalar) (tx : SweepTx K C S H V M E) (body : List ℕ)
      → M.serialize tx.message ≡ ok body
      → add_one_time_signature K C S H V M E prefix t tx
        ≡ or_fail (
            insert_signature S V K M E
              (one_time_key t)
              (one_time_signature t prefix (version_prefix ∷ body))
              tx)
  unfolding add_one_time_signature message_bytes sign_with_recovered_key
  add_one_time_signature-insert prefix t tx body h =
      rw (h, H.verifying_key_from_bytes-compress (scale t base))

  module _ (t : C.Scalar) (k : Keypair K S E) (tx : SweepTx K C S H V M E) (body : List ℕ)
      (matched : IsMatched K S E k) (encodes : M.serialize tx.message ≡ ok body) where
    abbrev signing_bytes : List ℕ
    signing_bytes = version_prefix ∷ body

    authority-CoSigning :
        (mid : SweepTx K C S H V M E) (r : Outcome SignTransactionError (SweepTx K C S H V M E))
        → Signed S V K M E signing_bytes (one_time_key t) tx mid
        → Signing S V K M E signing_bytes k.pubkey mid r
        → CoSigning signing_bytes t k.pubkey tx (or_fail r)
    authority-CoSigning mid _ s (not_required n) = stranger k.pubkey (inr refl) (
        subst
          (λ m.
            All (λ signer. signer ≢ k.pubkey)
              (take (M.num_required_signatures m) (M.account_keys m)))
          s.message n)
    authority-CoSigning mid _ s (signs tx' s') = co_signed mid tx' s s'

    both-CoSigning :
        (r : Outcome SignTransactionError (SweepTx K C S H V M E))
        → Signing S V K M E signing_bytes (one_time_key t) tx r
        → CoSigning signing_bytes t k.pubkey tx
            (or_fail r >>= λ mid. or_fail (try_sign_versioned S V K M E k mid))
    both-CoSigning _ (not_required n) = stranger (one_time_key t) (inl refl) n
    both-CoSigning _ (signs mid s) =
        authority-CoSigning mid _ s
          (try_sign-Signing S V K M E k mid body matched (ap M.serialize s.message ∙ encodes)
            s.sound).0

  -- When the prompts give a one-time key, the transaction text gives a transaction with a slot and
  -- a key for each required signature whose message encodes, and the authority's file gives a key
  -- pair, then the signing of the sweep does not panic. It fails exactly when the one-time address
  -- or the authority is no required signer. Otherwise the slot of each of the two verifies, over
  -- the version byte and the message's encoding, the message is the one that was given, and every
  -- slot that verified before still does.
  pub sign_sweep-CoSigning :
      (host : SweepHost) (args : SweepArgs K.Key) (t : C.Scalar) (tx : SweepTx K C S H V M E)
      (k : Keypair K S E) (body : List ℕ)
      → VerifyAlike
      → recovered_key K C S H V M E host args ≡ ok t
      → try_from_base64 S V K M args.transaction_base64 ≡ ok tx
      → load_keypair_file K S E host.files args.nonce_authority_keypair_path ≡ ok k
      → M.serialize tx.message ≡ ok body
      → IsSound S V K M tx
      → CoSigning (version_prefix ∷ body) t k.pubkey tx (sign_sweep K C S H V M E host args)
  unfolding sign_sweep
  sign_sweep-CoSigning host args t tx k body alike recovered parsed loaded encodes sound =
      rw
        (
          recovered,
          parsed,
          loaded,
          add_one_time_signature-insert host.hash_prefix t tx body encodes,
        )
        (both-CoSigning t k tx body
          (load_keypair_file-IsMatched host args.nonce_authority_keypair_path k loaded) encodes _
          (insert_signature-Signing S V K M E (version_prefix ∷ body) (one_time_key t) _ tx
            (one_time_signature-verify t host.hash_prefix (version_prefix ∷ body) alike) sound))
