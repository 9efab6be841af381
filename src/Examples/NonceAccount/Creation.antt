-- ===== src/Examples/NonceAccount/Creation.antt =====
-- The signatures of the transaction that creates a nonce account.
use svm_wasi_core.Base.{
  >>=-eq-ok, expect, ap, ◌∙◌, ℕ, String, ◌≡◌, ◌≤◌, some, List, [], ◌∷◌, ◌++◌, length, get_elem?, ok,
}
use svm_wasi_core.Keys.{Keys}
use svm_wasi_core.Sign.{Signatures, Ed25519, Keypair}
use svm_wasi_core.Sign.Laws.{from_bytes-seed}
use svm_wasi_core.Transaction.Signing.{IsSound, new_unsigned-IsSound}
use svm_wasi_core.Transaction.Verified.{Verified}
use svm_wasi_core.Transaction.Complete.{
  signers, AllSigners, Holds, AreDistinct, sign_all, sign_all-Verified,
}
use svm_wasi_core.Transaction.Envelopes.{Tx}
use svm_wasi_core.Transaction.{
  MessageFormat, Envelope, new_unsigned, try_sign_legacy, to_base64_legacy, serialize_legacy,
  serialize_with_signatures,
}
use svm_wasi_core.Transaction.Wire.{few_signatures, CountsInByte, EncodesSignatures}
use svm_wasi_core.Message.{Compilers}
use svm_wasi_core.Examples.NonceAccount.{NoncePrograms, fresh_keypair, sign_creation}
use svm_wasi_core.Examples.{or_fail}

module _ (K : Keys) (S : Signatures) (V : Envelope S.Signature String) {Hash AccountMeta : Type 0}
    (Legacy V0 : MessageFormat K.Key Hash) (C : Compilers Legacy V0 AccountMeta)
    (P : NoncePrograms K.Key AccountMeta) (E : Ed25519) where
  open V use {serialize_signatures}

  to_base64_legacy_total :
      (tx : Tx S V K Legacy E) (body : List ℕ)
      → EncodesSignatures V
      → CountsInByte Legacy
      → IsSound S V K Legacy tx
      → Legacy.serialize tx.message ≡ ok body
      → (text : String) × (to_base64_legacy S V K Legacy tx ≡ ok text)
  unfolding to_base64_legacy serialize_legacy serialize_with_signatures
  to_base64_legacy_total tx body total counts sound h =
      let (sigs, e) = total tx.signatures (few_signatures S V K Legacy tx counts sound) in
      (V.encode (sigs ++ body), rw (h, e))

  sign_creation-sign_all :
      (payer nonce_keypair : Keypair K S E) (m : Legacy.Message) (tx : Tx S V K Legacy E)
      → sign_all S V K Legacy E
          (try_sign_legacy S V K Legacy E)
          (payer ∷ nonce_keypair ∷ [])
          (new_unsigned S V K Legacy m)
        ≡ ok tx
      → sign_creation K S V Legacy V0 C P E payer nonce_keypair m
        ≡ or_fail (to_base64_legacy S V K Legacy tx)
  unfolding sign_creation sign_all
  sign_creation-sign_all payer nonce_keypair m tx h =
      let (first, p, rest) = >>=-eq-ok (try_sign_legacy S V K Legacy E payer _) _ h in
      let (second, q, done) =
        >>=-eq-ok (try_sign_legacy S V K Legacy E nonce_keypair first) _ rest in
      rw (p, q) (ap (λ t. or_fail (to_base64_legacy S V K Legacy t)) cc)

  -- The key pair of a seed.
  abbrev pub fresh : List ℕ → Keypair K S E
  fresh seed = record {
    signing_key = E.from_seed seed;
    pubkey = K.new_from_array (E.verifying_key (E.from_seed seed));
  }

  -- When a message encodes, has a key for each required signature and no required signer twice,
  -- the key pair of the payer matches, and the payer and the key of a 32-byte seed are required
  -- signers, then under what the packages document (an array of at most 65535 signatures can be
  -- written, and a message's header counts the required signatures in a byte) making the key pair
  -- of the seed does not panic, both signatures succeed, and the text to send is that of a
  -- transaction of the message in which the slot of each of the two verifies over the message's
  -- encoding.
  pub sign_creation-Verified :
      (payer : Keypair K S E) (seed : List ℕ) (m : Legacy.Message) (body : List ℕ) (j : ℕ)
      (key : K.Key)
      → EncodesSignatures V
      → CountsInByte Legacy
      → length seed ≡ 32
      → Legacy.serialize m ≡ ok body
      → Legacy.num_required_signatures m ≤ length (Legacy.account_keys m)
      → AreDistinct S V K Legacy E m
      → AllSigners S V K Legacy E m (payer ∷ fresh seed ∷ [])
      → get_elem? (signers S V K Legacy E m) j ≡ some key
      → Holds S V K Legacy E (payer ∷ fresh seed ∷ []) key
      → (fresh_keypair K S V Legacy V0 C P E seed ≡ ok (fresh seed))
        × ((tx : Tx S V K Legacy E) × (text : String) × (sign_creation K S V Legacy V0 C P E payer
                (fresh seed)
                m
              ≡ ok text)
            × (to_base64_legacy S V K Legacy tx ≡ ok text)
            × (tx.message ≡ m)
            × Verified S V K Legacy E body tx j)
  unfolding fresh_keypair new_unsigned
  sign_creation-Verified payer seed m body j key total counts seeded encodes enough distinct all
        there held =
      let unsigned = new_unsigned S V K Legacy m in
      let sound = (new_unsigned-IsSound S V K Legacy m enough).0 in
      let (tx, signed, same, sound', verified) =
        (sign_all-Verified S V K Legacy E unsigned body (payer ∷ fresh seed ∷ []) j key encodes
          sound distinct all there held).1 in
      let (text, e) =
        to_base64_legacy_total tx body total counts sound' (ap Legacy.serialize same ∙ encodes) in
      (
        ap expect (from_bytes-seed K S E seed seeded),
        (
          tx,
          text,
          sign_creation-sign_all payer (fresh seed) m tx signed ∙ ap or_fail e,
          e,
          same,
          verified,
        ),
      )
