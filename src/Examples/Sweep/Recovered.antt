-- ===== src/Examples/Sweep/Recovered.antt =====
-- The three examples' secrets: those of a meta-address open the payments that are made to it.
use svm_wasi_core.Base.{String, ◌≡◌, ap, ◌∙◌, ok, >>=-eq-ok}
use svm_wasi_core.Keys.{Keys}
use svm_wasi_core.Texts.{trim}
use svm_wasi_core.Sign.{Signatures, Ed25519}
use svm_wasi_core.Stealth.Curves.{Curve, Hazmat}
use svm_wasi_core.Stealth.Laws.{recompute-derive, recover-recompute, scalar_from_hex-scalar_to_hex}
use svm_wasi_core.Stealth.{
  generate_keypair, ephemeral_keypair, derive_one_time_address, recover_one_time_privkey,
}
use svm_wasi_core.Transaction.{MessageFormat, Envelope}
use svm_wasi_core.Examples.Arguments.{SweepArgs}
use svm_wasi_core.Examples.{meta_address}
use svm_wasi_core.Examples.Sweep.{SweepHost, recovered_key}
use svm_wasi_core.Examples.Sweep.CoSigned.{one_time_key}

module _ (K : Keys) (C : Curve) (S : Signatures) (H : Hazmat C) (V : Envelope S.Signature String)
    {Hash : Type 0} (M : MessageFormat K.Key Hash) (E : Ed25519) where
  open C use {Scalar, base, scale, hex_encode}

  -- What is typed at the two prompts: the hex that was shown for the two scalars, perhaps with
  -- blanks around it.
  pub record Typed (scan spend : Scalar) (host : SweepHost) : Type 0 where
    pub scan_text : String
    pub spend_text : String
    pub scan_typed : host.scan_privkey ≡ ok scan_text
    pub spend_typed : host.spend_privkey ≡ ok spend_text
    pub scan_shown : trim scan_text ≡ (meta_address K C scan spend).scan_privkey
    pub spend_shown : trim spend_text ≡ (meta_address K C scan spend).spend_privkey

  recovered_key-recover :
      (scan spend : Scalar) (host : SweepHost) (args : SweepArgs K.Key) (t : Scalar)
      → Typed scan spend host
      → recover_one_time_privkey K C scan args.ephemeral_pubkey spend ≡ ok t
      → recovered_key K C S H V M E host args ≡ ok t
  unfolding recovered_key meta_address generate_keypair
  recovered_key-recover scan spend host args t typed h = rw (
    typed.scan_typed,
    typed.spend_typed,
    typed.scan_shown,
    typed.spend_shown,
    scalar_from_hex-scalar_to_hex K C scan,
    scalar_from_hex-scalar_to_hex K C spend,
    h,
  )

  recover-address :
      (scan spend ephemeral : Scalar) (address : K.Key)
      → derive_one_time_address K C
          (meta_address K C scan spend).scan_pubkey
          (meta_address K C scan spend).spend_pubkey
          ephemeral
        ≡ ok address
      → (t : Scalar) × (recover_one_time_privkey K C scan (ephemeral_keypair K C ephemeral).1 spend
          ≡ ok t)
        × ((generate_keypair K C t).1 ≡ address)
  unfolding meta_address
  recover-address scan spend ephemeral address paid =
      let (t, p, q) =
        >>=-eq-ok (recover_one_time_privkey K C scan (ephemeral_keypair K C ephemeral).1 spend) _ (
          recover-recompute K C scan spend (ephemeral_keypair K C ephemeral).1
          ∙ (recompute-derive K C scan ephemeral (generate_keypair K C spend).1 ∙ paid)) in
      (t, p, cc)

  -- When a sender derived an address from the two public keys of a meta-address, then a sweep that
  -- is given the two shown secrets of that meta-address, blanks around them aside, and the
  -- sender's ephemeral public key recovers a private key whose public key is that address.
  pub recovered_key-meta_address :
      (scan spend ephemeral : Scalar) (address : K.Key) (host : SweepHost) (args : SweepArgs K.Key)
      → derive_one_time_address K C
          (meta_address K C scan spend).scan_pubkey
          (meta_address K C scan spend).spend_pubkey
          ephemeral
        ≡ ok address
      → args.ephemeral_pubkey ≡ (ephemeral_keypair K C ephemeral).1
      → Typed scan spend host
      → (t : Scalar) × (recovered_key K C S H V M E host args ≡ ok t)
        × (one_time_key K C S H V M E t ≡ address)
  unfolding generate_keypair
  recovered_key-meta_address scan spend ephemeral address host args paid published typed =
      let (t, p, q) = recover-address scan spend ephemeral address paid in
      (
        t,
        recovered_key-recover scan spend host args t typed
            (ap (λ e. recover_one_time_privkey K C scan e spend) published ∙ p),
        q,
      )
