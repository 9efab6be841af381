-- ===== src/Examples/Sweep/Prepared.antt =====
-- What a run of the sweep posts: the text of the transaction with both signatures.
use mathlib.Core.Path.{subst}
use svm_wasi_core.Base.{
  take, sym, ap, ◌∙◌, refl, ℕ, String, ◌≡◌, inl, inr, some, All-get_elem?, List, ◌∷◌, get_elem?,
  Outcome, ok,
}
use svm_wasi_core.Base.Search.{FirstAt}
use svm_wasi_core.Keys.{Keys}
use svm_wasi_core.Sign.{Signatures, Ed25519, Keypair}
use svm_wasi_core.Stealth.Curves.{Curve, Hazmat}
use svm_wasi_core.Transaction.Signing.{IsSound, required_signers}
use svm_wasi_core.Transaction.Verified.{Verified}
use svm_wasi_core.Transaction.Wire.{
  CountsInByte, ReadsMessages, ReadsSignatures, EncodesSignatures, DecodesBase64, to_base64_total,
  try_from_base64-to_base64,
}
use svm_wasi_core.Transaction.{MessageFormat, Envelope, try_from_base64}
use svm_wasi_core.Rpc.Values.{Json}
use svm_wasi_core.Http.{Http}
use svm_wasi_core.Examples.Arguments.{SweepArgs, parse_sweep_args}
use svm_wasi_core.Examples.{load_keypair_file}
use svm_wasi_core.Examples.Sweep.{SweepHost, SweepTx, recovered_key, prepare_sweep}
use svm_wasi_core.Examples.Sweep.CoSigned.{
  CoSigning, stranger, co_signed, one_time_key, VerifyAlike, sign_sweep-CoSigning,
}

module _ (K : Keys) (C : Curve) (S : Signatures) (H : Hazmat C) (V : Envelope S.Signature String)
    {Hash : Type 0} (M : MessageFormat K.Key Hash) (E : Ed25519) where
  open V use {version_prefix}

  abbrev Tx : Type 0
  Tx = SweepTx K C S H V M E

  -- Both slots of a transaction that comes of `tx` verify over `bytes`.
  pub record BothVerify (bytes : List ℕ) (one_time authority : K.Key) (tx tx' : Tx) : Type 0 where
    pub message : tx'.message ≡ tx.message
    pub one_time_place : ℕ
    pub one_time_first :
        FirstAt K.key_discrete one_time (required_signers S V K M tx) one_time_place
    pub one_time_verified : Verified S V K M E bytes tx' one_time_place
    pub authority_place : ℕ
    pub authority_verified : Verified S V K M E bytes tx' authority_place
    pub authority_first :
        FirstAt K.key_discrete authority (required_signers S V K M tx) authority_place

  CoSigning-BothVerify :
      (bytes : List ℕ) (t : C.Scalar) (authority : K.Key) (tx : Tx) (i j : ℕ)
      (r : Outcome (Unit {0}) Tx)
      → get_elem? (required_signers S V K M tx) i ≡ some (one_time_key K C S H V M E t)
      → get_elem? (required_signers S V K M tx) j ≡ some authority
      → CoSigning K C S H V M E bytes t authority tx r
      → (tx' : Tx) × (r ≡ ok tx')
        × IsSound S V K M tx'
        × BothVerify bytes (one_time_key K C S H V M E t) authority tx tx'
  CoSigning-BothVerify bytes t authority tx i j _ one other (stranger key (inl p) n) =
      absurd (All-get_elem? _ _ i key n (one ∙ ap some (sym p)) refl)
  CoSigning-BothVerify bytes t authority tx i j _ one other (stranger key (inr p) n) =
      absurd (All-get_elem? _ _ j key n (other ∙ ap some (sym p)) refl)
  CoSigning-BothVerify bytes t authority tx i j _ one other (co_signed mid tx' s s') = (
    tx',
    refl,
    s'.sound,
    record {
      message = s'.message ∙ s.message;
      one_time_place = s.place;
      one_time_first = s.first;
      one_time_verified = s'.still s.place s.now;
      authority_place = s'.place;
      authority_verified = s'.now;
      authority_first =
          subst
            (λ m.
              FirstAt K.key_discrete authority
                (take (M.num_required_signatures m) (M.account_keys m)) s'.place)
            s.message s'.first;
    },
  )

  module _ (J : Json) (N : Http J.Value) (key_from_str : String → Outcome String K.Key) where
    -- When the arguments parse, the prompts give a one-time key, the text of the arguments is a
    -- transaction with a slot and a key for each required signature whose message encodes, the
    -- file holds a key pair, the one-time address and that pair's key are required signers, and a
    -- signature that one part of the signing package accepts is accepted by the other, then under
    -- what the packages document (base64 and bincode read back what they wrote, an array of at most
    -- 65535 signatures can be written, and a message's header counts the required signatures in a
    -- byte) a run gets as far as its first request: it prepares, for the URL of its arguments, a
    -- text that reads back as a transaction of the same message in which the slots of both signers
    -- verify.
    pub prepare_sweep-BothVerify :
        (host : SweepHost) (args : SweepArgs K.Key) (t : C.Scalar) (tx : Tx) (k : Keypair K S E)
        (body : List ℕ) (i j : ℕ)
        → VerifyAlike K C S H V M E
        → ReadsMessages M
        → ReadsSignatures V
        → EncodesSignatures V
        → CountsInByte M
        → DecodesBase64 V
        → parse_sweep_args key_from_str host.args ≡ ok args
        → recovered_key K C S H V M E host args ≡ ok t
        → try_from_base64 S V K M args.transaction_base64 ≡ ok tx
        → load_keypair_file K S E host.files args.nonce_authority_keypair_path ≡ ok k
        → M.serialize tx.message ≡ ok body
        → IsSound S V K M tx
        → get_elem? (required_signers S V K M tx) i ≡ some (one_time_key K C S H V M E t)
        → get_elem? (required_signers S V K M tx) j ≡ some k.pubkey
        → (text : String) × (tx' : Tx) × (prepare_sweep J N K C S H V M E key_from_str host
            ≡ ok (text, args.rpc_url))
          × (try_from_base64 S V K M text ≡ ok tx')
          × BothVerify (version_prefix ∷ body) (one_time_key K C S H V M E t) k.pubkey tx tx'
    unfolding prepare_sweep
    prepare_sweep-BothVerify host args t tx k body i j alike rm rs es counts d parsed recovered read
          loaded encodes sound one other =
        let (tx', signed, sound', both) =
          CoSigning-BothVerify (version_prefix ∷ body) t k.pubkey tx i j _ one other (
            sign_sweep-CoSigning K C S H V M E host args t tx k body alike recovered read loaded
              encodes sound) in
        let (text, written) =
          to_base64_total S V K M tx' body es counts sound'
            (ap M.serialize both.message ∙ encodes) in
        (
          text,
          tx',
          rw (parsed, signed, written),
          try_from_base64-to_base64 S V K M tx' text rm rs d written,
          both,
        )
