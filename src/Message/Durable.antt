-- ===== src/Message/Durable.antt =====
-- From a nonce account to an unsigned transaction that spends its nonce.
use svm_wasi_core.Base.{◌≡◌, ◌∙◌, ap, some, List, ◌∷◌, map, ok}
use svm_wasi_core.Keys.{Keys}
use svm_wasi_core.Sign.{Signatures, Ed25519, Keypair}
use svm_wasi_core.Transaction.Complete.{sign_all, sign_all-message}
use svm_wasi_core.Transaction.Wire.{
  ReadsMessages, ReadsSignatures, DecodesBase64, try_from_base64-to_base64,
}
use svm_wasi_core.Instruction.{Instruction}
use svm_wasi_core.Transaction.{
  MessageFormat, Envelope, Transaction, new_unsigned, blockhash_of, try_sign_versioned, to_base64,
  try_from_base64,
}
use svm_wasi_core.Message.{
  Compilers, compile_legacy_with_durable_nonce, compile_v0_with_durable_nonce,
}

module _ (S : Signatures) {Text : Type 0} (V : Envelope S.Signature Text) (K : Keys)
    {Hash AccountMeta : Type 0} (Legacy V0 : MessageFormat K.Key Hash)
    (C : Compilers Legacy V0 AccountMeta) where
  open K use {Key}
  open C use {advance_nonce_account, instruction_data, instruction_data_v0, LookupTable}

  -- An unsigned transaction for a durable nonce has the nonce's value as its recent blockhash, and
  -- its first instruction is the one that advances the nonce, before all the others in their order:
  -- for the legacy format, and for the v0 format when the message compiles.
  new_unsigned-durable :
      (payer account authority : Key) (nonce : Hash) (ixs : List (Instruction Key AccountMeta))
      (tables : List LookupTable) (m : V0.Message)
      → compile_v0_with_durable_nonce Legacy V0 C payer account authority nonce ixs tables ≡ ok m
      → let legacy =
          new_unsigned S V K Legacy
            (compile_legacy_with_durable_nonce Legacy V0 C payer account authority nonce ixs) in
        let v0 = new_unsigned S V K V0 m in
        let expected =
          (advance_nonce_account account authority).ix_data ∷ map (λ ix. ix.ix_data) ixs in
        (blockhash_of S V K Legacy legacy ≡ nonce)
        × (instruction_data legacy.message ≡ expected)
        × (blockhash_of S V K V0 v0 ≡ nonce)
        × (instruction_data_v0 v0.message ≡ expected)
  unfolding new_unsigned blockhash_of compile_legacy_with_durable_nonce
      compile_v0_with_durable_nonce
  new_unsigned-durable payer account authority nonce ixs tables m h = (
    C.recent_blockhash-set nonce _,
    C.instruction_data-set nonce _ ∙ C.instruction_data-new_message _ (some payer),
    C.recent_blockhash-try_compile payer _ tables nonce m h,
    C.instruction_data_v0-try_compile payer _ tables nonce m h,
  )

  -- When a v0 message for a durable nonce compiles, and an unsigned transaction of it is signed
  -- with any key pairs and written as base64 text, then under what bincode and base64 document the
  -- text reads back as that transaction. Its recent blockhash is the nonce's value, which is what
  -- a broadcaster compares, and its first instruction advances the nonce, before the others in
  -- their order.
  pub try_from_base64-durable :
      (payer account authority : Key) (nonce : Hash) (ixs : List (Instruction Key AccountMeta))
      (tables : List LookupTable) (m : V0.Message) (E : Ed25519) (ks : List (Keypair K S E))
      (tx : Transaction S.Signature V0.Message) (text : Text)
      → ReadsMessages V0
      → ReadsSignatures V
      → DecodesBase64 V
      → compile_v0_with_durable_nonce Legacy V0 C payer account authority nonce ixs tables ≡ ok m
      → sign_all S V K V0 E (try_sign_versioned S V K V0 E) ks (new_unsigned S V K V0 m) ≡ ok tx
      → to_base64 S V K V0 tx ≡ ok text
      → (try_from_base64 S V K V0 text ≡ ok tx)
        × (blockhash_of S V K V0 tx ≡ nonce)
        × (instruction_data_v0 tx.message
            ≡ (advance_nonce_account account authority).ix_data ∷ map (λ ix. ix.ix_data) ixs)
  unfolding blockhash_of
  try_from_base64-durable payer account authority nonce ixs tables m E ks tx text rm rs d compiled
        signed written =
      let same = sign_all-message S V K V0 E ks (new_unsigned S V K V0 m) tx signed in
      let (_, _, hash, first) =
        new_unsigned-durable payer account authority nonce ixs tables m compiled in
      (
        try_from_base64-to_base64 S V K V0 tx text rm rs d written,
        ap V0.recent_blockhash same ∙ hash,
        ap instruction_data_v0 same ∙ first,
      )
