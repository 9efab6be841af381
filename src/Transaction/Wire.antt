-- ===== src/Transaction/Wire.antt =====
-- The wire format: what `try_from_bytes` makes of what `serialize` writes, and of other bytes.
use svm_wasi_core.Base.{
  expect, ℕ, ◌≡◌, ◌≢◌, ◌≤◌, refl, List, ◌∷◌, ◌++◌, length, length-append, drop-append, Outcome, ok,
  err, panic, ◌>>=◌, le→leb, eq→==, ==→eq, ◌==◌, Bool-cases, inl, inr, arith, String, >>=-eq-ok,
}
use svm_wasi_core.Keys.{Keys}
use svm_wasi_core.Sign.{Signatures}
use svm_wasi_core.Transaction.Errors.{ParseVersionedTransactionError}
use svm_wasi_core.Transaction.Signing.{IsSound}
use svm_wasi_core.Transaction.{
  Transaction, MessageFormat, Envelope, serialize_with_signatures, serialize_legacy,
  serialize_versioned, message_bytes, to_base64, parse_message, try_from_bytes, try_from_base64,
}

-- Documented behaviour of bincode: it reads back what it wrote.
abbrev pub ReadsMessages : {Key Hash : Type 0} → MessageFormat Key Hash → Type 0
ReadsMessages M =
    (m : M.Message) (bytes : List ℕ) → M.serialize m ≡ ok bytes → M.deserialize bytes ≡ ok m

-- The same for the signature array, with other bytes behind it and the cursor at its end.
abbrev pub ReadsSignatures : {Signature Text : Type 0} → Envelope Signature Text → Type 0
ReadsSignatures {Signature} V =
    (sigs : List Signature) (bytes rest : List ℕ)
    → V.serialize_signatures sigs ≡ ok bytes
    → V.deserialize_signatures (bytes ++ rest) ≡ ok (sigs, length bytes)

-- Documented behaviour of bincode with solana-short-vec: it encodes every array of at most 65535
-- signatures. A longer array is an error.
abbrev pub EncodesSignatures : {Signature Text : Type 0} → Envelope Signature Text → Type 0
EncodesSignatures {Signature} V =
    (sigs : List Signature)
    → length sigs ≤ 65535
    → (bytes : List ℕ) × (V.serialize_signatures sigs ≡ ok bytes)

-- The header of a message counts the required signatures in a `u8`.
abbrev pub CountsInByte : {Key Hash : Type 0} → MessageFormat Key Hash → Type 0
CountsInByte M = (m : M.Message) → M.num_required_signatures m ≤ 255

-- Documented behaviour of base64.
abbrev pub DecodesBase64 : {Signature Text : Type 0} → Envelope Signature Text → Type 0
DecodesBase64 V = (bytes : List ℕ) → V.decode (V.encode bytes) ≡ ok bytes

module _ (S : Signatures) {Text : Type 0} (V : Envelope S.Signature Text) (K : Keys) {Hash : Type 0}
    (M : MessageFormat K.Key Hash) where
  open S use {Signature}
  open M use {Message, serialize, deserialize}
  open V use {serialize_signatures, deserialize_signatures, version_prefix, encode, decode}

  abbrev Parsed : Type 0
  Parsed = Outcome ParseVersionedTransactionError (Transaction Signature Message)

  -- The cursor after the signature array is at most at the end of the input.
  try_from_bytes_sigs :
      (bytes rest : List ℕ) (sigs : List Signature)
      → deserialize_signatures (bytes ++ rest) ≡ ok (sigs, length bytes)
      → try_from_bytes S V K M (bytes ++ rest) ≡ parse_message S V K M sigs rest
  unfolding try_from_bytes
  try_from_bytes_sigs bytes rest sigs h = rw (
    h,
    le→leb (length bytes) (length (bytes ++ rest)) (omega (arith, length-append bytes rest)),
    drop-append (length bytes) bytes rest refl,
  )

  parse_message_ok :
      (sigs : List Signature) (bytes : List ℕ) (m : Message)
      → deserialize bytes ≡ ok m
      → parse_message S V K M sigs (version_prefix ∷ bytes)
        ≡ ok (record { signatures = sigs; message = m })
  unfolding parse_message
  parse_message_ok sigs bytes m h = rw (eq→== version_prefix version_prefix refl, h)

  parse_message_legacy :
      (sigs : List Signature) (b : ℕ) (bytes : List ℕ)
      → b ≢ version_prefix
      → parse_message S V K M sigs (b ∷ bytes) ≡ err ParseVersionedTransactionError.not_versioned
  unfolding parse_message
  parse_message_legacy sigs b bytes h = elim (Bool-cases (b == version_prefix)) [
    | inl e ↦ absurd (h (==→eq _ _ e))
    | inr e ↦ rw e
  ]

  -- What a `serialize` that returned was made of.
  pub serialize_parts :
      (tx : Transaction Signature Message) (bytes : List ℕ)
      → serialize_versioned S V K M tx ≡ ok bytes
      → (front : List ℕ) × (body : List ℕ) × (serialize_signatures tx.signatures ≡ ok front)
        × (serialize tx.message ≡ ok body)
        × (bytes ≡ front ++ (version_prefix ∷ body))
  unfolding serialize_versioned message_bytes serialize_with_signatures
  serialize_parts tx bytes h =
      go (serialize_signatures tx.signatures) (serialize tx.message) refl refl h
    where
      go :
          (a b : Outcome String (List ℕ))
          → serialize_signatures tx.signatures ≡ a
          → serialize tx.message ≡ b
          → ◌≡◌ {A = Outcome ParseVersionedTransactionError (List ℕ)}
              ((expect b >>= λ t. ok (version_prefix ∷ t)) >>= λ t. (expect a >>= λ u. ok (u ++ t)))
              (ok bytes)
          → (front : List ℕ) × (body : List ℕ) × (serialize_signatures tx.signatures ≡ ok front)
            × (serialize tx.message ≡ ok body)
            × (bytes ≡ front ++ (version_prefix ∷ body))
      go (ok a) (ok b) p q e = (a, b, p, q, cc)
      go (err x) (ok b) p q e = cc
      go panic (ok b) p q e = cc
      go a (err x) p q e = cc
      go a panic p q e = cc

  -- Under what bincode documents, parsing the bytes that `serialize` wrote gives the transaction.
  pub try_from_bytes-serialize :
      (tx : Transaction Signature Message) (bytes : List ℕ)
      → ReadsMessages M
      → ReadsSignatures V
      → serialize_versioned S V K M tx ≡ ok bytes
      → try_from_bytes S V K M bytes ≡ ok tx
  try_from_bytes-serialize tx bytes rm rs h =
      let (front, body, p, q, e) = serialize_parts tx bytes h in
      rw
        (
          e,
          try_from_bytes_sigs front (version_prefix ∷ body) tx.signatures
              (rs tx.signatures front (version_prefix ∷ body) p),
        )
        (parse_message_ok tx.signatures body tx.message (rm tx.message body q))

  -- There are few enough signatures in a sound transaction.
  pub few_signatures :
      (tx : Transaction Signature Message)
      → CountsInByte M
      → IsSound S V K M tx
      → length tx.signatures ≤ 65535
  few_signatures tx counts sound = omega (arith, counts tx.message, sound.slots)

  pub to_base64_total :
      (tx : Transaction Signature Message) (body : List ℕ)
      → EncodesSignatures V
      → CountsInByte M
      → IsSound S V K M tx
      → serialize tx.message ≡ ok body
      → (text : Text) × (to_base64 S V K M tx ≡ ok text)
  unfolding to_base64 serialize_versioned message_bytes serialize_with_signatures
  to_base64_total tx body total counts sound h =
      let (sigs, e) = total tx.signatures (few_signatures tx counts sound) in
      (encode (sigs ++ (version_prefix ∷ body)), rw (h, e))

  -- Under what bincode and base64 document, `try_from_base64` gives back the transaction whose text
  -- `to_base64` returned.
  pub try_from_base64-to_base64 :
      (tx : Transaction Signature Message) (text : Text)
      → ReadsMessages M
      → ReadsSignatures V
      → DecodesBase64 V
      → to_base64 S V K M tx ≡ ok text
      → try_from_base64 S V K M text ≡ ok tx
  unfolding to_base64 try_from_base64
  try_from_base64-to_base64 tx text rm rs d h =
      let (bytes, p, q) = >>=-eq-ok (serialize_versioned S V K M tx) _ h in
      let e : encode bytes ≡ text = cc in
      rw (← e, d bytes) (try_from_bytes-serialize tx bytes rm rs p)

  module _ (L : MessageFormat K.Key Hash) where
    legacy_parts :
        (tx : Transaction Signature L.Message) (bytes body : List ℕ)
        → serialize_legacy S V K L tx ≡ ok bytes
        → L.serialize tx.message ≡ ok body
        → (front : List ℕ) × (serialize_signatures tx.signatures ≡ ok front)
          × (bytes ≡ front ++ body)
    unfolding serialize_legacy serialize_with_signatures
    legacy_parts tx bytes body h q = go (serialize_signatures tx.signatures) refl (rw q at h)
      where
        go :
            (a : Outcome String (List ℕ))
            → serialize_signatures tx.signatures ≡ a
            → ◌≡◌ {A = Outcome ParseVersionedTransactionError (List ℕ)}
                (expect a >>= λ u. ok (u ++ body))
                (ok bytes)
            → (front : List ℕ) × (serialize_signatures tx.signatures ≡ ok front)
              × (bytes ≡ front ++ body)
        go (ok a) p e = (a, p, cc)
        go (err x) p e = cc
        go panic p e = cc

    -- Under what bincode documents, the bytes of a legacy transaction are refused as not versioned, if
    -- the encoding of its message is not empty and does not begin with the version prefix.
    pub try_from_bytes-legacy :
        (tx : Transaction Signature L.Message) (bytes body : List ℕ) (b : ℕ)
        → ReadsSignatures V
        → serialize_legacy S V K L tx ≡ ok bytes
        → L.serialize tx.message ≡ ok (b ∷ body)
        → b ≢ version_prefix
        → try_from_bytes S V K M bytes ≡ err ParseVersionedTransactionError.not_versioned
    try_from_bytes-legacy tx bytes body b rs h q n =
        let (front, p, e) = legacy_parts tx bytes (b ∷ body) h q in
        rw
          (
            e,
            try_from_bytes_sigs front (b ∷ body) tx.signatures
                (rs tx.signatures front (b ∷ body) p),
          )
          (parse_message_legacy tx.signatures b body n)
