-- ===== src/Tests/Payments.antt =====
-- The theorems on key pairs, transactions and stealth addresses, at concrete inputs.
use mathlib.Core.List.{Permᴰ, Pairwise, not-mem-nil}
use mathlib.Core.List.Memᴰ
use mathlib.Core.Logic.{∥∥₁_elim}
use mathlib.Core.HLevel.{⊥_prop}
use svm_wasi_core.Base.{
  zero, suc, inl, inr, arith, ℕ, ◌+◌, ◌*◌, ◌≡◌, ◌≢◌, refl, sym, ap, ◌∙◌, Bool, true, false, Option,
  some, none, All, List, [], ◌∷◌, ◌++◌, length, replicate, length-replicate, ◌==◌, if◌then◌else◌,
  Outcome, ok, err, ◌>>=◌, String, Bool-cases,
}
use svm_wasi_core.Base.Search.{bytes_eq, bytes_eq_refl, bytes_eq→eq}
use svm_wasi_core.Sign.{Keypair, from_bytes, sign_message}
use svm_wasi_core.Sign.Laws.{Answer, from_bytes-Answer}
use svm_wasi_core.Transaction.{
  Transaction, new_unsigned, insert_signature, try_sign_versioned, try_sign_legacy,
  serialize_versioned, serialize_legacy, to_base64, try_from_bytes, try_from_base64,
}
use svm_wasi_core.Transaction.Errors.{ParseVersionedTransactionError}
use svm_wasi_core.Transaction.Signing.{IsSound}
use svm_wasi_core.Transaction.Verified.{Verified, Signing}
use svm_wasi_core.Transaction.Envelopes.{try_sign-Signing}
use svm_wasi_core.Transaction.Malformed.{Verdict, parsed-Verdict}
use svm_wasi_core.Transaction.Reachable.{Reachable, Slots, Reachable-Slots}
use svm_wasi_core.Transaction.Complete.{sign_all, sign_all-Verified}
use svm_wasi_core.Transaction.Wire.{try_from_bytes-legacy}
use svm_wasi_core.Transaction.Order.{AllDiffer, sign_all_comm}
use svm_wasi_core.Tests.Vectors.{Vec, vec_of, vec_discrete}
use svm_wasi_core.Tests.Samples.{
  signers_differ, sample_keys, key, sample_signatures, sample_ed25519, sample_messages,
  sample_envelope, sample_envelope-ReadsSignatures,
}

abbrev seed : List ℕ
seed = replicate 32 5

abbrev pair : Keypair sample_keys sample_signatures sample_ed25519
pair = record { signing_key = vec_of 32 seed; pubkey = vec_of 32 seed }

from_bytes-Answer_example :
    Answer sample_keys sample_signatures sample_ed25519
      (1 ∷ [])
      (from_bytes sample_keys sample_signatures sample_ed25519 (1 ∷ []))
from_bytes-Answer_example = from_bytes-Answer sample_keys sample_signatures sample_ed25519 (1 ∷ [])

-- The key pair of account 1, and a transaction with two empty slots.
abbrev first : Keypair sample_keys sample_signatures sample_ed25519
first = record { signing_key = key 1; pubkey = key 1 }

abbrev Tx : Type 0
Tx = Transaction (Vec 64) (List ℕ)

abbrev unsigned : Tx
unsigned = record { signatures = vec_of 64 [] ∷ vec_of 64 [] ∷ []; message = 6 ∷ 7 ∷ [] }

abbrev signed : Tx
signed = record {
  signatures =
      vec_of 64 (sample_keys.as_ref (key 1) ++ sample_keys.as_ref (key 1)) ∷ vec_of 64 [] ∷ [];
  message = 6 ∷ 7 ∷ [];
}

unsigned-IsSound : IsSound sample_signatures sample_envelope sample_keys sample_messages unsigned
unsigned-IsSound = record { slots = refl; keys = omega arith }

try_sign-Signing_example :
    Signing sample_signatures sample_envelope sample_keys sample_messages sample_ed25519
      (128 ∷ 6 ∷ 7 ∷ [])
      (key 1)
      unsigned
      (try_sign_versioned sample_signatures sample_envelope sample_keys sample_messages
        sample_ed25519 first unsigned)
    × Signing sample_signatures sample_envelope sample_keys sample_messages sample_ed25519
        (6 ∷ 7 ∷ [])
        (key 1)
        unsigned
        (try_sign_legacy sample_signatures sample_envelope sample_keys sample_messages
          sample_ed25519 first unsigned)
try_sign-Signing_example =
    try_sign-Signing sample_signatures sample_envelope sample_keys sample_messages sample_ed25519
      first unsigned (6 ∷ 7 ∷ []) refl refl unsigned-IsSound

abbrev second : Keypair sample_keys sample_signatures sample_ed25519
second = record { signing_key = key 2; pubkey = key 2 }

sign_all-Verified_example :
    ((tx' : Tx) × (sign_all sample_signatures sample_envelope sample_keys sample_messages
          sample_ed25519
          (try_sign_versioned sample_signatures sample_envelope sample_keys sample_messages
            sample_ed25519)
          (second ∷ first ∷ [])
          unsigned
        ≡ ok tx')
      × (tx'.message ≡ 6 ∷ 7 ∷ [])
      × IsSound sample_signatures sample_envelope sample_keys sample_messages tx'
      × Verified sample_signatures sample_envelope sample_keys sample_messages sample_ed25519
          (128 ∷ 6 ∷ 7 ∷ [])
          tx'
          0)
    × ((tx' : Tx) × (sign_all sample_signatures sample_envelope sample_keys sample_messages
            sample_ed25519
            (try_sign_legacy sample_signatures sample_envelope sample_keys sample_messages
              sample_ed25519)
            (second ∷ first ∷ [])
            unsigned
          ≡ ok tx')
        × (tx'.message ≡ 6 ∷ 7 ∷ [])
        × IsSound sample_signatures sample_envelope sample_keys sample_messages tx'
        × Verified sample_signatures sample_envelope sample_keys sample_messages sample_ed25519
            (6 ∷ 7 ∷ [])
            tx'
            0)
sign_all-Verified_example =
    sign_all-Verified sample_signatures sample_envelope sample_keys sample_messages sample_ed25519
      unsigned (6 ∷ 7 ∷ []) (second ∷ first ∷ []) 0 (key 1) refl unsigned-IsSound signers_differ
      ((refl, (1, refl)), ((refl, (0, refl)), tt)) refl (inr (inl refl))

abbrev wire : List ℕ
wire =
    2
    ∷ (sample_keys.as_ref (key 1)
        ++ (sample_keys.as_ref (key 1) ++ (replicate 64 0 ++ (128 ∷ (6 ∷ (7 ∷ []))))))

-- A transaction without slots.
abbrev slotless : Tx
slotless = record { signatures = []; message = 6 ∷ 7 ∷ [] }

parsed-Verdict_example :
    (try_from_bytes sample_signatures sample_envelope sample_keys sample_messages
        (0 ∷ 128 ∷ 6 ∷ 7 ∷ [])
      ≡ ok slotless)
    × Verdict sample_signatures sample_envelope sample_keys sample_messages sample_ed25519
        (key 2)
        (vec_of 64 seed)
        slotless
        (insert_signature sample_signatures sample_envelope sample_keys sample_messages
          sample_ed25519
          (key 2)
          (vec_of 64 seed)
          slotless)
    × ((body : List ℕ) × (sample_messages.serialize (6 ∷ 7 ∷ []) ≡ ok body)
        × Verdict sample_signatures sample_envelope sample_keys sample_messages sample_ed25519
            (key 1)
            (sign_message sample_keys sample_signatures sample_ed25519 first (128 ∷ body))
            slotless
            (try_sign_versioned sample_signatures sample_envelope sample_keys sample_messages
              sample_ed25519 first slotless))
unfolding serialize_versioned svm_wasi_core.Transaction.message_bytes
    svm_wasi_core.Transaction.serialize_with_signatures
parsed-Verdict_example =
    parsed-Verdict sample_signatures sample_envelope sample_keys sample_messages sample_ed25519
      slotless (0 ∷ 128 ∷ 6 ∷ 7 ∷ []) (key 2) (vec_of 64 seed) first (λ m bytes h. sym h)
      sample_envelope-ReadsSignatures refl

abbrev legacy_wire : List ℕ
legacy_wire =
    2
    ∷ (sample_keys.as_ref (key 1)
        ++ (sample_keys.as_ref (key 1) ++ (replicate 64 0 ++ (6 ∷ (7 ∷ [])))))

try_from_bytes-legacy_example :
    try_from_bytes sample_signatures sample_envelope sample_keys sample_messages legacy_wire
    ≡ err ParseVersionedTransactionError.not_versioned
unfolding serialize_legacy svm_wasi_core.Transaction.serialize_with_signatures
try_from_bytes-legacy_example =
    try_from_bytes-legacy sample_signatures sample_envelope sample_keys sample_messages
      sample_messages signed legacy_wire (7 ∷ []) 6 sample_envelope-ReadsSignatures refl refl
      (λ e. omega (arith, e))

abbrev sample_bytes : List ℕ
sample_bytes = 6 ∷ 7 ∷ []

signed_once :
    Reachable sample_signatures sample_envelope sample_keys sample_messages sample_ed25519
      sample_bytes sample_bytes refl signed
unfolding try_sign_versioned svm_wasi_core.Transaction.sign_into sign_message new_unsigned
    svm_wasi_core.Base.slice svm_wasi_core.Base.Search.position vec_discrete
    native.Mathlib.Decide.ℕ_discrete svm_wasi_core.Base.store
    svm_wasi_core.Transaction.message_bytes
signed_once = Reachable.signed first unsigned signed refl refl Reachable.unsigned

Reachable-Slots_example :
    Slots sample_signatures sample_envelope sample_keys sample_messages sample_ed25519 sample_bytes
      sample_bytes refl signed
Reachable-Slots_example =
    Reachable-Slots sample_signatures sample_envelope sample_keys sample_messages sample_ed25519
      sample_bytes sample_bytes refl signed (omega arith) signed_once

first-second : first.pubkey ≢ second.pubkey
first-second e = let heads : ◌≡◌ {A = ℕ} 1 2 = ap (λ v. v.0) e in cc

-- The two key pairs are for the first two accounts.
pairs-AllDiffer :
    AllDiffer sample_signatures sample_envelope sample_keys sample_messages sample_ed25519
      (first ∷ second ∷ [])
pairs-AllDiffer =
    Pairwise.cons
      (λ l m e.
        ∥∥₁_elim m ⊥_prop (λ d. first-second (e ∙ ap (λ k. k.pubkey) (Memᴰ.eq_of_singleton d))))
      (Pairwise.cons (λ l m e. not-mem-nil m) Pairwise.nil)

sign_all_comm_example :
    (sign_all sample_signatures sample_envelope sample_keys sample_messages sample_ed25519
        (try_sign_versioned sample_signatures sample_envelope sample_keys sample_messages
          sample_ed25519)
        (first ∷ second ∷ [])
        unsigned
      ≡ sign_all sample_signatures sample_envelope sample_keys sample_messages sample_ed25519
          (try_sign_versioned sample_signatures sample_envelope sample_keys sample_messages
            sample_ed25519)
          (second ∷ first ∷ [])
          unsigned)
    × (sign_all sample_signatures sample_envelope sample_keys sample_messages sample_ed25519
          (try_sign_legacy sample_signatures sample_envelope sample_keys sample_messages
            sample_ed25519)
          (first ∷ second ∷ [])
          unsigned
        ≡ sign_all sample_signatures sample_envelope sample_keys sample_messages sample_ed25519
            (try_sign_legacy sample_signatures sample_envelope sample_keys sample_messages
              sample_ed25519)
            (second ∷ first ∷ [])
            unsigned)
sign_all_comm_example =
    sign_all_comm sample_signatures sample_envelope sample_keys sample_messages sample_ed25519
      unsigned (6 ∷ 7 ∷ []) (first ∷ second ∷ []) (second ∷ first ∷ []) (Permᴰ.swap refl refl)
      pairs-AllDiffer refl unsigned-IsSound
