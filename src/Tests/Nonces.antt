-- ===== src/Tests/Nonces.antt =====
-- The theorems on the creation of a nonce account, at concrete inputs.
use svm_wasi_core.Base.{arith, ℕ, String, ◌≡◌, refl, List, [], ◌∷◌, ◌++◌, replicate, ok, inl, inr}
use svm_wasi_core.Sign.{Keypair}
use svm_wasi_core.Transaction.{Transaction, to_base64_legacy}
use svm_wasi_core.Transaction.Verified.{Verified}
use svm_wasi_core.Http.{Http}
use svm_wasi_core.Examples.{Exit}
use svm_wasi_core.Examples.NonceAccount.{
  NonceHost, NoncePrograms, fresh_keypair, sign_creation, create_durable_nonce_account,
}
use svm_wasi_core.Examples.NonceAccount.Creation.{fresh, sign_creation-Verified}
use svm_wasi_core.Tests.Vectors.{Vec}
use svm_wasi_core.Tests.Samples.{
  signers_differ, sample_keys, key, sample_signatures, sample_ed25519,
}
use svm_wasi_core.Tests.Documents.{Document, sample_json, sample_codecs}
use svm_wasi_core.Tests.Transports.{
  server, answer_to, compiled_messages, sample_compilers, instruction_of,
}
use svm_wasi_core.Tests.Sweeps.{text_envelope}

abbrev programs : NoncePrograms (Vec 32) (Vec 32)
programs = record {
  create_nonce_account = λ from nonce authority lamports. instruction_of lamports ∷ [];
  nonce_state_size = 80;
}

-- A payer whose file holds the key pair of account 1, and the seed of account 2.
abbrev host : NonceHost
host = record {
  args = "--payer-keypair" ∷ "path" ∷ "--rpc-url" ∷ "url" ∷ [];
  files = record {
    read_to_string = λ path. ok "file";
    parse_bytes = λ contents. ok (sample_keys.as_ref (key 1) ++ sample_keys.as_ref (key 1));
  };
  seed = 2 ∷ replicate 31 0;
}

-- A server that answers all three requests.
abbrev nonce_server : Http Document
nonce_server = server (
    answer_to (sample_json.json_number 5)
    ∷ answer_to (
        sample_json.json_object (
          (
            "value",
            sample_json.json_object (
                ("blockhash", sample_json.json_string "hash")
                ∷ ("lastValidBlockHeight", sample_json.json_number 7)
                ∷ []),
          )
          ∷ []))
    ∷ answer_to (sample_json.json_string "signature")
    ∷ [])

abbrev created : Exit × List (String × Document)
created =
    create_durable_nonce_account sample_keys sample_signatures text_envelope compiled_messages
      compiled_messages sample_compilers programs sample_ed25519 sample_json nonce_server
      sample_codecs host []

abbrev payer : Keypair sample_keys sample_signatures sample_ed25519
payer = record { signing_key = key 1; pubkey = key 1 }

abbrev message : Vec 32 × List (List ℕ)
message = (key 9, (5 ∷ []) ∷ [])

abbrev message_bytes : List ℕ
message_bytes = sample_keys.as_ref (key 9) ++ (6 ∷ 0 ∷ [])

abbrev fresh_two : Keypair sample_keys sample_signatures sample_ed25519
fresh_two =
    fresh sample_keys sample_signatures text_envelope compiled_messages compiled_messages
      sample_compilers programs sample_ed25519 host.seed

sign_creation-Verified_example :
    (fresh_keypair sample_keys sample_signatures text_envelope compiled_messages compiled_messages
        sample_compilers programs sample_ed25519 host.seed
      ≡ ok fresh_two)
    × ((tx : Transaction (Vec 64) (Vec 32 × List (List ℕ))) × (text : String) × (sign_creation
            sample_keys sample_signatures text_envelope compiled_messages compiled_messages
            sample_compilers programs sample_ed25519 payer fresh_two message
          ≡ ok text)
        × (to_base64_legacy sample_signatures text_envelope sample_keys compiled_messages tx
            ≡ ok text)
        × (tx.message ≡ message)
        × Verified sample_signatures text_envelope sample_keys compiled_messages sample_ed25519
            message_bytes tx 1)
sign_creation-Verified_example =
    sign_creation-Verified sample_keys sample_signatures text_envelope compiled_messages
      compiled_messages sample_compilers programs sample_ed25519 payer host.seed message
      message_bytes 1 (key 2) (λ sigs few. (_, refl)) (λ m. omega arith) refl refl (omega arith)
      signers_differ ((refl, (0, refl)), ((refl, (1, refl)), tt)) refl (inr (inl refl))
