-- ===== src/Tests/Sweeps.antt =====
-- The theorems on the sweep, at concrete inputs.
use Prim.Native.String.{◌++◌ as ◌⊕◌}
use svm_wasi_core.Base.{
  ap, sym, arith, replicate, ℕ, String, ◌≡◌, refl, Option, none, some, List, [], ◌∷◌, ◌++◌, Outcome,
  ok, err,
}
use svm_wasi_core.Sign.{from_bytes, Keypair}
use svm_wasi_core.Transaction.{Transaction, try_from_base64, Envelope}
use svm_wasi_core.Http.{Http}
use svm_wasi_core.Stealth.{
  recover_one_time_privkey, scalar_from_hex, derive_one_time_address, ephemeral_keypair,
}
use svm_wasi_core.Examples.{Exit, load_keypair_file, meta_address, Files}
use svm_wasi_core.Examples.Arguments.{SweepArgs, parse_sweep_args}
use svm_wasi_core.Examples.Arguments.Options.{Setting, command_line}
use svm_wasi_core.Examples.Sweep.{prepare_sweep, SweepHost, sweep, sign_sweep, recovered_key}
use svm_wasi_core.Examples.Sweep.Prepared.{BothVerify, prepare_sweep-BothVerify}
use svm_wasi_core.Examples.Sweep.Trace.{Traced, sweep-Trace}
use svm_wasi_core.Examples.Sweep.CoSigned.{CoSigning, one_time_key, sign_sweep-CoSigning}
use svm_wasi_core.Examples.Sweep.Recovered.{Typed, recovered_key-meta_address}
use svm_wasi_core.Tests.Vectors.{Vec, vec_of}
use svm_wasi_core.Tests.Samples.{
  sample_envelope-ReadsSignatures, sample_keys, key, sample_signatures, sample_ed25519,
  sample_messages, sample_envelope,
}
use svm_wasi_core.Tests.Documents.{Document, sample_json}
use svm_wasi_core.Tests.Curves.{unhex-hex, hex, unhex, padded, numbers, sample_hazmat}
use svm_wasi_core.Tests.Transports.{server, answer_to}

-- The sample envelope with text for base64.
abbrev pub text_envelope : Envelope (Vec 64) String
text_envelope = record {
  serialize_signatures = sample_envelope.serialize_signatures;
  deserialize_signatures = sample_envelope.deserialize_signatures;
  encode = hex;
  decode = λ text. ok (unhex 0 text);
  version_prefix = 128;
}

abbrev any_key : String → Outcome String (Vec 32)
any_key text = ok (key 1)

-- A v0 transaction with two empty slots.
abbrev sweep_text : String
sweep_text = hex (2 ∷ (replicate 128 0 ++ (128 ∷ 6 ∷ 7 ∷ [])))

abbrev settings : List (Setting (Vec 32))
settings =
    Setting.rpc_url "old"
    ∷ Setting.ephemeral_pubkey "key" (key 1)
    ∷ Setting.rpc_url "url"
    ∷ Setting.transaction_base64 (sweep_text)
    ∷ Setting.nonce_authority_keypair "path"
    ∷ []

abbrev args : SweepArgs (Vec 32)
args = record {
  rpc_url = "url";
  ephemeral_pubkey = key 1;
  transaction_base64 = sweep_text;
  nonce_authority_keypair_path = "path";
}

-- An operator with the scalars 1 and 0, whose file holds the key pair of account 2.
abbrev files : Files
files = record {
  read_to_string = λ path. ok "file";
  parse_bytes = λ contents. ok (sample_keys.as_ref (key 2) ++ sample_keys.as_ref (key 2));
}

abbrev host : SweepHost
host = record {
  args = command_line settings;
  scan_privkey = ok (hex (padded 1) ⊕ "\n");
  spend_privkey = ok (" " ⊕ hex (padded 0));
  files = files;
  confirmation = ok "yes\n";
  hash_prefix = [];
}

-- A server whose simulation is clean, and that takes the transaction.
abbrev sweep_server : Http Document
sweep_server = server (
    answer_to (sample_json.json_object (("value", sample_json.json_object []) ∷ []))
    ∷ answer_to (sample_json.json_string "signature")
    ∷ [])

abbrev swept : Exit × List (String × Document)
swept =
    sweep sample_json sweep_server sample_keys numbers sample_signatures sample_hazmat text_envelope
      sample_messages sample_ed25519 any_key host []

sweep-Trace_example :
    Traced sample_json sweep_server sample_keys numbers sample_signatures sample_hazmat
      text_envelope sample_messages sample_ed25519 any_key host [] swept.0 swept.1
sweep-Trace_example =
    sweep-Trace sample_json sweep_server sample_keys numbers sample_signatures sample_hazmat
      text_envelope sample_messages sample_ed25519 any_key host []

abbrev unsigned : Transaction (Vec 64) (List ℕ)
unsigned = record { signatures = vec_of 64 [] ∷ vec_of 64 [] ∷ []; message = 6 ∷ 7 ∷ [] }

abbrev authority : Keypair sample_keys sample_signatures sample_ed25519
authority = record { signing_key = key 2; pubkey = key 2 }

one_key :
    recovered_key sample_keys numbers sample_signatures sample_hazmat text_envelope sample_messages
      sample_ed25519 host args
    ≡ ok 1
unfolding recovered_key scalar_from_hex recover_one_time_privkey svm_wasi_core.Stealth.decompress
    svm_wasi_core.Stealth.hash_shared_secret
one_key = refl

parsed :
    try_from_base64 sample_signatures text_envelope sample_keys sample_messages sweep_text
    ≡ ok unsigned
unfolding try_from_base64 svm_wasi_core.Transaction.try_from_bytes
parsed = refl

loaded : load_keypair_file sample_keys sample_signatures sample_ed25519 files "path" ≡ ok authority
unfolding load_keypair_file from_bytes svm_wasi_core.Base.slice
loaded = refl

sign_sweep-CoSigning_example :
    CoSigning sample_keys numbers sample_signatures sample_hazmat text_envelope sample_messages
      sample_ed25519
      (128 ∷ 6 ∷ 7 ∷ [])
      1
      (key 2)
      unsigned
      (sign_sweep sample_keys numbers sample_signatures sample_hazmat text_envelope sample_messages
        sample_ed25519 host args)
sign_sweep-CoSigning_example =
    sign_sweep-CoSigning sample_keys numbers sample_signatures sample_hazmat text_envelope
      sample_messages sample_ed25519 host args 1 unsigned authority (6 ∷ 7 ∷ [])
      (λ k message signature h. h) one_key parsed loaded refl
      (record { slots = refl; keys = omega arith })

paid :
    derive_one_time_address sample_keys numbers
      (meta_address sample_keys numbers 1 0).scan_pubkey
      (meta_address sample_keys numbers 1 0).spend_pubkey
      1
    ≡ ok (key 1)
unfolding derive_one_time_address meta_address svm_wasi_core.Stealth.generate_keypair
    svm_wasi_core.Stealth.to_pubkey svm_wasi_core.Stealth.decompress
    svm_wasi_core.Stealth.hash_shared_secret
paid = refl

typed :
    Typed sample_keys numbers sample_signatures sample_hazmat text_envelope sample_messages
      sample_ed25519 1 0 host
unfolding meta_address svm_wasi_core.Stealth.generate_keypair svm_wasi_core.Stealth.scalar_to_hex
typed = record {
  scan_text = hex (padded 1) ⊕ "\n";
  spend_text = " " ⊕ hex (padded 0);
  scan_typed = refl;
  spend_typed = refl;
  scan_shown = refl;
  spend_shown = refl;
}

recovered_key-meta_address_example :
    (t : ℕ) × (recovered_key sample_keys numbers sample_signatures sample_hazmat text_envelope
        sample_messages sample_ed25519 host args
      ≡ ok t)
    × (one_time_key sample_keys numbers sample_signatures sample_hazmat text_envelope
          sample_messages sample_ed25519 t
        ≡ key 1)
unfolding ephemeral_keypair svm_wasi_core.Stealth.generate_keypair svm_wasi_core.Stealth.to_pubkey
recovered_key-meta_address_example =
    recovered_key-meta_address sample_keys numbers sample_signatures sample_hazmat text_envelope
      sample_messages sample_ed25519 1 0 1 (key 1) host args paid refl typed

parsed_args : parse_sweep_args any_key host.args ≡ ok args
unfolding parse_sweep_args svm_wasi_core.Examples.Arguments.sweep_loop
    svm_wasi_core.Examples.Arguments.take_flag svm_wasi_core.Examples.Arguments.finish_sweep
parsed_args = refl

prepare_sweep-BothVerify_example :
    (text : String) × (tx' : Transaction (Vec 64) (List ℕ)) × (prepare_sweep sample_json
        sweep_server sample_keys numbers sample_signatures sample_hazmat text_envelope
        sample_messages sample_ed25519 any_key host
      ≡ ok (text, "url"))
    × (try_from_base64 sample_signatures text_envelope sample_keys sample_messages text ≡ ok tx')
    × BothVerify sample_keys numbers sample_signatures sample_hazmat text_envelope sample_messages
        sample_ed25519
        (128 ∷ 6 ∷ 7 ∷ [])
        (key 1)
        (key 2)
        unsigned
        tx'
unfolding svm_wasi_core.Stealth.to_pubkey
prepare_sweep-BothVerify_example =
    prepare_sweep-BothVerify sample_keys numbers sample_signatures sample_hazmat text_envelope
      sample_messages sample_ed25519 sample_json sweep_server any_key host args 1 unsigned authority
      (6 ∷ 7 ∷ []) 0 1 (λ k message signature h. h) (λ m bytes h. sym h)
      sample_envelope-ReadsSignatures (λ sigs few. (_, refl)) (λ m. omega arith)
      (λ bytes. ap ok (unhex-hex bytes)) parsed_args one_key parsed loaded refl
      (record { slots = refl; keys = omega arith }) refl refl
