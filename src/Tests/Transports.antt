-- ===== src/Tests/Transports.antt =====
-- A sample network, and the theorems on transports, durable nonces and readers.
use svm_wasi_core.Transaction.Wire.{ReadsMessages}
use svm_wasi_core.Base.{
  drop-append, zero, ap, drop, replicate, suc, ◌∙◌, err, get_elem?, none, ◌↔◌, ℕ, String, ◌≡◌, ◌<◌,
  refl, List, [], ◌∷◌, ◌++◌, map, some, length, ok,
}
use svm_wasi_core.Instruction.{Instruction}
use svm_wasi_core.Transaction.{
  Transaction, try_from_base64, MessageFormat, new_unsigned, blockhash_of,
}
use svm_wasi_core.Message.{Compilers, compile_legacy_with_durable_nonce}
use svm_wasi_core.Message.Durable.{try_from_base64-durable}
use svm_wasi_core.Rpc.Decode.{TokenAmount, decode_token_amount}
use svm_wasi_core.Rpc.Readers.{HoldsAmount, decode_token_amount-HoldsAmount}
use svm_wasi_core.Http.{NativeClient, Http, Endpoint, send_native, send_waki}
use svm_wasi_core.Http.Posts.{EachPostsOne, methods-PostsOne}
use svm_wasi_core.Http.Replies.{Reply, IsAny, IsSuccess, send-Reply}
use svm_wasi_core.Tests.Vectors.{length-list_of, vec_of-list_of, list_of, Vec, vec_of}
use svm_wasi_core.Tests.Samples.{
  sample_envelope-ReadsSignatures, sample_ed25519, sample_keys, key, sample_signatures,
  sample_envelope,
}
use svm_wasi_core.Tests.Documents.{sample_codecs, Document, sample_json}

-- A server that answers every request with the next of its responses.
abbrev pub server : List Document → Http Document
server answers = record {
  World = List (String × Document);
  Response = ℕ × Document;
  post = λ url request w. (
    elim (get_elem? answers (length w)) [ none ↦ err "closed" | some d ↦ ok (200, d) ],
    w ++ ((url, request) ∷ []),
  );
  status_code = λ r. r.0;
  read_json = λ r. ok r.1;
  posted = λ w. w;
  posted-post = λ url request w. refl;
}

abbrev pub answer_to : Document → Document
answer_to d = sample_json.json_object (("result", d) ∷ [])

abbrev null_server : Http Document
null_server = server (Document.null ∷ [])

abbrev endpoint : Endpoint null_server
endpoint = record { url = "url"; world = [] }

send-Reply_example :
    Reply null_server
      (IsAny null_server)
      (ok (200, Document.null))
      (send_native null_server endpoint Document.null).0
    × Reply null_server
        (IsSuccess null_server)
        (ok (200, Document.null))
        (send_waki null_server endpoint Document.null).0
    × ((send_native null_server endpoint Document.null).1.world ≡ ("url", Document.null) ∷ [])
    × ((send_waki null_server endpoint Document.null).1.world ≡ ("url", Document.null) ∷ [])
    × ((send_native null_server endpoint Document.null).1.url ≡ "url")
    × ((send_waki null_server endpoint Document.null).1.url ≡ "url")
send-Reply_example = send-Reply null_server endpoint Document.null

-- Lists behind one another: each element is one more than it was, and each list ends with a zero.
abbrev pub join : List (List ℕ) → List ℕ
join [] = []
join (xs ∷ xss) = map suc xs ++ (0 ∷ join xss)

abbrev pub push : ℕ → List (List ℕ) → List (List ℕ)
push n [] = []
push n (xs ∷ xss) = (n ∷ xs) ∷ xss

abbrev pub split : List ℕ → List (List ℕ)
split [] = []
split (zero ∷ rest) = [] ∷ split rest
split (suc n ∷ rest) = push n (split rest)

split-first : (xs : List ℕ) (rest : List ℕ) → split (map suc xs ++ (0 ∷ rest)) ≡ xs ∷ split rest
split-first [] rest = refl
split-first (x ∷ xs) rest = ap (push x) (split-first xs rest)

split-join : (xss : List (List ℕ)) → split (join xss) ≡ xss
split-join [] = refl
split-join (xs ∷ xss) = split-first xs (join xss) ∙ ap (λ l. xs ∷ l) (split-join xss)

-- A message that is its blockhash and the data of its instructions, of the accounts 1 and 2.
abbrev pub compiled_messages : MessageFormat (Vec 32) (Vec 32)
compiled_messages = record {
  Message = Vec 32 × List (List ℕ);
  num_required_signatures = λ m. 2;
  account_keys = λ m. key 1 ∷ key 2 ∷ key 3 ∷ [];
  recent_blockhash = λ m. m.0;
  serialize = λ m. ok (list_of 32 m.0 ++ join m.1);
  deserialize = λ bytes. ok (vec_of 32 bytes, split (drop 32 bytes));
}

compiled_messages-ReadsMessages : ReadsMessages compiled_messages
compiled_messages-ReadsMessages (h, xss) bytes e =
    let same : list_of 32 h ++ join xss ≡ bytes = cc in
    rw (
      ← same,
      vec_of-list_of 32 h (join xss),
      drop-append 32 (list_of 32 h) (join xss) (length-list_of 32 h),
      split-join xss,
    )

abbrev pub instruction_of : ℕ → Instruction (Vec 32) (Vec 32)
instruction_of n = record { program_id = key 0; accounts = []; ix_data = n ∷ [] }

abbrev pub sample_compilers : Compilers compiled_messages compiled_messages (Vec 32)
sample_compilers = record {
  LookupTable = Unit {0};
  CompileError = Unit {0};
  advance_nonce_account = λ account authority. instruction_of 4;
  new_message = λ ixs payer. (key 0, map (λ ix. ix.ix_data) ixs);
  set_recent_blockhash = λ h m. (h, m.1);
  try_compile = λ payer ixs tables h. ok (h, map (λ ix. ix.ix_data) ixs);
  instruction_data = λ m. m.1;
  instruction_data_v0 = λ m. m.1;
  instruction_data-new_message = λ ixs payer. refl;
  recent_blockhash-set = λ h m. refl;
  instruction_data-set = λ h m. refl;
  instruction_data_v0-try_compile = λ payer ixs tables h m e. cc;
  recent_blockhash-try_compile = λ payer ixs tables h m e. cc;
}

abbrev durable_message : Vec 32 × List (List ℕ)
durable_message = (key 9, (4 ∷ []) ∷ (7 ∷ []) ∷ [])

abbrev durable_transaction : Transaction (Vec 64) (Vec 32 × List (List ℕ))
durable_transaction = record {
  signatures = vec_of 64 [] ∷ vec_of 64 [] ∷ [];
  message = durable_message;
}

abbrev durable_text : List ℕ
durable_text = 2 ∷ (replicate 128 0 ++ (128 ∷ (sample_keys.as_ref (key 9) ++ (5 ∷ 0 ∷ 8 ∷ 0 ∷ []))))

try_from_base64-durable_example :
    (try_from_base64 sample_signatures sample_envelope sample_keys compiled_messages durable_text
      ≡ ok durable_transaction)
    × (blockhash_of sample_signatures sample_envelope sample_keys compiled_messages
          durable_transaction
        ≡ key 9)
    × (durable_message.1 ≡ (4 ∷ []) ∷ (7 ∷ []) ∷ [])
unfolding svm_wasi_core.Message.compile_v0_with_durable_nonce
    svm_wasi_core.Transaction.Complete.sign_all svm_wasi_core.Transaction.new_unsigned
    svm_wasi_core.Transaction.to_base64 svm_wasi_core.Transaction.serialize_versioned
    svm_wasi_core.Transaction.message_bytes svm_wasi_core.Transaction.serialize_with_signatures
try_from_base64-durable_example =
    try_from_base64-durable sample_signatures sample_envelope sample_keys compiled_messages
      compiled_messages sample_compilers (key 1) (key 2) (key 1) (key 9) (instruction_of 7 ∷ []) []
      durable_message sample_ed25519 [] durable_transaction durable_text
      compiled_messages-ReadsMessages sample_envelope-ReadsSignatures (λ bytes. refl) refl refl refl

-- A balance whose count of decimals is 264.
abbrev wide_balance : Document
wide_balance =
    sample_json.json_object
      (("amount", sample_json.json_string "5") ∷ ("decimals", sample_json.json_number 264) ∷ [])

abbrev narrow_amount : TokenAmount ℕ
narrow_amount = record { amount = "5"; decimals = 8; ui_amount = none }

decode_token_amount-HoldsAmount_example :
    ((decode_token_amount sample_json wide_balance ≡ ok narrow_amount)
      ↔ HoldsAmount sample_json wide_balance narrow_amount)
    × ((h : HoldsAmount sample_json wide_balance narrow_amount)
        → (8 < 256) × ((8 ≡ h.wide_decimals) ↔ (h.wide_decimals < 256)))
decode_token_amount-HoldsAmount_example =
    decode_token_amount-HoldsAmount sample_json wide_balance narrow_amount

-- The second call of a client.
abbrev waiting : NativeClient null_server
waiting = record { transport = endpoint; next_id = 2 }

methods-PostsOne_example :
    EachPostsOne sample_json null_server sample_codecs
      (send_native null_server)
      waiting
      (key 1)
      (key 2)
      (key 1 ∷ [])
      "tx"
      ("signature" ∷ [])
      (some "until")
      80
    × EachPostsOne sample_json null_server sample_codecs
        (send_waki null_server)
        waiting
        (key 1)
        (key 2)
        (key 1 ∷ [])
        "tx"
        ("signature" ∷ [])
        (some "until")
        80
methods-PostsOne_example =
    methods-PostsOne sample_json null_server sample_codecs waiting (key 1) (key 2) (key 1 ∷ []) "tx"
      ("signature" ∷ []) (some "until") 80
