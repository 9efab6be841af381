-- ===== src/Rpc/Ids.antt =====
-- The ids of the requests that one client sends, over any transport.
use mathlib.Core.List.{append_assoc, append-nil}
use svm_wasi_core.Base.{
  ℕ, zero, suc, String, ◌+◌, ◌%◌, ◌^◌, ◌<◌, ◌≤◌, ◌≡◌, ◌≢◌, refl, ap, ◌∙◌, arith, Option, some, List,
  [], ◌∷◌, ◌++◌, length, get_elem?,
}
use svm_wasi_core.Rpc.Values.{Json}
use svm_wasi_core.Rpc.Decode.{get_and}
use svm_wasi_core.Rpc.{new_client, Transport, Client, request, call}

-- The transport `T`, with a log of the requests that it got.
abbrev pub recording : {Value : Type 0} → Transport Value → Transport Value
recording {Value} T = record {
  State = T.State × List Value;
  send = λ s q. ((T.send s.0 q).0, ((T.send s.0 q).1, s.1 ++ (q ∷ [])));
}

module _ (J : Json) (T : Transport J.Value) where
  open J use {Value}

  abbrev pub Recorded : Type 0
  Recorded = Client (T.State × List Value)

  -- Calls made one after the other, whatever each answers.
  pub run : List (String × Value) → Recorded → Recorded
  run [] c = c
  run ((method, params) ∷ calls) c = run calls (call J (recording T) method params c).1

  -- The requests of calls from the counter `id` on.
  abbrev pub numbered : ℕ → List (String × Value) → List Value
  numbered id [] = []
  numbered id ((method, params) ∷ calls) =
      request J (id % 2 ^ 64) method params ∷ numbered (id + 1) calls

  run-numbered :
      (calls : List (String × Value)) (s : T.State) (log : List Value) (id : ℕ)
      → (run calls (record { transport = (s, log); next_id = id % 2 ^ 64 })).transport.1
        ≡ log ++ numbered id calls
  unfolding run call
  run-numbered [] s log id = rw (append-nil log)
  run-numbered ((method, params) ∷ calls) s log id =
      let step : (id % 2 ^ 64 + 1) % 2 ^ 64 ≡ (id + 1) % 2 ^ 64 = omega arith in
      let q = request J (id % 2 ^ 64) method params in
      rw (step, run)
        (run-numbered calls (T.send s q).1 (log ++ (q ∷ [])) (id + 1)
          ∙ append_assoc log (q ∷ []) (numbered (id + 1) calls))

  length-numbered :
      (calls : List (String × Value)) (id : ℕ) → length (numbered id calls) ≡ length calls
  length-numbered [] id = refl
  length-numbered (c ∷ calls) id = ap suc (length-numbered calls (id + 1))

  get_elem?-numbered :
      (calls : List (String × Value)) (id k : ℕ) (method : String) (params : Value)
      → get_elem? calls k ≡ some (method, params)
      → get_elem? (numbered id calls) k ≡ some (request J ((id + k) % 2 ^ 64) method params)
  get_elem?-numbered [] id k method params h = absurd cc
  get_elem?-numbered (c ∷ calls) id zero method params h =
      let same : c ≡ (method, params) = cc in
      let base : id + 0 ≡ id = omega arith in rw (same, base) refl
  get_elem?-numbered (c ∷ calls) id (suc k) method params h =
      let shift : id + 1 + k ≡ id + suc k = omega arith in
      rw shift at (get_elem?-numbered calls (id + 1) k method params h)

  -- Every logged request is that of its call.
  numbered_inverse :
      (calls : List (String × Value)) (id k : ℕ) (q : Value)
      → get_elem? (numbered id calls) k ≡ some q
      → (method : String) × (params : Value) × (q ≡ request J ((id + k) % 2 ^ 64) method params)
        × (k < length calls)
  numbered_inverse [] id k q h = absurd cc
  numbered_inverse ((method, params) ∷ calls) id zero q h =
      let base : id + 0 ≡ id = omega arith in (method, params, rw base (cc h), omega arith)
  numbered_inverse (c ∷ calls) id (suc k) q h =
      let shift : id + 1 + k ≡ id + suc k = omega arith in
      let (method, params, e, inside) = numbered_inverse calls (id + 1) k q h in
      (method, params, rw shift at e, omega arith)

  -- The id that a request carries.
  abbrev pub id_of : Value → Option ℕ
  id_of q = get_and J q "id" J.as_u64

  -- Documented behaviour of serde_json: the id of a request reads back.
  abbrev pub ReadsIds : Type 0
  ReadsIds =
      (id : ℕ) (method : String) (params : Value) → id_of (request J id method params) ≡ some id

  -- The log of a client: one request for each call, with the next id, and all ids different.
  pub record Ids (calls : List (String × Value)) (log : List Value) : Type 0 where
    pub one_each : length log ≡ length calls
    pub in_order :
        (k : ℕ) (method : String) (params : Value)
        → get_elem? calls k ≡ some (method, params)
        → get_elem? log k ≡ some (request J ((1 + k) % 2 ^ 64) method params)
    pub different :
        (i j : ℕ) (q r : Value)
        → i < j
        → get_elem? log i ≡ some q
        → get_elem? log j ≡ some r
        → id_of q ≢ id_of r

  different_ids : (i j : ℕ) → i < j → j < 2 ^ 64 → (1 + i) % 2 ^ 64 ≢ (1 + j) % 2 ^ 64
  different_ids i j h k e = omega arith

  numbered-Ids :
      (calls : List (String × Value))
      → length calls ≤ 2 ^ 64
      → ReadsIds
      → Ids calls (numbered 1 calls)
  numbered-Ids calls few reads = record {
    one_each = length-numbered calls 1;
    in_order = get_elem?-numbered calls 1;
    different = λ i j q r lt there there' same.
        let (m, p, e, inside) = numbered_inverse calls 1 i q there in
        let (m', p', e', inside') = numbered_inverse calls 1 j r there' in
        different_ids i j lt (omega arith)
          (cc (reads ((1 + i) % 2 ^ 64) m p, reads ((1 + j) % 2 ^ 64) m' p', e, e', same));
  }

  -- Over any transport, whatever it answers, a new client that makes at most 2^64 calls one after
  -- the other sends one request for each, in order: the k-th from 0 carries the id k + 1, which
  -- wraps at 2^64. When the id of a request reads back, no two requests have the same id.
  pub run-Ids :
      (calls : List (String × Value)) (s : T.State)
      → length calls ≤ 2 ^ 64
      → ReadsIds
      → Ids calls (run calls (new_client (s, []))).transport.1
  run-Ids calls s few reads = rw (run-numbered calls s [] 1) (numbered-Ids calls few reads)
