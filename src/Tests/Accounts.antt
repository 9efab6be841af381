-- ===== src/Tests/Accounts.antt =====
-- The theorems on account data, shaping and instructions, at concrete inputs.
use svm_wasi_core.Base.{
  inr, ltb→lt, inl, ◌&&◌, Bool-cases, ltb, IsByte, All, List, ◌≤◌, ◌↔◌, Bool, ◌<◌, ◌^◌, arith, ℕ,
  ◌≡◌, refl, true, false, some, [], ◌∷◌, length, Outcome, ok, err,
}
use svm_wasi_core.Base.Int.{pos, negsuc}
use svm_wasi_core.SubscriptionState.{
  unpack_authority, hand_assembled_recurring_delegation, RecurringDelegation, unpack_delegation,
  amount_available,
}
use svm_wasi_core.SubscriptionState.Available.{Answer, amount_available_lem, amount_available_wraps}
use svm_wasi_core.SubscriptionState.Exact.{
  AuthorityAnswer, DelegationAnswer, unpack_authority-Answer, unpack_delegation-Answer,
}
use svm_wasi_core.Shaping.{
  Json, Items, string, array, other, nil, cons, truncate_string, shape_json, shape_for_budget,
  aggressiveness_levels,
}
use svm_wasi_core.Shaping.Strings.{codes}
use svm_wasi_core.Shaping.Limits.{
  Bounded, shape_json-Bounded, Truncation, GrowsOver, truncate_string-Truncation,
}
use svm_wasi_core.Shaping.Order.{get_item?, items_of, expected_item, shape_json-array}
use svm_wasi_core.Shaping.Budget.{Chosen, shape_for_budget-Chosen}
use svm_wasi_core.Instruction.{Programs, Instruction}
use svm_wasi_core.Instruction.Subscriptions.{create_recurring_delegation, transfer_recurring}
use svm_wasi_core.Instruction.Pulls.{Pull}
use svm_wasi_core.SubscriptionState.Pullable.{unpack_delegation-Pull}
use svm_wasi_core.SubscriptionState.RoundTrip.{FitsWords, unpack_delegation-hand_assembled}
use svm_wasi_core.Tests.Vectors.{Vec}
use svm_wasi_core.Tests.Samples.{programs, sample_keys, key}

-- A delegation of 100 every minute, of which 30 are pulled.
abbrev minute : RecurringDelegation (Vec 32)
minute = record {
  delegator = key 1;
  delegatee = key 2;
  payer = key 1;
  init_id = pos 7;
  subscription_authority = key 3;
  mint = key 4;
  current_period_start_ts = pos 1000;
  period_length_s = 60;
  expiry_ts = pos 5000;
  amount_per_period = 100;
  amount_pulled_in_period = 30;
}

abbrev endless : RecurringDelegation (Vec 32)
endless = record minute { period_length_s = 2 ^ 63; expiry_ts = pos 0 }

amount_available_lem_example : Answer minute (pos 1030)
amount_available_lem_example =
    amount_available_lem minute (pos 1030) (omega arith) (omega arith) (omega arith) (omega arith)

amount_available_wraps_example : amount_available endless (pos 1000) ≡ 100
amount_available_wraps_example =
    amount_available_wraps endless (pos 1000) (omega arith) (omega arith) (omega arith)
      (omega arith) (omega arith) (omega arith) (λ h. h.0 refl)

-- The bytes of the delegation.
abbrev minute_bytes : List ℕ
minute_bytes = hand_assembled_recurring_delegation sample_keys 1 7 minute

minute-FitsWords : FitsWords minute
minute-FitsWords = record {
  init_id = omega arith;
  start = omega arith;
  period = omega arith;
  expiry = omega arith;
  amount = omega arith;
  pulled = omega arith;
}

abbrev all_bytes : List ℕ → Bool
all_bytes [] = true
all_bytes (b ∷ bs) = ltb b 256 && all_bytes bs

all_bytes-IsByte : (bs : List ℕ) → all_bytes bs ≡ true → All IsByte bs
all_bytes-IsByte [] h = tt
all_bytes-IsByte (b ∷ bs) h = elim (Bool-cases (ltb b 256)) [
  | inl e ↦ (ltb→lt b 256 e, all_bytes-IsByte bs (rw e at h))
  | inr e ↦ absurd (ground arith)
]

minute_bytes-IsByte : All IsByte minute_bytes
unfolding svm_wasi_core.Base.Int.i64_to_le_bytes svm_wasi_core.Base.to_le_bytes
minute_bytes-IsByte = all_bytes-IsByte minute_bytes refl

unpack_delegation-Pull_example :
    FitsWords minute
    × (amount_available minute (pos 1030) ≤ 100)
    × Pull sample_keys programs
        (key 8)
        (key 8)
        (key 5)
        minute.delegator
        minute.delegatee
        minute.mint
        (key 6)
        (key 7)
        (key 3)
        (amount_available minute (pos 1030))
        (transfer_recurring sample_keys programs
          (key 5)
          minute.delegator
          minute.delegatee
          minute.mint
          (key 6)
          (key 7)
          (key 3)
          (amount_available minute (pos 1030)))
unfolding svm_wasi_core.Instruction.Subscriptions.id svm_wasi_core.Instruction.known_id
unpack_delegation-Pull_example =
    unpack_delegation-Pull sample_keys programs (key 8) (key 8) minute_bytes minute (pos 1030)
      (key 5) (key 6) (key 7) (key 3) minute_bytes-IsByte
      (unpack_delegation-hand_assembled sample_keys 1 7 minute minute-FitsWords) refl

unpack_delegation-Answer_example :
    DelegationAnswer sample_keys (3 ∷ []) (unpack_delegation sample_keys (3 ∷ []))
unpack_delegation-Answer_example = unpack_delegation-Answer sample_keys (3 ∷ []) (omega arith, tt)

unpack_authority-Answer_example :
    AuthorityAnswer sample_keys (0 ∷ 7 ∷ []) (unpack_authority sample_keys (0 ∷ 7 ∷ []))
unpack_authority-Answer_example =
    unpack_authority-Answer sample_keys (0 ∷ 7 ∷ []) (omega arith, (omega arith, tt))

-- JSON whose other values are numbers, all printed as one digit.
abbrev digits : Json ℕ
digits = record { json_true = 1; json_number = λ n. n; to_string = λ v. codes "0" }

abbrev three : Items ℕ
three = cons (other 1) (cons (string (codes "abcd")) (cons (other 3) nil))

shape_json-Bounded_example : Bounded 2 3 (shape_json digits 2 3 (array three))
shape_json-Bounded_example = shape_json-Bounded digits 2 3 (array three)

truncate_string-Truncation_example :
    Truncation (codes "abcd") 3 (truncate_string (codes "abcd") 3)
    × ((length (codes "abcd") < length (truncate_string (codes "abcd") 3))
        ↔ GrowsOver (codes "abcd") 3)
truncate_string-Truncation_example = truncate_string-Truncation (codes "abcd") 3

shape_json-array_example :
    get_item? (items_of (shape_json digits 2 3 (array three))) 2 ≡ expected_item digits 2 3 three 2
shape_json-array_example = shape_json-array digits 2 3 three 2

shape_for_budget-Chosen_example :
    Chosen digits (array three) 1 aggressiveness_levels (shape_for_budget digits (array three) 1)
shape_for_budget-Chosen_example = shape_for_budget-Chosen digits (array three) 1
