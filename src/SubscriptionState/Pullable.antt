-- ===== src/SubscriptionState/Pullable.antt =====
-- From the bytes of a delegation account to the instruction that pulls what is available: the
-- numbers that `RecurringDelegation::unpack` reads fit their types, and the amount that
-- `amount_available` answers fits the field that `transfer_recurring` writes it to.
use svm_wasi_core.Base.{
  refl, index-some, some, get_elem?, inr, arith, inl, ok, Bool-cases, from_le_bytes, IsByte, All,
  Outcome, length, List, ℕ, ◌≡◌, ◌≤◌, ◌<◌, ◌^◌, ◌-◌, ◌∙◌,
}
use svm_wasi_core.Base.Int.{as_i64-IsI64, ℤ, i64_from_le_bytes, IsI64}
use svm_wasi_core.Base.Cuts.{cut, length-cut, slice-cut, All-cut, from_le_bytes_bound}
use svm_wasi_core.Keys.{Keys}
use svm_wasi_core.Instruction.{Programs}
use svm_wasi_core.Instruction.Subscriptions.{id, transfer_recurring}
use svm_wasi_core.Instruction.Pulls.{Pull, transfer_recurring-Pull}
use svm_wasi_core.SubscriptionState.RoundTrip.{Read, FitsWords, unpack_delegation_reads}
use svm_wasi_core.SubscriptionState.Exact.{
  DelegationAnswer, unpack_delegation-Answer, bad_length, bad_tag, parsed,
}
use svm_wasi_core.SubscriptionState.{
  is_expired, unpack_delegation, SubscriptionStateError, amount_available, RecurringDelegation,
}

-- A field of eight bytes is a `u64`.
from_le_bytes-cut_bound :
    (bytes : List ℕ) (a b : ℕ)
    → a ≤ b
    → b ≤ length bytes
    → b - a ≡ 8
    → All IsByte bytes
    → from_le_bytes (cut bytes a b) < 2 ^ 64
from_le_bytes-cut_bound bytes a b h k e all =
    rw (length-cut bytes a b h k ∙ e) at
      (from_le_bytes_bound (cut bytes a b) (All-cut IsByte bytes a b all))

-- A field of eight bytes is an `i64`.
i64_from_le_bytes-IsI64 :
    (bytes : List ℕ) (a b : ℕ)
    → a ≤ b
    → b ≤ length bytes
    → b - a ≡ 8
    → All IsByte bytes
    → IsI64 (i64_from_le_bytes (cut bytes a b))
unfolding i64_from_le_bytes
i64_from_le_bytes-IsI64 bytes a b h k e all =
    as_i64-IsI64 _ (from_le_bytes-cut_bound bytes a b h k e all)

module _ {Key : Type 0} (d : RecurringDelegation Key) where
  -- What is available is never more than the amount of one period.
  pub amount_available_le : (now : ℤ) → amount_available d now ≤ d.amount_per_period
  unfolding amount_available
  amount_available_le now = elim (Bool-cases (is_expired d now)) [
    | inl e ↦ rw e (omega arith)
    | inr e ↦ rw e (ground arith)
  ]

module _ (K : Keys) where
  open K use {Key}

  -- The bytes of a delegation that parses have the length and the tag of one.
  parsed_header :
      (bytes : List ℕ) (r : Outcome SubscriptionStateError (RecurringDelegation Key))
      → (d : RecurringDelegation Key) → DelegationAnswer K bytes r
      → r ≡ ok d
      → (length bytes ≡ 211) × (get_elem? bytes 0 ≡ some 3)
  parsed_header bytes _ d (bad_length l) h = absurd cc
  parsed_header bytes _ d (bad_tag tag l t n) h = absurd cc
  parsed_header bytes _ d (parsed a l t holds) h = (l, t)

  same_fits :
      (r : Outcome SubscriptionStateError (RecurringDelegation Key)) (d e : RecurringDelegation Key)
      → r ≡ ok d
      → r ≡ ok e
      → FitsWords d
      → FitsWords e
  same_fits r d e h k fits = let s : d ≡ e = cc (h, k) in rw s at fits

  unpack_delegation-FitsWords :
      (bytes : List ℕ) (d : RecurringDelegation Key)
      → All IsByte bytes
      → unpack_delegation K bytes ≡ ok d
      → FitsWords d
  unpack_delegation-FitsWords bytes d all h =
      let (l, t) = parsed_header bytes _ d (unpack_delegation-Answer K bytes all) h in
      let read : (a b : ℕ) → a ≤ b → b ≤ 211 → Read K bytes a b (cut bytes a b) =
        λ a b i j. slice-cut bytes a b i (omega (arith, j, l)) in
      let i64 : (a b : ℕ)
          → a ≤ b
          → b ≤ 211
          → b - a ≡ 8
          → IsI64 (i64_from_le_bytes (cut bytes a b)) =
        λ a b i j w. i64_from_le_bytes-IsI64 bytes a b i (omega (arith, j, l)) w all in
      let u64 : (a b : ℕ) → a ≤ b → b ≤ 211 → b - a ≡ 8 → from_le_bytes (cut bytes a b) < 2 ^ 64 =
        λ a b i j w. from_le_bytes-cut_bound bytes a b i (omega (arith, j, l)) w all in
      same_fits (unpack_delegation K bytes) _ d
        (unpack_delegation_reads K bytes _ _ _ _ _ _ _ _ _ _ _ l (index-some bytes 0 3 t)
          (read 3 35 (omega arith) (omega arith)) (read 35 67 (omega arith) (omega arith))
          (read 67 99 (omega arith) (omega arith)) (read 99 107 (omega arith) (omega arith))
          (read 107 139 (omega arith) (omega arith)) (read 139 171 (omega arith) (omega arith))
          (read 171 179 (omega arith) (omega arith)) (read 179 187 (omega arith) (omega arith))
          (read 187 195 (omega arith) (omega arith)) (read 195 203 (omega arith) (omega arith))
          (read 203 211 (omega arith) (omega arith)))
        h
        (record {
          init_id = i64 99 107 (omega arith) (omega arith) refl;
          start = i64 171 179 (omega arith) (omega arith) refl;
          period = u64 179 187 (omega arith) (omega arith) refl;
          expiry = i64 187 195 (omega arith) (omega arith) refl;
          amount = u64 195 203 (omega arith) (omega arith) refl;
          pulled = u64 203 211 (omega arith) (omega arith) refl;
        })

  module _ (P : Programs Key) (program system : Key) where
    -- When `RecurringDelegation::unpack` parses bytes, every number of the delegation fits its
    -- machine type, and at any time `amount_available` is at most the amount of a period. That
    -- amount, with the delegation's own delegator, delegatee and mint, is one that
    -- `transfer_recurring` writes exactly: when the program id parses, it gives an instruction
    -- that pulls it, unless one of the two derived addresses has no bump.
    pub unpack_delegation-Pull :
        (bytes : List ℕ) (d : RecurringDelegation Key) (now : ℤ)
        → (delegation from_ata to_ata token_program : Key) → All IsByte bytes
        → unpack_delegation K bytes ≡ ok d
        → id K P ≡ ok program
        → FitsWords d
          × (amount_available d now ≤ d.amount_per_period)
          × Pull K P program system delegation d.delegator d.delegatee d.mint from_ata to_ata
              token_program
              (amount_available d now)
              (transfer_recurring K P delegation d.delegator d.delegatee d.mint from_ata to_ata
                token_program
                (amount_available d now))
    unpack_delegation-Pull bytes d now delegation from_ata to_ata token_program all h hp =
        let le = amount_available_le d now in
        let fits = unpack_delegation-FitsWords bytes d all h in
        (
          fits,
          le,
          transfer_recurring-Pull K P program system delegation d.delegator d.delegatee d.mint
              from_ata to_ata token_program (amount_available d now) (omega (arith, fits.amount))
              hp,
        )
