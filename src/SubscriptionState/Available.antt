-- ===== src/SubscriptionState/Available.antt =====
-- How much a recurring delegation lets its delegatee pull, against the integers without bounds.
use svm_wasi_core.Base.{
  ◌==◌, ==→eq, ap, ℕ, ◌-◌, ◌^◌, ◌≤◌, ◌<◌, ◌≡◌, ◌≢◌, ◌⊎◌, inl, inr, Bool, true, false, not, ◌&&◌,
  arith, Bool-cases,
}
use svm_wasi_core.Base.Int.{
  ℤ, pos, negsuc, ◌+ℤ◌, ◌≤ℤ◌, ◌<ℤ◌, IsI64, i64_max, as_i64, saturating_add, leb_ℤ, is_zero,
}
use svm_wasi_core.SubscriptionState.{RecurringDelegation, is_expired, amount_available}

-- What the doc comment calls expired: the expiry is not 0 and has been reached.
abbrev pub Expired : ℤ → ℤ → Type 0
Expired expiry now = (expiry ≢ pos 0) × (expiry ≤ℤ now)

expired_test : ℤ → ℤ → Bool
expired_test expiry now = not (is_zero expiry) && leb_ℤ expiry now

expired_test_sound : (expiry now : ℤ) → expired_test expiry now ≡ true → Expired expiry now
unfolding expired_test
expired_test_sound (pos n) now h = (λ e. ground arith, ground arith)
expired_test_sound (negsuc n) now h = (λ e. cc, ground arith)

expired_test_complete : (expiry now : ℤ) → Expired expiry now → expired_test expiry now ≡ true
unfolding expired_test
expired_test_complete (pos n) now (h, k) = elim (Bool-cases (n == 0)) [
  | inl z ↦ absurd (h (ap pos (==→eq n 0 z)))
  | inr z ↦ ground arith
]
expired_test_complete (negsuc n) now (h, k) = ground arith

-- The source's test that the period has elapsed.
abbrev elapsed_test : ℤ → ℕ → ℤ → Bool
elapsed_test start period now = leb_ℤ (saturating_add start (as_i64 period)) now

elapsed_test-true :
    (start : ℤ) (period : ℕ) (now : ℤ)
    → period < 2 ^ 63
    → IsI64 start
    → IsI64 now
    → start +ℤ pos period ≤ℤ now
    → elapsed_test start period now ≡ true
elapsed_test-true (pos s) period (pos n) hp hs hn h = ground arith
elapsed_test-true (pos s) period (negsuc n) hp hs hn h = ground arith
elapsed_test-true (negsuc s) period (pos n) hp hs hn h = ground arith
elapsed_test-true (negsuc s) period (negsuc n) hp hs hn h = ground arith

elapsed_test-false :
    (start : ℤ) (period : ℕ) (now : ℤ)
    → period < 2 ^ 63
    → IsI64 start
    → now <ℤ i64_max
    → IsI64 now
    → now <ℤ start +ℤ pos period
    → elapsed_test start period now ≡ false
elapsed_test-false (pos s) period (pos n) hp hs hm hn h = ground arith
elapsed_test-false (pos s) period (negsuc n) hp hs hm hn h = ground arith
elapsed_test-false (negsuc s) period (pos n) hp hs hm hn h = ground arith
elapsed_test-false (negsuc s) period (negsuc n) hp hs hm hn h = ground arith

-- A period of 2^63 seconds or more is cast to a negative `i64`.
elapsed_test_wraps :
    (start : ℤ) (period : ℕ) (now : ℤ)
    → 2 ^ 63 ≤ period
    → period < 2 ^ 64
    → IsI64 start
    → start ≤ℤ now
    → IsI64 now
    → elapsed_test start period now ≡ true
elapsed_test_wraps (pos s) period (pos n) hp hq hs h hn = ground arith
elapsed_test_wraps (pos s) period (negsuc n) hp hq hs h hn = ground arith
elapsed_test_wraps (negsuc s) period (pos n) hp hq hs h hn = ground arith
elapsed_test_wraps (negsuc s) period (negsuc n) hp hq hs h hn = ground arith

le_ℤ_trans : (a b c : ℤ) → a ≤ℤ b → b ≤ℤ c → a ≤ℤ c
le_ℤ_trans a b c h k = omega arith

le-or-lt_ℤ : (a b : ℤ) → (a ≤ℤ b) ⊎ (b <ℤ a)
le-or-lt_ℤ a b = grind arith

module _ {Key : Type 0} (d : RecurringDelegation Key) where
  is_expired→Expired : (now : ℤ) → is_expired d now ≡ true → Expired d.expiry_ts now
  unfolding is_expired expired_test
  is_expired→Expired now h = expired_test_sound d.expiry_ts now h

  Expired→true : (now : ℤ) → Expired d.expiry_ts now → is_expired d now ≡ true
  unfolding is_expired expired_test
  Expired→true now h = expired_test_complete d.expiry_ts now h

  unexpired : (now : ℤ) → is_expired d now ≡ false → ¬ Expired d.expiry_ts now
  unexpired now h x = cc (h, Expired→true now x)

  amount_expired : (now : ℤ) → is_expired d now ≡ true → amount_available d now ≡ 0
  unfolding amount_available
  amount_expired now h = rw h

  amount_elapsed :
      (now : ℤ)
      → is_expired d now ≡ false
      → elapsed_test d.current_period_start_ts d.period_length_s now ≡ true
      → amount_available d now ≡ d.amount_per_period
  unfolding amount_available
  amount_elapsed now h k = rw (h, k)

  amount_in_period :
      (now : ℤ)
      → is_expired d now ≡ false
      → elapsed_test d.current_period_start_ts d.period_length_s now ≡ false
      → amount_available d now ≡ d.amount_per_period - d.amount_pulled_in_period
  unfolding amount_available
  amount_in_period now h k = rw (h, k)

  -- The three answers of `amount_available`, each with the condition on the unbounded integers.
  pub data Answer (now : ℤ) : Type 0 where
    expired : Expired d.expiry_ts now → amount_available d now ≡ 0 → Answer now
    rolled_over :
        ¬ Expired d.expiry_ts now
        → d.current_period_start_ts +ℤ pos d.period_length_s ≤ℤ now
        → amount_available d now ≡ d.amount_per_period
        → Answer now
    in_period :
        ¬ Expired d.expiry_ts now
        → now <ℤ d.current_period_start_ts +ℤ pos d.period_length_s
        → amount_available d now ≡ d.amount_per_period - d.amount_pulled_in_period
        → Answer now

  -- For a period below 2^63 seconds, and `i64`s for the start and for a time before `i64::MAX`,
  -- `amount_available` is 0 once the delegation has expired, else the full amount once start plus
  -- period (as integers without bounds) has been reached, else what is left of the amount after
  -- what was pulled.
  pub amount_available_lem :
      (now : ℤ)
      → d.period_length_s < 2 ^ 63
      → IsI64 d.current_period_start_ts
      → IsI64 now
      → now <ℤ i64_max
      → Answer now
  amount_available_lem now hp hs hn hm = elim (Bool-cases (is_expired d now)) [
    | inl e ↦ expired (is_expired→Expired now e) (amount_expired now e)
    | inr e ↦ elim (le-or-lt_ℤ (d.current_period_start_ts +ℤ pos d.period_length_s) now) [
      | inl h ↦ rolled_over (unexpired now e) h (
          amount_elapsed now e
            (elapsed_test-true d.current_period_start_ts d.period_length_s now hp hs hn h))
      | inr h ↦ in_period (unexpired now e) h (
          amount_in_period now e
            (elapsed_test-false d.current_period_start_ts d.period_length_s now hp hs hm hn h))
    ]
  ]

  -- Once a delegation has expired, nothing is available at any later time.
  pub amount_available-Expired :
      (now later : ℤ)
      → Expired d.expiry_ts now
      → now ≤ℤ later
      → (is_expired d later ≡ true) × (amount_available d later ≡ 0)
  amount_available-Expired now later (h, k) le =
      let x : is_expired d later ≡ true =
        Expired→true later (h, le_ℤ_trans d.expiry_ts now later k le) in
      (x, amount_expired later x)

  -- For a `u64` period of 2^63 seconds or more, which the cast to `i64` makes negative, and `i64`s for
  -- the start and the time, `amount_available` is the full amount when the period has started and has
  -- not elapsed, unless the delegation has expired.
  pub amount_available_wraps :
      (now : ℤ)
      → 2 ^ 63 ≤ d.period_length_s
      → d.period_length_s < 2 ^ 64
      → IsI64 d.current_period_start_ts
      → IsI64 now
      → d.current_period_start_ts ≤ℤ now
      → now <ℤ d.current_period_start_ts +ℤ pos d.period_length_s
      → ¬ Expired d.expiry_ts now
      → amount_available d now ≡ d.amount_per_period
  amount_available_wraps now hp hq hs hn h _ x = elim (Bool-cases (is_expired d now)) [
    | inl e ↦ absurd (x (is_expired→Expired now e))
    | inr e ↦
        amount_elapsed now e
          (elapsed_test_wraps d.current_period_start_ts d.period_length_s now hp hq hs h hn)
  ]
