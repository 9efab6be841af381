-- ===== src/SubscriptionState/Exact.antt =====
-- What `unpack` answers on any bytes.
use svm_wasi_core.Base.{
  String, ◌≤◌, ◌-◌, ◌∙◌, ap, to_le_bytes, from_le_bytes, String, ℕ, ◌≡◌, ◌≢◌, some, List, length,
  arith, Bool-cases, inl, inr, index-some, All, IsByte, ◌==◌, ==→eq, eq→==, get_elem?, Outcome, err,
  ok,
}
use svm_wasi_core.Base.Cuts.{
  cut, slice-cut, length-cut, drop-cut, drop_elem, drop_end, elem_inside, All-cut,
  i64_to-from_le_bytes, to-from_le_bytes_of,
}
use svm_wasi_core.Base.Int.{i64_to_le_bytes, i64_from_le_bytes}
use svm_wasi_core.Keys.{Keys}
use svm_wasi_core.SubscriptionState.{
  SubscriptionStateError, SubscriptionAuthority, RecurringDelegation, unpack_authority,
  unpack_delegation, wrong_length, wrong_discriminator, hand_assembled_subscription_authority,
  hand_assembled_recurring_delegation,
}
use svm_wasi_core.SubscriptionState.RoundTrip.{
  Read, unpack_authority_reads, unpack_delegation_reads,
}

-- The answers of an `unpack` that wants `len` bytes behind the tag byte `expected`. `Holds a` says
-- that the bytes are those of the account state `a`.
pub data Answer {A : Type 0} (len expected : ℕ) (kind : String) (Holds : A → Type 0)
    (bytes : List ℕ) : Outcome SubscriptionStateError A → Type 0 where
  bad_length :
      length bytes ≢ len
      → Answer len expected kind Holds bytes (err (wrong_length (length bytes) len kind))
  bad_tag :
      (tag : ℕ)
      → length bytes ≡ len
      → get_elem? bytes 0 ≡ some tag
      → tag ≢ expected
      → Answer len expected kind Holds bytes (err (wrong_discriminator tag expected kind))
  parsed :
      (a : A)
      → length bytes ≡ len
      → get_elem? bytes 0 ≡ some expected
      → Holds a
      → Answer len expected kind Holds bytes (ok a)

module _ (K : Keys) (bytes : List ℕ) where
  open K use {Key, new_from_array, as_ref, as_ref-new_from_array}

  abbrev pub AuthorityAnswer : Outcome SubscriptionStateError (SubscriptionAuthority Key) → Type 0
  AuthorityAnswer =
      Answer 106 0 "SubscriptionAuthority" (λ a. hand_assembled_subscription_authority K a ≡ bytes)
        bytes

  abbrev pub DelegationAnswer : Outcome SubscriptionStateError (RecurringDelegation Key) → Type 0
  DelegationAnswer =
      Answer 211 3 "RecurringDelegation"
        (λ d.
          (version : ℕ) × (bump : ℕ) × (hand_assembled_recurring_delegation K version bump d
            ≡ bytes))
        bytes

  authority_bad_length :
      length bytes ≢ 106
      → unpack_authority K bytes ≡ err (wrong_length (length bytes) 106 "SubscriptionAuthority")
  unfolding unpack_authority
  authority_bad_length h = elim (Bool-cases (length bytes == 106)) [
    | inl e ↦ absurd (h (==→eq _ _ e))
    | inr e ↦ rw e
  ]

  pub authority_bad_tag :
      (tag : ℕ)
      → length bytes ≡ 106
      → get_elem? bytes 0 ≡ some tag
      → tag ≢ 0
      → unpack_authority K bytes ≡ err (wrong_discriminator tag 0 "SubscriptionAuthority")
  unfolding unpack_authority
  authority_bad_tag tag l t h = elim (Bool-cases (tag == 0)) [
    | inl e ↦ absurd (h (==→eq _ _ e))
    | inr e ↦ rw (eq→== _ _ l, index-some {E = SubscriptionStateError} bytes 0 tag t, e)
  ]

  delegation_bad_length :
      length bytes ≢ 211
      → unpack_delegation K bytes ≡ err (wrong_length (length bytes) 211 "RecurringDelegation")
  unfolding unpack_delegation
  delegation_bad_length h = elim (Bool-cases (length bytes == 211)) [
    | inl e ↦ absurd (h (==→eq _ _ e))
    | inr e ↦ rw e
  ]

  pub delegation_bad_tag :
      (tag : ℕ)
      → length bytes ≡ 211
      → get_elem? bytes 0 ≡ some tag
      → tag ≢ 3
      → unpack_delegation K bytes ≡ err (wrong_discriminator tag 3 "RecurringDelegation")
  unfolding unpack_delegation
  delegation_bad_tag tag l t h = elim (Bool-cases (tag == 3)) [
    | inl e ↦ absurd (h (==→eq _ _ e))
    | inr e ↦ rw (eq→== _ _ l, index-some {E = SubscriptionStateError} bytes 0 tag t, e)
  ]

  key_field :
      (a b : ℕ)
      → a ≤ b
      → b ≤ length bytes
      → b - a ≡ 32
      → as_ref (new_from_array (cut bytes a b)) ≡ cut bytes a b
  key_field a b h k e = as_ref-new_from_array (cut bytes a b) (length-cut bytes a b h k ∙ e)

  i64_field :
      (a b : ℕ)
      → a ≤ b
      → b ≤ length bytes
      → b - a ≡ 8
      → All IsByte bytes
      → i64_to_le_bytes (i64_from_le_bytes (cut bytes a b)) ≡ cut bytes a b
  i64_field a b h k e all =
      i64_to-from_le_bytes (cut bytes a b) (All-cut IsByte bytes a b all)
        (length-cut bytes a b h k ∙ e)

  u64_field :
      (a b : ℕ)
      → a ≤ b
      → b ≤ length bytes
      → b - a ≡ 8
      → All IsByte bytes
      → to_le_bytes 8 (from_le_bytes (cut bytes a b)) ≡ cut bytes a b
  u64_field a b h k e all =
      to-from_le_bytes_of 8 (cut bytes a b) (All-cut IsByte bytes a b all)
        (length-cut bytes a b h k ∙ e)

  read : (a b : ℕ) → a ≤ b → b ≤ length bytes → Read K bytes a b (cut bytes a b)
  read a b h k = slice-cut bytes a b h k

  authority_parsed :
      All IsByte bytes
      → length bytes ≡ 106
      → get_elem? bytes 0 ≡ some 0
      → AuthorityAnswer (unpack_authority K bytes)
  authority_parsed all l t =
      let (bump, b) = elem_inside bytes 97 (omega arith) in
      rw
        (unpack_authority_reads K bytes _ _ _ _ bump l (index-some bytes 0 0 t)
          (read 1 33 (omega arith) (omega arith)) (read 33 65 (omega arith) (omega arith))
          (read 65 97 (omega arith) (omega arith)) (index-some bytes 97 bump b)
          (read 98 106 (omega arith) (omega arith)))
        (parsed _ l t (
          cc (
            key_field 1 33 (omega arith) (omega arith) (omega arith),
            key_field 33 65 (omega arith) (omega arith) (omega arith),
            key_field 65 97 (omega arith) (omega arith) (omega arith),
            i64_field 98 106 (omega arith) (omega arith) (omega arith) all,
            drop_end 106 bytes l,
            drop-cut bytes 98 106 (omega arith),
            drop_elem bytes 97 bump b,
            drop-cut bytes 65 97 (omega arith),
            drop-cut bytes 33 65 (omega arith),
            drop-cut bytes 1 33 (omega arith),
            drop_elem bytes 0 0 t,
          )))

  delegation_parsed :
      All IsByte bytes
      → length bytes ≡ 211
      → get_elem? bytes 0 ≡ some 3
      → DelegationAnswer (unpack_delegation K bytes)
  delegation_parsed all l t =
      let (version, v) = elem_inside bytes 1 (omega arith) in
      let (bump, b) = elem_inside bytes 2 (omega arith) in
      rw
        (unpack_delegation_reads K bytes _ _ _ _ _ _ _ _ _ _ _ l (index-some bytes 0 3 t)
          (read 3 35 (omega arith) (omega arith)) (read 35 67 (omega arith) (omega arith))
          (read 67 99 (omega arith) (omega arith)) (read 99 107 (omega arith) (omega arith))
          (read 107 139 (omega arith) (omega arith)) (read 139 171 (omega arith) (omega arith))
          (read 171 179 (omega arith) (omega arith)) (read 179 187 (omega arith) (omega arith))
          (read 187 195 (omega arith) (omega arith)) (read 195 203 (omega arith) (omega arith))
          (read 203 211 (omega arith) (omega arith)))
        (parsed _ l t (
          version,
          bump,
          cc (
            key_field 3 35 (omega arith) (omega arith) (omega arith),
            key_field 35 67 (omega arith) (omega arith) (omega arith),
            key_field 67 99 (omega arith) (omega arith) (omega arith),
            i64_field 99 107 (omega arith) (omega arith) (omega arith) all,
            key_field 107 139 (omega arith) (omega arith) (omega arith),
            key_field 139 171 (omega arith) (omega arith) (omega arith),
            i64_field 171 179 (omega arith) (omega arith) (omega arith) all,
            u64_field 179 187 (omega arith) (omega arith) (omega arith) all,
            i64_field 187 195 (omega arith) (omega arith) (omega arith) all,
            u64_field 195 203 (omega arith) (omega arith) (omega arith) all,
            u64_field 203 211 (omega arith) (omega arith) (omega arith) all,
            drop_end 211 bytes l,
            drop-cut bytes 203 211 (omega arith),
            drop-cut bytes 195 203 (omega arith),
            drop-cut bytes 187 195 (omega arith),
            drop-cut bytes 179 187 (omega arith),
            drop-cut bytes 171 179 (omega arith),
            drop-cut bytes 139 171 (omega arith),
            drop-cut bytes 107 139 (omega arith),
            drop-cut bytes 99 107 (omega arith),
            drop-cut bytes 67 99 (omega arith),
            drop-cut bytes 35 67 (omega arith),
            drop-cut bytes 3 35 (omega arith),
            drop_elem bytes 2 bump b,
            drop_elem bytes 1 version v,
            drop_elem bytes 0 3 t,
          ),
        ))

  -- On no list of bytes does `SubscriptionAuthority::unpack` panic. It refuses bytes of a length
  -- other than 106 with the two lengths, and bytes of that length with another tag than 0 with the
  -- two tags. All others it parses, to the state whose layout is exactly those bytes.
  pub unpack_authority-Answer : All IsByte bytes → AuthorityAnswer (unpack_authority K bytes)
  unpack_authority-Answer all = elim (Bool-cases (length bytes == 106)) [
    | inr e ↦
        let h : length bytes ≢ 106 = λ l. cc (e, eq→== _ 106 l) in
        rw (authority_bad_length h) (bad_length h)
    | inl e ↦
        let l : length bytes ≡ 106 = ==→eq _ _ e in
        let (tag, t) = elem_inside bytes 0 (omega arith) in
        elim (Bool-cases (tag == 0)) [
          | inl z ↦ authority_parsed all l (t ∙ ap some (==→eq _ _ z))
          | inr z ↦
              let h : tag ≢ 0 = λ w. cc (z, eq→== _ 0 w) in
              rw (authority_bad_tag tag l t h) (bad_tag tag l t h)
        ]
  ]

  -- `RecurringDelegation::unpack` never panics. It refuses bytes of a length other than 211 with
  -- the two lengths, and bytes of that length with another tag than 3 with the two tags. All
  -- others it parses, to the state whose layout is exactly those bytes for some version and bump.
  pub unpack_delegation-Answer : All IsByte bytes → DelegationAnswer (unpack_delegation K bytes)
  unpack_delegation-Answer all = elim (Bool-cases (length bytes == 211)) [
    | inr e ↦
        let h : length bytes ≢ 211 = λ l. cc (e, eq→== _ 211 l) in
        rw (delegation_bad_length h) (bad_length h)
    | inl e ↦
        let l : length bytes ≡ 211 = ==→eq _ _ e in
        let (tag, t) = elem_inside bytes 0 (omega arith) in
        elim (Bool-cases (tag == 3)) [
          | inl z ↦ delegation_parsed all l (t ∙ ap some (==→eq _ _ z))
          | inr z ↦
              let h : tag ≢ 3 = λ w. cc (z, eq→== _ 3 w) in
              rw (delegation_bad_tag tag l t h) (bad_tag tag l t h)
        ]
  ]
