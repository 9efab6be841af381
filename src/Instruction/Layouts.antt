-- ===== src/Instruction/Layouts.antt =====
-- What the builders of src/instruction/subscriptions.rs put into an instruction, as the program
-- on the chain reads it.
use svm_wasi_core.Base.{
  ap, inr, offset, get_elem?, inl, ◌⊎◌, arith, ℕ, ◌+◌, ◌<◌, ◌^◌, ◌≡◌, refl, Bool, true, false, some,
  List, [], ◌∷◌, length, map, Outcome, ok, err, ◌>>=◌, slice, index, to_le_bytes, from_le_bytes,
  length-to_le_bytes, from-to_le_bytes, concat, length-concat, slice-concat, Option-cases,
}
use svm_wasi_core.Base.Int.{
  ℤ, IsI64, i64_to_le_bytes, i64_from_le_bytes, length-i64_to_le_bytes, i64_from-to_le_bytes,
}
use svm_wasi_core.Keys.{Keys}
use svm_wasi_core.Instruction.{Programs, Instruction, find_address, system_id, role}
use svm_wasi_core.Instruction.Subscriptions.{
  id, subscription_authority_pda, recurring_delegation_pda, create_fields,
  create_recurring_delegation,
}

-- The numbers at bytes `a` to `b`.
abbrev pub read_u64 : List ℕ → ℕ → ℕ → Outcome (Unit {0}) ℕ
read_u64 bytes a b = slice bytes a b >>= λ field. ok (from_le_bytes field)

abbrev pub read_i64 : List ℕ → ℕ → ℕ → Outcome (Unit {0}) ℤ
read_i64 bytes a b = slice bytes a b >>= λ field. ok (i64_from_le_bytes field)

module _ (K : Keys) (P : Programs K.Key) where
  open K use {Key, as_ref, length-as_ref}
  open P use {
    AccountMeta, new, new_readonly, pubkey-new, is_signer-new, is_writable-new, pubkey-new_readonly,
    is_signer-new_readonly, is_writable-new_readonly,
  }

  pub role-new : (k : Key) (b : Bool) → role P (new k b) ≡ (k, b, true)
  role-new k b = rw (pubkey-new k b, is_signer-new k b, is_writable-new k b)

  pub role-new_readonly : (k : Key) (b : Bool) → role P (new_readonly k b) ≡ (k, b, false)
  role-new_readonly k b =
      rw (pubkey-new_readonly k b, is_signer-new_readonly k b, is_writable-new_readonly k b)

  pub find_address-cases :
      (seeds : List (List ℕ)) (i : Outcome (Unit {0}) Key) (program : Key)
      → i ≡ ok program
      → (find_address P seeds i ≡ err tt)
        ⊎ ((a : Key) × (bump : ℕ) × (find_address P seeds i ≡ ok (a, bump)))
  find_address-cases seeds i program h =
      elim (Option-cases (P.try_find_program_address seeds program)) [
        | inl e ↦ inl (rw (h, e))
        | inr ((a, bump), e) ↦ inr (a, bump, rw (h, e))
      ]

  pub authority-cases :
      (user mint program : Key)
      → id K P ≡ ok program
      → (subscription_authority_pda K P user mint ≡ err tt)
        ⊎ ((a : Key) × (bump : ℕ) × (subscription_authority_pda K P user mint ≡ ok (a, bump)))
  unfolding subscription_authority_pda
  authority-cases user mint program h = find_address-cases _ (id K P) program h

  delegation-cases :
      (authority delegator delegatee program : Key) (nonce : ℕ)
      → id K P ≡ ok program
      → (recurring_delegation_pda K P authority delegator delegatee nonce ≡ err tt)
        ⊎ ((a : Key) × (bump : ℕ) × (recurring_delegation_pda K P authority delegator delegatee
                nonce
              ≡ ok (a, bump)))
  unfolding recurring_delegation_pda
  delegation-cases authority delegator delegatee program nonce h =
      find_address-cases _ (id K P) program h

  module _ (program system delegator delegatee mint : Key) where
    -- An instruction that grants a delegation: the delegator alone signs, the delegation account
    -- is at its derived address, and every argument stands in the data at its place.
    pub record Grants (nonce amount period : ℕ) (start expiry init : ℤ)
        (ix : Instruction Key AccountMeta) : Type 0 where
      pub authority : Key
      pub authority_bump : ℕ
      pub authority_pda :
          subscription_authority_pda K P delegator mint ≡ ok (authority, authority_bump)
      pub delegation : Key
      pub delegation_bump : ℕ
      pub delegation_pda :
          recurring_delegation_pda K P authority delegator delegatee nonce
          ≡ ok (delegation, delegation_bump)
      pub program_id : ix.program_id ≡ program
      pub roles :
          map (role P) ix.accounts
          ≡ (delegator, true, true)
            ∷ (authority, false, false)
            ∷ (delegation, false, true)
            ∷ (delegatee, false, false)
            ∷ (system, false, false)
            ∷ []
      pub size : length ix.ix_data ≡ 49
      pub tag : index {E = Unit {0}} ix.ix_data 0 ≡ ok 2
      pub nonce_field : read_u64 ix.ix_data 1 9 ≡ ok nonce
      pub amount_field : read_u64 ix.ix_data 9 17 ≡ ok amount
      pub period_field : read_u64 ix.ix_data 17 25 ≡ ok period
      pub start_field : read_i64 ix.ix_data 25 33 ≡ ok start
      pub expiry_field : read_i64 ix.ix_data 33 41 ≡ ok expiry
      pub init_field : read_i64 ix.ix_data 41 49 ≡ ok init

    -- There is an instruction unless one of the two addresses has no bump.
    pub data Creation (nonce amount period : ℕ) (start expiry init : ℤ)
        : Outcome (Unit {0}) (Instruction Key AccountMeta) → Type 0 where
      no_authority :
          subscription_authority_pda K P delegator mint ≡ err tt
          → Creation nonce amount period start expiry init (err tt)
      no_delegation :
          (authority : Key) (bump : ℕ)
          → subscription_authority_pda K P delegator mint ≡ ok (authority, bump)
          → recurring_delegation_pda K P authority delegator delegatee nonce ≡ err tt
          → Creation nonce amount period start expiry init (err tt)
      created :
          (ix : Instruction Key AccountMeta)
          → Grants nonce amount period start expiry init ix
          → Creation nonce amount period start expiry init (ok ix)

    -- The numbers fit their types.
    pub record Fits (nonce amount period : ℕ) (start expiry init : ℤ) : Type 0 where
      pub fits_nonce : nonce < 2 ^ 64
      pub fits_amount : amount < 2 ^ 64
      pub fits_period : period < 2 ^ 64
      pub fits_start : IsI64 start
      pub fits_expiry : IsI64 expiry
      pub fits_init : IsI64 init

    read_u64-concat :
        (ps : List (List ℕ)) (i n a b : ℕ)
        → get_elem? ps i ≡ some (to_le_bytes 8 n)
        → offset ps i ≡ a
        → a + 8 ≡ b
        → n < 2 ^ 64
        → read_u64 (concat ps) a b ≡ ok n
    read_u64-concat ps i n a b h o e f =
        rw
          (slice-concat {E = Unit {0}} ps i (to_le_bytes 8 n) a b h o
            (omega (arith, length-to_le_bytes 8 n)))
          (ap ok (from-to_le_bytes 8 n f))

    read_i64-concat :
        (ps : List (List ℕ)) (i a b : ℕ) (n : ℤ)
        → get_elem? ps i ≡ some (i64_to_le_bytes n)
        → offset ps i ≡ a
        → a + 8 ≡ b
        → IsI64 n
        → read_i64 (concat ps) a b ≡ ok n
    read_i64-concat ps i a b n h o e f =
        rw
          (slice-concat {E = Unit {0}} ps i (i64_to_le_bytes n) a b h o
            (omega (arith, length-i64_to_le_bytes n)))
          (ap ok (i64_from-to_le_bytes n f))

    grants :
        (authority delegation : Key) (bump bump' nonce amount period : ℕ) (start expiry init : ℤ)
        → subscription_authority_pda K P delegator mint ≡ ok (authority, bump)
        → recurring_delegation_pda K P authority delegator delegatee nonce ≡ ok (delegation, bump')
        → Fits nonce amount period start expiry init
        → Grants nonce amount period start expiry init (record {
          program_id = program;
          accounts =
              new delegator true
              ∷ new_readonly authority false
              ∷ new delegation false
              ∷ new_readonly delegatee false
              ∷ new_readonly system false
              ∷ [];
          ix_data = concat (create_fields K P nonce amount period start expiry init);
        })
    grants authority delegation bump bump' nonce amount period start expiry init e f fits =
        let ps = create_fields K P nonce amount period start expiry init in
        let l1 = length-to_le_bytes 8 nonce in
        let l2 = length-to_le_bytes 8 amount in
        let l3 = length-to_le_bytes 8 period in
        let l4 = length-i64_to_le_bytes start in
        let l5 = length-i64_to_le_bytes expiry in
        let l6 = length-i64_to_le_bytes init in
        record {
          authority = authority;
          authority_bump = bump;
          authority_pda = e;
          delegation = delegation;
          delegation_bump = bump';
          delegation_pda = f;
          program_id = refl;
          roles = rw (
            role-new delegator true,
            role-new_readonly authority false,
            role-new delegation false,
            role-new_readonly delegatee false,
            role-new_readonly system false,
          );
          size = omega (arith, length-concat ps);
          tag = refl;
          nonce_field = read_u64-concat ps 1 nonce 1 9 refl refl refl fits.fits_nonce;
          amount_field = read_u64-concat ps 2 amount 9 17 refl (omega arith) refl fits.fits_amount;
          period_field = read_u64-concat ps 3 period 17 25 refl (omega arith) refl fits.fits_period;
          start_field = read_i64-concat ps 4 25 33 start refl (omega arith) refl fits.fits_start;
          expiry_field = read_i64-concat ps 5 33 41 expiry refl (omega arith) refl fits.fits_expiry;
          init_field = read_i64-concat ps 6 41 49 init refl (omega arith) refl fits.fits_init;
        }

    -- For numbers that fit their types, when the two program ids parse,
    -- `create_recurring_delegation` gives `None` exactly when an address has no bump, and
    -- otherwise an instruction that grants the delegation with every argument in its place.
    pub create_recurring_delegation-Creation :
        (nonce amount period : ℕ) (start expiry init : ℤ)
        → Fits nonce amount period start expiry init
        → id K P ≡ ok program
        → system_id P ≡ ok system
        → Creation nonce amount period start expiry init (
            create_recurring_delegation K P delegator delegatee mint nonce amount period start
              expiry init)
    unfolding create_recurring_delegation
    create_recurring_delegation-Creation nonce amount period start expiry init fits hp hs =
        elim (authority-cases delegator mint program hp) [
          | inl e ↦ rw e (no_authority e)
          | inr (authority, bump, e) ↦
              elim (delegation-cases authority delegator delegatee program nonce hp) [
                | inl f ↦ rw (e, f) (no_delegation authority bump e f)
                | inr (delegation, bump', f) ↦
                    rw (e, f, hp, hs)
                      (created _ (
                        grants authority delegation bump bump' nonce amount period start expiry init
                          e f fits))
              ]
        ]
