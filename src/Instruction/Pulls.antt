-- ===== src/Instruction/Pulls.antt =====
-- What `transfer_recurring` and the builders of src/instruction/associated_token_account.rs put
-- into an instruction.
use mathlib.Core.Option
use svm_wasi_core.Base.{
  Option, none, some, Option-cases, ok_or, ap, inr, inl, ◌⊎◌, arith, ℕ, ◌<◌, ◌^◌, ◌≡◌, refl, true,
  false, [], ◌∷◌, length, map, Outcome, ok, err, slice, index, to_le_bytes, from-to_le_bytes,
  length-to_le_bytes, length-concat, slice-concat,
}
use svm_wasi_core.Keys.{Keys}
use svm_wasi_core.Instruction.{Programs, Instruction, system_id, role}
use svm_wasi_core.Instruction.Subscriptions.{
  id, subscription_authority_pda, event_authority_pda, transfer_fields, transfer_recurring,
}
use svm_wasi_core.Instruction.AssociatedTokenAccount.{
  get_associated_token_address, build, create_associated_token_account,
  create_associated_token_account_idempotent,
}
use svm_wasi_core.Instruction.AssociatedTokenAccount.{id as ata_id}
use svm_wasi_core.Instruction.Layouts.{
  read_u64, role-new, role-new_readonly, find_address-cases, authority-cases,
}

module _ (K : Keys) (P : Programs K.Key) where
  open K use {Key, as_ref, length-as_ref}
  open P use {AccountMeta, new, new_readonly}

  event-cases :
      (program : Key)
      → id K P ≡ ok program
      → (event_authority_pda K P ≡ err tt)
        ⊎ ((a : Key) × (bump : ℕ) × (event_authority_pda K P ≡ ok (a, bump)))
  unfolding event_authority_pda
  event-cases program h = find_address-cases K P _ (id K P) program h

  associated_address :
      (wallet mint token_program program : Key) (found : Option (Key × ℕ))
      → ata_id K P ≡ ok program
      → P.try_find_program_address (as_ref wallet ∷ as_ref token_program ∷ as_ref mint ∷ []) program
        ≡ found
      → get_associated_token_address K P wallet mint token_program
        ≡ ok_or (Option.map (λ pair. pair.0) found) tt
  unfolding get_associated_token_address
  associated_address wallet mint token_program program none h e = rw (h, e)
  associated_address wallet mint token_program program (some (a, bump)) h e = rw (h, e)

  module _ (program system : Key) where
    -- An instruction that pulls `amount`: the delegatee alone signs, only the delegation and the
    -- two token accounts are written, and the amount, the delegator and the mint stand in the data.
    pub record Pulls (delegation delegator delegatee mint from_ata to_ata token_program : Key)
        (amount : ℕ) (ix : Instruction Key AccountMeta) : Type 0 where
      pub authority : Key
      pub authority_bump : ℕ
      pub authority_pda :
          subscription_authority_pda K P delegator mint ≡ ok (authority, authority_bump)
      pub event : Key
      pub event_bump : ℕ
      pub event_pda : event_authority_pda K P ≡ ok (event, event_bump)
      pub program_id : ix.program_id ≡ program
      pub roles :
          map (role P) ix.accounts
          ≡ (delegation, false, true)
            ∷ (authority, false, false)
            ∷ (from_ata, false, true)
            ∷ (to_ata, false, true)
            ∷ (mint, false, false)
            ∷ (token_program, false, false)
            ∷ (delegatee, true, false)
            ∷ (event, false, false)
            ∷ (program, false, false)
            ∷ []
      pub size : length ix.ix_data ≡ 73
      pub tag : index {E = Unit {0}} ix.ix_data 0 ≡ ok 5
      pub amount_field : read_u64 ix.ix_data 1 9 ≡ ok amount
      pub delegator_field : slice {E = Unit {0}} ix.ix_data 9 41 ≡ ok (as_ref delegator)
      pub mint_field : slice {E = Unit {0}} ix.ix_data 41 73 ≡ ok (as_ref mint)

    -- There is an instruction unless one of the two addresses has no bump.
    pub data Pull (delegation delegator delegatee mint from_ata to_ata token_program : Key)
        (amount : ℕ) : Outcome (Unit {0}) (Instruction Key AccountMeta) → Type 0 where
      no_authority :
          subscription_authority_pda K P delegator mint ≡ err tt
          → Pull delegation delegator delegatee mint from_ata to_ata token_program amount (err tt)
      no_event :
          event_authority_pda K P ≡ err tt
          → Pull delegation delegator delegatee mint from_ata to_ata token_program amount (err tt)
      pulls :
          (ix : Instruction Key AccountMeta)
          → Pulls delegation delegator delegatee mint from_ata to_ata token_program amount ix
          → Pull delegation delegator delegatee mint from_ata to_ata token_program amount (ok ix)

    -- For an amount below 2^64, when the program id parses, `transfer_recurring` gives `None` only
    -- when the authority's or the event authority's address has no bump, and otherwise an
    -- instruction that pulls the amount, with the accounts in their roles.
    pub transfer_recurring-Pull :
        (delegation delegator delegatee mint from_ata to_ata token_program : Key) (amount : ℕ)
        → amount < 2 ^ 64
        → id K P ≡ ok program
        → Pull delegation delegator delegatee mint from_ata to_ata token_program amount (
            transfer_recurring K P delegation delegator delegatee mint from_ata to_ata token_program
              amount)
    unfolding transfer_recurring
    transfer_recurring-Pull delegation delegator delegatee mint from_ata to_ata token_program amount
          fits hp =
        let ps = transfer_fields K P amount delegator mint in
        let l1 = length-to_le_bytes 8 amount in
        let l2 = length-as_ref delegator in
        let l3 = length-as_ref mint in
        elim (authority-cases K P delegator mint program hp) [
          | inl e ↦ rw e (no_authority e)
          | inr (authority, bump, e) ↦ elim (event-cases program hp) [
            | inl f ↦ rw (e, f) (no_event f)
            | inr (event, bump', f) ↦
                rw (e, f, hp)
                  (pulls _ (record {
                    authority = authority;
                    authority_bump = bump;
                    authority_pda = e;
                    event = event;
                    event_bump = bump';
                    event_pda = f;
                    program_id = refl;
                    roles = rw (
                      role-new K P delegation false,
                      role-new_readonly K P authority false,
                      role-new K P from_ata false,
                      role-new K P to_ata false,
                      role-new_readonly K P mint false,
                      role-new_readonly K P token_program false,
                      role-new_readonly K P delegatee true,
                      role-new_readonly K P event false,
                      role-new_readonly K P program false,
                    );
                    size = omega (arith, length-concat ps);
                    tag = refl;
                    amount_field =
                        rw
                          (slice-concat {E = Unit {0}} ps 1 (to_le_bytes 8 amount) 1 9 refl refl
                            (omega arith))
                          (ap ok (from-to_le_bytes 8 amount fits));
                    delegator_field = slice-concat ps 2 _ 9 41 refl (omega arith) (omega arith);
                    mint_field = slice-concat ps 3 _ 41 73 refl (omega arith) (omega arith);
                  }))
          ]
        ]

    -- What a builder of a token account gives: `None` when the address has no bump, and otherwise
    -- an instruction that the funding account signs, with `tag` as its data.
    pub data Opening (funding wallet mint token_program : Key) (tag : ℕ)
        : Outcome (Unit {0}) (Instruction Key AccountMeta) → Type 0 where
      no_address :
          P.try_find_program_address
              (as_ref wallet ∷ as_ref token_program ∷ as_ref mint ∷ [])
              program
            ≡ none
          → Opening funding wallet mint token_program tag (err tt)
      opens :
          (ix : Instruction Key AccountMeta) (address : Key) (bump : ℕ)
          → P.try_find_program_address
              (as_ref wallet ∷ as_ref token_program ∷ as_ref mint ∷ [])
              program
            ≡ some (address, bump)
          → ix.program_id ≡ program
          → map (role P) ix.accounts
            ≡ (funding, true, true)
              ∷ (address, false, true)
              ∷ (wallet, false, false)
              ∷ (mint, false, false)
              ∷ (system, false, false)
              ∷ (token_program, false, false)
              ∷ []
          → ix.ix_data ≡ tag ∷ []
          → Opening funding wallet mint token_program tag (ok ix)

    build-Opening :
        (funding wallet mint token_program : Key) (tag : ℕ)
        → ata_id K P ≡ ok program
        → system_id P ≡ ok system
        → Opening funding wallet mint token_program tag
            (build K P funding wallet mint token_program tag)
    unfolding build
    build-Opening funding wallet mint token_program tag hp hs =
        elim (Option-cases (
          P.try_find_program_address (as_ref wallet ∷ as_ref token_program ∷ as_ref mint ∷ [])
            program)) [
              | inl e ↦
                  rw (associated_address wallet mint token_program program none hp e) (no_address e)
              | inr ((address, bump), e) ↦
                  rw
                    (
                      associated_address wallet mint token_program program (some (address, bump)) hp
                          e,
                      hp,
                      hs,
                    )
                    (opens _ address bump e refl
                      (rw (
                        role-new K P funding true,
                        role-new K P address false,
                        role-new_readonly K P wallet false,
                        role-new_readonly K P mint false,
                        role-new_readonly K P system false,
                        role-new_readonly K P token_program false,
                      ))
                      refl)
            ]

    -- When the two program ids parse, both builders open the account at the address that the search
    -- finds for the wallet, the token program and the mint as its seeds, with tag 0 and, for the
    -- idempotent one, 1; or give `None` when the search finds none.
    pub create_associated_token_account-Opening :
        (funding wallet mint token_program : Key)
        → ata_id K P ≡ ok program
        → system_id P ≡ ok system
        → Opening funding wallet mint token_program 0
            (create_associated_token_account K P funding wallet mint token_program)
          × Opening funding wallet mint token_program 1
              (create_associated_token_account_idempotent K P funding wallet mint token_program)
    unfolding create_associated_token_account create_associated_token_account_idempotent
    create_associated_token_account-Opening funding wallet mint token_program hp hs = (
      build-Opening funding wallet mint token_program 0 hp hs,
      build-Opening funding wallet mint token_program 1 hp hs,
    )
