-- ===== src/UnitTests/Mints.antt =====
-- The tests of src/token_state.rs, under what spl-token-2022-interface reads from their layouts.
use mathlib.Core.List.{append-nil, append_assoc}
use svm_wasi_core.Base.{
  length-replicate, ◌∙◌, ap, eq→==, take-append, slice_prefix, length-to_le_bytes, min,
  length-append, ◌^◌, arith, ◌<◌, ℕ, ◌≡◌, refl, ◌>>=◌, ◌>>◌, ◌==◌, ◌+◌, ◌-◌, Bool, true, Option,
  some, none, String, ok, err, List, [], ◌∷◌, ◌++◌, length, replicate, to_le_bytes,
}
use svm_wasi_core.Keys.{Keys}
use svm_wasi_core.TokenState.{
  TokenStateError, TokenPackage, unpack_mint, find_transfer_fee_config, find_permanent_delegate,
  find_transfer_hook,
}
use svm_wasi_core.UnitTests.{
  Test, assert, assert_eq, assert_eq_holds, unwrap, unwrap_some, is_none, pk,
}

-- `supply`, `decimals` and `is_initialized` are the fields of the package's `Mint`.
module _ (K : Keys) (P : TokenPackage K.Key) (supply decimals : P.Mint → ℕ)
    (is_initialized : P.Mint → Bool) where
  open K use {Key, key_discrete, as_ref}

  -- `encode_coption_pubkey`, as what it appends.
  abbrev encode_coption_pubkey : Option Key → List ℕ
  encode_coption_pubkey (some pubkey) = to_le_bytes 4 1 ++ as_ref pubkey
  encode_coption_pubkey none = replicate 36 0

  abbrev hand_assembled_plain_mint : Option Key → ℕ → ℕ → List ℕ
  hand_assembled_plain_mint mint_authority supply decimals =
      encode_coption_pubkey mint_authority
      ++ (to_le_bytes 8 supply ++ ((decimals ∷ []) ++ ((1 ∷ []) ++ encode_coption_pubkey none)))

  -- A mint of key 1 with `supply` 1,000,000 and 6 decimals, padded to the account type, which is
  -- that of a mint.
  abbrev extended_mint : List ℕ
  extended_mint =
      let plain = hand_assembled_plain_mint (some (pk K 1)) 1000000 6 in
      plain ++ (replicate (165 - length plain) 0 ++ (1 ∷ []))

  unfoldable unpacks_a_plain_mint : Test
  unpacks_a_plain_mint = do
    mint ← unwrap (unpack_mint P (hand_assembled_plain_mint (some (pk K 7)) 1000000000 6))
    assert (supply mint == 1000000000)
    assert (decimals mint == 6)
    assert (is_initialized mint)

  unfoldable plain_mint_has_no_extensions : Test
  plain_mint_has_no_extensions = do
    let bytes = hand_assembled_plain_mint none 1 0
    config ← unwrap (find_transfer_fee_config P bytes)
    assert (is_none config)
    delegate ← unwrap (find_permanent_delegate P bytes)
    assert (is_none delegate)
    hook ← unwrap (find_transfer_hook P bytes)
    assert (is_none hook)

  -- The mint with a permanent delegate behind it: type 12, length 32, and the key.
  abbrev delegate_mint : Key → List ℕ
  delegate_mint delegate =
      extended_mint ++ (to_le_bytes 2 12 ++ (to_le_bytes 2 32 ++ as_ref delegate))

  unfoldable parses_permanent_delegate_on_an_extended_mint : Test
  parses_permanent_delegate_on_an_extended_mint = do
    let delegate = pk K 9
    let bytes = delegate_mint delegate
    assert (length bytes == 166 + 4 + 32)
    found ← unwrap (find_permanent_delegate P bytes)
    found_key ← unwrap_some found
    assert_eq key_discrete found_key delegate
    config ← unwrap (find_transfer_fee_config P bytes)
    assert (is_none config)
    mint ← unwrap (unpack_mint P bytes)
    assert (supply mint == 1000000)

  -- What the package documents of a mint's base bytes.
  pub record ReadsMints : Type 0 where
    pub size : P.mint_len ≡ 82
    pub mint : Option Key → ℕ → ℕ → P.Mint
    pub reads :
        (a : Option Key) (s d : ℕ)
        → s < 2 ^ 64
        → d < 256
        → P.mint_unpack (hand_assembled_plain_mint a s d) ≡ ok (mint a s d)
    pub supply_read : (a : Option Key) (s d : ℕ) → supply (mint a s d) ≡ s
    pub decimals_read : (a : Option Key) (s d : ℕ) → decimals (mint a s d) ≡ d
    pub initialized_read : (a : Option Key) (s d : ℕ) → is_initialized (mint a s d) ≡ true

  length-encode_coption_pubkey : (a : Option Key) → length (encode_coption_pubkey a) ≡ 36
  length-encode_coption_pubkey (some k) =
      omega (
        arith,
        length-append (to_le_bytes 4 1) (as_ref k),
        length-to_le_bytes 4 1,
        K.length-as_ref k,
      )
  length-encode_coption_pubkey none = refl

  length-hand_assembled_plain_mint :
      (a : Option Key) (s d : ℕ) → length (hand_assembled_plain_mint a s d) ≡ 82
  length-hand_assembled_plain_mint a s d = omega (
    arith,
    length-append (encode_coption_pubkey a)
        (to_le_bytes 8 s ++ ((d ∷ []) ++ ((1 ∷ []) ++ encode_coption_pubkey none))),
    length-append (to_le_bytes 8 s) ((d ∷ []) ++ ((1 ∷ []) ++ encode_coption_pubkey none)),
    length-to_le_bytes 8 s,
    length-encode_coption_pubkey a,
  )

  -- Nothing behind the base bytes makes a difference.
  unpack_mint-extended :
      (reads : ReadsMints) (a : Option Key) (s d : ℕ) (rest : List ℕ)
      → s < 2 ^ 64
      → d < 256
      → unpack_mint P (hand_assembled_plain_mint a s d ++ rest) ≡ ok (reads.mint a s d)
  unfolding unpack_mint
  unpack_mint-extended reads a s d rest hs hd =
      let plain = hand_assembled_plain_mint a s d in
      let l = length-hand_assembled_plain_mint a s d in
      let base : min P.mint_len (length (plain ++ rest)) ≡ length plain =
        omega (arith, l, reads.size, length-append plain rest) in
      rw (
        base,
        slice_prefix {E = TokenStateError} (plain ++ rest) (length plain)
            (omega (arith, length-append plain rest)),
        take-append (length plain) plain rest refl,
        reads.reads a s d hs hd,
      )

  unpacks_a_plain_mint_lem : ReadsMints → unpacks_a_plain_mint ≡ ok tt
  unfolding unpacks_a_plain_mint
  unpacks_a_plain_mint_lem reads =
      let a = some (pk K 7) in
      rw (
        ← append-nil (hand_assembled_plain_mint a 1000000000 6),
        unpack_mint-extended reads a 1000000000 6 [] (omega arith) (omega arith),
        reads.supply_read a 1000000000 6,
        reads.decimals_read a 1000000000 6,
        reads.initialized_read a 1000000000 6,
      )

  unpack_delegate_mint :
      (reads : ReadsMints)
      → unpack_mint P (delegate_mint (pk K 9)) ≡ ok (reads.mint (some (pk K 1)) 1000000 6)
  unpack_delegate_mint reads =
      let plain = hand_assembled_plain_mint (some (pk K 1)) 1000000 6 in
      let zero_byte : ℕ = 0 in
      let padding : List ℕ = replicate (165 - length plain) 0 ++ (1 ∷ []) in
      let tail = to_le_bytes 2 12 ++ (to_le_bytes 2 32 ++ as_ref (pk K 9)) in
      ap (unpack_mint P) (append_assoc plain padding tail)
      ∙ unpack_mint-extended reads (some (pk K 1)) 1000000 6 (padding ++ tail) (omega arith)
          (omega arith)

  length-delegate_mint : (delegate : Key) → length (delegate_mint delegate) ≡ 166 + 4 + 32
  length-delegate_mint delegate =
      let plain = hand_assembled_plain_mint (some (pk K 1)) 1000000 6 in
      let zero_byte : ℕ = 0 in
      let padding : List ℕ = replicate (165 - length plain) 0 in
      let tail = to_le_bytes 2 12 ++ (to_le_bytes 2 32 ++ as_ref delegate) in
      omega (
        arith,
        length-append extended_mint tail,
        length-append plain (padding ++ (1 ∷ [])),
        length-append padding (1 ∷ []),
        length-replicate (165 - length plain) zero_byte,
        length-hand_assembled_plain_mint (some (pk K 1)) 1000000 6,
        length-append (to_le_bytes 2 12) (to_le_bytes 2 32 ++ as_ref delegate),
        length-append (to_le_bytes 2 32) (as_ref delegate),
        length-to_le_bytes 2 12,
        length-to_le_bytes 2 32,
        K.length-as_ref delegate,
      )

  -- The package finds the delegate, and no fee configuration.
  parses_permanent_delegate_on_an_extended_mint_lem :
      (state : P.MintState) (raw : P.RawDelegate) (e : String)
      → ReadsMints
      → P.state_unpack (delegate_mint (pk K 9)) ≡ ok state
      → P.get_delegate state ≡ ok raw
      → P.raw_delegate raw ≡ some (pk K 9)
      → P.get_fee_config state ≡ err e
      → parses_permanent_delegate_on_an_extended_mint ≡ ok tt
  unfolding parses_permanent_delegate_on_an_extended_mint find_transfer_fee_config
      find_permanent_delegate
  parses_permanent_delegate_on_an_extended_mint_lem state raw e reads h p q r = rw (
    eq→== (length (delegate_mint (pk K 9))) (166 + 4 + 32) (length-delegate_mint (pk K 9)),
    h,
    p,
    q,
    r,
    assert_eq_holds key_discrete (pk K 9) (pk K 9) refl,
    unpack_delegate_mint reads,
    reads.supply_read (some (pk K 1)) 1000000 6,
  )

  plain_mint_has_no_extensions_lem :
      (state : P.MintState) (e f g : String)
      → P.state_unpack (hand_assembled_plain_mint none 1 0) ≡ ok state
      → P.get_fee_config state ≡ err e
      → P.get_delegate state ≡ err f
      → P.get_hook state ≡ err g
      → plain_mint_has_no_extensions ≡ ok tt
  unfolding plain_mint_has_no_extensions find_transfer_fee_config find_permanent_delegate
      find_transfer_hook
  plain_mint_has_no_extensions_lem state e f g h p q r = rw (h, p, q, r)
