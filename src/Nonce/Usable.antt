-- ===== src/Nonce/Usable.antt =====
-- From an encoded nonce account to the blockhash that spends it.
use svm_wasi_core.Base.{ℕ, ◌≡◌, some, List, ok, ◌>>=◌}
use svm_wasi_core.Nonce.{
  Nonces, NonceAccount, NonceState, current, initialized, parse_nonce_account, usable_blockhash,
  encode_initialized_nonce_account,
}

module _ {Key Hash : Type 0} (N : Nonces Key Hash) where
  open N use {Data, from_blockhash, new_data, blockhash, new_account, serialize, deserialize}

  -- Documented behaviour of bincode: it writes every account, and reads back what it wrote.
  pub record Encodes : Type 0 where
    pub encoding : NonceAccount Data → List ℕ
    pub writes : (a : NonceAccount Data) → serialize a ≡ ok (encoding a)
    pub reads : (a : NonceAccount Data) → deserialize (encoding a) ≡ ok a

  -- Documented behaviour of `NonceAccount::new`: the account has the current version.
  abbrev pub MakesCurrent : Type 0
  MakesCurrent = (s : NonceState Data) → new_account s ≡ current s

  -- Under what the packages document, the account that `encode_initialized_nonce_account` encodes
  -- parses, and it has a usable blockhash: that of its nonce data, which are made from the
  -- authority, the durable nonce of the given blockhash, and the fee.
  pub usable_blockhash-encode :
      (authority : Key) (hash : Hash) (lamports_per_signature : ℕ)
      → Encodes
      → MakesCurrent
      → (encode_initialized_nonce_account N authority hash lamports_per_signature
          >>= parse_nonce_account N
          >>= λ account. ok (usable_blockhash N account))
        ≡ ok (some (blockhash (new_data authority (from_blockhash hash) lamports_per_signature)))
  unfolding encode_initialized_nonce_account parse_nonce_account usable_blockhash
  usable_blockhash-encode authority hash lamports_per_signature e c =
      let d = new_data authority (from_blockhash hash) lamports_per_signature in
      rw (c (initialized d), e.writes (current (initialized d)), e.reads (current (initialized d)))
