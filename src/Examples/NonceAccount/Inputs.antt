-- ===== src/Examples/NonceAccount/Inputs.antt =====
-- What a run that creates a nonce account reads before its first request.
use svm_wasi_core.Base.{String, ◌≡◌, ap, ◌∙◌, >>=-eq-ok, map_err-ok, ok}
use svm_wasi_core.Keys.{Keys}
use svm_wasi_core.Sign.{Signatures, Ed25519, Keypair}
use svm_wasi_core.Transaction.{MessageFormat, Envelope}
use svm_wasi_core.Message.{Compilers}
use svm_wasi_core.Examples.Arguments.{NonceArgs, parse_nonce_args}
use svm_wasi_core.Examples.{load_keypair_file, or_fail}
use svm_wasi_core.Examples.NonceAccount.{NonceHost, NoncePrograms, fresh_keypair, prepare_nonce}

module _ (K : Keys) (S : Signatures) (V : Envelope S.Signature String) {Hash AccountMeta : Type 0}
    (Legacy V0 : MessageFormat K.Key Hash) (C : Compilers Legacy V0 AccountMeta)
    (P : NoncePrograms K.Key AccountMeta) (E : Ed25519) (host : NonceHost) where
  -- The arguments parse and name the URL, the payer's file holds the key pair, and the seed is
  -- that of the fresh key pair.
  pub record Given (payer nonce_keypair : Keypair K S E) (url : String) : Type 0 where
    pub args : NonceArgs
    pub parsed : parse_nonce_args host.args ≡ ok args
    pub named : args.nonce_rpc_url ≡ url
    pub loaded : load_keypair_file K S E host.files args.payer_keypair_path ≡ ok payer
    pub seeded : fresh_keypair K S V Legacy V0 C P E host.seed ≡ ok nonce_keypair

  pub prepare_nonce-Given :
      (payer nonce_keypair : Keypair K S E) (url : String)
      → prepare_nonce K S V Legacy V0 C P E host ≡ ok (payer, nonce_keypair, url)
      → Given payer nonce_keypair url
  unfolding prepare_nonce
  prepare_nonce-Given payer nonce_keypair url h =
      let (args, a, rest) = >>=-eq-ok (or_fail (parse_nonce_args host.args)) _ h in
      let (k, b, rest') =
        >>=-eq-ok (or_fail (load_keypair_file K S E host.files args.payer_keypair_path)) _ rest in
      let (n, c, done) = >>=-eq-ok (fresh_keypair K S V Legacy V0 C P E host.seed) _ rest' in
      record {
        args = args;
        parsed = map_err-ok _ (parse_nonce_args host.args) a;
        named = cc;
        loaded = map_err-ok _ (load_keypair_file K S E host.files args.payer_keypair_path) b ∙ cc;
        seeded = c ∙ cc;
      }

  pub Given-prepare_nonce :
      (payer nonce_keypair : Keypair K S E) (url : String)
      → Given payer nonce_keypair url
      → prepare_nonce K S V Legacy V0 C P E host ≡ ok (payer, nonce_keypair, url)
  unfolding prepare_nonce
  Given-prepare_nonce payer nonce_keypair url g =
      rw (g.parsed, g.loaded, g.seeded) (ap (λ u. ok (payer, nonce_keypair, u)) g.named)
