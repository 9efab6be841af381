-- ===== src/Lib.antt =====
-- svm-wasi-core: the helpers that wasm plugins use to build, sign, send and read Solana
-- transactions. This library models the crate's own logic and proves what it promises.
--
-- The parts and how they interact:
-- Keys (src/pubkey.rs, src/hash.rs): the 32-byte keys and hashes that all others pass around.
-- SubscriptionState (src/subscription_state.rs): reads the two accounts of the Subscriptions &
-- Allowances program, and says how much a delegation still lets its delegatee pull.
-- Instruction (src/instruction/): builds instructions. `Instruction.Subscriptions`,
-- `Instruction.AssociatedTokenAccount` and `Instruction.Token` are the files of those names;
-- memo.rs is in `Instruction.Token` and the ids of system.rs are in `Instruction`.
-- Sign (src/sign.rs): Ed25519 key pairs.
-- Transaction (src/transaction.rs): the envelope of signatures around a message. It signs with a
-- key pair of Sign, or takes a signature made elsewhere, and has the wire format.
-- Stealth (src/stealth.rs, src/stealth_sign.rs): one-time addresses and the keys that sign for
-- them.
-- Nonce (src/nonce.rs) and TokenState (src/token_state.rs): the other accounts that the crate
-- reads.
-- Rpc (src/rpc/mod.rs, src/rpc/mock.rs): the JSON-RPC client, over any transport. `Rpc.Decode`
-- reads responses, `Rpc.Mock` is the transport that replays queued responses.
-- Http (src/rpc/native_transport.rs, src/rpc/waki_transport.rs): the two transports of Rpc.
-- Message (src/message.rs): messages that spend a durable nonce, which Transaction wraps and signs.
-- Examples (examples/): the programs that an operator runs, which compose all of these.
-- `Examples.Sweep` is sign_and_broadcast_sweep.rs, `Examples.NonceAccount` is
-- create_durable_nonce_account.rs, `Examples.Arguments` the flags of both, and `meta_address` is
-- generate_stealth_meta_address.rs.
-- Shaping (src/shaping.rs): shrinks the JSON that a plugin hands on.
-- Base and Texts: outcomes of calls, lists, bytes, 64-bit integers and strings, which all share.
-- Tests: an instance of each interface, and the theorems at concrete inputs.
-- UnitTests: the `#[cfg(test)]` functions of the source files, as definitions that pass or panic,
-- and lemmas that they pass. Where a test runs code of another package, the lemma says on which
-- documented answers of it; the tests of the client run over the sample JSON type of Tests.
--
-- How code and model correspond. A Rust function is a function of the same name; where two types
-- share a method name, the type is in the model's name (`unpack_authority`, `serialize_legacy`). A
-- call gives an `Outcome`: `ok`, `err`, or `panic` for an index out of range and for `expect`. A
-- method that changes `self` returns the changed value: the RPC client passes its transport and its
-- request counter on from call to call. A `u64` is a number and wraps where the source wraps; an
-- `i64` is an integer of Base.Int, whose `as_i64` and `saturating_add` are those of Rust. All loops
-- run over lists; only the printing of decimal numbers takes fuel, a round for each unit of the
-- number and one more, which is more than it has digits.
--
-- Code of other packages is a parameter: `Keys`, `Signatures`, `Ed25519`, `Curve`, `Hazmat`,
-- `MessageFormat`, `Envelope`, `Compilers`, `Programs`, `TokenInterface`, `Nonces`, `NoncePrograms`,
-- `TokenPackage`, `Floats`, `Http`, `Files`, the two records `Json`, and `Codecs`. Their fields are
-- what the crate calls, and their laws are what those packages document. What is drawn from the
-- system's random source is an argument, and so is what an example reads: its flags, its prompts,
-- the files. An example passes the world of its requests on, and ends with an `Exit`.
--
-- Not modelled: what the examples print, so that an error that is only printed is the exit and no
-- more; the re-exports of other packages; the runtime that executes an instruction.
-- Of the unit tests, those that only run other packages are left out (pubkey.rs, hash.rs,
-- signature.rs, memo.rs, system.rs, token.rs), and so are those that rest on hashes or drawn numbers
-- being different, the known text of the Subscriptions program's id, the one that reads a fee
-- configuration, and the one that prints an array of 5,000 entries.
pub mod Base
pub mod Keys
pub mod SubscriptionState
pub mod Shaping
pub mod Sign
pub mod Transaction
pub mod Rpc
pub mod Message
pub mod Examples
pub mod Texts
pub mod Http
pub mod Stealth
pub mod Nonce
pub mod TokenState
pub mod Instruction
pub mod Tests
pub mod UnitTests
