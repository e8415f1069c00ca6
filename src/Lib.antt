-- ===== src/Lib.antt =====
-- Verification of two crates of the wallet. `crates/cc-wallet-domain`: the amounts that a user sends,
-- whether balances carry them, the requests of sends and swaps, the records of notes, and the journal
-- of sends, which decides when a new send may be signed while older ones are unresolved.
-- `crates/cc-wallet-vault`: the encrypted container that holds the wallet, the journal and the
-- activity on disk.
--
-- The parts, and the files of the crates' `src/` that they model, first those of the domain crate:
--   * Asset: asset.rs and the error type of error.rs. Amount: amount.rs; Amount/Send has the text
--     of the send form. Ids: ids.rs, hexadecimal identifiers.
--   * Digest: digest.rs. Digest/Frame has `frame` and `digest`, Digest/Rows the row types,
--     Digest/RowBytes their bytes, Digest/Sets the digests of row sets, Digest/Ticket those of
--     tickets.
--   * Affordability: affordability.rs; Affordability/Evaluate has `evaluate_affordability`.
--   * Journal: journal.rs and risk.rs. Journal/Identity has the canonical addresses, Journal/Ticket
--     and Journal/Provenance the inputs of a send, Journal/Evidence and Journal/Record the events
--     of a record and `validate_static`, Journal/Risk and Journal/Blockers risk grants,
--     Journal/Replay `validate_replay`; Journal/Domain has the amounts that the replay tracks.
--   * Envelope: envelope.rs, the appends to a journal, each on a candidate copy that replaces the
--     journal only if it validates.
--   * Requests: send.rs, address.rs, and of profile.rs `WalletInputs` and `validate_workchain`. A
--     request becomes the ticket of Journal/Ticket in `new_authorization`. Requests/Truncate has the
--     cut of comments, Requests/Canonical the recipients, Requests/Authorization authorizations.
--   * Swap: swap.rs; Swap/Slippage, Swap/Quote and Swap/Request hold the theorems.
--   * Profile: profile.rs and, of crates/cc-wallet-app/src/state.rs, the endpoint that the application
--     resolves; Profile/Snapshot has the balances of a wallet, Profile/Network is network.rs, and
--     Profile/Selection, Profile/Balances and Profile/Seed hold the theorems.
--   * Records: storage.rs; Records/RoundTrip and Records/FreeId hold the theorems.
--   * Clock: validator_clock.rs, without the angles; Clock/Elections holds the theorems.
--   * Vault: of the vault crate error.rs, params.rs and aead.rs; Vault/Keyslot is keyslot.rs, and
--     Vault/Header, Vault/Manifest and Vault/Container are vault.rs. Vault/Layout has bytes at
--     offsets, Vault/Sealing the bodies, Vault/ParseHeader and Vault/ParseManifest the reading of what
--     was written, Vault/Payloads the sections by purpose, Vault/RoundTrip and Vault/Slot the opening
--     with the key and with the password.
--   * Prelude, Strings, Decimal, BTreeMap: what the code uses of the standard library of Rust;
--     Strings/Utf8 has the boundaries of characters, Strings/Trim text without white space, Strings/Words
--     the words of a text, Strings/Join their join by spaces.
--   * External: `num_bigint::BigUint` and `sha2::Sha256`, External/Addresses: `StdAddr` of
--     tycho_types, External/Crypto: argon2, chacha20poly1305, blake3 and getrandom. They are
--     parameters of the model, with what their documentation says as laws; External/Instances and
--     External/Reference have functions that meet the laws.
--   * Examples: test data, and the theorems at concrete inputs.
--
-- A fallible function returns an `Outcome`: a value, an error, or a panic where the source calls
-- `expect`. An envelope or a replay state is a record that a step maps to the next one; a `BTreeMap`
-- is an association list in the order of its keys; a string is the list of its UTF-8 bytes. Integers
-- of a fixed width are numbers with the source's overflow test written out (`u64` in the sequence
-- numbers, `u128` in native amounts, 248 bits in other amounts). Loops are structural recursion over
-- the lists that the source iterates. The only fuel is in the printing of a number n in Decimal,
-- where n + 1 rounds are enough, since each divides the number by ten.
--
-- Theorems about a journal take its events in the order of their sequence numbers, split at the
-- event in question into `past`, the event and `rest`; Journal/History says what the replay
-- remembers of `past`, and Journal/Authority that every round keeps this.
--
-- The vault crate draws random bytes: each function takes the number of its first call of
-- `getrandom`, and the parameter `random` gives what the call with a number returns. `usize` has 64
-- bits. Secrets that are wiped from memory are plain bytes.
--
-- Not modelled: the serde implementations and the JSON text of the envelopes, which stand on
-- serde_json; the formatting of the errors of the vault, of identifiers and of envelopes; the
-- floating-point angles of the clock; the wiping and the JSON
-- of profiles; activity.rs and strict.rs; record.rs of the vault crate; the other crates of the repository (file
-- storage, network access, controller, user interface).
pub mod Prelude
pub mod Profile
pub mod Strings
pub mod Decimal
pub mod External
pub mod Asset
pub mod Amount
pub mod Ids
pub mod Digest
pub mod BTreeMap
pub mod Affordability
pub mod Journal
pub mod Envelope
pub mod Requests
pub mod Swap
pub mod Records
pub mod Clock
pub mod Vault
pub mod Examples
