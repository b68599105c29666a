-- ===== src/Lib.antt =====
-- PrivateBTC Vault: Bitcoin is deposited to a vault address, a deposit is proved to contracts on
-- Starknet, and a withdrawal burns tokens there and is paid in Bitcoin. This library models the
-- backend, the TypeScript under backend/src, and proves what its parts promise each other.
--
-- The parts and their files. A relay (Relay, backend/src/services/BitcoinHeaderRelayService.ts)
-- sends the merkle roots of Bitcoin headers to the HeaderStore contract; its state is the persisted
-- height and what the contract has been sent. For a deposit the proof service (Transaction and Spv,
-- backend/src/services/BitcoinProofService.ts) strips a serialised transaction of its witness data,
-- finds the output that pays the vault and makes the calldata of the contract; Bytes holds the
-- numbers of variable size that these formats use, Transaction.Format the serialisation itself,
-- after BIP 144. For a withdrawal a row is written to the table withdrawal_authorizations (Auth,
-- backend/src/services/WithdrawalAuthorizationService.ts, backend/src/db/schema.ts); the processor
-- (Payout, and Poller for its timer, backend/src/services/WithdrawalProcessor.ts) polls the pending
-- rows, checks the burn and has the row paid by backend/src/services/BitcoinBroadcastService.ts or
-- backend/src/services/BitcoinCovenantService.ts. Both choose unspent outputs and build a
-- transaction (Utxo). Calls to Starknet pass the circuit breaker of
-- backend/src/services/StarknetService.ts (Circuit); the same file gets receipts and checks their
-- events (Receipt). A withdrawal proof is checked against the vault by
-- backend/src/services/ProofVerifier.ts (Verifier). Hash time locked contracts (Htlc,
-- backend/src/services/HTLCService.ts) and the commitments with their nullifiers (Commitment,
-- backend/src/services/CommitmentService.ts) are tables of their own, whose operations run under
-- the locks of backend/src/middleware/lockManager.ts (Lock).
--
-- The vaults themselves are rows that the routes write (Vault, with backend/src/db/schema.ts for the
-- tables and their constraints). backend/src/routes/vault.ts prepares and confirms deposits
-- (Vault.Deposit), lists vaults (Vault.Listing) and handles a withdrawal: Vault.Burn has its checks
-- and the transaction on Starknet, Vault.Withdraw the authorization, the first attempt to pay and
-- the whole handler. backend/src/routes/withdraw.ts records a withdrawal that the user has made
-- (Vault.Execute), backend/src/routes/transactions.ts lists transactions by pages
-- (Vault.Transactions), backend/src/routes/audit.ts compares the vaults with the chain (Vault.Audit),
-- and backend/src/routes/commitment.ts and backend/src/routes/bridge.ts make deposits with the key
-- of the server (Vault.Direct, Vault.Bridge). Their common state is Vault.Store: the tables vaults,
-- commitments, transactions and nullifiers, the World of Payout, and the withdrawals that the
-- contract was sent, the latest first. Vault.Once joins the withdrawal, the two steps of a deposit, the
-- audit and the processor in one type of events, and Vault.Ledger says what such a run may do to the
-- funds, without vaults and rows; the deposits of commitment.ts and bridge.ts and the route of
-- withdraw.ts are not among these events.
-- A burn is attested by a signed proof of 112 bytes (BurnProof,
-- backend/src/services/StarknetProofService.ts), which is kept in a cache
-- as JSON, so that it comes back with texts in place of its two bigints.
-- Contracts are claimed and refunded by backend/src/routes/htlc.ts (Htlc.Route).
-- Requests pass the checks of backend/src/middleware (Validators); what the server then sends to
-- the contracts is in Calldata, after backend/src/services/StarknetService.ts.
--
-- How state and operations correspond to the code. A table is the list of its rows in order of
-- insertion, a statement a function on the list, and each exported or private method one function
-- with the method's name in snake case, with every guard, early return and error of the method.
-- What throws returns an Option, a result type of the service or, in Payout, the message thrown.
-- Payout.World joins the table with the payments that the Bitcoin network has received, the latest
-- first; the network's answer to a broadcast, the receipt of a burn, the outputs that the explorer
-- lists and the outcome of an RPC call are arguments. So is, for each header that the relay sends, how many
-- of its transactions are executed, since the code does not wait for them. Overlapping calls are explicit where the code
-- lets them overlap: Circuit.step takes the start and the end of a call as two events, Poller.step
-- the ends of what its methods await, Lock.Step is a relation on the locks, their timers and the
-- functions that run, and Vault.Withdraw.carry_out is what a withdrawal does behind its checks, with the
-- vault as it was read before. Text is a list of UTF-16 code units (Common.Text), bytes and amounts are
-- numbers.
--
-- Bounds and fuel. Numbers are the natural numbers; heights, amounts and times of the code stay
-- below 2^53, where JavaScript's numbers are exact, and Transaction.Format requires it of the
-- amounts that are read with readBigUInt64LE. Loops recurse on the list they go through or on a
-- count that the code itself fixes: the number of inputs or outputs read, the ten heights of a
-- cycle, the attempts of a retry. Two functions take fuel: BurnProof.chunks_from gets as many turns as
-- the buffer has bytes, of which each turn takes one at least, and Vault.Cursor.collect, the client
-- that follows cursors, one page more than there are transactions; that this is enough is proved in
-- BurnProof.Chunks and Vault.Pages.
--
-- Not modelled. Signing and serialising with bitcoinjs-lib, hashing and the RPC provider of
-- starknet.js, the HTTP calls to the explorer, JSON Web Tokens and AES encryption are code of
-- libraries: their results are arguments, as are those of CryptoService in Verifier and Vault, and
-- the Pedersen and Poseidon hashes are parameters. The upsert of SQLite that the route of
-- bridge.ts uses is an argument of Vault.Bridge. Amounts on Starknet have 18 decimals; the division by
-- 10 ^ 10 that makes satoshis of them is the one on natural numbers, which the floating-point
-- division of the source agrees with on whole satoshis. A payment that outlives its timer in the
-- withdrawal handler is over when the handler's state is read. Calls of getProofForAuthorization
-- follow each other, and a sign in front of the text of a number is not read. Log output is left out. Of
-- backend/src/routes, the creation in htlc.ts, debug.ts, privacy.ts, proof.ts, sharp.ts, and the
-- handlers of commitment.ts and bridge.ts that make no deposit are not part of this library, nor
-- are the SHARP service, the frontend, the scripts under backend/scripts and
-- the Cairo contracts.
pub mod Common
pub mod Circuit
pub mod Lock
pub mod Htlc
pub mod Poller
pub mod Receipt
pub mod Verifier
pub mod Commitment
pub mod Auth
pub mod Payout
pub mod BurnProof
pub mod Bytes
pub mod Transaction
pub mod Spv
pub mod Relay
pub mod Utxo
pub mod Validators
pub mod Vault
pub mod Calldata
