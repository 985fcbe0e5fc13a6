-- ===== src/Lib.antt =====
-- The durable core of the EV award and spend service: the tables and the operations on them that
-- decide when a token movement may start, and which of several attempts may start it.
--
-- The service pays SPARKZ tokens for charging sessions and takes them back as spends. Before any
-- transaction is broadcast, a row of token_operations is claimed (src/database/service.ts,
-- TokenOperations); a session's spend first holds part of the wallet's balance (SpendReservations);
-- every transaction that the treasury signs takes a nonce lease (TreasuryTransactions); and a
-- managed wallet is funded and approved once (ApprovalPreparations). The four, with the wallets of a
-- contract id (Users, LinkedWallets), work on one database:
-- a claim of a manual spend and a reservation both count the holds and the unsettled spends of the
-- wallet, and a lease writes its hash into the operation or the preparation that it pays for.
--
-- Files:
--   Prelude, with Tests, Lists, Results, Tables: Booleans, tables of rows, errors as values, and the
--     lemmas on rows that change only in allowed ways.
--   Text: JavaScript strings as lists of code units, with lower case and trimming of ASCII; the
--     letters beyond ASCII stay as they are.
--   Amount: the exact decimal amounts of src/database/tokenOperation.ts. Scan and Laws parse and
--     print, Floor is about truncation and exactness.
--   Binary64: the JavaScript numbers that amounts become, Number(units) / 100, their difference and
--     toFixed(2). Rounding and Difference are about the amounts for which two decimals are exact.
--   Settlement: src/reservation.ts.
--   Store: the tables of src/database/service.ts as lists of rows, and the errors.
--   Operations: TokenOperations. Hash, Rows, Lookup, Capacity, Claim and Marks are the code; Ledger
--     is the abstract table, whose steps Steps and ClaimSteps take for each operation; Unique,
--     History and Backing draw the consequences.
--   Reservations: SpendReservations. Settle is its closing half, Reads its queries; Lifecycle, Table
--     and Steps are the abstract table of holds; History, Once and Backing draw the consequences.
--   Treasury: TreasuryTransactions. Choice is the choice of a nonce, Prepare the whole of prepare,
--     Marks the later changes of a lease; Nonces, Leases and History are about the nonces given out
--     and what calls keep of a lease.
--   Approvals: the claims of ApprovalPreparations; Marks its other operations; Lifecycle and Once are
--     about an approval whose hash was saved.
--   AssetContext: assetContextMismatch of src/database/tokenOperation.ts.
--   Keys: the operation keys of src/database/tokenOperation.ts; Tuples is about what they tell apart.
--   Rpc: which errors of src/rpcProvider.ts are transient, its bounded retry of reads (Retry), and the
--     failover of its provider: Protocol checks a response, Failover decides what follows from it, Send
--     is the loop over the endpoints. Bounds is about what a retry ends with, Ends and Once about the
--     number of writes, Confirmed, Chains and Vouched about the chain of the endpoints.
--   Reliability: src/transactionReliability.ts. Sign holds the callbacks for TreasuryTransactions,
--     Broadcast the rest; Attempts and Failures take a call apart, Once, Verdicts and Events draw the
--     consequences, the last one over sequences of calls.
--   SpendEvidence: src/spendEvidence.ts. Lookup finds and identifies the mined transaction, Transfers
--     reads its call and its logs; Verdicts, Proofs and Failures are about valid and failed evidence.
--   Wallets: Users and LinkedWallets of src/database/service.ts. Users and Linked are the operations;
--     Counts, Rows and Selection are about the active wallet of a contract id under single statements,
--     Steps, Links and Frames about the operations, History about sequences of them.
--
-- An operation of the source is the function of the same name in snake case (markSubmitted is
-- mark_submitted). It takes the database clock, its arguments and the database, and returns its
-- result with the new database, or the error that the source throws; a throw rolls the database
-- back. Advisory and row locks make most calls one atomic step, and a sequence of calls stands for
-- any interleaving of them. Where the source has no lock between the statements of a call,
-- markSubmitted may run its last UPDATE in a step of its own, and markFundingSubmitted is given a
-- row that was read at any earlier time; the UPDATE of updateWalletAddress is also a call of its
-- own, updateWalletAddressById. Amounts are hundredths of a token, as the DECIMAL(20, 2) columns
-- hold them; a JavaScript number that comes in is its text, and one that is computed from an amount
-- is a number of Binary64. What the RPC endpoint and the signer answer is part of a request, or of
-- the record World or Chain beside it: a theorem holds for whatever they answer. A read of the chain
-- is its answer to each attempt, with the time it takes. The decimal digits of a number are computed
-- on fuel, the number itself, which is enough, and the exponent of a number of Binary64 on as much
-- as the format has exponents; all other recursion is structural.
--
-- Not modelled: the executors of awards and spends, the transport of the RPC provider and its choice
-- of URLs, the walk over untyped errors in extractRpcDiagnostic, intent fingerprints, the CDR
-- normaliser, the award rules, reconciliation, reports, receipts, the HTTP API and the user
-- interfaces; waiting for a lock and its timeout; the endpoint evidence in a diagnostic, an error or
-- an answer. A sequence of calls is one of calls of one component: what TreasuryTransactions writes
-- into the operations and the preparations is modelled, but stands in no sequence of theirs.
pub mod Prelude
pub mod Text
pub mod Amount
pub mod Binary64
pub mod Settlement
pub mod Store
pub mod Operations
pub mod Reservations
pub mod Treasury
pub mod Approvals
pub mod AssetContext
pub mod Rpc
pub mod Reliability
pub mod SpendEvidence
pub mod Wallets
pub mod Keys
