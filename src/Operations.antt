-- ===== src/Operations.antt =====
-- TokenOperations of src/database/service.ts: the durable ledger of token movements.
-- Rows holds the queries, Claim and Marks the operations, Steps the abstract ledger that they
-- refine; the others prove what follows from it.
pub mod Hash
pub mod Rows
pub mod Lookup
pub mod Capacity
pub mod Claim
pub mod Marks
pub mod Ledger
pub mod Steps
pub mod ClaimSteps
pub mod Unique
pub mod History
pub mod Backing
mod Tests
