-- ===== src/Slp.antt =====
-- The crate bitcoinsuite-slp: tokens of the Simple Ledger Protocol in the first output of a transaction.
-- `Types` has the data, `Parse` reads the OP_RETURN output, `Build` writes it, and `Validate` settles
-- which tokens a transaction moves, given the tokens of the outputs that it spends.
pub mod Amount
pub mod Types
pub mod Fields
pub mod Parse
pub mod ParseTx
pub mod Build
pub mod NoPanic
pub mod Validate
pub mod SlpTx
