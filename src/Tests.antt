-- ===== src/Tests.antt =====
-- The theorems at concrete inputs, and runs of the code.
pub mod Core
pub mod Slp
pub mod SlpBuild
pub mod SlpTxs
pub mod Sign
pub mod Signing
pub mod Builder
pub mod Blocks
pub mod Addresses
pub mod Sections
pub mod Amounts
pub mod Publishing
