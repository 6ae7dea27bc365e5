-- ===== src/Sign.antt =====
-- bitcoinsuite-core/src/sign: what an input signs, who signs it, and the builder that signs all inputs.
pub mod UnsignedTx
pub mod Bip143
pub mod Signatory
pub mod NoPanic
pub mod TxBuilder
