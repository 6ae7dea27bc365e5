-- ===== src/Compression.antt =====
-- bitcoinsuite-core/src/compression.rs: the compressed forms in which a node stores amounts, numbers,
-- scripts and coins.
pub mod Amount
pub mod VarInt
pub mod Scripts
pub mod Legacy
pub mod Coins
