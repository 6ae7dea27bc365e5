-- ===== src/Address.antt =====
-- bitcoinsuite-core/src/address: addresses of the networks of Bitcoin Cash and of Lotus. Text is ASCII,
-- the list of its bytes.
pub mod Base32
pub mod Cash
pub mod Lotus
