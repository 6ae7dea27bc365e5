-- ===== src/Network.antt =====
-- bitcoinsuite-core/src/network.rs: the networks and their constants.
use bitcoinsuite.Base.{ℕ}
use bitcoinsuite.Base.Int.{ℤ, pos}

pub data Network : Type 0 where
  bch xec xpi xrg : Network

pub data Net : Type 0 where
  mainnet regtest : Net

unfoldable pub dust_amount : Network → ℤ
dust_amount xrg = pos 2
dust_amount bch = pos 546
dust_amount xec = pos 546
dust_amount xpi = pos 546

unfoldable pub coin_decimals : Network → ℕ
coin_decimals xec = 2
coin_decimals xpi = 6
coin_decimals bch = 8
coin_decimals xrg = 8

-- In seconds.
unfoldable pub block_spacing : Network → ℕ
block_spacing xec = 600
block_spacing bch = 600
block_spacing xrg = 600
block_spacing xpi = 120
