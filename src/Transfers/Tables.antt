-- ===== src/Transfers/Tables.antt =====
-- The other tables of chain/okx_transfer.go.
use tradeverse_api.Prelude.{String, List, [], ◌∷◌}
use tradeverse_api.Transfers.Indices.{Table}

-- `chainIndexToNameMap`
abbrev pub chain_index_to_name_map : Table
chain_index_to_name_map =
    ("0", "BTC")
    ∷ ("1", "ETH")
    ∷ ("130", "UNICHAIN")
    ∷ ("8453", "BASE")
    ∷ ("1030", "CFX")
    ∷ ("59144", "LINEA")
    ∷ ("5000", "MANTLE")
    ∷ ("60808", "BOB")
    ∷ ("137", "POLYGON")
    ∷ ("10", "OPTIMISM")
    ∷ ("34443", "MODE")
    ∷ ("143", "MONAD")
    ∷ ("784", "SUI")
    ∷ ("10001", "ETHW")
    ∷ ("9745", "PLASMA")
    ∷ ("146", "SONIC")
    ∷ ("25", "CRONOS")
    ∷ ("169", "MANTA")
    ∷ ("9004", "STARKNET")
    ∷ ("81457", "BLAST")
    ∷ ("42161", "ARBITRUM")
    ∷ ("70000029", "SEI")
    ∷ ("1329", "SEIEVM")
    ∷ ("56", "BSC")
    ∷ ("88888", "CHILIZ")
    ∷ ("13371", "IMMUTABLE")
    ∷ ("1088", "METIS")
    ∷ ("706", "OSMOSIS")
    ∷ ("195", "TRON")
    ∷ ("324", "ZKSYNC")
    ∷ ("196", "XLAYER")
    ∷ ("200901", "BITLAYER")
    ∷ ("204", "OPBNB")
    ∷ ("1101", "POLYGON_ZKEVM")
    ∷ ("4689", "IOTEX")
    ∷ ("534352", "SCROLL")
    ∷ ("7000", "ZETA")
    ∷ ("167000", "TAIKO")
    ∷ ("988", "STABLE")
    ∷ ("607", "TON")
    ∷ ("223", "B2")
    ∷ ("80094", "BERACHAIN")
    ∷ ("100", "GNOSIS")
    ∷ ("4200", "MERLIN")
    ∷ ("43114", "AVAX")
    ∷ ("369", "PULSECHAIN")
    ∷ ("33139", "APE")
    ∷ ("501", "SOLANA")
    ∷ ("250", "FANTOM")
    ∷ ("637", "APTOS")
    ∷ ("5757", "STACKS")
    ∷ []

-- `symbolMap`, the coin of a chain
abbrev pub symbol_map : Table
symbol_map =
    ("0", "BTC")
    ∷ ("1", "ETH")
    ∷ ("56", "BNB")
    ∷ ("137", "MATIC")
    ∷ ("10", "ETH")
    ∷ ("42161", "ETH")
    ∷ ("43114", "AVAX")
    ∷ ("250", "FTM")
    ∷ ("8453", "ETH")
    ∷ ("59144", "ETH")
    ∷ ("5000", "MNT")
    ∷ ("60808", "ETH")
    ∷ ("34443", "ETH")
    ∷ ("143", "MON")
    ∷ ("784", "SUI")
    ∷ ("10001", "ETHW")
    ∷ ("9745", "XPL")
    ∷ ("146", "S")
    ∷ ("25", "CRO")
    ∷ ("169", "ETH")
    ∷ ("9004", "ETH")
    ∷ ("81457", "ETH")
    ∷ ("70000029", "SEI")
    ∷ ("1329", "ETH")
    ∷ ("88888", "CHZ")
    ∷ ("13371", "ETH")
    ∷ ("1088", "METIS")
    ∷ ("706", "OSMO")
    ∷ ("195", "TRX")
    ∷ ("324", "ETH")
    ∷ ("196", "OKB")
    ∷ ("200901", "BTC")
    ∷ ("204", "BNB")
    ∷ ("1101", "ETH")
    ∷ ("4689", "IOTX")
    ∷ ("534352", "ETH")
    ∷ ("7000", "ZETA")
    ∷ ("167000", "ETH")
    ∷ ("988", "USDT")
    ∷ ("607", "TON")
    ∷ ("223", "BTC")
    ∷ ("80094", "BERA")
    ∷ ("100", "XDAI")
    ∷ ("4200", "BTC")
    ∷ ("369", "PLS")
    ∷ ("33139", "APE")
    ∷ ("501", "SOL")
    ∷ ("637", "APT")
    ∷ ("5757", "STX")
    ∷ ("130", "ETH")
    ∷ []

-- `nonEVMChains`
abbrev pub non_evm_chains : List String
non_evm_chains =
    "0" ∷ "501" ∷ "195" ∷ "637" ∷ "5757" ∷ "70000029" ∷ "607" ∷ "706" ∷ "784" ∷ "988" ∷ "223"
    ∷ "4200" ∷ "200901" ∷ []
