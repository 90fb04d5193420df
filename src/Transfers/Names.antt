-- ===== src/Transfers/Names.antt =====
-- The table inside `getChainIndex`, chain/okx_transfer.go.
use tradeverse_api.Prelude.{[], ◌∷◌}
use tradeverse_api.Transfers.Indices.{Table}

-- `normalizedMap`, from the names of a chain to one of its names
abbrev pub normalized_map : Table
normalized_map =
    ("ETHEREUM", "ETH")
    ∷ ("BITCOIN", "BTC")
    ∷ ("BNB", "BSC")
    ∷ ("BNB_CHAIN", "BSC")
    ∷ ("BNBCHAIN", "BSC")
    ∷ ("BINANCE", "BSC")
    ∷ ("BINANCE_SMART_CHAIN", "BSC")
    ∷ ("BINANCE_CHAIN", "BSC")
    ∷ ("AVALANCHE", "AVAX")
    ∷ ("AVALANCHE_C", "AVAX")
    ∷ ("AVALANCHE_C_CHAIN", "AVAX")
    ∷ ("FANTOM", "FTM")
    ∷ ("FANTOM_OPERA", "FTM")
    ∷ ("BASE_ETH", "BASE")
    ∷ ("LINEA_ETH", "LINEA")
    ∷ ("MODE_ETH", "MODE")
    ∷ ("BOB_ETH", "BOB")
    ∷ ("BOB_MAINNET", "BOB")
    ∷ ("MANTA_ETH", "MANTA")
    ∷ ("MANTA_PACIFIC", "MANTA")
    ∷ ("STARKNET_ETH", "STARKNET")
    ∷ ("EVM_SEI", "SEIEVM")
    ∷ ("ERA_ETH", "ZKSYNC")
    ∷ ("ZK_SYNC_ERA", "ZKSYNC")
    ∷ ("ZKSYNC_ERA", "ZKSYNC")
    ∷ ("POLYGON_ETH", "POLYGON_ZKEVM")
    ∷ ("POLYGON_ZKEVM_ETH", "POLYGON_ZKEVM")
    ∷ ("SCROLL_ETH", "SCROLL")
    ∷ ("SCROLL_L2", "SCROLL")
    ∷ ("TAIKO_ETH", "TAIKO")
    ∷ ("TAIKO_MAINNET", "TAIKO")
    ∷ ("BITLAYER_BTC", "BITLAYER")
    ∷ ("B2_BTC", "B2")
    ∷ ("B2_NETWORK", "B2")
    ∷ ("MERLIN_BTC", "MERLIN")
    ∷ ("MERLIN_CHAIN", "MERLIN")
    ∷ ("OP_BNB", "OPBNB")
    ∷ ("OPBNB_CHAIN", "OPBNB")
    ∷ ("UNICHAIN_ETH", "UNICHAIN")
    ∷ ("ETHEREUMPOW", "ETHW")
    ∷ ("ETHW_POW", "ETHW")
    ∷ ("SOL", "SOLANA")
    ∷ ("APT", "APTOS")
    ∷ ("STX", "STACKS")
    ∷ ("STACKS_BTC", "STACKS")
    ∷ ("OSMO", "OSMOSIS")
    ∷ ("CHZ", "CHILIZ")
    ∷ ("CHILIZ_CHAIN", "CHILIZ")
    ∷ ("IMX", "IMMUTABLE")
    ∷ ("IMMUTABLE_ZKEVM", "IMMUTABLE")
    ∷ ("CRO", "CRONOS")
    ∷ ("MNT", "MANTLE")
    ∷ ("MON", "MONAD")
    ∷ ("XPL", "PLASMA")
    ∷ ("S", "SONIC")
    ∷ ("SONIC_MAINNET", "SONIC")
    ∷ ("PLS", "PULSECHAIN")
    ∷ ("PULSE", "PULSECHAIN")
    ∷ ("GUSDT", "STABLE")
    ∷ ("STABLE_COIN", "STABLE")
    ∷ ("XDAI", "GNOSIS")
    ∷ ("GNOSIS_CHAIN", "GNOSIS")
    ∷ ("IOTX", "IOTEX")
    ∷ ("IOTEX_NETWORK", "IOTEX")
    ∷ ("CFX", "CONFLUX")
    ∷ ("CONFLUX_ESPACE", "CONFLUX")
    ∷ ("OKB", "XLAYER")
    ∷ ("OKX_CHAIN", "XLAYER")
    ∷ ("BERA", "BERACHAIN")
    ∷ ("APECHAIN", "APE")
    ∷ ("APE_CHAIN", "APE")
    ∷ ("ZETACHAIN", "ZETA")
    ∷ ("TONCHAIN", "TON")
    ∷ ("THE_OPEN_NETWORK", "TON")
    ∷ ("TRX", "TRON")
    ∷ ("ARB", "ARBITRUM")
    ∷ ("ARBITRUM_ONE", "ARBITRUM")
    ∷ ("OP", "OPTIMISM")
    ∷ ("MATIC", "POLYGON")
    ∷ ("POLYGON_MATIC", "POLYGON")
    ∷ []
