-- ===== src/Transfers/Indices.antt =====
-- The tables of chain/okx_transfer.go, with their entries in the order of the source. No key stands
-- twice in a table.
use tradeverse_api.Prelude.{String, List, [], ◌∷◌}

abbrev pub Table : Type 0
Table = List (String × String)

-- `chainIndexMap`, from the names of a chain to its index
abbrev pub chain_index_map : Table
chain_index_map =
    ("BTC", "0")
    ∷ ("BITCOIN", "0")
    ∷ ("ETH", "1")
    ∷ ("ETHEREUM", "1")
    ∷ ("ETHEREUM_ETH", "1")
    ∷ ("UNICHAIN", "130")
    ∷ ("UNICHAIN_ETH", "130")
    ∷ ("BASE", "8453")
    ∷ ("BASE_ETH", "8453")
    ∷ ("CFX", "1030")
    ∷ ("CONFLUX", "1030")
    ∷ ("CONFLUX_ESPACE", "1030")
    ∷ ("LINEA", "59144")
    ∷ ("LINEA_ETH", "59144")
    ∷ ("MANTLE", "5000")
    ∷ ("MNT", "5000")
    ∷ ("BOB", "60808")
    ∷ ("BOB_ETH", "60808")
    ∷ ("BOB_MAINNET", "60808")
    ∷ ("POLYGON", "137")
    ∷ ("POLYGON_MATIC", "137")
    ∷ ("MATIC", "137")
    ∷ ("OPTIMISM", "10")
    ∷ ("OP", "10")
    ∷ ("MODE", "34443")
    ∷ ("MODE_ETH", "34443")
    ∷ ("MONAD", "143")
    ∷ ("MON", "143")
    ∷ ("SUI", "784")
    ∷ ("ETHW", "10001")
    ∷ ("ETHEREUMPOW", "10001")
    ∷ ("ETHW_POW", "10001")
    ∷ ("PLASMA", "9745")
    ∷ ("XPL", "9745")
    ∷ ("SONIC", "146")
    ∷ ("S", "146")
    ∷ ("SONIC_MAINNET", "146")
    ∷ ("CRONOS", "25")
    ∷ ("CRO", "25")
    ∷ ("MANTA", "169")
    ∷ ("MANTA_ETH", "169")
    ∷ ("MANTA_PACIFIC", "169")
    ∷ ("STARKNET", "9004")
    ∷ ("STARKNET_ETH", "9004")
    ∷ ("BLAST", "81457")
    ∷ ("ARBITRUM", "42161")
    ∷ ("ARB", "42161")
    ∷ ("ARBITRUM_ONE", "42161")
    ∷ ("SEI", "70000029")
    ∷ ("SEIEVM", "1329")
    ∷ ("EVM_SEI", "1329")
    ∷ ("BSC", "56")
    ∷ ("BNB", "56")
    ∷ ("BNB_CHAIN", "56")
    ∷ ("BNBCHAIN", "56")
    ∷ ("BINANCE", "56")
    ∷ ("BINANCE_SMART_CHAIN", "56")
    ∷ ("BINANCE_CHAIN", "56")
    ∷ ("CHILIZ", "88888")
    ∷ ("CHZ", "88888")
    ∷ ("CHILIZ_CHAIN", "88888")
    ∷ ("IMMUTABLE", "13371")
    ∷ ("IMX", "13371")
    ∷ ("IMMUTABLE_ZKEVM", "13371")
    ∷ ("METIS", "1088")
    ∷ ("METIS_ANDROMEDA", "1088")
    ∷ ("OSMOSIS", "706")
    ∷ ("OSMO", "706")
    ∷ ("TRON", "195")
    ∷ ("TRX", "195")
    ∷ ("ZKSYNC", "324")
    ∷ ("ERA_ETH", "324")
    ∷ ("ZK_SYNC_ERA", "324")
    ∷ ("ZKSYNC_ERA", "324")
    ∷ ("XLAYER", "196")
    ∷ ("OKB", "196")
    ∷ ("OKX_CHAIN", "196")
    ∷ ("BITLAYER", "200901")
    ∷ ("BITLAYER_BTC", "200901")
    ∷ ("OPBNB", "204")
    ∷ ("OP_BNB", "204")
    ∷ ("OPBNB_CHAIN", "204")
    ∷ ("POLYGON_ZKEVM", "1101")
    ∷ ("POLYGON_ETH", "1101")
    ∷ ("POLYGON_ZKEVM_ETH", "1101")
    ∷ ("IOTEX", "4689")
    ∷ ("IOTX", "4689")
    ∷ ("IOTEX_NETWORK", "4689")
    ∷ ("SCROLL", "534352")
    ∷ ("SCROLL_ETH", "534352")
    ∷ ("SCROLL_L2", "534352")
    ∷ ("ZETA", "7000")
    ∷ ("ZETACHAIN", "7000")
    ∷ ("TAIKO", "167000")
    ∷ ("TAIKO_ETH", "167000")
    ∷ ("TAIKO_MAINNET", "167000")
    ∷ ("STABLE", "988")
    ∷ ("GUSDT", "988")
    ∷ ("STABLE_COIN", "988")
    ∷ ("TON", "607")
    ∷ ("TONCHAIN", "607")
    ∷ ("THE_OPEN_NETWORK", "607")
    ∷ ("B2", "223")
    ∷ ("B2_BTC", "223")
    ∷ ("B2_NETWORK", "223")
    ∷ ("BERACHAIN", "80094")
    ∷ ("BERA", "80094")
    ∷ ("GNOSIS", "100")
    ∷ ("XDAI", "100")
    ∷ ("GNOSIS_CHAIN", "100")
    ∷ ("MERLIN", "4200")
    ∷ ("MERLIN_BTC", "4200")
    ∷ ("MERLIN_CHAIN", "4200")
    ∷ ("AVAX", "43114")
    ∷ ("AVALANCHE", "43114")
    ∷ ("AVALANCHE_C", "43114")
    ∷ ("AVALANCHE_C_CHAIN", "43114")
    ∷ ("PULSECHAIN", "369")
    ∷ ("PLS", "369")
    ∷ ("PULSE", "369")
    ∷ ("APE", "33139")
    ∷ ("APECHAIN", "33139")
    ∷ ("APE_CHAIN", "33139")
    ∷ ("SOLANA", "501")
    ∷ ("SOL", "501")
    ∷ ("FANTOM", "250")
    ∷ ("FTM", "250")
    ∷ ("FANTOM_OPERA", "250")
    ∷ ("APTOS", "637")
    ∷ ("APT", "637")
    ∷ ("STACKS", "5757")
    ∷ ("STX", "5757")
    ∷ ("STACKS_BTC", "5757")
    ∷ []
