-- ===== src/Transfers/Index.antt =====
-- `getChainIndex`, `getChainNameByIndex`, `getNativeSymbol`, `isEVMChain` and `normalizeAddress`,
-- chain/okx_transfer.go.
use Prim.Native.Char.{Char, code}
use tradeverse_api.Prelude.{
  String, Bool, false, not, ◌||◌, List, [], ◌∷◌, str_eq, ◌==◌, len, if◌then◌else◌, Option, none,
  some,
}
use tradeverse_api.Transfers.Indices.{Table, chain_index_map}
use tradeverse_api.Transfers.Tables.{chain_index_to_name_map, symbol_map, non_evm_chains}
use tradeverse_api.Transfers.Names.{normalized_map}

pub record TextLib : Type 0 where
  pub trim_space : String → String
  pub to_upper : String → String
  pub to_lower : String → String
  -- fmt.Sprintf("%.0f", ...) of what `strconv.ParseFloat` reads
  pub whole_amount : String → Option String

unfoldable pub lookup : String → Table → Option String
lookup k [] = none
lookup k (e ∷ t) = let rest = lookup k t in if str_eq e.0 k then some e.1 else rest

-- A key that is not there has the default.
abbrev pub value_or : String → Option String → String
value_or d none = d
value_or d (some v) = v

unfoldable pub get_chain_name_by_index : String → String
unfolding lookup
get_chain_name_by_index chain_index =
    value_or chain_index (lookup chain_index chain_index_to_name_map)

unfoldable pub get_native_symbol : String → String
unfolding lookup
get_native_symbol chain_index = value_or "ETH" (lookup chain_index symbol_map)

unfoldable pub listed : String → List String → Bool
listed k [] = false
listed k (x ∷ xs) = str_eq x k || listed k xs

unfoldable pub is_evm_chain : String → Bool
unfolding listed
is_evm_chain chain_index = not (listed chain_index non_evm_chains)

-- `strings.ReplaceAll`, for texts of one character
replace_all : Char → Char → String → String
replace_all old new String.[] = ""
replace_all old new (String.◌∷◌ c s) =
    String.◌∷◌ (if code c == code old then new else c) (replace_all old new s)

unfoldable pub underscored : String → String
unfolding replace_all
underscored s = replace_all "-" "_" (replace_all " " "_" s)

module _ (lib : TextLib) where
  unfoldable pub normalize_address : String → String → String
  unfolding is_evm_chain
  normalize_address address chain_index =
      if len address == 0
      then address
      else if is_evm_chain chain_index
      then lib.to_lower address
      else address

  -- The name in capitals, with underscores.
  unfoldable pub chain_key : String → String
  unfolding underscored
  chain_key chain = underscored (lib.to_upper (lib.trim_space chain))

  -- The second search, for a key that the first has not found.
  renamed_index : Option String → String
  unfolding lookup
  renamed_index none = ""
  renamed_index (some normalized) = value_or "" (lookup normalized chain_index_map)

  unfoldable pub get_chain_index : String → String
  unfolding lookup chain_key renamed_index
  get_chain_index chain = elim (lookup (chain_key chain) chain_index_map) [
    | some index ↦ index
    | none ↦ renamed_index (lookup (chain_key chain) normalized_map)
  ]
