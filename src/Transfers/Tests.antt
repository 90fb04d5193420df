-- ===== src/Transfers/Tests.antt =====
-- A token of the BSC that is moved with no coin.
use tradeverse_api.Prelude.{true, [], ◌∷◌, none, some, ◌≡◌, refl, eq_iff, arith}
use tradeverse_api.Transfers.Tables.{chain_index_to_name_map}
use tradeverse_api.Transfers.Index.{TextLib, lookup, get_chain_index, get_chain_name_by_index}
use tradeverse_api.Transfers.Detail.{
  Party, TokenTransfer, TransactionDetail, parse_transaction_detail,
}
use tradeverse_api.Transfers.Laws.{get_chain_index-get_chain_name_by_index}
use tradeverse_api.Transfers.Amounts.{Labelled, token_amount_hidden}

-- Texts that are in capitals already.
abbrev lib : TextLib
lib = record { trim_space = λ s. s; to_upper = λ s. s; to_lower = λ s. s; whole_amount = λ s. none }

bnb_chain : get_chain_index lib "BNB CHAIN" ≡ "56"
unfolding get_chain_index
bnb_chain = refl

unknown_chain : get_chain_index lib "TRADEVERSE" ≡ ""
unfolding get_chain_index
unknown_chain = refl

bsc_named : lookup "56" chain_index_to_name_map ≡ some "BSC"
unfolding lookup
bsc_named = refl

get_chain_index-get_chain_name_by_index_example :
    get_chain_index lib (get_chain_name_by_index "56") ≡ "56"
get_chain_index-get_chain_name_by_index_example =
    get_chain_index-get_chain_name_by_index lib "56" "BSC" (λ s e. (refl, refl)) bsc_named

abbrev receiver : Party
receiver = record { address = "0xto"; vout_index = ""; is_contract = true; amount = "0" }

abbrev usdt : TokenTransfer
usdt = record {
  from = "0xfrom";
  to = "0xto";
  token_address = "0xtoken";
  token_symbol = "USDT";
  token_decimals = "18";
  amount = "250";
  state = "";
}

abbrev tx : TransactionDetail
tx = record {
  chain_index = "56";
  height = "1";
  tx_time = "1";
  txhash = "0xtx";
  tx_status = "success";
  method_id = "";
  nonce = "1";
  tx_fee = "1";
  from_details = [];
  to_details = receiver ∷ [];
  internal_details = [];
  token_details = usdt ∷ [];
}

token_amount_hidden_example : Labelled lib "56" receiver usdt (parse_transaction_detail lib tx "56")
token_amount_hidden_example =
    token_amount_hidden lib tx "56" receiver [] usdt [] refl refl
      (ground (arith, eq_iff "56" "501")) (ground arith) (ground arith)

-- 250 USDT are told as 0 USDT.
nothing_moved : (parse_transaction_detail lib tx "56").amount ≡ "0"
unfolding parse_transaction_detail
nothing_moved = refl
