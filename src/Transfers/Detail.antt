-- ===== src/Transfers/Detail.antt =====
-- `parseTransactionDetail`, chain/okx_transfer.go: what the API tells of a transaction is brought into
-- one form, step by step as the code fills the fields.
use tradeverse_api.Prelude.{
  String, len, Bool, false, not, ◌&&◌, ◌||◌, List, [], ◌∷◌, str_eq, ◌==◌, if◌then◌else◌, Option,
  none, some,
}
use tradeverse_api.Transfers.Index.{
  TextLib, get_chain_name_by_index, get_native_symbol, normalize_address,
}

-- An element of `fromDetails` and of `toDetails`
pub record Party : Type 0 where
  pub address : String
  pub vout_index : String
  pub is_contract : Bool
  pub amount : String

pub record InternalTransfer : Type 0 where
  pub from : String
  pub to : String
  pub is_from_contract : Bool
  pub is_to_contract : Bool
  pub amount : String
  pub state : String

pub record TokenTransfer : Type 0 where
  pub from : String
  pub to : String
  pub token_address : String
  pub token_symbol : String
  pub token_decimals : String
  pub amount : String
  pub state : String

-- `TransactionDetailResponseData`
pub record TransactionDetail : Type 0 where
  pub chain_index : String
  pub height : String
  pub tx_time : String
  pub txhash : String
  pub tx_status : String
  pub method_id : String
  pub nonce : String
  pub tx_fee : String
  pub from_details : List Party
  pub to_details : List Party
  pub internal_details : List InternalTransfer
  pub token_details : List TokenTransfer

-- `NormalTransferInfo`
pub record TransferInfo : Type 0 where
  pub tx_hash : String
  pub from : String
  pub to : String
  pub amount : String
  pub block_number : String
  pub block_time : String
  pub status : String
  pub chain_index : String
  pub chain_name : String
  pub symbol : String
  pub is_from_contract : Bool
  pub is_to_contract : Bool
  pub method_id : String
  pub tx_fee : String
  pub nonce : String
  pub tx_value : String
  pub tx_value_symbol : String
  pub token_address : String

abbrev pub is_empty : String → Bool
is_empty s = len s == 0

-- A field that is empty takes the value.
abbrev pub or_else : String → String → String
or_else s value = if is_empty s then value else s

first_party : List Party → Option Party
first_party [] = none
first_party (p ∷ ps) = some p

first_internal : List InternalTransfer → Option InternalTransfer
first_internal [] = none
first_internal (i ∷ is) = some i

unfoldable pub new_info : TransactionDetail → String → TransferInfo
unfolding get_chain_name_by_index
new_info tx chain_index = record {
  tx_hash = tx.txhash;
  from = "";
  to = "";
  amount = "";
  block_number = tx.height;
  block_time = tx.tx_time;
  status = tx.tx_status;
  chain_index = tx.chain_index;
  chain_name = get_chain_name_by_index chain_index;
  symbol = "";
  is_from_contract = false;
  is_to_contract = false;
  method_id = tx.method_id;
  tx_fee = tx.tx_fee;
  nonce = tx.nonce;
  tx_value = "";
  tx_value_symbol = "";
  token_address = "";
}

unfoldable pub with_sender : List Party → TransferInfo → TransferInfo
with_sender [] info = info
with_sender (p ∷ ps) info = record info { from = p.address; is_from_contract = p.is_contract }

abbrev with_amount : String → TransferInfo → TransferInfo
with_amount amount info = record info { amount = amount; tx_value = amount }

-- The coin of Solana has no symbol of its own.
abbrev token_symbol_of : String → TokenTransfer → String
token_symbol_of chain_index token =
    if str_eq chain_index "501"
      && (str_eq token.token_address "So11111111111111111111111111111111111111111"
          && is_empty token.token_symbol)
    then "SOLANA"
    else token.token_symbol

-- The transfer of a token fills what is still empty.
unfoldable pub with_token : String → TokenTransfer → TransferInfo → TransferInfo
with_token chain_index token info =
    let symbol = token_symbol_of chain_index token in
    let bare = is_empty info.amount && not (is_empty token.amount) in
    record info {
      token_address = token.token_address;
      symbol = or_else info.symbol symbol;
      tx_value_symbol = or_else info.tx_value_symbol symbol;
      amount = if bare then token.amount else info.amount;
      tx_value = if bare then token.amount else info.tx_value;
      from = or_else info.from token.from;
      to = or_else info.to token.to;
    }

-- The first choice, the second, or what was there.
abbrev choose {ℓ} : {A B C : Type ℓ} → (A → C) → Option A → (B → C) → Option B → C → C
choose f (some a) g o c = f a
choose f none g (some b) c = g b
choose f none g none c = c

native_amount : TransactionDetail → TransferInfo → TransferInfo
unfolding first_party first_internal
native_amount tx info =
    if not (is_empty info.amount && is_empty info.tx_value)
    then info
    else with_amount
        (choose (λ a. a) (party_amount (first_party tx.to_details)) (λ a. a)
          (internal_amount (first_internal tx.internal_details)) info.amount)
        info
  where
    party_amount : Option Party → Option String
    party_amount none = none
    party_amount (some p) = if is_empty p.amount then none else some p.amount

    internal_amount : Option InternalTransfer → Option String
    internal_amount none = none
    internal_amount (some i) = if is_empty i.amount then none else some i.amount

-- A transfer of the coin of the chain.
unfoldable pub with_native : String → TransactionDetail → TransferInfo → TransferInfo
unfolding get_native_symbol native_amount first_party first_internal
with_native chain_index tx info =
    let coin = get_native_symbol chain_index in
    let paid = native_amount tx info in
    record paid {
      token_address = "0x0000000000000000000000000000000000000000";
      symbol = or_else info.symbol coin;
      tx_value_symbol = or_else info.tx_value_symbol coin;
      from = or_else info.from (
          choose (λ p. p.address) (first_party tx.from_details) (λ i. i.from)
            (first_internal tx.internal_details) info.from);
      to = or_else info.to (
          choose (λ p. p.address) (first_party tx.to_details) (λ i. i.to)
            (first_internal tx.internal_details) info.to);
    }

unfoldable pub with_asset :
    String → TransactionDetail → List TokenTransfer → TransferInfo → TransferInfo
unfolding with_token with_native
with_asset chain_index tx [] info = with_native chain_index tx info
with_asset chain_index tx (token ∷ ts) info = with_token chain_index token info

module _ (lib : TextLib) where
  -- A number is written without its fraction; what is no number stays as it is.
  abbrev pub plain_amount : String → String
  plain_amount s = elim (lib.whole_amount s) [ some w ↦ w | none ↦ s ]

  unfoldable pub with_receiver : List Party → TransferInfo → TransferInfo
  with_receiver [] info = info
  with_receiver (p ∷ ps) info =
      let known = record info { to = p.address; is_to_contract = p.is_contract } in
      if is_empty p.amount then known else with_amount (plain_amount p.amount) known

  unfoldable pub with_internal : List InternalTransfer → TransferInfo → TransferInfo
  with_internal [] info = info
  with_internal (i ∷ is) info =
      let known = record info {
        to = or_else info.to i.to;
        is_from_contract = info.is_from_contract || i.is_from_contract;
        is_to_contract = info.is_to_contract || i.is_to_contract;
      } in
      if is_empty info.amount && not (is_empty i.amount)
      then with_amount (plain_amount i.amount) known
      else known

  unfoldable pub normalize_addresses : TransferInfo → String → TransferInfo
  unfolding normalize_address
  normalize_addresses info chain_index = record info {
    from = normalize_address lib info.from chain_index;
    to = normalize_address lib info.to chain_index;
    token_address = normalize_address lib info.token_address chain_index;
  }

  unfoldable pub parse_transaction_detail : TransactionDetail → String → TransferInfo
  unfolding new_info with_sender with_receiver with_internal with_asset normalize_addresses
  parse_transaction_detail tx chain_index =
      let parties =
        with_receiver tx.to_details (with_sender tx.from_details (new_info tx chain_index)) in
      let info =
        with_asset chain_index tx tx.token_details (with_internal tx.internal_details parties) in
      normalize_addresses info chain_index
