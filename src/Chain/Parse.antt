-- ===== src/Chain/Parse.antt =====
-- The parsers of chain/evm_tx_parse.go, each in three stages: the transaction, its input, and its
-- receipt with the event of the top-up contract. Those of a claim and of a cancel are in Locks.
use tradeverse_api.Prelude.{
  ℕ, String, len, Bool, true, false, not, ◌&&◌, ◌||◌, List, [], ◌∷◌, ltb, leb, ◌==◌, str_eq,
  if◌then◌else◌, Option, none, some, Exit, next, exit, ◌>>=◌, ◌>>◌, return_if, answer, length, drop,
  bytes_equal,
}
use tradeverse_api.Web.{from_unix}
use tradeverse_api.Wallet.Calls.{TopupTxInfo}
use tradeverse_api.Chain.Client.{Tx, Log, Receipt, AbiValue, Client}
pub mod Locks
pub mod Laws
pub mod Deposits

pub data Parsed : Type 0 where
  info : TopupTxInfo → Parsed
  error : Parsed
  -- an index out of range
  panicked : Parsed

abbrev zero_bytes : List ℕ
zero_bytes =
    0 ∷ 0 ∷ 0 ∷ 0 ∷ 0 ∷ 0 ∷ 0 ∷ 0 ∷ 0 ∷ 0 ∷ 0 ∷ 0 ∷ 0 ∷ 0 ∷ 0 ∷ 0 ∷ 0 ∷ 0 ∷ 0 ∷ 0 ∷ 0 ∷ 0 ∷ 0 ∷ 0
    ∷ 0 ∷ 0 ∷ 0 ∷ 0 ∷ 0 ∷ 0 ∷ 0 ∷ 0 ∷ []

-- `TopupTxInfo{TxHash: txHash, Status: "pending"}`
abbrev pub no_info : String → TopupTxInfo
no_info tx_hash = record {
  tx_hash = tx_hash;
  from = "";
  to = "";
  contract = "";
  amount = none;
  block_number = 0;
  block_time = 0;
  status = "pending";
  user_from_log = "";
  main_id = 0;
  ref_flow_id = 0;
  op = 0;
  chain_id = 0;
  lock_id = zero_bytes;
}

abbrev pub if_some {ℓ} : {A : Type 0} {B : Type ℓ} → Option A → (A → B) → B → B
if_some none f b = b
if_some (some a) f b = f a

abbrev pub first_rpc : Option (List String) → Option String
first_rpc none = none
first_rpc (some []) = none
first_rpc (some (url ∷ urls)) = some url

abbrev pub id_to_name : ℕ → Option String
id_to_name id =
    if id == 1
    then some "ETH"
    else if id == 56
    then some "BSC"
    else if id == 97
    then some "BSC_TESTNET"
    else if id == 137
    then some "POLYGON"
    else if id == 10
    then some "OPTIMISM"
    else if id == 42161
    then some "ARBITRUM"
    else none

abbrev pub or_else : Option String → Option String → Option String
or_else none b = b
or_else (some a) b = some a

found_rpc : Option String → Exit Parsed String
found_rpc none = exit error
found_rpc (some url) = next url

found_tx : Option (Tx × Bool) → Exit Parsed (Tx × Bool)
found_tx none = exit error
found_tx (some t) = next t

pub with_to : Tx → TopupTxInfo → TopupTxInfo
with_to tx i = if_some tx.to (λ to. record i { to = to }) i

-- The topic of the event comes first.
abbrev pub is_event : List ℕ → Log → Bool
is_event id log = elim log.topics [ [] ↦ false | t ∷ ts ↦ bytes_equal t id ]

pub amount_in : TopupTxInfo → AbiValue → TopupTxInfo
amount_in i (AbiValue.big_int n) = record i { amount = some n }
amount_in i (AbiValue.bytes32 b) = i
amount_in i (AbiValue.address a) = i
amount_in i (AbiValue.address_bytes a) = i
amount_in i AbiValue.other = i

pub deposit_input : TopupTxInfo → Option (List AbiValue) → TopupTxInfo
unfolding amount_in
deposit_input i (some (v ∷ [])) = amount_in i v
deposit_input i _ = i

pub open_lock_input : TopupTxInfo → Option (List AbiValue) → TopupTxInfo
unfolding amount_in
open_lock_input i (some (a ∷ v ∷ b ∷ c ∷ d ∷ [])) = amount_in i v
open_lock_input i _ = i

pub open_lock_event : TopupTxInfo → Option (List AbiValue) → TopupTxInfo
unfolding amount_in
open_lock_event i (some (v ∷ w ∷ [])) = amount_in i v
open_lock_event i _ = i

module _ (client : Client) where
  -- `pickRPCByChainID`: the chain's own first address, else that of BSC.
  abbrev pub pick_rpc_by_chain_id : ℕ → Option String
  pick_rpc_by_chain_id id =
      or_else (if_some (id_to_name id) (λ name. first_rpc (client.get_rpc_config name)) none)
        (first_rpc (client.get_rpc_config "BSC"))

  pub with_sender : Tx → TopupTxInfo → TopupTxInfo
  with_sender tx i =
      if_some client.network_id
        (λ id. if_some (client.sender id tx) (λ from. record i { from = from }) i) i

  -- The transaction, whether it is pending, and what is known of it without its input.
  pub open_tx : ℕ → String → Exit Parsed (Tx × Bool × TopupTxInfo)
  unfolding found_rpc found_tx with_sender with_to
  open_tx chain_id tx_hash = do
    return_if (len tx_hash == 0) error
    url ← found_rpc (pick_rpc_by_chain_id chain_id)
    return_if (not (client.get_client url)) error
    (tx, is_pending) ← found_tx (client.transaction_by_hash tx_hash)
    let i = with_to tx (with_sender tx (no_info tx_hash))
    return_if (not client.abi_parsed) error
    next (tx, is_pending, i)

  -- The arguments of a method, whatever method the transaction has called.
  pub arguments : String → Tx → Option (List AbiValue)
  arguments name tx =
      if leb 4 (length tx.input) && client.has_method name
      then client.unpack_input name (drop 4 tx.input)
      else none

  pub with_receipt : Receipt → TopupTxInfo → TopupTxInfo
  with_receipt r i =
      let i' = record i { status = if r.status == 1 then "success" else "failed" } in
      if_some r.block_number
        (λ n.
          if_some (client.block_time n)
            (λ t. record i' { block_number = n; block_time = from_unix t })
            (record i' { block_number = n }))
        i'

  -- A transaction that is pending, or whose receipt is not there, goes no further.
  pub found_receipt : String → Bool → TopupTxInfo → Exit Parsed Receipt
  found_receipt tx_hash is_pending i = do
    return_if is_pending (info i)
    if_some (client.transaction_receipt tx_hash) next (exit (info i))

  abbrev pub with_user : Log → TopupTxInfo → TopupTxInfo
  with_user log i = elim log.topics [
    | [] ↦ i
    | t ∷ ts ↦ elim ts [ [] ↦ i | u ∷ us ↦ record i { user_from_log = client.topic_address u } ]
  ]

  -- The first log of the event, from whatever contract: `read` takes the amount from its data.
  pub first_log :
      (TopupTxInfo → Option (List AbiValue) → TopupTxInfo)
      → String
      → List ℕ
      → List Log
      → TopupTxInfo
      → TopupTxInfo
  first_log read name id [] i = i
  first_log read name id (log ∷ logs) i =
      if not (is_event id log)
      then first_log read name id logs i
      else record (read (with_user log i) (client.unpack_event name log.content)) {
        contract = log.address;
      }

  pub read_logs :
      (TopupTxInfo → Option (List AbiValue) → TopupTxInfo)
      → String
      → List Log
      → TopupTxInfo
      → TopupTxInfo
  unfolding first_log
  read_logs read name logs i =
      if_some (client.event_id name) (λ id. first_log read name id logs i) i

  pub parse_topup_tx : ℕ → String → Parsed
  unfolding open_tx arguments deposit_input found_receipt with_receipt read_logs
  parse_topup_tx chain_id tx_hash = answer do
    (tx, is_pending, i) ← open_tx chain_id tx_hash
    let i' = deposit_input i (arguments "deposit" tx)
    r ← found_receipt tx_hash is_pending i'
    next (info (read_logs deposit_input "Deposited" r.logs (with_receipt r i')))

  pub parse_open_lock_tx : ℕ → String → Parsed
  unfolding open_tx arguments open_lock_input open_lock_event found_receipt with_receipt read_logs
  parse_open_lock_tx chain_id tx_hash = answer do
    (tx, is_pending, i) ← open_tx chain_id tx_hash
    let i' = open_lock_input i (arguments "openLock" tx)
    r ← found_receipt tx_hash is_pending i'
    next (info (read_logs open_lock_event "LockOpened" r.logs (with_receipt r i')))
