-- ===== src/Chain/Client.antt =====
-- What chain/evm_tx_parse.go calls: the configured RPC addresses, the EVM client and the ABI of the
-- top-up contract (go-ethereum). `none` is an error.
use tradeverse_api.Prelude.{ℕ, String, Bool, List, Option}

pub record Tx : Type 0 where
  -- `tx.To().Hex()`
  pub to : Option String
  -- `tx.Data()`
  pub input : List ℕ

pub record Log : Type 0 where
  -- `lg.Address.Hex()`
  pub address : String
  pub topics : List (List ℕ)
  pub content : List ℕ

pub record Receipt : Type 0 where
  pub status : ℕ
  pub block_number : Option ℕ
  pub logs : List Log

-- What `Unpack` gives: the types that the parsers tell apart.
pub data AbiValue : Type 0 where
  -- `*big.Int`, `big.Int`
  big_int : ℕ → AbiValue
  bytes32 : List ℕ → AbiValue
  -- `common.Address`, by its `Hex()`
  address : String → AbiValue
  -- `[20]byte`, `[]byte`, by the `Hex()` of the address with these bytes
  address_bytes : String → AbiValue
  other : AbiValue

pub record Client : Type 0 where
  -- `config.GetRpcConfig(name).GetRpc()`
  pub get_rpc_config : String → Option (List String)
  -- `tools.GetGlobalClient().GetClient(url)` succeeds
  pub get_client : String → Bool
  -- the transaction, and whether it is pending
  pub transaction_by_hash : String → Option (Tx × Bool)
  pub network_id : Option ℕ
  -- `types.Sender` of the latest signer of the network
  pub sender : ℕ → Tx → Option String
  -- `abi.JSON` succeeds
  pub abi_parsed : Bool
  pub has_method : String → Bool
  -- `Methods[name].Inputs.Unpack`
  pub unpack_input : String → List ℕ → Option (List AbiValue)
  -- `Events[name].ID`
  pub event_id : String → Option (List ℕ)
  -- `Events[name].Inputs.NonIndexed().Unpack`
  pub unpack_event : String → List ℕ → Option (List AbiValue)
  pub transaction_receipt : String → Option Receipt
  -- `BlockByNumber(n).Time()`
  pub block_time : ℕ → Option ℕ
  -- the address in the last 20 bytes of a topic, by its `Hex()`
  pub topic_address : List ℕ → String
