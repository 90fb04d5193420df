-- ===== src/Transfers/Client.antt =====
-- `OKXTransferClient`, `GetNormalTransferByOKX` and `GetNormalTransfer`, chain/okx_transfer.go. The
-- environment, `url.Values.Encode`, the HMAC (crypto/hmac with SHA256, in base64), net/http and
-- encoding/json are arguments.
use Prim.Native.String.{◌++◌}
use tradeverse_api.Prelude.{
  ℕ, String, len, Bool, not, ◌||◌, List, [], ◌∷◌, map, length, ltb, ◌==◌, str_eq, if◌then◌else◌,
  Option, none, some,
}
use tradeverse_api.Transfers.Index.{TextLib, get_chain_index}
use tradeverse_api.Transfers.Detail.{TransactionDetail, TransferInfo, parse_transaction_detail}

-- A value, or the text of an error.
pub data Result (A : Type 0) : Type 0 where
  ok : A → Result A
  err : String → Result A

infixl 5 ◌>>=◌
abbrev ◌>>=◌ : {A B : Type 0} → Result A → (A → Result B) → Result B
Result.ok a >>= f = f a
Result.err e >>= f = Result.err e

pub record OkxClient : Type 0 where
  pub api_key : String
  pub secret_key : String
  pub passphrase : String
  pub base_url : String

pub record HttpRequest : Type 0 where
  pub method : String
  pub url : String
  pub body : Option String
  pub headers : List (String × String)

-- What the HTTP client makes of a request.
pub data Sent : Type 0 where
  failed : String → Sent
  unread : String → Sent
  -- the status, its text, and the body
  received : ℕ → String → String → Sent

-- `TransactionDetailResponse`
pub record DetailResponse : Type 0 where
  pub code : String
  pub msg : String
  pub detail : List TransactionDetail

pub record Network : Type 0 where
  pub getenv : String → String
  pub encode : List (String × String) → String
  -- the secret and the message
  pub hmac_base64 : String → String → String
  -- the error of `http.NewRequest` for a method and an address
  pub malformed : String → String → Option String
  -- the time, as the API wants it
  pub timestamp : String
  pub send : HttpRequest → Sent
  -- `json.Unmarshal`
  pub unmarshal : String → Result DetailResponse

module _ (net : Network) where
  abbrev is_empty : String → Bool
  is_empty s = len s == 0

  unfoldable pub new_client : Result OkxClient
  new_client =
      let key = net.getenv "OKX_API_KEY" in
      let secret = net.getenv "OKX_SECRET_KEY" in
      let phrase = net.getenv "OKX_API_PASSPHRASE" in
      if is_empty key || is_empty secret || is_empty phrase
      then Result.err "缺少必要的 OKX API 环境变量: OKX_API_KEY, OKX_SECRET_KEY, OKX_API_PASSPHRASE"
      else Result.ok (record {
        api_key = key;
        secret_key = secret;
        passphrase = phrase;
        base_url = "https://web3.okx.com";
      })

  unfoldable pub create_signature : OkxClient → String → String → String → String → String
  create_signature client timestamp method request_path body =
      net.hmac_base64 client.secret_key (timestamp ++ method ++ request_path ++ body)

  -- The query belongs to a GET, the body to the other methods.
  abbrev pub query_string : String → List (String × String) → String
  query_string method params =
      if str_eq method "GET"
      then (if ltb 0 (length params) then "?" ++ net.encode params else "")
      else ""

  abbrev pub body_string : String → Option String → String
  body_string method body = if str_eq method "GET" then "" else or_empty body
    where
      or_empty : Option String → String
      or_empty none = ""
      or_empty (some b) = b

  unfoldable pub signed_request :
      OkxClient → String → String → List (String × String) → Option String → HttpRequest
  unfolding create_signature
  signed_request client method endpoint params body =
      let query = query_string method params in
      let signature =
        create_signature client net.timestamp method (endpoint ++ query)
          (body_string method body) in
      record {
        method = method;
        url = client.base_url ++ endpoint ++ query;
        body = if str_eq method "POST" then body else none;
        headers =
            ("OK-ACCESS-KEY", client.api_key)
            ∷ ("OK-ACCESS-SIGN", signature)
            ∷ ("OK-ACCESS-TIMESTAMP", net.timestamp)
            ∷ ("OK-ACCESS-PASSPHRASE", client.passphrase)
            ∷ ("Content-Type", "application/json")
            ∷ [];
      }

  received_body : Sent → Result String
  received_body (Sent.failed e) = Result.err ("请求失败: " ++ e)
  received_body (Sent.unread e) = Result.err ("读取响应失败: " ++ e)
  received_body (Sent.received status text body) =
      if not (status == 200)
      then Result.err ("HTTP 状态码错误: " ++ text ++ ", 响应: " ++ body)
      else Result.ok body

  unfoldable pub do_request :
      OkxClient → String → String → List (String × String) → Option String → Result String
  unfolding signed_request received_body
  do_request client method endpoint params body =
      let request = signed_request client method endpoint params body in
      elim (net.malformed method request.url) [
        | some e ↦ Result.err ("构造 HTTP 请求失败: " ++ e)
        | none ↦ received_body (net.send request)
      ]

  decoded : Result DetailResponse → Result DetailResponse
  decoded (Result.ok r) = Result.ok r
  decoded (Result.err e) = Result.err ("JSON 解析失败: " ++ e)

  -- The answer must carry the code "0" and a transaction.
  checked_response : DetailResponse → Result (List TransactionDetail)
  checked_response r =
      if not (str_eq r.code "0")
      then Result.err ("API 返回错误: " ++ r.code ++ " - " ++ r.msg)
      else if length r.detail == 0
      then Result.err "未找到交易数据"
      else Result.ok r.detail

  module _ (lib : TextLib) where
    unfoldable pub get_normal_transfer_by_okx : String → String → Result (List TransferInfo)
    unfolding new_client do_request decoded checked_response
    get_normal_transfer_by_okx chain_index tx_hash = do
      client ← new_client
      body ←
          do_request client "GET" "/api/v6/dex/post-transaction/transaction-detail-by-txhash"
            (("chainIndex", chain_index) ∷ ("txHash", tx_hash) ∷ []) none
      response ← decoded (net.unmarshal body)
      txs ← checked_response response
      Result.ok (map (λ tx. parse_transaction_detail lib tx chain_index) txs)

    unfoldable pub get_normal_transfer : String → String → Result (List TransferInfo)
    unfolding get_normal_transfer_by_okx
    get_normal_transfer chain tx_hash =
        let chain_index = get_chain_index lib chain in
        if is_empty chain_index
        then Result.err ("不支持的链: " ++ chain)
        else get_normal_transfer_by_okx chain_index tx_hash
