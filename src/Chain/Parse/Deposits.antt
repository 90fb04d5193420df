-- ===== src/Chain/Parse/Deposits.antt =====
-- A deposit that `ParseTopupTx`, chain/evm_tx_parse.go, reads from the receipt's logs.
use tradeverse_api.Prelude.{
  ℕ, String, len, true, false, List, [], ◌∷◌, ◌++◌, ◌≡◌, ◌≢◌, Option, some, arith, refl, next, ap,
  ◌∙◌,
}
use tradeverse_api.Wallet.Calls.{TopupTxInfo}
use tradeverse_api.Chain.Client.{Tx, Log, Receipt, AbiValue, Client}
use tradeverse_api.Chain.Parse.{
  info, pick_rpc_by_chain_id, open_tx, arguments, is_event, deposit_input, found_receipt,
  with_receipt, with_to, with_sender, no_info, first_log, read_logs, parse_topup_tx,
}

-- None of the logs is of the event.
abbrev pub NoneOf : List ℕ → List Log → Type 0
NoneOf id [] = Unit
NoneOf id (log ∷ logs) = (is_event id log ≡ false) × NoneOf id logs

-- The transaction is found by its hash, is not pending, and has the receipt `r`, of a transaction
-- that succeeded; `log` is the first of its logs that is of the event "Deposited", and its data is
-- the amount `n`. Which contract has emitted the log is left open.
pub record Deposited (client : Client) (chain_id : ℕ) (h : String) (r : Receipt) (log : Log) (n : ℕ)
    : Type 0 where
  pub hash_given : len h ≢ 0
  pub url : String
  pub rpc_known : pick_rpc_by_chain_id client chain_id ≡ some url
  pub connected : client.get_client url ≡ true
  pub tx : Tx
  pub tx_found : client.transaction_by_hash h ≡ some (tx, false)
  pub abi_known : client.abi_parsed ≡ true
  pub receipt_found : client.transaction_receipt h ≡ some r
  pub succeeded : r.status ≡ 1
  pub id : List ℕ
  pub event_known : client.event_id "Deposited" ≡ some id
  pub before : List Log
  pub after : List Log
  pub logged : r.logs ≡ before ++ (log ∷ after)
  pub first : NoneOf id before
  pub of_event : is_event id log ≡ true
  pub amount_read : client.unpack_event "Deposited" log.content ≡ some (AbiValue.big_int n ∷ [])

first_log_skips :
    (client : Client) (read : TopupTxInfo → Option (List AbiValue) → TopupTxInfo) (name : String)
    (id : List ℕ) (before logs : List Log) (i : TopupTxInfo)
    → NoneOf id before
    → first_log client read name id (before ++ logs) i ≡ first_log client read name id logs i
unfolding first_log
first_log_skips client read name id [] logs i first = refl
first_log_skips client read name id (log ∷ before) logs i first =
    ground (arith, first_log_skips client read name id before logs i first.1)

module _ (client : Client) (chain_id : ℕ) (h : String) (r : Receipt) (log : Log) (n : ℕ)
    (d : Deposited client chain_id h r log n) where
  logs_read :
      (i : TopupTxInfo)
      → read_logs client deposit_input "Deposited" r.logs i
        ≡ first_log client deposit_input "Deposited" d.id (log ∷ d.after) i
  unfolding read_logs
  logs_read i = rw (
    d.event_known,
    d.logged,
    first_log_skips client deposit_input "Deposited" d.id d.before (log ∷ d.after) i d.first,
  )

  first_deposited :
      (i : TopupTxInfo)
      → ((first_log client deposit_input "Deposited" d.id (log ∷ d.after) i).amount ≡ some n)
        × ((first_log client deposit_input "Deposited" d.id (log ∷ d.after) i).status ≡ i.status)
        × ((first_log client deposit_input "Deposited" d.id (log ∷ d.after) i).contract
            ≡ log.address)
  unfolding first_log deposit_input
  first_deposited i = ground (arith, d.of_event, d.amount_read)

  abbrev opened_info : TopupTxInfo
  opened_info = with_to d.tx (with_sender client d.tx (no_info h))

  deposit_opened : open_tx client chain_id h ≡ next (d.tx, false, opened_info)
  unfolding open_tx
  deposit_opened = ground (arith, d.hash_given, d.rpc_known, d.connected, d.tx_found, d.abi_known)

  abbrev mined_info : TopupTxInfo
  mined_info = with_receipt client r (deposit_input opened_info (arguments client "deposit" d.tx))

  mined_success : mined_info.status ≡ "success"
  unfolding with_receipt
  mined_success = ground (arith, d.succeeded)

  receipt_there : (i : TopupTxInfo) → found_receipt client h false i ≡ next r
  unfolding found_receipt
  receipt_there i = ground (arith, d.receipt_found)

  parse_mined :
      parse_topup_tx client chain_id h
      ≡ info (read_logs client deposit_input "Deposited" r.logs mined_info)
  unfolding parse_topup_tx
  parse_mined =
      rw (
        deposit_opened,
        receipt_there (deposit_input opened_info (arguments client "deposit" d.tx)),
      )

  pub parse_deposited :
      (i : TopupTxInfo) × (parse_topup_tx client chain_id h ≡ info i)
      × (i.amount ≡ some n)
      × (i.status ≡ "success")
      × (i.contract ≡ log.address)
  parse_deposited =
      let last = first_log client deposit_input "Deposited" d.id (log ∷ d.after) mined_info in
      let read = first_deposited mined_info in
      (last, parse_mined ∙ ap info (logs_read mined_info), read.0, read.1 ∙ mined_success, read.2)
