-- ===== src/Chain/Pipeline/Tests.antt =====
-- A chain with one deposit of 40 by user 7, emitted by a contract of nobody's, and one claim that
-- was reverted.
use tradeverse_api.Prelude.{
  ℕ, ◌%◌, str_eq, true, false, List, [], ◌∷◌, ◌++◌, if◌then◌else◌, ◌==◌, none, some, ◌≡◌, inl, refl,
  arith,
}
use tradeverse_api.Prelude.Words.{u64_mod, add64}
use tradeverse_api.Web.{Clock}
use tradeverse_api.Wallet.Settle.{update_account_balance}
use tradeverse_api.Orm.{Query, Created}
use tradeverse_api.Model.BalanceOp
use tradeverse_api.Model.BalanceStatus
use tradeverse_api.Model.Flow.{AccountBalance, AccountBalanceFlow, no_balance, no_balance_flow}
use tradeverse_api.Wallet.Calls.{Write, TopupTxInfo, QueuePassObject, SettleDb}
use tradeverse_api.Chain.Client.{Tx, Log, Receipt, AbiValue, Client}
use tradeverse_api.Chain.Parse.Deposits.{Deposited, parse_deposited}
use tradeverse_api.Chain.Worker.{published, consume}
use tradeverse_api.Chain.Worker.Laws.{Reports, consume-Reports, consume_credits}
use tradeverse_api.Chain.Parse.{info, no_info, parse_topup_tx}
use tradeverse_api.Chain.Recheck.{requeue}
use tradeverse_api.Chain.Pipeline.{drained, processed}
use tradeverse_api.Chain.Pipeline.Credit.{CanSettle, deposit_credited}
use tradeverse_api.Chain.Pipeline.Stuck.{requeued_stuck}

abbrev anyone : Tx
anyone = record { to = some "0xanyone"; input = [] }

abbrev transfer : Log
transfer = record { address = "0xtoken"; topics = (1 ∷ []) ∷ []; content = [] }

abbrev deposit : Log
deposit = record { address = "0xanyone"; topics = (2 ∷ []) ∷ []; content = 40 ∷ [] }

abbrev receipt : Receipt
receipt = record { status = 1; block_number = none; logs = transfer ∷ deposit ∷ [] }

abbrev reverted : Receipt
reverted = record { status = 0; block_number = none; logs = [] }

abbrev client : Client
client = record {
  get_rpc_config = λ name. some ("https://rpc" ∷ []);
  get_client = λ url. true;
  transaction_by_hash = λ h. some (anyone, false);
  network_id = none;
  sender = λ id tx. none;
  abi_parsed = true;
  has_method = λ name. true;
  unpack_input = λ name input. none;
  event_id = λ name. some (2 ∷ []);
  unpack_event = λ name content. some (AbiValue.big_int 40 ∷ []);
  transaction_receipt = λ h. if str_eq h "0xdeposit" then some receipt else some reverted;
  block_time = λ n. none;
  topic_address = λ t. "";
}

abbrev recharge : AccountBalanceFlow
recharge = record no_balance_flow { id = 3; main_id = 7; tx_hash = "0xdeposit" }

abbrev claim : AccountBalanceFlow
claim = record no_balance_flow {
  id = 4;
  main_id = 7;
  op = BalanceOp.withdraw;
  chain_id = "56";
  tx_hash = "0xclaim";
  ref_flow_id = 2;
}

abbrev lock : AccountBalanceFlow
lock = record no_balance_flow { id = 2; main_id = 7; op = BalanceOp.freeze }

abbrev row : AccountBalance
row = record no_balance { id = 1; main_id = 7; available = 90 }

abbrev flows : ℕ → Query AccountBalanceFlow
flows n = if n == 2 then Query.found lock else Query.not_found

abbrev db : SettleDb
db = record {
  flow = flows;
  locked_flow = λ u h. Query.found recharge;
  locked_balance = λ u. Query.found row;
  create_balance = λ b. Created.created 8;
  save_flow = λ f. true;
  save_balance = λ b. true;
  commit = true;
  sprintf_d = λ n. "56";
}

abbrev object : QueuePassObject
object = record {
  chain_id = 56;
  tx_hash = "0xdeposit";
  main_id = 7;
  ref_flow_id = 3;
  op = BalanceOp.recharge;
}

deposit-Deposited : Deposited client 56 "0xdeposit" receipt deposit 40
deposit-Deposited = record {
  hash_given = ground arith;
  url = "https://rpc";
  rpc_known = refl;
  connected = refl;
  tx = anyone;
  tx_found = refl;
  abi_known = refl;
  receipt_found = refl;
  succeeded = refl;
  id = 2 ∷ [];
  event_known = refl;
  before = transfer ∷ [];
  after = [];
  logged = refl;
  first = (refl, tt);
  of_event = refl;
  amount_read = refl;
}

object-CanSettle : CanSettle db object recharge row
object-CanSettle = record {
  flow_found = refl;
  flow_pending = refl;
  balance_found = refl;
  flow_saved = λ f. refl;
  balance_saved = λ b. refl;
  committed = refl;
}

abbrev dbs : ℕ → SettleDb
dbs k = db

abbrev clocks : ℕ → Clock
clocks k n = n

-- A reverted claim that waits on the channel, and writes nothing.
abbrev waiting : List TopupTxInfo
waiting =
    record (no_info "0xclaim") {
      main_id = 7;
      ref_flow_id = 4;
      op = BalanceOp.withdraw;
      chain_id = 56;
    }
    ∷ []

waiting_written : drained dbs clocks 0 waiting ≡ []
unfolding drained update_account_balance
waiting_written = refl

deposit_credited_example :
    (t' : AccountBalanceFlow) × (processed client dbs clocks waiting object
      ≡ drained dbs clocks 0 waiting
        ++ (Write.save_flow t'
            ∷ Write.save_balance
                (record row { available = add64 90 (40 % u64_mod); update_time = 3 })
            ∷ []))
    × (t'.id ≡ 3)
    × (t'.status ≡ BalanceStatus.success)
    × (t'.real_amount ≡ 40 % u64_mod)
deposit_credited_example =
    deposit_credited client dbs clocks waiting object receipt deposit 40 recharge row refl
      deposit-Deposited (ground arith) object-CanSettle

abbrev requeued : QueuePassObject
requeued = record object { tx_hash = "0xclaim"; ref_flow_id = 2; op = BalanceOp.withdraw }

requeued_runs : requeue (λ s. some 56) claim ≡ requeued ∷ []
unfolding requeue
requeued_runs = refl

requeued_stuck_example : processed client dbs clocks waiting requeued ≡ drained dbs clocks 0 waiting
requeued_stuck_example =
    requeued_stuck client dbs clocks waiting (λ s. some 56) claim lock requeued (inl refl) refl refl
      refl requeued_runs

abbrev parsed :
    (i : TopupTxInfo) × (parse_topup_tx client 56 "0xdeposit" ≡ info i)
    × (i.amount ≡ some 40)
    × (i.status ≡ "success")
    × (i.contract ≡ "0xanyone")
parsed = parse_deposited client 56 "0xdeposit" receipt deposit 40 deposit-Deposited

abbrev sent :
    (i : TopupTxInfo) × (consume client object ≡ published i)
    × (i.amount ≡ parsed.0.amount)
    × (i.status ≡ "success")
sent = consume_credits client object parsed.0 refl parsed.1 parsed.3

consume-Reports_example : Reports client object sent.0
consume-Reports_example = consume-Reports client object sent.0 sent.1
