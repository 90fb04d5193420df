-- ===== src/Chain/Parse/Laws.antt =====
-- What the parsers of chain/evm_tx_parse.go tell of a transaction's receipt.
use tradeverse_api.Prelude.{
  ℕ, String, Bool, List, [], ◌∷◌, ◌==◌, if◌then◌else◌, Option, none, some, next, answer, EveryExit,
  answer-bind, ◌>>=◌, ◌≡◌, ◌⊎◌, refl, arith,
}
use tradeverse_api.Wallet.Calls.{TopupTxInfo}
use tradeverse_api.Chain.Client.{Tx, Log, Receipt, AbiValue, Client}
use tradeverse_api.Chain.Parse.{
  if_some, Parsed, info, error, panicked, open_tx, arguments, deposit_input, open_lock_input,
  open_lock_event, found_receipt, with_receipt, with_user, first_log, read_logs, parse_topup_tx,
  parse_open_lock_tx,
}

-- The status that a receipt stands for; without one the transaction is pending.
abbrev pub mined_status : Option Receipt → String
mined_status none = "pending"
mined_status (some r) = if r.status == 1 then "success" else "failed"

-- The same transaction, in the same state.
abbrev pub Same : TopupTxInfo → TopupTxInfo → Type 0
Same i j = (j.tx_hash ≡ i.tx_hash) × (j.status ≡ i.status)

abbrev pub Told : Client → String → TopupTxInfo → Type 0
Told client h i =
    (i.tx_hash ≡ h)
    × ((i.status ≡ "pending") ⊎ (i.status ≡ mined_status (client.transaction_receipt h)))

-- What a parser tells of a transaction is what its receipt says, or that it is pending.
abbrev pub Honest : Client → String → Parsed → Type 0
Honest client h (info i) = Told client h i
Honest client h error = Unit
Honest client h panicked = Unit

-- What holds of every outcome of a test holds of the test.
pub if_some_all :
    {A B : Type 0} (P : B → Type 0) (o : Option A) (f : A → B) (b : B)
    → P b
    → ((a : A) → P (f a))
    → P (if_some o f b)
if_some_all P none f b p all = p
if_some_all P (some a) f b p all = all a

module _ (client : Client) (chain_id : ℕ) (h : String) where
  open_tx-Honest : EveryExit (Honest client h) (open_tx client chain_id h)
  unfolding open_tx
  open_tx-Honest = ground arith

  open_tx_pending :
      (tx : Tx) (p : Bool) (i : TopupTxInfo)
      → open_tx client chain_id h ≡ next (tx, p, i)
      → (i.tx_hash ≡ h) × (i.status ≡ "pending")
  unfolding open_tx
  open_tx_pending tx p i e = ground arith

  -- The rest of a parser, from the transaction's input on: `finish` reads the logs.
  receipt-Honest :
      (p : Bool) (i : TopupTxInfo) (finish : Receipt → TopupTxInfo → Parsed)
      → (i.tx_hash ≡ h) × (i.status ≡ "pending")
      → ((r : Receipt) → (j : TopupTxInfo) → Told client h j → Honest client h (finish r j))
      → Honest client h
          (answer (found_receipt client h p i >>= λ r. next (finish r (with_receipt client r i))))
  unfolding found_receipt with_receipt
  receipt-Honest p i finish told keeps =
      answer-bind (Honest client h) (found_receipt client h p i)
        (λ r. next (finish r (with_receipt client r i))) (ground arith)
        (λ r e. keeps r (with_receipt client r i) (ground arith))

  -- A whole parser: `input` reads the transaction's arguments and `finish` the logs.
  pub parser-Honest :
      (input : Tx → TopupTxInfo → TopupTxInfo) (finish : Receipt → TopupTxInfo → Parsed)
      → ((tx : Tx) (j : TopupTxInfo) → Same j (input tx j))
      → ((r : Receipt) (j : TopupTxInfo) → Told client h j → Honest client h (finish r j))
      → Honest client h (
          answer (
            open_tx client chain_id h >>= λ o. found_receipt client h o.1 (input o.0 o.2) >>= λ r.
            next (finish r (with_receipt client r (input o.0 o.2)))))
  parser-Honest input finish same keeps =
      answer-bind (Honest client h) (open_tx client chain_id h) _ open_tx-Honest (λ o e.
        receipt-Honest o.1 (input o.0 o.2) finish
          (ground (arith, open_tx_pending o.0 o.1 o.2 e, same o.0 o.2)) keeps)

first_log-Same :
    (client : Client) (read : TopupTxInfo → Option (List AbiValue) → TopupTxInfo) (name : String)
    (id : List ℕ) (logs : List Log) (i : TopupTxInfo)
    → ((j : TopupTxInfo) (v : Option (List AbiValue)) → Same j (read j v))
    → Same i (first_log client read name id logs i)
unfolding first_log
first_log-Same client read name id [] i keeps = (refl, refl)
first_log-Same client read name id (log ∷ logs) i keeps = ground (
  arith,
  first_log-Same client read name id logs i keeps,
  keeps (with_user client log i) (client.unpack_event name log.content),
)

deposit_input-Same : (j : TopupTxInfo) (v : Option (List AbiValue)) → Same j (deposit_input j v)
unfolding deposit_input
deposit_input-Same j v = ground arith

open_lock_input-Same : (j : TopupTxInfo) (v : Option (List AbiValue)) → Same j (open_lock_input j v)
unfolding open_lock_input
open_lock_input-Same j v = ground arith

open_lock_event-Same : (j : TopupTxInfo) (v : Option (List AbiValue)) → Same j (open_lock_event j v)
unfolding open_lock_event
open_lock_event-Same j v = ground arith

module _ (client : Client) (chain_id : ℕ) (h : String) where
  read_logs-Honest :
      (read : TopupTxInfo → Option (List AbiValue) → TopupTxInfo) (name : String) (logs : List Log)
      (j : TopupTxInfo)
      → ((j : TopupTxInfo) (v : Option (List AbiValue)) → Same j (read j v))
      → Told client h j
      → Told client h (read_logs client read name logs j)
  unfolding read_logs
  read_logs-Honest read name logs j same told =
      if_some_all (Told client h) (client.event_id name)
        (λ id. first_log client read name id logs j) j told
        (λ id. ground (arith, first_log-Same client read name id logs j same))

  pub parse_topup_tx-Honest : Honest client h (parse_topup_tx client chain_id h)
  unfolding parse_topup_tx
  parse_topup_tx-Honest =
      parser-Honest client chain_id h (λ tx i. deposit_input i (arguments client "deposit" tx))
        (λ r j. info (read_logs client deposit_input "Deposited" r.logs j))
        (λ tx j. deposit_input-Same j (arguments client "deposit" tx))
        (λ r j. read_logs-Honest deposit_input "Deposited" r.logs j deposit_input-Same)

  pub parse_open_lock_tx-Honest : Honest client h (parse_open_lock_tx client chain_id h)
  unfolding parse_open_lock_tx
  parse_open_lock_tx-Honest =
      parser-Honest client chain_id h (λ tx i. open_lock_input i (arguments client "openLock" tx))
        (λ r j. info (read_logs client open_lock_event "LockOpened" r.logs j))
        (λ tx j. open_lock_input-Same j (arguments client "openLock" tx))
        (λ r j. read_logs-Honest open_lock_event "LockOpened" r.logs j open_lock_event-Same)
