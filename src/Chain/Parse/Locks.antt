-- ===== src/Chain/Parse/Locks.antt =====
-- `ParseClaimLockedTx` and `ParseCancelLockedTx`, chain/evm_tx_parse.go.
use tradeverse_api.Prelude.{
  ℕ, String, Bool, not, List, [], ◌∷◌, if◌then◌else◌, Option, none, some, Exit, next, ◌>>=◌, answer,
  bytes_equal,
}
use tradeverse_api.Wallet.Calls.{TopupTxInfo}
use tradeverse_api.Chain.Client.{Receipt, Log, AbiValue, Client}
use tradeverse_api.Chain.Parse.{
  Parsed, info, panicked, if_some, open_tx, arguments, found_receipt, with_receipt,
}
pub mod Laws

claim_arguments : TopupTxInfo → AbiValue → AbiValue → TopupTxInfo
claim_arguments i (AbiValue.bytes32 b) v = record i { lock_id = b }
claim_arguments i _ (AbiValue.address a) = record i { to = a }
claim_arguments i _ _ = i

pub claim_input : TopupTxInfo → Option (List AbiValue) → TopupTxInfo
unfolding claim_arguments
claim_input i (some (a ∷ v ∷ [])) = claim_arguments i a v
claim_input i _ = i

pub cancel_input : TopupTxInfo → Option (List AbiValue) → TopupTxInfo
cancel_input i (some (AbiValue.bytes32 b ∷ [])) = record i { lock_id = b }
cancel_input i _ = i

-- The data of a log, "to" and the amount; `none` is a `continue`.
claim_data : Option (List AbiValue) → Option (String × ℕ)
claim_data (some (AbiValue.address a ∷ AbiValue.big_int n ∷ [])) = some (a, n)
claim_data (some (AbiValue.address_bytes a ∷ AbiValue.big_int n ∷ [])) = some (a, n)
claim_data _ = none

cancel_data : Option (List AbiValue) → Option ℕ
cancel_data (some (AbiValue.big_int n ∷ [])) = some n
cancel_data _ = none

module _ (client : Client) where
  -- The first log of the event whose data can be read. A topic that is missing is indexed.
  pub claim_logs : List ℕ → TopupTxInfo → List Log → Parsed
  unfolding claim_data
  claim_logs id i [] = info i
  claim_logs id i (log ∷ logs) =
      let rest = claim_logs id i logs in
      let read = claim_data (client.unpack_event "LockClaimed" log.content) in
      elim log.topics [
        | [] ↦ rest
        | t ∷ ts ↦ if not (bytes_equal t id) then rest else elim ts [
          | [] ↦ panicked
          | u ∷ us ↦ elim us [
            | [] ↦ panicked
            | l ∷ ls ↦
                if_some read
                  (λ d. info (record i {
                    user_from_log = client.topic_address u;
                    lock_id = l;
                    to = d.0;
                    amount = some d.1;
                    contract = log.address;
                  }))
                  rest
          ]
        ]
      ]

  -- A log of fewer than three topics is passed over.
  pub cancel_logs : List ℕ → TopupTxInfo → List Log → TopupTxInfo
  unfolding cancel_data
  cancel_logs id i [] = i
  cancel_logs id i (log ∷ logs) =
      let rest = cancel_logs id i logs in
      let read = cancel_data (client.unpack_event "LockCanceled" log.content) in
      elim log.topics [
        | [] ↦ rest
        | t ∷ ts ↦ elim ts [
          | [] ↦ rest
          | u ∷ us ↦ elim us [
            | [] ↦ rest
            | l ∷ ls ↦
                if not (bytes_equal t id)
                then rest
                else if_some read
                    (λ n. record i {
                      user_from_log = client.topic_address u;
                      lock_id = l;
                      amount = some n;
                      contract = log.address;
                    })
                    rest
          ]
        ]
      ]

  pub parse_claim_locked_tx : ℕ → String → Parsed
  unfolding open_tx arguments claim_input found_receipt with_receipt claim_logs
  parse_claim_locked_tx chain_id tx_hash = answer do
    (tx, is_pending, i) ← open_tx client chain_id tx_hash
    let i' = claim_input i (arguments client "claimLocked" tx)
    r ← found_receipt client tx_hash is_pending i'
    let mined = with_receipt client r i'
    next (if_some (client.event_id "LockClaimed") (λ id. claim_logs id mined r.logs) (info mined))

  pub parse_cancel_locked_tx : ℕ → String → Parsed
  unfolding open_tx arguments cancel_input found_receipt with_receipt cancel_logs
  parse_cancel_locked_tx chain_id tx_hash = answer do
    (tx, is_pending, i) ← open_tx client chain_id tx_hash
    let i' = cancel_input i (arguments client "cancelLock" tx)
    r ← found_receipt client tx_hash is_pending i'
    let mined = with_receipt client r i'
    next (info (if_some (client.event_id "LockCanceled") (λ id. cancel_logs id mined r.logs) mined))
