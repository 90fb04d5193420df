-- ===== src/Chain/Parse/Locks/Laws.antt =====
-- What the parsers of a claim and of a cancel tell of a transaction's receipt.
use tradeverse_api.Prelude.{
  ℕ, String, List, [], ◌∷◌, Option, some, none, ◌≡◌, refl, arith, Bool, next, answer, ◌>>=◌,
  answer-bind, subst, sym,
}
use tradeverse_api.Wallet.Calls.{TopupTxInfo}
use tradeverse_api.Chain.Client.{Tx, Log, Receipt, AbiValue, Client}
use tradeverse_api.Chain.Parse.{
  Parsed, info, error, panicked, if_some, arguments, open_tx, found_receipt, with_receipt,
}
use tradeverse_api.Chain.Parse.Laws.{Same, Told, Honest, parser-Honest, if_some_all}
use tradeverse_api.Chain.Parse.Locks.{
  claim_input, cancel_input, claim_logs, cancel_logs, parse_claim_locked_tx, parse_cancel_locked_tx,
}

claim_input-Same : (j : TopupTxInfo) (v : Option (List AbiValue)) → Same j (claim_input j v)
unfolding claim_input
claim_input-Same j v = ground arith

cancel_input-Same : (j : TopupTxInfo) (v : Option (List AbiValue)) → Same j (cancel_input j v)
unfolding cancel_input
cancel_input-Same j v = ground arith

module _ (client : Client) (h : String) where
  claim_logs-Honest :
      (id : List ℕ) (i : TopupTxInfo) (logs : List Log)
      → Told client h i
      → Honest client h (claim_logs client id i logs)
  unfolding claim_logs
  claim_logs-Honest id i [] told = told
  claim_logs-Honest id i (log ∷ logs) told = ground (arith, claim_logs-Honest id i logs told)

  cancel_logs-Same :
      (id : List ℕ) (i : TopupTxInfo) (logs : List Log) → Same i (cancel_logs client id i logs)
  unfolding cancel_logs
  cancel_logs-Same id i [] = (refl, refl)
  cancel_logs-Same id i (log ∷ logs) = ground (arith, cancel_logs-Same id i logs)

module _ (client : Client) (chain_id : ℕ) (h : String) where
  abbrev claim_finish : Receipt → TopupTxInfo → Parsed
  claim_finish r j =
      if_some (client.event_id "LockClaimed") (λ id. claim_logs client id j r.logs) (info j)

  abbrev cancel_finish : Receipt → TopupTxInfo → TopupTxInfo
  cancel_finish r j =
      if_some (client.event_id "LockCanceled") (λ id. cancel_logs client id j r.logs) j

  claim_finish-Honest :
      (r : Receipt) (j : TopupTxInfo) → Told client h j → Honest client h (claim_finish r j)
  claim_finish-Honest r j told =
      if_some_all (Honest client h) (client.event_id "LockClaimed")
        (λ id. claim_logs client id j r.logs) (info j) told
        (λ id. claim_logs-Honest client h id j r.logs told)

  cancel_finish-Honest :
      (r : Receipt) (j : TopupTxInfo) → Told client h j → Told client h (cancel_finish r j)
  cancel_finish-Honest r j told =
      if_some_all (Told client h) (client.event_id "LockCanceled")
        (λ id. cancel_logs client id j r.logs) j told
        (λ id. ground (arith, cancel_logs-Same client h id j r.logs))

  pub parse_claim_locked_tx-Honest : Honest client h (parse_claim_locked_tx client chain_id h)
  unfolding parse_claim_locked_tx
  parse_claim_locked_tx-Honest =
      parser-Honest client chain_id h (λ tx i. claim_input i (arguments client "claimLocked" tx))
        claim_finish (λ tx j. claim_input-Same j (arguments client "claimLocked" tx))
        claim_finish-Honest

  pub parse_cancel_locked_tx-Honest : Honest client h (parse_cancel_locked_tx client chain_id h)
  unfolding parse_cancel_locked_tx
  parse_cancel_locked_tx-Honest =
      parser-Honest client chain_id h (λ tx i. cancel_input i (arguments client "cancelLock" tx))
        (λ r j. info (cancel_finish r j))
        (λ tx j. cancel_input-Same j (arguments client "cancelLock" tx)) cancel_finish-Honest

abbrev pub NoAmount : Parsed → Type 0
NoAmount (info i) = i.amount ≡ none
NoAmount error = Unit
NoAmount panicked = Unit

module _ (client : Client) (chain_id : ℕ) (h : String) (r : Receipt)
    (er : client.transaction_receipt h ≡ some r) (el : r.logs ≡ []) where
  opened_no_amount :
      (tx : Tx) (p : Bool) (i : TopupTxInfo)
      → open_tx client chain_id h ≡ next (tx, p, i)
      → i.amount ≡ none
  unfolding open_tx
  opened_no_amount tx p i e = ground arith

  found_here :
      (p : Bool) (i : TopupTxInfo) (r' : Receipt) → found_receipt client h p i ≡ next r' → r' ≡ r
  unfolding found_receipt
  found_here p i r' e = ground arith

  -- Without logs there is no amount: `input` reads none, and `finish` has nothing to read.
  parser-NoAmount :
      (input : Tx → TopupTxInfo → TopupTxInfo) (finish : Receipt → TopupTxInfo → Parsed)
      → ((tx : Tx) (j : TopupTxInfo) → (input tx j).amount ≡ j.amount)
      → ((j : TopupTxInfo) → j.amount ≡ none → NoAmount (finish r j))
      → NoAmount (
          answer (
            open_tx client chain_id h >>= λ o. found_receipt client h o.1 (input o.0 o.2) >>= λ r'.
            next (finish r' (with_receipt client r' (input o.0 o.2)))))
  unfolding open_tx found_receipt with_receipt
  parser-NoAmount input finish same keeps =
      answer-bind NoAmount (open_tx client chain_id h) _ (ground arith) (λ o e.
        answer-bind NoAmount (found_receipt client h o.1 (input o.0 o.2)) _
          (ground (arith, opened_no_amount o.0 o.1 o.2 e, same o.0 o.2))
          (λ r' e'.
            subst (λ x. NoAmount (finish x (with_receipt client r' (input o.0 o.2))))
              (sym (found_here o.1 (input o.0 o.2) r' e'))
              (keeps (with_receipt client r' (input o.0 o.2))
                (ground (arith, opened_no_amount o.0 o.1 o.2 e, same o.0 o.2)))))

  pub claim_unlogged : NoAmount (parse_claim_locked_tx client chain_id h)
  unfolding parse_claim_locked_tx claim_input claim_logs
  claim_unlogged =
      parser-NoAmount (λ tx i. claim_input i (arguments client "claimLocked" tx))
        (claim_finish client chain_id h) (λ tx j. ground arith)
        (λ j e.
          if_some_all NoAmount (client.event_id "LockClaimed") (λ id. claim_logs client id j r.logs)
            (info j) e (λ id. ground arith))

  pub cancel_unlogged : NoAmount (parse_cancel_locked_tx client chain_id h)
  unfolding parse_cancel_locked_tx cancel_input cancel_logs
  cancel_unlogged =
      parser-NoAmount (λ tx i. cancel_input i (arguments client "cancelLock" tx))
        (λ r j. info (cancel_finish client chain_id h r j)) (λ tx j. ground arith)
        (λ j e.
          if_some_all (λ k. k.amount ≡ none) (client.event_id "LockCanceled")
            (λ id. cancel_logs client id j r.logs) j e (λ id. ground arith))
