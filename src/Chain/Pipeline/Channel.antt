-- ===== src/Chain/Pipeline/Channel.antt =====
-- What the channel of chain/evm_tx_q.go makes of the update of an object's turn.
use mathlib.Core.List.{append-nil, append_assoc}
use tradeverse_api.Prelude.{
  ℕ, ◌+◌, ◌<◌, ◌≤◌, List, [], ◌∷◌, ◌++◌, length, ◌≡◌, refl, ap, sym, ◌∙◌, arith,
}
use tradeverse_api.Web.{Clock}
use tradeverse_api.Wallet.Calls.{Write, TopupTxInfo, QueuePassObject, SettleDb}
use tradeverse_api.Wallet.Settle.{update_account_balance}
use tradeverse_api.Chain.Client.{Client}
use tradeverse_api.Chain.Worker.{Outcome, put_off, ignored, lost, published, consume}
use tradeverse_api.Chain.Pipeline.{sent, drained, processed}

module _ (dbs : ℕ → SettleDb) (clocks : ℕ → Clock) where
  abbrev update_writes : TopupTxInfo → ℕ → List Write
  update_writes i k = (update_account_balance (dbs k) (clocks k) i).writes

  drained-append :
      (k : ℕ) (channel : List TopupTxInfo) (i : TopupTxInfo)
      → drained dbs clocks k (channel ++ (i ∷ []))
        ≡ drained dbs clocks k channel ++ update_writes i (k + length channel)
  unfolding drained
  drained-append k [] i = append-nil (update_writes i k) ∙ ap (update_writes i) (omega arith)
  drained-append k (j ∷ js) i =
      let first = update_writes j k in
      let rest = drained dbs clocks (k + 1) js in
      ap (λ ws. first ++ ws)
        (drained-append (k + 1) js i ∙ ap (λ n. rest ++ update_writes i n) (omega arith))
      ∙ sym (append_assoc first rest (update_writes i (k + length (j ∷ js))))

  -- The last update on the channel is received after all others.
  drained_last :
      (channel : List TopupTxInfo) (i : TopupTxInfo)
      → drained dbs clocks 0 (channel ++ (i ∷ []))
        ≡ drained dbs clocks 0 channel ++ update_writes i (length channel)
  drained_last channel i =
      drained-append 0 channel i
      ∙ ap (λ n. drained dbs clocks 0 channel ++ update_writes i n) (omega arith)

  -- An update that fits is received after those that wait.
  pub processed_published :
      (client : Client) (channel : List TopupTxInfo) (o : QueuePassObject) (i : TopupTxInfo)
      → length channel < 500
      → consume client o ≡ published i
      → processed client dbs clocks channel o
        ≡ drained dbs clocks 0 channel ++ update_writes i (length channel)
  unfolding processed sent
  processed_published client channel o i room e =
      ap (λ x. drained dbs clocks 0 (sent x channel)) e
      ∙ ap (drained dbs clocks 0) (ground arith)
      ∙ drained_last channel i

  sent_full :
      (x : Outcome) (channel : List TopupTxInfo) → 500 ≤ length channel → sent x channel ≡ channel
  unfolding sent
  sent_full (published i) channel full = ground arith
  sent_full (put_off t) channel full = refl
  sent_full ignored channel full = refl
  sent_full lost channel full = refl

  -- If the channel is full, the object's turn adds no write: its update is dropped.
  processed_full :
      (client : Client) (channel : List TopupTxInfo) (o : QueuePassObject)
      → 500 ≤ length channel
      → processed client dbs clocks channel o ≡ drained dbs clocks 0 channel
  unfolding processed
  processed_full client channel o full =
      ap (drained dbs clocks 0) (sent_full (consume client o) channel full)

  drained_stuck :
      (x : Outcome) (channel : List TopupTxInfo)
      → ((i : TopupTxInfo) → x ≡ published i → update_writes i (length channel) ≡ [])
      → drained dbs clocks 0 (sent x channel) ≡ drained dbs clocks 0 channel
  unfolding sent
  drained_stuck (published i) channel h =
      ground (arith, drained_last channel i, h i refl, append-nil (drained dbs clocks 0 channel))
  drained_stuck (put_off t) channel h = refl
  drained_stuck ignored channel h = refl
  drained_stuck lost channel h = refl

  -- If no update of the object's writes anything, its turn adds no write, be the channel full or not.
  pub processed_stuck :
      (client : Client) (channel : List TopupTxInfo) (o : QueuePassObject)
      → ((i : TopupTxInfo) → consume client o ≡ published i → update_writes i (length channel) ≡ [])
      → processed client dbs clocks channel o ≡ drained dbs clocks 0 channel
  unfolding processed
  processed_stuck client channel o h = drained_stuck (consume client o) channel h
