-- ===== src/Transfers/Amounts.antt =====
-- Which amount a transfer of a token is given.
use tradeverse_api.Prelude.{
  String, len, List, [], eq_iff, ◌∷◌, ◌≡◌, ◌≢◌, arith, refl, sym, ap, subst, ◌∙◌,
}
use tradeverse_api.Transfers.Index.{TextLib, normalize_address}
use tradeverse_api.Transfers.Detail.{
  Party, InternalTransfer, TokenTransfer, TransactionDetail, TransferInfo, with_sender,
  with_receiver, with_internal, with_asset, new_info, normalize_addresses, plain_amount,
  parse_transaction_detail,
}

module _ (lib : TextLib) where
  received :
      (p : Party) (ps : List Party) (info : TransferInfo)
      → len p.amount ≢ 0
      → ((with_receiver lib (p ∷ ps) info).amount ≡ plain_amount lib p.amount)
        × ((with_receiver lib (p ∷ ps) info).symbol ≡ info.symbol)
  unfolding with_receiver
  received p ps info h = ground arith

  internal_kept :
      (is : List InternalTransfer) (info : TransferInfo)
      → len info.amount ≢ 0
      → ((with_internal lib is info).amount ≡ info.amount)
        × ((with_internal lib is info).symbol ≡ info.symbol)
  unfolding with_internal
  internal_kept [] info h = ground arith
  internal_kept (i ∷ is) info h = ground arith

  token_filled :
      (chain_index : String) (tx : TransactionDetail) (token : TokenTransfer)
      (ts : List TokenTransfer) (info : TransferInfo)
      → len info.amount ≢ 0
      → len info.symbol ≡ 0
      → chain_index ≢ "501"
      → let end =
          normalize_addresses lib (with_asset chain_index tx (token ∷ ts) info) chain_index in
        (end.amount ≡ info.amount)
        × (end.symbol ≡ token.token_symbol)
        × (end.token_address ≡ normalize_address lib token.token_address chain_index)
  unfolding with_asset normalize_addresses
  token_filled chain_index tx token ts info h k other = ground (arith, eq_iff chain_index "501")

  sender_plain :
      (ps : List Party) (tx : TransactionDetail) (chain_index : String)
      → (with_sender ps (new_info tx chain_index)).symbol ≡ ""
  unfolding with_sender new_info
  sender_plain [] tx chain_index = refl
  sender_plain (p ∷ ps) tx chain_index = refl

abbrev finished :
    TextLib → String → TransactionDetail → List Party → List TokenTransfer → TransferInfo
finished lib chain_index tx ds us =
    let start = with_sender tx.from_details (new_info tx chain_index) in
    let info = with_internal lib tx.internal_details (with_receiver lib ds start) in
    normalize_addresses lib (with_asset chain_index tx us info) chain_index

-- The amount of the party, with the symbol and the address of the token.
abbrev pub Labelled : TextLib → String → Party → TokenTransfer → TransferInfo → Type 0
Labelled lib chain_index p token info =
    (info.amount ≡ plain_amount lib p.amount)
    × (info.symbol ≡ token.token_symbol)
    × (info.token_address ≡ normalize_address lib token.token_address chain_index)

-- On every chain but Solana: if the transaction has a first receiver with an amount, "0"
-- included, the transfer of a token takes the amount from this receiver, which is in the coin of
-- the chain; the symbol and the address are those of the token, and the amount of the token is
-- left out.
pub token_amount_hidden :
    (lib : TextLib) (tx : TransactionDetail) (chain_index : String) (p : Party) (ps : List Party)
    (token : TokenTransfer) (ts : List TokenTransfer)
    → tx.to_details ≡ p ∷ ps
    → tx.token_details ≡ token ∷ ts
    → chain_index ≢ "501"
    → len p.amount ≢ 0
    → len (plain_amount lib p.amount) ≢ 0
    → Labelled lib chain_index p token (parse_transaction_detail lib tx chain_index)
unfolding parse_transaction_detail
token_amount_hidden lib tx chain_index p ps token ts to tokens other paid shown =
    let start = with_sender tx.from_details (new_info tx chain_index) in
    let given = with_receiver lib (p ∷ ps) start in
    let info = with_internal lib tx.internal_details given in
    let (amount, symbol) = received lib p ps start paid in
    let (amount', symbol') =
      internal_kept lib tx.internal_details given (subst (λ a. len a ≢ 0) (sym amount) shown) in
    let (end, named, address) =
      token_filled lib chain_index tx token ts info
        (subst (λ a. len a ≢ 0) (sym (amount' ∙ amount)) shown)
        (ap len (symbol' ∙ (symbol ∙ sender_plain lib tx.from_details tx chain_index))) other in
    subst (λ ds. Labelled lib chain_index p token (finished lib chain_index tx ds tx.token_details))
      (sym to)
      (subst (λ us. Labelled lib chain_index p token (finished lib chain_index tx (p ∷ ps) us))
        (sym tokens) (end ∙ (amount' ∙ amount), named, address))
