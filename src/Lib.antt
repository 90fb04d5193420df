-- ===== src/Lib.antt =====
-- The backend of the Tradeverse game platform: players top up a balance from the chain, spend it on
-- plays of the games that third parties run, join seasons, and withdraw. This library models the
-- handlers that move money or change the state of a play, the settlement of chain transactions from
-- the parsed logs to the balance, the work queues, the logins and their tokens, the OAuth codes, the
-- console of the developers, the user numbers, the Merkle trees and the transfers of other chains.
--
-- How the parts interact. A game's server calls the handlers of api/oauth/jwt_middleware.go with a
-- player's token: GameSessionInitHandler opens a session, GameStartHandler freezes the price of a
-- play, GameEndHandler turns the freeze into a spend and ends the session. The player's own pages
-- call api/http/controller/auth/user.go: ConfirmGameSession, JoinSeason, BalanceTopupReport and
-- BalanceWithdrawRequest. A report puts a transaction hash on a queue of system/queue_enhance.go; a
-- worker (chain/evm_tx_q.go) parses the transaction (chain/evm_tx_parse.go) and publishes it
-- on a channel of 500 updates, from which main.go hands it to UpdateAccountBalance of
-- service/account_balance.go, which settles the flow and the balance. A game gets its player's token
-- from api/oauth/handler.go: AuthorizeHandler stores a code, TokenHandler exchanges it, and
-- AuthzMiddleware reads the token of every later call. A player registers and logs in at
-- api/http/controller/preauth, which hands out an encrypted token; the middlewares of
-- api/interceptor check the signature of a request and read the token. A developer logs in there as
-- well, and takes his games from a draft to the audit at api/http/controller/developer.
--
-- Files.
--   Prelude: shared names, lists and Boolean tests over native numbers, uint64 arithmetic (Words),
--     and the early returns of a handler (Exits): a stage ends with the handler's outcome or goes
--     on with a value.
--   Codes, Web, Orm: the result codes (codes/dict.go), the response (api/common/res.go), the clock,
--     and the outcomes of a GORM call.
--   Model: the tables and constants of model/flow.go, model/game.go and model/user.go.
--   Oapi: GameSessionInitHandler (SessionInit), GameStartHandler (GameStart), GameEndHandler
--     (GameEnd), their calls (Calls), the abstract ledger (Ledger) and sequences of plays (Trace).
--     Beside a handler stand its laws (Laws) and its successful run (Runs).
--   Funds: FreezeHandler, UnFreezeHandler and SpendHandler.
--   Wallet: UpdateAccountBalance (Settle), BalanceTopupReport (Report), BalanceWithdrawRequest
--     (Withdraw), BalanceWithdrawCheck (Withdraw/Check), bigIntToHex32 and hex32ToBigInt (Nonce).
--   Season: JoinSeason, CheckSeasonJoined (Check), and the lock map userSeasonLock (Locks).
--   Confirm: ConfirmGameSession.
--   Queue: SlotQueue of system/queue.go (Slot), RichQueue of system/queue_enhance.go (Rich).
--   Chain: what the chain code calls (Client), the parsers of chain/evm_tx_parse.go (Parse, and
--     Parse/Locks for claims and cancels), the consumer of chain/evm_tx_q.go (Worker), checkTx of
--     main.go (Recheck), and the way from the queue by the channel of
--     updates to the database (Pipeline).
--   Oauth: AuthorizeHandler and TokenHandler of api/oauth/handler.go, AuthzMiddleware of
--     api/oauth/jwt_middleware.go.
--   Tokens: the texts of the tokens and their numerals (Texts, Numerals), Encrypt and Decrypt of
--     security/aes.go, TokenInterceptor and DevTokenInterceptor (Interceptors), HttpInterceptor and
--     WSInterceptor (Channels) of api/interceptor; the life of a token (Life) and what lets a request
--     through (Signed).
--   Login: the handlers of api/http/controller/preauth, by wallet (Wallet, with its sessions in
--     Entered and ComputeAuthDigest of model/chao.go in Signatures), by password (Password) and of
--     developers (Developers); VerifyWallet of api/http/controller/auth/user.go (Binding).
--   Console: the handlers of api/http/controller/developer/index.go (Games, Testing, Settings, Keys,
--     Sessions) and the state machine of a game's status (Status, Runs).
--   Transfers: chain/okx_transfer.go, its tables (Indices, Tables, Names), the lookups (Index), the
--     form of a transaction (Detail) and the client (Client).
--   Numbers: Generate of system/rand.go. Random: its random texts and those of the console.
--   Email: SendEmail and VerifyEmail of api/http/controller/auth/user.go.
--   Merkle: the trees of tools/merkletree.go; Links and Laws follow a path from a leaf to the root.
--
-- Conventions. A handler is a function of the database's answers, the clock and the request, and
-- gives the response and the list of its durable writes: the writes of a transaction are listed
-- only if it commits. Where the code does not look at the error of a call (in Login and Console),
-- the call is listed whether it succeeds or not. What gin makes of a request, by its binding tags,
-- is the form in which the request comes. A database call is a field of a record of functions;
-- nothing is assumed of its answers unless a theorem says so, and it may fail at any call. The
-- n-th time.Now() in the text of a handler is `clock n`. The type Decimal of shopspring/decimal is
-- a parameter. A uint64 is a natural number with its wrap-around written out in `add64` and
-- `sub64`.
--
-- Bounds and fuel. The consumer's inner loop (`drain`) runs on fuel, and one round more than the
-- queue has items is enough; `bytes_from` has as many rounds as the number itself, each of which
-- divides it by 256. A Merkle tree is built on one round more than it has leaves: every round
-- makes a level of two nodes or more shorter. The decimals of a uint64 are printed with twenty
-- steps, as it has twenty digits at most. All else is structural.
--
-- Not modelled: the cookie session, the chain scanner, the lists of
-- api/http/controller/auth/user.go, and the helpers; what only does input and output (market data,
-- the texts of mails, web sockets, caches, configuration, logging). Panics are modelled only where
-- the code itself can panic: at a nil amount, at a nil lock expiry, at a log with too few
-- topics, and at a generator that is nil. Log lines are left out.
pub mod Prelude
pub mod Codes
pub mod Web
pub mod Orm
pub mod Model
pub mod Oapi
pub mod Funds
pub mod Wallet
pub mod Season
pub mod Confirm
pub mod Queue
pub mod Email
pub mod Merkle
pub mod Numbers
pub mod Oauth
pub mod Tokens
pub mod Random
pub mod Login
pub mod Console
pub mod Transfers
pub mod Chain
