-- ===== src/Lib.antt =====
-- Verification of the trading backend (backend/): a service that reads Binance market data, builds
-- candles, follows an SMA/EMA crossover strategy and places Spot Demo orders under risk limits.
--
-- A tick of the stream goes to the tick store and the candle service; each finalized candle goes to
-- the strategy service, whose signals go to the order service; the order service reserves capital
-- in the risk engine before an order and keeps the positions of the strategy, which each tick marks
-- and may exit. Every service holds one lock, so a method under its lock is one step on the
-- service's state here, and a method that lets go of the lock in between is several steps.
--
-- Base       lists, dictionaries in insertion order, integers, texts as lists of code points
-- Decimal    Python's `decimal.Decimal`: a value counts quanta of 10^-64, and each operation rounds
--            half-even to 28 significant digits
-- Models     backend/models: enums, records and validators; times are microseconds since the epoch
-- Stores     backend/services/tick_store.py (`update`, `get`, `remove`, `snapshot`, `clear`) and
--            order_book_store.py
-- Candles    backend/services/candle_service.py: `process_tick` as `tick_outcome` per symbol,
--            `_append_gap_fillers` as `gap_fillers`, `_finalize_due` as `finalize_due`
-- Strategy   backend/services/strategy_service.py: `_calculate` as `calculate`, `process_candle`
-- Exchange   orders, symbol rules, balances and answers of the exchange, and the errors
-- Risk       backend/services/pretrade_risk.py: `reserve`, `release`, `acknowledge` and the rest; its
--            ledger of outstanding reservations is the abstract view
-- Positions  backend/services/order_service.py, the part that keeps positions: the locked blocks of
--            `process_signal`, `process_tick`, `square_off`, `_reconcile_strategy_positions`, `_enter`
--            and `_exit`, and `Positions.Interleaving` for every order in which they can run
-- Orders     the same file, the part that sends orders: `_normalize_order` and `_validate_filters` in
--            `Orders.Normalization`, `place_order` and reconciliation_service.py in
--            `Orders.Placement`, `_record_order_match` and `square_off_order` in `Orders.Matches`,
--            `pnl` in `Orders.Pnl`, `_all_trades` in `Orders.History`, `query_order`, `cancel_order`,
--            `_reconcile_account_reservations` and `_resolve_protectives` in `Orders.Queries`,
--            sessions and strategy windows in `Orders.Sessions`
-- Streams    backend/services/market_data.py: subscriptions and messages of the stream
-- Broadcast  backend/services/tick_broadcaster.py: browser clients and their depth subscriptions
-- Database   backend/services/db_handler.py: the tables with their keys and references, and every
--            statement on them under the name of its method; `Database.Statements` is any sequence
-- Accounts   backend/api/auth_routes.py and backend/api/security.py: `signup`, `login`, `logout`,
--            `require_user`, the keys of an account, `hash_password` and `verify_password`,
--            and what services/order_service.py restores at start-up in `Accounts.Restart`
--
-- Bounds: the gap-filling loop has the source's own bound, `history_size` fillers, as its fuel. The
-- rounding of a decimal tries one scale of ten after another; a number has at most as many digits
-- as its value, which is its fuel. The queries for an unknown order are as many as the
-- setting says; `all_trades` takes one unit of fuel for each page of fills that it requests.
--
-- Not modelled: HTTP and websocket traffic, request signing, encryption, the connection to the
-- database and its lease, the trading routes, the wiring at start-up and the frontend. What the
-- exchange answers (accounts, prices, fills) is a parameter. A run of `place_order` is one step,
-- with nothing else in between, and so is a request for a subscription of the stream. Nor are
-- modelled the waits of the reconnection loop, writes of the risk engine that fail while
-- `place_order` or the reconciliation runs, and exceptions other than the code's own where no
-- comment speaks of them. A sum of decimals that needs more than 28 digits is rounded as in Python,
-- and a theorem that needs exact sums says so.
pub mod Base
pub mod Decimal
pub mod Models
pub mod Stores
pub mod Candles
pub mod Strategy
pub mod Exchange
pub mod Risk
pub mod Positions
pub mod Orders
pub mod Streams
pub mod Broadcast
pub mod Database
pub mod Accounts
