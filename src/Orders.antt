-- ===== src/Orders.antt =====
-- services/order_service.py: the orders that the service sends, from their parameters to the record
-- of the exchange's answer. `Quantities` and `Normalization` fit an order to the symbol's filters,
-- `Placement` sends it under the circuit breaker and the risk engine, `Matches` keeps what of each
-- order is still open, `Pnl` counts gains from fills and matches, `Queries` asks for and cancels orders, and `Sessions` says for
-- whom the service may trade.
pub mod Sessions
pub mod Quantities
pub mod Normalization
pub mod Placement
pub mod Matches
pub mod Pnl
pub mod History
pub mod Queries
mod Tests
