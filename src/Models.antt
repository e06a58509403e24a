-- ===== src/Models.antt =====
-- models/: the domain types that the services exchange, each with its pydantic validator.
pub mod Common
pub mod Market
pub mod Strategy
pub mod Trade
mod Tests
