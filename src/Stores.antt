-- ===== src/Stores.antt =====
-- services/tick_store.py and services/order_book_store.py: the latest tick and the latest book of
-- each symbol. Every method runs under the store's lock, so it is one step on the dictionary.
pub mod Ticks
pub mod Books
mod Tests
