-- ===== src/OrderBook.antt =====
-- internal/orderbook/orderbook.go: price levels (`Level`), the order book (`Book`), its index (`Index`)
-- and its depth (`Snapshot`).
mod Level
mod Book
pub mod Index
pub mod Snapshot
pub mod Elements
pub mod Consistent
pub mod Reachable
unfoldable pub use Level.*
unfoldable pub use Book.*
