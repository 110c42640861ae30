-- ===== src/Models.antt =====
-- internal/models: orders, trades, markets; `Fills` is about what a fill does to an order.
pub mod Order
pub mod Trade
pub mod Market
pub mod Fills
