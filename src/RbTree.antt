-- ===== src/RbTree.antt =====
-- internal/orderbook/rbtree.go: the red-black tree of price levels. `Spec` is its abstract view.
mod Defs
mod Insert
mod Delete
mod Query
pub mod Spec
pub mod InOrder
pub mod Refine
pub mod Valid
pub mod Ends
pub mod Balance
unfoldable pub use Defs.*
unfoldable pub use Insert.*
unfoldable pub use Delete.*
unfoldable pub use Query.*
