-- ===== src/Lib.antt =====
-- The matching engine of this repository, written in Go: what its parts do, and what is proved of them.
--
-- An order comes to `Engine` (internal/engine), which validates it against its `Market` and hands it,
-- directly, through a channel or through Raft, to the `MarketEngine` of its symbol. `processOrder`
-- picks a matcher (internal/matching) by the order's type; the matcher trades the order against the
-- `OrderBook` (internal/orderbook), whose two sides are red-black trees of price levels. What is left
-- rests in the book, trades and order updates go to the event handlers, and a trade may trigger stop
-- orders. Ids come from the Snowflake generator (pkg/utils).
--
-- Requests come in through the servers (internal/server), and an order that goes through Raft comes to
-- the engine of every node from the replicated state machine (internal/raft).
--
-- Files, and the code that each is about:
--   Prelude, Outcome: shared names, lists, tests, integers; results of code that panics or loops.
--   Decimal: shopspring/decimal, third-party, as an interface with laws of exact arithmetic. `mul`,
--     `div` and `mod` have no laws. Decimal.Milli meets it, in thousandths, for the examples.
--   RbTree: internal/orderbook/rbtree.go. `Defs`, `Insert`, `Delete` and `Query` are `Insert`,
--     `Delete`, `Get`, `Min`, `Max`, `Size`, `Ascend` and what they call; a path of frames stands for
--     the parent pointers. `Spec` is a sorted association list; `InOrder`, `Refine`, `Valid` and
--     `Ends` are the proofs about it; `Balance` is about the colours: `Grow` for `Insert`, `Turn`,
--     `Shrink` and `Erase` for `Delete`, `Depth` for how far a search goes.
--   Models: internal/models/{order,trade,market}.go; Models.Fills is about `UpdateFilled`.
--   Store: the memory. Orders and price levels are shared by pointers, and stand for references.
--   OrderBook: internal/orderbook/orderbook.go, `Level` for `PriceLevel` and `Book` for `OrderBook`;
--     `Index` and `Snapshot` are about the index by id and about `GetDepth`; `Consistent` ties the
--     trees, the levels and the index together, with a child for each part of `AddOrder` and
--     `RemoveOrder`; `Reachable` is a book under any calls of these two.
--   Matching: internal/matching. `Fill` and `Limit` are limit.go, `Market` is market.go, `Iceberg` is
--     iceberg.go, `Stop` is stop.go. One trade is in `Step` and `Ready`, one level in `Crossing` and
--     `Sweep`, the loop over the levels in `Loop`, `Side`, `Cleared`, `Plan` and `Walk`, the calls in
--     `Priority` and `OneLevel`; `Fresh`, `Supply` and `Composed` are about matching against a
--     consistent book; `Divergence` is about iceberg.go.
--   Engine: internal/engine. `Process` is `processOrder` and what it calls, `Api` the methods of
--     `Engine`, `Events` is event_handler.go, `Handlers` is kafka_handler.go and storage_handler.go.
--     `Submission` is about `SubmitOrder`, `Triggered` about triggered stop orders, `Cancelled` about
--     `CancelOrder`, `Restored` about `GetAllOrders` and `RestoreOrders`.
--   Raft: internal/raft/node.go. `Json` is what is encoded, `Machine` the replicated state machine and
--     its snapshots, `Node` the proposals; `Replication` is about a log of proposals, `Snapshots` about
--     snapshots and errors. The encoding and the applier are interfaces.
--   Server: internal/server. `Convert` is the messages and `Grpc` the calls of grpc_server.go, `Http` the
--     handlers of http_server.go; `Answers` is about the calls, `Agreement` about the two servers. The
--     text of decimals, the web library and the data base are interfaces.
--   Snowflake: pkg/utils/sequence.go; Snowflake.Ids is about its ids.
--   Tests: each theorem of the list below at a concrete input.
--
-- Fuel and bounds. The loop in a price level runs with one round more than the level has orders. The
-- loops over levels take fuel: more than the opposite side has levels is enough. The recursion of
-- `processOrder` takes a depth. The wait of the id generator takes fuel. Numbers are natural numbers;
-- `pack_id` wraps at 64 bits. A method of the book is one step, since its mutex is held through it.
-- The clock, the ids of trades and the largest capacity that `make` gives are arguments; a larger or
-- negative one is a panic, as a tick of 0 is in the validation. An order that was submitted is shared:
-- its answer is made after whatever the other goroutines did in between, a function from engine to
-- engine. A snapshot shares its orders too, and they are read when it is written. Decoding allocates
-- a new identity for a stop price, and is told where.
--
-- Not modelled: the routes of the HTTP server, the consumer and producer, the storage and the set-up
-- of Raft, which call libraries; the configuration and start-up; formatting of numbers; generated
-- code.
pub mod Prelude
pub mod Decimal
pub mod RbTree
pub mod Models
pub mod Store
pub mod OrderBook
pub mod Matching
pub mod Engine
pub mod Outcome
pub mod Snowflake
pub mod Raft
pub mod Server
mod Tests
