-- ===== src/Engine/Api.antt =====
-- internal/engine/engine.go: `Engine` and its calls. Raft, a third-party package behind
-- internal/raft, is an argument: whether this node leads, and the error of the consensus, if any.
use Prim.Native.String.{String}
use text.Mathlib.Text.{◌==◌ as str_eq}
use matchengine.Prelude.{
  ℕ, Bool, true, false, if◌then◌else◌, ltb, not, ◌&&◌, List, [], ◌∷◌, ◌++◌, Option, some, none,
  length, map,
}
use matchengine.Outcome.{Outcome, done, ◌>>=◌}
use matchengine.Prelude.Int.{ℤ}
use matchengine.Decimal.{Decimal}
use matchengine.RbTree
use matchengine.Models.Order.{Order, OrderStatus}
use matchengine.Models.Order
use matchengine.Models.Market.{Market, Ticker, Depth, validate_order}
use matchengine.Store.{Store, Env, set_order, tick}
use matchengine.OrderBook.{
  OrderBook, new_order_book, add_order, remove_order, get_order, get_depth, get_best_bid,
  get_best_ask, get_orders,
}
use matchengine.Matching.Stop.{new_stop_order_manager}
use matchengine.Matching.Iceberg.{new_iceberg_order_manager}
use matchengine.Engine.Process.{MarketEngine, State, Event, order_updated, process_order}

pub data EngineError (E : Type 0) : Type 0 where
  engine_stopped market_not_found invalid_order order_not_found not_leader : EngineError E
  raft_failed : E → EngineError E

-- The whole engine.
pub record Engine (A : Type 0) : Type 0 where
  pub store : Store A
  pub markets : List (String × MarketEngine A)
  pub enable_raft : Bool
  pub running : Bool
  pub listening : Bool
  pub events : List (Event A)

-- A raft node, as the engine sees it. `propose` is nil, or the error of `ProposeOrder`.
pub record RaftNode (A E : Type 0) : Type 0 where
  pub leads : Bool
  pub propose : Order A → Option E

module _ {A : Type 0} where
  unfoldable pub find_market : String → List (String × MarketEngine A) → Option (MarketEngine A)
  find_market symbol [] = none
  find_market symbol ((t, me) ∷ m) = if str_eq t symbol then some me else find_market symbol m

  unfoldable pub set_market :
      String → MarketEngine A → List (String × MarketEngine A) → List (String × MarketEngine A)
  set_market symbol me [] = (symbol, me) ∷ []
  set_market symbol me ((t, other) ∷ m) =
      if str_eq t symbol then (symbol, me) ∷ m else (t, other) ∷ set_market symbol me m

  -- The state of one market, and the engine with that state put back.
  abbrev pub market_state : Engine A → MarketEngine A → State A
  market_state e me = record {
    store = e.store;
    engine = me;
    listening = e.listening;
    events = e.events;
  }

  abbrev pub put_state : Engine A → String → State A → Engine A
  put_state e symbol s = record e {
    store = s.store;
    markets = set_market symbol s.engine e.markets;
    events = s.events;
  }

-- What `SubmitOrder` did: an error; a panic of the validation; the order went through the consensus; it
-- went into the channel; or the channel is full or nil, and the call waits.
pub data Submitted (A E : Type 0) : Type 0 where
  refused : EngineError E → Submitted A E
  panics : Submitted A E
  proposed : Submitted A E
  queued : Engine A → Submitted A E
  waiting : Submitted A E

abbrev pub channel_capacity : ℕ
channel_capacity = 10000

module _ {A : Type 0} ⦃d : Decimal A⦄ {E : Type 0} where
  unfoldable pub propose_order : RaftNode A E → Order A → Submitted A E
  propose_order raft o =
      if not raft.leads
      then refused not_leader
      else elim (raft.propose o) [ none ↦ proposed | some e ↦ refused (raft_failed e) ]

  -- With Raft enabled the channel is nil.
  unfoldable pub send_order : Engine A → MarketEngine A → ℕ → Submitted A E
  send_order e me order =
      if not e.enable_raft && ltb (length me.channel) channel_capacity
      then queued (record e {
        markets =
            set_market (e.store.orders order).symbol
              (record me { channel = me.channel ++ order ∷ [] }) e.markets;
      })
      else waiting

  -- The node is nil until the engine has started one.
  unfoldable pub submit_order : Engine A → Option (RaftNode A E) → ℕ → Submitted A E
  submit_order e raft order =
      let o = e.store.orders order in
      if not e.running then refused engine_stopped else elim (find_market o.symbol e.markets) [
        | none ↦ refused market_not_found
        | some me ↦ elim (validate_order me.market o) [
          | none ↦ panics
          | some valid ↦
              if not valid
              then refused invalid_order
              else if e.enable_raft
              then elim raft [ some node ↦ propose_order node o | none ↦ send_order e me order ]
              else send_order e me order
        ]
      ]

  -- `HandleOrder`: an order from Kafka.
  unfoldable pub handle_order : Engine A → Option (RaftNode A E) → ℕ → Submitted A E
  handle_order e raft order = submit_order e raft order

  unfoldable pub is_leader : Engine A → Option (RaftNode A E) → Bool
  is_leader e raft =
      if not e.enable_raft then true else elim raft [ none ↦ true | some node ↦ node.leads ]

-- An error, or the call's value with the engine after it.
pub data Reply (E B : Type 0) : Type 0 where
  failed : EngineError E → Reply E B
  replied : B → Reply E B

module _ {A : Type 0} ⦃d : Decimal A⦄ where
  abbrev pub price_of : Store A → Option ℕ → A
  price_of st none = d.zero
  price_of st (some level) = (st.levels level).price

  abbrev pub total_of : Store A → Option ℕ → A
  total_of st none = d.zero
  total_of st (some level) = (st.levels level).total

  unfoldable pub clear_book : MarketEngine A → MarketEngine A
  clear_book me = record me { book = new_order_book me.market.symbol }

module _ {A : Type 0} ⦃d : Decimal A⦄ (env : Env) where
  -- One round of `processOrders`: the first order of the channel.
  unfoldable pub process_next : ℕ → ℕ → State A → Outcome (State A)
  process_next depth fuel s = elim s.engine.channel [
    | [] ↦ done s
    | order ∷ rest ↦
        process_order env depth fuel (record s { engine = record s.engine { channel = rest } })
          order
  ]

  unfoldable pub cancel_found :
      Engine A → String → MarketEngine A → ℕ → Store A → OrderBook A → Engine A
  cancel_found e symbol me order st ob =
      let o = record (st.orders order) {
        status = Order.cancelled;
        updated_at = env.clock st.ticks;
      } in
      record e {
        store = tick (set_order st order o);
        markets = set_market symbol (record me { book = ob }) e.markets;
        events = if e.listening then e.events ++ order_updated o ∷ [] else e.events;
      }

module _ {A : Type 0} ⦃d : Decimal A⦄ (env : Env) {E : Type 0} where
  -- `ApplyOrder`, with the depth and fuel of `processOrder`.
  unfoldable pub apply_order : ℕ → ℕ → Engine A → ℕ → Reply E (Outcome (Engine A))
  apply_order depth fuel e order =
      let symbol = (e.store.orders order).symbol in
      elim (find_market symbol e.markets) [
        | none ↦ failed market_not_found
        | some me ↦ replied (
            process_order env depth fuel (market_state e me) order >>= λ s.
            done (put_state e symbol s))
      ]

  unfoldable pub cancel_order : Engine A → String → ℕ → Reply E (ℕ × Engine A)
  cancel_order e symbol id = elim (find_market symbol e.markets) [
    | none ↦ failed market_not_found
    | some me ↦
        let removed = remove_order e.store me.book id in
        elim removed.0 [
          | none ↦ failed order_not_found
          | some order ↦ replied (order, cancel_found env e symbol me order removed.1 removed.2)
        ]
  ]

  unfoldable pub find_order_in : Engine A → String → ℕ → Reply E ℕ
  find_order_in e symbol id = elim (find_market symbol e.markets) [
    | none ↦ failed market_not_found
    | some me ↦ elim (get_order me.book id) [ none ↦ failed order_not_found | some r ↦ replied r ]
  ]

  -- None is the panic of the book's `GetDepth`.
  unfoldable pub depth_of : Engine A → String → ℤ → Reply E (Option (Depth A))
  depth_of e symbol limit = elim (find_market symbol e.markets) [
    | none ↦ failed market_not_found
    | some me ↦ replied (get_depth env e.store me.book limit)
  ]

  unfoldable pub ticker_of : Engine A → String → Reply E (Ticker A)
  ticker_of e symbol = elim (find_market symbol e.markets) [
    | none ↦ failed market_not_found
    | some me ↦ replied (record {
      symbol = symbol;
      last_price = me.last_price;
      bid_price = price_of e.store (get_best_bid me.book);
      bid_amount = total_of e.store (get_best_bid me.book);
      ask_price = price_of e.store (get_best_ask me.book);
      ask_amount = total_of e.store (get_best_ask me.book);
      high_24h = d.zero;
      low_24h = d.zero;
      volume_24h = d.zero;
      amount_24h = d.zero;
      timestamp = env.clock e.store.ticks;
    })
  ]

module _ {A : Type 0} ⦃d : Decimal A⦄ where
  -- `GetAllOrders`: the orders of the bids, then of the asks, market by market.
  unfoldable pub collect_orders : Store A → A → ℕ → List ℕ → Bool × List ℕ
  collect_orders st price level found = (true, found ++ get_orders st level)

  unfoldable pub book_orders : Store A → OrderBook A → List ℕ
  book_orders st ob =
      RbTree.ascend (collect_orders st) ob.asks (RbTree.ascend (collect_orders st) ob.bids [])

  unfoldable pub get_all_orders : Engine A → List (String × List ℕ)
  get_all_orders e =
      map (λ (m : String × MarketEngine A). (m.0, book_orders e.store m.1.book)) e.markets

  unfoldable pub add_orders : Store A → OrderBook A → List ℕ → Store A × OrderBook A
  add_orders st ob [] = (st, ob)
  add_orders st ob (r ∷ rs) = let (st', ob') = add_order st ob r in add_orders st' ob' rs

  unfoldable pub restore_into : Engine A → List (String × List ℕ) → Engine A
  restore_into e [] = e
  restore_into e ((symbol, orders) ∷ rest) = elim (find_market symbol e.markets) [
    | none ↦ restore_into e rest
    | some me ↦
        let added = add_orders e.store me.book orders in
        restore_into
          (record e {
            store = added.0;
            markets = set_market symbol (record me { book = added.1 }) e.markets;
          })
          rest
  ]

  unfoldable pub restore_orders : Engine A → List (String × List ℕ) → Engine A
  restore_orders e orders =
      restore_into
        (record e {
          markets = map (λ (m : String × MarketEngine A). (m.0, clear_book m.1)) e.markets;
        })
        orders

  -- The market that `Start` sets up.
  unfoldable pub start_market : Market A → MarketEngine A
  start_market market = record {
    market = market;
    book = new_order_book market.symbol;
    stops = new_stop_order_manager;
    icebergs = new_iceberg_order_manager;
    last_price = d.zero;
    channel = [];
  }

  unfoldable pub start_markets :
      List (Market A) → List (String × MarketEngine A) → List (String × MarketEngine A)
  start_markets [] ms = ms
  start_markets (m ∷ rest) ms = start_markets rest (set_market m.symbol (start_market m) ms)

module _ {A : Type 0} where
  unfoldable pub stop : Engine A → Engine A
  stop e = record e { running = false }
