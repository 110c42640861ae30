-- ===== src/Engine/Process.antt =====
-- internal/engine/engine.go: `MarketEngine` and how it processes one order. The recursion of
-- `processOrder` through `checkStopOrders` takes a depth, the matchers take fuel.
use matchengine.Prelude.{
  ℕ, zero, suc, Bool, true, false, if◌then◌else◌, ◌==◌, ◌&&◌, not, List, [], ◌∷◌, ◌++◌, Option,
  some, none,
}
use matchengine.Outcome.{Outcome, done, exhausted, ◌>>=◌, within, checked}
use matchengine.Decimal.{Decimal, is_zero, greater_than}
use matchengine.Models.Order.{Order, OrderType, OrderStatus, is_finished}
use matchengine.Models.Order
use matchengine.Models.Trade.{Trade, TradeResult, has_trade}
use matchengine.Models.Market.{Market}
use matchengine.Store.{Store, Env, set_order, issue}
use matchengine.OrderBook.{OrderBook, add_order}
use matchengine.Matching.Limit.{Matched, match_limit}
use matchengine.Matching.Market.{match_market}
use matchengine.Matching.Iceberg.{
  IcebergOrders, match_iceberg, register, on_trade, is_iceberg_order,
}
use matchengine.Matching.Stop.{
  StopOrderManager, add_stop_order, remove_stop_order, get_triggered_orders,
}

-- What the event handlers are told. An order event shows the order as it then is.
pub data Event (A : Type 0) : Type 0 where
  traded : Trade A → Event A
  order_updated : Order A → Event A

-- `MarketEngine`, without the matchers, which have no state. `channel` is `orderChan`.
pub record MarketEngine (A : Type 0) : Type 0 where
  pub market : Market A
  pub book : OrderBook A
  pub stops : StopOrderManager A
  pub icebergs : IcebergOrders A
  pub last_price : A
  pub channel : List ℕ

-- One market at work: its engine, the memory, and the events so far. `listening` says that there is
-- a chain of event handlers.
pub record State (A : Type 0) : Type 0 where
  pub store : Store A
  pub engine : MarketEngine A
  pub listening : Bool
  pub events : List (Event A)

abbrev pub is_market_type : OrderType → Bool
is_market_type Order.market = true
is_market_type _ = false

module _ {A : Type 0} where
  unfoldable pub emit : State A → Event A → State A
  emit s e = if s.listening then record s { events = s.events ++ e ∷ [] } else s

  -- `eventHandler.OnOrderUpdate(order)`
  unfoldable pub notify_order : State A → ℕ → State A
  notify_order s r = emit s (order_updated (s.store.orders r))

  abbrev pub set_status : State A → ℕ → OrderStatus → State A
  set_status s r status = record s {
    store = set_order s.store r (record (s.store.orders r) { status = status });
  }

module _ {A : Type 0} ⦃d : Decimal A⦄ (env : Env) where
  unfoldable pub assign_id : State A → ℕ → State A
  assign_id s r =
      let o = s.store.orders r in
      if o.id == 0
      then record s {
        store = issue (set_order s.store r (record o { id = env.next_id s.store.issued }));
      }
      else s

  unfoldable pub iceberg_trade : Store A → Option ℕ → A → IcebergOrders A → IcebergOrders A
  iceberg_trade st none amount m = m
  iceberg_trade st (some r) amount m =
      let id = (st.orders r).id in if is_iceberg_order id m then on_trade st id amount m else m

  -- The loop of `processTrades`. A result with a trade has a taker and a maker.
  unfoldable pub record_trades : TradeResult A → List (Trade A) → State A → State A
  record_trades result [] s = s
  record_trades result (t ∷ ts) s =
      let s₁ = emit (record s { engine = record s.engine { last_price = t.price } }) (traded t) in
      let m₁ = iceberg_trade s.store result.taker_order t.amount s.engine.icebergs in
      let m₂ = iceberg_trade s.store result.maker_order t.amount m₁ in
      record_trades result ts (record s₁ { engine = record s₁.engine { icebergs = m₂ } })

  unfoldable pub notify_if : State A → Option ℕ → State A
  notify_if s none = s
  notify_if s (some r) = notify_order s r

  -- The loop of `checkStopOrders`, given `processOrder`.
  unfoldable pub process_triggered :
      (State A → ℕ → Outcome (State A)) → List ℕ → State A → Outcome (State A)
  process_triggered process [] s = done s
  process_triggered process (r ∷ rs) s =
      process
        (record s {
          engine = record s.engine { stops = remove_stop_order s.store s.engine.stops r };
        })
        r
      >>= process_triggered process rs

  unfoldable pub check_stop_orders : (State A → ℕ → Outcome (State A)) → State A → Outcome (State A)
  check_stop_orders process s =
      if is_zero s.engine.last_price
      then done s
      else checked (get_triggered_orders s.store s.engine.stops s.engine.last_price) >>= λ found.
          process_triggered process found.0
            (record s { store = found.1; engine = record s.engine { stops = found.2 } })

  unfoldable pub process_trades :
      (State A → ℕ → Outcome (State A)) → State A → TradeResult A → Outcome (State A)
  process_trades process s result =
      let s₁ = record_trades result result.trades s in
      let s₂ =
        if has_trade result
        then notify_if (notify_if s₁ result.taker_order) result.maker_order
        else s₁ in
      check_stop_orders process s₂

  abbrev rest_in_book : State A → Store A × OrderBook A → State A
  rest_in_book s added = record s { store = added.0; engine = record s.engine { book = added.1 } }

  -- What is left of the order goes into the book, or is cancelled for a market order.
  unfoldable pub rest_order : State A → ℕ → State A
  rest_order s r =
      let o = s.store.orders r in
      if greater_than o.remain_amount d.zero && not (is_finished o)
      then if is_market_type o.order_type
        then notify_order (set_status s r Order.cancelled) r
        else notify_order (rest_in_book s (add_order s.store s.engine.book r)) r
      else s

  unfoldable pub settle :
      (State A → ℕ → Outcome (State A)) → State A → ℕ → Matched A → Outcome (State A)
  settle process s r m =
      let s₁ = record s { store = m.store; engine = record s.engine { book = m.book } } in
      (if has_trade m.result then process_trades process s₁ m.result else done s₁) >>= λ s₂.
      done (rest_order s₂ r)

  -- The `switch` on the type of the order.
  unfoldable pub dispatch :
      (State A → ℕ → Outcome (State A)) → ℕ → State A → ℕ → OrderType → Outcome (State A)
  dispatch process fuel s r Order.limit =
      within (match_limit env fuel s.store s.engine.book r) >>= settle process s r
  dispatch process fuel s r Order.market =
      within (match_market env fuel s.store s.engine.book r) >>= settle process s r
  dispatch process fuel s r Order.stop_limit =
      done
        (record s { engine = record s.engine { stops = add_stop_order s.store s.engine.stops r } })
  dispatch process fuel s r Order.stop_market =
      done
        (record s { engine = record s.engine { stops = add_stop_order s.store s.engine.stops r } })
  dispatch process fuel s r Order.iceberg =
      let icebergs = register s.store r (s.store.orders r).visible s.engine.icebergs in
      let s₁ = record s { engine = record s.engine { icebergs = icebergs } } in
      within (match_iceberg env fuel s.store s.engine.book r) >>= settle process s₁ r
  dispatch process fuel s r Order.unknown_type = done (set_status s r Order.rejected)

  -- `processOrder`
  unfoldable pub process_order : ℕ → ℕ → State A → ℕ → Outcome (State A)
  process_order zero fuel s r = exhausted
  process_order (suc depth) fuel s r =
      let s₁ = assign_id s r in
      dispatch (process_order depth fuel) fuel s₁ r (s₁.store.orders r).order_type
