-- ===== src/Matching/Limit.antt =====
-- internal/matching/limit.go: `LimitMatcher`, and `RBTreeWrapper`. A loop takes fuel, and `none`
-- means that the fuel ran out.
use matchengine.Prelude.{
  ℕ, zero, suc, Bool, true, false, if◌then◌else◌, ◌&&◌, Option, some, none, length,
}
use matchengine.Decimal.{Decimal, greater_than, less_than, less_than_or_equal, min_of}
use matchengine.RbTree
use matchengine.RbTree.{RbTree}
use matchengine.Models.Order.{Order, TimeInForce, ioc, fok, gtx, is_buy, is_sell}
use matchengine.Models.Trade.{TradeResult, new_trade_result}
use matchengine.Store.{Store, Env}
use matchengine.OrderBook.{OrderBook, get_first, is_empty}
use matchengine.Matching.Fill.{fill_maker, best_opposite, delete_opposite}

-- What a matcher returns beside its result: the store and the book.
pub record Matched (A : Type 0) : Type 0 where
  pub store : Store A
  pub book : OrderBook A
  pub result : TradeResult A

abbrev pub is_fok : TimeInForce → Bool
is_fok fok = true
is_fok _ = false

-- IOC and GTX leave the loop after one level.
abbrev pub is_one_level : TimeInForce → Bool
is_one_level ioc = true
is_one_level gtx = true
is_one_level _ = false

module _ {A : Type 0} ⦃d : Decimal A⦄ (env : Env) where
  unfoldable pub match_at_price_level :
      ℕ → Store A → TradeResult A → ℕ → ℕ → Option (Bool × Store A × TradeResult A)
  match_at_price_level zero st result taker level = none
  match_at_price_level (suc fuel) st result taker level =
      elim (greater_than (st.orders taker).remain_amount d.zero) [
        | false ↦ some (is_empty st level, st, result)
        | true ↦ elim (get_first st level) [
          | none ↦ some (true, st, result)
          | some maker ↦
              let amount = min_of (st.orders taker).remain_amount (st.orders maker).remain_amount in
              elim (less_than_or_equal amount d.zero) [
                | true ↦ some (is_empty st level, st, result)
                | false ↦
                    let (st', result') = fill_maker env st result taker level maker amount in
                    match_at_price_level fuel st' result' taker level
              ]
        ]
      ]

  -- The inner loop ends within one round more than the level has orders.
  unfoldable pub match_level :
      Store A → TradeResult A → ℕ → ℕ → Option (Bool × Store A × TradeResult A)
  match_level st result taker level =
      match_at_price_level (suc (length (st.levels level).orders)) st result taker level

  -- The taker's limit rules the level out.
  unfoldable pub price_refused : Order A → A → Bool
  price_refused taker price =
      if is_buy taker then less_than taker.price price else greater_than taker.price price

  -- After a level: the level goes if it is empty.
  unfoldable pub after_level : OrderBook A → Bool → A → Bool × Store A × TradeResult A → Matched A
  after_level ob buys price (empty, st, result) = record {
    store = st;
    book = if empty then delete_opposite buys ob price else ob;
    result = result;
  }

  -- The loop of `Match`, for an order that is not FOK.
  unfoldable pub match_loop : ℕ → Matched A → ℕ → Option (Matched A)
  match_loop zero m taker = none
  match_loop (suc fuel) m taker =
      let o = m.store.orders taker in
      elim (greater_than o.remain_amount d.zero) [
        | false ↦ some m
        | true ↦ elim (best_opposite (is_buy o) m.book) [
          | none ↦ some m
          | some level ↦
              let price = (m.store.levels level).price in
              elim (price_refused o price) [
                | true ↦ some m
                | false ↦ elim (match_level m.store m.result taker level) [
                  | none ↦ none
                  | some r ↦
                      let m' = after_level m.book (is_buy o) price r in
                      elim (is_one_level o.time_in_force) [
                        | true ↦ some m'
                        | false ↦ match_loop fuel m' taker
                      ]
                ]
              ]
        ]
      ]

  -- The callback that adds up what a FOK order could take; the state is `availableAmount`.
  unfoldable pub add_available : Store A → Order A → A → ℕ → A → Bool × A
  add_available st taker price level available =
      if (if is_buy taker then greater_than price taker.price else less_than price taker.price)
      then (false, available)
      else let available' = d.add available (st.levels level).total in
        (greater_than taker.remain_amount available', available')

  unfoldable pub available_amount : Store A → OrderBook A → Order A → A
  available_amount st ob taker =
      RbTree.ascend (add_available st taker) (if is_buy taker then ob.asks else ob.bids) d.zero

  unfoldable pub price_refused_fok : Order A → A → Bool
  price_refused_fok taker price =
      if is_buy taker && less_than taker.price price
      then true
      else is_sell taker && greater_than taker.price price

  -- The second loop of `matchFOK`.
  unfoldable pub fok_loop : ℕ → Matched A → ℕ → Option (Matched A)
  fok_loop zero m taker = none
  fok_loop (suc fuel) m taker =
      let o = m.store.orders taker in
      elim (greater_than o.remain_amount d.zero) [
        | false ↦ some m
        | true ↦ elim (best_opposite (is_buy o) m.book) [
          | none ↦ some m
          | some level ↦
              let price = (m.store.levels level).price in
              elim (price_refused_fok o price) [
                | true ↦ some m
                | false ↦ elim (match_level m.store m.result taker level) [
                  | none ↦ none
                  | some r ↦ fok_loop fuel (after_level m.book (is_buy o) price r) taker
                ]
              ]
        ]
      ]

  abbrev pub start : Store A → OrderBook A → ℕ → Matched A
  start st ob taker = record {
    store = st;
    book = ob;
    result = record new_trade_result { taker_order = some taker };
  }

  unfoldable pub match_fok : ℕ → Store A → OrderBook A → ℕ → Option (Matched A)
  match_fok fuel st ob taker =
      let o = st.orders taker in
      if less_than (available_amount st ob o) o.remain_amount
      then some (start st ob taker)
      else fok_loop fuel (start st ob taker) taker

  -- `LimitMatcher.Match`
  unfoldable pub match_limit : ℕ → Store A → OrderBook A → ℕ → Option (Matched A)
  match_limit fuel st ob taker =
      if is_fok (st.orders taker).time_in_force
      then match_fok fuel st ob taker
      else match_loop fuel (start st ob taker) taker

-- `RBTreeWrapper`
pub record RbTreeWrapper (A : Type 0) : Type 0 where
  pub tree : RbTree A ℕ
  pub desc : Bool

module _ {A : Type 0} where
  unfoldable pub new_rb_tree_wrapper : RbTree A ℕ → Bool → RbTreeWrapper A
  new_rb_tree_wrapper tree desc = record { tree = tree; desc = desc }

  unfoldable pub best : RbTreeWrapper A → Option ℕ
  best w = if w.desc then RbTree.max_level w.tree else RbTree.min_level w.tree
