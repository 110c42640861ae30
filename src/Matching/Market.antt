-- ===== src/Matching/Market.antt =====
-- internal/matching/market.go: `MarketMatcher`. It takes whatever price the opposite side has.
use matchengine.Prelude.{ℕ, zero, suc, Bool, true, false, Option, some, none, length}
use matchengine.Decimal.{Decimal, greater_than, less_than_or_equal, min_of}
use matchengine.Models.Order.{is_buy}
use matchengine.Models.Trade.{TradeResult}
use matchengine.Store.{Store, Env}
use matchengine.OrderBook.{OrderBook, get_first, is_empty}
use matchengine.Matching.Fill.{fill_maker, best_opposite}
use matchengine.Matching.Limit.{Matched, after_level, start}

module _ {A : Type 0} ⦃d : Decimal A⦄ (env : Env) where
  unfoldable pub match_market_level :
      ℕ → Store A → TradeResult A → ℕ → ℕ → Option (Bool × Store A × TradeResult A)
  match_market_level zero st result taker level = none
  match_market_level (suc fuel) st result taker level =
      elim (greater_than (st.orders taker).remain_amount d.zero) [
        | false ↦ some (is_empty st level, st, result)
        | true ↦ elim (get_first st level) [
          | none ↦ some (true, st, result)
          | some maker ↦
              let amount = min_of (st.orders taker).remain_amount (st.orders maker).remain_amount in
              elim (less_than_or_equal amount d.zero) [
                | true ↦ some (is_empty st level, st, result)
                | false ↦
                    let (st', result') = fill_maker env st result taker level maker amount in
                    match_market_level fuel st' result' taker level
              ]
        ]
      ]

  unfoldable pub market_loop : ℕ → Matched A → ℕ → Option (Matched A)
  market_loop zero m taker = none
  market_loop (suc fuel) m taker =
      let o = m.store.orders taker in
      elim (greater_than o.remain_amount d.zero) [
        | false ↦ some m
        | true ↦ elim (best_opposite (is_buy o) m.book) [
          | none ↦ some m
          | some level ↦
              let l = m.store.levels level in
              elim (match_market_level (suc (length l.orders)) m.store m.result taker level) [
                | none ↦ none
                | some r ↦ market_loop fuel (after_level env m.book (is_buy o) l.price r) taker
              ]
        ]
      ]

  -- `MarketMatcher.Match`
  unfoldable pub match_market : ℕ → Store A → OrderBook A → ℕ → Option (Matched A)
  match_market fuel st ob taker = market_loop fuel (start env st ob taker) taker
