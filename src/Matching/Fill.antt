-- ===== src/Matching/Fill.antt =====
-- internal/matching: what the loops of the matchers have in common. The source writes it out in
-- limit.go, market.go and iceberg.go alike; `fill_maker` is that text once.
use matchengine.Prelude.{ℕ, Bool, if◌then◌else◌, Option, some}
use matchengine.Decimal.{Decimal}
use matchengine.RbTree
use matchengine.Models.Order.{is_finished, update_filled}
use matchengine.Models.Trade.{Trade, TradeResult, new_trade, add_trade}
use matchengine.Store.{Store, Env, set_order, tick, issue}
use matchengine.OrderBook.{OrderBook, level_remove_order}

module _ {A : Type 0} ⦃d : Decimal A⦄ (env : Env) where
  -- `UpdateFilled` through a pointer: reads the clock.
  unfoldable pub update_filled_at : Store A → ℕ → A → A → Store A
  update_filled_at st r amount total =
      tick (set_order st r (update_filled (env.clock st.ticks) (st.orders r) amount total))

  unfoldable pub make_trade : Store A → ℕ → ℕ → A → A → Trade A
  make_trade st taker maker price amount =
      new_trade (env.clock st.ticks) (env.next_id st.issued) (st.orders taker).symbol
        (st.orders taker) (st.orders maker) price amount

  -- The trade, both orders' fills, and the removal of a finished maker.
  unfoldable pub fill_maker : Store A → TradeResult A → ℕ → ℕ → ℕ → A → Store A × TradeResult A
  fill_maker st result taker level maker amount =
      let price = (st.levels level).price in
      let trade = make_trade st taker maker price amount in
      let total = d.mul price amount in
      let st₁ = update_filled_at (tick (issue st)) taker amount total in
      let st₂ = update_filled_at st₁ maker amount total in
      let st₃ =
        if is_finished (st₂.orders maker)
        then (level_remove_order st₂ level (st₂.orders maker).id).1
        else st₂ in
      (st₃, record (add_trade result trade) { maker_order = some maker })

module _ {A : Type 0} ⦃d : Decimal A⦄ where
  -- The best level of the opposite side.
  unfoldable pub best_opposite : Bool → OrderBook A → Option ℕ
  best_opposite buys ob = if buys then RbTree.min_level ob.asks else RbTree.max_level ob.bids

  unfoldable pub delete_opposite : Bool → OrderBook A → A → OrderBook A
  delete_opposite buys ob price =
      if buys
      then record ob { asks = RbTree.delete d.cmp ob.asks price }
      else record ob { bids = RbTree.delete d.cmp ob.bids price }
