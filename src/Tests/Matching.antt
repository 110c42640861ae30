-- ===== src/Tests/Matching.antt =====
-- The theorems on matching and on the book at the sample book.
use matchengine.Prelude.{
  map, ℕ, ◌≡◌, ◌≢◌, refl, lt, arith, Bool, false, if◌then◌else◌, ◌==◌, [], ◌∷◌, All, some, none,
}
use matchengine.Prelude.Int.{ℤ, pos}
use matchengine.Decimal.{less_than}
use matchengine.Decimal.Milli.{milli}
use matchengine.RbTree
use matchengine.RbTree.{RbTree}
use matchengine.Models.Order.{gtc, fok, ioc, is_buy, is_sell}
use matchengine.Matching.Iceberg.{iceberg_loop}
use matchengine.Matching.Divergence.{Stuck, iceberg_loop-diverges}
use matchengine.Store.{Store}
use matchengine.OrderBook.{OrderBook, new_order_book, add_order, get_order, remove_order}
use matchengine.OrderBook.Index.{IsIndex, get_order-add_order, remove_order_lem}
use matchengine.Matching.Side.{first-Ready}
use matchengine.Matching.Limit.{
  Matched, match_limit, start, price_refused, price_refused_fok, available_amount, match_level,
  best, new_rb_tree_wrapper,
}
use matchengine.Models.Trade.{TradeResult}
use matchengine.Matching.Crossing.{Swept}
use matchengine.Matching.Sweep.{match_level_lem}
use matchengine.Matching.Market.{match_market}
use matchengine.Matching.Plan.{Walked}
use matchengine.Matching.Plan.{plan, view, price_amount}
use matchengine.Matching.OneLevel.{first_only, match_limit_one_level}
use matchengine.Matching.Priority.{
  match_limit_walks, match_market_walks, match_fok_walks, WithinLimit, match_limit_within,
}
use matchengine.Tests.Sample.{
  book-IsIndex, env, sell_first, sell_second, buy_more, memory, filled_book, levels, ready, short,
  taker_terms,
}

match_limit_walks_example :
    (m : Matched ℤ) × (match_limit env 3 (filled_book gtc).0 (filled_book gtc).1 3 ≡ some m)
    × Walked
        (price_refused env ((filled_book gtc).0.orders 3))
        (start env (filled_book gtc).0 (filled_book gtc).1 3)
        3
        levels
        m
match_limit_walks_example =
    match_limit_walks env 3 (filled_book gtc).0 (filled_book gtc).1 3 levels short
      (rw (taker_terms gtc) refl) (rw (taker_terms gtc) refl) (ready gtc)

match_market_walks_example :
    (m : Matched ℤ) × (match_market env 3 (filled_book ioc).0 (filled_book ioc).1 3 ≡ some m)
    × Walked (λ p. false) (start env (filled_book ioc).0 (filled_book ioc).1 3) 3 levels m
match_market_walks_example =
    match_market_walks env 3 (filled_book ioc).0 (filled_book ioc).1 3 levels short (ready ioc)

match_fok_walks_example :
    let (st, ob) = filled_book fok in
    (m : Matched ℤ) × (match_limit env 3 st ob 3 ≡ some m)
    × (if less_than (available_amount env st ob (st.orders 3)) (st.orders 3).remain_amount
        then m ≡ start env st ob 3
        else Walked (price_refused_fok env (st.orders 3)) (start env st ob 3) 3 levels m)
match_fok_walks_example =
    match_fok_walks env 3 (filled_book fok).0 (filled_book fok).1 3 levels short
      (rw (taker_terms fok) refl) (ready fok)

wants_some : milli.cmp ((filled_book gtc).0.orders 3).remain_amount milli.zero ≢ lt
unfolding filled_book sell_first sell_second buy_more milli
wants_some h = ground (arith, h)

match_level_lem_example :
    let st = (filled_book gtc).0 in
    let result = (start env st (filled_book gtc).1 3).result in
    (r : Bool × Store ℤ × TradeResult ℤ) × (match_level env st result 3 0 ≡ some r)
    × Swept st result 3 0 (st.levels 0).orders r
match_level_lem_example =
    match_level_lem env (filled_book gtc).0
      (start env (filled_book gtc).0 (filled_book gtc).1 3).result 3 0
      ((filled_book gtc).0.levels 0).orders
      (first-Ready (filled_book gtc).0 (filled_book gtc).1 (is_buy ((filled_book gtc).0.orders 3)) 3
        (pos 100_000, 0) ((pos 101_000, 1) ∷ []) (ready gtc))

-- A taker of an iceberg matcher in front of an empty level.
abbrev emptied : Store ℤ
emptied = record (memory gtc) {
  levels = λ l. record { price = pos 100_000; orders = []; total = pos 0 };
}

abbrev stuck_book : OrderBook ℤ
stuck_book = record (new_order_book "BTC_USDT") {
  asks = RbTree.insert milli.cmp (RbTree.new_rb_tree false) (pos 100_000) 0;
}

stuck : Stuck env (start env emptied stuck_book 3) 3 0
unfolding buy_more milli price_refused_fok is_buy RbTree.insert RbTree.insert_at RbTree.descend
    RbTree.insert_fixup RbTree.plug RbTree.new_rb_tree RbTree.min_level RbTree.compare_to best
    new_rb_tree_wrapper RbTree.set_color RbTree.leftmost is_sell
stuck = record { wants = refl; finds = refl; allows = refl; emptied = refl }

iceberg_loop-diverges_example : iceberg_loop env 100 (start env emptied stuck_book 3) 3 ≡ none
iceberg_loop-diverges_example =
    iceberg_loop-diverges env 100 (start env emptied stuck_book 3) 3 0 stuck

get_order-add_order_example :
    let ob = (filled_book gtc).1 in
    let st = (filled_book gtc).0 in
    get_order (add_order st ob 3).1 2 ≡ (if (st.orders 3).id == 2 then some 3 else get_order ob 2)
get_order-add_order_example = get_order-add_order (filled_book gtc).0 (filled_book gtc).1 3 2

remove_order_lem_example :
    let (st, ob) = filled_book gtc in
    ((remove_order st ob 2).0 ≡ get_order ob 2)
    × ((j : ℕ) → get_order (remove_order st ob 2).2 j ≡ (if 2 == j then none else get_order ob j))
    × IsIndex (remove_order st ob 2).2.orders
remove_order_lem_example = remove_order_lem (filled_book gtc).0 (filled_book gtc).1 2 book-IsIndex

match_limit_within_example :
    let (st, ob) = filled_book gtc in
    (m : Matched ℤ) × (match_limit env 3 st ob 3 ≡ some m)
    × All (λ t. WithinLimit (st.orders 3) t.price) m.result.trades
    × (milli.cmp (m.store.orders 3).remain_amount milli.zero ≢ lt)
match_limit_within_example =
    match_limit_within env 3 (filled_book gtc).0 (filled_book gtc).1 3 levels short
      (rw (taker_terms gtc) refl) (rw (taker_terms gtc) refl) (ready gtc) wants_some

match_limit_one_level_example :
    let (st, ob) = filled_book ioc in
    (m : Matched ℤ) × (match_limit env 1 st ob 3 ≡ some m)
    × (map price_amount m.result.trades
        ≡ plan
            (price_refused env (st.orders 3))
            (st.orders 3).remain_amount
            (view st (first_only levels)))
match_limit_one_level_example =
    match_limit_one_level env 0 (filled_book ioc).0 (filled_book ioc).1 3 levels
      (rw (taker_terms ioc) refl) (rw (taker_terms ioc) refl) (ready ioc)
