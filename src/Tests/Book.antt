-- ===== src/Tests/Book.antt =====
-- The sample book is reached by calls, and what follows of it.
use matchengine.Prelude.{◌<◌, ◌≡◌, refl, arith, some, none, ◌⊎◌}
use matchengine.Prelude.Int.{ℤ}
use matchengine.Decimal.Milli.{milli}
use matchengine.RbTree.Valid.{entries}
use matchengine.Models.Order.{gtc, fok, is_buy, TimeInForce}
use matchengine.Models.Fills.{IsOpen}
use matchengine.Engine.Api.{add_orders, book_orders}
use matchengine.Engine.Restored.{get_order-restored}
use matchengine.OrderBook.{get_order, new_order_book, add_order, remove_order, find_entry}
use matchengine.OrderBook.Index.{find_entry-All}
use matchengine.OrderBook.Consistent.{IsConsistent}
use matchengine.OrderBook.Consistent.Add.{add_order-IsConsistent}
use matchengine.OrderBook.Consistent.Remove.{remove_order-IsConsistent}
use matchengine.OrderBook.Reachable.{Reachable, created, called, add, Reachable-IsConsistent}
use matchengine.Matching.Limit.{Matched, match_limit, start, price_refused}
use matchengine.Matching.Plan.{Walked}
use matchengine.Matching.Side.{opposite_tree}
use matchengine.Matching.Fresh.{AllOpen}
use matchengine.Matching.Composed.{match_limit_fresh, match_fok_fresh}
use matchengine.Tests.Sample.{
  env, memory, filled_book, taker_terms, IsOpen-sample, buy_more, sell_first, sell_second,
}

reached :
    (tif : TimeInForce) → Reachable (memory tif) "BTC_USDT" (filled_book tif).0 (filled_book tif).1
unfolding filled_book find_entry sell_first sell_second buy_more
reached tif = called (called created (add 1 refl)) (add 2 refl)

Reachable-IsConsistent_example : IsConsistent (filled_book gtc).0 (filled_book gtc).1
Reachable-IsConsistent_example = Reachable-IsConsistent (reached gtc)

consistent : (tif : TimeInForce) → IsConsistent (filled_book tif).0 (filled_book tif).1
consistent tif = Reachable-IsConsistent (reached tif)

new_id :
    (tif : TimeInForce)
    → find_entry ((filled_book tif).0.orders 3).id (filled_book tif).1.orders ≡ none
unfolding filled_book find_entry sell_first sell_second buy_more
new_id tif = refl

add_order-IsConsistent_example :
    let (st, ob) = filled_book gtc in IsConsistent (add_order st ob 3).0 (add_order st ob 3).1
add_order-IsConsistent_example =
    add_order-IsConsistent (filled_book gtc).0 (filled_book gtc).1 3 (consistent gtc) (new_id gtc)

remove_order-IsConsistent_example :
    let (st, ob) = filled_book gtc in IsConsistent (remove_order st ob 1).1 (remove_order st ob 1).2
remove_order-IsConsistent_example =
    remove_order-IsConsistent (filled_book gtc).0 (filled_book gtc).1 1 (consistent gtc)

open_entries : (tif : TimeInForce) → AllOpen (consistent tif) 3
unfolding filled_book sell_first sell_second
open_entries tif =
    find_entry-All (λ e. IsOpen ((filled_book tif).0.orders e.order)) (filled_book tif).1.orders
      (
        IsOpen-sample sell_first refl refl refl refl,
        (IsOpen-sample sell_second refl refl refl refl, tt),
      )

IsOpen-taker : (tif : TimeInForce) → IsOpen ((filled_book tif).0.orders 3)
unfolding filled_book buy_more sell_first sell_second
IsOpen-taker tif = IsOpen-sample (buy_more tif) refl refl refl refl

small :
    (tif : TimeInForce)
    → (opposite_tree (is_buy ((filled_book tif).0.orders 3)) (filled_book tif).1).size < 3
unfolding filled_book is_buy buy_more sell_first sell_second
small tif = omega arith

match_limit_fresh_example :
    let (st, ob) = filled_book gtc in
    (m : Matched ℤ) × (match_limit env 3 st ob 3 ≡ some m)
    × Walked
        (price_refused env (st.orders 3))
        (start env st ob 3)
        3
        (entries (opposite_tree (is_buy (st.orders 3)) ob))
        m
match_limit_fresh_example =
    match_limit_fresh env 3 (filled_book gtc).0 (filled_book gtc).1 3 (consistent gtc)
      (open_entries gtc) (new_id gtc) (IsOpen-taker gtc).balanced (rw (taker_terms gtc) refl)
      (rw (taker_terms gtc) refl) (small gtc)

match_fok_fresh_example :
    let (st, ob) = filled_book fok in
    (m : Matched ℤ) × (match_limit env 3 st ob 3 ≡ some m)
    × ((m ≡ start env st ob 3) ⊎ ((m.store.orders 3).remain_amount ≡ milli.zero))
match_fok_fresh_example =
    match_fok_fresh env 3 (filled_book fok).0 (filled_book fok).1 3 (consistent fok)
      (open_entries fok) (new_id fok) (IsOpen-taker fok) (rw (taker_terms fok) refl) (small fok)

get_order-restored_example :
    let (st, ob) = filled_book gtc in
    get_order (add_orders st (new_order_book "BTC_USDT") (book_orders st ob)).1 2 ≡ get_order ob 2
get_order-restored_example = get_order-restored (consistent gtc) "BTC_USDT" 2
