-- ===== src/Tests/Sample.antt =====
-- A book with two sell levels, 0.5 at 100 and 0.3 at 101, and takers that buy.
use matchengine.Prelude.{
  ℕ, ◌+◌, ◌<◌, ◌≡◌, ◌≢◌, refl, sym, ap, ◌∙◌, lt, gt, arith, if◌then◌else◌, ◌==◌, List, [], ◌∷◌,
  length,
}
use matchengine.Prelude.Int.{ℤ, pos}
use matchengine.Decimal.Milli.{milli}
use matchengine.RbTree
use matchengine.RbTree.{RbTree}
use matchengine.Models.Order.{Order, TimeInForce, buy, sell, limit, gtc, new_order, is_buy}
use matchengine.Models.Fills.{IsOpen}
use matchengine.Store.{Store, Env}
use matchengine.OrderBook.Index.{IsIndex, add_order-IsIndex}
use matchengine.OrderBook.{
  OrderBook, new_order_book, add_order, get_or_create_level, push_order, new_price_level, set_entry,
}
use matchengine.Matching.Side.{SideReady}

abbrev pub env : Env
env = record { clock = λ n. n; next_id = λ n. n + 1000; max_capacity = 1000 }

unfoldable pub sell_first : Order ℤ
unfolding new_order milli
sell_first = new_order 5 1 7 "BTC_USDT" sell limit (pos 100_000) (pos 500) gtc

unfoldable pub sell_second : Order ℤ
unfolding new_order milli
sell_second = new_order 5 2 7 "BTC_USDT" sell limit (pos 101_000) (pos 300) gtc

unfoldable pub buy_more : TimeInForce → Order ℤ
unfolding new_order milli
buy_more tif = new_order 6 3 8 "BTC_USDT" buy limit (pos 101_000) (pos 600) tif

abbrev pub memory : TimeInForce → Store ℤ
memory tif = record {
  orders = λ r. if r == 1 then sell_first else if r == 2 then sell_second else buy_more tif;
  levels = λ l. record { price = pos 0; orders = []; total = pos 0 };
  next_level = 0;
  next_element = 0;
  ticks = 0;
  issued = 0;
}

pub zero_kept : milli.cmp (pos 0) (pos 0) ≢ lt
unfolding milli
zero_kept h = cc

unfoldable pub filled_book : TimeInForce → Store ℤ × OrderBook ℤ
unfolding add_order get_or_create_level push_order new_price_level set_entry new_order_book
    RbTree.new_rb_tree RbTree.get RbTree.search_node RbTree.insert RbTree.insert_at RbTree.descend
    RbTree.insert_fixup RbTree.plug RbTree.attach RbTree.set_color RbTree.rotate_up
    RbTree.left_rotate RbTree.right_rotate RbTree.compare_to milli is_buy
filled_book tif =
    let first = add_order (memory tif) (new_order_book "BTC_USDT") 1 in add_order first.0 first.1 2

-- The best level first.
abbrev pub levels : List (ℤ × ℕ)
levels = (pos 100_000, 0) ∷ (pos 101_000, 1) ∷ []

pub IsOpen-sample :
    (o : Order ℤ)
    → o.filled_amount ≡ pos 0
    → o.remain_amount ≡ o.amount
    → milli.add o.amount (pos 0) ≡ o.amount
    → milli.cmp o.remain_amount (pos 0) ≡ gt
    → IsOpen o
unfolding milli
IsOpen-sample o f r a g = record {
  balanced = record {
    balance = rw (f, r) a;
    filled_nonneg = λ h. zero_kept (sym (ap (λ x. milli.cmp x (pos 0)) f) ∙ h);
  };
  remain_pos = g;
}

pub ready :
    (tif : TimeInForce)
    → SideReady
        (filled_book tif).0
        (filled_book tif).1
        (is_buy ((filled_book tif).0.orders 3))
        3
        levels
unfolding is_buy filled_book sell_first sell_second buy_more
ready tif = record {
  direction = refl;
  valid = record { sorted = ((refl, tt), (tt, tt)); counted = refl };
  levels = refl;
  each = (
    record {
      price = refl;
      makers = (IsOpen-sample sell_first refl refl refl refl, tt);
      apart = (λ h. omega (arith, h), tt);
      distinct = (tt, tt);
    },
    (
      record {
        price = refl;
        makers = (IsOpen-sample sell_second refl refl refl refl, tt);
        apart = (λ h. omega (arith, h), tt);
        distinct = (tt, tt);
      },
      tt,
    ),
  );
  disjoint = (
    (record { levels = λ h. omega (arith, h); orders = ((λ h. omega (arith, h), tt), tt) }, tt),
    (tt, tt),
  );
  taker_balanced = (IsOpen-sample (buy_more tif) refl refl refl refl).balanced;
}

pub short : length levels < 3
short = omega arith

pub taker_terms : (tif : TimeInForce) → ((filled_book tif).0.orders 3).time_in_force ≡ tif
unfolding filled_book sell_first sell_second buy_more
taker_terms tif = refl

pub book-IsIndex : IsIndex (filled_book gtc).1.orders
book-IsIndex =
    unfold filled_book in
    (add_order-IsIndex (add_order (memory gtc) (new_order_book "BTC_USDT") 1).0
      (add_order (memory gtc) (new_order_book "BTC_USDT") 1).1 2
      (add_order-IsIndex (memory gtc) (new_order_book "BTC_USDT") 1 tt))
