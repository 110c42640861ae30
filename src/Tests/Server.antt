-- ===== src/Tests/Server.antt =====
-- Calls of the server on an engine with one market.
use text.Mathlib.Text.{◌==◌ as str_eq}
use matchengine.Prelude.{◌≡◌, refl, if◌then◌else◌, [], ◌∷◌, some, none, eq}
use matchengine.Prelude.Int.{ℤ, pos}
use matchengine.Decimal.Milli.{milli}
use matchengine.Models.Order
use matchengine.Models.Order.{Order, new_order}
use matchengine.Models.Market.{
  new_market, validate_order, validate_amount, validate_price, validate_total, is_active,
}
use matchengine.OrderBook.{remove_order, find_entry}
use matchengine.Engine.Process.{MarketEngine}
use matchengine.Engine.Api.{
  Engine, start_market, find_market, set_market, submit_order, send_order, cancel_order,
  cancel_found, order_not_found,
}
use matchengine.Server.Convert.{
  DecimalText, proto_cancelled, convert_order_to_proto, convert_levels,
}
use matchengine.Server.Grpc.{
  answered, rejected_with, engine_fault, Allocation, SubmitOrderRequest, build_order, with_order,
  answer_submitted, show_order, get_depth_call, submit_order_call, cancel_order_call,
  get_order_call, set_stop_price, set_visible,
}
use matchengine.Outcome.{ok}
use matchengine.Server.Http.{CreateOrderRequest, create_order}
use matchengine.Server.Agreement.{
  as_message, shown_by_answer, shown_by_response, create_order-submit_order_call,
}
use matchengine.Server.Answers.{
  Accepted, submit_order_call-Accepted, cancel_order_call-gone, get_depth_call_lem,
}
use matchengine.Tests.Sample.{env, filled_book, sell_first, sell_second, book-IsIndex}
use matchengine.Tests.Engine.{one_market}

-- Two numbers as text.
abbrev table : DecimalText ℤ
table = record {
  parse = λ s.
      if str_eq s "100"
      then some (pos 100_000)
      else if str_eq s "0.5"
      then some (pos 500)
      else none;
  print = λ a. elim (milli.cmp a (pos 500)) [ eq ↦ "0.5" | _ ↦ "100" ];
}

abbrev request : SubmitOrderRequest
request = record {
  user_id = 7;
  symbol = "BTC_USDT";
  side = Order.sell;
  order_type = Order.limit;
  price = "100";
  amount = "0.5";
  time_in_force = Order.gtc;
  stop_price = "";
  visible_amount = "";
}

abbrev place : Allocation
place = record { reference = 3; pointer = 9 }

abbrev market_engine : MarketEngine ℤ
market_engine =
    start_market (new_market "BTC_USDT" "BTC" "USDT" 8 2 (pos 1) (pos 1) (pos 1) (pos 1))

made : Order ℤ
made = build_order table 5 place request (pos 100_000) (pos 500)

-- The order has been given an id, and the channel is empty again.
abbrev named : Engine ℤ → Engine ℤ
named e = record (with_order e 3 (record (e.store.orders 3) { id = 77 })) {
  markets = set_market "BTC_USDT" market_engine e.markets;
}

accepted_engine : Engine ℤ
accepted_engine = named (record (with_order one_market 3 made) {
  markets = set_market "BTC_USDT" (record market_engine { channel = 3 ∷ [] }) one_market.markets;
})

accepted :
    submit_order_call table {E = Unit} named 5 place one_market none request
    ≡ answered (convert_order_to_proto table (record made { id = 77 }), accepted_engine)
unfolding submit_order_call made accepted_engine one_market submit_order send_order find_market
    validate_order validate_amount validate_price validate_total is_active milli start_market
    new_market answer_submitted show_order build_order set_stop_price set_visible new_order
    set_market
accepted = refl

submit_order_call-Accepted_example :
    Accepted table 5 place one_market accepted_engine request
      (convert_order_to_proto table (record made { id = 77 }))
submit_order_call-Accepted_example =
    submit_order_call-Accepted table {E = Unit} named 5 place one_market accepted_engine none
      request (convert_order_to_proto table (record made { id = 77 })) accepted

abbrev busy : MarketEngine ℤ
busy = record market_engine { book = (filled_book Order.gtc).1 }

abbrev busy_engine : Engine ℤ
busy_engine = record one_market {
  store = (filled_book Order.gtc).0;
  markets = ("BTC_USDT", busy) ∷ [];
}

known : find_market "BTC_USDT" busy_engine.markets ≡ some busy
unfolding find_market
known = refl

abbrev after_cancel : Engine ℤ
after_cancel =
    let removed = remove_order busy_engine.store busy.book 2 in
    cancel_found env busy_engine "BTC_USDT" busy 2 removed.1 removed.2

cancelled_one :
    cancel_order_call table {E = Unit} env busy_engine "BTC_USDT" 2
    ≡ answered (convert_order_to_proto table (after_cancel.store.orders 2), after_cancel)
unfolding cancel_order_call cancel_order find_market filled_book sell_first sell_second remove_order
    find_entry
cancelled_one = refl

cancel_order_call-gone_example :
    ((convert_order_to_proto table (after_cancel.store.orders 2)).status ≡ proto_cancelled)
    × (get_order_call table {E = Unit} env after_cancel "BTC_USDT" 2
        ≡ rejected_with (engine_fault order_not_found))
cancel_order_call-gone_example =
    cancel_order_call-gone table {E = Unit} env busy_engine after_cancel "BTC_USDT" 2 busy
      (convert_order_to_proto table (after_cancel.store.orders 2)) known book-IsIndex cancelled_one

get_depth_call_lem_example :
    get_depth_call table {E = Unit} env busy_engine "BTC_USDT" (pos 1)
    ≡ answered (record {
      symbol = "BTC_USDT";
      bids = [];
      asks = record { price = "100"; amount = "0.5" } ∷ [];
    })
unfolding filled_book sell_first sell_second convert_levels
get_depth_call_lem_example =
    get_depth_call_lem table {E = Unit} env busy_engine "BTC_USDT" (pos 1) busy known

abbrev form : CreateOrderRequest
form = record {
  user_id = 7;
  symbol = "BTC_USDT";
  side = pos 2;
  order_type = pos 1;
  price = "100";
  amount = "0.5";
  time_in_force = pos 1;
}

create_order-submit_order_call_example :
    shown_by_response {E = Unit} table (create_order table named 5 3 one_market none (ok form))
    ≡ shown_by_answer table
        (submit_order_call table {E = Unit} named 5 place one_market none (as_message form))
create_order-submit_order_call_example =
    create_order-submit_order_call {E = Unit} table named 5 place one_market none form refl
