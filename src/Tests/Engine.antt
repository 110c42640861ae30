-- ===== src/Tests/Engine.antt =====
-- A market whose two triggered orders are stop orders, and an engine with one market.
use matchengine.Prelude.{
  ℕ, ◌+◌, ◌≡◌, ◌≢◌, none, false, Bool, ap, refl, arith, true, [], ◌∷◌, All, inr,
}
use matchengine.Prelude.Int.{ℤ, pos}
use matchengine.Outcome.{done}
use matchengine.Decimal.Milli.{milli}
use matchengine.Models.Order
use matchengine.Models.Order.{Order, new_order}
use matchengine.Models.Market.{
  new_market, validate_order, validate_amount, validate_price, is_active,
}
use matchengine.Store.{Store, Env}
use matchengine.Engine.Process.{State, process_order, process_triggered}
use matchengine.Engine.Api.{
  start_market, Engine, EngineError, Submitted, submit_order, send_order, refused, panics,
  find_market,
}
use matchengine.Engine.Submission.{Admitted, submit_order-Admitted}
use matchengine.Engine.Triggered.{IsStop, process_triggered_lem}

abbrev pub env : Env
env = record { clock = λ n. n; next_id = λ n. n + 1000; max_capacity = 1000 }

unfoldable pub stop_order : ℕ → Order ℤ
stop_order id =
    new_order 5 id 7 "BTC_USDT" Order.sell Order.stop_market (pos 100_000) (pos 500) Order.gtc

unfoldable pub memory : Store ℤ
memory = record {
  orders = stop_order;
  levels = λ l. record { price = pos 0; orders = []; total = pos 0 };
  next_level = 0;
  next_element = 0;
  ticks = 0;
  issued = 0;
}

at_work : State ℤ
at_work = record {
  store = memory;
  engine = start_market (new_market "BTC_USDT" "BTC" "USDT" 8 2 (pos 1) (pos 1) (pos 1) (pos 1));
  listening = true;
  events = [];
}

both-IsStop : All (IsStop at_work.store) (1 ∷ 2 ∷ [])
unfolding at_work memory stop_order new_order
both-IsStop = ((λ h. omega (arith, h), inr refl), ((λ h. omega (arith, h), inr refl), tt))

process_triggered_lem_example :
    (t : State ℤ) × (process_triggered env (process_order env 1 9) (1 ∷ 2 ∷ []) at_work ≡ done t)
    × (t.store ≡ at_work.store)
    × (t.engine.book ≡ at_work.engine.book)
    × (t.engine.last_price ≡ at_work.engine.last_price)
    × (t.events ≡ at_work.events)
process_triggered_lem_example = process_triggered_lem env 0 9 (1 ∷ 2 ∷ []) at_work both-IsStop

unfoldable pub one_market : Engine ℤ
one_market = record {
  store = memory;
  markets =
      (
        "BTC_USDT",
        start_market (new_market "BTC_USDT" "BTC" "USDT" 8 2 (pos 1) (pos 1) (pos 1) (pos 1)),
      )
      ∷ [];
  enable_raft = false;
  running = true;
  listening = true;
  events = [];
}

abbrev fails : Submitted ℤ Unit → Bool
fails (refused err) = true
fails panics = true
fails other = false

gets_through : fails (submit_order one_market none 1) ≡ false
unfolding one_market memory stop_order new_order submit_order send_order find_market validate_order
    validate_amount validate_price is_active milli start_market new_market
gets_through = refl

queued_order : (err : EngineError Unit) → submit_order {E = Unit} one_market none 1 ≢ refused err
queued_order err h = ground (arith, ap fails h, gets_through)

queued_calmly : submit_order {E = Unit} one_market none 1 ≢ panics
queued_calmly h = ground (arith, ap fails h, gets_through)

submit_order-Admitted_example : Admitted one_market 1
submit_order-Admitted_example =
    submit_order-Admitted {E = Unit} one_market none 1 queued_order queued_calmly
