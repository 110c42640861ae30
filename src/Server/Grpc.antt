-- ===== src/Server/Grpc.antt =====
-- internal/server/grpc_server.go: the calls of `MatchEngineServer`. An answer is a fault, or a success with
-- what it shows. The data base, behind internal/storage, is an argument.
use Prim.Native.String.{String}
use text.Mathlib.Text.{◌==◌ as str_eq}
use matchengine.Prelude.{ℕ, if◌then◌else◌, ◌==◌, List, Option, some, none, map}
use matchengine.Prelude.Int.{ℤ, pos, negsuc}
use matchengine.Outcome.{Result, ok, err}
use matchengine.Decimal.{Decimal}
use matchengine.Models.Order.{Order, OrderSide, OrderType, TimeInForce, new_order}
use matchengine.Models.Trade.{Trade}
use matchengine.Models.Market.{Depth}
use matchengine.Store.{Env, set_order}
use matchengine.Engine.Api.{
  Engine, RaftNode, EngineError, Submitted, refused, panics, proposed, queued, waiting,
  submit_order, Reply, failed, replied, cancel_order, find_order_in, depth_of, ticker_of,
}
use matchengine.Server.Convert.{
  DecimalText, ProtoOrder, ProtoTrade, ProtoLevel, ProtoTicker, convert_order_to_proto,
  convert_trade_to_proto, convert_levels, convert_ticker,
}

-- The text of an error says which it was.
pub data Fault (E : Type 0) : Type 0 where
  invalid_price invalid_amount : Fault E
  engine_fault : EngineError E → Fault E
  storage_fault : E → Fault E

-- An answer, or the call waits for ever or for a place in the channel, or it panics.
pub data Answer (E X : Type 0) : Type 0 where
  rejected_with : Fault E → Answer E X
  answered : X → Answer E X
  blocked crashed : Answer E X

pub record SubmitOrderRequest : Type 0 where
  pub user_id : ℕ
  pub symbol : String
  pub side : OrderSide
  pub order_type : OrderType
  pub price : String
  pub amount : String
  pub time_in_force : TimeInForce
  pub stop_price : String
  pub visible_amount : String

-- The bids and the asks, best first.
pub record DepthAnswer : Type 0 where
  pub symbol : String
  pub bids : List ProtoLevel
  pub asks : List ProtoLevel

abbrev pub answer_reply : {E X Y : Type 0} → (X → Y) → Reply E X → Answer E Y
answer_reply f (failed fault) = rejected_with (engine_fault fault)
answer_reply f (replied x) = answered (f x)

-- On a call that may panic.
abbrev pub answer_option : {E X Y : Type 0} → (X → Y) → Reply E (Option X) → Answer E Y
answer_option f (failed fault) = rejected_with (engine_fault fault)
answer_option f (replied none) = crashed
answer_option f (replied (some x)) = answered (f x)

abbrev pub answer_result : {E X Y : Type 0} → (X → Y) → Result E X → Answer E Y
answer_result f (err fault) = rejected_with (storage_fault fault)
answer_result f (ok x) = answered (f x)

abbrev pub with_order : {A : Type 0} → Engine A → ℕ → Order A → Engine A
with_order e r o = record e { store = set_order e.store r o }

-- Where a request allocates: the reference of the new order, and the identity of a parsed stop price.
pub record Allocation : Type 0 where
  pub reference : ℕ
  pub pointer : ℕ

module _ {A : Type 0} (text : DecimalText A) where
  -- A stop price that is given and can be parsed is set.
  unfoldable pub set_stop_price : String → ℕ → Order A → Order A
  set_stop_price given pointer o = if str_eq given "" then o else elim (text.parse given) [
    | none ↦ o
    | some p ↦ record o { stop_price = record { value = p; pointer = pointer } }
  ]

  unfoldable pub set_visible : String → Order A → Order A
  set_visible given o =
      if str_eq given ""
      then o
      else elim (text.parse given) [ none ↦ o | some v ↦ record o { visible = v } ]

-- 20 for a limit of 0.
unfoldable pub depth_limit : ℤ → ℤ
depth_limit (pos n) = if n == 0 then pos 20 else pos n
depth_limit (negsuc n) = negsuc n

module _ {A : Type 0} ⦃d : Decimal A⦄ (text : DecimalText A) where
  unfoldable pub build_order : ℕ → Allocation → SubmitOrderRequest → A → A → Order A
  build_order now at req price amount = set_visible text req.visible_amount (
      set_stop_price text req.stop_price at.pointer (
        new_order now 0 req.user_id req.symbol req.side req.order_type price amount
          req.time_in_force))

  -- The order at this reference as it is in this engine, with the engine.
  unfoldable pub show_order : Engine A → ℕ → ProtoOrder × Engine A
  show_order e order = (convert_order_to_proto text (e.store.orders order), e)

  -- The order is shared: it is read after what others have done since it was handed over.
  unfoldable pub answer_submitted :
      {E : Type 0}
      → (Engine A → Engine A)
      → Engine A
      → ℕ
      → Submitted A E
      → Answer E (ProtoOrder × Engine A)
  answer_submitted meanwhile e order (refused fault) = rejected_with (engine_fault fault)
  answer_submitted meanwhile e order panics = crashed
  answer_submitted meanwhile e order proposed = answered (show_order (meanwhile e) order)
  answer_submitted meanwhile e order (queued e') = answered (show_order (meanwhile e') order)
  answer_submitted meanwhile e order waiting = blocked

  -- `SubmitOrder`, with what the other goroutines, `processOrders` or the state machine of Raft, do to
  -- the engine between the hand-over and the answer.
  unfoldable pub submit_order_call :
      {E : Type 0}
      → (Engine A → Engine A)
      → ℕ
      → Allocation
      → Engine A
      → Option (RaftNode A E)
      → SubmitOrderRequest
      → Answer E (ProtoOrder × Engine A)
  submit_order_call meanwhile now at e raft req = elim (text.parse req.price) [
    | none ↦ rejected_with invalid_price
    | some price ↦ elim (text.parse req.amount) [
      | none ↦ rejected_with invalid_amount
      | some amount ↦
          let e' = with_order e at.reference (build_order now at req price amount) in
          answer_submitted meanwhile e' at.reference (submit_order e' raft at.reference)
    ]
  ]

  -- `CancelOrder`
  unfoldable pub cancel_order_call :
      {E : Type 0} → Env → Engine A → String → ℕ → Answer E (ProtoOrder × Engine A)
  cancel_order_call env e symbol id =
      answer_reply (λ r. (convert_order_to_proto text (r.1.store.orders r.0), r.1))
        (cancel_order env e symbol id)

  -- `GetOrder`
  unfoldable pub get_order_call : {E : Type 0} → Env → Engine A → String → ℕ → Answer E ProtoOrder
  get_order_call env e symbol id =
      answer_reply (λ r. convert_order_to_proto text (e.store.orders r))
        (find_order_in env e symbol id)

  -- `GetDepth`
  unfoldable pub get_depth_call : {E : Type 0} → Env → Engine A → String → ℤ → Answer E DepthAnswer
  get_depth_call env e symbol limit =
      answer_option
        (λ (depth : Depth A). record {
          symbol = depth.symbol;
          bids = convert_levels text depth.bids;
          asks = convert_levels text depth.asks;
        })
        (depth_of env e symbol (depth_limit limit))

  -- `GetTicker`
  unfoldable pub get_ticker_call : {E : Type 0} → Env → Engine A → String → Answer E ProtoTicker
  get_ticker_call env e symbol = answer_reply (convert_ticker text) (ticker_of env e symbol)

-- `OrderQuerier`: the orders of a user and the trades of a symbol, or an error.
pub record OrderQuerier (A E : Type 0) : Type 0 where
  pub get_user_orders : ℕ → String → ℤ → ℤ → Result E (List (Order A))
  pub get_trades : String → ℤ → ℤ → Result E (List (Trade A))

-- 100 for a limit of 0.
unfoldable pub trades_limit : ℤ → ℤ
trades_limit (pos n) = if n == 0 then pos 100 else pos n
trades_limit (negsuc n) = negsuc n

module _ {A : Type 0} (text : DecimalText A) where
  -- `GetTrades`
  unfoldable pub get_trades_call :
      {E : Type 0} → OrderQuerier A E → String → ℤ → ℤ → Answer E (List ProtoTrade)
  get_trades_call db symbol limit offset =
      answer_result (map (convert_trade_to_proto text))
        (db.get_trades symbol (trades_limit limit) offset)
