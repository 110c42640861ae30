-- ===== src/Server/Http.antt =====
-- internal/server/http_server.go: the handlers of `HTTPServer`. Binding a request, a library's work, has been
-- done; reading numbers is strconv's, an argument. A body shows what the source would encode.
use Prim.Native.String.{String}
use text.Mathlib.Text.{◌==◌ as str_eq}
use matchengine.Prelude.{ℕ, if◌then◌else◌, ◌==◌, ◌||◌, List, Option, some, none}
use matchengine.Prelude.Int.{ℤ, pos, negsuc}
use matchengine.Outcome.{Result, ok, err}
use matchengine.Decimal.{Decimal}
use matchengine.Models.Order
use matchengine.Models.Order.{Order, OrderSide, OrderType, TimeInForce, new_order}
use matchengine.Models.Trade.{Trade}
use matchengine.Models.Market.{Depth, Ticker}
use matchengine.Store.{Env}
use matchengine.Engine.Api.{
  Engine, RaftNode, EngineError, Submitted, refused, panics, proposed, queued, waiting,
  submit_order, Reply, failed, replied, cancel_order, find_order_in, depth_of, ticker_of,
}
use matchengine.Server.Convert.{DecimalText}
use matchengine.Server.Grpc.{OrderQuerier, with_order, depth_limit, trades_limit}

-- The numbers of the enumerations; every other number has no name.
unfoldable pub side_of : ℤ → OrderSide
side_of (pos n) = if n == 1 then Order.buy else if n == 2 then Order.sell else Order.unknown_side
side_of (negsuc n) = Order.unknown_side

unfoldable pub type_of : ℤ → OrderType
type_of (pos n) =
    if n == 1
    then Order.limit
    else if n == 2
    then Order.market
    else if n == 3
    then Order.stop_limit
    else if n == 4
    then Order.stop_market
    else if n == 5
    then Order.iceberg
    else Order.unknown_type
type_of (negsuc n) = Order.unknown_type

unfoldable pub time_in_force_of : ℤ → TimeInForce
time_in_force_of (pos n) =
    if n == 1
    then Order.gtc
    else if n == 2
    then Order.ioc
    else if n == 3
    then Order.fok
    else if n == 4
    then Order.gtx
    else Order.unknown_time_in_force
time_in_force_of (negsuc n) = Order.unknown_time_in_force

pub record CreateOrderRequest : Type 0 where
  pub user_id : ℕ
  pub symbol : String
  pub side : ℤ
  pub order_type : ℤ
  pub price : String
  pub amount : String
  pub time_in_force : ℤ

-- The text of an error says which it was.
pub data HttpFault (E : Type 0) : Type 0 where
  invalid_parameters invalid_price invalid_amount invalid_order_id invalid_user_id : HttpFault E
  bind_fault storage_fault : E → HttpFault E
  engine_fault : EngineError E → HttpFault E

-- An answer by its status, 400, 404, 500 or 200, or a call that waits for ever or for a place in the
-- channel, or that panics.
pub data Response (E X : Type 0) : Type 0 where
  bad_request not_found internal_server_error : HttpFault E → Response E X
  json : X → Response E X
  stalled aborted : Response E X

-- `ParseUint(s, 10, 64)`, with none for an error, and `Atoi` with its error dropped.
pub record Strconv : Type 0 where
  pub parse_uint : String → Option ℕ
  pub atoi : String → ℤ

abbrev pub found_or : {E X Y : Type 0} → (X → Y) → Reply E X → Response E Y
found_or f (failed fault) = not_found (engine_fault fault)
found_or f (replied x) = json (f x)

-- On a call that may panic.
abbrev pub found_option : {E X Y : Type 0} → (X → Y) → Reply E (Option X) → Response E Y
found_option f (failed fault) = not_found (engine_fault fault)
found_option f (replied none) = aborted
found_option f (replied (some x)) = json (f x)

abbrev pub stored_or : {E X Y : Type 0} → (X → Y) → Result E X → Response E Y
stored_or f (err fault) = internal_server_error (storage_fault fault)
stored_or f (ok x) = json (f x)

module _ {A : Type 0} ⦃d : Decimal A⦄ where
  -- The order that a request asks for.
  unfoldable pub requested_order : ℕ → CreateOrderRequest → A → A → Order A
  requested_order now req price amount =
      new_order now 0 req.user_id req.symbol (side_of req.side) (type_of req.order_type) price
        amount (time_in_force_of req.time_in_force)

module _ {A : Type 0} ⦃d : Decimal A⦄ {E : Type 0} where
  -- The order is shared: it is read after what others have done since it was handed over.
  unfoldable pub respond_submitted :
      (Engine A → Engine A) → Engine A → ℕ → Submitted A E → Response E (Order A × Engine A)
  respond_submitted meanwhile e order (refused fault) = internal_server_error (engine_fault fault)
  respond_submitted meanwhile e order panics = aborted
  respond_submitted meanwhile e order proposed =
      let after = meanwhile e in json (after.store.orders order, after)
  respond_submitted meanwhile e order (queued e') =
      let after = meanwhile e' in json (after.store.orders order, after)
  respond_submitted meanwhile e order waiting = stalled

  -- `createOrder`, on what `Bind` gave; the new order goes to the given reference. Between the
  -- hand-over and the answer, the other goroutines work on the engine.
  unfoldable pub create_order :
      DecimalText A
      → (Engine A → Engine A)
      → ℕ
      → ℕ
      → Engine A
      → Option (RaftNode A E)
      → Result E CreateOrderRequest
      → Response E (Order A × Engine A)
  create_order text meanwhile now reference e raft (err fault) = bad_request (bind_fault fault)
  create_order text meanwhile now reference e raft (ok req) =
      if (req.user_id == 0) || str_eq req.symbol ""
      then bad_request invalid_parameters
      else elim (text.parse req.price) [
        | none ↦ bad_request invalid_price
        | some price ↦ elim (text.parse req.amount) [
          | none ↦ bad_request invalid_amount
          | some amount ↦
              let e' = with_order e reference (requested_order now req price amount) in
              respond_submitted meanwhile e' reference (submit_order e' raft reference)
        ]
      ]

  -- `cancelOrder`
  unfoldable pub cancel_order_handler :
      Env → Strconv → Engine A → String → String → Response E (Order A × Engine A)
  cancel_order_handler env conv e symbol id_text = elim (conv.parse_uint id_text) [
    | none ↦ bad_request invalid_order_id
    | some id ↦ found_or (λ r. (r.1.store.orders r.0, r.1)) (cancel_order env e symbol id)
  ]

  -- `getOrder`
  unfoldable pub get_order_handler :
      Env → Strconv → Engine A → String → String → Response E (Order A)
  get_order_handler env conv e symbol id_text = elim (conv.parse_uint id_text) [
    | none ↦ bad_request invalid_order_id
    | some id ↦ found_or (λ r. e.store.orders r) (find_order_in env e symbol id)
  ]

  -- `getDepth`
  unfoldable pub get_depth_handler :
      Env → Strconv → Engine A → String → String → Response E (Depth A)
  get_depth_handler env conv e symbol limit =
      found_option (λ x. x) (depth_of env e symbol (depth_limit (conv.atoi limit)))

  -- `getTicker`
  unfoldable pub get_ticker_handler : Env → Engine A → String → Response E (Ticker A)
  get_ticker_handler env e symbol = found_or (λ x. x) (ticker_of env e symbol)

-- 20 for a limit of 0.
unfoldable pub orders_limit : ℤ → ℤ
orders_limit (pos n) = if n == 0 then pos 20 else pos n
orders_limit (negsuc n) = negsuc n

module _ {A : Type 0} {E : Type 0} (conv : Strconv) (db : OrderQuerier A E) where
  -- `getUserOrders`, which answers with the user's id, the symbol and the orders.
  unfoldable pub get_user_orders_handler :
      String → String → String → String → Response E (ℕ × String × List (Order A))
  get_user_orders_handler user symbol limit offset = elim (conv.parse_uint user) [
    | none ↦ bad_request invalid_user_id
    | some id ↦
        stored_or (λ orders. (id, symbol, orders))
          (db.get_user_orders id symbol (orders_limit (conv.atoi limit)) (conv.atoi offset))
  ]

  -- `getTrades`
  unfoldable pub get_trades_handler :
      String → String → String → Response E (String × List (Trade A))
  get_trades_handler symbol limit offset =
      stored_or (λ trades. (symbol, trades))
        (db.get_trades symbol (trades_limit (conv.atoi limit)) (conv.atoi offset))
