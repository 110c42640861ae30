-- ===== src/Server/Convert.antt =====
-- internal/server/grpc_server.go: the messages, and the conversions into them. Decimals travel as text, which
-- shopspring/decimal prints and parses: an argument. Sides, types and times in force have the same numbers
-- in the messages as in the models, and so the models' types.
use Prim.Native.String.{String}
use matchengine.Prelude.{ℕ, ◌/◌, List, Option, map}
use matchengine.Models.Order.{Order, OrderSide, OrderType, OrderStatus, TimeInForce}
use matchengine.Models.Order
use matchengine.Models.Trade.{Trade}
use matchengine.Models.Market.{Ticker, DepthLevel}

-- `NewFromString`, with none for an error, and `String`.
pub record DecimalText (A : Type 0) : Type 0 where
  pub parse : String → Option A
  pub print : A → String

-- The states of an order in the messages, by number from 1; `unnamed` is every other number.
pub data ProtoStatus : Type 0 where
  proto_pending proto_partial proto_filled proto_cancelled proto_rejected unnamed : ProtoStatus

-- `proto.OrderStatus(status)`: the number stays. The models count `Expired` as 5 and `Rejected` as 6.
unfoldable pub convert_status : OrderStatus → ProtoStatus
convert_status Order.new = proto_pending
convert_status Order.partially_filled = proto_partial
convert_status Order.filled = proto_filled
convert_status Order.cancelled = proto_cancelled
convert_status Order.expired = proto_rejected
convert_status Order.rejected = unnamed
convert_status Order.unknown_status = unnamed

pub record ProtoOrder : Type 0 where
  pub id : ℕ
  pub user_id : ℕ
  pub symbol : String
  pub side : OrderSide
  pub order_type : OrderType
  pub status : ProtoStatus
  pub price : String
  pub amount : String
  pub filled_amount : String
  pub remain_amount : String
  pub filled_total : String
  pub fee : String
  pub fee_asset : String
  pub time_in_force : TimeInForce
  pub stop_price : String
  pub visible_amount : String
  pub created_at : ℕ
  pub updated_at : ℕ

pub record ProtoTrade : Type 0 where
  pub id : ℕ
  pub taker_order_id : ℕ
  pub maker_order_id : ℕ
  pub user_id : ℕ
  pub maker_user_id : ℕ
  pub symbol : String
  pub price : String
  pub amount : String
  pub total : String
  pub fee : String
  pub fee_asset : String
  pub side : OrderSide
  pub created_at : ℕ

pub record ProtoLevel : Type 0 where
  pub price : String
  pub amount : String

pub record ProtoTicker : Type 0 where
  pub symbol : String
  pub last_price : String
  pub bid_price : String
  pub bid_amount : String
  pub ask_price : String
  pub ask_amount : String
  pub timestamp : ℕ

-- `Unix()` of a time in milliseconds.
abbrev seconds : ℕ → ℕ
seconds t = t / 1000

module _ {A : Type 0} (text : DecimalText A) where
  unfoldable pub convert_order_to_proto : Order A → ProtoOrder
  convert_order_to_proto o = record {
    id = o.id;
    user_id = o.user_id;
    symbol = o.symbol;
    side = o.side;
    order_type = o.order_type;
    status = convert_status o.status;
    price = text.print o.price;
    amount = text.print o.amount;
    filled_amount = text.print o.filled_amount;
    remain_amount = text.print o.remain_amount;
    filled_total = text.print o.filled_total;
    fee = text.print o.fee;
    fee_asset = o.fee_asset;
    time_in_force = o.time_in_force;
    stop_price = text.print o.stop_price.value;
    visible_amount = text.print o.visible;
    created_at = seconds o.created_at;
    updated_at = seconds o.updated_at;
  }

  unfoldable pub convert_trade_to_proto : Trade A → ProtoTrade
  convert_trade_to_proto t = record {
    id = t.id;
    taker_order_id = t.taker_order_id;
    maker_order_id = t.maker_order_id;
    user_id = t.user_id;
    maker_user_id = t.maker_user_id;
    symbol = t.symbol;
    price = text.print t.price;
    amount = text.print t.amount;
    total = text.print t.total;
    fee = text.print t.fee;
    fee_asset = t.fee_asset;
    side = t.side;
    created_at = seconds t.created_at;
  }

  -- The loops of `GetDepth`, on one side.
  unfoldable pub convert_levels : List (DepthLevel A) → List ProtoLevel
  convert_levels ls =
      map
        (λ (l : DepthLevel A). record { price = text.print l.price; amount = text.print l.amount })
        ls

  unfoldable pub convert_ticker : Ticker A → ProtoTicker
  convert_ticker t = record {
    symbol = t.symbol;
    last_price = text.print t.last_price;
    bid_price = text.print t.bid_price;
    bid_amount = text.print t.bid_amount;
    ask_price = text.print t.ask_price;
    ask_amount = text.print t.ask_amount;
    timestamp = t.timestamp;
  }
