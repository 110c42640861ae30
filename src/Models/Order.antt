-- ===== src/Models/Order.antt =====
-- internal/models/order.go: the enumerations, `Order` and its methods. An enumeration of the source
-- is an `int`; the `unknown` constructor stands for every value that has no name there.
use Prim.Native.String.{String}
use matchengine.Prelude.{ℕ, Bool, true, false, if◌then◌else◌}
use matchengine.Decimal.{Decimal, is_zero, greater_than}

pub data OrderSide : Type 0 where
  buy sell unknown_side : OrderSide

pub data OrderType : Type 0 where
  limit market stop_limit stop_market iceberg unknown_type : OrderType

pub data OrderStatus : Type 0 where
  new partially_filled filled cancelled expired rejected unknown_status : OrderStatus

-- Good till cancel, immediate or cancel, fill or kill, good till crossing.
pub data TimeInForce : Type 0 where
  gtc ioc fok gtx unknown_time_in_force : TimeInForce

unfoldable pub side_string : OrderSide → String
side_string buy = "buy"
side_string sell = "sell"
side_string unknown_side = "unknown"

unfoldable pub type_string : OrderType → String
type_string limit = "limit"
type_string market = "market"
type_string stop_limit = "stop_limit"
type_string stop_market = "stop_market"
type_string iceberg = "iceberg"
type_string unknown_type = "unknown"

unfoldable pub status_string : OrderStatus → String
status_string new = "new"
status_string partially_filled = "partially_filled"
status_string filled = "filled"
status_string cancelled = "cancelled"
status_string expired = "expired"
status_string rejected = "rejected"
status_string unknown_status = "unknown"

unfoldable pub time_in_force_string : TimeInForce → String
time_in_force_string gtc = "GTC"
time_in_force_string ioc = "IOC"
time_in_force_string fok = "FOK"
time_in_force_string gtx = "GTX"
time_in_force_string unknown_time_in_force = "unknown"

-- A decimal with the identity of its `big.Int`, which Go's `==` on `decimal.Decimal` compares. It
-- matters where a decimal is the key of a map.
pub record Boxed (A : Type 0) : Type 0 where
  pub value : A
  pub pointer : ℕ

-- Times are milliseconds.
pub record Order (A : Type 0) : Type 0 where
  pub id : ℕ
  pub user_id : ℕ
  pub symbol : String
  pub side : OrderSide
  pub order_type : OrderType
  pub status : OrderStatus
  pub price : A
  pub amount : A
  pub filled_amount : A
  pub remain_amount : A
  pub filled_total : A
  pub fee : A
  pub fee_asset : String
  pub time_in_force : TimeInForce
  pub stop_price : Boxed A
  pub visible : A
  pub hidden : A
  pub created_at : ℕ
  pub updated_at : ℕ
  pub triggered : Bool

abbrev pub is_buy_side : OrderSide → Bool
is_buy_side buy = true
is_buy_side _ = false

abbrev pub is_sell_side : OrderSide → Bool
is_sell_side sell = true
is_sell_side _ = false

abbrev pub is_finished_status : OrderStatus → Bool
is_finished_status filled = true
is_finished_status cancelled = true
is_finished_status expired = true
is_finished_status rejected = true
is_finished_status _ = false

abbrev pub is_open_status : OrderStatus → Bool
is_open_status new = true
is_open_status partially_filled = true
is_open_status _ = false

module _ {A : Type 0} where
  unfoldable pub is_buy : Order A → Bool
  is_buy o = is_buy_side o.side

  unfoldable pub is_sell : Order A → Bool
  is_sell o = is_sell_side o.side

  unfoldable pub is_finished : Order A → Bool
  is_finished o = is_finished_status o.status

  unfoldable pub can_cancel : Order A → Bool
  can_cancel o = is_open_status o.status

  unfoldable pub clone : Order A → Order A
  clone o = record {
    id = o.id;
    user_id = o.user_id;
    symbol = o.symbol;
    side = o.side;
    order_type = o.order_type;
    status = o.status;
    price = o.price;
    amount = o.amount;
    filled_amount = o.filled_amount;
    remain_amount = o.remain_amount;
    filled_total = o.filled_total;
    fee = o.fee;
    fee_asset = o.fee_asset;
    time_in_force = o.time_in_force;
    stop_price = o.stop_price;
    visible = o.visible;
    hidden = o.hidden;
    created_at = o.created_at;
    updated_at = o.updated_at;
    triggered = o.triggered;
  }

module _ {A : Type 0} ⦃d : Decimal A⦄ where
  -- `now` is what `time.Now()` reads. The fields that the literal leaves out are zero.
  unfoldable pub new_order :
      ℕ → ℕ → ℕ → String → OrderSide → OrderType → A → A → TimeInForce → Order A
  new_order now id user_id symbol side order_type price amount time_in_force = record {
    id = id;
    user_id = user_id;
    symbol = symbol;
    side = side;
    order_type = order_type;
    status = new;
    price = price;
    amount = amount;
    filled_amount = d.zero;
    remain_amount = amount;
    filled_total = d.zero;
    fee = d.zero;
    fee_asset = "";
    time_in_force = time_in_force;
    stop_price = record { value = d.zero; pointer = 0 };
    visible = d.zero;
    hidden = d.zero;
    created_at = now;
    updated_at = now;
    triggered = false;
  }

  unfoldable pub update_filled : ℕ → Order A → A → A → Order A
  update_filled now o filled_amount filled_total =
      let total_filled = d.add o.filled_amount filled_amount in
      let remain = d.sub o.amount total_filled in
      record o {
        filled_amount = total_filled;
        remain_amount = remain;
        filled_total = d.add o.filled_total filled_total;
        status =
            if is_zero remain
            then filled
            else if greater_than total_filled d.zero
            then partially_filled
            else o.status;
        updated_at = now;
      }

  unfoldable pub average_price : Order A → A
  average_price o = if is_zero o.filled_amount then d.zero else d.div o.filled_total o.filled_amount
