-- ===== src/Models/Trade.antt =====
-- internal/models/trade.go: `Trade`, `NewTrade`, `TradeResult`. Orders are references into the store.
use Prim.Native.String.{String}
use matchengine.Prelude.{
  ℕ, Bool, true, false, if◌then◌else◌, List, [], ◌∷◌, ◌++◌, Option, some, none,
}
use matchengine.Decimal.{Decimal}
use matchengine.Models.Order.{Order, OrderSide, buy, sell, is_buy}

pub record Trade (A : Type 0) : Type 0 where
  pub id : ℕ
  pub order_id : ℕ
  pub taker_order_id : ℕ
  pub maker_order_id : ℕ
  pub user_id : ℕ
  pub maker_user_id : ℕ
  pub symbol : String
  pub price : A
  pub amount : A
  pub total : A
  pub fee : A
  pub fee_asset : String
  pub side : OrderSide
  pub taker_side : OrderSide
  pub created_at : ℕ

module _ {A : Type 0} ⦃d : Decimal A⦄ where
  -- `order_id` and `fee_asset` are left at their zero values.
  unfoldable pub new_trade : ℕ → ℕ → String → Order A → Order A → A → A → Trade A
  new_trade now id symbol taker maker price amount =
      let total = d.mul price amount in
      let taker_side = if is_buy taker then buy else sell in
      record {
        id = id;
        order_id = 0;
        taker_order_id = taker.id;
        maker_order_id = maker.id;
        user_id = taker.user_id;
        maker_user_id = maker.user_id;
        symbol = symbol;
        price = price;
        amount = amount;
        total = total;
        fee = if is_buy taker then d.mul total d.fee_rate else d.mul amount d.fee_rate;
        fee_asset = "";
        side = taker_side;
        taker_side = taker_side;
        created_at = now;
      }

-- `taker_order` and `maker_order` are nil until they are set.
pub record TradeResult (A : Type 0) : Type 0 where
  pub taker_order : Option ℕ
  pub maker_order : Option ℕ
  pub trade : Option (Trade A)
  pub trades : List (Trade A)

module _ {A : Type 0} where
  unfoldable pub new_trade_result : TradeResult A
  new_trade_result = record { taker_order = none; maker_order = none; trade = none; trades = [] }

  unfoldable pub add_trade : TradeResult A → Trade A → TradeResult A
  add_trade r trade = record r { trades = r.trades ++ trade ∷ []; trade = some trade }

  abbrev pub is_nonempty : List (Trade A) → Bool
  is_nonempty [] = false
  is_nonempty (t ∷ ts) = true

  unfoldable pub has_trade : TradeResult A → Bool
  has_trade r = is_nonempty r.trades
