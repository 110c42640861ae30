-- ===== src/Models/Market.antt =====
-- internal/models/market.go: `Market`, its status and the validation of orders; `Ticker`, `Depth`.
use Prim.Native.String.{String}
use matchengine.Prelude.{ℕ, Bool, true, false, if◌then◌else◌, not, ◌&&◌, List, Option, some, none}
use matchengine.Decimal.{Decimal, is_zero, less_than, less_than_or_equal, greater_than_or_equal}
use matchengine.Models.Order.{Order, OrderType, limit, market, stop_limit, stop_market}

pub data MarketStatus : Type 0 where
  active suspended closed unknown_market_status : MarketStatus

pub record Market (A : Type 0) : Type 0 where
  pub symbol : String
  pub base_asset : String
  pub quote_asset : String
  pub status : MarketStatus
  pub base_precision : ℕ
  pub quote_precision : ℕ
  pub min_amount : A
  pub min_total : A
  pub price_tick : A
  pub amount_tick : A

abbrev pub is_active_status : MarketStatus → Bool
is_active_status active = true
is_active_status _ = false

-- `Type != Market && Type != StopMarket`
abbrev pub has_price : OrderType → Bool
has_price market = false
has_price stop_market = false
has_price _ = true

-- `Type == Limit || Type == StopLimit`
abbrev pub has_total : OrderType → Bool
has_total limit = true
has_total stop_limit = true
has_total _ = false

-- One test after another, where none is a panic.
abbrev pub both : Option Bool → Option Bool → Option Bool
both none next = none
both (some false) next = some false
both (some true) next = next

module _ {A : Type 0} where
  unfoldable pub new_market : String → String → String → ℕ → ℕ → A → A → A → A → Market A
  new_market symbol base quote base_precision quote_precision min_amount min_total price_tick
        amount_tick =
      record {
        symbol = symbol;
        base_asset = base;
        quote_asset = quote;
        status = active;
        base_precision = base_precision;
        quote_precision = quote_precision;
        min_amount = min_amount;
        min_total = min_total;
        price_tick = price_tick;
        amount_tick = amount_tick;
      }

  unfoldable pub is_active : Market A → Bool
  is_active m = is_active_status m.status

  unfoldable pub suspend : Market A → Market A
  suspend m = record m { status = suspended }

  unfoldable pub resume : Market A → Market A
  resume m = record m { status = active }

  unfoldable pub close : Market A → Market A
  close m = record m { status = closed }

module _ {A : Type 0} ⦃d : Decimal A⦄ where
  -- None is the panic of `Mod` by 0.
  unfoldable pub validate_price : Market A → A → Option Bool
  validate_price m price =
      if less_than_or_equal price d.zero
      then some false
      else if is_zero m.price_tick
      then none
      else some (is_zero (d.mod_of price m.price_tick))

  unfoldable pub validate_amount : Market A → A → Option Bool
  validate_amount m amount =
      if less_than amount m.min_amount
      then some false
      else if is_zero m.amount_tick
      then none
      else some (is_zero (d.mod_of amount m.amount_tick))

  unfoldable pub validate_total : Market A → A → Bool
  validate_total m total = greater_than_or_equal total m.min_total

  -- The tests in turn: the first that fails or panics decides.
  unfoldable pub validate_order : Market A → Order A → Option Bool
  validate_order m o =
      if not (is_active m)
      then some false
      else both (if has_price o.order_type then validate_price m o.price else some true) (
          both (validate_amount m o.amount) (
            some (not (has_total o.order_type && not (validate_total m (d.mul o.price o.amount))))))

pub record Ticker (A : Type 0) : Type 0 where
  pub symbol : String
  pub last_price : A
  pub bid_price : A
  pub bid_amount : A
  pub ask_price : A
  pub ask_amount : A
  pub high_24h : A
  pub low_24h : A
  pub volume_24h : A
  pub amount_24h : A
  pub timestamp : ℕ

pub record DepthLevel (A : Type 0) : Type 0 where
  pub price : A
  pub amount : A

pub record Depth (A : Type 0) : Type 0 where
  pub symbol : String
  pub bids : List (DepthLevel A)
  pub asks : List (DepthLevel A)
