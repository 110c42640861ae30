-- ===== src/Matching/Stop.antt =====
-- internal/matching/stop.go: `StopMatcher`, `StopOrderManager` and `StopOrderTree`.
use matchengine.Prelude.{
  ℕ, ◌-◌, Bool, true, false, if◌then◌else◌, ◌==◌, leb, ◌&&◌, not, List, [], ◌∷◌, ◌++◌, Option, some,
  none, length, take, drop, map,
}
use mathlib.Core.List.{reverse}
use matchengine.Decimal.{
  Decimal, less_than, greater_than, less_than_or_equal, greater_than_or_equal, cmp_equal,
}
use matchengine.Models.Order.{OrderType, stop_limit, stop_market, Boxed, is_buy}
use matchengine.Store.{Store, Env, set_order}
use matchengine.OrderBook.{OrderBook}
use matchengine.Matching.Limit.{Matched, start, match_limit}
use matchengine.Matching.Market.{match_market}

module _ {A : Type 0} ⦃d : Decimal A⦄ where
  abbrev trigger : Store A → ℕ → Store A
  trigger st order = set_order st order (record (st.orders order) { triggered = true })

  unfoldable pub check_trigger : Store A → ℕ → A → Bool × Store A
  check_trigger st order last_price =
      let o = st.orders order in
      if o.triggered
      then (true, st)
      else if (if is_buy o
          then less_than_or_equal last_price o.stop_price.value
          else greater_than_or_equal last_price o.stop_price.value)
      then (true, trigger st order)
      else (false, st)

module _ {A : Type 0} ⦃d : Decimal A⦄ (env : Env) where
  -- The `switch` on the order's type, once it is triggered.
  unfoldable pub match_triggered : OrderType → ℕ → Store A → OrderBook A → ℕ → Option (Matched A)
  match_triggered stop_limit fuel st ob taker = match_limit env fuel st ob taker
  match_triggered stop_market fuel st ob taker = match_market env fuel st ob taker
  match_triggered _ fuel st ob taker = some (start env st ob taker)

  -- `StopMatcher.Match`
  unfoldable pub match_stop : ℕ → Store A → OrderBook A → ℕ → Option (Matched A)
  match_stop fuel st ob taker =
      let o = st.orders taker in
      if not o.triggered
      then some (start env st ob taker)
      else match_triggered o.order_type fuel st ob taker

-- The orders of one price: a `map[uint64]*Order`.
abbrev pub Bucket : Type 0
Bucket = List (ℕ × ℕ)

abbrev pub is_no_order : Bucket → Bool
is_no_order [] = true
is_no_order (e ∷ es) = false

abbrev pub bucket_of : Option Bucket → Bucket
bucket_of none = []
bucket_of (some b) = b

-- `orders` is keyed by decimals, which Go compares by the identity of their `big.Int`.
pub record StopOrderTree (A : Type 0) : Type 0 where
  pub orders : List (ℕ × Bucket)
  pub prices : List (Boxed A)
  pub asc : Bool

pub record StopOrderManager (A : Type 0) : Type 0 where
  pub buy_stops : StopOrderTree A
  pub sell_stops : StopOrderTree A

-- Go's maps, as association lists.
module _ {V : Type 0} where
  unfoldable pub map_get : ℕ → List (ℕ × V) → Option V
  map_get k [] = none
  map_get k ((j, v) ∷ m) = if j == k then some v else map_get k m

  unfoldable pub map_set : ℕ → V → List (ℕ × V) → List (ℕ × V)
  map_set k v [] = (k, v) ∷ []
  map_set k v ((j, w) ∷ m) = if j == k then (k, v) ∷ m else (j, w) ∷ map_set k v m

  unfoldable pub map_delete : ℕ → List (ℕ × V) → List (ℕ × V)
  map_delete k [] = []
  map_delete k ((j, w) ∷ m) = if j == k then m else (j, w) ∷ map_delete k m

module _ {A : Type 0} ⦃d : Decimal A⦄ where
  unfoldable pub new_stop_order_tree : Bool → StopOrderTree A
  new_stop_order_tree asc = record { orders = []; prices = []; asc = asc }

  unfoldable pub should_swap : Bool → A → A → Bool
  should_swap asc p before =
      if asc && less_than p before then true else not asc && greater_than p before

  -- The inner loop of `sortPrices`: the price at `j` moves down past those before it, which are
  -- listed nearest first.
  unfoldable pub sift : Bool → Boxed A → List (Boxed A) → List (Boxed A)
  sift asc p [] = p ∷ []
  sift asc p (q ∷ qs) = if should_swap asc p.value q.value then q ∷ sift asc p qs else p ∷ q ∷ qs

  -- The outer loop: the first list is what lies before `i`, nearest first.
  unfoldable pub sort_from : Bool → List (Boxed A) → List (Boxed A) → List (Boxed A)
  sort_from asc before [] = before
  sort_from asc before (p ∷ ps) = sort_from asc (sift asc p before) ps

  unfoldable pub sort_prices : Bool → List (Boxed A) → List (Boxed A)
  sort_prices asc prices = reverse (sort_from asc [] prices)

  unfoldable pub insert_stop : StopOrderTree A → Boxed A → ℕ → ℕ → StopOrderTree A
  insert_stop t price id order = elim (map_get price.pointer t.orders) [
    | none ↦ record t {
      orders = map_set price.pointer ((id, order) ∷ []) t.orders;
      prices = sort_prices t.asc (t.prices ++ price ∷ []);
    }
    | some bucket ↦ record t { orders = map_set price.pointer (map_set id order bucket) t.orders }
  ]

  -- The first price that is numerically equal goes.
  unfoldable pub remove_price : A → List (Boxed A) → List (Boxed A)
  remove_price price [] = []
  remove_price price (p ∷ ps) = if cmp_equal p.value price then ps else p ∷ remove_price price ps

  unfoldable pub delete_stop : StopOrderTree A → Boxed A → ℕ → StopOrderTree A
  delete_stop t price id = elim (map_get price.pointer t.orders) [
    | none ↦ t
    | some bucket ↦
        let bucket' = map_delete id bucket in
        if is_no_order bucket'
        then record t {
          orders = map_delete price.pointer t.orders;
          prices = remove_price price.value t.prices;
        }
        else record t { orders = map_set price.pointer bucket' t.orders }
  ]

  unfoldable pub trigger_all : Store A → List ℕ → Store A
  trigger_all st [] = st
  trigger_all st (o ∷ os) = trigger_all (trigger st o) os

  -- The two loops over the prices, from the end that the method starts at: `passes` is its test. The
  -- result holds the orders found, the store and the map.
  unfoldable pub take_triggered :
      (A → Bool)
      → List (Boxed A)
      → List (ℕ × Bucket)
      → List ℕ
      → Store A
      → List ℕ × Store A × List (ℕ × Bucket)
  take_triggered passes [] orders found st = (found, st, orders)
  take_triggered passes (p ∷ ps) orders found st =
      let hit = map (λ (e : ℕ × ℕ). e.1) (bucket_of (map_get p.pointer orders)) in
      let rest =
        take_triggered passes ps (map_delete p.pointer orders) (found ++ hit)
          (trigger_all st hit) in
      if passes p.value then rest else (found, st, orders)

  -- `none` is the panic of a slice expression out of range: the method drops as many prices as it
  -- found orders.
  unfoldable pub get_orders_below_price :
      Store A → StopOrderTree A → A → Option (List ℕ × Store A × StopOrderTree A)
  get_orders_below_price st t price =
      let (found, st', orders) =
        take_triggered (λ p. less_than_or_equal p price) t.prices t.orders [] st in
      if leb (length found) (length t.prices)
      then some (found, st', record t { orders = orders; prices = drop (length found) t.prices })
      else none

  unfoldable pub get_orders_above_price :
      Store A → StopOrderTree A → A → Option (List ℕ × Store A × StopOrderTree A)
  get_orders_above_price st t price =
      let (found, st', orders) =
        take_triggered (λ p. greater_than_or_equal p price) (reverse t.prices) t.orders [] st in
      if leb (length found) (length t.prices)
      then some (
        found,
        st',
        record t { orders = orders; prices = take (length t.prices - length found) t.prices },
      )
      else none

  unfoldable pub new_stop_order_manager : StopOrderManager A
  new_stop_order_manager = record {
    buy_stops = new_stop_order_tree true;
    sell_stops = new_stop_order_tree false;
  }

  unfoldable pub add_stop_order : Store A → StopOrderManager A → ℕ → StopOrderManager A
  add_stop_order st m order =
      let o = st.orders order in
      if is_buy o
      then record m { buy_stops = insert_stop m.buy_stops o.stop_price o.id order }
      else record m { sell_stops = insert_stop m.sell_stops o.stop_price o.id order }

  unfoldable pub remove_stop_order : Store A → StopOrderManager A → ℕ → StopOrderManager A
  remove_stop_order st m order =
      let o = st.orders order in
      if is_buy o
      then record m { buy_stops = delete_stop m.buy_stops o.stop_price o.id }
      else record m { sell_stops = delete_stop m.sell_stops o.stop_price o.id }

  unfoldable pub get_triggered_orders :
      Store A → StopOrderManager A → A → Option (List ℕ × Store A × StopOrderManager A)
  get_triggered_orders st m last_price = elim (get_orders_below_price st m.buy_stops last_price) [
    | none ↦ none
    | some (buys, st₁, buy_stops) ↦ elim (get_orders_above_price st₁ m.sell_stops last_price) [
      | none ↦ none
      | some (sells, st₂, sell_stops) ↦
          some (buys ++ sells, st₂, record { buy_stops = buy_stops; sell_stops = sell_stops })
    ]
  ]
