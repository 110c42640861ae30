-- ===== src/OrderBook/Book.antt =====
-- internal/orderbook/orderbook.go: `OrderBook`. Its mutex is held through each method, so that a
-- method is one step. The trees hold references of price levels.
use Prim.Native.String.{String}
use matchengine.Prelude.{
  ℕ, suc, Bool, true, false, if◌then◌else◌, ◌==◌, leb, List, [], ◌∷◌, ◌++◌, Option, some, none,
  length,
}
use matchengine.Prelude.Int.{ℤ, pos, negsuc}
use matchengine.Decimal.{Decimal}
use matchengine.RbTree
use matchengine.RbTree.{RbTree}
use matchengine.Models.Order.{is_buy}
use matchengine.Models.Market.{Depth, DepthLevel}
use matchengine.Store.{Store, Env, set_level, remove_element}
use matchengine.OrderBook.Level.{new_price_level, push_order, is_empty, update_total}

pub record OrderEntry : Type 0 where
  pub order : ℕ
  pub level : ℕ
  pub element : ℕ

-- `orders` is the index by order id.
pub record OrderBook (A : Type 0) : Type 0 where
  pub symbol : String
  pub bids : RbTree A ℕ
  pub asks : RbTree A ℕ
  pub orders : List (ℕ × OrderEntry)

unfoldable pub find_entry : ℕ → List (ℕ × OrderEntry) → Option OrderEntry
find_entry id [] = none
find_entry id ((j, e) ∷ m) = if j == id then some e else find_entry id m

unfoldable pub set_entry : ℕ → OrderEntry → List (ℕ × OrderEntry) → List (ℕ × OrderEntry)
set_entry id e [] = (id, e) ∷ []
set_entry id e ((j, f) ∷ m) = if j == id then (id, e) ∷ m else (j, f) ∷ set_entry id e m

unfoldable pub delete_entry : ℕ → List (ℕ × OrderEntry) → List (ℕ × OrderEntry)
delete_entry id [] = []
delete_entry id ((j, f) ∷ m) = if j == id then m else (j, f) ∷ delete_entry id m

module _ {A : Type 0} where
  unfoldable pub new_order_book : String → OrderBook A
  new_order_book symbol = record {
    symbol = symbol;
    bids = RbTree.new_rb_tree true;
    asks = RbTree.new_rb_tree false;
    orders = [];
  }

  -- The tree of the order's own side, and the book with that tree replaced.
  abbrev pub side_tree : Bool → OrderBook A → RbTree A ℕ
  side_tree buys ob = if buys then ob.bids else ob.asks

  abbrev pub with_side : Bool → OrderBook A → RbTree A ℕ → OrderBook A
  with_side buys ob t = if buys then record ob { bids = t } else record ob { asks = t }

module _ {A : Type 0} ⦃d : Decimal A⦄ where
  -- `tree.Get`, or a new level that is inserted.
  unfoldable pub get_or_create_level :
      Store A → RbTree A ℕ → A → Option ℕ → ℕ × Store A × RbTree A ℕ
  get_or_create_level st tree price (some level) = (level, st, tree)
  get_or_create_level st tree price none =
      let (level, st') = new_price_level st price in
      (level, st', RbTree.insert d.cmp tree price level)

  unfoldable pub add_order : Store A → OrderBook A → ℕ → Store A × OrderBook A
  add_order st ob order =
      let o = st.orders order in
      let tree = side_tree (is_buy o) ob in
      let (level, st₁, tree₁) =
        get_or_create_level st tree o.price (RbTree.get d.cmp tree o.price) in
      let (st₂, element) = push_order st₁ level order in
      (
        st₂,
        record (with_side (is_buy o) ob tree₁) {
          orders =
              set_entry o.id (record { order = order; level = level; element = element }) ob.orders;
        },
      )

  unfoldable pub remove_entry : Store A → OrderBook A → ℕ → OrderEntry → Store A × OrderBook A
  remove_entry st ob id e =
      let l = st.levels e.level in
      let o = st.orders e.order in
      let st₁ = set_level st e.level (record l {
        orders = remove_element e.element l.orders;
        total = d.sub l.total o.remain_amount;
      }) in
      let tree = side_tree (is_buy o) ob in
      let ob₁ =
        if is_empty st₁ e.level
        then with_side (is_buy o) ob (RbTree.delete d.cmp tree o.price)
        else ob in
      (st₁, record ob₁ { orders = delete_entry id ob.orders })

  unfoldable pub remove_order : Store A → OrderBook A → ℕ → Option ℕ × Store A × OrderBook A
  remove_order st ob id = elim (find_entry id ob.orders) [
    | none ↦ (none, st, ob)
    | some e ↦ let (st', ob') = remove_entry st ob id e in (some e.order, st', ob')
  ]

  unfoldable pub get_order : OrderBook A → ℕ → Option ℕ
  get_order ob id = elim (find_entry id ob.orders) [ none ↦ none | some e ↦ some e.order ]

  unfoldable pub get_best_bid : OrderBook A → Option ℕ
  get_best_bid ob = RbTree.max_level ob.bids

  unfoldable pub get_best_ask : OrderBook A → Option ℕ
  get_best_ask ob = RbTree.min_level ob.asks

  -- The callback of `GetDepth`, on what has been collected and `count`.
  unfoldable pub collect_level :
      Store A → ℕ → A → ℕ → List (DepthLevel A) × ℕ → Bool × (List (DepthLevel A) × ℕ)
  collect_level st limit price level (found, count) =
      if leb limit count then (false, (found, count)) else (
        true,
        (found ++ record { price = price; amount = (st.levels level).total } ∷ [], suc count),
      )

  -- None is the panic of `make`, for a capacity that is negative or too large.
  unfoldable pub get_depth : Env → Store A → OrderBook A → ℤ → Option (Depth A)
  get_depth env st ob (negsuc n) = none
  get_depth env st ob (pos limit) =
      if leb limit env.max_capacity
      then some (record {
        symbol = ob.symbol;
        bids = (RbTree.ascend (collect_level st limit) ob.bids ([], 0)).0;
        asks = (RbTree.ascend (collect_level st limit) ob.asks ([], 0)).0;
      })
      else none

  -- The list element still holds the old order.
  unfoldable pub update_order : Store A → OrderBook A → ℕ → Store A × OrderBook A
  update_order st ob order =
      let id = (st.orders order).id in
      elim (find_entry id ob.orders) [
        | none ↦ (st, ob)
        | some e ↦ (
          update_total st e.level,
          record ob { orders = set_entry id (record e { order = order }) ob.orders },
        )
      ]

  unfoldable pub get_order_count : OrderBook A → ℕ
  get_order_count ob = length ob.orders

  unfoldable pub get_bid_count : OrderBook A → ℕ
  get_bid_count ob = RbTree.size ob.bids

  unfoldable pub get_ask_count : OrderBook A → ℕ
  get_ask_count ob = RbTree.size ob.asks

module _ {A S : Type 0} (f : A → ℕ → S → Bool × S) where
  unfoldable pub ascend_bids : OrderBook A → S → S
  ascend_bids ob s = RbTree.ascend f ob.bids s

  unfoldable pub ascend_asks : OrderBook A → S → S
  ascend_asks ob s = RbTree.ascend f ob.asks s
