-- ===== src/OrderBook/Consistent.antt =====
-- What ties the parts of a book of internal/orderbook/orderbook.go together: the two trees, the price
-- levels with their lists and totals, and the index.
pub mod Create
pub mod Push
pub mod Add
pub mod Pull
pub mod Drop
pub mod Remove
use matchengine.Prelude.{
  ℕ, ◌≡◌, ◌<◌, ◌≤◌, sym, ap, ◌∙◌, subst, arith, All-imp₂, Bool, true, false, if◌then◌else◌, List,
  All, Option, some, none,
}
use matchengine.Decimal.{Decimal}
use matchengine.RbTree
use matchengine.RbTree.{RbTree}
use matchengine.RbTree.Valid.{IsValid}
use matchengine.Models.Order.{Order, is_buy}
use matchengine.Store.{Element, Store, PriceLevel}
use matchengine.OrderBook.Level.{sum_remain, is_empty}
use matchengine.OrderBook.Book.{OrderBook, OrderEntry, side_tree, find_entry}
use matchengine.OrderBook.Index.{IsIndex}
use matchengine.OrderBook.Elements.{find_element, Unique, sum_remain-same}

module _ {A : Type 0} ⦃d : Decimal A⦄ where
  -- The level at a price of a side.
  abbrev pub level_at : OrderBook A → Bool → A → Option ℕ
  level_at ob buys p = RbTree.get d.cmp (side_tree buys ob) p

  -- An element of the level `l` at the price `p`: its order belongs there, and the index points back.
  pub record ElementOk (st : Store A) (index : List (ℕ × OrderEntry)) (buys : Bool) (p : A) (l : ℕ)
      (x : Element) : Type 0 where
    pub old : x.address < st.next_element
    pub indexed :
        find_entry (st.orders x.order).id index
        ≡ some (record { order = x.order; level = l; element = x.address })
    pub same_side : is_buy (st.orders x.order) ≡ buys
    pub same_price : (st.orders x.order).price ≡ p

  pub record LevelOk (st : Store A) (index : List (ℕ × OrderEntry)) (buys : Bool) (p : A) (l : ℕ)
      : Type 0 where
    pub old : l < st.next_level
    pub price : (st.levels l).price ≡ p
    pub total : (st.levels l).total ≡ sum_remain st d.zero (st.levels l).orders
    pub elements : All (ElementOk st index buys p l) (st.levels l).orders
    pub unique : Unique (st.levels l).orders

  -- An entry of the index: the order has that id, and stands in the level of its price, where the entry
  -- says.
  pub record EntryOk (st : Store A) (ob : OrderBook A) (id : ℕ) (e : OrderEntry) : Type 0 where
    pub same_id : (st.orders e.order).id ≡ id
    pub listed : level_at ob (is_buy (st.orders e.order)) (st.orders e.order).price ≡ some e.level
    pub held : find_element e.element (st.levels e.level).orders ≡ some e.order

  -- A consistent book. A level may be empty, as a new one is for a moment.
  pub record IsConsistent (st : Store A) (ob : OrderBook A) : Type 0 where
    pub bids_first_high : ob.bids.desc ≡ true
    pub asks_first_low : ob.asks.desc ≡ false
    pub bids_valid : IsValid d.cmp ob.bids
    pub asks_valid : IsValid d.cmp ob.asks
    pub index : IsIndex ob.orders
    pub entries : (id : ℕ) (e : OrderEntry) → find_entry id ob.orders ≡ some e → EntryOk st ob id e
    pub levels :
        (buys : Bool) (p : A) (l : ℕ) → level_at ob buys p ≡ some l → LevelOk st ob.orders buys p l
    pub apart :
        (b c : Bool) (p q : A) (l : ℕ)
        → level_at ob b p ≡ some l
        → level_at ob c q ≡ some l
        → (b ≡ c) × (p ≡ q)

  pub side-IsValid :
      (st : Store A) (ob : OrderBook A) (c : Bool)
      → IsConsistent st ob
      → IsValid d.cmp (side_tree c ob)
  side-IsValid st ob true v = v.bids_valid
  side-IsValid st ob false v = v.asks_valid

  -- A level that is as it was, while the store and the index change elsewhere.
  pub LevelOk-keep :
      {st : Store A} {index : List (ℕ × OrderEntry)} {buys : Bool} {p : A} {l : ℕ} (st' : Store A)
      (index' : List (ℕ × OrderEntry))
      → st'.orders ≡ st.orders
      → st'.levels l ≡ st.levels l
      → st.next_level ≤ st'.next_level
      → st.next_element ≤ st'.next_element
      → All
          (λ x. find_entry (st.orders x.order).id index' ≡ find_entry (st.orders x.order).id index)
          (st.levels l).orders
      → LevelOk st index buys p l
      → LevelOk st' index' buys p l
  LevelOk-keep {st} {index} {buys} {p} {l} st' index' same level n m keep v = record {
    old = omega (arith, v.old, n);
    price = ap (λ (x : PriceLevel A). x.price) level ∙ v.price;
    total =
        ap (λ (x : PriceLevel A). x.total) level
        ∙ v.total
        ∙ sym (
            ap (λ (x : PriceLevel A). sum_remain st' d.zero x.orders) level
            ∙ sum_remain-same st st' d.zero (st.levels l).orders same);
    elements =
        subst (λ (x : PriceLevel A). All (ElementOk st' index' buys p l) x.orders) (sym level)
          (All-imp₂ (λ x k e. ElementOk-keep x k e) (st.levels l).orders keep v.elements);
    unique = subst (λ (x : PriceLevel A). Unique x.orders) (sym level) v.unique;
  }
    where
      ElementOk-keep :
          (x : Element)
          → find_entry (st.orders x.order).id index' ≡ find_entry (st.orders x.order).id index
          → ElementOk st index buys p l x
          → ElementOk st' index' buys p l x
      ElementOk-keep x k e = record {
        old = omega (arith, e.old, m);
        indexed = ap (λ (f : ℕ → Order A). find_entry (f x.order).id index') same ∙ k ∙ e.indexed;
        same_side = ap (λ (f : ℕ → Order A). is_buy (f x.order)) same ∙ e.same_side;
        same_price = ap (λ (f : ℕ → Order A). (f x.order).price) same ∙ e.same_price;
      }
