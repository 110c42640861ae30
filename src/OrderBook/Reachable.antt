-- ===== src/OrderBook/Reachable.antt =====
-- The states of a book of internal/orderbook/orderbook.go under calls of `AddOrder` and `RemoveOrder`.
use Prim.Native.String.{String}
use matchengine.Prelude.{ℕ, ◌≡◌, none}
use matchengine.Decimal.{Decimal}
use matchengine.Store.{Store}
use matchengine.OrderBook.Book.{OrderBook, new_order_book, find_entry, add_order, remove_order}
use matchengine.OrderBook.Consistent.{IsConsistent}
use matchengine.OrderBook.Consistent.Add.{add_order-IsConsistent, new_order_book-IsConsistent}
use matchengine.OrderBook.Consistent.Remove.{remove_order-IsConsistent}

module _ {A : Type 0} ⦃d : Decimal A⦄ where
  -- A call of the book: an order with an id that the index does not have is added, or any id is removed.
  pub data Step (st : Store A) (ob : OrderBook A) : Store A → OrderBook A → Type 0 where
    add :
        (r : ℕ)
        → find_entry (st.orders r).id ob.orders ≡ none
        → Step st ob (add_order st ob r).0 (add_order st ob r).1
    remove : (id : ℕ) → Step st ob (remove_order st ob id).1 (remove_order st ob id).2

  -- What calls lead to from a new book.
  pub data Reachable (begin : Store A) (symbol : String) : Store A → OrderBook A → Type 0 where
    created : Reachable begin symbol begin (new_order_book symbol)
    called :
        {st st' : Store A} {ob ob' : OrderBook A}
        → Reachable begin symbol st ob
        → Step st ob st' ob'
        → Reachable begin symbol st' ob'

  Step-IsConsistent :
      {st : Store A} {ob : OrderBook A} {st' : Store A} {ob' : OrderBook A}
      → Step st ob st' ob'
      → IsConsistent st ob
      → IsConsistent st' ob'
  Step-IsConsistent {st} {ob} (add r new) v = add_order-IsConsistent st ob r v new
  Step-IsConsistent {st} {ob} (remove id) v = remove_order-IsConsistent st ob id v

  -- Every state that calls lead to from a new book is consistent.
  pub Reachable-IsConsistent :
      {begin : Store A} {symbol : String} {st : Store A} {ob : OrderBook A}
      → Reachable begin symbol st ob
      → IsConsistent st ob
  Reachable-IsConsistent {begin} {symbol} created = new_order_book-IsConsistent begin symbol
  Reachable-IsConsistent (called r s) = Step-IsConsistent s (Reachable-IsConsistent r)
