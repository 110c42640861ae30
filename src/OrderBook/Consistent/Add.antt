-- ===== src/OrderBook/Consistent/Add.antt =====
-- `AddOrder` of internal/orderbook/orderbook.go as a whole.
use matchengine.Prelude.{
  ℕ, ◌≡◌, refl, sym, ap, ◌∙◌, subst, Bool, true, false, none, Option-cases, inl, inr, arith,
}
use matchengine.Decimal.{Decimal}
use matchengine.RbTree
use matchengine.RbTree.Valid.{new_rb_tree-IsValid}
use matchengine.Models.Order.{is_buy}
use matchengine.Store.{Store}
use matchengine.OrderBook.Level.{new_price_level, push_order}
use matchengine.OrderBook.Book.{
  OrderBook, find_entry, set_entry, with_side, side_tree, add_order, get_or_create_level,
  new_order_book,
}
use matchengine.OrderBook.Consistent.{level_at, IsConsistent}
use matchengine.OrderBook.Consistent.Create.{create-IsConsistent, level_at-insert_self, same_index}
use matchengine.OrderBook.Consistent.Push.{push-IsConsistent}

module _ {A : Type 0} ⦃d : Decimal A⦄ where
  move : {st : Store A} {ob ob' : OrderBook A} → IsConsistent st ob → ob ≡ ob' → IsConsistent st ob'
  move {st} v e = subst (IsConsistent st) e v

  with_side_self : (c : Bool) (ob : OrderBook A) → with_side c ob (side_tree c ob) ≡ ob
  with_side_self true ob = refl
  with_side_self false ob = refl

  -- `AddOrder` of an order with an id that the index does not have leaves a consistent book consistent.
  pub add_order-IsConsistent :
      (st : Store A) (ob : OrderBook A) (r : ℕ)
      → IsConsistent st ob
      → find_entry (st.orders r).id ob.orders ≡ none
      → IsConsistent (add_order st ob r).0 (add_order st ob r).1
  unfolding add_order get_or_create_level new_price_level push_order
  add_order-IsConsistent st ob r v new =
      let o = st.orders r in
      let c = is_buy o in
      elim (Option-cases (level_at ob c o.price)) [
        | inr (l, listed) ↦ rw listed (
            move (push-IsConsistent v r l listed new) (
              ap
                (λ (ob' : OrderBook A). record ob' {
                  orders =
                      set_entry o.id (record { order = r; level = l; element = st.next_element })
                        ob.orders;
                })
                (sym (with_side_self c ob))))
        | inl free ↦
            let made = create-IsConsistent v c o.price free in
            rw free (
              move
                (push-IsConsistent made r st.next_level
                  (level_at-insert_self v c o.price st.next_level)
                  (ap (find_entry o.id) (same_index v c o.price free) ∙ new))
                (ap
                  (λ index.
                    record (with_side c ob
                      (RbTree.insert d.cmp (side_tree c ob) o.price st.next_level)) {
                        orders =
                            set_entry o.id
                              (record {
                                order = r;
                                level = st.next_level;
                                element = st.next_element;
                              })
                              index;
                      })
                  (same_index v c o.price free)))
      ]

  -- An empty book is consistent.
  pub new_order_book-IsConsistent :
      (st : Store A) (symbol : _) → IsConsistent st (new_order_book symbol)
  unfolding new_order_book RbTree.new_rb_tree RbTree.get RbTree.search_node
  new_order_book-IsConsistent st symbol = record {
    bids_first_high = refl;
    asks_first_low = refl;
    bids_valid = new_rb_tree-IsValid d.ordered true;
    asks_valid = new_rb_tree-IsValid d.ordered false;
    index = tt;
    entries = λ id e h. unfold find_entry in cc;
    levels = λ b p l h. ground (arith, h);
    apart = λ b c p q l h k. ground (arith, h);
  }
