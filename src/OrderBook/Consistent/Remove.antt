-- ===== src/OrderBook/Consistent/Remove.antt =====
-- `RemoveOrder` of internal/orderbook/orderbook.go as a whole.
use matchengine.Prelude.{
  ℕ, ◌≡◌, refl, subst, Bool, true, false, List, [], ◌∷◌, Option, some, none, Bool-cases, inl, inr,
}
use matchengine.Decimal.{Decimal}
use matchengine.RbTree
use matchengine.Models.Order.{is_buy}
use matchengine.Store.{Element, Store}
use matchengine.OrderBook.Level.{is_empty, is_nil}
use matchengine.OrderBook.Book.{
  OrderBook, OrderEntry, find_entry, delete_entry, side_tree, with_side, remove_order, remove_entry,
}
use matchengine.OrderBook.Consistent.{IsConsistent}
use matchengine.OrderBook.Consistent.Pull.{pulled, pull-IsConsistent}
use matchengine.OrderBook.Consistent.Drop.{drop-IsConsistent}

is_nil-eq : (q : List Element) → is_nil q ≡ true → q ≡ []
is_nil-eq [] h = refl
is_nil-eq (x ∷ q) h = cc

module _ {A : Type 0} ⦃d : Decimal A⦄ where
  move : {st : Store A} {ob ob' : OrderBook A} → IsConsistent st ob → ob ≡ ob' → IsConsistent st ob'
  move {st} v e = subst (IsConsistent st) e v

  -- The index is written after the tree in the code, before it here.
  drop_first :
      (c : Bool) (ob : OrderBook A) (q : A) (index : List (ℕ × OrderEntry))
      → with_side c
          (record ob { orders = index })
          (RbTree.delete d.cmp (side_tree c (record ob { orders = index })) q)
        ≡ record (with_side c ob (RbTree.delete d.cmp (side_tree c ob) q)) { orders = index }
  drop_first true ob q index = refl
  drop_first false ob q index = refl

  remove_entry-IsConsistent :
      (st : Store A) (ob : OrderBook A) (id : ℕ) (e : OrderEntry)
      → IsConsistent st ob
      → find_entry id ob.orders ≡ some e
      → IsConsistent (remove_entry st ob id e).0 (remove_entry st ob id e).1
  unfolding remove_entry is_empty
  remove_entry-IsConsistent st ob id e v found =
      let o = st.orders e.order in
      let after = pull-IsConsistent v id e found in
      elim (Bool-cases (is_nil ((pulled v id e found).levels e.level).orders)) [
        | inr more ↦ rw more after
        | inl empty ↦ rw empty (
            move
              (drop-IsConsistent after (is_buy o) o.price e.level (v.entries id e found).listed
                (is_nil-eq ((pulled v id e found).levels e.level).orders empty))
              (drop_first (is_buy o) ob o.price (delete_entry id ob.orders)))
      ]

  -- `RemoveOrder` leaves a consistent book consistent, whatever the id.
  pub remove_order-IsConsistent :
      (st : Store A) (ob : OrderBook A) (id : ℕ)
      → IsConsistent st ob
      → IsConsistent (remove_order st ob id).1 (remove_order st ob id).2
  unfolding remove_order
  remove_order-IsConsistent st ob id v = by_entry (find_entry id ob.orders) refl
    where
      by_entry :
          (x : Option OrderEntry)
          → find_entry id ob.orders ≡ x
          → IsConsistent (remove_order st ob id).1 (remove_order st ob id).2
      by_entry none h = rw (h, remove_order) v
      by_entry (some e) h = rw (h, remove_order) (remove_entry-IsConsistent st ob id e v h)
