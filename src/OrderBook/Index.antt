-- ===== src/OrderBook/Index.antt =====
-- The index by order id of internal/orderbook/orderbook.go, through `AddOrder` and `RemoveOrder`.
use matchengine.Prelude.{
  ℕ, ◌≡◌, ◌≢◌, refl, sym, subst, arith, Bool-cases, inl, inr, ==_iff, if◌then◌else◌, ◌==◌, List, [],
  ◌∷◌, All, Option, some, none,
}
use matchengine.Decimal.{Decimal}
use matchengine.Store.{Store}
use matchengine.OrderBook.Book.{
  OrderBook, OrderEntry, find_entry, set_entry, delete_entry, add_order, remove_order, remove_entry,
  get_order,
}

-- No id stands twice, as in a Go map.
abbrev pub IsIndex : List (ℕ × OrderEntry) → Type 0
IsIndex [] = Unit
IsIndex ((j, e) ∷ m) = All (λ x. x.0 ≢ j) m × IsIndex m

pub find_entry-set_entry :
    (id j : ℕ) (e : OrderEntry) (m : List (ℕ × OrderEntry))
    → find_entry j (set_entry id e m) ≡ (if id == j then some e else find_entry j m)
unfolding find_entry set_entry
find_entry-set_entry id j e [] = refl
find_entry-set_entry id j e ((k, f) ∷ m) = ground (arith, find_entry-set_entry id j e m)

pub find_entry-absent :
    (id : ℕ) (m : List (ℕ × OrderEntry)) → All (λ x. x.0 ≢ id) m → find_entry id m ≡ none
unfolding find_entry
find_entry-absent id [] h = refl
find_entry-absent id ((k, f) ∷ m) h = ground (arith, h.0, find_entry-absent id m h.1)

pub find_entry-delete_entry :
    (id j : ℕ) (m : List (ℕ × OrderEntry))
    → IsIndex m
    → find_entry j (delete_entry id m) ≡ (if id == j then none else find_entry j m)
unfolding find_entry delete_entry
find_entry-delete_entry id j [] v = ground arith
find_entry-delete_entry id j ((k, f) ∷ m) v =
    ground (arith, find_entry-absent k m v.0, find_entry-delete_entry id j m v.1)

delete_entry-absent :
    (id : ℕ) (m : List (ℕ × OrderEntry)) → find_entry id m ≡ none → delete_entry id m ≡ m
unfolding find_entry delete_entry
delete_entry-absent id [] h = refl
delete_entry-absent id ((k, f) ∷ m) h = ground (arith, h, delete_entry-absent id m)

All-set_entry :
    (k id : ℕ) (e : OrderEntry) (m : List (ℕ × OrderEntry))
    → id ≢ k
    → All (λ x. x.0 ≢ k) m
    → All (λ x. x.0 ≢ k) (set_entry id e m)
unfolding set_entry
All-set_entry k id e [] n h = (n, tt)
All-set_entry k id e ((j, f) ∷ m) n h = ground (arith, All-set_entry k id e m n h.1, h.0, h.1)

All-delete_entry :
    (k id : ℕ) (m : List (ℕ × OrderEntry))
    → All (λ x. x.0 ≢ k) m
    → All (λ x. x.0 ≢ k) (delete_entry id m)
unfolding delete_entry
All-delete_entry k id [] h = tt
All-delete_entry k id ((j, f) ∷ m) h = ground (arith, All-delete_entry k id m h.1, h.0, h.1)

pub IsIndex-set_entry :
    (id : ℕ) (e : OrderEntry) (m : List (ℕ × OrderEntry)) → IsIndex m → IsIndex (set_entry id e m)
unfolding set_entry
IsIndex-set_entry id e [] v = (tt, tt)
IsIndex-set_entry id e ((j, f) ∷ m) v = elim (Bool-cases (j == id)) [
  | inl same ↦ rw same (subst (λ k. All (λ x. x.0 ≢ k) m) ((==_iff j id).0 same) v.0, v.1)
  | inr apart ↦
      rw apart
        (All-set_entry j id e m (λ h. ground (arith, h, apart)) v.0, IsIndex-set_entry id e m v.1)
]

pub IsIndex-delete_entry :
    (id : ℕ) (m : List (ℕ × OrderEntry)) → IsIndex m → IsIndex (delete_entry id m)
unfolding delete_entry
IsIndex-delete_entry id [] v = tt
IsIndex-delete_entry id ((j, f) ∷ m) v = elim (Bool-cases (j == id)) [
  | inl same ↦ rw same v.1
  | inr apart ↦ rw apart (All-delete_entry j id m v.0, IsIndex-delete_entry id m v.1)
]

-- What holds of all entries holds of what is found.
pub find_entry-All :
    (P : OrderEntry → Type 0) (m : List (ℕ × OrderEntry))
    → All (λ x. P x.1) m
    → (id : ℕ) (e : OrderEntry) → find_entry id m ≡ some e
    → P e
unfolding find_entry
find_entry-All P [] h id e k = cc
find_entry-All P ((j, f) ∷ m) h id e k = elim (Bool-cases (j == id)) [
  | inl here ↦ let same : f ≡ e = cc in subst P same h.0
  | inr later ↦ find_entry-All P m h.1 id e (rw later at k)
]

module _ {A : Type 0} ⦃d : Decimal A⦄ where
  book_orders-add :
      (st : Store A) (ob : OrderBook A) (r : ℕ)
      → (e : OrderEntry) × (e.order ≡ r)
        × ((add_order st ob r).1.orders ≡ set_entry (st.orders r).id e ob.orders)
  unfolding add_order
  book_orders-add st ob r = (_, refl, refl)

  -- `GetOrder` after `AddOrder`: the new order at its id, what was there at every other id.
  pub get_order-add_order :
      (st : Store A) (ob : OrderBook A) (r j : ℕ)
      → get_order (add_order st ob r).1 j
        ≡ (if (st.orders r).id == j then some r else get_order ob j)
  unfolding get_order
  get_order-add_order st ob r j =
      let (e, h, k) = book_orders-add st ob r in
      ground (arith, k, h, find_entry-set_entry (st.orders r).id j e ob.orders)

  -- `AddOrder` keeps the ids of the index apart.
  pub add_order-IsIndex :
      (st : Store A) (ob : OrderBook A) (r : ℕ)
      → IsIndex ob.orders
      → IsIndex (add_order st ob r).1.orders
  add_order-IsIndex st ob r v =
      let (e, h, k) = book_orders-add st ob r in
      subst IsIndex (sym k) (IsIndex-set_entry (st.orders r).id e ob.orders v)

  book_orders-remove :
      (st : Store A) (ob : OrderBook A) (id : ℕ)
      → (remove_order st ob id).2.orders ≡ delete_entry id ob.orders
  unfolding remove_order remove_entry
  book_orders-remove st ob id = by_entry (find_entry id ob.orders) refl
    where
      by_entry :
          (o : Option OrderEntry)
          → find_entry id ob.orders ≡ o
          → (remove_order st ob id).2.orders ≡ delete_entry id ob.orders
      by_entry none missing =
          rw (missing, remove_order) (sym (delete_entry-absent id ob.orders missing))
      by_entry (some e) found = rw (found, remove_order) refl

  -- `RemoveOrder` returns what `GetOrder` finds, and `GetOrder` after it finds nothing at that id and
  -- what was there at every other id; the ids of the index stay apart.
  pub remove_order_lem :
      (st : Store A) (ob : OrderBook A) (id : ℕ)
      → IsIndex ob.orders
      → ((remove_order st ob id).0 ≡ get_order ob id)
        × ((j : ℕ)
            → get_order (remove_order st ob id).2 j ≡ (if id == j then none else get_order ob j))
        × IsIndex (remove_order st ob id).2.orders
  remove_order_lem st ob id v = (
    unfold remove_order get_order in ground arith,
    (λ j.
        unfold get_order in
        ground (arith, book_orders-remove st ob id, find_entry-delete_entry id j ob.orders v)),
    subst IsIndex (sym (book_orders-remove st ob id)) (IsIndex-delete_entry id ob.orders v),
  )
