-- ===== src/OrderBook/Level.antt =====
-- internal/orderbook/orderbook.go: the methods of `PriceLevel`, on the level that a reference names.
use matchengine.Prelude.{
  ℕ, suc, Bool, true, false, if◌then◌else◌, ◌==◌, List, [], ◌∷◌, ◌++◌, Option, some, none, map,
}
use matchengine.Decimal.{Decimal}
use matchengine.Store.{Element, Store, set_level, remove_element}

abbrev pub first_order : List Element → Option ℕ
first_order [] = none
first_order (e ∷ es) = some e.order

abbrev pub is_nil : List Element → Bool
is_nil [] = true
is_nil (e ∷ es) = false

module _ {A : Type 0} ⦃d : Decimal A⦄ where
  unfoldable pub new_price_level : Store A → A → ℕ × Store A
  new_price_level st price = (
    st.next_level,
    record (set_level st st.next_level (record { price = price; orders = []; total = d.zero })) {
      next_level = suc st.next_level;
    },
  )

  -- `PushBack` of a new element, and the total. The second result is the element's address.
  unfoldable pub push_order : Store A → ℕ → ℕ → Store A × ℕ
  push_order st level order =
      let l = st.levels level in
      (
        record (set_level st level (record l {
          orders = l.orders ++ record { address = st.next_element; order = order } ∷ [];
          total = d.add l.total (st.orders order).remain_amount;
        })) { next_element = suc st.next_element },
        st.next_element,
      )

  -- `PriceLevel.AddOrder`
  unfoldable pub level_add_order : Store A → ℕ → ℕ → Store A
  level_add_order st level order = (push_order st level order).0

  -- The first element whose order has the given id.
  unfoldable pub find_order : Store A → ℕ → List Element → Option Element
  find_order st id [] = none
  find_order st id (e ∷ es) = if (st.orders e.order).id == id then some e else find_order st id es

  unfoldable pub take_off : Store A → ℕ → Option Element → Option ℕ × Store A
  take_off st level none = (none, st)
  take_off st level (some e) =
      let l = st.levels level in
      (
        some e.order,
        set_level st level (record l {
          orders = remove_element e.address l.orders;
          total = d.sub l.total (st.orders e.order).remain_amount;
        }),
      )

  -- `PriceLevel.RemoveOrder`
  unfoldable pub level_remove_order : Store A → ℕ → ℕ → Option ℕ × Store A
  level_remove_order st level id = take_off st level (find_order st id (st.levels level).orders)

  unfoldable pub get_first : Store A → ℕ → Option ℕ
  get_first st level = first_order (st.levels level).orders

  unfoldable pub is_empty : Store A → ℕ → Bool
  is_empty st level = is_nil (st.levels level).orders

  unfoldable pub sum_remain : Store A → A → List Element → A
  sum_remain st total [] = total
  sum_remain st total (e ∷ es) = sum_remain st (d.add total (st.orders e.order).remain_amount) es

  unfoldable pub update_total : Store A → ℕ → Store A
  update_total st level =
      let l = st.levels level in
      set_level st level (record l { total = sum_remain st d.zero l.orders })

  unfoldable pub get_orders : Store A → ℕ → List ℕ
  get_orders st level = map (λ e. e.order) (st.levels level).orders
