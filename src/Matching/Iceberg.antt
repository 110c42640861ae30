-- ===== src/Matching/Iceberg.antt =====
-- internal/matching/iceberg.go: `IcebergMatcher` and `IcebergOrderManager`.
use matchengine.Prelude.{
  ℕ, zero, suc, Bool, true, false, if◌then◌else◌, ◌==◌, List, [], ◌∷◌, Option, some, none, length,
}
use matchengine.Decimal.{Decimal, greater_than, less_than, less_than_or_equal, min_of}
use matchengine.Models.Order.{is_buy}
use matchengine.Models.Trade.{TradeResult}
use matchengine.Store.{Store, Env}
use matchengine.OrderBook.{OrderBook, get_first}
use matchengine.Matching.Fill.{fill_maker}
use matchengine.Matching.Limit.{
  Matched, start, price_refused_fok, RbTreeWrapper, new_rb_tree_wrapper, best,
}

-- The wrapper of the opposite side.
abbrev pub opposite_book : {A : Type 0} → Bool → OrderBook A → RbTreeWrapper A
opposite_book buys ob =
    if buys then new_rb_tree_wrapper ob.asks false else new_rb_tree_wrapper ob.bids true

module _ {A : Type 0} ⦃d : Decimal A⦄ (env : Env) where
  -- The loop tests only the first order and the amount.
  unfoldable pub match_iceberg_level :
      ℕ → Store A → TradeResult A → ℕ → ℕ → Option (Store A × TradeResult A)
  match_iceberg_level zero st result taker level = none
  match_iceberg_level (suc fuel) st result taker level = elim (get_first st level) [
    | none ↦ some (st, result)
    | some maker ↦
        let amount = min_of (st.orders taker).remain_amount (st.orders maker).remain_amount in
        elim (less_than_or_equal amount d.zero) [
          | true ↦ some (st, result)
          | false ↦
              let (st', result') = fill_maker env st result taker level maker amount in
              match_iceberg_level fuel st' result' taker level
        ]
  ]

  -- No level is deleted from the tree.
  unfoldable pub iceberg_loop : ℕ → Matched A → ℕ → Option (Matched A)
  iceberg_loop zero m taker = none
  iceberg_loop (suc fuel) m taker =
      let o = m.store.orders taker in
      elim (greater_than o.remain_amount d.zero) [
        | false ↦ some m
        | true ↦ elim (best (opposite_book (is_buy o) m.book)) [
          | none ↦ some m
          | some level ↦
              let l = m.store.levels level in
              elim (price_refused_fok env o l.price) [
                | true ↦ some m
                | false ↦
                    elim (match_iceberg_level (suc (suc (length l.orders))) m.store m.result taker
                      level) [
                        | none ↦ none
                        | some (st', result') ↦
                            iceberg_loop fuel (record m { store = st'; result = result' }) taker
                      ]
              ]
        ]
      ]

  -- `IcebergMatcher.Match`
  unfoldable pub match_iceberg : ℕ → Store A → OrderBook A → ℕ → Option (Matched A)
  match_iceberg fuel st ob taker = iceberg_loop fuel (start env st ob taker) taker

-- `IcebergOrderState`
pub record IcebergOrderState (A : Type 0) : Type 0 where
  pub order : ℕ
  pub visible_amount : A
  pub hidden_amount : A
  pub display_size : A
  pub rand_factor : A

-- The map of `IcebergOrderManager`.
abbrev pub IcebergOrders : Type 0 → Type 0
IcebergOrders A = List (ℕ × IcebergOrderState A)

module _ {A : Type 0} where
  unfoldable pub new_iceberg_order_manager : IcebergOrders A
  new_iceberg_order_manager = []

  unfoldable pub find_iceberg : ℕ → IcebergOrders A → Option (IcebergOrderState A)
  find_iceberg id [] = none
  find_iceberg id ((j, s) ∷ m) = if j == id then some s else find_iceberg id m

  unfoldable pub set_iceberg : ℕ → IcebergOrderState A → IcebergOrders A → IcebergOrders A
  set_iceberg id s [] = (id, s) ∷ []
  set_iceberg id s ((j, t) ∷ m) = if j == id then (id, s) ∷ m else (j, t) ∷ set_iceberg id s m

  unfoldable pub unregister : ℕ → IcebergOrders A → IcebergOrders A
  unregister id [] = []
  unregister id ((j, s) ∷ m) = if j == id then m else (j, s) ∷ unregister id m

  unfoldable pub is_iceberg_order : ℕ → IcebergOrders A → Bool
  is_iceberg_order id m = elim (find_iceberg id m) [ none ↦ false | some s ↦ true ]

module _ {A : Type 0} ⦃d : Decimal A⦄ where
  unfoldable pub register : Store A → ℕ → A → IcebergOrders A → IcebergOrders A
  register st order display_size m =
      let o = st.orders order in
      set_iceberg o.id
        (record {
          order = order;
          visible_amount = o.visible;
          hidden_amount = o.hidden;
          display_size = display_size;
          rand_factor = d.random_factor;
        })
        m

  unfoldable pub get_visible_amount : ℕ → IcebergOrders A → A
  get_visible_amount id m = elim (find_iceberg id m) [ none ↦ d.zero | some s ↦ s.visible_amount ]

  abbrev show_more : IcebergOrderState A → A → IcebergOrderState A
  show_more s visible = record s {
    visible_amount = visible;
    hidden_amount = d.sub s.hidden_amount visible;
  }

  -- What is shown after a trade, before the last test.
  unfoldable pub replenish : IcebergOrderState A → A → IcebergOrderState A
  replenish s filled =
      if less_than_or_equal s.visible_amount filled
      then if greater_than s.hidden_amount d.zero
        then show_more s (min_of s.display_size s.hidden_amount)
        else record s { visible_amount = d.zero }
      else record s { visible_amount = d.sub s.visible_amount filled }

  unfoldable pub cap_visible : A → IcebergOrderState A → IcebergOrderState A
  cap_visible remain s =
      if less_than remain s.visible_amount then record s { visible_amount = remain } else s

  unfoldable pub on_trade : Store A → ℕ → A → IcebergOrders A → IcebergOrders A
  on_trade st id filled m = elim (find_iceberg id m) [
    | none ↦ m
    | some s ↦ set_iceberg id (cap_visible (st.orders s.order).remain_amount (replenish s filled)) m
  ]
