-- ===== src/Matching/Composed.antt =====
-- The limit matcher of internal/matching/limit.go against a consistent book of
-- internal/orderbook/orderbook.go.
use matchengine.Prelude.{
  ℕ, ◌<◌, ◌≡◌, subst, ◌∙◌, refl, Bool, true, false, not, gt, All, All-imp, All-map, map, some, none,
  ◌⊎◌, inl, inr, Bool-cases,
}
use matchengine.Decimal.{Decimal, less_than, zero-add, sub-zero}
use matchengine.RbTree.Valid.{entries}
use matchengine.Models.Order.{Order, is_buy}
use matchengine.Models.Fills.{IsBalanced, IsOpen}
use matchengine.Store.{Store, Env}
use matchengine.OrderBook.{OrderBook, find_entry, side_tree}
use matchengine.OrderBook.Consistent.{IsConsistent, LevelOk}
use matchengine.Matching.Limit.{
  Matched, start, match_limit, price_refused, price_refused_fok, add_available, available_amount,
  is_fok, is_one_level,
}
use matchengine.Matching.Side.{opposite_tree, queue_of}
use matchengine.Matching.Plan.{Walked, plan, view}
use matchengine.Matching.Fresh.{AllOpen, placed, IsConsistent-SideReady}
use matchengine.RbTree.Ends.{ascend_lem}
use matchengine.Matching.Crossing.{sub_all}
use matchengine.Matching.Ready.{remains}
use matchengine.Matching.Supply.{sum, sum_remain_lem, Counted, reach, plan_fills}
use matchengine.Matching.Priority.{match_limit_walks, match_fok_walks, Walked-remain}

module _ {A : Type 0} ⦃d : Decimal A⦄ where
  -- A balanced limit order whose id the index does not have, and which is neither FOK, IOC nor GTX,
  -- against a consistent book whose orders all have something left: with more fuel than the size of the
  -- opposite tree, `Match` returns, and its trades are those of the price-time plan.
  pub match_limit_fresh :
      (env : Env) (fuel : ℕ) (st : Store A) (ob : OrderBook A) (taker : ℕ) (v : IsConsistent st ob)
      → AllOpen v taker
      → find_entry (st.orders taker).id ob.orders ≡ none
      → IsBalanced (st.orders taker)
      → is_fok (st.orders taker).time_in_force ≡ false
      → is_one_level (st.orders taker).time_in_force ≡ false
      → (opposite_tree (is_buy (st.orders taker)) ob).size < fuel
      → let tree = opposite_tree (is_buy (st.orders taker)) ob in
        (m : Matched A) × (match_limit env fuel st ob taker ≡ some m)
        × Walked
            (price_refused env (st.orders taker))
            (start env st ob taker)
            taker
            (entries tree)
            m
  match_limit_fresh env fuel st ob taker v all_open outside balanced kind long h =
      let ready =
        IsConsistent-SideReady v taker all_open outside (is_buy (st.orders taker)) balanced in
      let tree = opposite_tree (is_buy (st.orders taker)) ob in
      match_limit_walks env fuel st ob taker (entries tree)
        (subst (λ n. n < fuel) ready.valid.counted h) kind long ready

  -- The levels of a consistent book count their orders, which all have something left.
  All-Counted :
      (env : Env) (st : Store A) (ob : OrderBook A) (taker : ℕ) (v : IsConsistent st ob)
      → AllOpen v taker
      → (buys : Bool) → All (Counted env st (st.orders taker)) (entries (opposite_tree buys ob))
  All-Counted env st ob taker v all_open buys =
      subst (λ t. All (Counted env st (st.orders taker)) (entries t)) (opposite buys)
        (All-imp (λ e at. level (not buys) e (v.levels (not buys) e.0 e.1 at))
          (entries (side_tree (not buys) ob)) (placed v taker (not buys)))
    where
      opposite : (b : Bool) → side_tree (not b) ob ≡ opposite_tree b ob
      opposite true = refl
      opposite false = refl

      level :
          (c : Bool) (e : A × ℕ)
          → LevelOk st ob.orders c e.0 e.1
          → Counted env st (st.orders taker) e
      level c e k = (
        k.price,
        k.total
            ∙ sum_remain_lem st d.zero (queue_of st e)
            ∙ zero-add (sum (remains st (queue_of st e))),
        All-map (λ m. d.cmp m d.zero ≡ gt) (λ x. (st.orders x.order).remain_amount) (queue_of st e)
            (All-imp (λ x o. (all_open (st.orders x.order).id _ o.indexed).remain_pos)
              (queue_of st e) k.elements),
      )

  available_reach :
      (env : Env) (st : Store A) (ob : OrderBook A) (o : Order A)
      → available_amount env st ob o ≡ reach env st o (entries (opposite_tree (is_buy o) ob)) d.zero
  unfolding available_amount
  available_reach env st ob o =
      ascend_lem (add_available env st o) (opposite_tree (is_buy o) ob) d.zero

  -- A FOK order that wants something, likewise: `Match` returns, and either nothing has changed and there is no
  -- trade, or the order wants nothing more.
  pub match_fok_fresh :
      (env : Env) (fuel : ℕ) (st : Store A) (ob : OrderBook A) (taker : ℕ) (v : IsConsistent st ob)
      → AllOpen v taker
      → find_entry (st.orders taker).id ob.orders ≡ none
      → IsOpen (st.orders taker)
      → is_fok (st.orders taker).time_in_force ≡ true
      → (opposite_tree (is_buy (st.orders taker)) ob).size < fuel
      → (m : Matched A) × (match_limit env fuel st ob taker ≡ some m)
        × ((m ≡ start env st ob taker) ⊎ ((m.store.orders taker).remain_amount ≡ d.zero))
  match_fok_fresh env fuel st ob taker v all_open outside wants kind h =
      let o = st.orders taker in
      let ready = IsConsistent-SideReady v taker all_open outside (is_buy o) wants.balanced in
      let tree = opposite_tree (is_buy o) ob in
      let (m, e, outcome) =
        match_fok_walks env fuel st ob taker (entries tree)
          (subst (λ n. n < fuel) ready.valid.counted h) kind ready in
      (
        m,
        e,
        elim (Bool-cases (less_than (available_amount env st ob o) o.remain_amount)) [
          | inl short ↦ inl (rw short at outcome)
          | inr enough ↦ inr (
              let filled =
                plan_fills env st o (entries tree) d.zero
                  (All-Counted env st ob taker v all_open (is_buy o))
                  (d.lt_of_gt o.remain_amount d.zero wants.remain_pos)
                  (subst (λ x. less_than x o.remain_amount ≡ false) (available_reach env st ob o)
                    enough) in
              Walked-remain (price_refused_fok env o) (start env st ob taker) m taker (entries tree)
                (rw enough at outcome)
              ∙ subst
                  (λ r.
                    sub_all r (
                      map (λ (pa : A × A). pa.1)
                        (plan (price_refused_fok env o) r (view st (entries tree))))
                    ≡ d.zero)
                  (sub-zero o.remain_amount) filled)
        ],
      )
