-- ===== src/Engine/Triggered.antt =====
-- What `checkStopOrders` and `processOrder` of internal/engine/engine.go do with triggered stop orders.
use matchengine.Prelude.{ℕ, suc, ◌≡◌, ◌≢◌, refl, arith, List, [], ◌∷◌, All, ◌⊎◌, inl, inr}
use matchengine.Outcome.{done}
use matchengine.Decimal.{Decimal}
use matchengine.Models.Order
use matchengine.Models.Order.{Order}
use matchengine.Store.{Store, Env}
use matchengine.Matching.Stop.{add_stop_order, remove_stop_order}
use matchengine.Engine.Process.{State, process_order, process_triggered, assign_id, dispatch}

module _ {A : Type 0} where
  -- A stop order that has its id.
  abbrev pub IsStop : Store A → ℕ → Type 0
  IsStop st r =
      ((st.orders r).id ≢ 0)
      × (((st.orders r).order_type ≡ Order.stop_limit)
          ⊎ ((st.orders r).order_type ≡ Order.stop_market))

module _ {A : Type 0} ⦃d : Decimal A⦄ (env : Env) where
  assign_id-has : (s : State A) (r : ℕ) → (s.store.orders r).id ≢ 0 → assign_id env s r ≡ s
  unfolding assign_id
  assign_id-has s r h = ground (arith, h)

  -- A stop order is put among the stop orders, and nothing else happens.
  process_stop :
      (depth fuel : ℕ) (s : State A) (r : ℕ)
      → IsStop s.store r
      → process_order env (suc depth) fuel s r
        ≡ done (record s {
          engine = record s.engine { stops = add_stop_order s.store s.engine.stops r };
        })
  unfolding process_order dispatch
  process_stop depth fuel s r (h, inl k) = rw (assign_id-has s r h) (rw k refl)
  process_stop depth fuel s r (h, inr k) = rw (assign_id-has s r h) (rw k refl)

  -- When all triggered orders are stop orders with an id, processing them returns, trades nothing and
  -- tells no one: the memory, the book, the last price and the events are as before.
  pub process_triggered_lem :
      (depth fuel : ℕ) (rs : List ℕ) (s : State A)
      → All (IsStop s.store) rs
      → (t : State A) × (process_triggered env (process_order env (suc depth) fuel) rs s ≡ done t)
        × (t.store ≡ s.store)
        × (t.engine.book ≡ s.engine.book)
        × (t.engine.last_price ≡ s.engine.last_price)
        × (t.events ≡ s.events)
  unfolding process_triggered
  process_triggered_lem depth fuel [] s h = (s, refl, refl, refl, refl, refl)
  process_triggered_lem depth fuel (r ∷ rs) s h =
      let s₁ = record s {
        engine = record s.engine { stops = remove_stop_order s.store s.engine.stops r };
      } in
      let s₂ = record s₁ {
        engine = record s₁.engine { stops = add_stop_order s₁.store s₁.engine.stops r };
      } in
      let (t, e, memory, book, price, events) = process_triggered_lem depth fuel rs s₂ h.1 in
      (t, rw (process_stop depth fuel s₁ r h.0) e, memory, book, price, events)
