-- ===== src/Engine/Cancelled.antt =====
-- `CancelOrder` and `GetOrder` of internal/engine/engine.go.
use Prim.Native.String.{String}
use text.Mathlib.Text.{◌==◌ as str_eq}
use text.Mathlib.TextPositions.{eq_refl}
use matchengine.Prelude.{
  ℕ, ◌≡◌, refl, sym, ap, ◌∙◌, arith, Bool-cases, inl, inr, List, [], ◌∷◌, Option, some, none,
  if◌then◌else◌, ◌==◌,
}
use matchengine.Decimal.{Decimal}
use matchengine.Models.Order
use matchengine.Models.Order.{Order}
use matchengine.Store.{Store, Env}
use matchengine.OrderBook.{OrderBook, get_order, remove_order}
use matchengine.OrderBook.Index.{IsIndex, remove_order_lem}
use matchengine.Engine.Process.{MarketEngine}
use matchengine.Engine.Api.{
  Engine, order_not_found, market_not_found, Reply, failed, replied, find_market, set_market,
  cancel_order, cancel_found, find_order_in,
}

module _ {A : Type 0} where
  pub find_market-set_market :
      (symbol : String) (me : MarketEngine A) (ms : List (String × MarketEngine A))
      → find_market symbol (set_market symbol me ms) ≡ some me
  unfolding find_market set_market
  find_market-set_market symbol me [] = rw (eq_refl symbol) refl
  find_market-set_market symbol me ((t, other) ∷ ms) = elim (Bool-cases (str_eq t symbol)) [
    | inl here ↦ rw here (rw (eq_refl symbol) refl)
    | inr later ↦ rw later (rw later (find_market-set_market symbol me ms))
  ]

module _ {A : Type 0} ⦃d : Decimal A⦄ (env : Env) (E : Type 0) where
  -- What a cancellation that finds its order leaves.
  pub record Cancelled (e : Engine A) (me : MarketEngine A) (symbol : String) (id r : ℕ)
      (e' : Engine A) : Type 0 where
    pub was : get_order me.book id ≡ some r
    pub cancelled : (e'.store.orders r).status ≡ Order.cancelled
    pub gone : find_order_in env {E = E} e' symbol id ≡ failed order_not_found

  removed_state :
      (e : Engine A) (symbol : String) (id r : ℕ) (me : MarketEngine A) (st : Store A)
      (ob : OrderBook A)
      → get_order ob id ≡ none
      → let e' = cancel_found env e symbol me r st ob in
        ((e'.store.orders r).status ≡ Order.cancelled)
        × (find_order_in env {E = E} e' symbol id ≡ failed order_not_found)
  unfolding cancel_found find_order_in
  removed_state e symbol id r me st ob gone = (
    ground arith,
    rw
        (
          find_market-set_market symbol (record me { book = ob }) e.markets,
          gone,
          find_order_in,
          cancel_found,
        )
        refl,
  )

  cancel_order-known :
      (e : Engine A) (symbol : String) (id : ℕ) (me : MarketEngine A)
      → find_market symbol e.markets ≡ some me
      → let removed = remove_order e.store me.book id in
        cancel_order env {E = E} e symbol id ≡ (elim removed.0 [
          | none ↦ failed order_not_found
          | some order ↦ replied (order, cancel_found env e symbol me order removed.1 removed.2)
        ])
  unfolding cancel_order
  cancel_order-known e symbol id me known =
      ap
        (λ (x : Option (MarketEngine A)). elim x [
          | none ↦ failed market_not_found
          | some me ↦
              let removed = remove_order e.store me.book id in
              elim removed.0 [
                | none ↦ failed order_not_found
                | some order ↦
                    replied (order, cancel_found env e symbol me order removed.1 removed.2)
              ]
        ])
        known

  -- When `CancelOrder` in a market whose index has no id twice returns an order, that order was in the book at the
  -- id and is cancelled, and `GetOrder` after it does not find the id.
  pub cancel_order-Cancelled :
      (e e' : Engine A) (symbol : String) (id r : ℕ) (me : MarketEngine A)
      → find_market symbol e.markets ≡ some me
      → IsIndex me.book.orders
      → cancel_order env {E = E} e symbol id ≡ replied (r, e')
      → Cancelled e me symbol id r e'
  cancel_order-Cancelled e e' symbol id r me known v h =
      let (returns, others, _) = remove_order_lem e.store me.book id v in
      by_order (get_order me.book id) refl returns others
    where
      by_order :
          (x : Option ℕ)
          → get_order me.book id ≡ x
          → (remove_order e.store me.book id).0 ≡ get_order me.book id
          → ((j : ℕ)
              → get_order (remove_order e.store me.book id).2 j
                ≡ (if id == j then none else get_order me.book j))
          → Cancelled e me symbol id r e'
      by_order none m returns others =
          let reply : Reply E (ℕ × Engine A) = replied (r, e') in
          let wrong : failed order_not_found ≡ reply =
            rw (returns ∙ m) at (sym (cancel_order-known e symbol id me known) ∙ h) in
          cc
      by_order (some s) m returns others =
          let (found, st, ob) = remove_order e.store me.book id in
          let reply : Reply E (ℕ × Engine A) = replied (r, e') in
          let same : replied (s, cancel_found env e symbol me s st ob) ≡ reply =
            rw (returns ∙ m) at (sym (cancel_order-known e symbol id me known) ∙ h) in
          let order : s ≡ r = cc in
          let after : cancel_found env e symbol me s st ob ≡ e' = cc in
          let (status, missing) =
            removed_state e symbol id s me st ob (ground (arith, others id)) in
          record {
            was = m ∙ ap some order;
            cancelled =
                ap (λ n. (e'.store.orders n).status) (sym order)
                ∙ ap (λ (x : Engine A). (x.store.orders s).status) (sym after)
                ∙ status;
            gone = ap (λ x. find_order_in env {E = E} x symbol id) (sym after) ∙ missing;
          }
