-- ===== src/Matching/OneLevel.antt =====
-- IOC and GTX orders in `Match` of internal/matching/limit.go, which leave the loop after one level.
use matchengine.Prelude.{
  ℕ, suc, ◌≡◌, refl, sym, ap, ◌∙◌, Bool, true, false, List, [], ◌∷◌, ◌++◌, map, append-nil, some,
  Bool-cases, inl, inr,
}
use matchengine.Decimal.{Decimal, greater_than}
use matchengine.Models.Order.{Order, is_buy}
use matchengine.Models.Trade.{TradeResult, new_trade_result}
use matchengine.Store.{Store, Env}
use matchengine.OrderBook.{OrderBook}
use matchengine.Matching.Fill.{best_opposite}
use matchengine.Matching.Limit.{
  Matched, match_limit, match_level, after_level, start, price_refused, is_fok, is_one_level,
}
use matchengine.Matching.Ready.{remains}
use matchengine.Matching.Crossing.{Swept, cross, sub_all}
use matchengine.Matching.Sweep.{match_level_lem}
use matchengine.Matching.Side.{
  SideReady, queue_of, best_opposite-first, best_opposite-none, first-Ready,
}
use matchengine.Matching.Plan.{view, plan, price_amount, plan_stops, plan_refused, plan_first}
use matchengine.Matching.Loop.{level_loop, round, match_loop_lem}
use matchengine.Matching.Walk.{loop_over, loop_none, loop_refused, plan_nil, Swept-priced}

abbrev pub first_only : {B : Type 0} → List B → List B
first_only [] = []
first_only (x ∷ xs) = x ∷ []

module _ {A : Type 0} ⦃d : Decimal A⦄ (env : Env) where
  abbrev leaves : Order A → Bool
  leaves o = is_one_level o.time_in_force

  loop_leaves :
      (fuel : ℕ) (m : Matched A) (taker level : ℕ) (r : Bool × Store A × TradeResult A)
      → greater_than (m.store.orders taker).remain_amount d.zero ≡ true
      → best_opposite (is_buy (m.store.orders taker)) m.book ≡ some level
      → price_refused env (m.store.orders taker) (m.store.levels level).price ≡ false
      → match_level env m.store m.result taker level ≡ some r
      → leaves (m.store.orders taker) ≡ true
      → level_loop env (price_refused env) leaves (suc fuel) m taker
        ≡ some
            (after_level env m.book (is_buy (m.store.orders taker)) (m.store.levels level).price r)
  unfolding level_loop
  loop_leaves fuel m taker level r h b n e l =
      rw (h, level_loop, round) (rw b (rw n (rw e (rw l refl))))

  -- What the loop does with the first level, for an order that leaves it then.
  abbrev TradesAtFirst : ℕ → Store A → OrderBook A → ℕ → List (A × ℕ) → Type 0
  TradesAtFirst fuel st ob taker es =
      let o = st.orders taker in
      (m : Matched A) × (level_loop env (price_refused env) leaves (suc fuel)
          (start env st ob taker) taker
        ≡ some m)
      × (map price_amount m.result.trades
          ≡ plan (price_refused env o) o.remain_amount (view st (first_only es)))

  loop_one_level :
      (fuel : ℕ) (st : Store A) (ob : OrderBook A) (taker : ℕ) (es : List (A × ℕ))
      → leaves (st.orders taker) ≡ true
      → SideReady st ob (is_buy (st.orders taker)) taker es
      → TradesAtFirst fuel st ob taker es
  unfolding new_trade_result after_level
  loop_one_level fuel st ob taker es short v =
      elim (Bool-cases (greater_than (st.orders taker).remain_amount d.zero)) [
        | inr over ↦ (
          start env st ob taker,
          loop_over env (price_refused env) leaves fuel (start env st ob taker) taker over,
          sym (
              plan_stops (price_refused env (st.orders taker)) (st.orders taker).remain_amount
                (view st (first_only es)) over),
        )
        | inl pos ↦ by_level es v pos
      ]
    where
      traded :
          {e : A × ℕ} (r : Bool × Store A × TradeResult A)
          (s : Swept st (start env st ob taker).result taker e.1 (queue_of st e) r)
          → (st.levels e.1).price ≡ e.0
          → greater_than (st.orders taker).remain_amount d.zero ≡ true
          → price_refused env (st.orders taker) e.0 ≡ false
          → map price_amount r.2.trades
            ≡ plan
                (price_refused env (st.orders taker))
                (st.orders taker).remain_amount
                (view st (e ∷ []))
      traded {e} r s price pos ok =
          let refuse = price_refused env (st.orders taker) in
          let remain = (st.orders taker).remain_amount in
          let ms = remains st (queue_of st e) in
          ap (map price_amount) s.trades
          ∙ Swept-priced s price
          ∙ sym (append-nil (map (λ a. (e.0, a)) (cross remain ms)))
          ∙ ap (λ rest. map (λ a. (e.0, a)) (cross remain ms) ++ rest)
              (plan_nil refuse (sub_all remain (cross remain ms)))
          ∙ sym (plan_first refuse remain e.0 ms [] pos ok)

      by_level :
          (es : List (A × ℕ))
          → SideReady st ob (is_buy (st.orders taker)) taker es
          → greater_than (st.orders taker).remain_amount d.zero ≡ true
          → TradesAtFirst fuel st ob taker es
      by_level [] v pos = (
        start env st ob taker,
        loop_none env (price_refused env) leaves fuel (start env st ob taker) taker pos
            (best_opposite-none st ob (is_buy (st.orders taker)) taker v),
        plan_nil (price_refused env (st.orders taker)) (st.orders taker).remain_amount,
      )
      by_level (e ∷ es) v pos =
          let o = st.orders taker in
          let begin = start env st ob taker in
          let best = best_opposite-first st ob (is_buy o) taker e es v in
          let ms = remains st (queue_of st e) in
          let same : price_refused env o (st.levels e.1).price ≡ price_refused env o e.0 =
            ap (price_refused env o) v.each.0.price in
          elim (Bool-cases (price_refused env o e.0)) [
            | inl out ↦ (
              begin,
              loop_refused env (price_refused env) leaves fuel begin taker e.1 pos best
                  (same ∙ out),
              sym (plan_refused (price_refused env o) o.remain_amount e.0 ms [] out),
            )
            | inr ok ↦
                let (r, swept, s) =
                  match_level_lem env st begin.result taker e.1 (queue_of st e)
                    (first-Ready st ob (is_buy o) taker e es v) in
                (
                  after_level env ob (is_buy o) (st.levels e.1).price r,
                  loop_leaves fuel begin taker e.1 r pos best (same ∙ ok) swept short,
                  traded r s v.each.0.price pos ok,
                )
          ]

  -- A limit order that is IOC or GTX, against a ready side: `Match` returns, and its trades are those of the plan for
  -- the best level alone.
  pub match_limit_one_level :
      (fuel : ℕ) (st : Store A) (ob : OrderBook A) (taker : ℕ) (es : List (A × ℕ))
      → is_fok (st.orders taker).time_in_force ≡ false
      → is_one_level (st.orders taker).time_in_force ≡ true
      → SideReady st ob (is_buy (st.orders taker)) taker es
      → let o = st.orders taker in
        (m : Matched A) × (match_limit env (suc fuel) st ob taker ≡ some m)
        × (map price_amount m.result.trades
            ≡ plan (price_refused env o) o.remain_amount (view st (first_only es)))
  unfolding match_limit
  match_limit_one_level fuel st ob taker es kind short v =
      let (m, e, trades) = loop_one_level fuel st ob taker es short v in
      (m, rw kind (match_loop_lem env (suc fuel) (start env st ob taker) taker ∙ e), trades)
