-- ===== src/Matching/Loop.antt =====
-- The loops over the price levels in internal/matching/limit.go and market.go as one loop with two
-- tests: `refuse` rules a level out by its price, `leave` ends the loop after a level.
use matchengine.Prelude.{
  ℕ, zero, suc, ◌≡◌, refl, ap, ◌∙◌, Bool, true, false, Option, some, none, length, fun_ext,
}
use matchengine.Decimal.{Decimal, greater_than, less_than_or_equal, min_of}
use matchengine.Models.Order.{Order, is_buy}
use matchengine.Models.Trade.{TradeResult}
use matchengine.Store.{Store, Env}
use matchengine.OrderBook.{get_first, is_empty}
use matchengine.Matching.Fill.{best_opposite, fill_maker}
use matchengine.Matching.Limit.{
  Matched, match_at_price_level, match_level, match_loop, fok_loop, after_level, price_refused,
  price_refused_fok, is_one_level,
}
use matchengine.Matching.Market.{match_market_level, market_loop}

-- What walks a level: fuel, store, result, taker and level.
abbrev Sweep : Type 0 → Type 0
Sweep A = ℕ → Store A → TradeResult A → ℕ → ℕ → Option (Bool × Store A × TradeResult A)

module _ {A : Type 0} ⦃d : Decimal A⦄ (env : Env) (refuse : Order A → A → Bool)
    (leave : Order A → Bool) where
  -- One round, and then `more`.
  abbrev pub round : (Matched A → Option (Matched A)) → Matched A → ℕ → Option (Matched A)
  round more m taker =
      let o = m.store.orders taker in
      elim (greater_than o.remain_amount d.zero) [
        | false ↦ some m
        | true ↦ elim (best_opposite (is_buy o) m.book) [
          | none ↦ some m
          | some level ↦
              let price = (m.store.levels level).price in
              elim (refuse o price) [
                | true ↦ some m
                | false ↦ elim (match_level env m.store m.result taker level) [
                  | none ↦ none
                  | some r ↦
                      let m' = after_level env m.book (is_buy o) price r in
                      elim (leave o) [ true ↦ some m' | false ↦ more m' ]
                ]
              ]
        ]
      ]

  unfoldable pub level_loop : ℕ → Matched A → ℕ → Option (Matched A)
  level_loop zero m taker = none
  level_loop (suc fuel) m taker = round (λ m'. level_loop fuel m' taker) m taker

module _ {A : Type 0} ⦃d : Decimal A⦄ (env : Env) where
  pub match_loop_lem :
      (fuel : ℕ) (m : Matched A) (taker : ℕ)
      → match_loop env fuel m taker
        ≡ level_loop env (price_refused env) (λ o. is_one_level o.time_in_force) fuel m taker
  unfolding match_loop level_loop
  match_loop_lem zero m taker = refl
  match_loop_lem (suc fuel) m taker =
      ap
        (λ (more : Matched A → Option (Matched A)).
          round env (price_refused env) (λ o. is_one_level o.time_in_force) more m taker)
        (fun_ext (λ m'. match_loop_lem fuel m' taker))

  pub fok_loop_lem :
      (fuel : ℕ) (m : Matched A) (taker : ℕ)
      → fok_loop env fuel m taker ≡ level_loop env (price_refused_fok env) (λ o. false) fuel m taker
  unfolding fok_loop level_loop
  fok_loop_lem zero m taker = refl
  fok_loop_lem (suc fuel) m taker =
      ap
        (λ (more : Matched A → Option (Matched A)).
          round env (price_refused_fok env) (λ o. false) more m taker)
        (fun_ext (λ m'. fok_loop_lem fuel m' taker))

  -- One round at a level, and then `more`.
  abbrev level_round :
      (Store A → TradeResult A → Option (Bool × Store A × TradeResult A))
      → Store A
      → TradeResult A
      → ℕ
      → ℕ
      → Option (Bool × Store A × TradeResult A)
  level_round more st result taker level =
      elim (greater_than (st.orders taker).remain_amount d.zero) [
        | false ↦ some (is_empty st level, st, result)
        | true ↦ elim (get_first st level) [
          | none ↦ some (true, st, result)
          | some maker ↦
              let amount = min_of (st.orders taker).remain_amount (st.orders maker).remain_amount in
              elim (less_than_or_equal amount d.zero) [
                | true ↦ some (is_empty st level, st, result)
                | false ↦
                    let (st', result') = fill_maker env st result taker level maker amount in
                    more st' result'
              ]
        ]
      ]

  -- `MarketMatcher` walks a level as `LimitMatcher` does.
  pub match_market_level_lem :
      (fuel : ℕ) (st : Store A) (result : TradeResult A) (taker level : ℕ)
      → match_market_level env fuel st result taker level
        ≡ match_at_price_level env fuel st result taker level
  unfolding match_market_level match_at_price_level
  match_market_level_lem zero st result taker level = refl
  match_market_level_lem (suc fuel) st result taker level =
      ap
        (λ (more : Store A → TradeResult A → Option (Bool × Store A × TradeResult A)).
          level_round more st result taker level)
        (fun_ext λ st'. fun_ext λ result'. match_market_level_lem fuel st' result' taker level)

  abbrev market_round :
      Sweep A → (Matched A → Option (Matched A)) → Matched A → ℕ → Option (Matched A)
  market_round sweep more m taker =
      let o = m.store.orders taker in
      elim (greater_than o.remain_amount d.zero) [
        | false ↦ some m
        | true ↦ elim (best_opposite (is_buy o) m.book) [
          | none ↦ some m
          | some level ↦
              let l = m.store.levels level in
              elim (sweep (suc (length l.orders)) m.store m.result taker level) [
                | none ↦ none
                | some r ↦ more (after_level env m.book (is_buy o) l.price r)
              ]
        ]
      ]

  pub market_loop_lem :
      (fuel : ℕ) (m : Matched A) (taker : ℕ)
      → market_loop env fuel m taker ≡ level_loop env (λ o p. false) (λ o. false) fuel m taker
  unfolding market_loop level_loop match_level
  market_loop_lem zero m taker = refl
  market_loop_lem (suc fuel) m taker =
      ap (λ (sweep : Sweep A). market_round sweep (λ m'. market_loop env fuel m' taker) m taker)
        (fun_ext λ f. fun_ext λ st.
          fun_ext
            λ result. fun_ext λ t. fun_ext λ level. match_market_level_lem f st result t level)
      ∙ ap
          (λ (more : Matched A → Option (Matched A)).
            market_round (match_at_price_level env) more m taker)
          (fun_ext (λ m'. market_loop_lem fuel m' taker))
