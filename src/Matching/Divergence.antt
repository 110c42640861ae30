-- ===== src/Matching/Divergence.antt =====
-- The loop of `IcebergMatcher.Match` of internal/matching/iceberg.go at an empty level.
use matchengine.Prelude.{ℕ, zero, suc, ◌≡◌, refl, ap, true, false, [], some, none, length}
use matchengine.Decimal.{Decimal, greater_than}
use matchengine.Models.Order.{is_buy}
use matchengine.Models.Trade.{TradeResult}
use matchengine.Store.{Store, Env}
use matchengine.OrderBook.{get_first}
use matchengine.Matching.Limit.{Matched, price_refused_fok, best}
use matchengine.Matching.Iceberg.{iceberg_loop, match_iceberg_level, opposite_book}

module _ {A : Type 0} ⦃d : Decimal A⦄ (env : Env) where
  level_stays :
      (fuel : ℕ) (st : Store A) (result : TradeResult A) (taker level : ℕ)
      → (st.levels level).orders ≡ []
      → match_iceberg_level env (suc fuel) st result taker level ≡ some (st, result)
  unfolding match_iceberg_level get_first
  level_stays fuel st result taker level h = rw (h, match_iceberg_level)

  -- The taker wants more, its limit allows the best level, and that level is empty.
  pub record Stuck (m : Matched A) (taker level : ℕ) : Type 0 where
    pub wants : greater_than (m.store.orders taker).remain_amount d.zero ≡ true
    pub finds : best (opposite_book (is_buy (m.store.orders taker)) m.book) ≡ some level
    pub allows : price_refused_fok env (m.store.orders taker) (m.store.levels level).price ≡ false
    pub emptied : (m.store.levels level).orders ≡ []

  -- When the taker of an iceberg match wants more, and the best level is empty and has a price that its
  -- limit allows, no fuel is enough for the loop.
  pub iceberg_loop-diverges :
      (fuel : ℕ) (m : Matched A) (taker level : ℕ)
      → Stuck m taker level
      → iceberg_loop env fuel m taker ≡ none
  unfolding iceberg_loop
  iceberg_loop-diverges zero m taker level s = refl
  iceberg_loop-diverges (suc fuel) m taker level s =
      let level_empty = ap length s.emptied in
      rw (s.wants, iceberg_loop)
        (rw s.finds (
          rw s.allows (
            rw
              (level_stays (suc (length (m.store.levels level).orders)) m.store m.result taker level
                s.emptied)
              (iceberg_loop-diverges fuel m taker level s))))
