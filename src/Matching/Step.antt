-- ===== src/Matching/Step.antt =====
-- One trade of the matchers' loops (`fill_maker`): what it does to the two orders, to the level and to
-- the rest of the store.
use matchengine.Prelude.{
  ℕ, suc, ◌≡◌, ◌≢◌, refl, ap, ◌∙◌, lt, arith, true, if◌then◌else◌, List, ◌∷◌, Bool-cases, inl, inr,
  some,
}
use matchengine.Decimal.{Decimal, is_zero, sub-zero}
use matchengine.Models.Order.{Order, update_filled, is_finished}
use matchengine.Models.Trade.{TradeResult}
use matchengine.Models.Fills.{
  IsBalanced, SameTerms, update_filled-SameTerms, update_filled_remain, update_filled-IsBalanced,
  update_filled-finished,
}
use matchengine.Store.{Element, PriceLevel, Store, Env, set_level, tick, issue, remove_element}
use matchengine.OrderBook.{level_remove_order, take_off, find_order}
use matchengine.Matching.Fill.{fill_maker, update_filled_at}

remove_element-first : (e : Element) (q : List Element) → remove_element e.address (e ∷ q) ≡ q
unfolding remove_element
remove_element-first e q = ground arith

module _ {A : Type 0} ⦃d : Decimal A⦄ where
  -- The level after a trade with its first order: the order has left it if it was finished.
  abbrev pub queue_after : Store A → Element → List Element → A → List Element
  queue_after st e q amount =
      if is_zero (d.sub (st.orders e.order).remain_amount amount) then q else e ∷ q

  pub record Filled (st st' : Store A) (taker level : ℕ) (e : Element) (q : List Element)
      (amount : A) : Type 0 where
    pub taker_balanced : IsBalanced (st'.orders taker)
    pub taker_remain :
        (st'.orders taker).remain_amount ≡ d.sub (st.orders taker).remain_amount amount
    pub taker_terms : SameTerms (st.orders taker) (st'.orders taker)
    pub maker_balanced : IsBalanced (st'.orders e.order)
    pub maker_remain :
        (st'.orders e.order).remain_amount ≡ d.sub (st.orders e.order).remain_amount amount
    pub maker_terms : SameTerms (st.orders e.order) (st'.orders e.order)
    pub others : (r : ℕ) → r ≢ taker → r ≢ e.order → st'.orders r ≡ st.orders r
    pub queue : (st'.levels level).orders ≡ queue_after st e q amount
    pub same_price : (st'.levels level).price ≡ (st.levels level).price
    pub same_total : (st'.levels level).total ≡ (st.levels level).total
    pub other_levels : (l : ℕ) → l ≢ level → st'.levels l ≡ st.levels l

module _ {A : Type 0} ⦃d : Decimal A⦄ (env : Env) where
  -- The store after both fills, before a finished maker leaves the level.
  abbrev pub filled_store : Store A → ℕ → ℕ → ℕ → A → Store A
  filled_store st taker level maker amount =
      let total = d.mul (st.levels level).price amount in
      update_filled_at env (update_filled_at env (tick (issue st)) taker amount total) maker amount
        total

  filled_orders :
      (st : Store A) (taker level maker : ℕ) (amount : A)
      → maker ≢ taker
      → let st' = filled_store st taker level maker amount in
        let total = d.mul (st.levels level).price amount in
        (st'.orders taker ≡ update_filled (env.clock (suc st.ticks)) (st.orders taker) amount total)
        × (st'.orders maker
            ≡ update_filled (env.clock (suc (suc st.ticks))) (st.orders maker) amount total)
        × ((r : ℕ) → r ≢ taker → r ≢ maker → st'.orders r ≡ st.orders r)
        × (st'.levels ≡ st.levels)
  unfolding update_filled_at
  filled_orders st taker level maker amount ne =
      (ground arith, ground arith, (λ r n m. ground arith), refl)

  find_order-first :
      (st : Store A) (e : Element) (q : List Element)
      → find_order st (st.orders e.order).id (e ∷ q) ≡ some e
  unfolding find_order
  find_order-first st e q = ground arith

  -- `RemoveOrder` with the id of the first order takes the first element off.
  level_remove_order-first :
      (st : Store A) (level : ℕ) (e : Element) (q : List Element)
      → (st.levels level).orders ≡ e ∷ q
      → (level_remove_order st level (st.orders e.order).id).1
        ≡ set_level st level (record (st.levels level) {
          orders = q;
          total = d.sub (st.levels level).total (st.orders e.order).remain_amount;
        })
  unfolding level_remove_order take_off
  level_remove_order-first st level e q h =
      rw (h, find_order-first st e q) (rw (h, remove_element-first e q) refl)

  -- The two orders are those of the store after both fills; the level is what the caller shows.
  settled :
      (st st' : Store A) (taker level : ℕ) (e : Element) (q : List Element) (amount : A)
      → e.order ≢ taker
      → IsBalanced (st.orders taker)
      → IsBalanced (st.orders e.order)
      → d.cmp d.zero amount ≡ lt
      → st'.orders ≡ (filled_store st taker level e.order amount).orders
      → (st'.levels level).orders ≡ queue_after st e q amount
      → (st'.levels level).price ≡ (st.levels level).price
      → (st'.levels level).total ≡ (st.levels level).total
      → ((l : ℕ) → l ≢ level → st'.levels l ≡ st.levels l)
      → Filled st st' taker level e q amount
  settled st st' taker level e q amount ne bt bm p same queue price total levels =
      let value = d.mul (st.levels level).price amount in
      let (at_taker, at_maker, at_others, _) = filled_orders st taker level e.order amount ne in
      let t₁ = env.clock (suc st.ticks) in
      let t₂ = env.clock (suc (suc st.ticks)) in
      let here = λ (r : ℕ). ap (λ (f : ℕ → Order A). f r) same in
      let taker' = here taker ∙ at_taker in
      let maker' = here e.order ∙ at_maker in
      record {
        taker_balanced =
            rw taker' (update_filled-IsBalanced t₁ (st.orders taker) amount value p bt);
        taker_remain = rw taker' (update_filled_remain t₁ (st.orders taker) amount value bt);
        taker_terms = rw taker' (update_filled-SameTerms t₁ (st.orders taker) amount value);
        maker_balanced =
            rw maker' (update_filled-IsBalanced t₂ (st.orders e.order) amount value p bm);
        maker_remain = rw maker' (update_filled_remain t₂ (st.orders e.order) amount value bm);
        maker_terms = rw maker' (update_filled-SameTerms t₂ (st.orders e.order) amount value);
        others = λ r n m. here r ∙ at_others r n m;
        queue = queue;
        same_price = price;
        same_total = total;
        other_levels = levels;
      }

  -- A finished maker: nothing remains of it, so that the level's total does not change.
  leaving_total :
      (st : Store A) (taker level : ℕ) (e : Element) (amount : A)
      → e.order ≢ taker
      → IsBalanced (st.orders e.order)
      → is_zero (d.sub (st.orders e.order).remain_amount amount) ≡ true
      → ((filled_store st taker level e.order amount).orders e.order).remain_amount ≡ d.zero
  leaving_total st taker level e amount ne bm z =
      let (_, at_maker, _, _) = filled_orders st taker level e.order amount ne in
      ap (λ (o : Order A). o.remain_amount) at_maker
      ∙ update_filled_remain (env.clock (suc (suc st.ticks))) (st.orders e.order) amount
          (d.mul (st.levels level).price amount) bm
      ∙ d.eq_of_cmp (d.sub (st.orders e.order).remain_amount amount) d.zero (ground arith)

  pub fill_maker-Filled :
      (st : Store A) (result : TradeResult A) (taker level : ℕ) (e : Element) (q : List Element)
      (amount : A)
      → (st.levels level).orders ≡ e ∷ q
      → e.order ≢ taker
      → IsBalanced (st.orders taker)
      → IsBalanced (st.orders e.order)
      → d.cmp d.zero amount ≡ lt
      → Filled st (fill_maker env st result taker level e.order amount).0 taker level e q amount
  unfolding fill_maker
  fill_maker-Filled st result taker level e q amount h ne bt bm p =
      let st₂ = filled_store st taker level e.order amount in
      let (_, at_maker, _, at_levels) = filled_orders st taker level e.order amount ne in
      let m = st.orders e.order in
      let finished : is_finished (st₂.orders e.order) ≡ is_zero (d.sub m.remain_amount amount) =
        ap is_finished at_maker
        ∙ update_filled-finished (env.clock (suc (suc st.ticks))) m amount
            (d.mul (st.levels level).price amount) p bm in
      elim (Bool-cases (is_zero (d.sub m.remain_amount amount))) [
        | inl leaves ↦
            let st₃ = (level_remove_order st₂ level (st₂.orders e.order).id).1 in
            let removed =
              level_remove_order-first st₂ level e q
                (ap (λ (f : ℕ → PriceLevel A). (f level).orders) at_levels ∙ h) in
            rw (finished ∙ leaves) (
              settled st st₃ taker level e q amount ne bt bm p
                (ap (λ (s : Store A). s.orders) removed)
                (ap (λ (s : Store A). (s.levels level).orders) removed ∙ ground arith)
                (ap (λ (s : Store A). (s.levels level).price) removed ∙ ground arith)
                (ap (λ (s : Store A). (s.levels level).total) removed
                  ∙ ground arith
                  ∙ ap (d.sub (st₂.levels level).total)
                      (leaving_total st taker level e amount ne bm leaves)
                  ∙ sub-zero (st₂.levels level).total
                  ∙ ap (λ (f : ℕ → PriceLevel A). (f level).total) at_levels)
                (λ l n. ap (λ (s : Store A). s.levels l) removed ∙ ground (arith, at_levels)))
        | inr stays ↦ rw (finished ∙ stays) (
            settled st st₂ taker level e q amount ne bt bm p refl
              (ap (λ (g : ℕ → PriceLevel A). (g level).orders) at_levels ∙ h ∙ rw stays)
              (ap (λ (g : ℕ → PriceLevel A). (g level).price) at_levels)
              (ap (λ (g : ℕ → PriceLevel A). (g level).total) at_levels)
              (λ l n. ap (λ (f : ℕ → PriceLevel A). f l) at_levels))
      ]
