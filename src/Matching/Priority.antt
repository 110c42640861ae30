-- ===== src/Matching/Priority.antt =====
-- The calls of the matchers in internal/matching/limit.go and market.go against price-time priority.
use matchengine.Prelude.{
  ℕ, ◌<◌, ◌≡◌, ◌≢◌, refl, sym, ap, ◌∙◌, subst, lt, gt, arith, Bool, true, false, if◌then◌else◌,
  List, [], ◌∷◌, ◌++◌, map, length, All, All-append, All-imp, All-map-inv, some, inl, inr,
  Bool-cases,
}
use matchengine.Decimal.{Decimal, greater_than, less_than, min_of, sub_self, sub_pos}
use matchengine.Models.Trade.{new_trade_result}
use matchengine.Models.Order.{Order, is_buy, is_sell}
use matchengine.Models.Fills.{SameTerms}
use matchengine.Store.{Store, Env}
use matchengine.OrderBook.{OrderBook}
use matchengine.Matching.Limit.{
  Matched, start, match_limit, match_fok, price_refused, price_refused_fok, is_fok, is_one_level,
  available_amount,
}
use matchengine.Matching.Market.{match_market}
use matchengine.Matching.Crossing.{cross, sub_all}
use matchengine.Matching.Side.{SideReady}
use matchengine.Matching.Plan.{
  view, plan, price_amount, sub_all-append, plan_stops, plan_refused, plan_first, Walked,
}
use matchengine.Matching.Loop.{match_loop_lem, fok_loop_lem, market_loop_lem}
use matchengine.Matching.Crossing.{SameTerms-refl}
use matchengine.Matching.Walk.{walk}

map-map :
    {B C D : Type 0} (g : C → D) (f : B → C) (xs : List B)
    → map g (map f xs) ≡ map (λ x. g (f x)) xs
map-map g f [] = refl
map-map g f (x ∷ xs) = rw (map-map g f xs)

module _ {A : Type 0} ⦃d : Decimal A⦄ (env : Env) where
  price_refused-steady :
      (o p : Order A) → SameTerms o p → (x : A) → price_refused env p x ≡ price_refused env o x
  unfolding price_refused is_buy
  price_refused-steady o p t x = rw (t.same_side, t.same_price) refl

  price_refused_fok-steady :
      (o p : Order A)
      → SameTerms o p
      → (x : A) → price_refused_fok env p x ≡ price_refused_fok env o x
  unfolding price_refused_fok is_buy is_sell
  price_refused_fok-steady o p t x = rw (t.same_side, t.same_price) refl

  -- A limit order that is neither FOK, IOC nor GTX, with more fuel than the opposite side has levels:
  -- `Match` returns; its trades have the prices and amounts of the plan, that is, the opposite levels
  -- best price first and each level first come first, while the limit allows; the opposite side stays
  -- ready; and it ended because the order is filled or no level that the limit allows is left.
  pub match_limit_walks :
      (fuel : ℕ) (st : Store A) (ob : OrderBook A) (taker : ℕ) (es : List (A × ℕ))
      → length es < fuel
      → is_fok (st.orders taker).time_in_force ≡ false
      → is_one_level (st.orders taker).time_in_force ≡ false
      → SideReady st ob (is_buy (st.orders taker)) taker es
      → (m : Matched A) × (match_limit env fuel st ob taker ≡ some m)
        × Walked (price_refused env (st.orders taker)) (start env st ob taker) taker es m
  unfolding match_limit
  match_limit_walks fuel st ob taker es h kind long v =
      let o = st.orders taker in
      let (m, e, w) =
        walk env (price_refused env) (λ p. is_one_level p.time_in_force) o (price_refused-steady o)
          (λ p t. ap is_one_level t.same_time_in_force ∙ long) fuel es (start env st ob taker) taker
          h (SameTerms-refl o) v in
      (m, rw kind (match_loop_lem env fuel (start env st ob taker) taker ∙ e), w)

  -- A market order, likewise, with no limit: `Match` returns, and trades until the order is filled or
  -- the opposite side has no level left.
  pub match_market_walks :
      (fuel : ℕ) (st : Store A) (ob : OrderBook A) (taker : ℕ) (es : List (A × ℕ))
      → length es < fuel
      → SideReady st ob (is_buy (st.orders taker)) taker es
      → (m : Matched A) × (match_market env fuel st ob taker ≡ some m)
        × Walked (λ p. false) (start env st ob taker) taker es m
  unfolding match_market
  match_market_walks fuel st ob taker es h v =
      let o = st.orders taker in
      let (m, e, w) =
        walk env (λ p x. false) (λ p. false) o (λ p t x. refl) (λ p t. refl) fuel es
          (start env st ob taker) taker h (SameTerms-refl o) v in
      (m, market_loop_lem env fuel (start env st ob taker) taker ∙ e, w)

  -- A FOK order: if the totals of the levels that its limit allows do not reach what it wants, `Match`
  -- returns the store and the book as they were, with no trade; otherwise it returns and trades by
  -- plan.
  pub match_fok_walks :
      (fuel : ℕ) (st : Store A) (ob : OrderBook A) (taker : ℕ) (es : List (A × ℕ))
      → length es < fuel
      → is_fok (st.orders taker).time_in_force ≡ true
      → SideReady st ob (is_buy (st.orders taker)) taker es
      → let o = st.orders taker in
        (m : Matched A) × (match_limit env fuel st ob taker ≡ some m)
        × (if less_than (available_amount env st ob o) o.remain_amount
            then m ≡ start env st ob taker
            else Walked (price_refused_fok env o) (start env st ob taker) taker es m)
  unfolding match_limit match_fok
  match_fok_walks fuel st ob taker es h kind v =
      let o = st.orders taker in
      let begin = start env st ob taker in
      elim (Bool-cases (less_than (available_amount env st ob o) o.remain_amount)) [
        | inl short ↦ (begin, rw (kind, short) refl, rw short refl)
        | inr enough ↦
            let (m, e, w) =
              walk env (price_refused_fok env) (λ p. false) o (price_refused_fok-steady o)
                (λ p t. refl) fuel es begin taker h (SameTerms-refl o) v in
            (m, rw (kind, enough) (fok_loop_lem env fuel begin taker ∙ e), rw enough w)
      ]

module _ {A : Type 0} ⦃d : Decimal A⦄ where
  cross_positive :
      (r : A) (ms : List A)
      → All (λ m. d.cmp m d.zero ≡ gt) ms
      → All (λ a. d.cmp a d.zero ≡ gt) (cross r ms)
  unfolding cross
  cross_positive r [] h = tt
  cross_positive r (m ∷ ms) h = ground (arith, cross_positive (d.sub r (min_of r m)) ms h.1)

  -- What is left of a taker never falls below zero.
  cross_bounded :
      (r : A) (ms : List A) → d.cmp r d.zero ≢ lt → d.cmp (sub_all r (cross r ms)) d.zero ≢ lt
  unfolding cross sub_all
  cross_bounded r [] h = h
  cross_bounded r (m ∷ ms) h = ground (
    arith,
    cross_bounded (d.sub r (min_of r m)) ms,
    sub_self r,
    sub_pos r m,
    d.cmp_refl d.zero,
    d.gt_of_lt d.zero (d.sub r m),
  )

  pub amounts_at :
      (p : A) (xs : List A) (ys : List (A × A))
      → map (λ (pa : A × A). pa.1) (map (λ a. (p, a)) xs ++ ys)
        ≡ xs ++ map (λ (pa : A × A). pa.1) ys
  amounts_at p [] ys = refl
  amounts_at p (x ∷ xs) ys = rw (amounts_at p xs ys)

  plan_bounded :
      (refuse : A → Bool) (r : A) (ls : List (A × List A))
      → d.cmp r d.zero ≢ lt
      → d.cmp (sub_all r (map (λ (pa : A × A). pa.1) (plan refuse r ls))) d.zero ≢ lt
  unfolding sub_all
  plan_bounded refuse r [] h = unfold plan in h
  plan_bounded refuse r ((p, ms) ∷ ls) h = elim (Bool-cases (greater_than r d.zero)) [
    | inr over ↦ rw (plan_stops refuse r ((p, ms) ∷ ls) over) h
    | inl pos ↦ elim (Bool-cases (refuse p)) [
      | inl out ↦ rw (plan_refused refuse r p ms ls out) h
      | inr ok ↦
          rw
            (
              plan_first refuse r p ms ls pos ok,
              amounts_at p (cross r ms) (plan refuse (sub_all r (cross r ms)) ls),
              sub_all-append r (cross r ms)
                  (map (λ (pa : A × A). pa.1) (plan refuse (sub_all r (cross r ms)) ls)),
            )
            (plan_bounded refuse (sub_all r (cross r ms)) ls (cross_bounded r ms h))
    ]
  ]

  All-at :
      (refuse : A → Bool) (p : A) (xs : List A)
      → refuse p ≡ false
      → All (λ (pa : A × A). refuse pa.0 ≡ false) (map (λ a. (p, a)) xs)
  All-at refuse p [] h = tt
  All-at refuse p (x ∷ xs) h = (h, All-at refuse p xs h)

  plan_accepts :
      (refuse : A → Bool) (r : A) (ls : List (A × List A))
      → All (λ (pa : A × A). refuse pa.0 ≡ false) (plan refuse r ls)
  plan_accepts refuse r [] = unfold plan in tt
  plan_accepts refuse r ((p, ms) ∷ ls) = elim (Bool-cases (greater_than r d.zero)) [
    | inr over ↦ rw (plan_stops refuse r ((p, ms) ∷ ls) over) tt
    | inl pos ↦ elim (Bool-cases (refuse p)) [
      | inl out ↦ rw (plan_refused refuse r p ms ls out) tt
      | inr ok ↦ rw (plan_first refuse r p ms ls pos ok) (
          All-append _ (map (λ a. (p, a)) (cross r ms)) (plan refuse (sub_all r (cross r ms)) ls)
            (All-at refuse p (cross r ms) ok) (plan_accepts refuse (sub_all r (cross r ms)) ls))
    ]
  ]

  pub Walked-remain :
      (refuse : A → Bool) (m m' : Matched A) (taker : ℕ) (es : List (A × ℕ))
      → Walked refuse m taker es m'
      → let r = (m.store.orders taker).remain_amount in
        (m'.store.orders taker).remain_amount
        ≡ sub_all r (map (λ (pa : A × A). pa.1) (plan refuse r (view m.store es)))
  Walked-remain refuse m m' taker es w =
      w.remain
      ∙ ap (sub_all (m.store.orders taker).remain_amount) (
          sym (map-map (λ (pa : A × A). pa.1) price_amount w.new)
          ∙ ap (map (λ (pa : A × A). pa.1)) w.planned)

  -- After a walk, every new trade has a price that is not refused, and the taker, which had nothing
  -- negative left, still has nothing negative left.
  pub Walked-within :
      (refuse : A → Bool) (m m' : Matched A) (taker : ℕ) (es : List (A × ℕ))
      → d.cmp (m.store.orders taker).remain_amount d.zero ≢ lt
      → (w : Walked refuse m taker es m')
      → All (λ t. refuse t.price ≡ false) w.new
        × (d.cmp (m'.store.orders taker).remain_amount d.zero ≢ lt)
  Walked-within refuse m m' taker es h w =
      let r = (m.store.orders taker).remain_amount in
      let ls = view m.store es in
      (
        All-map-inv (λ (pa : A × A). refuse pa.0 ≡ false) price_amount w.new
            (subst (All (λ (pa : A × A). refuse pa.0 ≡ false)) (sym w.planned)
              (plan_accepts refuse r ls)),
        subst (λ x. d.cmp x d.zero ≢ lt) (sym (Walked-remain refuse m m' taker es w))
            (plan_bounded refuse r ls h),
      )

  -- A price that the limit does not refuse.
  abbrev pub WithinLimit : Order A → A → Type 0
  WithinLimit o price = if is_buy o then d.cmp o.price price ≢ lt else d.cmp o.price price ≢ gt

  WithinLimit-accepted :
      (env : Env) (o : Order A) (price : A)
      → price_refused env o price ≡ false
      → WithinLimit o price
  unfolding price_refused
  WithinLimit-accepted env o price h = elim (Bool-cases (is_buy o)) [
    | inl buys ↦ rw buys (λ e. ground (arith, buys, h, e))
    | inr sells ↦ rw sells (λ e. ground (arith, sells, h, e))
  ]

  -- A limit order that is neither FOK, IOC nor GTX and has nothing negative left, with more fuel than
  -- the ready opposite side has levels: `Match` returns, a buy trades at no price above its limit, a
  -- sell at none below, and no more than the order wants is traded.
  pub match_limit_within :
      (env : Env) (fuel : ℕ) (st : Store A) (ob : OrderBook A) (taker : ℕ) (es : List (A × ℕ))
      → length es < fuel
      → is_fok (st.orders taker).time_in_force ≡ false
      → is_one_level (st.orders taker).time_in_force ≡ false
      → SideReady st ob (is_buy (st.orders taker)) taker es
      → d.cmp (st.orders taker).remain_amount d.zero ≢ lt
      → (m : Matched A) × (match_limit env fuel st ob taker ≡ some m)
        × All (λ t. WithinLimit (st.orders taker) t.price) m.result.trades
        × (d.cmp (m.store.orders taker).remain_amount d.zero ≢ lt)
  unfolding new_trade_result
  match_limit_within env fuel st ob taker es h kind long v pos =
      let (m, e, w) = match_limit_walks env fuel st ob taker es h kind long v in
      let (accepted, bounded) =
        Walked-within (price_refused env (st.orders taker)) (start env st ob taker) m taker es pos
          w in
      (
        m,
        e,
        subst (All (λ t. WithinLimit (st.orders taker) t.price)) (sym w.trades)
            (All-imp (λ t k. WithinLimit-accepted env (st.orders taker) t.price k) w.new accepted),
        bounded,
      )
