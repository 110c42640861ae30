-- ===== src/Matching/Supply.antt =====
-- What `matchFOK` of internal/matching/limit.go counts as available, against what the price-time plan
-- takes.
use matchengine.Prelude.{
  ℕ, ◌≡◌, ◌≢◌, refl, sym, ap, ◌∙◌, subst, lt, gt, arith, Bool, true, false, if◌then◌else◌, List, [],
  ◌∷◌, map, All, Bool-cases, inl, inr,
}
use matchengine.Decimal.{
  Decimal, less_than, greater_than, min_of, sub_self, sub_pos, sub-zero, add_pos, sub_sub, lt_sub,
  add_lt,
}
use matchengine.RbTree.Ends.{walk}
use matchengine.Models.Order.{Order, is_buy, is_sell}
use matchengine.Store.{Element, Store, Env}
use matchengine.OrderBook.{sum_remain}
use matchengine.Matching.Limit.{add_available, price_refused_fok}
use matchengine.Matching.Ready.{remains}
use matchengine.Matching.Crossing.{cross_stops, cross_first, cross, sub_all}
use matchengine.Matching.Side.{queue_of}
use matchengine.Matching.Plan.{view, plan, plan_stops, plan_first, sub_all-append}
use matchengine.Matching.Priority.{amounts_at}

module _ {A : Type 0} ⦃d : Decimal A⦄ where
  abbrev pub sum : List A → A
  sum [] = d.zero
  sum (m ∷ ms) = d.add m (sum ms)

  abbrev pub AllPositive : List A → Type 0
  AllPositive ms = All (λ m. d.cmp m d.zero ≡ gt) ms

  pub sum_remain_lem :
      (st : Store A) (a : A) (q : List Element) → sum_remain st a q ≡ d.add a (sum (remains st q))
  unfolding sum_remain
  sum_remain_lem st a [] = sym (d.add-zero a)
  sum_remain_lem st a (x ∷ q) =
      sum_remain_lem st (d.add a (st.orders x.order).remain_amount) q
      ∙ d.add_assoc a (st.orders x.order).remain_amount (sum (remains st q))

  sum_nonneg : (ms : List A) → AllPositive ms → d.cmp (sum ms) d.zero ≢ lt
  sum_nonneg [] h k = ground (arith, k, d.cmp_refl d.zero)
  sum_nonneg (m ∷ ms) h k = ground (
    arith,
    k,
    d.add_comm m (sum ms),
    add_pos (sum ms) m (sum_nonneg ms h.1),
    d.lt_of_gt m d.zero h.0,
  )

  -- A taker that wants more than all of them takes all of them.
  pub cross_all :
      (r : A) (ms : List A)
      → AllPositive ms
      → d.cmp (sum ms) r ≡ lt
      → (cross r ms ≡ ms) × (sub_all r ms ≡ d.sub r (sum ms))
  unfolding sub_all
  cross_all r [] h k = (unfold cross in refl, sym (sub-zero r))
  cross_all r (m ∷ ms) h k =
      let S = sum ms in
      let fits = lt_sub m S r k in
      let left : d.cmp d.zero (d.sub r m) ≡ lt = ground (
        arith,
        fits,
        sum_nonneg ms h.1,
        d.eq_of_cmp S d.zero,
        d.lt_of_gt S d.zero,
        d.lt_trans d.zero S (d.sub r m),
      ) in
      let below : d.cmp m r ≡ lt =
        subst (λ x. d.cmp x r ≡ lt) (d.add-zero m) (add_lt m d.zero r left) in
      let pos : d.cmp r d.zero ≡ gt =
        d.gt_of_lt d.zero r (d.lt_trans d.zero m r (d.lt_of_gt m d.zero h.0) below) in
      let takes : min_of r m ≡ m = ground (arith, below) in
      let (all, rest) = cross_all (d.sub r m) ms h.1 fits in
      (cross_first r m ms (ground (arith, pos)) ∙ rw (takes, all) refl, rest ∙ sub_sub r m S)

  -- A taker that wants no more than all of them is filled.
  pub cross_fills :
      (r : A) (ms : List A)
      → AllPositive ms
      → d.cmp r d.zero ≢ lt
      → d.cmp (sum ms) r ≢ lt
      → sub_all r (cross r ms) ≡ d.zero
  unfolding sub_all
  cross_fills r [] h p k =
      unfold cross in d.eq_of_cmp r d.zero (ground (arith, p, k, d.lt_of_gt r d.zero))
  cross_fills r (m ∷ ms) h p k = elim (Bool-cases (greater_than r d.zero)) [
    | inr none ↦ rw (cross_stops r (m ∷ ms) none) (d.eq_of_cmp r d.zero (ground (arith, p, none)))
    | inl wants ↦
        let pos : d.cmp r d.zero ≡ gt = ground (arith, wants) in
        rw (cross_first r m ms wants) (elim (Bool-cases (less_than m r)) [
          | inl below ↦
              let takes : min_of r m ≡ m = ground (arith, below) in
              rw takes (
                cross_fills (d.sub r m) ms h.1
                  (λ e. ground (arith, e, d.gt_of_lt d.zero (d.sub r m), sub_pos r m, below))
                  (λ e. k (add_lt m (sum ms) r e)))
          | inr reaches ↦
              let takes : min_of r m ≡ r = ground (arith, reaches) in
              rw (takes, sub_self r, cross_stops d.zero ms (ground (arith, d.cmp_refl d.zero)))
                (sub_self r)
        ])
  ]

module _ {A : Type 0} ⦃d : Decimal A⦄ (env : Env) (st : Store A) (o : Order A) where
  -- A level whose total is that of its orders, each with something left.
  abbrev pub Counted : A × ℕ → Type 0
  Counted e =
      ((st.levels e.1).price ≡ e.0)
      × ((st.levels e.1).total ≡ sum (remains st (queue_of st e)))
      × AllPositive (remains st (queue_of st e))

  abbrev pub reach : List (A × ℕ) → A → A
  reach es acc = (walk (add_available env st o) es acc).1

  -- A price that the count stops at, or a level that is counted.
  abbrev past_limit : A → Bool
  past_limit price = if is_buy o then greater_than price o.price else less_than price o.price

  past_limit-refused : (p : A) → past_limit p ≡ false → price_refused_fok env o p ≡ false
  unfolding price_refused_fok is_buy is_sell
  past_limit-refused p h = ground (arith, h, d.gt_of_lt o.price p, d.lt_of_gt o.price p)

  reach_stops :
      (p : A) (l : ℕ) (es : List (A × ℕ)) (acc : A)
      → past_limit p ≡ true
      → reach ((p, l) ∷ es) acc ≡ acc
  unfolding add_available
  reach_stops p l es acc h = ground (arith, h)

  reach_counts :
      (p : A) (l : ℕ) (es : List (A × ℕ)) (acc : A)
      → past_limit p ≡ false
      → let acc' = d.add acc (st.levels l).total in
        reach ((p, l) ∷ es) acc
        ≡ (if greater_than o.remain_amount acc' then reach es acc' else acc')
  unfolding add_available
  reach_counts p l es acc h = ground (arith, h)

  -- What the plan leaves of a taker.
  abbrev left_by_plan : A → List (A × ℕ) → A
  left_by_plan r es =
      sub_all r (map (λ (pa : A × A). pa.1) (plan (price_refused_fok env o) r (view st es)))

  plan_level :
      (r p : A) (ms : List A) (ls : List (A × List A))
      → d.cmp r d.zero ≡ gt
      → price_refused_fok env o p ≡ false
      → sub_all r (map (λ (pa : A × A). pa.1) (plan (price_refused_fok env o) r ((p, ms) ∷ ls)))
        ≡ sub_all (sub_all r (cross r ms)) (
            map (λ (pa : A × A). pa.1) (plan (price_refused_fok env o) (sub_all r (cross r ms)) ls))
  plan_level r p ms ls pos ok =
      let refuse = price_refused_fok env o in
      rw
        (
          plan_first refuse r p ms ls (ground (arith, pos)) ok,
          amounts_at p (cross r ms) (plan refuse (sub_all r (cross r ms)) ls),
          sub_all-append r (cross r ms)
              (map (λ (pa : A × A). pa.1) (plan refuse (sub_all r (cross r ms)) ls)),
        )
        refl

  -- When the count reaches what the taker wants, the plan fills it.
  pub plan_fills :
      (es : List (A × ℕ)) (acc : A)
      → All Counted es
      → d.cmp acc o.remain_amount ≡ lt
      → less_than (reach es acc) o.remain_amount ≡ false
      → left_by_plan (d.sub o.remain_amount acc) es ≡ d.zero
  unfolding sub_all
  plan_fills [] acc c h k = ground (arith, h, k)
  plan_fills ((p, l) ∷ es) acc c h k =
      let R = o.remain_amount in
      let r = d.sub R acc in
      let ms = remains st (queue_of st (p, l)) in
      let acc' = d.add acc (sum ms) in
      let counts =
        ap (λ t. let a = d.add acc t in if greater_than R a then reach es a else a) c.0.1 in
      let pos : d.cmp r d.zero ≡ gt = d.gt_of_lt d.zero r (sub_pos R acc h) in
      elim (Bool-cases (past_limit p)) [
        | inl past ↦ ground (arith, h, k, reach_stops p l es acc past)
        | inr counted ↦
            rw (plan_level r p ms (view st es) pos (past_limit-refused p counted))
              (elim (Bool-cases (greater_than R acc')) [
                | inl more ↦
                    let below : d.cmp acc' R ≡ lt = d.lt_of_gt R acc' (ground (arith, more)) in
                    let (all, rest) = cross_all r ms c.0.2 (lt_sub acc (sum ms) R below) in
                    let now : reach ((p, l) ∷ es) acc ≡ reach es acc' =
                      reach_counts p l es acc counted ∙ counts ∙ rw more refl in
                    rw (all, rest, sub_sub R acc (sum ms))
                      (plan_fills es acc' c.1 below (subst (λ x. less_than x R ≡ false) now k))
                | inr enough ↦
                    let filled =
                      cross_fills r ms c.0.2 (λ e. ground (arith, pos, e))
                        (λ e.
                          ground (arith, enough, d.gt_of_lt acc' R (add_lt acc (sum ms) R e))) in
                    let none : greater_than d.zero d.zero ≡ false =
                      ground (arith, d.cmp_refl d.zero) in
                    rw (filled, plan_stops (price_refused_fok env o) d.zero (view st es) none) refl
              ])
      ]
