-- ===== src/Matching/Walk.antt =====
-- The loop over the levels against the plan.
use matchengine.Prelude.{
  ℕ, zero, suc, ◌<◌, ◌≡◌, ◌≢◌, refl, sym, ap, ◌∙◌, subst, arith, Bool, true, false, List, [], ◌∷◌,
  ◌++◌, map, length, append-nil, append_assoc, All-imp, some, none, ◌⊎◌, inl, inr, Bool-cases,
}
use mathlib.Core.List.{map-append}
use matchengine.Decimal.{Decimal, greater_than}
use matchengine.Models.Order.{Order, is_buy, is_buy_side}
use matchengine.Models.Trade.{TradeResult}
use matchengine.Models.Fills.{SameTerms, SameTerms-trans}
use matchengine.Store.{Element, Store, Env}
use matchengine.Matching.Fill.{best_opposite, delete_opposite}
use matchengine.Matching.Limit.{Matched, match_level, after_level}
use matchengine.Matching.Ready.{remains}
use matchengine.Matching.Crossing.{cross, sub_all, Swept, SameTerms-refl}
use matchengine.Matching.Sweep.{match_level_lem}
use matchengine.Matching.Side.{
  queue_of, SideReady, best_opposite-first, best_opposite-none, first-Ready,
}
use matchengine.Matching.Cleared.{SideReady-cleared, SideReady-kept}
use matchengine.Matching.Plan.{
  view, plan, price_amount, plan_stops, plan_refused, plan_first, at_one_price, sub_all-append,
  view-after, Walked,
}
use matchengine.Matching.Loop.{level_loop, round}

cons-ne-nil : {B : Type 0} (x : B) (xs : List B) → x ∷ xs ≢ []
cons-ne-nil x xs h = cc

module _ {A : Type 0} ⦃d : Decimal A⦄ where
  pub plan_nil : (refuse : A → Bool) (r : A) → [] ≡ plan refuse r []
  unfolding plan
  plan_nil refuse r = refl

  -- Nothing is traded.
  Walked-nothing :
      (refuse : A → Bool) (m : Matched A) (taker : ℕ) (es : List (A × ℕ))
      → SideReady m.store m.book (is_buy (m.store.orders taker)) taker es
      → [] ≡ plan refuse (m.store.orders taker).remain_amount (view m.store es)
      → (greater_than (m.store.orders taker).remain_amount d.zero ≡ false)
        ⊎ (es ≡ [])
        ⊎ ((e : A × ℕ) × (es' : List (A × ℕ)) × (es ≡ e ∷ es') × (refuse e.0 ≡ true))
      → Walked refuse m taker es m
  unfolding sub_all
  Walked-nothing refuse m taker es v p ends = record {
    new = [];
    rest = es;
    trades = sym (append-nil m.result.trades);
    planned = p;
    remain = refl;
    terms = SameTerms-refl (m.store.orders taker);
    side = v;
    ends = ends;
  }

  is_buy_lem : (o p : Order A) → SameTerms o p → is_buy p ≡ is_buy o
  unfolding is_buy
  is_buy_lem o p t = ap is_buy_side t.same_side

  -- The trades of a level at a price are what the taker crosses there.
  pub Swept-priced :
      {st : Store A} {result : TradeResult A} {taker : ℕ} {e : A × ℕ}
      {r : Bool × Store A × TradeResult A} (s : Swept st result taker e.1 (queue_of st e) r)
      → (st.levels e.1).price ≡ e.0
      → map price_amount s.new
        ≡ map (λ a. (e.0, a)) (cross (st.orders taker).remain_amount (remains st (queue_of st e)))
  Swept-priced {st} {result} {taker} {e} s price =
      at_one_price e.0 s.new (All-imp (λ t p. p ∙ price) s.new s.prices)
      ∙ ap (map (λ a. (e.0, a))) s.amounts

  -- The first level, and then the rest of the walk.
  Walked-on :
      (refuse : A → Bool) (m m₁ m' : Matched A) (taker : ℕ) (e : A × ℕ) (es es₁ : List (A × ℕ))
      (r : Bool × Store A × TradeResult A)
      → SideReady m.store m.book (is_buy (m.store.orders taker)) taker (e ∷ es)
      → greater_than (m.store.orders taker).remain_amount d.zero ≡ true
      → refuse e.0 ≡ false
      → Swept m.store m.result taker e.1 (queue_of m.store e) r
      → m₁.store ≡ r.1
      → m₁.result ≡ r.2
      → plan refuse (r.1.orders taker).remain_amount (view r.1 es₁)
        ≡ plan refuse (r.1.orders taker).remain_amount (view m.store es)
      → Walked refuse m₁ taker es₁ m'
      → Walked refuse m taker (e ∷ es) m'
  Walked-on refuse m m₁ m' taker e es es₁ r v pos ok s at_store at_result same w =
      let o = m.store.orders taker in
      let here =
        λ (B : Type 0) (f : Order A → B). ap (λ (st : Store A). f (st.orders taker)) at_store in
      let ms = remains m.store (queue_of m.store e) in
      let spent : (r.1.orders taker).remain_amount
          ≡ sub_all o.remain_amount (cross o.remain_amount ms) =
        s.remain ∙ ap (sub_all o.remain_amount) s.amounts in
      let first : map price_amount s.new ≡ map (λ a. (e.0, a)) (cross o.remain_amount ms) =
        Swept-priced s v.each.0.price in
      let later : map price_amount w.new
          ≡ plan refuse (sub_all o.remain_amount (cross o.remain_amount ms)) (view m.store es) =
        w.planned
        ∙ ap (λ (st : Store A). plan refuse (st.orders taker).remain_amount (view st es₁)) at_store
        ∙ same
        ∙ ap (λ x. plan refuse x (view m.store es)) spent in
      record {
        new = s.new ++ w.new;
        rest = w.rest;
        trades =
            w.trades
            ∙ ap (λ (x : TradeResult A). x.trades ++ w.new) at_result
            ∙ ap (λ ts. ts ++ w.new) s.trades
            ∙ append_assoc m.result.trades s.new w.new;
        planned =
            map-append price_amount s.new w.new
            ∙ rw (first, later)
                (sym (plan_first refuse o.remain_amount e.0 ms (view m.store es) pos ok));
        remain =
            w.remain
            ∙ here A (λ o. sub_all o.remain_amount (map (λ t. t.amount) w.new))
            ∙ ap (λ x. sub_all x (map (λ t. t.amount) w.new)) s.remain
            ∙ sym (
                sub_all-append o.remain_amount (map (λ t. t.amount) s.new)
                  (map (λ t. t.amount) w.new))
            ∙ ap (sub_all o.remain_amount) (sym (map-append (λ t. t.amount) s.new w.new));
        terms =
            SameTerms-trans
              (subst (λ (st : Store A). SameTerms o (st.orders taker)) (sym at_store) s.terms)
              w.terms;
        side =
            subst (λ b. SideReady m'.store m'.book b taker w.rest)
              (here Bool is_buy ∙ is_buy_lem o (r.1.orders taker) s.terms) w.side;
        ends = w.ends;
      }

module _ {A : Type 0} ⦃d : Decimal A⦄ (env : Env) (refuse : Order A → A → Bool)
    (leave : Order A → Bool) where
  pub loop_over :
      (fuel : ℕ) (m : Matched A) (taker : ℕ)
      → greater_than (m.store.orders taker).remain_amount d.zero ≡ false
      → level_loop env refuse leave (suc fuel) m taker ≡ some m
  unfolding level_loop
  loop_over fuel m taker h = rw (h, level_loop, round)

  pub loop_none :
      (fuel : ℕ) (m : Matched A) (taker : ℕ)
      → greater_than (m.store.orders taker).remain_amount d.zero ≡ true
      → best_opposite (is_buy (m.store.orders taker)) m.book ≡ none
      → level_loop env refuse leave (suc fuel) m taker ≡ some m
  unfolding level_loop
  loop_none fuel m taker h b = rw (h, level_loop, round) (rw b refl)

  pub loop_refused :
      (fuel : ℕ) (m : Matched A) (taker level : ℕ)
      → greater_than (m.store.orders taker).remain_amount d.zero ≡ true
      → best_opposite (is_buy (m.store.orders taker)) m.book ≡ some level
      → refuse (m.store.orders taker) (m.store.levels level).price ≡ true
      → level_loop env refuse leave (suc fuel) m taker ≡ some m
  unfolding level_loop
  loop_refused fuel m taker level h b n = rw (h, level_loop, round) (rw b (rw n refl))

  loop_on :
      (fuel : ℕ) (m : Matched A) (taker level : ℕ) (r : Bool × Store A × TradeResult A)
      → greater_than (m.store.orders taker).remain_amount d.zero ≡ true
      → best_opposite (is_buy (m.store.orders taker)) m.book ≡ some level
      → refuse (m.store.orders taker) (m.store.levels level).price ≡ false
      → match_level env m.store m.result taker level ≡ some r
      → leave (m.store.orders taker) ≡ false
      → level_loop env refuse leave (suc fuel) m taker
        ≡ level_loop env refuse leave fuel
            (after_level env m.book (is_buy (m.store.orders taker)) (m.store.levels level).price r)
            taker
  unfolding level_loop
  loop_on fuel m taker level r h b n e l =
      rw (h, level_loop, round) (rw b (rw n (rw e (rw l refl))))

-- The tests depend on the terms of the order alone, and the loop does not leave early.
module _ {A : Type 0} ⦃d : Decimal A⦄ (env : Env) (refuse : Order A → A → Bool)
    (leave : Order A → Bool) (o : Order A)
    (steady : (p : Order A) → SameTerms o p → (x : A) → refuse p x ≡ refuse o x)
    (stays : (p : Order A) → SameTerms o p → leave p ≡ false) where
  abbrev Walks : ℕ → Matched A → ℕ → List (A × ℕ) → Type 0
  Walks fuel m taker es =
      (m' : Matched A) × (level_loop env refuse leave fuel m taker ≡ some m')
      × Walked (refuse o) m taker es m'

  walk_over :
      (fuel : ℕ) (m : Matched A) (taker : ℕ) (es : List (A × ℕ))
      → SideReady m.store m.book (is_buy (m.store.orders taker)) taker es
      → greater_than (m.store.orders taker).remain_amount d.zero ≡ false
      → Walks (suc fuel) m taker es
  walk_over fuel m taker es v h = (
    m,
    loop_over env refuse leave fuel m taker h,
    Walked-nothing (refuse o) m taker es v
        (sym (plan_stops (refuse o) (m.store.orders taker).remain_amount (view m.store es) h))
        (inl h),
  )

  -- After a level: it was emptied and deleted, and the walk goes on with the others; or it is not,
  -- and the taker is filled.
  walk_next :
      (fuel : ℕ) (m : Matched A) (taker : ℕ) (e : A × ℕ) (es : List (A × ℕ))
      (r : Bool × Store A × TradeResult A) (rest : List Element)
      → SideReady m.store m.book (is_buy (m.store.orders taker)) taker (e ∷ es)
      → (s : Swept m.store m.result taker e.1 (queue_of m.store e) r) → s.rest ≡ rest
      → greater_than (m.store.orders taker).remain_amount d.zero ≡ true
      → refuse o e.0 ≡ false
      → let m₁ =
          after_level env m.book (is_buy (m.store.orders taker)) (m.store.levels e.1).price r in
        (SideReady m₁.store m₁.book (is_buy (m₁.store.orders taker)) taker es
          → Walks (suc fuel) m₁ taker es)
        → (w : (m' : Matched A) × (level_loop env refuse leave (suc fuel) m₁ taker ≡ some m'))
          × Walked (refuse o) m taker (e ∷ es) w.0
  unfolding after_level
  walk_next fuel m taker e es r [] v s at pos ok more =
      let buys = is_buy (m.store.orders taker) in
      let m₁ = after_level env m.book buys (m.store.levels e.1).price r in
      let emptied : m₁.book ≡ delete_opposite buys m.book (m.store.levels e.1).price =
        rw (s.flag, at) refl in
      let side : SideReady m₁.store m₁.book (is_buy (m₁.store.orders taker)) taker es =
        subst (λ ob. SideReady r.1 ob (is_buy (r.1.orders taker)) taker es) (sym emptied)
          (subst
            (λ b. SideReady r.1 (delete_opposite buys m.book (m.store.levels e.1).price) b taker es)
            (sym (is_buy_lem (m.store.orders taker) (r.1.orders taker) s.terms))
            (SideReady-cleared m.book buys es v s)) in
      let (m', e', w) = more side in
      (
        (m', e'),
        Walked-on (refuse o) m m₁ m' taker e es es r v pos ok s refl refl
            (ap (plan (refuse o) (r.1.orders taker).remain_amount)
              (view-after e s es v.disjoint.0 v.each.1))
            w,
      )
  walk_next fuel m taker e es r (x ∷ xs) v s at pos ok more =
      let buys = is_buy (m.store.orders taker) in
      let m₁ = after_level env m.book buys (m.store.levels e.1).price r in
      let kept : m₁.book ≡ m.book = rw (s.flag, at) refl in
      let over : greater_than (r.1.orders taker).remain_amount d.zero ≡ false = elim s.ends [
        | inl h ↦ h
        | inr none_left ↦ absurd (cons-ne-nil x xs (sym at ∙ none_left))
      ] in
      let side : SideReady m₁.store m₁.book (is_buy (m₁.store.orders taker)) taker (e ∷ es) =
        subst (λ ob. SideReady r.1 ob (is_buy (r.1.orders taker)) taker (e ∷ es)) (sym kept)
          (subst (λ b. SideReady r.1 m.book b taker (e ∷ es))
            (sym (is_buy_lem (m.store.orders taker) (r.1.orders taker) s.terms))
            (SideReady-kept m.book buys es v s)) in
      let (m', e', w) = walk_over fuel m₁ taker (e ∷ es) side over in
      (
        (m', e'),
        Walked-on (refuse o) m m₁ m' taker e es (e ∷ es) r v pos ok s refl refl
            (plan_stops (refuse o) (r.1.orders taker).remain_amount (view r.1 (e ∷ es)) over
              ∙ sym (plan_stops (refuse o) (r.1.orders taker).remain_amount (view m.store es) over))
            w,
      )

  -- With more fuel than there are levels the loop ends, and has traded by plan.
  pub walk :
      (fuel : ℕ) (es : List (A × ℕ)) (m : Matched A) (taker : ℕ)
      → length es < fuel
      → SameTerms o (m.store.orders taker)
      → SideReady m.store m.book (is_buy (m.store.orders taker)) taker es
      → Walks fuel m taker es
  walk zero es m taker h t v = absurd (omega arith)
  walk (suc fuel) [] m taker h t v =
      elim (Bool-cases (greater_than (m.store.orders taker).remain_amount d.zero)) [
        | inr over ↦ walk_over fuel m taker [] v over
        | inl pos ↦ (
          m,
          loop_none env refuse leave fuel m taker pos
              (best_opposite-none m.store m.book (is_buy (m.store.orders taker)) taker v),
          Walked-nothing (refuse o) m taker [] v
              (plan_nil (refuse o) (m.store.orders taker).remain_amount) (inr (inl refl)),
        )
      ]
  walk (suc zero) (e ∷ es) m taker h t v = absurd (omega arith)
  walk (suc (suc fuel)) (e ∷ es) m taker h t v =
      let p = m.store.orders taker in
      let best = best_opposite-first m.store m.book (is_buy p) taker e es v in
      let same : refuse p (m.store.levels e.1).price ≡ refuse o e.0 =
        steady p t (m.store.levels e.1).price ∙ ap (refuse o) v.each.0.price in
      elim (Bool-cases (greater_than p.remain_amount d.zero)) [
        | inr over ↦ walk_over (suc fuel) m taker (e ∷ es) v over
        | inl pos ↦ elim (Bool-cases (refuse o e.0)) [
          | inl out ↦ (
            m,
            loop_refused env refuse leave (suc fuel) m taker e.1 pos best (same ∙ out),
            Walked-nothing (refuse o) m taker (e ∷ es) v
                (sym (
                  plan_refused (refuse o) p.remain_amount e.0 (remains m.store (queue_of m.store e))
                    (view m.store es) out))
                (inr (inr (e, es, refl, out))),
          )
          | inr ok ↦
              let (r, swept, s) =
                match_level_lem env m.store m.result taker e.1 (queue_of m.store e)
                  (first-Ready m.store m.book (is_buy p) taker e es v) in
              let m₁ = after_level env m.book (is_buy p) (m.store.levels e.1).price r in
              let (found, w) = walk_next fuel m taker e es r s.rest v s refl pos ok (λ side.
                walk (suc fuel) es m₁ taker (omega arith)
                  (unfold after_level in SameTerms-trans t s.terms) side) in
              (
                found.0,
                loop_on env refuse leave (suc fuel) m taker e.1 r pos best (same ∙ ok) swept
                      (stays p t)
                    ∙ found.1,
                w,
              )
        ]
      ]
