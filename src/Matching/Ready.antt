-- ===== src/Matching/Ready.antt =====
-- The level that a matcher works on: its orders are open, distinct, and none of them the taker.
use matchengine.Prelude.{
  ℕ, ◌≡◌, ◌≢◌, sym, ap, ◌∙◌, subst, lt, gt, arith, true, false, if◌then◌else◌, List, [], ◌∷◌, map,
  All, All-imp, All-imp₂, map_cong,
}
use matchengine.Decimal.{Decimal, is_zero, min_of, sub_self, sub_pos}
use matchengine.Models.Order.{Order}
use matchengine.Models.Fills.{IsBalanced, IsOpen}
use matchengine.Store.{Element, Store}
use matchengine.Matching.Step.{Filled}

-- The orders of a queue are different orders.
abbrev pub Distinct : List Element → Type 0
Distinct [] = Unit
Distinct (e ∷ q) = All (λ x. x.order ≢ e.order) q × Distinct q

module _ {A : Type 0} ⦃d : Decimal A⦄ where
  abbrev pub remains : Store A → List Element → List A
  remains st q = map (λ e. (st.orders e.order).remain_amount) q

  abbrev pub ids : Store A → List Element → List ℕ
  ids st q = map (λ e. (st.orders e.order).id) q

  pub record Ready (st : Store A) (taker level : ℕ) (q : List Element) : Type 0 where
    pub queue : (st.levels level).orders ≡ q
    pub makers : All (λ e. IsOpen (st.orders e.order)) q
    pub apart : All (λ e. e.order ≢ taker) q
    pub distinct : Distinct q
    pub taker_balanced : IsBalanced (st.orders taker)

  -- What the trade takes is positive, and what it leaves of both orders.
  pub min_of-pos :
      (r m : A) → d.cmp r d.zero ≡ gt → d.cmp m d.zero ≡ gt → d.cmp d.zero (min_of r m) ≡ lt
  min_of-pos r m h k = ground (arith, d.lt_of_gt r d.zero, d.lt_of_gt m d.zero)

  -- Either the maker is used up, or it keeps something and the taker is used up.
  pub used_up :
      (r m : A)
      → (if is_zero (d.sub m (min_of r m))
          then d.sub m (min_of r m) ≡ d.zero
          else (d.sub r (min_of r m) ≡ d.zero) × (d.cmp (d.sub m (min_of r m)) d.zero ≡ gt))
  used_up r m = ground (
    arith,
    sub_self m,
    sub_self r,
    d.eq_of_cmp m r,
    d.lt_of_gt m r,
    sub_pos m r,
    d.gt_of_lt d.zero (d.sub m r),
    d.cmp_refl d.zero,
    d.eq_of_cmp (d.sub m r) d.zero,
  )

module _ {A : Type 0} ⦃d : Decimal A⦄ {st st' : Store A} {taker level : ℕ} {e : Element}
    {q : List Element} {amount : A} (f : Filled st st' taker level e q amount) where
  -- The orders behind the first are untouched.
  behind :
      All (λ x. x.order ≢ taker) q
      → All (λ x. x.order ≢ e.order) q
      → All (λ x. st'.orders x.order ≡ st.orders x.order) q
  behind a b = All-imp₂ (λ x n m. f.others x.order n m) q a b

  makers_behind :
      All (λ x. x.order ≢ taker) q
      → All (λ x. x.order ≢ e.order) q
      → All (λ x. IsOpen (st.orders x.order)) q
      → All (λ x. IsOpen (st'.orders x.order)) q
  makers_behind a b c = All-imp₂ (λ x s o. subst IsOpen (sym s) o) q (behind a b) c

  pub remains_behind : Ready st taker level (e ∷ q) → remains st' q ≡ remains st q
  remains_behind v =
      map_cong (λ x. (st'.orders x.order).remain_amount) (λ x. (st.orders x.order).remain_amount) q
        (All-imp (λ x s. ap (λ (o : Order A). o.remain_amount) s) q (behind v.apart.1 v.distinct.0))

  pub ids_behind : Ready st taker level (e ∷ q) → ids st' q ≡ ids st q
  ids_behind v =
      map_cong (λ x. (st'.orders x.order).id) (λ x. (st.orders x.order).id) q
        (All-imp (λ x s. ap (λ (o : Order A). o.id) s) q (behind v.apart.1 v.distinct.0))

  -- The maker was used up, and has left.
  pub Ready-leaves :
      Ready st taker level (e ∷ q)
      → is_zero (d.sub (st.orders e.order).remain_amount amount) ≡ true
      → Ready st' taker level q
  Ready-leaves v z = record {
    queue = f.queue ∙ rw z;
    makers = makers_behind v.apart.1 v.distinct.0 v.makers.1;
    apart = v.apart.1;
    distinct = v.distinct.1;
    taker_balanced = f.taker_balanced;
  }

  -- The maker keeps something, and stays in front.
  pub Ready-stays :
      Ready st taker level (e ∷ q)
      → is_zero (d.sub (st.orders e.order).remain_amount amount) ≡ false
      → d.cmp (d.sub (st.orders e.order).remain_amount amount) d.zero ≡ gt
      → Ready st' taker level (e ∷ q)
  Ready-stays v z p = record {
    queue = f.queue ∙ rw z;
    makers = (
      record { balanced = f.maker_balanced; remain_pos = rw f.maker_remain p },
      makers_behind v.apart.1 v.distinct.0 v.makers.1,
    );
    apart = v.apart;
    distinct = v.distinct;
    taker_balanced = f.taker_balanced;
  }
