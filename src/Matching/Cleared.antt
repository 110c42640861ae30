-- ===== src/Matching/Cleared.antt =====
-- The opposite side after its best level has been swept and deleted.
use matchengine.Prelude.{
  ℕ, ◌≡◌, ◌≢◌, refl, sym, ap, ◌∙◌, subst, Bool, true, false, List, [], ◌∷◌, All, All-imp, All-imp₂,
  All-append_right, map_cong, ◌++◌,
}
use matchengine.Decimal.{Decimal}
use matchengine.RbTree
use matchengine.RbTree.{compare_to, RbTree}
use matchengine.RbTree.Spec.{erase_entry}
use matchengine.RbTree.Refine.{compare_to-IsOrder}
use matchengine.RbTree.Valid.{IsValid, entries, entries-delete, delete-IsValid}
use matchengine.Models.Order.{Order}
use matchengine.Models.Trade.{TradeResult}
use matchengine.Models.Fills.{IsOpen}
use matchengine.Store.{Element, Store, PriceLevel}
use matchengine.OrderBook.{OrderBook}
use matchengine.Matching.Fill.{delete_opposite}
use matchengine.Matching.Ready.{Distinct, remains}
use matchengine.Matching.Crossing.{Swept}
use matchengine.Matching.Side.{
  opposite_tree, queue_of, LevelReady, Disjoint, AllDisjoint, SideReady,
}

module _ {A : Type 0} ⦃d : Decimal A⦄ {st : Store A} {result : TradeResult A} {taker : ℕ}
    (e : A × ℕ) {r : Bool × Store A × TradeResult A}
    (s : Swept st result taker e.1 (queue_of st e) r) where
  same_level : (f : A × ℕ) → Disjoint st e f → r.1.levels f.1 ≡ st.levels f.1
  same_level f h = s.other_levels f.1 h.levels

  pub same_queue : (f : A × ℕ) → Disjoint st e f → queue_of r.1 f ≡ queue_of st f
  same_queue f h = ap (λ (l : PriceLevel A). l.orders) (same_level f h)

  -- The orders of another level.
  same_orders :
      (f : A × ℕ)
      → Disjoint st e f
      → LevelReady st taker f
      → All (λ x. r.1.orders x.order ≡ st.orders x.order) (queue_of st f)
  same_orders f h v = All-imp₂ (λ x n a. s.others x.order n a) (queue_of st f) v.apart h.orders

  LevelReady-after : (f : A × ℕ) → Disjoint st e f → LevelReady st taker f → LevelReady r.1 taker f
  LevelReady-after f h v =
      let back =
        λ (P : List Element → Type 0) (p : P (queue_of st f)). subst P (sym (same_queue f h)) p in
      record {
        price = ap (λ (l : PriceLevel A). l.price) (same_level f h) ∙ v.price;
        makers =
            subst (λ q. All (λ x. IsOpen (r.1.orders x.order)) q) (sym (same_queue f h))
              (All-imp₂ (λ x same o. subst IsOpen (sym same) o) (queue_of st f) (same_orders f h v)
                v.makers);
        apart = subst (λ q. All (λ x. x.order ≢ taker) q) (sym (same_queue f h)) v.apart;
        distinct = subst Distinct (sym (same_queue f h)) v.distinct;
      }

  pub remains-after :
      (f : A × ℕ)
      → Disjoint st e f
      → LevelReady st taker f
      → remains r.1 (queue_of r.1 f) ≡ remains st (queue_of st f)
  remains-after f h v =
      ap (remains r.1) (same_queue f h)
      ∙ map_cong (λ x. (r.1.orders x.order).remain_amount) (λ x. (st.orders x.order).remain_amount)
          (queue_of st f)
          (All-imp (λ x e. ap (λ (o : Order A). o.remain_amount) e) (queue_of st f)
            (same_orders f h v))

  Disjoint-after :
      (f g : A × ℕ) → Disjoint st e f → Disjoint st e g → Disjoint st f g → Disjoint r.1 f g
  Disjoint-after f g hf hg h = record {
    levels = h.levels;
    orders =
        subst (λ qf. All (λ y. All (λ x. x.order ≢ y.order) qf) (queue_of r.1 g))
          (sym (same_queue f hf))
          (subst (λ qg. All (λ y. All (λ x. x.order ≢ y.order) (queue_of st f)) qg)
            (sym (same_queue g hg)) h.orders);
  }

  AllDisjoint-after :
      (es : List (A × ℕ)) → All (Disjoint st e) es → AllDisjoint st es → AllDisjoint r.1 es
  AllDisjoint-after [] h a = tt
  AllDisjoint-after (f ∷ es) h a =
      (All-imp₂ (λ g hg fg. Disjoint-after f g h.0 hg fg) es h.1 a.0, AllDisjoint-after es h.1 a.1)

  pub each-after :
      (es : List (A × ℕ))
      → All (Disjoint st e) es
      → All (LevelReady st taker) es
      → All (LevelReady r.1 taker) es
  each-after es h v = All-imp₂ LevelReady-after es h v

-- The first key goes.
erase_first :
    {A V : Type 0} ⦃d : Decimal A⦄ (desc : Bool) (e : A × V) (es : List (A × V))
    → erase_entry (λ a b. compare_to desc (d.cmp a b)) e.0 (e ∷ es) ≡ es
unfolding erase_entry
erase_first ⦃d⦄ desc e es = rw ((compare_to-IsOrder desc d.ordered).cmp_refl e.0, erase_entry)

module _ {A : Type 0} ⦃d : Decimal A⦄ where
  opposite_tree-delete :
      (buys : Bool) (ob : OrderBook A) (p : A)
      → opposite_tree buys (delete_opposite buys ob p)
        ≡ RbTree.delete d.cmp (opposite_tree buys ob) p
  unfolding delete_opposite
  opposite_tree-delete true ob p = refl
  opposite_tree-delete false ob p = refl

  pub SideReady-cleared :
      {st : Store A} {result : TradeResult A} {taker : ℕ} {e : A × ℕ}
      {r : Bool × Store A × TradeResult A} (ob : OrderBook A) (buys : Bool) (es : List (A × ℕ))
      → SideReady st ob buys taker (e ∷ es)
      → Swept st result taker e.1 (queue_of st e) r
      → SideReady r.1 (delete_opposite buys ob (st.levels e.1).price) buys taker es
  SideReady-cleared {st} {taker} {e} {r} ob buys es v s =
      let tree = opposite_tree buys ob in
      let same =
        opposite_tree-delete buys ob (st.levels e.1).price
        ∙ ap (RbTree.delete d.cmp tree) v.each.0.price in
      record {
        direction = ap (λ (t : RbTree A ℕ). t.desc) same ∙ unfold RbTree.delete in v.direction;
        valid = subst (IsValid d.cmp) (sym same) (delete-IsValid d.ordered tree e.0 v.valid);
        levels =
            ap entries same
            ∙ entries-delete d.ordered tree e.0 v.valid
            ∙ ap (erase_entry (λ a b. compare_to tree.desc (d.cmp a b)) e.0) v.levels
            ∙ erase_first tree.desc e es;
        each = each-after e s es v.disjoint.0 v.each.1;
        disjoint = AllDisjoint-after e s es v.disjoint.0 v.disjoint.1;
        taker_balanced = s.ready.taker_balanced;
      }

module _ {A : Type 0} ⦃d : Decimal A⦄ where
  suffix_apart :
      (f : A × ℕ) (st : Store A) (x : Element) (q rest : List Element)
      → (front : List Element) × (q ≡ front ++ rest)
      → All (λ a. a.order ≢ x.order) q
      → All (λ a. a.order ≢ x.order) rest
  suffix_apart f st x q rest (front, at) h =
      All-append_right (λ a. a.order ≢ x.order) front rest
        (subst (All (λ a. a.order ≢ x.order)) at h)

  -- The swept level still holds orders, and stays the first.
  pub SideReady-kept :
      {st : Store A} {result : TradeResult A} {taker : ℕ} {e : A × ℕ}
      {r : Bool × Store A × TradeResult A} (ob : OrderBook A) (buys : Bool) (es : List (A × ℕ))
      → SideReady st ob buys taker (e ∷ es)
      → Swept st result taker e.1 (queue_of st e) r
      → SideReady r.1 ob buys taker (e ∷ es)
  SideReady-kept {st} {taker} {e} {r} ob buys es v s =
      let at = s.ready.queue in
      record {
        direction = v.direction;
        valid = v.valid;
        levels = v.levels;
        each = (
          record {
            price = s.same_price ∙ v.each.0.price;
            makers = subst (All (λ x. IsOpen (r.1.orders x.order))) (sym at) s.ready.makers;
            apart = subst (All (λ x. x.order ≢ taker)) (sym at) s.ready.apart;
            distinct = subst Distinct (sym at) s.ready.distinct;
          },
          each-after e s es v.disjoint.0 v.each.1,
        );
        disjoint = (
          All-imp
              (λ f h. record {
                levels = h.levels;
                orders =
                    subst (λ qe. All (λ y. All (λ x. x.order ≢ y.order) qe) (queue_of r.1 f))
                      (sym at)
                      (subst (All (λ y. All (λ x. x.order ≢ y.order) s.rest))
                        (sym (same_queue e s f h))
                        (All-imp (λ y a. suffix_apart f st y (queue_of st e) s.rest s.suffix a)
                          (queue_of st f) h.orders));
              })
              es v.disjoint.0,
          AllDisjoint-after e s es v.disjoint.0 v.disjoint.1,
        );
        taker_balanced = s.ready.taker_balanced;
      }
