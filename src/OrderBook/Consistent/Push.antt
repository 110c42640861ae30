-- ===== src/OrderBook/Consistent/Push.antt =====
-- `AddOrder` of internal/orderbook/orderbook.go: the order at the end of its level, and in the index.
use matchengine.Prelude.{
  ℕ, suc, ◌≡◌, ◌≢◌, refl, sym, ap, ◌∙◌, subst, Bool, true, false, ◌==◌, ==_iff, [], ◌∷◌, ◌++◌, All,
  All-imp, All-append, some, none, Bool-cases, inl, inr, arith,
}
use matchengine.Decimal.{Decimal}
use matchengine.Models.Order.{is_buy}
use matchengine.Store.{Element, Store, PriceLevel, update}
use matchengine.OrderBook.Level.{sum_remain}
use matchengine.OrderBook.Book.{OrderBook, OrderEntry, find_entry, set_entry}
use matchengine.OrderBook.Index.{find_entry-set_entry, IsIndex-set_entry}
use matchengine.OrderBook.Elements.{
  find_element, Unique, find_element-append, find_element-last, Unique-append, sum_remain-append,
  sum_remain-same,
}
use matchengine.OrderBook.Consistent.{
  level_at, ElementOk, LevelOk, EntryOk, IsConsistent, LevelOk-keep,
}

module _ {A : Type 0} ⦃d : Decimal A⦄ {st : Store A} {ob : OrderBook A} (v : IsConsistent st ob)
    (r l : ℕ) (listed : level_at ob (is_buy (st.orders r)) (st.orders r).price ≡ some l)
    (new : find_entry (st.orders r).id ob.orders ≡ none) where
  abbrev element : Element
  element = record { address = st.next_element; order = r }

  abbrev pushed : Store A
  pushed = record st {
    levels = update st.levels l (record (st.levels l) {
      orders = (st.levels l).orders ++ element ∷ [];
      total = d.add (st.levels l).total (st.orders r).remain_amount;
    });
    next_element = suc st.next_element;
  }

  abbrev entry : OrderEntry
  entry = record { order = r; level = l; element = st.next_element }

  abbrev indexed : OrderBook A
  indexed = record ob { orders = set_entry (st.orders r).id entry ob.orders }

  other_level : (m : ℕ) → m ≢ l → pushed.levels m ≡ st.levels m
  other_level m n = let other : (m == l) ≡ false = ground (arith, n) in rw other refl

  this_level : pushed.levels l ≡ record (st.levels l) {
    orders = (st.levels l).orders ++ element ∷ [];
    total = d.add (st.levels l).total (st.orders r).remain_amount;
  }
  this_level = let same : (l == l) ≡ true = ground arith in rw same refl

  -- What the index held, it holds.
  still :
      (id : ℕ) (e : OrderEntry)
      → find_entry id ob.orders ≡ some e
      → find_entry id indexed.orders ≡ some e
  still id e h =
      find_entry-set_entry (st.orders r).id id entry ob.orders
      ∙ elim (Bool-cases ((st.orders r).id == id)) [
        | inr other ↦ rw other h
        | inl same ↦
            let wrong : some e ≡ none =
              sym h
              ∙ ap (λ j. find_entry j ob.orders) (sym ((==_iff (st.orders r).id id).0 same))
              ∙ new in
            cc
      ]

  ElementOk-pushed :
      (b : Bool) (p : A) (m : ℕ) (x : Element)
      → ElementOk st ob.orders b p m x
      → ElementOk pushed indexed.orders b p m x
  ElementOk-pushed b p m x k = record {
    old = omega (arith, k.old);
    indexed = still (st.orders x.order).id _ k.indexed;
    same_side = k.same_side;
    same_price = k.same_price;
  }

  self : find_entry (st.orders r).id indexed.orders ≡ some entry
  self =
      let same : ((st.orders r).id == (st.orders r).id) ≡ true = ground arith in
      find_entry-set_entry (st.orders r).id (st.orders r).id entry ob.orders ∙ rw same refl

  -- The level that the order joins.
  LevelOk-joined :
      (b : Bool) (p : A) → level_at ob b p ≡ some l → LevelOk pushed indexed.orders b p l
  LevelOk-joined b p h =
      let k = v.levels b p l h in
      let (side, price) = v.apart (is_buy (st.orders r)) b (st.orders r).price p l listed h in
      let q = (st.levels l).orders in
      record {
        old = k.old;
        price = ap (λ (x : PriceLevel A). x.price) this_level ∙ k.price;
        total =
            ap (λ (x : PriceLevel A). x.total) this_level
            ∙ ap (λ t. d.add t (st.orders r).remain_amount) k.total
            ∙ sym (sum_remain-append st d.zero q element)
            ∙ sym (sum_remain-same st pushed d.zero (q ++ element ∷ []) refl)
            ∙ sym (ap (λ (x : PriceLevel A). sum_remain pushed d.zero x.orders) this_level);
        elements =
            subst (λ (x : PriceLevel A). All (ElementOk pushed indexed.orders b p l) x.orders)
              (sym this_level)
              (All-append (ElementOk pushed indexed.orders b p l) q (element ∷ [])
                (All-imp (ElementOk-pushed b p l) q k.elements)
                (
                  record {
                    old = omega arith;
                    indexed = self;
                    same_side = side;
                    same_price = price;
                  },
                  tt,
                ));
        unique =
            subst (λ (x : PriceLevel A). Unique x.orders) (sym this_level)
              (Unique-append q element (All-imp (λ x o. o.old) q k.elements) k.unique);
      }

  LevelOk-pushed :
      (b : Bool) (p : A) (m : ℕ) → level_at ob b p ≡ some m → LevelOk pushed indexed.orders b p m
  LevelOk-pushed b p m h = elim (Bool-cases (m == l)) [
    | inl same ↦
        let e : m ≡ l = (==_iff m l).0 same in
        subst (λ j. LevelOk pushed indexed.orders b p j) (sym e)
          (LevelOk-joined b p (subst (λ j. level_at ob b p ≡ some j) e h))
    | inr apart ↦
        let k = v.levels b p m h in
        LevelOk-keep pushed indexed.orders refl (other_level m (λ e. ground (arith, e, apart)))
          (omega arith) (omega arith)
          (All-imp (λ x o. still (st.orders x.order).id _ o.indexed ∙ sym o.indexed)
            (st.levels m).orders k.elements)
          k
  ]

  -- What a list held, it holds.
  held-still :
      (m a x : ℕ)
      → find_element a (st.levels m).orders ≡ some x
      → find_element a (pushed.levels m).orders ≡ some x
  held-still m a x h = elim (Bool-cases (m == l)) [
    | inr apart ↦
        ap (λ (y : PriceLevel A). find_element a y.orders)
          (other_level m (λ e. ground (arith, e, apart)))
        ∙ h
    | inl same ↦
        let e : m ≡ l = (==_iff m l).0 same in
        subst (λ j. find_element a (pushed.levels j).orders ≡ some x) (sym e)
          (ap (λ (y : PriceLevel A). find_element a y.orders) this_level
            ∙ find_element-append a x (st.levels l).orders element
                (subst (λ j. find_element a (st.levels j).orders ≡ some x) e h))
  ]

  EntryOk-pushed :
      (id : ℕ) (e : OrderEntry)
      → find_entry id indexed.orders ≡ some e
      → EntryOk pushed indexed id e
  EntryOk-pushed id e h = elim (Bool-cases ((st.orders r).id == id)) [
    | inr other ↦
        let old : find_entry id ob.orders ≡ some e =
          sym (find_entry-set_entry (st.orders r).id id entry ob.orders ∙ rw other refl) ∙ h in
        let k = v.entries id e old in
        record {
          same_id = k.same_id;
          listed = k.listed;
          held = held-still e.level e.element e.order k.held;
        }
    | inl same ↦
        let k = v.levels _ _ l listed in
        let is_new : some entry ≡ some e =
          sym (find_entry-set_entry (st.orders r).id id entry ob.orders ∙ rw same refl) ∙ h in
        let same_entry : entry ≡ e = cc in
        subst (λ f. EntryOk pushed indexed id f) same_entry
          (record {
            same_id = (==_iff (st.orders r).id id).0 same;
            listed = listed;
            held =
                ap (λ (y : PriceLevel A). find_element st.next_element y.orders) this_level
                ∙ find_element-last (st.levels l).orders element
                    (All-imp (λ x o. o.old) (st.levels l).orders k.elements);
          })
  ]

  -- Pushing an order with an id that the index does not have leaves a book consistent.
  pub push-IsConsistent : IsConsistent pushed indexed
  push-IsConsistent = record {
    bids_first_high = v.bids_first_high;
    asks_first_low = v.asks_first_low;
    bids_valid = v.bids_valid;
    asks_valid = v.asks_valid;
    index = IsIndex-set_entry (st.orders r).id entry ob.orders v.index;
    entries = EntryOk-pushed;
    levels = LevelOk-pushed;
    apart = v.apart;
  }
