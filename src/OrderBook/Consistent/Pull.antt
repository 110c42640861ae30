-- ===== src/OrderBook/Consistent/Pull.antt =====
-- `RemoveOrder` of internal/orderbook/orderbook.go: the element out of its list, and the entry out of
-- the index.
use matchengine.Prelude.{
  ℕ, ◌≡◌, ◌≢◌, refl, sym, ap, ◌∙◌, subst, Bool, true, false, ◌==◌, ==_iff, All, All-imp, All-imp₂,
  some, none, Bool-cases, inl, inr, ◌⊎◌, arith,
}
use matchengine.Decimal.{Decimal}
use matchengine.Store.{Element, Store, PriceLevel, update, remove_element}
use matchengine.OrderBook.Level.{sum_remain}
use matchengine.OrderBook.Book.{OrderBook, OrderEntry, find_entry, delete_entry}
use matchengine.OrderBook.Index.{find_entry-delete_entry, IsIndex-delete_entry}
use matchengine.OrderBook.Elements.{
  find_element, Unique, All-remove_element, Unique-remove_element, remove_element-gone,
  find_element-remove_element, sum_remain-remove_element, sum_remain-same,
}
use matchengine.OrderBook.Consistent.{
  level_at, ElementOk, LevelOk, EntryOk, IsConsistent, LevelOk-keep,
}

module _ {A : Type 0} ⦃d : Decimal A⦄ {st : Store A} {ob : OrderBook A} (v : IsConsistent st ob)
    (id : ℕ) (e : OrderEntry) (found : find_entry id ob.orders ≡ some e) where
  abbrev pub pulled : Store A
  pulled = record st {
    levels = update st.levels e.level (record (st.levels e.level) {
      orders = remove_element e.element (st.levels e.level).orders;
      total = d.sub (st.levels e.level).total (st.orders e.order).remain_amount;
    });
  }

  abbrev pub unlisted : OrderBook A
  unlisted = record ob { orders = delete_entry id ob.orders }

  gone : EntryOk st ob id e
  gone = v.entries id e found

  other_level : (m : ℕ) → m ≢ e.level → pulled.levels m ≡ st.levels m
  other_level m n = let other : (m == e.level) ≡ false = ground (arith, n) in rw other refl

  pub this_level : pulled.levels e.level ≡ record (st.levels e.level) {
    orders = remove_element e.element (st.levels e.level).orders;
    total = d.sub (st.levels e.level).total (st.orders e.order).remain_amount;
  }
  this_level = let same : (e.level == e.level) ≡ true = ground arith in rw same refl

  -- Another id is in the index as before.
  still : (j : ℕ) → id ≢ j → find_entry j unlisted.orders ≡ find_entry j ob.orders
  still j n =
      let other : (id == j) ≡ false = ground (arith, n) in
      find_entry-delete_entry id j ob.orders v.index ∙ rw other refl

  -- An element that the index has elsewhere has another id.
  other_id :
      (b : Bool) (p : A) (m : ℕ) (x : Element)
      → (m ≢ e.level) ⊎ (x.address ≢ e.element)
      → ElementOk st ob.orders b p m x
      → id ≢ (st.orders x.order).id
  other_id b p m x n k same =
      let here : some e ≡ some (record { order = x.order; level = m; element = x.address }) =
        sym found ∙ ap (λ j. find_entry j ob.orders) same ∙ k.indexed in
      let (levels, addresses) = entry_fields here in
      elim n [ inl l ↦ l (sym levels) | inr a ↦ a (sym addresses) ]
    where
      entry_fields :
          some e ≡ some (record { order = x.order; level = m; element = x.address })
          → (e.level ≡ m) × (e.element ≡ x.address)
      entry_fields h = (cc, cc)

  ElementOk-pulled :
      (b : Bool) (p : A) (m : ℕ) (x : Element)
      → (m ≢ e.level) ⊎ (x.address ≢ e.element)
      → ElementOk st ob.orders b p m x
      → ElementOk pulled unlisted.orders b p m x
  ElementOk-pulled b p m x n k = record {
    old = k.old;
    indexed = still (st.orders x.order).id (other_id b p m x n k) ∙ k.indexed;
    same_side = k.same_side;
    same_price = k.same_price;
  }

  -- The level that the order leaves.
  LevelOk-left :
      (b : Bool) (p : A)
      → level_at ob b p ≡ some e.level
      → LevelOk pulled unlisted.orders b p e.level
  LevelOk-left b p h =
      let k = v.levels b p e.level h in
      let q = (st.levels e.level).orders in
      let rest = remove_element e.element q in
      record {
        old = k.old;
        price = ap (λ (x : PriceLevel A). x.price) this_level ∙ k.price;
        total =
            ap (λ (x : PriceLevel A). x.total) this_level
            ∙ ap (λ t. d.sub t (st.orders e.order).remain_amount) k.total
            ∙ sym (sum_remain-remove_element st d.zero e.element e.order q gone.held)
            ∙ sym (sum_remain-same st pulled d.zero rest refl)
            ∙ sym (ap (λ (x : PriceLevel A). sum_remain pulled d.zero x.orders) this_level);
        elements =
            subst
              (λ (x : PriceLevel A). All (ElementOk pulled unlisted.orders b p e.level) x.orders)
              (sym this_level)
              (All-imp₂ (λ x n o. ElementOk-pulled b p e.level x (inr n) o) rest
                (remove_element-gone e.element q k.unique)
                (All-remove_element (ElementOk st ob.orders b p e.level) e.element q k.elements));
        unique =
            subst (λ (x : PriceLevel A). Unique x.orders) (sym this_level)
              (Unique-remove_element e.element q k.unique);
      }

  LevelOk-pulled :
      (b : Bool) (p : A) (m : ℕ) → level_at ob b p ≡ some m → LevelOk pulled unlisted.orders b p m
  LevelOk-pulled b p m h = elim (Bool-cases (m == e.level)) [
    | inl same ↦
        let eq : m ≡ e.level = (==_iff m e.level).0 same in
        subst (λ j. LevelOk pulled unlisted.orders b p j) (sym eq)
          (LevelOk-left b p (subst (λ j. level_at ob b p ≡ some j) eq h))
    | inr apart ↦
        let k = v.levels b p m h in
        let n : m ≢ e.level = λ eq. ground (arith, eq, apart) in
        LevelOk-keep pulled unlisted.orders refl (other_level m n) (omega arith) (omega arith)
          (All-imp (λ x o. still (st.orders x.order).id (other_id b p m x (inl n) o))
            (st.levels m).orders k.elements)
          k
  ]

  -- Another entry's element stays in its list.
  held-still :
      (j : ℕ) (f : OrderEntry)
      → id ≢ j
      → EntryOk st ob j f
      → find_element f.element (pulled.levels f.level).orders ≡ some f.order
  held-still j f n k = elim (Bool-cases (f.level == e.level)) [
    | inr apart ↦
        ap (λ (y : PriceLevel A). find_element f.element y.orders)
          (other_level f.level (λ eq. ground (arith, eq, apart)))
        ∙ k.held
    | inl same ↦
        let eq : f.level ≡ e.level = (==_iff f.level e.level).0 same in
        let here : find_element f.element (st.levels e.level).orders ≡ some f.order =
          subst (λ m. find_element f.element (st.levels m).orders ≡ some f.order) eq k.held in
        subst (λ m. find_element f.element (pulled.levels m).orders ≡ some f.order) (sym eq)
          (ap (λ (y : PriceLevel A). find_element f.element y.orders) this_level
            ∙ find_element-remove_element e.element f.element (st.levels e.level).orders
                (other_address here)
            ∙ here)
  ]
    where
      other_address :
          find_element f.element (st.levels e.level).orders ≡ some f.order → e.element ≢ f.element
      other_address here same =
          let one : some e.order ≡ some f.order =
            sym gone.held ∙ ap (λ a. find_element a (st.levels e.level).orders) same ∙ here in
          let order : e.order ≡ f.order = cc in
          n (sym gone.same_id ∙ ap (λ r. (st.orders r).id) order ∙ k.same_id)

  EntryOk-pulled :
      (j : ℕ) (f : OrderEntry) → find_entry j unlisted.orders ≡ some f → EntryOk pulled unlisted j f
  EntryOk-pulled j f h = elim (Bool-cases (id == j)) [
    | inl same ↦
        let wrong : some f ≡ none =
          sym h ∙ find_entry-delete_entry id j ob.orders v.index ∙ rw same refl in
        cc
    | inr other ↦
        let n : id ≢ j = λ eq. ground (arith, eq, other) in
        let k = v.entries j f (sym (still j n) ∙ h) in
        record { same_id = k.same_id; listed = k.listed; held = held-still j f n k }
  ]

  pub pull-IsConsistent : IsConsistent pulled unlisted
  pull-IsConsistent = record {
    bids_first_high = v.bids_first_high;
    asks_first_low = v.asks_first_low;
    bids_valid = v.bids_valid;
    asks_valid = v.asks_valid;
    index = IsIndex-delete_entry id ob.orders v.index;
    entries = EntryOk-pulled;
    levels = LevelOk-pulled;
    apart = v.apart;
  }
