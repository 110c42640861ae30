-- ===== src/OrderBook/Consistent/Create.antt =====
-- `AddOrder` of internal/orderbook/orderbook.go up to the level: one that is there, or a new one.
use matchengine.Prelude.{
  ℕ, suc, ◌≡◌, ◌≢◌, ◌<◌, refl, sym, ap, ◌∙◌, subst, Ordering, eq, Bool, true, false, ◌==◌, [], All,
  All-imp, Option, some, none, inl, inr, ◌⊎◌, arith,
}
use matchengine.Decimal.{Decimal}
use matchengine.RbTree
use matchengine.RbTree.{RbTree}
use matchengine.RbTree.Valid.{IsValid, insert-IsValid, get-insert}
use matchengine.Store.{Store, PriceLevel, update}
use matchengine.OrderBook.Level.{sum_remain}
use matchengine.OrderBook.Book.{OrderBook, OrderEntry, side_tree, with_side, find_entry}
use matchengine.OrderBook.Index.{IsIndex}
use matchengine.OrderBook.Elements.{find_element, Unique}
use matchengine.OrderBook.Consistent.{
  level_at, ElementOk, LevelOk, EntryOk, IsConsistent, side-IsValid, LevelOk-keep,
}

module _ {A : Type 0} ⦃d : Decimal A⦄ where
  pub side_tree-with_side :
      (c : Bool) (ob : OrderBook A) (t : RbTree A ℕ) → side_tree c (with_side c ob t) ≡ t
  side_tree-with_side true ob t = refl
  side_tree-with_side false ob t = refl

  pub side_tree-other :
      (b c : Bool) (ob : OrderBook A) (t : RbTree A ℕ)
      → (side_tree b (with_side c ob t) ≡ side_tree b ob) ⊎ (b ≡ c)
  side_tree-other true true ob t = inr refl
  side_tree-other true false ob t = inl refl
  side_tree-other false true ob t = inl refl
  side_tree-other false false ob t = inr refl

  module _ {st : Store A} {ob : OrderBook A} (v : IsConsistent st ob) (c : Bool) (q : A)
      (l : ℕ) where
    level_at-insert :
        (p : A)
        → level_at (with_side c ob (RbTree.insert d.cmp (side_tree c ob) q l)) c p
          ≡ elim (d.cmp p q) [ eq ↦ some l | _ ↦ level_at ob c p ]
    level_at-insert p =
        ap (λ t. RbTree.get d.cmp t p)
          (side_tree-with_side c ob (RbTree.insert d.cmp (side_tree c ob) q l))
        ∙ get-insert d.ordered (side_tree c ob) q l p (side-IsValid st ob c v)

    -- A level of the new book is the new one, or one of the old book.
    pub level_at-insert_inv :
        (b : Bool) (p : A) (m : ℕ)
        → level_at (with_side c ob (RbTree.insert d.cmp (side_tree c ob) q l)) b p ≡ some m
        → ((b ≡ c) × (p ≡ q) × (m ≡ l)) ⊎ (level_at ob b p ≡ some m)
    level_at-insert_inv b p m h =
        elim (side_tree-other b c ob (RbTree.insert d.cmp (side_tree c ob) q l)) [
          | inl other ↦ inr (sym (ap (λ t. RbTree.get d.cmp t p) other) ∙ h)
          | inr same ↦
              let at_c =
                subst
                  (λ a.
                    level_at (with_side c ob (RbTree.insert d.cmp (side_tree c ob) q l)) a p
                    ≡ some m)
                  same h in
              elim (new_or_old (d.cmp p q) (level_at ob c p) (sym (level_at-insert p) ∙ at_c)) [
                | inl (e, k) ↦ inl (same, d.eq_of_cmp p q e, k)
                | inr old ↦ inr (subst (λ a. level_at ob a p ≡ some m) (sym same) old)
              ]
        ]
      where
        new_or_old :
            (o : Ordering) (x : Option ℕ)
            → (elim o [ eq ↦ some l | _ ↦ x ]) ≡ some m
            → ((o ≡ eq) × (m ≡ l)) ⊎ (x ≡ some m)
        new_or_old o x k = ground arith

    -- The new level is there.
    pub level_at-insert_self :
        level_at (with_side c ob (RbTree.insert d.cmp (side_tree c ob) q l)) c q ≡ some l
    level_at-insert_self = level_at-insert q ∙ rw (d.cmp_refl q) refl

    -- An old level stays, if there was none at the price.
    pub level_at-insert_old :
        (b : Bool) (p : A) (m : ℕ)
        → level_at ob c q ≡ none
        → level_at ob b p ≡ some m
        → level_at (with_side c ob (RbTree.insert d.cmp (side_tree c ob) q l)) b p ≡ some m
    level_at-insert_old b p m free h =
        elim (side_tree-other b c ob (RbTree.insert d.cmp (side_tree c ob) q l)) [
          | inl other ↦ ap (λ t. RbTree.get d.cmp t p) other ∙ h
          | inr same ↦
              subst
                (λ a.
                  level_at (with_side c ob (RbTree.insert d.cmp (side_tree c ob) q l)) a p ≡ some m)
                (sym same)
                (level_at-insert p
                  ∙ kept (d.cmp p q) (level_at ob c p)
                      (taken (subst (λ a. level_at ob a p ≡ some m) same h))
                      (subst (λ a. level_at ob a p ≡ some m) same h))
        ]
      where
        kept :
            (o : Ordering) (x : Option ℕ)
            → o ≢ eq
            → x ≡ some m
            → (elim o [ eq ↦ some l | _ ↦ x ]) ≡ some m
        kept o x n k = ground arith

        taken : level_at ob c p ≡ some m → d.cmp p q ≢ eq
        taken k e =
            let wrong : some m ≡ none = sym k ∙ ap (level_at ob c) (d.eq_of_cmp p q e) ∙ free in cc

module _ {A : Type 0} ⦃d : Decimal A⦄ {st : Store A} {ob : OrderBook A} (v : IsConsistent st ob)
    (c : Bool) (q : A) (free : level_at ob c q ≡ none) where
  abbrev made : Store A
  made = record st {
    levels = update st.levels st.next_level (record { price = q; orders = []; total = d.zero });
    next_level = suc st.next_level;
  }

  abbrev widened : OrderBook A
  widened = with_side c ob (RbTree.insert d.cmp (side_tree c ob) q st.next_level)

  pub same_index : widened.orders ≡ ob.orders
  same_index = by_side c
    where
      by_side :
          (c : Bool)
          → (with_side c ob (RbTree.insert d.cmp (side_tree c ob) q st.next_level)).orders
            ≡ ob.orders
      by_side true = refl
      by_side false = refl

  kept_level : (m : ℕ) → m < st.next_level → made.levels m ≡ st.levels m
  kept_level m h = let other : (m == st.next_level) ≡ false = ground (arith, h) in rw other refl

  new_level : made.levels st.next_level ≡ record { price = q; orders = []; total = d.zero }
  new_level = let same : (st.next_level == st.next_level) ≡ true = ground arith in rw same refl

  LevelOk-made :
      (b : Bool) (p : A) (m : ℕ) → level_at widened b p ≡ some m → LevelOk made widened.orders b p m
  unfolding sum_remain
  LevelOk-made b p m h = elim (level_at-insert_inv v c q st.next_level b p m h) [
    | inr old ↦
        let k = v.levels b p m old in
        LevelOk-keep made widened.orders refl (kept_level m k.old) (omega arith) (omega arith)
          (All-imp (λ x _. ap (find_entry (st.orders x.order).id) same_index) (st.levels m).orders
            k.elements)
          k
    | inl (side, price, new) ↦
        subst (λ j. LevelOk made widened.orders b p j) (sym new)
          (record {
            old = omega arith;
            price = ap (λ (x : PriceLevel A). x.price) new_level ∙ sym price;
            total =
                ap (λ (x : PriceLevel A). x.total) new_level
                ∙ sym (ap (λ (x : PriceLevel A). sum_remain made d.zero x.orders) new_level);
            elements =
                subst
                  (λ (x : PriceLevel A).
                    All (ElementOk made widened.orders b p st.next_level) x.orders)
                  (sym new_level) tt;
            unique = subst (λ (x : PriceLevel A). Unique x.orders) (sym new_level) tt;
          })
  ]

  EntryOk-made :
      (id : ℕ) (e : OrderEntry) → find_entry id widened.orders ≡ some e → EntryOk made widened id e
  EntryOk-made id e h =
      let k = v.entries id e (sym (ap (find_entry id) same_index) ∙ h) in
      let l = v.levels _ _ e.level k.listed in
      record {
        same_id = k.same_id;
        listed = level_at-insert_old v c q st.next_level _ _ e.level free k.listed;
        held =
            ap (λ (x : PriceLevel A). find_element e.element x.orders) (kept_level e.level l.old)
            ∙ k.held;
      }

  apart-made :
      (b b' : Bool) (p p' : A) (m : ℕ)
      → level_at widened b p ≡ some m
      → level_at widened b' p' ≡ some m
      → (b ≡ b') × (p ≡ p')
  apart-made b b' p p' m h h' = elim (level_at-insert_inv v c q st.next_level b p m h) [
    | inr old ↦ elim (level_at-insert_inv v c q st.next_level b' p' m h') [
      | inr old' ↦ v.apart b b' p p' m old old'
      | inl (side', price', new') ↦ absurd (omega (arith, (v.levels b p m old).old, new'))
    ]
    | inl (side, price, new) ↦ elim (level_at-insert_inv v c q st.next_level b' p' m h') [
      | inr old' ↦ absurd (omega (arith, (v.levels b' p' m old').old, new))
      | inl (side', price', new') ↦ (side ∙ sym side', price ∙ sym price')
    ]
  ]

  -- A new, empty level leaves a book consistent.
  pub create-IsConsistent : IsConsistent made widened
  create-IsConsistent = record {
    bids_first_high = (directions c).0 ∙ v.bids_first_high;
    asks_first_low = (directions c).1 ∙ v.asks_first_low;
    bids_valid =
        (valid c
          (insert-IsValid d.ordered (side_tree c ob) q st.next_level (side-IsValid st ob c v))).0;
    asks_valid =
        (valid c
          (insert-IsValid d.ordered (side_tree c ob) q st.next_level (side-IsValid st ob c v))).1;
    index = subst IsIndex (sym same_index) v.index;
    entries = EntryOk-made;
    levels = LevelOk-made;
    apart = apart-made;
  }
    where
      directions :
          (c : Bool)
          → let ob' = with_side c ob (RbTree.insert d.cmp (side_tree c ob) q st.next_level) in
            (ob'.bids.desc ≡ ob.bids.desc) × (ob'.asks.desc ≡ ob.asks.desc)
      directions true = (unfold RbTree.insert in refl, refl)
      directions false = (refl, unfold RbTree.insert in refl)

      valid :
          (c : Bool)
          → IsValid d.cmp (RbTree.insert d.cmp (side_tree c ob) q st.next_level)
          → let ob' = with_side c ob (RbTree.insert d.cmp (side_tree c ob) q st.next_level) in
            IsValid d.cmp ob'.bids × IsValid d.cmp ob'.asks
      valid true k = (k, v.asks_valid)
      valid false k = (v.bids_valid, k)
