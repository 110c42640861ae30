-- ===== src/OrderBook/Consistent/Drop.antt =====
-- `RemoveOrder` of internal/orderbook/orderbook.go: an empty level out of its tree.
use matchengine.Prelude.{
  ℕ, ◌≡◌, ◌≢◌, refl, sym, ap, ◌∙◌, subst, Ordering, eq, Bool, true, false, [], Option, some, none,
  inl, inr, arith,
}
use matchengine.Decimal.{Decimal}
use matchengine.RbTree
use matchengine.RbTree.{RbTree}
use matchengine.RbTree.Valid.{IsValid, delete-IsValid, get-delete}
use matchengine.Models.Order.{is_buy}
use matchengine.Store.{Store}
use matchengine.OrderBook.Book.{OrderBook, OrderEntry, side_tree, with_side, find_entry}
use matchengine.OrderBook.Index.{IsIndex}
use matchengine.OrderBook.Elements.{find_element}
use matchengine.OrderBook.Consistent.{level_at, LevelOk, EntryOk, IsConsistent, side-IsValid}
use matchengine.OrderBook.Consistent.Create.{side_tree-with_side, side_tree-other}

module _ {A : Type 0} ⦃d : Decimal A⦄ {st : Store A} {ob : OrderBook A} (v : IsConsistent st ob)
    (c : Bool) (q : A) where
  abbrev pub dropped : OrderBook A
  dropped = with_side c ob (RbTree.delete d.cmp (side_tree c ob) q)

  pub index-dropped : dropped.orders ≡ ob.orders
  index-dropped = by_side c
    where
      by_side :
          (c : Bool) → (with_side c ob (RbTree.delete d.cmp (side_tree c ob) q)).orders ≡ ob.orders
      by_side true = refl
      by_side false = refl

  level_at-dropped :
      (p : A) → level_at dropped c p ≡ elim (d.cmp p q) [ eq ↦ none | _ ↦ level_at ob c p ]
  level_at-dropped p =
      ap (λ t. RbTree.get d.cmp t p)
        (side_tree-with_side c ob (RbTree.delete d.cmp (side_tree c ob) q))
      ∙ get-delete d.ordered (side_tree c ob) q p (side-IsValid st ob c v)

  -- A level that is left was there, at another place.
  pub level_at-dropped_inv :
      (b : Bool) (p : A) (m : ℕ) → level_at dropped b p ≡ some m → level_at ob b p ≡ some m
  level_at-dropped_inv b p m h =
      elim (side_tree-other b c ob (RbTree.delete d.cmp (side_tree c ob) q)) [
        | inl other ↦ sym (ap (λ t. RbTree.get d.cmp t p) other) ∙ h
        | inr same ↦
            subst (λ a. level_at ob a p ≡ some m) (sym same)
              (left (d.cmp p q) (level_at ob c p)
                (sym (level_at-dropped p) ∙ subst (λ a. level_at dropped a p ≡ some m) same h))
      ]
    where
      left : (o : Ordering) (x : Option ℕ) → (elim o [ eq ↦ none | _ ↦ x ]) ≡ some m → x ≡ some m
      left o x k = ground arith

  level_at-dropped_other :
      (b : Bool) (p : A) (m : ℕ)
      → ((b ≡ c) → (p ≢ q))
      → level_at ob b p ≡ some m
      → level_at dropped b p ≡ some m
  level_at-dropped_other b p m n h =
      elim (side_tree-other b c ob (RbTree.delete d.cmp (side_tree c ob) q)) [
        | inl other ↦ ap (λ t. RbTree.get d.cmp t p) other ∙ h
        | inr same ↦
            subst (λ a. level_at dropped a p ≡ some m) (sym same)
              (level_at-dropped p
                ∙ kept (d.cmp p q) (level_at ob c p) (λ k. n same (d.eq_of_cmp p q k))
                    (subst (λ a. level_at ob a p ≡ some m) same h))
      ]
    where
      kept :
          (o : Ordering) (x : Option ℕ)
          → o ≢ eq
          → x ≡ some m
          → (elim o [ eq ↦ none | _ ↦ x ]) ≡ some m
      kept o x n k = ground arith

  -- An empty level of a consistent book can go.
  pub drop-IsConsistent :
      (l : ℕ) → level_at ob c q ≡ some l → (st.levels l).orders ≡ [] → IsConsistent st dropped
  drop-IsConsistent l listed empty = record {
    bids_first_high = (directions c).0 ∙ v.bids_first_high;
    asks_first_low = (directions c).1 ∙ v.asks_first_low;
    bids_valid = (valid c (delete-IsValid d.ordered (side_tree c ob) q (side-IsValid st ob c v))).0;
    asks_valid = (valid c (delete-IsValid d.ordered (side_tree c ob) q (side-IsValid st ob c v))).1;
    index = subst IsIndex (sym index-dropped) v.index;
    entries = λ id e h.
        EntryOk-dropped id e (v.entries id e (sym (ap (find_entry id) index-dropped) ∙ h));
    levels = λ b p m h.
        subst (λ index. LevelOk st index b p m) (sym index-dropped)
          (v.levels b p m (level_at-dropped_inv b p m h));
    apart = λ b b' p p' m h h'.
        v.apart b b' p p' m (level_at-dropped_inv b p m h) (level_at-dropped_inv b' p' m h');
  }
    where
      directions :
          (c : Bool)
          → let ob' = with_side c ob (RbTree.delete d.cmp (side_tree c ob) q) in
            (ob'.bids.desc ≡ ob.bids.desc) × (ob'.asks.desc ≡ ob.asks.desc)
      directions true = (unfold RbTree.delete in refl, refl)
      directions false = (refl, unfold RbTree.delete in refl)

      valid :
          (c : Bool)
          → IsValid d.cmp (RbTree.delete d.cmp (side_tree c ob) q)
          → let ob' = with_side c ob (RbTree.delete d.cmp (side_tree c ob) q) in
            IsValid d.cmp ob'.bids × IsValid d.cmp ob'.asks
      valid true k = (k, v.asks_valid)
      valid false k = (v.bids_valid, k)

      -- The entry's level holds its element, so that it is not the empty one.
      elsewhere :
          (id : ℕ) (e : OrderEntry)
          → EntryOk st ob id e
          → is_buy (st.orders e.order) ≡ c
          → (st.orders e.order).price ≢ q
      elsewhere id e k side price =
          let here : level_at ob c q ≡ some e.level =
            subst (λ a. level_at ob a q ≡ some e.level) side
              (subst (λ p. level_at ob (is_buy (st.orders e.order)) p ≡ some e.level) price
                k.listed) in
          let one : some l ≡ some e.level = sym listed ∙ here in
          let level : l ≡ e.level = cc in
          let wrong : none ≡ some e.order =
            sym (ap (find_element e.element) empty)
            ∙ ap (λ m. find_element e.element (st.levels m).orders) level
            ∙ k.held in
          cc

      EntryOk-dropped : (id : ℕ) (e : OrderEntry) → EntryOk st ob id e → EntryOk st dropped id e
      EntryOk-dropped id e k = record {
        same_id = k.same_id;
        listed = level_at-dropped_other _ _ e.level (elsewhere id e k) k.listed;
        held = k.held;
      }
