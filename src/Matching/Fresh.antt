-- ===== src/Matching/Fresh.antt =====
-- A taker that is not in the book, against a consistent book: the opposite side is ready for it.
use matchengine.Prelude.{
  ℕ, ◌≡◌, ◌≢◌, refl, sym, ap, ◌∙◌, subst, Ordering, lt, eq, Bool, true, false, List, [], ◌∷◌, All,
  All-imp, All-imp₂, some, none, arith,
}
use matchengine.Decimal.{Decimal, IsOrder}
use matchengine.RbTree.{compare_to}
use matchengine.RbTree.Spec.{lookup_entry, IsSorted}
use matchengine.RbTree.Refine.{compare_to-IsOrder}
use matchengine.RbTree.Valid.{entries, get_lem}
use matchengine.Models.Fills.{IsBalanced, IsOpen}
use matchengine.Store.{Element, Store}
use matchengine.OrderBook.{OrderBook, OrderEntry, find_entry, side_tree}
use matchengine.OrderBook.Elements.{Unique}
use matchengine.OrderBook.Consistent.{level_at, ElementOk, LevelOk, IsConsistent, side-IsValid}
use matchengine.Matching.Ready.{Distinct}
use matchengine.Matching.Side.{
  opposite_tree, queue_of, LevelReady, Disjoint, AllDisjoint, SideReady,
}

abbrev entry_of : Element → ℕ → OrderEntry
entry_of x l = record { order = x.order; level = l; element = x.address }

module _ {K V : Type 0} {cmp : K → K → Ordering} (o : IsOrder cmp) where
  -- In a sorted list every entry is what its key finds.
  found_here : (m : List (K × V)) → IsSorted cmp m → All (λ e. lookup_entry cmp e.0 m ≡ some e.1) m
  unfolding lookup_entry
  found_here [] s = tt
  found_here ((k, w) ∷ m) s = (
    rw (o.cmp_refl k, lookup_entry) refl,
    All-imp₂ (λ e after here. later e after here) m s.0 (found_here m s.1),
  )
    where
      later :
          (e : K × V)
          → cmp k e.0 ≡ lt
          → lookup_entry cmp e.0 m ≡ some e.1
          → lookup_entry cmp e.0 ((k, w) ∷ m) ≡ some e.1
      later e after here = rw (o.gt_of_lt k e.0 after, lookup_entry) here

module _ {A : Type 0} ⦃d : Decimal A⦄ {st : Store A} {ob : OrderBook A} (v : IsConsistent st ob)
    (taker : ℕ) where
  -- The entries of a side are its levels.
  pub placed : (c : Bool) → All (λ e. level_at ob c e.0 ≡ some e.1) (entries (side_tree c ob))
  placed c =
      let t = side_tree c ob in
      let valid = side-IsValid st ob c v in
      All-imp (λ e here. get_lem d.ordered t e.0 valid ∙ here) (entries t)
        (found_here (compare_to-IsOrder t.desc d.ordered) (entries t) valid.sorted)

  -- Every order in the book has something left, and nothing negative filled.
  abbrev pub AllOpen : Type 0
  AllOpen =
      (id : ℕ) (e : OrderEntry) → find_entry id ob.orders ≡ some e → IsOpen (st.orders e.order)

  -- An order stands in one place.
  one_place :
      (b c : Bool) (p q : A) (l m : ℕ) (x y : Element)
      → ElementOk st ob.orders b p l x
      → ElementOk st ob.orders c q m y
      → x.order ≡ y.order
      → (l ≡ m) × (x.address ≡ y.address)
  one_place b c p q l m x y k k' same =
      fields (sym k.indexed ∙ ap (λ r. find_entry (st.orders r).id ob.orders) same ∙ k'.indexed)
    where
      fields : some (entry_of x l) ≡ some (entry_of y m) → (l ≡ m) × (x.address ≡ y.address)
      fields h = (cc, cc)

  Distinct-orders :
      (c : Bool) (p : A) (l : ℕ) (q : List Element)
      → Unique q
      → All (ElementOk st ob.orders c p l) q
      → Distinct q
  Distinct-orders c p l [] u k = tt
  Distinct-orders c p l (x ∷ q) u k = (
    All-imp₂ (λ y n o same. n (one_place c c p p l l y x o k.0 same).1) q u.0 k.1,
    Distinct-orders c p l q u.1 k.1,
  )

  module _ (all_open : AllOpen) (outside : find_entry (st.orders taker).id ob.orders ≡ none) where
    apart_from :
        (c : Bool) (p : A) (l : ℕ) (x : Element) → ElementOk st ob.orders c p l x → x.order ≢ taker
    apart_from c p l x k same =
        let wrong : some (entry_of x l) ≡ none =
          sym k.indexed ∙ ap (λ r. find_entry (st.orders r).id ob.orders) same ∙ outside in
        cc

    ready_level : (c : Bool) (e : A × ℕ) → LevelOk st ob.orders c e.0 e.1 → LevelReady st taker e
    ready_level c e k =
        let q = queue_of st e in
        record {
          price = k.price;
          makers = All-imp (λ x o. all_open (st.orders x.order).id _ o.indexed) q k.elements;
          apart = All-imp (λ x o. apart_from c e.0 e.1 x o) q k.elements;
          distinct = Distinct-orders c e.0 e.1 q k.unique k.elements;
        }

    Disjoint-levels :
        (c : Bool) (e f : A × ℕ)
        → d.cmp e.0 f.0 ≢ eq
        → LevelOk st ob.orders c e.0 e.1
        → LevelOk st ob.orders c f.0 f.1
        → level_at ob c e.0 ≡ some e.1
        → level_at ob c f.0 ≡ some f.1
        → Disjoint st e f
    Disjoint-levels c e f n k k' h h' =
        let levels : f.1 ≢ e.1 = λ same. n (
          subst (λ p. d.cmp e.0 p ≡ eq) (v.apart c c e.0 f.0 e.1 h (h' ∙ ap some same)).1
            (d.cmp_refl e.0)) in
        record {
          levels = levels;
          orders =
              All-imp
                (λ y oy.
                  All-imp
                    (λ x ox same. levels (sym (one_place c c e.0 f.0 e.1 f.1 x y ox oy same).0))
                    (queue_of st e) k.elements)
                (queue_of st f) k'.elements;
        }

    all_disjoint :
        (c desc : Bool) (m : List (A × ℕ))
        → IsSorted (λ p q. compare_to desc (d.cmp p q)) m
        → All (λ e. level_at ob c e.0 ≡ some e.1) m
        → AllDisjoint st m
    all_disjoint c desc [] s h = tt
    all_disjoint c desc (e ∷ m) s h = (
      All-imp₂
          (λ f after at.
            Disjoint-levels c e f (after_other desc (d.cmp e.0 f.0) after) (v.levels c e.0 e.1 h.0)
              (v.levels c f.0 f.1 at) h.0 at)
          m s.0 h.1,
      all_disjoint c desc m s.1 h.1,
    )
      where
        after_other : (desc : Bool) (o : Ordering) → compare_to desc o ≡ lt → o ≢ eq
        after_other desc o after same = unfold compare_to in ground (arith, after, same)

    -- In a consistent book whose orders all have something left, the side opposite to a balanced taker,
    -- whose id the index does not have, is ready for it.
    pub IsConsistent-SideReady :
        (buys : Bool)
        → IsBalanced (st.orders taker)
        → SideReady st ob buys taker (entries (opposite_tree buys ob))
    IsConsistent-SideReady buys balanced = by_side buys
      where
        side :
            (c : Bool)
            → (All (LevelReady st taker) (entries (side_tree c ob)))
              × AllDisjoint st (entries (side_tree c ob))
        side c = (
          All-imp (λ e at. ready_level c e (v.levels c e.0 e.1 at)) (entries (side_tree c ob))
              (placed c),
          all_disjoint c (side_tree c ob).desc (entries (side_tree c ob))
              (side-IsValid st ob c v).sorted (placed c),
        )

        by_side : (buys : Bool) → SideReady st ob buys taker (entries (opposite_tree buys ob))
        by_side true = record {
          direction = v.asks_first_low;
          valid = v.asks_valid;
          levels = refl;
          each = (side false).0;
          disjoint = (side false).1;
          taker_balanced = balanced;
        }
        by_side false = record {
          direction = v.bids_first_high;
          valid = v.bids_valid;
          levels = refl;
          each = (side true).0;
          disjoint = (side true).1;
          taker_balanced = balanced;
        }
