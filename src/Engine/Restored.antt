-- ===== src/Engine/Restored.antt =====
-- `GetAllOrders` and `RestoreOrders` of internal/engine/engine.go, on the book of one market.
use Prim.Native.String.{String}
use matchengine.Prelude.{
  ℕ, ◌≡◌, ◌≢◌, refl, sym, ap, ◌∙◌, subst, Ordering, lt, eq, gt, arith, Bool, true, false,
  if◌then◌else◌, ◌==◌, Bool-cases, ==_iff, inl, inr, ◌⊎◌, List, [], ◌∷◌, ◌++◌, map, append_assoc,
  append-nil, All, All-imp, All-append, All-map, Option, some, none,
}
use matchengine.Decimal.{Decimal}
use matchengine.RbTree
use matchengine.RbTree.{RbTree}
use matchengine.RbTree.Spec.{lookup_entry}
use matchengine.RbTree.Valid.{entries, get_lem}
use matchengine.RbTree.Ends.{walk, ascend_lem}
use matchengine.Models.Order.{Order, is_buy}
use matchengine.Store.{Element, Store}
use matchengine.OrderBook.{
  OrderBook, OrderEntry, new_order_book, add_order, get_order, get_orders, find_entry, side_tree,
  get_or_create_level, push_order, new_price_level,
}
use matchengine.OrderBook.Elements.{find_element}
use matchengine.OrderBook.Index.{get_order-add_order}
use matchengine.OrderBook.Consistent.{IsConsistent, level_at, side-IsValid}
use matchengine.Matching.Fresh.{placed}
use matchengine.Engine.Api.{collect_orders, book_orders, add_orders}

-- An order of a list.
abbrev Has : ℕ → List ℕ → Type 0
Has s [] = ⊥
Has s (r ∷ rs) = (r ≡ s) ⊎ Has s rs

Has-append_left : (s : ℕ) (xs ys : List ℕ) → Has s xs → Has s (xs ++ ys)
Has-append_left s [] ys h = absurd h
Has-append_left s (x ∷ xs) ys (inl h) = inl h
Has-append_left s (x ∷ xs) ys (inr h) = inr (Has-append_left s xs ys h)

Has-append_right : (s : ℕ) (xs ys : List ℕ) → Has s ys → Has s (xs ++ ys)
Has-append_right s [] ys h = h
Has-append_right s (x ∷ xs) ys h = inr (Has-append_right s xs ys h)

Has-find_element :
    (a r : ℕ) (q : List Element)
    → find_element a q ≡ some r
    → Has r (map (λ (x : Element). x.order) q)
Has-find_element a r [] h = cc
Has-find_element a r (x ∷ q) h = elim (Bool-cases (x.address == a)) [
  | inl here ↦ inl (let same : some x.order ≡ some r = (rw here at h) in cc)
  | inr later ↦ inr (Has-find_element a r q (rw later at h))
]

module _ {A : Type 0} ⦃d : Decimal A⦄ where
  -- The orders of these levels, one after the other.
  orders_of : Store A → List (A × ℕ) → List ℕ
  orders_of st [] = []
  orders_of st ((p, l) ∷ es) = get_orders st l ++ orders_of st es

  walk-collect_orders :
      (st : Store A) (es : List (A × ℕ)) (acc : List ℕ)
      → (walk (collect_orders st) es acc).1 ≡ acc ++ orders_of st es
  unfolding orders_of collect_orders
  walk-collect_orders st [] acc = sym (append-nil acc)
  walk-collect_orders st ((p, l) ∷ es) acc =
      walk-collect_orders st es (acc ++ get_orders st l)
      ∙ append_assoc acc (get_orders st l) (orders_of st es)

  book_orders_lem :
      (st : Store A) (ob : OrderBook A)
      → book_orders st ob ≡ orders_of st (entries ob.bids) ++ orders_of st (entries ob.asks)
  unfolding book_orders
  book_orders_lem st ob =
      ascend_lem (collect_orders st) ob.asks _
      ∙ walk-collect_orders st (entries ob.asks) _
      ∙ ap (λ xs. xs ++ orders_of st (entries ob.asks))
          (ascend_lem (collect_orders st) ob.bids [] ∙ walk-collect_orders st (entries ob.bids) [])

  Has-orders_of :
      (st : Store A) (cmp : A → A → Ordering) (key : A) (l r : ℕ) (es : List (A × ℕ))
      → lookup_entry cmp key es ≡ some l
      → Has r (get_orders st l)
      → Has r (orders_of st es)
  unfolding lookup_entry orders_of
  Has-orders_of st cmp key l r [] h m = cc
  Has-orders_of st cmp key l r ((k, w) ∷ es) h m =
      by_order (cmp key k) refl (λ later. Has-orders_of st cmp key l r es later m)
    where
      by_order :
          (o : Ordering)
          → cmp key k ≡ o
          → (lookup_entry cmp key es ≡ some l → Has r (orders_of st es))
          → Has r (get_orders st w ++ orders_of st es)
      by_order eq e rest =
          let same : some w ≡ some l = (rw (e, lookup_entry) at h) in
          let level : w ≡ l = cc in
          Has-append_left r (get_orders st w) (orders_of st es)
            (subst (λ x. Has r (get_orders st x)) (sym level) m)
      by_order lt e rest =
          Has-append_right r (get_orders st w) (orders_of st es) (rest (rw (e, lookup_entry) at h))
      by_order gt e rest =
          Has-append_right r (get_orders st w) (orders_of st es) (rest (rw (e, lookup_entry) at h))

  level-orders :
      (st : Store A) (tree : RbTree A ℕ) (price : A) (x : Option ℕ)
      → (get_or_create_level st tree price x).1.orders ≡ st.orders
  unfolding get_or_create_level new_price_level
  level-orders st tree price none = refl
  level-orders st tree price (some l) = refl

  add_order-orders :
      (st : Store A) (ob : OrderBook A) (r : ℕ) → (add_order st ob r).0.orders ≡ st.orders
  unfolding add_order push_order
  add_order-orders st ob r =
      let o = st.orders r in
      let tree = side_tree (is_buy o) ob in
      level-orders st tree o.price (RbTree.get d.cmp tree o.price)

  add_orders-none :
      (st : Store A) (ob : OrderBook A) (rs : List ℕ) (j : ℕ)
      → All (λ r. (st.orders r).id ≢ j) rs
      → get_order (add_orders st ob rs).1 j ≡ get_order ob j
  unfolding add_orders
  add_orders-none st ob [] j h = refl
  add_orders-none st ob (r ∷ rs) j h =
      let (st', ob') = add_order st ob r in
      add_orders-none st' ob' rs j (
        subst (λ (f : ℕ → Order A). All (λ r. (f r).id ≢ j) rs) (sym (add_order-orders st ob r))
          h.1)
      ∙ ground (arith, get_order-add_order st ob r j, h.0)

  add_orders-one :
      (st : Store A) (ob : OrderBook A) (rs : List ℕ) (j s : ℕ)
      → All (λ r. (st.orders r).id ≡ j → r ≡ s) rs
      → (st.orders s).id ≡ j
      → (get_order ob j ≡ some s) ⊎ Has s rs
      → get_order (add_orders st ob rs).1 j ≡ some s
  unfolding add_orders
  add_orders-one st ob [] j s h e (inl k) = k
  add_orders-one st ob [] j s h e (inr k) = absurd k
  add_orders-one st ob (r ∷ rs) j s h e k =
      let (st', ob') = add_order st ob r in
      let same = sym (add_order-orders st ob r) in
      add_orders-one st' ob' rs j s
        (subst (λ (f : ℕ → Order A). All (λ r. (f r).id ≡ j → r ≡ s) rs) same h.1)
        (subst (λ (f : ℕ → Order A). (f s).id ≡ j) same e) (first k)
    where
      added :
          get_order (add_order st ob r).1 j
          ≡ (if (st.orders r).id == j then some r else get_order ob j)
      added = get_order-add_order st ob r j

      first :
          (get_order ob j ≡ some s) ⊎ (r ≡ s) ⊎ Has s rs
          → (get_order (add_order st ob r).1 j ≡ some s) ⊎ Has s rs
      first (inr (inr later)) = inr later
      first (inr (inl here)) = inl (
          added
          ∙ ap (λ x. if (st.orders x).id == j then some x else get_order ob j) here
          ∙ ground (arith, e))
      first (inl was) = elim (Bool-cases ((st.orders r).id == j)) [
        | inl now ↦ inl (added ∙ rw now (ap some (h.0 ((==_iff (st.orders r).id j).0 now))))
        | inr other ↦ inl (added ∙ rw other was)
      ]

module _ {A : Type 0} ⦃d : Decimal A⦄ {st : Store A} {ob : OrderBook A}
    (v : IsConsistent st ob) where
  -- What the index says of an order that a level lists.
  abbrev Indexed : ℕ → Type 0
  Indexed r = (e : OrderEntry) × (find_entry (st.orders r).id ob.orders ≡ some e) × (e.order ≡ r)

  Indexed-orders_of :
      (c : Bool) (es : List (A × ℕ))
      → All (λ e. level_at ob c e.0 ≡ some e.1) es
      → All Indexed (orders_of st es)
  unfolding orders_of get_orders
  Indexed-orders_of c [] h = tt
  Indexed-orders_of c ((p, l) ∷ es) h =
      All-append Indexed (get_orders st l) (orders_of st es)
        (All-map Indexed (λ (x : Element). x.order) (st.levels l).orders
          (All-imp (λ x k. (_, k.indexed, refl)) (st.levels l).orders
            (v.levels c p l h.0).elements))
        (Indexed-orders_of c es h.1)

  Indexed-book_orders : All Indexed (book_orders st ob)
  Indexed-book_orders = subst (All Indexed) (sym (book_orders_lem st ob)) (
      All-append Indexed (orders_of st (entries ob.bids)) (orders_of st (entries ob.asks))
        (Indexed-orders_of true (entries ob.bids) (placed v 0 true))
        (Indexed-orders_of false (entries ob.asks) (placed v 0 false)))

  Has-side :
      (c : Bool) (r : ℕ)
      → Has r (orders_of st (entries (side_tree c ob)))
      → Has r (book_orders st ob)
  Has-side true r h = subst (Has r) (sym (book_orders_lem st ob)) (Has-append_left r _ _ h)
  Has-side false r h =
      subst (Has r) (sym (book_orders_lem st ob))
        (Has-append_right r (orders_of st (entries ob.bids)) _ h)

  Has-book_orders :
      (id : ℕ) (e : OrderEntry) → find_entry id ob.orders ≡ some e → Has e.order (book_orders st ob)
  unfolding get_orders
  Has-book_orders id e h =
      let o = st.orders e.order in
      let k = v.entries id e h in
      let t = side_tree (is_buy o) ob in
      Has-side (is_buy o) e.order (
        Has-orders_of st (RbTree.order_of d.cmp t) o.price e.level e.order (entries t)
          (sym (get_lem d.ordered t o.price (side-IsValid st ob (is_buy o) v)) ∙ k.listed)
          (Has-find_element e.element e.order (st.levels e.level).orders k.held))

  -- The orders of a consistent book, as `GetAllOrders` lists them and `RestoreOrders` adds them to a new
  -- book, are found there at every id as before.
  pub get_order-restored :
      (symbol : String) (id : ℕ)
      → get_order (add_orders st (new_order_book symbol) (book_orders st ob)).1 id ≡ get_order ob id
  unfolding get_order new_order_book find_entry
  get_order-restored symbol id = by_entry (find_entry id ob.orders) refl
    where
      by_entry :
          (x : Option OrderEntry)
          → find_entry id ob.orders ≡ x
          → get_order (add_orders st (new_order_book symbol) (book_orders st ob)).1 id
            ≡ get_order ob id
      by_entry none missing =
          add_orders-none st (new_order_book symbol) (book_orders st ob) id (
            All-imp
              (λ r k same.
                let wrong : some k.0 ≡ none =
                  sym k.1 ∙ ap (λ j. find_entry j ob.orders) same ∙ missing in
                cc)
              (book_orders st ob) Indexed-book_orders)
          ∙ rw (missing, get_order) refl
      by_entry (some e) found =
          add_orders-one st (new_order_book symbol) (book_orders st ob) id e.order
            (All-imp
              (λ r k same.
                let entry : some k.0 ≡ some e =
                  sym k.1 ∙ ap (λ j. find_entry j ob.orders) same ∙ found in
                let one : k.0 ≡ e = cc in sym k.2 ∙ ap (λ (x : OrderEntry). x.order) one)
              (book_orders st ob) Indexed-book_orders)
            (v.entries id e found).same_id (inr (Has-book_orders id e found))
          ∙ rw (found, get_order) refl
