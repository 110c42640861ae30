-- ===== src/RbTree/Spec.antt =====
-- The abstract view of a price tree: its entries in order, as a sorted association list, with the
-- operations that `Insert`, `Get` and `Delete` of internal/orderbook/rbtree.go promise.
pub mod Laws
use matchengine.Prelude.{
  ◌≡◌, refl, ap, Ordering, lt, eq, gt, List, [], ◌∷◌, ◌++◌, Option, none, some, All,
  All-append_left, All-append_right, All-imp, arith, append_assoc,
}
use matchengine.Decimal.{IsOrder}

module _ {K V : Type 0} (cmp : K → K → Ordering) where
  unfoldable pub lookup_entry : K → List (K × V) → Option V
  lookup_entry key [] = none
  lookup_entry key ((k, v) ∷ m) = elim (cmp key k) [ eq ↦ some v | _ ↦ lookup_entry key m ]

  unfoldable pub insert_entry : K → V → List (K × V) → List (K × V)
  insert_entry key value [] = (key, value) ∷ []
  insert_entry key value ((k, v) ∷ m) = elim (cmp key k) [
    | lt ↦ (key, value) ∷ (k, v) ∷ m
    | eq ↦ (k, value) ∷ m
    | gt ↦ (k, v) ∷ insert_entry key value m
  ]

  unfoldable pub erase_entry : K → List (K × V) → List (K × V)
  erase_entry key [] = []
  erase_entry key ((k, v) ∷ m) = elim (cmp key k) [
    | lt ↦ (k, v) ∷ m
    | eq ↦ m
    | gt ↦ (k, v) ∷ erase_entry key m
  ]

  abbrev pub After : K → K × V → Type 0
  After k e = cmp k e.0 ≡ lt

  abbrev pub Before : K → K × V → Type 0
  Before k e = cmp e.0 k ≡ lt

  -- Strictly increasing keys.
  abbrev pub IsSorted : List (K × V) → Type 0
  IsSorted [] = Unit
  IsSorted (e ∷ m) = All (After e.0) m × IsSorted m

  pub IsSorted-left : (xs ys : List (K × V)) → IsSorted (xs ++ ys) → IsSorted xs
  IsSorted-left [] ys s = tt
  IsSorted-left (x ∷ xs) ys s = (All-append_left _ xs ys s.0, IsSorted-left xs ys s.1)

  pub IsSorted-right : (xs ys : List (K × V)) → IsSorted (xs ++ ys) → IsSorted ys
  IsSorted-right [] ys s = s
  IsSorted-right (x ∷ xs) ys s = IsSorted-right xs ys s.1

  pub Before-middle :
      (xs : List (K × V)) (k : K) (v : V) (ys : List (K × V))
      → IsSorted (xs ++ (k, v) ∷ ys)
      → All (Before k) xs
  Before-middle [] k v ys s = tt
  Before-middle (x ∷ xs) k v ys s =
      ((All-append_right _ xs ((k, v) ∷ ys) s.0).0, Before-middle xs k v ys s.1)

module _ {K V : Type 0} {cmp : K → K → Ordering} (o : IsOrder cmp) where
  -- An operation at `key` passes the entries below `key`.
  pub insert_entry-past :
      (key : K) (value : V) (xs ys : List (K × V))
      → All (Before cmp key) xs
      → insert_entry cmp key value (xs ++ ys) ≡ xs ++ insert_entry cmp key value ys
  unfolding insert_entry
  insert_entry-past key value [] ys b = refl
  insert_entry-past key value ((k, v) ∷ xs) ys b =
      rw (o.gt_of_lt k key b.0, insert_entry-past key value xs ys b.1)

  pub erase_entry-past :
      (key : K) (xs ys : List (K × V))
      → All (Before cmp key) xs
      → erase_entry cmp key (xs ++ ys) ≡ xs ++ erase_entry cmp key ys
  unfolding erase_entry
  erase_entry-past key [] ys b = refl
  erase_entry-past key ((k, v) ∷ xs) ys b =
      rw (o.gt_of_lt k key b.0, erase_entry-past key xs ys b.1)

  pub lookup_entry-past :
      (key : K) (xs ys : List (K × V))
      → All (Before cmp key) xs
      → lookup_entry cmp key (xs ++ ys) ≡ lookup_entry cmp key ys
  unfolding lookup_entry
  lookup_entry-past key [] ys b = refl
  lookup_entry-past key ((k, v) ∷ xs) ys b =
      rw (o.gt_of_lt k key b.0, lookup_entry) (lookup_entry-past key xs ys b.1)

  -- Below `k`, nothing happens at `k` or beyond.
  pub insert_entry-front :
      (key : K) (value : V) (xs : List (K × V)) (k : K) (v : V) (ys : List (K × V))
      → cmp key k ≡ lt
      → insert_entry cmp key value (xs ++ (k, v) ∷ ys)
        ≡ insert_entry cmp key value xs ++ (k, v) ∷ ys
  unfolding insert_entry
  insert_entry-front key value [] k v ys h = rw h
  insert_entry-front key value ((j, w) ∷ xs) k v ys h =
      ground (arith, insert_entry-front key value xs k v ys h)

  pub erase_entry-front :
      (key : K) (xs : List (K × V)) (k : K) (v : V) (ys : List (K × V))
      → cmp key k ≡ lt
      → erase_entry cmp key (xs ++ (k, v) ∷ ys) ≡ erase_entry cmp key xs ++ (k, v) ∷ ys
  unfolding erase_entry
  erase_entry-front key [] k v ys h = rw h
  erase_entry-front key ((j, w) ∷ xs) k v ys h = ground (arith, erase_entry-front key xs k v ys h)

  pub lookup_entry-After :
      (key : K) (ys : List (K × V)) → All (After cmp key) ys → lookup_entry cmp key ys ≡ none
  unfolding lookup_entry
  lookup_entry-After key [] b = refl
  lookup_entry-After key ((k, v) ∷ ys) b = rw (b.0, lookup_entry) (lookup_entry-After key ys b.1)

  pub lookup_entry-front :
      (key : K) (xs : List (K × V)) (ys : List (K × V))
      → All (After cmp key) ys
      → lookup_entry cmp key (xs ++ ys) ≡ lookup_entry cmp key xs
  unfolding lookup_entry
  lookup_entry-front key [] ys h = lookup_entry-After key ys h
  lookup_entry-front key ((j, w) ∷ xs) ys h = ground (arith, lookup_entry-front key xs ys h)

  -- Keys below `k` are below `key`, if `k` is.
  pub Before-trans :
      (k key : K) (xs : List (K × V))
      → cmp k key ≡ lt
      → All (Before cmp k) xs
      → All (Before cmp key) xs
  Before-trans k key xs h = All-imp (λ e b. o.lt_trans e.0 k key b h) xs

  pub After-trans :
      (key k : K) (xs : List (K × V))
      → cmp key k ≡ lt
      → All (After cmp k) xs
      → All (After cmp key) xs
  After-trans key k xs h = All-imp (λ e b. o.lt_trans key k e.0 h b) xs
