-- ===== src/RbTree/Ends.antt =====
-- `Min`, `Max` and `Ascend` of internal/orderbook/rbtree.go against the sorted entries.
use matchengine.Prelude.{
  ◌≡◌, ◌≢◌, refl, sym, ap, subst, ◌∙◌, Bool, true, false, Ordering, lt, gt, List, [], ◌∷◌, ◌++◌,
  Option, some, none, arith, if◌then◌else◌, last?, All, All-imp, ◌↔◌,
}
use matchengine.Decimal.{IsOrder}
use matchengine.RbTree.Defs.{Tree, leaf, node, RbTree, compare_to}
use matchengine.RbTree.Insert.{get}
use matchengine.RbTree.Query.{
  first_entry, last_entry, value_of, leftmost, rightmost, min_level, max_level, ascend_node, ascend,
}
use matchengine.RbTree.Spec.{lookup_entry, IsSorted}
use matchengine.RbTree.InOrder.{to_list}
use matchengine.RbTree.Refine.{compare_to-IsOrder}
use matchengine.RbTree.Valid.{IsValid, entries, get_lem}

module _ {A : Type 0} where
  abbrev head? : List A → Option A
  head? [] = none
  head? (x ∷ xs) = some x

  head?-append :
      (xs : List A) (y : A) (ys : List A)
      → head? ((xs ++ y ∷ ys)) ≡ elim (head? xs) [ none ↦ some y | some x ↦ some x ]
  head?-append [] y ys = refl
  head?-append (x ∷ xs) y ys = refl

  append-ne-nil : (xs : List A) (y : A) (ys : List A) → xs ++ y ∷ ys ≢ []
  append-ne-nil [] y ys h = cc
  append-ne-nil (x ∷ xs) y ys h = cc

  last?-append : (xs : List A) (y : A) (ys : List A) → last? (xs ++ y ∷ ys) ≡ last? (y ∷ ys)
  last?-append [] y ys = refl
  last?-append (x ∷ []) y ys = refl
  last?-append (x ∷ z ∷ xs) y ys = last?-append (z ∷ xs) y ys

  All-last? : (P : A → Type 0) (xs : List A) (y : A) → All P xs → last? xs ≡ some y → P y
  All-last? P [] y a h = cc
  All-last? P (x ∷ []) y a h = subst P (cc) a.0
  All-last? P (x ∷ z ∷ xs) y a h = All-last? P (z ∷ xs) y a.1 h

module _ {K V : Type 0} where
  leftmost_lem :
      (l : Tree K V) (k : K) (v : V) (xs : List (K × V))
      → head? (to_list l ++ (k, v) ∷ xs) ≡ some (leftmost l k v)
  unfolding leftmost
  leftmost_lem leaf k v xs = refl
  leftmost_lem (node c l lk lv r) k v xs = ground (
    arith,
    head?-append (to_list l ++ (lk, lv) ∷ to_list r) (k, v) xs,
    leftmost_lem l lk lv (to_list r),
  )

  rightmost_lem :
      (r : Tree K V) (k : K) (v : V) → last? ((k, v) ∷ to_list r) ≡ some (rightmost r k v)
  unfolding rightmost
  rightmost_lem leaf k v = refl
  rightmost_lem (node c l rk rv r) k v =
      last?-append ((k, v) ∷ to_list l) (rk, rv) (to_list r) ∙ rightmost_lem r rk rv

  value_of-some :
      (r : Option (K × V)) {v : V} → value_of r ≡ some v → (e : K × V) × (r ≡ some e) × (e.1 ≡ v)
  value_of-some none h = cc
  value_of-some (some e) h = (e, refl, cc)

  pub first_entry_lem : (t : Tree K V) → first_entry t ≡ head? (to_list t)
  first_entry_lem leaf = refl
  first_entry_lem (node c l k v r) = sym (leftmost_lem l k v (to_list r))

  pub last_entry_lem : (t : Tree K V) → last_entry t ≡ last? (to_list t)
  last_entry_lem leaf = refl
  last_entry_lem (node c l k v r) =
      sym (last?-append (to_list l) (k, v) (to_list r) ∙ rightmost_lem r k v)

module _ {K V S : Type 0} (callback : K → V → S → Bool × S) where
  -- The entries in order, until the callback says stop.
  abbrev pub walk : List (K × V) → S → Bool × S
  walk [] s = (true, s)
  walk ((k, v) ∷ m) s = elim (callback k v s).0 [
    | false ↦ (false, (callback k v s).1)
    | true ↦ walk m (callback k v s).1
  ]

  walk-append :
      (xs ys : List (K × V)) (s : S)
      → walk (xs ++ ys) s
        ≡ elim (walk xs s).0 [ false ↦ (false, (walk xs s).1) | true ↦ walk ys (walk xs s).1 ]
  walk-append [] ys s = refl
  walk-append ((k, v) ∷ xs) ys s = ground (arith, walk-append xs ys (callback k v s).1)

  pub ascend_node_lem : (t : Tree K V) (s : S) → ascend_node callback t s ≡ walk (to_list t) s
  unfolding ascend_node
  ascend_node_lem leaf s = refl
  ascend_node_lem (node c l k v r) s = ground (
    arith,
    walk-append (to_list l) ((k, v) ∷ to_list r) s,
    ascend_node_lem l s,
    ascend_node_lem r (callback k v (walk (to_list l) s).1).1,
  )

  -- `Ascend` calls the callback on the entries in the tree's direction, and stops when it says so.
  pub ascend_lem : (t : RbTree K V) (s : S) → ascend callback t s ≡ (walk (entries t) s).1
  unfolding ascend
  ascend_lem t s = ap (λ p. p.1) (ascend_node_lem t.root s)

module _ {K V : Type 0} {cmp : K → K → Ordering} (o : IsOrder cmp) where
  first_is_least :
      (m : List (K × V)) (e : K × V)
      → IsSorted cmp m
      → head? m ≡ some e
      → (lookup_entry cmp e.0 m ≡ some e.1) × All (λ x. cmp x.0 e.0 ≢ lt) m
  unfolding lookup_entry
  first_is_least [] e s h = cc
  first_is_least ((k, v) ∷ m) e s h =
      let same : (k, v) ≡ e = cc in
      subst
        (λ e.
          (lookup_entry cmp e.0 ((k, v) ∷ m) ≡ some e.1) × All (λ x. cmp x.0 e.0 ≢ lt) ((k, v) ∷ m))
        same
        (
          rw (o.cmp_refl k, lookup_entry),
          (
            (λ p. ground (arith, o.cmp_refl k)),
            All-imp (λ x a. ground (arith, o.gt_of_lt k x.0 a)) m s.0,
          ),
        )

  last_is_greatest :
      (m : List (K × V)) (e : K × V)
      → IsSorted cmp m
      → last? m ≡ some e
      → (lookup_entry cmp e.0 m ≡ some e.1) × All (λ x. cmp x.0 e.0 ≢ gt) m
  unfolding lookup_entry
  last_is_greatest [] e s h = cc
  last_is_greatest ((k, v) ∷ []) e s h =
      let same : (k, v) ≡ e = cc in
      let level : cmp k k ≢ gt = λ p. ground (arith, o.cmp_refl k) in
      subst
        (λ (e : K × V).
          (lookup_entry cmp e.0 ((k, v) ∷ []) ≡ some e.1)
          × All (λ (x : K × V). cmp x.0 e.0 ≢ gt) ((k, v) ∷ []))
        same (rw (o.cmp_refl k, lookup_entry), (level, tt))
  last_is_greatest ((k, v) ∷ x ∷ m) e s h =
      let ih = last_is_greatest (x ∷ m) e s.1 h in
      let below = All-last? (λ y. cmp k y.0 ≡ lt) (x ∷ m) e s.0 h in
      (
        rw (o.gt_of_lt k e.0 below, lookup_entry) ih.0,
        ((λ (p : cmp k e.0 ≡ gt). ground (arith, below)), ih.1),
      )

module _ {K V : Type 0} {cmp : K → K → Ordering} (o : IsOrder cmp) where
  least :
      (desc : Bool) (m : List (K × V)) (e : K × V)
      → IsSorted (λ a b. compare_to desc (cmp a b)) m
      → (if desc then last? m else head? m) ≡ some e
      → (lookup_entry (λ a b. compare_to desc (cmp a b)) e.0 m ≡ some e.1)
        × All (λ x. cmp x.0 e.0 ≢ lt) m
  unfolding compare_to
  least true m e s h =
      let found = last_is_greatest (compare_to-IsOrder true o) m e s h in
      (found.0, All-imp (λ x a p. a (ground (arith, p))) m found.1)
  least false m e s h = first_is_least o m e s h

  greatest :
      (desc : Bool) (m : List (K × V)) (e : K × V)
      → IsSorted (λ a b. compare_to desc (cmp a b)) m
      → (if desc then head? m else last? m) ≡ some e
      → (lookup_entry (λ a b. compare_to desc (cmp a b)) e.0 m ≡ some e.1)
        × All (λ x. cmp x.0 e.0 ≢ gt) m
  unfolding compare_to
  greatest true m e s h =
      let found = first_is_least (compare_to-IsOrder true o) m e s h in
      (found.0, All-imp (λ x a p. a (ground (arith, p))) m found.1)
  greatest false m e s h = last_is_greatest o m e s h

  -- Where `Min` of a valid tree returns a value, it is that of some key, and no entry has a lower key,
  -- whatever the tree's direction.
  pub min_level_lem :
      (t : RbTree K V) (v : V)
      → IsValid cmp t
      → min_level t ≡ some v
      → (k : K) × (get cmp t k ≡ some v) × All (λ e. cmp e.0 k ≢ lt) (entries t)
  unfolding min_level
  min_level_lem t v valid h =
      let (e, he, hv) = value_of-some _ h in
      let m = entries t in
      let ends : (if t.desc then last? m else head? m) ≡ some e =
        ground (arith, first_entry_lem t.root, last_entry_lem t.root) in
      let found = least t.desc m e valid.sorted ends in
      (e.0, get_lem o t e.0 valid ∙ found.0 ∙ ap some hv, found.1)

  -- Where `Max` of a valid tree returns a value, it is that of some key, and no entry has a higher key,
  -- whatever the tree's direction.
  pub max_level_lem :
      (t : RbTree K V) (v : V)
      → IsValid cmp t
      → max_level t ≡ some v
      → (k : K) × (get cmp t k ≡ some v) × All (λ e. cmp e.0 k ≢ gt) (entries t)
  unfolding max_level
  max_level_lem t v valid h =
      let (e, he, hv) = value_of-some _ h in
      let m = entries t in
      let ends : (if t.desc then head? m else last? m) ≡ some e =
        ground (arith, first_entry_lem t.root, last_entry_lem t.root) in
      let found = greatest t.desc m e valid.sorted ends in
      (e.0, get_lem o t e.0 valid ∙ found.0 ∙ ap some hv, found.1)

  -- `Min` and `Max` return nothing exactly when the tree has no entry.
  pub no_level_lem :
      (t : RbTree K V)
      → ((min_level t ≡ none) ↔ (entries t ≡ [])) × ((max_level t ≡ none) ↔ (entries t ≡ []))
  unfolding min_level max_level
  no_level_lem t = by_root t.desc t.root
    where
      by_root :
          (desc : Bool) (root : Tree K V)
          → ((value_of (if desc then last_entry root else first_entry root) ≡ none)
              ↔ (to_list root ≡ []))
            × ((value_of (if desc then first_entry root else last_entry root) ≡ none)
                ↔ (to_list root ≡ []))
      by_root desc leaf = ground arith
      by_root desc (node c l k v r) = ground (arith, append-ne-nil (to_list l) (k, v) (to_list r))
