-- ===== src/RbTree/Spec/Laws.antt =====
-- The laws of the sorted association list that stands for a price tree.
use matchengine.Prelude.{
  ℕ, ◌+◌, ◌≡◌, refl, Ordering, lt, eq, List, [], ◌∷◌, Option, none, some, All, length, arith,
}
use matchengine.Decimal.{IsOrder}
use matchengine.RbTree.Spec.{
  lookup_entry, insert_entry, erase_entry, IsSorted, After, After-trans, lookup_entry-After,
}

-- 1 for a hit and 0 for a miss, so that one equation states both cases.
abbrev pub found : {V : Type 0} → Option V → ℕ
found none = 0
found (some v) = 1

module _ {K V : Type 0} {cmp : K → K → Ordering} (o : IsOrder cmp) where
  All-insert_entry :
      (b key : K) (value : V) (m : List (K × V))
      → cmp b key ≡ lt
      → All (After cmp b) m
      → All (After cmp b) (insert_entry cmp key value m)
  unfolding insert_entry
  All-insert_entry b key value [] h a = (h, tt)
  All-insert_entry b key value ((k, v) ∷ m) h a =
      ground (arith, All-insert_entry b key value m h a.1)

  All-erase_entry :
      (b key : K) (m : List (K × V))
      → All (After cmp b) m
      → All (After cmp b) (erase_entry cmp key m)
  unfolding erase_entry
  All-erase_entry b key [] a = tt
  All-erase_entry b key ((k, v) ∷ m) a = ground (arith, All-erase_entry b key m a.1)

  pub IsSorted-insert_entry :
      (key : K) (value : V) (m : List (K × V))
      → IsSorted cmp m
      → IsSorted cmp (insert_entry cmp key value m)
  unfolding insert_entry
  IsSorted-insert_entry key value [] s = (tt, tt)
  IsSorted-insert_entry key value ((k, v) ∷ m) s = ground (
    arith,
    IsSorted-insert_entry key value m s.1,
    After-trans o key k m,
    All-insert_entry k key value m,
    o.lt_of_gt key k,
  )

  pub IsSorted-erase_entry :
      (key : K) (m : List (K × V)) → IsSorted cmp m → IsSorted cmp (erase_entry cmp key m)
  unfolding erase_entry
  IsSorted-erase_entry key [] s = tt
  IsSorted-erase_entry key ((k, v) ∷ m) s =
      ground (arith, IsSorted-erase_entry key m s.1, All-erase_entry k key m s.0)

  pub lookup_entry-insert_entry :
      (j key : K) (value : V) (m : List (K × V))
      → lookup_entry cmp j (insert_entry cmp key value m)
        ≡ elim (cmp j key) [ eq ↦ some value | _ ↦ lookup_entry cmp j m ]
  unfolding lookup_entry insert_entry
  lookup_entry-insert_entry j key value [] = refl
  lookup_entry-insert_entry j key value ((k, v) ∷ m) = ground (
    arith,
    lookup_entry-insert_entry j key value m,
    o.eq_of_cmp key k,
    o.eq_of_cmp j k,
    o.eq_of_cmp j key,
  )

  pub lookup_entry-erase_entry :
      (j key : K) (m : List (K × V))
      → IsSorted cmp m
      → lookup_entry cmp j (erase_entry cmp key m)
        ≡ elim (cmp j key) [ eq ↦ none | _ ↦ lookup_entry cmp j m ]
  unfolding lookup_entry erase_entry
  lookup_entry-erase_entry j key [] s = ground arith
  lookup_entry-erase_entry j key ((k, v) ∷ m) s = ground (
    arith,
    lookup_entry-erase_entry j key m s.1,
    o.eq_of_cmp key k,
    o.eq_of_cmp j k,
    o.eq_of_cmp j key,
    lookup_entry-After o k m s.0,
    After-trans o key k m,
    lookup_entry-After o key m,
  )

  pub length-insert_entry :
      (key : K) (value : V) (m : List (K × V))
      → IsSorted cmp m
      → length (insert_entry cmp key value m) + found (lookup_entry cmp key m) ≡ length m + 1
  unfolding insert_entry lookup_entry
  length-insert_entry key value [] s = refl
  length-insert_entry key value ((k, v) ∷ m) s = ground (
    arith,
    length-insert_entry key value m s.1,
    After-trans o key k m,
    lookup_entry-After o key m,
  )

  pub length-erase_entry :
      (key : K) (m : List (K × V))
      → IsSorted cmp m
      → length (erase_entry cmp key m) + found (lookup_entry cmp key m) ≡ length m
  unfolding erase_entry lookup_entry
  length-erase_entry key [] s = refl
  length-erase_entry key ((k, v) ∷ m) s =
      ground
        (arith, length-erase_entry key m s.1, After-trans o key k m, lookup_entry-After o key m)
