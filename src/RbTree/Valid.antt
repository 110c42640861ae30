-- ===== src/RbTree/Valid.antt =====
-- The representation invariant of the price tree of internal/orderbook/rbtree.go, and its public
-- methods as operations on the sorted entries.
use matchengine.Prelude.{
  ◌+◌, ◌≡◌, refl, sym, ap, ◌∙◌, Bool, Ordering, eq, List, [], ◌∷◌, some, none, arith, length,
}
use matchengine.Decimal.{IsOrder}
use matchengine.RbTree.Defs.{
  went_left, went_right, Tree, leaf, node, Frame, RbTree, compare_to, new_rb_tree,
}
use matchengine.RbTree.Insert.{search_node, descend, insert_at, get, insert, order_of}
use matchengine.RbTree.Delete.{delete_at, delete}
use matchengine.RbTree.Spec.{lookup_entry, insert_entry, erase_entry, IsSorted}
use matchengine.RbTree.Spec.Laws.{
  found, IsSorted-insert_entry, IsSorted-erase_entry, lookup_entry-insert_entry,
  lookup_entry-erase_entry, length-insert_entry, length-erase_entry,
}
use matchengine.RbTree.InOrder.{to_list}
use matchengine.RbTree.Refine.{compare_to-IsOrder, search_node_lem, insert_at_lem, delete_at_lem}

module _ {K V : Type 0} where
  abbrev pub entries : RbTree K V → List (K × V)
  entries t = to_list t.root

module _ {K V : Type 0} (cmp : K → K → Ordering) where
  -- The entries are in the tree's direction, and `size` counts them.
  pub record IsValid (t : RbTree K V) : Type 0 where
    pub sorted : IsSorted (order_of cmp t) (entries t)
    pub counted : t.size ≡ length (entries t)

-- A test for equal keys reads the same in both directions.
compare_to-eq :
    {A : Type 0} (desc : Bool) (c : Ordering) (x y z : A)
    → y ≡ z
    → (elim (compare_to desc c) [ eq ↦ x | _ ↦ y ]) ≡ (elim c [ eq ↦ x | _ ↦ z ])
unfolding compare_to
compare_to-eq desc c x y z e = ground arith

module _ {K V : Type 0} {cmp : K → K → Ordering} (o : IsOrder cmp) where
  pub new_rb_tree-IsValid : (desc : Bool) → IsValid {V = V} cmp (new_rb_tree desc)
  unfolding new_rb_tree
  new_rb_tree-IsValid desc = record { sorted = tt; counted = refl }

  pub get_lem :
      (t : RbTree K V) (key : K)
      → IsValid cmp t
      → get cmp t key ≡ lookup_entry (order_of cmp t) key (entries t)
  unfolding get
  get_lem t key v = search_node_lem (compare_to-IsOrder t.desc o) key t.root v.sorted

  pub entries-insert :
      (t : RbTree K V) (key : K) (value : V)
      → IsValid cmp t
      → entries (insert cmp t key value) ≡ insert_entry (order_of cmp t) key value (entries t)
  unfolding insert
  entries-insert t key value v =
      insert_at_lem (compare_to-IsOrder t.desc o) key value t.root [] v.sorted

  pub entries-delete :
      (t : RbTree K V) (key : K)
      → IsValid cmp t
      → entries (delete cmp t key) ≡ erase_entry (order_of cmp t) key (entries t)
  unfolding delete
  entries-delete t key v = delete_at_lem (compare_to-IsOrder t.desc o) key t.root [] v.sorted

  -- What the descent finds decides whether the size changes.
  added_lem :
      (order : K → K → Ordering) (key : K) (value : V) (t : Tree K V) (path : List (Frame K V))
      → (insert_at order key value (descend order key t path)).1 + found (search_node order key t)
        ≡ 1
  unfolding descend insert_at search_node
  added_lem order key value leaf path = refl
  added_lem order key value (node c l k v r) path = ground (
    arith,
    added_lem order key value l (went_left c k v r ∷ path),
    added_lem order key value r (went_right c k v l ∷ path),
  )

  removed_lem :
      (order : K → K → Ordering) (key : K) (t : Tree K V) (path : List (Frame K V))
      → (delete_at (descend order key t path)).1 ≡ found (search_node order key t)
  unfolding descend delete_at search_node
  removed_lem order key leaf path = refl
  removed_lem order key (node c l k v r) path = ground (
    arith,
    removed_lem order key l (went_left c k v r ∷ path),
    removed_lem order key r (went_right c k v l ∷ path),
  )

  -- `Insert` keeps a tree's entries in its direction, and `size` equal to their number.
  pub insert-IsValid :
      (t : RbTree K V) (key : K) (value : V) → IsValid cmp t → IsValid cmp (insert cmp t key value)
  insert-IsValid t key value v =
      let order = compare_to-IsOrder t.desc o in
      record {
        sorted =
            rw (entries-insert t key value v)
              (unfold insert in IsSorted-insert_entry order key value (entries t) v.sorted);
        counted = rw (entries-insert t key value v) (
            unfold insert in
            omega (
              arith,
              v.counted,
              added_lem (order_of cmp t) key value t.root [],
              length-insert_entry order key value (entries t) v.sorted,
              ap found (search_node_lem order key t.root v.sorted),
            ));
      }

  -- `Delete` keeps a tree's entries in its direction, and `size` equal to their number.
  pub delete-IsValid : (t : RbTree K V) (key : K) → IsValid cmp t → IsValid cmp (delete cmp t key)
  delete-IsValid t key v =
      let order = compare_to-IsOrder t.desc o in
      record {
        sorted =
            rw (entries-delete t key v)
              (unfold delete in IsSorted-erase_entry order key (entries t) v.sorted);
        counted = rw (entries-delete t key v) (
            unfold delete in
            omega (
              arith,
              v.counted,
              removed_lem (order_of cmp t) key t.root [],
              length-erase_entry order key (entries t) v.sorted,
              ap found (search_node_lem order key t.root v.sorted),
            ));
      }

  -- In a valid tree, `Get` after `Insert`: the new value at its key, what was there at every other key.
  pub get-insert :
      (t : RbTree K V) (key : K) (value : V) (j : K)
      → IsValid cmp t
      → get cmp (insert cmp t key value) j ≡ elim (cmp j key) [ eq ↦ some value | _ ↦ get cmp t j ]
  get-insert t key value j v =
      let order = compare_to-IsOrder t.desc o in
      get_lem (insert cmp t key value) j (insert-IsValid t key value v)
      ∙ rw (entries-insert t key value v)
          (unfold insert in lookup_entry-insert_entry order j key value (entries t))
      ∙ compare_to-eq t.desc (cmp j key) (some value) _ (get cmp t j) (sym (get_lem t j v))

  -- In a valid tree, `Get` after `Delete`: nothing at the key, what was there at every other key.
  pub get-delete :
      (t : RbTree K V) (key j : K)
      → IsValid cmp t
      → get cmp (delete cmp t key) j ≡ elim (cmp j key) [ eq ↦ none | _ ↦ get cmp t j ]
  get-delete t key j v =
      let order = compare_to-IsOrder t.desc o in
      get_lem (delete cmp t key) j (delete-IsValid t key v)
      ∙ rw (entries-delete t key v)
          (unfold delete in lookup_entry-erase_entry order j key (entries t) v.sorted)
      ∙ compare_to-eq t.desc (cmp j key) none _ (get cmp t j) (sym (get_lem t j v))
