-- ===== src/RbTree/Refine.antt =====
-- `Get`, `Insert` and `Delete` of internal/orderbook/rbtree.go against the sorted association list of
-- `RbTree.Spec`, on a tree whose entries are in order.
use matchengine.Prelude.{
  ◌≡◌, refl, sym, ap, ◌∙◌, Bool, Ordering, List, [], ◌∷◌, ◌++◌, append-nil, arith,
}
use matchengine.Decimal.{IsOrder}
use matchengine.RbTree.Defs.{
  went_left, went_right, Color, red, black, Tree, leaf, node, Frame, compare_to,
}
use matchengine.RbTree.Insert.{search_node, descend, insert_at}
use matchengine.RbTree.Delete.{minimum, fix_if_black, delete_node, delete_at}
use matchengine.RbTree.Spec.{
  lookup_entry, insert_entry, erase_entry, IsSorted, IsSorted-left, IsSorted-right, Before-middle,
  insert_entry-past, insert_entry-front, erase_entry-past, erase_entry-front, lookup_entry-past,
  lookup_entry-front, Before-trans, After-trans,
}
use matchengine.RbTree.InOrder.{
  to_list, around, to_list-plug, to_list-insert_fixup, to_list-delete_fixup, around-append,
}

-- Turning the comparison round keeps the laws.
pub compare_to-IsOrder :
    {K : Type 0} {cmp : K → K → Ordering} (desc : Bool)
    → IsOrder cmp
    → IsOrder (λ a b. compare_to desc (cmp a b))
unfolding compare_to
compare_to-IsOrder {cmp} desc o = record {
  cmp_refl = λ a. ground (arith, o.cmp_refl a);
  eq_of_cmp = λ a b h. ground (arith, o.eq_of_cmp a b);
  lt_of_gt = λ a b h. ground (arith, o.lt_of_gt a b, o.gt_of_lt a b);
  gt_of_lt = λ a b h. ground (arith, o.lt_of_gt a b, o.gt_of_lt a b);
  lt_trans = λ a b c h k.
      ground
        (arith, o.lt_trans a b c, o.lt_trans c b a, o.lt_of_gt a b, o.lt_of_gt b c, o.gt_of_lt c a);
}

module _ {K V : Type 0} {cmp : K → K → Ordering} (o : IsOrder cmp) where
  pub search_node_lem :
      (key : K) (t : Tree K V)
      → IsSorted cmp (to_list t)
      → search_node cmp key t ≡ lookup_entry cmp key (to_list t)
  unfolding search_node lookup_entry
  search_node_lem key leaf s = refl
  search_node_lem key (node c l k v r) s =
      let low = Before-middle cmp (to_list l) k v (to_list r) s in
      let right_part = IsSorted-right cmp (to_list l) ((k, v) ∷ to_list r) s in
      ground (
        arith,
        search_node_lem key l (IsSorted-left cmp (to_list l) ((k, v) ∷ to_list r) s),
        search_node_lem key r right_part.1,
        lookup_entry-front o key (to_list l) ((k, v) ∷ to_list r),
        lookup_entry-past o key (to_list l) ((k, v) ∷ to_list r),
        Before-trans o k key (to_list l),
        o.lt_of_gt key k,
        o.eq_of_cmp key k,
        After-trans o key k (to_list r),
      )

  -- What `Insert` puts where the descent stops is what the list insertion gives.
  pub insert_at_lem :
      (key : K) (value : V) (t : Tree K V) (path : List (Frame K V))
      → IsSorted cmp (to_list t)
      → to_list (insert_at cmp key value (descend cmp key t path)).0
        ≡ around path (insert_entry cmp key value (to_list t))
  unfolding descend insert_at insert_entry
  insert_at_lem key value leaf path s = to_list-insert_fixup path (node red leaf key value leaf)
  insert_at_lem key value (node c l k v r) path s =
      let low = Before-middle cmp (to_list l) k v (to_list r) s in
      ground (
        arith,
        insert_at_lem key value l (went_left c k v r ∷ path)
            (IsSorted-left cmp (to_list l) ((k, v) ∷ to_list r) s),
        insert_at_lem key value r (went_right c k v l ∷ path)
            (IsSorted-right cmp (to_list l) ((k, v) ∷ to_list r) s).1,
        to_list-plug path (node c l k value r),
        insert_entry-front o key value (to_list l) k v (to_list r),
        insert_entry-past o key value (to_list l) ((k, v) ∷ to_list r),
        Before-trans o k key (to_list l),
        o.lt_of_gt key k,
        o.eq_of_cmp key k,
      )

  to_list-fix_if_black :
      (c : Color) (path : List (Frame K V)) (x : Tree K V)
      → to_list (fix_if_black c path x) ≡ around path (to_list x)
  unfolding fix_if_black
  to_list-fix_if_black red path x = to_list-plug path x
  to_list-fix_if_black black path x = to_list-delete_fixup path x

  -- The successor comes first among the entries, and the frames above it hold the rest.
  minimum_first :
      (c : Color) (l : Tree K V) (k : K) (v : V) (r : Tree K V) (path : List (Frame K V))
      → ((e : K × V) (xs : List (K × V)) → around path (e ∷ xs) ≡ e ∷ around path xs)
      → let (yc, yk, yv, x, inner) = minimum c l k v r path in
        (yk, yv) ∷ around inner (to_list x) ≡ around path (to_list l ++ (k, v) ∷ to_list r)
  unfolding minimum
  minimum_first c leaf k v r path h = sym (h (k, v) (to_list r))
  minimum_first c (node lc ll lk lv lr) k v r path h =
      minimum_first lc ll lk lv lr (went_left c k v r ∷ path)
        (λ e xs. h e (xs ++ (k, v) ∷ to_list r))

  to_list-delete_node :
      (c : Color) (l : Tree K V) (k : K) (v : V) (r : Tree K V) (path : List (Frame K V))
      → to_list (delete_node c l k v r path) ≡ around path (to_list l ++ to_list r)
  unfolding delete_node
  to_list-delete_node c leaf k v r path = to_list-fix_if_black c path r
  to_list-delete_node c (node lc ll lk lv lr) k v leaf path =
      to_list-fix_if_black c path (node lc ll lk lv lr)
      ∙ ap (around path) (sym (append-nil (to_list (node lc ll lk lv lr))))
  to_list-delete_node c (node lc ll lk lv lr) k v (node rc rl rk rv rr) path =
      let (yc, yk, yv, x, inner) = minimum rc rl rk rv rr [] in
      let l = node lc ll lk lv lr in
      let y : Frame K V = went_right c yk yv l in
      to_list-fix_if_black yc (inner ++ y ∷ path) x
      ∙ around-append inner (y ∷ path) (to_list x)
      ∙ ap (λ m. around path (to_list l ++ m)) (minimum_first rc rl rk rv rr [] (λ e xs. refl))

  -- Deleting where the descent stops is erasing from the list.
  pub delete_at_lem :
      (key : K) (t : Tree K V) (path : List (Frame K V))
      → IsSorted cmp (to_list t)
      → to_list (delete_at (descend cmp key t path)).0
        ≡ around path (erase_entry cmp key (to_list t))
  unfolding descend delete_at erase_entry
  delete_at_lem key leaf path s = to_list-plug path leaf
  delete_at_lem key (node c l k v r) path s =
      let low = Before-middle cmp (to_list l) k v (to_list r) s in
      ground (
        arith,
        delete_at_lem key l (went_left c k v r ∷ path)
            (IsSorted-left cmp (to_list l) ((k, v) ∷ to_list r) s),
        delete_at_lem key r (went_right c k v l ∷ path)
            (IsSorted-right cmp (to_list l) ((k, v) ∷ to_list r) s).1,
        to_list-delete_node c l k v r path,
        erase_entry-front o key (to_list l) k v (to_list r),
        erase_entry-past o key (to_list l) ((k, v) ∷ to_list r),
        Before-trans o k key (to_list l),
        o.lt_of_gt key k,
        o.eq_of_cmp key k,
      )
