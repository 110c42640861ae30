-- ===== src/RbTree/Insert.antt =====
-- internal/orderbook/rbtree.go: `search`, `Get`, `Insert` and `insertFixup`.
use matchengine.Prelude.{
  ℕ, ◌+◌, Ordering, lt, eq, gt, if◌then◌else◌, List, [], ◌∷◌, Option, some, none,
}
use matchengine.RbTree.Defs.{
  went_left, went_right, red, black, Tree, leaf, node, left, right, Frame, RbTree, color_of, is_red,
  set_color, left_rotate, right_rotate, attach, plug, compare_to,
}

module _ {K V : Type 0} where
  -- The uncle is black: the rotations round the parent `p` and the grandparent `g` of `t`.
  unfoldable pub rotate_up : Tree K V → Frame K V → Frame K V → Tree K V
  rotate_up t p g = elim g.side [
    | left ↦
        let parent : Tree K V = elim p.side [
          | right ↦ left_rotate (attach p t)
          | left ↦ attach p t
        ] in
        right_rotate (attach (record g { color = red }) (set_color black parent))
    | right ↦
        let parent : Tree K V = elim p.side [
          | left ↦ right_rotate (attach p t)
          | right ↦ attach p t
        ] in
        left_rotate (attach (record g { color = red }) (set_color black parent))
  ]

  -- The loop, on the node and the frames above it; the last step blackens the root. A parent that
  -- is the root is black, so that the loop has a grandparent whenever it goes on.
  unfoldable pub insert_fixup : List (Frame K V) → Tree K V → Tree K V
  insert_fixup [] t = set_color black t
  insert_fixup (p ∷ []) t = set_color black (attach p t)
  insert_fixup (p ∷ g ∷ path) t =
      let up = insert_fixup path (
        attach (record g { color = red; sibling = set_color black g.sibling })
          (attach (record p { color = black }) t)) in
      if is_red p.color
      then if is_red (color_of g.sibling) then up else set_color black (plug path (rotate_up t p g))
      else set_color black (plug (p ∷ g ∷ path) t)

module _ {K V : Type 0} (cmp : K → K → Ordering) where
  unfoldable pub search_node : K → Tree K V → Option V
  search_node key leaf = none
  search_node key (node c l k v r) = elim (cmp key k) [
    | eq ↦ some v
    | lt ↦ search_node key l
    | gt ↦ search_node key r
  ]

  -- The loop of `Insert` and of `search`: where it stops, and the frames above.
  unfoldable pub descend : K → Tree K V → List (Frame K V) → Tree K V × List (Frame K V)
  descend key leaf path = (leaf, path)
  descend key (node c l k v r) path = elim (cmp key k) [
    | eq ↦ (node c l k v r, path)
    | lt ↦ descend key l (went_left c k v r ∷ path)
    | gt ↦ descend key r (went_right c k v l ∷ path)
  ]

  -- A key that is there gets the new value; another key gets a red node.
  unfoldable pub insert_at : K → V → Tree K V × List (Frame K V) → Tree K V × ℕ
  insert_at key value (leaf, path) = (insert_fixup path (node red leaf key value leaf), 1)
  insert_at key value (node c l k v r, path) = (plug path (node c l k value r), 0)

module _ {K V : Type 0} (cmp : K → K → Ordering) where
  abbrev pub order_of : RbTree K V → K → K → Ordering
  order_of t a b = compare_to t.desc (cmp a b)

  unfoldable pub get : RbTree K V → K → Option V
  get t key = search_node (order_of t) key t.root

  unfoldable pub insert : RbTree K V → K → V → RbTree K V
  insert t key value =
      let (root, added) = insert_at (order_of t) key value (descend (order_of t) key t.root []) in
      record t { root = root; size = t.size + added }
