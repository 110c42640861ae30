-- ===== src/RbTree/Delete.antt =====
-- internal/orderbook/rbtree.go: `Delete`, `deleteNode`, `transplant`, `minimum` and `deleteFixup`.
-- To transplant a node is to go on with the other subtree under the same frames.
use matchengine.Prelude.{ℕ, ◌-◌, Ordering, if◌then◌else◌, List, [], ◌∷◌, ◌++◌, ◌&&◌, not}
use matchengine.RbTree.Defs.{
  went_left, went_right, Color, red, black, Tree, leaf, node, left, right, Frame, RbTree, color_of,
  left_of, right_of, is_red, set_color, set_left_color, set_right_color, left_rotate, right_rotate,
  attach, plug,
}
use matchengine.RbTree.Insert.{descend, order_of}

module _ {K V : Type 0} where
  -- One round of `deleteFixup` at `x` under the frame `p`, once the sibling is black. `climb` is what
  -- follows `x = x.parent`; the other way out ends the loop at the root, which is blackened.
  unfoldable pub black_sibling :
      Frame K V → List (Frame K V) → Tree K V → (Tree K V → Tree K V) → Tree K V
  black_sibling p path x climb =
      let w = p.sibling in
      if not (is_red (color_of (left_of w))) && not (is_red (color_of (right_of w)))
      then climb (attach (record p { sibling = set_color red w }) x)
      else elim p.side [
        | left ↦
            let turned : Tree K V =
              if is_red (color_of (right_of w))
              then w
              else right_rotate (set_color red (set_left_color black w)) in
            let sibling : Tree K V = set_right_color black (set_color p.color turned) in
            set_color black
              (plug path (left_rotate (attach (record p { color = black; sibling = sibling }) x)))
        | right ↦
            let turned : Tree K V =
              if is_red (color_of (left_of w))
              then w
              else left_rotate (set_color red (set_right_color black w)) in
            let sibling : Tree K V = set_left_color black (set_color p.color turned) in
            set_color black
              (plug path (right_rotate (attach (record p { color = black; sibling = sibling }) x)))
      ]

  -- A red sibling `w`: it turns black, the parent red, and a rotation puts `w` above the parent. The
  -- parent is red, so that the loop ends there if it climbs.
  unfoldable pub red_sibling :
      Frame K V → List (Frame K V) → Tree K V → Tree K V → (Tree K V → Tree K V) → Tree K V
  red_sibling p path x leaf climb = climb (attach p x)
  red_sibling p path x (node c wl wk wv wr) climb = elim p.side [
    | left ↦
        let w : Frame K V = went_left black wk wv wr in
        black_sibling (record p { color = red; sibling = wl }) (w ∷ path) x
          (λ parent. plug (w ∷ path) (set_color black parent))
    | right ↦
        let w : Frame K V = went_right black wk wv wl in
        black_sibling (record p { color = red; sibling = wr }) (w ∷ path) x
          (λ parent. plug (w ∷ path) (set_color black parent))
  ]

  unfoldable pub delete_fixup : List (Frame K V) → Tree K V → Tree K V
  delete_fixup [] x = set_color black x
  delete_fixup (p ∷ path) x =
      let climb = λ (t : Tree K V). delete_fixup path t in
      if is_red (color_of x)
      then plug (p ∷ path) (set_color black x)
      else if is_red (color_of p.sibling)
      then red_sibling p path x p.sibling climb
      else black_sibling p path x climb

  -- `minimum`, with the frames from the given node down to it: its colour, key, value and right
  -- subtree, and the frames above.
  unfoldable pub minimum :
      Color
      → Tree K V
      → K
      → V
      → Tree K V
      → List (Frame K V)
      → Color × K × V × Tree K V × List (Frame K V)
  minimum c leaf k v r path = (c, k, v, r, path)
  minimum c (node lc ll lk lv lr) k v r path = minimum lc ll lk lv lr (went_left c k v r ∷ path)

  unfoldable pub fix_if_black : Color → List (Frame K V) → Tree K V → Tree K V
  fix_if_black red path x = plug path x
  fix_if_black black path x = delete_fixup path x

  -- The successor takes the place, the colour and the left subtree of a node with two children.
  unfoldable pub delete_node : Color → Tree K V → K → V → Tree K V → List (Frame K V) → Tree K V
  delete_node c leaf k v r path = fix_if_black c path r
  delete_node c (node lc ll lk lv lr) k v leaf path = fix_if_black c path (node lc ll lk lv lr)
  delete_node c (node lc ll lk lv lr) k v (node rc rl rk rv rr) path =
      let (yc, yk, yv, x, inner) = minimum rc rl rk rv rr [] in
      let y : Frame K V = went_right c yk yv (node lc ll lk lv lr) in
      fix_if_black yc (inner ++ y ∷ path) x

  unfoldable pub delete_at : Tree K V × List (Frame K V) → Tree K V × ℕ
  delete_at (leaf, path) = (plug path leaf, 0)
  delete_at (node c l k v r, path) = (delete_node c l k v r path, 1)

module _ {K V : Type 0} (cmp : K → K → Ordering) where
  unfoldable pub delete : RbTree K V → K → RbTree K V
  delete t key =
      let (root, removed) = delete_at (descend (order_of cmp t) key t.root []) in
      record t { root = root; size = t.size - removed }
