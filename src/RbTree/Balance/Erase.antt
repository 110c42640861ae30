-- ===== src/RbTree/Balance/Erase.antt =====
-- `Delete` of internal/orderbook/rbtree.go as a whole, and the colours: what `deleteNode` takes out, and
-- the colour of the root.
use matchengine.Prelude.{◌+◌, ◌≡◌, refl, sym, subst, ◌∙◌, Ordering, List, [], ◌∷◌, ◌++◌, arith}
use matchengine.RbTree.Defs.{
  Color, red, black, Tree, leaf, node, Frame, RbTree, color_of, set_color, attach, plug, went_left,
  went_right, left_rotate, right_rotate, set_left_color, set_right_color,
}
use matchengine.RbTree.Insert.{descend, order_of}
use matchengine.RbTree.Delete.{
  black_sibling, red_sibling, delete_fixup, minimum, fix_if_black, delete_node, delete_at, delete,
}
use matchengine.RbTree.Balance.{
  weight, height, Above, Below, IsRedBlack, Fits, IsBalanced, root_color, color_of-plug,
  color_of-set_color, Below-root, plug-IsRedBlack, black-IsRedBlack,
}
use matchengine.RbTree.Balance.Grow.{descend-Fits, descend-root}
use matchengine.RbTree.Balance.Shrink.{delete_fixup-IsRedBlack}

module _ {K V : Type 0} where
  root_color-black :
      (path : List (Frame K V)) (c : Color)
      → root_color path c ≡ black
      → root_color path black ≡ black
  root_color-black [] c h = refl
  root_color-black (f ∷ path) c h = h

  root_color-red :
      (path : List (Frame K V)) (c : Color)
      → root_color path red ≡ black
      → root_color path c ≡ black
  root_color-red [] c h = cc
  root_color-red (f ∷ path) c h = h

  black_sibling-black :
      (p : Frame K V) (path : List (Frame K V)) (x : Tree K V) (climb : Tree K V → Tree K V)
      → ((t : Tree K V) → color_of (climb t) ≡ black)
      → color_of (black_sibling p path x climb) ≡ black
  unfolding black_sibling
  black_sibling-black p path x climb h =
      let done = color_of-set_color {K = K} {V = V} in
      let w = p.sibling in
      let left_ends = λ (s : Tree K V). done (
        plug path (
          left_rotate (
            attach
              (record p { color = black; sibling = set_right_color black (set_color p.color s) })
              x))) in
      let right_ends = λ (s : Tree K V). done (
        plug path (
          right_rotate (
            attach
              (record p { color = black; sibling = set_left_color black (set_color p.color s) })
              x))) in
      ground (
        arith,
        h (attach (record p { sibling = set_color red w }) x),
        left_ends w,
        left_ends (right_rotate (set_color red (set_left_color black w))),
        right_ends w,
        right_ends (left_rotate (set_color red (set_right_color black w))),
      )

  above_black :
      (w : Frame K V) (path : List (Frame K V)) (t : Tree K V)
      → w.color ≡ black
      → root_color path black ≡ black
      → color_of (plug (w ∷ path) t) ≡ black
  above_black w path t e h = color_of-plug (w ∷ path) t ∙ rw e h

  red_sibling-black :
      (p : Frame K V) (path : List (Frame K V)) (x w : Tree K V) (climb : Tree K V → Tree K V)
      → root_color path black ≡ black
      → ((t : Tree K V) → color_of (climb t) ≡ black)
      → color_of (red_sibling p path x w climb) ≡ black
  unfolding red_sibling
  red_sibling-black p path x leaf climb top h = h (attach p x)
  red_sibling-black p path x (node c wl wk wv wr) climb top h =
      let lw = went_left black wk wv wr in
      let rw_frame = went_right black wk wv wl in
      ground (
        arith,
        black_sibling-black (record p { color = red; sibling = wl }) (lw ∷ path) x
            (λ parent. plug (lw ∷ path) (set_color black parent))
            (λ t. above_black lw path (set_color black t) refl top),
        black_sibling-black (record p { color = red; sibling = wr }) (rw_frame ∷ path) x
            (λ parent. plug (rw_frame ∷ path) (set_color black parent))
            (λ t. above_black rw_frame path (set_color black t) refl top),
      )

  delete_fixup-black :
      (path : List (Frame K V)) (x : Tree K V)
      → root_color path black ≡ black
      → color_of (delete_fixup path x) ≡ black
  unfolding delete_fixup
  delete_fixup-black [] x top = color_of-set_color x
  delete_fixup-black (p ∷ path) x top =
      let above = root_color-black path p.color top in
      ground (
        arith,
        color_of-plug (p ∷ path) (set_color black x),
        top,
        red_sibling-black p path x p.sibling (λ t. delete_fixup path t) above
            (λ t. delete_fixup-black path t above),
        black_sibling-black p path x (λ t. delete_fixup path t)
            (λ t. delete_fixup-black path t above),
      )

  -- A place in a tree: what stands there and round it, for a node of colour `c` above `x`.
  abbrev Place : Color → List (Frame K V) → Tree K V → Type 0
  Place c path x =
      IsRedBlack x
      × Above c x
      × Below c path
      × Fits path (height x + weight c)
      × (root_color path c ≡ black)

  -- `x` takes the place of a node of colour `c` that goes.
  fix_if_black-IsBalanced :
      (c : Color) (path : List (Frame K V)) (x : Tree K V)
      → Place c path x
      → IsRedBlack (fix_if_black c path x) × (color_of (fix_if_black c path x) ≡ black)
  unfolding fix_if_black
  fix_if_black-IsBalanced red path x (v, a, b, h, top) = (
    plug-IsRedBlack path x v (rw a tt) (subst (Fits path) (omega arith) h),
    color_of-plug path x ∙ root_color-red path (color_of x) top,
  )
  fix_if_black-IsBalanced black path x (v, a, b, h, top) = (
    delete_fixup-IsRedBlack path x (black-IsRedBlack x v) (subst (Fits path) (omega arith) h),
    delete_fixup-black path x top,
  )

  -- A child of a node may stand below that node's frame.
  Below-child :
      (f : Frame K V) (path : List (Frame K V)) (c : Color) (l : Tree K V) (k : K) (v : V)
      (r : Tree K V)
      → Above f.color (node c l k v r)
      → Below c (f ∷ path)
  Below-child f path red l k v r a = ground arith
  Below-child f path black l k v r a = tt

  -- The successor, and the frames down to it.
  minimum-Place :
      (l : Tree K V) (c : Color) (k : K) (v : V) (r : Tree K V) (path rest : List (Frame K V))
      → IsRedBlack (node c l k v r)
      → Below c (path ++ rest)
      → Fits (path ++ rest) (height (node c l k v r))
      → root_color (path ++ rest) c ≡ black
      → let (yc, yk, yv, x, inner) = minimum c l k v r path in Place yc (inner ++ rest) x
  unfolding minimum
  minimum-Place leaf c k v r path rest (al, ar, e, vl, vr) b h top =
      (vr, ar, b, subst (Fits (path ++ rest)) (omega (arith, e)) h, top)
  minimum-Place (node lc ll lk lv lr) c k v r path rest (al, ar, e, vl, vr) b h top =
      minimum-Place ll lc lk lv lr (went_left c k v r ∷ path) rest vl
        (Below-child (went_left c k v r) (path ++ rest) lc ll lk lv lr al) (sym e, ar, vr, b, h) top

  -- A node that is found, and what is left of the tree without it.
  delete_node-IsBalanced :
      (c : Color) (l : Tree K V) (k : K) (v : V) (r : Tree K V) (path : List (Frame K V))
      → IsRedBlack (node c l k v r)
      → Below c path
      → Fits path (height (node c l k v r))
      → root_color path c ≡ black
      → IsRedBlack (delete_node c l k v r path) × (color_of (delete_node c l k v r path) ≡ black)
  unfolding delete_node
  delete_node-IsBalanced c leaf k v r path (al, ar, e, vl, vr) b h top =
      fix_if_black-IsBalanced c path r (vr, ar, b, subst (Fits path) (omega (arith, e)) h, top)
  delete_node-IsBalanced c (node lc ll lk lv lr) k v leaf path (al, ar, e, vl, vr) b h top =
      fix_if_black-IsBalanced c path (node lc ll lk lv lr) (vl, al, b, h, top)
  delete_node-IsBalanced c (node lc ll lk lv lr) k v (node rc rl rk rv rr) path (al, ar, e, vl, vr)
        b h top =
      let (yc, yk, yv, x, inner) = minimum rc rl rk rv rr [] in
      let y : Frame K V = went_right c yk yv (node lc ll lk lv lr) in
      fix_if_black-IsBalanced yc (inner ++ y ∷ path) x (
        minimum-Place rl rc rk rv rr [] (y ∷ path) vr (Below-child y path rc rl rk rv rr ar)
          (e, al, vl, b, subst (Fits path) (omega (arith, e)) h) top)

  delete_at-IsBalanced :
      (t : Tree K V) (path : List (Frame K V))
      → IsRedBlack t
      → Below (color_of t) path
      → Fits path (height t)
      → root_color path (color_of t) ≡ black
      → IsRedBlack (delete_at (t, path)).0 × (color_of (delete_at (t, path)).0 ≡ black)
  unfolding delete_at
  delete_at-IsBalanced leaf path v b h top =
      (plug-IsRedBlack path leaf v b h, color_of-plug path leaf ∙ top)
  delete_at-IsBalanced (node c l k x r) path v b h top =
      delete_node-IsBalanced c l k x r path v b h top

module _ {K V : Type 0} (cmp : K → K → Ordering) where
  -- `Delete` keeps a tree red-black, with a black root.
  pub delete-IsBalanced : (t : RbTree K V) (key : K) → IsBalanced t → IsBalanced (delete cmp t key)
  unfolding delete
  delete-IsBalanced t key v =
      let order = order_of cmp t in
      let (v', b', h') = descend-Fits order key t.root [] v.shape (Below-root t.root) tt in
      let (t', path) = descend order key t.root [] in
      let (shape, top) =
        delete_at-IsBalanced t' path v' b' h' (descend-root order key t.root [] ∙ v.root_black) in
      record { shape = shape; root_black = top }
