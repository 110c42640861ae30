-- ===== src/RbTree/Balance/Grow.antt =====
-- `Insert` of internal/orderbook/rbtree.go and the colours.
use matchengine.Prelude.{◌+◌, ◌≡◌, refl, ap, ◌∙◌, Ordering, List, [], ◌∷◌, inl, inr, ◌⊎◌, arith}
use matchengine.RbTree.Defs.{
  Color, red, black, Tree, leaf, node, Frame, RbTree, is_red, color_of, set_color, attach, plug,
  left_rotate, right_rotate, went_left, went_right,
}
use matchengine.RbTree.Insert.{rotate_up, insert_fixup, descend, insert_at, insert, order_of}
use matchengine.RbTree.Balance.{
  height, Below, IsRedBlack, Fits, IsBalanced, root_color, color_of-plug, color_of-set_color,
  Below-root, plug-IsRedBlack, black-IsRedBlack,
}

pub Color-cases : (c : Color) → (c ≡ red) ⊎ (c ≡ black)
Color-cases red = inl refl
Color-cases black = inr refl

module _ {K V : Type 0} where
  -- The rotations, when the parent is red, the grandparent and the uncle black.
  rotate_up-IsRedBlack :
      (t : Tree K V) (p g : Frame K V) (path : List (Frame K V))
      → IsRedBlack t
      → color_of t ≡ red
      → p.color ≡ red
      → color_of g.sibling ≡ black
      → Fits (p ∷ g ∷ path) (height t)
      → IsRedBlack (rotate_up t p g)
        × (height (rotate_up t p g) ≡ height t + 1)
        × (color_of (rotate_up t p g) ≡ black)
  unfolding rotate_up attach left_rotate right_rotate set_color
  rotate_up-IsRedBlack leaf p g path v t_red p_red uncle h = cc
  rotate_up-IsRedBlack (node c a k x b) p g path v t_red p_red uncle h = ground arith

  -- The uncle is red: the node that the loop goes on with.
  recolored :
      (t : Tree K V) (p g : Frame K V) (path : List (Frame K V))
      → IsRedBlack t
      → p.color ≡ red
      → color_of g.sibling ≡ red
      → Fits (p ∷ g ∷ path) (height t)
      → let t' =
          attach
            (record g { color = red; sibling = set_color black g.sibling })
            (attach (record p { color = black }) t) in
        IsRedBlack t' × (color_of t' ≡ red) × Fits path (height t')
  unfolding attach set_color
  recolored t p g path v p_red uncle h = ground arith

  -- The parent is black: nothing is to be done.
  stays :
      (p : Frame K V) (path : List (Frame K V)) (t : Tree K V)
      → IsRedBlack t
      → p.color ≡ black
      → Fits (p ∷ path) (height t)
      → IsRedBlack (set_color black (plug (p ∷ path) t))
  stays p path t v p_black h =
      black-IsRedBlack (plug (p ∷ path) t) (plug-IsRedBlack (p ∷ path) t v (ground arith) h)

  -- The uncle is black: the loop ends with the rotations.
  turned :
      (p g : Frame K V) (path : List (Frame K V)) (t : Tree K V)
      → IsRedBlack t
      → color_of t ≡ red
      → p.color ≡ red
      → color_of g.sibling ≡ black
      → Fits (p ∷ g ∷ path) (height t)
      → IsRedBlack (set_color black (plug path (rotate_up t p g)))
  turned p g path t v t_red p_red uncle h =
      let (v', h', c') = rotate_up-IsRedBlack t p g path v t_red p_red uncle h in
      black-IsRedBlack (plug path (rotate_up t p g))
        (plug-IsRedBlack path (rotate_up t p g) v' (rw c' tt) (rw h' (ground arith)))

  pub insert_fixup-IsRedBlack :
      (path : List (Frame K V)) (t : Tree K V)
      → IsRedBlack t
      → color_of t ≡ red
      → Fits path (height t)
      → IsRedBlack (insert_fixup path t)
  unfolding insert_fixup
  insert_fixup-IsRedBlack [] t v t_red h = black-IsRedBlack t v
  insert_fixup-IsRedBlack (p ∷ []) t v t_red h = unfold attach set_color in ground arith
  insert_fixup-IsRedBlack (p ∷ g ∷ path) t v t_red h =
      let t' =
        attach (record g { color = red; sibling = set_color black g.sibling })
          (attach (record p { color = black }) t) in
      elim (Color-cases p.color) [
        | inr p_black ↦ rw (ap is_red p_black) (stays p (g ∷ path) t v p_black h)
        | inl p_red ↦ elim (Color-cases (color_of g.sibling)) [
          | inr uncle_black ↦
              rw (ap is_red p_red)
                (rw (ap is_red uncle_black) (turned p g path t v t_red p_red uncle_black h))
          | inl uncle_red ↦
              let (v', c', h') = recolored t p g path v p_red uncle_red h in
              rw (ap is_red p_red)
                (rw (ap is_red uncle_red) (insert_fixup-IsRedBlack path t' v' c' h'))
        ]
      ]

module _ {K V : Type 0} (cmp : K → K → Ordering) where
  -- Where the descent ends: what is there, and the frames round it.
  pub descend-Fits :
      (key : K) (t : Tree K V) (path : List (Frame K V))
      → IsRedBlack t
      → Below (color_of t) path
      → Fits path (height t)
      → let (t', path') = descend cmp key t path in
        IsRedBlack t' × Below (color_of t') path' × Fits path' (height t')
  unfolding descend
  descend-Fits key leaf path v b h = (v, b, h)
  descend-Fits key (node c l k x r) path v b h = ground (
    arith,
    descend-Fits key l (went_left c k x r ∷ path),
    descend-Fits key r (went_right c k x l ∷ path),
  )

  pub descend-root :
      (key : K) (t : Tree K V) (path : List (Frame K V))
      → let (t', path') = descend cmp key t path in
        root_color path' (color_of t') ≡ root_color path (color_of t)
  unfolding descend
  descend-root key leaf path = refl
  descend-root key (node c l k x r) path = ground (
    arith,
    descend-root key l (went_left c k x r ∷ path),
    descend-root key r (went_right c k x l ∷ path),
  )

  insert_fixup-black :
      (path : List (Frame K V)) (t : Tree K V) → color_of (insert_fixup path t) ≡ black
  unfolding insert_fixup
  insert_fixup-black [] t = color_of-set_color t
  insert_fixup-black (p ∷ []) t = color_of-set_color (attach p t)
  insert_fixup-black (p ∷ g ∷ path) t = ground (
    arith,
    insert_fixup-black path (
        attach (record g { color = red; sibling = set_color black g.sibling })
          (attach (record p { color = black }) t)),
    color_of-set_color (plug path (rotate_up t p g)),
    color_of-set_color (plug (p ∷ g ∷ path) t),
  )

  insert_at-IsRedBlack :
      (key : K) (value : V) (t : Tree K V) (path : List (Frame K V))
      → IsRedBlack t
      → Below (color_of t) path
      → Fits path (height t)
      → root_color path (color_of t) ≡ black
      → IsRedBlack (insert_at cmp key value (t, path)).0
        × (color_of (insert_at cmp key value (t, path)).0 ≡ black)
  unfolding insert_at
  insert_at-IsRedBlack key value leaf path v b h top = (
    insert_fixup-IsRedBlack path (node red leaf key value leaf) (refl, refl, refl, tt, tt) refl h,
    insert_fixup-black path (node red leaf key value leaf),
  )
  insert_at-IsRedBlack key value (node c l k x r) path v b h top = (
    plug-IsRedBlack path (node c l k value r) v b h,
    color_of-plug path (node c l k value r) ∙ top,
  )

module _ {K V : Type 0} (cmp : K → K → Ordering) where
  -- `Insert` keeps a tree red-black.
  pub insert-IsBalanced :
      (t : RbTree K V) (key : K) (value : V) → IsBalanced t → IsBalanced (insert cmp t key value)
  unfolding insert
  insert-IsBalanced t key value v =
      let order = order_of cmp t in
      let (v', b', h') = descend-Fits order key t.root [] v.shape (Below-root t.root) tt in
      let (t', path) = descend order key t.root [] in
      let (shape, top) =
        insert_at-IsRedBlack order key value t' path v' b' h'
          (descend-root order key t.root [] ∙ v.root_black) in
      record { shape = shape; root_black = top }
