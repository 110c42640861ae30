-- ===== src/RbTree/Balance.antt =====
-- The colours of internal/orderbook/rbtree.go: no red node has a red child, and every way down passes
-- as many black nodes.
pub mod Grow
pub mod Turn
pub mod Shrink
pub mod Erase
pub mod Depth
use matchengine.Prelude.{
  ℕ, zero, suc, ◌+◌, ◌≡◌, ◌≢◌, refl, sym, subst, ap, ◌∙◌, List, [], ◌∷◌, arith, Bool,
}
use matchengine.RbTree.Defs.{
  Color, red, black, Tree, leaf, node, Side, left, right, Frame, RbTree, color_of, set_color,
  attach, plug, new_rb_tree,
}

abbrev pub weight : Color → ℕ
weight red = 0
weight black = 1

module _ {K V : Type 0} where
  -- The black nodes on the way down to the left.
  abbrev pub height : Tree K V → ℕ
  height leaf = 0
  height (node c l k v r) = height l + weight c

  -- A node of this colour may stand above such a tree.
  abbrev pub Above : Color → Tree K V → Type 0
  Above red t = color_of t ≡ black
  Above black t = Unit

  abbrev pub IsRedBlack : Tree K V → Type 0
  IsRedBlack leaf = Unit
  IsRedBlack (node c l k v r) =
      Above c l × Above c r × (height l ≡ height r) × IsRedBlack l × IsRedBlack r

  -- A tree of this colour may stand below such frames.
  abbrev pub Below : Color → List (Frame K V) → Type 0
  Below black path = Unit
  Below red [] = Unit
  Below red (f ∷ path) = f.color ≡ black

  -- Frames that are as they should be round a tree with `n` black nodes on each way down.
  abbrev pub Fits : List (Frame K V) → ℕ → Type 0
  Fits [] n = Unit
  Fits (f ∷ path) n =
      (height f.sibling ≡ n)
      × Above f.color f.sibling
      × IsRedBlack f.sibling
      × Below f.color path
      × Fits path (n + weight f.color)

  pub attach-IsRedBlack :
      (f : Frame K V) (path : List (Frame K V)) (t : Tree K V)
      → IsRedBlack t
      → Below (color_of t) (f ∷ path)
      → Fits (f ∷ path) (height t)
      → IsRedBlack (attach f t)
        × (height (attach f t) ≡ height t + weight f.color)
        × (color_of (attach f t) ≡ f.color)
  unfolding attach
  attach-IsRedBlack f path t v b h = ground arith

  pub plug-IsRedBlack :
      (path : List (Frame K V)) (t : Tree K V)
      → IsRedBlack t
      → Below (color_of t) path
      → Fits path (height t)
      → IsRedBlack (plug path t)
  unfolding plug
  plug-IsRedBlack [] t v b h = v
  plug-IsRedBlack (f ∷ path) t v b h =
      let (fits, above, sibling, below, rest) = h in
      let (v', h', c') = attach-IsRedBlack f path t v b h in
      plug-IsRedBlack path (attach f t) v' (subst (λ c. Below c path) (sym c') below)
        (subst (Fits path) (sym h') rest)

  pub black-IsRedBlack : (t : Tree K V) → IsRedBlack t → IsRedBlack (set_color black t)
  unfolding set_color
  black-IsRedBlack leaf v = v
  black-IsRedBlack (node c l k v r) w = let (a, b, h, vl, vr) = w in (tt, tt, h, vl, vr)

  -- The colour of the root of `plug path t`, for a tree `t` of colour `c`.
  abbrev pub root_color : List (Frame K V) → Color → Color
  root_color [] c = c
  root_color (f ∷ path) c = root_color path f.color

  color_of-attach : (f : Frame K V) (t : Tree K V) → color_of (attach f t) ≡ f.color
  unfolding attach
  color_of-attach f t = ground arith

  pub color_of-plug :
      (path : List (Frame K V)) (t : Tree K V)
      → color_of (plug path t) ≡ root_color path (color_of t)
  unfolding plug
  color_of-plug [] t = refl
  color_of-plug (f ∷ path) t =
      color_of-plug path (attach f t) ∙ ap (root_color path) (color_of-attach f t)

  pub color_of-set_color : (t : Tree K V) → color_of (set_color black t) ≡ black
  unfolding set_color
  color_of-set_color leaf = refl
  color_of-set_color (node c l k v r) = refl

  pub Below-root : (t : Tree K V) → let path : List (Frame K V) = [] in Below (color_of t) path
  Below-root leaf = tt
  Below-root (node red l k v r) = tt
  Below-root (node black l k v r) = tt

  -- A red-black tree with a black root.
  pub record IsBalanced (t : RbTree K V) : Type 0 where
    pub shape : IsRedBlack t.root
    pub root_black : color_of t.root ≡ black

  pub new_rb_tree-IsBalanced : (desc : Bool) → IsBalanced (new_rb_tree desc)
  unfolding new_rb_tree
  new_rb_tree-IsBalanced desc = record { shape = tt; root_black = refl }
