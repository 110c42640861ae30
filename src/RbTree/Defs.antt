-- ===== src/RbTree/Defs.antt =====
-- internal/orderbook/rbtree.go: nodes, rotations, and the way up. The sentinel `nilNode` is `leaf`,
-- which is black. The `parent` pointers of the nodes above a node are the list of frames from that
-- node up to the root, nearest first.
use matchengine.Prelude.{ℕ, Bool, true, false, Ordering, lt, eq, gt, List, [], ◌∷◌}

-- `red = true`, `black = false`
pub data Color : Type 0 where
  red black : Color

pub data Tree (K V : Type 0) : Type 0 where
  leaf : Tree K V
  node : Color → Tree K V → K → V → Tree K V → Tree K V

pub data Side : Type 0 where
  left right : Side

-- A node above the place one looks at: which child one came from, and the rest of that node.
pub record Frame (K V : Type 0) : Type 0 where
  pub side : Side
  pub color : Color
  pub key : K
  pub value : V
  pub sibling : Tree K V

-- `size` is decremented only for a node that was found.
pub record RbTree (K V : Type 0) : Type 0 where
  pub root : Tree K V
  pub size : ℕ
  pub desc : Bool

abbrev pub is_red : Color → Bool
is_red red = true
is_red black = false

-- Go's `t.compare(cmp)`
unfoldable pub compare_to : Bool → Ordering → Ordering
compare_to true lt = gt
compare_to true eq = eq
compare_to true gt = lt
compare_to false c = c

module _ {K V : Type 0} where
  -- The frame of a node that one left to its left, or to its right.
  abbrev pub went_left : Color → K → V → Tree K V → Frame K V
  went_left c k v r = record { side = left; color = c; key = k; value = v; sibling = r }

  abbrev pub went_right : Color → K → V → Tree K V → Frame K V
  went_right c k v l = record { side = right; color = c; key = k; value = v; sibling = l }

  unfoldable pub new_rb_tree : Bool → RbTree K V
  new_rb_tree desc = record { root = leaf; size = 0; desc = desc }

  abbrev pub color_of : Tree K V → Color
  color_of leaf = black
  color_of (node c l k v r) = c

  abbrev pub is_leaf : Tree K V → Bool
  is_leaf leaf = true
  is_leaf (node c l k v r) = false

  abbrev pub left_of : Tree K V → Tree K V
  left_of leaf = leaf
  left_of (node c l k v r) = l

  abbrev pub right_of : Tree K V → Tree K V
  right_of leaf = leaf
  right_of (node c l k v r) = r

  unfoldable pub set_color : Color → Tree K V → Tree K V
  set_color c leaf = leaf
  set_color c (node _ l k v r) = node c l k v r

  unfoldable pub set_left_color : Color → Tree K V → Tree K V
  set_left_color c leaf = leaf
  set_left_color c (node d l k v r) = node d (set_color c l) k v r

  unfoldable pub set_right_color : Color → Tree K V → Tree K V
  set_right_color c leaf = leaf
  set_right_color c (node d l k v r) = node d l k v (set_color c r)

  -- The nodes keep their colours: `y` takes the place of `x`.
  unfoldable pub left_rotate : Tree K V → Tree K V
  left_rotate (node xc a xk xv (node yc b yk yv c)) = node yc (node xc a xk xv b) yk yv c
  left_rotate t = t

  unfoldable pub right_rotate : Tree K V → Tree K V
  right_rotate (node xc (node yc a yk yv b) xk xv c) = node yc a yk yv (node xc b xk xv c)
  right_rotate t = t

  -- The parent node, with `t` at the place one came from.
  unfoldable pub attach : Frame K V → Tree K V → Tree K V
  attach f t = elim f.side [
    | left ↦ node f.color t f.key f.value f.sibling
    | right ↦ node f.color f.sibling f.key f.value t
  ]

  -- The whole tree again.
  unfoldable pub plug : List (Frame K V) → Tree K V → Tree K V
  plug [] t = t
  plug (f ∷ path) t = plug path (attach f t)
