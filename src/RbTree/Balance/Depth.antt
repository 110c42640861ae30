-- ===== src/RbTree/Balance/Depth.antt =====
-- How far `search`, `Insert` and `Delete` of internal/orderbook/rbtree.go go down a balanced tree.
use native.Mathlib.Numerals.{towards_suc}
use matchengine.Prelude.{
  ℕ, ◌+◌, ◌*◌, ◌^◌, ◌≤◌, ◌≡◌, Ordering, List, [], ◌∷◌, length, length-append, arith,
}
use matchengine.RbTree.Defs.{Tree, leaf, node, Frame, RbTree, went_left, went_right, color_of}
use matchengine.RbTree.Insert.{descend, order_of}
use matchengine.RbTree.InOrder.{to_list}
use matchengine.RbTree.Valid.{IsValid}
use matchengine.RbTree.Balance.{weight, height, IsRedBlack, IsBalanced}

pow-add_one : (n : ℕ) → 2 ^ (n + 1) ≡ 2 ^ n + 2 ^ n
pow-add_one n = simp towards_suc (omega arith)

module _ {K V : Type 0} where
  -- Every way down has at most two nodes for each black one, and one more if it begins with a red one.
  descend-le :
      (order : K → K → Ordering) (key : K) (t : Tree K V) (path : List (Frame K V))
      → IsRedBlack t
      → length (descend order key t path).1 + weight (color_of t) ≤ length path + 2 * height t + 1
  unfolding descend
  descend-le order key leaf path v = omega arith
  descend-le order key (node c l k x r) path v = ground (
    arith,
    descend-le order key l (went_left c k x r ∷ path),
    descend-le order key r (went_right c k x l ∷ path),
  )

  -- A tree with so many black nodes on each way down has that many entries.
  entries-ge : (t : Tree K V) → IsRedBlack t → 2 ^ height t ≤ length (to_list t) + 1
  entries-ge leaf v = omega arith
  entries-ge (node c l k x r) (al, ar, e, vl, vr) = ground (
    arith,
    length-append (to_list l) ((k, x) ∷ to_list r),
    entries-ge l vl,
    entries-ge r vr,
    pow-add_one (height l),
    e,
  )

  -- In a balanced and valid tree, the number of nodes that the way to any key passes is at most twice a
  -- number whose power of two is at most one more than the size.
  pub descend-IsBalanced :
      (cmp : K → K → Ordering) (t : RbTree K V)
      → IsBalanced t
      → IsValid cmp t
      → (n : ℕ) × (2 ^ n ≤ t.size + 1)
        × ((key : K) → length (descend (order_of cmp t) key t.root []).1 ≤ 2 * n)
  descend-IsBalanced cmp t b v = (
    height t.root,
    omega (arith, v.counted, entries-ge t.root b.shape),
    λ key. ground (arith, descend-le (order_of cmp t) key t.root [] b.shape, b.root_black),
  )
