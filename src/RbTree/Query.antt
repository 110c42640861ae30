-- ===== src/RbTree/Query.antt =====
-- internal/orderbook/rbtree.go: `Min`, `Max`, `Size`, `Ascend`.
use matchengine.Prelude.{ℕ, Bool, true, false, if◌then◌else◌, Option, none, some}
use matchengine.RbTree.Defs.{Tree, leaf, node, RbTree}

module _ {K V : Type 0} where
  -- `for node.left != t.nilNode { node = node.left }`, from a node with these parts.
  unfoldable pub leftmost : Tree K V → K → V → K × V
  leftmost leaf k v = (k, v)
  leftmost (node c l lk lv r) k v = leftmost l lk lv

  unfoldable pub rightmost : Tree K V → K → V → K × V
  rightmost leaf k v = (k, v)
  rightmost (node c l rk rv r) k v = rightmost r rk rv

  abbrev pub first_entry : Tree K V → Option (K × V)
  first_entry leaf = none
  first_entry (node c l k v r) = some (leftmost l k v)

  abbrev pub last_entry : Tree K V → Option (K × V)
  last_entry leaf = none
  last_entry (node c l k v r) = some (rightmost r k v)

  abbrev pub value_of : Option (K × V) → Option V
  value_of none = none
  value_of (some e) = some e.1

  unfoldable pub min_level : RbTree K V → Option V
  min_level t = value_of (if t.desc then last_entry t.root else first_entry t.root)

  unfoldable pub max_level : RbTree K V → Option V
  max_level t = value_of (if t.desc then first_entry t.root else last_entry t.root)

  unfoldable pub size : RbTree K V → ℕ
  size t = t.size

module _ {K V S : Type 0} (callback : K → V → S → Bool × S) where
  -- The callback reads and changes a state, and says whether to go on.
  unfoldable pub ascend_node : Tree K V → S → Bool × S
  ascend_node leaf s = (true, s)
  ascend_node (node c l k v r) s =
      let (go_left, after_left) = ascend_node l s in
      elim go_left [
        | false ↦ (false, after_left)
        | true ↦
            let (go_on, after) = callback k v after_left in
            elim go_on [ false ↦ (false, after) | true ↦ ascend_node r after ]
      ]

  unfoldable pub ascend : RbTree K V → S → S
  ascend t s = (ascend_node t.root s).1
