-- ===== src/Tests/Trees.antt =====
-- A tree of bids at two prices, the best first.
use matchengine.Prelude.{
  ℕ, ◌+◌, ◌*◌, ◌^◌, ◌≤◌, length, ◌≡◌, ◌≢◌, ltb, refl, lt, gt, Bool, true, [], All, some, none,
}
use matchengine.Prelude.Int.{ℤ, pos}
use matchengine.Decimal.Milli.{milli}
use matchengine.RbTree
use matchengine.RbTree.{RbTree}
use matchengine.RbTree.Valid.{
  IsValid, entries, get-insert, get-delete, insert-IsValid, delete-IsValid, new_rb_tree-IsValid,
}
use matchengine.RbTree.Balance.{IsBalanced, new_rb_tree-IsBalanced}
use matchengine.RbTree.Balance.Grow.{insert-IsBalanced}
use matchengine.RbTree.Balance.Erase.{delete-IsBalanced}
use matchengine.RbTree.Balance.Depth.{descend-IsBalanced}
use matchengine.RbTree.Ends.{walk, min_level_lem, max_level_lem, ascend_lem}

bids : RbTree ℤ ℕ
bids =
    RbTree.insert milli.cmp (RbTree.insert milli.cmp (RbTree.new_rb_tree true) (pos 100) 7)
      (pos 102) 8

bids-IsValid : IsValid milli.cmp bids
unfolding bids
bids-IsValid =
    insert-IsValid milli.ordered (RbTree.insert milli.cmp (RbTree.new_rb_tree true) (pos 100) 7)
      (pos 102) 8
      (insert-IsValid milli.ordered (RbTree.new_rb_tree true) (pos 100) 7
        (new_rb_tree-IsValid milli.ordered true))

get-insert_example :
    RbTree.get milli.cmp (RbTree.insert milli.cmp bids (pos 101) 9) (pos 101) ≡ some 9
unfolding milli
get-insert_example = get-insert milli.ordered bids (pos 101) 9 (pos 101) bids-IsValid

get-delete_example : RbTree.get milli.cmp (RbTree.delete milli.cmp bids (pos 102)) (pos 102) ≡ none
unfolding milli
get-delete_example = get-delete milli.ordered bids (pos 102) (pos 102) bids-IsValid

insert-IsValid_example : IsValid milli.cmp (RbTree.insert milli.cmp bids (pos 101) 9)
insert-IsValid_example = insert-IsValid milli.ordered bids (pos 101) 9 bids-IsValid

delete-IsValid_example : IsValid milli.cmp (RbTree.delete milli.cmp bids (pos 100))
delete-IsValid_example = delete-IsValid milli.ordered bids (pos 100) bids-IsValid

ends : (RbTree.max_level bids ≡ some 8) × (RbTree.min_level bids ≡ some 7)
unfolding bids milli RbTree.max_level RbTree.min_level RbTree.insert RbTree.insert_at RbTree.descend
    RbTree.insert_fixup RbTree.plug RbTree.set_color RbTree.new_rb_tree RbTree.compare_to
    RbTree.leftmost RbTree.rightmost RbTree.attach
ends = (refl, refl)

max_level_lem_example :
    (k : ℤ) × (RbTree.get milli.cmp bids k ≡ some 8)
    × All (λ e. milli.cmp e.0 k ≢ gt) (entries bids)
max_level_lem_example = max_level_lem milli.ordered bids 8 bids-IsValid ends.0

min_level_lem_example :
    (k : ℤ) × (RbTree.get milli.cmp bids k ≡ some 7)
    × All (λ e. milli.cmp e.0 k ≢ lt) (entries bids)
min_level_lem_example = min_level_lem milli.ordered bids 7 bids-IsValid ends.1

-- Sums the levels up to the second.
abbrev first_two : ℤ → ℕ → ℕ → Bool × ℕ
first_two k v s = (ltb s 8, s + v)

ascend_lem_example : RbTree.ascend first_two bids 0 ≡ (walk first_two (entries bids) 0).1
ascend_lem_example = ascend_lem first_two bids 0

bids-IsBalanced : IsBalanced bids
unfolding bids
bids-IsBalanced =
    insert-IsBalanced milli.cmp (RbTree.insert milli.cmp (RbTree.new_rb_tree true) (pos 100) 7)
      (pos 102) 8
      (insert-IsBalanced milli.cmp (RbTree.new_rb_tree true) (pos 100) 7
        (new_rb_tree-IsBalanced true))

insert-IsBalanced_example : IsBalanced (RbTree.insert milli.cmp bids (pos 101) 9)
insert-IsBalanced_example = insert-IsBalanced milli.cmp bids (pos 101) 9 bids-IsBalanced

delete-IsBalanced_example : IsBalanced (RbTree.delete milli.cmp bids (pos 100))
delete-IsBalanced_example = delete-IsBalanced milli.cmp bids (pos 100) bids-IsBalanced

descend-IsBalanced_example :
    (n : ℕ) × (2 ^ n ≤ bids.size + 1)
    × ((key : ℤ)
        → length (RbTree.descend (RbTree.order_of milli.cmp bids) key bids.root []).1 ≤ 2 * n)
descend-IsBalanced_example = descend-IsBalanced milli.cmp bids bids-IsBalanced bids-IsValid
