-- ===== src/Matching/Side.antt =====
-- The side of the book that a taker matches against: its levels best first, each ready.
use matchengine.Prelude.{
  ℕ, ◌≡◌, ◌≢◌, refl, ◌∙◌, Bool, true, false, if◌then◌else◌, not, List, [], ◌∷◌, All, some, none,
}
use matchengine.Decimal.{Decimal}
use matchengine.RbTree
use matchengine.RbTree.{RbTree}
use matchengine.RbTree.Valid.{IsValid, entries}
use matchengine.RbTree.Ends.{first_entry_lem}
use matchengine.Models.Fills.{IsBalanced, IsOpen}
use matchengine.Store.{Element, Store}
use matchengine.OrderBook.{OrderBook}
use matchengine.Matching.Fill.{best_opposite}
use matchengine.Matching.Ready.{Ready, Distinct}

module _ {A : Type 0} where
  abbrev pub opposite_tree : Bool → OrderBook A → RbTree A ℕ
  opposite_tree buys ob = if buys then ob.asks else ob.bids

  abbrev pub queue_of : Store A → A × ℕ → List Element
  queue_of st e = (st.levels e.1).orders

module _ {A : Type 0} ⦃d : Decimal A⦄ where
  -- One level with its price, apart from the taker.
  pub record LevelReady (st : Store A) (taker : ℕ) (e : A × ℕ) : Type 0 where
    pub price : (st.levels e.1).price ≡ e.0
    pub makers : All (λ x. IsOpen (st.orders x.order)) (queue_of st e)
    pub apart : All (λ x. x.order ≢ taker) (queue_of st e)
    pub distinct : Distinct (queue_of st e)

  -- Two levels share neither their reference nor an order.
  pub record Disjoint (st : Store A) (e f : A × ℕ) : Type 0 where
    pub levels : f.1 ≢ e.1
    pub orders : All (λ y. All (λ x. x.order ≢ y.order) (queue_of st e)) (queue_of st f)

  abbrev pub AllDisjoint : Store A → List (A × ℕ) → Type 0
  AllDisjoint st [] = Unit
  AllDisjoint st (e ∷ es) = All (Disjoint st e) es × AllDisjoint st es

  pub record SideReady (st : Store A) (ob : OrderBook A) (buys : Bool) (taker : ℕ)
      (es : List (A × ℕ)) : Type 0 where
    pub direction : (opposite_tree buys ob).desc ≡ not buys
    pub valid : IsValid d.cmp (opposite_tree buys ob)
    pub levels : entries (opposite_tree buys ob) ≡ es
    pub each : All (LevelReady st taker) es
    pub disjoint : AllDisjoint st es
    pub taker_balanced : IsBalanced (st.orders taker)

  -- The best level is the first.
  best_of_entries :
      (buys : Bool) (ob : OrderBook A)
      → (opposite_tree buys ob).desc ≡ not buys
      → best_opposite buys ob ≡ RbTree.value_of (RbTree.first_entry (opposite_tree buys ob).root)
  unfolding best_opposite RbTree.min_level RbTree.max_level
  best_of_entries true ob h = rw h
  best_of_entries false ob h = rw h

  pub best_opposite-first :
      (st : Store A) (ob : OrderBook A) (buys : Bool) (taker : ℕ) (e : A × ℕ) (es : List (A × ℕ))
      → SideReady st ob buys taker (e ∷ es)
      → best_opposite buys ob ≡ some e.1
  best_opposite-first st ob buys taker e es s =
      best_of_entries buys ob s.direction
      ∙ rw (first_entry_lem (opposite_tree buys ob).root, s.levels) refl

  pub best_opposite-none :
      (st : Store A) (ob : OrderBook A) (buys : Bool) (taker : ℕ)
      → SideReady st ob buys taker []
      → best_opposite buys ob ≡ none
  best_opposite-none st ob buys taker s =
      best_of_entries buys ob s.direction
      ∙ rw (first_entry_lem (opposite_tree buys ob).root, s.levels) refl

  -- The first level, as the inner loop wants it.
  pub first-Ready :
      (st : Store A) (ob : OrderBook A) (buys : Bool) (taker : ℕ) (e : A × ℕ) (es : List (A × ℕ))
      → SideReady st ob buys taker (e ∷ es)
      → Ready st taker e.1 (queue_of st e)
  first-Ready st ob buys taker e es s = record {
    queue = refl;
    makers = s.each.0.makers;
    apart = s.each.0.apart;
    distinct = s.each.0.distinct;
    taker_balanced = s.taker_balanced;
  }
