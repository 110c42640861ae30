-- ===== src/OrderBook/Snapshot.antt =====
-- `GetDepth` of internal/orderbook/orderbook.go against the levels of the two trees.
use matchengine.Prelude.{
  ℕ, zero, suc, ◌+◌, ◌≡◌, refl, sym, ap, ◌∙◌, arith, Bool, true, false, leb, List, [], ◌∷◌, ◌++◌,
  map, take, append-nil, append_assoc, if◌then◌else◌, some, none,
}
use matchengine.Prelude.Int.{pos}
use matchengine.RbTree
use matchengine.Decimal.{Decimal}
use matchengine.RbTree.Valid.{entries}
use matchengine.RbTree.Ends.{walk, ascend_lem}
use matchengine.Models.Market.{Depth, DepthLevel}
use matchengine.Store.{Store, Env}
use matchengine.OrderBook.Book.{OrderBook, collect_level, get_depth}

module _ {K V S : Type 0} (callback : K → V → S → Bool × S) where
  walk_stops :
      (k : K) (v : V) (es : List (K × V)) (s s' : S)
      → callback k v s ≡ (false, s')
      → walk callback ((k, v) ∷ es) s ≡ (false, s')
  walk_stops k v es s s' h = ground (arith, h)

  walk_goes_on :
      (k : K) (v : V) (es : List (K × V)) (s s' : S)
      → callback k v s ≡ (true, s')
      → walk callback ((k, v) ∷ es) s ≡ walk callback es s'
  walk_goes_on k v es s s' h = ground (arith, h)

module _ {A : Type 0} ⦃d : Decimal A⦄ where
  abbrev pub depth_level : Store A → A × ℕ → DepthLevel A
  depth_level st e = record { price = e.0; amount = (st.levels e.1).total }

  -- What a walk collects that still has room for `room` levels.
  collects :
      (st : Store A) (limit room count : ℕ) (es : List (A × ℕ)) (found : List (DepthLevel A))
      → limit ≡ count + room
      → (walk (collect_level st limit) es (found, count)).1.0
        ≡ found ++ map (depth_level st) (take room es)
  collects st limit zero count [] found h = sym (append-nil found)
  collects st limit (suc room) count [] found h = sym (append-nil found)
  collects st limit zero count ((p, l) ∷ es) found h =
      let full : leb limit count ≡ true = ground (arith, h) in
      ap (λ r. r.1.0)
        (walk_stops (collect_level st limit) p l es (found, count) (found, count)
          (unfold collect_level in rw full refl))
      ∙ sym (append-nil found)
  collects st limit (suc room) count ((p, l) ∷ es) found h =
      let room_left : leb limit count ≡ false = ground (arith, h) in
      let next = found ++ depth_level st (p, l) ∷ [] in
      ap (λ r. r.1.0)
        (walk_goes_on (collect_level st limit) p l es (found, count) (next, suc count)
          (unfold collect_level in rw room_left refl))
      ∙ collects st limit room (suc count) es next (omega (arith, h))
      ∙ append_assoc found (depth_level st (p, l) ∷ []) (map (depth_level st) (take room es))

  -- What `GetDepth` shows for a limit that `make` allows: on each side the first so many levels of the
  -- tree in its direction, each with its price as the key and its total.
  abbrev pub first_levels : Store A → OrderBook A → ℕ → Depth A
  first_levels st ob limit = record {
    symbol = ob.symbol;
    bids = map (depth_level st) (take limit (entries ob.bids));
    asks = map (depth_level st) (take limit (entries ob.asks));
  }

  -- `GetDepth` shows the first levels, or panics.
  pub get_depth_lem :
      (env : Env) (st : Store A) (ob : OrderBook A) (limit : ℕ)
      → get_depth env st ob (pos limit)
        ≡ (if leb limit env.max_capacity then some (first_levels st ob limit) else none)
  unfolding get_depth
  get_depth_lem env st ob limit =
      let bids : (RbTree.ascend (collect_level st limit) ob.bids ([], 0)).0
          ≡ map (depth_level st) (take limit (entries ob.bids)) =
        ap (λ p. p.0) (ascend_lem (collect_level st limit) ob.bids ([], 0))
        ∙ collects st limit limit 0 (entries ob.bids) [] (omega arith) in
      let asks : (RbTree.ascend (collect_level st limit) ob.asks ([], 0)).0
          ≡ map (depth_level st) (take limit (entries ob.asks)) =
        ap (λ p. p.0) (ascend_lem (collect_level st limit) ob.asks ([], 0))
        ∙ collects st limit limit 0 (entries ob.asks) [] (omega arith) in
      rw (bids, asks) refl
