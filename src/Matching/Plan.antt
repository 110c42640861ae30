-- ===== src/Matching/Plan.antt =====
-- Price-time priority, as a function on amounts: what a taker gets from the levels of the opposite
-- side, best price first and in each level first come first, and the loop's outcome against it.
use matchengine.Prelude.{
  ℕ, ◌≡◌, refl, arith, Bool, true, false, if◌then◌else◌, List, [], ◌∷◌, ◌++◌, map, All, ◌⊎◌,
}
use matchengine.Decimal.{Decimal, greater_than}
use matchengine.Models.Order.{is_buy}
use matchengine.Models.Trade.{Trade, TradeResult}
use matchengine.Models.Fills.{SameTerms}
use matchengine.Store.{Store}
use matchengine.Matching.Limit.{Matched}
use matchengine.Matching.Ready.{remains}
use matchengine.Matching.Crossing.{cross, sub_all, Swept}
use matchengine.Matching.Side.{queue_of, Disjoint, LevelReady, SideReady}
use matchengine.Matching.Cleared.{remains-after}

module _ {A : Type 0} ⦃d : Decimal A⦄ where
  -- A level's price and the amounts of its orders.
  abbrev pub view : Store A → List (A × ℕ) → List (A × List A)
  view st es = map (λ e. (e.0, remains st (queue_of st e))) es

  -- The price and the amount of each trade, until the taker is filled or a level is refused.
  unfoldable pub plan : (A → Bool) → A → List (A × List A) → List (A × A)
  plan refuse r [] = []
  plan refuse r ((p, ms) ∷ ls) =
      let taken = cross r ms in
      let rest = plan refuse (sub_all r taken) ls in
      if greater_than r d.zero then if refuse p then [] else map (λ a. (p, a)) taken ++ rest else []

  abbrev pub price_amount : Trade A → A × A
  price_amount t = (t.price, t.amount)

  pub plan_stops :
      (refuse : A → Bool) (r : A) (ls : List (A × List A))
      → greater_than r d.zero ≡ false
      → plan refuse r ls ≡ []
  unfolding plan
  plan_stops refuse r [] h = refl
  plan_stops refuse r ((p, ms) ∷ ls) h = rw h

  pub plan_refused :
      (refuse : A → Bool) (r p : A) (ms : List A) (ls : List (A × List A))
      → refuse p ≡ true
      → plan refuse r ((p, ms) ∷ ls) ≡ []
  unfolding plan
  plan_refused refuse r p ms ls h = ground (arith, h)

  pub plan_first :
      (refuse : A → Bool) (r p : A) (ms : List A) (ls : List (A × List A))
      → greater_than r d.zero ≡ true
      → refuse p ≡ false
      → plan refuse r ((p, ms) ∷ ls)
        ≡ map (λ a. (p, a)) (cross r ms) ++ plan refuse (sub_all r (cross r ms)) ls
  unfolding plan
  plan_first refuse r p ms ls h k = rw (h, k)

  -- Trades of one level.
  pub at_one_price :
      (p : A) (ts : List (Trade A))
      → All (λ t. t.price ≡ p) ts
      → map price_amount ts ≡ map (λ a. (p, a)) (map (λ t. t.amount) ts)
  at_one_price p [] h = refl
  at_one_price p (t ∷ ts) h = rw (h.0, at_one_price p ts h.1)

  pub sub_all-append : (r : A) (xs ys : List A) → sub_all r (xs ++ ys) ≡ sub_all (sub_all r xs) ys
  unfolding sub_all
  sub_all-append r [] ys = refl
  sub_all-append r (x ∷ xs) ys = sub_all-append (d.sub r x) xs ys

  -- The levels behind the first look the same after it was swept.
  pub view-after :
      {st : Store A} {result : TradeResult A} {taker : ℕ} (e : A × ℕ)
      {r : Bool × Store A × TradeResult A} (s : Swept st result taker e.1 (queue_of st e) r)
      (es : List (A × ℕ))
      → All (Disjoint st e) es
      → All (LevelReady st taker) es
      → view r.1 es ≡ view st es
  view-after e s [] h v = refl
  view-after {st} e {r} s (f ∷ es) h v = rw (remains-after e s f h.0 v.0, view-after e s es h.1 v.1)

  -- What a loop over the levels did to a taker: it ended because the taker is filled, or no level is
  -- left, or the best one is refused.
  pub record Walked (refuse : A → Bool) (m : Matched A) (taker : ℕ) (es : List (A × ℕ))
      (m' : Matched A) : Type 0 where
    pub new : List (Trade A)
    pub rest : List (A × ℕ)
    pub trades : m'.result.trades ≡ m.result.trades ++ new
    pub planned :
        map price_amount new ≡ plan refuse (m.store.orders taker).remain_amount (view m.store es)
    pub remain :
        (m'.store.orders taker).remain_amount
        ≡ sub_all (m.store.orders taker).remain_amount (map (λ t. t.amount) new)
    pub terms : SameTerms (m.store.orders taker) (m'.store.orders taker)
    pub side : SideReady m'.store m'.book (is_buy (m.store.orders taker)) taker rest
    pub ends :
        (greater_than (m'.store.orders taker).remain_amount d.zero ≡ false)
        ⊎ (rest ≡ [])
        ⊎ ((e : A × ℕ) × (es' : List (A × ℕ)) × (rest ≡ e ∷ es') × (refuse e.0 ≡ true))
