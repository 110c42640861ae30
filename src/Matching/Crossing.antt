-- ===== src/Matching/Crossing.antt =====
-- What a taker takes from a queue in internal/matching/limit.go: crossing amounts first in, first out, and the
-- state after a level was swept.
use matchengine.Prelude.{
  ℕ, ◌≡◌, ◌≢◌, refl, Bool, true, false, if◌then◌else◌, List, [], ◌∷◌, ◌++◌, map, length, take, All,
  ◌⊎◌,
}
use matchengine.Decimal.{Decimal, min_of, greater_than}
use matchengine.Models.Order.{Order}
use matchengine.Models.Trade.{Trade, TradeResult}
use matchengine.Models.Fills.{SameTerms}
use matchengine.Store.{Element, Store}
use matchengine.OrderBook.{is_nil}
use matchengine.Matching.Ready.{Ready, remains, ids}

module _ {A : Type 0} ⦃d : Decimal A⦄ where
  -- What a taker with `r` left takes from makers with these amounts, in their order.
  unfoldable pub cross : A → List A → List A
  cross r [] = []
  cross r (m ∷ ms) =
      let amount = min_of r m in
      let rest = cross (d.sub r amount) ms in if greater_than r d.zero then amount ∷ rest else []

  unfoldable pub sub_all : A → List A → A
  sub_all r [] = r
  sub_all r (x ∷ xs) = sub_all (d.sub r x) xs

  pub SameTerms-refl : (o : Order A) → SameTerms o o
  SameTerms-refl o = record {
    same_id = refl;
    same_side = refl;
    same_price = refl;
    same_type = refl;
    same_time_in_force = refl;
    same_amount = refl;
  }

module _ {A : Type 0} ⦃d : Decimal A⦄ where
  -- What the loop did: `new` are the trades that it added, `rest` is what the level still holds.
  pub record Swept (st : Store A) (result : TradeResult A) (taker level : ℕ) (q : List Element)
      (r : Bool × Store A × TradeResult A) : Type 0 where
    pub new : List (Trade A)
    pub rest : List Element
    pub trades : r.2.trades ≡ result.trades ++ new
    pub amounts : map (λ t. t.amount) new ≡ cross (st.orders taker).remain_amount (remains st q)
    pub makers : map (λ t. t.maker_order_id) new ≡ take (length new) (ids st q)
    pub prices : All (λ t. t.price ≡ (st.levels level).price) new
    pub remain :
        (r.1.orders taker).remain_amount
        ≡ sub_all (st.orders taker).remain_amount (map (λ t. t.amount) new)
    pub ready : Ready r.1 taker level rest
    pub suffix : (front : List Element) × (q ≡ front ++ rest)
    pub ends : ((greater_than (r.1.orders taker).remain_amount d.zero ≡ false)) ⊎ (rest ≡ [])
    pub flag : r.0 ≡ is_nil rest
    pub terms : SameTerms (st.orders taker) (r.1.orders taker)
    pub same_price : (r.1.levels level).price ≡ (st.levels level).price
    pub same_total : (r.1.levels level).total ≡ (st.levels level).total
    pub other_levels : (l : ℕ) → l ≢ level → r.1.levels l ≡ st.levels l
    pub others : (x : ℕ) → x ≢ taker → All (λ e. e.order ≢ x) q → r.1.orders x ≡ st.orders x

module _ {A : Type 0} ⦃d : Decimal A⦄ where
  pub cross_stops : (r : A) (ms : List A) → greater_than r d.zero ≡ false → cross r ms ≡ []
  unfolding cross
  cross_stops r [] h = refl
  cross_stops r (m ∷ ms) h = rw h

  pub cross_first :
      (r m : A) (ms : List A)
      → greater_than r d.zero ≡ true
      → cross r (m ∷ ms) ≡ min_of r m ∷ cross (d.sub r (min_of r m)) ms
  unfolding cross
  cross_first r m ms h = rw h
