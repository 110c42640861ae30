-- ===== src/OrderBook/Elements.antt =====
-- The `container/list` of a price level in internal/orderbook/orderbook.go: elements by address, and the
-- sum of what remains of their orders.
use matchengine.Prelude.{
  ℕ, ◌≡◌, ◌≢◌, ◌<◌, refl, sym, ap, subst, Bool-cases, inl, inr, ==_iff, ◌∙◌, if◌then◌else◌, ◌==◌,
  List, [], ◌∷◌, ◌++◌, All, Option, some, none, arith,
}
use matchengine.Decimal.{Decimal}
use matchengine.Models.Order.{Order}
use matchengine.Store.{Element, Store, remove_element}
use matchengine.OrderBook.Level.{sum_remain}

-- The order at an address.
abbrev pub find_element : ℕ → List Element → Option ℕ
find_element a [] = none
find_element a (x ∷ q) = if x.address == a then some x.order else find_element a q

-- No two elements have one address.
abbrev pub Unique : List Element → Type 0
Unique [] = Unit
Unique (x ∷ q) = All (λ y. y.address ≢ x.address) q × Unique q

pub find_element-append :
    (a r : ℕ) (q : List Element) (y : Element)
    → find_element a q ≡ some r
    → find_element a (q ++ y ∷ []) ≡ some r
find_element-append a r [] y h = cc
find_element-append a r (x ∷ q) y h = ground (arith, find_element-append a r q y)

pub find_element-last :
    (q : List Element) (y : Element)
    → All (λ x. x.address < y.address) q
    → find_element y.address (q ++ y ∷ []) ≡ some y.order
find_element-last [] y h = ground arith
find_element-last (x ∷ q) y h = ground (arith, find_element-last q y h.1, h.0)

pub Unique-append :
    (q : List Element) (y : Element)
    → All (λ x. x.address < y.address) q
    → Unique q
    → Unique (q ++ y ∷ [])
Unique-append [] y h u = (tt, tt)
Unique-append (x ∷ q) y h u = (apart q u.0, Unique-append q y h.1 u.1)
  where
    apart :
        (r : List Element)
        → All (λ z. z.address ≢ x.address) r
        → All (λ z. z.address ≢ x.address) (r ++ y ∷ [])
    apart [] k = (λ e. omega (arith, h.0, e), tt)
    apart (z ∷ r) k = (k.0, apart r k.1)

pub All-remove_element :
    (P : Element → Type 0) (a : ℕ) (q : List Element) → All P q → All P (remove_element a q)
unfolding remove_element
All-remove_element P a [] h = tt
All-remove_element P a (x ∷ q) h = elim (Bool-cases (x.address == a)) [
  | inl here ↦ rw here h.1
  | inr later ↦ rw later (h.0, All-remove_element P a q h.1)
]

pub Unique-remove_element : (a : ℕ) (q : List Element) → Unique q → Unique (remove_element a q)
unfolding remove_element
Unique-remove_element a [] u = tt
Unique-remove_element a (x ∷ q) u = elim (Bool-cases (x.address == a)) [
  | inl here ↦ rw here u.1
  | inr later ↦
      rw later
        (All-remove_element (λ y. y.address ≢ x.address) a q u.0, Unique-remove_element a q u.1)
]

-- No element with the address is left.
pub remove_element-gone :
    (a : ℕ) (q : List Element) → Unique q → All (λ y. y.address ≢ a) (remove_element a q)
unfolding remove_element
remove_element-gone a [] u = tt
remove_element-gone a (x ∷ q) u = elim (Bool-cases (x.address == a)) [
  | inl here ↦ rw here (subst (λ b. All (λ y. y.address ≢ b) q) ((==_iff x.address a).0 here) u.0)
  | inr later ↦ rw later ((λ e. ground (arith, later, e)), remove_element-gone a q u.1)
]

pub find_element-remove_element :
    (a b : ℕ) (q : List Element) → a ≢ b → find_element b (remove_element a q) ≡ find_element b q
unfolding remove_element
find_element-remove_element a b [] n = refl
find_element-remove_element a b (x ∷ q) n = ground (arith, find_element-remove_element a b q n)

module _ {A : Type 0} ⦃d : Decimal A⦄ where
  pub sum_remain-append :
      (st : Store A) (t : A) (q : List Element) (y : Element)
      → sum_remain st t (q ++ y ∷ []) ≡ d.add (sum_remain st t q) (st.orders y.order).remain_amount
  unfolding sum_remain
  sum_remain-append st t [] y = refl
  sum_remain-append st t (x ∷ q) y =
      sum_remain-append st (d.add t (st.orders x.order).remain_amount) q y

  sum_remain-add :
      (st : Store A) (t a : A) (q : List Element)
      → sum_remain st (d.add t a) q ≡ d.add (sum_remain st t q) a
  unfolding sum_remain
  sum_remain-add st t a [] = refl
  sum_remain-add st t a (x ∷ q) =
      ap (λ s. sum_remain st s q)
        (d.add_assoc t a (st.orders x.order).remain_amount
          ∙ ap (d.add t) (d.add_comm a (st.orders x.order).remain_amount)
          ∙ sym (d.add_assoc t (st.orders x.order).remain_amount a))
      ∙ sum_remain-add st (d.add t (st.orders x.order).remain_amount) a q

  -- Taking an element out takes what remains of its order off the sum.
  pub sum_remain-remove_element :
      (st : Store A) (t : A) (a r : ℕ) (q : List Element)
      → find_element a q ≡ some r
      → sum_remain st t (remove_element a q) ≡ d.sub (sum_remain st t q) (st.orders r).remain_amount
  unfolding sum_remain remove_element
  sum_remain-remove_element st t a r [] h = cc
  sum_remain-remove_element st t a r (x ∷ q) h = elim (Bool-cases (x.address == a)) [
    | inl here ↦
        let same : x.order ≡ r = ground (arith, h, here) in
        let remain = (st.orders x.order).remain_amount in
        rw here (
          subst
            (λ j.
              sum_remain st t q
              ≡ d.sub (sum_remain st (d.add t remain) q) (st.orders j).remain_amount)
            same
            (sym (
              ap (λ s. d.sub s remain) (sum_remain-add st t remain q)
              ∙ d.add-sub (sum_remain st t q) remain)))
    | inr later ↦ rw later (
        sum_remain-remove_element st (d.add t (st.orders x.order).remain_amount) a r q
          (ground (arith, h, later)))
  ]

  pub sum_remain-same :
      (st st' : Store A) (t : A) (q : List Element)
      → st'.orders ≡ st.orders
      → sum_remain st' t q ≡ sum_remain st t q
  unfolding sum_remain
  sum_remain-same st st' t [] h = refl
  sum_remain-same st st' t (x ∷ q) h =
      ap (λ (f : ℕ → Order A). sum_remain st' (d.add t (f x.order).remain_amount) q) h
      ∙ sum_remain-same st st' (d.add t (st.orders x.order).remain_amount) q h
