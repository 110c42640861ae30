-- ===== src/Store.antt =====
-- The memory that the engine's pointers reach: orders and price levels by reference, and the readings
-- of the clock and of the trade-id generator that have been used. `container/list` is a list of
-- elements with an address each; an element that was removed is in no list.
use matchengine.Prelude.{ℕ, suc, if◌then◌else◌, ◌==◌, List, [], ◌∷◌}
use matchengine.Models.Order.{Order}

-- `list.Element` with a `*models.Order`.
pub record Element : Type 0 where
  pub address : ℕ
  pub order : ℕ

-- internal/orderbook/orderbook.go: `PriceLevel`
pub record PriceLevel (A : Type 0) : Type 0 where
  pub price : A
  pub orders : List Element
  pub total : A

pub record Store (A : Type 0) : Type 0 where
  pub orders : ℕ → Order A
  pub levels : ℕ → PriceLevel A
  pub next_level : ℕ
  pub next_element : ℕ
  pub ticks : ℕ
  pub issued : ℕ

-- The n-th reading of the clock, the n-th id that the generator returns, and the largest capacity of
-- a slice of pointers that `make` gives.
pub record Env : Type 0 where
  pub clock : ℕ → ℕ
  pub next_id : ℕ → ℕ
  pub max_capacity : ℕ

-- `f` with the value at one reference replaced.
abbrev pub update {ℓ} : {B : Type ℓ} → (ℕ → B) → ℕ → B → ℕ → B
update f r b j = if j == r then b else f j

module _ {A : Type 0} where
  abbrev pub set_order : Store A → ℕ → Order A → Store A
  set_order st r o = record st { orders = update st.orders r o }

  abbrev pub set_level : Store A → ℕ → PriceLevel A → Store A
  set_level st r l = record st { levels = update st.levels r l }

  abbrev pub tick : Store A → Store A
  tick st = record st { ticks = suc st.ticks }

  abbrev pub issue : Store A → Store A
  issue st = record st { issued = suc st.issued }

-- `list.Remove(e)`: an element that the list does not hold is left alone.
unfoldable pub remove_element : ℕ → List Element → List Element
remove_element a [] = []
remove_element a (e ∷ es) = if e.address == a then es else e ∷ remove_element a es
