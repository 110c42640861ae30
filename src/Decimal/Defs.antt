-- ===== src/Decimal/Defs.antt =====
-- shopspring/decimal as the engine uses it: `Cmp` and the tests that stand on it, `Add`, `Sub`,
-- `Mul`, `Div`, `Mod` and `Min`, with laws of exact arithmetic. Elements are numeric values.
use matchengine.Prelude.{◌≡◌, Bool, true, false, Ordering, lt, eq, gt}

pub record IsOrder {A : Type 0} (cmp : A → A → Ordering) : Type 0 where
  pub cmp_refl : (a : A) → cmp a a ≡ eq
  pub eq_of_cmp : (a b : A) → cmp a b ≡ eq → a ≡ b
  pub lt_of_gt : (a b : A) → cmp a b ≡ gt → cmp b a ≡ lt
  pub gt_of_lt : (a b : A) → cmp a b ≡ lt → cmp b a ≡ gt
  pub lt_trans : (a b c : A) → cmp a b ≡ lt → cmp b c ≡ lt → cmp a c ≡ lt

-- `fee_rate` is `decimal.NewFromFloat(0.001)` and `random_factor` is `decimal.NewFromFloat(0.1)`.
-- Nothing is assumed of `mul`, `div`, `mod` and these two.
pub record Decimal (A : Type 0) : Type 0 where
  pub zero : A
  pub fee_rate : A
  pub random_factor : A
  pub add : A → A → A
  pub sub : A → A → A
  pub mul : A → A → A
  pub div : A → A → A
  pub mod_of : A → A → A
  pub cmp : A → A → Ordering
  pub ordered : IsOrder cmp
  pub open ordered use *
  pub add_assoc : (a b c : A) → add (add a b) c ≡ add a (add b c)
  pub add_comm : (a b : A) → add a b ≡ add b a
  pub add-zero : (a : A) → add a zero ≡ a
  pub sub-add : (a b : A) → add (sub a b) b ≡ a
  pub add-sub : (a b : A) → sub (add a b) b ≡ a
  pub add_mono : (a b c : A) → cmp a b ≡ lt → cmp (add a c) (add b c) ≡ lt

module _ {A : Type 0} ⦃d : Decimal A⦄ where
  abbrev pub less_than : A → A → Bool
  less_than a b = elim (d.cmp a b) [ lt ↦ true | _ ↦ false ]

  abbrev pub less_than_or_equal : A → A → Bool
  less_than_or_equal a b = elim (d.cmp a b) [ gt ↦ false | _ ↦ true ]

  abbrev pub greater_than : A → A → Bool
  greater_than a b = elim (d.cmp a b) [ gt ↦ true | _ ↦ false ]

  abbrev pub greater_than_or_equal : A → A → Bool
  greater_than_or_equal a b = elim (d.cmp a b) [ lt ↦ false | _ ↦ true ]

  abbrev pub is_zero : A → Bool
  is_zero a = elim (d.cmp a d.zero) [ eq ↦ true | _ ↦ false ]

  -- `a.Equal(b)`
  abbrev pub cmp_equal : A → A → Bool
  cmp_equal a b = elim (d.cmp a b) [ eq ↦ true | _ ↦ false ]

  -- `decimal.Min(a, b)`
  abbrev pub min_of : A → A → A
  min_of a b = elim (d.cmp b a) [ lt ↦ b | _ ↦ a ]
