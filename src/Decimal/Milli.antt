-- ===== src/Decimal/Milli.antt =====
-- A decimal type that meets the interface: whole numbers of thousandths.
use matchengine.Prelude.{◌+◌, ◌*◌, ◌/◌, ◌%◌, ◌≡◌, compare, Ordering, lt, arith}
use matchengine.Prelude.Int.{
  ℤ, pos, negsuc, pos_part, neg_part, ◌+ℤ◌, ◌-ℤ◌, ◌*ℤ◌, +ℤ_parts, +ℤ_comm, +ℤ_assoc, int_laws,
}
use matchengine.Decimal.Defs.{Decimal, IsOrder}

unfoldable pub cmp : ℤ → ℤ → Ordering
cmp a b = compare (pos_part a + neg_part b) (pos_part b + neg_part a)

pub cmp-IsOrder : IsOrder cmp
unfolding cmp
cmp-IsOrder = record {
  cmp_refl = λ a. ground arith;
  eq_of_cmp = λ a b h. ground arith;
  lt_of_gt = λ a b h. ground arith;
  gt_of_lt = λ a b h. ground arith;
  lt_trans = λ a b c h k. ground arith;
}

-- The quotient by thousandths, towards zero.
over_mille : ℤ → ℤ
over_mille (pos n) = pos (n / 1000)
over_mille (negsuc n) = pos 0 -ℤ pos ((n + 1) / 1000)

pub sub-add : (a b : ℤ) → a -ℤ b +ℤ b ≡ a
sub-add a b = omega int_laws

pub add-sub : (a b : ℤ) → a +ℤ b -ℤ b ≡ a
add-sub a b = omega int_laws

pub add-zero : (a : ℤ) → a +ℤ pos 0 ≡ a
add-zero a = omega int_laws

pub add_mono : (a b c : ℤ) → cmp a b ≡ lt → cmp (a +ℤ c) (b +ℤ c) ≡ lt
unfolding cmp
add_mono a b c h = ground (arith, +ℤ_parts a c, +ℤ_parts b c)

instance unfoldable pub milli : Decimal ℤ
unfolding cmp ◌+ℤ◌ ◌-ℤ◌ ◌*ℤ◌ over_mille
milli = record {
  zero = pos 0;
  fee_rate = pos 1;
  random_factor = pos 100;
  add = ◌+ℤ◌;
  sub = ◌-ℤ◌;
  mul = λ a b. over_mille (a *ℤ b);
  div = λ a b. pos ((pos_part a * 1000) / pos_part b);
  mod_of = λ a b. pos (pos_part a % pos_part b);
  cmp = cmp;
  ordered = cmp-IsOrder;
  add_assoc = +ℤ_assoc;
  add_comm = +ℤ_comm;
  add-zero = add-zero;
  sub-add = sub-add;
  add-sub = add-sub;
  add_mono = add_mono;
}
