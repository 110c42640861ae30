-- ===== src/Models/Fills.antt =====
-- `UpdateFilled` of internal/models/order.go: an order's account, and its status after a fill.
use matchengine.Prelude.{◌≡◌, ◌≢◌, refl, sym, ap, ◌∙◌, subst, lt, gt, arith, ℕ, not}
use matchengine.Decimal.{Decimal, is_zero, sub-add_add, add_pos}
use matchengine.Models.Order.{
  Order, unknown_status, new_order, update_filled, is_finished, can_cancel,
}

module _ {A : Type 0} ⦃d : Decimal A⦄ where
  -- What remains and what is filled make up the amount, and nothing negative is filled.
  pub record IsBalanced (o : Order A) : Type 0 where
    pub balance : d.add o.remain_amount o.filled_amount ≡ o.amount
    pub filled_nonneg : d.cmp o.filled_amount d.zero ≢ lt

  -- A balanced order with something left.
  pub record IsOpen (o : Order A) : Type 0 where
    pub balanced : IsBalanced o
    pub open balanced use *
    pub remain_pos : d.cmp o.remain_amount d.zero ≡ gt

  pub new_order-IsBalanced :
      (now id user : ℕ) (o : Order A)
      → IsBalanced
          (new_order now id user o.symbol o.side o.order_type o.price o.amount o.time_in_force)
  unfolding new_order
  new_order-IsBalanced now id user o = record {
    balance = d.add-zero o.amount;
    filled_nonneg = λ h. ground (arith, d.cmp_refl d.zero);
  }

  -- What an order keeps through a fill.
  pub record SameTerms (o p : Order A) : Type 0 where
    pub same_id : p.id ≡ o.id
    pub same_side : p.side ≡ o.side
    pub same_price : p.price ≡ o.price
    pub same_type : p.order_type ≡ o.order_type
    pub same_time_in_force : p.time_in_force ≡ o.time_in_force
    pub same_amount : p.amount ≡ o.amount

  pub SameTerms-trans : {o p q : Order A} → SameTerms o p → SameTerms p q → SameTerms o q
  SameTerms-trans s t = record {
    same_id = t.same_id ∙ s.same_id;
    same_side = t.same_side ∙ s.same_side;
    same_price = t.same_price ∙ s.same_price;
    same_type = t.same_type ∙ s.same_type;
    same_time_in_force = t.same_time_in_force ∙ s.same_time_in_force;
    same_amount = t.same_amount ∙ s.same_amount;
  }

  pub update_filled-SameTerms :
      (now : ℕ) (o : Order A) (a t : A) → SameTerms o (update_filled now o a t)
  unfolding update_filled
  update_filled-SameTerms now o a t = record {
    same_id = refl;
    same_side = refl;
    same_price = refl;
    same_type = refl;
    same_time_in_force = refl;
    same_amount = refl;
  }

  -- A fill of a positive amount takes it off what remains, and the account still balances.
  pub update_filled_remain :
      (now : ℕ) (o : Order A) (a t : A)
      → IsBalanced o
      → (update_filled now o a t).remain_amount ≡ d.sub o.remain_amount a
  unfolding update_filled
  update_filled_remain now o a t b =
      ap (λ m. d.sub m (d.add o.filled_amount a)) (sym b.balance)
      ∙ sub-add_add o.remain_amount o.filled_amount a

  pub update_filled-IsBalanced :
      (now : ℕ) (o : Order A) (a t : A)
      → d.cmp d.zero a ≡ lt
      → IsBalanced o
      → IsBalanced (update_filled now o a t)
  unfolding update_filled
  update_filled-IsBalanced now o a t p b = record {
    balance = d.sub-add o.amount (d.add o.filled_amount a);
    filled_nonneg = λ h. ground (arith, add_pos o.filled_amount a b.filled_nonneg p);
  }

  -- A positive fill ends a balanced order exactly when it leaves nothing.
  pub update_filled-finished :
      (now : ℕ) (o : Order A) (a t : A)
      → d.cmp d.zero a ≡ lt
      → IsBalanced o
      → is_finished (update_filled now o a t) ≡ is_zero (d.sub o.remain_amount a)
  update_filled-finished now o a t p b =
      subst (λ r. is_finished (update_filled now o a t) ≡ is_zero r)
        (update_filled_remain now o a t b)
        (unfold update_filled is_finished in
          ground (arith, add_pos o.filled_amount a b.filled_nonneg p))

  -- An order of a named status is finished or can be cancelled, never both.
  pub can_cancel_iff_open :
      (o : Order A) → o.status ≢ unknown_status → can_cancel o ≡ not (is_finished o)
  unfolding can_cancel is_finished
  can_cancel_iff_open o n = ground arith
