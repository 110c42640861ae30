-- ===== src/Decimal/Laws.antt =====
-- Consequences of the decimal laws.
use matchengine.Prelude.{◌≡◌, ◌≢◌, sym, ap, ◌∙◌, subst, lt, gt, arith}
use matchengine.Decimal.Defs.{Decimal}

module _ {A : Type 0} ⦃d : Decimal A⦄ where
  pub zero-add : (a : A) → d.add d.zero a ≡ a
  zero-add a = d.add_comm d.zero a ∙ d.add-zero a

  pub sub_self : (a : A) → d.sub a a ≡ d.zero
  sub_self a = rw (zero-add a) at (d.add-sub d.zero a)

  pub sub-zero : (a : A) → d.sub a d.zero ≡ a
  sub-zero a = sym (d.add-zero (d.sub a d.zero)) ∙ d.sub-add a d.zero

  pub add_cancel : (a b c : A) → d.add a c ≡ d.add b c → a ≡ b
  add_cancel a b c e = sym (d.add-sub a c) ∙ ap (λ t. d.sub t c) e ∙ d.add-sub b c

  pub sub-add_add : (r f a : A) → d.sub (d.add r f) (d.add f a) ≡ d.sub r a
  sub-add_add r f a = add_cancel (d.sub (d.add r f) (d.add f a)) (d.sub r a) (d.add f a) (
      d.sub-add (d.add r f) (d.add f a)
      ∙ ap (λ t. d.add t f) (sym (d.sub-add r a))
      ∙ d.add_assoc (d.sub r a) a f
      ∙ ap (d.add (d.sub r a)) (d.add_comm a f))

  sub_eq_add : (r a : A) → d.sub r a ≡ d.add r (d.sub d.zero a)
  sub_eq_add r a = add_cancel (d.sub r a) (d.add r (d.sub d.zero a)) a (
      d.sub-add r a
      ∙ sym (d.add-zero r)
      ∙ ap (d.add r) (sym (d.sub-add d.zero a))
      ∙ sym (d.add_assoc r (d.sub d.zero a) a))

  -- What is left after a smaller amount is positive.
  pub sub_pos : (r a : A) → d.cmp a r ≡ lt → d.cmp d.zero (d.sub r a) ≡ lt
  sub_pos r a h =
      subst (λ t. d.cmp t (d.sub r a) ≡ lt) (sym (sub_eq_add a a) ∙ sub_self a)
        (subst (λ t. d.cmp (d.add a (d.sub d.zero a)) t ≡ lt) (sym (sub_eq_add r a))
          (d.add_mono a r (d.sub d.zero a) h))

  pub lt_add : (f a : A) → d.cmp d.zero a ≡ lt → d.cmp f (d.add f a) ≡ lt
  lt_add f a h =
      subst (λ t. d.cmp f t ≡ lt) (d.add_comm a f)
        (subst (λ t. d.cmp t (d.add a f) ≡ lt) (zero-add f) (d.add_mono d.zero a f h))

  -- A sum of something not negative and something positive.
  pub add_pos :
      (f a : A) → d.cmp f d.zero ≢ lt → d.cmp d.zero a ≡ lt → d.cmp (d.add f a) d.zero ≡ gt
  add_pos f a n h = ground (
    arith,
    lt_add f a h,
    d.eq_of_cmp f d.zero,
    d.lt_of_gt f d.zero,
    d.lt_trans d.zero f (d.add f a),
    d.gt_of_lt d.zero (d.add f a),
  )

  pub sub_sub : (r a t : A) → d.sub (d.sub r a) t ≡ d.sub r (d.add a t)
  sub_sub r a t = add_cancel (d.sub (d.sub r a) t) (d.sub r (d.add a t)) (d.add a t) (
      ap (d.add (d.sub (d.sub r a) t)) (d.add_comm a t)
      ∙ sym (d.add_assoc (d.sub (d.sub r a) t) t a)
      ∙ ap (λ x. d.add x a) (d.sub-add (d.sub r a) t)
      ∙ d.sub-add r a
      ∙ sym (d.sub-add r (d.add a t)))

  -- A sum is less than an amount when one part is less than the amount without the other.
  pub lt_sub : (a s r : A) → d.cmp (d.add a s) r ≡ lt → d.cmp s (d.sub r a) ≡ lt
  lt_sub a s r h =
      subst (λ x. d.cmp x (d.sub r a) ≡ lt)
        (sym (sub_eq_add (d.add a s) a) ∙ ap (λ x. d.sub x a) (d.add_comm a s) ∙ d.add-sub s a)
        (subst (λ x. d.cmp (d.add (d.add a s) (d.sub d.zero a)) x ≡ lt) (sym (sub_eq_add r a))
          (d.add_mono (d.add a s) r (d.sub d.zero a) h))

  pub add_lt : (a s r : A) → d.cmp s (d.sub r a) ≡ lt → d.cmp (d.add a s) r ≡ lt
  add_lt a s r h =
      subst (λ x. d.cmp x r ≡ lt) (d.add_comm s a)
        (subst (λ x. d.cmp (d.add s a) x ≡ lt) (d.sub-add r a) (d.add_mono s (d.sub r a) a h))
