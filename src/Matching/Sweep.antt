-- ===== src/Matching/Sweep.antt =====
-- `matchAtPriceLevel` of internal/matching/limit.go on a level that is ready, against crossing its orders
-- first in, first out.
use matchengine.Matching.Crossing.{cross, sub_all, SameTerms-refl, Swept, cross_stops, cross_first}
use matchengine.Prelude.{
  ℕ, zero, suc, ◌<◌, ◌≡◌, ◌≢◌, refl, sym, ap, ◌∙◌, subst, lt, gt, arith, Bool, true, false, List,
  [], ◌∷◌, ◌++◌, map, length, take, append-nil, append_assoc, All, All-imp, All-append_right, some,
  Bool-cases, inl, inr, ◌⊎◌,
}
use matchengine.Decimal.{Decimal, is_zero, min_of, greater_than, less_than_or_equal}
use matchengine.Models.Trade.{TradeResult, new_trade, add_trade}
use matchengine.Models.Fills.{SameTerms-trans}
use matchengine.Store.{Element, Store, Env}
use matchengine.OrderBook.{get_first, is_empty, is_nil}
use matchengine.Matching.Fill.{fill_maker, make_trade}
use matchengine.Matching.Limit.{match_at_price_level, match_level}
use matchengine.Matching.Step.{Filled, fill_maker-Filled}
use matchengine.Matching.Ready.{
  Ready, remains, ids, min_of-pos, used_up, remains_behind, ids_behind, Ready-leaves, Ready-stays,
}

module _ {A : Type 0} ⦃d : Decimal A⦄ (env : Env) where
  match_stops :
      (fuel : ℕ) (st : Store A) (result : TradeResult A) (taker level : ℕ)
      → greater_than (st.orders taker).remain_amount d.zero ≡ false
      → match_at_price_level env (suc fuel) st result taker level
        ≡ some (is_empty st level, st, result)
  unfolding match_at_price_level
  match_stops fuel st result taker level h = ground arith

  match_runs_out :
      (fuel : ℕ) (st : Store A) (result : TradeResult A) (taker level : ℕ)
      → greater_than (st.orders taker).remain_amount d.zero ≡ true
      → (st.levels level).orders ≡ []
      → match_at_price_level env (suc fuel) st result taker level ≡ some (true, st, result)
  unfolding match_at_price_level get_first
  match_runs_out fuel st result taker level h e = ground arith

  match_goes_on :
      (fuel : ℕ) (st : Store A) (result : TradeResult A) (taker level : ℕ) (e : Element)
      (q : List Element)
      → greater_than (st.orders taker).remain_amount d.zero ≡ true
      → (st.levels level).orders ≡ e ∷ q
      → let amount = min_of (st.orders taker).remain_amount (st.orders e.order).remain_amount in
        d.cmp d.zero amount ≡ lt
        → let filled = fill_maker env st result taker level e.order amount in
          match_at_price_level env (suc fuel) st result taker level
          ≡ match_at_price_level env fuel filled.0 filled.1 taker level
  unfolding match_at_price_level get_first
  match_goes_on fuel st result taker level e q h o p =
      let amount = min_of (st.orders taker).remain_amount (st.orders e.order).remain_amount in
      let positive : less_than_or_equal amount d.zero ≡ false =
        ground (arith, d.gt_of_lt d.zero amount) in
      rw (h, match_at_price_level) (rw (o, get_first) (rw positive refl))

  -- The taker is filled already, or the level is empty: nothing happens.
  swept_stop :
      (st : Store A) (result : TradeResult A) (taker level : ℕ) (q : List Element) (flag : Bool)
      → Ready st taker level q
      → (greater_than (st.orders taker).remain_amount d.zero ≡ false) ⊎ (q ≡ [])
      → flag ≡ is_nil q
      → Swept st result taker level q (flag, st, result)
  unfolding sub_all cross
  swept_stop st result taker level q flag v ends same = record {
    new = [];
    rest = q;
    trades = sym (append-nil result.trades);
    amounts = elim ends [
      | inl h ↦ sym (cross_stops (st.orders taker).remain_amount (remains st q) h)
      | inr e ↦ rw e
    ];
    makers = refl;
    prices = tt;
    remain = refl;
    ready = v;
    suffix = ([], refl);
    ends = ends;
    flag = same;
    terms = SameTerms-refl (st.orders taker);
    same_price = refl;
    same_total = refl;
    other_levels = λ l n. refl;
    others = λ x n a. refl;
  }

  trades-fill_maker :
      (st : Store A) (result : TradeResult A) (taker level maker : ℕ) (amount : A)
      → (fill_maker env st result taker level maker amount).1.trades
        ≡ result.trades ++ make_trade env st taker maker (st.levels level).price amount ∷ []
  unfolding fill_maker add_trade
  trades-fill_maker st result taker level maker amount = refl

  made_of :
      (st : Store A) (taker maker : ℕ) (price amount : A)
      → let t = make_trade env st taker maker price amount in
        (t.amount ≡ amount) × (t.price ≡ price) × (t.maker_order_id ≡ (st.orders maker).id)
  unfolding make_trade new_trade
  made_of st taker maker price amount = (refl, refl, refl)

  -- A trade with the first order, and then what the loop did from there.
  prepend :
      (st st' : Store A) (result result' : TradeResult A) (taker level : ℕ) (e : Element)
      (q q₁ : List Element) (r : Bool × Store A × TradeResult A)
      → greater_than (st.orders taker).remain_amount d.zero ≡ true
      → let amount = min_of (st.orders taker).remain_amount (st.orders e.order).remain_amount in
        Filled st st' taker level e q amount
        → result'.trades
          ≡ result.trades ++ make_trade env st taker e.order (st.levels level).price amount ∷ []
        → (s : Swept st' result' taker level q₁ r)
        → cross (st'.orders taker).remain_amount (remains st' q₁)
          ≡ cross (d.sub (st.orders taker).remain_amount amount) (remains st q)
        → take (length s.new) (ids st' q₁) ≡ take (length s.new) (ids st q)
        → (front : List Element) × (e ∷ q ≡ front ++ q₁)
        → Swept st result taker level (e ∷ q) r
  unfolding sub_all
  prepend st st' result result' taker level e q q₁ r pos f added s crossed named (front, at) =
      let amount = min_of (st.orders taker).remain_amount (st.orders e.order).remain_amount in
      let price = (st.levels level).price in
      let trade = make_trade env st taker e.order price amount in
      let made = made_of st taker e.order price amount in
      record {
        new = trade ∷ s.new;
        rest = s.rest;
        trades =
            s.trades ∙ ap (λ ts. ts ++ s.new) added ∙ append_assoc result.trades (trade ∷ []) s.new;
        amounts =
            rw (made.0, s.amounts, crossed)
              (sym (
                cross_first (st.orders taker).remain_amount (st.orders e.order).remain_amount
                  (remains st q) pos));
        makers = rw (made.2, s.makers, named);
        prices = (made.1, All-imp (λ t p. p ∙ f.same_price) s.new s.prices);
        remain =
            rw made.0 (s.remain ∙ ap (λ x. sub_all x (map (λ t. t.amount) s.new)) f.taker_remain);
        ready = s.ready;
        suffix = (
          front ++ s.suffix.0,
          at ∙ ap (λ x. front ++ x) s.suffix.1 ∙ sym (append_assoc front s.suffix.0 s.rest),
        );
        ends = s.ends;
        flag = s.flag;
        terms = SameTerms-trans f.taker_terms s.terms;
        same_price = s.same_price ∙ f.same_price;
        same_total = s.same_total ∙ f.same_total;
        other_levels = λ l n. s.other_levels l n ∙ f.other_levels l n;
        others = λ x n a.
            s.others x n
              (All-append_right (λ y. y.order ≢ x) front q₁ (subst (All (λ y. y.order ≢ x)) at a))
            ∙ f.others x n (λ h. a.0 (sym h));
      }

  -- The loop returns with this fuel, and what it returns has swept the level.
  abbrev pub Sweeps : ℕ → List Element → Store A → TradeResult A → ℕ → ℕ → Type 0
  Sweeps fuel q st result taker level =
      (r : Bool × Store A × TradeResult A) × (match_at_price_level env fuel st result taker level
        ≡ some r)
      × Swept st result taker level q r

  is_empty_lem :
      (st : Store A) (taker level : ℕ) (q : List Element)
      → Ready st taker level q
      → is_empty st level ≡ is_nil q
  unfolding is_empty
  is_empty_lem st taker level q v = ap is_nil v.queue

  sweep_stopped :
      (fuel : ℕ) (q : List Element) (st : Store A) (result : TradeResult A) (taker level : ℕ)
      → Ready st taker level q
      → greater_than (st.orders taker).remain_amount d.zero ≡ false
      → Sweeps (suc fuel) q st result taker level
  sweep_stopped fuel q st result taker level v over = (
    (is_empty st level, st, result),
    match_stops fuel st result taker level over,
    swept_stop st result taker level q (is_empty st level) v (inl over)
        (is_empty_lem st taker level q v),
  )

  -- One trade, with the facts that the rest of the loop needs.
  module _ (st : Store A) (result : TradeResult A) (taker level : ℕ) (e : Element)
      (q : List Element) (v : Ready st taker level (e ∷ q))
      (pos : greater_than (st.orders taker).remain_amount d.zero ≡ true) where
    abbrev traded_amount : A
    traded_amount = min_of (st.orders taker).remain_amount (st.orders e.order).remain_amount

    traded_amount-pos : d.cmp d.zero traded_amount ≡ lt
    traded_amount-pos =
        min_of-pos (st.orders taker).remain_amount (st.orders e.order).remain_amount (ground arith)
          v.makers.0.remain_pos

    abbrev after_trade : Store A × TradeResult A
    after_trade = fill_maker env st result taker level e.order traded_amount

    trade_fills : Filled st after_trade.0 taker level e q traded_amount
    trade_fills =
        fill_maker-Filled env st result taker level e q traded_amount v.queue v.apart.0
          v.taker_balanced v.makers.0.balanced traded_amount-pos

    prepended :
        (fuel : ℕ) (q₁ : List Element) (s : Sweeps fuel q₁ after_trade.0 after_trade.1 taker level)
        → cross (after_trade.0.orders taker).remain_amount (remains after_trade.0 q₁)
          ≡ cross (d.sub (st.orders taker).remain_amount traded_amount) (remains st q)
        → take (length s.2.new) (ids after_trade.0 q₁) ≡ take (length s.2.new) (ids st q)
        → (front : List Element) × (e ∷ q ≡ front ++ q₁)
        → Sweeps (suc fuel) (e ∷ q) st result taker level
    prepended fuel q₁ s crossed named suffix = (
      s.0,
      match_goes_on fuel st result taker level e q pos v.queue traded_amount-pos ∙ s.1,
      prepend st after_trade.0 result after_trade.1 taker level e q q₁ s.0 pos trade_fills
          (trades-fill_maker st result taker level e.order traded_amount) s.2 crossed named suffix,
    )

    go_on_leaves :
        (fuel : ℕ)
        → is_zero (d.sub (st.orders e.order).remain_amount traded_amount) ≡ true
        → Sweeps fuel q after_trade.0 after_trade.1 taker level
        → Sweeps (suc fuel) (e ∷ q) st result taker level
    go_on_leaves fuel z s =
        prepended fuel q s (rw (trade_fills.taker_remain, remains_behind trade_fills v))
          (ap (take (length s.2.new)) (ids_behind trade_fills v)) (e ∷ [], refl)

    go_on_stays :
        (fuel : ℕ)
        → is_zero (d.sub (st.orders e.order).remain_amount traded_amount) ≡ false
        → Sweeps (suc (suc fuel)) (e ∷ q) st result taker level
    unfolding sweep_stopped swept_stop
    go_on_stays fuel z =
        let (spent, kept) : (d.sub (st.orders taker).remain_amount traded_amount ≡ d.zero)
            × (d.cmp (d.sub (st.orders e.order).remain_amount traded_amount) d.zero ≡ gt) =
          rw z at (used_up (st.orders taker).remain_amount (st.orders e.order).remain_amount) in
        let over : greater_than (d.sub (st.orders taker).remain_amount traded_amount) d.zero
            ≡ false =
          rw spent (ground (arith, d.cmp_refl d.zero)) in
        let over' : greater_than (after_trade.0.orders taker).remain_amount d.zero ≡ false =
          rw trade_fills.taker_remain over in
        prepended (suc fuel) (e ∷ q)
          (sweep_stopped fuel (e ∷ q) after_trade.0 after_trade.1 taker level
            (Ready-stays trade_fills v z kept) over')
          (cross_stops _ (remains after_trade.0 (e ∷ q)) over'
            ∙ sym (cross_stops _ (remains st q) over))
          refl ([], refl)

  -- With more fuel than the level has orders the loop ends, and sweeps the level.
  pub sweep :
      (fuel : ℕ) (q : List Element) (st : Store A) (result : TradeResult A) (taker level : ℕ)
      → length q < fuel
      → Ready st taker level q
      → Sweeps fuel q st result taker level
  sweep zero q st result taker level h v = absurd (omega arith)
  sweep (suc fuel) [] st result taker level h v =
      elim (Bool-cases (greater_than (st.orders taker).remain_amount d.zero)) [
        | inr over ↦ sweep_stopped fuel [] st result taker level v over
        | inl pos ↦ (
          (true, st, result),
          match_runs_out fuel st result taker level pos v.queue,
          swept_stop st result taker level [] true v (inr refl) refl,
        )
      ]
  sweep (suc zero) (e ∷ q) st result taker level h v = absurd (omega arith)
  sweep (suc (suc fuel)) (e ∷ q) st result taker level h v =
      elim (Bool-cases (greater_than (st.orders taker).remain_amount d.zero)) [
        | inr over ↦ sweep_stopped (suc fuel) (e ∷ q) st result taker level v over
        | inl pos ↦
            elim (Bool-cases (
              is_zero (
                d.sub (st.orders e.order).remain_amount
                  (traded_amount st result taker level e q v pos)))) [
                    | inl z ↦ go_on_leaves st result taker level e q v pos (suc fuel) z (
                        sweep (suc fuel) q _ _ taker level (omega arith)
                          (Ready-leaves (trade_fills st result taker level e q v pos) v z))
                    | inr z ↦ go_on_stays st result taker level e q v pos fuel z
                  ]
      ]

  -- At a ready level, that is, one of open, distinct orders other than a balanced taker,
  -- `matchAtPriceLevel` returns within one round more than the level has orders, and the level is swept:
  -- its trades have the amounts that crossing first come first gives, at the level's price; what is left
  -- of the orders is the rest of the queue; other levels and orders are untouched, and so is the level's
  -- total.
  pub match_level_lem :
      (st : Store A) (result : TradeResult A) (taker level : ℕ) (q : List Element)
      → Ready st taker level q
      → (r : Bool × Store A × TradeResult A) × (match_level env st result taker level ≡ some r)
        × Swept st result taker level q r
  unfolding match_level
  match_level_lem st result taker level q v =
      sweep (suc (length (st.levels level).orders)) q st result taker level
        (rw v.queue (omega arith)) v
