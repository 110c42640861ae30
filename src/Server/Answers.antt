-- ===== src/Server/Answers.antt =====
-- What the answers of internal/server/grpc_server.go show of the engine.
use Prim.Native.String.{String}
use matchengine.Prelude.{
  ℕ, ◌≡◌, ◌≢◌, refl, sym, ap, ◌∙◌, arith, subst, map, take, Option, some, none, zero, suc, leb,
  if◌then◌else◌, Bool-cases, inl, inr,
}
use matchengine.Prelude.Int.{ℤ, pos, negsuc}
use matchengine.Decimal.{Decimal}
use matchengine.Models.Market.{Depth}
use matchengine.Store.{Store, Env}
use matchengine.RbTree.Valid.{entries}
use matchengine.OrderBook.{OrderBook, get_depth}
use matchengine.OrderBook.Index.{IsIndex}
use matchengine.OrderBook.Snapshot.{depth_level, get_depth_lem}
use matchengine.Engine.Process.{MarketEngine}
use matchengine.Engine.Api.{
  depth_of, Engine, RaftNode, EngineError, Submitted, refused, panics, proposed, queued, waiting,
  submit_order, Reply, failed, replied, cancel_order, find_market, order_not_found,
}
use matchengine.Engine.Submission.{Admitted, submit_order-Admitted}
use matchengine.Engine.Cancelled.{cancel_order-Cancelled}
use matchengine.Server.Convert.{
  DecimalText, ProtoOrder, proto_cancelled, convert_order_to_proto, convert_status, convert_levels,
}
use matchengine.Server.Grpc.{
  Answer, answer_option, crashed, show_order, invalid_price, invalid_amount, answered,
  rejected_with, engine_fault, Allocation, SubmitOrderRequest, build_order, with_order,
  answer_submitted, DepthAnswer, get_depth_call, depth_limit, submit_order_call, cancel_order_call,
  get_order_call,
}

module _ {A : Type 0} ⦃d : Decimal A⦄ (text : DecimalText A) where
  -- What is behind a submission that is answered with an order, and leaves the engine as it is after it.
  pub record Accepted (now : ℕ) (at : Allocation) (e e' : Engine A) (req : SubmitOrderRequest)
      (shown : ProtoOrder) : Type 0 where
    pub price : A
    pub amount : A
    pub price_given : text.parse req.price ≡ some price
    pub amount_given : text.parse req.amount ≡ some amount
    pub admitted :
        Admitted (with_order e at.reference (build_order text now at req price amount)) at.reference
    pub shows : shown ≡ convert_order_to_proto text (e'.store.orders at.reference)

  show_order-answered :
      (after : Engine A) (order : ℕ) (r : ProtoOrder × Engine A)
      → show_order text after order ≡ r
      → r.0 ≡ convert_order_to_proto text (r.1.store.orders order)
  unfolding show_order
  show_order-answered after order r h =
      subst (λ x. x.0 ≡ convert_order_to_proto text (x.1.store.orders order)) h refl

  answered-not_refused :
      {E : Type 0} (meanwhile : Engine A → Engine A) (e : Engine A) (order : ℕ) (s : Submitted A E)
      (r : ProtoOrder × Engine A)
      → answer_submitted text meanwhile e order s ≡ answered r
      → ((fault : EngineError E) → s ≢ refused fault)
        × (s ≢ panics)
        × (r.0 ≡ convert_order_to_proto text (r.1.store.orders order))
  unfolding answer_submitted
  answered-not_refused meanwhile e order (refused x) r h = cc
  answered-not_refused meanwhile e order panics r h = cc
  answered-not_refused meanwhile e order proposed r h =
      ((λ fault k. cc), (λ k. cc), show_order-answered (meanwhile e) order r cc)
  answered-not_refused meanwhile e order (queued e') r h =
      ((λ fault k. cc), (λ k. cc), show_order-answered (meanwhile e') order r cc)
  answered-not_refused meanwhile e order waiting r h = cc

  -- When the answer to a submission shows an order, whatever the other goroutines do to the engine between the
  -- hand-over and the answer: the price and the amount of the request could be parsed, and the order made of them
  -- was submitted to a running engine that knows its market, and is valid there; the answer shows the
  -- order of the request as it is in the engine after the call.
  pub submit_order_call-Accepted :
      {E : Type 0} (meanwhile : Engine A → Engine A) (now : ℕ) (at : Allocation) (e e' : Engine A)
      (raft : Option (RaftNode A E)) (req : SubmitOrderRequest) (shown : ProtoOrder)
      → submit_order_call text meanwhile now at e raft req ≡ answered (shown, e')
      → Accepted now at e e' req shown
  unfolding submit_order_call
  submit_order_call-Accepted {E} meanwhile now at e e' raft req shown h =
      by_price (text.parse req.price) refl
    where
      by_amount :
          (price : A) (x : Option A)
          → text.parse req.price ≡ some price
          → text.parse req.amount ≡ x
          → Accepted now at e e' req shown
      by_amount price none p m =
          let answer : Answer E (ProtoOrder × Engine A) = answered (shown, e') in
          let wrong : rejected_with invalid_amount ≡ answer = (rw (p, m, submit_order_call) at h) in
          cc
      by_amount price (some amount) p m =
          let before = with_order e at.reference (build_order text now at req price amount) in
          let (fine, calm, shows) =
            answered-not_refused meanwhile before at.reference
              (submit_order before raft at.reference) (shown, e')
              (rw (p, m, submit_order_call) at h) in
          record {
            price = price;
            amount = amount;
            price_given = p;
            amount_given = m;
            admitted = submit_order-Admitted before raft at.reference fine calm;
            shows = shows;
          }

      by_price : (x : Option A) → text.parse req.price ≡ x → Accepted now at e e' req shown
      by_price none p =
          let answer : Answer E (ProtoOrder × Engine A) = answered (shown, e') in
          let wrong : rejected_with invalid_price ≡ answer = (rw (p, submit_order_call) at h) in cc
      by_price (some price) p = by_amount price (text.parse req.amount) p refl

  -- When the answer to a cancellation in a market whose index has no id twice shows an order, it shows it as cancelled,
  -- and a call for that order after it is answered with the fault that there is none.
  pub cancel_order_call-gone :
      {E : Type 0} (env : Env) (e e' : Engine A) (symbol : String) (id : ℕ) (me : MarketEngine A)
      (shown : ProtoOrder)
      → find_market symbol e.markets ≡ some me
      → IsIndex me.book.orders
      → cancel_order_call text {E = E} env e symbol id ≡ answered (shown, e')
      → (shown.status ≡ proto_cancelled)
        × (get_order_call text {E = E} env e' symbol id
            ≡ rejected_with (engine_fault order_not_found))
  unfolding cancel_order_call get_order_call
  cancel_order_call-gone {E} env e e' symbol id me shown known v h =
      by_reply (cancel_order env {E = E} e symbol id) refl
    where
      by_reply :
          (x : Reply E (ℕ × Engine A))
          → cancel_order env {E = E} e symbol id ≡ x
          → (shown.status ≡ proto_cancelled)
            × (get_order_call text {E = E} env e' symbol id
                ≡ rejected_with (engine_fault order_not_found))
      by_reply (failed x) m =
          let answer : Answer E (ProtoOrder × Engine A) = answered (shown, e') in
          let wrong : rejected_with (engine_fault x) ≡ answer = (rw (m, cancel_order_call) at h) in
          cc
      by_reply (replied (r, after)) m =
          let answer : Answer E (ProtoOrder × Engine A) = answered (shown, e') in
          let same : answered (convert_order_to_proto text (after.store.orders r), after) ≡ answer =
            (rw (m, cancel_order_call) at h) in
          let order : convert_order_to_proto text (after.store.orders r) ≡ shown = cc in
          let engine : after ≡ e' = cc in
          let c = cancel_order-Cancelled env E e after symbol id r me known v m in
          (
            sym (ap (λ (x : ProtoOrder). x.status) order)
                ∙ unfold convert_order_to_proto convert_status in ap convert_status c.cancelled,
            ap (λ (x : Engine A). get_order_call text {E = E} env x symbol id) (sym engine)
                ∙ unfold get_order_call in rw c.gone refl,
          )

depth_limit-suc : (n : ℕ) → depth_limit (pos (suc n)) ≡ pos (suc n)
unfolding depth_limit
depth_limit-suc n = ground arith

module _ {A : Type 0} ⦃d : Decimal A⦄ (text : DecimalText A) {E : Type 0} where
  -- The first so many levels of each side, with price and total as text, where `make` gives room for
  -- them.
  abbrev pub levels_shown : Env → Store A → OrderBook A → ℕ → Answer E DepthAnswer
  levels_shown env st ob n =
      if leb n env.max_capacity
      then answered (record {
        symbol = ob.symbol;
        bids = convert_levels text (map (depth_level st) (take n (entries ob.bids)));
        asks = convert_levels text (map (depth_level st) (take n (entries ob.asks)));
      })
      else crashed

  abbrev pub depth_shown : Env → Store A → OrderBook A → ℤ → Answer E DepthAnswer
  depth_shown env st ob (pos zero) = levels_shown env st ob 20
  depth_shown env st ob (pos (suc n)) = levels_shown env st ob (suc n)
  depth_shown env st ob (negsuc n) = crashed

  levels_call :
      (env : Env) (e : Engine A) (symbol : String) (n : ℕ) (me : MarketEngine A)
      → find_market symbol e.markets ≡ some me
      → answer_option
          (λ (depth : Depth A). record {
            symbol = depth.symbol;
            bids = convert_levels text depth.bids;
            asks = convert_levels text depth.asks;
          })
          (depth_of env {E = E} e symbol (pos n))
        ≡ levels_shown env e.store me.book n
  unfolding depth_of
  levels_call env e symbol n me known = elim (Bool-cases (leb n env.max_capacity)) [
    | inl room ↦ rw (known, depth_of, get_depth_lem env e.store me.book n, room) refl
    | inr full ↦ rw (known, depth_of, get_depth_lem env e.store me.book n, full) refl
  ]

  -- A call for the depth of a known market is answered, on each side, with the first levels of the tree in its
  -- direction, each with its price and its total as text: as many as asked for, 20 for a limit of 0. For a negative
  -- limit, or more levels than the largest capacity that `make` gives, the call panics.
  pub get_depth_call_lem :
      (env : Env) (e : Engine A) (symbol : String) (limit : ℤ) (me : MarketEngine A)
      → find_market symbol e.markets ≡ some me
      → get_depth_call text {E = E} env e symbol limit ≡ depth_shown env e.store me.book limit
  unfolding get_depth_call depth_limit depth_of get_depth
  get_depth_call_lem env e symbol (pos zero) me known = levels_call env e symbol 20 me known
  get_depth_call_lem env e symbol (pos (suc n)) me known =
      rw (depth_limit-suc n, get_depth_call) (levels_call env e symbol (suc n) me known)
  get_depth_call_lem env e symbol (negsuc n) me known = rw (known, get_depth_call, depth_of) refl
