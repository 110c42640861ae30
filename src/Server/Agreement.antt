-- ===== src/Server/Agreement.antt =====
-- The two servers of internal/server on one request.
use text.Mathlib.Text.{◌==◌ as str_eq}
use matchengine.Prelude.{ℕ, ◌≡◌, refl, false, ◌==◌, ◌||◌, Option, some, none}
use matchengine.Outcome.{ok}
use matchengine.Decimal.{Decimal}
use matchengine.Models.Order.{Order}
use matchengine.Engine.Api.{
  Engine, RaftNode, Submitted, refused, panics, proposed, queued, waiting, submit_order,
}
use matchengine.Server.Convert.{DecimalText, ProtoOrder, convert_order_to_proto}
use matchengine.Server.Grpc.{
  Answer, answered, rejected_with, blocked, crashed, Allocation, SubmitOrderRequest, build_order,
  set_stop_price, set_visible, answer_submitted, show_order, submit_order_call, with_order,
}
use matchengine.Server.Http.{
  Response, bad_request, not_found, internal_server_error, json, stalled, aborted,
  CreateOrderRequest, side_of, type_of, time_in_force_of, requested_order, respond_submitted,
  create_order,
}

-- The same request as a message, which has no stop price and no visible amount.
abbrev pub as_message : CreateOrderRequest → SubmitOrderRequest
as_message req = record {
  user_id = req.user_id;
  symbol = req.symbol;
  side = side_of req.side;
  order_type = type_of req.order_type;
  price = req.price;
  amount = req.amount;
  time_in_force = time_in_force_of req.time_in_force;
  stop_price = "";
  visible_amount = "";
}

module _ {A E : Type 0} (text : DecimalText A) where
  -- What the two answers show: the order as a message, and the engine.
  abbrev pub shown_by_answer : Answer E (ProtoOrder × Engine A) → Option (ProtoOrder × Engine A)
  shown_by_answer (answered r) = some r
  shown_by_answer (rejected_with fault) = none
  shown_by_answer blocked = none
  shown_by_answer crashed = none

  abbrev pub shown_by_response : Response E (Order A × Engine A) → Option (ProtoOrder × Engine A)
  shown_by_response (json r) = some (convert_order_to_proto text r.0, r.1)
  shown_by_response (bad_request fault) = none
  shown_by_response (not_found fault) = none
  shown_by_response (internal_server_error fault) = none
  shown_by_response stalled = none
  shown_by_response aborted = none

module _ {A E : Type 0} ⦃d : Decimal A⦄ (text : DecimalText A) where
  shown_alike :
      (meanwhile : Engine A → Engine A) (e : Engine A) (order : ℕ) (s : Submitted A E)
      → shown_by_response text (respond_submitted meanwhile e order s)
        ≡ shown_by_answer text (answer_submitted text meanwhile e order s)
  unfolding respond_submitted answer_submitted show_order
  shown_alike meanwhile e order (refused fault) = refl
  shown_alike meanwhile e order panics = refl
  shown_alike meanwhile e order proposed = refl
  shown_alike meanwhile e order (queued e') = refl
  shown_alike meanwhile e order waiting = refl

  -- A request with a user and a symbol, to the HTTP server or as a message without stop price and visible amount to
  -- the gRPC server, where the other goroutines do the same between the hand-over and the answer: the two show
  -- the same order and leave the same engine, or neither shows an order.
  pub create_order-submit_order_call :
      (meanwhile : Engine A → Engine A) (now : ℕ) (at : Allocation) (e : Engine A)
      (raft : Option (RaftNode A E)) (req : CreateOrderRequest)
      → ((req.user_id == 0) || str_eq req.symbol "") ≡ false
      → shown_by_response text (create_order text meanwhile now at.reference e raft (ok req))
        ≡ shown_by_answer text (submit_order_call text meanwhile now at e raft (as_message req))
  unfolding create_order submit_order_call requested_order build_order set_stop_price set_visible
  create_order-submit_order_call meanwhile now at e raft req h =
      by_price (text.parse req.price) refl
    where
      by_amount :
          (price : A) (q : Option A)
          → text.parse req.price ≡ some price
          → text.parse req.amount ≡ q
          → shown_by_response text (create_order text meanwhile now at.reference e raft (ok req))
            ≡ shown_by_answer text (submit_order_call text meanwhile now at e raft (as_message req))
      by_amount price none m n = rw (h, m, n, create_order, submit_order_call) refl
      by_amount price (some amount) m n =
          let e' = with_order e at.reference (requested_order now req price amount) in
          rw (h, m, n, create_order, submit_order_call)
            (shown_alike meanwhile e' at.reference (submit_order e' raft at.reference))

      by_price :
          (p : Option A)
          → text.parse req.price ≡ p
          → shown_by_response text (create_order text meanwhile now at.reference e raft (ok req))
            ≡ shown_by_answer text (submit_order_call text meanwhile now at e raft (as_message req))
      by_price none m = rw (h, m, create_order, submit_order_call) refl
      by_price (some price) m = by_amount price (text.parse req.amount) m refl
