-- ===== src/Engine/Submission.antt =====
-- `SubmitOrder` of internal/engine/engine.go: which orders get through.
use matchengine.Prelude.{
  ℕ, ◌≡◌, ◌≢◌, refl, ap, ◌∙◌, arith, true, false, if◌then◌else◌, Option, some, none, Bool-cases,
  Option-cases, inl, inr,
}
use matchengine.Decimal.{Decimal}
use matchengine.Models.Market.{validate_order}
use matchengine.Engine.Process.{MarketEngine}
use matchengine.Engine.Api.{
  Engine, RaftNode, EngineError, invalid_order, engine_stopped, market_not_found, refused, panics,
  submit_order, send_order, propose_order, find_market,
}

module _ {A : Type 0} ⦃d : Decimal A⦄ where
  -- What an order has met that gets past the first three tests of `SubmitOrder`.
  pub record Admitted (e : Engine A) (order : ℕ) : Type 0 where
    pub running : e.running ≡ true
    pub market_engine : MarketEngine A
    pub known : find_market (e.store.orders order).symbol e.markets ≡ some market_engine
    pub valid : validate_order market_engine.market (e.store.orders order) ≡ some true

module _ {A : Type 0} ⦃d : Decimal A⦄ {E : Type 0} where
  -- `SubmitOrder` when the three tests are passed.
  submit_admitted :
      (e : Engine A) (raft : Option (RaftNode A E)) (order : ℕ) (me : MarketEngine A)
      → e.running ≡ true
      → find_market (e.store.orders order).symbol e.markets ≡ some me
      → submit_order e raft order ≡ (elim (validate_order me.market (e.store.orders order)) [
        | none ↦ panics
        | some valid ↦
            if valid
            then (if e.enable_raft
                then elim raft [
                  | some node ↦ propose_order node (e.store.orders order)
                  | none ↦ send_order e me order
                ]
                else send_order e me order)
            else refused invalid_order
      ])
  unfolding submit_order
  submit_admitted e raft order me h k = ground (arith, h, k)

  stopped :
      (e : Engine A) (raft : Option (RaftNode A E)) (order : ℕ)
      → e.running ≡ false
      → submit_order e raft order ≡ refused engine_stopped
  unfolding submit_order
  stopped e raft order h = ground (arith, h)

  unknown :
      (e : Engine A) (raft : Option (RaftNode A E)) (order : ℕ)
      → e.running ≡ true
      → find_market (e.store.orders order).symbol e.markets ≡ none
      → submit_order e raft order ≡ refused market_not_found
  unfolding submit_order
  unknown e raft order h k = ground (arith, h, k)

  -- An order that `SubmitOrder` neither refuses nor panics on, but queues, proposes or keeps waiting, was submitted
  -- to a running engine that knows its market, and is valid there.
  pub submit_order-Admitted :
      (e : Engine A) (raft : Option (RaftNode A E)) (order : ℕ)
      → ((err : EngineError E) → submit_order e raft order ≢ refused err)
      → submit_order e raft order ≢ panics
      → Admitted e order
  submit_order-Admitted e raft order h k = elim (Bool-cases e.running) [
    | inr off ↦ absurd (h engine_stopped (stopped e raft order off))
    | inl on ↦ elim (Option-cases (find_market (e.store.orders order).symbol e.markets)) [
      | inl missing ↦ absurd (h market_not_found (unknown e raft order on missing))
      | inr (me, found) ↦ elim (Option-cases (validate_order me.market (e.store.orders order))) [
        | inl crash ↦ absurd (k (submit_admitted e raft order me on found ∙ rw crash refl))
        | inr (valid, decided) ↦ elim (Bool-cases valid) [
          | inl ok ↦ record {
            running = on;
            market_engine = me;
            known = found;
            valid = decided ∙ ap some ok;
          }
          | inr bad ↦
              absurd (
                h invalid_order (submit_admitted e raft order me on found ∙ rw (decided, bad) refl))
        ]
      ]
    ]
  ]
