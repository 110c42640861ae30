-- ===== src/Raft/Replication.antt =====
-- What a log of proposed orders does to the state machine of internal/raft/node.go.
use matchengine.Prelude.{
  ℕ, ◌+◌, ◌%◌, ◌^◌, ◌<◌, ◌≡◌, refl, ap, ◌∙◌, arith, ◌==◌, if◌then◌else◌, List, [], ◌∷◌, Option,
  some, none,
}
use matchengine.Outcome.{Result, ok, err, Outcome, done, panicked, exhausted, ◌>>=◌}
use matchengine.Models.Order.{Order}
use matchengine.Raft.Json.{
  Json, KeepsOrders, SameOrder, SameOrders, SameCommand, command_type_order,
}
use matchengine.Raft.Machine.{
  OrderApplier, MatchStateMachine, apply, apply_command, execute_order, finish_order, count_up,
}
use matchengine.Raft.Node.{encode_order}

abbrev pub succeeded {ℓ} : {E : Type ℓ} → Option E → ℕ
succeeded none = 1
succeeded (some e) = 0

abbrev tally : {E W : Type 0} → Option E → ℕ × W → Outcome (ℕ × W)
tally r s = done (succeeded r + s.0, s.1)

module _ {A E W : Type 0} where
  -- The machine with so many more in its sequence number.
  abbrev pub advance : MatchStateMachine A E W → ℕ × W → Outcome (MatchStateMachine A E W × W)
  advance f s = done (record f { sequence = (f.sequence + s.0) % 2 ^ 64 }, s.1)

  execute_order_lem :
      (a : OrderApplier A E W) (f : MatchStateMachine A E W) (o : Option (Order A)) (w : W)
      → f.applier ≡ some a
      → execute_order f o w ≡ (a.apply_order o w >>= finish_order f)
  unfolding execute_order
  execute_order_lem a f o w h =
      ap
        (λ (x : Option (OrderApplier A E W)). elim x [
          | none ↦ done (count_up f w)
          | some a ↦ a.apply_order o w >>= finish_order f
        ])
        h

  -- Orders applied one after the other: how many succeeded, and the world after them.
  unfoldable pub run_orders : OrderApplier A E W → List (Order A) → W → Outcome (ℕ × W)
  run_orders a [] w = done (0, w)
  run_orders a (o ∷ os) w = a.apply_order (some o) w >>= λ r. run_orders a os r.1 >>= tally r.0

module _ {A B E W : Type 0} (json : Json A B E) where
  -- The entries of a log, one after the other, each with where its decoding allocates.
  unfoldable pub apply_log :
      List (ℕ × B) → MatchStateMachine A E W → W → Outcome (MatchStateMachine A E W × W)
  apply_log [] f w = done (f, w)
  apply_log ((at, b) ∷ bs) f w = apply json at f b w >>= λ r. apply_log bs r.1 r.2

module _ {A B E : Type 0} (json : Json A B E) where
  -- The log entries of these orders.
  abbrev pub Encoded : List (Order A) → List (ℕ × B) → Type 0
  Encoded [] [] = Unit
  Encoded [] (b ∷ bs) = ⊥
  Encoded (o ∷ os) [] = ⊥
  Encoded (o ∷ os) ((at, b) ∷ bs) = (encode_order json o ≡ ok b) × Encoded os bs

  -- The order in a log entry.
  abbrev pub decode_order : ℕ → B → Option (Order A)
  decode_order at b = elim (json.command.unmarshal at b) [
    | err e ↦ none
    | ok c ↦
        if c.command_type == command_type_order
        then elim (json.order_command.unmarshal at c.data_bytes) [ err e ↦ none | ok x ↦ x.order ]
        else none
  ]

  -- The orders in these log entries.
  abbrev pub Decoded : List (ℕ × B) → List (Order A) → Type 0
  Decoded [] [] = Unit
  Decoded [] (o ∷ os) = ⊥
  Decoded (b ∷ bs) [] = ⊥
  Decoded ((at, b) ∷ bs) (o ∷ os) = (decode_order at b ≡ some o) × Decoded bs os

unchanged : (n : ℕ) → n < 2 ^ 64 → n ≡ (n + 0) % 2 ^ 64
unchanged n h = omega (arith, h)

counted : (n k : ℕ) → ((n + 1) % 2 ^ 64 + k) % 2 ^ 64 ≡ (n + (1 + k)) % 2 ^ 64
counted n k = omega arith

module _ {A B E W : Type 0} (json : Json A B E) where
  -- A log entry with an order in it executes that order.
  apply-decode_order :
      (at : ℕ) (f : MatchStateMachine A E W) (o : Order A) (b : B) (w : W)
      → decode_order json at b ≡ some o
      → apply json at f b w ≡ execute_order f (some o) w
  unfolding apply apply_command
  apply-decode_order at f o b w h = ground (arith, h)

module _ {A B E : Type 0} (json : Json A B E) (kept : KeepsOrders json) where
  same_command :
      (o : Order A) (x : Option (Order A))
      → SameCommand (some o) x
      → (p : Order A) × SameOrder o p × (x ≡ some p)
  same_command o none s = absurd s
  same_command o (some p) s = (p, s, refl)

  -- The log entry of an order has that order in it, but for the identity of its stop price.
  decode-encode_order :
      (at : ℕ) (o : Order A) (b : B)
      → encode_order json o ≡ ok b
      → (p : Order A) × SameOrder o p × (decode_order json at b ≡ some p)
  unfolding encode_order
  decode-encode_order at o b h =
      by_bytes (json.order_command.marshal (record { order = some o })) refl
    where
      by_bytes :
          (x : Result E B)
          → json.order_command.marshal (record { order = some o }) ≡ x
          → (p : Order A) × SameOrder o p × (decode_order json at b ≡ some p)
      by_bytes (err e) m = let wrong : err e ≡ ok b = (rw (m, encode_order) at h) in cc
      by_bytes (ok bytes) m =
          let (c, read, is_order, same_bytes) =
            kept.command_kept command_type_order _ bytes b at m (rw (m, encode_order) at h) in
          let (y, inner, same) = kept.order_kept _ bytes at m in
          let (p, alike, found) = same_command o y.order same in
          (p, alike, rw (decode_order, read, is_order, same_bytes, inner) found)

  decode_all :
      (os : List (Order A)) (bs : List (ℕ × B))
      → Encoded json os bs
      → (ps : List (Order A)) × SameOrders os ps × Decoded json bs ps
  decode_all [] [] e = ([], tt, tt)
  decode_all [] (b ∷ bs) e = absurd e
  decode_all (o ∷ os) [] e = absurd e
  decode_all (o ∷ os) ((at, b) ∷ bs) e =
      let (p, alike, found) = decode-encode_order at o b e.0 in
      let (ps, all_alike, all_found) = decode_all os bs e.1 in
      (p ∷ ps, (alike, all_alike), (found, all_found))

module _ {A B E W : Type 0} (json : Json A B E) where
  apply_log-Decoded :
      (a : OrderApplier A E W) (os : List (Order A)) (bs : List (ℕ × B))
      (f : MatchStateMachine A E W) (w : W)
      → f.applier ≡ some a
      → f.sequence < 2 ^ 64
      → Decoded json bs os
      → apply_log json bs f w ≡ (run_orders a os w >>= advance f)
  unfolding apply_log run_orders finish_order count_up
  apply_log-Decoded a [] [] f w h k e =
      ap (λ n. done (record f { sequence = n }, w)) (unchanged f.sequence k)
  apply_log-Decoded a [] (b ∷ bs) f w h k e = absurd e
  apply_log-Decoded a (o ∷ os) [] f w h k e = absurd e
  apply_log-Decoded a (o ∷ os) ((at, b) ∷ bs) f w h k e =
      rw (apply-decode_order json at f o b w e.0, execute_order_lem a f (some o) w h)
        (by_outcome (λ f' w' h' k'. apply_log-Decoded a os bs f' w' h' k' e.1)
          (a.apply_order (some o) w))
    where
      after_error :
          (e : E) (x : Outcome (ℕ × W)) → (x >>= advance f) ≡ (x >>= tally (some e) >>= advance f)
      after_error e (done s) =
          ap (λ n. done (record f { sequence = (f.sequence + n) % 2 ^ 64 }, s.1)) (omega arith)
      after_error e panicked = refl
      after_error e exhausted = refl

      after_success :
          (x : Outcome (ℕ × W))
          → (x >>= advance (record f { sequence = (f.sequence + 1) % 2 ^ 64 }))
            ≡ (x >>= tally {E = E} none >>= advance f)
      after_success (done s) =
          ap (λ n. done (record f { sequence = n }, s.1)) (counted f.sequence s.0)
      after_success panicked = refl
      after_success exhausted = refl

      by_outcome :
          ((f' : MatchStateMachine A E W) (w' : W)
            → f'.applier ≡ some a
            → f'.sequence < 2 ^ 64
            → apply_log json bs f' w' ≡ (run_orders a os w' >>= advance f'))
          → (x : Outcome (Option E × W))
          → (x >>= finish_order f >>= λ r. apply_log json bs r.1 r.2)
            ≡ ((x >>= λ r. run_orders a os r.1 >>= tally r.0) >>= advance f)
      by_outcome rest panicked = refl
      by_outcome rest exhausted = refl
      by_outcome rest (done (some fault, w')) =
          rest f w' h k ∙ after_error fault (run_orders a os w')
      by_outcome rest (done (none, w')) =
          rest (record f { sequence = (f.sequence + 1) % 2 ^ 64 }) w' h (omega arith)
          ∙ after_success (run_orders a os w')

module _ {A B E W : Type 0} (json : Json A B E) (kept : KeepsOrders json) where
  -- Let an encoding keep orders but for the identities of their stop prices. On a log of proposed orders, each entry
  -- decodes to its order with such an identity, and the state machine does what applying these decoded orders
  -- in turn does; its sequence number, on 64 bits, grows by the number of those that succeeded.
  pub apply_log-run_orders :
      (a : OrderApplier A E W) (os : List (Order A)) (bs : List (ℕ × B))
      (f : MatchStateMachine A E W) (w : W)
      → f.applier ≡ some a
      → f.sequence < 2 ^ 64
      → Encoded json os bs
      → (ps : List (Order A)) × SameOrders os ps
        × Decoded json bs ps
        × (apply_log json bs f w ≡ (run_orders a ps w >>= advance f))
  apply_log-run_orders a os bs f w h k e =
      let (ps, alike, found) = decode_all json kept os bs e in
      (ps, alike, found, apply_log-Decoded json a ps bs f w h k found)
