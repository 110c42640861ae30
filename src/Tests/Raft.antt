-- ===== src/Tests/Raft.antt =====
-- A state machine over a list of order ids, with an encoding that spells values out.
use Prim.Native.String.{String}
use text.Mathlib.Text.{◌==◌ as str_eq}
use matchengine.Prelude.{
  ℕ, ◌≡◌, refl, subst, arith, List, [], ◌∷◌, Option, some, none, Bool-cases, if◌then◌else◌, ◌==◌,
  inl, inr,
}
use matchengine.Prelude.Int.{ℤ}
use matchengine.Outcome.{Result, ok, err, Outcome, done, ◌>>=◌}
use matchengine.Models.Order.{Order, filled}
use matchengine.Raft.Json.{
  Json, Command, StateSnapshot, OrderCommand, KeepsOrders, KeepsSnapshots, SameCommand, SameOrders,
  SameMap,
}
use matchengine.Raft.Machine.{
  OrderApplier, MatchStateMachine, MatchSnapshot, persist, apply, restore, take_snapshot,
}
use matchengine.Raft.Node.{encode_order}
use matchengine.Raft.Replication.{Decoded, apply_log, run_orders, advance, apply_log-run_orders}
use matchengine.Raft.Snapshots.{restore-persist, apply_failed-keeps}
use matchengine.Tests.Sample.{sell_first, sell_second}

-- Bytes that spell a value out.
data Bytes : Type 0 where
  of_command : ℕ → Bytes → Bytes
  of_order : Option (Order ℤ) → Bytes
  of_snapshot : StateSnapshot ℤ → Bytes

abbrev read_command : ℕ → Bytes → Result String (Command Bytes)
read_command at (of_command n b) = ok (record { command_type = n; data_bytes = b })
read_command at _ = err "command"

-- An order, orders and the orders of all markets, with stop prices that stand at the given place.
abbrev place : ℕ → Order ℤ → Order ℤ
place at o = record o { stop_price = record o.stop_price { pointer = at } }

abbrev place_all : ℕ → List (Order ℤ) → List (Order ℤ)
place_all at [] = []
place_all at (o ∷ os) = place at o ∷ place_all at os

abbrev place_map : ℕ → List (String × List (Order ℤ)) → List (String × List (Order ℤ))
place_map at [] = []
place_map at ((t, os) ∷ m) = (t, place_all at os) ∷ place_map at m

abbrev read_order : ℕ → Bytes → Result String (OrderCommand ℤ)
read_order at (of_order none) = ok (record { order = none })
read_order at (of_order (some o)) = ok (record { order = some (place at o) })
read_order at _ = err "order"

abbrev read_snapshot : ℕ → Bytes → Result String (StateSnapshot ℤ)
read_snapshot at (of_snapshot s) = ok (record s { orders = place_map at s.orders })
read_snapshot at _ = err "snapshot"

abbrev plain : Json ℤ Bytes String
plain = record {
  command = record {
    marshal = λ c. ok (of_command c.command_type c.data_bytes);
    unmarshal = read_command;
  };
  order_command = record { marshal = λ c. ok (of_order c.order); unmarshal = read_order };
  state_snapshot = record { marshal = λ s. ok (of_snapshot s); unmarshal = read_snapshot };
}

read_order-kept :
    (order : Option (Order ℤ)) (at : ℕ)
    → (y : OrderCommand ℤ) × (read_order at (of_order order) ≡ ok y) × SameCommand order y.order
read_order-kept none at = (record { order = none }, refl, tt)
read_order-kept (some o) at = (record { order = some (place at o) }, refl, (at, refl))

plain-KeepsOrders : KeepsOrders plain
plain-KeepsOrders = record {
  order_kept = λ x b at h.
      let e : of_order x.order ≡ b = cc in
      subst (λ b. (y : OrderCommand ℤ) × (read_order at b ≡ ok y) × SameCommand x.order y.order) e
        (read_order-kept x.order at);
  command_kept = λ n x bytes b at h k.
      let e : of_command n bytes ≡ b = cc in
      subst
        (λ b.
          (c : Command Bytes) × (read_command at b ≡ ok c)
          × (c.command_type ≡ n)
          × (read_order at c.data_bytes ≡ read_order at bytes))
        e (record { command_type = n; data_bytes = bytes }, refl, refl, refl);
}

place_all-SameOrders : (at : ℕ) (os : List (Order ℤ)) → SameOrders os (place_all at os)
place_all-SameOrders at [] = tt
place_all-SameOrders at (o ∷ os) = ((at, refl), place_all-SameOrders at os)

place_map-SameMap : (at : ℕ) (m : List (String × List (Order ℤ))) → SameMap m (place_map at m)
place_map-SameMap at [] symbol = tt
place_map-SameMap at ((t, os) ∷ m) symbol = elim (Bool-cases (str_eq t symbol)) [
  | inl here ↦ rw here (place_all-SameOrders at os)
  | inr elsewhere ↦ rw elsewhere (place_map-SameMap at m symbol)
]

plain-KeepsSnapshots : KeepsSnapshots plain
plain-KeepsSnapshots = record {
  snapshot_kept = λ s b at h.
      let e : of_snapshot s ≡ b = cc in
      subst
        (λ b.
          (t : StateSnapshot ℤ) × (read_snapshot at b ≡ ok t)
          × (t.sequence ≡ s.sequence)
          × SameMap s.orders t.orders)
        e (record s { orders = place_map at s.orders }, refl, refl, place_map-SameMap at s.orders);
}

-- The world is the list of ids; an order that is nil is refused.
abbrev accept : Option (Order ℤ) → List ℕ → Outcome (Option String × List ℕ)
accept none w = done (some "nil", w)
accept (some o) w = done (none, o.id ∷ w)

abbrev applier : OrderApplier ℤ String (List ℕ)
applier = record {
  apply_order = accept;
  get_all_orders = λ w. ok (("BTC_USDT", 1 ∷ 2 ∷ []) ∷ []);
  restore_orders = λ orders w. (none, []);
}

abbrev machine : MatchStateMachine ℤ String (List ℕ)
machine = record { applier = some applier; sequence = 4 }

abbrev log : List (ℕ × Bytes)
log =
    (8, of_command 1 (of_order (some sell_first)))
    ∷ (9, of_command 1 (of_order (some sell_second)))
    ∷ []

apply_log-run_orders_example :
    (ps : List (Order ℤ)) × SameOrders (sell_first ∷ sell_second ∷ []) ps
    × Decoded plain log ps
    × (apply_log plain log machine [] ≡ (run_orders applier ps [] >>= advance machine))
unfolding encode_order
apply_log-run_orders_example =
    apply_log-run_orders plain plain-KeepsOrders applier (sell_first ∷ sell_second ∷ []) log machine
      [] refl (omega arith) (refl, (refl, tt))

-- Both orders were listed under one symbol; one of them was filled before they were written.
abbrev memory : ℕ → Order ℤ
memory r = if r == 1 then record sell_first { status = filled } else sell_second

abbrev listed : MatchSnapshot
listed = record { orders = ("BTC_USDT", 1 ∷ 2 ∷ []) ∷ []; sequence = 4 }

abbrev snapshot : StateSnapshot ℤ
snapshot = record { orders = ("BTC_USDT", memory 1 ∷ memory 2 ∷ []) ∷ []; sequence = 4 }

restore-persist_example :
    (applier.get_all_orders (7 ∷ []) ≡ ok listed.orders)
    × ((orders : List (String × List (Order ℤ))) × SameMap snapshot.orders orders
        × (restore plain 8 machine (of_snapshot snapshot) [] ≡ (none, machine, [])))
unfolding take_snapshot persist
restore-persist_example =
    restore-persist plain plain-KeepsSnapshots applier machine machine (7 ∷ []) [] listed memory
      (of_snapshot snapshot) 8 none refl refl refl refl

apply_failed-keeps_example : machine ≡ machine
unfolding apply
apply_failed-keeps_example =
    apply_failed-keeps plain 8 machine machine (of_order none) [] [] "command" refl
