-- ===== src/Raft/Machine.antt =====
-- internal/raft/node.go: `MatchStateMachine` and `MatchSnapshot`. The world `W` is what the applier works
-- on; a method that may panic or loop has an `Outcome`. The mutex is held through each method.
use Prim.Native.String.{String}
use matchengine.Prelude.{ℕ, ◌+◌, ◌%◌, ◌^◌, ◌==◌, if◌then◌else◌, map, List, [], Option, some, none}
use matchengine.Outcome.{Result, ok, err, Outcome, done, ◌>>=◌}
use matchengine.Models.Order.{Order}
use matchengine.Raft.Json.{Command, command_type_order, command_type_snapshot, StateSnapshot, Json}

-- The interface that the engine implements.
pub record OrderApplier (A E W : Type 0) : Type 0 where
  pub apply_order : Option (Order A) → W → Outcome (Option E × W)
  pub get_all_orders : W → Result E (List (String × List ℕ))
  pub restore_orders : List (String × List (Order A)) → W → Option E × W

pub record MatchStateMachine (A E W : Type 0) : Type 0 where
  pub applier : Option (OrderApplier A E W)
  pub sequence : ℕ

-- The orders are shared with the engine: they are references.
pub record MatchSnapshot : Type 0 where
  pub orders : List (String × List ℕ)
  pub sequence : ℕ

-- What `Apply` returns: an error, the new sequence number, or nil.
pub data Applied (E : Type 0) : Type 0 where
  apply_failed : E → Applied E
  applied : ℕ → Applied E
  nothing : Applied E

-- What `Persist` did to the sink: cancelled it with an error, or wrote these bytes and closed it.
pub data Persisted (B E : Type 0) : Type 0 where
  cancelled : E → Persisted B E
  closed : B → Option E → Persisted B E

module _ {A E W : Type 0} where
  unfoldable pub new_match_state_machine : Option (OrderApplier A E W) → MatchStateMachine A E W
  new_match_state_machine applier = record { applier = applier; sequence = 0 }

  -- `f.sequence++`, on 64 bits.
  unfoldable pub count_up : MatchStateMachine A E W → W → Applied E × MatchStateMachine A E W × W
  count_up f w = let n = (f.sequence + 1) % 2 ^ 64 in (applied n, record f { sequence = n }, w)

  unfoldable pub finish_order :
      MatchStateMachine A E W → Option E × W → Outcome (Applied E × MatchStateMachine A E W × W)
  finish_order f (none, w) = done (count_up f w)
  finish_order f (some e, w) = done (apply_failed e, f, w)

  unfoldable pub execute_order :
      MatchStateMachine A E W
      → Option (Order A)
      → W
      → Outcome (Applied E × MatchStateMachine A E W × W)
  execute_order f order w = elim f.applier [
    | none ↦ done (count_up f w)
    | some a ↦ a.apply_order order w >>= finish_order f
  ]

  unfoldable pub finish_restore :
      MatchStateMachine A E W → ℕ → Option E × W → Option E × MatchStateMachine A E W × W
  finish_restore f n (none, w) = (none, record f { sequence = n }, w)
  finish_restore f n (some e, w) = (some e, f, w)

  -- The orders of a snapshot are restored, and then its sequence number.
  unfoldable pub restore_state :
      MatchStateMachine A E W → StateSnapshot A → W → Option E × MatchStateMachine A E W × W
  restore_state f s w = elim f.applier [
    | none ↦ finish_restore f s.sequence (none, w)
    | some a ↦ finish_restore f s.sequence (a.restore_orders s.orders w)
  ]

  abbrev pub as_applied :
      Option E × MatchStateMachine A E W × W → Applied E × MatchStateMachine A E W × W
  as_applied (none, f, w) = (nothing, f, w)
  as_applied (some e, f, w) = (apply_failed e, f, w)

  -- `Snapshot`
  unfoldable pub take_snapshot : MatchStateMachine A E W → W → Result E MatchSnapshot
  take_snapshot f w = elim f.applier [
    | none ↦ ok (record { orders = []; sequence = f.sequence })
    | some a ↦ elim (a.get_all_orders w) [
      | err e ↦ err e
      | ok orders ↦ ok (record { orders = orders; sequence = f.sequence })
    ]
  ]

module _ {A B E W : Type 0} (json : Json A B E) where
  -- The `switch` on the type of the command.
  unfoldable pub apply_command :
      ℕ
      → MatchStateMachine A E W
      → Command B
      → W
      → Outcome (Applied E × MatchStateMachine A E W × W)
  apply_command at f cmd w =
      if cmd.command_type == command_type_order
      then elim (json.order_command.unmarshal at cmd.data_bytes) [
        | err e ↦ done (apply_failed e, f, w)
        | ok c ↦ execute_order f c.order w
      ]
      else if cmd.command_type == command_type_snapshot
      then elim (json.state_snapshot.unmarshal at cmd.data_bytes) [
        | err e ↦ done (apply_failed e, f, w)
        | ok s ↦ done (as_applied (restore_state f s w))
      ]
      else done (nothing, f, w)

  -- `Apply`, on the data of the log entry; decoding allocates at the given place.
  unfoldable pub apply :
      ℕ → MatchStateMachine A E W → B → W → Outcome (Applied E × MatchStateMachine A E W × W)
  apply at f log w = elim (json.command.unmarshal at log) [
    | err e ↦ done (apply_failed e, f, w)
    | ok cmd ↦ apply_command at f cmd w
  ]

  -- `Restore`
  unfoldable pub restore :
      ℕ → MatchStateMachine A E W → B → W → Option E × MatchStateMachine A E W × W
  restore at f bytes w = elim (json.state_snapshot.unmarshal at bytes) [
    | err e ↦ (some e, f, w)
    | ok s ↦ restore_state f s w
  ]

-- The orders of these references, in a memory.
abbrev pub contents :
    {A : Type 0} → (ℕ → Order A) → List (String × List ℕ) → List (String × List (Order A))
contents memory = map (λ m. (m.0, map memory m.1))

module _ {A B E : Type 0} (json : Json A B E) where
  -- `Persist`, with the memory at that time and what closing the sink returns. Raft may apply orders
  -- between `Snapshot` and `Persist`.
  unfoldable pub persist : (ℕ → Order A) → MatchSnapshot → Option E → Persisted B E
  persist memory s close =
      elim (json.state_snapshot.marshal
        (record { orders = contents memory s.orders; sequence = s.sequence })) [
          | err e ↦ cancelled e
          | ok b ↦ closed b close
        ]
