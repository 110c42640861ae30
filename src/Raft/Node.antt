-- ===== src/Raft/Node.antt =====
-- internal/raft/node.go: `RaftNode`. The node of hashicorp/raft is an argument: whether it leads, and
-- the error of `Apply` on some data, which waits for the consensus.
use matchengine.Prelude.{ℕ, Bool, Option, some}
use matchengine.Models.Order.{Order}
use matchengine.Outcome.{Result, ok, err}
use matchengine.Raft.Json.{command_type_order, Json}
use matchengine.Raft.Machine.{MatchStateMachine}

pub record Consensus (B E : Type 0) : Type 0 where
  pub leads : Bool
  pub replicate : B → Option E

pub record RaftNode (A B E W : Type 0) : Type 0 where
  pub raft : Consensus B E
  pub fsm : MatchStateMachine A E W

module _ {A B E : Type 0} (json : Json A B E) where
  -- The data of the log entry for an order.
  unfoldable pub encode_order : Order A → Result E B
  encode_order order = elim (json.order_command.marshal (record { order = some order })) [
    | err e ↦ err e
    | ok data_bytes ↦
        json.command.marshal (record { command_type = command_type_order; data_bytes = data_bytes })
  ]

module _ {A B E W : Type 0} (json : Json A B E) where
  -- `ProposeOrder`
  unfoldable pub propose_order : RaftNode A B E W → Order A → Option E
  propose_order n order = elim (encode_order json order) [
    | err e ↦ some e
    | ok bytes ↦ n.raft.replicate bytes
  ]

module _ {A B E W : Type 0} where
  unfoldable pub is_leader : RaftNode A B E W → Bool
  is_leader n = n.raft.leads

  unfoldable pub get_sequence : RaftNode A B E W → ℕ
  get_sequence n = n.fsm.sequence
