-- ===== src/Raft/Json.antt =====
-- encoding/json, a library, as internal/raft/node.go uses it: for three types, what encodes and what
-- decodes, each with an error.
use Prim.Native.String.{String}
use text.Mathlib.Text.{◌==◌ as str_eq}
use matchengine.Prelude.{ℕ, ◌≡◌, if◌then◌else◌, List, [], ◌∷◌, Option, some, none}
use matchengine.Outcome.{Result, ok}
use matchengine.Models.Order.{Order}

-- `Data` is raw bytes. The type is `CommandTypeOrder`, `CommandTypeSnapshot` or another number.
pub record Command (B : Type 0) : Type 0 where
  pub command_type : ℕ
  pub data_bytes : B

abbrev pub command_type_order : ℕ
command_type_order = 1

abbrev pub command_type_snapshot : ℕ
command_type_snapshot = 2

pub record StateSnapshot (A : Type 0) : Type 0 where
  pub orders : List (String × List (Order A))
  pub sequence : ℕ

-- The pointer may be nil.
pub record OrderCommand (A : Type 0) : Type 0 where
  pub order : Option (Order A)

-- `Marshal` or `Encode`, and `Unmarshal` or `Decode`, of one type. Decoding allocates: its number says where.
pub record Codec (B E X : Type 0) : Type 0 where
  pub marshal : X → Result E B
  pub unmarshal : ℕ → B → Result E X

pub record Json (A B E : Type 0) : Type 0 where
  pub command : Codec B E (Command B)
  pub order_command : Codec B E (OrderCommand A)
  pub state_snapshot : Codec B E (StateSnapshot A)

module _ {A : Type 0} where
  -- The same order, but for the identity of its stop price: decoding allocates a new number.
  abbrev pub SameOrder : Order A → Order A → Type 0
  SameOrder o p =
      (pointer : ℕ) × (p ≡ record o { stop_price = record o.stop_price { pointer = pointer } })

  abbrev pub SameOrders : List (Order A) → List (Order A) → Type 0
  SameOrders [] [] = Unit
  SameOrders [] (p ∷ ps) = ⊥
  SameOrders (o ∷ os) [] = ⊥
  SameOrders (o ∷ os) (p ∷ ps) = SameOrder o p × SameOrders os ps

  abbrev pub SameCommand : Option (Order A) → Option (Order A) → Type 0
  SameCommand none none = Unit
  SameCommand none (some p) = ⊥
  SameCommand (some o) none = ⊥
  SameCommand (some o) (some p) = SameOrder o p

  abbrev pub find_orders : String → List (String × List (Order A)) → Option (List (Order A))
  find_orders symbol [] = none
  find_orders symbol ((t, os) ∷ m) = if str_eq t symbol then some os else find_orders symbol m

  abbrev pub SameEntry : Option (List (Order A)) → Option (List (Order A)) → Type 0
  SameEntry none none = Unit
  SameEntry none (some ps) = ⊥
  SameEntry (some os) none = ⊥
  SameEntry (some os) (some ps) = SameOrders os ps

  -- As maps by symbol, in whatever order they are listed.
  abbrev pub SameMap : List (String × List (Order A)) → List (String × List (Order A)) → Type 0
  SameMap xs ys = (symbol : String) → SameEntry (find_orders symbol xs) (find_orders symbol ys)

module _ {A B E : Type 0} where
  -- What encodes decodes, wherever it allocates. The bytes inside a command are compacted: they need not
  -- be the same bytes, but they decode to the same.
  pub record KeepsOrders (json : Json A B E) : Type 0 where
    pub order_kept :
        (x : OrderCommand A) (b : B) (at : ℕ)
        → json.order_command.marshal x ≡ ok b
        → (y : OrderCommand A) × (json.order_command.unmarshal at b ≡ ok y)
          × SameCommand x.order y.order
    pub command_kept :
        (n : ℕ) (x : OrderCommand A) (bytes b : B) (at : ℕ)
        → json.order_command.marshal x ≡ ok bytes
        → json.command.marshal (record { command_type = n; data_bytes = bytes }) ≡ ok b
        → (c : Command B) × (json.command.unmarshal at b ≡ ok c)
          × (c.command_type ≡ n)
          × (json.order_command.unmarshal at c.data_bytes ≡ json.order_command.unmarshal at bytes)

  -- What encodes decodes to the same number and the same map, up to identities and order.
  pub record KeepsSnapshots (json : Json A B E) : Type 0 where
    pub snapshot_kept :
        (s : StateSnapshot A) (b : B) (at : ℕ)
        → json.state_snapshot.marshal s ≡ ok b
        → (t : StateSnapshot A) × (json.state_snapshot.unmarshal at b ≡ ok t)
          × (t.sequence ≡ s.sequence)
          × SameMap s.orders t.orders
