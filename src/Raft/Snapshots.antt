-- ===== src/Raft/Snapshots.antt =====
-- What a snapshot of internal/raft/node.go keeps, and what an error leaves.
use Prim.Native.String.{String}
use matchengine.Prelude.{ℕ, ◌≡◌, refl, ap, arith, List, Option, some, none}
use matchengine.Outcome.{Result, ok, err, done}
use matchengine.Models.Order.{Order}
use matchengine.Raft.Json.{Json, StateSnapshot, KeepsSnapshots, SameMap}
use matchengine.Raft.Machine.{
  OrderApplier, MatchStateMachine, MatchSnapshot, apply_failed, closed, cancelled, apply,
  apply_command, execute_order, finish_order, count_up, restore, restore_state, finish_restore,
  take_snapshot, persist, contents,
}

module _ {A B E : Type 0} (json : Json A B E) where
  abbrev written : (ℕ → Order A) → MatchSnapshot → StateSnapshot A
  written memory s = record { orders = contents memory s.orders; sequence = s.sequence }

  persisted :
      (memory : ℕ → Order A) (s : MatchSnapshot) (b : B) (close : Option E)
      → persist json memory s close ≡ closed b close
      → json.state_snapshot.marshal (written memory s) ≡ ok b
  unfolding persist
  persisted memory s b close h = by_bytes (json.state_snapshot.marshal (written memory s)) refl
    where
      by_bytes :
          (x : Result E B)
          → json.state_snapshot.marshal (written memory s) ≡ x
          → json.state_snapshot.marshal (written memory s) ≡ ok b
      by_bytes (err e) m = let wrong : cancelled e ≡ closed b close = (rw (m, persist) at h) in cc
      by_bytes (ok c) m = let same : closed c close ≡ closed b close = (rw (m, persist) at h) in cc

-- The sequence number after a restoration, where an error leaves the old one.
abbrev pub sequence_after : {E : Type 0} → Option E → ℕ → ℕ → ℕ
sequence_after none restored old = restored
sequence_after (some e) restored old = old

module _ {A E W : Type 0} where
  finish_restore_lem :
      (f : MatchStateMachine A E W) (n : ℕ) (r : Option E × W)
      → finish_restore f n r ≡ (r.0, record f { sequence = sequence_after r.0 n f.sequence }, r.1)
  unfolding finish_restore
  finish_restore_lem f n (none, w) = refl
  finish_restore_lem f n (some e, w) = refl

  restore_state_lem :
      (a : OrderApplier A E W) (f : MatchStateMachine A E W) (s : StateSnapshot A) (w : W)
      → f.applier ≡ some a
      → restore_state f s w ≡ finish_restore f s.sequence (a.restore_orders s.orders w)
  unfolding restore_state
  restore_state_lem a f s w h =
      ap
        (λ (x : Option (OrderApplier A E W)). elim x [
          | none ↦ finish_restore f s.sequence (none, w)
          | some a ↦ finish_restore f s.sequence (a.restore_orders s.orders w)
        ])
        h

  taken_orders :
      (a : OrderApplier A E W) (f : MatchStateMachine A E W) (w : W) (s : MatchSnapshot)
      → f.applier ≡ some a
      → take_snapshot f w ≡ ok s
      → (a.get_all_orders w ≡ ok s.orders) × (f.sequence ≡ s.sequence)
  unfolding take_snapshot
  taken_orders a f w s h taken = by_orders (a.get_all_orders w) refl
    where
      by_orders :
          (x : Result E (List (String × List ℕ)))
          → a.get_all_orders w ≡ x
          → (a.get_all_orders w ≡ ok s.orders) × (f.sequence ≡ s.sequence)
      by_orders (err e) m = let wrong : err e ≡ ok s = (rw (h, m, take_snapshot) at taken) in cc
      by_orders (ok orders) m =
          let found : MatchSnapshot = record { orders = orders; sequence = f.sequence } in
          let answer : Result E MatchSnapshot = ok found in
          let same : answer ≡ ok s = (rw (h, m, take_snapshot) at taken) in (cc, cc)

module _ {A B E W : Type 0} (json : Json A B E) (kept : KeepsSnapshots json) where
  -- Let an encoding keep snapshots, as maps by symbol, but for the identities of stop prices. What `Snapshot` takes of a
  -- machine with an applier are the orders that the applier lists; and when `Persist` writes them, as they are at
  -- that time, `Restore` of what it wrote, on any machine with that applier, has the applier restore these orders. The
  -- machine then has the sequence number of the snapshot, or, where the applier fails, returns that error and
  -- keeps its own.
  pub restore-persist :
      (a : OrderApplier A E W) (f f' : MatchStateMachine A E W) (w w' : W) (s : MatchSnapshot)
      (memory : ℕ → Order A) (b : B) (at : ℕ) (close : Option E)
      → f.applier ≡ some a
      → f'.applier ≡ some a
      → take_snapshot f w ≡ ok s
      → persist json memory s close ≡ closed b close
      → (a.get_all_orders w ≡ ok s.orders)
        × ((orders : List (String × List (Order A))) × SameMap (contents memory s.orders) orders
            × (let r = a.restore_orders orders w' in
                restore json at f' b w'
                ≡ (r.0, record f' { sequence = sequence_after r.0 f.sequence f'.sequence }, r.1)))
  unfolding restore
  restore-persist a f f' w w' s memory b at close h h' taken written =
      let (orders, sequence) = taken_orders a f w s h taken in
      let (t, read, same_sequence, alike) =
        kept.snapshot_kept _ b at (persisted json memory s b close written) in
      (
        orders,
        (
          t.orders,
          alike,
          rw (read, restore, restore_state_lem a f' t w' h', same_sequence, sequence)
              (finish_restore_lem f' s.sequence (a.restore_orders t.orders w')),
        ),
      )

module _ {A B E W : Type 0} (json : Json A B E) where
  -- When `Apply` returns an error, of whatever step, the machine and its sequence number are as before.
  pub apply_failed-keeps :
      (at : ℕ) (f f' : MatchStateMachine A E W) (b : B) (w w' : W) (e : E)
      → apply json at f b w ≡ done (apply_failed e, f', w')
      → f' ≡ f
  unfolding apply apply_command execute_order finish_order restore_state finish_restore count_up
  apply_failed-keeps at f f' b w w' e h = ground (arith, h)
