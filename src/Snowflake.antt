-- ===== src/Snowflake.antt =====
-- pkg/utils/sequence.go: the Snowflake generator. The clock is an argument: the n-th reading of
-- `time.Now().UnixMilli()`. A state counts the readings that it has used.
pub mod Ids
use matchengine.Prelude.{
  ℕ, zero, suc, ◌+◌, ◌-◌, ◌*◌, ◌%◌, ◌^◌, Bool, true, false, if◌then◌else◌, ltb, leb, ◌==◌, Option,
  some, none, List, [], ◌∷◌,
}
use matchengine.Outcome.{Outcome, done, panicked, exhausted, ◌>>=◌}

abbrev pub node_bits : ℕ
node_bits = 10

abbrev pub sequence_bits : ℕ
sequence_bits = 12

-- -1 ^ (-1 << bits)
abbrev pub node_max : ℕ
node_max = 1023

abbrev pub sequence_max : ℕ
sequence_max = 4095

abbrev pub node_shift : ℕ
node_shift = 12

abbrev pub timestamp_shift : ℕ
timestamp_shift = 22

-- 2024-01-01 00:00:00 UTC
abbrev pub epoch : ℕ
epoch = 1704067200000

pub record Snowflake : Type 0 where
  pub timestamp : ℕ
  pub node_id : ℕ
  pub sequence : ℕ
  pub readings : ℕ

-- `none` is the panic on a node id out of range; a negative one is out of the model.
unfoldable pub new_snowflake : ℕ → Option Snowflake
new_snowflake node_id =
    if ltb node_max node_id
    then none
    else some (record { timestamp = 0; node_id = node_id; sequence = 0; readings = 0 })

-- ((now - epoch) << 22) | (node << 12) | sequence, as a `uint64`. The node and the sequence are below
-- 2^10 and 2^12, so that the three occupy different bits and the disjunction is a sum. The difference
-- wraps when the clock is before the epoch.
unfoldable pub pack_id : ℕ → ℕ → ℕ → ℕ
pack_id now node sequence =
    ((now + 2 ^ 64 - epoch) * 2 ^ timestamp_shift + node * 2 ^ node_shift + sequence) % 2 ^ 64

module _ (clock : ℕ → ℕ) where
  -- `for now <= s.timestamp { now = time.Now().UnixMilli() }`; the result counts the readings.
  unfoldable pub wait_until_after : ℕ → ℕ → ℕ → ℕ → Outcome (ℕ × ℕ)
  wait_until_after zero timestamp now readings = exhausted
  wait_until_after (suc fuel) timestamp now readings = elim (leb now timestamp) [
    | false ↦ done (now, readings)
    | true ↦ wait_until_after fuel timestamp (clock readings) (suc readings)
  ]

  -- The last part of `Generate`: the new state, and the id.
  abbrev pub issue_id : Snowflake → ℕ → ℕ → ℕ → ℕ × Snowflake
  issue_id s now sequence readings = (
    pack_id now s.node_id sequence,
    record s { timestamp = now; sequence = sequence; readings = readings },
  )

  -- `Generate`, with fuel for the wait when the sequence of a millisecond is used up.
  unfoldable pub generate : ℕ → Snowflake → Outcome (ℕ × Snowflake)
  generate fuel s =
      let now = clock s.readings in
      let readings = suc s.readings in
      let sequence = (s.sequence + 1) % 2 ^ sequence_bits in
      if ltb now s.timestamp
      then panicked
      else if now == s.timestamp
      then if sequence == 0
        then (wait_until_after fuel s.timestamp now readings >>= λ waited.
            done (issue_id s waited.0 sequence waited.1))
        else done (issue_id s now sequence readings)
      else done (issue_id s now 0 readings)

  -- The ids of successive calls.
  unfoldable pub generate_many : ℕ → ℕ → Snowflake → Outcome (List ℕ × Snowflake)
  generate_many fuel zero s = done ([], s)
  generate_many fuel (suc n) s = generate fuel s >>= λ first.
      generate_many fuel n first.1 >>= λ rest. done (first.0 ∷ rest.0, rest.1)
