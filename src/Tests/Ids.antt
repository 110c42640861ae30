-- ===== src/Tests/Ids.antt =====
-- Generators whose clock stands at one millisecond for two readings, and then at the next.
use matchengine.Prelude.{
  ℕ, ◌+◌, ◌/◌, ◌%◌, ◌^◌, ◌<◌, ◌≡◌, ◌≢◌, ◌↔◌, refl, arith, List, [], ◌∷◌, All, ltb, if◌then◌else◌,
}
use matchengine.Outcome.{done, panicked}
use matchengine.Snowflake.{Snowflake, generate, generate_many, pack_id, epoch}
use matchengine.Snowflake.Ids.{
  pack_id_fields, InWindow, IsReady, IsIncreasing, generate_many-IsIncreasing, generate_many_apart,
  generate_panics, generate_total,
}

-- Two readings in the first millisecond, and all others in the next.
abbrev slow_clock : ℕ → ℕ
slow_clock n = if ltb n 2 then epoch else epoch + 1

abbrev fresh : ℕ → Snowflake
fresh node = record { timestamp = 0; node_id = node; sequence = 0; readings = 0 }

fresh-IsReady : (node : ℕ) → node < 2 ^ 10 → IsReady (fresh node)
fresh-IsReady node h = record { node_fits = h; sequence_fits = omega arith }

in_window : (i : ℕ) → InWindow (slow_clock i)
in_window i = ground arith

abbrev three_ids : ℕ → List ℕ × Snowflake
three_ids node = (
  pack_id epoch node 0 ∷ pack_id epoch node 1 ∷ pack_id (epoch + 1) node 0 ∷ [],
  record { timestamp = epoch + 1; node_id = node; sequence = 0; readings = 3 },
)

generates : (node : ℕ) → generate_many slow_clock 2 3 (fresh node) ≡ done (three_ids node)
unfolding generate_many generate
generates node = refl

pack_id_fields_example :
    let id = pack_id (epoch + 5) 3 9 in
    (id / 2 ^ 22 + epoch ≡ epoch + 5)
    × (id / 2 ^ 12 % 2 ^ 10 ≡ 3)
    × (id % 2 ^ 12 ≡ 9)
    × (id < 2 ^ 63)
pack_id_fields_example = pack_id_fields (epoch + 5) 3 9 (omega arith) (omega arith) (omega arith)

generate_many-IsIncreasing_example : IsIncreasing (three_ids 3).0
generate_many-IsIncreasing_example =
    generate_many-IsIncreasing slow_clock in_window 2 3 (fresh 3) (three_ids 3)
      (fresh-IsReady 3 (omega arith)) (generates 3)

generate_many_apart_example : All (λ i. All (λ j. i ≢ j) (three_ids 4).0) (three_ids 3).0
generate_many_apart_example =
    generate_many_apart slow_clock slow_clock 2 3 3 (fresh 3) (fresh 4) (three_ids 3) (three_ids 4)
      in_window in_window (fresh-IsReady 3 (omega arith)) (fresh-IsReady 4 (omega arith))
      (λ h. omega (arith, h)) (generates 3) (generates 4)

-- The last of the sequence numbers of the first millisecond is taken.
abbrev used_up : Snowflake
used_up = record { timestamp = epoch; node_id = 3; sequence = 4095; readings = 0 }

generate_panics_example : (generate (λ n. 5) 3 used_up ≡ panicked) ↔ (5 < epoch)
generate_panics_example = generate_panics (λ n. 5) 3 used_up

generate_total_example : (r : ℕ × Snowflake) × (generate slow_clock 3 used_up ≡ done r)
generate_total_example =
    generate_total slow_clock 1 2 used_up (omega arith) (omega arith) (omega arith)
