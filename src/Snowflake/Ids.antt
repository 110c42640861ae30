-- ===== src/Snowflake/Ids.antt =====
-- The ids of the Snowflake generator of pkg/utils/sequence.go: their layout and their order.
use matchengine.Prelude.{
  ℕ, zero, suc, ◌+◌, ◌-◌, ◌*◌, ◌/◌, ◌%◌, ◌^◌, ◌≡◌, ◌<◌, ◌≤◌, refl, false, ltb, leb, ◌==◌, arith,
  List, [], ◌∷◌, All, All-imp, ◌↔◌, subst, Bool-cases, inl, inr, sym, ap, ◌∙◌, ◌≢◌,
}
use matchengine.Outcome.{done, panicked, >>=-eq-done}
use matchengine.Snowflake.{
  Snowflake, pack_id, epoch, generate, generate_many, wait_until_after, issue_id,
}

-- The clock is past the epoch, and its 41 bits hold.
abbrev pub InWindow : ℕ → Type 0
InWindow t = (epoch ≤ t) × (t < epoch + 2 ^ 41)

pub pack_id_lem :
    (now node sequence : ℕ)
    → InWindow now
    → node < 2 ^ 10
    → sequence < 2 ^ 12
    → (pack_id now node sequence ≡ (now - epoch) * 2 ^ 22 + node * 2 ^ 12 + sequence)
unfolding pack_id
pack_id_lem now node sequence w n s = omega arith

-- For a time in the 41 bits after the epoch, a node of 10 bits and a sequence number of 12, the id
-- gives back the three fields, and fits 63 bits.
pub pack_id_fields :
    (now node sequence : ℕ)
    → InWindow now
    → node < 2 ^ 10
    → sequence < 2 ^ 12
    → let id = pack_id now node sequence in
      (id / 2 ^ 22 + epoch ≡ now)
      × (id / 2 ^ 12 % 2 ^ 10 ≡ node)
      × (id % 2 ^ 12 ≡ sequence)
      × (id < 2 ^ 63)
pack_id_fields now node sequence w n s = omega (arith, pack_id_lem now node sequence w n s)

pub record IsReady (s : Snowflake) : Type 0 where
  pub node_fits : s.node_id < 2 ^ 10
  pub sequence_fits : s.sequence < 2 ^ 12

-- What a call leaves: the id is that of the new state, which is later than the old one.
record Advances (s t : Snowflake) (id : ℕ) : Type 0 where
  ready : IsReady t
  same_node : t.node_id ≡ s.node_id
  packed : id ≡ pack_id t.timestamp t.node_id t.sequence
  in_window : InWindow t.timestamp
  later : s.timestamp * 2 ^ 12 + s.sequence < t.timestamp * 2 ^ 12 + t.sequence

wait_until_after-lt :
    (clock : ℕ → ℕ) (fuel timestamp now readings : ℕ) (r : ℕ × ℕ)
    → wait_until_after clock fuel timestamp now readings ≡ done r
    → ((i : ℕ) → InWindow (clock i))
    → InWindow now
    → (timestamp < r.0) × InWindow r.0
unfolding wait_until_after
wait_until_after-lt clock zero timestamp now readings r h w wn = ground arith
wait_until_after-lt clock (suc fuel) timestamp now readings r h w wn = ground (
  arith,
  wait_until_after-lt clock fuel timestamp (clock readings) (suc readings) r,
  w readings,
  w,
)

-- An id of a later time, or of the same time and a later sequence number.
issue_id-Advances :
    (clock : ℕ → ℕ) (s : Snowflake) (now sequence readings : ℕ) (r : ℕ × Snowflake)
    → IsReady s
    → InWindow now
    → sequence < 2 ^ 12
    → s.timestamp * 2 ^ 12 + s.sequence < now * 2 ^ 12 + sequence
    → issue_id clock s now sequence readings ≡ r
    → Advances s r.1 r.0
issue_id-Advances clock s now sequence readings r v w fits later e =
    subst (λ (r : ℕ × Snowflake). Advances s r.1 r.0) e
      (record {
        ready = record { node_fits = v.node_fits; sequence_fits = fits };
        same_node = refl;
        packed = refl;
        in_window = w;
        later = later;
      })

done_injective {ℓ} : {B : Type ℓ} {a b : B} → done a ≡ done b → a ≡ b
done_injective h = cc

generate-Advances :
    (clock : ℕ → ℕ) (fuel : ℕ) (s : Snowflake) (r : ℕ × Snowflake)
    → ((i : ℕ) → InWindow (clock i))
    → IsReady s
    → generate clock fuel s ≡ done r
    → Advances s r.1 r.0
unfolding generate
generate-Advances clock fuel s r w v h =
    let now = clock s.readings in
    let readings = suc s.readings in
    let sequence = (s.sequence + 1) % 2 ^ 12 in
    let fits : sequence < 2 ^ 12 = omega arith in
    let after =
      λ (waited : ℕ × ℕ) (e : wait_until_after clock fuel s.timestamp now readings ≡ done waited).
        wait_until_after-lt clock fuel s.timestamp now readings waited e w (w s.readings) in
    elim (Bool-cases (ltb now s.timestamp)) [
      | inl back ↦ absurd (ground arith)
      | inr forward ↦ elim (Bool-cases (now == s.timestamp)) [
        | inr fresh ↦
            issue_id-Advances clock s now 0 readings r v (w s.readings) (omega arith) (ground arith)
              (ground arith)
        | inl same ↦ elim (Bool-cases (sequence == 0)) [
          | inr room ↦
              issue_id-Advances clock s now sequence readings r v (w s.readings) fits (ground arith)
                (ground arith)
          | inl full ↦
              let (waited, ew, e) =
                >>=-eq-done (wait_until_after clock fuel s.timestamp now readings)
                  (λ waited. done (issue_id clock s waited.0 sequence waited.1)) (ground arith) in
              issue_id-Advances clock s waited.0 sequence waited.1 r v (after waited ew).1 fits
                (ground (arith, (after waited ew).0)) (done_injective e)
        ]
      ]
    ]

abbrev pub IsIncreasing : List ℕ → Type 0
IsIncreasing [] = Unit
IsIncreasing (i ∷ is) = All (λ j. i < j) is × IsIncreasing is

abbrev id_of : Snowflake → ℕ
id_of s = pack_id s.timestamp s.node_id s.sequence

Advances-lt :
    {s t : Snowflake} {id : ℕ}
    → IsReady s
    → InWindow s.timestamp
    → Advances s t id
    → id_of s < id_of t
Advances-lt {s} {t} v w a = omega (
  arith,
  a.later,
  a.same_node,
  pack_id_lem s.timestamp s.node_id s.sequence w v.node_fits v.sequence_fits,
  pack_id_lem t.timestamp t.node_id t.sequence a.in_window a.ready.node_fits a.ready.sequence_fits,
)

module _ (clock : ℕ → ℕ) (window : (i : ℕ) → InWindow (clock i)) (fuel : ℕ) where
  -- The first call, and those after it.
  generate_many_cases :
      (n : ℕ) (s : Snowflake) (r : List ℕ × Snowflake)
      → generate_many clock fuel (suc n) s ≡ done r
      → (first : ℕ × Snowflake) × (rest : List ℕ × Snowflake) × (generate clock fuel s ≡ done first)
        × (generate_many clock fuel n first.1 ≡ done rest)
        × (r.0 ≡ first.0 ∷ rest.0)
  unfolding generate_many
  generate_many_cases n s r h =
      let (first, e, h₁) = >>=-eq-done (generate clock fuel s) _ h in
      let (rest, f, h₂) = >>=-eq-done (generate_many clock fuel n first.1) _ h₁ in
      (first, rest, e, f, cc)

  following :
      (n : ℕ) (s : Snowflake) (r : List ℕ × Snowflake)
      → IsReady s
      → InWindow s.timestamp
      → generate_many clock fuel n s ≡ done r
      → All (λ j. id_of s < j) r.0 × IsIncreasing r.0
  unfolding generate_many
  following zero s r v w h = rw (ap (λ p. p.0) (sym (done_injective h))) (tt, tt)
  following (suc n) s r v w h =
      let (first, rest, e, f, g) = generate_many_cases n s r h in
      let a = generate-Advances clock fuel s first window v e in
      let (above, increasing) = following n first.1 rest a.ready a.in_window f in
      let up = Advances-lt v w a in
      rw (g, a.packed) ((up, All-imp (λ j b. omega arith) rest.0 above), (above, increasing))

  -- While the clock's readings are in the 41 bits after the epoch, the ids that successive calls of a
  -- generator with fields in range return grow strictly.
  pub generate_many-IsIncreasing :
      (n : ℕ) (s : Snowflake) (r : List ℕ × Snowflake)
      → IsReady s
      → generate_many clock fuel n s ≡ done r
      → IsIncreasing r.0
  unfolding generate_many
  generate_many-IsIncreasing zero s r v h = rw (ap (λ p. p.0) (sym (done_injective h))) tt
  generate_many-IsIncreasing (suc n) s r v h =
      let (first, rest, e, f, g) = generate_many_cases n s r h in
      let a = generate-Advances clock fuel s first window v e in
      rw (g, a.packed) (following n first.1 rest a.ready a.in_window f)

  -- Every id carries the generator's node.
  generate_many_node :
      (n : ℕ) (s : Snowflake) (r : List ℕ × Snowflake)
      → IsReady s
      → generate_many clock fuel n s ≡ done r
      → All (λ j. j / 2 ^ 12 % 2 ^ 10 ≡ s.node_id) r.0
  unfolding generate_many
  generate_many_node zero s r v h = rw (ap (λ p. p.0) (sym (done_injective h))) tt
  generate_many_node (suc n) s r v h =
      let (first, rest, e, f, g) = generate_many_cases n s r h in
      let a = generate-Advances clock fuel s first window v e in
      let t = first.1 in
      let fields =
        pack_id_fields t.timestamp t.node_id t.sequence a.in_window a.ready.node_fits
          a.ready.sequence_fits in
      rw (g, a.packed)
        (
          fields.1 ∙ a.same_node,
          All-imp (λ j e. e ∙ a.same_node) rest.0 (generate_many_node n first.1 rest a.ready f),
        )

-- While both clocks' readings are in the 41 bits after the epoch, two generators with fields in range
-- and different nodes return no id in common.
pub generate_many_apart :
    (clock other_clock : ℕ → ℕ) (fuel n m : ℕ) (s t : Snowflake) (r q : List ℕ × Snowflake)
    → ((i : ℕ) → InWindow (clock i))
    → ((i : ℕ) → InWindow (other_clock i))
    → IsReady s
    → IsReady t
    → s.node_id ≢ t.node_id
    → generate_many clock fuel n s ≡ done r
    → generate_many other_clock fuel m t ≡ done q
    → All (λ i. All (λ j. i ≢ j) q.0) r.0
generate_many_apart clock other_clock fuel n m s t r q w w' v v' apart h k =
    All-imp
      (λ i ei.
        All-imp (λ j ej e. apart (sym ei ∙ ap (λ (x : ℕ). x / 2 ^ 12 % 2 ^ 10) e ∙ ej)) q.0
          (generate_many_node other_clock w' fuel m t q v' k))
      r.0 (generate_many_node clock w fuel n s r v h)

wait_until_after-ne-panicked :
    (clock : ℕ → ℕ) (fuel timestamp now readings : ℕ)
    → wait_until_after clock fuel timestamp now readings ≢ panicked
unfolding wait_until_after
wait_until_after-ne-panicked clock zero timestamp now readings h = cc
wait_until_after-ne-panicked clock (suc fuel) timestamp now readings h =
    ground
      (arith, wait_until_after-ne-panicked clock fuel timestamp (clock readings) (suc readings))

-- `Generate` panics exactly when the clock reads less than the last timestamp.
pub generate_panics :
    (clock : ℕ → ℕ) (fuel : ℕ) (s : Snowflake)
    → (generate clock fuel s ≡ panicked) ↔ (clock s.readings < s.timestamp)
unfolding generate
generate_panics clock fuel s =
    ground (
      arith,
      wait_until_after-ne-panicked clock fuel s.timestamp (clock s.readings) (suc s.readings),
    )

-- Otherwise it returns, if the clock passes the last timestamp within the readings allowed.
wait_until_after_total :
    (clock : ℕ → ℕ) (k fuel timestamp now readings : ℕ)
    → k < fuel
    → timestamp < clock (readings + k)
    → (r : ℕ × ℕ) × (wait_until_after clock (suc fuel) timestamp now readings ≡ done r)
unfolding wait_until_after
wait_until_after_total clock k zero timestamp now readings h t = absurd (omega arith)
wait_until_after_total clock zero (suc fuel) timestamp now readings h t =
    elim (Bool-cases (leb now timestamp)) [
      | inr later ↦ ((now, readings), rw (later, wait_until_after))
      | inl early ↦
          let next : clock (readings + 0) ≡ clock readings = ap clock (omega arith) in
          let out : leb (clock readings) timestamp ≡ false = ground (arith, next) in
          (
            (clock readings, suc readings),
            rw (early, wait_until_after) (rw (out, wait_until_after)),
          )
    ]
wait_until_after_total clock (suc k) (suc fuel) timestamp now readings h t =
    elim (Bool-cases (leb now timestamp)) [
      | inr later ↦ ((now, readings), rw (later, wait_until_after))
      | inl early ↦
          let next : clock (readings + suc k) ≡ clock (suc readings + k) = ap clock (omega arith) in
          let (r, e) =
            wait_until_after_total clock k fuel timestamp (clock readings) (suc readings)
              (omega arith) (omega (arith, next)) in
          (r, rw (early, wait_until_after) e)
    ]

-- When the clock does not read less than the last timestamp, and reads more than that within `k` more
-- readings after the next, with more than `k` rounds of fuel, `Generate` returns.
pub generate_total :
    (clock : ℕ → ℕ) (k fuel : ℕ) (s : Snowflake)
    → s.timestamp ≤ clock s.readings
    → k < fuel
    → s.timestamp < clock (suc s.readings + k)
    → (r : ℕ × Snowflake) × (generate clock (suc fuel) s ≡ done r)
unfolding generate
generate_total clock k fuel s forward h t =
    let now = clock s.readings in
    let sequence = (s.sequence + 1) % 2 ^ 12 in
    let (waited, e) = wait_until_after_total clock k fuel s.timestamp now (suc s.readings) h t in
    elim (Bool-cases (now == s.timestamp)) [
      | inr fresh ↦ (issue_id clock s now 0 (suc s.readings), ground arith)
      | inl same ↦ elim (Bool-cases (sequence == 0)) [
        | inr room ↦ (issue_id clock s now sequence (suc s.readings), ground arith)
        | inl full ↦ (issue_id clock s waited.0 sequence waited.1, ground (arith, e))
      ]
    ]
