-- ===== src/Auth/Delay.antt =====
-- auth_protocol.go and component.go: the rings of measured delays and their averages.
use udplex.Prelude.{
  ℕ, suc, ◌+◌, ◌*◌, ◌/◌, ◌%◌, ◌^◌, ◌≤◌, ◌<◌, ◌≡◌, Bool, true, List, [], ◌∷◌, length, set, ltb, leb,
  ◌==◌, if◌then◌else◌, ◌&&◌, ◌||◌, arith,
}
use native.Mathlib.Nat.{le-div_iff_mul-le, div-le_of_le-mul, mul-suc}

-- A ring of durations in nanoseconds, and the counter of the measurements.
pub record Ring : Type 0 where
  pub delays : List ℕ
  pub index : ℕ

-- RecordDelayMeasurement and SetSendQueueDelay: the counter is a uint32, and the ring has at least
-- one place.
pub record_delay : ℕ → Ring → Ring
record_delay delay r =
    let counter = (r.index + 1) % 2 ^ 32 in
    record { delays = set r.delays (counter % length r.delays) delay; index = counter }

-- The sum and the number of the positive entries.
unfoldable pub total_of : List ℕ → ℕ × ℕ
total_of [] = (0, 0)
total_of (d ∷ ds) =
    let (sum, count) = total_of ds in if ltb 0 d then (d + sum, suc count) else (sum, count)

-- GetAverageDelay and GetAverageSendQueueDelay
pub average_delay : Ring → ℕ
unfolding total_of
average_delay r = let (sum, count) = total_of r.delays in if ltb 0 count then sum / count else 0

unfoldable pub all_within : ℕ → ℕ → List ℕ → Bool
all_within lo hi [] = true
all_within lo hi (d ∷ ds) = (d == 0 || (leb lo d && leb d hi)) && all_within lo hi ds

*-suc_right : (a b : ℕ) → a * suc b ≡ a + a * b
*-suc_right a b = omega (arith, mul-suc a b)

total_bounds :
    (lo hi : ℕ) (ds : List ℕ)
    → all_within lo hi ds ≡ true
    → (lo * (total_of ds).1 ≤ (total_of ds).0) × ((total_of ds).0 ≤ hi * (total_of ds).1)
unfolding total_of all_within
total_bounds lo hi [] h = (omega arith, omega arith)
total_bounds lo hi (d ∷ ds) h =
    let (low, high) = total_bounds lo hi ds (ground arith) in
    (
      ground (arith, low, *-suc_right lo (total_of ds).1),
      ground (arith, high, *-suc_right hi (total_of ds).1),
    )

-- The average lies between the bounds of the measured delays.
pub average_delay-bounds :
    (lo hi : ℕ) (r : Ring)
    → all_within lo hi r.delays ≡ true
    → 0 < (total_of r.delays).1
    → (lo ≤ average_delay r) × (average_delay r ≤ hi)
unfolding average_delay
average_delay-bounds lo hi r h some_delay =
    let (low, high) = total_bounds lo hi r.delays h in
    let up : (total_of r.delays).0 / (total_of r.delays).1 ≤ hi =
      div-le_of_le-mul (total_of r.delays).1 (omega (arith, high)) in
    let down : lo ≤ (total_of r.delays).0 / (total_of r.delays).1 =
      (le-div_iff_mul-le {x = lo} some_delay).1 low in
    (ground arith, ground arith)
