-- ===== src/Autorate/Tests.antt =====
-- A controller and probes at concrete values: the examples of the theorems about autorate.go.
use udplex.Prelude.{
  ℕ, zero, suc, ◌*◌, ◌^◌, ◌≡◌, refl, false, some, List, [], ◌∷◌, arith, take, leb, replicate,
}
use native.Mathlib.Nat.{pow-suc}
use udplex.Prelude.Int.{ℤ, pos, negsuc, pos_part}
use udplex.Float.{int_floats}
use udplex.Autorate.{Autorate, RateSettings, new_autorate, tick, bloated, ms}
use udplex.Autorate.Range.{RateLaws, IsOrdered, tick-InRange}
use udplex.Autorate.Bloat.{sampled, over_threshold, count_true, bloated-count}
use udplex.Autorate.Probe.{create_probe, create_probe_ack, parse_probe_ack, parse-create_probe_ack}

abbrev settings : RateSettings ℤ
settings = record {
  base = pos 1_000_000;
  lowest = pos 200_000;
  highest = pos 2_000_000;
  threshold = pos (15 * ms);
  interval = 50 * ms;
}

abbrev controller : Autorate ℤ
controller = new_autorate int_floats settings 0

-- math.Pow on integers
abbrev int_power : ℤ → ℤ → ℤ
int_power x n = pos (pos_part x ^ pos_part n)

one_power : (n : ℕ) → 1 ^ n ≡ 1
one_power zero = refl
one_power (suc n) = omega (arith, pow-suc 1 n, one_power n)

int-RateLaws : RateLaws int_floats int_power
int-RateLaws = record {
  min_le_left = λ x y h e. ground (arith, e);
  le_min = λ x y l e e'. ground (arith, e, e');
  le_max_left = λ x y l e. ground (arith, e);
  max_le = λ x y h e e'. ground (arith, e, e');
  lt_refl = λ x. ground arith;
  steps_pos = λ d i. ground arith;
  decrease = λ x h e e'. ground (arith, e, e');
  grows = λ x l n e e' k. rw (one_power (pos_part n)) (ground (arith, k));
  decays = λ x h n e e' k. rw (one_power (pos_part n)) (ground (arith, k));
  recovers = λ x l n e e' k. rw (one_power (pos_part n)) (ground (arith, k));
}

settings-IsOrdered : IsOrdered int_floats settings
settings-IsOrdered = record {
  low = refl;
  high = refl;
  base_low = refl;
  base_high = refl;
  low_high = refl;
}

abbrev ticked : Autorate ℤ × ℤ
ticked = tick int_floats int_power controller (50 * ms) 40_000

tick-InRange_example :
    (int_floats.lt ticked.0.rate ticked.0.s.lowest ≡ false)
    × (int_floats.lt ticked.0.s.highest ticked.0.rate ≡ false)
    × (ticked.1 ≡ ticked.0.rate)
unfolding new_autorate
tick-InRange_example =
    tick-InRange int_floats int_power int-RateLaws controller (50 * ms) 40_000 settings-IsOrdered
      (refl, refl)

abbrev history : List (ℤ × ℤ × ℕ)
history =
    (pos 90_000_000, pos 1, 300) ∷ (pos 70_000_000, pos 1, 200) ∷ (pos 10_000_000, pos 1, 100) ∷ []

bloated-count_example :
    bloated int_floats (sampled int_floats controller history)
    ≡ leb 2 (count_true (take 4 (over_threshold int_floats controller history)))
unfolding new_autorate
bloated-count_example = bloated-count int_floats controller history refl

abbrev buffer : List ℕ
buffer = replicate 32 0

parse-create_probe_ack_example :
    (probe : List ℕ) × (ack : List ℕ) × (create_probe buffer (pos 5000) ≡ some (probe, 16))
    × (create_probe_ack buffer (take 16 probe) (pos 4000) ≡ some (ack, 24))
    × (parse_probe_ack (take 24 ack) (pos 9000) ≡ some (negsuc 999, pos 4000))
parse-create_probe_ack_example =
    parse-create_probe_ack buffer buffer 5000 4000 9000 (omega arith) (omega arith) (omega arith)
      (omega arith) (omega arith) (omega arith)
