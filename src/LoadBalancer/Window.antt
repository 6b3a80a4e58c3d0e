-- ===== src/LoadBalancer/Window.antt =====
-- load_balancer.go: the totals of the traffic window.
use udplex.Prelude.{
  ℕ, zero, suc, ◌+◌, ◌*◌, ◌/◌, ◌%◌, ◌^◌, ◌<◌, ◌≡◌, refl, ◌∙◌, some, List, [], ◌∷◌, get_or, set,
  length, length-set, length-replicate, replicate, ◌==◌, if◌then◌else◌, arith,
}
use udplex.LoadBalancer.{
  Sample, no_sample, TrafficStats, new_stats, update_stats, get_current_stats, shift_window,
  sample_stats,
}
use native.Mathlib.Nat.{mod-lt}

unfoldable pub sum_bytes : List Sample → ℕ
sum_bytes [] = 0
sum_bytes (s ∷ ss) = s.bytes + sum_bytes ss

unfoldable pub sum_packets : List Sample → ℕ
sum_packets [] = 0
sum_packets (s ∷ ss) = s.packets + sum_packets ss

-- The totals are the sums of the window's samples, as 64-bit words.
pub record IsValid (s : TrafficStats) : Type 0 where
  pub size : length s.samples ≡ s.window_size
  pub total_bytes : s.total_bytes ≡ sum_bytes s.samples % 2 ^ 64
  pub total_packets : s.total_packets ≡ sum_packets s.samples % 2 ^ 64
  pub small :
      (i : ℕ)
      → ((get_or s.samples i no_sample).bytes < 2 ^ 64)
        × ((get_or s.samples i no_sample).packets < 2 ^ 64)
  pub current_bytes : s.current_bytes < 2 ^ 64
  pub current_packets : s.current_packets < 2 ^ 64

sum-set :
    (xs : List Sample) (i : ℕ) (v : Sample)
    → i < length xs
    → (sum_bytes (set xs i v) + (get_or xs i no_sample).bytes ≡ sum_bytes xs + v.bytes)
      × (sum_packets (set xs i v) + (get_or xs i no_sample).packets ≡ sum_packets xs + v.packets)
unfolding sum_bytes sum_packets
sum-set [] i v h = absurd (omega arith)
sum-set (x ∷ xs) zero v h = (omega arith, omega arith)
sum-set (x ∷ xs) (suc i) v h =
    let r = sum-set xs i v (omega arith) in (omega (arith, r.0), omega (arith, r.1))

get_or-set :
    (xs : List Sample) (i j : ℕ) (v : Sample)
    → i < length xs
    → get_or (set xs i v) j no_sample ≡ (if i == j then v else get_or xs j no_sample)
get_or-set [] i j v h = absurd (omega arith)
get_or-set (x ∷ xs) zero zero v h = refl
get_or-set (x ∷ xs) zero (suc j) v h = ground arith
get_or-set (x ∷ xs) (suc i) zero v h = ground arith
get_or-set (x ∷ xs) (suc i) (suc j) v h = ground (arith, get_or-set xs i j v (omega arith))

-- A packet keeps the totals right.
pub update_stats-IsValid : (n : ℕ) (s : TrafficStats) → IsValid s → IsValid (update_stats n s)
unfolding update_stats
update_stats-IsValid n s v = record {
  size = v.size;
  total_bytes = v.total_bytes;
  total_packets = v.total_packets;
  small = v.small;
  current_bytes = omega arith;
  current_packets = omega arith;
}

module _ (s : TrafficStats) (v : IsValid s) (h : 0 < s.window_size) where
  pub index : ℕ
  index = (s.current_index + 1) % 2 ^ 32 % s.window_size

  sample : Sample
  sample = record { bytes = s.current_bytes; packets = s.current_packets }

  index_low : index < length s.samples
  unfolding index
  index_low = omega (arith, v.size, mod-lt ((s.current_index + 1) % 2 ^ 32) {m = s.window_size} h)

  shift_sums :
      (sum_bytes (shift_window s).samples + (get_or s.samples index no_sample).bytes
        ≡ sum_bytes s.samples + s.current_bytes)
      × (sum_packets (shift_window s).samples + (get_or s.samples index no_sample).packets
          ≡ sum_packets s.samples + s.current_packets)
  unfolding shift_window index sample
  shift_sums = sum-set s.samples index sample index_low

  shift_window-IsValid : IsValid (shift_window s)
  unfolding shift_window index sample
  shift_window-IsValid = record {
    size = length-set s.samples index sample ∙ v.size;
    total_bytes = omega (arith, shift_sums.0, v.total_bytes, (v.small index).0);
    total_packets = omega (arith, shift_sums.1, v.total_packets, (v.small index).1);
    small = λ i. (
      ground (arith, get_or-set s.samples index i sample index_low, (v.small i).0, v.current_bytes),
      ground
          (arith, get_or-set s.samples index i sample index_low, (v.small i).1, v.current_packets),
    );
    current_bytes = omega arith;
    current_packets = omega arith;
  }

  -- A tick of a window with at least one sample does not fail, keeps the totals the sums of the
  -- samples, starts the next second at nothing, and changes the bytes of the window by those of the
  -- second that ends and of the sample that leaves.
  pub sample_stats-IsValid :
      (t : TrafficStats) × (sample_stats s ≡ some t)
      × IsValid t
      × (t.current_bytes ≡ 0)
      × (t.current_packets ≡ 0)
      × (sum_bytes t.samples + (get_or s.samples index no_sample).bytes
          ≡ sum_bytes s.samples + s.current_bytes)
  unfolding sample_stats shift_window
  sample_stats-IsValid =
      (shift_window s, ground arith, shift_window-IsValid, refl, refl, shift_sums.0)

-- The statistics that a rule sees are the averages over the samples of the window and the running
-- second, as long as the bits counted fit a word.
pub get_current_stats-average :
    (s : TrafficStats)
    → IsValid s
    → s.window_size + 1 < 2 ^ 32
    → (sum_bytes s.samples + s.current_bytes) * 8 < 2 ^ 64
    → sum_packets s.samples + s.current_packets < 2 ^ 64
    → get_current_stats s ≡ (
      (sum_bytes s.samples + s.current_bytes) * 8 / (s.window_size + 1),
      (sum_packets s.samples + s.current_packets) / (s.window_size + 1),
    )
unfolding get_current_stats
get_current_stats-average s v w b p =
    let count : (s.window_size + 1) % 2 ^ 32 ≡ s.window_size + 1 = omega arith in
    let bits : ((s.total_bytes + s.current_bytes) % 2 ^ 64 * 8) % 2 ^ 64
        ≡ (sum_bytes s.samples + s.current_bytes) * 8 =
      omega (arith, v.total_bytes) in
    let packets : (s.total_packets + s.current_packets) % 2 ^ 64
        ≡ sum_packets s.samples + s.current_packets =
      omega (arith, v.total_packets) in
    rw (count, bits, packets) refl

sum-replicate :
    (n : ℕ) → (sum_bytes (replicate n no_sample) ≡ 0) × (sum_packets (replicate n no_sample) ≡ 0)
unfolding sum_bytes sum_packets
sum-replicate zero = (refl, refl)
sum-replicate (suc n) = (omega (arith, (sum-replicate n).0), omega (arith, (sum-replicate n).1))

get_or-replicate : (n i : ℕ) → get_or (replicate n no_sample) i no_sample ≡ no_sample
get_or-replicate zero i = refl
get_or-replicate (suc n) zero = refl
get_or-replicate (suc n) (suc i) = get_or-replicate n i

pub new_stats-IsValid : (n : ℕ) → IsValid (new_stats n)
unfolding new_stats
new_stats-IsValid n = record {
  size = length-replicate n no_sample;
  total_bytes = omega (arith, (sum-replicate n).0);
  total_packets = omega (arith, (sum-replicate n).1);
  small = λ i. rw (get_or-replicate n i) (omega arith, omega arith);
  current_bytes = omega arith;
  current_packets = omega arith;
}
