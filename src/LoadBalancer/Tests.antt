-- ===== src/LoadBalancer/Tests.antt =====
-- The load balancer at concrete packets.
use udplex.Prelude.{ℕ, ◌+◌, ◌≡◌, ◌<◌, true, false, none, some, [], ◌∷◌, get_or, arith}
use udplex.LoadBalancer.{
  no_sample, TrafficStats, new_stats, update_stats, sample_stats, Result, is_bool, Variables,
  LoadBalancer,
}
use udplex.LoadBalancer.Window.{
  IsValid, sum_bytes, index, new_stats-IsValid, update_stats-IsValid, sample_stats-IsValid,
}

abbrev stats : TrafficStats
stats = update_stats 1400 (update_stats 100 (new_stats 3))

stats-IsValid : IsValid stats
stats-IsValid =
    update_stats-IsValid 1400 (update_stats 100 (new_stats 3))
      (update_stats-IsValid 100 (new_stats 3) (new_stats-IsValid 3))

some_window : 0 < stats.window_size
unfolding new_stats update_stats
some_window = omega arith

sample_stats-IsValid_example :
    (t : TrafficStats) × (sample_stats stats ≡ some t)
    × IsValid t
    × (t.current_bytes ≡ 0)
    × (t.current_packets ≡ 0)
    × (sum_bytes t.samples
          + (get_or stats.samples (index stats stats-IsValid some_window) no_sample).bytes
        ≡ sum_bytes stats.samples + stats.current_bytes)
sample_stats-IsValid_example = sample_stats-IsValid stats stats-IsValid some_window

abbrev always : ℕ → Variables → Result
always p v = is_bool true

abbrev balancer : LoadBalancer ℕ
balancer = record {
  miss = [];
  stats = new_stats 3;
  packet_seq = 0;
  rules =
      record { program = 0; can_cache = false; cached_result = false; targets = "a" ∷ "b" ∷ [] }
      ∷ [];
  enable_cache = false;
  batch_decision = true;
  last_batch = none;
}
