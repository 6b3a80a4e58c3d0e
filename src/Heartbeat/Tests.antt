-- ===== src/Heartbeat/Tests.antt =====
-- Heartbeats at concrete minutes.
use udplex.Prelude.{ℕ, ◌+◌, ◌≡◌, refl, none, List, [], ◌∷◌, length, replicate, arith}
use udplex.Heartbeat.{Tracker, bucket_count, count_in_range}
use udplex.Heartbeat.Buckets.{
  note_all, minutes_in_range, ascending, all_until, empty-IsRing, count-note_all,
}
use udplex.Heartbeat.Loss.{
  Event, sent, response, timeout, reset_state, run, IsValid, losses_are_sent,
}

abbrev minutes : List ℕ
minutes = 1000 ∷ 1000 ∷ 1700 ∷ 2440 ∷ 2441 ∷ []

count-note_all_example :
    count_in_range 1600 2441 (note_all minutes (replicate bucket_count 0))
    ≡ count_in_range 1600 2441 (replicate bucket_count 0) + minutes_in_range 1600 2441 minutes
unfolding ascending all_until
count-note_all_example =
    count-note_all 1600 2441 0 0 minutes (replicate bucket_count 0) empty-IsRing refl refl
      (omega arith) (omega arith) (omega arith)

abbrev start : Tracker
start = record {
  stats = none;
  last_sent = 0;
  sent = 0;
  lost = 0;
  consecutive_loss = 0;
  awaiting = 0;
}

start-IsValid : IsValid 0 start
start-IsValid = record {
  once = omega arith;
  consecutive = omega arith;
  waiting = omega arith;
  few = omega arith;
}

abbrev events : List Event
events = sent 10 ∷ timeout 20 ∷ timeout 30 ∷ sent 40 ∷ response ∷ reset_state ∷ sent 50 ∷ []

losses_are_sent_example : IsValid (0 + length events) (run events start)
losses_are_sent_example = losses_are_sent 0 events start (omega arith) start-IsValid
