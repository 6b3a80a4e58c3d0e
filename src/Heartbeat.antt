-- ===== src/Heartbeat.antt =====
-- heartbeat_tracker.go: the minute buckets of heartbeat statistics and the tracker of one connection.
-- Times are nanoseconds since 1970; atomics are plain fields, each method one step.
mod Tests
pub mod Buckets
pub mod Loss
use udplex.Prelude.{
  ℕ, ◌+◌, ◌-◌, ◌*◌, ◌/◌, ◌%◌, ◌^◌, Bool, true, false, ◌&&◌, Option, none, some, List, [], ◌∷◌,
  get_or, set, ltb, leb, ◌==◌, if◌then◌else◌,
}
use udplex.Float.{FloatOps}
use udplex.Prelude.Int.{pos}

abbrev pub minute_nanos : ℕ
minute_nanos = 60000000000

-- heartbeatStatsBucketCount: 24 hours in minutes
abbrev pub bucket_count : ℕ
bucket_count = 1440

-- A bucket is one 64-bit word: the minute above the count.
pub pack_bucket : ℕ → ℕ → ℕ
pack_bucket minute count = (minute * 2 ^ 32) % 2 ^ 64 + count

pub unpack_bucket : ℕ → ℕ × ℕ
unpack_bucket value = (value / 2 ^ 32, value % 2 ^ 32)

pub minute_index : ℕ → ℕ
minute_index minute = minute % bucket_count

pub heartbeat_minute : ℕ → ℕ
heartbeat_minute ts = ts / minute_nanos

-- The word that incrementBucket swaps in.
pub next_bucket : ℕ → ℕ → ℕ
next_bucket minute current =
    let (current_minute, current_count) = unpack_bucket current in
    if current_minute == minute
    then (if current_count == 2 ^ 32 - 1 then current else pack_bucket minute (current_count + 1))
    else pack_bucket minute 1

-- incrementBucket: the swap of one uninterrupted call succeeds at once.
pub increment_bucket : ℕ → List ℕ → List ℕ
increment_bucket minute buckets =
    set buckets (minute_index minute) (next_bucket minute (get_or buckets (minute_index minute) 0))

-- What one bucket adds to the total.
pub counted : ℕ → ℕ → ℕ → ℕ
counted cutoff now value =
    let (minute, count) = unpack_bucket value in
    if leb cutoff minute && leb minute now then count else 0

-- countBucketsInRange
pub count_in_range : ℕ → ℕ → List ℕ → ℕ
count_in_range cutoff now [] = 0
count_in_range cutoff now (b ∷ bs) = counted cutoff now b + count_in_range cutoff now bs

pub record StatsTracker : Type 0 where
  pub last_sent : ℕ
  pub sent_buckets : List ℕ
  pub lost_buckets : List ℕ

pub note_sent_at : ℕ → StatsTracker → StatsTracker
note_sent_at now h = record h {
  last_sent = now;
  sent_buckets = increment_bucket (heartbeat_minute now) h.sent_buckets;
}

pub note_lost_at : ℕ → StatsTracker → StatsTracker
note_lost_at now h = record h {
  lost_buckets = increment_bucket (heartbeat_minute now) h.lost_buckets;
}

-- The counts of snapshotAt: sent and lost in the window that ends now. The source computes it for
-- windows of five minutes, an hour and a day.
pub window_counts : ℕ → ℕ → StatsTracker → ℕ × ℕ
window_counts window now h =
    let cutoff = heartbeat_minute (now - window) in
    (
      count_in_range cutoff (heartbeat_minute now) h.sent_buckets,
      count_in_range cutoff (heartbeat_minute now) h.lost_buckets,
    )

-- heartbeatTracker. `awaiting` is 0 or 1.
pub record Tracker : Type 0 where
  pub stats : Option StatsTracker
  pub last_sent : ℕ
  pub sent : ℕ
  pub lost : ℕ
  pub consecutive_loss : ℕ
  pub awaiting : ℕ

pub note_heartbeat_sent : ℕ → Tracker → Tracker
note_heartbeat_sent now h = record h {
  last_sent = now;
  sent = (h.sent + 1) % 2 ^ 64;
  awaiting = 1;
  stats = elim h.stats [ none ↦ none | some s ↦ some (note_sent_at now s) ];
}

pub mark_heartbeat_response : Tracker → Tracker
mark_heartbeat_response h = record h { awaiting = 0; consecutive_loss = 0 }

-- The counter is an int32; it is far from its end.
pub mark_pending_heartbeat_lost : ℕ → Tracker → Tracker × ℕ
mark_pending_heartbeat_lost now h =
    if h.awaiting == 1
    then (
      record h {
        awaiting = 0;
        lost = (h.lost + 1) % 2 ^ 64;
        stats = elim h.stats [ none ↦ none | some s ↦ some (note_lost_at now s) ];
        consecutive_loss = h.consecutive_loss + 1;
      },
      h.consecutive_loss + 1,
    )
    else (h, h.consecutive_loss)

pub reset_heartbeat_state : Tracker → Tracker
reset_heartbeat_state h = record h { last_sent = 0; consecutive_loss = 0; awaiting = 0 }

pub reset_heartbeat_stats : Tracker → Tracker
unfolding reset_heartbeat_state
reset_heartbeat_stats h = record (reset_heartbeat_state h) { sent = 0; lost = 0 }

-- HeartbeatStats: the counts and the loss rate in percent.
pub heartbeat_stats : {R : Type 0} → FloatOps R → Tracker → ℕ × ℕ × R
heartbeat_stats F h = (
  h.sent,
  h.lost,
  if ltb 0 h.sent
      then F.div (F.mul (F.of_ℤ (pos h.lost)) (F.of_ℤ (pos 100))) (F.of_ℤ (pos h.sent))
      else F.of_ℤ (pos 0),
)
