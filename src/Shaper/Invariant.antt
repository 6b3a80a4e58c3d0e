-- ===== src/Shaper/Invariant.antt =====
-- What holds of a path's shaper between its methods. `others` is what the other paths contribute to
-- the shared counter of the queued bytes.
use udplex.Prelude.{ℕ, ◌+◌, ◌-◌, ◌≤◌, ◌≡◌, ◌∙◌, Bool, arith}
use udplex.Prelude.Int.{ℤ, pos, ◌+ℤ◌, int_laws}
use udplex.Packet.{Packet}
use udplex.Fifo
use udplex.Fifo.View.{IsFifo, contents, empty-IsFifo, IsFifo-sizes, tally}
use udplex.Float.{FloatOps}
use udplex.TunnelQueue.{minus}
use udplex.Shaper.{Shaper, ShaperStats, new_path_shaper}
use udplex.Shaper.Config.{ShaperSettings}
use udplex.Shaper.Enqueue.{max_control_queue}

module _ {R : Type 0} where
  -- The bytes in all three queues.
  abbrev pub all_bytes : Shaper R → ℕ
  all_bytes p = p.control.bytes + (p.priority.bytes + p.bulk.bytes)

  -- How many packets with the property `f` are queued.
  abbrev pub queued : (Packet → Bool) → Shaper R → ℕ
  queued f p =
      tally f (contents p.control) + tally f (contents p.priority) + tally f (contents p.bulk)

-- The queues are well formed and within their limits, and the shared counter holds their bytes.
pub record IsShaper {R : Type 0} (others : ℤ) (p : Shaper R) : Type 0 where
  pub control : IsFifo p.control
  pub priority : IsFifo p.priority
  pub bulk : IsFifo p.bulk
  pub few_control : Fifo.len p.control ≤ max_control_queue
  pub limited : p.priority.bytes + p.bulk.bytes ≤ p.s.queue_limit
  pub counted : p.stats.queued_bytes ≡ others +ℤ pos (all_bytes p)

pub plus_more : (o : ℤ) (t n : ℕ) → o +ℤ pos t +ℤ pos n ≡ o +ℤ pos (t + n)
plus_more o t n = omega int_laws

pub plus_less : (o : ℤ) (t n : ℕ) → n ≤ t → o +ℤ pos t +ℤ minus n ≡ o +ℤ pos (t - n)
unfolding ◌+ℤ◌
plus_less o t n h = ground arith

nothing_more : (o : ℤ) → o ≡ o +ℤ pos 0
unfolding ◌+ℤ◌
nothing_more o = ground arith

module _ {R : Type 0} {others : ℤ} where
  pub counted_more :
      (p : Shaper R) (n : ℕ)
      → IsShaper others p
      → p.stats.queued_bytes +ℤ pos n ≡ others +ℤ pos (all_bytes p + n)
  counted_more p n v = rw v.counted (plus_more others (all_bytes p) n)

  pub counted_less :
      (p : Shaper R) (n : ℕ)
      → IsShaper others p
      → n ≤ all_bytes p
      → p.stats.queued_bytes +ℤ minus n ≡ others +ℤ pos (all_bytes p - n)
  counted_less p n v h = rw v.counted (plus_less others (all_bytes p) n h)

  -- The invariant reads the queues, the settings and the counter only.
  pub IsShaper-same :
      {p q : Shaper R}
      → IsShaper others p
      → q.s ≡ p.s
      → q.control ≡ p.control
      → q.priority ≡ p.priority
      → q.bulk ≡ p.bulk
      → q.stats.queued_bytes ≡ p.stats.queued_bytes
      → IsShaper others q
  IsShaper-same v a b c d e = record {
    control = rw b v.control;
    priority = rw c v.priority;
    bulk = rw d v.bulk;
    few_control = rw b v.few_control;
    limited = rw (a, c, d) v.limited;
    counted = rw (b, c, d, e) v.counted;
  }

  -- A new path queues nothing: it adds nothing to the shared counter.
  pub new_path_shaper-IsShaper :
      (F : FloatOps R) (s : ShaperSettings R) (stats : ShaperStats) (now : ℕ)
      → stats.queued_bytes ≡ others
      → IsShaper others (new_path_shaper F s stats now)
  unfolding new_path_shaper
  new_path_shaper-IsShaper F s stats now e = record {
    control = empty-IsFifo.0;
    priority = empty-IsFifo.0;
    bulk = empty-IsFifo.0;
    few_control = ground (arith, IsFifo-sizes Fifo.empty empty-IsFifo.0, empty-IsFifo.1);
    limited = omega arith;
    counted = e ∙ nothing_more others;
  }
