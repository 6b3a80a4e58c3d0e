-- ===== src/TunnelQueue/Invariant.antt =====
-- What holds of a send queue between its methods, and what its packets are.
use udplex.Prelude.{ℕ, ◌+◌, ◌-◌, ◌≤◌, ◌≡◌, refl, ap, Bool, arith}
use udplex.Prelude.Int.{pos, ◌+ℤ◌}
use udplex.Packet.{Packet}
use udplex.Fifo.View.{IsFifo, contents, empty-IsFifo, tally}
use udplex.Float.{FloatOps}
use udplex.TunnelQueue.{Queue, Stats, minus, new_queue}
use udplex.TunnelQueue.Config.{Settings}

-- Each of the four queues is well formed, the byte counter that others read without the lock is the
-- sum of the bytes in the queues, and no packet that must not be dropped is among the bulk packets.
pub record IsValid {R : Type 0} (q : Queue R) : Type 0 where
  pub control : IsFifo q.control
  pub priority : IsFifo q.priority
  pub bulk : IsFifo q.bulk
  pub reliable : IsFifo q.reliable
  pub droppable : tally (λ pkt. pkt.no_drop) (contents q.bulk) ≡ 0
  pub counted :
      q.queued ≡ pos (q.control.bytes + (q.priority.bytes + q.bulk.bytes + q.reliable.bytes))

pub pos-add : (a b : ℕ) → pos a +ℤ pos b ≡ pos (a + b)
unfolding ◌+ℤ◌
pos-add a b = ground arith

pub pos-minus : (a b : ℕ) → b ≤ a → pos a +ℤ minus b ≡ pos (a - b)
unfolding ◌+ℤ◌
pos-minus a b h = ground arith

module _ {R : Type 0} where
  -- The bytes in all four queues.
  abbrev pub total_bytes : Queue R → ℕ
  total_bytes q = q.control.bytes + (q.priority.bytes + q.bulk.bytes + q.reliable.bytes)

  pub recount_add : (q : Queue R) (n : ℕ) → IsValid q → q.queued +ℤ pos n ≡ pos (total_bytes q + n)
  recount_add q n v = rw v.counted (pos-add (total_bytes q) n)

  pub recount_sub :
      (q : Queue R) (n : ℕ)
      → IsValid q
      → n ≤ total_bytes q
      → q.queued +ℤ minus n ≡ pos (total_bytes q - n)
  recount_sub q n v h = rw v.counted (pos-minus (total_bytes q) n h)

  -- How many packets with the property `p` wait in the queue.
  abbrev pub waiting : (Packet → Bool) → Queue R → ℕ
  waiting p q =
      tally p (contents q.control)
      + tally p (contents q.priority)
      + tally p (contents q.bulk)
      + tally p (contents q.reliable)

  pub new_queue-IsValid :
      (F : FloatOps R) (s : Settings R) (stats : Stats) → IsValid (new_queue F s stats)
  unfolding new_queue
  new_queue-IsValid F s stats = record {
    control = empty-IsFifo.0;
    priority = empty-IsFifo.0;
    bulk = empty-IsFifo.0;
    reliable = empty-IsFifo.0;
    droppable = ap (tally (λ pkt. pkt.no_drop)) empty-IsFifo.1;
    counted = refl;
  }
