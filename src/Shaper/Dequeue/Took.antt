-- ===== src/Shaper/Dequeue/Took.antt =====
-- shaper.go: what a round of the loop in dequeue does to the shaper.
use udplex.Prelude.{suc, ◌+◌, ◌≡◌, Bool, [], ◌∷◌, ◌++◌, arith, if◌then◌else◌}
use udplex.Prelude.Int.{ℤ, ◌+ℤ◌}
use udplex.Packet.{Packet}
use udplex.Fifo.{Item, Fifo}
use udplex.Fifo
use udplex.Fifo.View.{contents, IsFifo}
use udplex.TunnelQueue.{minus}
use udplex.Shaper.{Shaper, shaper_len}
use udplex.Shaper.Dequeue.{Turn, stop, sends, drops}
use udplex.Shaper.Invariant.{IsShaper, queued, counted_less}

module _ {R : Type 0} (others : ℤ) (f : Packet → Bool) where
  -- The item `x` has left the shaper `p`, which is now `q`.
  pub record Left (p q : Shaper R) (x : Item) : Type 0 where
    pub valid : IsShaper others q
    pub shorter : shaper_len p ≡ suc (shaper_len q)
    pub one_less : queued f p ≡ queued f q + (if f x.pkt then 1 else 0)

  -- What a round may do; it is the last only once no control message waits.
  abbrev pub Result : Shaper R → Turn R → Type 0
  Result p (stop q) = (q ≡ p) × (Fifo.len p.control ≡ 0)
  Result p (sends q x) = Left p q x × (q.released ≡ p.released)
  Result p (drops q x) =
      Left p q x × (q.released ≡ p.released ++ (x.pkt ∷ [])) × (Fifo.len p.control ≡ 0)

  -- A shaper that differs from `p` in one of its queues, and in the byte counter accordingly.
  pub control-Left :
      (p q : Shaper R) (x : Item)
      → IsShaper others p
      → IsFifo q.control
      → contents p.control ≡ x ∷ contents q.control
      → Fifo.len p.control ≡ suc (Fifo.len q.control)
      → p.control.bytes ≡ x.wire + q.control.bytes
      → q.s ≡ p.s
      → q.priority ≡ p.priority
      → q.bulk ≡ p.bulk
      → q.stats.queued_bytes ≡ p.stats.queued_bytes +ℤ minus x.wire
      → Left p q x
  unfolding shaper_len
  control-Left p q x v g c n b s e1 e2 k = record {
    valid = record {
      control = g;
      priority = rw e1 v.priority;
      bulk = rw e2 v.bulk;
      few_control = omega (arith, v.few_control, n);
      limited = rw (s, e1, e2) v.limited;
      counted = ground (arith, counted_less p x.wire v);
    };
    shorter = ground (arith, n);
    one_less = ground (arith, c);
  }

  pub priority-Left :
      (p q : Shaper R) (x : Item)
      → IsShaper others p
      → IsFifo q.priority
      → contents p.priority ≡ x ∷ contents q.priority
      → Fifo.len p.priority ≡ suc (Fifo.len q.priority)
      → p.priority.bytes ≡ x.wire + q.priority.bytes
      → q.s ≡ p.s
      → q.control ≡ p.control
      → q.bulk ≡ p.bulk
      → q.stats.queued_bytes ≡ p.stats.queued_bytes +ℤ minus x.wire
      → Left p q x
  unfolding shaper_len
  priority-Left p q x v g c n b s e1 e2 k = record {
    valid = record {
      control = rw e1 v.control;
      priority = g;
      bulk = rw e2 v.bulk;
      few_control = rw e1 v.few_control;
      limited = ground (arith, v.limited);
      counted = ground (arith, counted_less p x.wire v);
    };
    shorter = ground (arith, n);
    one_less = ground (arith, c);
  }

  pub bulk-Left :
      (p q : Shaper R) (x : Item)
      → IsShaper others p
      → IsFifo q.bulk
      → contents p.bulk ≡ x ∷ contents q.bulk
      → Fifo.len p.bulk ≡ suc (Fifo.len q.bulk)
      → p.bulk.bytes ≡ x.wire + q.bulk.bytes
      → q.s ≡ p.s
      → q.control ≡ p.control
      → q.priority ≡ p.priority
      → q.stats.queued_bytes ≡ p.stats.queued_bytes +ℤ minus x.wire
      → Left p q x
  unfolding shaper_len
  bulk-Left p q x v g c n b s e1 e2 k = record {
    valid = record {
      control = rw e1 v.control;
      priority = rw e2 v.priority;
      bulk = g;
      few_control = rw e1 v.few_control;
      limited = ground (arith, v.limited);
      counted = ground (arith, counted_less p x.wire v);
    };
    shorter = ground (arith, n);
    one_less = ground (arith, c);
  }
