-- ===== src/TunnelQueue/Pop/Took.antt =====
-- tcp_tunnel_queue.go: what a round of the loop in pop does to the queue.
use udplex.Prelude.{suc, ◌+◌, ◌≡◌, Bool, false, [], ◌∷◌, ◌++◌, arith, if◌then◌else◌}
use udplex.Prelude.Int.{◌+ℤ◌}
use udplex.Packet.{Packet}
use udplex.Fifo.{Item, Fifo}
use udplex.Fifo
use udplex.Fifo.View.{contents, IsFifo}
use udplex.TunnelQueue.{Queue, minus, len}
use udplex.TunnelQueue.Pop.{Round, done, sent, dropped}
use udplex.TunnelQueue.Invariant.{IsValid, waiting, recount_sub}

module _ {R : Type 0} (p : Packet → Bool) where
  -- The item `x` has left the queue `q`, which is now `q'`.
  pub record Took (q q' : Queue R) (x : Item) : Type 0 where
    pub valid : IsValid q'
    pub shorter : len q ≡ suc (len q')
    pub one_less : waiting p q ≡ waiting p q' + (if p x.pkt then 1 else 0)

  -- What a round may do.
  abbrev pub Outcome : Queue R → Round R → Type 0
  Outcome q (done q') =
      (len q' ≡ 0) × IsValid q' × (waiting p q' ≡ waiting p q) × (q'.released ≡ q.released)
  Outcome q (sent q' x) = Took q q' x × (q'.released ≡ q.released)
  Outcome q (dropped q' x) =
      Took q q' x × (q'.released ≡ q.released ++ (x.pkt ∷ [])) × (x.pkt.no_drop ≡ false)

  -- A queue that differs from `q` in one of its four lists, and in the byte count accordingly.
  pub control_taken-Took :
      (q q' : Queue R) (x : Item)
      → IsValid q
      → IsFifo q'.control
      → contents q.control ≡ x ∷ contents q'.control
      → Fifo.len q.control ≡ suc (Fifo.len q'.control)
      → q.control.bytes ≡ x.wire + q'.control.bytes
      → q'.priority ≡ q.priority
      → q'.bulk ≡ q.bulk
      → q'.reliable ≡ q.reliable
      → q'.queued ≡ q.queued +ℤ minus x.wire
      → Took q q' x
  unfolding len
  control_taken-Took q q' x v f c n b e1 e2 e3 k = record {
    valid = record {
      control = f;
      priority = rw e1 v.priority;
      bulk = rw e2 v.bulk;
      reliable = rw e3 v.reliable;
      droppable = rw e2 v.droppable;
      counted = ground (arith, recount_sub q x.wire v);
    };
    shorter = ground (arith, n);
    one_less = ground (arith, c);
  }

  pub priority_taken-Took :
      (q q' : Queue R) (x : Item)
      → IsValid q
      → IsFifo q'.priority
      → contents q.priority ≡ x ∷ contents q'.priority
      → Fifo.len q.priority ≡ suc (Fifo.len q'.priority)
      → q.priority.bytes ≡ x.wire + q'.priority.bytes
      → q'.control ≡ q.control
      → q'.bulk ≡ q.bulk
      → q'.reliable ≡ q.reliable
      → q'.queued ≡ q.queued +ℤ minus x.wire
      → Took q q' x
  unfolding len
  priority_taken-Took q q' x v f c n b e1 e2 e3 k = record {
    valid = record {
      control = rw e1 v.control;
      priority = f;
      bulk = rw e2 v.bulk;
      reliable = rw e3 v.reliable;
      droppable = rw e2 v.droppable;
      counted = ground (arith, recount_sub q x.wire v);
    };
    shorter = ground (arith, n);
    one_less = ground (arith, c);
  }

  pub bulk_taken-Took :
      (q q' : Queue R) (x : Item)
      → IsValid q
      → IsFifo q'.bulk
      → contents q.bulk ≡ x ∷ contents q'.bulk
      → Fifo.len q.bulk ≡ suc (Fifo.len q'.bulk)
      → q.bulk.bytes ≡ x.wire + q'.bulk.bytes
      → q'.control ≡ q.control
      → q'.priority ≡ q.priority
      → q'.reliable ≡ q.reliable
      → q'.queued ≡ q.queued +ℤ minus x.wire
      → Took q q' x
  unfolding len
  bulk_taken-Took q q' x v f c n b e1 e2 e3 k = record {
    valid = record {
      control = rw e1 v.control;
      priority = rw e2 v.priority;
      bulk = f;
      reliable = rw e3 v.reliable;
      droppable = ground (arith, v.droppable, c);
      counted = ground (arith, recount_sub q x.wire v);
    };
    shorter = ground (arith, n);
    one_less = ground (arith, c);
  }

  pub reliable_taken-Took :
      (q q' : Queue R) (x : Item)
      → IsValid q
      → IsFifo q'.reliable
      → contents q.reliable ≡ x ∷ contents q'.reliable
      → Fifo.len q.reliable ≡ suc (Fifo.len q'.reliable)
      → q.reliable.bytes ≡ x.wire + q'.reliable.bytes
      → q'.control ≡ q.control
      → q'.priority ≡ q.priority
      → q'.bulk ≡ q.bulk
      → q'.queued ≡ q.queued +ℤ minus x.wire
      → Took q q' x
  unfolding len
  reliable_taken-Took q q' x v f c n b e1 e2 e3 k = record {
    valid = record {
      control = rw e1 v.control;
      priority = rw e2 v.priority;
      bulk = rw e3 v.bulk;
      reliable = f;
      droppable = rw e3 v.droppable;
      counted = ground (arith, recount_sub q x.wire v);
    };
    shorter = ground (arith, n);
    one_less = ground (arith, c);
  }
