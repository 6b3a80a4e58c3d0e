-- ===== src/TunnelQueue/Pop/Close.antt =====
-- tcp_tunnel_queue.go: close as a whole.
use udplex.Prelude.{
  ℕ, zero, suc, ◌+◌, ◌<◌, ◌≡◌, refl, ◌∙◌, inl, inr, Bool, true, some, [], ◌∷◌, arith, lt→ltb,
}
use udplex.Prelude.Int.{pos}
use udplex.Packet.{Packet}
use udplex.Fifo.{Item, Fifo}
use udplex.Fifo
use udplex.Fifo.View.{IsFifo, contents, pop_view, tally, count, count-append}
use udplex.TunnelQueue.{Queue, len, account, give_back, minus}
use udplex.TunnelQueue.Pop.{drain, close}
use udplex.TunnelQueue.Invariant.{IsValid, waiting, pos-minus}

module _ {R : Type 0} (p : Packet → Bool) where
  -- `f` has been emptied into the ledger; the other fields of the queue are as they were.
  record Drained (q q' : Queue R) (f f' : Fifo) (others : ℕ) : Type 0 where
    fifo : IsFifo f'
    nothing : contents f' ≡ []
    size : Fifo.len f' ≡ 0
    bytes : f'.bytes ≡ 0
    queued : q'.queued ≡ pos others
    given : count p q'.released ≡ count p q.released + tally p (contents f)
    closed : q'.closed ≡ q.closed
    control : q'.control ≡ q.control
    priority : q'.priority ≡ q.priority
    bulk : q'.bulk ≡ q.bulk
    reliable : q'.reliable ≡ q.reliable

  drain_lem :
      (fuel : ℕ) (q : Queue R) (f : Fifo) (others : ℕ)
      → IsFifo f
      → Fifo.len f < fuel
      → q.queued ≡ pos (f.bytes + others)
      → (q' : Queue R) × (f' : Fifo) × (drain fuel q f ≡ some (q', f')) × Drained q q' f f' others
  unfolding drain account give_back
  drain_lem zero q f others v h k = elim h [ ]
  drain_lem (suc fuel) q f others v h k = elim (pop_view f v) [
    | inl (e, c, n, b) ↦ (
      q,
      f,
      ground (arith, n),
      record {
        fifo = v;
        nothing = c;
        size = n;
        bytes = b;
        queued = ground (arith, k, b);
        given = ground (arith, c);
        closed = refl;
        control = refl;
        priority = refl;
        bulk = refl;
        reliable = refl;
      },
    )
    | inr (x, rest, e, s, g, c, n, b) ↦
        let w =
          drain_lem fuel (give_back (account q (minus x.wire)) x.pkt) rest others g
            (omega (arith, n)) (ground (arith, k, b, pos-minus (f.bytes + others) x.wire)) in
        (
          w.0,
          w.1,
          rw (lt→ltb 0 (Fifo.len f) (omega (arith, n)), e, drain) w.2,
          record {
            fifo = w.3.fifo;
            nothing = w.3.nothing;
            size = w.3.size;
            bytes = w.3.bytes;
            queued = w.3.queued;
            given = ground (arith, w.3.given, c, count-append p q.released (x.pkt ∷ []));
            closed = w.3.closed;
            control = w.3.control;
            priority = w.3.priority;
            bulk = w.3.bulk;
            reliable = w.3.reliable;
          },
        )
  ]

  -- `close` ends and never panics on a valid queue. Afterwards the queue is closed and valid, holds
  -- nothing and counts no bytes, and every packet that waited has been given back.
  pub close-IsValid :
      (q : Queue R)
      → IsValid q
      → (q' : Queue R) × (close q ≡ some q')
        × IsValid q'
        × (q'.closed ≡ true)
        × (len q' ≡ 0)
        × (q'.queued ≡ pos 0)
        × (count p q'.released ≡ count p q.released + waiting p q)
  unfolding close len
  close-IsValid q0 v =
      let q = record q0 { closed = true } in
      let a =
        drain_lem (suc (Fifo.len q.control)) q q.control
          (q.priority.bytes + q.bulk.bytes + q.reliable.bytes) v.control (omega arith)
          (ground (arith, v.counted)) in
      let b =
        drain_lem (suc (Fifo.len q.priority)) a.0 q.priority (q.bulk.bytes + q.reliable.bytes)
          v.priority (omega arith) (ground (arith, a.3.queued)) in
      let c =
        drain_lem (suc (Fifo.len q.bulk)) b.0 q.bulk q.reliable.bytes v.bulk (omega arith)
          (ground (arith, b.3.queued)) in
      let d =
        drain_lem (suc (Fifo.len q.reliable)) c.0 q.reliable 0 v.reliable (omega arith)
          (ground (arith, c.3.queued)) in
      (
        record (d.0) { control = a.1; priority = b.1; bulk = c.1; reliable = d.1 },
        rw (a.2, b.2, c.2, d.2) refl,
        record {
          control = a.3.fifo;
          priority = b.3.fifo;
          bulk = c.3.fifo;
          reliable = d.3.fifo;
          droppable = ground (arith, c.3.nothing);
          counted = ground (arith, d.3.queued, a.3.bytes, b.3.bytes, c.3.bytes, d.3.bytes);
        },
        d.3.closed ∙ c.3.closed ∙ b.3.closed ∙ a.3.closed,
        ground (arith, a.3.size, b.3.size, c.3.size, d.3.size),
        d.3.queued,
        ground (arith, a.3.given, b.3.given, c.3.given, d.3.given),
      )
