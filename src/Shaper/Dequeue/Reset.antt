-- ===== src/Shaper/Dequeue/Reset.antt =====
-- shaper.go: reset.
use udplex.Prelude.{ℕ, zero, suc, ◌+◌, ◌<◌, ◌≡◌, refl, inl, inr, Bool, some, [], ◌∷◌, arith, lt→ltb}
use udplex.Prelude.Int.{ℤ, pos, ◌+ℤ◌}
use udplex.Packet.{Packet}
use udplex.Fifo.{Item, Fifo}
use udplex.Fifo
use udplex.Fifo.View.{IsFifo, contents, pop_view, tally, count, count-append}
use udplex.TunnelQueue.{minus}
use udplex.Shaper.{Shaper, shaper_len, count_queued, let_go}
use udplex.Shaper.Dequeue.{release_all, reset_shaper}
use udplex.Shaper.Invariant.{IsShaper, queued, plus_less}

module _ {R : Type 0} (others : ℤ) (f : Packet → Bool) where
  -- `a` has been emptied into the ledger; the queues of the shaper are as they were.
  record Emptied (p q : Shaper R) (a b : Fifo) (rest : ℕ) : Type 0 where
    fifo : IsFifo b
    nothing : contents b ≡ []
    size : Fifo.len b ≡ 0
    bytes : b.bytes ≡ 0
    counted : q.stats.queued_bytes ≡ others +ℤ pos rest
    given : count f q.released ≡ count f p.released + tally f (contents a)
    settings : q.s ≡ p.s
    control : q.control ≡ p.control
    priority : q.priority ≡ p.priority
    bulk : q.bulk ≡ p.bulk

  release_all_lem :
      (fuel : ℕ) (p : Shaper R) (a : Fifo) (rest : ℕ)
      → IsFifo a
      → Fifo.len a < fuel
      → p.stats.queued_bytes ≡ others +ℤ pos (a.bytes + rest)
      → (q : Shaper R) × (b : Fifo) × (release_all fuel p a ≡ some (q, b)) × Emptied p q a b rest
  unfolding release_all count_queued let_go
  release_all_lem zero p a rest v h k = elim h [ ]
  release_all_lem (suc fuel) p a rest v h k = elim (pop_view a v) [
    | inl (e, c, n, b) ↦ (
      p,
      a,
      ground (arith, n),
      record {
        fifo = v;
        nothing = c;
        size = n;
        bytes = b;
        counted = ground (arith, k, b);
        given = ground (arith, c);
        settings = refl;
        control = refl;
        priority = refl;
        bulk = refl;
      },
    )
    | inr (x, a', e, s, g, c, n, b) ↦
        let w =
          release_all_lem fuel (let_go (count_queued p (minus x.wire)) x.pkt) a' rest g
            (omega (arith, n)) (ground (arith, k, b, plus_less others (a.bytes + rest) x.wire)) in
        (
          w.0,
          w.1,
          rw (lt→ltb 0 (Fifo.len a) (omega (arith, n)), e, release_all) w.2,
          record {
            fifo = w.3.fifo;
            nothing = w.3.nothing;
            size = w.3.size;
            bytes = w.3.bytes;
            counted = w.3.counted;
            given = ground (arith, w.3.given, c, count-append f p.released (x.pkt ∷ []));
            settings = w.3.settings;
            control = w.3.control;
            priority = w.3.priority;
            bulk = w.3.bulk;
          },
        )
  ]

  -- `reset` ends without a panic: nothing is queued afterwards, this path contributes nothing to the
  -- shared byte counter any more, and every packet that was queued has been given back.
  pub reset_shaper-IsShaper :
      (p : Shaper R)
      → IsShaper others p
      → (q : Shaper R) × (reset_shaper p ≡ some q)
        × IsShaper others q
        × (shaper_len q ≡ 0)
        × (q.stats.queued_bytes ≡ others +ℤ pos 0)
        × (count f q.released ≡ count f p.released + queued f p)
  unfolding reset_shaper shaper_len
  reset_shaper-IsShaper p v =
      let a =
        release_all_lem (suc (Fifo.len p.control)) p p.control (p.priority.bytes + p.bulk.bytes)
          v.control (omega arith) v.counted in
      let b =
        release_all_lem (suc (Fifo.len p.priority)) a.0 p.priority p.bulk.bytes v.priority
          (omega arith) a.3.counted in
      let c =
        release_all_lem (suc (Fifo.len p.bulk)) b.0 p.bulk 0 v.bulk (omega arith)
          (ground (arith, b.3.counted)) in
      (
        record (c.0) { control = a.1; priority = b.1; bulk = c.1 },
        rw (a.2, b.2, c.2) refl,
        record {
          control = a.3.fifo;
          priority = b.3.fifo;
          bulk = c.3.fifo;
          few_control = omega (arith, a.3.size);
          limited = omega (arith, b.3.bytes, c.3.bytes);
          counted = ground (arith, c.3.counted, a.3.bytes, b.3.bytes, c.3.bytes);
        },
        ground (arith, a.3.size, b.3.size, c.3.size),
        c.3.counted,
        ground (arith, a.3.given, b.3.given, c.3.given),
      )
