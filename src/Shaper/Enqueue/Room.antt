-- ===== src/Shaper/Enqueue/Room.antt =====
-- shaper.go: the loop of enqueue that makes room by dropping the oldest bulk packets.
use udplex.Prelude.{
  ℕ, zero, suc, ◌+◌, ◌≤◌, ◌<◌, ◌≡◌, refl, ◌∙◌, ◌⊎◌, inl, inr, Bool, some, [], ◌∷◌, arith, ltb, ◌&&◌,
  Bool-cases,
}
use udplex.Prelude.Int.{ℤ}
use udplex.Packet.{Packet}
use udplex.Fifo.{Item, Fifo}
use udplex.Fifo
use udplex.Fifo.View.{contents, pop_view, tally, count, count-append, IsFifo}
use udplex.Shaper.{Shaper, count_queued, drop_overflow, let_go}
use udplex.Shaper.Enqueue.{counted_bytes, pushed_out, push_out_one, make_room}
use udplex.Shaper.Invariant.{IsShaper, counted_less}

module _ {R : Type 0} (others : ℤ) (f : Packet → Bool) where
  -- From `p` to `q` only bulk packets went, and each of them was given back.
  pub record Made (p q : Shaper R) : Type 0 where
    pub valid : IsShaper others q
    pub settings : q.s ≡ p.s
    pub control : q.control ≡ p.control
    pub priority : q.priority ≡ p.priority
    pub moved :
        tally f (contents q.bulk) + count f q.released
        ≡ tally f (contents p.bulk) + count f p.released

  pushed_out_lem :
      (p : Shaper R) (x : Item) (rest : Fifo)
      → IsShaper others p
      → IsFifo rest
      → contents p.bulk ≡ x ∷ contents rest
      → p.bulk.bytes ≡ x.wire + rest.bytes
      → Made p (pushed_out p x rest)
  unfolding pushed_out count_queued drop_overflow let_go
  pushed_out_lem p x rest v g c b = record {
    valid = record {
      control = v.control;
      priority = v.priority;
      bulk = g;
      few_control = v.few_control;
      limited = omega (arith, v.limited, b);
      counted = ground (arith, counted_less p x.wire v);
    };
    settings = refl;
    control = refl;
    priority = refl;
    moved = ground (arith, count-append f p.released (x.pkt ∷ []));
  }

  Made-refl : (p : Shaper R) → IsShaper others p → Made p p
  Made-refl p v = record {
    valid = v;
    settings = refl;
    control = refl;
    priority = refl;
    moved = refl;
  }

  Made-trans : {a b c : Shaper R} → Made a b → Made b c → Made a c
  Made-trans h k = record {
    valid = k.valid;
    settings = k.settings ∙ h.settings;
    control = k.control ∙ h.control;
    priority = k.priority ∙ h.priority;
    moved = k.moved ∙ h.moved;
  }

  -- With this much fuel the loop ends, and then the new packet fits or no bulk packet is left.
  pub make_room_lem :
      (fuel : ℕ) (p : Shaper R) (wire : ℕ)
      → IsShaper others p
      → Fifo.len p.bulk < fuel
      → (q : Shaper R) × (make_room fuel p wire ≡ some q)
        × Made p q
        × ((q.priority.bytes + q.bulk.bytes + wire ≤ p.s.queue_limit) ⊎ (Fifo.len q.bulk ≡ 0))
  unfolding make_room push_out_one pushed_out counted_bytes count_queued drop_overflow let_go
  make_room_lem zero p wire v h = elim h [ ]
  make_room_lem (suc fuel) p wire v h =
      elim (Bool-cases
        (ltb p.s.queue_limit (p.priority.bytes + p.bulk.bytes + wire) && ltb 0 (Fifo.len p.bulk))) [
          | inl full ↦ elim (pop_view p.bulk v.bulk) [
            | inl (none_left, c, n, b) ↦ absurd (ground (arith, full, n))
            | inr (x, rest, popped, seen, g, c, n, b) ↦
                let e = pushed_out_lem p x rest v g c b in
                let ih = make_room_lem fuel (pushed_out p x rest) wire e.valid (omega (arith, n)) in
                (ih.0, rw (full, popped, make_room, push_out_one) ih.1, Made-trans e ih.2, ih.3)
          ]
          | inr fits ↦ (p, rw (fits, make_room) refl, Made-refl p v, ground (arith, fits))
        ]
