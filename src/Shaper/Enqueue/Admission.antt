-- ===== src/Shaper/Enqueue/Admission.antt =====
-- shaper.go: enqueue as a whole.
use udplex.Prelude.{
  ℕ, suc, ◌+◌, ◌≡◌, refl, ◌∙◌, ap, subst, inl, inr, ◌⊎◌, ◌++◌, Bool, true, false, Option, some, [],
  ◌∷◌, arith, ltb, leb, ◌&&◌, Bool-cases, if◌then◌else◌,
}
use udplex.Prelude.Int.{ℤ, pos, ◌+ℤ◌}
use udplex.Packet.{Packet, Addr}
use udplex.Fifo.{Item, Fifo}
use udplex.Fifo
use udplex.Fifo.View.{contents, push_view, tally-append, count, count-append}
use udplex.Shaper.{Shaper, count_queued, drop_overflow, let_go}
use udplex.Shaper.Enqueue.{counted_bytes, enqueue_data, enqueue_control, enqueue, shaper_item}
use udplex.Shaper.Enqueue.Room.{make_room_lem}
use udplex.Shaper.Invariant.{IsShaper, counted_more, queued}

-- The items of the queue still stand in front, behind them at most the new packet.
abbrev pub Stays : Packet → Fifo → Fifo → Type 0
Stays pkt q r =
    (contents r ≡ contents q)
    ⊎ ((it : Item) × (it.pkt ≡ pkt) × (contents r ≡ contents q ++ (it ∷ [])))

module _ {R : Type 0} (others : ℤ) (f : Packet → Bool) where
  -- The packet has been queued or given back, no other packet is lost, and every control and priority
  -- packet that waited still does, in its place.
  pub record Queued (p : Shaper R) (pkt : Packet) (q : Shaper R) : Type 0 where
    pub valid : IsShaper others q
    pub moved :
        queued f q + count f q.released ≡ queued f p + count f p.released + (if f pkt then 1 else 0)
    pub control_kept : Stays pkt p.control q.control
    pub priority_kept : Stays pkt p.priority q.priority

  drop_overflow_lem :
      (p : Shaper R) (it : Item) → IsShaper others p → Queued p it.pkt (drop_overflow p it)
  unfolding drop_overflow let_go
  drop_overflow_lem p it v = record {
    valid = record {
      control = v.control;
      priority = v.priority;
      bulk = v.bulk;
      few_control = v.few_control;
      limited = v.limited;
      counted = v.counted;
    };
    moved = ground (arith, count-append f p.released (it.pkt ∷ []));
    control_kept = inl refl;
    priority_kept = inl refl;
  }

  enqueue_control_lem :
      (p : Shaper R) (it : Item) → IsShaper others p → Queued p it.pkt (enqueue_control p it)
  unfolding enqueue_control count_queued
  enqueue_control_lem p it v = elim (Bool-cases (leb 1024 (Fifo.len p.control))) [
    | inl full ↦ rw full (drop_overflow_lem p it v)
    | inr room ↦
        let w = push_view p.control it v.control in
        rw room (record {
          valid = record {
            control = w.0;
            priority = v.priority;
            bulk = v.bulk;
            few_control = ground (arith, w.2, room);
            limited = v.limited;
            counted =
                counted_more p it.wire v ∙ ap (λ (n : ℕ). others +ℤ pos n) (omega (arith, w.3));
          };
          moved = ground (arith, w.1, tally-append f (contents p.control) (it ∷ []));
          control_kept = inr (it, refl, w.1);
          priority_kept = inl refl;
        })
  ]

  enqueue_data_lem :
      (p : Shaper R) (it : Item) (size now : ℕ)
      → IsShaper others p
      → Queued p it.pkt (enqueue_data p it size now)
  unfolding enqueue_data count_queued counted_bytes
  enqueue_data_lem p it size now v =
      elim (Bool-cases (ltb p.s.queue_limit (p.priority.bytes + p.bulk.bytes + it.wire))) [
        | inl full ↦ rw full (drop_overflow_lem p it v)
        | inr room ↦ elim (Bool-cases (ltb 0 p.s.priority_size && leb size p.s.priority_size)) [
          | inl small ↦
              let w = push_view p.priority it v.priority in
              rw (room, small)
                (record {
                  valid = record {
                    control = v.control;
                    priority = w.0;
                    bulk = v.bulk;
                    few_control = v.few_control;
                    limited = ground (arith, w.3, room);
                    counted =
                        counted_more p it.wire v
                        ∙ ap (λ (n : ℕ). others +ℤ pos n) (omega (arith, w.3));
                  };
                  moved = ground (arith, w.1, tally-append f (contents p.priority) (it ∷ []));
                  control_kept = inl refl;
                  priority_kept = inr (it, refl, w.1);
                })
          | inr large ↦
              let w = push_view p.bulk it v.bulk in
              rw (room, large)
                (record {
                  valid = record {
                    control = v.control;
                    priority = v.priority;
                    bulk = w.0;
                    few_control = v.few_control;
                    limited = ground (arith, w.3, room);
                    counted =
                        counted_more p it.wire v
                        ∙ ap (λ (n : ℕ). others +ℤ pos n) (omega (arith, w.3));
                  };
                  moved = ground (arith, w.1, tally-append f (contents p.bulk) (it ∷ []));
                  control_kept = inl refl;
                  priority_kept = inl refl;
                })
        ]
      ]

  -- `enqueue` ends without a panic. The queues stay well formed and within the limits, the shared
  -- counter keeps the sum of their bytes, and every packet is still queued or has been given back, the
  -- new one included; every control and priority packet that waited still does, in its place.
  pub enqueue-IsShaper :
      (p : Shaper R) (pkt : Packet) (addr : Option Addr) (control : Bool) (now : ℕ)
      → IsShaper others p
      → (q : Shaper R) × (enqueue p pkt addr control now ≡ some q) × Queued p pkt q
  unfolding enqueue
  enqueue-IsShaper p pkt addr true now v =
      let it = shaper_item p pkt addr now in
      (enqueue_control p it, refl, enqueue_control_lem p it v)
  enqueue-IsShaper p pkt addr false now v =
      let it = shaper_item p pkt addr now in
      let m = make_room_lem others f (suc (Fifo.len p.bulk)) p it.wire v (omega arith) in
      let d = enqueue_data_lem m.0 it pkt.length now m.2.valid in
      (
        enqueue_data m.0 it pkt.length now,
        rw m.1 refl,
        record {
          valid = d.valid;
          moved = ground (arith, d.moved, m.2.moved, m.2.control, m.2.priority);
          control_kept =
              subst (λ c. Stays pkt c (enqueue_data m.0 it pkt.length now).control) m.2.control
                d.control_kept;
          priority_kept =
              subst (λ c. Stays pkt c (enqueue_data m.0 it pkt.length now).priority) m.2.priority
                d.priority_kept;
        },
      )
