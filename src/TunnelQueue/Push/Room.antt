-- ===== src/TunnelQueue/Push/Room.antt =====
-- The loop of `push` that makes room by dropping the oldest bulk packets.
use udplex.Prelude.{
  ℕ, zero, suc, ◌+◌, ◌≤◌, ◌<◌, ◌≡◌, refl, ◌∙◌, ◌⊎◌, inl, inr, Bool, some, [], ◌∷◌, arith, ltb, ◌&&◌,
  Bool-cases,
}
use udplex.Packet.{Packet}
use udplex.Fifo.{Item, Fifo}
use udplex.Fifo
use udplex.Fifo.View.{contents, pop_view, tally, count, count-append, IsFifo}
use udplex.TunnelQueue.{Queue, data_bytes}
use udplex.TunnelQueue.Push.{evicted, evict_one, evict}
use udplex.TunnelQueue.Invariant.{IsValid, recount_sub}

module _ {R : Type 0} (p : Packet → Bool) where
  -- From `q` to `q'` only bulk packets went, and each of them was given back.
  pub record Evicted (q q' : Queue R) : Type 0 where
    pub valid : IsValid q'
    pub settings : q'.s ≡ q.s
    pub open_still : q'.closed ≡ q.closed
    pub control : q'.control ≡ q.control
    pub priority : q'.priority ≡ q.priority
    pub reliable : q'.reliable ≡ q.reliable
    pub moved :
        tally p (contents q'.bulk) + count p q'.released
        ≡ tally p (contents q.bulk) + count p q.released

  evicted_lem :
      (q : Queue R) (x : Item) (rest : Fifo)
      → IsValid q
      → IsFifo rest
      → contents q.bulk ≡ x ∷ contents rest
      → q.bulk.bytes ≡ x.wire + rest.bytes
      → Evicted q (evicted q x rest)
  unfolding evicted
  evicted_lem q x rest v f c b = record {
    valid = record {
      control = v.control;
      priority = v.priority;
      bulk = f;
      reliable = v.reliable;
      droppable = ground (arith, v.droppable, c);
      counted = ground (arith, recount_sub q x.wire v);
    };
    settings = refl;
    open_still = refl;
    control = refl;
    priority = refl;
    reliable = refl;
    moved = ground (arith, count-append p q.released (x.pkt ∷ []));
  }

  Evicted-refl : (q : Queue R) → IsValid q → Evicted q q
  Evicted-refl q v = record {
    valid = v;
    settings = refl;
    open_still = refl;
    control = refl;
    priority = refl;
    reliable = refl;
    moved = refl;
  }

  Evicted-trans : {a b c : Queue R} → Evicted a b → Evicted b c → Evicted a c
  Evicted-trans h k = record {
    valid = k.valid;
    settings = k.settings ∙ h.settings;
    open_still = k.open_still ∙ h.open_still;
    control = k.control ∙ h.control;
    priority = k.priority ∙ h.priority;
    reliable = k.reliable ∙ h.reliable;
    moved = k.moved ∙ h.moved;
  }

  -- With this much fuel the loop ends, and then the new packet fits or no bulk packet is left.
  pub evict_lem :
      (fuel : ℕ) (q : Queue R) (wire : ℕ)
      → IsValid q
      → Fifo.len q.bulk < fuel
      → (q' : Queue R) × (evict fuel q wire ≡ some q')
        × Evicted q q'
        × ((data_bytes q' + wire ≤ q.s.limit) ⊎ (Fifo.len q'.bulk ≡ 0))
  unfolding evict evict_one evicted
  evict_lem zero q wire v h = elim h [ ]
  evict_lem (suc fuel) q wire v h =
      elim (Bool-cases (ltb q.s.limit (data_bytes q + wire) && ltb 0 (Fifo.len q.bulk))) [
        | inl full ↦ elim (pop_view q.bulk v.bulk) [
          | inl (none_left, c, n, b) ↦ absurd (ground (arith, full, n))
          | inr (x, rest, popped, seen, f, c, n, b) ↦
              let e = evicted_lem q x rest v f c b in
              let ih = evict_lem fuel (evicted q x rest) wire e.valid (omega (arith, n)) in
              (ih.0, rw (full, popped, evict, evict_one) ih.1, Evicted-trans e ih.2, ih.3)
        ]
        | inr fits ↦ (q, rw (fits, evict) refl, Evicted-refl q v, ground (arith, fits))
      ]
