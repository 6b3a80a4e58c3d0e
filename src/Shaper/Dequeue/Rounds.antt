-- ===== src/Shaper/Dequeue/Rounds.antt =====
-- shaper.go: one round of the loop in dequeue.
use udplex.Prelude.{
  ℕ, suc, ◌+◌, ◌<◌, ◌≡◌, refl, ap, inl, inr, Bool, Option, some, ◌∷◌, arith, ltb, leb, ◌==◌, ◌&&◌,
  ◌||◌, Bool-cases, if◌then◌else◌,
}
use udplex.Prelude.Int.{ℤ, pos, sub_ℕ, ◌+ℤ◌}
use udplex.Float.{FloatOps}
use udplex.Packet.{Packet}
use udplex.Fifo.{Item, Fifo}
use udplex.Fifo
use udplex.Fifo.View.{contents, pop_view, IsFifo}
use udplex.Codel.{should_drop}
use udplex.TunnelQueue.{min_standing_bytes, minus}
use udplex.Shaper.{Shaper, count_queued, let_go, drop_codel, data_len, observe_sojourn, ShaperStats}
use udplex.Shaper.Dequeue.{
  Turn, stop, spend, take_item, drop_standing, control_turn, priority_sent, priority_turn,
  bulk_turn, turn_control, turn_priority, turn_bulk, turn,
}
use udplex.Shaper.Invariant.{IsShaper}
use udplex.Shaper.Dequeue.Took.{Result, control-Left, priority-Left, bulk-Left}

observe_sojourn_lem :
    (s : ShaperStats) (d : ℤ) → (observe_sojourn s d).queued_bytes ≡ s.queued_bytes
unfolding observe_sojourn
observe_sojourn_lem s d = ground arith

module _ {R : Type 0} (F : FloatOps R) (others : ℤ) (f : Packet → Bool) where
  abbrev pub Goes : Shaper R → Option (Turn R) → Type 0
  Goes p o = (t : Turn R) × (o ≡ some t) × Result others f p t

  turn_control_lem :
      (p : Shaper R) → IsShaper others p → 0 < Fifo.len p.control → Goes p (turn_control F p)
  unfolding turn_control control_turn spend take_item count_queued
  turn_control_lem p v h = elim (pop_view p.control v.control) [
    | inl (e, c, n, b) ↦ absurd (omega (arith, n))
    | inr (x, rest, e, s, g, c, n, b) ↦ (
      control_turn F p x rest,
      rw (e, turn_control) refl,
      (control-Left others f p _ x v g c n b refl refl refl refl, refl),
    )
  ]

  priority_turn-Result :
      (p : Shaper R) (now : ℕ) (x : Item) (rest : Fifo)
      → IsShaper others p
      → Fifo.len p.control ≡ 0
      → IsFifo rest
      → contents p.priority ≡ x ∷ contents rest
      → Fifo.len p.priority ≡ suc (Fifo.len rest)
      → p.priority.bytes ≡ x.wire + rest.bytes
      → Result others f p (priority_turn F now p x rest)
  unfolding priority_turn priority_sent spend take_item count_queued drop_standing drop_codel let_go
  priority_turn-Result p now x rest v z g c n b =
      elim (Bool-cases (leb min_standing_bytes rest.bytes)) [
        | inl on ↦ elim (Bool-cases (should_drop F p.priority_codel now (sub_ℕ now x.enq)).1) [
          | inl d ↦
              simp (on, d) (priority-Left others f p _ x v g c n b refl refl refl refl, refl, z)
          | inr k ↦ simp (on, k) (priority-Left others f p _ x v g c n b refl refl refl refl, refl)
        ]
        | inr off ↦ simp off (priority-Left others f p _ x v g c n b refl refl refl refl, refl)
      ]

  turn_priority_lem :
      (p : Shaper R) (now : ℕ)
      → IsShaper others p
      → Fifo.len p.control ≡ 0
      → 0 < Fifo.len p.priority
      → Goes p (turn_priority F now p)
  unfolding turn_priority
  turn_priority_lem p now v z h = elim (pop_view p.priority v.priority) [
    | inl (e, c, n, b) ↦ absurd (omega (arith, n))
    | inr (x, rest, e, s, g, c, n, b) ↦ (
      priority_turn F now p x rest,
      rw (e, turn_priority) refl,
      priority_turn-Result p now x rest v z g c n b,
    )
  ]

  bulk_turn-Result :
      (p : Shaper R) (now : ℕ) (x : Item) (rest : Fifo)
      → IsShaper others p
      → Fifo.len p.control ≡ 0
      → IsFifo rest
      → contents p.bulk ≡ x ∷ contents rest
      → Fifo.len p.bulk ≡ suc (Fifo.len rest)
      → p.bulk.bytes ≡ x.wire + rest.bytes
      → Result others f p (bulk_turn F now p x rest)
  unfolding bulk_turn spend take_item count_queued drop_standing drop_codel let_go observe_sojourn
  bulk_turn-Result p now x rest v z g c n b =
      let sojourn = (if ltb rest.bytes min_standing_bytes then pos 0 else sub_ℕ now x.enq) in
      let k0 = ap (λ (o : ℤ). o +ℤ minus x.wire) (observe_sojourn_lem p.stats (sub_ℕ now x.enq)) in
      elim (Bool-cases (should_drop F p.codel now sojourn).1) [
        | inl d ↦ simp d (bulk-Left others f p _ x v g c n b refl refl refl k0, refl, z)
        | inr k ↦ simp k (bulk-Left others f p _ x v g c n b refl refl refl k0, refl)
      ]

  turn_bulk_lem :
      (p : Shaper R) (now : ℕ)
      → IsShaper others p
      → Fifo.len p.control ≡ 0
      → 0 < Fifo.len p.bulk
      → Goes p (turn_bulk F now p)
  unfolding turn_bulk
  turn_bulk_lem p now v z h = elim (pop_view p.bulk v.bulk) [
    | inl (e, c, n, b) ↦ absurd (omega (arith, n))
    | inr (x, rest, e, s, g, c, n, b) ↦ (
      bulk_turn F now p x rest,
      rw (e, turn_bulk) refl,
      bulk_turn-Result p now x rest v z g c n b,
    )
  ]

  -- A round never panics: it takes one packet, or is the last and changes nothing.
  pub turn_lem : (p : Shaper R) (now : ℕ) → IsShaper others p → Goes p (turn F now p)
  unfolding turn data_len
  turn_lem p now v =
      let zero_f = F.of_ℤ (pos 0) in
      elim (Bool-cases (ltb 0 (Fifo.len p.control))) [
        | inl c ↦ rw c (turn_control_lem p v (ground (arith, c)))
        | inr c ↦
            let z : Fifo.len p.control ≡ 0 = ground (arith, c) in
            elim (Bool-cases (F.le p.tokens zero_f || Fifo.len p.priority + Fifo.len p.bulk == 0)) [
              | inl h ↦ rw (c, h) (stop p, refl, (refl, z))
              | inr h ↦
                  elim (Bool-cases (
                    ltb 0 (Fifo.len p.priority)
                    && (F.lt zero_f p.priority_tokens || Fifo.len p.bulk == 0))) [
                      | inl k ↦ rw (c, h, k) (turn_priority_lem p now v z (ground (arith, k)))
                      | inr k ↦ rw (c, h, k) (turn_bulk_lem p now v z (ground (arith, h, k)))
                    ]
            ]
      ]
