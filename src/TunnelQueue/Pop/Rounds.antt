-- ===== src/TunnelQueue/Pop/Rounds.antt =====
-- tcp_tunnel_queue.go: one round of the loop in pop.
use udplex.Prelude.{
  ℕ, suc, ◌+◌, ◌<◌, ◌≡◌, refl, inl, inr, Bool, false, not, Option, some, ◌∷◌, arith, ltb, leb, ◌==◌,
  ◌&&◌, ◌||◌, Bool-cases, if◌then◌else◌,
}
use udplex.Prelude.Int.{pos, sub_ℕ}
use udplex.Float.{FloatOps}
use udplex.Packet.{Packet}
use udplex.Fifo.{Item, Fifo}
use udplex.Fifo
use udplex.Fifo.View.{contents, pop_view, IsFifo}
use udplex.Codel.{should_drop}
use udplex.TunnelQueue.{Queue, account, give_back, drop, len, min_standing_bytes, max_credit}
use udplex.TunnelQueue.Pop.{
  Round, done, sent, dropped, send, earn, earlier, control_taken, reliable_taken, bulk_taken,
  priority_taken, pop_control, pop_priority, pop_reliable, pop_bulk, choose, settle, round,
}
use udplex.TunnelQueue.Invariant.{IsValid}
use udplex.TunnelQueue.Pop.Took.{
  Outcome, control_taken-Took, priority_taken-Took, bulk_taken-Took, reliable_taken-Took,
}

module _ {R : Type 0} (F : FloatOps R) (p : Packet → Bool) where
  abbrev pub Goes : Queue R → Option (Round R) → Type 0
  Goes q o = (r : Round R) × (o ≡ some r) × Outcome p q r

  pop_control_lem : (q : Queue R) → IsValid q → 0 < Fifo.len q.control → Goes q (pop_control F q)
  unfolding pop_control control_taken send account
  pop_control_lem q v h = elim (pop_view q.control v.control) [
    | inl (e, c, n, b) ↦ absurd (omega (arith, n))
    | inr (x, rest, e, s, f, c, n, b) ↦ (
      control_taken F q x rest,
      rw (e, pop_control) refl,
      (control_taken-Took p q _ x v f c n b refl refl refl refl, refl),
    )
  ]

  pop_reliable_lem :
      (q : Queue R) (now : ℕ) → IsValid q → 0 < Fifo.len q.reliable → Goes q (pop_reliable F now q)
  unfolding pop_reliable reliable_taken send account earn
  pop_reliable_lem q now v h = elim (pop_view q.reliable v.reliable) [
    | inl (e, c, n, b) ↦ absurd (omega (arith, n))
    | inr (x, rest, e, s, f, c, n, b) ↦ (
      reliable_taken F now q x rest,
      rw (e, pop_reliable) refl,
      (reliable_taken-Took p q _ x v f c n b refl refl refl refl, refl),
    )
  ]

  -- A bulk packet is sent or dropped, as CoDel says; one that must not be dropped is never here.
  bulk_taken-Outcome :
      (q : Queue R) (now : ℕ) (x : Item) (rest : Fifo)
      → IsValid q
      → IsFifo rest
      → contents q.bulk ≡ x ∷ contents rest
      → Fifo.len q.bulk ≡ suc (Fifo.len rest)
      → q.bulk.bytes ≡ x.wire + rest.bytes
      → Outcome p q (bulk_taken F now q x rest)
  unfolding bulk_taken send account earn drop give_back
  bulk_taken-Outcome q now x rest v f c n b =
      let sojourn =
        (if ltb (rest.bytes + q.reliable.bytes) min_standing_bytes
          then pos 0
          else sub_ℕ now x.enq) in
      elim (Bool-cases q.s.codel) [
        | inl on ↦ elim (Bool-cases (should_drop F q.codel now sojourn).1) [
          | inl d ↦
              simp (on, d)
                (
                  bulk_taken-Took p q _ x v f c n b refl refl refl refl,
                  refl,
                  ground (arith, v.droppable, c),
                )
          | inr k ↦ simp (on, k) (bulk_taken-Took p q _ x v f c n b refl refl refl refl, refl)
        ]
        | inr off ↦ simp off (bulk_taken-Took p q _ x v f c n b refl refl refl refl, refl)
      ]

  pop_bulk_lem :
      (q : Queue R) (now : ℕ) → IsValid q → 0 < Fifo.len q.bulk → Goes q (pop_bulk F now q)
  unfolding pop_bulk
  pop_bulk_lem q now v h = elim (pop_view q.bulk v.bulk) [
    | inl (e, c, n, b) ↦ absurd (omega (arith, n))
    | inr (x, rest, e, s, f, c, n, b) ↦ (
      bulk_taken F now q x rest,
      rw (e, pop_bulk) refl,
      bulk_taken-Outcome q now x rest v f c n b,
    )
  ]

  -- A priority packet is dropped only where it may be.
  priority_taken-Outcome :
      (q : Queue R) (now bulk_len : ℕ) (x : Item) (rest : Fifo)
      → IsValid q
      → IsFifo rest
      → contents q.priority ≡ x ∷ contents rest
      → Fifo.len q.priority ≡ suc (Fifo.len rest)
      → q.priority.bytes ≡ x.wire + rest.bytes
      → Outcome p q (priority_taken F now bulk_len q x rest)
  unfolding priority_taken send account drop give_back
  priority_taken-Outcome q now bulk_len x rest v f c n b =
      let over =
        q.s.codel
        && not x.pkt.no_drop
        && F.le q.credit (F.of_ℤ (pos 0))
        && ltb 0 bulk_len
        && leb min_standing_bytes rest.bytes in
      elim (Bool-cases over) [
        | inl on ↦ elim (Bool-cases (should_drop F q.priority_codel now (sub_ℕ now x.enq)).1) [
          | inl d ↦
              simp (on, d)
                (
                  priority_taken-Took p q _ x v f c n b refl refl refl refl,
                  refl,
                  ground (arith, on),
                )
          | inr k ↦ simp (on, k) (priority_taken-Took p q _ x v f c n b refl refl refl refl, refl)
        ]
        | inr off ↦ simp off (priority_taken-Took p q _ x v f c n b refl refl refl refl, refl)
      ]

  pop_priority_lem :
      (q : Queue R) (now bulk_len : ℕ)
      → IsValid q
      → 0 < Fifo.len q.priority
      → Goes q (pop_priority F now bulk_len q)
  unfolding pop_priority
  pop_priority_lem q now bulk_len v h = elim (pop_view q.priority v.priority) [
    | inl (e, c, n, b) ↦ absurd (omega (arith, n))
    | inr (x, rest, e, s, f, c, n, b) ↦ (
      priority_taken F now bulk_len q x rest,
      rw (e, pop_priority) refl,
      priority_taken-Outcome q now bulk_len x rest v f c n b,
    )
  ]

  Outcome-credit :
      (q : Queue R) (c : R) (r : Round R) → Outcome p (record q { credit = c }) r → Outcome p q r
  unfolding len
  Outcome-credit q c (done q') o = o
  Outcome-credit q c (sent q' x) o =
      (record { valid = o.0.valid; shorter = o.0.shorter; one_less = o.0.one_less }, o.1)
  Outcome-credit q c (dropped q' x) o =
      (record { valid = o.0.valid; shorter = o.0.shorter; one_less = o.0.one_less }, o.1, o.2)

  choose_lem : (q : Queue R) (now : ℕ) → IsValid q → Goes q (choose F now q)
  unfolding choose
  choose_lem q now v =
      let bulk_len = Fifo.len q.bulk + Fifo.len q.reliable in
      elim (Bool-cases (ltb 0 (Fifo.len q.control))) [
        | inl c ↦ rw c (pop_control_lem q v (ground (arith, c)))
        | inr c ↦
            elim (Bool-cases
              (ltb 0 (Fifo.len q.priority) && (F.lt (F.of_ℤ (pos 0)) q.credit || bulk_len == 0))) [
                | inl h ↦ rw (c, h) (pop_priority_lem q now bulk_len v (ground (arith, h)))
                | inr h ↦
                    elim (Bool-cases (
                      ltb 0 (Fifo.len q.reliable)
                      && (Fifo.len q.bulk == 0
                          || earlier (Fifo.peek q.reliable) (Fifo.peek q.bulk)))) [
                            | inl k ↦ rw (c, h, k) (pop_reliable_lem q now v (ground (arith, k)))
                            | inr k ↦ elim (Bool-cases (ltb 0 (Fifo.len q.bulk))) [
                              | inl b ↦ rw (c, h, k, b) (pop_bulk_lem q now v (ground (arith, b)))
                              | inr b ↦ rw (c, h, k, b) (done q, refl, nothing c h k b)
                            ]
                          ]
              ]
      ]
    where
      nothing :
          ltb 0 (Fifo.len q.control) ≡ false
          → (ltb 0 (Fifo.len q.priority)
              && (F.lt (F.of_ℤ (pos 0)) q.credit || Fifo.len q.bulk + Fifo.len q.reliable == 0))
            ≡ false
          → (ltb 0 (Fifo.len q.reliable)
              && (Fifo.len q.bulk == 0 || earlier (Fifo.peek q.reliable) (Fifo.peek q.bulk)))
            ≡ false
          → ltb 0 (Fifo.len q.bulk) ≡ false
          → Outcome p q (done q)
      nothing c h k b = (unfold len in ground (arith, c, h, k, b), v, refl, refl)

  -- A round never panics on a valid queue: it takes one packet, or finds the queue empty.
  pub round_lem : (q : Queue R) (now : ℕ) → IsValid q → Goes q (round F now q)
  unfolding round settle
  round_lem q now v = elim (Bool-cases (Fifo.len q.bulk + Fifo.len q.reliable == 0)) [
    | inl e ↦
        let q' = record q { credit = F.of_ℤ (pos max_credit) } in
        let g = choose_lem q' now (recredited v) in
        (g.0, rw (e, round) g.1, Outcome-credit q _ g.0 g.2)
    | inr e ↦ rw (e, round) (choose_lem q now v)
  ]
    where
      recredited : IsValid q → IsValid (record q { credit = F.of_ℤ (pos max_credit) })
      recredited w = record {
        control = w.control;
        priority = w.priority;
        bulk = w.bulk;
        reliable = w.reliable;
        droppable = w.droppable;
        counted = w.counted;
      }
