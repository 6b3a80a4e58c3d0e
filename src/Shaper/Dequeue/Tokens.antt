-- ===== src/Shaper/Dequeue/Tokens.antt =====
-- shaper.go: the token bucket through refill, setRate and dequeue.
use udplex.Prelude.{
  ℕ, zero, suc, ◌+◌, ◌≡◌, subst, inl, inr, false, Option, none, some, List, [], ◌∷◌, ◌++◌, ltb, leb,
  ◌==◌, ◌&&◌, ◌||◌, Bool-cases, if◌then◌else◌, length,
}
use udplex.Prelude.Int.{pos, sub_ℕ}
use udplex.Float.{FloatOps}
use udplex.Fifo.{Item, Fifo}
use udplex.Fifo
use udplex.Shaper.{Shaper, refill, set_rate, count_queued, let_go, drop_codel, data_len, shaper_len}
use udplex.Shaper.Dequeue.{
  Turn, stop, sends, drops, spend, take_item, drop_standing, control_turn, priority_sent,
  priority_turn, bulk_turn, turn_control, turn_priority, turn_bulk, turn, dequeue_loop, dequeue,
}
use udplex.Codel.{should_drop}
use udplex.TunnelQueue.{min_standing_bytes}

-- What is used of float64, and holds of NaN, too: math.Min is never above its second argument, and
-- subtracting a count of bytes does not lift a number above a bound.
pub record BucketLaws {R : Type 0} (F : FloatOps R) : Type 0 where
  pub min_below : (x y : R) → F.lt y (F.fmin x y) ≡ false
  pub sub_below : (b x : R) (n : ℕ) → F.lt b x ≡ false → F.lt b (F.sub x (F.of_ℤ (pos n))) ≡ false

module _ {R : Type 0} (F : FloatOps R) where
  -- The bucket holds no more than its depth.
  abbrev pub IsCapped : Shaper R → Type 0
  IsCapped p = F.lt p.r.burst p.tokens ≡ false

  abbrev TurnCapped : Turn R → Type 0
  TurnCapped (stop p) = IsCapped p
  TurnCapped (sends p it) = IsCapped p
  TurnCapped (drops p it) = IsCapped p

  abbrev Capped : Option (Turn R) → Type 0
  Capped none = Unit
  Capped (some t) = TurnCapped t

module _ {R : Type 0} (F : FloatOps R) (laws : BucketLaws F) where
  refill-IsCapped : (p : Shaper R) (now : ℕ) → IsCapped F p → IsCapped F (refill F p now)
  unfolding refill
  refill-IsCapped p now c =
      let dt = F.div (F.of_ℤ (sub_ℕ now p.last)) (F.of_ℤ (pos 1_000_000_000)) in
      elim (Bool-cases (F.le dt (F.of_ℤ (pos 0)))) [
        | inl e ↦ rw e c
        | inr e ↦ rw e (laws.min_below (F.add p.tokens (F.mul p.r.rate dt)) p.r.burst)
      ]

  priority_turn-Capped :
      (p : Shaper R) (now : ℕ) (x : Item) (rest : Fifo)
      → IsCapped F p
      → TurnCapped F (priority_turn F now p x rest)
  unfolding priority_turn priority_sent spend take_item count_queued drop_standing drop_codel let_go
  priority_turn-Capped p now x rest h =
      let less = laws.sub_below p.r.burst p.tokens x.wire h in
      elim (Bool-cases (leb min_standing_bytes rest.bytes)) [
        | inl on ↦ elim (Bool-cases (should_drop F p.priority_codel now (sub_ℕ now x.enq)).1) [
          | inl d ↦ simp (on, d) h
          | inr k ↦ simp (on, k) less
        ]
        | inr off ↦ simp off less
      ]

  bulk_turn-Capped :
      (p : Shaper R) (now : ℕ) (x : Item) (rest : Fifo)
      → IsCapped F p
      → TurnCapped F (bulk_turn F now p x rest)
  unfolding bulk_turn spend take_item count_queued drop_standing drop_codel let_go
  bulk_turn-Capped p now x rest h =
      let sojourn = (if ltb rest.bytes min_standing_bytes then pos 0 else sub_ℕ now x.enq) in
      elim (Bool-cases (should_drop F p.codel now sojourn).1) [
        | inl d ↦ simp d h
        | inr k ↦ simp k (laws.sub_below p.r.burst p.tokens x.wire h)
      ]

  turn-Capped : (p : Shaper R) (now : ℕ) → IsCapped F p → Capped F (turn F now p)
  unfolding turn turn_control turn_priority turn_bulk control_turn spend take_item count_queued
  turn-Capped p now h =
      let zero_f = F.of_ℤ (pos 0) in
      elim (Bool-cases (ltb 0 (Fifo.len p.control))) [
        | inl c ↦
            rw c
              (elim (Fifo.pop p.control)
                as (λ o.
                  Capped F
                    (elim o [ none ↦ none | some (it, rest) ↦ some (control_turn F p it rest) ])) [
                      | none ↦ tt
                      | some (x, rest) ↦ laws.sub_below p.r.burst p.tokens x.wire h
                    ])
        | inr c ↦ elim (Bool-cases (F.le p.tokens zero_f || data_len p == 0)) [
          | inl e ↦ rw (c, e) h
          | inr e ↦
              elim (Bool-cases (
                ltb 0 (Fifo.len p.priority)
                && (F.lt zero_f p.priority_tokens || Fifo.len p.bulk == 0))) [
                  | inl k ↦
                      rw (c, e, k)
                        (elim (Fifo.pop p.priority)
                          as (λ o. Capped F (elim o [
                            | none ↦ none
                            | some (it, rest) ↦ some (priority_turn F now p it rest)
                          ])) [ none ↦ tt | some (x, rest) ↦ priority_turn-Capped p now x rest h ])
                  | inr k ↦
                      rw (c, e, k)
                        (elim (Fifo.pop p.bulk)
                          as (λ o. Capped F (elim o [
                            | none ↦ none
                            | some (it, rest) ↦ some (bulk_turn F now p it rest)
                          ])) [ none ↦ tt | some (x, rest) ↦ bulk_turn-Capped p now x rest h ])
                ]
        ]
      ]

  abbrev LoopCapped : Option (Shaper R × List Item) → Type 0
  LoopCapped none = Unit
  LoopCapped (some (p, out)) = IsCapped F p

  dequeue_loop-Capped :
      (fuel now : ℕ) (p : Shaper R) (out : List Item) (limit : ℕ)
      → IsCapped F p
      → LoopCapped (dequeue_loop F fuel now p out limit)
  unfolding dequeue_loop
  dequeue_loop-Capped zero now p out limit h = tt
  dequeue_loop-Capped (suc fuel) now p out limit h = elim (Bool-cases (ltb (length out) limit)) [
    | inr full ↦ rw (full, dequeue_loop) h
    | inl room ↦
        rw (room, dequeue_loop)
          (step (turn F now p) (turn-Capped p now h)
            (λ q o k. dequeue_loop-Capped fuel now q o limit k))
  ]
    where
      step :
          (t : Option (Turn R))
          → Capped F t
          → ((q : Shaper R) (o : List Item)
              → IsCapped F q
              → LoopCapped (dequeue_loop F fuel now q o limit))
          → LoopCapped (elim t [
            | none ↦ none
            | some (stop p') ↦ some (p', out)
            | some (sends p' it) ↦ dequeue_loop F fuel now p' (out ++ (it ∷ [])) limit
            | some (drops p' it) ↦ dequeue_loop F fuel now p' out limit
          ])
      step none c ih = tt
      step (some (stop p')) c ih = c
      step (some (sends p' it)) c ih = ih p' (out ++ (it ∷ [])) c
      step (some (drops p' it)) c ih = ih p' out c

  -- Given the laws, a bucket within its depth stays so: after a refill, after the rate has been changed
  -- to any other, and after a `dequeue` that returns, whatever it sends.
  pub dequeue-IsCapped :
      (p q : Shaper R) (now : ℕ) (rate : R) (out taken : List Item) (limit : ℕ)
      → IsCapped F p
      → dequeue F now p out limit ≡ some (q, taken)
      → IsCapped F (refill F p now) × IsCapped F (set_rate F p now rate) × IsCapped F q
  unfolding dequeue set_rate
  dequeue-IsCapped p q now rate out taken limit h e =
      let r = refill-IsCapped p now h in
      let d =
        dequeue_loop-Capped (shaper_len (refill F p now) + 2) now (refill F p now) out limit r in
      (
        r,
        elim (Bool-cases (F.le rate p.r.rate && F.le p.r.rate rate)) [
          | inl same ↦ rw same h
          | inr other_rate ↦ rw other_rate (laws.min_below (refill F p now).tokens _)
        ],
        subst LoopCapped e d,
      )
