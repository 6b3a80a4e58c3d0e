-- ===== src/Shaper/Dequeue/Loop.antt =====
-- shaper.go: dequeue as a whole.
use udplex.Prelude.{
  ℕ, zero, suc, ◌+◌, ◌≤◌, ◌<◌, ◌≡◌, refl, ◌⊎◌, inl, inr, Bool, true, Option, some, List, [], ◌∷◌,
  ◌++◌, arith, ltb, Bool-cases, length, length-append, max,
}
use udplex.Prelude.Int.{ℤ, pos, sub_ℕ}
use udplex.Float.{FloatOps}
use udplex.Packet.{Packet}
use udplex.Fifo.{Item}
use udplex.Fifo
use udplex.Fifo.View.{count, count-append, tally, tally-append}
use udplex.Shaper.{Shaper, shaper_len, refill}
use udplex.Shaper.Dequeue.{Turn, stop, sends, drops, turn, dequeue_loop, dequeue}
use udplex.Shaper.Dequeue.Took.{Result}
use udplex.Shaper.Dequeue.Rounds.{turn_lem}
use udplex.Shaper.Invariant.{IsShaper, IsShaper-same, queued}

module _ {R : Type 0} (F : FloatOps R) (others : ℤ) (f : Packet → Bool) where
  -- What a call of `dequeue` achieves from a shaper and the items taken so far.
  abbrev pub Dequeued : Shaper R → List Item → ℕ → Option (Shaper R × List Item) → Type 0
  Dequeued p out limit r =
      (q : Shaper R) × (out' : List Item) × (r ≡ some (q, out'))
      × IsShaper others q
      × (queued f q + count f q.released + tally f out'
          ≡ queued f p + count f p.released + tally f out)
      × (length out' ≤ max limit (length out))
      × ((limit ≤ length out') ⊎ (Fifo.len q.control ≡ 0))

  dequeue_loop_lem :
      (fuel : ℕ) (now : ℕ) (p : Shaper R) (out : List Item) (limit : ℕ)
      → IsShaper others p
      → shaper_len p + 1 < fuel
      → Dequeued p out limit (dequeue_loop F fuel now p out limit)
  unfolding dequeue_loop
  dequeue_loop_lem zero now p out limit v h = elim h [ ]
  dequeue_loop_lem (suc fuel) now p out limit v h = elim (Bool-cases (ltb (length out) limit)) [
    | inr full ↦
        (p, out, rw (full, dequeue_loop) refl, v, refl, omega arith, inl (ground (arith, full)))
    | inl room ↦
        let g = turn_lem F others f p now v in
        step room g.0 g.1 g.2 λ q out' v' h'. dequeue_loop_lem fuel now q out' limit v' h'
  ]
    where
      step :
          ltb (length out) limit ≡ true
          → (t : Turn R) → turn F now p ≡ some t
          → Result others f p t
          → ((q : Shaper R) (out' : List Item)
              → IsShaper others q
              → shaper_len q + 1 < fuel
              → Dequeued q out' limit (dequeue_loop F fuel now q out' limit))
          → Dequeued p out limit (dequeue_loop F (suc fuel) now p out limit)
      step room (stop q) e o ih = (
        q,
        out,
        rw (room, e, dequeue_loop) refl,
        rw o.0 v,
        ground (arith, o.0),
        omega arith,
        inr (rw o.0 o.1),
      )
      step room (sends q x) e o ih =
          let w = ih q (out ++ (x ∷ [])) o.0.valid (omega (arith, o.0.shorter)) in
          (
            w.0,
            w.1,
            rw (room, e, dequeue_loop) w.2,
            w.3,
            ground (arith, w.4, o.0.one_less, o.1, tally-append f out (x ∷ [])),
            ground (arith, w.5, length-append out (x ∷ []), room),
            w.6,
          )
      step room (drops q x) e o ih =
          let w = ih q out o.0.valid (omega (arith, o.0.shorter)) in
          (
            w.0,
            w.1,
            rw (room, e, dequeue_loop) w.2,
            w.3,
            ground (arith, w.4, o.0.one_less, o.1, count-append f p.released (x.pkt ∷ [])),
            w.5,
            w.6,
          )

  refill-IsShaper :
      (p : Shaper R) (now : ℕ)
      → IsShaper others p
      → IsShaper others (refill F p now)
        × (queued f (refill F p now) ≡ queued f p)
        × ((refill F p now).released ≡ p.released)
  unfolding refill
  refill-IsShaper p now v =
      let dt = F.div (F.of_ℤ (sub_ℕ now p.last)) (F.of_ℤ (pos 1_000_000_000)) in
      elim (Bool-cases (F.le dt (F.of_ℤ (pos 0)))) [
        | inl e ↦ rw e (v, refl, refl)
        | inr e ↦ rw e (IsShaper-same v refl refl refl refl refl, refl, refl)
      ]

  -- `dequeue` ends without a panic and keeps the shaper's invariant. Every packet that was queued is
  -- afterwards queued, given back or among the output's items, once. The output grows to at most
  -- `limit`, and below it no control message is left behind.
  pub dequeue-IsShaper :
      (now : ℕ) (p : Shaper R) (out : List Item) (limit : ℕ)
      → IsShaper others p
      → Dequeued p out limit (dequeue F now p out limit)
  unfolding dequeue
  dequeue-IsShaper now p out limit v =
      let r = refill-IsShaper p now v in
      let w =
        dequeue_loop_lem (shaper_len (refill F p now) + 2) now (refill F p now) out limit r.0
          (omega arith) in
      (w.0, w.1, w.2, w.3, ground (arith, w.4, r.1, r.2), w.5, w.6)
