-- ===== src/TunnelQueue/Pop/Loop.antt =====
-- tcp_tunnel_queue.go: pop as a whole.
use udplex.Prelude.{
  ℕ, zero, suc, ◌+◌, ◌≤◌, ◌<◌, ◌≡◌, refl, ap, ◌∙◌, ◌⊎◌, inl, inr, Bool, true, Option, some, List,
  [], ◌∷◌, ◌++◌, arith, ltb, Bool-cases, length, length-append, max,
}
use udplex.Float.{FloatOps}
use udplex.Packet.{Packet}
use udplex.Fifo.View.{count, count-append}
use udplex.TunnelQueue.{Queue, len}
use udplex.TunnelQueue.Pop.{Round, done, sent, dropped, round, pop_loop, pop}
use udplex.TunnelQueue.Pop.Took.{Outcome}
use udplex.TunnelQueue.Pop.Rounds.{round_lem}
use udplex.TunnelQueue.Invariant.{IsValid, waiting}

-- The packets that a queue must not drop.
abbrev pub must_keep : Packet → Bool
must_keep pkt = pkt.no_drop

module _ {R : Type 0} (F : FloatOps R) (p : Packet → Bool) where
  -- What a call of `pop` achieves from a queue and the packets taken so far.
  abbrev pub Popped : Queue R → List Packet → ℕ → Option (Queue R × List Packet) → Type 0
  Popped q out limit r =
      (q' : Queue R) × (out' : List Packet) × (r ≡ some (q', out'))
      × IsValid q'
      × (waiting p q' + count p q'.released + count p out'
          ≡ waiting p q + count p q.released + count p out)
      × (length out' ≤ max limit (length out))
      × ((limit ≤ length out') ⊎ (len q' ≡ 0))
      × (count must_keep q'.released ≡ count must_keep q.released)

  pop_loop_lem :
      (fuel : ℕ) (now : ℕ) (q : Queue R) (out : List Packet) (limit : ℕ)
      → IsValid q
      → len q + 1 < fuel
      → Popped q out limit (pop_loop F fuel now q out limit)
  unfolding pop_loop
  pop_loop_lem zero now q out limit v h = elim h [ ]
  pop_loop_lem (suc fuel) now q out limit v h = elim (Bool-cases (ltb (length out) limit)) [
    | inr full ↦
        (q, out, rw (full, pop_loop) refl, v, refl, omega arith, inl (ground (arith, full)), refl)
    | inl room ↦
        let g = round_lem F p q now v in
        step room g.0 g.1 g.2 λ q' out' v' h'. pop_loop_lem fuel now q' out' limit v' h'
  ]
    where
      step :
          ltb (length out) limit ≡ true
          → (r : Round R) → round F now q ≡ some r
          → Outcome p q r
          → ((q' : Queue R) (out' : List Packet)
              → IsValid q'
              → len q' + 1 < fuel
              → Popped q' out' limit (pop_loop F fuel now q' out' limit))
          → Popped q out limit (pop_loop F (suc fuel) now q out limit)
      step room (done q') e o ih = (
        q',
        out,
        rw (room, e, pop_loop) refl,
        o.1,
        ground (arith, o.2, o.3),
        omega arith,
        inr o.0,
        ap (count must_keep) o.3,
      )
      step room (sent q' x) e o ih =
          let w = ih q' (out ++ (x.pkt ∷ [])) o.0.valid (omega (arith, o.0.shorter)) in
          (
            w.0,
            w.1,
            rw (room, e, pop_loop) w.2,
            w.3,
            ground (arith, w.4, o.0.one_less, o.1, count-append p out (x.pkt ∷ [])),
            ground (arith, w.5, length-append out (x.pkt ∷ []), room),
            w.6,
            w.7 ∙ ap (count must_keep) o.1,
          )
      step room (dropped q' x) e o ih =
          let w = ih q' out o.0.valid (omega (arith, o.0.shorter)) in
          (
            w.0,
            w.1,
            rw (room, e, pop_loop) w.2,
            w.3,
            ground (arith, w.4, o.0.one_less, o.1, count-append p q.released (x.pkt ∷ [])),
            w.5,
            w.6,
            ground (arith, w.7, o.1, o.2, count-append must_keep q.released (x.pkt ∷ [])),
          )

  -- `pop` ends, never panics on a valid queue and leaves it valid. No packet is lost or invented: what
  -- waited is afterwards waiting, given back, or in the output. The output stays within the limit,
  -- and it is below the limit only when the queue has run empty. No packet that must not be dropped
  -- is given back.
  pub pop-IsValid :
      (now : ℕ) (q : Queue R) (out : List Packet) (limit : ℕ)
      → IsValid q
      → Popped q out limit (pop F now q out limit)
  unfolding pop
  pop-IsValid now q out limit v = pop_loop_lem (len q + 2) now q out limit v (omega arith)
