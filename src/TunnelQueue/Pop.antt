-- ===== src/TunnelQueue/Pop.antt =====
-- tcp_tunnel_queue.go: pop and close. `none` is the panic of a pop from an empty slice, or fuel that
-- has run out.
pub mod Took
pub mod Rounds
pub mod Loop
pub mod Close
use udplex.Prelude.{
  ℕ, zero, suc, ◌+◌, ◌*◌, ◌%◌, ◌^◌, ◌<◌, Bool, true, false, not, ◌&&◌, ◌||◌, ◌>>=◌, Option, none,
  some, List, [], ◌∷◌, ◌++◌, ltb, leb, ◌==◌, if◌then◌else◌, length,
}
use udplex.Prelude.Int.{ℤ, pos, negsuc, ◌+ℤ◌, ◌-ℤ◌, sub_ℕ, ltb_ℤ}
use udplex.Float.{FloatOps}
use udplex.Packet.{Packet}
use udplex.Fifo.{Item, Fifo}
use udplex.Fifo
use udplex.Codel.{Codel, new_codel, should_drop}
use udplex.TunnelQueue.{
  Queue, Stats, observe_delay, add_one, min_standing_bytes, max_credit, account, minus, give_back,
  drop, len,
}

-- What one round of the loop in `pop` does: return, send a packet, or drop one and go on.
pub data Round (R : Type 0) : Type 0 where
  done : Queue R → Round R
  sent : Queue R → Item → Round R
  dropped : Queue R → Item → Round R

-- `a.peek().enq.Before(b.peek().enq)`, read only where both queues have an item.
abbrev pub earlier : Option Item → Option Item → Bool
earlier (some a) (some b) = ltb a.enq b.enq
earlier _ _ = false

module _ {R : Type 0} (F : FloatOps R) where
  -- Each bulk byte earns share/(1-share) bytes of priority credit.
  pub earn : Queue R → ℕ → Queue R
  earn q wire =
      let one = F.of_ℤ (pos 1) in
      record q {
        credit =
            F.fmin
              (F.add q.credit (
                F.div (F.mul (F.of_ℤ (pos wire)) q.s.share)
                  (F.add (F.sub one q.s.share) (F.of_decimal 1 9))))
              (F.of_ℤ (pos max_credit));
      }

  -- A packet leaves the queue for the wire.
  send : Queue R → Item → Round R
  unfolding account
  send q it = sent (account q (minus it.wire)) it

  -- The rounds that take `it` from one of the four queues and leave `rest` there.
  priority_taken : ℕ → ℕ → Queue R → Item → Fifo → Round R
  unfolding send drop observe_delay
  priority_taken now bulk_len q it rest =
      let sojourn = sub_ℕ now it.enq in
      let r = record q { priority = rest; stats = observe_delay q.stats sojourn } in
      let over_share =
        r.s.codel
        && not it.pkt.no_drop
        && F.le r.credit (F.of_ℤ (pos 0))
        && ltb 0 bulk_len
        && leb min_standing_bytes rest.bytes in
      let (c, d) = should_drop F r.priority_codel now sojourn in
      let asked = (if over_share then record r { priority_codel = c } else r) in
      if over_share && d
      then dropped (drop asked it) it
      else send
          (record asked {
            credit = F.sub asked.credit (F.of_ℤ (pos it.wire));
            stats = record (asked.stats) { priority_pkts = add_one asked.stats.priority_pkts };
          })
          it

  reliable_taken : ℕ → Queue R → Item → Fifo → Round R
  unfolding send earn observe_delay
  reliable_taken now q it rest =
      send
        (earn (record q { reliable = rest; stats = observe_delay q.stats (sub_ℕ now it.enq) })
          it.wire)
        it

  bulk_taken : ℕ → Queue R → Item → Fifo → Round R
  unfolding send drop earn observe_delay
  bulk_taken now q it rest =
      let waited = sub_ℕ now it.enq in
      let r = record q { bulk = rest; stats = observe_delay q.stats waited } in
      let sojourn =
        (if ltb (rest.bytes + r.reliable.bytes) min_standing_bytes then pos 0 else waited) in
      let (c, d) = should_drop F r.codel now sojourn in
      let asked = (if r.s.codel then record r { codel = c } else r) in
      if r.s.codel && d then dropped (drop asked it) it else send (earn asked it.wire) it

  control_taken : Queue R → Item → Fifo → Round R
  unfolding send
  control_taken q it rest = send (record q { control = rest }) it

  pop_priority : ℕ → ℕ → Queue R → Option (Round R)
  pop_priority now bulk_len q = elim (Fifo.pop q.priority) [
    | none ↦ none
    | some (it, rest) ↦ some (priority_taken now bulk_len q it rest)
  ]

  pop_reliable : ℕ → Queue R → Option (Round R)
  pop_reliable now q = elim (Fifo.pop q.reliable) [
    | none ↦ none
    | some (it, rest) ↦ some (reliable_taken now q it rest)
  ]

  pop_bulk : ℕ → Queue R → Option (Round R)
  pop_bulk now q = elim (Fifo.pop q.bulk) [
    | none ↦ none
    | some (it, rest) ↦ some (bulk_taken now q it rest)
  ]

  pop_control : Queue R → Option (Round R)
  pop_control q = elim (Fifo.pop q.control) [
    | none ↦ none
    | some (it, rest) ↦ some (control_taken q it rest)
  ]

  -- The credit is full while no bulk packet waits.
  settle : Queue R → Queue R
  settle q =
      if Fifo.len q.bulk + Fifo.len q.reliable == 0
      then record q { credit = F.of_ℤ (pos max_credit) }
      else q

  -- The `switch` of the loop in `pop`.
  choose : ℕ → Queue R → Option (Round R)
  choose now q =
      let bulk_len = Fifo.len q.bulk + Fifo.len q.reliable in
      if ltb 0 (Fifo.len q.control)
      then pop_control q
      else if ltb 0 (Fifo.len q.priority) && (F.lt (F.of_ℤ (pos 0)) q.credit || bulk_len == 0)
      then pop_priority now bulk_len q
      else if ltb 0 (Fifo.len q.reliable)
          && (Fifo.len q.bulk == 0 || earlier (Fifo.peek q.reliable) (Fifo.peek q.bulk))
      then pop_reliable now q
      else if ltb 0 (Fifo.len q.bulk)
      then pop_bulk now q
      else some (done q)

  -- The body of the loop in `pop`.
  pub round : ℕ → Queue R → Option (Round R)
  round now q = choose now (settle q)

  pop_loop : ℕ → ℕ → Queue R → List Packet → ℕ → Option (Queue R × List Packet)
  pop_loop zero now q out limit = none
  pop_loop (suc fuel) now q out limit = elim (ltb (length out) limit) [
    | false ↦ some (q, out)
    | true ↦ elim (round now q) [
      | none ↦ none
      | some (done q') ↦ some (q', out)
      | some (sent q' it) ↦ pop_loop fuel now q' (out ++ (it.pkt ∷ [])) limit
      | some (dropped q' it) ↦ pop_loop fuel now q' out limit
    ]
  ]

  -- A round takes a packet from the queue or is the last: the fuel is two more than the packets.
  pub pop : ℕ → Queue R → List Packet → ℕ → Option (Queue R × List Packet)
  pop now q out limit = pop_loop (len q + 2) now q out limit

module _ {R : Type 0} where
  -- The inner loop of `close`, over one of the queues: each packet is accounted and given back.
  pub drain : ℕ → Queue R → Fifo → Option (Queue R × Fifo)
  unfolding account give_back
  drain zero q f = none
  drain (suc fuel) q f = elim (ltb 0 (Fifo.len f)) [
    | false ↦ some (q, f)
    | true ↦ elim (Fifo.pop f) [
      | none ↦ none
      | some (it, rest) ↦ drain fuel (give_back (account q (minus it.wire)) it.pkt) rest
    ]
  ]

  pub close : Queue R → Option (Queue R)
  close q0 = do
    let q = record q0 { closed = true }
    (a, fc) ← drain (suc (Fifo.len q.control)) q q.control
    (b, fp) ← drain (suc (Fifo.len q.priority)) a q.priority
    (c, fb) ← drain (suc (Fifo.len q.bulk)) b q.bulk
    (d, fr) ← drain (suc (Fifo.len q.reliable)) c q.reliable
    some (record d { control = fc; priority = fp; bulk = fb; reliable = fr })
