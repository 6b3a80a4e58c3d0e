-- ===== src/Shaper/Dequeue.antt =====
-- shaper.go: dequeue, take and reset. `none` is the panic of a pop from an empty slice, or fuel that
-- has run out.
pub mod Took
pub mod Rounds
pub mod Loop
pub mod Reset
pub mod Tokens
use udplex.Prelude.{
  ℕ, zero, suc, ◌+◌, ◌%◌, ◌^◌, Bool, true, false, not, ◌&&◌, ◌||◌, ◌>>=◌, Option, none, some, List,
  [], ◌∷◌, ◌++◌, ltb, leb, ◌==◌, if◌then◌else◌, length,
}
use udplex.Prelude.Int.{ℤ, pos, sub_ℕ}
use udplex.Float.{FloatOps}
use udplex.Fifo.{Item, Fifo}
use udplex.Fifo
use udplex.Codel.{should_drop}
use udplex.TunnelQueue.{minus, min_standing_bytes}
use udplex.Shaper.{
  Shaper, count_queued, drop_codel, let_go, observe_sojourn, refill, data_len, shaper_len,
}

-- What one round of the loop in `dequeue` does: leave the loop, send an item or drop one.
pub data Turn (R : Type 0) : Type 0 where
  stop : Shaper R → Turn R
  sends : Shaper R → Item → Turn R
  drops : Shaper R → Item → Turn R

module _ {R : Type 0} (F : FloatOps R) where
  -- `p.tokens -= float64(it.wire)`
  pub spend : Shaper R → Item → Shaper R
  spend p it = record p { tokens = F.sub p.tokens (F.of_ℤ (pos it.wire)) }

  -- `p.take(out, it)`; the item is appended by the loop.
  pub take_item : Shaper R → Item → Shaper R
  unfolding count_queued
  take_item p it =
      let a = count_queued p (minus it.wire) in
      record a {
        stats = record (a.stats) { sent_bytes = (a.stats.sent_bytes + it.wire) % 2 ^ 64 };
        sent = (a.sent + it.wire) % 2 ^ 64;
      }

  drop_standing : Shaper R → Item → Turn R
  unfolding count_queued drop_codel
  drop_standing p it = drops (drop_codel (count_queued p (minus it.wire)) it) it

  control_turn : Shaper R → Item → Fifo → Turn R
  unfolding spend take_item
  control_turn p it rest = sends (take_item (spend (record p { control = rest }) it) it) it

  priority_sent : Shaper R → Item → Shaper R
  unfolding spend
  priority_sent p it =
      let a = spend p it in
      record a {
        priority_tokens =
            F.fmax (F.sub a.priority_tokens (F.of_ℤ (pos it.wire)))
              (F.sub (F.of_ℤ (pos 0)) a.r.priority_burst);
        stats = record (a.stats) { priority_pkts = (a.stats.priority_pkts + 1) % 2 ^ 64 };
      }

  priority_turn : ℕ → Shaper R → Item → Fifo → Turn R
  unfolding priority_sent take_item drop_standing
  priority_turn now p it rest =
      let q = record p { priority = rest } in
      let standing = leb min_standing_bytes rest.bytes in
      let (c, d) = should_drop F q.priority_codel now (sub_ℕ now it.enq) in
      let asked = (if standing then record q { priority_codel = c } else q) in
      if standing && d
      then drop_standing asked it
      else sends (take_item (priority_sent asked it) it) it

  bulk_turn : ℕ → Shaper R → Item → Fifo → Turn R
  unfolding spend take_item drop_standing observe_sojourn
  bulk_turn now p it rest =
      let waited = sub_ℕ now it.enq in
      let q = record p { bulk = rest; stats = observe_sojourn p.stats waited } in
      let sojourn = (if ltb rest.bytes min_standing_bytes then pos 0 else waited) in
      let (c, d) = should_drop F q.codel now sojourn in
      let asked = record q { codel = c } in
      if d then drop_standing asked it else sends (take_item (spend asked it) it) it

  turn_control : Shaper R → Option (Turn R)
  unfolding control_turn
  turn_control p = elim (Fifo.pop p.control) [
    | none ↦ none
    | some (it, rest) ↦ some (control_turn p it rest)
  ]

  turn_priority : ℕ → Shaper R → Option (Turn R)
  unfolding priority_turn
  turn_priority now p = elim (Fifo.pop p.priority) [
    | none ↦ none
    | some (it, rest) ↦ some (priority_turn now p it rest)
  ]

  turn_bulk : ℕ → Shaper R → Option (Turn R)
  unfolding bulk_turn
  turn_bulk now p = elim (Fifo.pop p.bulk) [
    | none ↦ none
    | some (it, rest) ↦ some (bulk_turn now p it rest)
  ]

  -- The body of the loop in `dequeue`.
  pub turn : ℕ → Shaper R → Option (Turn R)
  unfolding turn_control turn_priority turn_bulk data_len
  turn now p =
      let zero_f = F.of_ℤ (pos 0) in
      if ltb 0 (Fifo.len p.control)
      then turn_control p
      else if F.le p.tokens zero_f || data_len p == 0
      then some (stop p)
      else if ltb 0 (Fifo.len p.priority) && (F.lt zero_f p.priority_tokens || Fifo.len p.bulk == 0)
      then turn_priority now p
      else turn_bulk now p

  dequeue_loop : ℕ → ℕ → Shaper R → List Item → ℕ → Option (Shaper R × List Item)
  unfolding turn
  dequeue_loop zero now p out limit = none
  dequeue_loop (suc fuel) now p out limit = elim (ltb (length out) limit) [
    | false ↦ some (p, out)
    | true ↦ elim (turn now p) [
      | none ↦ none
      | some (stop p') ↦ some (p', out)
      | some (sends p' it) ↦ dequeue_loop fuel now p' (out ++ (it ∷ [])) limit
      | some (drops p' it) ↦ dequeue_loop fuel now p' out limit
    ]
  ]

  -- A round takes a packet or is the last: the fuel is two more than the packets.
  pub dequeue : ℕ → Shaper R → List Item → ℕ → Option (Shaper R × List Item)
  unfolding refill dequeue_loop
  dequeue now p out limit =
      let q = refill F p now in dequeue_loop (shaper_len q + 2) now q out limit

module _ {R : Type 0} where
  -- The inner loop of `reset`, over one of the queues.
  pub release_all : ℕ → Shaper R → Fifo → Option (Shaper R × Fifo)
  unfolding count_queued let_go
  release_all zero p f = none
  release_all (suc fuel) p f = elim (ltb 0 (Fifo.len f)) [
    | false ↦ some (p, f)
    | true ↦ elim (Fifo.pop f) [
      | none ↦ none
      | some (it, rest) ↦ release_all fuel (let_go (count_queued p (minus it.wire)) it.pkt) rest
    ]
  ]

  pub reset_shaper : Shaper R → Option (Shaper R)
  unfolding release_all
  reset_shaper p = do
    (a, fc) ← release_all (suc (Fifo.len p.control)) p p.control
    (b, fp) ← release_all (suc (Fifo.len p.priority)) a p.priority
    (c, fb) ← release_all (suc (Fifo.len p.bulk)) b p.bulk
    some (record c { control = fc; priority = fp; bulk = fb })
