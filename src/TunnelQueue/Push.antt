-- ===== src/TunnelQueue/Push.antt =====
-- tcp_tunnel_queue.go: push. `none` is the panic of a pop from an empty slice.
pub mod Room
pub mod Admission
pub mod Limit
use udplex.Prelude.{
  ℕ, zero, suc, ◌+◌, ◌*◌, ◌%◌, ◌^◌, ◌<◌, Bool, true, false, not, ◌&&◌, ◌||◌, ◌>>=◌, Option, none,
  some, List, [], ◌∷◌, ◌++◌, ltb, leb, ◌==◌, if◌then◌else◌, length,
}
use udplex.Prelude.Int.{ℤ, pos, negsuc, ◌+ℤ◌, ◌-ℤ◌, sub_ℕ, ltb_ℤ}
use udplex.Float.{FloatOps}
use udplex.Packet.{Packet}
use udplex.Fifo.{Item, Fifo}
use udplex.Fifo
use udplex.Codel.{Codel, new_codel, should_drop}
use udplex.TunnelQueue.{Queue, account, minus, give_back, count_overflow, data_bytes}

abbrev pub item_of : Packet → ℕ → Item
item_of pkt now = record { pkt = pkt; addr = none; enq = now; wire = pkt.length }

module _ {R : Type 0} where
  -- `old` has left the bulk queue.
  pub evicted : Queue R → Item → Fifo → Queue R
  unfolding account give_back count_overflow
  evicted q old rest =
      give_back (count_overflow (account (record q { bulk = rest }) (minus old.wire))) old.pkt

  -- One round of the loop that makes room: the oldest bulk packet goes.
  pub evict_one : Queue R → Option (Queue R)
  unfolding evicted
  evict_one q = elim (Fifo.pop q.bulk) [
    | none ↦ none
    | some (old, rest) ↦ some (evicted q old rest)
  ]

  pub evict : ℕ → Queue R → ℕ → Option (Queue R)
  evict zero q wire = none
  evict (suc fuel) q wire = elim (ltb q.s.limit (data_bytes q + wire) && ltb 0 (Fifo.len q.bulk)) [
    | true ↦ elim (evict_one q) [ none ↦ none | some q' ↦ evict fuel q' wire ]
    | false ↦ some q
  ]

  pub is_small : Queue R → Item → Bool
  is_small q it = ltb 0 q.s.priority_size && leb it.wire q.s.priority_size

  pub accept : Queue R → Item → Queue R × Bool
  accept q it = (record (account q (pos it.wire)) { ready = true }, true)

  pub refuse : Queue R → Packet → Queue R × Bool
  refuse q p = (give_back (count_overflow q) p, false)

  -- The `default` case of `push`, once there is as much room as can be made.
  pub admit : Queue R → Item → Queue R × Bool
  admit q it =
      if ltb q.s.limit (data_bytes q + it.wire)
      then refuse q it.pkt
      else accept
          (if is_small q it
            then record q { priority = Fifo.push q.priority it }
            else record q { bulk = Fifo.push q.bulk it })
          it

  pub push : Queue R → Packet → Bool → ℕ → Option (Queue R × Bool)
  push q pkt control now =
      let it = item_of pkt now in
      if q.closed
      then some (give_back q pkt, false)
      else if control
      then some (accept (record q { control = Fifo.push q.control it }) it)
      else if pkt.no_drop
      then some (
          accept
            (if is_small q it
              then record q { priority = Fifo.push q.priority it }
              else record q { reliable = Fifo.push q.reliable it })
            it)
      else elim (evict (suc (Fifo.len q.bulk)) q it.wire) [
        | none ↦ none
        | some r ↦ some (admit r it)
      ]
