-- ===== src/Shaper/Enqueue.antt =====
-- shaper.go: enqueue. `none` is the panic of a pop from an empty slice.
pub mod Room
pub mod Admission
use udplex.Prelude.{
  ℕ, zero, suc, ◌+◌, Bool, true, false, ◌&&◌, Option, none, some, ltb, leb, if◌then◌else◌,
}
use udplex.Prelude.Int.{ℤ, pos, sub_ℕ}
use udplex.Packet.{Packet, Addr}
use udplex.Fifo.{Item, Fifo}
use udplex.Fifo
use udplex.TunnelQueue.{minus}
use udplex.Shaper.{Shaper, count_queued, drop_overflow, udp_wire_overhead}

abbrev pub max_control_queue : ℕ
max_control_queue = 1024

module _ {R : Type 0} where
  abbrev pub shaper_item : Shaper R → Packet → Option Addr → ℕ → Item
  shaper_item p pkt addr now = record {
    pkt = pkt;
    addr = addr;
    enq = now;
    wire = pkt.length + udp_wire_overhead addr + p.s.overhead;
  }

  -- The bytes that the queue limit counts.
  pub counted_bytes : Shaper R → ℕ
  counted_bytes p = p.priority.bytes + p.bulk.bytes

  -- `old` has left the bulk queue.
  pub pushed_out : Shaper R → Item → Fifo → Shaper R
  unfolding count_queued drop_overflow
  pushed_out p old rest =
      drop_overflow (count_queued (record p { bulk = rest }) (minus old.wire)) old

  push_out_one : Shaper R → Option (Shaper R)
  unfolding pushed_out
  push_out_one p = elim (Fifo.pop p.bulk) [
    | none ↦ none
    | some (old, rest) ↦ some (pushed_out p old rest)
  ]

  -- The loop that makes room.
  pub make_room : ℕ → Shaper R → ℕ → Option (Shaper R)
  unfolding push_out_one counted_bytes
  make_room zero p wire = none
  make_room (suc fuel) p wire =
      elim (ltb p.s.queue_limit (counted_bytes p + wire) && ltb 0 (Fifo.len p.bulk)) [
        | true ↦ elim (push_out_one p) [ none ↦ none | some p' ↦ make_room fuel p' wire ]
        | false ↦ some p
      ]

  -- What follows the loop in `enqueue`.
  pub enqueue_data : Shaper R → Item → ℕ → ℕ → Shaper R
  unfolding counted_bytes drop_overflow count_queued
  enqueue_data p it size now =
      if ltb p.s.queue_limit (counted_bytes p + it.wire)
      then drop_overflow p it
      else let a = record p { last_active = now } in
        count_queued
          (if ltb 0 a.s.priority_size && leb size a.s.priority_size
            then record a { priority = Fifo.push a.priority it }
            else record a { bulk = Fifo.push a.bulk it })
          (pos it.wire)

  pub enqueue_control : Shaper R → Item → Shaper R
  unfolding drop_overflow count_queued
  enqueue_control p it =
      if leb max_control_queue (Fifo.len p.control)
      then drop_overflow p it
      else count_queued (record p { control = Fifo.push p.control it }) (pos it.wire)

  -- Each round of the loop takes a packet from the bulk queue: the fuel is one more than they are.
  pub enqueue : Shaper R → Packet → Option Addr → Bool → ℕ → Option (Shaper R)
  unfolding enqueue_control make_room enqueue_data
  enqueue p pkt addr control now =
      let it = shaper_item p pkt addr now in
      if control
      then some (enqueue_control p it)
      else elim (make_room (suc (Fifo.len p.bulk)) p it.wire) [
        | none ↦ none
        | some q ↦ some (enqueue_data q it pkt.length now)
      ]
