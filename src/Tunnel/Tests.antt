-- ===== src/Tunnel/Tests.antt =====
-- A pool of two connections and a receive buffer: the examples of the theorems about tcp_tunnel.go.
use udplex.Prelude.{
  ℕ, suc, ◌+◌, ◌≡◌, refl, Bool, true, false, none, some, List, [], ◌∷◌, arith, if◌then◌else◌, ◌==◌,
}
use udplex.Prelude.Int.{ℤ, pos, ◌+ℤ◌, ◌≤ℤ◌}
use udplex.Float.{int_floats}
use udplex.TunnelQueue.{Stats, new_queue}
use udplex.TunnelQueue.Config.{Settings}
use udplex.Heartbeat.{Tracker}
use udplex.Packet.{Packet}
use udplex.Fifo.View.{count}
use udplex.Tunnel.Batch.{Batch, Write, timeout_error, no_error, send_packet_batch}
use udplex.Tunnel.Batch.Released.{send_packet_batch-Released}
use udplex.Tunnel.{Conn, Pool, usable, pick_conn, get_next_conn, backlog_of, switch_backlog}
use udplex.Tunnel.Pick.{member, pick_conn-IsServed, pick_conn-IsGood}
use udplex.Tunnel.Next.{get_next_conn-usable}
use udplex.Tunnel.Read.{
  listen, Handlers, read_loop, read_messages, process, next_frame, refused, dispatch, dispatch_data,
}
use udplex.Tunnel.Read.Framing.{flatten}
use udplex.Tunnel.Read.Whole.{read_loop-flatten}
use udplex.Wire.{be, be_from, slice}

abbrev settings : Settings ℤ
settings = record {
  priority_size = 100;
  share = pos 0;
  target = 5_000_000;
  interval = 100_000_000;
  codel = true;
  limit = 3000;
  notsent_lowat = 0;
  auto_lowat = false;
  priority_conn = true;
  pacing_rate = 0;
}

abbrev stats : Stats
stats = record {
  priority_pkts = 0;
  codel_drops = 0;
  overflow_drops = 0;
  queued_bytes = pos 0;
  max_delay = pos 0;
}

abbrev tracker : Tracker
tracker = record {
  stats = none;
  last_sent = 0;
  sent = 0;
  lost = 0;
  consecutive_loss = 0;
  awaiting = 0;
}

abbrev conn : Bool → Conn ℤ
conn authenticated = record {
  conn_id = 5;
  has_conn = true;
  authenticated = authenticated;
  closed = false;
  queue = new_queue int_floats settings stats;
  heartbeat = tracker;
  write_batch = true;
  write_batch_size = pos 64;
}

-- The connection at address 7 has not been authenticated yet.
abbrev heap : ℕ → Conn ℤ
heap a = conn (if a == 7 then false else true)

abbrev pool : Pool
pool = record { conns = some 7 ∷ (some 8 ∷ []); index = 4; current = none }

pick_conn-IsServed_example :
    (a : ℕ) × ((pick_conn heap pool 1400 100 true).1 ≡ some a)
    × (usable heap (some a) ≡ true)
    × (member (some a) pool.conns ≡ true)
unfolding usable
pick_conn-IsServed_example = pick_conn-IsServed heap pool 1400 100 8 true refl refl

pick_conn-IsGood_example :
    (a : ℕ) × ((pick_conn heap pool 1400 100 true).1 ≡ some a)
    × (usable heap (some a) ≡ true)
    × (member (some a) (some 8 ∷ []) ≡ true)
    × (backlog_of heap a ≤ℤ backlog_of heap 8 +ℤ pos switch_backlog)
unfolding usable
pick_conn-IsGood_example =
    pick_conn-IsGood heap pool 1400 100 8 (some 7) (some 8 ∷ []) refl (omega arith) (omega arith)
      refl refl

get_next_conn-usable_example :
    (a : ℕ) × ((get_next_conn heap pool).1 ≡ some a) × (usable heap (some a) ≡ true)
unfolding usable
get_next_conn-usable_example = get_next_conn-usable heap pool 1 8 refl refl (omega arith)

-- An authenticated connection that counts the data messages.
abbrev counting : Handlers ℕ
counting = record {
  authenticated = λ s. true;
  on_data = λ s message. suc s;
  echo_heartbeat = λ s. s;
  ack_heartbeat = λ s. s;
  on_heartbeat_ack = λ s. s;
  authenticate = λ s message. none;
}

-- A data message with three bytes and the first half of the next header, cut into three reads.
abbrev reads : List (List ℕ)
reads = (2 ∷ 5 ∷ 0 ∷ 0 ∷ 0 ∷ []) ∷ (0 ∷ 0 ∷ 3 ∷ 1 ∷ 1 ∷ []) ∷ (1 ∷ 2 ∷ 5 ∷ 0 ∷ []) ∷ []

read_loop-flatten_example :
    (read_loop counting listen 1500 1500 0 [] 0 reads ≡ some (1, 2 ∷ 5 ∷ 0 ∷ [], 0))
    × (read_messages counting listen 1500 0 (flatten reads) ≡ some (1, 2 ∷ 5 ∷ 0 ∷ [], 0))
unfolding read_messages process next_frame refused dispatch dispatch_data be be_from slice
read_loop-flatten_example =
    read_loop-flatten counting listen 1500 0 reads (1, 2 ∷ 5 ∷ 0 ∷ [], 0) (omega arith) refl

abbrev packet : ℕ → Packet
packet size = record {
  buffer = [];
  offset = 0;
  length = size;
  src_addr = none;
  src_tag = "a";
  count = pos 1;
  proto = "";
  conn_id = 1;
  batch_id = 0;
  no_drop = false;
}

-- Two packets, of which a first write takes a part before it times out.
abbrev partial_write : Write
partial_write = record { bytes = 120; error = timeout_error; more = true; deadline_set = true }

abbrev last_write : Write
last_write = record { bytes = 80; error = no_error; more = false; deadline_set = true }

send_packet_batch-Released_example :
    (b : Batch) × (go_on : Bool) × (send_packet_batch true true
        (packet 100 ∷ packet 100 ∷ [])
        []
        (partial_write ∷ (last_write ∷ []))
      ≡ some (b, go_on))
    × (b.packets ≡ [])
    × (count (λ p. p.no_drop) b.released
        ≡ count (λ p. p.no_drop) (packet 100 ∷ packet 100 ∷ []) + 0)
send_packet_batch-Released_example =
    send_packet_batch-Released (λ p. p.no_drop) true true (packet 100 ∷ packet 100 ∷ []) []
      (partial_write ∷ []) last_write refl
