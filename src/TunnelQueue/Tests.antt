-- ===== src/TunnelQueue/Tests.antt =====
-- A send queue at concrete packets: the examples of the theorems about tcp_tunnel_queue.go.
use udplex.Prelude.{
  ℕ, ◌+◌, ◌≡◌, ◌≤◌, ◌↔◌, refl, Bool, true, false, Option, none, some, [], arith, subst, sym, ap,
  ◌∙◌,
}
use udplex.Prelude.Int.{ℤ, pos}
use udplex.Float.{int_floats}
use udplex.Packet.{Packet}
use udplex.Fifo.View.{count}
use udplex.TunnelQueue.{Queue, Stats, new_queue, data_bytes, len}
use udplex.TunnelQueue.Config.{Settings}
use udplex.TunnelQueue.Invariant.{IsValid, waiting, new_queue-IsValid}
use udplex.TunnelQueue.Push.{push}
use udplex.TunnelQueue.Push.Admission.{Keeps, push-IsValid}
use udplex.TunnelQueue.Push.Limit.{push_iff, push_within_limit}
use udplex.TunnelQueue.Pop.{pop, close}
use udplex.TunnelQueue.Pop.Loop.{Popped, pop-IsValid}
use udplex.TunnelQueue.Pop.Close.{close-IsValid}

abbrev settings : Settings ℤ
settings = record {
  priority_size = 100;
  share = pos 0;
  target = 5_000_000;
  interval = 100_000_000;
  codel = true;
  limit = 3000;
  notsent_lowat = 0;
  auto_lowat = false;
  priority_conn = false;
  pacing_rate = 0;
}

abbrev no_stats : Stats
no_stats = record {
  priority_pkts = 0;
  codel_drops = 0;
  overflow_drops = 0;
  queued_bytes = pos 0;
  max_delay = pos 0;
}

abbrev packet : ℕ → Bool → Packet
packet size keep = record {
  buffer = [];
  offset = 0;
  length = size;
  src_addr = none;
  src_tag = "a";
  count = pos 1;
  proto = "";
  conn_id = 1;
  batch_id = 0;
  no_drop = keep;
}

abbrev start : Queue ℤ
start = new_queue int_floats settings no_stats

start-IsValid : IsValid start
start-IsValid = new_queue-IsValid int_floats settings no_stats

push-IsValid_example :
    (q' : Queue ℤ) × (taken : Bool) × (push start (packet 1400 false) false 1000 ≡ some (q', taken))
    × IsValid q'
    × Keeps (λ p. p.no_drop) start (packet 1400 false) q'
push-IsValid_example =
    push-IsValid (λ p. p.no_drop) start (packet 1400 false) false 1000 start-IsValid

abbrev queue_of : Option (Queue ℤ × Bool) → Queue ℤ
queue_of none = start
queue_of (some r) = r.0

-- The queue that holds one bulk packet, and one that holds a packet that must be kept, too.
abbrev one_packet : Queue ℤ
one_packet = queue_of (push start (packet 1400 false) false 1000)

abbrev two_packets : Queue ℤ
two_packets = queue_of (push one_packet (packet 500 true) false 1500)

one_packet-IsValid : IsValid one_packet
one_packet-IsValid =
    let w = push-IsValid (λ p. true) start (packet 1400 false) false 1000 start-IsValid in
    subst (λ r. IsValid (queue_of r)) (sym w.2) w.3

two_packets-IsValid : IsValid two_packets
two_packets-IsValid =
    let w = push-IsValid (λ p. true) one_packet (packet 500 true) false 1500 one_packet-IsValid in
    subst (λ r. IsValid (queue_of r)) (sym w.2) w.3

one_packet_taken : push start (packet 1400 false) false 1000 ≡ some (one_packet, true)
unfolding new_queue
one_packet_taken =
    let w = push_iff start (packet 1400 false) 1000 start-IsValid refl refl in
    let taken : w.1 ≡ true = w.3.1 (omega arith) in
    let result : push start (packet 1400 false) false 1000 ≡ some (w.0, true) =
      w.2 ∙ ap (λ t. some (w.0, t)) taken in
    result ∙ ap (λ x. some (x, true)) (sym (ap queue_of result))

push_within_limit_example : data_bytes one_packet ≤ settings.limit
unfolding new_queue
push_within_limit_example =
    push_within_limit start one_packet (packet 1400 false) 1000 start-IsValid refl refl
      one_packet_taken

push_iff_example :
    (q' : Queue ℤ) × (taken : Bool) × (push start (packet 1400 false) false 1000 ≡ some (q', taken))
    × ((taken ≡ true) ↔ (start.priority.bytes + start.reliable.bytes + 1400 ≤ settings.limit))
unfolding new_queue
push_iff_example = push_iff start (packet 1400 false) 1000 start-IsValid refl refl

pop-IsValid_example :
    Popped int_floats (λ p. p.no_drop) two_packets [] 8 (pop int_floats 2000 two_packets [] 8)
pop-IsValid_example =
    pop-IsValid int_floats (λ p. p.no_drop) 2000 two_packets [] 8 two_packets-IsValid

close-IsValid_example :
    (q' : Queue ℤ) × (close two_packets ≡ some q')
    × IsValid q'
    × (q'.closed ≡ true)
    × (len q' ≡ 0)
    × (q'.queued ≡ pos 0)
    × (count (λ p. p.no_drop) q'.released
        ≡ count (λ p. p.no_drop) two_packets.released + waiting (λ p. p.no_drop) two_packets)
close-IsValid_example = close-IsValid (λ p. p.no_drop) two_packets two_packets-IsValid
