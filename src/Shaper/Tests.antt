-- ===== src/Shaper/Tests.antt =====
-- A shaper at concrete packets: the examples of the theorems about shaper.go.
use udplex.Prelude.{
  ℕ, ◌+◌, ◌≡◌, refl, Bool, true, false, Option, none, some, List, [], ◌∷◌, arith, subst, sym,
}
use udplex.Prelude.Int.{ℤ, pos, ◌+ℤ◌}
use udplex.Float.{int_floats}
use udplex.Packet.{Packet, Addr, udp}
use udplex.Fifo.{Item}
use udplex.Fifo.View.{count}
use udplex.Shaper.{Shaper, ShaperStats, new_path_shaper, refill, set_rate, shaper_len}
use udplex.Shaper.Config.{ShaperSettings, path_rate}
use udplex.Shaper.Enqueue.{enqueue}
use udplex.Shaper.Enqueue.Admission.{Queued, enqueue-IsShaper}
use udplex.Shaper.Dequeue.{dequeue, reset_shaper}
use udplex.Shaper.Dequeue.Loop.{Dequeued, dequeue-IsShaper}
use udplex.Shaper.Dequeue.Reset.{reset_shaper-IsShaper}
use udplex.Shaper.Dequeue.Tokens.{BucketLaws, dequeue-IsCapped}
use udplex.Shaper.Invariant.{IsShaper, new_path_shaper-IsShaper, queued}

abbrev settings : ShaperSettings ℤ
settings = record {
  rate = pos 1_000_000;
  burst = pos 3000;
  overhead = 8;
  priority_size = 200;
  priority_rate = pos 500_000;
  priority_burst = pos 3000;
  target = 5_000_000;
  interval = 100_000_000;
  queue_limit = 4000;
  autorate = none;
}

-- Another path of the component has 700 bytes queued.
abbrev stats : ShaperStats
stats = record {
  sent_bytes = 0;
  priority_pkts = 0;
  codel_drops = 0;
  overflow_drops = 0;
  queued_bytes = pos 700;
  max_delay = pos 0;
}

abbrev packet : ℕ → Packet
packet size = record {
  buffer = [];
  offset = 0;
  length = size;
  src_addr = none;
  src_tag = "a";
  count = pos 1;
  proto = "";
  conn_id = 1;
  batch_id = 0;
  no_drop = false;
}

abbrev target_addr : Option Addr
target_addr = some (udp (10 ∷ 0 ∷ 0 ∷ 1 ∷ []) 9000)

abbrev path : Shaper ℤ
path = new_path_shaper int_floats settings stats 0

path-IsShaper : IsShaper (pos 700) path
path-IsShaper = new_path_shaper-IsShaper int_floats settings stats 0 refl

abbrev path_of : Option (Shaper ℤ) → Shaper ℤ
path_of none = path
path_of (some p) = p

abbrev any_packet : Packet → Bool
any_packet p = true

enqueue-IsShaper_example :
    (q : Shaper ℤ) × (enqueue path (packet 1400) target_addr false 10 ≡ some q)
    × Queued (pos 700) any_packet path (packet 1400) q
enqueue-IsShaper_example =
    enqueue-IsShaper (pos 700) any_packet path (packet 1400) target_addr false 10 path-IsShaper

abbrev one_queued : Shaper ℤ
one_queued = path_of (enqueue path (packet 1400) target_addr false 10)

one_queued-IsShaper : IsShaper (pos 700) one_queued
one_queued-IsShaper =
    let w =
      enqueue-IsShaper (pos 700) any_packet path (packet 1400) target_addr false 10 path-IsShaper in
    subst (λ r. IsShaper (pos 700) (path_of r)) (sym w.1) w.2.valid

dequeue-IsShaper_example :
    Dequeued int_floats
      (pos 700)
      any_packet
      one_queued
      []
      16
      (dequeue int_floats 2000 one_queued [] 16)
dequeue-IsShaper_example =
    dequeue-IsShaper int_floats (pos 700) any_packet 2000 one_queued [] 16 one_queued-IsShaper

reset_shaper-IsShaper_example :
    (q : Shaper ℤ) × (reset_shaper one_queued ≡ some q)
    × IsShaper (pos 700) q
    × (shaper_len q ≡ 0)
    × (q.stats.queued_bytes ≡ pos 700 +ℤ pos 0)
    × (count any_packet q.released
        ≡ count any_packet one_queued.released + queued any_packet one_queued)
reset_shaper-IsShaper_example =
    reset_shaper-IsShaper (pos 700) any_packet one_queued one_queued-IsShaper

int_bucket : BucketLaws int_floats
int_bucket = record { min_below = λ x y. ground arith; sub_below = λ b x n h. ground (arith, h) }

abbrev sent_of : Option (Shaper ℤ × List Item) → Shaper ℤ × List Item
sent_of none = (path, [])
sent_of (some r) = r

abbrev after_dequeue : Shaper ℤ × List Item
after_dequeue = sent_of (dequeue int_floats 2000 path [] 16)

after_dequeue_lem : dequeue int_floats 2000 path [] 16 ≡ some (after_dequeue.0, after_dequeue.1)
after_dequeue_lem =
    let w = dequeue-IsShaper int_floats (pos 700) any_packet 2000 path [] 16 path-IsShaper in
    subst (λ r. r ≡ some ((sent_of r).0, (sent_of r).1)) (sym w.2) refl

dequeue-IsCapped_example :
    (int_floats.lt (refill int_floats path 2000).r.burst (refill int_floats path 2000).tokens
      ≡ false)
    × (int_floats.lt
          (set_rate int_floats path 2000 (pos 500)).r.burst
          (set_rate int_floats path 2000 (pos 500)).tokens
        ≡ false)
    × (int_floats.lt after_dequeue.0.r.burst after_dequeue.0.tokens ≡ false)
unfolding new_path_shaper path_rate
dequeue-IsCapped_example =
    dequeue-IsCapped int_floats int_bucket path after_dequeue.0 2000 (pos 500) [] after_dequeue.1 16
      refl after_dequeue_lem
