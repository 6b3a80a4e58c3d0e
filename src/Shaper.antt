-- ===== src/Shaper.antt =====
-- shaper.go: pathShaper, which paces one path. It belongs to one send goroutine, so its methods are
-- functions on its state. `stats` are the statistics that all paths of a component share, as this
-- path sees them; `released` is the ledger of the packets whose reference the shaper has given back.
-- `sent` and the counters are uint64. A pop from an empty slice, where Go panics, is `none`.
mod Tests
pub mod Config
pub mod Invariant
pub mod Enqueue
pub mod Dequeue
use udplex.Prelude.{
  ℕ, ◌+◌, ◌%◌, ◌^◌, Bool, true, false, not, ◌&&◌, Option, none, some, List, [], ◌∷◌, ◌++◌, ltb, leb,
  ◌==◌, if◌then◌else◌, length, take, get_or,
}
use udplex.Prelude.Int.{ℤ, pos, ◌+ℤ◌, sub_ℕ, ltb_ℤ}
use udplex.Float.{FloatOps}
use udplex.Packet.{Packet, Addr, udp, tcp, other}
use udplex.Fifo.{Item, Fifo}
use udplex.Fifo
use udplex.Codel.{Codel, new_codel}
use Config.{ShaperSettings, PathRate, path_rate}

pub record ShaperStats : Type 0 where
  pub sent_bytes : ℕ
  pub priority_pkts : ℕ
  pub codel_drops : ℕ
  pub overflow_drops : ℕ
  pub queued_bytes : ℤ
  pub max_delay : ℤ

-- One successful round of the compare-and-swap loop.
pub observe_sojourn : ShaperStats → ℤ → ShaperStats
observe_sojourn s d = if ltb_ℤ s.max_delay d then record s { max_delay = d } else s

pub record Shaper (R : Type 0) : Type 0 where
  pub s : ShaperSettings R
  pub stats : ShaperStats
  pub r : PathRate R
  pub sent : ℕ
  pub tokens : R
  pub priority_tokens : R
  pub last : ℕ
  pub control : Fifo
  pub priority : Fifo
  pub bulk : Fifo
  pub codel : Codel
  pub priority_codel : Codel
  pub last_active : ℕ
  pub released : List Packet

-- `ip.To4()` is nil for an address of another length than 4 that is not IPv4 in IPv6.
abbrev zeros : List ℕ → Bool
zeros [] = true
zeros (b ∷ bs) = b == 0 && zeros bs

abbrev pub maps_ipv4 : List ℕ → Bool
maps_ipv4 ip = zeros (take 10 ip) && get_or ip 10 0 == 255 && get_or ip 11 0 == 255

pub udp_wire_overhead : Option Addr → ℕ
udp_wire_overhead (some (udp ip port)) = if length ip == 16 && not (maps_ipv4 ip) then 48 else 28
udp_wire_overhead _ = 28

module _ {R : Type 0} where
  pub data_len : Shaper R → ℕ
  data_len p = Fifo.len p.priority + Fifo.len p.bulk

  pub shaper_len : Shaper R → ℕ
  shaper_len p = Fifo.len p.control + Fifo.len p.priority + Fifo.len p.bulk

  -- `p.stats.queuedBytes.Add(delta)`
  pub count_queued : Shaper R → ℤ → Shaper R
  count_queued p delta = record p {
    stats = record (p.stats) { queued_bytes = p.stats.queued_bytes +ℤ delta };
  }

  -- `pkt.Release(1)`
  pub let_go : Shaper R → Packet → Shaper R
  let_go p pkt = record p { released = p.released ++ (pkt ∷ []) }

  -- `p.drop(it, &p.stats.overflowDrops)` and `p.drop(it, &p.stats.codelDrops)`
  pub drop_overflow : Shaper R → Item → Shaper R
  unfolding let_go
  drop_overflow p it =
      let_go
        (record p {
          stats = record (p.stats) { overflow_drops = (p.stats.overflow_drops + 1) % 2 ^ 64 };
        })
        it.pkt

  pub drop_codel : Shaper R → Item → Shaper R
  unfolding let_go
  drop_codel p it =
      let_go
        (record p { stats = record (p.stats) { codel_drops = (p.stats.codel_drops + 1) % 2 ^ 64 } })
        it.pkt

  pub idle : Shaper R → ℕ → ℤ → Bool
  unfolding shaper_len
  idle p now d = shaper_len p == 0 && not (ltb_ℤ (sub_ℕ now p.last_active) d)

module _ {R : Type 0} (F : FloatOps R) where
  pub new_path_shaper : ShaperSettings R → ShaperStats → ℕ → Shaper R
  new_path_shaper s stats now = record {
    s = s;
    stats = stats;
    r = path_rate F s s.rate;
    sent = 0;
    tokens = s.burst;
    priority_tokens = s.priority_burst;
    last = now;
    control = Fifo.empty;
    priority = Fifo.empty;
    bulk = Fifo.empty;
    codel = new_codel s.target s.interval;
    priority_codel = new_codel s.target s.interval;
    last_active = now;
    released = [];
  }

  pub refill : Shaper R → ℕ → Shaper R
  refill p now =
      let dt = F.div (F.of_ℤ (sub_ℕ now p.last)) (F.of_ℤ (pos 1_000_000_000)) in
      if F.le dt (F.of_ℤ (pos 0)) then p else record p {
        last = now;
        tokens = F.fmin (F.add p.tokens (F.mul p.r.rate dt)) p.r.burst;
        priority_tokens =
            F.fmin (F.add p.priority_tokens (F.mul p.r.priority_rate dt)) p.r.priority_burst;
      }

  -- `rate == p.r.rate` on floats
  abbrev same_rate : R → R → Bool
  same_rate a b = F.le a b && F.le b a

  pub set_rate : Shaper R → ℕ → R → Shaper R
  unfolding refill
  set_rate p now rate =
      if same_rate rate p.r.rate
      then p
      else let q = refill p now in
        let r = path_rate F q.s rate in
        record q {
          r = r;
          tokens = F.fmin q.tokens r.burst;
          priority_tokens = F.fmin q.priority_tokens r.priority_burst;
        }

  abbrev nanoseconds : R → ℤ
  nanoseconds x = F.trunc (F.mul x (F.of_ℤ (pos 1_000_000_000)))

  pub queue_delay : Shaper R → ℤ
  queue_delay p = nanoseconds (F.div (F.of_ℤ (pos (p.priority.bytes + p.bulk.bytes))) p.r.rate)

  -- `wait` refills, too: the shaper afterwards, and how long to wait (-1: nothing is queued).
  pub wait : Shaper R → ℕ → Shaper R × ℤ
  unfolding refill data_len
  wait p now =
      let q = refill p now in
      let need = F.add (F.sub (F.of_ℤ (pos 0)) q.tokens) (F.div q.r.burst (F.of_ℤ (pos 2))) in
      if ltb 0 (Fifo.len p.control)
      then (p, pos 0)
      else if data_len p == 0
      then (p, sub_ℕ 0 1)
      else if F.lt (F.of_ℤ (pos 0)) q.tokens
      then (q, pos 0)
      else (q, nanoseconds (F.div need q.r.rate))
