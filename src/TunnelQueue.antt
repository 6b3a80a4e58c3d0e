-- ===== src/TunnelQueue.antt =====
-- tcp_tunnel_queue.go: the send queue of a TCP tunnel connection. A method runs under the queue's
-- lock, so it is a function on the state; `none` stands for the panic of a pop from an empty slice.
-- `released` is the ledger of the packets whose reference the queue has given back (pkt.Release(1)),
-- and `ready` the channel of capacity 1.
mod Tests
pub mod Config
pub mod Invariant
pub mod Push
pub mod Pop
use Config.{Settings}
use udplex.Prelude.{
  ℕ, zero, suc, ◌+◌, ◌*◌, ◌%◌, ◌^◌, ◌<◌, Bool, true, false, not, ◌&&◌, ◌||◌, ◌>>=◌, Option, none,
  some, List, [], ◌∷◌, ◌++◌, ltb, leb, ◌==◌, if◌then◌else◌, length,
}
use udplex.Prelude.Int.{ℤ, pos, negsuc, ◌+ℤ◌, ◌-ℤ◌, sub_ℕ, ltb_ℤ}
use udplex.Float.{FloatOps}
use udplex.Packet.{Packet}
use udplex.Fifo.{Item, Fifo}
use udplex.Fifo
use udplex.Codel.{Codel, new_codel, should_drop}

pub record Stats : Type 0 where
  pub priority_pkts : ℕ
  pub codel_drops : ℕ
  pub overflow_drops : ℕ
  pub queued_bytes : ℤ
  pub max_delay : ℤ

-- `atomic.Uint64.Add(1)`
abbrev pub add_one : ℕ → ℕ
add_one n = (n + 1) % 2 ^ 64

-- One successful round of the compare-and-swap loop.
pub observe_delay : Stats → ℤ → Stats
observe_delay s d = if ltb_ℤ s.max_delay d then record s { max_delay = d } else s

pub record Queue (R : Type 0) : Type 0 where
  pub s : Settings R
  pub stats : Stats
  pub control : Fifo
  pub priority : Fifo
  pub bulk : Fifo
  pub reliable : Fifo
  pub codel : Codel
  pub priority_codel : Codel
  pub credit : R
  pub closed : Bool
  pub queued : ℤ
  pub ready : Bool
  pub released : List Packet

-- shaperMinStandingBytes and tcpQueueMaxCredit
abbrev pub min_standing_bytes : ℕ
min_standing_bytes = 1500

abbrev pub max_credit : ℕ
max_credit = 64 * 1024

-- `-int64(it.wire)`
abbrev pub minus : ℕ → ℤ
minus n = sub_ℕ 0 n

oldest : ℤ → ℕ → Fifo → ℤ
oldest d now q = elim (Fifo.peek q) [
  | none ↦ d
  | some it ↦ let w = sub_ℕ now it.enq in if ltb 0 (Fifo.len q) && ltb_ℤ d w then w else d
]

module _ {R : Type 0} where
  pub account : Queue R → ℤ → Queue R
  account q delta = record q {
    stats = record (q.stats) { queued_bytes = q.stats.queued_bytes +ℤ delta };
    queued = q.queued +ℤ delta;
  }

  pub give_back : Queue R → Packet → Queue R
  give_back q p = record q { released = q.released ++ (p ∷ []) }

  pub count_overflow : Queue R → Queue R
  count_overflow q = record q {
    stats = record (q.stats) { overflow_drops = add_one q.stats.overflow_drops };
  }

  pub data_bytes : Queue R → ℕ
  data_bytes q = q.priority.bytes + q.bulk.bytes + q.reliable.bytes

  -- `q.drop(it)`
  pub drop : Queue R → Item → Queue R
  unfolding account give_back
  drop q it =
      let a = account q (minus it.wire) in
      give_back
        (record a { stats = record (a.stats) { codel_drops = add_one a.stats.codel_drops } }) it.pkt

  pub backlog : Queue R → ℤ
  backlog q = q.queued

  pub delay : Queue R → ℕ → ℤ
  unfolding oldest
  delay q now = oldest (oldest (oldest (pos 0) now q.priority) now q.bulk) now q.reliable

  pub len : Queue R → ℕ
  len q = Fifo.len q.control + Fifo.len q.priority + Fifo.len q.bulk + Fifo.len q.reliable

module _ {R : Type 0} (F : FloatOps R) where
  pub new_queue : Settings R → Stats → Queue R
  new_queue s stats = record {
    s = s;
    stats = stats;
    control = Fifo.empty;
    priority = Fifo.empty;
    bulk = Fifo.empty;
    reliable = Fifo.empty;
    codel = new_codel s.target s.interval;
    priority_codel = new_codel s.target s.interval;
    credit = F.of_ℤ (pos max_credit);
    closed = false;
    queued = pos 0;
    ready = false;
    released = [];
  }
