-- ===== src/Fifo.antt =====
-- shaper.go, shaperItem and shaperQueue: a FIFO in a slice with a head index. A slot that has been
-- cleared (`shaperItem{}`) is `none`; an index out of range, where Go panics, gives `none`.
-- `bytes` is the sum of the sizes of the items, and so a natural number.
mod Tests
pub mod Contents
pub mod View
pub mod Refine
use udplex.Prelude.{
  ℕ, suc, ◌+◌, ◌-◌, ◌/◌, ◌≡◌, refl, Bool, true, false, ◌&&◌, Option, none, some, List, [], ◌∷◌,
  ◌++◌, ltb, leb, ◌==◌, if◌then◌else◌, length, drop, get_elem?, set,
}
use udplex.Packet.{Packet, Addr}

pub record Item : Type 0 where
  pub pkt : Packet
  pub addr : Option Addr
  pub enq : ℕ
  pub wire : ℕ

pub record Fifo : Type 0 where
  pub items : List (Option Item)
  pub head : ℕ
  pub bytes : ℕ

abbrev pub empty : Fifo
empty = record { items = []; head = 0; bytes = 0 }

pub len : Fifo → ℕ
len q = length q.items - q.head

compact : Fifo → Fifo
compact q =
    if ltb 0 q.head && leb (length q.items / 2) q.head
    then record q { items = drop q.head q.items; head = 0 }
    else q

pub push : Fifo → Item → Fifo
unfolding compact
push q it =
    let c = compact q in record c { items = c.items ++ (some it ∷ []); bytes = c.bytes + it.wire }

slot : Option (Option Item) → Option Item
slot none = none
slot (some s) = s

pub peek : Fifo → Option Item
unfolding slot
peek q = slot (get_elem? q.items q.head)

rewind : Fifo → Fifo
rewind q = if q.head == length q.items then record q { items = []; head = 0 } else q

taken : Fifo → Item → Fifo
unfolding rewind
taken q it =
    rewind
      (record { items = set q.items q.head none; head = q.head + 1; bytes = q.bytes - it.wire })

pub pop : Fifo → Option (Item × Fifo)
unfolding peek taken
pop q = elim (peek q) [ none ↦ none | some it ↦ some (it, taken q it) ]
