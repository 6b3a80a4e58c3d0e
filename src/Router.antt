-- ===== src/Router.antt =====
-- router.go: the components by their tags, the per-connection data and the routing of packets. A
-- component's HandlePacket is code of that component: here a component is known by its number, and
-- routing gives the packets that are handed on, in order.
mod Tests
pub mod Count
pub mod ConnData
use udplex.Prelude.{
  ℕ, ◌+◌, Bool, true, false, ◌||◌, Option, none, some, List, [], ◌∷◌, ◌++◌, length, ltb, ◌==◌,
  if◌then◌else◌, map,
}
use udplex.Table.{find, put, remove, text_key}
use udplex.Packet.{Packet, add_ref, copy}
use Prim.Native.String.{String}
use text.Mathlib.Text.{◌==◌ as text_eq}

pub record Config : Type 0 where
  pub worker_count : ℕ
  pub buffer_size : ℕ
  pub queue_size : ℕ
  pub buffer_offset : ℕ

-- The values that a configuration leaves out. (The source tests `<= 0`.)
pub with_defaults : Config → Config
with_defaults c = record {
  worker_count = if c.worker_count == 0 then 4 else c.worker_count;
  buffer_size = if c.buffer_size == 0 then 1500 else c.buffer_size;
  queue_size = if c.queue_size == 0 then 10240 else c.queue_size;
  buffer_offset = if c.buffer_offset == 0 then 64 else c.buffer_offset;
}

-- A component with its tag.
pub record Component : Type 0 where
  pub tag : String
  pub number : ℕ

abbrev pub Components : Type 0
Components = List (String × Component)

-- Register: the error, if any, and the components.
pub data RegisterError : Type 0 where
  empty_tag : RegisterError
  already_registered : RegisterError

pub register : Component → Components → Option RegisterError × Components
register c cs = if text_eq c.tag "" then (some empty_tag, cs) else elim (find c.tag cs) [
  | none ↦ (none, put c.tag c cs)
  | some old ↦ (some already_registered, cs)
]

-- One packet handed to a component. A copy has a buffer of its own from the pool.
pub data Delivery : Type 0 where
  original : ℕ → Packet → Delivery
  copied : ℕ → Packet → Delivery

-- The loop that collects the targets of routePacket.
pub targets_of : Components → String → List String → List ℕ
targets_of cs src [] = []
targets_of cs src (tag ∷ tags) =
    let rest = targets_of cs src tags in
    if text_eq tag src then rest else elim (find tag cs) [ none ↦ rest | some c ↦ c.number ∷ rest ]

-- The loop that hands copies to all targets but the last, and the packet itself to the last. The
-- first argument is the buffer that the pool hands out for each copy.
pub dispatch : List ℕ → Packet → List ℕ → Packet × List Delivery
dispatch fresh p [] = (p, [])
dispatch fresh p (c ∷ []) = (add_ref p 1, original c (add_ref p 1) ∷ [])
dispatch fresh p (c ∷ (d ∷ cs)) =
    let (q, rest) = dispatch fresh p (d ∷ cs) in (q, copied c (copy fresh p) ∷ rest)

-- routePacket: the packet with its references taken, and what was handed on.
pub route_packet : Components → List ℕ → Packet → List String → Packet × List Delivery
unfolding targets_of dispatch
route_packet cs fresh p [] = (p, [])
route_packet cs fresh p (tag ∷ []) = if text_eq tag p.src_tag then (p, []) else elim (find tag cs) [
  | none ↦ (p, [])
  | some c ↦ (add_ref p 1, original c.number (add_ref p 1) ∷ [])
]
route_packet cs fresh p (tag ∷ (tag' ∷ tags)) =
    dispatch fresh p (targets_of cs p.src_tag (tag ∷ (tag' ∷ tags)))
