-- ===== src/Tunnel.antt =====
-- tcp_tunnel.go: a tunnel connection and the pool of connections to one peer. A pointer is an address
-- in the heap of the connections, `none` the nil pointer; pointers are compared by address. The slice
-- of a pool is replaced as a whole by a compare-and-swap, whose successful round is a function.
mod Tests
pub mod Pick
pub mod Next
pub mod Batch
pub mod Read
use udplex.Prelude.{
  ℕ, zero, suc, ◌+◌, ◌-◌, ◌*◌, ◌/◌, ◌%◌, ◌^◌, Bool, true, false, not, ◌&&◌, ◌||◌, Option, none,
  some, List, [], ◌∷◌, ◌++◌, ltb, leb, ◌==◌, if◌then◌else◌, length, get_elem?, take, drop, map,
}
use udplex.Prelude.Int.{ℤ, pos, ◌+ℤ◌, sub_ℕ, ltb_ℤ, pos_part}
use udplex.Packet.{Packet, add_ref}
use udplex.TunnelQueue.{Queue, backlog, delay}
use udplex.TunnelQueue
use udplex.TunnelQueue.Push.{push}
use udplex.TunnelQueue.Pop.{close}
use udplex.Heartbeat.{Tracker, mark_pending_heartbeat_lost}

-- TcpTunnelConn: `has_conn` is `conn != nil`, and `closed` that the channel of this name is closed.
pub record Conn (R : Type 0) : Type 0 where
  pub conn_id : ℕ
  pub has_conn : Bool
  pub authenticated : Bool
  pub closed : Bool
  pub queue : Queue R
  pub heartbeat : Tracker
  pub write_batch : Bool
  pub write_batch_size : ℤ

pub record Pool : Type 0 where
  pub conns : List (Option ℕ)
  pub index : ℕ
  pub current : Option ℕ

abbrev pub default_write_batch_size : ℕ
default_write_batch_size = 64

abbrev pub switch_backlog : ℕ
switch_backlog = 16 * 1024

pub normalize_write_batch_size : ℤ → ℤ
normalize_write_batch_size size = if ltb_ℤ (pos 0) size then size else pos default_write_batch_size

abbrev pub same_pointer : Option ℕ → Option ℕ → Bool
same_pointer none none = true
same_pointer (some a) (some b) = a == b
same_pointer _ _ = false

unfoldable pub connection_count : Pool → ℕ
connection_count p = length p.conns

pub add_connection : Pool → Option ℕ → Pool
add_connection p c = record p { conns = p.conns ++ (c ∷ []) }

-- The loop of RemoveConnection: the position of the connection.
unfoldable pub index_of : Option ℕ → List (Option ℕ) → Option ℕ
index_of c [] = none
index_of c (x ∷ xs) =
    let rest = index_of c xs in
    if same_pointer x c then some 0 else elim rest [ none ↦ none | some i ↦ some (suc i) ]

unfoldable pub remove_connection : Pool → Option ℕ → Pool
remove_connection p c = elim (index_of c p.conns) [
  | none ↦ p
  | some i ↦ record p { conns = take i p.conns ++ drop (suc i) p.conns }
]

module _ {R : Type 0} (heap : ℕ → Conn R) where
  unfoldable pub usable : Option ℕ → Bool
  usable none = false
  usable (some a) = (heap a).has_conn && (heap a).authenticated && not (heap a).closed

  -- The entries that GetNextConn passes over, read at an index that is in range.
  pub fit : Option (Option ℕ) → Option ℕ
  unfolding usable
  fit none = none
  fit (some c) = if usable c then c else none

  -- The loop of GetNextConn: as many rounds as there are connections.
  pub next_loop : ℕ → Pool → Pool × Option ℕ
  unfolding fit
  next_loop zero p = (p, none)
  next_loop (suc rounds) p =
      let q = record p { index = (p.index + 1) % 2 ^ 32 } in
      let rest = next_loop rounds q in
      elim (fit (get_elem? q.conns (q.index % length q.conns))) [
        | none ↦ rest
        | some a ↦ (q, some a)
      ]

  pub get_next_conn : Pool → Pool × Option ℕ
  unfolding next_loop
  get_next_conn p = next_loop (length p.conns) p

  pub backlog_of : ℕ → ℤ
  backlog_of a = backlog (heap a).queue

  -- `best == nil || b < bestBacklog`
  pub better : Option ℕ → ℕ → Bool
  unfolding backlog_of
  better none a = true
  better (some b) a = ltb_ℤ (backlog_of a) (backlog_of b)

  -- The loop of PickConn: the connection with the least backlog, the first of several.
  pub least : Option ℕ → List (Option ℕ) → Option ℕ
  unfolding usable better
  least best [] = best
  least best (none ∷ cs) = least best cs
  least best (some a ∷ cs) = least (if usable (some a) && better best a then some a else best) cs

  -- `curOK`
  pub cur_ok : Option ℕ → List (Option ℕ) → Bool
  cur_ok cur [] = false
  cur_ok cur (c ∷ cs) =
      let rest = cur_ok cur cs in if usable c && same_pointer c cur then true else rest

  -- What follows the loop, over the connections that carry any packet.
  pub choose_conn : Pool → Option ℕ → List (Option ℕ) → Pool × Option ℕ
  unfolding least cur_ok
  choose_conn p reserved conns = elim (least none conns) [
    | none ↦ (p, if usable reserved then reserved else none)
    | some best ↦ elim p.current [
      | none ↦ (record p { current = some best }, some best)
      | some cur ↦
          if cur_ok (some cur) conns
            && not (ltb_ℤ (backlog_of best +ℤ pos switch_backlog) (backlog_of cur))
          then (p, some cur)
          else (record p { current = some best }, some best)
    ]
  ]

  pub pick_from : Pool → ℕ → ℕ → Bool → List (Option ℕ) → Pool × Option ℕ
  unfolding choose_conn
  pick_from p size priority_size priority_conn [] = choose_conn p none []
  pick_from p size priority_size priority_conn (first ∷ others) =
      if priority_conn && ltb 0 priority_size && leb 2 (length (first ∷ others))
      then (if leb size priority_size && usable first
          then (p, first)
          else choose_conn p first others)
      else choose_conn p none (first ∷ others)

  pub pick_conn : Pool → ℕ → ℕ → Bool → Pool × Option ℕ
  unfolding pick_from
  pick_conn p size priority_size priority_conn =
      pick_from p size priority_size priority_conn p.conns

  -- The largest queue delay over the pool's connections.
  pub pool_delay : ℕ → List (Option ℕ) → ℤ → ℤ
  pool_delay now [] d = d
  pool_delay now (none ∷ cs) d = pool_delay now cs d
  pool_delay now (some a ∷ cs) d =
      let w = delay (heap a).queue now in pool_delay now cs (if ltb_ℤ d w then w else d)

-- What TcpTunnelConn.enqueue returns.
pub data Enqueued : Type 0 where
  queued_ok : Enqueued
  closed_error : Enqueued
  full_error : Enqueued

module _ {R : Type 0} where
  -- TcpTunnelConn.enqueue, with the packet and its reference count afterwards; `none` is a panic.
  pub enqueue_conn : Conn R → Packet → Bool → ℕ → Option (Conn R × Packet × Enqueued)
  enqueue_conn c pkt control now =
      if not c.has_conn || c.closed
      then some (c, pkt, closed_error)
      else let held = add_ref pkt 1 in
        elim (push c.queue held control now) [
          | none ↦ none
          | some (q, taken) ↦
              some (record c { queue = q }, held, if taken then queued_ok else full_error)
        ]

  -- Close, whose body runs once.
  pub close_conn : Conn R → ℕ → Option (Conn R)
  close_conn c now =
      if c.closed
      then some c
      else let lost = mark_pending_heartbeat_lost now c.heartbeat in
        elim (close c.queue) [
          | none ↦ none
          | some q ↦ some (record c { heartbeat = lost.0; closed = true; queue = q })
        ]
