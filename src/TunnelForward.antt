-- ===== src/TunnelForward.antt =====
-- tcp_tunnel_forward.go: the client side of the TCP tunnel, with its pools and the index from connection
-- ids to pools. A pool is known by its id, which is its key in the map of pools. The maps are tables;
-- the order in which Go walks the map of pools is that of the table. The random source, WrapData and
-- the heap of connections are arguments. A connection id of eight zero bytes is 0.
mod Tests
pub mod Index
use udplex.Prelude.{
  ℕ, zero, suc, ◌+◌, ◌%◌, ◌^◌, Bool, true, false, not, ◌&&◌, ◌||◌, Option, none, some, List, [],
  ◌∷◌, ◌++◌, ltb, leb, ◌==◌, if◌then◌else◌, length,
}
use udplex.Prelude.Int.{ℤ, pos, ltb_ℤ}
use udplex.Table.{find, put, remove, keep, number_key}
use udplex.Packet.{Packet, release}
use udplex.Heartbeat.{mark_pending_heartbeat_lost, note_heartbeat_sent}
use udplex.Tunnel.{
  Conn, Pool, Enqueued, queued_ok, closed_error, full_error, connection_count, remove_connection,
  get_next_conn, pick_conn, pool_delay, enqueue_conn, close_conn,
}

pub record Forward : Type 0 where
  pub pools : List (ℕ × Pool)
  pub conn_index : List (ℕ × ℕ)
  pub conn_index_gen : ℕ
  pub broadcast_mode : Bool
  pub priority_size : ℕ
  pub priority_conn : Bool

pub remember_conn_id_pool : ℕ → ℕ → Forward → Forward
remember_conn_id_pool id pool f =
    if id == 0 then f else record f { conn_index = put id pool f.conn_index }

-- RememberConnID, for a connection of the pool `pool`.
pub remember_conn_id : ℕ → ℕ → Forward → Forward
unfolding remember_conn_id_pool
remember_conn_id id pool f =
    if id == 0
    then f
    else elim (find pool f.pools) [ none ↦ f | some p ↦ remember_conn_id_pool id pool f ]

-- forgetPool
pub forget_pool : ℕ → Forward → Forward
forget_pool pool f = record f {
  conn_index = keep (λ p. not (p == pool)) f.conn_index;
  conn_index_gen = (f.conn_index_gen + 1) % 2 ^ 64;
}

abbrev pub is_empty : Option Pool → Bool
is_empty none = true
is_empty (some p) = connection_count p == 0

-- The entry that getPoolByID has found: it is dropped if its pool has run empty.
pub checked_pool : ℕ → ℕ → Forward → Option ℕ × Forward
checked_pool id pool f =
    if is_empty (find pool f.pools)
    then (
      none,
      record f {
        conn_index = remove id f.conn_index;
        conn_index_gen = (f.conn_index_gen + 1) % 2 ^ 64;
      },
    )
    else (some pool, f)

-- getPoolByID
pub get_pool_by_id : ℕ → Forward → Option ℕ × Forward
get_pool_by_id id f =
    if id == 0
    then (none, f)
    else elim (find id f.conn_index) [ none ↦ (none, f) | some pool ↦ checked_pool id pool f ]

module _ {R : Type 0} (heap : ℕ → Conn R) where
  -- The loop of pickPoolForPacket over the pools: the first with a usable connection, and the pools with
  -- their positions moved on.
  pub first_pool : List (ℕ × Pool) → Option ℕ × List (ℕ × Pool)
  first_pool [] = (none, [])
  first_pool ((id, p) ∷ ps) =
      let (q, conn) = get_next_conn heap p in
      let (found, rest) = first_pool ps in
      elim conn [ none ↦ (found, (id, q) ∷ rest) | some a ↦ (some id, (id, q) ∷ ps) ]

  -- The second half of pickPoolForPacket: the packet's id, a fresh one if it has none, is remembered.
  pub assign_pool : ℕ → Packet → Forward → Option ℕ × Packet × Forward
  assign_pool fresh pkt f =
      let (found, pools) = first_pool f.pools in
      let g = record f { pools = pools } in
      elim found [
        | none ↦ (none, pkt, g)
        | some pool ↦
            let id = (if pkt.conn_id == 0 then fresh else pkt.conn_id) in
            (some pool, record pkt { conn_id = id }, remember_conn_id_pool id pool g)
      ]

  pub pick_pool_for_packet : ℕ → Packet → Forward → Option ℕ × Packet × Forward
  pick_pool_for_packet fresh pkt f =
      let (pool, g) = get_pool_by_id pkt.conn_id f in
      elim pool [ none ↦ assign_pool fresh pkt g | some p ↦ (some p, pkt, g) ]

  -- PickConn on one of the pools.
  pub pick_from_pool : ℕ → ℕ → Forward → Option ℕ × Forward
  pick_from_pool size pool f = elim (find pool f.pools) [
    | none ↦ (none, f)
    | some p ↦
        let (q, conn) = pick_conn heap p size f.priority_size f.priority_conn in
        (conn, record f { pools = put pool q f.pools })
  ]

  -- Whether some pool has a connection, and the largest delay of a send queue.
  pub has_conn : List (Option ℕ) → Bool
  has_conn [] = false
  has_conn (none ∷ cs) = has_conn cs
  has_conn (some a ∷ cs) = (heap a).has_conn || has_conn cs

  pub is_available : List (ℕ × Pool) → Bool
  is_available [] = false
  is_available ((id, p) ∷ ps) = has_conn p.conns || is_available ps

  pub queue_delay : ℕ → List (ℕ × Pool) → ℤ → ℤ
  queue_delay now [] d = d
  queue_delay now ((id, p) ∷ ps) d =
      let w = pool_delay heap now p.conns (pos 0) in queue_delay now ps (if ltb_ℤ d w then w else d)

-- Disconnect without the connection's own Close: the connection `c` of the pool `pool`.
pub drop_connection : ℕ → ℕ → Forward → Forward
drop_connection c pool f = elim (find pool f.pools) [
  | none ↦ f
  | some p ↦
      let q = remove_connection p (some c) in
      let g = record f { pools = put pool q f.pools } in
      if connection_count q == 0 then forget_pool pool g else g
]

-- What sendHeartbeat does with a connection.
pub data Beat : Type 0 where
  not_ready : Beat
  disconnect_it : Beat
  sent_heartbeat : Beat
  send_failed : Beat

-- sendHeartbeat; `heartbeat` is the packet that CreateHeartbeat fills.
pub send_heartbeat : {R : Type 0} → Conn R → Packet → ℕ → Option (Conn R × Beat)
send_heartbeat c heartbeat now =
    let (marked, losses) = mark_pending_heartbeat_lost now c.heartbeat in
    let d = record c { heartbeat = marked } in
    if not c.authenticated
    then some (c, not_ready)
    else if leb 5 losses
    then some (d, disconnect_it)
    else elim (enqueue_conn d heartbeat true now) [
      | none ↦ none
      | some (e, pkt, queued_ok) ↦
          some (record e { heartbeat = note_heartbeat_sent now e.heartbeat }, sent_heartbeat)
      | some (e, pkt, _) ↦ some (e, send_failed)
    ]

-- What HandlePacket comes to for one pool.
pub data Sent : Type 0 where
  no_pool : Sent
  wrap_error : Sent
  no_conn : Sent
  written : Enqueued → Sent

-- A component with the heap of its connections. A panic is `none`.
pub record Running (R : Type 0) : Type 0 where
  pub heap : ℕ → Conn R
  pub f : Forward

module _ {R : Type 0} (wrap : Packet → Option Packet) (now : ℕ) where
  -- `conn.Write(packet)` on the connection at an address.
  pub write_to : Running R → ℕ → Packet → Option (Running R × Packet × Enqueued)
  write_to r a pkt = elim (enqueue_conn (r.heap a) pkt false now) [
    | none ↦ none
    | some (c, held, e) ↦ some (record r { heap = λ x. if x == a then c else r.heap x }, held, e)
  ]

  -- A wrapped packet to one of the pools.
  pub send_to_pool : ℕ → Running R → Packet → Option (Running R × Packet × Sent)
  send_to_pool pool r pkt =
      let (conn, g) = pick_from_pool r.heap pkt.length pool r.f in
      let s = record r { f = g } in
      elim conn [
        | none ↦ some (s, pkt, no_conn)
        | some a ↦ elim (write_to s a pkt) [
          | none ↦ none
          | some (t, held, e) ↦ some (t, held, written e)
        ]
      ]

  -- HandlePacket without broadcast. The packet's own reference is given back at the end.
  pub handle_unicast : ℕ → Running R → Packet → Option (Running R × Packet × Sent)
  handle_unicast fresh r pkt =
      let (pool, named, g) = pick_pool_for_packet r.heap fresh pkt r.f in
      let s = record r { f = g } in
      elim pool [
        | none ↦ some (s, (release named 1).0, no_pool)
        | some p ↦ elim (wrap named) [
          | none ↦ some (s, (release named 1).0, wrap_error)
          | some wrapped ↦ elim (send_to_pool p s wrapped) [
            | none ↦ none
            | some (t, held, outcome) ↦ some (t, (release held 1).0, outcome)
          ]
        ]
      ]

  -- The loop of HandlePacket with broadcast, over the ids of the pools.
  pub broadcast : List ℕ → Running R → Packet → Option (Running R × Packet)
  broadcast [] r pkt = some (r, pkt)
  broadcast (p ∷ ps) r pkt = elim (send_to_pool p r pkt) [
    | none ↦ none
    | some (t, held, outcome) ↦ broadcast ps t held
  ]

  pub handle_broadcast : List ℕ → Running R → Packet → Option (Running R × Packet)
  handle_broadcast ids r pkt = elim (wrap pkt) [
    | none ↦ some (r, (release pkt 1).0)
    | some wrapped ↦ elim (broadcast ids r wrapped) [
      | none ↦ none
      | some (t, held) ↦ some (t, (release held 1).0)
    ]
  ]
