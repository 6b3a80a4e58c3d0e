-- ===== src/Listen.antt =====
-- listen.go: the mappings of the UDP listener, from a remote address to its logical connection, with the
-- index by connection id. A handler is one step. The index and the snapshot hold the keys of the
-- mappings instead of pointers to them: each handler that removes a mapping rebuilds both before it
-- ends. UnwrapData, the answer of ProcessAuthChallenge and the random ids are arguments; `removed` is
-- the ledger of the ids whose connection data the router was told to remove.
mod Tests
pub mod Admission
use udplex.Prelude.{
  ℕ, ◌+◌, ◌-◌, Bool, true, false, not, ◌&&◌, ◌||◌, Option, none, some, List, [], ◌∷◌, ◌++◌, ltb,
  ◌==◌, if◌then◌else◌,
}
use udplex.Table.{find, put, remove, text_key, number_key}
use udplex.Packet.{Packet, Addr}
use udplex.Heartbeat.{
  Tracker, mark_pending_heartbeat_lost, mark_heartbeat_response, note_heartbeat_sent,
}
use Prim.Native.String.{String}
use text.Mathlib.Text.{◌==◌ as text_eq}

-- `has_auth` is `authState != nil`, and `ip` the text of the address's IP.
pub record ListenConn : Type 0 where
  pub addr : Option Addr
  pub ip : String
  pub last_active : ℕ
  pub has_auth : Bool
  pub authenticated : Bool
  pub conn_id : ℕ
  pub heartbeat : Tracker

pub record Listen : Type 0 where
  pub mappings : List (String × ListenConn)
  pub snapshot : List String
  pub conn_index : List (ℕ × String)
  pub broadcast_mode : Bool
  pub with_auth : Bool
  pub preserve_conn_id : Bool
  pub replace_old : Bool
  pub timeout : ℕ
  pub removed : List ℕ

abbrev pub keys : List (String × ListenConn) → List String
keys [] = []
keys ((k, m) ∷ ms) = k ∷ keys ms

-- The loop of syncMapping that builds the index.
pub index_by_id : List String → List (String × ListenConn) → List (ℕ × String)
index_by_id [] ms = []
index_by_id (k ∷ ks) ms =
    let rest = index_by_id ks ms in elim (find k ms) [ none ↦ rest | some m ↦ put m.conn_id k rest ]

pub sync_mapping : Listen → Listen
unfolding index_by_id
sync_mapping l = record l {
  snapshot = keys l.mappings;
  conn_index = if l.broadcast_mode then l.conn_index else index_by_id (keys l.mappings) l.mappings;
}

-- removeMapping: the mapping is gone and the router forgets the connection's data. That its pending
-- heartbeat counts as lost in the statistics that all mappings share is left out.
pub remove_mapping : String → Listen → Listen × Bool
remove_mapping key l = elim (find key l.mappings) [
  | none ↦ (l, false)
  | some m ↦
      (record l { mappings = remove key l.mappings; removed = l.removed ++ (m.conn_id ∷ []) }, true)
]

-- A loop over the mappings that removes those which pass the test.
pub remove_all : (String → ListenConn → Bool) → List String → Listen → Listen × Bool
unfolding remove_mapping
remove_all p [] l = (l, false)
remove_all p (k ∷ ks) l = elim (find k l.mappings) [
  | none ↦ remove_all p ks l
  | some m ↦
      if p k m
      then (let (q, any) = remove_all p ks (remove_mapping k l).0 in (q, true))
      else remove_all p ks l
]

abbrev synced : Listen × Bool → Listen
synced (l, any) = if any then sync_mapping l else l

pub perform_cleanup : ℕ → Listen → Listen
unfolding remove_all sync_mapping
perform_cleanup now l =
    synced (remove_all (λ k m. ltb l.timeout (now - m.last_active)) (keys l.mappings) l)

-- The mappings of the same IP under other keys give way to the new one.
pub replace_old_mappings : String → String → Listen → Listen
unfolding remove_all sync_mapping
replace_old_mappings key ip l =
    synced (remove_all (λ k m. text_eq m.ip ip && not (text_eq k key)) (keys l.mappings) l)

abbrev no_heartbeats : Tracker
no_heartbeats = record {
  stats = none;
  last_sent = 0;
  sent = 0;
  lost = 0;
  consecutive_loss = 0;
  awaiting = 0;
}

pub update : String → ListenConn → Listen → Listen
update key m l = record l { mappings = put key m l.mappings }

-- The case MsgTypeAuthChallenge of handleAuthMessage: `accepted` is whether ProcessAuthChallenge took the
-- challenge, whose response is then sent.
pub on_challenge : String → Option Addr → String → ℕ → ℕ → Bool → Listen → Listen
unfolding sync_mapping update replace_old_mappings
on_challenge key addr ip fresh now accepted l0 =
    let fresh_conn : ListenConn = record {
      addr = addr;
      ip = ip;
      last_active = now;
      has_auth = true;
      authenticated = false;
      conn_id = fresh;
      heartbeat = no_heartbeats;
    } in
    let (m, l) = elim (find key l0.mappings) as (λ x. ListenConn × Listen) [
      | none ↦ (fresh_conn, sync_mapping (update key fresh_conn l0))
      | some m ↦ (m, l0)
    ] in
    if not accepted
    then l
    else update key (record m { authenticated = true; last_active = now })
        (if l.replace_old then replace_old_mappings key ip l else l)

-- The cases MsgTypeHeartbeat and MsgTypeHeartbeatAck, as far as they change the mapping.
pub on_heartbeat : String → ℕ → Listen → Listen
unfolding update
on_heartbeat key now l = elim (find key l.mappings) [
  | none ↦ l
  | some m ↦
      let touched = record m { last_active = now } in
      update key
        (if m.has_auth
          then record touched {
            heartbeat = note_heartbeat_sent now (mark_pending_heartbeat_lost now m.heartbeat).0;
          }
          else touched)
        l
]

pub on_heartbeat_ack : String → ℕ → Listen → Listen
unfolding update
on_heartbeat_ack key now l = elim (find key l.mappings) [
  | none ↦ l
  | some m ↦
      let touched = record m { last_active = now } in
      update key
        (if m.has_auth
          then record touched {
            heartbeat = record (mark_heartbeat_response m.heartbeat) { last_sent = 0 };
          }
          else touched)
        l
]

pub on_disconnect : String → Listen → Listen
unfolding remove_mapping sync_mapping
on_disconnect key l = synced (remove_mapping key l)

abbrev pub is_authenticated : ListenConn → Bool
is_authenticated m = m.has_auth && m.authenticated

-- handleIncoming for a data message that has been unwrapped, with authentication: the packet that is
-- routed, if it is.
pub on_data : String → Option Addr → ℕ → Packet → Listen → Listen × Option Packet
unfolding update
on_data key addr now pkt l = elim (find key l.mappings) [
  | none ↦ (l, none)
  | some m ↦
      if is_authenticated m
      then (
        update key (record m { last_active = now }) l,
        some (record pkt {
          src_addr = addr;
          conn_id = if not l.preserve_conn_id || pkt.conn_id == 0 then m.conn_id else pkt.conn_id;
        }),
      )
      else (l, none)
]

-- handleIncoming without authentication: each packet is routed, under the id of its address.
pub on_plain : String → Option Addr → String → ℕ → ℕ → Packet → Listen → Listen × Packet
unfolding update sync_mapping replace_old_mappings
on_plain key addr ip fresh now pkt l = elim (find key l.mappings) [
  | some m ↦ (
    update key (record m { last_active = now }) l,
    record pkt { src_addr = addr; conn_id = m.conn_id },
  )
  | none ↦
      let r = (if l.replace_old then replace_old_mappings key ip l else l) in
      let m : ListenConn = record {
        addr = addr;
        ip = ip;
        last_active = now;
        has_auth = false;
        authenticated = false;
        conn_id = fresh;
        heartbeat = no_heartbeats;
      } in
      (sync_mapping (update key m r), record pkt { src_addr = addr; conn_id = fresh })
]

-- Whether HandlePacket may send to a mapping.
abbrev may_send : Listen → ListenConn → Bool
may_send l m = not l.with_auth || is_authenticated m

-- The targets of HandlePacket's broadcast.
pub broadcast_targets : List String → Listen → List String
broadcast_targets [] l = []
broadcast_targets (k ∷ ks) l =
    let rest = broadcast_targets ks l in
    elim (find k l.mappings) [ none ↦ rest | some m ↦ if may_send l m then k ∷ rest else rest ]

-- The target of HandlePacket for a connection id, without broadcast.
pub unicast_target : ℕ → Listen → Option String
unicast_target id l = if id == 0 then none else elim (find id l.conn_index) [
  | none ↦ none
  | some k ↦ elim (find k l.mappings) [
    | none ↦ none
    | some m ↦ if may_send l m then some k else none
  ]
]
