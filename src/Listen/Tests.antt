-- ===== src/Listen/Tests.antt =====
-- Two mappings of a listener, one of them authenticated: the examples of the theorems about listen.go.
use udplex.Prelude.{ℕ, ◌≡◌, ◌⊎◌, refl, Bool, true, false, Option, none, some, [], ◌∷◌}
use udplex.Table.{find, put, remove, text_key, number_key}
use udplex.Packet.{Packet, Addr}
use udplex.Heartbeat.{Tracker}
use udplex.Listen.{
  Listen, ListenConn, index_by_id, sync_mapping, on_data, is_authenticated, unicast_target,
}
use udplex.Listen.Admission.{on_data-authenticated, unicast_target-IsMapped}
use udplex.Prelude.Int.{pos}

abbrev no_tracker : Tracker
no_tracker = record {
  stats = none;
  last_sent = 0;
  sent = 0;
  lost = 0;
  consecutive_loss = 0;
  awaiting = 0;
}

abbrev mapping : Bool → ℕ → ListenConn
mapping authenticated id = record {
  addr = some (Addr.udp (10 ∷ 0 ∷ 0 ∷ id ∷ []) 4000);
  ip = "10.0.0.1";
  last_active = 5;
  has_auth = true;
  authenticated = authenticated;
  conn_id = id;
  heartbeat = no_tracker;
}

abbrev listener : Listen
listener = record {
  mappings = ("a", mapping true 7) ∷ ("b", mapping false 8) ∷ [];
  snapshot = [];
  conn_index = [];
  broadcast_mode = false;
  with_auth = true;
  preserve_conn_id = false;
  replace_old = false;
  timeout = 100;
  removed = [];
}

abbrev packet : ℕ → Packet
packet id = record {
  buffer = 1 ∷ 2 ∷ [];
  offset = 0;
  length = 2;
  src_addr = Option.none;
  src_tag = "listen";
  count = pos 1;
  proto = "";
  conn_id = id;
  batch_id = 0;
  no_drop = false;
}

abbrev from : Option Addr
from = some (Addr.udp (10 ∷ 0 ∷ 0 ∷ 7 ∷ []) 4000)

abbrev routed : Packet
routed = record (packet 0) { src_addr = from; conn_id = 7 }

on_data-authenticated_example :
    (m : ListenConn) × (find "a" listener.mappings ≡ some m)
    × (is_authenticated m ≡ true)
    × (routed.src_addr ≡ from)
    × ((routed.conn_id ≡ m.conn_id) ⊎ (listener.preserve_conn_id ≡ true))
unfolding on_data find
on_data-authenticated_example = on_data-authenticated "a" from 9 (packet 0) routed listener refl

unicast_target-IsMapped_example :
    (m : ListenConn) × (find "a" listener.mappings ≡ some m)
    × (m.conn_id ≡ 7)
    × ((listener.with_auth ≡ false) ⊎ (is_authenticated m ≡ true))
unfolding unicast_target sync_mapping index_by_id find put remove
unicast_target-IsMapped_example = unicast_target-IsMapped listener 7 "a" refl refl
