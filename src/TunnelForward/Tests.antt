-- ===== src/TunnelForward/Tests.antt =====
-- Two pools and three connection ids: the example of the theorem about tcp_tunnel_forward.go.
use udplex.Prelude.{ℕ, ◌≡◌, refl, false, Option, none, some, List, [], ◌∷◌}
use udplex.Table.{find, number_key}
use udplex.Tunnel.{Pool, remove_connection, index_of, connection_count}
use udplex.TunnelForward.{Forward, drop_connection}
use udplex.TunnelForward.Index.{without, drop_connection-forgets}

abbrev pool_of : List (Option ℕ) → Pool
pool_of conns = record { conns = conns; index = 0; current = none }

abbrev component : Forward
component = record {
  pools = (1, pool_of (some 40 ∷ [])) ∷ (2, pool_of []) ∷ [];
  conn_index = (500, 1) ∷ (501, 2) ∷ (502, 1) ∷ [];
  conn_index_gen = 0;
  broadcast_mode = false;
  priority_size = 100;
  priority_conn = false;
}

drop_connection-forgets_example :
    find 502 (drop_connection 40 1 component).conn_index ≡ without 1 (find 502 component.conn_index)
unfolding find remove_connection index_of connection_count
drop_connection-forgets_example =
    drop_connection-forgets component 40 1 502 (pool_of (some 40 ∷ [])) refl refl
