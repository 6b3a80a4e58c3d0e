-- ===== src/Router/Tests.antt =====
-- Routing at concrete components.
use udplex.Prelude.{ℕ, ◌≡◌, false, ◌&&◌, none, List, [], ◌∷◌, ◌==◌, if◌then◌else◌}
use udplex.Prelude.Int.{pos}
use udplex.Packet.{Packet}
use udplex.Router.{Components, route_packet}
use udplex.Router.Count.{Named, receivers, IsBalanced, route_packet-IsBalanced}
use udplex.Router.ConnData.{get_conn_data, remove_conn_data, get-remove}
use Prim.Native.String.{String}
use text.Mathlib.Text.{◌==◌ as text_eq}

abbrev components : Components
components =
    ("a", record { tag = "a"; number = 1 })
    ∷ ("b", record { tag = "b"; number = 2 })
    ∷ ("c", record { tag = "c"; number = 3 })
    ∷ []

abbrev packet : Packet
packet = record {
  buffer = 1 ∷ 2 ∷ [];
  offset = 0;
  length = 2;
  src_addr = none;
  src_tag = "a";
  count = pos 1;
  proto = "";
  conn_id = 1;
  batch_id = 0;
  no_drop = false;
}

abbrev tags : List String
tags = "a" ∷ "c" ∷ "x" ∷ "b" ∷ []

route_packet-IsBalanced_example :
    let r = route_packet components (0 ∷ 0 ∷ 0 ∷ []) packet tags in
    Named components "a" tags (receivers r.1) × IsBalanced packet r.0 r.1
route_packet-IsBalanced_example = route_packet-IsBalanced components (0 ∷ 0 ∷ 0 ∷ []) packet tags

abbrev pool : List (ℕ × List (String × ℕ))
pool = (4, ("a", 10) ∷ ("b", 11) ∷ []) ∷ (5, ("a", 12) ∷ []) ∷ []

get-remove_example :
    get_conn_data 5 "a" (remove_conn_data 5 "a" pool)
    ≡ (if 5 == 5 && text_eq "a" "a" then none else get_conn_data 5 "a" pool)
get-remove_example = get-remove 5 5 "a" "a" pool
