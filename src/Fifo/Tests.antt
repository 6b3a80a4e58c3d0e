-- ===== src/Fifo/Tests.antt =====
-- A FIFO at concrete operations.
use udplex.Prelude.{ℕ, ◌≡◌, false, none, List, [], ◌∷◌}
use udplex.Prelude.Int.{pos}
use udplex.Fifo.{Item, empty}
use udplex.Fifo.Refine.{Op, put, get, run, run_list, run_refines}

abbrev item : ℕ → Item
item n = record {
  pkt = record {
    buffer = [];
    offset = 0;
    length = n;
    src_addr = none;
    src_tag = "";
    count = pos 1;
    proto = "";
    conn_id = n;
    batch_id = 0;
    no_drop = false;
  };
  addr = none;
  enq = n;
  wire = n;
}

abbrev ops : List Op
ops = put (item 1) ∷ put (item 2) ∷ put (item 3) ∷ get ∷ get ∷ put (item 4) ∷ get ∷ get ∷ get ∷ []

run_refines_example : run empty ops ≡ run_list [] ops
run_refines_example = run_refines ops
