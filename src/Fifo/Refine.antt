-- ===== src/Fifo/Refine.antt =====
-- shaper.go: shaperQueue beside a list, to which items are appended and from whose front they are
-- taken, over runs of pushes and pops.
use udplex.Prelude.{◌≡◌, refl, Option, none, some, List, [], ◌∷◌, ◌++◌, ℕ}
use udplex.Fifo.{Item, Fifo, empty, push, pop}
use udplex.Fifo.Contents.{Holds, empty-Holds, push-Holds, pop_nil, pop_cons, wires}

pub data Op : Type 0 where
  put : Item → Op
  get : Op

-- The results of the pops, and the byte count after each call.
pub run : Fifo → List Op → List (Option Item × ℕ)
run q [] = []
run q (put it ∷ ops) = let q' = push q it in (none, q'.bytes) ∷ run q' ops
run q (get ∷ ops) = elim (pop q) [
  | none ↦ (none, q.bytes) ∷ run q ops
  | some (it, q') ↦ (some it, q'.bytes) ∷ run q' ops
]

pub run_list : List Item → List Op → List (Option Item × ℕ)
run_list xs [] = []
run_list xs (put it ∷ ops) = (none, wires (xs ++ it ∷ [])) ∷ run_list (xs ++ it ∷ []) ops
run_list [] (get ∷ ops) = (none, 0) ∷ run_list [] ops
run_list (x ∷ xs) (get ∷ ops) = (some x, wires xs) ∷ run_list xs ops

run_refines_from :
    (ops : List Op) {q : Fifo} {xs : List Item} → Holds q xs → run q ops ≡ run_list xs ops
unfolding run run_list
run_refines_from [] h = refl
run_refines_from (put it ∷ ops) h =
    let h' = push-Holds it h in rw (run_refines_from ops h', h'.counted)
run_refines_from (get ∷ ops) {q} {xs = []} h =
    rw (pop_nil h, run) (rw (run_refines_from ops h, h.counted))
run_refines_from (get ∷ ops) {q} {xs = x ∷ xs} h =
    let r = pop_cons h in rw (r.1, run) (rw (run_refines_from ops r.2, r.2.counted))

-- Every sequence of pushes and pops on a new queue returns what the list returns, the items in the
-- order in which they came, with the sum of the sizes of the items that are left.
pub run_refines : (ops : List Op) → run empty ops ≡ run_list [] ops
run_refines ops = run_refines_from ops empty-Holds
