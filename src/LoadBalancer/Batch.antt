-- ===== src/LoadBalancer/Batch.antt =====
-- load_balancer.go: packets that were received together.
use udplex.Prelude.{ℕ, ◌≡◌, true, [], arith, ◌≢◌}
use udplex.LoadBalancer.{Result, Variables, LoadBalancer, batch_targets, handle_packet}

module _ {P : Type 0} (eval : P → Variables → Result) where
  -- With batch decisions on, once a packet of a batch was routed to some targets, the next packet
  -- goes to the same ones if it is of the same batch, whatever the sizes.
  pub batch_together :
      (lb : LoadBalancer P) (size size' id : ℕ)
      → lb.batch_decision ≡ true
      → id ≢ 0
      → (handle_packet eval lb size id).1 ≢ []
      → let first = handle_packet eval lb size id in
        (handle_packet eval first.0 size' id).1 ≡ first.1
  unfolding handle_packet batch_targets
  batch_together lb size size' id on some_batch routed = ground arith
