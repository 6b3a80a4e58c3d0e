-- ===== src/TunnelQueue/Push/Limit.antt =====
-- What `push` does with a droppable packet, and the limit of the queue.
use udplex.Prelude.{ℕ, ◌+◌, ◌≤◌, ◌≡◌, sym, ap, ◌∙◌, ◌↔◌, Bool, true, false, Option, some, subst}
use udplex.Packet.{Packet}
use udplex.TunnelQueue.{Queue, data_bytes}
use udplex.TunnelQueue.Push.{push}
use udplex.TunnelQueue.Push.Admission.{push_droppable}
use udplex.TunnelQueue.Invariant.{IsValid}

module _ {R : Type 0} where
  same_result :
      (a b : Queue R) (s t : Bool)
      → ◌≡◌ {A = Option (Queue R × Bool)} (some (a, s)) (some (b, t))
      → (a ≡ b) × (s ≡ t)
  same_result a b s t h =
      let pair : ◌≡◌ {A = Queue R × Bool} (a, s) (b, t) = cc in
      (ap (λ x. x.0) pair, ap (λ x. x.1) pair)

  -- A data packet that may be dropped is refused exactly when it does not fit the limit beside the
  -- packets that cannot be dropped to make room.
  pub push_iff :
      (q : Queue R) (pkt : Packet) (now : ℕ)
      → IsValid q
      → q.closed ≡ false
      → pkt.no_drop ≡ false
      → (q' : Queue R) × (taken : Bool) × (push q pkt false now ≡ some (q', taken))
        × ((taken ≡ true) ↔ (q.priority.bytes + q.reliable.bytes + pkt.length ≤ q.s.limit))
  push_iff q pkt now v still may_drop =
      let w = push_droppable (λ p. true) q pkt now v still may_drop in (w.0, w.1, w.2, w.5.0)

  -- Once a data packet that may be dropped has been taken, the data bytes in the queue are within its
  -- limit.
  pub push_within_limit :
      (q q' : Queue R) (pkt : Packet) (now : ℕ)
      → IsValid q
      → q.closed ≡ false
      → pkt.no_drop ≡ false
      → push q pkt false now ≡ some (q', true)
      → data_bytes q' ≤ q.s.limit
  push_within_limit q q' pkt now v still may_drop h =
      let w = push_droppable (λ p. true) q pkt now v still may_drop in
      let r = same_result w.0 q' w.1 true (sym w.2 ∙ h) in
      subst (λ x. data_bytes x ≤ q.s.limit) r.0 (w.5.1 r.1)
