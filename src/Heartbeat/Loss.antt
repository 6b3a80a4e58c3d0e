-- ===== src/Heartbeat/Loss.antt =====
-- heartbeat_tracker.go: what the counters of one connection mean.
use udplex.Prelude.{ℕ, suc, ◌+◌, ◌^◌, ◌≤◌, ◌<◌, ◌≡◌, List, [], ◌∷◌, length, arith, subst}
use udplex.Heartbeat.{
  Tracker, note_heartbeat_sent, mark_heartbeat_response, mark_pending_heartbeat_lost,
  reset_heartbeat_state, reset_heartbeat_stats,
}

pub data Event : Type 0 where
  sent : ℕ → Event
  response : Event
  timeout : ℕ → Event
  reset_state : Event
  reset_stats : Event

pub apply : Event → Tracker → Tracker
apply (sent now) h = note_heartbeat_sent now h
apply response h = mark_heartbeat_response h
apply (timeout now) h = (mark_pending_heartbeat_lost now h).0
apply reset_state h = reset_heartbeat_state h
apply reset_stats h = reset_heartbeat_stats h

pub run : List Event → Tracker → Tracker
unfolding apply
run [] h = h
run (e ∷ es) h = run es (apply e h)

-- Every heartbeat is lost at most once, and the one that is waited for is not lost yet. At most `n`
-- were sent.
pub record IsValid (n : ℕ) (h : Tracker) : Type 0 where
  pub once : h.lost + h.awaiting ≤ h.sent
  pub consecutive : h.consecutive_loss ≤ h.lost
  pub waiting : h.awaiting ≤ 1
  pub few : h.sent ≤ n

apply-IsValid :
    (n : ℕ) (e : Event) (h : Tracker) → suc n < 2 ^ 64 → IsValid n h → IsValid (suc n) (apply e h)
unfolding apply note_heartbeat_sent mark_heartbeat_response reset_heartbeat_state
    reset_heartbeat_stats mark_pending_heartbeat_lost
apply-IsValid n (sent now) h low v = record {
  once = omega (arith, v.once, v.few);
  consecutive = v.consecutive;
  waiting = omega arith;
  few = omega (arith, v.few);
}
apply-IsValid n response h low v = record {
  once = omega (arith, v.once);
  consecutive = omega arith;
  waiting = omega arith;
  few = omega (arith, v.few);
}
apply-IsValid n (timeout now) h low v = record {
  once = ground (arith, v.once, v.few);
  consecutive = ground (arith, v.once, v.few, v.consecutive);
  waiting = ground (arith, v.waiting);
  few = ground (arith, v.few);
}
apply-IsValid n reset_state h low v = record {
  once = omega (arith, v.once);
  consecutive = omega arith;
  waiting = omega arith;
  few = omega (arith, v.few);
}
apply-IsValid n reset_stats h low v = record {
  once = omega arith;
  consecutive = omega arith;
  waiting = omega arith;
  few = omega arith;
}

-- In any run of fewer than 2^64 operations that starts with a valid tracker, no more heartbeats
-- are counted as lost than were sent, the one that is awaited is not among them, and no more were
-- lost in a row than were lost.
pub losses_are_sent :
    (n : ℕ) (es : List Event) (h : Tracker)
    → n + length es < 2 ^ 64
    → IsValid n h
    → IsValid (n + length es) (run es h)
unfolding run
losses_are_sent n [] h low v = let same : n ≡ n + 0 = omega arith in subst (λ k. IsValid k h) same v
losses_are_sent n (e ∷ es) h low v =
    let same : suc n + length es ≡ n + suc (length es) = omega arith in
    let rest =
      losses_are_sent (suc n) es (apply e h) (omega arith) (apply-IsValid n e h (omega arith) v) in
    subst (λ k. IsValid k (run es (apply e h))) same rest
