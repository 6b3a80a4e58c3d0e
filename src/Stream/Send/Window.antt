-- ===== src/Stream/Send/Window.antt =====
-- tcp_stream.go: the sender's book of what is not acknowledged, against the numbers from the last
-- acknowledgement to the next to be sent.
use udplex.Prelude.{
  ℕ, ◌+◌, ◌≤◌, ◌<◌, ◌≡◌, refl, ◌∙◌, ap, sym, inl, inr, Bool, true, false, not, List, [], ◌∷◌, ◌++◌,
  arith, ltb, leb, ◌==◌, ◌&&◌, ◌||◌, Bool-cases, if◌then◌else◌,
}
use udplex.Stream.{
  Stream, Endpoint, Segment, Frame, Kind, span, seg_len, queue_segment_frame, fill_ack, arm_timer,
  is_nil, min_rto, max_rto, new_stream,
}
use udplex.Stream.Send.{
  queue_segment, update_rtt, fast_retransmit, drop_acked, sample_rtt, advance, duplicate, widen,
  wake, process_ack, sample_first, resend_first, is_fin,
}

-- The segments lie end to end from `b` to `e`, and none is empty.
abbrev pub Chain : ℕ → List Segment → ℕ → Type 0
Chain b [] e = b ≡ e
Chain b (g ∷ gs) e = (g.seq ≡ b) × (0 < seg_len g) × Chain (b + seg_len g) gs e

-- The segments cover the sequence numbers from `una` to `e`; the first may be acknowledged in part.
abbrev pub Covers : ℕ → List Segment → ℕ → Type 0
Covers una [] e = una ≡ e
Covers una (g ∷ gs) e = (g.seq ≤ una) × (una < g.seq + seg_len g) × Chain (g.seq + seg_len g) gs e

pub record IsValid (s : Stream) : Type 0 where
  pub covered : Covers s.snd_una s.unacked s.snd_nxt
  pub rto_low : min_rto ≤ s.rto
  pub rto_high : s.rto ≤ max_rto
  pub backoff_low : s.backoff ≤ 6

pub IsValid_same :
    (s t : Stream)
    → t.snd_una ≡ s.snd_una
    → t.unacked ≡ s.unacked
    → t.snd_nxt ≡ s.snd_nxt
    → t.rto ≡ s.rto
    → t.backoff ≡ s.backoff
    → IsValid s
    → IsValid t
IsValid_same s t u a n r b v = record {
  covered = rw (u, a, n) v.covered;
  rto_low = rw r v.rto_low;
  rto_high = rw r v.rto_high;
  backoff_low = rw b v.backoff_low;
}

pub new_stream-IsValid :
    (e : Endpoint) (id : ℕ) (has_conn : Bool) (now : ℕ) → IsValid (new_stream e id has_conn now)
unfolding new_stream
new_stream-IsValid e id has_conn now = omega arith

Chain-le : (b : ℕ) (gs : List Segment) (e : ℕ) → Chain b gs e → b ≤ e
Chain-le b [] e c = omega arith
Chain-le b (g ∷ gs) e c = omega (arith, Chain-le (b + seg_len g) gs e c.2)

pub una-le-nxt : (una : ℕ) (gs : List Segment) (e : ℕ) → Covers una gs e → una ≤ e
una-le-nxt una [] e c = omega arith
una-le-nxt una (g ∷ gs) e c = omega (arith, Chain-le (g.seq + seg_len g) gs e c.2)

drop_acked-Chain :
    (b ack e : ℕ) (gs : List Segment)
    → Chain b gs e
    → b ≤ ack
    → ack ≤ e
    → Covers ack (drop_acked ack gs) e
unfolding drop_acked
drop_acked-Chain b ack e [] c h k = omega arith
drop_acked-Chain b ack e (g ∷ gs) c h k = elim (Bool-cases (leb (g.seq + seg_len g) ack)) [
  | inl covered ↦
      rw covered (drop_acked-Chain (b + seg_len g) ack e gs c.2 (ground (arith, covered, c.0)) k)
  | inr open_still ↦ rw open_still (ground (arith, c.0, h), ground (arith, open_still), rw c.0 c.2)
]

-- Dropping what an acknowledgement covers leaves the segments that cover the rest.
pub drop_acked-Covers :
    (una ack e : ℕ) (gs : List Segment)
    → Covers una gs e
    → una ≤ ack
    → ack ≤ e
    → Covers ack (drop_acked ack gs) e
unfolding drop_acked
drop_acked-Covers una ack e [] c h k = omega arith
drop_acked-Covers una ack e (g ∷ gs) c h k = elim (Bool-cases (leb (g.seq + seg_len g) ack)) [
  | inl covered ↦
      rw covered (drop_acked-Chain (g.seq + seg_len g) ack e gs c.2 (ground (arith, covered)) k)
  | inr open_still ↦ rw open_still (omega (arith, c.0, h), ground (arith, open_still), c.2)
]

Chain-snoc :
    (b e : ℕ) (gs : List Segment) (g : Segment)
    → Chain b gs e
    → g.seq ≡ e
    → 0 < seg_len g
    → Chain b (gs ++ (g ∷ [])) (e + seg_len g)
Chain-snoc b e [] g c s n = (s ∙ sym c, n, ap (λ (t : ℕ). t + seg_len g) c)
Chain-snoc b e (x ∷ xs) g c s n = (c.0, c.1, Chain-snoc (b + seg_len x) e xs g c.2 s n)

Covers-snoc :
    (una e : ℕ) (gs : List Segment) (g : Segment)
    → Covers una gs e
    → g.seq ≡ e
    → 0 < seg_len g
    → Covers una (gs ++ (g ∷ [])) (e + seg_len g)
Covers-snoc una e [] g c s n = (omega arith, omega arith, ap (λ (t : ℕ). t + seg_len g) s)
Covers-snoc una e (x ∷ xs) g c s n = (c.0, c.1, Chain-snoc (x.seq + seg_len x) e xs g c.2 s n)

arm_timer-IsValid : (s : Stream) → IsValid s → IsValid (arm_timer s)
unfolding arm_timer
arm_timer-IsValid s v =
    IsValid_same s _ (ground arith) (ground arith) (ground arith) (ground arith) (ground arith) v

queue_segment_frame-IsValid :
    (s : Stream) (g : Segment) → IsValid s → IsValid (queue_segment_frame s g)
unfolding queue_segment_frame fill_ack
queue_segment_frame-IsValid s g v = IsValid_same s _ refl refl refl refl refl v

if-IsValid : (b : Bool) {s t : Stream} → IsValid s → IsValid t → IsValid (if b then s else t)
if-IsValid true v w = v
if-IsValid false v w = w

-- Queueing a segment that is not empty keeps the sender's book valid: its segments still cover the
-- sequence numbers from the last acknowledgement to the next to be sent without a gap, and the timeout
-- and the backoff are within their bounds.
pub queue_segment-IsValid :
    (s : Stream) (kind : Kind) (body : List ℕ) (now : ℕ)
    → 0 < span kind body
    → IsValid s
    → IsValid (queue_segment s kind body now)
unfolding queue_segment
queue_segment-IsValid s kind body now h v = if-IsValid _ queued (arm_timer-IsValid _ queued)
  where
    g : Segment
    g = record { seq = s.snd_nxt; kind = kind; body = body; sent_at = now; retrans = false }

    entered : Stream
    entered = record s {
      unacked = s.unacked ++ (g ∷ []);
      snd_nxt = s.snd_nxt + seg_len g;
      fin_queued = is_fin kind || s.fin_queued;
    }

    queued : IsValid (queue_segment_frame entered g)
    queued = queue_segment_frame-IsValid entered g (record {
      covered = Covers-snoc s.snd_una s.snd_nxt s.unacked g v.covered refl h;
      rto_low = v.rto_low;
      rto_high = v.rto_high;
      backoff_low = v.backoff_low;
    })

update_rtt-IsValid : (s : Stream) (rtt : ℕ) → IsValid s → IsValid (update_rtt s rtt)
unfolding update_rtt
update_rtt-IsValid s rtt v = record {
  covered = v.covered;
  rto_low = ground arith;
  rto_high = ground arith;
  backoff_low = v.backoff_low;
}

sample_first-IsValid :
    (s : Stream) (gs : List Segment) (ack now : ℕ) → IsValid s → IsValid (sample_first s gs ack now)
unfolding sample_first
sample_first-IsValid s [] ack now v = v
sample_first-IsValid s (g ∷ rest) ack now v = if-IsValid _ (update_rtt-IsValid s _ v) v

sample_first_keeps :
    (s : Stream) (gs : List Segment) (ack now : ℕ)
    → let t = sample_first s gs ack now in
      (t.snd_una ≡ s.snd_una) × (t.snd_nxt ≡ s.snd_nxt) × (t.unacked ≡ s.unacked)
unfolding sample_first update_rtt
sample_first_keeps s [] ack now = (refl, refl, refl)
sample_first_keeps s (g ∷ rest) ack now = ground arith

resend_first-IsValid :
    (s : Stream) (gs : List Segment) (now : ℕ)
    → Covers s.snd_una gs s.snd_nxt
    → IsValid s
    → IsValid (resend_first s gs now)
unfolding resend_first
resend_first-IsValid s [] now c v = v
resend_first-IsValid s (g ∷ rest) now c v =
    let g' = record g { retrans = true; sent_at = now } in
    if-IsValid _ v (
      queue_segment_frame-IsValid (record s { unacked = g' ∷ rest }) g'
        (record {
          covered = c;
          rto_low = v.rto_low;
          rto_high = v.rto_high;
          backoff_low = v.backoff_low;
        }))

fast_retransmit-IsValid : (s : Stream) (now : ℕ) → IsValid s → IsValid (fast_retransmit s now)
unfolding fast_retransmit
fast_retransmit-IsValid s now v = resend_first-IsValid s s.unacked now v.covered v

advance-IsValid :
    (s : Stream) (ack now : ℕ)
    → s.snd_una < ack
    → ack ≤ s.snd_nxt
    → IsValid s
    → IsValid (advance s ack now)
unfolding advance sample_rtt
advance-IsValid s ack now lo hi v =
    arm_timer-IsValid _ (if-IsValid _ (fast_retransmit-IsValid _ now acked) acked)
  where
    s1 : Stream
    s1 = sample_first s s.unacked ack now

    v1 : IsValid s1
    v1 = sample_first-IsValid s s.unacked ack now v

    acked : IsValid (record s1 {
      unacked = drop_acked ack s1.unacked;
      snd_una = ack;
      backoff = 0;
      dup_acks = 0;
      last_progress = now;
    })
    acked =
        let k = sample_first_keeps s s.unacked ack now in
        record {
          covered =
              drop_acked-Covers s1.snd_una ack s1.snd_nxt s1.unacked v1.covered
                (rw k.0 (omega arith)) (rw k.1 hi);
          rto_low = v1.rto_low;
          rto_high = v1.rto_high;
          backoff_low = omega arith;
        }

duplicate-IsValid : (s : Stream) (now : ℕ) → IsValid s → IsValid (duplicate s now)
unfolding duplicate
duplicate-IsValid s now v =
    if-IsValid (s.dup_acks + 1 == 3)
      (fast_retransmit-IsValid _ now (
        IsValid_same s (record s { dup_acks = s.dup_acks + 1; recover = s.snd_nxt }) refl refl refl
          refl refl v))
      (IsValid_same s (record s { dup_acks = s.dup_acks + 1 }) refl refl refl refl refl v)

widen-IsValid : (s : Stream) (right : ℕ) → IsValid s → IsValid (widen s right)
unfolding widen
widen-IsValid s right v =
    let w = IsValid_same s (record s { snd_right = right }) refl refl refl refl refl v in
    if-IsValid _ (if-IsValid _ w (arm_timer-IsValid _ w)) v

wake-IsValid : (s : Stream) → IsValid s → IsValid (wake s)
unfolding wake
wake-IsValid s v =
    if-IsValid (ltb s.snd_nxt s.snd_right)
      (IsValid_same s (record s { send_ch = true }) refl refl refl refl refl v) v

-- Processing a frame's acknowledgement keeps the sender's book valid, whatever the frame says: the
-- segments that remain cover the sequence numbers from the new acknowledgement to the next to be sent
-- without a gap, and the timeout and the backoff are within their bounds.
pub process_ack-IsValid :
    (s : Stream) (f : Frame) (now : ℕ) → IsValid s → IsValid (process_ack s f now)
unfolding process_ack
process_ack-IsValid s f now v = elim (Bool-cases (ltb s.snd_nxt f.ack)) [
  | inl beyond ↦ rw (beyond, process_ack) v
  | inr sent ↦ rw (sent, process_ack) (wake-IsValid _ (widen-IsValid _ _ (inner sent)))
]
  where
    inner :
        ltb s.snd_nxt f.ack ≡ false
        → IsValid (
            if ltb s.snd_una f.ack
            then advance s f.ack now
            else if f.ack == s.snd_una && f.flags.out_of_order && not (is_nil s.unacked)
            then duplicate s now
            else s)
    inner sent = elim (Bool-cases (ltb s.snd_una f.ack)) [
      | inl new ↦
          rw new (advance-IsValid s f.ack now (ground (arith, new)) (ground (arith, sent)) v)
      | inr old ↦ rw old (if-IsValid _ (duplicate-IsValid s now v) v)
    ]
