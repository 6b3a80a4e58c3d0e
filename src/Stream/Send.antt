-- ===== src/Stream/Send.antt =====
-- tcp_stream.go, the send side: queueSegmentLocked, processAckLocked, fastRetransmitLocked and
-- updateRTTLocked. `now.Sub(t)` of an earlier instant is a natural number.
pub mod Window
use udplex.Prelude.{
  ℕ, zero, suc, ◌+◌, ◌-◌, ◌*◌, ◌/◌, ◌≤◌, Bool, true, false, not, ◌&&◌, ◌||◌, Option, none, some,
  List, [], ◌∷◌, ◌++◌, ltb, leb, ◌==◌, if◌then◌else◌, length,
}
use udplex.Stream.{
  Stream, Segment, Frame, Kind, fin_frame, seg_len, queue_segment_frame, arm_timer, is_nil, min_rto,
  max_rto,
}

abbrev is_fin : Kind → Bool
is_fin fin_frame = true
is_fin _ = false

pub queue_segment : Stream → Kind → List ℕ → ℕ → Stream
queue_segment s kind body now =
    let g : Segment = record {
      seq = s.snd_nxt;
      kind = kind;
      body = body;
      sent_at = now;
      retrans = false;
    } in
    let q =
      queue_segment_frame
        (record s {
          unacked = s.unacked ++ (g ∷ []);
          snd_nxt = s.snd_nxt + seg_len g;
          fin_queued = is_fin kind || s.fin_queued;
        })
        g in
    if q.timer_armed then q else arm_timer q

-- |a - b|
abbrev pub distance : ℕ → ℕ → ℕ
distance a b = (a - b) + (b - a)

abbrev clamp_rto : ℕ → ℕ
clamp_rto r = if ltb r min_rto then min_rto else if ltb max_rto r then max_rto else r

pub update_rtt : Stream → ℕ → Stream
update_rtt s rtt =
    let srtt = (if s.srtt == 0 then rtt else (7 * s.srtt + rtt) / 8) in
    let rttvar = (if s.srtt == 0 then rtt / 2 else (3 * s.rttvar + distance s.srtt rtt) / 4) in
    record s { srtt = srtt; rttvar = rttvar; rto = clamp_rto (srtt + 4 * rttvar) }

pub resend_first : Stream → List Segment → ℕ → Stream
resend_first s [] now = s
resend_first s (g ∷ rest) now =
    let g' = record g { retrans = true; sent_at = now } in
    if ltb (now - g.sent_at) (s.srtt + s.srtt / 4)
    then s
    else queue_segment_frame (record s { unacked = g' ∷ rest }) g'

pub fast_retransmit : Stream → ℕ → Stream
unfolding resend_first
fast_retransmit s now = resend_first s s.unacked now

-- The segments that an acknowledgement covers go.
pub drop_acked : ℕ → List Segment → List Segment
drop_acked ack [] = []
drop_acked ack (g ∷ gs) =
    let rest = drop_acked ack gs in if leb (g.seq + seg_len g) ack then rest else g ∷ gs

-- Karn: the round trip is measured on the first segment, if it is acknowledged and was sent once.
pub sample_first : Stream → List Segment → ℕ → ℕ → Stream
sample_first s [] ack now = s
sample_first s (g ∷ rest) ack now =
    if leb (g.seq + seg_len g) ack && not g.retrans then update_rtt s (now - g.sent_at) else s

pub sample_rtt : Stream → ℕ → ℕ → Stream
unfolding sample_first
sample_rtt s ack now = sample_first s s.unacked ack now

-- The branch `f.ack > s.sndUna`.
pub advance : Stream → ℕ → ℕ → Stream
advance s0 ack now =
    let s1 = sample_rtt s0 ack now in
    let s2 = record s1 {
      unacked = drop_acked ack s1.unacked;
      snd_una = ack;
      backoff = 0;
      dup_acks = 0;
      last_progress = now;
    } in
    arm_timer (if ltb ack s2.recover then fast_retransmit s2 now else s2)

-- The branch of an acknowledgement that was sent because a frame arrived ahead of a gap.
pub duplicate : Stream → ℕ → Stream
duplicate s now =
    let s1 = record s { dup_acks = s.dup_acks + 1 } in
    if s1.dup_acks == 3 then fast_retransmit (record s1 { recover = s1.snd_nxt }) now else s1

pub widen : Stream → ℕ → Stream
widen s right =
    if ltb s.snd_right right
    then (let w = record s { snd_right = right } in if w.timer_armed then w else arm_timer w)
    else s

pub wake : Stream → Stream
wake s = if ltb s.snd_nxt s.snd_right then record s { send_ch = true } else s

pub process_ack : Stream → Frame → ℕ → Stream
process_ack s f now =
    if ltb s.snd_nxt f.ack
    then s
    else wake (
        widen
          (if ltb s.snd_una f.ack
            then advance s f.ack now
            else if f.ack == s.snd_una && f.flags.out_of_order && not (is_nil s.unacked)
            then duplicate s now
            else s)
          (f.ack + f.wnd))
