-- ===== src/Stream/Life.antt =====
-- tcp_stream.go: handleFrame, the timers, the bodies of the copy loops, and the end of a stream. A
-- method that ends with unlockAndFlush returns the frames to send with the new state.
pub mod Closing
use udplex.Prelude.{
  ℕ, zero, suc, ◌+◌, ◌-◌, ◌*◌, ◌/◌, ◌≤◌, max, min, Bool, true, false, not, ◌&&◌, ◌||◌, Option, none,
  some, List, [], ◌∷◌, ◌++◌, ltb, leb, ◌==◌, if◌then◌else◌, length,
}
use udplex.Stream.{
  Stream, Segment, Frame, Kind, open_frame, data_frame, fin_frame, ack_frame, rst_frame, Flags,
  no_flags, seg_len, queue_ack, queue_segment_frame, arm_timer, rst_of, is_nil, Effect, start_loops,
  close_conn, reset_conn, ended,
}
use udplex.Stream.Receive.{process_segment}
use udplex.Stream.Send.{process_ack, queue_segment}

abbrev pub Flushed : Type 0
Flushed = List Frame × Stream

-- unlockAndFlush
abbrev pub flush : Stream → Flushed
flush s = (s.out, record s { out = [] })

pub perform : Stream → Effect → Stream
perform s x = record s { effects = s.effects ++ (x ∷ []) }

-- endLocked; `ended` stands for closing `done` and for the linger timer that is started.
pub end_stream : Stream → Stream
unfolding perform
end_stream s =
    perform
      (record s {
        dead = true;
        timer_armed = false;
        ack_timer_set = false;
        unacked = [];
        ooo = [];
        rcv_queue = [];
      })
      ended

pub abort : Stream → Bool → Stream
unfolding end_stream perform
abort s notify_peer =
    if s.dead
    then s
    else let t =
        end_stream (if notify_peer then record s { out = s.out ++ (rst_of s ∷ []) } else s) in
      if t.has_conn then perform t reset_conn else t

pub maybe_finish : Stream → Stream
unfolding end_stream perform
maybe_finish s =
    if s.dead || not s.fin_queued || not (s.snd_una == s.snd_nxt) || not s.fin_written
    then s
    else let t = end_stream (record s { finished = true }) in
      if t.has_conn then perform t close_conn else t

abbrev is_rst : Kind → Bool
is_rst rst_frame = true
is_rst _ = false

abbrev is_ack : Kind → Bool
is_ack ack_frame = true
is_ack _ = false

abbrev carries_segment : Kind → Bool
carries_segment ack_frame = false
carries_segment rst_frame = false
carries_segment _ = true

-- A dead stream answers: an acknowledgement if it ended in order, else a reset.
pub answer_dead : Stream → Frame → Stream
answer_dead s f =
    if is_rst f.kind
    then s
    else if s.finished
    then (if not (is_ack f.kind) || f.flags.probe then queue_ack s no_flags else s)
    else record s { out = s.out ++ (rst_of s ∷ []) }

-- The rest of handleFrame on a stream that lives, for a frame that is no reset.
pub handle_live : Stream → Frame → ℕ → Stream
handle_live s0 f now =
    let s1 = process_ack (record s0 { last_heard = now }) f now in
    let s2 = (if carries_segment f.kind then process_segment s1 f else s1) in
    maybe_finish (if f.flags.probe && is_nil s2.out then queue_ack s2 no_flags else s2)

pub handle_frame : Stream → Frame → ℕ → Flushed
handle_frame s f now =
    if s.dead
    then flush (answer_dead s f)
    else if is_rst f.kind
    then flush (abort (record s { last_heard = now }) false)
    else flush (handle_live s f now)

-- Every unacknowledged segment is sent again.
pub resend_all : ℕ → List Segment → Stream → Stream
resend_all now [] s = s
resend_all now (g ∷ gs) s =
    resend_all now gs (queue_segment_frame s (record g { retrans = true; sent_at = now }))

abbrev mark_resent : ℕ → List Segment → List Segment
mark_resent now [] = []
mark_resent now (g ∷ gs) = record g { retrans = true; sent_at = now } ∷ mark_resent now gs

-- Backing off after a round of the timer.
abbrev back_off : Stream → Stream
back_off s = arm_timer (if ltb s.backoff 6 then record s { backoff = s.backoff + 1 } else s)

pub on_timer : Stream → ℕ → Flushed
on_timer s0 now =
    let s = record s0 { timer_armed = false } in
    if s.dead
    then ([], s)
    else if not (is_nil s.unacked)
    then (if ltb s.e.timeout (now - s.last_progress)
        then flush (abort s true)
        else flush (
            back_off (resend_all now s.unacked (record s { unacked = mark_resent now s.unacked }))))
    else if ltb s.e.timeout (now - s.last_heard)
    then flush (abort s true)
    else flush (back_off (queue_ack s (record no_flags { probe = true })))

pub on_ack_timer : Stream → Flushed
on_ack_timer s0 =
    let s = record s0 { ack_timer_set = false } in
    flush (if not s.dead && ltb 0 s.ack_pending then queue_ack s no_flags else s)

pub check_opened : Stream → Flushed
unfolding abort
check_opened s = flush (if not s.opened && not s.dead then abort s true else s)

-- What `dial` does once the connection attempt has ended. On a stream that is dead the new
-- connection is closed at once.
pub dialed : Stream → Bool → Flushed
unfolding abort perform
dialed s ok =
    if not ok
    then flush (abort s true)
    else if s.dead
    then ([], perform s close_conn)
    else flush (perform (record s { has_conn = true }) start_loops)

-- readLoop: how many bytes may be read now; `none` while it has to wait for the window.
pub read_room : Stream → Option ℕ
read_room s =
    let space = s.snd_right - s.snd_nxt in
    if leb s.e.mss space || (ltb 0 space && is_nil s.unacked)
    then some (min space s.e.mss)
    else none

-- The result of a read: the bytes, and whether the stream ended in order, failed, or goes on.
pub data ReadEnd : Type 0 where
  more eof failed : ReadEnd

pub after_read : Stream → List ℕ → ReadEnd → ℕ → Flushed
after_read s body how now =
    if s.dead
    then ([], s)
    else let t = (if is_nil body then s else queue_segment s data_frame body now) in
      flush (elim how [
        | more ↦ t
        | eof ↦ maybe_finish (queue_segment t fin_frame [] now)
        | failed ↦ abort t true
      ])

-- writeLoop takes the queued bytes, and returns them once they are written.
pub take_queue : Stream → List (List ℕ) × Stream
take_queue s = (s.rcv_queue, record s { rcv_queue = [] })

pub written : Stream → ℕ → Bool → Flushed
written s n ok =
    if not ok
    then flush (abort s true)
    else let t = record s { rcv_queued = s.rcv_queued - n } in
      flush (
        if leb (t.adv_right + t.e.window / 4) (t.rcv_nxt + (t.e.window - t.rcv_queued))
        then queue_ack t no_flags
        else t)

-- The end of the peer's data has been passed on to the connection.
pub wrote_fin : Stream → Flushed
wrote_fin s = flush (maybe_finish (record s { fin_written = true }))
