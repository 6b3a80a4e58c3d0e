-- ===== src/Stream/Life/Closing.antt =====
-- tcp_stream.go: what a stream that has ended still answers.
use udplex.Prelude.{ℕ, ◌≤◌, ◌≡◌, ◌⊎◌, true, false, List, [], ◌∷◌, arith, length}
use udplex.Stream.{Stream, Frame, ack_frame, rst_frame, fill_ack, queue_ack}
use udplex.Stream.Life.{answer_dead, handle_frame}

-- A frame that the other end of a finished or aborted stream must not answer in turn: a reset, or an
-- acknowledgement that asks for none.
abbrev pub IsQuiet : Frame → Type 0
IsQuiet f = (f.kind ≡ rst_frame) ⊎ ((f.kind ≡ ack_frame) × (f.flags.probe ≡ false))

abbrev pub AllQuiet : List Frame → Type 0
AllQuiet [] = Unit {0}
AllQuiet (f ∷ fs) = IsQuiet f × AllQuiet fs

-- A dead stream that has nothing left to send answers a frame with at most one frame, and stays
-- dead. The answer is a reset or an acknowledgement that asks for nothing.
pub dead_answers :
    (s : Stream) (f : Frame) (now : ℕ)
    → s.dead ≡ true
    → s.out ≡ []
    → let (replies, t) = handle_frame s f now in
      (t.dead ≡ true) × (t.out ≡ []) × (length replies ≤ 1) × AllQuiet replies
unfolding handle_frame answer_dead queue_ack fill_ack
dead_answers s f now d o = (ground arith, ground arith, ground arith, ground arith)

-- A stream that has ended in order answers none of the frames with which a dead stream answers: two
-- closed ends do not echo each other.
pub finished-no_echo :
    (s : Stream) (f : Frame) (now : ℕ)
    → s.dead ≡ true
    → s.finished ≡ true
    → s.out ≡ []
    → IsQuiet f
    → (handle_frame s f now).0 ≡ []
unfolding handle_frame answer_dead
finished-no_echo s f now d e o q = ground arith
