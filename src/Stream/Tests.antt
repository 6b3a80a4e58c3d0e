-- ===== src/Stream/Tests.antt =====
-- Streams at concrete frames: the examples of the theorems about tcp_stream.go.
use udplex.Prelude.{ℕ, ◌≡◌, refl, true, false, none, some, List, [], ◌∷◌, ◌++◌, arith}
use udplex.Stream.{
  Endpoint, Stream, Segment, Frame, Kind, open_frame, data_frame, fin_frame, ack_frame, no_flags,
  span, new_stream,
}
use udplex.Stream.Receive.{lookup, segment_of, process_segment}
use udplex.Stream.Receive.Order.{
  Piece, Contiguous, IsSent, InOrder, bytes_below, concat, process_segment-InOrder,
}
use udplex.Stream.Receive.Prefix.{receive, AllSent, all_bytes, receive-prefix}
use udplex.Stream.Send.{queue_segment, process_ack}
use udplex.Stream.Send.Window.{
  IsValid, new_stream-IsValid, queue_segment-IsValid, process_ack-IsValid,
}

abbrev endpoint : Endpoint
endpoint = record { client = false; mss = 256; window = 1024; timeout = 60; target = [] }

abbrev start : Stream
start = new_stream endpoint 5 true 1000

-- OPEN, two bytes and FIN.
abbrev pieces : List Piece
pieces =
    record { seq = 0; kind = open_frame; body = 97 ∷ [] }
    ∷ record { seq = 1; kind = data_frame; body = 10 ∷ 20 ∷ [] }
    ∷ record { seq = 3; kind = fin_frame; body = [] }
    ∷ []

abbrev frame : Kind → ℕ → List ℕ → Frame
frame kind seq body = record {
  kind = kind;
  flags = no_flags;
  id = 5;
  seq = seq;
  ack = 0;
  wnd = 1024;
  payload = body;
}

abbrev open_it : Frame
open_it = frame open_frame 0 (97 ∷ [])

abbrev data_it : Frame
data_it = frame data_frame 1 (10 ∷ 20 ∷ [])

abbrev fin_it : Frame
fin_it = frame fin_frame 3 []

pieces-Contiguous : Contiguous 0 pieces
unfolding span
pieces-Contiguous = (refl, omega arith, (refl, omega arith, (refl, omega arith, tt)))

-- FIN and data arrive before OPEN, the data twice.
frames-AllSent : AllSent pieces (fin_it ∷ data_it ∷ data_it ∷ open_it ∷ [])
unfolding segment_of
frames-AllSent = (refl, (refl, (refl, (refl, tt))))

receive-prefix_example :
    let s = receive start (fin_it ∷ data_it ∷ data_it ∷ open_it ∷ []) in
    (concat s.rcv_queue ≡ bytes_below s.rcv_nxt pieces)
    × ((rest : List ℕ) × (concat s.rcv_queue ++ rest ≡ all_bytes pieces))
receive-prefix_example =
    receive-prefix pieces (fin_it ∷ data_it ∷ data_it ∷ open_it ∷ []) endpoint 5 true 1000
      pieces-Contiguous frames-AllSent

none_early : (k : ℕ) (g : Segment) → lookup k [] ≡ some g → IsSent pieces k g.kind g.body
unfolding lookup
none_early k g h = let gone : none ≡ some g = h in cc

start-InOrder : InOrder pieces pieces-Contiguous [] start
unfolding new_stream
start-InOrder = record { prefix = refl; early = none_early }

process_segment-InOrder_example :
    InOrder pieces pieces-Contiguous [] (process_segment start data_it)
unfolding segment_of
process_segment-InOrder_example =
    process_segment-InOrder pieces pieces-Contiguous [] start data_it refl start-InOrder

-- OPEN is in flight; its acknowledgement comes.
abbrev opened_stream : Stream
opened_stream = queue_segment start open_frame (97 ∷ []) 2000

opened-IsValid : IsValid opened_stream
unfolding span
opened-IsValid =
    queue_segment-IsValid start open_frame (97 ∷ []) 2000 (omega arith)
      (new_stream-IsValid endpoint 5 true 1000)

queue_segment-IsValid_example : IsValid (queue_segment opened_stream data_frame (1 ∷ 2 ∷ []) 2500)
unfolding span
queue_segment-IsValid_example =
    queue_segment-IsValid opened_stream data_frame (1 ∷ 2 ∷ []) 2500 (omega arith) opened-IsValid

process_ack-IsValid_example :
    IsValid (process_ack opened_stream (record (frame ack_frame 0 []) { ack = 1 }) 3000)
process_ack-IsValid_example =
    process_ack-IsValid opened_stream (record (frame ack_frame 0 []) { ack = 1 }) 3000
      opened-IsValid
