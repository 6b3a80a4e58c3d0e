-- ===== src/Stream/Receive/Prefix.antt =====
-- The receiver from its start on, over every sequence of frames that the lines deliver.
use udplex.Prelude.{
  ℕ, ◌+◌, ◌≡◌, refl, sym, inl, inr, Bool, some, List, [], ◌∷◌, ◌++◌, arith, append_assoc, ltb,
  Bool-cases,
}
use udplex.Stream.{Stream, Endpoint, Frame, Segment, span, new_stream}
use udplex.Stream.Receive.{lookup, segment_of, process_segment}
use udplex.Stream.Receive.Order.{
  Piece, Contiguous, IsSent, bytes_of, bytes_below, concat, InOrder, process_segment-InOrder,
  bytes_below_nil,
}

-- Frames one after the other.
pub receive : Stream → List Frame → Stream
receive s [] = s
receive s (f ∷ fs) = receive (process_segment s f) fs

abbrev pub AllSent : List Piece → List Frame → Type 0
AllSent ps [] = Unit {0}
AllSent ps (f ∷ fs) = IsSent ps f.seq f.kind (segment_of f).body × AllSent ps fs

abbrev pub all_bytes : List Piece → List ℕ
all_bytes [] = []
all_bytes (x ∷ xs) = bytes_of x.kind x.body ++ all_bytes xs

-- The bytes below a sequence number come first in the stream.
bytes_below_first :
    (b n : ℕ) (ps : List Piece)
    → Contiguous b ps
    → (rest : List ℕ) × (bytes_below n ps ++ rest ≡ all_bytes ps)
bytes_below_first b n [] c = ([], refl)
bytes_below_first b n (x ∷ xs) c = elim (Bool-cases (ltb x.seq n)) [
  | inl below ↦
      let r = bytes_below_first (b + span x.kind x.body) n xs c.2 in
      (r.0, rw (below, append_assoc, r.1) refl)
  | inr past ↦ (
    all_bytes (x ∷ xs),
    rw (past, bytes_below_nil (b + span x.kind x.body) n xs c.2 (ground (arith, past, c.0))) refl,
  )
]

receive-InOrder :
    (ps : List Piece) (sent : Contiguous 0 ps) (s : Stream) (fs : List Frame)
    → AllSent ps fs
    → InOrder ps sent [] s
    → InOrder ps sent [] (receive s fs)
unfolding receive
receive-InOrder ps sent s [] h v = v
receive-InOrder ps sent s (f ∷ fs) h v =
    receive-InOrder ps sent (process_segment s f) fs h.1
      (process_segment-InOrder ps sent [] s f h.0 v)

bytes_below_start : (ps : List Piece) → Contiguous 0 ps → bytes_below 0 ps ≡ []
bytes_below_start ps c = bytes_below_nil 0 0 ps c (omega arith)

-- However the frames of a contiguous stream are lost, repeated and reordered on their way, what the
-- receiver has delivered is the data of the pieces below its next expected sequence number, and so
-- the beginning of the stream.
pub receive-prefix :
    (ps : List Piece) (fs : List Frame) (e : Endpoint) (id : ℕ) (has_conn : Bool) (now : ℕ)
    → Contiguous 0 ps
    → AllSent ps fs
    → let s = receive (new_stream e id has_conn now) fs in
      (concat s.rcv_queue ≡ bytes_below s.rcv_nxt ps)
      × ((rest : List ℕ) × (concat s.rcv_queue ++ rest ≡ all_bytes ps))
unfolding new_stream
receive-prefix ps fs e id has_conn now c h =
    let s0 = new_stream e id has_conn now in
    let v = receive-InOrder ps c s0 fs h (record {
      prefix = sym (bytes_below_start ps c);
      early = λ k g d. absurd (none_there k g d);
    }) in
    let r = bytes_below_first 0 (receive s0 fs).rcv_nxt ps c in (v.prefix, (r.0, rw v.prefix r.1))
  where
    none_there : (k : ℕ) (g : Segment) → lookup k [] ≡ some g → ⊥
    none_there k g d = unfold lookup in cc
