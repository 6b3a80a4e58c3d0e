-- ===== src/Stream/Receive.antt =====
-- tcp_stream.go, the receive side: processSegmentLocked and deliverLocked. The map `ooo` of segments
-- that are ahead of a gap is an association list.
pub mod Order
pub mod Prefix
use udplex.Prelude.{
  ℕ, zero, suc, ◌+◌, ◌-◌, ◌≤◌, Bool, true, false, not, ◌&&◌, ◌||◌, Option, none, some, List, [],
  ◌∷◌, ◌++◌, ltb, leb, ◌==◌, if◌then◌else◌, length,
}
use udplex.Stream.{
  Stream, Segment, Frame, Kind, open_frame, data_frame, fin_frame, Flags, no_flags, span, seg_len,
  queue_ack, is_nil, Effect, dial,
}

abbrev pub Early : Type 0
Early = List (ℕ × Segment)

unfoldable pub lookup : ℕ → Early → Option Segment
lookup k [] = none
lookup k ((j, g) ∷ m) = if j == k then some g else lookup k m

-- `s.ooo[k] = g`, where the key is not there yet
pub insert : ℕ → Segment → Early → Early
insert k g m = (k, g) ∷ m

pub delete : ℕ → Early → Early
delete k [] = []
delete k ((j, g) ∷ m) = let rest = delete k m in if j == k then rest else (j, g) ∷ rest

-- deliverLocked. The effect `dial` is `go s.dial(target)`.
pub deliver_body : Stream → Kind → List ℕ → Stream
deliver_body s open_frame body =
    if not s.e.client && not s.opened
    then record s {
      opened = true;
      effects = s.effects ++ (dial (if is_nil s.e.target then body else s.e.target) ∷ []);
    }
    else s
deliver_body s data_frame body = if is_nil body then s else record s {
  rcv_queue = s.rcv_queue ++ (body ∷ []);
  rcv_queued = s.rcv_queued + length body;
  write_ch = true;
}
deliver_body s fin_frame body = record s { rcv_fin = true; write_ch = true }
deliver_body s _ body = s

pub deliver : Stream → Segment → Stream
unfolding deliver_body
deliver s g = deliver_body (record s { rcv_nxt = s.rcv_nxt + seg_len g }) g.kind g.body

-- The loop that delivers what a filled gap has released: the state, and whether it delivered. Each
-- round removes an entry.
pub fill : ℕ → Stream → Bool → Stream × Bool
fill zero s filled = (s, filled)
fill (suc fuel) s filled = elim (lookup s.rcv_nxt s.ooo) [
  | none ↦ (s, filled)
  | some g ↦ fill fuel (deliver (record s { ooo = delete s.rcv_nxt s.ooo }) g) true
]

-- The frame as a segment: `g` at the top of processSegmentLocked.
unfoldable pub segment_of : Frame → Segment
segment_of f = record {
  seq = f.seq;
  kind = f.kind;
  body = elim f.kind [ fin_frame ↦ [] | _ ↦ f.payload ];
  sent_at = 0;
  retrans = false;
}

-- A segment ahead of a gap is kept if it fits the window and is not kept already.
pub keep_early : Stream → Segment → Stream
keep_early s g =
    if ltb s.rcv_nxt g.seq && leb (g.seq + seg_len g) (s.rcv_nxt + s.e.window)
    then elim (lookup g.seq s.ooo) [ none ↦ record s { ooo = insert g.seq g s.ooo } | some old ↦ s ]
    else s

abbrev is_data : Kind → Bool
is_data data_frame = true
is_data _ = false

-- The acknowledgement after a delivery: at once after a gap was filled, after a frame that is no
-- data, and for every second segment; else with the delayed-ack timer.
pub acknowledge : Stream → Bool → Kind → Stream
acknowledge s0 filled kind =
    let s = record s0 { ack_pending = s0.ack_pending + 1 } in
    if filled || not (is_data kind) || leb 2 s.ack_pending
    then queue_ack s no_flags
    else record s { ack_timer_set = true }

pub process_segment : Stream → Frame → Stream
process_segment s f =
    let g = segment_of f in
    if leb (g.seq + seg_len g) s.rcv_nxt
    then queue_ack s no_flags
    else if not (g.seq == s.rcv_nxt)
    then queue_ack (keep_early s g) (record no_flags { out_of_order = true })
    else if is_data g.kind && ltb (s.e.window + s.e.mss) (s.rcv_queued + length g.body)
    then s
    else let (t, filled) = fill (suc (length s.ooo)) (deliver s g) false in
      acknowledge t filled g.kind
