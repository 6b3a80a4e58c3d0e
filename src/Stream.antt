-- ===== src/Stream.antt =====
-- tcp_stream.go: the state of a TCP stream over the packet pipeline. Its methods run under the
-- stream's lock and are functions on the state; what they do to the outside (dialing, closing the
-- connection, starting the copy loops) is appended to `effects`. Times and durations are
-- nanoseconds; sequence numbers do not wrap (a stream of 2^64 bytes is out of reach).
mod Tests
pub mod Receive
pub mod Send
pub mod Life
use udplex.Prelude.{
  ℕ, ◌+◌, ◌-◌, ◌*◌, ◌%◌, ◌^◌, max, min, Bool, true, false, ◌||◌, ◌&&◌, Option, none, some, List, [],
  ◌∷◌, ◌++◌, ltb, leb, ◌==◌, if◌then◌else◌, length,
}

-- tcpFrameOpen, tcpFrameData, tcpFrameFin, tcpFrameAck, tcpFrameRst
pub data Kind : Type 0 where
  open_frame data_frame fin_frame ack_frame rst_frame : Kind

pub record Flags : Type 0 where
  pub from_client : Bool
  pub probe : Bool
  pub out_of_order : Bool

abbrev pub no_flags : Flags
no_flags = record { from_client = false; probe = false; out_of_order = false }

pub record Frame : Type 0 where
  pub kind : Kind
  pub flags : Flags
  pub id : ℕ
  pub seq : ℕ
  pub ack : ℕ
  pub wnd : ℕ
  pub payload : List ℕ

pub record Segment : Type 0 where
  pub seq : ℕ
  pub kind : Kind
  pub body : List ℕ
  pub sent_at : ℕ
  pub retrans : Bool

-- `func (g *tcpSegment) len()`: everything but data occupies one sequence number.
unfoldable pub span : Kind → List ℕ → ℕ
span data_frame body = length body
span _ body = 1

abbrev pub seg_len : Segment → ℕ
seg_len g = span g.kind g.body

-- tcpStreamEndpoint, as far as a stream reads it. The target is its bytes.
pub record Endpoint : Type 0 where
  pub client : Bool
  pub mss : ℕ
  pub window : ℕ
  pub timeout : ℕ
  pub target : List ℕ

pub data Effect : Type 0 where
  dial : List ℕ → Effect
  start_loops : Effect
  close_conn : Effect
  reset_conn : Effect
  ended : Effect

pub record Stream : Type 0 where
  pub e : Endpoint
  pub id : ℕ
  pub has_conn : Bool
  pub out : List Frame
  pub opened : Bool
  pub dead : Bool
  pub finished : Bool
  -- send side
  pub snd_una : ℕ
  pub snd_nxt : ℕ
  pub snd_right : ℕ
  pub unacked : List Segment
  pub fin_queued : Bool
  pub srtt : ℕ
  pub rttvar : ℕ
  pub rto : ℕ
  pub backoff : ℕ
  pub dup_acks : ℕ
  pub recover : ℕ
  pub last_progress : ℕ
  pub last_heard : ℕ
  pub timer : ℕ
  pub timer_armed : Bool
  pub send_ch : Bool
  -- receive side
  pub rcv_nxt : ℕ
  pub ooo : List (ℕ × Segment)
  pub rcv_queue : List (List ℕ)
  pub rcv_queued : ℕ
  pub rcv_fin : Bool
  pub fin_written : Bool
  pub adv_right : ℕ
  pub ack_pending : ℕ
  pub ack_timer_set : Bool
  pub write_ch : Bool
  pub effects : List Effect

abbrev pub is_nil {ℓ} : {A : Type ℓ} → List A → Bool
is_nil [] = true
is_nil (x ∷ xs) = false

abbrev pub ms : ℕ
ms = 1_000_000

abbrev pub init_window : ℕ
init_window = 64 * 1024

abbrev pub min_rto : ℕ
min_rto = 200 * ms

abbrev pub max_rto : ℕ
max_rto = 10_000 * ms

-- `window := cfg.WindowSize` to `window: max(window, 2*mss)` of newTcpStreamEndpoint; a size or a
-- timeout that is not positive is 0 here.
pub new_endpoint : ℕ → ℕ → ℕ → Bool → List ℕ → Endpoint
new_endpoint window_size timeout buffer_size client target =
    let mss = max (buffer_size - 64 - 36) 256 in
    record {
      client = client;
      mss = mss;
      window = max (if window_size == 0 then 1024 * 1024 else window_size) (2 * mss);
      timeout = (if timeout == 0 then 60_000 * ms else timeout * 1000 * ms);
      target = target;
    }

pub new_stream : Endpoint → ℕ → Bool → ℕ → Stream
new_stream e id has_conn now = record {
  e = e;
  id = id;
  has_conn = has_conn;
  out = [];
  opened = false;
  dead = false;
  finished = false;
  snd_una = 0;
  snd_nxt = 0;
  snd_right = init_window;
  unacked = [];
  fin_queued = false;
  srtt = 0;
  rttvar = 0;
  rto = 1000 * ms;
  backoff = 0;
  dup_acks = 0;
  recover = 0;
  last_progress = now;
  last_heard = now;
  timer = 0;
  timer_armed = false;
  send_ch = false;
  rcv_nxt = 0;
  ooo = [];
  rcv_queue = [];
  rcv_queued = 0;
  rcv_fin = false;
  fin_written = false;
  adv_right = 0;
  ack_pending = 0;
  ack_timer_set = false;
  write_ch = false;
  effects = [];
}

-- fillAckLocked: the frame gets the acknowledgement and the window, which the stream has then
-- advertised; a pending delayed acknowledgement is covered by it.
pub fill_ack : Stream → Frame → Stream × Frame
fill_ack s f =
    let free = s.e.window - s.rcv_queued in
    (
      record s {
        adv_right = max s.adv_right (s.rcv_nxt + free);
        ack_pending = 0;
        ack_timer_set = false;
      },
      record f { id = s.id; ack = s.rcv_nxt; wnd = free % 2 ^ 32 },
    )

abbrev pub blank : Kind → Frame
blank kind = record {
  kind = kind;
  flags = no_flags;
  id = 0;
  seq = 0;
  ack = 0;
  wnd = 0;
  payload = [];
}

-- `s.out = append(s.out, f)`
abbrev pub emit : Stream × Frame → Stream
emit r = record (r.0) { out = r.0.out ++ (r.1 ∷ []) }

pub queue_ack : Stream → Flags → Stream
unfolding fill_ack
queue_ack s flags = emit (fill_ack s (record (blank ack_frame) { flags = flags }))

pub queue_segment_frame : Stream → Segment → Stream
unfolding fill_ack
queue_segment_frame s g =
    emit (fill_ack s (record (blank g.kind) { seq = g.seq; payload = g.body }))

-- `tcpFrame{typ: tcpFrameRst, id: s.id}`
abbrev pub rst_of : Stream → Frame
rst_of s = record (blank rst_frame) { id = s.id }

-- armTimerLocked; the shift is by at most 6.
pub arm_timer : Stream → Stream
arm_timer s =
    if s.dead || (is_nil s.unacked && (ltb s.snd_nxt s.snd_right || s.fin_queued))
    then record s { timer_armed = false }
    else record s { timer = min (s.rto * 2 ^ s.backoff) max_rto; timer_armed = true }
