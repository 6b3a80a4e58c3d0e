-- ===== src/Tunnel/Batch.antt =====
-- tcp_tunnel.go: the batch of writeLoop. A slot of the batch whose packet has been released is `none`.
-- The socket is the list of what its writes come to; net.Buffers hands on how many bytes it has written.
-- `none` is a list of writes that ends before the batch is through.
pub mod Released
use udplex.Prelude.{
  ℕ, zero, suc, ◌+◌, ◌-◌, ◌/◌, Bool, true, false, not, ◌&&◌, ◌||◌, Option, none, some, List, [],
  ◌∷◌, ◌++◌, ltb, leb, ◌==◌, if◌then◌else◌, length, get_elem?, set, take, drop, map,
}
use udplex.Packet.{Packet}

pub record Batch : Type 0 where
  pub packets : List (Option Packet)
  pub index : ℕ
  pub offset : ℕ
  pub released : List Packet

-- The loop of releaseBatch.
pub release_slots : List (Option Packet) → List Packet → List Packet
release_slots [] released = released
release_slots (none ∷ ps) released = release_slots ps released
release_slots (some p ∷ ps) released = release_slots ps (released ++ (p ∷ []))

pub release_batch : Batch → Batch
unfolding release_slots
release_batch b = record {
  packets = [];
  index = 0;
  offset = 0;
  released = release_slots b.packets b.released;
}

-- `packet.Release(1); batch[currentPacketIndex] = nil; currentPacketIndex++; currentPacketOffset = 0`
pub finish_packet : Batch → Packet → Batch
finish_packet b p = record {
  packets = set b.packets b.index none;
  index = b.index + 1;
  offset = 0;
  released = b.released ++ (p ∷ []);
}

-- The loop of advanceBatchWrite. Each round moves the index on or is the last.
pub advance : ℕ → Batch → ℕ → Batch
unfolding finish_packet
advance zero b written = b
advance (suc fuel) b written = if written == 0 then b else elim (get_elem? b.packets b.index) [
  | none ↦ b
  | some none ↦ advance fuel (record b { index = b.index + 1; offset = 0 }) written
  | some (some p) ↦
      if leb p.length b.offset
      then advance fuel (finish_packet b p) written
      else if ltb written (p.length - b.offset)
      then record b { offset = b.offset + written }
      else advance fuel (finish_packet b p) (written - (p.length - b.offset))
]

pub advance_batch_write : Batch → ℕ → Batch
unfolding advance
advance_batch_write b written = advance (suc (length b.packets)) b written

-- How a call of WriteTo ends.
pub data WriteError : Type 0 where
  no_error : WriteError
  timeout_error : WriteError
  other_error : WriteError

-- One call of WriteTo: the bytes it wrote, its error, whether buffers remain, and whether the deadline
-- could then be set again.
pub record Write : Type 0 where
  pub bytes : ℕ
  pub error : WriteError
  pub more : Bool
  pub deadline_set : Bool

-- What follows a call of WriteTo in the loop of sendPacketBatch: the batch and whether the connection goes
-- on, or the rest of the loop.
pub after_write : Batch → Write → Option (Batch × Bool) → Option (Batch × Bool)
after_write a w rest = elim w.error [
  | no_error ↦ if w.more then rest else some (release_batch a, true)
  | timeout_error ↦
      if w.bytes == 0 || not w.deadline_set
      then some (release_batch a, false)
      else if w.more
      then rest
      else some (release_batch a, true)
  | other_error ↦ some (release_batch a, false)
]

-- The loop of sendPacketBatch. `none`: the writes given end before the loop does.
pub write_rounds : Batch → List Write → Option (Batch × Bool)
write_rounds b [] = none
write_rounds b (w ∷ ws) =
    let a = advance_batch_write b w.bytes in after_write a w (write_rounds a ws)

-- sendPacketBatch for the packets that pop gave; `first_deadline` is whether the first deadline was set.
pub send_packet_batch : Bool → Bool → List Packet → List Packet → List Write → Option (Batch × Bool)
unfolding write_rounds release_batch
send_packet_batch has_conn first_deadline packets released writes =
    let b : Batch = record {
      packets = map {B = Option Packet} some packets;
      index = 0;
      offset = 0;
      released = released;
    } in
    if length packets == 0
    then some (b, true)
    else if not has_conn
    then some (release_batch b, true)
    else if not first_deadline
    then some (release_batch b, false)
    else write_rounds b writes

-- refreshWriteDeadline and refreshReadDeadline, where the socket accepts the deadline: the timeout and the
-- time that they remember afterwards. A deadline is set anew once a quarter of the timeout has passed.
pub record Deadline : Type 0 where
  pub last_timeout : ℕ
  pub last_update : Option ℕ

pub is_recent : ℕ → ℕ → Option ℕ → Bool
is_recent now refresh none = false
is_recent now refresh (some t) = ltb (now - t) refresh

pub refresh_deadline : ℕ → ℕ → Deadline → Deadline × Bool
unfolding is_recent
refresh_deadline now timeout d =
    let refresh = (if timeout / 4 == 0 then timeout else timeout / 4) in
    if timeout == 0
    then (d, false)
    else if timeout == d.last_timeout && is_recent now refresh d.last_update
    then (d, false)
    else (record { last_timeout = timeout; last_update = some now }, true)
