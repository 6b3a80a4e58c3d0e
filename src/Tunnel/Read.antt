-- ===== src/Tunnel/Read.antt =====
-- tcp_tunnel.go: readLoop. The bytes of the receive buffer that wait are a list; a handler that ends the
-- loop, as an error does, is `none`. What the loop calls of the other parts of the program, with their
-- state, is a record of operations.
pub mod Framing
pub mod Whole
use udplex.Prelude.{
  ℕ, zero, suc, ◌+◌, ◌-◌, ◌≤◌, ◌<◌, Bool, true, false, not, ◌&&◌, ◌||◌, Option, none, some, List,
  [], ◌∷◌, ◌++◌, ltb, leb, ◌==◌, if◌then◌else◌, length, take, drop, get_or, min,
}
use udplex.Wire.{be, slice}
use udplex.Auth.Challenge.{handshake_size}
use udplex.Wire.Header.{header_size, msg_data}

-- TcpTunnelListenMode and TcpTunnelForwardMode
pub data Mode : Type 0 where
  listen : Mode
  forward : Mode

abbrev pub msg_auth_challenge : ℕ
msg_auth_challenge = 1

abbrev pub msg_auth_response : ℕ
msg_auth_response = 2

abbrev pub msg_heartbeat : ℕ
msg_heartbeat = 4

abbrev pub msg_disconnect : ℕ
msg_disconnect = 6

abbrev pub msg_heartbeat_ack : ℕ
msg_heartbeat_ack = 7

-- What the loop does with a complete message: unwrap and route data, answer a heartbeat, take its ack,
-- and, with the handshake's data, authenticate the connection, which can fail.
pub record Handlers (S : Type 0) : Type 0 where
  pub authenticated : S → Bool
  pub on_data : S → List ℕ → S
  pub echo_heartbeat : S → S
  pub ack_heartbeat : S → S
  pub on_heartbeat_ack : S → S
  pub authenticate : S → List ℕ → Option S

pub data Frame : Type 0 where
  incomplete : ℕ → Frame
  bad : Frame
  complete : ℕ → Frame

module _ {S : Type 0} (H : Handlers S) (mode : Mode) (max_payload : ℕ) where
  unfoldable pub on_heartbeat : S → S
  on_heartbeat s = elim mode [ listen ↦ H.echo_heartbeat s | forward ↦ H.ack_heartbeat s ]

  -- The `switch` over the type of a message.
  unfoldable pub dispatch_data : S → ℕ → List ℕ → Option S
  unfolding on_heartbeat
  dispatch_data s typ message =
      if typ == msg_data
      then some (H.on_data s message)
      else if typ == msg_heartbeat
      then some (on_heartbeat s)
      else if typ == msg_heartbeat_ack
      then some (H.on_heartbeat_ack s)
      else if typ == msg_disconnect
      then none
      else some s

  unfoldable pub expects : ℕ → Bool
  expects typ = elim mode [
    | listen ↦ typ == msg_auth_challenge
    | forward ↦ typ == msg_auth_response
  ]

  unfoldable pub dispatch : S → ℕ → List ℕ → Option S
  dispatch s typ message =
      if H.authenticated s
      then dispatch_data s typ message
      else if expects typ
      then H.authenticate s (drop header_size message)
      else none

  -- Whether the length in a header is refused.
  unfoldable pub refused : S → ℕ → Bool
  refused s len = if H.authenticated s then ltb max_payload len else not (len == handshake_size)

  -- How far the bytes go: to an incomplete message, whose size is known or 0, to a header that is
  -- refused, or over a complete message.
  unfoldable pub next_frame : S → List ℕ → Frame
  next_frame s bytes =
      let len = be (slice bytes 4 4) in
      let total = header_size + len in
      if ltb (length bytes) header_size
      then incomplete 0
      else if refused s len
      then bad
      else if ltb (length bytes) total
      then incomplete total
      else complete total

  -- The inner loop, on the bytes that have been read: the state, the bytes that are left over and
  -- `expectedTotalSize`. A round takes a message of at least eight bytes or is the last.
  unfoldable pub process : ℕ → S → List ℕ → Option (S × List ℕ × ℕ)
  process zero s bytes = none
  process (suc fuel) s bytes = elim (next_frame s bytes) [
    | incomplete expected ↦ some (s, bytes, expected)
    | bad ↦ none
    | complete total ↦ elim (dispatch s (get_or bytes 1 0) (take total bytes)) [
      | none ↦ none
      | some s' ↦ process fuel s' (drop total bytes)
    ]
  ]

  unfoldable pub read_messages : S → List ℕ → Option (S × List ℕ × ℕ)
  read_messages s bytes = process (suc (length bytes)) s bytes

  -- `readSize`, where `capacity` is the room of the buffer behind its offset.
  pub read_size : ℕ → ℕ → ℕ → ℕ
  read_size capacity used expected =
      let room = capacity - used in if ltb 0 expected then min (expected - used) room else room

  -- One round of the outer loop, which reads `chunk`.
  pub read_round : ℕ → S → List ℕ → List ℕ → Option (S × List ℕ × ℕ)
  read_round capacity s pending chunk =
      if leb capacity (length pending) then none else elim (read_messages s (pending ++ chunk)) [
        | none ↦ none
        | some (s', rest, expected) ↦
            if length rest == capacity && length rest == length (pending ++ chunk)
            then none
            else some (s', rest, expected)
      ]

  -- The outer loop over what the reads give, one after the other.
  pub read_loop : ℕ → S → List ℕ → ℕ → List (List ℕ) → Option (S × List ℕ × ℕ)
  read_loop capacity s pending expected [] = some (s, pending, expected)
  read_loop capacity s pending expected (chunk ∷ chunks) =
      elim (read_round capacity s pending chunk) [
        | none ↦ none
        | some (s', rest, expected') ↦ read_loop capacity s' rest expected' chunks
      ]
