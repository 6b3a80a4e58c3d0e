-- ===== src/Auth/Data.antt =====
-- auth_protocol.go: WrapData and UnwrapData. AES-GCM is a parameter: `seal` and `open` under a nonce,
-- and the overhead. A buffer is the memory from its first byte to its capacity, and what Go does not
-- allow on it, a write or a slice past its end, is `none`. Times are milliseconds. The buffers that
-- the pool hands out, and the nonce's random frame id, are arguments.
mod Tests
pub mod Layout
pub mod Sealed
pub mod Replay
use udplex.Prelude.{
  ℕ, ◌+◌, ◌-◌, ◌<◌, Bool, true, false, not, ◌&&◌, ◌||◌, Option, none, some, ◌>>=◌, List, [], ◌∷◌,
  ◌++◌, ltb, leb, ◌==◌, if◌then◌else◌, length, take, drop,
}
use udplex.Prelude.Int.{ℤ, pos, ◌-ℤ◌, ltb_ℤ}
use udplex.Packet.{Packet, get_data, overwrite}
use udplex.Wire.{put_be, be, slice}
use udplex.Wire.Header.{header_size, protocol_version, msg_data, parse_header, write_header}
use udplex.Autorate.Probe.{to_int64}
use udplex.Auth.Dedup.{Nonce, Dedup, next_nonce, mark_as_used, is_duplicate}

abbrev pub id_size : ℕ
id_size = 8

-- The timestamp and the connection id in front of the plaintext.
abbrev pub prefix_size : ℕ
prefix_size = 16

abbrev pub nonce_size : ℕ
nonce_size = 12

pub nonce_bytes : Nonce → List ℕ
nonce_bytes n = put_be 8 n.frame ++ put_be 4 n.seq

pub nonce_of : List ℕ → Nonce
nonce_of b = record { frame = be (slice b 0 8); seq = be (slice b 8 4) }

-- The packet with room for the prefix in front of its data. A buffer that is cut to the packet's length
-- can be written only so far.
pub make_room : List ℕ → Packet → Option Packet
make_room fresh p =
    if ltb prefix_size p.offset
    then some (record p { offset = p.offset - prefix_size })
    else if ltb p.length prefix_size || ltb (length fresh) (prefix_size + p.length)
    then none
    else some (record p { buffer = overwrite fresh prefix_size (get_data p); offset = 0 })

-- `binary.BigEndian.PutUint64(b[off:], x)`
pub put_at : List ℕ → ℕ → ℕ → Option (List ℕ)
put_at b off x = if ltb (length b) (off + 8) then none else some (overwrite b off (put_be 8 x))

-- The packet that is to be encrypted: the timestamp, the connection id and the data.
pub with_prefix : List ℕ → ℕ → Packet → Option Packet
with_prefix fresh timestamp p = do
  q ← make_room fresh p
  a ← put_at q.buffer q.offset timestamp
  b ← put_at a (q.offset + 8) q.conn_id
  some (record q { buffer = b; length = q.length + prefix_size })

pub data Wrapped : Type 0 where
  wrapped : Packet → Dedup → Wrapped
  wrap_failed : Packet → Dedup → Wrapped

pub data UnwrapError : Type 0 where
  too_small : UnwrapError
  unsupported_version : UnwrapError
  too_small_for_length : UnwrapError
  encrypted_too_short : UnwrapError
  duplicate_packet : UnwrapError
  decryption_failed : UnwrapError
  decrypted_too_short : UnwrapError
  data_expired : UnwrapError
  no_conn_id : UnwrapError

-- `other_type` is a message that is no data: it is left as it is, without an error.
pub data Unwrapped : Type 0 where
  unwrapped : Packet → Dedup → Unwrapped
  other_type : Unwrapped
  unwrap_failed : UnwrapError → Unwrapped

module _ (seal : Nonce → List ℕ → List ℕ) (open_sealed : Nonce → List ℕ → Option (List ℕ))
    (overhead : ℕ) where
  -- The wrapped packet in the buffer that the pool gave, if the ciphertext fits into it.
  sealed : List ℕ → Nonce → List ℕ → Packet → Option Packet
  sealed buffer n c p =
      if ltb (length buffer) (header_size + nonce_size + length c)
      then none
      else elim (write_header (take header_size buffer ++ (nonce_bytes n ++ c)) msg_data
          (nonce_size + length c)) [
            | none ↦ none
            | some b ↦ some (record p { buffer = b; offset = 0; length = length b })
          ]

  -- The branch of WrapData with encryption, at the time `now` for the nonces.
  pub wrap_encrypted : List ℕ → List ℕ → Option ℕ → ℕ → ℕ → Packet → Dedup → Option Wrapped
  wrap_encrypted fresh buffer fresh_id now timestamp p d = do
    q ← with_prefix fresh timestamp p
    let plain = get_data q
    let (o, d') = next_nonce fresh_id d
    elim o [
      | none ↦ some (wrap_failed q d')
      | some n ↦
          let c = seal n plain in
          if length c == 0 then some (wrap_failed q d') else elim (sealed buffer n c q) [
            | none ↦ none
            | some r ↦ some (wrapped r (mark_as_used now n d'))
          ]
    ]

  -- What UnwrapData does with the decrypted bytes.
  pub opened : ℕ → ℕ → ℕ → Nonce → List ℕ → Packet → Dedup → Unwrapped
  opened now now_ms timeout n plain p d =
      let timestamp = to_int64 (be (slice plain 0 8)) in
      if ltb (length plain) prefix_size
      then unwrap_failed decrypted_too_short
      else if ltb_ℤ (pos timeout) (pos now_ms -ℤ timestamp)
      then unwrap_failed data_expired
      else unwrapped
          (record p {
            conn_id = be (slice plain 8 8);
            buffer = plain;
            offset = prefix_size;
            length = length plain - prefix_size;
          })
          (mark_as_used now n d)

  pub unwrap_encrypted : ℕ → ℕ → ℕ → List ℕ → Packet → Dedup → Unwrapped
  unwrap_encrypted now now_ms timeout bytes p d =
      let n = nonce_of bytes in
      if ltb (length bytes) (nonce_size + prefix_size + overhead)
      then unwrap_failed encrypted_too_short
      else if is_duplicate n d
      then unwrap_failed duplicate_packet
      else elim (open_sealed n (drop nonce_size bytes)) [
        | none ↦ unwrap_failed decryption_failed
        | some plain ↦ opened now now_ms timeout n plain p d
      ]

  -- The branch without encryption; `off` is the offset of the data behind the header.
  unwrap_plain : ℕ → List ℕ → Packet → Dedup → Unwrapped
  unwrap_plain off bytes p d =
      if ltb (length bytes) id_size
      then unwrap_failed no_conn_id
      else unwrapped
          (record p {
            conn_id = be (slice bytes 0 8);
            offset = off + id_size;
            length = length bytes - id_size;
          })
          d

  -- UnwrapData.
  pub unwrap_data : Bool → ℕ → ℕ → ℕ → Packet → Dedup → Option Unwrapped
  unwrap_data encrypted now now_ms timeout p d =
      let b = drop p.offset p.buffer in
      if ltb p.length header_size then some (unwrap_failed too_small) else elim (parse_header b) [
        | none ↦ some (unwrap_failed too_small)
        | some h ↦
            if not (h.version == protocol_version)
            then some (unwrap_failed unsupported_version)
            else if not (h.msg_type == msg_data)
            then some other_type
            else if ltb p.length (header_size + h.len)
            then some (unwrap_failed too_small_for_length)
            else if ltb (length b) (header_size + h.len)
            then none
            else let bytes = slice b header_size h.len in
              some (
                if encrypted
                then unwrap_encrypted now now_ms timeout bytes p d
                else unwrap_plain (p.offset + header_size) bytes p d)
      ]

-- The room for the header and the connection id. Without it in front, the new buffer comes whole, and so
-- does its length.
pub make_plain_room : List ℕ → Packet → Option Packet
make_plain_room fresh p =
    if leb prefix_size p.offset
    then some (record p { offset = p.offset - prefix_size })
    else if ltb (length fresh) prefix_size
    then none
    else some (record p {
      buffer = overwrite fresh prefix_size (take (length fresh - prefix_size) (get_data p));
      offset = 0;
      length = length fresh;
    })

-- The branch of WrapData without encryption.
pub wrap_plain : List ℕ → Packet → Option Packet
wrap_plain fresh p = do
  q ← make_plain_room fresh p
  w ← write_header (drop q.offset q.buffer) msg_data (q.length + id_size)
  b ← put_at (take q.offset q.buffer ++ w) (q.offset + header_size) q.conn_id
  some (record q { buffer = b; length = q.length + prefix_size })
