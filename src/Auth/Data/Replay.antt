-- ===== src/Auth/Data/Replay.antt =====
-- auth_protocol.go: an encrypted packet that comes to UnwrapData again.
use udplex.Prelude.{ℕ, ◌≡◌, true, false, Bool, Option, none, some, List, drop}
use udplex.Packet.{Packet}
use udplex.Wire.{slice}
use udplex.Wire.Header.{header_size}
use udplex.Auth.Dedup.{Nonce, Dedup}
use udplex.Auth.Data.{
  Unwrapped, unwrapped, unwrap_failed, other_type, nonce_of, unwrap_encrypted, unwrap_data,
}

-- The nonce that stands behind the header of a packet.
abbrev pub carried_nonce : Packet → Nonce
carried_nonce p = nonce_of (drop header_size (drop p.offset p.buffer))

abbrev taken : Unwrapped → Bool
taken (unwrapped r d) = true
taken other_type = false
taken (unwrap_failed e) = false

abbrev given : Option Unwrapped → Bool
given none = false
given (some u) = taken u

-- The state that UnwrapData leaves.
abbrev state_of : Dedup → Option Unwrapped → Dedup
state_of d none = d
state_of d (some other_type) = d
state_of d (some (unwrap_failed e)) = d
state_of d (some (unwrapped r d')) = d'

module _ (seal : Nonce → List ℕ → List ℕ) (open_sealed : Nonce → List ℕ → Option (List ℕ))
    (overhead : ℕ) where
  -- A packet that is taken has bytes behind its header that lead to the same place in any state.
  Decoded : Packet → Type 0
  Decoded p =
      (len : ℕ) × ((now now_ms timeout : ℕ) (d : Dedup)
        → unwrap_data seal open_sealed overhead true now now_ms timeout p d
          ≡ some (
              unwrap_encrypted seal open_sealed overhead now now_ms timeout
                (slice (drop p.offset p.buffer) header_size len) p d))
