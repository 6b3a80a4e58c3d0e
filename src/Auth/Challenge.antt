-- ===== src/Auth/Challenge.antt =====
-- auth_protocol.go: the challenge of the handshake and its cache against replays. HMAC-SHA256 and
-- the clock are parameters. The ids are lists of eight bytes; the cache's key is the number that the 32
-- bytes of the challenge spell. Times are milliseconds, and the timeout is positive (NewAuthManager
-- replaces 0).
pub mod Layout
pub mod Handshake
use udplex.Prelude.{
  ℕ, ◌+◌, ◌-◌, ◌≤◌, ◌<◌, ◌≡◌, refl, ◌∙◌, ap, Bool, true, false, not, ◌&&◌, Option, none, some, List,
  [], ◌∷◌, ltb, ◌==◌, if◌then◌else◌, arith, length, take, ◌++◌, ◌>>=◌,
}
use udplex.Prelude.Int.{ℤ, pos, ◌-ℤ◌, ltb_ℤ}
use udplex.Packet.{overwrite}
use udplex.Wire.{put_be, be, slice}
use udplex.Wire.Header.{header_size, write_header}
use udplex.Autorate.Probe.{to_int64}
use udplex.Table.{find, put, keep, number_key, find-put_self, find-keep}

abbrev pub handshake_size : ℕ
handshake_size = 32 + 8 + 8 + 8 + 32

-- The part of AuthManager that the handshake uses.
pub record Manager : Type 0 where
  pub auth_timeout : ℕ
  pub challenge_cache : List (ℕ × ℕ)
  pub cleanup_pending : Bool

pub data ChallengeError : Type 0 where
  invalid_length : ChallengeError
  duplicate_challenge : ChallengeError
  timestamp_expired : ChallengeError
  invalid_mac : ChallengeError

-- What ProcessAuthChallenge returns: an error, or the forward id and the pool id.
pub data Processed : Type 0 where
  refused : ChallengeError → Processed
  accepted : List ℕ → List ℕ → Processed

-- `copy(b[off:], src)`, which stops at the end of the buffer; an offset beyond it panics.
pub copy_at : List ℕ → ℕ → List ℕ → Option (List ℕ)
copy_at b off src =
    if ltb (length b) off then none else some (take (length b) (overwrite b off src))

-- hmac.Equal
unfoldable pub same_bytes : List ℕ → List ℕ → Bool
same_bytes [] [] = true
same_bytes [] (y ∷ ys) = false
same_bytes (x ∷ xs) [] = false
same_bytes (x ∷ xs) (y ∷ ys) = (x == y) && same_bytes xs ys

-- `mac_of` is the MAC of the bytes that are written to it.
module _ (mac_of : List ℕ → List ℕ) where
  -- The writes of CreateAuthChallenge behind the header.
  pub put_challenge : List ℕ → List ℕ → List ℕ → List ℕ → List ℕ → Option (List ℕ)
  unfolding copy_at
  put_challenge b0 challenge forward_id pool_id timestamp = do
    b1 ← copy_at b0 header_size challenge
    b2 ← copy_at b1 (header_size + 32) forward_id
    b3 ← copy_at b2 (header_size + 32 + 8) pool_id
    b4 ← copy_at b3 (header_size + 32 + 8 + 8) timestamp
    copy_at b4 (header_size + 32 + 8 + 8 + 8)
        (mac_of (challenge ++ (forward_id ++ (pool_id ++ timestamp))))

  -- CreateAuthChallenge with the random challenge that was drawn: the buffer, the length of the
  -- message, and the manager.
  pub create_auth_challenge :
      ℕ → List ℕ → ℕ → List ℕ → List ℕ → List ℕ → Manager → Option (List ℕ × ℕ × Manager)
  create_auth_challenge now challenge msg_type forward_id pool_id buffer am = do
    b ← write_header buffer msg_type handshake_size
    c ← put_challenge b challenge forward_id pool_id (put_be 8 now)
    some (
      c,
      header_size + handshake_size,
      record am { challenge_cache = put (be challenge) now am.challenge_cache },
    )

  -- Whether the cache knows the challenge from less than the timeout ago.
  unfoldable pub is_replayed : ℕ → ℕ → Manager → Bool
  is_replayed now challenge am = elim (find challenge am.challenge_cache) [
    | none ↦ false
    | some t ↦ ltb (now - t) am.auth_timeout
  ]

  -- ProcessAuthChallenge. The cleanup that it starts is a step of its own.
  unfoldable pub process_auth_challenge : ℕ → List ℕ → Manager → Processed × Manager
  unfolding is_replayed same_bytes
  process_auth_challenge now bytes am =
      let challenge = slice bytes 0 32 in
      let forward_id = slice bytes 32 8 in
      let pool_id = slice bytes 40 8 in
      let timestamp = slice bytes 48 8 in
      let mac = slice bytes 56 32 in
      if ltb (length bytes) handshake_size
      then (refused invalid_length, am)
      else if is_replayed now (be challenge) am
      then (refused duplicate_challenge, am)
      else if ltb_ℤ (pos am.auth_timeout) (pos now -ℤ to_int64 (be timestamp))
      then (refused timestamp_expired, am)
      else if not (same_bytes mac (mac_of (challenge ++ (forward_id ++ (pool_id ++ timestamp)))))
      then (refused invalid_mac, am)
      else (
        accepted forward_id pool_id,
        record am {
          challenge_cache = put (be challenge) now am.challenge_cache;
          cleanup_pending = true;
        },
      )

  pub cleanup_expired_challenges : ℕ → Manager → Manager
  cleanup_expired_challenges now am = record am {
    challenge_cache = keep (λ t. not (ltb t (now - am.auth_timeout))) am.challenge_cache;
    cleanup_pending = false;
  }

  is_accepted : Processed → Bool
  is_accepted (refused e) = false
  is_accepted (accepted f p) = true

  accepted_known :
      (now : ℕ) (c : List ℕ) (am : Manager)
      → is_accepted (process_auth_challenge now c am).0 ≡ true
      → let s = (process_auth_challenge now c am).1 in
        (find (be (slice c 0 32)) s.challenge_cache ≡ some now) × (s.auth_timeout ≡ am.auth_timeout)
  unfolding process_auth_challenge is_accepted
  accepted_known now c am h =
      ground (arith, h, find-put_self (be (slice c 0 32)) now am.challenge_cache)

  cleanup_known :
      (cleaned now k : ℕ) (am : Manager)
      → find k am.challenge_cache ≡ some now
      → cleaned ≤ now + am.auth_timeout
      → find k (cleanup_expired_challenges cleaned am).challenge_cache ≡ some now
  unfolding cleanup_expired_challenges
  cleanup_known cleaned now k am h le =
      let young : ltb now (cleaned - am.auth_timeout) ≡ false = ground arith in
      find-keep (λ t. not (ltb t (cleaned - am.auth_timeout))) k am.challenge_cache
      ∙ rw (h, young) refl

  known_replayed :
      (later now k : ℕ) (am : Manager)
      → find k am.challenge_cache ≡ some now
      → now ≤ later
      → later < now + am.auth_timeout
      → is_replayed later k am ≡ true
  unfolding is_replayed
  known_replayed later now k am h le lt = rw (h, is_replayed) (ground arith)

  -- A challenge that was accepted is refused as a duplicate when a message of full length comes with it
  -- again later, before the timeout, also when a cleanup ran in between, whatever the rest of the message.
  pub accepted_once :
      (now cleaned later : ℕ) (c d forward_id pool_id : List ℕ) (am : Manager)
      → (process_auth_challenge now c am).0 ≡ accepted forward_id pool_id
      → handshake_size ≤ length d
      → slice d 0 32 ≡ slice c 0 32
      → cleaned ≤ now + am.auth_timeout
      → now ≤ later
      → later < now + am.auth_timeout
      → (process_auth_challenge later d
          (cleanup_expired_challenges cleaned (process_auth_challenge now c am).1)).0
        ≡ refused duplicate_challenge
  unfolding process_auth_challenge cleanup_expired_challenges is_accepted
  accepted_once now cleaned later c d forward_id pool_id am taken full same clean after late =
      let s = (process_auth_challenge now c am).1 in
      let k = be (slice c 0 32) in
      let (known, timeout) = accepted_known now c am (ap is_accepted taken) in
      let still : find (be (slice d 0 32)) (cleanup_expired_challenges cleaned s).challenge_cache
          ≡ some now =
        ap (λ (x : List ℕ). find (be x) (cleanup_expired_challenges cleaned s).challenge_cache) same
        ∙ cleanup_known cleaned now k s known (omega (arith, timeout)) in
      let replayed : is_replayed later (be (slice d 0 32)) (cleanup_expired_challenges cleaned s)
          ≡ true =
        known_replayed later now (be (slice d 0 32)) (cleanup_expired_challenges cleaned s) still
          after (omega (arith, timeout)) in
      let long : ltb (length d) 88 ≡ false = ground (arith, full) in rw (long, replayed) refl
