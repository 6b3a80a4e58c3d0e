-- ===== src/Auth/Tests.antt =====
-- The authentication manager at concrete messages.
use udplex.Prelude.{
  ◌%◌, ◌++◌, replicate, ℕ, ◌≡◌, ◌<◌, ◌||◌, refl, ◌∙◌, true, false, none, some, List, [], ◌∷◌, arith,
}
use udplex.Table.{find, number_key}
use udplex.Auth.Dedup.{bitmap_size, Nonce, Dedup, next_nonce, mark_as_used, is_duplicate}
use udplex.Auth.Dedup.Marks.{seen, is_duplicate-find, is_duplicate-mark_as_used}
use udplex.Auth.Dedup.Replay.{
  Event, mark, cleanup, generate, run, within, all_within, apply, marks, empty-IsSized,
  replay_rejected, duplicate_was_marked,
}
use udplex.Auth.Dedup.Issue.{IsClean, next_nonce_new}
use udplex.Auth.Challenge.{
  Manager, accepted, refused, duplicate_challenge, create_auth_challenge, process_auth_challenge,
  is_replayed, same_bytes, cleanup_expired_challenges, accepted_once,
}
use udplex.Auth.Challenge.Handshake.{created_is_accepted}
use udplex.Wire.{be, be_from, slice}
use udplex.Wire.Header.{Header, parse_header}
use udplex.Autorate.Probe.{to_int64}
use udplex.Prelude.Int.{◌-ℤ◌}

abbrev start : Dedup
start = record { frames = []; current_frame = 7; current_seq = 0 }

abbrev nonce : Nonce
nonce = record { frame = 7; seq = 100 }

abbrev later : List Event
later =
    mark 2000 (record { frame = 7; seq = 101 })
    ∷ generate none
    ∷ cleanup 90_000_000_000
    ∷ mark 95_000_000_000 (record { frame = 8; seq = 100 })
    ∷ []

replay_rejected_example : is_duplicate nonce (run later (mark_as_used 1000 nonce start)) ≡ true
unfolding all_within within
replay_rejected_example =
    replay_rejected 1000 nonce later start (empty-IsSized 7 0) (omega arith) refl

is_marked : is_duplicate nonce (run (mark 1000 nonce ∷ []) start) ≡ true
unfolding run apply
is_marked = is_duplicate-mark_as_used 1000 nonce start (empty-IsSized 7 0) nonce

duplicate_was_marked_example :
    (marks nonce (mark 1000 nonce ∷ []) || is_duplicate nonce start) ≡ true
duplicate_was_marked_example =
    duplicate_was_marked nonce (mark 1000 nonce ∷ []) start (empty-IsSized 7 0) is_marked

start-IsClean : IsClean start
unfolding find seen
start-IsClean = record {
  sized = empty-IsSized 7 0;
  low = omega arith;
  unused = λ s le. is_duplicate-find (record { frame = 7; seq = s }) start refl ∙ refl;
}

abbrev first_nonce : Nonce
first_nonce = record { frame = 7; seq = 0 }

abbrev after_first : Dedup
after_first = record { frames = []; current_frame = 7; current_seq = 1 }

next_nonce_new_example :
    (first_nonce.seq < bitmap_size)
    × (is_duplicate first_nonce after_first ≡ false)
    × IsClean (mark_as_used 50 first_nonce after_first)
unfolding next_nonce
next_nonce_new_example =
    next_nonce_new 50 none first_nonce start after_first start-IsClean
      (λ id h. let gone : none ≡ some id = h in cc) refl

-- A MAC to run the examples with: the last byte of the message, in 32 bytes.
abbrev mac_of : List ℕ → List ℕ
mac_of x = be x % 256 ∷ replicate 31 0

abbrev server : Manager
server = record { auth_timeout = 30_000; challenge_cache = []; cleanup_pending = false }

abbrev drawn : List ℕ
drawn = replicate 32 3

abbrev forward_id : List ℕ
forward_id = replicate 8 1

abbrev pool_id : List ℕ
pool_id = replicate 8 2

created_is_accepted_example :
    (b : List ℕ) × (sent : Manager) × (h : Header) × (create_auth_challenge mac_of 1_000 drawn 1
        forward_id pool_id
        (replicate 100 0)
        server
      ≡ some (b, 96, sent))
    × (parse_header b ≡ some h)
    × (h.msg_type ≡ 1)
    × ((process_auth_challenge mac_of 1_010 (slice b 8 h.len) server).0
        ≡ accepted forward_id pool_id)
unfolding find
created_is_accepted_example =
    created_is_accepted mac_of (λ x. refl) 1_000 1_010 1 drawn forward_id pool_id (replicate 100 0)
      server server (omega arith)
      (record { challenge_size = refl; forward_size = refl; pool_size = refl }) (omega arith) refl
      (omega arith)

-- The payload of a challenge that was made at the millisecond 1000.
abbrev payload : List ℕ
payload =
    drawn ++ (forward_id ++ (pool_id ++ (0 ∷ 0 ∷ 0 ∷ 0 ∷ 0 ∷ 0 ∷ 3 ∷ 232 ∷ 232 ∷ replicate 31 0)))

accepted_once_example :
    (process_auth_challenge mac_of 2_000 payload (
      cleanup_expired_challenges mac_of 1_500
        (process_auth_challenge mac_of 1_010 payload server).1)).0
    ≡ refused duplicate_challenge
unfolding process_auth_challenge is_replayed same_bytes find be be_from slice to_int64 ◌-ℤ◌
accepted_once_example =
    accepted_once mac_of 1_010 1_500 2_000 payload payload forward_id pool_id server refl
      (omega arith) refl (omega arith) (omega arith) (omega arith)
