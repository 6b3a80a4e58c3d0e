-- ===== src/Auth/Dedup.antt =====
-- auth_protocol.go: DeduplicationManager. Times are nanoseconds; an 8-byte frame id is the number
-- that it spells.
pub mod Marks
pub mod Replay
pub mod Issue
use udplex.Prelude.{
  ℕ, suc, ◌+◌, ◌-◌, ◌*◌, ◌/◌, ◌%◌, ◌^◌, ◌≡◌, refl, Bool, true, false, not, Option, none, some, List,
  [], ◌∷◌, length, get_or, set, replicate, ltb, leb, ◌==◌, if◌then◌else◌,
}
use udplex.Table.{find, put, keep, number_key}
use Prim.Native.Nat.{bit_and, bit_or}

abbrev pub bitmap_size : ℕ
bitmap_size = 65535

abbrev pub frame_timeout : ℕ
frame_timeout = 120000000000

-- The 12 bytes of a nonce: the frame id, then the sequence number.
pub record Nonce : Type 0 where
  pub frame : ℕ
  pub seq : ℕ

pub record FrameTracker : Type 0 where
  pub frame_id : ℕ
  pub bitmap : List ℕ
  pub last_access : ℕ

pub record Dedup : Type 0 where
  pub frames : List (ℕ × FrameTracker)
  pub current_frame : ℕ
  pub current_seq : ℕ

issue : Dedup → Option Nonce × Dedup
issue d = (
  some (record { frame = d.current_frame; seq = d.current_seq }),
  record d { current_seq = (d.current_seq + 1) % 2 ^ 32 },
)

-- generateNextNonce. `fresh` is what the random source gives, if it does.
unfoldable pub next_nonce : Option ℕ → Dedup → Option Nonce × Dedup
unfolding issue
next_nonce fresh d =
    if ltb (bitmap_size - 1) d.current_seq
    then elim fresh [
      | none ↦ (none, d)
      | some id ↦ issue (record d { current_frame = id; current_seq = 0 })
    ]
    else issue d

-- The tracker that markAsUsed goes on with.
pub tracker_of : ℕ → Nonce → Dedup → FrameTracker
tracker_of now n d = elim (find n.frame d.frames) [
  | none ↦ record {
    frame_id = n.frame;
    bitmap = replicate ((bitmap_size + 63) / 64) 0;
    last_access = now;
  }
  | some t ↦ t
]

-- `bitmap[wordIndex] |= 1 << bitIndex`
pub set_bit : ℕ → List ℕ → List ℕ
set_bit seq words = set words (seq / 64) (bit_or (get_or words (seq / 64) 0) (2 ^ (seq % 64)))

-- `bitmap[wordIndex]&(1<<bitIndex) != 0`
pub test_bit : ℕ → List ℕ → Bool
test_bit seq words = not (bit_and (get_or words (seq / 64) 0) (2 ^ (seq % 64)) == 0)

pub mark_as_used : ℕ → Nonce → Dedup → Dedup
mark_as_used now n d =
    let t = record (tracker_of now n d) { last_access = now } in
    record d {
      frames =
          put n.frame
            (if leb bitmap_size n.seq then t else record t { bitmap = set_bit n.seq t.bitmap })
            d.frames;
    }

unfoldable pub is_duplicate : Nonce → Dedup → Bool
is_duplicate n d = elim (find n.frame d.frames) [
  | none ↦ false
  | some t ↦ if leb bitmap_size n.seq then false else test_bit n.seq t.bitmap
]

pub cleanup_expired_frames : ℕ → Dedup → Dedup
cleanup_expired_frames now d = record d {
  frames = keep (λ t. not (ltb t.last_access (now - frame_timeout))) d.frames;
}
