-- ===== src/Auth/Dedup/Replay.antt =====
-- auth_protocol.go: which nonces DeduplicationManager takes for replayed ones, after any run of its
-- operations, cleanups included.
use udplex.Prelude.{
  ℕ, ◌+◌, ◌-◌, ◌≤◌, ◌<◌, ◌≡◌, refl, sym, ◌∙◌, ap, Bool, true, false, not, ◌||◌, ◌&&◌, Option, none,
  some, List, [], ◌∷◌, ltb, leb, ◌==◌, if◌then◌else◌, arith, inl, inr, Bool-cases, Option-cases,
}
use udplex.Table.{find, number_key, find-keep}
use udplex.Auth.Dedup.{
  bitmap_size, frame_timeout, Nonce, FrameTracker, Dedup, issue, next_nonce, mark_as_used,
  is_duplicate, cleanup_expired_frames,
}
use udplex.Auth.Dedup.Marks.{
  seen, is_duplicate-find, IsSized, IsFresh, is_duplicate-mark_as_used, mark_as_used-IsSized,
  mark_as_used-IsFresh, mark-IsFresh,
}

pub data Event : Type 0 where
  mark : ℕ → Nonce → Event
  cleanup : ℕ → Event
  generate : Option ℕ → Event

unfoldable pub apply : Event → Dedup → Dedup
apply (mark now n) d = mark_as_used now n d
apply (cleanup now) d = cleanup_expired_frames now d
apply (generate fresh) d = (next_nonce fresh d).1

unfoldable pub run : List Event → Dedup → Dedup
unfolding apply
run [] d = d
run (e ∷ es) d = run es (apply e d)

-- The event happens after time `t`, and a cleanup not more than the frame timeout after it.
unfoldable pub within : ℕ → Event → Bool
within t (mark now n) = leb t now
within t (cleanup now) = leb now (t + frame_timeout)
within t (generate fresh) = true

unfoldable pub all_within : ℕ → List Event → Bool
unfolding within
all_within t [] = true
all_within t (e ∷ es) = within t e && all_within t es

-- The random source has no part in the frames.
generate-frames : (fresh : Option ℕ) (d : Dedup) → (next_nonce fresh d).1.frames ≡ d.frames
unfolding next_nonce issue
generate-frames none d = ground arith
generate-frames (some id) d = ground arith

module _ (now : ℕ) (d : Dedup) where
  young : FrameTracker → Bool
  young t = not (ltb t.last_access (now - frame_timeout))

  sift : Option FrameTracker → Option FrameTracker
  sift none = none
  sift (some t) = if young t then some t else none

  cleanup_find : (k : ℕ) → find k (cleanup_expired_frames now d).frames ≡ sift (find k d.frames)
  unfolding cleanup_expired_frames young sift
  cleanup_find k = elim (Option-cases (find k d.frames)) [
    | inl e ↦ find-keep young k d.frames ∙ rw e refl
    | inr (t, e) ↦ find-keep young k d.frames ∙ rw e refl
  ]

  sift_back : (o : Option FrameTracker) (t : FrameTracker) → sift o ≡ some t → o ≡ some t
  unfolding sift
  sift_back none t h = h
  sift_back (some x) t h = elim (Bool-cases (young x)) [
    | inl y ↦ sym (rw y refl) ∙ h
    | inr y ↦ let gone : none ≡ some t = sym (rw y refl) ∙ h in cc
  ]

  -- A cleanup only forgets, and not the frames that were used lately.
  cleanup_forgets :
      (k : ℕ) (t : FrameTracker)
      → find k (cleanup_expired_frames now d).frames ≡ some t
      → find k d.frames ≡ some t
  cleanup_forgets k t h = sift_back (find k d.frames) t (sym (cleanup_find k) ∙ h)

  cleanup_keeps :
      (k : ℕ) (t : FrameTracker)
      → find k d.frames ≡ some t
      → now ≤ t.last_access + frame_timeout
      → find k (cleanup_expired_frames now d).frames ≡ some t
  unfolding sift young
  cleanup_keeps k t h le =
      let kept : ltb t.last_access (now - frame_timeout) ≡ false = ground arith in
      cleanup_find k ∙ rw (h, sift, kept) refl

  cleanup-IsSized : IsSized d → IsSized (cleanup_expired_frames now d)
  unfolding IsSized
  cleanup-IsSized v k t h = v k t (cleanup_forgets k t h)

  cleanup-IsFresh : (k t : ℕ) → IsFresh k t d → IsFresh k t (cleanup_expired_frames now d)
  unfolding IsFresh
  cleanup-IsFresh k t f x h = f x (cleanup_forgets k x h)

  -- A cleanup makes no nonce a duplicate, and none of a frame that was used lately is forgotten.
  cleanup_no_more :
      (n : Nonce) → is_duplicate n (cleanup_expired_frames now d) ≡ true → is_duplicate n d ≡ true
  unfolding seen
  cleanup_no_more n h = elim (Option-cases (find n.frame (cleanup_expired_frames now d).frames)) [
    | inl e ↦ let gone : false ≡ true = sym (is_duplicate-find n _ e) ∙ h in cc
    | inr (t, e) ↦
        is_duplicate-find n d (cleanup_forgets n.frame t e) ∙ sym (is_duplicate-find n _ e) ∙ h
  ]

  cleanup_no_less :
      (n : Nonce) (t : ℕ)
      → IsFresh n.frame t d
      → now ≤ t + frame_timeout
      → is_duplicate n d ≡ true
      → is_duplicate n (cleanup_expired_frames now d) ≡ true
  unfolding IsFresh seen
  cleanup_no_less n t f le h = elim (Option-cases (find n.frame d.frames)) [
    | inl e ↦ let gone : false ≡ true = sym (is_duplicate-find n d e) ∙ h in cc
    | inr (x, e) ↦
        is_duplicate-find n _ (cleanup_keeps n.frame x e (omega (arith, f x e)))
        ∙ sym (is_duplicate-find n d e)
        ∙ h
  ]

-- What holds from the mark on: the nonce is known and its frame was used since.
record IsKnown (n : Nonce) (t : ℕ) (d : Dedup) : Type 0 where
  sized : IsSized d
  fresh : IsFresh n.frame t d
  known : is_duplicate n d ≡ true

generate_same :
    (fresh : Option ℕ) (n : Nonce) (d : Dedup)
    → is_duplicate n (next_nonce fresh d).1 ≡ is_duplicate n d
generate_same fresh n d =
    is_duplicate-find n (next_nonce fresh d).1 (ap (find n.frame) (generate-frames fresh d))
    ∙ sym (is_duplicate-find n d refl)

generate-IsSized : (fresh : Option ℕ) (d : Dedup) → IsSized d → IsSized (next_nonce fresh d).1
unfolding IsSized
generate-IsSized fresh d v k t h = v k t (sym (ap (find k) (generate-frames fresh d)) ∙ h)

generate-IsFresh :
    (fresh : Option ℕ) (d : Dedup) (k t : ℕ) → IsFresh k t d → IsFresh k t (next_nonce fresh d).1
unfolding IsFresh
generate-IsFresh fresh d k t f x h = f x (sym (ap (find k) (generate-frames fresh d)) ∙ h)

apply-IsSized : (e : Event) (d : Dedup) → IsSized d → IsSized (apply e d)
unfolding apply
apply-IsSized (mark now m) d v = mark_as_used-IsSized now m d v
apply-IsSized (cleanup now) d v = cleanup-IsSized now d v
apply-IsSized (generate fresh) d v = generate-IsSized fresh d v

apply-IsKnown :
    (n : Nonce) (t : ℕ) (e : Event) (d : Dedup)
    → within t e ≡ true
    → IsKnown n t d
    → IsKnown n t (apply e d)
unfolding apply within
apply-IsKnown n t (mark now m) d h v = record {
  sized = mark_as_used-IsSized now m d v.sized;
  fresh = mark_as_used-IsFresh now m d v.sized n.frame t (ground arith) v.fresh;
  known = is_duplicate-mark_as_used now m d v.sized n ∙ rw v.known (ground arith);
}
apply-IsKnown n t (cleanup now) d h v = record {
  sized = cleanup-IsSized now d v.sized;
  fresh = cleanup-IsFresh now d n.frame t v.fresh;
  known = cleanup_no_less now d n t v.fresh (ground arith) v.known;
}
apply-IsKnown n t (generate fresh) d h v = record {
  sized = generate-IsSized fresh d v.sized;
  fresh = generate-IsFresh fresh d n.frame t v.fresh;
  known = generate_same fresh n d ∙ v.known;
}

run-IsKnown :
    (n : Nonce) (t : ℕ) (es : List Event) (d : Dedup)
    → all_within t es ≡ true
    → IsKnown n t d
    → IsKnown n t (run es d)
unfolding run all_within
run-IsKnown n t [] d h v = v
run-IsKnown n t (e ∷ es) d h v =
    run-IsKnown n t es (apply e d) (ground arith) (apply-IsKnown n t e d (ground arith) v)

run-IsSized : (es : List Event) (d : Dedup) → IsSized d → IsSized (run es d)
unfolding run
run-IsSized [] d v = v
run-IsSized (e ∷ es) d v = run-IsSized es (apply e d) (apply-IsSized e d v)

pub empty-IsSized :
    (id seq : ℕ) → IsSized (record { frames = []; current_frame = id; current_seq = seq })
unfolding IsSized find
empty-IsSized id seq k t h = let gone : none ≡ some t = h in cc

-- A nonce that was marked as used at time `now`, with a sequence number that the bit map covers, is
-- a duplicate after any further operations of the manager, if no event is older than the mark and
-- no cleanup runs later than the frame timeout (two minutes) after it.
pub replay_rejected :
    (now : ℕ) (n : Nonce) (es : List Event) (d : Dedup)
    → IsSized d
    → n.seq < bitmap_size
    → all_within now es ≡ true
    → is_duplicate n (run es (mark_as_used now n d)) ≡ true
replay_rejected now n es d v low h =
    (run-IsKnown n now es (mark_as_used now n d) h (record {
      sized = mark_as_used-IsSized now n d v;
      fresh = mark-IsFresh now n d;
      known = is_duplicate-mark_as_used now n d v n ∙ ground arith;
    })).known

-- Whether one of the events marks this nonce as used.
pub marks : Nonce → List Event → Bool
marks n [] = false
marks n (mark now m ∷ es) = (m.frame == n.frame && m.seq == n.seq) || marks n es
marks n (cleanup now ∷ es) = marks n es
marks n (generate fresh ∷ es) = marks n es

-- A nonce that is a duplicate after a run was one before it, or the run marked it: no nonce that
-- was never used is rejected.
pub duplicate_was_marked :
    (n : Nonce) (es : List Event) (d : Dedup)
    → IsSized d
    → is_duplicate n (run es d) ≡ true
    → (marks n es || is_duplicate n d) ≡ true
unfolding run apply marks
duplicate_was_marked n [] d v h = h
duplicate_was_marked n (mark now m ∷ es) d v h = ground (
  arith,
  duplicate_was_marked n es (mark_as_used now m d) (mark_as_used-IsSized now m d v) h,
  is_duplicate-mark_as_used now m d v n,
)
duplicate_was_marked n (cleanup now ∷ es) d v h = ground (
  arith,
  duplicate_was_marked n es (cleanup_expired_frames now d) (cleanup-IsSized now d v) h,
  cleanup_no_more now d n,
)
duplicate_was_marked n (generate fresh ∷ es) d v h = ground (
  arith,
  duplicate_was_marked n es (next_nonce fresh d).1 (generate-IsSized fresh d v) h,
  generate_same fresh n d,
)
