-- ===== src/Auth/Dedup/Marks.antt =====
-- auth_protocol.go: what marking a nonce does to the answers of isDuplicate.
use udplex.Prelude.{
  ℕ, zero, suc, ◌*◌, ◌/◌, ◌%◌, ◌^◌, ◌≤◌, ◌<◌, ◌≡◌, ◌≢◌, refl, sym, ◌∙◌, ap, Bool, false, ◌||◌, ◌&&◌,
  Option, none, some, List, [], ◌∷◌, length, get_or, set, length-set, replicate, length-replicate,
  ltb, leb, ◌==◌, if◌then◌else◌, arith, inl, inr, Bool-cases, Option-cases,
}
use udplex.Prelude.Bits.{has_bit, bit_and-has_bit, has_bit-bit_or, has_bit_zero}
use udplex.Table.{find, put, number_key, find-put_self, find-put_other}
use udplex.Auth.Dedup.{
  bitmap_size, Nonce, FrameTracker, Dedup, tracker_of, set_bit, test_bit, mark_as_used,
  is_duplicate,
}
use Prim.Native.Nat.{bit_or}

get_or-set_self : (ws : List ℕ) (i v : ℕ) → i < length ws → get_or (set ws i v) i 0 ≡ v
get_or-set_self [] i v h = absurd (omega arith)
get_or-set_self (w ∷ ws) zero v h = refl
get_or-set_self (w ∷ ws) (suc i) v h = get_or-set_self ws i v (omega arith)

get_or-set_other : (ws : List ℕ) (i j v : ℕ) → i ≢ j → get_or (set ws i v) j 0 ≡ get_or ws j 0
get_or-set_other [] i j v d = refl
get_or-set_other (w ∷ ws) zero zero v d = absurd (d refl)
get_or-set_other (w ∷ ws) zero (suc j) v d = refl
get_or-set_other (w ∷ ws) (suc i) zero v d = refl
get_or-set_other (w ∷ ws) (suc i) (suc j) v d = get_or-set_other ws i j v (λ e. d (ap suc e))

test_bit-has_bit : (m : ℕ) (ws : List ℕ) → test_bit m ws ≡ has_bit (m % 64) (get_or ws (m / 64) 0)
unfolding test_bit
test_bit-has_bit m ws = ground (arith, bit_and-has_bit (m % 64) (get_or ws (m / 64) 0))

-- One bit of the map is set and every other bit stays.
test_bit-set_bit :
    (n m : ℕ) (ws : List ℕ)
    → n < 64 * length ws
    → test_bit m (set_bit n ws) ≡ (n == m || test_bit m ws)
unfolding set_bit
test_bit-set_bit n m ws h = elim (Bool-cases (n / 64 == m / 64)) [
  | inl e ↦
      let w = get_or ws (m / 64) 0 in
      let at : n / 64 ≡ m / 64 = ground arith in
      let new : get_or (set ws (n / 64) (bit_or (get_or ws (n / 64) 0) (2 ^ (n % 64)))) (m / 64) 0
          ≡ bit_or w (2 ^ (n % 64)) =
        rw at (get_or-set_self ws (m / 64) _ (omega (arith, at))) in
      let bit : (n % 64 == m % 64) ≡ (n == m) = ground (arith, at) in
      test_bit-has_bit m _
      ∙ ap (has_bit (m % 64)) new
      ∙ has_bit-bit_or (n % 64) (m % 64) w
      ∙ rw (bit, test_bit-has_bit m ws) refl
  | inr e ↦
      let apart : n / 64 ≢ m / 64 = ground arith in
      let differ : (n == m) ≡ false = ground arith in
      test_bit-has_bit m _
      ∙ ap (has_bit (m % 64)) (get_or-set_other ws (n / 64) (m / 64) _ apart)
      ∙ rw (differ, test_bit-has_bit m ws) refl
]

test_bit_fresh : (m k : ℕ) → test_bit m (replicate k 0) ≡ false
test_bit_fresh m k =
    test_bit-has_bit m (replicate k 0)
    ∙ ap (has_bit (m % 64)) (blank k (m / 64))
    ∙ has_bit_zero (m % 64)
  where
    blank : (k i : ℕ) → get_or {A = ℕ} (replicate k 0) i 0 ≡ 0
    blank zero i = refl
    blank (suc k) zero = refl
    blank (suc k) (suc i) = blank k i

unfoldable pub seen : Nonce → Option FrameTracker → Bool
seen m none = false
seen m (some t) = if leb bitmap_size m.seq then false else test_bit m.seq t.bitmap

pub is_duplicate-find :
    (m : Nonce) (d : Dedup) {o : Option FrameTracker}
    → find m.frame d.frames ≡ o
    → is_duplicate m d ≡ seen m o
unfolding is_duplicate seen
is_duplicate-find m d {o = none} e = rw (e, is_duplicate) refl
is_duplicate-find m d {o = some t} e = rw (e, is_duplicate) refl

-- Every frame has a bit for each of its sequence numbers.
unfoldable pub IsSized : Dedup → Type 0
IsSized d = (k : ℕ) (t : FrameTracker) → find k d.frames ≡ some t → length t.bitmap ≡ 1024

-- Frame `k`, if it is known, was used at `t` or later.
unfoldable pub IsFresh : ℕ → ℕ → Dedup → Type 0
IsFresh k t d = (x : FrameTracker) → find k d.frames ≡ some x → t ≤ x.last_access

module _ (now : ℕ) (n : Nonce) (d : Dedup) (v : IsSized d) where
  tracker-IsSized : length (tracker_of now n d).bitmap ≡ 1024
  unfolding tracker_of IsSized
  tracker-IsSized = elim (Option-cases (find n.frame d.frames)) [
    | inl e ↦ rw (e, tracker_of) (length-replicate {A = ℕ} 1024 0)
    | inr (t, e) ↦ rw (e, tracker_of) (v n.frame t e)
  ]

  -- The tracker after the mark.
  marked : FrameTracker
  unfolding mark_as_used
  marked =
      let t = record (tracker_of now n d) { last_access = now } in
      if leb bitmap_size n.seq then t else record t { bitmap = set_bit n.seq t.bitmap }

  -- Before the mark, a nonce of this frame is a duplicate when its bit is set.
  was_duplicate :
      (m : Nonce) → n.frame ≡ m.frame → is_duplicate m d ≡ seen m (some (tracker_of now n d))
  unfolding tracker_of seen
  was_duplicate m at = elim (Option-cases (find m.frame d.frames)) [
    | inl e ↦
        is_duplicate-find m d e ∙ rw (at, e, tracker_of) (ground (arith, test_bit_fresh m.seq 1024))
    | inr (t, e) ↦ is_duplicate-find m d e ∙ rw (at, e, tracker_of) refl
  ]

  now_duplicate :
      (m : Nonce)
      → seen m (some marked)
        ≡ ((n.seq == m.seq && ltb n.seq bitmap_size) || seen m (some (tracker_of now n d)))
  unfolding seen marked
  now_duplicate m =
      ground (arith, test_bit-set_bit n.seq m.seq (tracker_of now n d).bitmap, tracker-IsSized)

  -- Marking a nonce makes it a duplicate, if the map covers its number, and no other one.
  pub is_duplicate-mark_as_used :
      (m : Nonce)
      → is_duplicate m (mark_as_used now n d)
        ≡ ((n.frame == m.frame && (n.seq == m.seq && ltb n.seq bitmap_size)) || is_duplicate m d)
  unfolding mark_as_used marked
  is_duplicate-mark_as_used m = elim (Bool-cases (n.frame == m.frame)) [
    | inl e ↦
        let at : n.frame ≡ m.frame = ground arith in
        is_duplicate-find m (mark_as_used now n d) (
          ap (λ k. find k (put n.frame marked d.frames)) (sym at)
          ∙ find-put_self n.frame marked d.frames)
        ∙ now_duplicate m
        ∙ rw (e, was_duplicate m at) refl
    | inr e ↦
        is_duplicate-find m (mark_as_used now n d)
          (find-put_other m.frame n.frame marked d.frames e)
        ∙ sym (is_duplicate-find m d refl)
        ∙ rw e refl
  ]

  marked-IsSized : length marked.bitmap ≡ 1024
  unfolding marked set_bit
  marked-IsSized = ground (
    arith,
    tracker-IsSized,
    length-set (tracker_of now n d).bitmap (n.seq / 64)
        (bit_or (get_or (tracker_of now n d).bitmap (n.seq / 64) 0) (2 ^ (n.seq % 64))),
  )

  pub mark_as_used-IsSized : IsSized (mark_as_used now n d)
  unfolding IsSized mark_as_used marked set_bit
  mark_as_used-IsSized k t h = elim (Bool-cases (n.frame == k)) [
    | inl e ↦
        let at : n.frame ≡ k = ground arith in
        let same : some marked ≡ some t =
          sym (
            ap (λ x. find x (put n.frame marked d.frames)) (sym at)
            ∙ find-put_self n.frame marked d.frames)
          ∙ h in
        let size : length marked.bitmap ≡ 1024 = marked-IsSized in cc
    | inr e ↦ v k t (sym (find-put_other k n.frame marked d.frames e) ∙ h)
  ]

  pub mark_as_used-IsFresh :
      (k t : ℕ) → t ≤ now → IsFresh k t d → IsFresh k t (mark_as_used now n d)
  unfolding IsFresh mark_as_used marked
  mark_as_used-IsFresh k since le f x h = elim (Bool-cases (n.frame == k)) [
    | inl e ↦
        let at : n.frame ≡ k = ground arith in
        let same : some marked ≡ some x =
          sym (
            ap (λ x. find x (put n.frame marked d.frames)) (sym at)
            ∙ find-put_self n.frame marked d.frames)
          ∙ h in
        let last : marked.last_access ≡ now = ground arith in
        let eq : marked.last_access ≡ x.last_access = cc in omega (arith, eq, last)
    | inr e ↦ f x (sym (find-put_other k n.frame marked d.frames e) ∙ h)
  ]

pub mark-IsFresh : (now : ℕ) (n : Nonce) (d : Dedup) → IsFresh n.frame now (mark_as_used now n d)
unfolding IsFresh mark_as_used
mark-IsFresh now n d x h =
    let t = record (tracker_of now n d) { last_access = now } in
    let u : FrameTracker =
      if leb bitmap_size n.seq then t else record t { bitmap = set_bit n.seq t.bitmap } in
    let same : some u ≡ some x = sym (find-put_self n.frame u d.frames) ∙ h in
    let last : u.last_access ≡ now = ground arith in
    let eq : u.last_access ≡ x.last_access = cc in omega (arith, eq, last)
