-- ===== src/Heartbeat/Buckets.antt =====
-- heartbeat_tracker.go: the ring of minute buckets beside the minutes that were noted.
use udplex.Prelude.{
  ℕ, zero, suc, ◌+◌, ◌/◌, ◌%◌, ◌^◌, ◌≤◌, ◌<◌, ◌≡◌, refl, ◌∙◌, Bool, true, ◌&&◌, List, [], ◌∷◌, ◌⊎◌,
  inl, inr, length, length-set, get_or, set, replicate, length-replicate, leb, ◌==◌, if◌then◌else◌,
  arith, Bool-cases,
}
use udplex.Heartbeat.{
  bucket_count, pack_bucket, unpack_bucket, minute_index, next_bucket, increment_bucket, counted,
  count_in_range,
}

-- The notes at the given minutes, in order.
pub note_all : List ℕ → List ℕ → List ℕ
note_all [] buckets = buckets
note_all (m ∷ ms) buckets = note_all ms (increment_bucket m buckets)

-- How many of the minutes lie in the range.
pub minutes_in_range : ℕ → ℕ → List ℕ → ℕ
minutes_in_range cutoff now [] = 0
minutes_in_range cutoff now (m ∷ ms) =
    (if leb cutoff m && leb m now then 1 else 0) + minutes_in_range cutoff now ms

-- The clock does not go back: each minute is at least the one before it, the first at least `m`.
unfoldable pub ascending : ℕ → List ℕ → Bool
ascending m [] = true
ascending m (k ∷ ks) = leb m k && ascending k ks

-- No minute is later than `b`.
unfoldable pub all_until : ℕ → List ℕ → Bool
all_until b [] = true
all_until b (m ∷ ms) = leb m b && all_until b ms

-- The bucket of index `i` holds no count, or that of a minute of its index, not later than `m`;
-- no count is over `n`.
pub record IsRing (m n : ℕ) (buckets : List ℕ) : Type 0 where
  pub size : length buckets ≡ bucket_count
  pub index :
      (i : ℕ) → (get_or buckets i 0 ≡ 0) ⊎ ((get_or buckets i 0 / 2 ^ 32) % bucket_count ≡ i)
  pub latest : (i : ℕ) → get_or buckets i 0 / 2 ^ 32 ≤ m
  pub few : (i : ℕ) → get_or buckets i 0 % 2 ^ 32 ≤ n

count-set :
    (a b : ℕ) (bs : List ℕ) (i v : ℕ)
    → i < length bs
    → count_in_range a b (set bs i v) + counted a b (get_or bs i 0)
      ≡ count_in_range a b bs + counted a b v
unfolding count_in_range
count-set a b [] i v h = absurd (omega arith)
count-set a b (x ∷ xs) zero v h = omega arith
count-set a b (x ∷ xs) (suc i) v h = omega (arith, count-set a b xs i v (omega arith))

get_or-set :
    (bs : List ℕ) (i j v : ℕ)
    → i < length bs
    → get_or (set bs i v) j 0 ≡ (if i == j then v else get_or bs j 0)
get_or-set [] i j v h = absurd (omega arith)
get_or-set (x ∷ xs) zero zero v h = refl
get_or-set (x ∷ xs) zero (suc j) v h = ground arith
get_or-set (x ∷ xs) (suc i) zero v h = ground arith
get_or-set (x ∷ xs) (suc i) (suc j) v h = ground (arith, get_or-set xs i j v (omega arith))

-- One note: `m` is not before any minute of the ring.
module _ (m k n : ℕ) (bs : List ℕ) (v : IsRing k n bs) (after : k ≤ m) (low : m < 2 ^ 32)
    (room : suc n < 2 ^ 32) where
  old : ℕ
  old = get_or bs (m % bucket_count) 0

  new : ℕ
  unfolding next_bucket pack_bucket unpack_bucket old
  new = next_bucket m old

  new_minute : new / 2 ^ 32 ≡ m
  unfolding new
  new_minute = ground (arith, v.few (m % bucket_count))

  new_count : new % 2 ^ 32 ≡ (if old / 2 ^ 32 == m then old % 2 ^ 32 + 1 else 1)
  unfolding new
  new_count = ground (arith, v.few (m % bucket_count))

  increment-IsRing : IsRing m (suc n) (increment_bucket m bs)
  unfolding increment_bucket minute_index new old
  increment-IsRing = record {
    size = length-set bs (m % bucket_count) new ∙ v.size;
    index = λ i. elim (Bool-cases (m % bucket_count == i)) [
      | inl e ↦
          let here : get_or (set bs (m % bucket_count) new) i 0 ≡ new =
            get_or-set bs (m % bucket_count) i new (omega (arith, v.size)) ∙ rw e refl in
          let at : m % bucket_count ≡ i = ground arith in inr (omega (arith, here, new_minute, at))
      | inr e ↦
          let other : get_or (set bs (m % bucket_count) new) i 0 ≡ get_or bs i 0 =
            get_or-set bs (m % bucket_count) i new (omega (arith, v.size)) ∙ rw e refl in
          elim (v.index i) [ inl z ↦ inl (other ∙ z) | inr z ↦ inr (omega (arith, other, z)) ]
    ];
    latest = λ i. ground (
      arith,
      get_or-set bs (m % bucket_count) i new (omega (arith, v.size)),
      new_minute,
      v.latest i,
    );
    few = λ i. ground (
      arith,
      get_or-set bs (m % bucket_count) i new (omega (arith, v.size)),
      new_count,
      v.few i,
      v.few (m % bucket_count),
    );
  }

  -- What stood in the bucket before is of the same minute or too old for the range.
  counted-new :
      (a b : ℕ)
      → m ≤ b
      → b < a + bucket_count
      → counted a b new ≡ counted a b old + (if leb a m && leb m b then 1 else 0)
  unfolding counted unpack_bucket old
  counted-new a b le wide = elim (v.index (m % bucket_count)) [
    | inl z ↦ ground (arith, new_minute, new_count)
    | inr z ↦ ground (arith, new_minute, new_count, v.latest (m % bucket_count))
  ]

  count-increment :
      (a b : ℕ)
      → m ≤ b
      → b < a + bucket_count
      → count_in_range a b (increment_bucket m bs)
        ≡ count_in_range a b bs + (if leb a m && leb m b then 1 else 0)
  unfolding increment_bucket minute_index new old
  count-increment a b le wide = omega (
    arith,
    count-set a b bs (m % bucket_count) new (omega (arith, v.size)),
    counted-new a b le wide,
  )

-- On a ring that is not newer than the notes, the notes of a clock that does not go back are counted
-- exactly in every range of less than a day that no note is later than: no count is lost when a
-- bucket is used again. Minutes and counts stay below 2^32.
pub count-note_all :
    (a b k n : ℕ) (ms bs : List ℕ)
    → IsRing k n bs
    → ascending k ms ≡ true
    → all_until b ms ≡ true
    → b < a + bucket_count
    → b < 2 ^ 32
    → n + length ms < 2 ^ 32
    → count_in_range a b (note_all ms bs) ≡ count_in_range a b bs + minutes_in_range a b ms
unfolding note_all minutes_in_range ascending all_until
count-note_all a b k n [] bs v up until wide low room = omega arith
count-note_all a b k n (m ∷ ms) bs v up until wide low room =
    let after : k ≤ m = ground arith in
    let le : m ≤ b = ground arith in
    let v' = increment-IsRing m k n bs v after (omega arith) (omega arith) in
    omega (
      arith,
      count-note_all a b m (suc n) ms (increment_bucket m bs) v' (ground arith) (ground arith) wide
          low (omega arith),
      count-increment m k n bs v after (omega arith) (omega arith) a b le wide,
    )

get_or-replicate : (n i : ℕ) → get_or {A = ℕ} (replicate n 0) i 0 ≡ 0
get_or-replicate zero i = refl
get_or-replicate (suc n) zero = refl
get_or-replicate (suc n) (suc i) = get_or-replicate n i

pub empty-IsRing : IsRing 0 0 (replicate bucket_count 0)
empty-IsRing = record {
  size = length-replicate {A = ℕ} bucket_count 0;
  index = λ i. inl (get_or-replicate bucket_count i);
  latest = λ i. omega (arith, get_or-replicate bucket_count i);
  few = λ i. omega (arith, get_or-replicate bucket_count i);
}
