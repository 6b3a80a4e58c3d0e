-- ===== src/Autorate/Probe.antt =====
-- autorate.go: createProbe, createProbeAck and parseProbeAck. An instant is its UnixNano, an int64,
-- which travels as a uint64. A buffer that is too short for what is written, where Go panics, is `none`.
use udplex.Prelude.{
  ℕ, ◌+◌, ◌-◌, ◌%◌, ◌^◌, ◌≤◌, ◌<◌, ◌≡◌, refl, ap, ◌∙◌, false, ◌||◌, arith, Option, none, some, List,
  ◌++◌, length, length-append, length-drop, length-take, take, drop, ltb, if◌then◌else◌, ◌>>=◌,
}
use udplex.Prelude.Int.{ℤ, pos, negsuc, sub_ℕ, ltb_ℤ}
use udplex.Wire.{
  put_be, be, slice, be-put_be, length-put_be, slice-past, slice-first, slice-append, slice-take,
}
use udplex.Wire.Header.{header_size, write_header, write_header_room}

abbrev pub msg_probe : ℕ
msg_probe = 8

abbrev pub msg_probe_ack : ℕ
msg_probe_ack = 9

abbrev pub probe_payload_size : ℕ
probe_payload_size = 8

abbrev pub probe_ack_payload_size : ℕ
probe_ack_payload_size = 16

-- `uint64(x)` and `int64(x)`
pub to_uint64 : ℤ → ℕ
to_uint64 (pos n) = n % 2 ^ 64
to_uint64 (negsuc n) = 2 ^ 64 - 1 - n % 2 ^ 64

unfoldable pub to_int64 : ℕ → ℤ
to_int64 n = if ltb n (2 ^ 63) then pos n else negsuc (2 ^ 64 - 1 - n)

-- `a - b` on int64
pub sub_int64 : ℤ → ℤ → ℤ
unfolding to_uint64 to_int64
sub_int64 a b = to_int64 ((to_uint64 a + (2 ^ 64 - to_uint64 b)) % 2 ^ 64)

-- `binary.BigEndian.PutUint64(b[off:], x)`
pub put_uint64 : List ℕ → ℕ → ℕ → Option (List ℕ)
put_uint64 b off x =
    if ltb (length b) (off + 8) then none else some (take off b ++ (put_be 8 x ++ drop (off + 8) b))

-- The buffer afterwards and the size of the message.
pub create_probe : List ℕ → ℤ → Option (List ℕ × ℕ)
unfolding put_uint64
create_probe buffer now = do
  b ← write_header buffer msg_probe probe_payload_size
  c ← put_uint64 b header_size (to_uint64 now)
  some (c, header_size + probe_payload_size)

-- Size 0, and the buffer as it was, if the probe is malformed.
pub create_probe_ack : List ℕ → List ℕ → ℤ → Option (List ℕ × ℕ)
unfolding put_uint64
create_probe_ack buffer msg now =
    let sent = to_int64 (be (slice msg header_size 8)) in
    if ltb (length msg) (header_size + probe_payload_size) then some (buffer, 0) else do
      b ← write_header buffer msg_probe_ack probe_ack_payload_size
      c ← put_uint64 b header_size (to_uint64 sent)
      d ← put_uint64 c (header_size + 8) (to_uint64 (sub_int64 now sent))
      some (d, header_size + probe_ack_payload_size)

abbrev pub minute : ℕ
minute = 60_000_000_000

-- The peer's relative one-way delay and the round trip time.
pub parse_probe_ack : List ℕ → ℤ → Option (ℤ × ℤ)
parse_probe_ack msg now =
    let sent = to_int64 (be (slice msg header_size 8)) in
    let owd = to_int64 (be (slice msg (header_size + 8) 8)) in
    let rtt = sub_int64 now sent in
    if ltb (length msg) (header_size + probe_ack_payload_size)
    then none
    else if ltb_ℤ rtt (pos 0) || ltb_ℤ (pos minute) rtt
    then none
    else some (owd, rtt)

-- What a write of eight bytes does to a buffer that has room for them.
put_uint64_lem :
    (b : List ℕ) (off x : ℕ)
    → off + 8 ≤ length b
    → (c : List ℕ) × (put_uint64 b off x ≡ some c)
      × (length c ≡ length b)
      × (slice c off 8 ≡ put_be 8 x)
      × ((o : ℕ) → o + 8 ≤ off → slice c o 8 ≡ slice b o 8)
unfolding put_uint64
put_uint64_lem b off x h =
    let tail = put_be 8 x ++ drop (off + 8) b in
    let n : length (take off b) ≡ off = omega (arith, length-take off b) in
    (
      take off b ++ tail,
      ground (arith, h),
      omega (
        arith,
        length-append (take off b) tail,
        length-append (put_be 8 x) (drop (off + 8) b),
        length-put_be 8 x,
        length-drop (off + 8) b,
        n,
      ),
      slice-past (take off b) tail off 0 off 8 n (omega arith)
          ∙ slice-first (put_be 8 x) (drop (off + 8) b) 8 (length-put_be 8 x),
      λ o k. slice-append (take off b) tail o 8 (omega (arith, n)) ∙ slice-take off b o 8 k,
    )

pub to_int64_small : (n : ℕ) → n < 2 ^ 63 → to_int64 n ≡ pos n
unfolding to_int64
to_int64_small n h = ground (arith, h)

-- An instant that is not negative survives the two conversions, and so does a difference of two.
int64-uint64 : (n : ℕ) → n < 2 ^ 63 → to_int64 (to_uint64 (pos n)) ≡ pos n
unfolding to_int64 to_uint64
int64-uint64 n h = ground (arith, h)

sub_int64_lem : (a b : ℕ) → a < 2 ^ 63 → b < 2 ^ 63 → sub_int64 (pos a) (pos b) ≡ sub_ℕ a b
unfolding sub_int64 to_int64 to_uint64
sub_int64_lem a b h k = ground (arith, h, k)

uint64_diff : (a b : ℕ) → a < 2 ^ 63 → b < 2 ^ 63 → to_int64 (to_uint64 (sub_ℕ a b)) ≡ sub_ℕ a b
unfolding to_int64 to_uint64
uint64_diff a b h k = ground (arith, h, k)

to_uint64_bound : (a : ℤ) → to_uint64 a < 256 ^ 8
unfolding to_uint64
to_uint64_bound (pos n) = omega arith
to_uint64_bound (negsuc n) = omega arith

read_uint64 :
    (c : List ℕ) (off : ℕ) (x : ℤ)
    → slice c off 8 ≡ put_be 8 (to_uint64 x)
    → be (slice c off 8) ≡ to_uint64 x
read_uint64 c off x e = ap be e ∙ be-put_be 8 (to_uint64 x) (to_uint64_bound x)

create_probe_lem :
    (buffer : List ℕ) (t : ℤ)
    → 16 ≤ length buffer
    → (b : List ℕ) × (create_probe buffer t ≡ some (b, 16))
      × (length b ≡ length buffer)
      × (be (slice b 8 8) ≡ to_uint64 t)
unfolding create_probe
create_probe_lem buffer t h =
    let w = write_header_room buffer msg_probe probe_payload_size (omega arith) in
    let p = put_uint64_lem w.0 8 (to_uint64 t) (omega (arith, w.2)) in
    (p.0, rw (w.1, p.1) refl, omega (arith, p.2, w.2), read_uint64 p.0 8 t p.3)

create_probe_ack_lem :
    (buffer msg : List ℕ) (sent now : ℤ)
    → 24 ≤ length buffer
    → 16 ≤ length msg
    → to_int64 (be (slice msg 8 8)) ≡ sent
    → (b : List ℕ) × (create_probe_ack buffer msg now ≡ some (b, 24))
      × (length b ≡ length buffer)
      × (be (slice b 8 8) ≡ to_uint64 sent)
      × (be (slice b 16 8) ≡ to_uint64 (sub_int64 now sent))
unfolding create_probe_ack
create_probe_ack_lem buffer msg sent now h k e =
    let long : ltb (length msg) 16 ≡ false = ground (arith, k) in
    let w = write_header_room buffer msg_probe_ack probe_ack_payload_size (omega arith) in
    let p = put_uint64_lem w.0 8 (to_uint64 sent) (omega (arith, w.2)) in
    let q = put_uint64_lem p.0 16 (to_uint64 (sub_int64 now sent)) (omega (arith, p.2, w.2)) in
    (
      q.0,
      rw (long, e, w.1, p.1, q.1) refl,
      omega (arith, q.2, p.2, w.2),
      read_uint64 q.0 8 sent (q.4 8 (omega arith) ∙ p.3),
      read_uint64 q.0 16 (sub_int64 now sent) q.3,
    )

-- A probe that one host creates at t0, whose ack the peer creates at t1 of its own clock, and which
-- comes back at t2, at most a minute later, yields the peer's clock minus t0 and the time since t0,
-- whatever stood in the two buffers, which have room for the messages, if the clocks are below 2^63.
pub parse-create_probe_ack :
    (buffer buffer' : List ℕ) (t0 t1 t2 : ℕ)
    → 16 ≤ length buffer
    → 24 ≤ length buffer'
    → t1 < 2 ^ 63
    → t2 < 2 ^ 63
    → t0 ≤ t2
    → t2 ≤ t0 + minute
    → (probe : List ℕ) × (ack : List ℕ) × (create_probe buffer (pos t0) ≡ some (probe, 16))
      × (create_probe_ack buffer' (take 16 probe) (pos t1) ≡ some (ack, 24))
      × (parse_probe_ack (take 24 ack) (pos t2) ≡ some (sub_ℕ t1 t0, pos (t2 - t0)))
unfolding parse_probe_ack
parse-create_probe_ack buffer buffer' t0 t1 t2 h h' k1 k2 early soon =
    let a = create_probe_lem buffer (pos t0) h in
    let sent : to_int64 (be (slice (take 16 a.0) 8 8)) ≡ pos t0 =
      ap (λ b. to_int64 (be b)) (slice-take 16 a.0 8 8 (omega arith))
      ∙ ap to_int64 a.3
      ∙ int64-uint64 t0 (omega arith) in
    let b =
      create_probe_ack_lem buffer' (take 16 a.0) (pos t0) (pos t1) h'
        (omega (arith, length-take 16 a.0, a.2)) sent in
    let back : to_int64 (be (slice (take 24 b.0) 8 8)) ≡ pos t0 =
      ap (λ c. to_int64 (be c)) (slice-take 24 b.0 8 8 (omega arith))
      ∙ ap to_int64 b.3
      ∙ int64-uint64 t0 (omega arith) in
    let owd : to_int64 (be (slice (take 24 b.0) 16 8)) ≡ sub_ℕ t1 t0 =
      ap (λ c. to_int64 (be c)) (slice-take 24 b.0 16 8 (omega arith))
      ∙ ap to_int64 b.4
      ∙ ap (λ x. to_int64 (to_uint64 x)) (sub_int64_lem t1 t0 k1 (omega arith))
      ∙ uint64_diff t1 t0 k1 (omega arith) in
    let rtt : sub_int64 (pos t2) (pos t0) ≡ pos (t2 - t0) =
      sub_int64_lem t2 t0 k2 (omega arith) ∙ ground (arith, early) in
    let long : ltb (length (take 24 b.0)) 24 ≡ false = ground (arith, length-take 24 b.0, b.2) in
    (a.0, b.0, a.1, b.1, rw (long, back, owd, rtt) (ground (arith, early, soon)))
