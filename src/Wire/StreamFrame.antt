-- ===== src/Wire/StreamFrame.antt =====
-- tcp_stream.go: parseTcpFrame and putTcpFrame.
use udplex.Prelude.{
  ℕ, ◌+◌, ◌-◌, ◌^◌, ◌≤◌, ◌<◌, ◌≡◌, refl, sym, ◌∙◌, ap, false, not, ◌||◌, append_assoc, Option, none,
  some, List, ◌++◌, arith, length, length-append, drop, take, ltb, ◌==◌, if◌then◌else◌,
}
use udplex.Wire.{
  put_be, be, slice, length-put_be, read_be, skip_be, take-all, take-exact, drop-past,
}

abbrev pub magic : ℕ
magic = 0x55585453

abbrev pub stream_header_size : ℕ
stream_header_size = 36

-- tcpFrame: the type and the flags are bytes.
pub record WireFrame : Type 0 where
  pub typ : ℕ
  pub flags : ℕ
  pub id : ℕ
  pub seq : ℕ
  pub ack : ℕ
  pub wnd : ℕ
  pub payload : List ℕ

-- A single byte `b[i]` is the slice of one byte.
abbrev byte_at : List ℕ → ℕ → ℕ
byte_at b i = be (slice b i 1)

fields_of : List ℕ → WireFrame
fields_of b = record {
  typ = byte_at b 4;
  flags = byte_at b 5;
  id = be (slice b 8 8);
  seq = be (slice b 16 8);
  ack = be (slice b 24 8);
  wnd = be (slice b 32 4);
  payload = drop stream_header_size b;
}

pub parse_frame : List ℕ → Option WireFrame
unfolding fields_of
parse_frame b =
    if ltb (length b) stream_header_size
    then none
    else if not (be (slice b 0 4) == magic)
    then none
    else if ltb (byte_at b 4) 1 || ltb 5 (byte_at b 4)
    then none
    else some (fields_of b)

pub header_of : WireFrame → List ℕ
header_of f =
    put_be 4 magic
    ++ (put_be 1 f.typ
        ++ (put_be 1 f.flags
            ++ (put_be 2 0
                ++ (put_be 8 f.id ++ (put_be 8 f.seq ++ (put_be 8 f.ack ++ put_be 4 f.wnd))))))

-- The buffer after the writes, and the number of bytes that the frame takes up; a payload that does
-- not fit is cut. On a buffer that is too short for the header Go panics (`none`).
pub put_frame : List ℕ → WireFrame → Option (List ℕ × ℕ)
put_frame b f =
    if ltb (length b) stream_header_size
    then none
    else let body = take (length b - stream_header_size) f.payload in
      some (
        header_of f ++ (body ++ drop (stream_header_size + length body) b),
        stream_header_size + length body,
      )

-- The frame's fields fit the bytes that they are written to.
pub record IsEncodable (f : WireFrame) : Type 0 where
  pub typ_low : 1 ≤ f.typ
  pub typ_high : f.typ ≤ 5
  pub flags : f.flags < 256
  pub id : f.id < 2 ^ 64
  pub seq : f.seq < 2 ^ 64
  pub ack : f.ack < 2 ^ 64
  pub wnd : f.wnd < 2 ^ 32

-- The fields one behind the other, with what follows.
module _ (f : WireFrame) (v : IsEncodable f) (rest : List ℕ) where
  r7 : List ℕ
  r7 = put_be 4 f.wnd ++ rest

  r6 : List ℕ
  unfolding r7
  r6 = put_be 8 f.ack ++ r7

  r5 : List ℕ
  unfolding r6
  r5 = put_be 8 f.seq ++ r6

  r4 : List ℕ
  unfolding r5
  r4 = put_be 8 f.id ++ r5

  r3 : List ℕ
  unfolding r4
  r3 = put_be 2 0 ++ r4

  r2 : List ℕ
  unfolding r3
  r2 = put_be 1 f.flags ++ r3

  r1 : List ℕ
  unfolding r2
  r1 = put_be 1 f.typ ++ r2

  layout : List ℕ
  unfolding r1
  layout = put_be 4 magic ++ r1

  layout_lem : header_of f ++ rest ≡ layout
  unfolding layout header_of
  layout_lem = simp append_assoc

  skip1 : (off n k : ℕ) → off ≡ 4 + k → slice layout off n ≡ slice r1 k n
  unfolding layout
  skip1 = skip_be 4 magic r1

  skip2 : (off n k : ℕ) → off ≡ 5 + k → slice layout off n ≡ slice r2 k n
  unfolding r1
  skip2 off n k e = skip1 off n (1 + k) (omega arith) ∙ skip_be 1 f.typ r2 (1 + k) n k refl

  skip3 : (off n k : ℕ) → off ≡ 6 + k → slice layout off n ≡ slice r3 k n
  unfolding r2
  skip3 off n k e = skip2 off n (1 + k) (omega arith) ∙ skip_be 1 f.flags r3 (1 + k) n k refl

  skip4 : (off n k : ℕ) → off ≡ 8 + k → slice layout off n ≡ slice r4 k n
  unfolding r3
  skip4 off n k e = skip3 off n (2 + k) (omega arith) ∙ skip_be 2 0 r4 (2 + k) n k refl

  skip5 : (off n k : ℕ) → off ≡ 16 + k → slice layout off n ≡ slice r5 k n
  unfolding r4
  skip5 off n k e = skip4 off n (8 + k) (omega arith) ∙ skip_be 8 f.id r5 (8 + k) n k refl

  skip6 : (off n k : ℕ) → off ≡ 24 + k → slice layout off n ≡ slice r6 k n
  unfolding r5
  skip6 off n k e = skip5 off n (8 + k) (omega arith) ∙ skip_be 8 f.seq r6 (8 + k) n k refl

  skip7 : (off n k : ℕ) → off ≡ 32 + k → slice layout off n ≡ slice r7 k n
  unfolding r6
  skip7 off n k e = skip6 off n (8 + k) (omega arith) ∙ skip_be 8 f.ack r7 (8 + k) n k refl

  length_header : length (header_of f) ≡ stream_header_size
  unfolding header_of
  length_header = simp (length-append, length-put_be)

  magic_back : be (slice layout 0 4) ≡ magic
  unfolding layout
  magic_back = read_be 4 magic r1 (omega arith)

  typ_back : be (slice layout 4 1) ≡ f.typ
  unfolding r1
  typ_back = ap be (skip1 4 1 0 refl) ∙ read_be 1 f.typ r2 (omega arith)

  flags_back : be (slice layout 5 1) ≡ f.flags
  unfolding r2
  flags_back = ap be (skip2 5 1 0 refl) ∙ read_be 1 f.flags r3 (omega arith)

  id_back : be (slice layout 8 8) ≡ f.id
  unfolding r4
  id_back = ap be (skip4 8 8 0 refl) ∙ read_be 8 f.id r5 (omega arith)

  seq_back : be (slice layout 16 8) ≡ f.seq
  unfolding r5
  seq_back = ap be (skip5 16 8 0 refl) ∙ read_be 8 f.seq r6 (omega arith)

  ack_back : be (slice layout 24 8) ≡ f.ack
  unfolding r6
  ack_back = ap be (skip6 24 8 0 refl) ∙ read_be 8 f.ack r7 (omega arith)

  wnd_back : be (slice layout 32 4) ≡ f.wnd
  unfolding r7
  wnd_back = ap be (skip7 32 4 0 refl) ∙ read_be 4 f.wnd rest (omega arith)

  payload_back : drop stream_header_size layout ≡ rest
  payload_back =
      let e : stream_header_size ≡ length (header_of f) + 0 = omega (arith, length_header) in
      ap (drop stream_header_size) (sym layout_lem)
      ∙ ap (λ (n : ℕ). drop n (header_of f ++ rest)) e
      ∙ drop-past (header_of f) rest 0

  -- Every field is read where it was written.
  parse_layout : parse_frame layout ≡ some (record f { payload = rest })
  unfolding parse_frame fields_of
  parse_layout =
      let n : length layout ≡ stream_header_size + length rest =
        ap length (sym layout_lem)
        ∙ length-append (header_of f) rest
        ∙ omega (arith, length_header) in
      let long : ltb (length layout) stream_header_size ≡ false = ground (arith, n) in
      let known : (ltb f.typ 1 || ltb 5 f.typ) ≡ false = ground arith in
      simp (
        long, magic_back, typ_back, known, flags_back, id_back, seq_back, ack_back, wnd_back,
        payload_back,
      )

-- A frame that was written into a buffer with room for it is read back from the bytes that it takes
-- up, whatever stood in the buffer before.
pub parse-put_frame :
    (b : List ℕ) (f : WireFrame)
    → IsEncodable f
    → stream_header_size + length f.payload ≤ length b
    → (b' : List ℕ) × (n : ℕ) × (put_frame b f ≡ some (b', n))
      × (n ≡ stream_header_size + length f.payload)
      × (parse_frame (take n b') ≡ some f)
unfolding put_frame
parse-put_frame b f v room = (
  header_of f ++ (body ++ after),
  stream_header_size + length body,
  ground (arith, room),
  ap (λ (l : List ℕ). stream_header_size + length l) whole,
  ap parse_frame cut
      ∙ parse_layout f v body
      ∙ ap (λ (l : List ℕ). some (record f { payload = l })) whole,
)
  where
    body : List ℕ
    body = take (length b - stream_header_size) f.payload

    after : List ℕ
    after = drop (stream_header_size + length body) b

    whole : body ≡ f.payload
    whole = take-all (length b - stream_header_size) f.payload (omega (arith, room))

    cut : take (stream_header_size + length body) (header_of f ++ (body ++ after)) ≡ layout f v body
    cut =
        ap (take (stream_header_size + length body)) (sym (append_assoc (header_of f) body after))
        ∙ ap (λ (n : ℕ). take n ((header_of f ++ body) ++ after))
            (sym (length-append (header_of f) body ∙ omega (arith, length_header f v body)))
        ∙ take-exact (header_of f ++ body) after
        ∙ layout_lem f v body
